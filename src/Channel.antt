-- ===== src/Channel.antt =====
-- Buffered Go channels in a store, shared by the loops of internal/sync/statemachine.go,
-- internal/ingest/webhook.go and internal/ingest/bms.go over their subscribers. Two parties that
-- hold the same channel hold the same index.
pub mod Store
use twinval_go_backend.Prelude.{
  ℕ, zero, suc, Bool, true, false, Option, none, some, List, [], ◌∷◌, ◌++◌, length, if◌then◌else◌,
  ltb, ◌>>=◌,
}

-- A buffered channel: what it holds, the oldest first.
pub record Channel (A : Type 0) : Type 0 where
  pub buffer_size : ℕ
  pub buffer : List A
  pub is_closed : Bool

module _ {A : Type 0} where
  -- `make(chan A, n)` for n from 0 on.
  abbrev pub make_chan : ℕ → Channel A
  make_chan n = record { buffer_size = n; buffer = []; is_closed = false }

  -- `select { case ch <- x: default: }`. A send on a closed channel panics: `none`.
  unfoldable pub try_send : Channel A → A → Option (Channel A)
  try_send ch x =
      if ch.is_closed
      then none
      else some (
          if ltb (length ch.buffer) ch.buffer_size
          then record ch { buffer = ch.buffer ++ (x ∷ []) }
          else ch)

  -- `close(ch)`, which panics on a closed channel.
  unfoldable pub close : Channel A → Option (Channel A)
  close ch = if ch.is_closed then none else some (record ch { is_closed = true })

  -- `<-ch`: `none` where the buffer is empty.
  unfoldable pub pop : Channel A → Option (Channel A)
  pop ch = elim ch.buffer [ [] ↦ none | x ∷ xs ↦ some (record ch { buffer = xs }) ]

  -- An operation on the channel at an index.
  unfoldable pub at :
      (Channel A → Option (Channel A)) → List (Channel A) → ℕ → Option (List (Channel A))
  at f [] i = none
  at f (ch ∷ chs) zero = do ch' ← f ch; some (ch' ∷ chs)
  at f (ch ∷ chs) (suc i) = do chs' ← at f chs i; some (ch ∷ chs')

  -- The loop over the subscribers.
  unfoldable pub for_each :
      (Channel A → Option (Channel A)) → List (Channel A) → List ℕ → Option (List (Channel A))
  for_each f chs [] = some chs
  for_each f chs (i ∷ is) = do chs' ← at f chs i; for_each f chs' is
