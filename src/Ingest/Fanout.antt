-- ===== src/Ingest/Fanout.antt =====
-- The subscribers of internal/ingest/webhook.go and internal/ingest/bms.go: the two receivers have
-- the same fields and the same three methods for them, each a section under the mutex. A channel
-- is shared by the list of subscribers and its reader, so channels live in a store and both hold
-- an index.
pub mod Laws
use twinval_go_backend.Prelude.{
  ℕ, zero, suc, ◌≡◌, Bool, true, false, Option, none, some, List, [], ◌∷◌, ◌++◌, length,
  if◌then◌else◌, ◌>>=◌,
}
use twinval_go_backend.Prelude.Int.{ℤ, pos, negsuc}
use twinval_go_backend.Channel.{Channel, make_chan, try_send, close, pop, at, for_each}

pub record Fanout (A : Type 0) : Type 0 where
  pub buffer_size : ℕ
  pub channels : List (Channel A)
  pub subscribers : List ℕ
  pub stopped : Bool

-- `if cfg.SubscriberBufferSize <= 0 { cfg.SubscriberBufferSize = 64 }`.
abbrev pub subscriber_buffer : ℤ → ℕ
subscriber_buffer (pos zero) = 64
subscriber_buffer (pos (suc n)) = suc n
subscriber_buffer (negsuc n) = 64

module _ {A : Type 0} where
  abbrev pub empty : ℤ → Fanout A
  empty size = record {
    buffer_size = subscriber_buffer size;
    channels = [];
    subscribers = [];
    stopped = false;
  }

  -- Subscribe: the channel, closed already once the receiver has stopped, has the next index.
  unfoldable pub subscribe : Fanout A → Fanout A
  subscribe f =
      if f.stopped
      then record f {
        channels = f.channels ++ (record (make_chan f.buffer_size) { is_closed = true } ∷ []);
      }
      else record f {
        channels = f.channels ++ (make_chan f.buffer_size ∷ []);
        subscribers = f.subscribers ++ (length f.channels ∷ []);
      }

  -- `none` is a panic.
  unfoldable pub broadcast : Fanout A → A → Option (Fanout A)
  unfolding for_each at try_send
  broadcast f batch = do
    chs ← for_each (λ ch. try_send ch batch) f.channels f.subscribers
    some (record f { channels = chs })

  unfoldable pub close_subscribers : Fanout A → Option (Fanout A)
  unfolding for_each at close
  close_subscribers f = if f.stopped then some f else do
    chs ← for_each close f.channels f.subscribers
    some (record f { channels = chs; subscribers = []; stopped = true })

  -- The reader of a channel takes its oldest batch.
  unfoldable pub receive : Fanout A → ℕ → Option (Fanout A)
  unfolding at pop
  receive f i = do chs ← at pop f.channels i; some (record f { channels = chs })
