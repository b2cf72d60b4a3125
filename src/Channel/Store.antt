-- ===== src/Channel/Store.antt =====
-- Operations on all channels of the store.
use mathlib.Core.Path.{subst}
use mathlib.Core.List.{append_assoc}
use mathlib.Core.Option.{some-injective}
use twinval_go_backend.Prelude.{
  ℕ, zero, suc, ◌+◌, ◌≤◌, ◌≡◌, refl, ap, ◌∙◌, Bool, true, false, Option, none, some, List, [], ◌∷◌,
  ◌++◌, map, arith, length, length-append, if◌then◌else◌, ltb, ◌>>=◌, All,
}
use twinval_go_backend.Channel.{Channel, try_send, close, pop, at, for_each}

abbrev pub range : ℕ → ℕ → List ℕ
range k zero = []
range k (suc n) = k ∷ range (suc k) n

range-snoc : (k n : ℕ) → range k n ++ ((k + n) ∷ []) ≡ range k (suc n)
range-snoc k zero = ap (λ i. i ∷ []) (omega arith)
range-snoc k (suc n) =
    ap (λ is. k ∷ is) (ap (λ i. range (suc k) n ++ (i ∷ [])) (omega arith) ∙ range-snoc (suc k) n)

pub bind_inv :
    {B C : Type 0} (o : Option B) (k : B → Option C) (c : C)
    → (o >>= k) ≡ some c
    → (b : B) × (o ≡ some b) × (k b ≡ some c)
bind_inv none k c e = cc
bind_inv (some b) k c e = (b, refl, e)

pub range-next : (n : ℕ) → range 0 n ++ (n ∷ []) ≡ range 0 (n + 1)
range-next n =
    let z : n ≡ 0 + n = omega arith in
    let e : suc n ≡ n + 1 = omega arith in
    ap (λ i. range 0 n ++ (i ∷ [])) z ∙ range-snoc 0 n ∙ ap (range 0) e

module _ {A : Type 0} where
  abbrev pub IsOpen : Channel A → Type 0
  IsOpen ch = ch.is_closed ≡ false

  abbrev pub IsClosed : Channel A → Type 0
  IsClosed ch = ch.is_closed ≡ true

  -- No more elements than the buffer has room for.
  abbrev pub IsBounded : Channel A → Type 0
  IsBounded ch = length ch.buffer ≤ ch.buffer_size

  at-append :
      (f : Channel A → Option (Channel A)) (pre cs : List (Channel A)) (c c' : Channel A)
      → f c ≡ some c'
      → at f (pre ++ (c ∷ cs)) (length pre) ≡ some (pre ++ (c' ∷ cs))
  unfolding at
  at-append f [] cs c c' e = rw e refl
  at-append f (p ∷ ps) cs c c' e = rw (at-append f ps cs c c' e) refl

  -- An operation that no channel of the store refuses, on each of them in turn.
  pub for_each-range :
      (f : Channel A → Option (Channel A)) (g : Channel A → Channel A) (pre cs : List (Channel A))
      → All (λ c. f c ≡ some (g c)) cs
      → for_each f (pre ++ cs) (range (length pre) (length cs)) ≡ some (pre ++ map g cs)
  unfolding for_each
  for_each-range f g pre [] h = refl
  for_each-range f g pre (c ∷ cs) (e, h) = rw (at-append f pre cs c (g c) e) (
      rw (longer, append_assoc pre (g c ∷ []) cs, append_assoc pre (g c ∷ []) (map g cs)) at
        (for_each-range f g (pre ++ (g c ∷ [])) cs h))
    where
      longer : length (pre ++ (g c ∷ [])) ≡ suc (length pre)
      longer = length-append pre (g c ∷ []) ∙ omega arith

  -- What one operation keeps of a channel, it keeps of the store.
  pub at-All :
      (P : Channel A → Type 0) (f : Channel A → Option (Channel A)) (chs chs' : List (Channel A))
      (i : ℕ)
      → at f chs i ≡ some chs'
      → ((c c' : Channel A) → f c ≡ some c' → P c → P c')
      → All P chs
      → All P chs' × (length chs' ≡ length chs)
  unfolding at
  at-All P f [] chs' i e h a = cc
  at-All P f (c ∷ cs) chs' zero e h (p, a) =
      let (c', q, r) = bind_inv (f c) _ chs' e in
      subst (λ xs. All P xs × (length xs ≡ suc (length cs))) (some-injective _ _ r)
        ((h c c' q p, a), refl)
  at-All P f (c ∷ cs) chs' (suc i) e h (p, a) =
      let (cs', q, r) = bind_inv (at f cs i) _ chs' e in
      let (all, n) = at-All P f cs cs' i q h a in
      subst (λ xs. All P xs × (length xs ≡ suc (length cs))) (some-injective _ _ r)
        ((p, all), ap suc n)

  pub All-map :
      (P Q : Channel A → Type 0) (g : Channel A → Channel A) (cs : List (Channel A))
      → ((c : Channel A) → P c → Q (g c))
      → All P cs
      → All Q (map g cs)
  All-map P Q g [] h a = tt
  All-map P Q g (c ∷ cs) h (p, a) = (h c p, All-map P Q g cs h a)

  pub All-weaken :
      (P Q : Channel A → Type 0) (cs : List (Channel A))
      → ((c : Channel A) → P c → Q c)
      → All P cs
      → All Q cs
  All-weaken P Q [] h a = tt
  All-weaken P Q (c ∷ cs) h (p, a) = (h c p, All-weaken P Q cs h a)

  -- The channel after a send that does not block.
  abbrev pub delivered : A → Channel A → Channel A
  delivered x ch =
      if ltb (length ch.buffer) ch.buffer_size
      then record ch { buffer = ch.buffer ++ (x ∷ []) }
      else ch

  abbrev pub shut : Channel A → Channel A
  shut ch = record ch { is_closed = true }

  pub try_send-IsOpen : (x : A) (ch : Channel A) → IsOpen ch → try_send ch x ≡ some (delivered x ch)
  unfolding try_send
  try_send-IsOpen x ch e = rw e refl

  pub close-IsOpen : (ch : Channel A) → IsOpen ch → close ch ≡ some (shut ch)
  unfolding close
  close-IsOpen ch e = rw e refl

  pub delivered-IsBounded : (x : A) (ch : Channel A) → IsBounded ch → IsBounded (delivered x ch)
  delivered-IsBounded x ch h = ground (arith, length-append ch.buffer (x ∷ []))

  pub delivered-IsOpen : (x : A) (ch : Channel A) → IsOpen ch → IsOpen (delivered x ch)
  delivered-IsOpen x ch h = ground arith

  pub pop-IsBounded : (c c' : Channel A) → pop c ≡ some c' → IsBounded c → IsBounded c'
  unfolding pop
  pop-IsBounded c c' e h = ground arith

  pub pop-is_closed :
      (b : Bool) (c c' : Channel A) → pop c ≡ some c' → c.is_closed ≡ b → c'.is_closed ≡ b
  unfolding pop
  pop-is_closed b c c' e h = ground arith
