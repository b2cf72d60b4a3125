-- ===== src/Cryptochain/Chain/Laws.antt =====
-- The ledger as an append-only, linked list of tokens.
use twinval_go_backend.Prelude.{
  ℕ, zero, suc, ◌+◌, ◌<◌, ◌≡◌, refl, ap, Option, none, some, List, [], ◌∷◌, ◌++◌, map, arith,
  length, length-append, get_elem?, All, Bool-cases, inl, inr,
}
use twinval_go_backend.Prelude.Int.{pos}
use twinval_go_backend.Prelude.Text.{Text}
use twinval_go_backend.Float.{Float64}
use twinval_go_backend.Cryptochain.Types.{ValuationToken, AuditRecord, FrozenParameters, zero_hash}
use twinval_go_backend.Cryptochain.Hasher.{Library, hash_token, marshal_token_for_hash}
use twinval_go_backend.Cryptochain.Chain.{
  CryptoChain, last_hash, last, head, len, get_token, to_audit_mode, append, finalise,
  is_zero_value,
}

-- Each token carries its own hash, and the hash of the one before it.
abbrev pub IsLinked : {W : Type 0} → Library W → Text → List (ValuationToken W) → Type 0
IsLinked lib expected [] = Unit
IsLinked lib expected (t ∷ ts) =
    (hash_token lib t ≡ t.token_hash) × (t.preceding_hash ≡ expected) × IsLinked lib t.token_hash ts

module _ {W : Type 0} (lib : Library W) where
  IsLinked-snoc :
      (expected : Text) (ts : List (ValuationToken W)) (t : ValuationToken W)
      → IsLinked lib expected ts
      → hash_token lib t ≡ t.token_hash
      → t.preceding_hash ≡ last_hash expected ts
      → IsLinked lib expected (ts ++ (t ∷ []))
  unfolding last_hash
  IsLinked-snoc expected [] t l h p = (h, p, tt)
  IsLinked-snoc expected (u ∷ us) t (hu, pu, l) h p =
      (hu, pu, IsLinked-snoc u.token_hash us t l h p)

pub last-snoc :
    {W : Type 0} (ts : List (ValuationToken W)) (t : ValuationToken W)
    → last (ts ++ (t ∷ [])) ≡ some t
unfolding last
last-snoc [] t = refl
last-snoc (u ∷ []) t = refl
last-snoc (u ∷ v ∷ us) t = last-snoc (v ∷ us) t

get_elem?-append_left :
    {A : Type 0} (xs ys : List A) (i : ℕ) → i < length xs → get_elem? (xs ++ ys) i ≡ get_elem? xs i
get_elem?-append_left [] ys i h = absurd (omega arith)
get_elem?-append_left (x ∷ xs) ys zero h = refl
get_elem?-append_left (x ∷ xs) ys (suc i) h = get_elem?-append_left xs ys i (omega arith)

module _ {W : Type 0} ⦃d : Float64 W⦄ (lib : Library W) where
  finalise_hash :
      (tokens : List (ValuationToken W)) (t : ValuationToken W)
      → hash_token lib (finalise lib tokens t) ≡ (finalise lib tokens t).token_hash
  unfolding hash_token marshal_token_for_hash
  finalise_hash tokens t = refl

  append_inv :
      (c : CryptoChain W) (t : ValuationToken W) {t' : ValuationToken W} {c' : CryptoChain W}
      → append lib c t ≡ some (t', c')
      → (t' ≡ finalise lib c.tokens t)
        × (c' ≡ record c { tokens = c.tokens ++ (finalise lib c.tokens t ∷ []) })
  unfolding append
  append_inv c t e = ground arith

  -- What Append changes, when it accepts a token: the chain is longer by one, every token that was
  -- there is still found at its index, the returned token is the new head, and the configuration
  -- and the caller's six fields are kept.
  append_effect :
      (c : CryptoChain W) (t : ValuationToken W) (i : ℕ) {t' : ValuationToken W}
      {c' : CryptoChain W}
      → append lib c t ≡ some (t', c')
      → i < len c
      → (len c' ≡ len c + 1)
        × (get_token c' (pos i) ≡ get_token c (pos i))
        × (head c' ≡ some t')
        × (c'.cfg ≡ c.cfg)
        × (record t {
          token_id = t'.token_id;
          preceding_hash = t'.preceding_hash;
          token_hash = t'.token_hash;
        }
            ≡ t')
  unfolding len get_token head
  append_effect c t i e h =
      let (p, q) = append_inv c t e in
      rw (p, q)
        (
          rw (length-append c.tokens (finalise lib c.tokens t ∷ [])),
          get_elem?-append_left c.tokens _ i h,
          last-snoc c.tokens _,
          refl,
          refl,
        )

  -- A chain that refused a token stays as it is.
  abbrev pub after : CryptoChain W → Option (ValuationToken W × CryptoChain W) → CryptoChain W
  after c none = c
  after c (some (t, c')) = c'

  -- A sequence of Append calls.
  pub append_all : CryptoChain W → List (ValuationToken W) → CryptoChain W
  append_all c [] = c
  append_all c (t ∷ ts) = append_all (after c (append lib c t)) ts

  pub append-IsLinked :
      (c : CryptoChain W) (t : ValuationToken W)
      → IsLinked lib zero_hash c.tokens
      → IsLinked lib zero_hash (after c (append lib c t)).tokens
  unfolding append
  append-IsLinked c t l = elim (Bool-cases (is_zero_value t)) [
    | inl e ↦ rw e l
    | inr e ↦ rw e (IsLinked-snoc lib zero_hash c.tokens _ l (finalise_hash c.tokens t) refl)
  ]

  pub append_all-IsLinked :
      (c : CryptoChain W) (ts : List (ValuationToken W))
      → IsLinked lib zero_hash c.tokens
      → IsLinked lib zero_hash (append_all c ts).tokens
  unfolding append_all
  append_all-IsLinked c [] l = l
  append_all-IsLinked c (t ∷ ts) l =
      append_all-IsLinked (after c (append lib c t)) ts (append-IsLinked c t l)

module _ {W : Type 0} where
  map_token :
      (f : FrozenParameters W) (ts : List (ValuationToken W))
      → map
          (λ (r : AuditRecord W). r.token)
          (map (λ (t : ValuationToken W). record { token = t; frozen_parameters = f }) ts)
        ≡ ts
  map_token f [] = refl
  map_token f (t ∷ ts) = ap (◌∷◌ t) (map_token f ts)

  All-frozen :
      (f : FrozenParameters W) (ts : List (ValuationToken W))
      → All
          (λ (r : AuditRecord W). r.frozen_parameters ≡ f)
          (map (λ (t : ValuationToken W). record { token = t; frozen_parameters = f }) ts)
  All-frozen f [] = tt
  All-frozen f (t ∷ ts) = (refl, All-frozen f ts)

  -- ToAuditMode loses nothing and adds the frozen parameters: the records hold the chain's tokens,
  -- in order, and each carries the frozen parameters of the chain's configuration.
  to_audit_mode_lem :
      (c : CryptoChain W)
      → (map (λ (r : AuditRecord W). r.token) (to_audit_mode c) ≡ c.tokens)
        × All
            (λ (r : AuditRecord W). r.frozen_parameters ≡ c.cfg.frozen_parameters)
            (to_audit_mode c)
  unfolding to_audit_mode
  to_audit_mode_lem c =
      (map_token c.cfg.frozen_parameters c.tokens, All-frozen c.cfg.frozen_parameters c.tokens)
