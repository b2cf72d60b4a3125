-- ===== src/Cryptochain/Verify/Evidence.antt =====
-- What the hash of the newest token says about the whole chain (internal/cryptochain/verify.go).
use mathlib.Core.Bool.{false≢true}
use twinval_go_backend.Prelude.{
  ◌≡◌, ◌≢◌, ◌⊎◌, inl, inr, refl, sym, ◌∙◌, true, List, [], ◌∷◌, map, arith, length, All, Bool-cases,
}
use twinval_go_backend.Prelude.Text.{Text, text_eq, text_eq_iff}
use twinval_go_backend.Cryptochain.Types.{ValuationToken, zero_hash}
use twinval_go_backend.Cryptochain.Hasher.{
  Library, token_fields, marshal_token_for_hash, sha256_hex, hash_token,
}
use twinval_go_backend.Cryptochain.Hasher.Injective.{
  IsFormat, IsPlain, marshal_token_for_hash-injective,
}
use twinval_go_backend.Cryptochain.Chain.{CryptoChain, last_hash}
use twinval_go_backend.Cryptochain.Chain.Laws.{IsLinked}
use twinval_go_backend.Cryptochain.Verify.{verify}
use twinval_go_backend.Cryptochain.Verify.Correct.{verify-Outcome}

module _ {W : Type 0} (lib : Library W) where
  -- The texts that HashToken hashes differ, and the hashes agree.
  abbrev pub Collide : ValuationToken W → ValuationToken W → Type 0
  Collide t u =
      (marshal_token_for_hash lib t ≢ marshal_token_for_hash lib u)
      × (sha256_hex lib (marshal_token_for_hash lib t)
          ≡ sha256_hex lib (marshal_token_for_hash lib u))

  -- Two tokens at the same place of two lists collide.
  abbrev pub Collision : List (ValuationToken W) → List (ValuationToken W) → Type 0
  Collision [] us = ⊥
  Collision (t ∷ ts) [] = ⊥
  Collision (t ∷ ts) (u ∷ us) = Collide t u ⊎ Collision ts us

  same_hash :
      (t u : ValuationToken W)
      → IsFormat W lib
      → IsPlain t
      → IsPlain u
      → hash_token lib t ≡ hash_token lib u
      → (token_fields lib t ≡ token_fields lib u) ⊎ Collide t u
  unfolding hash_token
  same_hash t u law pt pu e =
      let a = marshal_token_for_hash lib t in
      let b = marshal_token_for_hash lib u in
      let same = text_eq_iff a b in
      elim (Bool-cases (text_eq a b)) [
        | inl y ↦ inl (marshal_token_for_hash-injective lib t u law pt pu (same.0 y))
        | inr n ↦ inr (λ q. false≢true (sym n ∙ same.1 q), e)
      ]

  preceding_eq :
      (t u : ValuationToken W)
      → token_fields lib t ≡ token_fields lib u
      → t.preceding_hash ≡ u.preceding_hash
  preceding_eq t u e = cc

  linked_same :
      (expected expected' : Text) (ts us : List (ValuationToken W))
      → IsFormat W lib
      → All IsPlain ts
      → All IsPlain us
      → length ts ≡ length us
      → IsLinked lib expected ts
      → IsLinked lib expected' us
      → last_hash expected ts ≡ last_hash expected' us
      → ((expected ≡ expected') × (map (token_fields lib) ts ≡ map (token_fields lib) us))
        ⊎ Collision ts us
  unfolding last_hash
  linked_same x y [] [] law ps qs n l m e = inl (e, refl)
  linked_same x y [] (u ∷ us) law ps qs n l m e = absurd (omega arith)
  linked_same x y (t ∷ ts) [] law ps qs n l m e = absurd (omega arith)
  linked_same x y (t ∷ ts) (u ∷ us) law (p, ps) (q, qs) n (ht, pt, l) (hu, pu, m) e =
      elim (linked_same t.token_hash u.token_hash ts us law ps qs (omega arith) l m e) [
        | inr c ↦ inr (inr c)
        | inl (h, r) ↦ elim (same_hash t u law p q (ht ∙ h ∙ sym hu)) [
          | inr c ↦ inr (inl c)
          | inl f ↦ inl (sym pt ∙ preceding_eq t u f ∙ pu, rw (f, r) refl)
        ]
      ]

  verified-IsLinked :
      (c : CryptoChain W) → (verify lib c).chain_valid ≡ true → IsLinked lib zero_hash c.tokens
  verified-IsLinked c v = elim (verify-Outcome lib c) [
    | inl (l, e, b) ↦ l
    | inr (n, small, l, broken, e, b) ↦ cc
  ]

  -- The newest hash fixes the history: take two chains of the same length that Verify reports as
  -- valid and whose newest tokens have the same hash, with number formats and text fields free of
  -- the separator. Then the two chains agree in every formatted field of every token, or at some
  -- place the tokens of the two chains are hashed as two different texts, and have the same
  -- SHA-256 hash.
  pub verify-evidence :
      (c d : CryptoChain W)
      → IsFormat W lib
      → All IsPlain c.tokens
      → All IsPlain d.tokens
      → length c.tokens ≡ length d.tokens
      → (verify lib c).chain_valid ≡ true
      → (verify lib d).chain_valid ≡ true
      → last_hash zero_hash c.tokens ≡ last_hash zero_hash d.tokens
      → (map (token_fields lib) c.tokens ≡ map (token_fields lib) d.tokens)
        ⊎ Collision c.tokens d.tokens
  verify-evidence c d law ps qs n v w e =
      elim (linked_same zero_hash zero_hash c.tokens d.tokens law ps qs n (verified-IsLinked c v)
        (verified-IsLinked d w) e) [ inl (h, r) ↦ inl r | inr k ↦ inr k ]
