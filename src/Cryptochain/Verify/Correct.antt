-- ===== src/Cryptochain/Verify/Correct.antt =====
-- Verify against the links that a chain must have.
use mathlib.Core.Bool.{false≢true}
use mathlib.Core.Option.{some-injective}
use mathlib.Core.List.{append-nil, append_assoc}
use twinval_go_backend.Prelude.{
  ℕ, zero, suc, ◌+◌, ◌<◌, ◌≡◌, ◌↔◌, ◌⊎◌, inl, inr, refl, sym, ap, ◌∙◌, Bool, true, false, some,
  List, [], ◌∷◌, ◌++◌, arith, length, take, get_elem?, Bool-cases,
}
use twinval_go_backend.Prelude.Int.{pos, negsuc}
use twinval_go_backend.Prelude.Text.{Text, text_eq_iff}
use twinval_go_backend.Float.{Float64}
use twinval_go_backend.Cryptochain.Types.{
  ValuationToken, VerificationReport, ChainConfig, zero_hash,
}
use twinval_go_backend.Cryptochain.Hasher.{Library, hash_token}
use twinval_go_backend.Cryptochain.Chain.{CryptoChain, last_hash, new_chain}
use twinval_go_backend.Cryptochain.Chain.Laws.{IsLinked, append_all, append_all-IsLinked}
use twinval_go_backend.Cryptochain.Verify.{token_ok, note, verify_from, verify}

module _ {W : Type 0} (lib : Library W) where
  token_ok_iff :
      (expected : Text) (t : ValuationToken W)
      → (token_ok lib expected t ≡ true)
        ↔ ((hash_token lib t ≡ t.token_hash) × (t.preceding_hash ≡ expected))
  unfolding token_ok
  token_ok_iff expected t =
      ground
        (arith, text_eq_iff (hash_token lib t) t.token_hash, text_eq_iff t.preceding_hash expected)

  -- Once a failure is noted, the verdict stays.
  verify_from_broken :
      (expected : Text) (i k : ℕ) (ts : List (ValuationToken W)) (report : VerificationReport)
      → report.broken_at_index ≡ pos k
      → let r = verify_from lib expected i ts report in
        (r.broken_at_index ≡ pos k) × (r.chain_valid ≡ report.chain_valid)
  unfolding verify_from
  verify_from_broken expected i k [] report e = (e, refl)
  verify_from_broken expected i k (t ∷ ts) report e = ground (
    arith,
    verify_from_broken t.token_hash (i + 1) k ts (note i (token_ok lib expected t) report),
  )

  -- The chain is linked, or `n` is the first index whose token breaks the links.
  abbrev pub Outcome : Text → ℕ → List (ValuationToken W) → VerificationReport → Type 0
  Outcome expected i ts r =
      (IsLinked lib expected ts × (r.chain_valid ≡ true) × (r.broken_at_index ≡ negsuc 0))
      ⊎ ((n : ℕ) × (n < length ts)
          × IsLinked lib expected (take n ts)
          × (¬ IsLinked lib expected (take (suc n) ts))
          × (r.chain_valid ≡ false)
          × (r.broken_at_index ≡ pos (i + n)))

  extend :
      (expected : Text) (i : ℕ) (t : ValuationToken W) (ts : List (ValuationToken W))
      (r : VerificationReport)
      → (hash_token lib t ≡ t.token_hash) × (t.preceding_hash ≡ expected)
      → Outcome t.token_hash (i + 1) ts r
      → Outcome expected i (t ∷ ts) r
  extend expected i t ts r (h, p) (inl (l, v, b)) = inl ((h, p, l), v, b)
  extend expected i t ts r (h, p) (inr (n, small, l, nl, v, b)) =
      inr (suc n, omega arith, (h, p, l), λ m. nl m.2, v, b ∙ ap pos (omega arith))

  verify_from-Outcome :
      (expected : Text) (i : ℕ) (ts : List (ValuationToken W)) (report : VerificationReport)
      → report.chain_valid ≡ true
      → report.broken_at_index ≡ negsuc 0
      → Outcome expected i ts (verify_from lib expected i ts report)
  unfolding verify_from
  verify_from-Outcome expected i [] report v b = inl (tt, v, b)
  verify_from-Outcome expected i (t ∷ ts) report v b = elim (Bool-cases (token_ok lib expected t)) [
    | inl good ↦
        rw (verify_from, good)
          (extend expected i t ts (verify_from lib t.token_hash (i + 1) ts (note i true report))
            ((token_ok_iff expected t).0 good)
            (verify_from-Outcome t.token_hash (i + 1) ts (note i true report) v b))
    | inr bad ↦
        let noted : (note i false report).broken_at_index ≡ pos i = rw b in
        let stays = verify_from_broken t.token_hash (i + 1) i ts (note i false report) noted in
        let wrong : ¬ IsLinked lib expected (t ∷ []) =
          λ l. false≢true (sym bad ∙ (token_ok_iff expected t).1 (l.0, l.1)) in
        rw (verify_from, bad)
          (inr (0, omega arith, tt, wrong, stays.1 ∙ rw b, stays.0 ∙ ap pos (omega arith)))
  ]

  -- The verdict of Verify: either every token carries its own hash and the hash of the token before
  -- it (64 zeros for the first one), and the chain is reported valid with index -1; or the chain is
  -- reported invalid, and the index is that of the first token which breaks this: the tokens before
  -- it are linked, and with it they are not.
  pub verify-Outcome : (c : CryptoChain W) → Outcome zero_hash 0 c.tokens (verify lib c)
  unfolding verify
  verify-Outcome c = verify_from-Outcome zero_hash 0 c.tokens _ refl refl

  checks : Text → List (ValuationToken W) → List Bool
  checks expected [] = []
  checks expected (t ∷ ts) = token_ok lib expected t ∷ checks t.token_hash ts

  per_token-checks :
      (expected : Text) (i : ℕ) (ts : List (ValuationToken W)) (report : VerificationReport)
      → (verify_from lib expected i ts report).per_token ≡ report.per_token ++ checks expected ts
  unfolding verify_from checks
  per_token-checks expected i [] report = sym (append-nil report.per_token)
  per_token-checks expected i (t ∷ ts) report =
      per_token-checks t.token_hash (i + 1) ts (note i (token_ok lib expected t) report)
      ∙ append_assoc report.per_token (token_ok lib expected t ∷ []) (checks t.token_hash ts)

  checks_at :
      (expected : Text) (ts : List (ValuationToken W)) (i : ℕ) (t : ValuationToken W)
      → get_elem? ts i ≡ some t
      → get_elem? (checks expected ts) i ≡ some (token_ok lib (last_hash expected (take i ts)) t)
  unfolding checks last_hash
  checks_at expected [] i t e = cc
  checks_at expected (u ∷ us) zero t e =
      ap (λ v. some (token_ok lib expected v)) (some-injective _ _ e)
  checks_at expected (u ∷ us) (suc i) t e = checks_at u.token_hash us i t e

  -- PerToken of Verify: the entry at the index of a token is true exactly if the token carries its
  -- own hash and the hash of the token before it (64 zeros for the first one).
  verify_per_token :
      (c : CryptoChain W) (i : ℕ) (t : ValuationToken W)
      → get_elem? c.tokens i ≡ some t
      → (get_elem? (verify lib c).per_token i ≡ some true) ↔ (
          (hash_token lib t ≡ t.token_hash)
          × (t.preceding_hash ≡ last_hash zero_hash (take i c.tokens)))
  unfolding verify
  verify_per_token c i t e =
      let k = token_ok_iff (last_hash zero_hash (take i c.tokens)) t in
      rw (per_token-checks zero_hash 0 c.tokens _, checks_at zero_hash c.tokens i t e)
        (λ s. k.0 (some-injective _ _ s), λ h. ap some (k.1 h))

module _ {W : Type 0} (lib : Library W) where
  IsLinked-take :
      (expected : Text) (ts : List (ValuationToken W)) (n : ℕ)
      → IsLinked lib expected ts
      → IsLinked lib expected (take n ts)
  IsLinked-take expected [] zero l = tt
  IsLinked-take expected [] (suc n) l = tt
  IsLinked-take expected (t ∷ ts) zero l = tt
  IsLinked-take expected (t ∷ ts) (suc n) (h, p, l) = (h, p, IsLinked-take t.token_hash ts n l)

  pub verify-IsLinked :
      (c : CryptoChain W)
      → IsLinked lib zero_hash c.tokens
      → ((verify lib c).chain_valid ≡ true) × ((verify lib c).broken_at_index ≡ negsuc 0)
  verify-IsLinked c l = elim (verify-Outcome lib c) [
    | inl (m, v, b) ↦ (v, b)
    | inr (n, small, m, broken, v, b) ↦ absurd (broken (IsLinked-take zero_hash c.tokens (suc n) l))
  ]

module _ {W : Type 0} ⦃d : Float64 W⦄ (lib : Library W) where
  -- A chain built by any sequence of Append calls on a new chain, those that Append refuses
  -- included, is reported valid by Verify, with index -1.
  pub verify-append_all :
      (cfg : ChainConfig W) (ts : List (ValuationToken W))
      → let r = verify lib (append_all lib (new_chain cfg) ts) in
        (r.chain_valid ≡ true) × (r.broken_at_index ≡ negsuc 0)
  unfolding new_chain
  verify-append_all cfg ts =
      verify-IsLinked lib (append_all lib (new_chain cfg) ts)
        (append_all-IsLinked lib (new_chain cfg) ts tt)
