-- ===== src/Cryptochain/Verify.antt =====
-- internal/cryptochain/verify.go.
pub mod Correct
pub mod Evidence
use twinval_go_backend.Prelude.{
  ℕ, zero, suc, ◌+◌, Bool, true, false, not, ◌&&◌, List, [], ◌∷◌, ◌++◌, if◌then◌else◌,
}
use twinval_go_backend.Prelude.Int.{ℤ, pos, negsuc}
use twinval_go_backend.Prelude.Text.{Text, text_eq}
use twinval_go_backend.Cryptochain.Types.{ValuationToken, VerificationReport, zero_hash}
use twinval_go_backend.Cryptochain.Hasher.{Library, hash_token}
use twinval_go_backend.Cryptochain.Chain.{CryptoChain}

-- `report.BrokenAtIndex == -1`.
abbrev is_unbroken : ℤ → Bool
is_unbroken (negsuc zero) = true
is_unbroken _ = false

-- `report.PerToken[i] = ok`, and the first failure.
abbrev pub note : ℕ → Bool → VerificationReport → VerificationReport
note i ok report =
    let first = not ok && is_unbroken report.broken_at_index in
    record {
      per_token = report.per_token ++ (ok ∷ []);
      chain_valid = if first then false else report.chain_valid;
      broken_at_index = if first then pos i else report.broken_at_index;
    }

module _ {W : Type 0} (lib : Library W) where
  -- Both checks of one token.
  unfoldable pub token_ok : Text → ValuationToken W → Bool
  token_ok expected_preceding t =
      text_eq (hash_token lib t) t.token_hash && text_eq t.preceding_hash expected_preceding

  -- The loop from index `i` on. `expected` is the hash of the token before it.
  unfoldable pub verify_from :
      Text → ℕ → List (ValuationToken W) → VerificationReport → VerificationReport
  verify_from expected i [] report = report
  verify_from expected i (t ∷ ts) report =
      verify_from t.token_hash (i + 1) ts (note i (token_ok expected t) report)

  unfoldable pub verify : CryptoChain W → VerificationReport
  unfolding verify_from token_ok
  verify c =
      verify_from zero_hash 0 c.tokens
        (record { per_token = []; chain_valid = true; broken_at_index = negsuc 0 })
