-- ===== src/Cryptochain/Chain.antt =====
-- internal/cryptochain/chain.go. The mutex makes each method one step, so a method is a function.
pub mod Laws
use twinval_go_backend.Prelude.{
  ℕ, zero, suc, ◌+◌, ◌%◌, ◌^◌, Bool, true, false, ◌&&◌, Option, none, some, List, [], ◌∷◌, ◌++◌,
  map, length, get_elem?, if◌then◌else◌, ◌==◌,
}
use twinval_go_backend.Prelude.Int.{ℤ, pos, negsuc}
use twinval_go_backend.Prelude.Text.{Text, text_eq}
use twinval_go_backend.Float.{Float64, fl}
use twinval_go_backend.Cryptochain.Types.{
  ValuationToken, FrozenParameters, AuditRecord, ChainConfig, zero_hash,
}
use twinval_go_backend.Cryptochain.Hasher.{Library, hash_token}

pub record CryptoChain (W : Type 0) : Type 0 where
  pub cfg : ChainConfig W
  pub tokens : List (ValuationToken W)

abbrev is_zero_int : ℤ → Bool
is_zero_int (pos zero) = true
is_zero_int (pos (suc n)) = false
is_zero_int (negsuc n) = false

module _ {W : Type 0} where
  -- The hash that the next token must carry: the last one's, or `expected` if there is none.
  unfoldable pub last_hash : Text → List (ValuationToken W) → Text
  last_hash expected [] = expected
  last_hash expected (t ∷ ts) = last_hash t.token_hash ts

  unfoldable pub last : List (ValuationToken W) → Option (ValuationToken W)
  last [] = none
  last (t ∷ []) = some t
  last (t ∷ u ∷ ts) = last (u ∷ ts)

  unfoldable pub new_chain : ChainConfig W → CryptoChain W
  new_chain cfg = record { cfg = cfg; tokens = [] }

  unfoldable pub head : CryptoChain W → Option (ValuationToken W)
  unfolding last
  head c = last c.tokens

  unfoldable pub len : CryptoChain W → ℕ
  len c = length c.tokens

  unfoldable pub get_token : CryptoChain W → ℤ → Option (ValuationToken W)
  get_token c (pos i) = get_elem? c.tokens i
  get_token c (negsuc i) = none

  unfoldable pub to_audit_mode : CryptoChain W → List (AuditRecord W)
  to_audit_mode c =
      map (λ t. record { token = t; frozen_parameters = c.cfg.frozen_parameters }) c.tokens

module _ {W : Type 0} ⦃d : Float64 W⦄ where
  -- `t == (ValuationToken{})`.
  unfoldable pub is_zero_value : ValuationToken W → Bool
  is_zero_value t =
      (t.token_id == 0)
      && text_eq t.property_id []
      && is_zero_int t.timestamp
      && text_eq t.conditioned_data_hash []
      && text_eq t.indicators_hash []
      && d.eq t.rtpmv (fl 0)
      && text_eq t.currency []
      && text_eq t.preceding_hash []
      && text_eq t.token_hash []

  -- The token as Append stores it.
  abbrev pub linked : List (ValuationToken W) → ValuationToken W → ValuationToken W
  linked tokens t = record t {
    token_id = (length tokens + 1) % 2 ^ 64;
    preceding_hash = last_hash zero_hash tokens;
  }

  abbrev pub finalise : Library W → List (ValuationToken W) → ValuationToken W → ValuationToken W
  finalise lib tokens t = record (linked tokens t) { token_hash = hash_token lib (linked tokens t) }

  -- `none` is ErrZeroValueToken, with the chain unchanged.
  unfoldable pub append :
      Library W → CryptoChain W → ValuationToken W → Option (ValuationToken W × CryptoChain W)
  unfolding is_zero_value
  append lib c t =
      if is_zero_value t
      then none
      else some (
        finalise lib c.tokens t,
        record c { tokens = c.tokens ++ (finalise lib c.tokens t ∷ []) },
      )
