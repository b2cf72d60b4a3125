-- ===== src/Cryptochain/Types.antt =====
-- internal/cryptochain/types.go.
use twinval_go_backend.Prelude.{ℕ, Bool, List, replicate}
use twinval_go_backend.Prelude.Int.{ℤ}
use twinval_go_backend.Prelude.Text.{Text}
use twinval_go_backend.Float.{Float64, fl, decimal}

-- 64 times '0'.
abbrev pub zero_hash : Text
zero_hash = replicate 64 b'0'

-- `token_id` is a uint64 and `timestamp` an int64.
pub record ValuationToken (W : Type 0) : Type 0 where
  pub token_id : ℕ
  pub property_id : Text
  pub timestamp : ℤ
  pub conditioned_data_hash : Text
  pub indicators_hash : Text
  pub rtpmv : W
  pub currency : Text
  pub preceding_hash : Text
  pub token_hash : Text

pub record FrozenParameters (W : Type 0) : Type 0 where
  pub shf_weight : W
  pub esf_weight : W
  pub uss_weight : W
  pub pdp_weight : W
  pub ci_weight : W
  pub first_trading_threshold : W
  pub second_trading_threshold : W
  pub land_value : W
  pub structure_value : W

pub record AuditRecord (W : Type 0) : Type 0 where
  pub token : ValuationToken W
  pub frozen_parameters : FrozenParameters W

pub record VerificationReport : Type 0 where
  pub per_token : List Bool
  pub chain_valid : Bool
  pub broken_at_index : ℤ

pub record ChainConfig (W : Type 0) : Type 0 where
  pub frozen_parameters : FrozenParameters W

module _ {W : Type 0} ⦃d : Float64 W⦄ where
  abbrev pub default_chain_config : ChainConfig W
  default_chain_config = record {
    frozen_parameters = record {
      shf_weight = fl 1;
      esf_weight = fl 1;
      uss_weight = fl 1;
      pdp_weight = fl 1;
      ci_weight = fl 1;
      first_trading_threshold = decimal 7000;
      second_trading_threshold = decimal 3000;
      land_value = fl 0;
      structure_value = fl 0;
    };
  }
