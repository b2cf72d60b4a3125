-- ===== src/Cryptochain/Tests.antt =====
-- The theorems on internal/cryptochain at short chains, over whole ten-thousandths and with number
-- formats and a hash that count in strokes.
use twinval_go_backend.Prelude.{
  ℕ, zero, suc, ◌≡◌, ◌⊎◌, refl, true, [], ◌∷◌, All, ◌++◌, map, length, replicate, arith,
}
use twinval_go_backend.Prelude.Int.{ℤ, pos, negsuc}
use twinval_go_backend.Prelude.Text.{Text, codes}
use twinval_go_backend.Float.{decimal}
use twinval_go_backend.Float.Fixed.{Fixed, nan, fin, fixed_float}
use twinval_go_backend.Cryptochain.Types.{
  ValuationToken, ChainConfig, default_chain_config, zero_hash,
}
use twinval_go_backend.Cryptochain.Hasher.{
  Library, field_sep, token_fields, join, sha256_hex, marshal_token_for_hash, hash_token,
}
use twinval_go_backend.Cryptochain.Hasher.Injective.{
  HasNoSep, IsFormat, IsPlain, marshal_token_for_hash-injective, hash_token_ambiguous,
}
use twinval_go_backend.Cryptochain.Chain.{CryptoChain, new_chain, finalise, last_hash}
use twinval_go_backend.Cryptochain.Chain.Laws.{append_all}
use twinval_go_backend.Cryptochain.Verify.{verify}
use twinval_go_backend.Cryptochain.Verify.Correct.{Outcome, verify-Outcome, verify-append_all}
use twinval_go_backend.Cryptochain.Verify.Evidence.{Collision, verify-evidence}

abbrev strokes : ℕ → Text
strokes n = replicate n b'1'

abbrev signed : ℤ → Text
signed (pos n) = strokes n
signed (negsuc n) = b'-' ∷ strokes (suc n)

abbrev written : Fixed → Text
written nan = codes "NaN"
written (fin z) = signed z

abbrev lib : Library Fixed
lib = record {
  format_float = written;
  format_uint = strokes;
  format_int = signed;
  sum256 = λ s. s;
  encode_to_string = λ s. strokes (length s);
}

strokes-HasNoSep : (n : ℕ) → HasNoSep (strokes n)
strokes-HasNoSep zero = tt
strokes-HasNoSep (suc n) = (λ e. omega arith, strokes-HasNoSep n)

zeros-HasNoSep : (n : ℕ) → HasNoSep (replicate n b'0')
zeros-HasNoSep zero = tt
zeros-HasNoSep (suc n) = (λ e. omega arith, zeros-HasNoSep n)

signed-HasNoSep : (z : ℤ) → HasNoSep (signed z)
signed-HasNoSep (pos n) = strokes-HasNoSep n
signed-HasNoSep (negsuc n) = (λ e. omega arith, strokes-HasNoSep (suc n))

written-HasNoSep : (w : Fixed) → HasNoSep (written w)
written-HasNoSep nan = (λ e. omega arith, (λ e. omega arith, (λ e. omega arith, tt)))
written-HasNoSep (fin z) = signed-HasNoSep z

lib-IsFormat : IsFormat Fixed lib
lib-IsFormat = record {
  float-HasNoSep = written-HasNoSep;
  uint-HasNoSep = strokes-HasNoSep;
  int-HasNoSep = signed-HasNoSep;
}

abbrev config : ChainConfig Fixed
config = default_chain_config

-- As a caller builds it.
abbrev valuation : ValuationToken Fixed
valuation = record {
  token_id = 0;
  property_id = codes "P";
  timestamp = pos 3;
  conditioned_data_hash = strokes 2;
  indicators_hash = strokes 4;
  rtpmv = decimal 5;
  currency = codes "MYR";
  preceding_hash = [];
  token_hash = [];
}

abbrev first : ValuationToken Fixed
first = finalise lib [] valuation

abbrev chain : CryptoChain Fixed
chain = record { cfg = config; tokens = first ∷ [] }

-- The same token with another value, its hash left as it was.
abbrev tampered : CryptoChain Fixed
tampered = record { cfg = config; tokens = record first { rtpmv = decimal 9 } ∷ [] }

first-IsPlain : IsPlain first
unfolding last_hash
first-IsPlain = (
  (λ e. omega arith, tt),
  strokes-HasNoSep 2,
  strokes-HasNoSep 4,
  (λ e. omega arith, (λ e. omega arith, (λ e. omega arith, tt))),
  zeros-HasNoSep 64,
)

verify-Outcome_example : Outcome lib zero_hash 0 tampered.tokens (verify lib tampered)
verify-Outcome_example = verify-Outcome lib tampered

verify-append_all_example :
    let r = verify lib (append_all lib (new_chain config) (valuation ∷ valuation ∷ [])) in
    (r.chain_valid ≡ true) × (r.broken_at_index ≡ negsuc 0)
verify-append_all_example = verify-append_all lib config (valuation ∷ valuation ∷ [])

-- Two tokens, and the same two with another name of the property: the hash counts characters.
abbrev longer : Text → CryptoChain Fixed
longer name =
    let t = finalise lib [] (record valuation { property_id = name }) in
    record { cfg = config; tokens = t ∷ finalise lib (t ∷ []) valuation ∷ [] }

named-IsPlain : HasNoSep (codes "Q") × HasNoSep (codes "P")
named-IsPlain = ((λ e. omega arith, tt), (λ e. omega arith, tt))

longer-IsPlain : (name : Text) → HasNoSep name → All IsPlain (longer name).tokens
unfolding hash_token sha256_hex last_hash
longer-IsPlain name n = (
  (n, strokes-HasNoSep 2, strokes-HasNoSep 4, first-IsPlain.3, zeros-HasNoSep 64),
  (
    (first-IsPlain.0, strokes-HasNoSep 2, strokes-HasNoSep 4, first-IsPlain.3, strokes-HasNoSep _),
    tt,
  ),
)

longer_valid :
    ((verify lib (longer (codes "P"))).chain_valid ≡ true)
    × ((verify lib (longer (codes "Q"))).chain_valid ≡ true)
unfolding verify hash_token marshal_token_for_hash sha256_hex join last_hash
longer_valid = (refl, refl)

longer_hash :
    last_hash zero_hash (longer (codes "P")).tokens
    ≡ last_hash zero_hash (longer (codes "Q")).tokens
unfolding hash_token marshal_token_for_hash sha256_hex join last_hash
longer_hash = refl

verify-evidence_example :
    (map (token_fields lib) (longer (codes "P")).tokens
      ≡ map (token_fields lib) (longer (codes "Q")).tokens)
    ⊎ Collision lib (longer (codes "P")).tokens (longer (codes "Q")).tokens
verify-evidence_example =
    verify-evidence lib (longer (codes "P")) (longer (codes "Q")) lib-IsFormat
      (longer-IsPlain (codes "P") named-IsPlain.1) (longer-IsPlain (codes "Q") named-IsPlain.0) refl
      longer_valid.0 longer_valid.1 longer_hash

marshal_token_for_hash_example : token_fields lib first ≡ token_fields lib first
marshal_token_for_hash_example =
    marshal_token_for_hash-injective lib first first lib-IsFormat first-IsPlain first-IsPlain refl

hash_token_ambiguous_example :
    hash_token lib (record first {
      conditioned_data_hash = codes "a" ++ (field_sep ∷ codes "b");
      indicators_hash = codes "c";
    })
    ≡ hash_token lib (record first {
      conditioned_data_hash = codes "a";
      indicators_hash = codes "b" ++ (field_sep ∷ codes "c");
    })
hash_token_ambiguous_example = hash_token_ambiguous lib first (codes "a") (codes "b") (codes "c")
