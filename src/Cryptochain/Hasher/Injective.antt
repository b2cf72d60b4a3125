-- ===== src/Cryptochain/Hasher/Injective.antt =====
-- How far the text that is hashed determines a token (internal/cryptochain/hasher.go).
use mathlib.Core.List.{append_assoc}
use twinval_go_backend.Prelude.{ℕ, ◌≡◌, refl, sym, ap, ◌∙◌, List, [], ◌∷◌, ◌++◌, arith, length, All}
use twinval_go_backend.Prelude.Int.{ℤ}
use twinval_go_backend.Prelude.Text.{Text}
use twinval_go_backend.Cryptochain.Types.{ValuationToken}
use twinval_go_backend.Cryptochain.Hasher.{
  Library, field_sep, join, token_fields, marshal_token_for_hash, sha256_hex, hash_token,
}

-- A text without the separator.
abbrev pub HasNoSep : Text → Type 0
HasNoSep s = All (λ c. ¬ c ≡ field_sep) s

-- The number formats write digits, a sign and a point, never the separator.
pub record IsFormat (W : Type 0) (lib : Library W) : Type 0 where
  pub float-HasNoSep : (w : W) → HasNoSep (lib.format_float w)
  pub uint-HasNoSep : (n : ℕ) → HasNoSep (lib.format_uint n)
  pub int-HasNoSep : (z : ℤ) → HasNoSep (lib.format_int z)

-- The text fields of a token, without the separator.
abbrev pub IsPlain : {W : Type 0} → ValuationToken W → Type 0
IsPlain t =
    HasNoSep t.property_id
    × HasNoSep t.conditioned_data_hash
    × HasNoSep t.indicators_hash
    × HasNoSep t.currency
    × HasNoSep t.preceding_hash

tail_eq : {x y : ℕ} {s t : Text} → x ∷ s ≡ y ∷ t → s ≡ t
tail_eq e = cc

split_sep :
    (s t r q : Text)
    → HasNoSep s
    → HasNoSep t
    → s ++ (field_sep ∷ r) ≡ t ++ (field_sep ∷ q)
    → (s ≡ t) × (r ≡ q)
split_sep [] [] r q hs ht e = (refl, cc)
split_sep [] (y ∷ t) r q hs ht e = absurd (ht.0 cc)
split_sep (x ∷ s) [] r q hs ht e = absurd (hs.0 cc)
split_sep (x ∷ s) (y ∷ t) r q hs ht e =
    let (p, q) = split_sep s t r q hs.1 ht.1 (tail_eq e) in (cc, q)

join-injective :
    (ss ts : List Text)
    → length ss ≡ length ts
    → All HasNoSep ss
    → All HasNoSep ts
    → join ss ≡ join ts
    → ss ≡ ts
unfolding join
join-injective [] [] n hs ht e = refl
join-injective [] (t ∷ ts) n hs ht e = absurd (omega arith)
join-injective (s ∷ ss) [] n hs ht e = absurd (omega arith)
join-injective (s ∷ []) (t ∷ []) n hs ht e = ap (λ x. x ∷ []) e
join-injective (s ∷ []) (t ∷ u ∷ us) n hs ht e = absurd (omega arith)
join-injective (s ∷ u ∷ us) (t ∷ []) n hs ht e = absurd (omega arith)
join-injective (s ∷ u ∷ us) (t ∷ v ∷ vs) n (hs, hus) (ht, hvs) e =
    let (p, q) = split_sep s t (join (u ∷ us)) (join (v ∷ vs)) hs ht e in
    let rest : u ∷ us ≡ v ∷ vs = join-injective (u ∷ us) (v ∷ vs) (omega arith) hus hvs q in
    rw (p, rest) refl

move_sep :
    (x y z r : Text)
    → (x ++ (field_sep ∷ y)) ++ (field_sep ∷ (z ++ r))
      ≡ x ++ (field_sep ∷ ((y ++ (field_sep ∷ z)) ++ r))
move_sep x y z r =
    append_assoc x (field_sep ∷ y) (field_sep ∷ (z ++ r))
    ∙ ap (λ v. x ++ (field_sep ∷ v)) (sym (append_assoc y (field_sep ∷ z) r))

module _ {W : Type 0} (lib : Library W) where
  token_fields-HasNoSep :
      (t : ValuationToken W) → IsFormat W lib → IsPlain t → All HasNoSep (token_fields lib t)
  token_fields-HasNoSep t law (p, x, i, c, h) = (
    law.uint-HasNoSep t.token_id,
    (p, (law.int-HasNoSep t.timestamp, (x, (i, (law.float-HasNoSep t.rtpmv, (c, (h, tt))))))),
  )

  -- MarshalTokenForHash is injective on the formatted fields: if the number formats never write
  -- the separator and no text field of either token contains it, two tokens with the same text
  -- agree in each of the eight formatted fields.
  pub marshal_token_for_hash-injective :
      (t u : ValuationToken W)
      → IsFormat W lib
      → IsPlain t
      → IsPlain u
      → marshal_token_for_hash lib t ≡ marshal_token_for_hash lib u
      → token_fields lib t ≡ token_fields lib u
  unfolding marshal_token_for_hash
  marshal_token_for_hash-injective t u law pt pu e =
      join-injective (token_fields lib t) (token_fields lib u) refl (token_fields-HasNoSep t law pt)
        (token_fields-HasNoSep u law pu) e

  -- HashToken does not separate all tokens: moving the part behind a separator from the end of the
  -- first of the two component hashes to the start of the second one keeps the token's hash.
  pub hash_token_ambiguous :
      (t : ValuationToken W) (x y z : Text)
      → hash_token lib
          (record t { conditioned_data_hash = x ++ (field_sep ∷ y); indicators_hash = z })
        ≡ hash_token lib
            (record t { conditioned_data_hash = x; indicators_hash = y ++ (field_sep ∷ z) })
  unfolding hash_token marshal_token_for_hash join
  hash_token_ambiguous t x y z =
      ap
        (λ v. sha256_hex lib (
          lib.format_uint t.token_id
          ++ (field_sep
              ∷ (t.property_id ++ (field_sep ∷ (lib.format_int t.timestamp ++ (field_sep ∷ v)))))))
        (move_sep x y z (
          field_sep
          ∷ (lib.format_float t.rtpmv
              ++ (field_sep ∷ (t.currency ++ (field_sep ∷ t.preceding_hash))))))
