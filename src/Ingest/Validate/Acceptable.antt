-- ===== src/Ingest/Validate/Acceptable.antt =====
-- Which payloads ValidatePayload accepts.
use mathlib.Core.List.{Memᴰ}
use twinval_go_backend.Prelude.{
  ℕ, zero, suc, ◌+◌, ◌≡◌, ◌≢◌, ◌↔◌, inl, inr, refl, true, none, some, List, [], ◌∷◌, arith, All,
  Bool-cases, Option-cases,
}
use twinval_go_backend.Prelude.Int.{ℤ, pos, negsuc}
use twinval_go_backend.Prelude.Text.{Text, text_eq, text_eq_iff}
use twinval_go_backend.Float.{Float64, IsIeee, IsFinite}
use twinval_go_backend.Ingest.Types.{WebhookReading, WebhookPayload, IngestError}
use twinval_go_backend.Ingest.Validate.{
  Sprintf, valid_sensor_types, has_key, is_valid_type, is_zero, validate_reading, validate_readings,
  validate_payload,
}

pub has_key_iff : (ks : List Text) (t : Text) → (has_key ks t ≡ true) ↔ Memᴰ t ks
has_key_iff ks t = (to ks, from ks)
  where
    to : (ks : List Text) → has_key ks t ≡ true → Memᴰ t ks
    to [] h = cc
    to (k ∷ ks) h = elim (Bool-cases (text_eq t k)) [
      | inl e ↦ Memᴰ.head ((text_eq_iff t k).0 e)
      | inr e ↦ Memᴰ.tail (to ks (ground arith))
    ]

    from : (ks : List Text) → Memᴰ t ks → has_key ks t ≡ true
    from [] m = elim m [ ]
    from (k ∷ ks) (Memᴰ.head e) = ground (arith, text_eq_iff t k)
    from (k ∷ ks) (Memᴰ.tail m) = ground (arith, from ks m)

module _ {W : Type 0} ⦃d : Float64 W⦄ where
  -- A known sensor type, a time, and a finite value.
  pub record IsAcceptableReading (r : WebhookReading W) : Type 0 where
    pub known : Memᴰ r.sensor_type valid_sensor_types
    pub timed : r.timestamp_ns ≢ pos 0
    pub finite : IsFinite r.value

  pub record IsAcceptable (p : WebhookPayload W) : Type 0 where
    pub named : p.property_id ≢ []
    pub some_reading : p.readings ≢ []
    pub all_readings : All IsAcceptableReading p.readings

is_valid_type_iff : (t : Text) → (is_valid_type t ≡ true) ↔ Memᴰ t valid_sensor_types
unfolding is_valid_type
is_valid_type_iff t = has_key_iff valid_sensor_types t

is_zero_iff : (z : ℤ) → (is_zero z ≡ true) ↔ (z ≡ pos 0)
unfolding is_zero
is_zero_iff (pos zero) = ground arith
is_zero_iff (pos (suc n)) = ground arith
is_zero_iff (negsuc n) = ground arith

module _ {W : Type 0} ⦃d : Float64 W⦄ (laws : IsIeee W) (fmt : Sprintf) where
  open laws use {is_nan-eq-not-le}

  validate_reading_iff :
      (i : ℕ) (r : WebhookReading W) → (validate_reading fmt i r ≡ none) ↔ IsAcceptableReading r
  unfolding validate_reading
  validate_reading_iff i r = (
    λ h. record {
      known = (is_valid_type_iff r.sensor_type).0 (ground arith);
      timed = λ e. ground (arith, (is_zero_iff r.timestamp_ns).1 e);
      finite = ground (arith, is_nan-eq-not-le r.value);
    },
    λ a. ground (
      arith,
      (is_valid_type_iff r.sensor_type).1 a.known,
      is_zero_iff r.timestamp_ns,
      a.timed,
      is_nan-eq-not-le r.value,
    ),
  )

  -- The loop finds nothing where each reading is acceptable.
  validate_readings_iff :
      (i : ℕ) (rs : List (WebhookReading W))
      → (validate_readings fmt i rs ≡ none) ↔ All IsAcceptableReading rs
  unfolding validate_readings
  validate_readings_iff i rs = (to i rs, from i rs)
    where
      to :
          (i : ℕ) (rs : List (WebhookReading W))
          → validate_readings fmt i rs ≡ none
          → All IsAcceptableReading rs
      to i [] h = tt
      to i (r ∷ rs) h = elim (Option-cases (validate_reading fmt i r)) [
        | inl e ↦ ((validate_reading_iff i r).0 e, to (i + 1) rs (rw (validate_readings, e) at h))
        | inr (x, e) ↦ absurd (ground arith)
      ]

      from :
          (i : ℕ) (rs : List (WebhookReading W))
          → All IsAcceptableReading rs
          → validate_readings fmt i rs ≡ none
      from i [] h = refl
      from i (r ∷ rs) (a, h) =
          rw (validate_readings, (validate_reading_iff i r).1 a) (from (i + 1) rs h)

  -- The code of every message is 422.
  validate_reading-code :
      (i : ℕ) (r : WebhookReading W) (e : IngestError)
      → validate_reading fmt i r ≡ some e
      → e.code ≡ 422
  unfolding validate_reading
  validate_reading-code i r e h = ground arith

  validate_readings-code :
      (i : ℕ) (rs : List (WebhookReading W)) (e : IngestError)
      → validate_readings fmt i rs ≡ some e
      → e.code ≡ 422
  unfolding validate_readings
  validate_readings-code i [] e h = cc
  validate_readings-code i (r ∷ rs) e h =
      ground (arith, validate_reading-code i r e, validate_readings-code (i + 1) rs e)

  pub validate_payload-code :
      (p : WebhookPayload W) (e : IngestError) → validate_payload fmt p ≡ some e → e.code ≡ 422
  unfolding validate_payload
  validate_payload-code p e h = ground (arith, validate_readings-code 0 p.readings e)

  -- ValidatePayload returns nil exactly for the payloads that name a property and carry at least
  -- one reading, each of a known sensor type, with a timestamp other than zero and a finite value.
  pub validate_payload_iff :
      (p : WebhookPayload W) → (validate_payload fmt p ≡ none) ↔ IsAcceptable p
  unfolding validate_payload
  validate_payload_iff p = (
    λ h. record {
      named = λ e. ground (arith, text_eq_iff p.property_id []);
      some_reading = λ e. ground arith;
      all_readings = (validate_readings_iff 0 p.readings).0 (ground arith);
    },
    λ a. ground (
      arith,
      text_eq_iff p.property_id [],
      a.named,
      a.some_reading,
      (validate_readings_iff 0 p.readings).1 a.all_readings,
    ),
  )
