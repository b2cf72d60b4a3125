-- ===== src/Prelude/Maps.antt =====
-- A Go map with string keys as an association list. The first entry of a key counts.
use mathlib.Core.Path.{◌≡◌, refl}
use mathlib.Core.Option.{Option, none, some}
use mathlib.Core.Option
use mathlib.Core.List.{List, [], ◌∷◌, map}
use native.Mathlib.Omega.{arith}
use twinval_go_backend.Prelude.Tests.{if◌then◌else◌, Bool-cases}
use twinval_go_backend.Prelude.Lists.{All}
use mathlib.Core.Path.{subst}
use mathlib.Core.Logic.{inl, inr}
use twinval_go_backend.Prelude.Text.{Text, text_eq, text_eq_iff}

module _ {ℓ} {A : Type ℓ} where
  -- `m[key]`, with `none` for a missing key.
  abbrev pub lookup : Text → List (Text × A) → Option A
  lookup key [] = none
  lookup key ((k, a) ∷ m) = let rest = lookup key m in if text_eq key k then some a else rest

  abbrev pub keys : List (Text × A) → List Text
  keys m = map (λ (e : Text × A). e.0) m

  -- `m[key] = a`.
  abbrev pub insert : Text → A → List (Text × A) → List (Text × A)
  insert key a [] = (key, a) ∷ []
  insert key a ((k, b) ∷ m) =
      let rest = insert key a m in if text_eq key k then (k, a) ∷ m else (k, b) ∷ rest

  pub lookup-insert :
      (j k : Text) (a : A) (m : List (Text × A))
      → lookup j (insert k a m) ≡ (if text_eq j k then some a else lookup j m)
  lookup-insert j k a [] = refl
  lookup-insert j k a ((k', b) ∷ m) =
      ground (arith, lookup-insert j k a m, text_eq_iff k k', text_eq_iff j k, text_eq_iff j k')

-- A function on the values keeps the keys.
pub lookup-map {ℓ κ} :
    {A : Type ℓ} {B : Type κ} (f : A → B) (key : Text) (m : List (Text × A))
    → lookup key (map (λ (e : Text × A). (e.0, f e.1)) m) ≡ Option.map f (lookup key m)
lookup-map f key [] = refl
lookup-map f key ((k, a) ∷ m) = ground (arith, lookup-map f key m)

module _ {ℓ} {A : Type ℓ} where
  -- `delete(m, key)`.
  abbrev pub erase : Text → List (Text × A) → List (Text × A)
  erase key [] = []
  erase key ((k, a) ∷ m) = let rest = erase key m in if text_eq key k then rest else (k, a) ∷ rest

  pub lookup-erase :
      (j k : Text) (m : List (Text × A))
      → lookup j (erase k m) ≡ (if text_eq j k then none else lookup j m)
  lookup-erase j k [] = ground arith
  lookup-erase j k ((k', b) ∷ m) =
      ground (arith, lookup-erase j k m, text_eq_iff k k', text_eq_iff j k, text_eq_iff j k')

-- What holds of every value holds of the one that is found.
pub lookup-All {ℓ κ} :
    {A : Type ℓ} (P : A → Type κ) (key : Text) (m : List (Text × A))
    → All (λ (e : Text × A). P e.1) m
    → (a : A) → lookup key m ≡ some a
    → P a
lookup-All P key [] _ a e = cc
lookup-All P key ((k, b) ∷ m) (p, ps) a e = elim (Bool-cases (text_eq key k)) [
  | inl q ↦ subst P (ground (arith, q, e)) p
  | inr q ↦ lookup-All P key m ps a (ground (arith, q, e))
]
