-- ===== src/Condition/Groups.antt =====
-- The maps that internal/condition builds by `m[key] = append(m[key], r)`, in the order of first
-- use, and package sort, which is a parameter.
pub mod Laws
pub mod Members
use twinval_go_backend.Prelude.{Option, none, some, List, [], ◌∷◌, ◌++◌, map, if◌then◌else◌}
use twinval_go_backend.Prelude.Text.{Text, text_eq}
use twinval_go_backend.Prelude.Maps.{lookup, keys}
use twinval_go_backend.Condition.Types.{RawSensorReading}

-- sort.Strings, and sort.Slice by the timestamp.
pub record Sorting (W : Type 0) : Type 0 where
  pub sort_strings : List Text → List Text
  pub sort_by_timestamp : List (RawSensorReading W) → List (RawSensorReading W)

module _ {A : Type 0} where
  -- A missing key reads as the nil slice.
  abbrev pub values_at : Text → List (Text × List A) → List A
  values_at key m = elim (lookup key m) [ none ↦ [] | some xs ↦ xs ]

  -- `m[key] = append(m[key], a)`.
  unfoldable pub append_at : Text → A → List (Text × List A) → List (Text × List A)
  append_at key a [] = (key, a ∷ []) ∷ []
  append_at key a ((k, xs) ∷ m) =
      let rest = append_at key a m in
      if text_eq key k then (k, xs ++ (a ∷ [])) ∷ m else (k, xs) ∷ rest

  -- The loop over the elements.
  unfoldable pub group_onto : (A → Text) → List (Text × List A) → List A → List (Text × List A)
  group_onto key m [] = m
  group_onto key m (a ∷ xs) = group_onto key (append_at (key a) a m) xs

  unfoldable pub group_by : (A → Text) → List A → List (Text × List A)
  group_by key xs = group_onto key [] xs

  -- The entries in the order of the sorted keys.
  abbrev pub in_order : (List Text → List Text) → List (Text × List A) → List (Text × List A)
  in_order sort_strings m = map (λ k. (k, values_at k m)) (sort_strings (keys m))
