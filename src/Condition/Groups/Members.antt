-- ===== src/Condition/Groups/Members.antt =====
-- How many groups there are, how large they are, and what their members have in common.
use mathlib.Core.List.{Memᴰ, Permᴰ}
use twinval_go_backend.Prelude.{
  ℕ, suc, ◌+◌, ◌≤◌, ◌<◌, ◌≡◌, ◌≢◌, ◌∙◌, All_of_mem, Option-cases, perm-mem, refl, Option, none,
  some, List, [], ◌∷◌, arith, All, All-append, All-keep, All-map, All_mono, length, length-append,
  length-map, length-perm, length-keep, keep, Bool-cases, inl, inr,
}
use twinval_go_backend.Prelude.Text.{Text, text_eq, text_eq_iff}
use twinval_go_backend.Prelude.Maps.{lookup, keys, lookup-All}
use twinval_go_backend.Condition.Groups.{values_at, append_at, group_onto, group_by, in_order}
use twinval_go_backend.Condition.Groups.Laws.{as_group, lookup-group_by}

-- What package sort promises of sort.Strings, as far as it is used.
pub record SortsStrings (sort_strings : List Text → List Text) : Type 0 where
  pub permutes : (ids : List Text) → Permᴰ (sort_strings ids) ids

module _ {A : Type 0} where
  abbrev or_nil : Option (List A) → List A
  or_nil none = []
  or_nil (some xs) = xs

  or_nil-as_group : (xs : List A) → or_nil (as_group xs) ≡ xs
  or_nil-as_group [] = refl
  or_nil-as_group (x ∷ xs) = refl

  values_at-or_nil :
      (key : Text) (m : List (Text × List A)) → values_at key m ≡ or_nil (lookup key m)
  values_at-or_nil key m = ground arith

  -- What is read under a key is what has that key.
  values_at-group_by :
      (key : A → Text) (j : Text) (xs : List A)
      → values_at j (group_by key xs) ≡ keep (λ a. text_eq j (key a)) xs
  values_at-group_by key j xs =
      rw (values_at-or_nil j (group_by key xs), lookup-group_by key j xs) (or_nil-as_group _)

  length-append_at :
      (k : Text) (a : A) (m : List (Text × List A)) → length (append_at k a m) ≤ suc (length m)
  unfolding append_at
  length-append_at k a [] = omega arith
  length-append_at k a ((j, xs) ∷ m) = ground (arith, length-append_at k a m)

  length-group_onto :
      (key : A → Text) (m : List (Text × List A)) (xs : List A)
      → length (group_onto key m xs) ≤ length m + length xs
  unfolding group_onto
  length-group_onto key m [] = omega arith
  length-group_onto key m (x ∷ xs) =
      omega (arith, length-append_at (key x) x m, length-group_onto key (append_at (key x) x m) xs)

  pub length-group_by : (key : A → Text) (xs : List A) → length (group_by key xs) ≤ length xs
  unfolding group_by
  length-group_by key xs = omega (arith, length-group_onto key [] xs)

  pub length-keys : (m : List (Text × List A)) → length (keys m) ≡ length m
  length-keys m = length-map (λ (e : Text × List A). e.0) m

  pub length-in_order :
      (sort_strings : List Text → List Text) (m : List (Text × List A))
      → SortsStrings sort_strings
      → length (in_order sort_strings m) ≡ length m
  length-in_order sort_strings m h = omega (
    arith,
    length-map {B = Text × List A} (λ k. (k, values_at k m)) (sort_strings (keys m)),
    length-perm (h.permutes (keys m)),
    length-keys m,
  )

  has_key : (k : Text) (m : List (Text × List A)) → Memᴰ k (keys m) → lookup k m ≢ none
  has_key k [] e = elim e [ ]
  has_key k ((j, xs) ∷ m) (Memᴰ.head e) = ground (arith, text_eq_iff k j)
  has_key k ((j, xs) ∷ m) (Memᴰ.tail e) = ground (arith, has_key k m e)

  as_group-none : (xs : List A) → as_group xs ≢ none → 0 < length xs
  as_group-none [] h = absurd (h refl)
  as_group-none (x ∷ xs) h = omega arith

  -- A group is not empty, and no larger than the whole; what holds of all elements holds in it.
  abbrev pub IsGroup : (A → Type 0) → ℕ → Text × List A → Type 0
  IsGroup P n g = All P g.1 × (length g.1 ≤ n) × (0 < length g.1)

  pub in_order-IsGroup :
      (P : A → Type 0) (sort_strings : List Text → List Text) (key : A → Text) (xs : List A)
      → SortsStrings sort_strings
      → All P xs
      → All (IsGroup P (length xs)) (in_order sort_strings (group_by key xs))
  in_order-IsGroup P sort_strings key xs s a =
      All-map (IsGroup P (length xs)) (λ k. (k, values_at k groups)) (sort_strings (keys groups))
        (All_of_mem _ _ (λ k m. each k (perm-mem (s.permutes (keys groups)) m)))
    where
      groups : List (Text × List A)
      groups = group_by key xs

      each : (k : Text) → Memᴰ k (keys groups) → IsGroup P (length xs) (k, values_at k groups)
      each k m =
          let full : 0 < length (keep (λ x. text_eq k (key x)) xs) =
            as_group-none _ (λ e. has_key k groups m (lookup-group_by key k xs ∙ e)) in
          rw (values_at-group_by key k xs) (
            All-keep P (λ x. text_eq k (key x)) xs a,
            length-keep (λ x. text_eq k (key x)) xs,
            full,
          )

  -- At most k members, with what holds of all elements: also of a map that is still being built.
  abbrev pub Fits : (A → Type 0) → ℕ → Text × List A → Type 0
  Fits P k g = All P g.1 × (length g.1 ≤ k)

  pub append_at-Fits :
      (P : A → Type 0) (k : ℕ) (key : Text) (a : A) (m : List (Text × List A))
      → P a
      → All (Fits P k) m
      → All (Fits P (suc k)) (append_at key a m)
  unfolding append_at
  append_at-Fits P k key a [] p _ = (((p, tt), omega arith), tt)
  append_at-Fits P k key a ((j, xs) ∷ m) p (q, qs) =
      let old : All (Fits P (suc k)) m = All_mono (λ g f. (f.0, le_suc f.1)) m qs in
      elim (Bool-cases (text_eq key j)) [
        | inl e ↦
            rw (append_at, e)
              (
                (
                  All-append P xs (a ∷ []) q.0 (p, tt),
                  omega (arith, length-append xs (a ∷ []), q.1),
                ),
                old,
              )
        | inr e ↦ rw (append_at, e) ((q.0, omega (arith, q.1)), append_at-Fits P k key a m p qs)
      ]
    where
      le_suc : {n k : ℕ} → n ≤ k → n ≤ suc k
      le_suc h = omega arith

  group_onto-Fits :
      (P : A → Type 0) (key : A → Text) (xs : List A) (k : ℕ) (m : List (Text × List A))
      → All P xs
      → All (Fits P k) m
      → All (Fits P (k + length xs)) (group_onto key m xs)
  unfolding group_onto
  group_onto-Fits P key [] k m _ h = All_mono (λ g f. (f.0, omega (arith, f.1))) m h
  group_onto-Fits P key (x ∷ xs) k m (p, ps) h =
      All_mono (λ g f. (f.0, omega (arith, f.1))) _
        (group_onto-Fits P key xs (suc k) (append_at (key x) x m) ps
          (append_at-Fits P k (key x) x m p h))

  pub group_by-Fits :
      (P : A → Type 0) (key : A → Text) (xs : List A)
      → All P xs
      → All (Fits P (length xs)) (group_by key xs)
  unfolding group_by
  group_by-Fits P key xs h =
      All_mono (λ g f. (f.0, omega (arith, f.1))) _ (group_onto-Fits P key xs 0 [] h tt)

  pub values_at-Fits :
      (P : A → Type 0) (k : ℕ) (key : Text) (m : List (Text × List A))
      → All (Fits P k) m
      → All P (values_at key m) × (length (values_at key m) ≤ k)
  values_at-Fits P k key m h = elim (Option-cases (lookup key m)) [
    | inl e ↦ rw (values_at-or_nil key m, e) (tt, omega arith)
    | inr (xs, e) ↦
        rw (values_at-or_nil key m, e)
          (lookup-All (λ (ys : List A). All P ys × (length ys ≤ k)) key m h xs e)
  ]
