-- ===== src/Condition/Groups/Laws.antt =====
-- What a map of groups holds under a key.
use mathlib.Core.List.{append_assoc, append-nil}
use twinval_go_backend.Prelude.{
  ◌≡◌, refl, ap, ◌∙◌, Bool, true, false, Option, none, some, List, [], ◌∷◌, ◌++◌, arith, keep,
  if◌then◌else◌,
}
use twinval_go_backend.Prelude.Text.{Text, text_eq, text_eq_iff}
use twinval_go_backend.Prelude.Maps.{lookup}
use twinval_go_backend.Condition.Groups.{append_at, group_onto, group_by}

module _ {A : Type 0} where
  -- A group is never empty.
  abbrev pub as_group : List A → Option (List A)
  as_group [] = none
  as_group (x ∷ xs) = some (x ∷ xs)

  as_group-snoc : (xs : List A) (a : A) → as_group (xs ++ (a ∷ [])) ≡ some (xs ++ (a ∷ []))
  as_group-snoc [] a = refl
  as_group-snoc (x ∷ xs) a = refl

  as_group_inv : (xs ys : List A) → some ys ≡ as_group xs → xs ≡ ys
  as_group_inv [] ys e = cc
  as_group_inv (x ∷ xs) ys e = cc

  lookup-append_at :
      (j k : Text) (a : A) (m : List (Text × List A)) (xs : List A)
      → lookup j m ≡ as_group xs
      → lookup j (append_at k a m) ≡ as_group (if text_eq j k then xs ++ (a ∷ []) else xs)
  unfolding append_at
  lookup-append_at j k a [] [] e = ground arith
  lookup-append_at j k a [] (x ∷ xs) e = cc
  lookup-append_at j k a ((k', ys) ∷ m) xs e = ground (
    arith,
    lookup-append_at j k a m xs,
    as_group-snoc xs a,
    as_group_inv xs ys,
    text_eq_iff k k',
    text_eq_iff j k,
    text_eq_iff j k',
  )

  append_if :
      (b : Bool) (ys : List A) (x : A) (rest : List A)
      → (if b then ys ++ (x ∷ []) else ys) ++ rest ≡ ys ++ (if b then x ∷ rest else rest)
  append_if true ys x rest = append_assoc ys (x ∷ []) rest
  append_if false ys x rest = refl

  -- The group of a key holds the elements with that key, in their order.
  lookup-group_onto :
      (key : A → Text) (j : Text) (m : List (Text × List A)) (xs ys : List A)
      → lookup j m ≡ as_group ys
      → lookup j (group_onto key m xs) ≡ as_group (ys ++ keep (λ a. text_eq j (key a)) xs)
  unfolding group_onto
  lookup-group_onto key j m [] ys e = rw append-nil e
  lookup-group_onto key j m (x ∷ xs) ys e =
      lookup-group_onto key j (append_at (key x) x m) xs _ (lookup-append_at j (key x) x m ys e)
      ∙ ap as_group (append_if (text_eq j (key x)) ys x (keep (λ a. text_eq j (key a)) xs))

  pub lookup-group_by :
      (key : A → Text) (j : Text) (xs : List A)
      → lookup j (group_by key xs) ≡ as_group (keep (λ a. text_eq j (key a)) xs)
  unfolding group_by
  lookup-group_by key j xs = lookup-group_onto key j [] xs [] refl
