-- ===== src/Prelude/Lists.antt =====
-- Lists measured and indexed by native numbers, under the library's names.
use Prim.Native.Nat.{ℕ, zero, suc, ◌+◌, ◌≤◌, ◌<◌}
use mathlib.Core.Path.{◌≡◌, refl, ap, ◌∙◌}
use twinval_go_backend.Prelude.Tests.{if◌then◌else◌, Bool-cases}
use mathlib.Core.Logic.{◌≢◌, inl, inr}
use mathlib.Core.Bool.{Bool, true, ◌&&◌}
use mathlib.Core.List.{List, [], ◌∷◌, ◌++◌, map, Memᴰ, Permᴰ}
use mathlib.Core.List.Memᴰ
use mathlib.Core.Option.{Option, none, some}
use native.Mathlib.Omega.{arith}

module _ {ℓ} {A : Type ℓ} where
  abbrev pub length : List A → ℕ
  length [] = 0
  length (x ∷ xs) = suc (length xs)

  abbrev pub get_elem? : List A → ℕ → Option A
  get_elem? [] i = none
  get_elem? (x ∷ xs) zero = some x
  get_elem? (x ∷ xs) (suc i) = get_elem? xs i

  abbrev pub get_or : List A → ℕ → A → A
  get_or [] i d = d
  get_or (x ∷ xs) zero d = x
  get_or (x ∷ xs) (suc i) d = get_or xs i d

  -- A write out of bounds changes nothing.
  abbrev pub set : List A → ℕ → A → List A
  set [] i v = []
  set (x ∷ xs) zero v = v ∷ xs
  set (x ∷ xs) (suc i) v = x ∷ set xs i v

  abbrev pub take : ℕ → List A → List A
  take zero xs = []
  take (suc n) [] = []
  take (suc n) (x ∷ xs) = x ∷ take n xs

  abbrev pub drop : ℕ → List A → List A
  drop zero xs = xs
  drop (suc n) [] = []
  drop (suc n) (x ∷ xs) = drop n xs

  abbrev pub replicate : ℕ → A → List A
  replicate zero a = []
  replicate (suc n) a = a ∷ replicate n a

  abbrev pub All {κ} : (A → Type κ) → List A → Type κ
  All P [] = Unit
  All P (x ∷ xs) = P x × All P xs

  pub length-append : (xs ys : List A) → length (xs ++ ys) ≡ length xs + length ys
  length-append [] ys = omega arith
  length-append (x ∷ xs) ys = omega (arith, length-append xs ys)

  pub length-set : (xs : List A) (i : ℕ) (v : A) → length (set xs i v) ≡ length xs
  length-set [] i v = refl
  length-set (x ∷ xs) zero v = refl
  length-set (x ∷ xs) (suc i) v = ap suc (length-set xs i v)

  pub get_or-set_self :
      (xs : List A) (i : ℕ) (v d : A) → i < length xs → get_or (set xs i v) i d ≡ v
  get_or-set_self [] i v d h = absurd (omega arith)
  get_or-set_self (x ∷ xs) zero v d h = refl
  get_or-set_self (x ∷ xs) (suc i) v d h = get_or-set_self xs i v d (omega arith)

  pub get_or-set_ne :
      (xs : List A) (i j : ℕ) (v d : A) → i ≢ j → get_or (set xs i v) j d ≡ get_or xs j d
  get_or-set_ne [] i j v d h = refl
  get_or-set_ne (x ∷ xs) zero zero v d h = absurd (h refl)
  get_or-set_ne (x ∷ xs) zero (suc j) v d h = refl
  get_or-set_ne (x ∷ xs) (suc i) zero v d h = refl
  get_or-set_ne (x ∷ xs) (suc i) (suc j) v d h = get_or-set_ne xs i j v d (λ e. h (ap suc e))

  pub length-replicate : (n : ℕ) (a : A) → length (replicate n a) ≡ n
  length-replicate zero a = refl
  length-replicate (suc n) a = ap suc (length-replicate n a)

  pub All-append {κ} : (P : A → Type κ) (xs ys : List A) → All P xs → All P ys → All P (xs ++ ys)
  All-append P [] ys _ q = q
  All-append P (x ∷ xs) ys (p, ps) q = (p, All-append P xs ys ps q)

pub get_or-All {ℓ κ} :
    {A : Type ℓ} (P : A → Type κ) (xs : List A) (k : ℕ) (x : A) → All P xs → P x → P (get_or xs k x)
get_or-All P [] k x a p = p
get_or-All P (y ∷ ys) zero x (q, a) p = q
get_or-All P (y ∷ ys) (suc k) x (q, a) p = get_or-All P ys k x a p

pub length-map {ℓ κ} :
    {A : Type ℓ} {B : Type κ} (f : A → B) (xs : List A) → length (map f xs) ≡ length xs
length-map f [] = refl
length-map f (x ∷ xs) = ap suc (length-map f xs)

module _ {ℓ} {A : Type ℓ} where
  -- The elements that pass a test, in order.
  abbrev pub keep : (A → Bool) → List A → List A
  keep p [] = []
  keep p (x ∷ xs) = let rest = keep p xs in if p x then x ∷ rest else rest

  pub keep-mem : (p : A → Bool) (a : A) (xs : List A) → Memᴰ a xs → p a ≡ true → Memᴰ a (keep p xs)
  keep-mem p a [] m h = elim m [ ]
  keep-mem p a (x ∷ xs) (Memᴰ.head e) h = rw (← e, h) (Memᴰ.head refl)
  keep-mem p a (x ∷ xs) (Memᴰ.tail m) h = elim (Bool-cases (p x)) [
    | inl e ↦ rw e (Memᴰ.tail (keep-mem p a xs m h))
    | inr e ↦ rw e (keep-mem p a xs m h)
  ]

  pub mem-keep :
      (p : A → Bool) (a : A) (xs : List A) → Memᴰ a (keep p xs) → Memᴰ a xs × (p a ≡ true)
  mem-keep p a [] m = elim m [ ]
  mem-keep p a (x ∷ xs) m = elim (Bool-cases (p x)) [
    | inl e ↦ elim (Memᴰ.cases_cons (rw e at m)) [
      | inl q ↦ (Memᴰ.head q, rw q e)
      | inr n ↦ let (k, t) = mem-keep p a xs n in (Memᴰ.tail k, t)
    ]
    | inr e ↦ let (k, t) = mem-keep p a xs (rw e at m) in (Memᴰ.tail k, t)
  ]

  -- A permutation has the same members.
  pub perm-mem : {a : A} {xs ys : List A} → Permᴰ xs ys → Memᴰ a xs → Memᴰ a ys
  perm-mem Permᴰ.nil m = m
  perm-mem (Permᴰ.cons e d) (Memᴰ.head h) = Memᴰ.head (h ∙ e)
  perm-mem (Permᴰ.cons e d) (Memᴰ.tail m) = Memᴰ.tail (perm-mem d m)
  perm-mem (Permᴰ.swap e f) (Memᴰ.head h) = Memᴰ.tail (Memᴰ.head (h ∙ e))
  perm-mem (Permᴰ.swap e f) (Memᴰ.tail (Memᴰ.head h)) = Memᴰ.head (h ∙ f)
  perm-mem (Permᴰ.swap e f) (Memᴰ.tail (Memᴰ.tail m)) = Memᴰ.tail (Memᴰ.tail m)
  perm-mem (Permᴰ.trans d₁ d₂) m = perm-mem d₂ (perm-mem d₁ m)

  pub keep-cong :
      (p q : A → Bool) (xs : List A) → ((a : A) → Memᴰ a xs → p a ≡ q a) → keep p xs ≡ keep q xs
  keep-cong p q [] h = refl
  keep-cong p q (x ∷ xs) h =
      let rest = keep-cong p q xs (λ a m. h a (Memᴰ.tail m)) in rw (h x (Memᴰ.head refl), rest) refl

  pub keep-keep : (p q : A → Bool) (xs : List A) → keep p (keep q xs) ≡ keep (λ x. q x && p x) xs
  keep-keep p q [] = refl
  keep-keep p q (x ∷ xs) = ground (arith, keep-keep p q xs)

  pub keep-all : (p : A → Bool) (xs : List A) → ((a : A) → p a ≡ true) → keep p xs ≡ xs
  keep-all p [] h = refl
  keep-all p (x ∷ xs) h = rw (h x) (ap (λ ys. x ∷ ys) (keep-all p xs h))

pub All_mono {ℓ κ μ} :
    {A : Type ℓ} {P : A → Type κ} {Q : A → Type μ}
    → ((a : A) → P a → Q a)
    → (xs : List A) → All P xs
    → All Q xs
All_mono f [] _ = tt
All_mono f (x ∷ xs) (p, ps) = (f x p, All_mono f xs ps)

pub All-map {ℓ κ μ} :
    {A : Type ℓ} {B : Type κ} (P : B → Type μ) (f : A → B) (xs : List A)
    → All (λ x. P (f x)) xs
    → All P (map f xs)
All-map P f [] _ = tt
All-map P f (x ∷ xs) (p, ps) = (p, All-map P f xs ps)

module _ {ℓ κ} {A : Type ℓ} (P : A → Type κ) where
  pub All-mem : (xs : List A) → All P xs → (a : A) → Memᴰ a xs → P a
  All-mem [] _ a m = elim m [ ]
  All-mem (x ∷ xs) (p, ps) a (Memᴰ.head e) = rw e p
  All-mem (x ∷ xs) (p, ps) a (Memᴰ.tail m) = All-mem xs ps a m

  pub All_of_mem : (xs : List A) → ((a : A) → Memᴰ a xs → P a) → All P xs
  All_of_mem [] h = tt
  All_of_mem (x ∷ xs) h = (h x (Memᴰ.head refl), All_of_mem xs (λ a m. h a (Memᴰ.tail m)))

  pub All-perm : {xs ys : List A} → Permᴰ xs ys → All P ys → All P xs
  All-perm {xs} {ys} d a = All_of_mem xs (λ x m. All-mem ys a x (perm-mem d m))

  pub All-keep : (p : A → Bool) (xs : List A) → All P xs → All P (keep p xs)
  All-keep p [] _ = tt
  All-keep p (x ∷ xs) (q, qs) = elim (Bool-cases (p x)) [
    | inl e ↦ rw e (q, All-keep p xs qs)
    | inr e ↦ rw e (All-keep p xs qs)
  ]

module _ {ℓ} {A : Type ℓ} where
  pub length-perm : {xs ys : List A} → Permᴰ xs ys → length xs ≡ length ys
  length-perm Permᴰ.nil = refl
  length-perm (Permᴰ.cons e d) = ap suc (length-perm d)
  length-perm (Permᴰ.swap e f) = refl
  length-perm (Permᴰ.trans d₁ d₂) = length-perm d₁ ∙ length-perm d₂

  pub length-keep : (p : A → Bool) (xs : List A) → length (keep p xs) ≤ length xs
  length-keep p [] = omega arith
  length-keep p (x ∷ xs) = ground (arith, length-keep p xs)
