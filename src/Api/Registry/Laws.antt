-- ===== src/Api/Registry/Laws.antt =====
-- The registry as a map, and its snapshot.
use mathlib.Core.Path.{subst}
use mathlib.Core.List.{Memᴰ, Permᴰ}
use mathlib.Core.List.Memᴰ
use twinval_go_backend.Prelude.{
  ◌≡◌, refl, ◌∙◌, Option, some, List, [], ◌∷◌, length, length-map, length-perm, All_of_mem, arith,
  perm-mem, if◌then◌else◌, Bool-cases, inl, inr, All,
}
use twinval_go_backend.Prelude.Text.{Text, text_eq, text_eq_iff, text_eq_refl}
use twinval_go_backend.Prelude.Maps.{lookup, keys, lookup-insert}
use twinval_go_backend.Api.Registry.{PropertyState, PropertyRegistry, get, set, len, snapshot_all}

module _ {ℓ} {A : Type ℓ} where
  lookup-key : (k : Text) (m : List (Text × A)) → Memᴰ k (keys m) → (a : A) × (lookup k m ≡ some a)
  lookup-key k [] h = elim h [ ]
  lookup-key k ((j, a) ∷ m) h = elim (Bool-cases (text_eq k j)) [
    | inl e ↦ (a, rw e refl)
    | inr e ↦ elim (Memᴰ.cases_cons h) [
      | inl q ↦ absurd (ground (arith, text_eq_iff k j))
      | inr n ↦ let (b, f) = lookup-key k m n in (b, rw e f)
    ]
  ]

-- Not nil.
abbrev pub IsSome : {A : Type 0} → Option A → Type 0
IsSome {A} o = (a : A) × (o ≡ some a)

module _ {W : Type 0} where
  -- Get reads what Set wrote last under the same id, and other ids keep what they have.
  pub get-set :
      (r : PropertyRegistry W) (j k : Text) (ps : PropertyState W)
      → get (set r k ps) j ≡ (if text_eq j k then some ps else get r j)
  unfolding get set
  get-set r j k ps = lookup-insert j k ps r

  pub get-set_self :
      (r : PropertyRegistry W) (k : Text) (ps : PropertyState W) → get (set r k ps) k ≡ some ps
  get-set_self r k ps = ground (arith, get-set r k k ps, text_eq_refl k)

  -- The snapshot has an entry for each of the sorted keys, and each key has a property.
  pub snapshot_all_lem :
      (sort_strings : List Text → List Text) (r : PropertyRegistry W)
      → Permᴰ (sort_strings (keys r)) (keys r)
      → (length (snapshot_all sort_strings r) ≡ len r)
        × All (λ k. IsSome (lookup k r)) (sort_strings (keys r))
  unfolding snapshot_all len
  snapshot_all_lem sort_strings r p = (
    length-map (λ k. lookup k r) (sort_strings (keys r))
        ∙ length-perm p
        ∙ length-map (λ (e : Text × PropertyState W). e.0) r,
    All_of_mem (λ k. IsSome (lookup k r)) (sort_strings (keys r))
        (λ k m. lookup-key k r (perm-mem p m)),
  )

  -- Every property that is registered has P.
  abbrev pub Registered : (PropertyState W → Type 0) → PropertyRegistry W → Type 0
  Registered P r = (id : Text) (ps : PropertyState W) → get r id ≡ some ps → P ps

  pub none-Registered : (P : PropertyState W → Type 0) → Registered P []
  unfolding get
  none-Registered P id ps e = cc

  pub set-Registered :
      (P : PropertyState W → Type 0) (r : PropertyRegistry W) (k : Text) (ps : PropertyState W)
      → P ps
      → Registered P r
      → Registered P (set r k ps)
  set-Registered P r k ps v all id qs e = elim (Bool-cases (text_eq id k)) [
    | inl q ↦ subst P (ground (arith, get-set r id k ps)) v
    | inr q ↦ all id qs (ground (arith, get-set r id k ps))
  ]
