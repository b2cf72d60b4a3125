-- ===== src/Ashrae/Buildings/Laws.antt =====
-- The catalogue of buildings.
use mathlib.Core.List.{Memᴰ}
use mathlib.Core.Path.{subst}
use mathlib.Core.Option.{some-injective}
use twinval_go_backend.Prelude.{
  ℕ, ◌+◌, ◌*◌, ◌≤◌, ◌^◌, ◌≡◌, ◌↔◌, refl, sym, some, List, [], ◌∷◌, All, arith, Bool-cases, inl, inr,
}
use twinval_go_backend.Prelude.Text.{Text, text_eq, text_eq_iff}
use twinval_go_backend.Float.{Float64, IsIeee, IsFinite, fl, ◌⊕◌, ◌≼◌}
use twinval_go_backend.Float.Order.{fl-IsFinite}
use twinval_go_backend.Ashrae.Buildings.{Building, buildings, by_key_in, by_key}

module _ {W : Type 0} ⦃d : Float64 W⦄ where
  by_key_in-mem :
      (bs : List (Building W)) (key : Text) (b : Building W)
      → by_key_in bs key ≡ some b
      → Memᴰ b bs × (b.key ≡ key)
  unfolding by_key_in
  by_key_in-mem [] key b e = cc
  by_key_in-mem (c ∷ bs) key b e = elim (Bool-cases (text_eq c.key key)) [
    | inl t ↦
        let same : c ≡ b = some-injective _ _ (rw (by_key_in, t) at e) in
        (Memᴰ.head (sym same), rw same at ((text_eq_iff c.key key).0 t))
    | inr t ↦ let (m, k) = by_key_in-mem bs key b (rw (by_key_in, t) at e) in (Memᴰ.tail m, k)
  ]

  mem-found :
      (bs : List (Building W)) (b : Building W)
      → All (λ (c : Building W). by_key c.key ≡ some c) bs
      → Memᴰ b bs
      → by_key b.key ≡ some b
  mem-found [] b h m = elim m [ ]
  mem-found (c ∷ bs) b (e, h) (Memᴰ.head q) = rw q e
  mem-found (c ∷ bs) b (e, h) (Memᴰ.tail m) = mem-found bs b h m

  found : All (λ (c : Building W). by_key c.key ≡ some c) buildings
  unfolding by_key
  found = (refl, (refl, (refl, (refl, (refl, tt)))))

  -- ByKey finds a building exactly if it is in the catalogue and has the key: no two buildings share
  -- one.
  by_key_iff :
      (key : Text) (b : Building W) → (by_key key ≡ some b) ↔ (Memᴰ b buildings × (b.key ≡ key))
  unfolding by_key
  by_key_iff key b = (
    by_key_in-mem buildings key b,
    λ p. subst (λ k. by_key k ≡ some b) p.1 (mem-found buildings b found p.0),
  )

module _ {W : Type 0} ⦃d : Float64 W⦄ where
  -- The parts of a building's valuation are finite and add up.
  pub record IsValued (b : Building W) : Type 0 where
    pub total : b.land_value ⊕ b.structure_value ≡ b.govt_valuation
    pub land : IsFinite b.land_value
    pub structure : IsFinite b.structure_value
    pub structure_nonneg : fl 0 ≼ b.structure_value

module _ {W : Type 0} ⦃d : Float64 W⦄ (laws : IsIeee W) where
  open laws use {fl_add, decimal_mono}

  valued :
      (b : Building W) (land structure : ℕ)
      → land + structure ≤ 10 ^ 9
      → b.land_value ≡ fl land
      → b.structure_value ≡ fl structure
      → b.govt_valuation ≡ fl (land + structure)
      → IsValued b
  valued b land structure h p q r = record {
    total = rw (p, q, r) (fl_add land structure h);
    land = rw p (fl-IsFinite laws land (omega arith));
    structure = rw q (fl-IsFinite laws structure (omega arith));
    structure_nonneg = rw q (decimal_mono 0 (structure * 10_000) (omega arith));
  }

  -- In float64, as over the reals, the land and the structure value of each catalogued building add
  -- up to its government valuation; both are finite, and the structure's is not negative.
  pub buildings-IsValued : All (IsValued {W = W}) buildings
  buildings-IsValued = (
    valued _ 75_000_000 110_000_000 (omega arith) refl refl refl,
    (
      valued _ 22_000_000 40_000_000 (omega arith) refl refl refl,
      (
        valued _ 16_000_000 25_000_000 (omega arith) refl refl refl,
        (
          valued _ 58_000_000 79_000_000 (omega arith) refl refl refl,
          (valued _ 34_000_000 54_000_000 (omega arith) refl refl refl, tt),
        ),
      ),
    ),
  )
