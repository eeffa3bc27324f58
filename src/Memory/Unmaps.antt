-- ===== src/Memory/Unmaps.antt =====
-- `Memory::unmap`: it undoes `map_fixed`, and keeps a map without overlaps.
use vardoger.Prelude.{
  ℕ, ◌+◌, ◌≤◌, ◌<◌, ◌≡◌, ◌⊎◌, refl, sym, ap, ◌∙◌, inl, inr, ◌&&◌, Option, none, some, List, [], ◌∷◌,
  arith, ◌==◌, Option-cases, Bool-cases,
}
use vardoger.Memory.{
  Memory, Region, Kind, first_clash, insert_region, add64, sub64, page_align_down, page_align_up,
  add_region, map_fixed, erase_region, unmap,
}
use vardoger.Memory.Regions.{
  Below, From, IsSorted, IsFree, IsDisjoint, u64_mod, first_clash-none_iff,
}
use vardoger.Memory.Maps.{IsValid}

erase_region_free :
    (base size : ℕ) (regions : List Region)
    → 0 < size
    → IsFree base (base + size) regions
    → erase_region base size regions ≡ regions
unfolding erase_region
erase_region_free base size [] h f = refl
erase_region_free base size (r ∷ rest) h f = ground (arith, erase_region_free base size rest h f.1)

erase_region-insert_region :
    (r : Region) (regions : List Region)
    → 0 < r.size
    → IsFree r.base (r.base + r.size) regions
    → erase_region r.base r.size (insert_region r regions) ≡ regions
unfolding erase_region insert_region
erase_region-insert_region r [] h f = ground arith
erase_region-insert_region r (a ∷ rest) h f =
    ground
      (arith, erase_region_free r.base r.size rest h f.1, erase_region-insert_region r rest h f.1)

erase_region-IsFree :
    (base size b e : ℕ) (regions : List Region)
    → IsFree b e regions
    → IsFree b e (erase_region base size regions)
unfolding erase_region
erase_region-IsFree base size b e [] f = tt
erase_region-IsFree base size b e (r ∷ rest) f =
    elim (Bool-cases (r.base == base && r.size == size)) [
      | inl hit ↦ rw hit (erase_region-IsFree base size b e rest f.1)
      | inr miss ↦ rw miss (f.0, erase_region-IsFree base size b e rest f.1)
    ]

From-weaken : (a b : ℕ) (regions : List Region) → a ≤ b → From b regions → From a regions
From-weaken a b [] h f = tt
From-weaken a b (r ∷ rest) h f = (omega (arith, f.0), f.1)

erase_region-From :
    (base size b : ℕ) (regions : List Region)
    → From b regions
    → From b (erase_region base size regions)
unfolding erase_region
erase_region-From base size b [] f = tt
erase_region-From base size b (r ∷ rest) f = elim (Bool-cases (r.base == base && r.size == size)) [
  | inl hit ↦ rw hit (From-weaken b r.base _ f.0 (erase_region-From base size r.base rest f.1))
  | inr miss ↦ rw miss (f.0, erase_region-From base size r.base rest f.1)
]

From-IsSorted : (b : ℕ) (regions : List Region) → From b regions → IsSorted regions
From-IsSorted b [] f = tt
From-IsSorted b (r ∷ rest) f = f.1

IsSorted-From : (regions : List Region) → IsSorted regions → From 0 regions
IsSorted-From [] s = tt
IsSorted-From (r ∷ rest) s = (omega arith, s)

erase_region-Below :
    (base size top : ℕ) (regions : List Region)
    → Below top regions
    → Below top (erase_region base size regions)
unfolding erase_region
erase_region-Below base size top [] b = tt
erase_region-Below base size top (r ∷ rest) b =
    elim (Bool-cases (r.base == base && r.size == size)) [
      | inl hit ↦ rw hit (erase_region-Below base size top rest b.1)
      | inr miss ↦ rw miss (b.0, erase_region-Below base size top rest b.1)
    ]

erase_region-IsDisjoint :
    (base size : ℕ) (regions : List Region)
    → IsDisjoint regions
    → IsDisjoint (erase_region base size regions)
unfolding erase_region
erase_region-IsDisjoint base size [] d = tt
erase_region-IsDisjoint base size (r ∷ rest) d =
    elim (Bool-cases (r.base == base && r.size == size)) [
      | inl hit ↦ rw hit (erase_region-IsDisjoint base size rest d.1)
      | inr miss ↦ rw miss (
        erase_region-IsFree base size r.base (r.base + r.size) rest d.0,
        erase_region-IsDisjoint base size rest d.1,
      )
    ]

erase_region-IsValid :
    (base size : ℕ) (regions : List Region)
    → IsValid regions
    → IsValid (erase_region base size regions)
erase_region-IsValid base size regions v = record {
  sorted =
      From-IsSorted 0 _ (erase_region-From base size 0 regions (IsSorted-From regions v.sorted));
  disjoint = erase_region-IsDisjoint base size regions v.disjoint;
  below = erase_region-Below base size u64_mod regions v.below;
}

module _ {ℓ} {E : Type ℓ} (map : E → ℕ → ℕ → ℕ → Option E)
    (unmap_pages : E → ℕ → ℕ → Option E) where
  listed : Option (ℕ × Memory E) → List Region
  listed none = []
  listed (some (base, s)) = s.regions

  -- What a success of `map_fixed` tells.
  map_fixed-some :
      (s s' : Memory E) (addr len prot base : ℕ) (kind : Kind)
      → map_fixed map unmap_pages s addr len prot kind ≡ some (base, s')
      → let low = page_align_down addr in
        let end = page_align_up (add64 addr len) in
        E
        × (first_clash low end s.regions ≡ none)
        × (s'.regions
            ≡ insert_region
                (record { base = low; size = sub64 end low; prot = prot; kind = kind })
                s.regions)
  unfolding map_fixed add_region listed
  map_fixed-some s s' addr len prot base kind e =
      let low = page_align_down addr in
      let end = page_align_up (add64 addr len) in
      elim (Option-cases (first_clash low end s.regions)) [
        | inr (next, f) ↦ absurd (let no' : none ≡ some (base, s') = rw (f, map_fixed) at e in cc)
        | inl f ↦ elim (Option-cases (map s.engine low (sub64 end low) prot)) [
          | inl g ↦
              absurd
                (let no' : none ≡ some (base, s') = rw (f, g, map_fixed, add_region) at e in cc)
          | inr (x, g) ↦ (x, f, sym (rw (f, g, map_fixed, add_region) at (ap listed e)))
        ]
      ]

  -- On a valid map, `unmap` of a range that `map_fixed` mapped, not empty and with an end that does
  -- not wrap, throws if the engine refuses; otherwise it brings back the list of regions from before
  -- `map_fixed`.
  pub unmap-map_fixed :
      (s s' : Memory E) (addr len prot base : ℕ) (kind : Kind)
      → IsValid s.regions
      → 0 < len
      → addr + len + 0xFFF < u64_mod
      → map_fixed map unmap_pages s addr len prot kind ≡ some (base, s')
      → (unmap map unmap_pages s' addr len ≡ none)
        ⊎ ((s'' : Memory E) × (unmap map unmap_pages s' addr len ≡ some s'')
            × (s''.regions ≡ s.regions))
  unfolding map_fixed add_region unmap
  unmap-map_fixed s s' addr len prot base kind v pos h e =
      let low = page_align_down addr in
      let end = page_align_up (add64 addr len) in
      let size = sub64 end low in
      let upto : low + size ≡ end = omega arith in
      let some_bytes : 0 < size = omega arith in
      let (g, clear, shape) = map_fixed-some s s' addr len prot base kind e in
      let free : IsFree low (low + size) s.regions =
        rw upto ((first_clash-none_iff low end s.regions v.below).0 clear) in
      let r : Region = record { base = low; size = size; prot = prot; kind = kind } in
      elim (Option-cases (unmap_pages s'.engine low size)) [
        | inl refused ↦ inl (rw (refused, unmap) refl)
        | inr (x, done) ↦ inr (
          record s' { engine = x; regions = erase_region low size s'.regions },
          rw (done, unmap) refl,
          ap (erase_region low size) shape ∙ erase_region-insert_region r s.regions some_bytes free,
        )
      ]

  -- `unmap` on a valid map throws if the engine refuses, or leaves a valid map.
  pub unmap-IsValid :
      (s : Memory E) (addr len : ℕ)
      → IsValid s.regions
      → (unmap map unmap_pages s addr len ≡ none)
        ⊎ ((s' : Memory E) × (unmap map unmap_pages s addr len ≡ some s') × IsValid s'.regions)
  unfolding unmap
  unmap-IsValid s addr len v =
      let low = page_align_down addr in
      let size = sub64 (page_align_up (add64 addr len)) low in
      elim (Option-cases (unmap_pages s.engine low size)) [
        | inl refused ↦ inl (rw (refused, unmap) refl)
        | inr (x, done) ↦ inr (
          record s { engine = x; regions = erase_region low size s.regions },
          rw (done, unmap) refl,
          erase_region-IsValid low size s.regions v,
        )
      ]
