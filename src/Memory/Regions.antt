-- ===== src/Memory/Regions.antt =====
-- The list of regions: its order, what overlaps, and the region that an address lies in.
use vardoger.Prelude.{
  ℕ, ◌+◌, ◌≤◌, ◌<◌, ◌≡◌, ◌↔◌, ◌⊎◌, refl, inl, inr, ◌&&◌, none, some, List, [], ◌∷◌, arith, ltb, leb,
  if◌then◌else◌, Bool-cases,
}
use vardoger.Memory.{Region, insert_region, region_of, first_clash}

-- Every region ends below `top`, so that no sum of a base and a size wraps.
abbrev pub Below : ℕ → List Region → Type 0
Below top [] = Unit {0}
Below top (r ∷ rest) = (r.base + r.size < top) × Below top rest

-- Bases rise.
abbrev pub From : ℕ → List Region → Type 0
From b [] = Unit {0}
From b (r ∷ rest) = (b ≤ r.base) × From r.base rest

abbrev pub IsSorted : List Region → Type 0
IsSorted [] = Unit {0}
IsSorted (r ∷ rest) = From r.base rest

-- The addresses from `base` to `end` are free of the regions.
abbrev pub IsFree : ℕ → ℕ → List Region → Type 0
IsFree base end [] = Unit {0}
IsFree base end (r ∷ rest) = ((r.base + r.size ≤ base) ⊎ (end ≤ r.base)) × IsFree base end rest

-- No two regions overlap.
abbrev pub IsDisjoint : List Region → Type 0
IsDisjoint [] = Unit {0}
IsDisjoint (r ∷ rest) = IsFree r.base (r.base + r.size) rest × IsDisjoint rest

abbrev pub u64_mod : ℕ
u64_mod = 18446744073709551616

-- The test of the allocators finds nothing exactly when the range is free.
pub first_clash-none_iff :
    (base end : ℕ) (regions : List Region)
    → Below u64_mod regions
    → (first_clash base end regions ≡ none) ↔ IsFree base end regions
unfolding first_clash
first_clash-none_iff base end [] b = (λ h. tt, λ h. refl)
first_clash-none_iff base end (r ∷ rest) b =
    let later = first_clash-none_iff base end rest b.1 in
    (λ h. (ground arith, later.0 (ground arith)), λ h. ground (arith, later.1 h.1))

pub insert_region-From :
    (b : ℕ) (r : Region) (regions : List Region)
    → b ≤ r.base
    → From b regions
    → From b (insert_region r regions)
unfolding insert_region
insert_region-From b r [] le s = (le, tt)
insert_region-From b r (a ∷ rest) le s = elim (Bool-cases (ltb r.base a.base)) [
  | inl lt ↦ rw lt (le, (ground arith, s.1))
  | inr ge ↦ rw ge (s.0, insert_region-From a.base r rest (ground arith) s.1)
]

pub insert_region-IsSorted :
    (r : Region) (regions : List Region) → IsSorted regions → IsSorted (insert_region r regions)
unfolding insert_region
insert_region-IsSorted r [] s = tt
insert_region-IsSorted r (a ∷ rest) s = elim (Bool-cases (ltb r.base a.base)) [
  | inl lt ↦ rw lt (ground arith, s)
  | inr ge ↦ rw ge (insert_region-From a.base r rest (ground arith) s)
]

pub insert_region-Below :
    (top : ℕ) (r : Region) (regions : List Region)
    → r.base + r.size < top
    → Below top regions
    → Below top (insert_region r regions)
unfolding insert_region
insert_region-Below top r [] h b = (h, tt)
insert_region-Below top r (a ∷ rest) h b = elim (Bool-cases (ltb r.base a.base)) [
  | inl lt ↦ rw lt (h, b)
  | inr ge ↦ rw ge (b.0, insert_region-Below top r rest h b.1)
]

pub insert_region-IsFree :
    (base end : ℕ) (r : Region) (regions : List Region)
    → (r.base + r.size ≤ base) ⊎ (end ≤ r.base)
    → IsFree base end regions
    → IsFree base end (insert_region r regions)
unfolding insert_region
insert_region-IsFree base end r [] h f = (h, tt)
insert_region-IsFree base end r (a ∷ rest) h f = elim (Bool-cases (ltb r.base a.base)) [
  | inl lt ↦ rw lt (h, f)
  | inr ge ↦ rw ge (f.0, insert_region-IsFree base end r rest h f.1)
]

-- A region in a free place joins the others without an overlap.
pub insert_region-IsDisjoint :
    (r : Region) (regions : List Region)
    → IsFree r.base (r.base + r.size) regions
    → IsDisjoint regions
    → IsDisjoint (insert_region r regions)
unfolding insert_region
insert_region-IsDisjoint r [] f d = (tt, tt)
insert_region-IsDisjoint r (a ∷ rest) f d = elim (Bool-cases (ltb r.base a.base)) [
  | inl lt ↦ rw lt (f, d)
  | inr ge ↦ rw ge (
    insert_region-IsFree a.base (a.base + a.size) r rest (ground arith) d.0,
    insert_region-IsDisjoint r rest f.1 d.1,
  )
]

-- Which region an address lies in, after a region was added in a free place.
pub region_of-insert_region :
    (addr : ℕ) (r : Region) (regions : List Region)
    → Below u64_mod regions
    → r.base + r.size < u64_mod
    → IsFree r.base (r.base + r.size) regions
    → region_of addr (insert_region r regions)
      ≡ (if leb r.base addr && ltb addr (r.base + r.size) then some r else region_of addr regions)
unfolding region_of insert_region
region_of-insert_region addr r [] b h f = ground arith
region_of-insert_region addr r (a ∷ rest) b h f =
    ground (arith, region_of-insert_region addr r rest b.1 h f.1)
