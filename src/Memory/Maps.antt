-- ===== src/Memory/Maps.antt =====
-- `Memory::map_fixed`, `mmap_alloc` and `unmap` on a map without overlaps.
use vardoger.Prelude.{
  ℕ, ◌+◌, ◌%◌, ◌≤◌, ◌<◌, ◌≡◌, sym, ◌∙◌, inl, inr, ◌&&◌, Option, none, some, List, arith, ltb, leb,
  if◌then◌else◌, Option-cases, Bool-cases, length,
}
use vardoger.Memory.{
  Memory, Region, Kind, mmap, first_clash, insert_region, region_of, search, add64, sub64,
  page_align_down, page_align_up, pages, add_region, map_fixed, mmap_alloc,
}
use vardoger.Memory.Regions.{
  Below, IsSorted, IsFree, IsDisjoint, u64_mod, first_clash-none_iff, insert_region-IsSorted,
  insert_region-Below, insert_region-IsDisjoint, region_of-insert_region,
}
use vardoger.Memory.Gaps.{search-IsFree, search-Below}

align_up_ge : (a : ℕ) → a + 0xFFF < u64_mod → a ≤ page_align_up a
align_up_ge a h = omega arith

align_up_le : (a : ℕ) → a + 0xFFF < u64_mod → page_align_up a ≤ a + 0xFFF
align_up_le a h = omega arith

-- The regions are in order, none overlaps another and no end wraps.
pub record IsValid (regions : List Region) : Type 0 where
  pub sorted : IsSorted regions
  pub disjoint : IsDisjoint regions
  pub below : Below u64_mod regions

insert_region-IsValid :
    (r : Region) (regions : List Region)
    → r.base + r.size < u64_mod
    → IsFree r.base (r.base + r.size) regions
    → IsValid regions
    → IsValid (insert_region r regions)
insert_region-IsValid r regions h f v = record {
  sorted = insert_region-IsSorted r regions v.sorted;
  disjoint = insert_region-IsDisjoint r regions f v.disjoint;
  below = insert_region-Below u64_mod r regions h v.below;
}

-- The regions `after` are `before` with one more, from `base` on and of `size` bytes, in a place
-- that was free: an address of it lies in it, and every other one where it lay before.
pub record Added (base size prot : ℕ) (kind : Kind) (before after : List Region) : Type 0 where
  pub was_free : IsFree base (base + size) before
  pub valid : IsValid after
  pub lookup :
      (addr : ℕ)
      → region_of addr after ≡ (
          if leb base addr && ltb addr (base + size)
          then some (record { base = base; size = size; prot = prot; kind = kind })
          else region_of addr before)

pub insert_region-Added :
    (base size prot : ℕ) (kind : Kind) (regions : List Region)
    → base + size < u64_mod
    → IsFree base (base + size) regions
    → IsValid regions
    → Added base size prot kind regions
        (insert_region (record { base = base; size = size; prot = prot; kind = kind }) regions)
insert_region-Added base size prot kind regions h f v =
    let r : Region = record { base = base; size = size; prot = prot; kind = kind } in
    record {
      was_free = f;
      valid = insert_region-IsValid r regions h f v;
      lookup = λ addr. region_of-insert_region addr r regions v.below h f;
    }

pages_ge : (len : ℕ) → len ≤ 0x100000000 → len ≤ pages len
pages_ge len h = ground arith

pages_gt : (len : ℕ) → len ≤ 0x100000000 → 0 < pages len
pages_gt len h = ground arith

pages_le : (len : ℕ) → len ≤ 0x100000000 → pages len ≤ 0x100001000
pages_le len h = ground arith

module _ {ℓ} {E : Type ℓ} (map : E → ℕ → ℕ → ℕ → Option E)
    (unmap_pages : E → ℕ → ℕ → Option E) where
  -- The two ways in which `map_fixed` ends: with a region over whole pages that holds the range, or
  -- with an exception, because a region is in the way or the engine refuses.
  pub data Fixed (s : Memory E) (addr len prot : ℕ) (kind : Kind)
      : Option (ℕ × Memory E) → Type ℓ where
    mapped :
        (base size : ℕ) (s' : Memory E)
        → base % 0x1000 ≡ 0
        → base ≤ addr
        → addr + len ≤ base + size
        → Added base size prot kind s.regions s'.regions
        → Fixed s addr len prot kind (some (base, s'))
    taken :
        (IsFree (page_align_down addr) (page_align_up (addr + len)) s.regions → ⊥)
        → Fixed s addr len prot kind none
    refused :
        (base size : ℕ)
        → IsFree base (base + size) s.regions
        → map s.engine base size prot ≡ none
        → Fixed s addr len prot kind none

  -- `map_fixed` on a valid map, of a range whose end does not wrap: it throws if a region is in the
  -- way or the engine refuses; otherwise the map has one more region, over whole pages, that holds
  -- the range, overlaps no other one and is found for its addresses and for no others.
  pub map_fixed-Fixed :
      (s : Memory E) (addr len prot : ℕ) (kind : Kind)
      → IsValid s.regions
      → addr + len + 0xFFF < u64_mod
      → Fixed s addr len prot kind (map_fixed map unmap_pages s addr len prot kind)
  unfolding map_fixed add_region
  map_fixed-Fixed s addr len prot kind v h =
      let base = page_align_down addr in
      let end = page_align_up (add64 addr len) in
      let size = sub64 end base in
      let free_iff = first_clash-none_iff base end s.regions v.below in
      let no_wrap : add64 addr len ≡ addr + len = omega arith in
      let upto : base + size ≡ end = omega arith in
      elim (Option-cases (first_clash base end s.regions)) [
        | inr (next, e) ↦
            rw (e, map_fixed)
              (taken (λ f. let no' : none ≡ some next = sym (free_iff.1 (rw no_wrap f)) ∙ e in cc))
        | inl e ↦ elim (Option-cases (map s.engine base size prot)) [
          | inl f ↦ rw (e, f, map_fixed, add_region) (refused base size (rw upto (free_iff.0 e)) f)
          | inr (g, f) ↦
              rw (e, f, map_fixed, add_region)
                (mapped base size _ (omega arith) (omega arith) (omega arith) (
                  insert_region-Added base size prot kind s.regions (omega arith)
                    (rw upto (free_iff.0 e)) v))
        ]
      ]

  -- The ways in which `mmap_alloc` ends: with an exception, for a length above 4 GiB or because the
  -- engine refuses free pages, or with new pages and the cursor behind them.
  pub data Allocated (s : Memory E) (len prot : ℕ) : Option (ℕ × Memory E) → Type ℓ where
    too_long : 0x100000000 < len → Allocated s len prot none
    no_pages :
        (base size : ℕ)
        → IsFree base (base + size) s.regions
        → map s.engine base size prot ≡ none
        → Allocated s len prot none
    placed :
        (base size : ℕ) (s' : Memory E)
        → len ≤ size
        → 0 < size
        → Added base size prot mmap s.regions s'.regions
        → s'.mmap_next ≡ base + size
        → Allocated s len prot (some (base, s'))

  -- `mmap_alloc` on a valid map of at most 4096 regions that, like its cursor, stay 8 GiB below the
  -- end of the address space: it throws for a length above 4 GiB or if the engine refuses pages that
  -- are free; otherwise the map has one more region of at least the length, not empty, that overlaps
  -- no other one, and the cursor stands at its end.
  pub mmap_alloc-Allocated :
      (s : Memory E) (len prot : ℕ)
      → IsValid s.regions
      → length s.regions ≤ 4096
      → Below 0xFFFFFFFE00000000 s.regions
      → s.mmap_next < 0xFFFFFFFE00000000
      → Allocated s len prot (mmap_alloc map unmap_pages s len prot)
  unfolding mmap_alloc add_region
  mmap_alloc-Allocated s len prot v few low next =
      let size = pages len in
      let base = search 4096 s.mmap_next size s.regions in
      let base_low =
        search-Below 0xFFFFFFFE00000000 4096 s.mmap_next size s.regions (omega arith) low next in
      elim (Bool-cases (ltb 0x100000000 len)) [
        | inl long ↦ rw long (too_long (ground arith))
        | inr short ↦
            let fits : len ≤ 0x100000000 = ground arith in
            let room : len ≤ size = pages_ge len fits in
            let small : size ≤ 0x100001000 = pages_le len fits in
            let no_wrap : add64 base size ≡ base + size = omega (arith, base_low) in
            let free : IsFree base (base + size) s.regions =
              rw no_wrap at (search-IsFree 4096 s.mmap_next size s.regions few v.below) in
            elim (Option-cases (map s.engine base size prot)) [
              | inl f ↦ rw (short, f, mmap_alloc, add_region) (no_pages base size free f)
              | inr (g, f) ↦
                  rw (short, f, mmap_alloc, add_region)
                    (placed base size _ room (pages_gt len fits)
                      (insert_region-Added base size prot mmap s.regions (omega arith) free v)
                      no_wrap)
            ]
      ]
