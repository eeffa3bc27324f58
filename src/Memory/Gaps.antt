-- ===== src/Memory/Gaps.antt =====
-- The search of `Memory::mmap_alloc` for a gap: 4096 tries are enough for 4096 regions.
use vardoger.Prelude.{
  ℕ, zero, suc, ◌≤◌, ◌<◌, ◌≡◌, refl, inl, inr, none, some, List, [], ◌∷◌, arith, ltb, if◌then◌else◌,
  Option-cases, Bool-cases, length,
}
use vardoger.Memory.{Region, region_end, overlaps, first_clash, search, add64}
use vardoger.Memory.Regions.{Below, IsFree, u64_mod, first_clash-none_iff}

-- How many regions end above `base`.
count : ℕ → List Region → ℕ
count base [] = 0
count base (r ∷ rest) = if ltb base (region_end r) then suc (count base rest) else count base rest

count-length : (base : ℕ) (regions : List Region) → count base regions ≤ length regions
unfolding count
count-length base [] = omega arith
count-length base (r ∷ rest) = ground (arith, count-length base rest)

count_mono : (a b : ℕ) (regions : List Region) → a ≤ b → count b regions ≤ count a regions
unfolding count
count_mono a b [] h = omega arith
count_mono a b (r ∷ rest) h = ground (arith, count_mono a b rest h)

first_clash-lt :
    (base end next : ℕ) (regions : List Region)
    → first_clash base end regions ≡ some next
    → base < next
unfolding first_clash
first_clash-lt base end next [] h = cc
first_clash-lt base end next (r ∷ rest) h = elim (Bool-cases (overlaps base end r)) [
  | inl hit ↦ ground arith
  | inr miss ↦ first_clash-lt base end next rest (ground arith)
]

-- Behind the region in the way, fewer regions are ahead.
count-first_clash :
    (base end next : ℕ) (regions : List Region)
    → first_clash base end regions ≡ some next
    → count next regions < count base regions
unfolding first_clash count
count-first_clash base end next [] h = cc
count-first_clash base end next (r ∷ rest) h =
    let up = first_clash-lt base end next (r ∷ rest) h in
    let mono = count_mono base next rest (omega (arith, up)) in
    elim (Bool-cases (overlaps base end r)) [
      | inl hit ↦ ground arith
      | inr miss ↦ ground (arith, count-first_clash base end next rest (ground arith))
    ]

first_clash-count :
    (base end : ℕ) (regions : List Region)
    → count base regions ≡ 0
    → first_clash base end regions ≡ none
unfolding first_clash count
first_clash-count base end [] h = refl
first_clash-count base end (r ∷ rest) h = ground (arith, first_clash-count base end rest)

search-none :
    (tries base size : ℕ) (regions : List Region)
    → count base regions ≤ tries
    → first_clash
        (search tries base size regions)
        (add64 (search tries base size regions) size)
        regions
      ≡ none
unfolding search
search-none zero base size regions h = first_clash-count base _ regions (omega arith)
search-none (suc tries) base size regions h =
    elim (Option-cases (first_clash base (add64 base size) regions)) [
      | inl e ↦ rw (e, search) e
      | inr (next, e) ↦
          rw (e, search)
            (search-none tries next size regions
              (omega (arith, count-first_clash base (add64 base size) next regions e)))
    ]

first_clash-Below :
    (top base end next : ℕ) (regions : List Region)
    → top ≤ u64_mod
    → Below top regions
    → first_clash base end regions ≡ some next
    → next < top
unfolding first_clash
first_clash-Below top base end next [] t b h = cc
first_clash-Below top base end next (r ∷ rest) t b h = elim (Bool-cases (overlaps base end r)) [
  | inl hit ↦ ground arith
  | inr miss ↦ first_clash-Below top base end next rest t b.1 (ground arith)
]

-- The search does not leave the part of the address space that the regions and its start lie in.
pub search-Below :
    (top tries base size : ℕ) (regions : List Region)
    → top ≤ u64_mod
    → Below top regions
    → base < top
    → search tries base size regions < top
unfolding search
search-Below top zero base size regions t b h = h
search-Below top (suc tries) base size regions t b h =
    elim (Option-cases (first_clash base (add64 base size) regions)) [
      | inl e ↦ rw (e, search) h
      | inr (next, e) ↦
          rw (e, search)
            (search-Below top tries next size regions t b
              (first_clash-Below top base (add64 base size) next regions t b e))
    ]

-- When no end of a region wraps, as many tries as there are regions are enough for the search of
-- `mmap_alloc` to end at a base from which the range, with its end taken on 64 bits, is free.
pub search-IsFree :
    (tries base size : ℕ) (regions : List Region)
    → length regions ≤ tries
    → Below u64_mod regions
    → let found = search tries base size regions in IsFree found (add64 found size) regions
search-IsFree tries base size regions h b =
    (first_clash-none_iff _ _ regions b).0
      (search-none tries base size regions (omega (arith, count-length base regions)))
