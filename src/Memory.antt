-- ===== src/Memory.antt =====
-- core/engine/memory.cpp and include/vardoger/engine/{memory,address_space}.hpp: the map of the
-- guest's memory and its allocators.
--
-- The state holds the class's fields and the engine's state `engine`. The engine's calls of
-- `uc_mem_map` and `uc_mem_unmap` are parameters: `none` is an error, on which the engine throws,
-- and then so does the operation (`none`). Sums are 64 bits wide. Labels and flags are left out.
pub mod Regions
pub mod Gaps
pub mod Maps
pub mod Unmaps
pub mod Arenas
pub mod Protect
pub mod Tls
use vardoger.Prelude.{
  ℕ, zero, suc, ◌+◌, ◌-◌, ◌%◌, Bool, true, false, ◌&&◌, Option, none, some, List, [], ◌∷◌, ltb, leb,
  ◌==◌, if◌then◌else◌, is_some,
}

pub data Kind : Type 0 where
  lib stack heap mmap trampoline java tls kuser fini other : Kind

pub record Region : Type 0 where
  pub base : ℕ
  pub size : ℕ
  pub prot : ℕ
  pub kind : Kind

pub record Memory {ℓ} (E : Type ℓ) : Type ℓ where
  pub regions : List Region
  pub lib_next : ℕ
  pub mmap_next : ℕ
  pub big_next : ℕ
  pub heap_next : ℕ
  pub heap_end : ℕ
  pub java_next : ℕ
  pub java_end : ℕ
  pub engine : E

abbrev pub mmap_base : ℕ
mmap_base = 0x70000000

abbrev pub big_malloc_base : ℕ
big_malloc_base = 0x54000000

abbrev pub stack_top : ℕ
stack_top = 0xC0000000

-- `a + b` on `uint64_t`
abbrev pub add64 : ℕ → ℕ → ℕ
add64 a b = (a + b) % 18446744073709551616

abbrev pub sub64 : ℕ → ℕ → ℕ
sub64 a b = (a + (18446744073709551616 - b)) % 18446744073709551616

abbrev pub page_align_down : ℕ → ℕ
page_align_down a = a - a % 0x1000

abbrev pub page_align_up : ℕ → ℕ
page_align_up a = let b = add64 a 0xFFF in b - b % 0x1000

abbrev pub region_end : Region → ℕ
region_end r = add64 r.base r.size

-- A new region is mapped readable and writable: `UC_PROT_READ | UC_PROT_WRITE`.
abbrev pub read_write : ℕ
read_write = 3

-- `std::upper_bound` by the base, and the insertion there.
unfoldable pub insert_region : Region → List Region → List Region
insert_region r [] = r ∷ []
insert_region r (a ∷ rest) = if ltb r.base a.base then r ∷ a ∷ rest else a ∷ insert_region r rest

-- The first region that contains the address.
unfoldable pub region_of : ℕ → List Region → Option Region
region_of addr [] = none
region_of addr (r ∷ rest) =
    if leb r.base addr && ltb addr (region_end r) then some r else region_of addr rest

abbrev pub is_mapped : ℕ → List Region → Bool
is_mapped addr regions = is_some (region_of addr regions)

-- `base < r.base + r.size && r.base < end`
abbrev pub overlaps : ℕ → ℕ → Region → Bool
overlaps base end r = ltb base (region_end r) && ltb r.base end

-- The end of the first region that overlaps.
unfoldable pub first_clash : ℕ → ℕ → List Region → Option ℕ
first_clash base end [] = none
first_clash base end (r ∷ rest) =
    if overlaps base end r then some (region_end r) else first_clash base end rest

-- The loop of `mmap_alloc` that moves `base` behind the regions in its way, `tries` times at most.
unfoldable pub search : ℕ → ℕ → ℕ → List Region → ℕ
search zero base size regions = base
search (suc tries) base size regions = elim (first_clash base (add64 base size) regions) [
  | none ↦ base
  | some next ↦ search tries next size regions
]

unfoldable pub erase_region : ℕ → ℕ → List Region → List Region
erase_region base size [] = []
erase_region base size (r ∷ rest) =
    if r.base == base && r.size == size
    then erase_region base size rest
    else r ∷ erase_region base size rest

-- `page_align_up(len ? len : 1)`
abbrev pub pages : ℕ → ℕ
pages len = page_align_up (if len == 0 then 1 else len)

module _ {ℓ} {E : Type ℓ} (map : E → ℕ → ℕ → ℕ → Option E)
    (unmap_pages : E → ℕ → ℕ → Option E) where
  -- `engine_.map(base, size, prot); insert_region({base, size, prot, kind, label, false});`
  unfoldable pub add_region : Memory E → ℕ → ℕ → ℕ → Kind → Option (Memory E)
  add_region s base size prot kind = elim (map s.engine base size prot) [
    | none ↦ none
    | some e ↦ some (record s {
      engine = e;
      regions =
          insert_region (record { base = base; size = size; prot = prot; kind = kind }) s.regions;
    })
  ]

  unfoldable pub map_fixed : Memory E → ℕ → ℕ → ℕ → Kind → Option (ℕ × Memory E)
  map_fixed s addr len prot kind =
      let base = page_align_down addr in
      let end = page_align_up (add64 addr len) in
      elim (first_clash base end s.regions) [
        | some next ↦ none
        | none ↦ elim (add_region s base (sub64 end base) prot kind) [
          | none ↦ none
          | some s' ↦ some (base, s')
        ]
      ]

  unfoldable pub mmap_alloc : Memory E → ℕ → ℕ → Option (ℕ × Memory E)
  mmap_alloc s len prot =
      let size = pages len in
      let base = search 4096 s.mmap_next size s.regions in
      if ltb 0x100000000 len then none else elim (add_region s base size prot mmap) [
        | none ↦ none
        | some s' ↦ some (base, record s' { mmap_next = add64 base size })
      ]

  unfoldable pub big_alloc : Memory E → ℕ → ℕ → Option (ℕ × Memory E)
  big_alloc s len prot =
      let size = pages len in
      if ltb mmap_base (add64 s.big_next size)
      then mmap_alloc s len prot
      else elim (add_region s s.big_next size prot mmap) [
        | none ↦ none
        | some s' ↦ some (s.big_next, record s' { big_next = add64 s.big_next size })
      ]

  unfoldable pub map_lib : Memory E → ℕ → ℕ → Option (ℕ × Memory E)
  map_lib s total prot =
      let size = page_align_up total in
      elim (add_region s s.lib_next size prot lib) [
        | none ↦ none
        | some s' ↦ some (s.lib_next, record s' { lib_next = add64 (add64 s.lib_next size) 0x1000 })
      ]

  -- The stack pointer is the result; the engine's write of it is left out.
  unfoldable pub setup_stack : Memory E → ℕ → Option (ℕ × Memory E)
  setup_stack s len =
      let size = page_align_up len in
      elim (add_region s (sub64 stack_top size) size read_write stack) [
        | none ↦ none
        | some s' ↦ some (stack_top - 16, s')
      ]

  unfoldable pub unmap : Memory E → ℕ → ℕ → Option (Memory E)
  unmap s addr len =
      let base = page_align_down addr in
      let size = sub64 (page_align_up (add64 addr len)) base in
      elim (unmap_pages s.engine base size) [
        | none ↦ none
        | some e ↦ some (record s { engine = e; regions = erase_region base size s.regions })
      ]
