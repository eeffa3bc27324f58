-- ===== src/Tests/Regions.antt =====
-- A map of two regions, the second one where the cursor of `mmap_alloc` stands.
use mathlib.Core.Option
use vardoger.Prelude.{
  ℕ, true, false, ◌+◌, ◌≡◌, ◌⊎◌, refl, inr, Option, none, some, List, [], ◌∷◌, arith,
}
use vardoger.Memory.{
  Memory, Region, heap, other, search, add64, first_clash, insert_region, add_region, map_fixed,
  mmap_alloc, unmap,
}
use vardoger.Memory.Regions.{IsFree, Below}
use vardoger.Memory.Tls.{
  ThreadRegister, fresh_memory, seed_tls, TlsSet, setup_tls, setup_tls-TlsSet,
}
use vardoger.Memory.Gaps.{search-IsFree}
use vardoger.Memory.Maps.{IsValid, Fixed, Allocated, map_fixed-Fixed, mmap_alloc-Allocated}
use vardoger.Memory.Unmaps.{unmap-map_fixed}

-- An engine that counts its calls and refuses none.
abbrev pub accept : ℕ → ℕ → ℕ → ℕ → Option ℕ
accept calls base size prot = some (calls + 1)

abbrev pub drop_pages : ℕ → ℕ → ℕ → Option ℕ
drop_pages calls base size = some (calls + 1)

abbrev layout : List Region
layout =
    record { base = 0x40000000; size = 0x8000000; prot = 3; kind = heap }
    ∷ record { base = 0x70000000; size = 0x3000; prot = 3; kind = other }
    ∷ []

abbrev pub machine : Memory ℕ
machine = record {
  regions = layout;
  lib_next = 0x12000000;
  mmap_next = 0x70000000;
  big_next = 0x54000000;
  heap_next = 0;
  heap_end = 0;
  java_next = 0;
  java_end = 0;
  engine = 0;
}

abbrev widened : Memory ℕ
widened = record machine {
  engine = 1;
  regions =
      record { base = 0x40000000; size = 0x8000000; prot = 3; kind = heap }
      ∷ record { base = 0x60000000; size = 0x2000; prot = 5; kind = other }
      ∷ record { base = 0x70000000; size = 0x3000; prot = 3; kind = other }
      ∷ [];
}

layout-IsValid : IsValid layout
layout-IsValid = record {
  sorted = (omega arith, tt);
  disjoint = ((inr (omega arith), tt), (tt, tt));
  below = (omega arith, (omega arith, tt));
}

layout-Below : Below 0xFFFFFFFE00000000 layout
layout-Below = (omega arith, (omega arith, tt))

-- The two regions are skipped: the gap is behind the second one.
gap : search 4096 0x70000000 0x2000 layout ≡ 0x70003000
unfolding search first_clash
gap = refl

mapped_there :
    map_fixed accept drop_pages machine 0x60000010 0x1800 5 other ≡ some (0x60000000, widened)
unfolding map_fixed first_clash add_region insert_region
mapped_there = refl

search-IsFree_example :
    let found = search 4096 0x70000000 0x2000 layout in IsFree found (add64 found 0x2000) layout
search-IsFree_example =
    search-IsFree 4096 0x70000000 0x2000 layout (omega arith) layout-IsValid.below

map_fixed-Fixed_example :
    Fixed accept drop_pages machine 0x60000010 0x1800 5 other
      (map_fixed accept drop_pages machine 0x60000010 0x1800 5 other)
map_fixed-Fixed_example =
    map_fixed-Fixed accept drop_pages machine 0x60000010 0x1800 5 other layout-IsValid (omega arith)

mmap_alloc-Allocated_example :
    Allocated accept drop_pages machine 0x1234 3 (mmap_alloc accept drop_pages machine 0x1234 3)
mmap_alloc-Allocated_example =
    mmap_alloc-Allocated accept drop_pages machine 0x1234 3 layout-IsValid (omega arith)
      layout-Below (omega arith)

unmap-map_fixed_example :
    (unmap accept drop_pages widened 0x60000010 0x1800 ≡ none)
    ⊎ ((s'' : Memory ℕ) × (unmap accept drop_pages widened 0x60000010 0x1800 ≡ some s'')
        × (s''.regions ≡ layout))
unmap-map_fixed_example =
    unmap-map_fixed accept drop_pages machine widened 0x60000010 0x1800 5 0x60000000 other
      layout-IsValid (omega arith) (omega arith) mapped_there

-- Writes that are counted too.
abbrev write_word : ℕ → ℕ → ℕ → Option ℕ
write_word calls addr value = some (calls + 1)

abbrev write_register : ℕ → ThreadRegister → ℕ → Option ℕ
write_register calls register value = some (calls + 1)

abbrev first_memory : Memory ℕ
first_memory = fresh_memory true false 0

-- `setup_tls` right behind the constructor.
first_tls :
    TlsSet accept drop_pages write_word write_register true first_memory
      (setup_tls accept drop_pages write_word write_register true first_memory)
unfolding fresh_memory
first_tls =
    setup_tls-TlsSet accept drop_pages write_word write_register true first_memory
      (record { sorted = tt; disjoint = tt; below = tt }) tt

-- It makes four calls of the engine.
tls_calls :
    Option.map
      (λ (r : ℕ × Memory ℕ). r.1.engine)
      (setup_tls accept drop_pages write_word write_register true first_memory)
    ≡ some 4
unfolding fresh_memory setup_tls seed_tls add_region Option.bind
tls_calls = refl
