-- ===== src/Tests/Arenas.antt =====
-- The two arenas of the memory manager, one not open yet, the other one open and full of room.
use vardoger.Prelude.{ℕ, ◌≡◌, inl, refl, true, some, arith}
use vardoger.Memory.{Memory}
use vardoger.Memory.Arenas.{align_to, heap_alloc, java_alloc}
use vardoger.Memory.Arenas.Bumps.{JavaOk, Bumped, java_alloc-Bumped, heap_alloc_wraps}
use vardoger.Tests.Regions.{accept, drop_pages, machine}

pub machine-JavaOk : JavaOk accept drop_pages machine
machine-JavaOk = record { within = inl refl }

java_alloc-Bumped_example :
    Bumped accept drop_pages machine 0x80 (java_alloc accept drop_pages machine 0x80 16)
java_alloc-Bumped_example =
    java_alloc-Bumped accept drop_pages machine 0x80 (omega arith) machine-JavaOk

abbrev opened : Memory ℕ
opened = record machine { heap_next = 0x40000000; heap_end = 0x48000000 }

heap_alloc_wraps_example :
    (heap_alloc accept drop_pages true opened 0xFFFFFFFFC0000000 16).1
    ≡ some (align_to 0x40000000 16)
heap_alloc_wraps_example =
    heap_alloc_wraps accept drop_pages true opened 0xFFFFFFFFC0000000 (λ e. absurd (omega arith))
      (omega arith) (omega arith) (omega arith) (omega arith) (omega arith)
