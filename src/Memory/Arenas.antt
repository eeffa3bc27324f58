-- ===== src/Memory/Arenas.antt =====
-- `Memory::heap_alloc` and `Memory::java_alloc`: two arenas with a cursor. The result is the state
-- and the address; no address is an exception. Logging is left out.
pub mod Bumps
use vardoger.Prelude.{ℕ, ◌+◌, ◌-◌, ◌%◌, Bool, Option, none, some, ltb, ◌==◌, if◌then◌else◌, bit_and}
use vardoger.Memory.{
  Memory, Kind, heap, java, add64, sub64, page_align_up, read_write, add_region, mmap_alloc,
}

abbrev pub heap_base : ℕ
heap_base = 0x40000000

abbrev pub heap_size : ℕ
heap_size = 0x08000000

abbrev pub heap_extent : ℕ
heap_extent = 0x04000000

abbrev pub java_base : ℕ
java_base = 0x30000000

abbrev pub java_size : ℕ
java_size = 0x04000000

-- `(p + (align - 1)) & ~(align - 1)`
abbrev pub align_to : ℕ → ℕ → ℕ
align_to p align = let low = sub64 align 1 in bit_and (add64 p low) (0xFFFFFFFFFFFFFFFF - low)

-- `(len + 0x1f) & ~0x1f`
abbrev pub footprint : ℕ → ℕ
footprint len = let b = add64 len 0x1F in b - b % 32

module _ {ℓ} {E : Type ℓ} (map : E → ℕ → ℕ → ℕ → Option E)
    (unmap_pages : E → ℕ → ℕ → Option E) where
  -- The arena is mapped on its first use.
  unfoldable pub open_heap : Memory E → Option (Memory E)
  open_heap s =
      if s.heap_next == 0
      then elim (add_region map unmap_pages s heap_base heap_size read_write heap) [
        | none ↦ none
        | some s' ↦ some (record s' { heap_next = heap_base; heap_end = heap_base + heap_size })
      ]
      else some s

  unfoldable pub open_java : Memory E → Option (Memory E)
  open_java s =
      if s.java_next == 0
      then elim (add_region map unmap_pages s java_base java_size read_write java) [
        | none ↦ none
        | some s' ↦ some (record s' { java_next = java_base; java_end = java_base + java_size })
      ]
      else some s

  -- The cursor moves behind the chunk; `tight` is VARDOGER_HEAP_TIGHT.
  abbrev pub take_chunk : Bool → Memory E → ℕ → ℕ → Memory E
  take_chunk tight s p len = record s {
    heap_next = if tight then add64 p len else add64 (add64 p (footprint len)) 16;
  }

  -- A further arena from the mmap area; 0 where there is none.
  unfoldable pub grow : Bool → Memory E → ℕ → ℕ → Memory E × ℕ
  grow tight s len align =
      let want = page_align_up (if ltb heap_extent len then len else heap_extent) in
      elim (mmap_alloc map unmap_pages s want read_write) [
        | none ↦ (s, 0)
        | some (ext, s') ↦
            let moved : Memory E = record s' { heap_next = ext; heap_end = add64 ext want } in
            let p = align_to ext align in
            if ext == 0
            then (s', 0)
            else if ltb moved.heap_end (add64 p len)
            then (moved, 0)
            else (take_chunk tight moved p len, p)
      ]

  unfoldable pub heap_alloc : Bool → Memory E → ℕ → ℕ → Memory E × Option ℕ
  heap_alloc tight s len align = elim (open_heap s) [
    | none ↦ (s, none)
    | some s' ↦
        let p = align_to s'.heap_next align in
        if ltb s'.heap_end (add64 p len)
        then (let (s'', r) = grow tight s' len align in (s'', some r))
        else (take_chunk tight s' p len, some p)
  ]

  unfoldable pub java_alloc : Memory E → ℕ → ℕ → Memory E × Option ℕ
  java_alloc s len align = elim (open_java s) [
    | none ↦ (s, none)
    | some s' ↦
        let p = align_to s'.java_next align in
        if ltb s'.java_end (add64 p len)
        then (s', none)
        else (record s' { java_next = add64 p len }, some p)
  ]
