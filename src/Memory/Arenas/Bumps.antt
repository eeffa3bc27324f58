-- ===== src/Memory/Arenas/Bumps.antt =====
-- What the arenas give: aligned addresses, one behind the other, within the arena.
use vardoger.Prelude.{
  ℕ, ◌+◌, ◌%◌, ◌≤◌, ◌<◌, ◌≡◌, ◌≢◌, ◌⊎◌, inl, inr, refl, Bool, false, Option, none, some, ltb, ◌==◌,
  if◌then◌else◌, bit_and_align16, arith, Bool-cases, Option-cases,
}
use vardoger.Memory.{Memory, Region, insert_region, java, add64, read_write, add_region}
use vardoger.Memory.Arenas.{
  java_base, java_size, align_to, open_heap, open_java, heap_alloc, java_alloc,
}

align_to_lem :
    (p : ℕ)
    → p < 0x8000000000000000
    → (p ≤ align_to p 16) × (align_to p 16 ≤ p + 15) × (align_to p 16 % 16 ≡ 0)
align_to_lem p h = omega (arith, bit_and_align16 (add64 p 15) (omega arith))

module _ {ℓ} {E : Type ℓ} (map : E → ℕ → ℕ → ℕ → Option E)
    (unmap_pages : E → ℕ → ℕ → Option E) where
  -- The Java arena is not open yet, or its cursor is in it.
  pub record JavaOk (s : Memory E) : Type ℓ where
    pub within :
        (s.java_next ≡ 0)
        ⊎ ((java_base ≤ s.java_next)
            × (s.java_next ≤ java_base + java_size)
            × (s.java_end ≡ java_base + java_size))

  -- Where the next address comes from.
  abbrev pub java_cursor : Memory E → ℕ
  java_cursor s = if s.java_next == 0 then java_base else s.java_next

  -- What `java_alloc` promises.
  pub data Bumped (s : Memory E) (len : ℕ) : Memory E × Option ℕ → Type ℓ where
    given :
        (p : ℕ) (s' : Memory E)
        → p % 16 ≡ 0
        → java_cursor s ≤ p
        → p + len ≤ java_base + java_size
        → java_cursor s' ≡ p + len
        → JavaOk s'
        → Bumped s len (s', some p)
    exhausted :
        (s' : Memory E)
        → java_base + java_size < java_cursor s + 15 + len
        → JavaOk s'
        → java_cursor s' ≡ java_cursor s
        → Bumped s len (s', none)
    unmapped :
        s.java_next ≡ 0
        → map s.engine java_base java_size read_write ≡ none
        → Bumped s len (s, none)

  bump-Bumped :
      (s s' : Memory E) (len : ℕ)
      → len < 0x8000000000000000
      → s'.java_next ≡ java_cursor s
      → s'.java_end ≡ java_base + java_size
      → java_base ≤ s'.java_next
      → s'.java_next ≤ java_base + java_size
      → Bumped s len (
          let p = align_to s'.java_next 16 in
          if ltb s'.java_end (add64 p len)
          then (s', none)
          else (record s' { java_next = add64 p len }, some p))
  bump-Bumped s s' len h same end low high =
      let p = align_to s'.java_next 16 in
      let at = align_to_lem s'.java_next (omega arith) in
      elim (Bool-cases (ltb s'.java_end (add64 p len))) [
        | inl full ↦
            rw full (
              exhausted s' (ground arith) (record { within = inr (low, high, end) }) (ground arith))
        | inr fits ↦ rw fits (
            given p _ at.2 (omega arith) (ground arith) (ground arith)
              (record { within = inr (ground arith, ground arith, end) }))
      ]

  -- `java_alloc` with its default alignment of 16, of less than 2^63 bytes: it gives an aligned
  -- address behind all that it gave before, with room for the bytes in the arena, and the cursor
  -- moves behind them; or it throws, because the arena has less room than that or cannot be mapped.
  pub java_alloc-Bumped :
      (s : Memory E) (len : ℕ)
      → len < 0x8000000000000000
      → JavaOk s
      → Bumped s len (java_alloc map unmap_pages s len 16)
  unfolding java_alloc open_java add_region
  java_alloc-Bumped s len h ok = elim (Bool-cases (s.java_next == 0)) [
    | inr used ↦
        rw (used, java_alloc, open_java)
          (bump-Bumped s s len h (rw used) (ground arith) (ground arith) (ground arith))
    | inl fresh ↦ elim (Option-cases (map s.engine java_base java_size read_write)) [
      | inl refused ↦
          rw (fresh, refused, java_alloc, open_java, add_region) (unmapped (ground arith) refused)
      | inr (e, done) ↦
          let r : Region = record {
            base = java_base;
            size = java_size;
            prot = read_write;
            kind = java;
          } in
          let s' : Memory E = record s {
            regions = insert_region r s.regions;
            java_next = java_base;
            java_end = java_base + java_size;
            engine = e;
          } in
          rw (fresh, done, java_alloc, open_java, add_region)
            (bump-Bumped s s' len h (rw fresh) refl (omega arith) (omega arith))
    ]
  ]

  -- On an open heap, a length so large that the end of the chunk wraps into the arena or below it is
  -- granted: `heap_alloc` gives an address, although no arena holds so many bytes.
  pub heap_alloc_wraps :
      (tight : Bool) (s : Memory E) (len : ℕ)
      → s.heap_next ≢ 0
      → len < 0x10000000000000000
      → 0x10000000000000000 ≤ align_to s.heap_next 16 + len
      → align_to s.heap_next 16 + len ≤ 0x10000000000000000 + s.heap_end
      → align_to s.heap_next 16 < 0x10000000000000000
      → s.heap_end < len
      → (heap_alloc map unmap_pages tight s len 16).1 ≡ some (align_to s.heap_next 16)
  unfolding heap_alloc open_heap
  heap_alloc_wraps tight s len used l lo hi p_ok big =
      let open' : (s.heap_next == 0) ≡ false = ground (arith, used) in
      let fits : ltb s.heap_end (add64 (align_to s.heap_next 16) len) ≡ false = ground arith in
      rw (open', heap_alloc, open_heap) (rw fits)
