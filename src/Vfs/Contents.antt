-- ===== src/Vfs/Contents.antt =====
-- Reading and writing in core/android/vfs.cpp: which bytes a file holds, and which ones a read gives.
use vardoger.Prelude.{
  ℕ, zero, suc, ◌+◌, ◌-◌, ◌≤◌, ◌≡◌, ◌≢◌, refl, ◌∙◌, inl, inr, true, ◌&&◌, some, arith, leb, ltb,
  max, Bool-cases, if◌then◌else◌, length, replicate, length-append, length-replicate,
}
use vardoger.Prelude.Order.{Bytes, bytes_key, nat_key, equal_bytes, equal_bytes_iff}
use vardoger.Prelude.Map.{find, find-insert, find-insert_self}
use vardoger.Prelude.Splice.{
  byte_at, byte_at-append, byte_at_beyond, overwrite, byte_at-overwrite, length-overwrite,
}
use vardoger.Vfs.{Vfs, Handle, add_file, write, stored, resize}

byte_at-replicate : (n i : ℕ) → byte_at (replicate n 0) i ≡ 0
byte_at-replicate zero i = refl
byte_at-replicate (suc n) zero = refl
byte_at-replicate (suc n) (suc i) = byte_at-replicate n i

byte_at-resize : (a : Bytes) (n i : ℕ) → byte_at (resize a n) i ≡ byte_at a i
unfolding resize
byte_at-resize a n i = elim (Bool-cases (ltb (length a) n)) [
  | inl h ↦
      rw (h, byte_at-append a (replicate (n - length a) 0) i)
        (ground (arith, byte_at-replicate (n - length a) (i - length a), byte_at_beyond a i))
  | inr h ↦ rw h
]

pub length-resize : (a : Bytes) (n : ℕ) → length (resize a n) ≡ max (length a) n
unfolding resize
length-resize a n =
    ground (
      arith,
      length-append a (replicate (n - length a) 0),
      length-replicate {A = ℕ} (n - length a) 0,
    )

-- The new bytes of a file after `write`.
unfoldable pub written_bytes : Bytes → ℕ → Bytes → Bytes
written_bytes old pos bytes = overwrite (resize old (pos + length bytes)) pos bytes

stored_insert :
    (v : Vfs) (path q bytes : Bytes)
    → stored (add_file v path bytes) q ≡ (if equal_bytes q path then bytes else stored v q)
unfolding add_file
stored_insert v path q bytes = ground (arith, find-insert q path bytes v.store)

-- `write` through a writable handle at position `pos` of its file: byte `i` of that file is then
-- the written one for `pos ≤ i < pos + n`, and elsewhere what it was, with zeros in a gap beyond
-- the old end; the file grows to `pos + n` at least and never shrinks; no other file changes; and
-- the count returned is `n`.
pub write_lem :
    (v : Vfs) (fd : ℕ) (bytes : Bytes) (h : Handle)
    → find fd v.handles ≡ some h
    → h.writable ≡ true
    → let r = write v fd bytes in
      let new = stored r.0 h.path in
      ((i : ℕ)
        → byte_at new i ≡ (
            if leb h.pos i && ltb i (h.pos + length bytes)
            then byte_at bytes (i - h.pos)
            else byte_at (stored v h.path) i))
      × (length new ≡ max (length (stored v h.path)) (h.pos + length bytes))
      × ((q : Bytes) → q ≢ h.path → stored r.0 q ≡ stored v q)
      × (r.1 ≡ length bytes)
unfolding write
write_lem v fd bytes h e w =
    let size = h.pos + length bytes in
    let wide = resize (stored v h.path) size in
    let fits : h.pos + length bytes ≤ length wide =
      omega (arith, length-resize (stored v h.path) size) in
    rw (e, w, write)
      (
        λ i. rw find-insert_self (
            byte_at-overwrite wide h.pos bytes i fits
            ∙ rw (byte_at-resize (stored v h.path) size i)),
        rw find-insert_self
            (length-overwrite wide h.pos bytes fits ∙ length-resize (stored v h.path) size),
        λ q ne. ground (
          arith,
          find-insert q h.path (overwrite wide h.pos bytes) v.store,
          equal_bytes_iff q h.path,
        ),
        refl,
      )
