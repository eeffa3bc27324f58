-- ===== src/Vfs/Reads.antt =====
-- Reads in core/android/vfs.cpp: what a read gives, when it throws, and reads after writes.
use vardoger.Prelude.{
  ℕ, ◌+◌, ◌≤◌, ◌<◌, ◌≡◌, refl, sym, ap, ap₂, ◌∙◌, inl, inr, true, false, some, [], ◌++◌, arith, leb,
  min, Option-cases, Bool-cases, if◌then◌else◌, length, take, drop, length-drop, drop_all, max,
}
use vardoger.Prelude.Order.{Bytes, bytes_key, nat_key}
use vardoger.Prelude.Map.{Map, find, insert, find-insert, find-insert_self}
use vardoger.Vfs.{
  Vfs, Handle, open_file, opened_store, add_handle, read, ok, out_of_range, write, seek, set_handle,
  file_handle, wants_write, has_flag, trunc_flag, stored, append_flag, data_of, resize,
}
use vardoger.Vfs.Validity.{IsValid, IsSealed}
use vardoger.Prelude.Splice.{length-overwrite, drop-overwrite}
use vardoger.Vfs.Contents.{length-resize, written_bytes}
use vardoger.Vfs.Gives.{rest_of, read-inside, read-outside, insert-insert, take-drop_add, drop-drop}

-- The state after a write through the writable handle `h`.
abbrev wrote : Vfs → ℕ → Handle → Bytes → Vfs
wrote v fd h bytes = record v {
  store = insert h.path (written_bytes (stored v h.path) h.pos bytes) v.store;
  handles = insert fd (record h { pos = h.pos + length bytes; dirty = true }) v.handles;
}

write-wrote :
    (v : Vfs) (fd : ℕ) (bytes : Bytes) (h : Handle)
    → find fd v.handles ≡ some h
    → h.writable ≡ true
    → write v fd bytes ≡ (wrote v fd h bytes, length bytes)
unfolding write written_bytes
write-wrote v fd bytes h e w = rw (e, w, write)

length-written_bytes :
    (old : Bytes) (pos : ℕ) (bytes : Bytes)
    → length (written_bytes old pos bytes) ≡ max (length old) (pos + length bytes)
unfolding written_bytes
length-written_bytes old pos bytes =
    let wide = length-resize old (pos + length bytes) in
    length-overwrite (resize old (pos + length bytes)) pos bytes (omega (arith, wide)) ∙ wide

seek-inside :
    (v : Vfs) (fd pos : ℕ) (h : Handle)
    → find fd v.handles ≡ some h
    → pos ≤ length (data_of v h)
    → seek v fd pos ≡ set_handle v fd (record h { pos = pos })
unfolding seek
seek-inside v fd pos h e within =
    let m : min pos (length (data_of v h)) ≡ pos = omega arith in rw (e, m, seek)

data_of-wrote :
    (v : Vfs) (fd : ℕ) (h : Handle) (bytes : Bytes) (g : Handle)
    → g.synthetic ≡ false
    → g.path ≡ h.path
    → data_of (wrote v fd h bytes) g ≡ written_bytes (stored v h.path) h.pos bytes
unfolding data_of
data_of-wrote v fd h bytes g s p = rw (s, p, find-insert_self)

read_back :
    (v : Vfs) (fd : ℕ) (out : Bytes) (n : ℕ) (h : Handle)
    → find fd v.handles ≡ some h
    → h.pos + n ≤ length (data_of v h)
    → (w : Vfs) × (read v fd out n ≡ ok (w, take n (rest_of v h), n))
read_back v fd out n h e within =
    let all : min n (length (rest_of v h)) ≡ n = omega (arith, length-drop h.pos (data_of v h)) in
    (
      set_handle v fd (record h { pos = h.pos + min n (length (rest_of v h)) }),
      read-inside v fd out n h e (omega arith)
          ∙ ap
              (λ (k : ℕ). ok (
                set_handle v fd (record h { pos = h.pos + min n (length (rest_of v h)) }),
                take n (rest_of v h),
                k,
              ))
              all,
    )

unseen : (h : Handle) → IsSealed h → h.writable ≡ true → h.synthetic ≡ false
unseen h sealed w = ground arith

data_of-set_handle : (v : Vfs) (fd : ℕ) (h g : Handle) → data_of (set_handle v fd h) g ≡ data_of v g
unfolding data_of
data_of-set_handle v fd h g = refl

take-written_bytes :
    (old : Bytes) (pos : ℕ) (bytes : Bytes)
    → take (length bytes) (drop pos (written_bytes old pos bytes)) ≡ bytes
unfolding written_bytes
take-written_bytes old pos bytes =
    drop-overwrite (resize old (pos + length bytes)) pos bytes
      (omega (arith, length-resize old (pos + length bytes)))

-- A handle at `pos` of data that holds `bytes` there gives them.
read_written :
    (v : Vfs) (fd : ℕ) (out old bytes : Bytes) (h : Handle)
    → find fd v.handles ≡ some h
    → data_of v h ≡ written_bytes old h.pos bytes
    → (w : Vfs) × (read v fd out (length bytes) ≡ ok (w, bytes, length bytes))
read_written v fd out old bytes h e d =
    let (w, r) =
      read_back v fd out (length bytes) h e
        (rw d (omega (arith, length-written_bytes old h.pos bytes))) in
    let same : take (length bytes) (rest_of v h) ≡ bytes =
      rw d (take-written_bytes old h.pos bytes) in
    (w, r ∙ ap (λ (b : Bytes). ok (w, b, length bytes)) same)

-- Writing bytes through a writable handle, moving back to where they were written and reading as
-- many gives them back.
pub read-seek-write :
    (v : Vfs) (fd : ℕ) (bytes out : Bytes) (h : Handle)
    → IsValid v
    → find fd v.handles ≡ some h
    → h.writable ≡ true
    → (w : Vfs) × (read (seek (write v fd bytes).0 fd h.pos) fd out (length bytes)
        ≡ ok (w, bytes, length bytes))
read-seek-write v fd bytes out h valid e w =
    let v' = wrote v fd h bytes in
    let g : Handle = record h { pos = h.pos + length bytes; dirty = true } in
    let back : Handle = record h { dirty = true } in
    let old = stored v h.path in
    let plain = unseen h (valid.read_only fd h e) w in
    let seen = data_of-wrote v fd h bytes g plain refl in
    let moved : seek v' fd h.pos ≡ set_handle v' fd back =
      seek-inside v' fd h.pos g (find-insert_self fd g v.handles)
        (rw seen (omega (arith, length-written_bytes old h.pos bytes))) in
    rw (write-wrote v fd bytes h e w) (
      rw moved (
        read_written (set_handle v' fd back) fd out old bytes back
          (find-insert_self fd back v'.handles)
          (data_of-set_handle v' fd back back ∙ data_of-wrote v fd h bytes back plain refl)))

-- The handle `h`, `n` bytes further.
abbrev moved_by : Handle → ℕ → Handle
moved_by h n = record h { pos = h.pos + n }

drop-min : (n : ℕ) (xs : Bytes) → drop (min n (length xs)) xs ≡ drop n xs
drop-min n xs = elim (Bool-cases (leb n (length xs))) [
  | inl le ↦ ap (λ (k : ℕ). drop k xs) {x = min n (length xs)} {y = n} (ground arith)
  | inr gt ↦ drop_all (min n (length xs)) xs (ground arith) ∙ sym (drop_all n xs (ground arith))
]

moved_twice :
    (v : Vfs) (fd i j : ℕ) (h : Handle)
    → set_handle v fd (moved_by h (i + j))
      ≡ set_handle (set_handle v fd (moved_by h i)) fd (moved_by (moved_by h i) j)
moved_twice v fd i j h =
    ap (λ (k : ℕ). set_handle v fd (record h { pos = k })) {x = h.pos + (i + j)} {y = h.pos + i + j}
      (omega arith)
    ∙ ap (λ (t : Map ℕ Handle). record v { handles = t })
        (sym (insert-insert fd (moved_by h i) (moved_by (moved_by h i) j) v.handles))

data_of_path : (v : Vfs) (h : Handle) (n : ℕ) → data_of v (moved_by h n) ≡ data_of v h
unfolding data_of
data_of_path v h n = refl

rest_of-moved :
    (v : Vfs) (fd n : ℕ) (h : Handle)
    → rest_of
        (set_handle v fd (moved_by h (min n (length (rest_of v h)))))
        (moved_by h (min n (length (rest_of v h))))
      ≡ drop n (rest_of v h)
unfolding data_of
rest_of-moved v fd n h =
    sym (drop-drop h.pos (min n (length (rest_of v h))) (data_of v h)) ∙ drop-min n (rest_of v h)

-- Two reads in a row through a descriptor within its data give together the bytes, the count and
-- the state that one read of the sum of their lengths gives.
pub read-read :
    (v : Vfs) (fd n m : ℕ) (out : Bytes) (h : Handle)
    → find fd v.handles ≡ some h
    → h.pos ≤ length (data_of v h)
    → (w x : Vfs) × (a b : Bytes) × (i j : ℕ) × (read v fd out n ≡ ok (w, a, i))
      × (read w fd out m ≡ ok (x, b, j))
      × (read v fd out (n + m) ≡ ok (x, a ++ b, i + j))
read-read v fd n m out h e within =
    let r = rest_of v h in
    let i = min n (length r) in
    let g = moved_by h i in
    let w = set_handle v fd g in
    let seen : rest_of w g ≡ drop n r = rest_of-moved v fd n h in
    let j = min m (length (rest_of w g)) in
    let inside : g.pos ≤ length (data_of w g) =
      rw (data_of-set_handle v fd g g)
        (rw (data_of_path v h i) (omega (arith, length-drop h.pos (data_of v h)))) in
    let total : min (n + m) (length r) ≡ i + j = omega (arith, ap length seen, length-drop n r) in
    let bytes : take (n + m) r ≡ take n r ++ take m (rest_of w g) =
      sym (take-drop_add n m r) ∙ ap (λ (t : Bytes). take n r ++ take m t) (sym seen) in
    (
      w,
      set_handle w fd (moved_by g j),
      take n r,
      take m (rest_of w g),
      i,
      j,
      read-inside v fd out n h e within,
      read-inside w fd out m g (find-insert_self fd g v.handles) inside,
      read-inside v fd out (n + m) h e within
          ∙ ap₂ (λ (b : Bytes) (k : ℕ). ok (set_handle v fd (moved_by h k), b, k)) bytes total
          ∙ ap (λ (u : Vfs). ok (u, take n r ++ take m (rest_of w g), i + j))
              (moved_twice v fd i j h),
    )

open_file-truncated :
    (v : Vfs) (path : Bytes) (flags : ℕ)
    → wants_write flags ≡ true
    → has_flag flags trunc_flag ≡ true
    → (pos : ℕ) × (open_file v path flags
        ≡ add_handle (record v { store = insert path [] v.store }) (file_handle path pos true))
unfolding open_file opened_store
open_file-truncated v path flags w t = elim (Option-cases (find path v.store)) [
  | inl e ↦ (start, rw (w, e, opened_store))
  | inr (old, e) ↦ (start, rw (w, e, t, opened_store))
]
  where
    start : ℕ
    start =
        if has_flag flags append_flag
        then length (stored (record v { store = insert path [] v.store }) path)
        else 0

data_of-emptied :
    (v : Vfs) (h new : Handle)
    → h.synthetic ≡ false
    → data_of (add_handle (record v { store = insert h.path [] v.store }) new).0 h ≡ []
unfolding data_of add_handle
data_of-emptied v h new plain = rw (plain, find-insert_self)

-- A file that is emptied through another descriptor leaves the first one with a position beyond
-- its end, and the next `read` through it throws.
pub read-open_truncated :
    (v : Vfs) (out : Bytes) (flags fd n : ℕ) (h : Handle)
    → IsValid v
    → find fd v.handles ≡ some h
    → h.synthetic ≡ false
    → 0 < h.pos
    → wants_write flags ≡ true
    → has_flag flags trunc_flag ≡ true
    → read (open_file v h.path flags).0 fd out n ≡ out_of_range
unfolding add_handle
read-open_truncated v out flags fd n h valid e plain moved w t =
    let (pos, opened) = open_file-truncated v h.path flags w t in
    let new = file_handle h.path pos true in
    let kept : find fd (insert v.next_fd new v.handles) ≡ some h =
      ground (arith, find-insert fd v.next_fd new v.handles, valid.fresh fd) in
    rw opened (read-outside _ fd out n h kept (rw (data_of-emptied v h new plain) moved))
