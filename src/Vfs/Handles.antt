-- ===== src/Vfs/Handles.antt =====
-- The descriptor table of core/android/vfs.cpp: open, dup, dup2 and close.
use vardoger.Prelude.{
  ◌+◌, ℕ, ◌<◌, ◌≡◌, ◌≢◌, refl, inl, inr, true, false, ◌&&◌, none, some, [], ◌∷◌, ◌++◌, arith, ◌==◌,
  min, is_some, Option-cases, Bool-cases, if◌then◌else◌, length, ==_iff,
}
use vardoger.Prelude.Order.{Bytes, bytes_key, nat_key}
use vardoger.Prelude.Map.{Map, find, insert, erase, find-insert, find-erase, find-insert_self}
use vardoger.Vfs.{
  Vfs, Handle, is_open, provide, add_handle, dup, dup2, close, report, seek, file_handle,
  synthetic_handle, wants_write, has_flag, stored, append_flag, data_of, content, tell,
}
use vardoger.Vfs.Steps.{close-next_fd}
use vardoger.Vfs.Validity.{int_end, IsValid, lt_of_open}

-- The table `n` has the handle `h` at `fd`, and everywhere else what `m` has.
abbrev pub Placed : Map ℕ Handle → Map ℕ Handle → ℕ → Handle → Type 0
Placed m n fd h = (find fd n ≡ some h) × ((q : ℕ) → q ≢ fd → find q n ≡ find q m)

-- The position of a handle that `open` gives.
abbrev pub start_pos : Vfs → Bytes → ℕ → ℕ
start_pos w path flags = if has_flag flags append_flag then length (stored w path) else 0

-- What a successful `open` promises of the state `v`, the new state `w` and the handle `h`.
pub data Opens (v w : Vfs) (path : Bytes) (flags : ℕ) : Handle → Type 0 where
  for_writing :
      wants_write flags ≡ true
      → Opens v w path flags (file_handle path (start_pos w path flags) true)
  for_reading :
      wants_write flags ≡ false
      → is_some (find path v.store) ≡ true
      → Opens v w path flags (file_handle path 0 false)
  from_provider :
      {bytes : Bytes}
      → wants_write flags ≡ false
      → find path v.store ≡ none
      → provide v path ≡ some bytes
      → Opens v w path flags (synthetic_handle bytes)

close-not_open : (v : Vfs) (fd : ℕ) → find fd v.handles ≡ none → close v fd ≡ v
unfolding close
close-not_open v fd e = rw (e, close)

close_handles :
    (v : Vfs) (fd : ℕ) (h : Handle)
    → find fd v.handles ≡ some h
    → (close v fd).handles ≡ erase fd v.handles
unfolding close
close_handles v fd h e = rw (e, close)

-- Of the descriptors, `close` removes `fd` and no other.
pub find-close :
    (v : Vfs) (q fd : ℕ)
    → find q (close v fd).handles ≡ (if q == fd then none else find q v.handles)
find-close v q fd = elim (Option-cases (find fd v.handles)) [
  | inl e ↦ rw (close-not_open v fd e) (ground arith)
  | inr (h, e) ↦ rw (close_handles v fd h e) (find-erase q fd v.handles)
]

-- What `close` tells the observer: the path and the bytes of a file that was written through the
-- handle, and nothing else.
pub close-written :
    (v : Vfs) (fd : ℕ) (h : Handle)
    → find fd v.handles ≡ some h
    → (close v fd).written ≡ (
        if h.writable && h.dirty && v.watched
        then v.written ++ (h.path, stored v h.path) ∷ []
        else v.written)
unfolding close report
close-written v fd h e = elim (Bool-cases (h.writable && h.dirty && v.watched)) [
  | inl b ↦ rw (e, b, close)
  | inr b ↦ rw (e, b, close)
]

-- An observed `close` of a written handle leaves an entry for its path, also when the file was
-- unlinked in between.
pub close_recreates :
    (v : Vfs) (fd : ℕ) (h : Handle)
    → find fd v.handles ≡ some h
    → (h.writable && h.dirty && v.watched) ≡ true
    → find h.path v.store ≡ none
    → content (close v fd) h.path ≡ some []
unfolding close report content
close_recreates v fd h e b gone = rw (e, b, close) (rw (gone, find-insert_self) refl)

-- `dup2` of an open descriptor onto another number makes that number a copy of its handle,
-- whatever it was before, and changes no other descriptor; the counter of fresh numbers passes it
-- where both are below the end of `int`.
pub dup2_lem :
    (v : Vfs) (oldfd newfd : ℕ) (h : Handle)
    → find oldfd v.handles ≡ some h
    → oldfd ≢ newfd
    → newfd + 1 < int_end
    → v.next_fd < int_end
    → let r = dup2 v oldfd newfd in
      (r.1 ≡ some newfd) × Placed v.handles r.0.handles newfd h × (newfd < r.0.next_fd)
unfolding dup2
dup2_lem v oldfd newfd h e ne room below = elim (Bool-cases (oldfd == newfd)) [
  | inl same ↦ absurd (ne ((==_iff oldfd newfd).0 same))
  | inr other ↦
      rw (e, other, dup2)
        (
          refl,
          (
            find-insert_self newfd h _,
            λ q q_ne.
                ground (arith, find-insert q newfd h (close v newfd).handles, find-close v q newfd),
          ),
          ground (arith, close-next_fd v newfd),
        )
]

-- `dup` of an open descriptor gives a number that was not in use, with a copy of the handle; a
-- move of the one position leaves the other where it was.
pub tell-seek-dup :
    (v : Vfs) (fd pos : ℕ) (h : Handle)
    → IsValid v
    → find fd v.handles ≡ some h
    → let r = dup v fd in
      (is_open v r.1 ≡ false)
      × (find r.1 r.0.handles ≡ some h)
      × (tell (seek r.0 r.1 pos) fd ≡ h.pos)
unfolding dup is_open tell seek
tell-seek-dup v fd pos h valid e =
    let lt = lt_of_open v.next_fd fd h v.handles valid.fresh e in
    rw (e, dup)
      (
        rw (valid.fresh v.next_fd (omega arith)),
        find-insert_self v.next_fd h v.handles,
        rw (find-insert_self v.next_fd h v.handles, seek)
            (ground (
              arith,
              find-insert fd v.next_fd h v.handles,
              find-insert fd v.next_fd
                  (record h { pos = min pos (length (data_of (add_handle v h).0 h)) })
                  (insert v.next_fd h v.handles),
            )),
      )
