-- ===== src/Vfs/Steps.antt =====
-- Each operation of core/android/vfs.cpp keeps the state valid.
use vardoger.Prelude.{
  ℕ, ◌+◌, ◌≤◌, ◌<◌, ◌≡◌, refl, inl, inr, ◌&&◌, [], arith, ◌==◌, ltb, is_some, length, Option-cases,
  Bool-cases, if◌then◌else◌,
}
use vardoger.Prelude.Order.{Bytes, bytes_key, nat_key, equal_bytes}
use vardoger.Prelude.Map.{find, insert, erase, insert-IsSorted, erase-IsSorted}
use vardoger.Vfs.{
  Vfs, Handle, add_file, add_dir, unlink, open_file, opened_store, provide, dup, dup2, close,
  report, read, ok, out_of_range, Outcome, write, gets, seek, wants_write, has_flag, trunc_flag,
  trim, data_of, at_least, next_int,
}
use vardoger.Vfs.Validity.{
  IsValid, int_end, IsSealed, add_handle-IsValid, set_handle-IsValid, set_store-IsValid,
  Fresh-insert, Fresh-erase, AllSealed-insert, AllSealed-erase,
}

pub add_file-IsValid : (v : Vfs) (path bytes : Bytes) → IsValid v → IsValid (add_file v path bytes)
unfolding add_file
add_file-IsValid v path bytes valid = set_store-IsValid v path bytes valid

pub add_dir-IsValid : (v : Vfs) (path : Bytes) → IsValid v → IsValid (add_dir v path)
unfolding add_dir
add_dir-IsValid v path valid = elim (Bool-cases (equal_bytes (trim path) [])) [
  | inl e ↦ rw e valid
  | inr e ↦ rw e (record {
    files = valid.files;
    folders = insert-IsSorted (trim path) tt v.dirs valid.folders;
    table = valid.table;
    fresh = valid.fresh;
    reserved = valid.reserved;
    read_only = valid.read_only;
  })
]

pub unlink-IsValid : (v : Vfs) (path : Bytes) → IsValid v → IsValid (unlink v path).0
unfolding unlink
unlink-IsValid v path valid = record {
  files = erase-IsSorted path v.store valid.files;
  folders = valid.folders;
  table = valid.table;
  fresh = valid.fresh;
  reserved = valid.reserved;
  read_only = valid.read_only;
}

opened-IsValid :
    (v : Vfs) (path : Bytes) (flags : ℕ)
    → IsValid v
    → IsValid (record v { store = opened_store v path flags })
unfolding opened_store
opened-IsValid v path flags valid = elim (Option-cases (find path v.store)) [
  | inl e ↦ rw (e, opened_store) (set_store-IsValid v path [] valid)
  | inr (old, e) ↦ elim (Bool-cases (has_flag flags trunc_flag)) [
    | inl t ↦ rw (e, t, opened_store) (set_store-IsValid v path [] valid)
    | inr t ↦ rw (e, t, opened_store) valid
  ]
]

pub open_file-IsValid :
    (v : Vfs) (path : Bytes) (flags : ℕ)
    → v.next_fd + 1 < int_end
    → IsValid v
    → IsValid (open_file v path flags).0
unfolding open_file
open_file-IsValid v path flags room valid = elim (Bool-cases (wants_write flags)) [
  | inl w ↦ rw w (add_handle-IsValid _ _ room refl (opened-IsValid v path flags valid))
  | inr w ↦ elim (Bool-cases (is_some (find path v.store))) [
    | inl s ↦ rw (w, s) (add_handle-IsValid v _ room refl valid)
    | inr s ↦ elim (Option-cases (provide v path)) [
      | inl p ↦ rw (w, s, p, open_file) valid
      | inr (bytes, p) ↦ rw (w, s, p, open_file) (add_handle-IsValid v _ room refl valid)
    ]
  ]
]

pub dup-IsValid : (v : Vfs) (fd : ℕ) → v.next_fd + 1 < int_end → IsValid v → IsValid (dup v fd).0
unfolding dup
dup-IsValid v fd room valid = elim (Option-cases (find fd v.handles)) [
  | inl e ↦ rw (e, dup) valid
  | inr (h, e) ↦ rw (e, dup) (add_handle-IsValid v h room (valid.read_only fd h e) valid)
]

drop_handle-IsValid :
    (v : Vfs) (fd : ℕ) → IsValid v → IsValid (record v { handles = erase fd v.handles })
drop_handle-IsValid v fd valid = record {
  files = valid.files;
  folders = valid.folders;
  table = erase-IsSorted fd v.handles valid.table;
  fresh = Fresh-erase v.next_fd fd v.handles valid.fresh;
  reserved = valid.reserved;
  read_only = AllSealed-erase fd v.handles valid.read_only;
}

report-IsValid : (v : Vfs) (h : Handle) → IsValid v → IsValid (report v h)
unfolding report
report-IsValid v h valid = record {
  files = insert-IsSorted h.path _ v.store valid.files;
  folders = valid.folders;
  table = valid.table;
  fresh = valid.fresh;
  reserved = valid.reserved;
  read_only = valid.read_only;
}

pub close-IsValid : (v : Vfs) (fd : ℕ) → IsValid v → IsValid (close v fd)
unfolding close
close-IsValid v fd valid = elim (Option-cases (find fd v.handles)) [
  | inl e ↦ rw (e, close) valid
  | inr (h, e) ↦ elim (Bool-cases (h.writable && h.dirty && v.watched)) [
    | inl b ↦ rw (e, b, close) (drop_handle-IsValid _ fd (report-IsValid v h valid))
    | inr b ↦ rw (e, b, close) (drop_handle-IsValid v fd valid)
  ]
]

-- A handle placed on a chosen number; the counter moves past it.
place_handle-IsValid :
    (v : Vfs) (fd : ℕ) (h : Handle)
    → fd + 1 < int_end
    → v.next_fd < int_end
    → IsSealed h
    → IsValid v
    → IsValid (record v {
      handles = insert fd h v.handles;
      next_fd = if at_least fd v.next_fd then next_int fd else v.next_fd;
    })
place_handle-IsValid v fd h room below sealed valid = record {
  files = valid.files;
  folders = valid.folders;
  table = insert-IsSorted fd h v.handles valid.table;
  fresh = Fresh-insert v.next_fd _ fd h v.handles valid.fresh (ground arith) (ground arith);
  reserved = ground (arith, valid.reserved);
  read_only = AllSealed-insert fd h v.handles sealed valid.read_only;
}

pub close-next_fd : (v : Vfs) (fd : ℕ) → (close v fd).next_fd ≡ v.next_fd
unfolding close report
close-next_fd v fd = ground arith

pub dup2-IsValid :
    (v : Vfs) (oldfd newfd : ℕ)
    → newfd + 1 < int_end
    → v.next_fd < int_end
    → IsValid v
    → IsValid (dup2 v oldfd newfd).0
unfolding dup2
dup2-IsValid v oldfd newfd room below valid = elim (Option-cases (find oldfd v.handles)) [
  | inl e ↦ rw (e, dup2) valid
  | inr (h, e) ↦ elim (Bool-cases (oldfd == newfd)) [
    | inl same ↦ rw (e, same, dup2) valid
    | inr other ↦
        rw (e, other, dup2)
          (place_handle-IsValid (close v newfd) newfd h room
            (omega (arith, below, close-next_fd v newfd)) (valid.read_only oldfd h e)
            (close-IsValid v newfd valid))
  ]
]

pub write-IsValid : (v : Vfs) (fd : ℕ) (bytes : Bytes) → IsValid v → IsValid (write v fd bytes).0
unfolding write
write-IsValid v fd bytes valid = elim (Option-cases (find fd v.handles)) [
  | inl e ↦ rw (e, write) valid
  | inr (h, e) ↦ elim (Bool-cases h.writable) [
    | inl w ↦
        rw (e, w, write)
          (set_store-IsValid _ h.path _
            (set_handle-IsValid v fd h _ e (ground (arith, valid.read_only fd h e)) valid))
    | inr w ↦ rw (e, w, write) valid
  ]
]

-- The state after a read; a read that throws changes nothing.
abbrev pub after_read : Vfs → Outcome (Vfs × Bytes × ℕ) → Vfs
after_read v (ok r) = r.0
after_read v out_of_range = v

pub read-IsValid :
    (v : Vfs) (fd : ℕ) (out : Bytes) (n : ℕ) → IsValid v → IsValid (after_read v (read v fd out n))
unfolding read
read-IsValid v fd out n valid = elim (Option-cases (find fd v.handles)) [
  | inl e ↦ rw (e, read) valid
  | inr (h, e) ↦ elim (Bool-cases (ltb (length (data_of v h)) h.pos)) [
    | inl b ↦ rw (e, b, read) valid
    | inr b ↦ rw (e, b, read) (set_handle-IsValid v fd h _ e (valid.read_only fd h e) valid)
  ]
]

pub gets-IsValid :
    (v : Vfs) (fd : ℕ) (out : Bytes) (limit : ℕ) → IsValid v → IsValid (gets v fd out limit).0
unfolding gets
gets-IsValid v fd out limit valid = elim (Option-cases (find fd v.handles)) [
  | inl e ↦ rw (e, gets) valid
  | inr (h, e) ↦ elim (Bool-cases (limit == 0)) [
    | inl z ↦ rw (e, z, gets) valid
    | inr z ↦ elim (Bool-cases (ltb h.pos (length (data_of v h)))) [
      | inl b ↦ rw (e, z, b, gets) (set_handle-IsValid v fd h _ e (valid.read_only fd h e) valid)
      | inr b ↦ rw (e, z, b, gets) valid
    ]
  ]
]

pub seek-IsValid : (v : Vfs) (fd pos : ℕ) → IsValid v → IsValid (seek v fd pos)
unfolding seek
seek-IsValid v fd pos valid = elim (Option-cases (find fd v.handles)) [
  | inl e ↦ rw (e, seek) valid
  | inr (h, e) ↦ rw (e, seek) (set_handle-IsValid v fd h _ e (valid.read_only fd h e) valid)
]

-- How far the counter of descriptors moves.
pub open_file-next_fd :
    (v : Vfs) (path : Bytes) (flags : ℕ)
    → v.next_fd + 1 < int_end
    → (open_file v path flags).0.next_fd ≤ v.next_fd + 1
unfolding open_file
open_file-next_fd v path flags room = ground arith

pub dup-next_fd :
    (v : Vfs) (fd : ℕ) → v.next_fd + 1 < int_end → (dup v fd).0.next_fd ≤ v.next_fd + 1
unfolding dup
dup-next_fd v fd room = ground arith

pub dup2-next_fd :
    (v : Vfs) (oldfd newfd b : ℕ)
    → newfd < b
    → v.next_fd ≤ b
    → b < int_end
    → (dup2 v oldfd newfd).0.next_fd ≤ b
unfolding dup2
dup2-next_fd v oldfd newfd b low le room = ground (arith, close-next_fd v newfd)

pub read-next_fd :
    (v : Vfs) (fd : ℕ) (out : Bytes) (n : ℕ) → (after_read v (read v fd out n)).next_fd ≡ v.next_fd
unfolding read
read-next_fd v fd out n = elim (Option-cases (find fd v.handles)) [
  | inl e ↦ rw (e, read) refl
  | inr (h, e) ↦ elim (Bool-cases (ltb (length (data_of v h)) h.pos)) [
    | inl b ↦ rw (e, b, read) refl
    | inr b ↦ rw (e, b, read) refl
  ]
]

pub write-next_fd : (v : Vfs) (fd : ℕ) (bytes : Bytes) → (write v fd bytes).0.next_fd ≡ v.next_fd
unfolding write
write-next_fd v fd bytes = ground arith

pub gets-next_fd :
    (v : Vfs) (fd : ℕ) (out : Bytes) (limit : ℕ) → (gets v fd out limit).0.next_fd ≡ v.next_fd
unfolding gets
gets-next_fd v fd out limit = ground arith

pub seek-next_fd : (v : Vfs) (fd pos : ℕ) → (seek v fd pos).next_fd ≡ v.next_fd
unfolding seek
seek-next_fd v fd pos = ground arith
