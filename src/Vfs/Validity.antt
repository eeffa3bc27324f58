-- ===== src/Vfs/Validity.antt =====
-- The state that every operation of core/android/vfs.cpp leaves behind.
use vardoger.Prelude.{ℕ, ◌+◌, ◌≤◌, ◌<◌, ◌≡◌, false, ◌&&◌, none, some, arith}
use vardoger.Prelude.Order.{Bytes, bytes_key, nat_key}
use vardoger.Prelude.Map.{
  Map, find, insert, erase, IsSorted, find-insert, find-erase, insert-IsSorted,
}
use vardoger.Vfs.{Vfs, Handle, add_handle, set_handle, next_int}

-- The first number that is not an `int`.
abbrev pub int_end : ℕ
int_end = 0x80000000

-- No descriptor from `n` on is in use.
abbrev pub Fresh : ℕ → Map ℕ Handle → Type 0
Fresh n m = (fd : ℕ) → n ≤ fd → find fd m ≡ none

-- A handle on provided bytes is read-only.
abbrev pub IsSealed : Handle → Type 0
IsSealed h = (h.synthetic && h.writable) ≡ false

abbrev pub AllSealed : Map ℕ Handle → Type 0
AllSealed m = (fd : ℕ) (h : Handle) → find fd m ≡ some h → IsSealed h

pub record IsValid (v : Vfs) : Type 0 where
  pub files : IsSorted v.store
  pub folders : IsSorted v.dirs
  pub table : IsSorted v.handles
  pub fresh : Fresh v.next_fd v.handles
  pub reserved : 3 ≤ v.next_fd
  pub read_only : AllSealed v.handles

pub Fresh-insert :
    (n k fd : ℕ) (h : Handle) (m : Map ℕ Handle)
    → Fresh n m
    → n ≤ k
    → fd < k
    → Fresh k (insert fd h m)
Fresh-insert n k fd h m fresh le lt q above = rw find-insert (ground (arith, fresh q))

pub Fresh-erase : (n fd : ℕ) (m : Map ℕ Handle) → Fresh n m → Fresh n (erase fd m)
Fresh-erase n fd m fresh q above = rw find-erase (ground (arith, fresh q))

pub lt_of_open :
    (n fd : ℕ) (h : Handle) (m : Map ℕ Handle) → Fresh n m → find fd m ≡ some h → fd < n
lt_of_open n fd h m fresh e = ground (arith, fresh fd)

pub AllSealed-insert :
    (fd : ℕ) (h : Handle) (m : Map ℕ Handle) → IsSealed h → AllSealed m → AllSealed (insert fd h m)
AllSealed-insert fd h m sealed all q g e = ground (arith, find-insert q fd h m, all q g)

pub AllSealed-erase : (fd : ℕ) (m : Map ℕ Handle) → AllSealed m → AllSealed (erase fd m)
AllSealed-erase fd m all q g e = ground (arith, find-erase q fd m, all q g)

pub add_handle-IsValid :
    (v : Vfs) (h : Handle)
    → v.next_fd + 1 < int_end
    → IsSealed h
    → IsValid v
    → IsValid (add_handle v h).0
unfolding add_handle
add_handle-IsValid v h room sealed valid = record {
  files = valid.files;
  folders = valid.folders;
  table = insert-IsSorted v.next_fd h v.handles valid.table;
  fresh =
      Fresh-insert v.next_fd (next_int v.next_fd) v.next_fd h v.handles valid.fresh (omega arith)
        (omega arith);
  reserved = omega (arith, valid.reserved);
  read_only = AllSealed-insert v.next_fd h v.handles sealed valid.read_only;
}

-- Moving or marking an open handle.
pub set_handle-IsValid :
    (v : Vfs) (fd : ℕ) (h g : Handle)
    → find fd v.handles ≡ some h
    → IsSealed g
    → IsValid v
    → IsValid (set_handle v fd g)
set_handle-IsValid v fd h g e sealed valid = record {
  files = valid.files;
  folders = valid.folders;
  table = insert-IsSorted fd g v.handles valid.table;
  fresh =
      Fresh-insert v.next_fd v.next_fd fd g v.handles valid.fresh (omega arith)
        (lt_of_open v.next_fd fd h v.handles valid.fresh e);
  reserved = valid.reserved;
  read_only = AllSealed-insert fd g v.handles sealed valid.read_only;
}

pub set_store-IsValid :
    (v : Vfs) (path bytes : Bytes)
    → IsValid v
    → IsValid (record v { store = insert path bytes v.store })
set_store-IsValid v path bytes valid = record {
  files = insert-IsSorted path bytes v.store valid.files;
  folders = valid.folders;
  table = valid.table;
  fresh = valid.fresh;
  reserved = valid.reserved;
  read_only = valid.read_only;
}
