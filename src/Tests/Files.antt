-- ===== src/Tests/Files.antt =====
-- A file system with one file, `/a/b` of five bytes, open for writing as descriptor 3.
use vardoger.Prelude.{
  ℕ, ◌≡◌, ◌≢◌, ◌⊎◌, ◌↔◌, ◌<◌, ◌≤◌, ◌+◌, ◌-◌, refl, false, true, none, some, [], ◌∷◌, ◌++◌, arith,
  max, length, take, drop, is_some, if◌then◌else◌, ltb, leb, ◌&&◌,
}
use vardoger.Prelude.Order.{Bytes, nat_key, bytes_key}
use vardoger.Prelude.Map.{find, lower_bound, erase, insert}
use vardoger.Vfs.{
  Vfs, Handle, empty, file_handle, starts_with, starts_with, is_dir, add_dir, trim, open_file,
  wants_write, close, dup2, stored, seek, read, write, gets, ok, out_of_range, data_of, set_handle,
}
use vardoger.Vfs.Paths.{LiesUnder, root, is_dir_iff, is_dir-add_dir}
use vardoger.Vfs.Validity.{IsValid}
use vardoger.Vfs.Operations.{run, run-IsValid, empty-IsValid, opens, dups2, writes, closes, unlinks}
use vardoger.Vfs.Handles.{close-written, find-close}
use vardoger.Prelude.Splice.{byte_at}
use vardoger.Vfs.Contents.{write_lem}
use vardoger.Vfs.Gives.{read-out_of_range_iff}
use vardoger.Vfs.Reads.{read-seek-write, read-open_truncated}
use vardoger.Vfs.Lines.{Line, gets_lem}

abbrev path : Bytes
path = b'/' ∷ b'a' ∷ b'/' ∷ b'b' ∷ []

abbrev folder : Bytes
folder = b'/' ∷ b'a' ∷ []

abbrev five : Bytes
five = 10 ∷ 20 ∷ b'\n' ∷ 40 ∷ 50 ∷ []

abbrev handle : Handle
handle = record (file_handle path 1 true) { dirty = true }

abbrev disk : Vfs
disk = record empty {
  store = (path, five) ∷ [];
  handles = (3, handle) ∷ [];
  next_fd = 4;
  watched = true;
}

found : find 3 disk.handles ≡ some handle
unfolding find
found = refl

disk-IsValid : IsValid disk
unfolding find
disk-IsValid = record {
  files = tt;
  folders = tt;
  table = tt;
  fresh = λ fd h. ground arith;
  reserved = omega arith;
  read_only = λ fd h e. ground arith;
}

is_dir_iff_example : (is_dir disk folder ≡ true) ↔ (
    (is_some (find (trim folder) disk.dirs) ≡ true)
    ⊎ (((trim folder ≢ root) × LiesUnder disk.store (trim folder))
        ⊎ ((trim folder ≡ root)
            × ((name : Bytes) × (is_some (find (root ++ (root ++ name)) disk.store) ≡ true)))))
is_dir_iff_example = is_dir_iff disk folder tt

-- The root is no directory, although a file is stored below it.
root-is_dir : is_dir disk root ≡ false
unfolding is_dir find lower_bound trim starts_with
root-is_dir = refl

-- `dup2` onto the last `int` makes the counter the first one.
overflow : (dup2 disk 3 0x7FFFFFFF).0.next_fd ≡ 0x80000000
unfolding dup2 close find erase insert
overflow = refl

folder-is_dir : is_dir disk folder ≡ true
unfolding is_dir find lower_bound trim starts_with
folder-is_dir = refl

is_dir-add_dir_example :
    (is_dir (add_dir disk folder) folder ≡ true)
    × (is_dir (add_dir disk folder) (folder ++ b'/' ∷ []) ≡ true)
is_dir-add_dir_example = is_dir-add_dir disk folder (λ e. cc)

run-IsValid_example :
    IsValid
      (run empty (opens path 0o101 ∷ writes 3 five ∷ dups2 3 7 ∷ unlinks path ∷ closes 3 ∷ []))
run-IsValid_example =
    run-IsValid empty (opens path 0o101 ∷ writes 3 five ∷ dups2 3 7 ∷ unlinks path ∷ closes 3 ∷ [])
      8 (omega arith) (tt, (tt, (omega arith, (tt, (tt, tt))))) (omega arith) empty-IsValid

close-written_example : (close disk 3).written ≡ (path, five) ∷ []
unfolding find
close-written_example = close-written disk 3 handle found

find-close_example : find 3 (close disk 3).handles ≡ none
find-close_example = find-close disk 3 3

write_lem_example :
    let r = write disk 3 (7 ∷ 8 ∷ []) in
    let new = stored r.0 path in
    ((i : ℕ)
      → byte_at new i ≡ (
          if leb 1 i && ltb i 3
          then byte_at (7 ∷ 8 ∷ []) (i - 1)
          else byte_at (stored disk path) i))
    × (length new ≡ max (length (stored disk path)) 3)
    × ((q : Bytes) → q ≢ path → stored r.0 q ≡ stored disk q)
    × (r.1 ≡ 2)
write_lem_example = write_lem disk 3 (7 ∷ 8 ∷ []) handle found refl

read-seek-write_example :
    (w : Vfs) × (read (seek (write disk 3 (7 ∷ 8 ∷ [])).0 3 1) 3 [] 2 ≡ ok (w, 7 ∷ 8 ∷ [], 2))
read-seek-write_example = read-seek-write disk 3 (7 ∷ 8 ∷ []) [] handle disk-IsValid found refl

read-out_of_range_iff_example :
    (read disk 3 [] 2 ≡ out_of_range) ↔ (length (data_of disk handle) < 1)
read-out_of_range_iff_example = read-out_of_range_iff disk 3 [] 2 handle found

read-open_truncated_example : read (open_file disk path 0o1001).0 3 [] 2 ≡ out_of_range
unfolding wants_write
read-open_truncated_example =
    read-open_truncated disk [] 0o1001 3 2 handle disk-IsValid found refl (omega arith) refl refl

gets_lem_example :
    (line : Bytes) × Line 8 (drop 1 (data_of disk handle)) line
    × (line ≡ take (length line) (drop 1 (data_of disk handle)))
    × (length line ≤ 8)
    × (0 < 8 → 0 < length line)
    × (gets disk 3 [] 9 ≡ (set_handle disk 3 (record handle { pos = 1 + length line }), line, true))
unfolding find data_of
gets_lem_example = gets_lem disk 3 [] 8 handle found (omega arith)
