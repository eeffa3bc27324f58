-- ===== src/Vfs.antt =====
-- core/android/vfs.cpp and include/vardoger/android/vfs.hpp: the in-memory file system.
--
-- A path is a string of bytes. `store`, `dirs` and `handles` are the class's maps in key order. The
-- provider is the function that `set_provider` installs; `written` lists the calls that the write
-- observer received, newest last, and `watched` says whether one is installed. A file descriptor
-- is an `int` by its 32 bits, whose sums wrap where the standard leaves an overflow undefined.
-- Positions are numbers without wrap-around: a file is far shorter than 2 ^ 64 bytes.
pub mod Paths
pub mod Validity
pub mod Steps
pub mod Operations
pub mod Handles
pub mod Contents
pub mod Gives
pub mod Reads
pub mod Lines
use vardoger.Prelude.{
  ℕ, ◌+◌, ◌-◌, ◌%◌, Bool, true, false, not, ◌&&◌, ◌||◌, Option, none, some, List, [], ◌∷◌, ◌++◌,
  min, bit_and, ltb, leb, ◌==◌, if◌then◌else◌, is_some, length, take, drop, replicate,
}
use mathlib.Core.List.{reverse}
use mathlib.Core.Option
use vardoger.Prelude.Order.{Bytes, bytes_key, nat_key, equal_bytes}
use vardoger.Prelude.Map.{Map, find, insert, erase, lower_bound}
use vardoger.Prelude.Splice.{overwrite}

pub record Handle : Type 0 where
  pub path : Bytes
  pub snapshot : Bytes
  pub pos : ℕ
  pub writable : Bool
  pub synthetic : Bool
  pub dirty : Bool

pub record Vfs : Type 0 where
  pub store : Map Bytes Bytes
  pub dirs : Map Bytes (Unit {0})
  pub handles : Map ℕ Handle
  pub next_fd : ℕ
  pub provider : Option (Bytes → Option Bytes)
  pub watched : Bool
  pub written : List (Bytes × Bytes)

-- `n + 1` and `a >= b` on `int`.
abbrev pub next_int : ℕ → ℕ
next_int n = (n + 1) % 0x100000000

abbrev pub at_least : ℕ → ℕ → Bool
at_least a b = leb ((b + 0x80000000) % 0x100000000) ((a + 0x80000000) % 0x100000000)

-- A default-constructed `Vfs`.
abbrev pub empty : Vfs
empty = record {
  store = [];
  dirs = [];
  handles = [];
  next_fd = 3;
  provider = none;
  watched = false;
  written = [];
}

-- `kWrOnly | kRdWr`, `kCreat`, `kTrunc` and `kAppend`.
abbrev pub access_mask : ℕ
access_mask = 3

abbrev pub creat_flag : ℕ
creat_flag = 0o100

abbrev pub trunc_flag : ℕ
trunc_flag = 0o1000

abbrev pub append_flag : ℕ
append_flag = 0o2000

-- `flags & mask`, as a condition.
abbrev pub has_flag : ℕ → ℕ → Bool
has_flag flags mask = not (bit_and flags mask == 0)

unfoldable pub wants_write : ℕ → Bool
wants_write flags = has_flag flags access_mask || has_flag flags creat_flag

unfoldable pub add_file : Vfs → Bytes → Bytes → Vfs
add_file v path content = record v { store = insert path content v.store }

-- `while (p.size() > 1 && p.back() == '/') p.pop_back();`, on the reversed text.
trim_back : Bytes → Bytes
trim_back [] = []
trim_back (c ∷ []) = c ∷ []
trim_back (c ∷ d ∷ ds) = if c == b'/' then trim_back (d ∷ ds) else c ∷ d ∷ ds

unfoldable pub trim : Bytes → Bytes
unfolding trim_back
trim p = reverse (trim_back (reverse p))

unfoldable pub add_dir : Vfs → Bytes → Vfs
add_dir v path =
    let p = trim path in if equal_bytes p [] then v else record v { dirs = insert p tt v.dirs }

-- `key.compare(0, prefix.size(), prefix) == 0`
unfoldable pub starts_with : Bytes → Bytes → Bool
starts_with [] key = true
starts_with (c ∷ cs) [] = false
starts_with (c ∷ cs) (d ∷ ds) = if c == d then starts_with cs ds else false

-- Is there an entry at or after `prefix` that begins with it?
implied_dir : Bytes → Option (Bytes × Bytes) → Bool
implied_dir prefix none = false
implied_dir prefix (some (key, _)) = starts_with prefix key

unfoldable pub is_dir : Vfs → Bytes → Bool
unfolding implied_dir
is_dir v path =
    let p = trim path in
    let prefix = p ++ b'/' ∷ [] in
    if is_some (find p v.dirs) then true else implied_dir prefix (lower_bound prefix v.store)

-- What the provider offers for a path; nothing when none is installed.
unfoldable pub provide : Vfs → Bytes → Option Bytes
provide v path = elim v.provider [ none ↦ none | some f ↦ f path ]

unfoldable pub exists : Vfs → Bytes → Bool
exists v path =
    if is_some (find path v.store)
    then true
    else if is_dir v path
    then true
    else is_some (provide v path)

-- The Boolean says whether an entry went.
unfoldable pub unlink : Vfs → Bytes → Vfs × Bool
unlink v path = (record v { store = erase path v.store }, is_some (find path v.store))

unfoldable pub content : Vfs → Bytes → Option Bytes
content v path = find path v.store

-- The bytes of an entry, or the empty string.
abbrev pub stored : Vfs → Bytes → Bytes
stored v path = Option.get_or (find path v.store) []

unfoldable pub data_of : Vfs → Handle → Bytes
data_of v h = if h.synthetic then h.snapshot else stored v h.path

-- `handles_[next_fd_++] = h`
unfoldable pub add_handle : Vfs → Handle → Vfs × ℕ
add_handle v h =
    (record v { handles = insert v.next_fd h v.handles; next_fd = next_int v.next_fd }, v.next_fd)

abbrev pub file_handle : Bytes → ℕ → Bool → Handle
file_handle path pos writable = record {
  path = path;
  snapshot = [];
  pos = pos;
  writable = writable;
  synthetic = false;
  dirty = false;
}

abbrev pub synthetic_handle : Bytes → Handle
synthetic_handle bytes = record {
  path = [];
  snapshot = bytes;
  pos = 0;
  writable = false;
  synthetic = true;
  dirty = false;
}

-- The store after `open` for writing: the file exists, and `kTrunc` empties it.
opened_store : Vfs → Bytes → ℕ → Map Bytes Bytes
opened_store v path flags = elim (find path v.store) [
  | none ↦ insert path [] v.store
  | some old ↦ if has_flag flags trunc_flag then insert path [] v.store else v.store
]

-- 0 means that the path is not served.
unfoldable pub open_file : Vfs → Bytes → ℕ → Vfs × ℕ
unfolding opened_store add_handle
open_file v path flags =
    if wants_write flags
    then (let w = record v { store = opened_store v path flags } in
        add_handle w (
          file_handle path (if has_flag flags append_flag then length (stored w path) else 0) true))
    else if is_some (find path v.store)
    then add_handle v (file_handle path 0 false)
    else elim (provide v path) [
      | none ↦ (v, 0)
      | some bytes ↦ add_handle v (synthetic_handle bytes)
    ]

unfoldable pub is_open : Vfs → ℕ → Bool
is_open v fd = is_some (find fd v.handles)

-- 0 means that `fd` is not open.
unfoldable pub dup : Vfs → ℕ → Vfs × ℕ
unfolding add_handle
dup v fd = elim (find fd v.handles) [ none ↦ (v, 0) | some h ↦ add_handle v h ]

-- `store_[h.path]` creates the entry that it reads; the observer is told.
report : Vfs → Handle → Vfs
report v h = record v {
  store = insert h.path (stored v h.path) v.store;
  written = v.written ++ (h.path, stored v h.path) ∷ [];
}

unfoldable pub close : Vfs → ℕ → Vfs
unfolding report
close v fd = elim (find fd v.handles) [
  | none ↦ v
  | some h ↦
      let w = if h.writable && h.dirty && v.watched then report v h else v in
      record w { handles = erase fd v.handles }
]

-- `none` stands for -1: `oldfd` is not open.
unfoldable pub dup2 : Vfs → ℕ → ℕ → Vfs × Option ℕ
dup2 v oldfd newfd = elim (find oldfd v.handles) [
  | none ↦ (v, none)
  | some h ↦
      if oldfd == newfd
      then (v, some newfd)
      else (let w = close v newfd in
          (
            record w {
              handles = insert newfd h w.handles;
              next_fd = if at_least newfd w.next_fd then next_int newfd else w.next_fd;
            },
            some newfd,
          ))
]

-- `std::string::assign(src, pos, n)` throws `std::out_of_range` for `pos > src.size()`.
pub data Outcome {ℓ} (A : Type ℓ) : Type ℓ where
  ok : A → Outcome A
  out_of_range : Outcome A

assign : Bytes → ℕ → ℕ → Outcome Bytes
assign src pos n = if ltb (length src) pos then out_of_range else ok (take n (drop pos src))

-- `src.size() > h.pos ? src.size() - h.pos : 0`
pub available : Bytes → ℕ → ℕ
available src pos = if ltb pos (length src) then length src - pos else 0

abbrev pub set_handle : Vfs → ℕ → Handle → Vfs
set_handle v fd h = record v { handles = insert fd h v.handles }

-- The state, the out parameter and the number of bytes.
unfoldable pub read : Vfs → ℕ → Bytes → ℕ → Outcome (Vfs × Bytes × ℕ)
unfolding assign
read v fd out n = elim (find fd v.handles) [
  | none ↦ ok (v, out, 0)
  | some h ↦
      let src = data_of v h in
      let count = min n (available src h.pos) in
      elim (assign src h.pos count) [
        | out_of_range ↦ out_of_range
        | ok bytes ↦ ok (set_handle v fd (record h { pos = h.pos + count }), bytes, count)
      ]
]

-- `resize` with zeros to `size`, if that is longer.
unfoldable pub resize : Bytes → ℕ → Bytes
resize dst size = if ltb (length dst) size then dst ++ replicate (size - length dst) 0 else dst

unfoldable pub write : Vfs → ℕ → Bytes → Vfs × ℕ
unfolding resize overwrite
write v fd bytes = elim (find fd v.handles) [
  | none ↦ (v, 0)
  | some h ↦
      let end = h.pos + length bytes in
      if h.writable
      then (
        record v {
          store = insert h.path (overwrite (resize (stored v h.path) end) h.pos bytes) v.store;
          handles = insert fd (record h { pos = end; dirty = true }) v.handles;
        },
        length bytes,
      )
      else (v, 0)
]

-- The loop of `gets` over the bytes from the position on.
unfoldable pub gets_loop : Bytes → ℕ → Bytes → ℕ → ℕ × Bytes
gets_loop [] pos line limit = (pos, line)
gets_loop (c ∷ rest) pos line limit =
    let more = gets_loop rest (pos + 1) (line ++ c ∷ []) limit in
    if ltb (length line + 1) limit
    then (if c == b'\n' then (pos + 1, line ++ c ∷ []) else more)
    else (pos, line)

-- The state, the out parameter, and whether there was a line.
unfoldable pub gets : Vfs → ℕ → Bytes → ℕ → Vfs × Bytes × Bool
gets v fd line_out limit = elim (find fd v.handles) [
  | none ↦ (v, line_out, false)
  | some h ↦
      let src = data_of v h in
      let (pos, line) = gets_loop (drop h.pos src) h.pos [] limit in
      if limit == 0
      then (v, line_out, false)
      else if ltb h.pos (length src)
      then (set_handle v fd (record h { pos = pos }), line, true)
      else (v, line_out, false)
]

unfoldable pub size : Vfs → ℕ → ℕ
size v fd = elim (find fd v.handles) [ none ↦ 0 | some h ↦ length (data_of v h) ]

unfoldable pub tell : Vfs → ℕ → ℕ
tell v fd = elim (find fd v.handles) [ none ↦ 0 | some h ↦ h.pos ]

unfoldable pub seek : Vfs → ℕ → ℕ → Vfs
seek v fd pos = elim (find fd v.handles) [
  | none ↦ v
  | some h ↦ set_handle v fd (record h { pos = min pos (length (data_of v h)) })
]
