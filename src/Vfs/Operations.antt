-- ===== src/Vfs/Operations.antt =====
-- Every operation of core/android/vfs.cpp keeps the state valid, hence every history does.
use vardoger.Prelude.{ℕ, ◌+◌, ◌≤◌, ◌<◌, length, refl, List, [], ◌∷◌, arith}
use vardoger.Prelude.Order.{Bytes, bytes_key, nat_key}
use vardoger.Prelude.Map.{find}
use vardoger.Vfs.{
  Vfs, empty, add_file, add_dir, unlink, open_file, dup, dup2, close, read, write, gets, seek,
}
use vardoger.Vfs.Validity.{IsValid, int_end}
use vardoger.Vfs.Steps.{
  add_file-IsValid, add_dir-IsValid, unlink-IsValid, open_file-IsValid, dup-IsValid, close-IsValid,
  dup2-IsValid, write-IsValid, after_read, read-IsValid, gets-IsValid, seek-IsValid,
  open_file-next_fd, dup-next_fd, dup2-next_fd, close-next_fd, read-next_fd, write-next_fd,
  gets-next_fd, seek-next_fd,
}

-- The public operations that change the state.
pub data Op : Type 0 where
  adds_file : Bytes → Bytes → Op
  adds_dir unlinks : Bytes → Op
  opens : Bytes → ℕ → Op
  dups : ℕ → Op
  dups2 : ℕ → ℕ → Op
  reads : ℕ → Bytes → ℕ → Op
  writes : ℕ → Bytes → Op
  getss : ℕ → Bytes → ℕ → Op
  seeks : ℕ → ℕ → Op
  closes : ℕ → Op

pub step : Vfs → Op → Vfs
step v (adds_file path bytes) = add_file v path bytes
step v (adds_dir path) = add_dir v path
step v (unlinks path) = (unlink v path).0
step v (opens path flags) = (open_file v path flags).0
step v (dups fd) = (dup v fd).0
step v (dups2 oldfd newfd) = (dup2 v oldfd newfd).0
step v (reads fd out n) = after_read v (read v fd out n)
step v (writes fd bytes) = (write v fd bytes).0
step v (getss fd out limit) = (gets v fd out limit).0
step v (seeks fd pos) = seek v fd pos
step v (closes fd) = close v fd

-- A descriptor that `dup2` is given to place is below `top`.
abbrev pub Places : ℕ → Op → Type 0
Places top (dups2 oldfd newfd) = newfd < top
Places top _ = Unit {0}

step-IsValid :
    (v : Vfs) (op : Op) (b top : ℕ)
    → v.next_fd ≤ b
    → top ≤ b
    → b + 1 < int_end
    → Places top op
    → IsValid v
    → IsValid (step v op) × ((step v op).next_fd ≤ b + 1)
unfolding step add_file add_dir unlink
step-IsValid v (adds_file path bytes) b top le high room place valid =
    (add_file-IsValid v path bytes valid, omega (arith, le))
step-IsValid v (adds_dir path) b top le high room place valid =
    (add_dir-IsValid v path valid, ground (arith, le))
step-IsValid v (unlinks path) b top le high room place valid =
    (unlink-IsValid v path valid, omega (arith, le))
step-IsValid v (opens path flags) b top le high room place valid = (
  open_file-IsValid v path flags (omega arith) valid,
  omega (arith, le, open_file-next_fd v path flags (omega arith)),
)
step-IsValid v (dups fd) b top le high room place valid =
    (dup-IsValid v fd (omega arith) valid, omega (arith, le, dup-next_fd v fd (omega arith)))
step-IsValid v (dups2 oldfd newfd) b top le high room place valid = (
  dup2-IsValid v oldfd newfd (omega arith) (omega arith) valid,
  omega (arith, dup2-next_fd v oldfd newfd b (omega arith) le (omega arith)),
)
step-IsValid v (reads fd out n) b top le high room place valid =
    (read-IsValid v fd out n valid, omega (arith, le, read-next_fd v fd out n))
step-IsValid v (writes fd bytes) b top le high room place valid =
    (write-IsValid v fd bytes valid, omega (arith, le, write-next_fd v fd bytes))
step-IsValid v (getss fd out limit) b top le high room place valid =
    (gets-IsValid v fd out limit valid, omega (arith, le, gets-next_fd v fd out limit))
step-IsValid v (seeks fd pos) b top le high room place valid =
    (seek-IsValid v fd pos valid, omega (arith, le, seek-next_fd v fd pos))
step-IsValid v (closes fd) b top le high room place valid =
    (close-IsValid v fd valid, omega (arith, le, close-next_fd v fd))

pub run : Vfs → List Op → Vfs
run v [] = v
run v (op ∷ ops) = run (step v op) ops

-- Every descriptor that `dup2` is given to place is below `top`.
abbrev pub AllPlaces : ℕ → List Op → Type 0
AllPlaces top [] = Unit {0}
AllPlaces top (op ∷ ops) = Places top op × AllPlaces top ops

run-bounded :
    (v : Vfs) (ops : List Op) (b top : ℕ)
    → v.next_fd ≤ b
    → top ≤ b
    → b + length ops < int_end
    → AllPlaces top ops
    → IsValid v
    → IsValid (run v ops)
unfolding run
run-bounded v [] b top le high room places valid = valid
run-bounded v (op ∷ ops) b top le high room places valid =
    let (valid', le') = step-IsValid v op b top le high (omega arith) places.0 valid in
    run-bounded (step v op) ops (b + 1) top le' (omega arith) (omega arith) places.1 valid'

-- From a valid state, any sequence of the file system's operations leads to a valid one, where
-- next_fd and the descriptors that `dup2` places are so far below the end of `int` that every
-- operation may take one more: its maps are ordered, no descriptor at or above `next_fd` is in use,
-- `next_fd` is at least 3, and a handle on provided bytes is not writable.
pub run-IsValid :
    (v : Vfs) (ops : List Op) (top : ℕ)
    → v.next_fd ≤ top
    → AllPlaces top ops
    → top + length ops < int_end
    → IsValid v
    → IsValid (run v ops)
run-IsValid v ops top le places room valid =
    run-bounded v ops top top le (omega arith) room places valid

pub empty-IsValid : IsValid empty
unfolding find
empty-IsValid = record {
  files = tt;
  folders = tt;
  table = tt;
  fresh = λ fd h. refl;
  reserved = omega arith;
  read_only = λ fd h e. cc;
}
