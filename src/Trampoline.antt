-- ===== src/Trampoline.antt =====
-- core/engine/trampoline.cpp and include/vardoger/engine/trampoline.hpp: the page of stubs through
-- which guest code calls the host.
--
-- A handler is a value of `H`, and what it does is a parameter of `dispatch`, as is the program
-- counter. The writes to guest memory that `alloc` makes are kept in `stores`. The base is the
-- constant that the constructor stores; mapping the page is the memory manager's `map_fixed`. The
-- call log is left out.
pub mod Stubs
use vardoger.Prelude.{
  ℕ, zero, suc, ◌+◌, ◌-◌, ◌*◌, ◌/◌, Bool, true, false, ◌&&◌, Option, none, some, List, [], ◌∷◌,
  ◌++◌, leb, ltb, ◌==◌, if◌then◌else◌, length, get_elem?,
}
use vardoger.Prelude.Order.{Bytes}
use vardoger.Prelude.Act.{Act}
use vardoger.Dex.{bytes32}

pub data Abi : Type 0 where
  arm64 arm32 x86 x86_64 : Abi

abbrev pub page_base : ℕ
page_base = 0x20000000

abbrev pub page_size : ℕ
page_size = 0x10000

abbrev pub stub_size : ℕ
stub_size = 8

-- A write to guest memory.
pub record Patch : Type 0 where
  pub addr : ℕ
  pub bytes : Bytes

pub record Stub {ℓ} (H : Type ℓ) : Type ℓ where
  pub name : Bytes
  pub handler : H

pub record Trampoline {ℓ} (H : Type ℓ) : Type ℓ where
  pub next : ℕ
  pub handlers : List (Stub H)
  pub stores : List Patch

abbrev pub start {ℓ} : {H : Type ℓ} → Trampoline H
start = record { next = page_base; handlers = []; stores = [] }

-- `svc #0; ret`, `svc #0; bx lr` and `int 0x80; ret`
unfoldable pub stub_code : Abi → ℕ → List Patch
stub_code arm64 addr =
    record { addr = addr; bytes = bytes32 0xD4000001 }
    ∷ record { addr = addr + 4; bytes = bytes32 0xD65F03C0 }
    ∷ []
stub_code arm32 addr =
    record { addr = addr; bytes = bytes32 0xEF000000 }
    ∷ record { addr = addr + 4; bytes = bytes32 0xE12FFF1E }
    ∷ []
stub_code x86 addr = record { addr = addr; bytes = 0xCD ∷ 0x80 ∷ 0xC3 ∷ [] } ∷ []
stub_code x86_64 addr = record { addr = addr; bytes = 0xCD ∷ 0x80 ∷ 0xC3 ∷ [] } ∷ []

abbrev pub contains : ℕ → Bool
contains addr = leb page_base addr && ltb addr (page_base + page_size)

-- The handler of a program counter: outside the page, of no known stub (which throws), or there.
pub data Found {ℓ} (H : Type ℓ) : Type ℓ where
  elsewhere unknown : Found H
  stub : H → Found H

module _ {ℓ} {H : Type ℓ} where
  unfoldable pub alloc : Abi → Bytes → H → Act (Trampoline H) ℕ
  alloc abi name h t = if ltb (page_base + page_size) (t.next + stub_size) then (t, none) else (
    record {
      next = t.next + stub_size;
      handlers = t.handlers ++ record { name = name; handler = h } ∷ [];
      stores = t.stores ++ stub_code abi t.next;
    },
    some t.next,
  )

  unfoldable pub lookup : Trampoline H → ℕ → Found H
  lookup t pc =
      if contains pc
      then elim (get_elem? t.handlers ((pc - page_base) / stub_size)) [
        | none ↦ unknown
        | some s ↦ stub s.handler
      ]
      else elsewhere

  -- `dispatch` on a machine `E`: `none` is an exception.
  unfoldable pub dispatch {κ} :
      {E : Type κ} → (H → E → E) → Trampoline H → ℕ → E → Option (E × Bool)
  dispatch invoke t pc e = elim (lookup t pc) [
    | elsewhere ↦ some (e, false)
    | unknown ↦ none
    | stub h ↦ some (invoke h e, true)
  ]

  unfoldable pub name_at : Trampoline H → ℕ → Bytes
  name_at t addr =
      if contains addr
      then elim (get_elem? t.handlers ((addr - page_base) / stub_size)) [
        | none ↦ []
        | some s ↦ s.name
      ]
      else []
