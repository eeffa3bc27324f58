-- ===== src/Memory/Tls.antt =====
-- The constructor of `Memory` and `Memory::setup_tls`: the block of thread-local storage. The
-- engine's instruction set is `arm64`; its writes to guest memory and to the register of the thread
-- pointer are parameters that succeed or throw (`none`). VARDOGER_LOW_LIB_BASE is `low_lib_base`.
use mathlib.Core.Option
use vardoger.Prelude.{
  ℕ, ◌+◌, ◌≡◌, refl, inl, inr, Bool, not, ◌&&◌, Option, none, some, [], arith, if◌then◌else◌,
  Option-cases,
}
use vardoger.Memory.{Memory, tls, mmap_base, big_malloc_base, read_write, add_region}
use vardoger.Memory.Regions.{IsFree}
use vardoger.Memory.Maps.{IsValid, Added, insert_region-Added}

abbrev tls_base : ℕ
tls_base = 0x50000000

abbrev tls_size : ℕ
tls_size = 0x00010000

abbrev stack_guard : ℕ
stack_guard = 0x1122334455667788

-- The registers of the thread pointer: UC_ARM64_REG_TPIDR_EL0 and UC_ARM_REG_C13_C0_3.
pub data ThreadRegister : Type 0 where
  tpidr_el0 tpidruro : ThreadRegister

abbrev thread_register : Bool → ThreadRegister
thread_register arm64 = if arm64 then tpidr_el0 else tpidruro

-- `Memory(Engine& engine)`
unfoldable pub fresh_memory {ℓ} : {E : Type ℓ} → (is64 low_lib_base : Bool) → E → Memory E
fresh_memory is64 low_lib_base engine = record {
  regions = [];
  lib_next = if is64 && not low_lib_base then 0x7000000000 else 0x12000000;
  mmap_next = mmap_base;
  big_next = big_malloc_base;
  heap_next = 0;
  heap_end = 0;
  java_next = 0;
  java_end = 0;
  engine = engine;
}

module _ {ℓ} {E : Type ℓ} (map : E → ℕ → ℕ → ℕ → Option E) (unmap_pages : E → ℕ → ℕ → Option E)
    (write64 : E → ℕ → ℕ → Option E) (write_register : E → ThreadRegister → ℕ → Option E) where
  -- The writes behind the mapping: the self pointer, the stack guard, the thread pointer.
  unfoldable pub seed_tls : Bool → E → Option E
  seed_tls arm64 e = Option.bind (write64 e tls_base tls_base) (λ e₁.
      Option.bind (write64 e₁ (tls_base + 0x28) stack_guard)
        (λ e₂. write_register e₂ (thread_register arm64) tls_base))

  unfoldable pub setup_tls : Bool → Memory E → Option (ℕ × Memory E)
  setup_tls arm64 s =
      Option.bind (add_region map unmap_pages s tls_base tls_size read_write tls)
        (λ s'. Option.map (λ e. (tls_base, record s' { engine = e })) (seed_tls arm64 s'.engine))

  -- The ways in which `setup_tls` ends: with the block mapped and its fields written, or with an
  -- exception of the engine.
  pub data TlsSet (arm64 : Bool) (s : Memory E) : Option (ℕ × Memory E) → Type ℓ where
    seeded :
        (e e' : E) (s' : Memory E)
        → map s.engine tls_base tls_size read_write ≡ some e
        → seed_tls arm64 e ≡ some e'
        → s'.engine ≡ e'
        → Added tls_base tls_size read_write tls s.regions s'.regions
        → TlsSet arm64 s (some (tls_base, s'))
    no_block : map s.engine tls_base tls_size read_write ≡ none → TlsSet arm64 s none
    not_written :
        (e : E)
        → map s.engine tls_base tls_size read_write ≡ some e
        → seed_tls arm64 e ≡ none
        → TlsSet arm64 s none

  -- On a valid map in which the place of the block is free, `setup_tls` throws if the engine refuses
  -- the pages or a write; otherwise the block is one more region of a valid map.
  pub setup_tls-TlsSet :
      (arm64 : Bool) (s : Memory E)
      → IsValid s.regions
      → IsFree tls_base (tls_base + tls_size) s.regions
      → TlsSet arm64 s (setup_tls arm64 s)
  unfolding setup_tls add_region Option.bind
  setup_tls-TlsSet arm64 s v free =
      elim (Option-cases (map s.engine tls_base tls_size read_write)) [
        | inl f ↦ rw (f, setup_tls, add_region) (no_block f)
        | inr (e, f) ↦ elim (Option-cases (seed_tls arm64 e)) [
          | inl g ↦ rw (f, g, setup_tls, add_region) (not_written e f g)
          | inr (e', g) ↦
              rw (f, g, setup_tls, add_region)
                (seeded e e' _ f g refl (
                  insert_region-Added tls_base tls_size read_write tls s.regions (omega arith) free
                    v))
        ]
      ]
