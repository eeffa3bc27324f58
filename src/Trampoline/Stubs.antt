-- ===== src/Trampoline/Stubs.antt =====
-- A stub's address leads to its handler.
use vardoger.Prelude.{ℕ, ◌+◌, ◌*◌, ◌≤◌, ◌<◌, ◌≡◌, Option, none, some, length}
use vardoger.Prelude.Order.{Bytes}
use vardoger.Trampoline.{page_base, page_size, stub_size, Trampoline, stub, lookup, name_at}

module _ {ℓ} {H : Type ℓ} where
  -- The cursor stands behind the last stub, within the page.
  pub record IsReady (t : Trampoline H) : Type ℓ where
    pub next_at : t.next ≡ page_base + length t.handlers * stub_size
    pub within : length t.handlers * stub_size ≤ page_size

  -- `alloc` throws once the page has no room for a stub and leaves the trampolines as they were.
  -- Otherwise the page stays in order, a program counter in the eight bytes from the address given
  -- leads to the new handler and name, and those of older stubs lead to theirs.
  pub data Stubbed (t : Trampoline H) (name : Bytes) (h : H)
      : Trampoline H × Option ℕ → Type ℓ where
    stubbed :
        (t' : Trampoline H) (addr : ℕ)
        → IsReady t'
        → ((k : ℕ)
            → k < stub_size
            → (lookup t' (addr + k) ≡ stub h) × (name_at t' (addr + k) ≡ name))
        → ((pc : ℕ) (g : H) → lookup t pc ≡ stub g → lookup t' pc ≡ stub g)
        → Stubbed t name h (t', some addr)
    full : page_size < length t.handlers * stub_size + stub_size → Stubbed t name h (t, none)
