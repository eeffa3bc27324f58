-- ===== src/Memory/Protect.antt =====
-- `Memory::protect`: it changes the pages that are mapped and maps the others of the range. The
-- engine's call of `uc_mem_protect` is the parameter `protect_pages`.
use vardoger.Prelude.{
  ℕ, zero, suc, ◌-◌, ◌/◌, Bool, false, not, ◌&&◌, ◌||◌, Option, none, some, List, [], ◌∷◌, ◌==◌,
  if◌then◌else◌,
}
use vardoger.Memory.{
  Memory, Region, other, read_write, add64, sub64, page_align_down, page_align_up, is_mapped,
  map_fixed,
}

-- Is one of the `left` pages from `p` on not mapped?
unfoldable pub has_hole : ℕ → ℕ → List Region → Bool
has_hole zero p regions = false
has_hole (suc left) p regions = not (is_mapped p regions) || has_hole left (add64 p 0x1000) regions

-- `if (r.base == base && r.size == size) { r.prot = prot; break; }`
unfoldable pub set_prot : ℕ → ℕ → ℕ → List Region → List Region
set_prot base size prot [] = []
set_prot base size prot (r ∷ rest) =
    if r.base == base && r.size == size
    then record r { prot = prot } ∷ rest
    else r ∷ set_prot base size prot rest

module _ {ℓ} {E : Type ℓ} (map : E → ℕ → ℕ → ℕ → Option E) (unmap_pages : E → ℕ → ℕ → Option E)
    (protect_pages : E → ℕ → ℕ → ℕ → Option E) where
  -- `engine_.protect(base, size, prot)`
  abbrev pub engine_protect : Memory E → ℕ → ℕ → ℕ → Option (Memory E)
  engine_protect s base size prot = elim (protect_pages s.engine base size prot) [
    | none ↦ none
    | some e ↦ some (record s { engine = e })
  ]

  -- One page: it is protected, or mapped.
  unfoldable pub fill_page : Memory E → ℕ → ℕ → Option (Memory E)
  fill_page s p prot =
      if is_mapped p s.regions
      then engine_protect s p 0x1000 prot
      else elim (map_fixed map unmap_pages s p 0x1000 (if prot == 0 then read_write else prot)
          other) [ none ↦ none | some (base, s') ↦ some s' ]

  unfoldable pub fill : ℕ → Memory E → ℕ → ℕ → Option (Memory E)
  fill zero s p prot = some s
  fill (suc left) s p prot = elim (fill_page s p prot) [
    | none ↦ none
    | some s' ↦ fill left s' (add64 p 0x1000) prot
  ]

  -- The loops run while `p < base + size`.
  unfoldable pub protect : Memory E → ℕ → ℕ → ℕ → Option (Memory E)
  protect s addr len prot =
      let base = page_align_down addr in
      let size = sub64 (page_align_up (add64 addr len)) base in
      let count = (add64 base size - base) / 0x1000 in
      elim (if has_hole count base s.regions
        then fill count s base prot
        else engine_protect s base size prot) [
          | none ↦ none
          | some s' ↦ some (record s' { regions = set_prot base size prot s'.regions })
        ]
