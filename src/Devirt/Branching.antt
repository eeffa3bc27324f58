-- ===== src/Devirt/Branching.antt =====
-- The branches of the assembler, and the places they reach.
use vardoger.Prelude.{
  ℕ, zero, suc, ◌+◌, ◌-◌, ◌≤◌, ◌<◌, ◌≡◌, Bool, true, some, List, [], ◌∷◌, ◌++◌, arith, get_elem?,
}
use vardoger.Prelude.Order.{bytes_key}
use vardoger.Dalvik.{passes}
use vardoger.Devirt.Table.{
  Fmt, f10x, f11x, f11n, f12x, f10t, f21t, f22t, f20t, f31i, f31c, f30t, f35c, f3rc, md_units,
}
use vardoger.Devirt.Encode.{DalvikInstr, width, offsets}
use vardoger.Devirt.Layout.{size}

-- The branches: their operands, whether they are taken, and how far they reach.
abbrev pub Branches : Fmt → ℕ → List ℕ → List ℕ → ℕ → Bool → ℕ → Type 0
Branches f22t op regs ops t taken reach =
    (a : ℕ) × (b : ℕ) × (x : ℕ) × (y : ℕ) × (ops ≡ a ∷ b ∷ t ∷ [])
    × (a < 16)
    × (b < 16)
    × (get_elem? regs a ≡ some x)
    × (get_elem? regs b ≡ some y)
    × (passes (op - 0x32) x y ≡ taken)
    × (reach ≡ 0x8000)
Branches f21t op regs ops t taken reach =
    (a : ℕ) × (x : ℕ) × (ops ≡ a ∷ t ∷ [])
    × (a < 0x100)
    × (get_elem? regs a ≡ some x)
    × (passes (op - 0x38) x 0 ≡ taken)
    × (reach ≡ 0x8000)
Branches f10t op regs ops t taken reach = (ops ≡ t ∷ []) × (taken ≡ true) × (reach ≡ 0x80)
Branches f20t op regs ops t taken reach = (ops ≡ t ∷ []) × (taken ≡ true) × (reach ≡ 0x8000)
Branches f30t op regs ops t taken reach = (ops ≡ t ∷ []) × (taken ≡ true) × (reach ≡ 0x80000000)
Branches _ op regs ops t taken reach = ⊥

pub offsets-le :
    (u : ℕ) (instrs : List DalvikInstr) (i v : ℕ)
    → get_elem? (offsets u instrs) i ≡ some v
    → v ≤ u + size instrs
unfolding offsets
offsets-le u [] i v e = absurd (cc)
offsets-le u (first ∷ rest) zero v e = let same : u ≡ v = cc in omega arith
offsets-le u (first ∷ rest) (suc i) v e = omega (arith, offsets-le (u + width first) rest i v e)

pub size-append : (front rest : List DalvikInstr) → size (front ++ rest) ≡ size front + size rest
size-append [] rest = omega arith
size-append (first ∷ front) rest = omega (arith, size-append front rest)

pub md_units_pos : (fmt : Fmt) → 0 < md_units fmt
unfolding md_units
md_units_pos f10x = omega arith
md_units_pos f11x = omega arith
md_units_pos f11n = omega arith
md_units_pos f12x = omega arith
md_units_pos f10t = omega arith
md_units_pos f31i = omega arith
md_units_pos f31c = omega arith
md_units_pos f30t = omega arith
md_units_pos f35c = omega arith
md_units_pos f3rc = omega arith
md_units_pos _ = omega arith
