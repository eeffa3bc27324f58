-- ===== src/Devirt/Known.antt =====
-- What a sound instruction is, and the mnemonics that md_to_dalvik of devirt_rebuild.hpp makes.
use vardoger.Prelude.{
  ℕ, zero, suc, ◌≤◌, ◌<◌, ◌≡◌, ◌≢◌, refl, Bool, true, false, ◌&&◌, ◌||◌, Option, none, some, List,
  [], ◌∷◌, ◌++◌, arith, length, get_or, leb, ◌==◌,
}
use vardoger.Prelude.Order.{Bytes, bytes_key}
use vardoger.Prelude.Map.{find, every_value}
use vardoger.Prelude.Text.{text}
use vardoger.Devirt.Table.{
  Fmt, f10x, f11x, f11n, f12x, f10t, f21s, f21c, f21t, f23x, f22c, f22t, f31i, f35c, MdOp, md_ops,
}
use vardoger.Devirt.Encode.{DalvikInstr}
use vardoger.Devirt.Families.{md_alu, VmInstr}
use vardoger.Devirt.Methods.{is_if, is_goto}

abbrev pub AllSmall : List ℕ → Type 0
AllSmall [] = Unit {0}
AllSmall (r ∷ rs) = (r < 16) × AllSmall rs

-- The registers of an instruction are below 16, and a branch names another of `n` instructions.
abbrev pub Operands : Fmt → ℕ → ℕ → DalvikInstr → Type 0
Operands f10x n i ins = Unit {0}
Operands f11x n i ins = get_or ins.ops 0 0 < 16
Operands f11n n i ins = get_or ins.ops 0 0 < 16
Operands f21s n i ins = get_or ins.ops 0 0 < 16
Operands f21c n i ins = get_or ins.ops 0 0 < 16
Operands f31i n i ins = get_or ins.ops 0 0 < 16
Operands f12x n i ins = (get_or ins.ops 0 0 < 16) × (get_or ins.ops 1 0 < 16)
Operands f22c n i ins = (get_or ins.ops 0 0 < 16) × (get_or ins.ops 1 0 < 16)
Operands f23x n i ins =
    (get_or ins.ops 0 0 < 16) × (get_or ins.ops 1 0 < 16) × (get_or ins.ops 2 0 < 16)
Operands f35c n i ins = AllSmall ins.regs × (length ins.regs ≤ 5)
Operands f22t n i ins =
    (a : ℕ) × (b : ℕ) × (t : ℕ) × (ins.ops ≡ a ∷ b ∷ t ∷ [])
    × (a < 16)
    × (b < 16)
    × (t < n)
    × (t ≢ i)
Operands f21t n i ins = (a : ℕ) × (t : ℕ) × (ins.ops ≡ a ∷ t ∷ []) × (a < 16) × (t < n) × (t ≢ i)
Operands f10t n i ins = (t : ℕ) × (ins.ops ≡ t ∷ []) × (t < n) × (t ≢ i)
Operands _ n i ins = ⊥

-- The opcodes of the instructions that are made.
abbrev pub made : MdOp → Bool
made o = elim o.fmt [
  | f10x ↦ o.op == 0x00 || o.op == 0x0E
  | f11x ↦ o.op == 0x0A || o.op == 0x0F
  | f11n ↦ o.op == 0x12
  | f12x ↦ o.op == 0x01 || (o.op == 0x07 || (leb 0xB0 o.op && leb o.op 0xCF))
  | f21s ↦ o.op == 0x13 || o.op == 0x16
  | f21c ↦ o.op == 0x1A
  | f31i ↦ o.op == 0x14
  | f22c ↦ o.op == 0x54
  | f23x ↦ leb 0x90 o.op && leb o.op 0xAF
  | f35c ↦ o.op == 0x6E
  | f22t ↦ o.op == 0x32
  | f21t ↦ o.op == 0x38
  | f10t ↦ o.op == 0x28
  | _ ↦ false
]

-- Instruction `i` of `n`.
abbrev pub IsSound : ℕ → ℕ → DalvikInstr → Type 0
IsSound n i ins =
    (o : MdOp) × (find ins.mnem md_ops ≡ some o) × (made o ≡ true) × Operands o.fmt n i ins

-- The target of a branch, and of an operation that may be one.
abbrev pub Aims : ℕ → ℕ → Bytes → Option ℕ → Type 0
Aims n i fam none = is_if fam ≡ false
Aims n i fam (some t) = (t < n) × (t ≢ i)

-- A sanitized operation.
pub record IsOperation (n i : ℕ) (d : VmInstr) : Type 0 where
  pub small : AllSmall d.vregs
  pub few : length d.vregs ≤ 5
  pub aims : (is_if d.family || is_goto d.family) ≡ true → Aims n i d.family d.target

pub get_or-small : (rs : List ℕ) (k : ℕ) → AllSmall rs → get_or rs k 0 < 16
get_or-small [] k all = omega arith
get_or-small (r ∷ rs) zero (small, all) = small
get_or-small (r ∷ rs) (suc k) (small, all) = get_or-small rs k all

-- The mnemonics that are made.
module _ where
  pub known_nop : find (text "nop") md_ops ≡ some (record { op = 0x00; fmt = f10x })
  unfolding find md_ops
  known_nop = refl

  pub known_move : find (text "move") md_ops ≡ some (record { op = 0x01; fmt = f12x })
  unfolding find md_ops
  known_move = refl

  pub known_move_object : find (text "move-object") md_ops ≡ some (record { op = 0x07; fmt = f12x })
  unfolding find md_ops
  known_move_object = refl

  pub known_move_result : find (text "move-result") md_ops ≡ some (record { op = 0x0A; fmt = f11x })
  unfolding find md_ops
  known_move_result = refl

  pub known_return_void : find (text "return-void") md_ops ≡ some (record { op = 0x0E; fmt = f10x })
  unfolding find md_ops
  known_return_void = refl

  pub known_return : find (text "return") md_ops ≡ some (record { op = 0x0F; fmt = f11x })
  unfolding find md_ops
  known_return = refl

  pub known_const4 : find (text "const/4") md_ops ≡ some (record { op = 0x12; fmt = f11n })
  unfolding find md_ops
  known_const4 = refl

  pub known_const16 : find (text "const/16") md_ops ≡ some (record { op = 0x13; fmt = f21s })
  unfolding find md_ops
  known_const16 = refl

  pub known_const : find (text "const") md_ops ≡ some (record { op = 0x14; fmt = f31i })
  unfolding find md_ops
  known_const = refl

  pub known_const_wide :
      find (text "const-wide/16") md_ops ≡ some (record { op = 0x16; fmt = f21s })
  unfolding find md_ops
  known_const_wide = refl

  pub known_const_string :
      find (text "const-string") md_ops ≡ some (record { op = 0x1A; fmt = f21c })
  unfolding find md_ops
  known_const_string = refl

  pub known_goto : find (text "goto") md_ops ≡ some (record { op = 0x28; fmt = f10t })
  unfolding find md_ops
  known_goto = refl

  pub known_if_eq : find (text "if-eq") md_ops ≡ some (record { op = 0x32; fmt = f22t })
  unfolding find md_ops
  known_if_eq = refl

  pub known_if_eqz : find (text "if-eqz") md_ops ≡ some (record { op = 0x38; fmt = f21t })
  unfolding find md_ops
  known_if_eqz = refl

  pub known_iget_object : find (text "iget-object") md_ops ≡ some (record { op = 0x54; fmt = f22c })
  unfolding find md_ops
  known_iget_object = refl

  pub known_invoke : find (text "invoke-virtual") md_ops ≡ some (record { op = 0x6E; fmt = f35c })
  unfolding find md_ops
  known_invoke = refl

  pub known_add : find (text "add-int") md_ops ≡ some (record { op = 0x90; fmt = f23x })
  unfolding find md_ops
  known_add = refl

  pub known_add_in_place :
      find (text "add-int/2addr") md_ops ≡ some (record { op = 0xB0; fmt = f12x })
  unfolding find md_ops
  known_add_in_place = refl

-- Each operation of `md_alu` has a form on three registers, and one that works in place.
abbrev pub has_23x : Option MdOp → Bool
has_23x none = false
has_23x (some o) = elim o.fmt [ f23x ↦ made o | _ ↦ false ]

abbrev pub has_12x : Option MdOp → Bool
has_12x none = false
has_12x (some o) = elim o.fmt [ f12x ↦ made o | _ ↦ false ]

abbrev pub has_both : Bytes → Bool
has_both mn = has_23x (find mn md_ops) && has_12x (find (mn ++ text "/2addr") md_ops)

pub md_alu-table : every_value has_both md_alu ≡ true
unfolding every_value find md_ops
md_alu-table = refl

pub and_left : (a b : Bool) → (a && b) ≡ true → a ≡ true
and_left a b e = ground arith

pub and_right : (a b : Bool) → (a && b) ≡ true → b ≡ true
and_right a b e = ground arith
