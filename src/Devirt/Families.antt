-- ===== src/Devirt/Families.antt =====
-- From the operations of a packer's virtual machine to Dalvik: md_to_dalvik of devirt_rebuild.hpp.
--
-- A family is a text of the classification. A pair of a flag and a value, as has_pool and pool, is an
-- Option here. A literal is an int64_t as its two's complement.
use mathlib.Core.Option
use vardoger.Prelude.{
  ℕ, ◌+◌, ◌*◌, ◌%◌, Bool, ◌&&◌, ◌||◌, Option, none, some, List, [], ◌∷◌, ◌++◌, leb, ltb,
  if◌then◌else◌, length, get_or, ◌==◌,
}
use vardoger.Prelude.Order.{Bytes, bytes_key, equal_bytes}
use vardoger.Prelude.Map.{Map, find}
use vardoger.Prelude.Text.{text, begins, contains}
use vardoger.Dalvik.{u64_mod}
use vardoger.Devirt.Encode.{DalvikInstr}

abbrev pub md_alu : Map Bytes Bytes
md_alu =
    (text "add", text "add-int")
    ∷ (text "sub", text "sub-int")
    ∷ (text "mul", text "mul-int")
    ∷ (text "udiv", text "div-int")
    ∷ (text "sdiv", text "div-int")
    ∷ (text "and", text "and-int")
    ∷ (text "orr", text "or-int")
    ∷ (text "eor", text "xor-int")
    ∷ (text "lsl", text "shl-int")
    ∷ (text "lsr", text "ushr-int")
    ∷ (text "asr", text "shr-int")
    ∷ (text "fadd", text "add-float")
    ∷ (text "fsub", text "sub-float")
    ∷ (text "fmul", text "mul-float")
    ∷ (text "fdiv", text "div-float")
    ∷ []

pub record VmInstr : Type 0 where
  pub op : ℕ
  pub family : Bytes
  pub vregs : List ℕ
  pub pool : Option ℕ
  pub lit : Option ℕ
  pub target : Option ℕ

-- The text before the first slash.
unfoldable pub fam_base : Bytes → Bytes
fam_base [] = []
fam_base (c ∷ cs) = if c == b'/' then [] else c ∷ fam_base cs

abbrev pub or_zero : Option ℕ → ℕ
or_zero none = 0
or_zero (some n) = n

-- `L >= -half && L < half`
abbrev pub within_signed : ℕ → ℕ → Bool
within_signed half l = ltb ((l + half) % u64_mod) (2 * half)

abbrev pub make : Bytes → List ℕ → DalvikInstr
make mnem ops = record { mnem = mnem; ops = ops; regs = [] }

-- The operations of `md_alu`, which need two registers at least.
unfoldable pub alu_to_dalvik : VmInstr → Option DalvikInstr
alu_to_dalvik ins =
    let v = λ (i : ℕ). get_or ins.vregs i 0 in
    elim (find (fam_base ins.family) md_alu) [
      | none ↦ none
      | some mn ↦
          if contains (text "/2addr") ins.family && leb 2 (length ins.vregs)
          then some (make (mn ++ text "/2addr") (v 0 ∷ v 1 ∷ []))
          else if leb 3 (length ins.vregs)
          then some (make mn (v 0 ∷ v 1 ∷ v 2 ∷ []))
          else if leb 2 (length ins.vregs)
          then some (make (mn ++ text "/2addr") (v 0 ∷ v 1 ∷ []))
          else none
    ]

unfoldable pub const_to_dalvik : ℕ → ℕ → DalvikInstr
const_to_dalvik v0 l =
    if within_signed 8 l
    then make (text "const/4") (v0 ∷ l ∷ [])
    else if within_signed 0x8000 l
    then make (text "const/16") (v0 ∷ l ∷ [])
    else make (text "const") (v0 ∷ l ∷ [])

-- The families `ref-op` and `const/ref`, with one register at least.
unfoldable pub ref_to_dalvik : VmInstr → DalvikInstr
ref_to_dalvik ins =
    let v = λ (i : ℕ). get_or ins.vregs i 0 in
    elim ins.pool [
      | some pool ↦
          if leb 2 (length ins.vregs)
          then make (text "iget-object") (v 0 ∷ v 1 ∷ pool ∷ [])
          else make (text "const-string") (v 0 ∷ pool ∷ [])
      | none ↦
          make (text "move-object") (v 0 ∷ (if ltb 1 (length ins.vregs) then v 1 else v 0) ∷ [])
    ]

-- Branches, wide constants, returns and what is left.
unfoldable pub flow_to_dalvik : VmInstr → DalvikInstr
flow_to_dalvik ins =
    let v = λ (i : ℕ). get_or ins.vregs i 0 in
    let n = length ins.vregs in
    let fam = ins.family in
    if equal_bytes fam (text "if-cmp") && leb 2 n
    then make (text "if-eq") (v 0 ∷ v 1 ∷ or_zero ins.target ∷ [])
    else if (equal_bytes fam (text "if-testz") || equal_bytes fam (text "if-testz/return"))
        && leb 1 n
    then make (text "if-eqz") (v 0 ∷ or_zero ins.target ∷ [])
    else if equal_bytes (fam_base fam) (text "wide") || contains (text "multi-word") fam
    then make (text "const-wide/16") (v 0 ∷ or_zero ins.lit ∷ [])
    else if equal_bytes fam (text "nop/goto") || equal_bytes fam (text "nop")
    then elim ins.target [ none ↦ make (text "nop") [] | some t ↦ make (text "goto") (t ∷ []) ]
    else if begins (text "return") fam
    then (if n == 0 then make (text "return-void") [] else make (text "return") (v 0 ∷ []))
    else make (text "nop") []

unfoldable pub family_to_dalvik : VmInstr → DalvikInstr
family_to_dalvik ins =
    let v = λ (i : ℕ). get_or ins.vregs i 0 in
    let n = length ins.vregs in
    let fam = ins.family in
    if equal_bytes fam (text "binary-int") && leb 3 n
    then make (text "add-int") (v 0 ∷ v 1 ∷ v 2 ∷ [])
    else if equal_bytes fam (text "binary-int") && n == 2
    then make (text "add-int/2addr") (v 0 ∷ v 1 ∷ [])
    else if (equal_bytes fam (text "move/unary") || equal_bytes fam (text "move")) && leb 2 n
    then make (text "move") (v 0 ∷ v 1 ∷ [])
    else if (equal_bytes fam (text "move-result/const") || equal_bytes fam (text "move-result"))
        && leb 1 n
    then make (text "move-result") (v 0 ∷ [])
    else if equal_bytes fam (text "const") && leb 1 n
    then const_to_dalvik (v 0) (or_zero ins.lit)
    else if equal_bytes fam (text "invoke")
    then record {
      mnem = text "invoke-virtual";
      ops = 0 ∷ or_zero ins.pool ∷ [];
      regs = if n == 0 then 0 ∷ [] else ins.vregs;
    }
    else if (equal_bytes fam (text "ref-op") || equal_bytes fam (text "const/ref")) && leb 1 n
    then ref_to_dalvik ins
    else flow_to_dalvik ins

unfoldable pub md_to_dalvik : VmInstr → DalvikInstr
md_to_dalvik ins = Option.get_or (alu_to_dalvik ins) (family_to_dalvik ins)
