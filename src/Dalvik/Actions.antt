-- ===== src/Dalvik/Actions.antt =====
-- What the opcodes stand for: the cases of the switch of Dalvik::run, without their effects.
use vardoger.Prelude.{
  ℕ, ◌+◌, ◌-◌, ◌*◌, ◌/◌, ◌%◌, Bool, ◌&&◌, ◌||◌, Option, none, some, List, [], ◌∷◌, leb, ltb, ◌==◌,
  if◌then◌else◌, length,
}
use vardoger.Prelude.Order.{Bytes}
use vardoger.Prelude.Splice.{byte_at}
use vardoger.Dex.{u32_mod, word32}
use vardoger.Dalvik.{u64_mod, u16, u32, extend, from_int8, from_int16, from_int32}

pub data InvokeKind : Type 0 where
  virtual super direct static interface : InvokeKind

-- An instruction with the words that may belong to it: the byte behind the opcode, the 16-bit words
-- at 2 and 4, the 32-bit and the 64-bit word at 2.
pub record Insn : Type 0 where
  pub op : ℕ
  pub b1 : ℕ
  pub w1 : ℕ
  pub w2 : ℕ
  pub d1 : ℕ
  pub q1 : ℕ

unfoldable pub fetch : Bytes → ℕ → Insn
fetch d iaddr =
    let at1 = (iaddr + 1) % u32_mod in
    let at2 = (iaddr + 2) % u32_mod in
    let at4 = (iaddr + 4) % u32_mod in
    record {
      op = byte_at d iaddr;
      b1 = if ltb at1 (length d) then byte_at d at1 else 0;
      w1 = u16 d at2;
      w2 = u16 d at4;
      d1 = u32 d at2;
      q1 =
          if leb ((iaddr + 10) % u32_mod) (length d)
          then word32 d at2 + u32_mod * word32 d (at2 + 4)
          else 0;
    }

-- Register numbers come first, then the other operands; `units` is the length of the instruction in
-- 16-bit units. An offset is a 32-bit number.
pub data Action : Type 0 where
  unsupported : Action
  skip : (units : ℕ) → Action
  copy : (dst src units : ℕ) → Action
  result : (dst : ℕ) → Action
  give_nothing give_result : Action
  give : (src : ℕ) → Action
  load : (dst value units : ℕ) → Action
  jump : (off fall : ℕ) → Action
  branch : (k a : ℕ) (b : Option ℕ) (off : ℕ) → Action
  string : (dst idx units : ℕ) → Action
  instance_of_type : (dst idx : ℕ) → Action
  array_length : (dst src : ℕ) → Action
  new_array : (dst src idx : ℕ) → Action
  aget aput : (dst arr idx : ℕ) → Action
  sget sput : (dst idx : ℕ) → Action
  iget iput : (dst obj idx : ℕ) → Action
  invoke : InvokeKind → (idx count : ℕ) (regs : List ℕ) → Action
  invoke_range : InvokeKind → (idx count first : ℕ) → Action
  convert : (op dst src : ℕ) → Action
  binary : (k dst a b units : ℕ) → Action
  literal : (reversed : Bool) (k dst src lit : ℕ) → Action

-- The nibbles of the byte behind the opcode.
abbrev pub low : Insn → ℕ
low i = i.b1 % 16

abbrev pub high : Insn → ℕ
high i = i.b1 / 16

abbrev pub within : ℕ → ℕ → ℕ → Bool
within lo hi op = leb lo op && leb op hi

-- `InvokeKind k[op - 0x6e]`
abbrev pub kind_of : ℕ → InvokeKind
kind_of k =
    if k == 0
    then virtual
    else if k == 1
    then super
    else if k == 2
    then direct
    else if k == 3
    then static
    else interface

-- An offset in a 32-bit sum: `int8_t`, `int16_t`.
abbrev pub off8 : ℕ → ℕ
off8 b = extend 0x80 u32_mod b

abbrev pub off16 : ℕ → ℕ
off16 w = extend 0x8000 u32_mod w

-- 0x00 to 0x11: nop, move, move-result, return.
unfoldable pub decode_move : Insn → Action
decode_move i =
    if i.op == 0x00
    then skip 1
    else if i.op == 0x01 || i.op == 0x04 || i.op == 0x07
    then copy (low i) (high i) 1
    else if i.op == 0x02 || i.op == 0x05 || i.op == 0x08
    then copy i.b1 i.w1 2
    else if i.op == 0x03 || i.op == 0x06 || i.op == 0x09
    then copy i.w1 i.w2 3
    else if within 0x0A 0x0C i.op
    then result i.b1
    else if i.op == 0x0E
    then give_nothing
    else if within 0x0F 0x11 i.op
    then give i.b1
    else unsupported

-- 0x12 to 0x1c: constants.
unfoldable pub decode_const : Insn → Action
decode_const i =
    if i.op == 0x12
    then load (low i) (extend 8 u64_mod (high i)) 1
    else if i.op == 0x13 || i.op == 0x16
    then load i.b1 (from_int16 i.w1) 2
    else if i.op == 0x14 || i.op == 0x17
    then load i.b1 (from_int32 i.d1) 3
    else if i.op == 0x15
    then load i.b1 (from_int16 i.w1 * 0x10000 % u64_mod) 2
    else if i.op == 0x18
    then load i.b1 i.q1 5
    else if i.op == 0x19
    then load i.b1 (from_int16 i.w1 * 0x1000000000000 % u64_mod) 2
    else if i.op == 0x1A
    then string i.b1 i.w1 2
    else if i.op == 0x1B
    then string i.b1 i.d1 3
    else load i.b1 0 2

-- 0x1d to 0x31: monitors, types, arrays, throw, goto, switches and comparisons.
unfoldable pub decode_object : Insn → Action
decode_object i =
    if i.op == 0x1D || i.op == 0x1E
    then skip 1
    else if i.op == 0x1F
    then skip 2
    else if i.op == 0x20
    then load (low i) 1 2
    else if i.op == 0x21
    then array_length (low i) (high i)
    else if i.op == 0x22
    then instance_of_type i.b1 i.w1
    else if i.op == 0x23
    then new_array (low i) (high i) i.w1
    else if within 0x24 0x26 i.op
    then skip 3
    else if i.op == 0x27
    then give_result
    else if i.op == 0x28
    then (if i.b1 == 0 then give_result else jump (off8 i.b1) 0)
    else if i.op == 0x29
    then jump (off16 i.w1) 2
    else if i.op == 0x2A
    then jump i.d1 3
    else if i.op == 0x2B || i.op == 0x2C
    then skip 3
    else load i.b1 0 2

-- 0x32 to 0x3d: branches on two registers, and on one against 0.
unfoldable pub decode_branch : Insn → Action
decode_branch i =
    if leb i.op 0x37
    then branch (i.op - 0x32) (low i) (some (high i)) (off16 i.w1)
    else branch (i.op - 0x38) i.b1 none (off16 i.w1)

-- 0x44 to 0x6d: elements and fields.
unfoldable pub decode_field : Insn → Action
decode_field i =
    if within 0x44 0x4A i.op
    then aget i.b1 (i.w1 % 0x100) (i.w1 / 0x100)
    else if within 0x4B 0x51 i.op
    then aput i.b1 (i.w1 % 0x100) (i.w1 / 0x100)
    else if within 0x52 0x58 i.op
    then iget (low i) (high i) i.w1
    else if within 0x59 0x5F i.op
    then iput (low i) (high i) i.w1
    else if within 0x60 0x66 i.op
    then sget i.b1 i.w1
    else if within 0x67 0x6D i.op
    then sput i.b1 i.w1
    else unsupported

-- 0x6e to 0x78: calls, with the registers C, D, E, F and G in nibbles, and with a range of them.
unfoldable pub decode_invoke : Insn → Action
decode_invoke i =
    if within 0x6E 0x72 i.op
    then invoke (kind_of (i.op - 0x6E)) i.w1 (high i)
        (i.w2 % 16 ∷ i.w2 / 16 % 16 ∷ i.w2 / 0x100 % 16 ∷ i.w2 / 0x1000 % 16 ∷ low i ∷ [])
    else if within 0x74 0x78 i.op
    then invoke_range (kind_of (i.op - 0x74)) i.w1 i.b1 i.w2
    else unsupported

-- The place of a binary opcode in its family, whose first opcode is `base`.
abbrev pub family_index : ℕ → ℕ → ℕ
family_index base op =
    if ltb op (base + 11)
    then op - base
    else if ltb op (base + 22)
    then op - (base + 11)
    else op - (base + 22)

-- 0x7b to 0xe2: arithmetic.
unfoldable pub decode_arith : Insn → Action
decode_arith i =
    if within 0x7B 0x8F i.op
    then convert i.op (low i) (high i)
    else if within 0x90 0xAF i.op
    then binary (family_index 0x90 i.op) i.b1 (i.w1 % 0x100) (i.w1 / 0x100) 2
    else if within 0xB0 0xCF i.op
    then binary (family_index 0xB0 i.op) (low i) (low i) (high i) 1
    else if within 0xD0 0xD7 i.op
    then literal (i.op == 0xD1) (i.op - 0xD0) (low i) (high i) (from_int16 i.w1)
    else if within 0xD8 0xE2 i.op
    then literal (i.op == 0xD9) (i.op - 0xD8) i.b1 (i.w1 % 0x100) (from_int8 (i.w1 / 0x100))
    else unsupported

-- The switch.
unfoldable pub decode : Insn → Action
decode i =
    if leb i.op 0x11
    then decode_move i
    else if leb i.op 0x1C
    then decode_const i
    else if leb i.op 0x31
    then decode_object i
    else if within 0x32 0x3D i.op
    then decode_branch i
    else if within 0x44 0x6D i.op
    then decode_field i
    else if within 0x6E 0x78 i.op
    then decode_invoke i
    else decode_arith i
