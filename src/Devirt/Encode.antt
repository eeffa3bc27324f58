-- ===== src/Devirt/Encode.antt =====
-- The assembler of devirt_rebuild.hpp: md_encode and md_assemble.
--
-- An operand is an int64_t as its two's complement. Offsets are sums of the lengths of instructions
-- and do not wrap.
use vardoger.Prelude.{
  ℕ, ◌+◌, ◌-◌, ◌*◌, ◌%◌, ◌^◌, none, some, List, [], ◌∷◌, ◌++◌, bit_or, length, get_elem?, get_or,
  set,
}
use vardoger.Prelude.Order.{Bytes, bytes_key}
use vardoger.Prelude.Map.{find}
use vardoger.Dex.{bytes16, bytes32}
use vardoger.Dalvik.{u64_mod}
use vardoger.Devirt.Table.{
  Fmt, f10x, f11x, f11n, f12x, f10t, f22x, f21s, f21h, f21c, f21t, f23x, f22b, f22s, f22c, f22t,
  f20t, f31i, f31c, f30t, f35c, f3rc, md_units, md_ops,
}

pub record DalvikInstr : Type 0 where
  pub mnem : Bytes
  pub ops : List ℕ
  pub regs : List ℕ

-- The lambda `r`.
abbrev pub operand : DalvikInstr → ℕ → ℕ
operand ins i = get_or ins.ops i 0

-- `(r(0) << 8) | op` and `((r(1) & 0xf) << 12) | ((r(0) & 0xf) << 8) | op`, on 16 bits.
abbrev pub unit_byte : ℕ → ℕ → ℕ
unit_byte op a = bit_or op (a * 2 ^ 8) % 0x10000

abbrev pub unit_nibbles : ℕ → ℕ → ℕ → ℕ
unit_nibbles op a b = bit_or (bit_or op (a % 16 * 2 ^ 8)) (b * 2 ^ 12) % 0x10000

-- `put_u16` and `put_s16` of a wider number.
abbrev pub put16 : ℕ → Bytes
put16 v = bytes16 (v % 0x10000)

-- `r(i) - cur`
abbrev pub distance : ℕ → ℕ → ℕ
distance target cur = (target + (u64_mod - cur)) % u64_mod

-- The cases of `md_encode` by format.
unfoldable pub encode_as : ℕ → Fmt → DalvikInstr → ℕ → Bytes
encode_as op f10x ins cur = put16 op
encode_as op f11x ins cur = bytes16 (unit_byte op (operand ins 0))
encode_as op f11n ins cur = bytes16 (unit_nibbles op (operand ins 0) (operand ins 1 % 16))
encode_as op f12x ins cur = bytes16 (unit_nibbles op (operand ins 0) (operand ins 1 % 16))
encode_as op f22x ins cur = bytes16 (unit_byte op (operand ins 0)) ++ put16 (operand ins 1)
encode_as op f21s ins cur = bytes16 (unit_byte op (operand ins 0)) ++ put16 (operand ins 1)
encode_as op f21h ins cur = bytes16 (unit_byte op (operand ins 0)) ++ put16 (operand ins 1)
encode_as op f21c ins cur = bytes16 (unit_byte op (operand ins 0)) ++ put16 (operand ins 1)
encode_as op f31i ins cur = bytes16 (unit_byte op (operand ins 0)) ++ bytes32 (operand ins 1)
encode_as op f23x ins cur =
    bytes16 (unit_byte op (operand ins 0)) ++ bytes16 (unit_byte (operand ins 1) (operand ins 2))
encode_as op f22b ins cur =
    bytes16 (unit_byte op (operand ins 0))
    ++ bytes16 (unit_byte (operand ins 1) (operand ins 2 % 0x100))
encode_as op f22s ins cur =
    bytes16 (unit_nibbles op (operand ins 0) (operand ins 1 % 16)) ++ put16 (operand ins 2)
encode_as op f22c ins cur =
    bytes16 (unit_nibbles op (operand ins 0) (operand ins 1 % 16)) ++ put16 (operand ins 2)
encode_as op f22t ins cur =
    bytes16 (unit_nibbles op (operand ins 0) (operand ins 1 % 16))
    ++ put16 (distance (operand ins 2) cur)
encode_as op f21t ins cur =
    bytes16 (unit_byte op (operand ins 0)) ++ put16 (distance (operand ins 1) cur)
encode_as op f10t ins cur = bytes16 (unit_byte op (distance (operand ins 0) cur % 0x100))
encode_as op f20t ins cur = put16 op ++ put16 (distance (operand ins 0) cur)
encode_as op f30t ins cur = put16 op ++ bytes32 (distance (operand ins 0) cur)
encode_as op f35c ins cur =
    let r = λ (i : ℕ). get_or ins.regs i 0 % 16 in
    bytes16 (unit_nibbles op (r 4) (length ins.regs))
    ++ (put16 (operand ins 1)
        ++ put16 (bit_or (bit_or (bit_or (r 0) (r 1 * 2 ^ 4)) (r 2 * 2 ^ 8)) (r 3 * 2 ^ 12)))
encode_as op f3rc ins cur =
    bytes16 (unit_byte op (operand ins 1)) ++ (put16 (operand ins 2) ++ put16 (operand ins 0))
encode_as op f31c ins cur = bytes16 0

unfoldable pub md_encode : DalvikInstr → ℕ → Bytes
md_encode ins cur = elim (find ins.mnem md_ops) [
  | none ↦ bytes16 0
  | some o ↦ encode_as o.op o.fmt ins cur
]

-- The length of an instruction in units.
unfoldable pub width : DalvikInstr → ℕ
width ins = elim (find ins.mnem md_ops) [ none ↦ 1 | some o ↦ md_units o.fmt ]

-- `offs`, from the offset `u` on.
unfoldable pub offsets : ℕ → List DalvikInstr → List ℕ
offsets u [] = []
offsets u (ins ∷ rest) = u ∷ offsets (u + width ins) rest

-- The lambda `resolve`: the index of an instruction becomes its offset.
abbrev pub resolve_at : ℕ → List ℕ → DalvikInstr → DalvikInstr
resolve_at i offs ins = elim (get_elem? ins.ops i) [
  | none ↦ ins
  | some idx ↦ elim (get_elem? offs idx) [
    | none ↦ ins
    | some off ↦ record ins { ops = set ins.ops i off }
  ]
]

abbrev pub resolve_as : Fmt → List ℕ → DalvikInstr → DalvikInstr
resolve_as f10t offs ins = resolve_at 0 offs ins
resolve_as f20t offs ins = resolve_at 0 offs ins
resolve_as f30t offs ins = resolve_at 0 offs ins
resolve_as f21t offs ins = resolve_at 1 offs ins
resolve_as f22t offs ins = resolve_at 2 offs ins
resolve_as _ offs ins = ins

unfoldable pub resolve : List ℕ → DalvikInstr → DalvikInstr
resolve offs ins = elim (find ins.mnem md_ops) [ none ↦ ins | some o ↦ resolve_as o.fmt offs ins ]

-- The bytes of the instructions from offset `u` on.
unfoldable pub encode_all : List ℕ → ℕ → List DalvikInstr → Bytes
encode_all offs u [] = []
encode_all offs u (ins ∷ rest) =
    md_encode (resolve offs ins) u ++ encode_all offs (u + width ins) rest

unfoldable pub to_units : Bytes → List ℕ
to_units [] = []
to_units (a ∷ []) = a ∷ []
to_units (a ∷ b ∷ rest) = (a + 0x100 * b) ∷ to_units rest

unfoldable pub md_assemble : List DalvikInstr → List ℕ
md_assemble instrs = to_units (encode_all (offsets 0 instrs) 0 instrs)
