-- ===== src/Devirt/Layout.antt =====
-- Where the assembled code of each instruction stands.
use vardoger.Prelude.{
  ℕ, zero, suc, ◌+◌, ◌*◌, ◌≤◌, ◌≡◌, refl, sym, ap, ◌∙◌, Bool, true, false, ◌&&◌, inl, inr, none,
  some, List, [], ◌∷◌, ◌++◌, arith, ltb, leb, length, length-append, append_assoc, get_elem?,
  Option-cases, ◌≢◌,
}
use vardoger.Prelude.Order.{Bytes, bytes_key}
use vardoger.Prelude.Map.{find, every_value, every_value-find}
use vardoger.Devirt.Table.{Fmt, f10x, f10t, f21t, f22t, f20t, f31c, f30t, MdOp, md_units, md_ops}
use vardoger.Devirt.Encode.{
  DalvikInstr, encode_as, md_encode, width, offsets, resolve_at, resolve_as, resolve, encode_all,
  to_units, md_assemble,
}

-- The opcodes of a format: a byte, and in the ranges of the interpreter's branches.
abbrev in_range : MdOp → Bool
in_range o = elim o.fmt [
  | f22t ↦ leb 0x32 o.op && leb o.op 0x37
  | f21t ↦ leb 0x38 o.op && leb o.op 0x3D
  | f10t ↦ leb 0x28 o.op && leb o.op 0x28
  | f20t ↦ leb 0x29 o.op && leb o.op 0x29
  | f30t ↦ leb 0x2A o.op && leb o.op 0x2A
  | f31c ↦ false
  | _ ↦ ltb o.op 0x100
]

table_ranges : every_value in_range md_ops ≡ true
unfolding every_value md_ops
table_ranges = refl

pub md_ops_ranges : (name : Bytes) (o : MdOp) → find name md_ops ≡ some o → in_range o ≡ true
md_ops_ranges name o = every_value-find in_range name o md_ops table_ranges

module _ (name : Bytes) (o : MdOp) (known : find name md_ops ≡ some o) where
  pub range_22t : o.fmt ≡ f22t → (0x32 ≤ o.op) × (o.op ≤ 0x37)
  range_22t same = ground (arith, md_ops_ranges name o known)

  pub range_21t : o.fmt ≡ f21t → (0x38 ≤ o.op) × (o.op ≤ 0x3D)
  range_21t same = ground (arith, md_ops_ranges name o known)

  pub range_10t : o.fmt ≡ f10t → o.op ≡ 0x28
  range_10t same = ground (arith, md_ops_ranges name o known)

  pub range_20t : o.fmt ≡ f20t → o.op ≡ 0x29
  range_20t same = ground (arith, md_ops_ranges name o known)

  pub range_30t : o.fmt ≡ f30t → o.op ≡ 0x2A
  range_30t same = ground (arith, md_ops_ranges name o known)

-- Each format but 31c, which no instruction has, is encoded in as many units as md_units says.
length-encode_as :
    (op : ℕ) (fmt : Fmt) (ins : DalvikInstr) (cur : ℕ)
    → fmt ≢ f31c
    → length (encode_as op fmt ins cur) ≡ md_units fmt * 2
unfolding encode_as md_units
length-encode_as op f10x ins cur h = refl
length-encode_as op f31c ins cur h = absurd (h refl)
length-encode_as op _ ins cur h = refl

-- An instruction of the table, and one that it does not have.
pub md_encode_known :
    (ins : DalvikInstr) (cur : ℕ) (o : MdOp)
    → find ins.mnem md_ops ≡ some o
    → md_encode ins cur ≡ encode_as o.op o.fmt ins cur
unfolding md_encode
md_encode_known ins cur o known = rw (known, md_encode)

pub width_known :
    (ins : DalvikInstr) (o : MdOp) → find ins.mnem md_ops ≡ some o → width ins ≡ md_units o.fmt
unfolding width
width_known ins o known = rw (known, width)

width_unknown : (ins : DalvikInstr) → find ins.mnem md_ops ≡ none → width ins ≡ 1
unfolding width
width_unknown ins unknown = rw (unknown, width)

length-md_encode : (ins : DalvikInstr) (cur : ℕ) → length (md_encode ins cur) ≡ width ins * 2
unfolding md_encode
length-md_encode ins cur = elim (Option-cases (find ins.mnem md_ops)) [
  | inl unknown ↦ rw (unknown, length) (omega (arith, width_unknown ins unknown))
  | inr (o, known) ↦
      ap length (md_encode_known ins cur o known)
      ∙ (length-encode_as o.op o.fmt ins cur (λ e. ground (arith, md_ops_ranges ins.mnem o known))
          ∙ omega (arith, width_known ins o known))
]

mnem-resolve_at :
    (i : ℕ) (offs : List ℕ) (ins : DalvikInstr) → (resolve_at i offs ins).mnem ≡ ins.mnem
mnem-resolve_at i offs ins = ground arith

mnem-resolve_as :
    (fmt : Fmt) (offs : List ℕ) (ins : DalvikInstr) → (resolve_as fmt offs ins).mnem ≡ ins.mnem
mnem-resolve_as f10t offs ins = mnem-resolve_at 0 offs ins
mnem-resolve_as f20t offs ins = mnem-resolve_at 0 offs ins
mnem-resolve_as f30t offs ins = mnem-resolve_at 0 offs ins
mnem-resolve_as f21t offs ins = mnem-resolve_at 1 offs ins
mnem-resolve_as f22t offs ins = mnem-resolve_at 2 offs ins
mnem-resolve_as _ offs ins = refl

mnem-resolve : (offs : List ℕ) (ins : DalvikInstr) → (resolve offs ins).mnem ≡ ins.mnem
unfolding resolve
mnem-resolve offs ins = elim (Option-cases (find ins.mnem md_ops)) [
  | inl unknown ↦ rw (unknown, resolve)
  | inr (o, known) ↦ rw (known, resolve) (mnem-resolve_as o.fmt offs ins)
]

length-resolved :
    (offs : List ℕ) (ins : DalvikInstr) (cur : ℕ)
    → length (md_encode (resolve offs ins) cur) ≡ width ins * 2
unfolding width
length-resolved offs ins cur = length-md_encode (resolve offs ins) cur ∙ rw (mnem-resolve offs ins)

-- The length of a list of instructions in units.
abbrev pub size : List DalvikInstr → ℕ
size [] = 0
size (ins ∷ rest) = width ins + size rest

pub offsets-at :
    (u : ℕ) (front : List DalvikInstr) (ins : DalvikInstr) (back : List DalvikInstr)
    → get_elem? (offsets u (front ++ ins ∷ back)) (length front) ≡ some (u + size front)
unfolding offsets
offsets-at u [] ins back = ground arith
offsets-at u (first ∷ front) ins back =
    offsets-at (u + width first) front ins back ∙ ap some (omega arith)

encode_all-append :
    (offs : List ℕ) (u : ℕ) (front rest : List DalvikInstr)
    → encode_all offs u (front ++ rest)
      ≡ encode_all offs u front ++ encode_all offs (u + size front) rest
unfolding encode_all
encode_all-append offs u [] rest =
    ap (λ (k : ℕ). encode_all offs k rest) {x = u} {y = u + 0} (omega arith)
encode_all-append offs u (first ∷ front) rest =
    let there : u + width first + size front ≡ u + (width first + size front) = omega arith in
    rw (encode_all-append offs (u + width first) front rest, there)
      (sym (append_assoc (md_encode (resolve offs first) u) _ _))

length-encode_all :
    (offs : List ℕ) (u : ℕ) (instrs : List DalvikInstr)
    → length (encode_all offs u instrs) ≡ size instrs * 2
unfolding encode_all
length-encode_all offs u [] = refl
length-encode_all offs u (first ∷ rest) = omega (
  arith,
  length-append (md_encode (resolve offs first) u) (encode_all offs (u + width first) rest),
  length-resolved offs first u,
  length-encode_all offs (u + width first) rest,
)

to_units-append :
    (k : ℕ) (a b : Bytes) → length a ≡ k * 2 → to_units (a ++ b) ≡ to_units a ++ to_units b
unfolding to_units
to_units-append k [] b e = refl
to_units-append k (x ∷ []) b e = absurd (omega arith)
to_units-append zero (x ∷ y ∷ a) b e = absurd (omega arith)
to_units-append (suc k) (x ∷ y ∷ a) b e =
    ap (◌∷◌ (x + 0x100 * y)) (to_units-append k a b (omega arith))

length-to_units : (k : ℕ) (a : Bytes) → length a ≡ k * 2 → length (to_units a) ≡ k
unfolding to_units
length-to_units zero [] e = refl
length-to_units (suc k) [] e = absurd (omega arith)
length-to_units k (x ∷ []) e = absurd (omega arith)
length-to_units zero (x ∷ y ∷ a) e = absurd (omega arith)
length-to_units (suc k) (x ∷ y ∷ a) e = ap suc (length-to_units k a (omega arith))

pub length-md_assemble : (instrs : List DalvikInstr) → length (md_assemble instrs) ≡ size instrs
unfolding md_assemble
length-md_assemble instrs =
    length-to_units (size instrs) (encode_all (offsets 0 instrs) 0 instrs)
      (length-encode_all (offsets 0 instrs) 0 instrs)

-- The code of an instruction, of as many units as its format says, stands at the offset that the
-- branches to it are given, which is the length of the instructions before it.
pub md_assemble-at :
    (front : List DalvikInstr) (ins : DalvikInstr) (back : List DalvikInstr)
    → let offs = offsets 0 (front ++ ins ∷ back) in
      let code = to_units (md_encode (resolve offs ins) (size front)) in
      (before : List ℕ) × (behind : List ℕ) × (md_assemble (front ++ ins ∷ back)
        ≡ before ++ (code ++ behind))
      × (length before ≡ size front)
      × (length code ≡ width ins)
      × (length behind ≡ size back)
      × (get_elem? offs (length front) ≡ some (size front))
unfolding md_assemble encode_all
md_assemble-at front ins back =
    let offs = offsets 0 (front ++ ins ∷ back) in
    let here = md_encode (resolve offs ins) (size front) in
    let rest = encode_all offs (size front + width ins) back in
    (
      to_units (encode_all offs 0 front),
      to_units rest,
      ap to_units (
            encode_all-append offs 0 front (ins ∷ back)
            ∙ ap (λ (k : ℕ). encode_all offs 0 front ++ encode_all offs k (ins ∷ back))
                {x = 0 + size front} {y = size front} (omega arith))
          ∙ (to_units-append (size front) (encode_all offs 0 front) _
                (length-encode_all offs 0 front)
              ∙ ap (◌++◌ (to_units (encode_all offs 0 front)))
                  (to_units-append (width ins) here rest (length-resolved offs ins (size front)))),
      length-to_units (size front) _ (length-encode_all offs 0 front),
      length-to_units (width ins) here (length-resolved offs ins (size front)),
      length-to_units (size back) rest (length-encode_all offs _ back),
      offsets-at 0 front ins back ∙ ap some (omega arith),
    )
