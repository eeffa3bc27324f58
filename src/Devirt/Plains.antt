-- ===== src/Devirt/Plains.antt =====
-- What the interpreter makes of a sound instruction that is no branch, where a file holds its code.
use vardoger.Prelude.{
  ℕ, ◌+◌, ◌*◌, ◌/◌, ◌%◌, ◌≤◌, ◌<◌, ◌≡◌, refl, ap, ◌∙◌, Bool, true, false, some, List, [], ◌∷◌, ◌++◌,
  arith, length,
}
use vardoger.Prelude.Order.{Bytes, bytes_key}
use vardoger.Prelude.Map.{find}
use vardoger.Dex.{u32_mod, bytes16}
use vardoger.Dalvik.Actions.{fetch, decode}
use vardoger.Dalvik.Plain.{Plain}
use vardoger.Devirt.Table.{
  Fmt, f10x, f11x, f11n, f12x, f10t, f22x, f21s, f21h, f21c, f21t, f23x, f22b, f22s, f22c, f22t,
  f20t, f31i, f31c, f30t, f35c, f3rc, MdOp, md_units, md_ops,
}
use vardoger.Devirt.Encode.{
  DalvikInstr, operand, unit_byte, unit_nibbles, encode_as, md_encode, width, offsets, resolve_as,
  resolve, to_units, md_assemble,
}
use vardoger.Devirt.Layout.{size, md_encode_known, width_known}
use vardoger.Devirt.Fetches.{Holds, first_byte, first_nibbles}
use vardoger.Devirt.Decoded
use vardoger.Devirt.Known.{Operands, made}
use vardoger.Devirt.Meanings

abbrev pub is_branch : Fmt → Bool
is_branch f22t = true
is_branch f21t = true
is_branch f10t = true
is_branch f20t = true
is_branch f30t = true
is_branch _ = false

resolve_kept :
    (fmt : Fmt) (offs : List ℕ) (ins : DalvikInstr)
    → is_branch fmt ≡ false
    → resolve_as fmt offs ins ≡ ins
resolve_kept f10x offs ins e = refl
resolve_kept f10t offs ins e = absurd (cc)
resolve_kept f20t offs ins e = absurd (cc)
resolve_kept f30t offs ins e = absurd (cc)
resolve_kept f21t offs ins e = absurd (cc)
resolve_kept f22t offs ins e = absurd (cc)
resolve_kept _ offs ins e = refl

-- The code of an instruction that is no branch.
code_kept :
    (offs : List ℕ) (ins : DalvikInstr) (here : ℕ) (o : MdOp) (fmt : Fmt)
    → find ins.mnem md_ops ≡ some o
    → o.fmt ≡ fmt
    → is_branch fmt ≡ false
    → md_encode (resolve offs ins) here ≡ encode_as o.op fmt ins here
unfolding resolve
code_kept offs ins here o fmt known same plain =
    let kept : resolve offs ins ≡ ins =
      rw (known, resolve)
        (ap (λ (x : Fmt). resolve_as x offs ins) same ∙ resolve_kept fmt offs ins plain) in
    ap (λ (x : DalvikInstr). md_encode x here) kept
    ∙ (md_encode_known ins here o known ∙ ap (λ (x : Fmt). encode_as o.op x ins here) same)

module _ (n : ℕ) (enough : 16 ≤ n) (front : List DalvikInstr) (ins : DalvikInstr)
    (back : List DalvikInstr) (d : Bytes) (base : ℕ)
    (holds : Holds d base (md_assemble (front ++ ins ∷ back))) (short : length d < u32_mod)
    (o : MdOp) (known : find ins.mnem md_ops ≡ some o) where
  abbrev at : ℕ
  at = base + size front + size front

  abbrev offs : List ℕ
  offs = offsets 0 (front ++ ins ∷ back)

  room_of : (fmt : Fmt) → o.fmt ≡ fmt → base + 2 * (size front + md_units fmt) ≤ length d
  room_of fmt same = omega (
    arith,
    Decoded.room_in_file front ins back d base holds,
    width_known ins o known,
    ap md_units same,
  )

  -- The opcode and the byte behind it, from the first unit.
  first :
      (fmt : Fmt) (v b : ℕ) (rest : Bytes)
      → o.fmt ≡ fmt
      → is_branch fmt ≡ false
      → at + 2 ≤ length d
      → o.op < 0x100
      → b < 0x100
      → encode_as o.op fmt ins (size front) ≡ bytes16 v ++ rest
      → v ≡ o.op + b * 0x100
      → ((fetch d at).op ≡ o.op) × ((fetch d at).b1 ≡ b)
  unfolding to_units
  first fmt v b rest same plain room small small' bytes unit =
      let (op, b1) =
        Decoded.fetched_first front ins back d base holds short v (to_units rest)
          (ap to_units (code_kept offs ins (size front) o fmt known same plain ∙ bytes)
            ∙ ap (λ (x : ℕ). x ∷ to_units rest)
                (let e : v % 0x100 + 0x100 * (v / 0x100 % 0x100) ≡ v = omega arith in e))
          room in
      (omega arith, omega arith)

  byte_first :
      (fmt : Fmt) (a : ℕ) (rest : Bytes)
      → o.fmt ≡ fmt
      → is_branch fmt ≡ false
      → at + 2 ≤ length d
      → o.op < 0x100
      → a < 16
      → encode_as o.op fmt ins (size front) ≡ bytes16 (unit_byte o.op a) ++ rest
      → ((fetch d at).op ≡ o.op) × ((fetch d at).b1 ≡ a)
  byte_first fmt a rest same plain room small low bytes =
      first fmt (unit_byte o.op a) a rest same plain room small (omega arith) bytes
        (first_byte o.op a small (omega arith))

  nibbles_first :
      (fmt : Fmt) (a b : ℕ) (rest : Bytes)
      → o.fmt ≡ fmt
      → is_branch fmt ≡ false
      → at + 2 ≤ length d
      → o.op < 0x100
      → b < 16
      → encode_as o.op fmt ins (size front) ≡ bytes16 (unit_nibbles o.op a b) ++ rest
      → ((fetch d at).op ≡ o.op) × ((fetch d at).b1 ≡ a % 16 + b * 16)
  nibbles_first fmt a b rest same plain room small low bytes =
      first fmt (unit_nibbles o.op a b) (a % 16 + b * 16) rest same plain room small (omega arith)
        bytes (omega (arith, first_nibbles o.op a b small low))

  second_23x :
      o.fmt ≡ f23x
      → is_branch f23x ≡ false
      → at + 4 ≤ length d
      → operand ins 1 < 16
      → operand ins 2 < 16
      → (fetch d at).w1 ≡ operand ins 1 + operand ins 2 * 0x100
  unfolding to_units encode_as
  second_23x same plain room small small' =
      let (op, b1, w1) =
        Decoded.fetched_two front ins back d base holds short _ _
          (ap to_units (code_kept offs ins (size front) o f23x known same plain)) room in
      omega (arith, w1, first_byte (operand ins 1) (operand ins 2) (omega arith) (omega arith))

  by_format :
      (count i : ℕ) (fmt : Fmt)
      → o.fmt ≡ fmt
      → is_branch fmt ≡ false
      → made (record { op = o.op; fmt = fmt }) ≡ true
      → Operands fmt count i ins
      → Plain n (md_units fmt) (decode (fetch d at))
  unfolding md_units encode_as
  by_format count i f10x same plain e operands =
      let room = room_of f10x same in
      let (op, b1) =
        first f10x o.op 0 [] same plain (omega arith) (ground arith) (omega arith) (ground arith)
          (omega arith) in
      Meanings.means_10x n enough (fetch d at) (rw op e)
  by_format count i f11x same plain e small =
      let room = room_of f11x same in
      let (op, b1) = byte_first f11x _ _ same plain (omega arith) (ground arith) small refl in
      Meanings.means_11x n enough (fetch d at) (rw op e) (omega arith)
  by_format count i f11n same plain e small =
      let room = room_of f11n same in
      let (op, b1) =
        nibbles_first f11n _ _ _ same plain (omega arith) (ground arith) (omega arith) refl in
      Meanings.means_11n n enough (fetch d at) (rw op e)
  by_format count i f12x same plain e small =
      let room = room_of f12x same in
      let (op, b1) =
        nibbles_first f12x _ _ _ same plain (omega arith) (ground arith) (omega arith) refl in
      Meanings.means_12x n enough (fetch d at) (rw op e) (omega arith)
  by_format count i f21s same plain e small =
      let room = room_of f21s same in
      let (op, b1) = byte_first f21s _ _ same plain (omega arith) (ground arith) small refl in
      Meanings.means_21s n enough (fetch d at) (rw op e) (omega arith)
  by_format count i f21c same plain e small =
      let room = room_of f21c same in
      let (op, b1) = byte_first f21c _ _ same plain (omega arith) (ground arith) small refl in
      Meanings.means_21c n enough (fetch d at) (rw op e) (omega arith)
  by_format count i f31i same plain e small =
      let room = room_of f31i same in
      let (op, b1) = byte_first f31i _ _ same plain (omega arith) (ground arith) small refl in
      Meanings.means_31i n enough (fetch d at) (rw op e) (omega arith)
  by_format count i f22c same plain e small =
      let room = room_of f22c same in
      let (op, b1) =
        nibbles_first f22c _ _ _ same plain (omega arith) (ground arith) (omega arith) refl in
      Meanings.means_22c n enough (fetch d at) (rw op e) (omega arith)
  by_format count i f35c same plain e (small, few) =
      let room = room_of f35c same in
      let (op, b1) =
        nibbles_first f35c _ _ _ same plain (omega arith) (ground arith) (omega arith) refl in
      Meanings.means_35c n enough (fetch d at) (rw op e) (omega arith)
  by_format count i f23x same plain e (small, small', small'') =
      let room = room_of f23x same in
      let (op, b1) = byte_first f23x _ _ same plain (omega arith) (ground arith) small refl in
      let w1 = second_23x same plain (omega arith) small' small'' in
      Meanings.means_23x n enough (fetch d at) (rw op e) (omega arith) (omega arith) (omega arith)
  by_format count i f22t same plain e operands = absurd (cc)
  by_format count i f21t same plain e operands = absurd (cc)
  by_format count i f10t same plain e operands = absurd (cc)
  by_format count i f20t same plain e operands = absurd (cc)
  by_format count i f30t same plain e operands = absurd (cc)
  by_format count i f22x same plain e operands = absurd operands
  by_format count i f21h same plain e operands = absurd operands
  by_format count i f22b same plain e operands = absurd operands
  by_format count i f22s same plain e operands = absurd operands
  by_format count i f31c same plain e operands = absurd operands
  by_format count i f3rc same plain e operands = absurd operands

  -- A sound instruction that is no branch.
  pub sound-Plain :
      (count i : ℕ)
      → made o ≡ true
      → Operands o.fmt count i ins
      → is_branch o.fmt ≡ false
      → Plain n (width ins) (decode (fetch d at))
  sound-Plain count i e operands plain =
      rw (width_known ins o known) (by_format count i o.fmt refl plain e operands)
