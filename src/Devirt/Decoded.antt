-- ===== src/Devirt/Decoded.antt =====
-- What the interpreter makes of an assembled branch.
use vardoger.Prelude.{
  ℕ, ◌+◌, ◌-◌, ◌*◌, ◌/◌, ◌%◌, ◌≤◌, ◌<◌, ◌≡◌, ◌≢◌, refl, sym, ap, ◌∙◌, none, some, List, [], ◌∷◌,
  ◌++◌, arith, length, length-append, get_elem?,
}
use vardoger.Prelude.Order.{Bytes, bytes_key}
use vardoger.Prelude.Map.{find}
use vardoger.Prelude.Splice.{byte_at}
use vardoger.Dex.{u32_mod}
use vardoger.Dalvik.Actions.{fetch, decode, branch, jump, off8, off16}
use vardoger.Devirt.Table.{Fmt, f10t, f21t, f22t, f20t, f30t, MdOp, md_units, md_ops}
use vardoger.Devirt.Encode.{
  DalvikInstr, distance, md_encode, width, offsets, resolve, to_units, md_assemble,
}
use vardoger.Devirt.Layout.{
  size, range_22t, range_21t, range_10t, range_20t, range_30t, md_assemble-at, width_known,
}
use vardoger.Devirt.Fetches.{Holds, get_elem?-behind}
use vardoger.Devirt.Fetches
use vardoger.Devirt.Codes

-- The units that stand in the file at the instruction `ins`.
module _ (front : List DalvikInstr) (ins : DalvikInstr) (back : List DalvikInstr) where
  abbrev pub offs : List ℕ
  offs = offsets 0 (front ++ ins ∷ back)

  abbrev pub here : ℕ
  here = size front

  -- The bytes of unit `k` of the instruction's code.
  unit_in_file :
      (d : Bytes) (base : ℕ) (code : List ℕ) (k v : ℕ)
      → Holds d base (md_assemble (front ++ ins ∷ back))
      → to_units (md_encode (resolve offs ins) here) ≡ code
      → ((rest : List ℕ) → get_elem? (code ++ rest) k ≡ some v)
      → (byte_at d (base + here + here + (k + k)) ≡ v % 0x100)
        × (byte_at d (base + here + here + (k + k) + 1) ≡ v / 0x100)
  unit_in_file d base code k v holds same at =
      let (before, behind, all, len, width', rest, target) = md_assemble-at front ins back in
      let found : get_elem? (md_assemble (front ++ ins ∷ back)) (here + k) ≡ some v =
        ap (λ (l : List ℕ). get_elem? l (here + k))
          (all ∙ ap (λ (c : List ℕ). before ++ (c ++ behind)) same)
        ∙ (ap (λ (i : ℕ). get_elem? (before ++ (code ++ behind)) (i + k)) (sym len)
            ∙ (get_elem?-behind before (code ++ behind) k ∙ at behind)) in
      let place : base + (here + k) + (here + k) ≡ base + here + here + (k + k) = omega arith in
      rw place at (holds.words (here + k) v found)

  -- There is room for the code of the instruction.
  pub room_in_file :
      (d : Bytes) (base : ℕ)
      → Holds d base (md_assemble (front ++ ins ∷ back))
      → base + 2 * (here + width ins) ≤ length d
  room_in_file d base holds =
      let (before, behind, all, len, width', rest, target) = md_assemble-at front ins back in
      omega (
        arith,
        holds.room,
        ap length all,
        length-append before (to_units (md_encode (resolve offs ins) here) ++ behind),
        length-append (to_units (md_encode (resolve offs ins) here)) behind,
      )

  module _ (d : Bytes) (base : ℕ) (holds : Holds d base (md_assemble (front ++ ins ∷ back)))
      (short : length d < u32_mod) where
    abbrev pub at : ℕ
    at = base + here + here

    -- What is fetched of the first unit, and at an instruction of two units and of three.
    pub fetched_first :
        (v : ℕ) (code : List ℕ)
        → to_units (md_encode (resolve offs ins) here) ≡ v ∷ code
        → at + 2 ≤ length d
        → ((fetch d at).op ≡ v % 0x100) × ((fetch d at).b1 ≡ v / 0x100)
    fetched_first v code units room =
        let (b0, b1) = unit_in_file d base (v ∷ code) 0 v holds units (λ rest. refl) in
        let same : at + 0 ≡ at = omega arith in
        Fetches.fetch_one d at short v room (rw same at b0) (rw same at b1)

    pub fetched_two :
        (v w : ℕ)
        → to_units (md_encode (resolve offs ins) here) ≡ v ∷ w ∷ []
        → at + 4 ≤ length d
        → ((fetch d at).op ≡ v % 0x100) × ((fetch d at).b1 ≡ v / 0x100) × ((fetch d at).w1 ≡ w)
    fetched_two v w units room =
        let (b0, b1) = unit_in_file d base (v ∷ w ∷ []) 0 v holds units (λ rest. refl) in
        let (b2, b3) = unit_in_file d base (v ∷ w ∷ []) 1 w holds units (λ rest. refl) in
        let same : at + 0 ≡ at = omega arith in
        let three : at + 2 + 1 ≡ at + 3 = omega arith in
        let (op, byte) =
          Fetches.fetch_one d at short v (omega arith) (rw same at b0) (rw same at b1) in
        (op, byte, Fetches.fetch_two d at short w room b2 (rw three at b3))

    fetched_three :
        (v w w' : ℕ)
        → to_units (md_encode (resolve offs ins) here) ≡ v ∷ w ∷ w' ∷ []
        → at + 6 ≤ length d
        → ((fetch d at).op ≡ v % 0x100) × ((fetch d at).d1 ≡ w + w' * 0x10000)
    fetched_three v w w' units room =
        let (b0, b1) = unit_in_file d base (v ∷ w ∷ w' ∷ []) 0 v holds units (λ rest. refl) in
        let (b2, b3) = unit_in_file d base (v ∷ w ∷ w' ∷ []) 1 w holds units (λ rest. refl) in
        let (b4, b5) = unit_in_file d base (v ∷ w ∷ w' ∷ []) 2 w' holds units (λ rest. refl) in
        let same : at + 0 ≡ at = omega arith in
        let three : at + 2 + 1 ≡ at + 3 = omega arith in
        let five : at + 4 + 1 ≡ at + 5 = omega arith in
        let (op, byte) =
          Fetches.fetch_one d at short v (omega arith) (rw same at b0) (rw same at b1) in
        (op, Fetches.fetch_three d at short w w' room b2 (rw three at b3) b4 (rw five at b5))

    module _ (o : MdOp) (known : find ins.mnem md_ops ≡ some o) (t there : ℕ)
        (target : get_elem? offs t ≡ some there) where
      units_known : (fmt : Fmt) → o.fmt ≡ fmt → base + 2 * (here + md_units fmt) ≤ length d
      units_known fmt same =
          omega (arith, room_in_file d base holds, width_known ins o known, ap md_units same)

      -- What the interpreter makes of the branch.
      pub decoded_22t :
          (a b : ℕ)
          → o.fmt ≡ f22t
          → ins.ops ≡ a ∷ b ∷ t ∷ []
          → a < 16
          → b < 16
          → decode (fetch d at)
            ≡ branch (o.op - 0x32) a (some b) (off16 (distance there here % 0x10000))
      unfolding md_units
      decoded_22t a b same ops fa fb =
          let (low, high) = range_22t ins.mnem o known same in
          let units =
            Codes.code_22t offs ins o known here t there target a b same ops fa fb (omega arith) in
          let (op, b1, w1) = fetched_two _ _ units (omega (arith, units_known f22t same)) in
          let op' : (fetch d at).op ≡ o.op = omega arith in
          let first : (fetch d at).b1 % 16 ≡ a = omega arith in
          let second : (fetch d at).b1 / 16 ≡ b = omega arith in
          Fetches.decode_22t (fetch d at) (omega arith) (omega arith) ∙ rw (op', first, second, w1)

      pub decoded_21t :
          (a : ℕ)
          → o.fmt ≡ f21t
          → ins.ops ≡ a ∷ t ∷ []
          → a < 0x100
          → decode (fetch d at)
            ≡ branch (o.op - 0x38) a none (off16 (distance there here % 0x10000))
      unfolding md_units
      decoded_21t a same ops fa =
          let (low, high) = range_21t ins.mnem o known same in
          let units =
            Codes.code_21t offs ins o known here t there target a same ops fa (omega arith) in
          let (op, b1, w1) = fetched_two _ _ units (omega (arith, units_known f21t same)) in
          let op' : (fetch d at).op ≡ o.op = omega arith in
          let first : (fetch d at).b1 ≡ a = omega arith in
          Fetches.decode_21t (fetch d at) (omega arith) (omega arith) ∙ rw (op', first, w1)

      pub decoded_10t :
          o.fmt ≡ f10t
          → ins.ops ≡ t ∷ []
          → distance there here % 0x100 ≢ 0
          → decode (fetch d at) ≡ jump (off8 (distance there here % 0x100)) 0
      unfolding md_units
      decoded_10t same ops moved =
          let range = range_10t ins.mnem o known same in
          let units = Codes.code_10t offs ins o known here t there target same ops (omega arith) in
          let (op, b1) = fetched_first _ [] units (omega (arith, units_known f10t same)) in
          let off : (fetch d at).b1 ≡ distance there here % 0x100 = omega arith in
          Fetches.decode_goto (fetch d at) (omega arith) (rw off moved) ∙ rw off

      pub decoded_20t :
          o.fmt ≡ f20t
          → ins.ops ≡ t ∷ []
          → decode (fetch d at) ≡ jump (off16 (distance there here % 0x10000)) 2
      unfolding md_units
      decoded_20t same ops =
          let range = range_20t ins.mnem o known same in
          let units = Codes.code_20t offs ins o known here t there target same ops (omega arith) in
          let (op, b1, w1) = fetched_two _ _ units (omega (arith, units_known f20t same)) in
          Fetches.decode_goto16 (fetch d at) (omega arith) ∙ rw w1

      pub decoded_30t :
          o.fmt ≡ f30t
          → ins.ops ≡ t ∷ []
          → decode (fetch d at) ≡ jump (distance there here % u32_mod) 3
      unfolding md_units
      decoded_30t same ops =
          let range = range_30t ins.mnem o known same in
          let units = Codes.code_30t offs ins o known here t there target same ops (omega arith) in
          let (op, d1) = fetched_three _ _ _ units (omega (arith, units_known f30t same)) in
          let off : (fetch d at).d1 ≡ distance there here % u32_mod = omega arith in
          Fetches.decode_goto32 (fetch d at) (omega arith) ∙ rw off
