-- ===== src/Devirt/Landing.antt =====
-- The interpreter on assembled code: a branch goes to the instruction that its operand names.
use vardoger.Prelude.{
  ℕ, ◌+◌, ◌-◌, ◌%◌, ◌≤◌, ◌<◌, ◌≡◌, ◌≢◌, refl, ap, ◌∙◌, Bool, true, false, not, ◌&&◌, some, List, [],
  ◌∷◌, ◌++◌, arith, ◌==◌, if◌then◌else◌, length, length-append, get_elem?,
}
use vardoger.Prelude.Order.{Bytes, bytes_key}
use vardoger.Prelude.Map.{find}
use vardoger.Dex.{u32_mod}
use vardoger.Dex.File.{Code}
use vardoger.Dalvik.Actions.{fetch, Action, decode}
use vardoger.Dalvik.Machine.{Machine, Host, Frame, Outcome, next, perform, step}
use vardoger.Devirt.Table.{
  Fmt, f10x, f11x, f11n, f12x, f10t, f22x, f21s, f21h, f21c, f21t, f23x, f22b, f22s, f22c, f22t,
  f20t, f31i, f31c, f30t, f35c, f3rc, MdOp, md_units, md_ops,
}
use vardoger.Devirt.Encode.{DalvikInstr, md_encode, width, offsets, resolve, to_units, md_assemble}
use vardoger.Devirt.Layout.{size, md_assemble-at, width_known}
use vardoger.Devirt.Fetches.{Holds, get_elem?-behind}
use vardoger.Devirt.Fetches
use vardoger.Devirt.Decoded
use vardoger.Devirt.Jumps.{step_at, perform_two, perform_one, perform_jump}
use vardoger.Devirt.Branching.{Branches, offsets-le, size-append, md_units_pos}

-- Where a branch of two units goes on.
landed :
    (pc off there : ℕ) (test taken : Bool)
    → test ≡ taken
    → (off == 0) ≡ false
    → (pc + off) % u32_mod ≡ there
    → pc + 2 < u32_mod
    → (pc + (if test && not (off == 0) then off else 2)) % u32_mod
      ≡ (if taken then there else pc + 2)
landed pc off there test taken same moved arrives small = ground arith

jumped :
    (pc off fall there : ℕ) (taken : Bool) (behind : ℕ)
    → taken ≡ true
    → (off == 0) ≡ false
    → (pc + off) % u32_mod ≡ there
    → (pc + (if off == 0 then fall else off)) % u32_mod ≡ (if taken then there else behind)
jumped pc off fall there taken behind same moved arrives = ground arith

module _ {ℓ} {E : Type ℓ} (h : Host E) (f : Frame) (m : Machine E) (d : Bytes) (code : Code)
    (front : List DalvikInstr) (ins : DalvikInstr) (back : List DalvikInstr)
    (holds : Holds d code.insns_off (md_assemble (front ++ ins ∷ back)))
    (short : length d < u32_mod) (at_ins : f.pc ≡ size front) (o : MdOp)
    (known : find ins.mnem md_ops ≡ some o) (t there : ℕ)
    (target : get_elem? (offsets 0 (front ++ ins ∷ back)) t ≡ some there)
    (moved : there ≢ size front) where
  -- Every offset lies in the first half of the 32-bit numbers.
  bounds : (there < 0x80000000) × (size front + width ins < 0x80000000)
  bounds =
      let (before, behind, all, len, width', rest, place) = md_assemble-at front ins back in
      omega (
        arith,
        holds.room,
        ap length all,
        length-append before (
            to_units (md_encode (resolve (offsets 0 (front ++ ins ∷ back)) ins) (size front))
            ++ behind),
        length-append
            (to_units (md_encode (resolve (offsets 0 (front ++ ins ∷ back)) ins) (size front)))
            behind,
        offsets-le 0 (front ++ ins ∷ back) t there target,
        size-append front (ins ∷ back),
      )

  -- The round at the instruction, once it is known what it stands for.
  round :
      (a : Action)
      → decode (fetch d (code.insns_off + size front + size front)) ≡ a
      → step h d code f m ≡ perform h f m a
  round a decoded =
      let room = Decoded.room_in_file front ins back d code.insns_off holds in
      let (small, small') = bounds in
      let at : code.insns_off + f.pc + f.pc ≡ code.insns_off + size front + size front =
        omega arith in
      step_at h f m d code _ at (omega (arith, width_known ins o known, md_units_pos o.fmt)) short
      ∙ ap (perform h f m) decoded

  move :
      (pc pc' : ℕ)
      → pc ≡ pc'
      → ◌≡◌ {A = Outcome E} (next (record f { pc = pc }) m) (next (record f { pc = pc' }) m)
  move pc pc' e = ap (λ (x : ℕ). next (record f { pc = x }) m) e

  lands :
      (fmt : Fmt) (taken : Bool) (reach : ℕ)
      → o.fmt ≡ fmt
      → Branches fmt o.op f.regs ins.ops t taken reach
      → there < size front + reach
      → size front ≤ there + reach
      → step h d code f m
        ≡ next (record f { pc = if taken then there else size front + width ins }) m
  unfolding md_units
  lands f22t taken reach same (a, b, x, y, ops, fa, fb, ex, ey, test, far) near near' =
      let (small, small') = bounds in
      let (arrives, nonzero) =
        Fetches.land16 (size front) there (omega arith) small moved (omega arith) (omega arith) in
      let two : size front + width ins ≡ f.pc + 2 =
        omega (arith, width_known ins o known, ap md_units same) in
      round _ (
        Decoded.decoded_22t front ins back d code.insns_off holds short o known t there target a b
          same ops fa fb)
      ∙ (perform_two h f m _ a b x y _ ex ey
          ∙ move _ _
              (rw two (landed f.pc _ there _ taken test nonzero (rw at_ins arrives) (omega arith))))
  lands f21t taken reach same (a, x, ops, fa, ex, test, far) near near' =
      let (small, small') = bounds in
      let (arrives, nonzero) =
        Fetches.land16 (size front) there (omega arith) small moved (omega arith) (omega arith) in
      let two : size front + width ins ≡ f.pc + 2 =
        omega (arith, width_known ins o known, ap md_units same) in
      round _ (
        Decoded.decoded_21t front ins back d code.insns_off holds short o known t there target a
          same ops fa)
      ∙ (perform_one h f m _ a x _ ex
          ∙ move _ _
              (rw two (landed f.pc _ there _ taken test nonzero (rw at_ins arrives) (omega arith))))
  lands f10t taken reach same (ops, sure, far) near near' =
      let (small, small') = bounds in
      let (arrives, nonzero) =
        Fetches.land8 (size front) there (omega arith) small moved (omega arith) (omega arith) in
      round _ (
        Decoded.decoded_10t front ins back d code.insns_off holds short o known t there target same
          ops (omega arith))
      ∙ (perform_jump h f m _ 0
          ∙ move _ _ (
              jumped f.pc _ 0 there taken (size front + width ins) sure nonzero
                (rw at_ins arrives)))
  lands f20t taken reach same (ops, sure, far) near near' =
      let (small, small') = bounds in
      let (arrives, nonzero) =
        Fetches.land16 (size front) there (omega arith) small moved (omega arith) (omega arith) in
      round _ (
        Decoded.decoded_20t front ins back d code.insns_off holds short o known t there target same
          ops)
      ∙ (perform_jump h f m _ 2
          ∙ move _ _ (
              jumped f.pc _ 2 there taken (size front + width ins) sure nonzero
                (rw at_ins arrives)))
  lands f30t taken reach same (ops, sure, far) near near' =
      let (small, small') = bounds in
      let (arrives, nonzero) = Fetches.land32 (size front) there (omega arith) small moved in
      round _ (
        Decoded.decoded_30t front ins back d code.insns_off holds short o known t there target same
          ops)
      ∙ (perform_jump h f m _ 3
          ∙ move _ _ (
              jumped f.pc _ 3 there taken (size front + width ins) sure nonzero
                (rw at_ins arrives)))
  lands f10x taken reach same other near near' = absurd other
  lands f11x taken reach same other near near' = absurd other
  lands f11n taken reach same other near near' = absurd other
  lands f12x taken reach same other near near' = absurd other
  lands f22x taken reach same other near near' = absurd other
  lands f21s taken reach same other near near' = absurd other
  lands f21h taken reach same other near near' = absurd other
  lands f21c taken reach same other near near' = absurd other
  lands f23x taken reach same other near near' = absurd other
  lands f22b taken reach same other near near' = absurd other
  lands f22s taken reach same other near near' = absurd other
  lands f22c taken reach same other near near' = absurd other
  lands f31i taken reach same other near near' = absurd other
  lands f31c taken reach same other near near' = absurd other
  lands f35c taken reach same other near near' = absurd other
  lands f3rc taken reach same other near near' = absurd other

-- A goto of the assembler, which keeps 8 bits of the distance, to an instruction 128 to 255 units
-- further on leads the interpreter 256 units before it, on 32 bits.
pub goto_wraps {ℓ} :
    {E : Type ℓ} (h : Host E) (f : Frame) (m : Machine E) (d : Bytes) (code : Code)
    (front : List DalvikInstr) (ins : DalvikInstr) (back : List DalvikInstr) (o : MdOp)
    (t there : ℕ)
    → length d < u32_mod
    → Holds d code.insns_off (md_assemble (front ++ ins ∷ back))
    → f.pc ≡ size front
    → find ins.mnem md_ops ≡ some o
    → o.fmt ≡ f10t
    → ins.ops ≡ t ∷ []
    → get_elem? (offsets 0 (front ++ ins ∷ back)) t ≡ some there
    → size front + 0x80 ≤ there
    → there < size front + 0x100
    → step h d code f m ≡ next (record f { pc = (there + (u32_mod - 0x100)) % u32_mod }) m
goto_wraps h f m d code front ins back o t there short holds at_ins known same ops target far near =
    let moved : there ≢ size front = omega arith in
    let (small, small') =
      bounds h f m d code front ins back holds short at_ins o known t there target moved in
    let (arrives, nonzero) = Fetches.wrap8 (size front) there (omega arith) small far near in
    round h f m d code front ins back holds short at_ins o known t there target moved _ (
      Decoded.decoded_10t front ins back d code.insns_off holds short o known t there target same
        ops (omega arith))
    ∙ (perform_jump h f m _ 0
        ∙ move h f m d code front ins back holds short at_ins o known t there target moved _ _
            (rw nonzero (rw at_ins arrives)))

-- Where a file shorter than 4 GiB holds assembled code, the interpreter takes a branch of it to the
-- instruction whose index is the branch's operand, and otherwise goes on behind it: for if-* on two
-- registers and on one, goto, goto/16 and goto/32, whose registers fit the format, to another place
-- that the offset of the format reaches.
pub branch_lands {ℓ} :
    {E : Type ℓ} (h : Host E) (f : Frame) (m : Machine E) (d : Bytes) (code : Code)
    (front : List DalvikInstr) (ins : DalvikInstr) (back : List DalvikInstr) (o : MdOp)
    (t there reach : ℕ) (taken : Bool)
    → length d < u32_mod
    → Holds d code.insns_off (md_assemble (front ++ ins ∷ back))
    → f.pc ≡ size front
    → find ins.mnem md_ops ≡ some o
    → Branches o.fmt o.op f.regs ins.ops t taken reach
    → get_elem? (offsets 0 (front ++ ins ∷ back)) t ≡ some there
    → there ≢ size front
    → there < size front + reach
    → size front ≤ there + reach
    → step h d code f m ≡ next (record f { pc = if taken then there else size front + width ins }) m
branch_lands h f m d code front ins back o t there reach taken short holds at_ins known branches
      target moved near near' =
    lands h f m d code front ins back holds short at_ins o known t there target moved o.fmt taken
      reach refl branches near near'
