-- ===== src/Devirt/Walks.antt =====
-- The interpreter walks through sound code from instruction to instruction.
use vardoger.Prelude.{
  ℕ, zero, suc, ◌+◌, ◌-◌, ◌%◌, ◌≤◌, ◌<◌, ◌≡◌, ◌≢◌, refl, sym, ap, ◌∙◌, inl, inr, Bool, true, false,
  some, List, arith, leb, if◌then◌else◌, length, get_elem?, subst, Bool-cases,
}
use vardoger.Prelude.Order.{Bytes, bytes_key}
use vardoger.Prelude.Map.{find}
use vardoger.Dex.{u32_mod}
use vardoger.Dex.File.{Code}
use vardoger.Dalvik.{passes}
use vardoger.Dalvik.Machine.{
  Machine, Host, Frame, Outcome, next, leave, throw, undefined, step, follow, loop,
}
use vardoger.Dalvik.Plain.{Lands, perform-Lands, get_elem?-some}
use vardoger.Devirt.Table.{Fmt, f10t, f21t, f22t, f20t, f30t, MdOp, md_ops}
use vardoger.Devirt.Encode.{DalvikInstr, width, offsets, md_assemble}
use vardoger.Devirt.Layout.{size}
use vardoger.Devirt.Fetches.{Holds}
use vardoger.Devirt.Jumps.{step_at}
use vardoger.Devirt.Branching.{Branches}
use vardoger.Devirt.Landing.{branch_lands}
use vardoger.Devirt.Known.{Operands, made, IsSound}
use vardoger.Devirt.Places.{
  Split, IsPlace, width-positive, inside-Split, behind-IsPlace, Split-at, offset-Split, elem-Split,
  offsets-apart,
}
use vardoger.Devirt.Plains.{is_branch, sound-Plain}
use vardoger.Devirt.Decoded

-- The outcome is one that the code defines.
abbrev pub Defined {ℓ} : {E : Type ℓ} → Outcome E → Type 0
Defined undefined = ⊥
Defined _ = Unit {0}

-- Every instruction of the code is sound.
abbrev pub AllSound : List DalvikInstr → Type 0
AllSound body =
    (i : ℕ) (ins : DalvikInstr) → get_elem? body i ≡ some ins → IsSound (length body) i ins

module _ {ℓ} {E : Type ℓ} (h : Host E) (n : ℕ) (enough : 16 ≤ n) (body : List DalvikInstr)
    (d : Bytes) (code : Code) (few : size body < 0x80) (short : length d < u32_mod)
    (holds : Holds d code.insns_off (md_assemble body)) where
  -- A branch to instruction `t`, with its operands, taken or not.
  module _ (f : Frame) (m : Machine E) (ins : DalvikInstr) (s : Split body ins)
      (at_ins : f.pc ≡ size s.front) (regs : length f.regs ≡ n) (o : MdOp)
      (known : find ins.mnem md_ops ≡ some o) where
    branch-Lands :
        (t reach : ℕ) (taken : Bool)
        → t < length body
        → t ≢ length s.front
        → Branches o.fmt o.op f.regs ins.ops t taken reach
        → 0x80 ≤ reach
        → Lands n (IsPlace body) (step h d code f m)
    branch-Lands t reach taken low other branches far =
        let (target, s', index) = Split-at body t low in
        let there = size s'.front in
        let offset : get_elem? (offsets 0 body) t ≡ some there =
          subst (λ k. get_elem? (offsets 0 body) k ≡ some there) index
            (offset-Split body target s') in
        let moved =
          offsets-apart body t (length s.front) there (size s.front) other offset
            (offset-Split body ins s) in
        let inside = inside-Split body target s' in
        let inside' = inside-Split body ins s in
        let lands =
          branch_lands h f m d code s.front ins s.back o t there reach taken short
            (subst (λ b. Holds d code.insns_off (md_assemble b)) s.whole holds) at_ins known
            branches (subst (λ b. get_elem? (offsets 0 b) t ≡ some there) s.whole offset) moved
            (omega arith) (omega arith) in
        rw (lands, Lands) (regs, by_test taken there (inr (target, s', refl)))
      where
        by_test :
            (b : Bool) (there : ℕ)
            → IsPlace body there
            → IsPlace body (if b then there else size s.front + width ins)
        by_test true there place = place
        by_test false there place = behind-IsPlace body ins s

    by_format :
        (fmt : Fmt)
        → o.fmt ≡ fmt
        → is_branch fmt ≡ true
        → made o ≡ true
        → Operands fmt (length body) (length s.front) ins
        → Lands n (IsPlace body) (step h d code f m)
    by_format f22t same branch e (a, b, t, ops, fa, fb, low, other) =
        let (x, ex) = get_elem?-some f.regs a (omega arith) in
        let (y, ey) = get_elem?-some f.regs b (omega arith) in
        branch-Lands t 0x8000 _ low other
          (subst (λ (g : Fmt). Branches g o.op f.regs ins.ops t (passes (o.op - 0x32) x y) 0x8000)
            (sym same) (a, b, x, y, ops, fa, fb, ex, ey, refl, refl))
          (omega arith)
    by_format f21t same branch e (a, t, ops, fa, low, other) =
        let (x, ex) = get_elem?-some f.regs a (omega arith) in
        branch-Lands t 0x8000 _ low other
          (subst (λ (g : Fmt). Branches g o.op f.regs ins.ops t (passes (o.op - 0x38) x 0) 0x8000)
            (sym same) (a, x, ops, omega arith, ex, refl, refl))
          (omega arith)
    by_format f10t same branch e (t, ops, low, other) =
        branch-Lands t 0x80 true low other
          (subst (λ (g : Fmt). Branches g o.op f.regs ins.ops t true 0x80) (sym same)
            (ops, refl, refl))
          (omega arith)
    by_format f20t same branch e operands = absurd operands
    by_format f30t same branch e operands = absurd operands
    by_format _ same branch e operands = absurd (cc)

    -- One round of the loop, at an instruction.
    ins-Lands :
        made o ≡ true
        → Operands o.fmt (length body) (length s.front) ins
        → Lands n (IsPlace body) (step h d code f m)
    ins-Lands e operands = elim (Bool-cases (is_branch o.fmt)) [
      | inl branch ↦ by_format o.fmt refl branch e operands
      | inr plain ↦
          let holds' = subst (λ b. Holds d code.insns_off (md_assemble b)) s.whole holds in
          let room = Decoded.room_in_file s.front ins s.back d code.insns_off holds' in
          let behind : (f.pc + width ins) % u32_mod ≡ size s.front + width ins = omega arith in
          let means =
            sound-Plain n enough s.front ins s.back d code.insns_off holds' short o known
              (length body) (length s.front) e operands plain in
          let round =
            step_at h f m d code (code.insns_off + size s.front + size s.front) (omega arith)
              (omega (arith, width-positive ins)) short in
          rw (round, Lands)
            (perform-Lands n (IsPlace body) h f m (width ins) _ means regs
              (rw behind (behind-IsPlace body ins s)))
    ]

  module _ (sound : AllSound body) (size_is : code.insns_size ≡ size body) where
    step-Lands :
        (f : Frame) (m : Machine E)
        → IsPlace body f.pc
        → f.pc < code.insns_size
        → length f.regs ≡ n
        → Lands n (IsPlace body) (step h d code f m)
    step-Lands f m (inl over) inside regs = absurd (omega arith)
    step-Lands f m (inr (ins, s, at_ins)) inside regs =
        let here : get_elem? body (length s.front) ≡ some ins =
          ap (λ (l : List DalvikInstr). get_elem? l (length s.front)) s.whole
          ∙ elem-Split s.front ins s.back in
        let (o, known, e, operands) = sound (length s.front) ins here in
        ins-Lands f m ins s at_ins regs o known e operands

    follow-Defined :
        (o : Outcome E) (round : Frame → Machine E → Outcome E)
        → Lands n (IsPlace body) o
        → ((f : Frame) (m : Machine E)
            → length f.regs ≡ n
            → IsPlace body f.pc
            → Defined (round f m))
        → Defined (follow o round)
    unfolding follow
    follow-Defined (next f m) round (regs, place) later = later f m regs place
    follow-Defined (leave v m) round lands later = tt
    follow-Defined (throw m) round lands later = tt
    follow-Defined undefined round lands later = lands

    pub loop-Defined :
        (steps : ℕ) (f : Frame) (m : Machine E)
        → length f.regs ≡ n
        → IsPlace body f.pc
        → Defined (loop steps h d code f m)
    unfolding loop
    loop-Defined zero f m regs place = tt
    loop-Defined (suc steps) f m regs place = elim (Bool-cases (leb code.insns_size f.pc)) [
      | inl over ↦ rw (over, Defined) tt
      | inr more ↦
          rw (more, Defined)
            (follow-Defined (step h d code f m) (loop steps h d code)
              (step-Lands f m place (ground arith) regs) (loop-Defined steps))
    ]
