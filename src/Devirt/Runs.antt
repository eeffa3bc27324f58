-- ===== src/Devirt/Runs.antt =====
-- A round of the interpreter in the bodies of minimal_body of devirt_rebuild.hpp.
use vardoger.Prelude.{
  ℕ, zero, suc, ◌+◌, ◌/◌, ◌%◌, ◌≤◌, ◌<◌, ◌≡◌, refl, ap, ◌∙◌, true, false, some, List, [], ◌∷◌,
  arith, leb, ltb, length, get_elem?, set, length-set,
}
use vardoger.Prelude.Order.{Bytes, bytes_key}
use vardoger.Prelude.Splice.{byte_at}
use vardoger.Dex.{u32_mod}
use vardoger.Dex.File.{Code}
use vardoger.Dalvik.Actions.{
  Insn, Action, fetch, give_nothing, give, load, decode, decode_move, decode_const,
}
use vardoger.Dalvik.Machine.{
  Machine, Host, Frame, next, leave, step, follow, loop, place, perform, assign, with_reg, finish,
}
use vardoger.Devirt.Fetches.{Holds, fetch_one, fetch_two}

decode_return_void : (i : Insn) → i.op ≡ 0x0E → decode i ≡ give_nothing
unfolding decode decode_move
decode_return_void i e = ground arith

decode_return : (i : Insn) → 0x0F ≤ i.op → i.op ≤ 0x11 → i.b1 ≡ 0 → decode i ≡ give 0
unfolding decode decode_move
decode_return i low high e = (let d : decode i ≡ give i.b1 = ground arith in d) ∙ ap give e

decode_const4 : (i : Insn) → i.op ≡ 0x12 → i.b1 ≡ 0 → decode i ≡ load 0 0 1
unfolding decode decode_const
decode_const4 i e e' = ground arith

decode_const_wide : (i : Insn) → i.op ≡ 0x16 → i.b1 ≡ 0 → i.w1 ≡ 0 → decode i ≡ load 0 0 2
unfolding decode decode_const
decode_const_wide i e e' e'' = ground arith

abbrev pub frame : ℕ → List ℕ → Frame
frame pc regs = record { pc = pc; regs = regs; ret = 0 }

pub place-length :
    (at left : ℕ) (args regs : List ℕ)
    → at + left ≤ length regs
    → (placed : List ℕ) × (place at left args regs ≡ some placed) × (length placed ≡ length regs)
unfolding place
place-length at zero args regs room = (regs, refl, refl)
place-length at (suc left) [] regs room = (regs, refl, refl)
place-length at (suc left) (a ∷ args) regs room =
    let (placed, is, size) =
      place-length (at + 1) left args (set regs at a) (omega (arith, length-set regs at a)) in
    (
      placed,
      rw (let yes' : ltb at (length regs) ≡ true = ground arith in yes') is,
      size ∙ length-set regs at a,
    )

module _ {ℓ} {E : Type ℓ} (h : Host E) (d : Bytes) (code : Code) (us : List ℕ) (m : Machine E)
    (short : length d < u32_mod) (holds : Holds d code.insns_off us)
    (size : code.insns_size ≡ length us) where
  -- The first byte and the second one of a unit.
  at_unit :
      (i v : ℕ)
      → i < length us
      → get_elem? us i ≡ some v
      → ((fetch d (code.insns_off + i + i)).op ≡ v % 0x100)
        × ((fetch d (code.insns_off + i + i)).b1 ≡ v / 0x100)
  at_unit i v inside e =
      let (low, high) = holds.words i v e in
      let room = holds.room in fetch_one d (code.insns_off + i + i) short v (omega arith) low high

  round :
      (f : Frame)
      → f.pc < length us
      → step h d code f m ≡ perform h f m (decode (fetch d (code.insns_off + f.pc + f.pc)))
  unfolding step
  round f inside =
      let room = holds.room in
      let place' : (code.insns_off + f.pc + f.pc) % u32_mod ≡ code.insns_off + f.pc + f.pc =
        omega arith in
      let there : ltb (code.insns_off + f.pc + f.pc) (length d) ≡ true = ground arith in
      rw (place', there) refl

  -- A round within the code.
  loop_round :
      (steps : ℕ) (f : Frame)
      → f.pc < length us
      → loop (suc steps) h d code f m ≡ follow (step h d code f m) (loop steps h d code)
  unfolding loop
  loop_round steps f inside =
      rw (loop, let no : leb code.insns_size f.pc ≡ false = ground arith in no) refl

module _ {ℓ} {E : Type ℓ} (h : Host E) (d : Bytes) (code : Code) (m : Machine E)
    (short : length d < u32_mod) (r : ℕ) (rs : List ℕ) where
  perform_give : (a : Action) (pc : ℕ) → a ≡ give 0 → perform h (frame pc (0 ∷ rs)) m a ≡ leave 0 m
  unfolding perform with_reg
  perform_give a pc e = rw e refl

  perform_load :
      (a : Action) (units : ℕ)
      → a ≡ load 0 0 units
      → units < 3
      → perform h (frame 0 (r ∷ rs)) m a ≡ next (frame units (0 ∷ rs)) m
  unfolding perform assign
  perform_load a units e small =
      rw (e, (let there : ltb 0 (suc (length rs)) ≡ true = ground arith in there))
        (ap (λ pc. next (frame pc (0 ∷ rs)) m)
          (let s : (0 + units) % u32_mod ≡ units = omega arith in s))

  perform_nothing : (a : Action) (f : Frame) → a ≡ give_nothing → perform h f m a ≡ leave 0 m
  unfolding perform
  perform_nothing a f e = rw e refl

  -- `return-void`
  pub void_returns :
      (steps : ℕ)
      → Holds d code.insns_off (0x000E ∷ [])
      → code.insns_size ≡ 1
      → loop (suc steps) h d code (frame 0 (r ∷ rs)) m ≡ finish 0 m
  unfolding follow
  void_returns steps holds size =
      let (op, _) = at_unit h d code _ m short holds size 0 0x000E (omega arith) refl in
      loop_round h d code _ m short holds size steps (frame 0 (r ∷ rs)) (omega arith)
      ∙ ap (λ o. follow o (loop steps h d code))
          (round h d code _ m short holds size (frame 0 (r ∷ rs)) (omega arith)
            ∙ perform_nothing _ (frame 0 (r ∷ rs)) (decode_return_void _ op))

  -- A constant is put in register 0, which is then given back.
  module _ (us : List ℕ) (holds : Holds d code.insns_off us)
      (size : code.insns_size ≡ length us) where
    loaded_returns :
        (steps units v : ℕ)
        → decode (fetch d (code.insns_off + 0 + 0)) ≡ load 0 0 units
        → units < 3
        → units < length us
        → get_elem? us units ≡ some v
        → 0x0F ≤ v
        → v ≤ 0x11
        → loop (suc (suc steps)) h d code (frame 0 (r ∷ rs)) m ≡ finish 0 m
    unfolding follow
    loaded_returns steps units v loads small inside e low high =
        let (op, b1) = at_unit h d code us m short holds size units v inside e in
        let gives =
          decode_return (fetch d (code.insns_off + units + units)) (omega (arith, op))
            (omega (arith, op)) (omega (arith, b1)) in
        loop_round h d code us m short holds size (suc steps) (frame 0 (r ∷ rs)) (omega arith)
        ∙ (ap (λ o. follow o (loop (suc steps) h d code))
              (round h d code us m short holds size (frame 0 (r ∷ rs)) (omega arith)
                ∙ perform_load _ units loads small)
            ∙ (loop_round h d code us m short holds size steps (frame units (0 ∷ rs)) inside
                ∙ ap (λ o. follow o (loop steps h d code))
                    (round h d code us m short holds size (frame units (0 ∷ rs)) inside
                      ∙ perform_give _ units gives)))

  -- `const/4 v0, 0` and a return of one register.
  pub narrow_returns :
      (steps v : ℕ)
      → Holds d code.insns_off (0x0012 ∷ v ∷ [])
      → code.insns_size ≡ 2
      → 0x0F ≤ v
      → v ≤ 0x11
      → loop (suc (suc steps)) h d code (frame 0 (r ∷ rs)) m ≡ finish 0 m
  narrow_returns steps v holds size low high =
      let (op, b1) = at_unit h d code _ m short holds size 0 0x0012 (omega arith) refl in
      loaded_returns _ holds size steps 1 v (decode_const4 _ op b1) (omega arith) (omega arith) refl
        low high

  -- `const-wide/16 v0, 0; return-wide v0`
  pub wide_returns :
      (steps : ℕ)
      → Holds d code.insns_off (0x0016 ∷ 0x0000 ∷ 0x0010 ∷ [])
      → code.insns_size ≡ 3
      → loop (suc (suc steps)) h d code (frame 0 (r ∷ rs)) m ≡ finish 0 m
  wide_returns steps holds size =
      let (op, b1) = at_unit h d code _ m short holds size 0 0x0016 (omega arith) refl in
      let (low, high) = holds.words 1 0 refl in
      let room = holds.room in
      let w1 =
        fetch_two d (code.insns_off + 0 + 0) short 0 (omega arith)
          (ap (byte_at d)
              (let e : code.insns_off + 0 + 0 + 2 ≡ code.insns_off + 1 + 1 = omega arith in e)
            ∙ low)
          (ap (byte_at d)
              (let e : code.insns_off + 0 + 0 + 3 ≡ code.insns_off + 1 + 1 + 1 = omega arith in e)
            ∙ high) in
      loaded_returns _ holds size steps 2 0x0010 (decode_const_wide _ op b1 w1) (omega arith)
        (omega arith) refl (omega arith) (omega arith)
