-- ===== src/Dalvik/Rounds.antt =====
-- The loop of the interpreter, and a run of it, by the rules for one instruction.
use vardoger.Prelude.{
  ℕ, zero, suc, ◌+◌, ◌-◌, ◌%◌, ◌≤◌, ◌<◌, ◌≡◌, sym, ◌∙◌, ◌⊎◌, inl, inr, true, not, ◌||◌, Option,
  none, some, List, [], ◌∷◌, arith, leb, ltb, ◌==◌, if◌then◌else◌, length, length-set,
  length-replicate, set, Bool-cases,
}
use vardoger.Prelude.Order.{Bytes}
use vardoger.Dex.{u32_mod}
use vardoger.Dex.File.{Code}
use vardoger.Dalvik.{u64_mod}
use vardoger.Dalvik.Actions.{fetch, decode}
use vardoger.Dalvik.Machine.{
  Machine, Host, Frame, Outcome, next, leave, throw, undefined, step, follow, loop, place,
  max_steps, run,
}
use vardoger.Dalvik.Outcomes.{KeepsAll, Fits, Ends, perform-Ends}

module _ {ℓ} {E : Type ℓ} (U : Type 0) (T R : Machine E → Type 0) where
  -- What a run comes to.
  abbrev pub Done : Outcome E → Type 0
  Done (next f m) = ⊥
  Done (leave v m) = R m
  Done (throw m) = T m
  Done undefined = U

-- `--depth_` leads from `Q` to `R`.
module _ {ℓ} {E : Type ℓ} (Named : ℕ → Type 0) (Counted : ℕ → ℕ → Type 0) (n : ℕ) (U : Type 0)
    (Q T R : Machine E → Type 0) (no_reg : (r : ℕ) → Named r → n ≤ r → U)
    (too_many : (count room : ℕ) → Counted count room → room < count → U)
    (finished : (m : Machine E) → Q m → R (record m { depth = m.depth - 1 })) where
  follow-Done :
      (o : Outcome E) (round : Frame → Machine E → Outcome E)
      → Ends n Q T U o
      → ((f : Frame) (m : Machine E) → length f.regs ≡ n → Q m → Done U T R (round f m))
      → Done U T R (follow o round)
  unfolding follow
  follow-Done (next f m) round (size, ok) later = later f m size ok
  follow-Done (leave v m) round ok later = finished m ok
  follow-Done (throw m) round ok later = ok
  follow-Done undefined round ok later = ok

  pub loop-Done :
      (steps : ℕ) (h : Host E) (d : Bytes) (code : Code) (f : Frame) (m : Machine E)
      → KeepsAll Q T h
      → ((pc : ℕ)
          → pc < code.insns_size
          → (length d ≤ (code.insns_off + pc + pc) % u32_mod → U)
            × Fits Named Counted (decode (fetch d ((code.insns_off + pc + pc) % u32_mod))))
      → length f.regs ≡ n
      → Q m
      → Done U T R (loop steps h d code f m)
  unfolding loop step
  loop-Done zero h d code f m keeps fits size ok = finished m ok
  loop-Done (suc steps) h d code f m keeps fits size ok =
      elim (Bool-cases (leb code.insns_size f.pc)) [
        | inl over ↦ rw (over, Done) (finished m ok)
        | inr more ↦
            let (outside, named) = fits f.pc (ground arith) in
            let later = λ (f' : Frame) (m' : Machine E) (size' : length f'.regs ≡ n) (ok' : Q m').
              loop-Done steps h d code f' m' keeps fits size' ok' in
            rw (more, Done)
              (follow-Done (step h d code f m) (loop steps h d code)
                (elim (Bool-cases (ltb ((code.insns_off + f.pc + f.pc) % u32_mod) (length d))) [
                  | inr out ↦ rw (out, Ends) (outside (ground arith))
                  | inl inside ↦
                      rw (inside, Ends)
                        (perform-Ends Named Counted n Q T U no_reg too_many h f m _ keeps named size
                          ok)
                ])
                later)
      ]

  -- The registers after the arguments were placed.
  abbrev Placed : Option (List ℕ) → Type 0
  Placed none = U
  Placed (some regs) = length regs ≡ n

  place-Placed :
      (at left : ℕ) (args regs : List ℕ)
      → length regs ≡ n
      → (at + left ≤ n) ⊎ U
      → Placed (place at left args regs)
  unfolding place
  place-Placed at zero args regs size room = size
  place-Placed at (suc left) [] regs size room = size
  place-Placed at (suc left) (a ∷ args) regs size room = elim (Bool-cases (ltb at (length regs))) [
    | inl inside ↦
        rw (inside, Placed)
          (place-Placed (at + 1) left args (set regs at a) (length-set regs at a ∙ size)
            (closer at left room))
    | inr out ↦ rw (out, Placed) (elim room [ inr lost ↦ lost | inl fits ↦ absurd (ground arith) ])
  ]
    where
      closer : (at left : ℕ) → (at + suc left ≤ n) ⊎ U → (at + 1 + left ≤ n) ⊎ U
      closer at left (inl fits) = inl (omega arith)
      closer at left (inr lost) = inr lost

  -- A run: refused, without room for its arguments, or the loop one level down.
  pub run-Done :
      (max_depth : ℕ) (h : Host E) (d : Bytes) (code : Code) (args : List ℕ) (m : Machine E)
      → KeepsAll Q T h
      → (code.valid ≡ true
          → (pc : ℕ) → pc < code.insns_size
          → (length d ≤ (code.insns_off + pc + pc) % u32_mod → U)
            × Fits Named Counted (decode (fetch d ((code.insns_off + pc + pc) % u32_mod))))
      → n ≡ (if code.registers_size == 0 then 1 else code.registers_size)
      → (code.ins_size ≤ code.registers_size) ⊎ U
      → R m
      → Q (record m { depth = m.depth + 1 })
      → Done U T R (run max_depth h d code args m)
  unfolding run
  run-Done max_depth h d code args m keeps fits size room same deeper =
      elim (Bool-cases (not code.valid || leb max_depth m.depth)) [
        | inl refused ↦ rw (refused, Done) same
        | inr taken ↦
            rw (taken, Done)
              (started (ground arith) (place _ code.ins_size args _) (
                place-Placed _ code.ins_size args _ (length-replicate _ 0 ∙ sym size)
                  (enough room)))
      ]
    where
      enough :
          (code.ins_size ≤ code.registers_size) ⊎ U
          → ((if ltb code.registers_size code.ins_size
                  then u64_mod - (code.ins_size - code.registers_size)
                  else code.registers_size - code.ins_size)
                + code.ins_size
              ≤ n)
            ⊎ U
      enough (inl few) = inl (ground (arith, size))
      enough (inr lost) = inr lost

      started :
          code.valid ≡ true
          → (o : Option (List ℕ)) → Placed o
          → Done U T R (elim o [
            | none ↦ undefined
            | some placed ↦
                loop max_steps h d code
                  (record { pc = 0; regs = placed; ret = 0 })
                  (record m { depth = m.depth + 1 })
          ])
      started valid none lost = lost
      started valid (some regs) fine =
          loop-Done max_steps h d code _ _ keeps (fits valid) fine deeper
