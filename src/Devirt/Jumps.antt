-- ===== src/Devirt/Jumps.antt =====
-- How the interpreter carries out a branch.
use vardoger.Prelude.{
  ℕ, ◌+◌, ◌%◌, ◌<◌, ◌≡◌, refl, ◌∙◌, true, not, ◌&&◌, none, some, arith, ltb, ◌==◌, if◌then◌else◌,
  length, get_elem?,
}
use vardoger.Prelude.Order.{Bytes, bytes_key}
use vardoger.Dex.{u32_mod}
use vardoger.Dex.File.{Code}
use vardoger.Dalvik.{passes}
use vardoger.Dalvik.Actions.{fetch, decode, branch, jump}
use vardoger.Dalvik.Machine.{Machine, Host, Frame, Outcome, next, with_reg, perform, step}

module _ {ℓ} {E : Type ℓ} (h : Host E) (f : Frame) (m : Machine E) where
  pub step_at :
      (d : Bytes) (code : Code) (at : ℕ)
      → code.insns_off + f.pc + f.pc ≡ at
      → at < length d
      → length d < u32_mod
      → step h d code f m ≡ perform h f m (decode (fetch d at))
  unfolding step
  step_at d code at same inside short =
      let here : (code.insns_off + f.pc + f.pc) % u32_mod ≡ at = omega arith in
      let there : ltb at (length d) ≡ true = ground arith in rw (here, there)

  with_reg_found :
      (src v : ℕ) (k : ℕ → Outcome E) → get_elem? f.regs src ≡ some v → with_reg src f k ≡ k v
  unfolding with_reg
  with_reg_found src v k e = rw (e, with_reg)

  pub perform_two :
      (k a b x y off : ℕ)
      → get_elem? f.regs a ≡ some x
      → get_elem? f.regs b ≡ some y
      → perform h f m (branch k a (some b) off)
        ≡ next
            (record f {
              pc = (f.pc + (if passes k x y && not (off == 0) then off else 2)) % u32_mod;
            })
            m
  unfolding perform
  perform_two k a b x y off ex ey = with_reg_found a x _ ex ∙ with_reg_found b y _ ey

  pub perform_one :
      (k a x off : ℕ)
      → get_elem? f.regs a ≡ some x
      → perform h f m (branch k a none off)
        ≡ next
            (record f {
              pc = (f.pc + (if passes k x 0 && not (off == 0) then off else 2)) % u32_mod;
            })
            m
  unfolding perform
  perform_one k a x off ex = with_reg_found a x _ ex

  pub perform_jump :
      (off fall : ℕ)
      → perform h f m (jump off fall)
        ≡ next (record f { pc = (f.pc + (if off == 0 then fall else off)) % u32_mod }) m
  unfolding perform
  perform_jump off fall = refl
