-- ===== src/Dalvik/Machine.antt =====
-- The interpreter: Dalvik::run, with the host's callbacks.
--
-- The callbacks act on a state `E` of the host, and on the interpreter's depth_, since they may run
-- it again; no result is an exception. An access outside the registers, or outside the array of an
-- invoke's five registers, is undefined in C++ and an outcome of its own here.
use vardoger.Prelude.{
  ℕ, zero, suc, ◌+◌, ◌-◌, ◌%◌, true, false, not, ◌&&◌, ◌||◌, Option, none, some, List, [], ◌∷◌, leb,
  ltb, ◌==◌, if◌then◌else◌, length, get_elem?, set, take, drop, replicate,
}
use vardoger.Prelude.Act.{Act}
use vardoger.Prelude.Order.{Bytes}
use vardoger.Dex.{u32_mod}
use vardoger.Dex.File.{Code}
use vardoger.Dalvik.{u64_mod, from_int32, ibin, unary, passes}
use vardoger.Dalvik.Actions.{
  InvokeKind, fetch, Action, unsupported, skip, copy, result, give_nothing, give_result, give, load,
  jump, branch, string, instance_of_type, array_length, new_array, aget, aput, sget, sput, iget,
  iput, invoke, invoke_range, convert, binary, literal, decode,
}

pub record Machine {ℓ} (E : Type ℓ) : Type ℓ where
  pub depth : ℕ
  pub env : E

-- A callback, which may not be set.
abbrev pub Callback {ℓ} : Type ℓ → Type 0 → Type 0 → Type ℓ
Callback E A B = Option (A → Act (Machine E) B)

pub record Host {ℓ} (E : Type ℓ) : Type ℓ where
  pub on_invoke : Callback E (InvokeKind × ℕ × List ℕ) ℕ
  pub on_sget : Callback E ℕ ℕ
  pub on_sput : Callback E (ℕ × ℕ) (Unit {0})
  pub on_iget : Callback E (ℕ × ℕ) ℕ
  pub on_iput : Callback E (ℕ × ℕ × ℕ) (Unit {0})
  pub on_const_string : Callback E ℕ ℕ
  pub on_new_instance : Callback E ℕ ℕ
  pub on_new_array : Callback E (ℕ × ℕ) ℕ
  pub on_array_length : Callback E ℕ ℕ
  pub on_aget : Callback E (ℕ × ℕ) ℕ
  pub on_aput : Callback E (ℕ × ℕ × ℕ) (Unit {0})

-- The local variables of `run`.
pub record Frame : Type 0 where
  pub pc : ℕ
  pub regs : List ℕ
  pub ret : ℕ

-- What one instruction, and what a run, comes to.
pub data Outcome {ℓ} (E : Type ℓ) : Type ℓ where
  next : Frame → Machine E → Outcome E
  leave : ℕ → Machine E → Outcome E
  throw : Machine E → Outcome E
  undefined : Outcome E

-- The arguments in the last registers; `none` is a write in front of the registers.
unfoldable pub place : ℕ → ℕ → List ℕ → List ℕ → Option (List ℕ)
place at zero args regs = some regs
place at (suc left) [] regs = some regs
place at (suc left) (a ∷ args) regs =
    if ltb at (length regs) then place (at + 1) left args (set regs at a) else none

abbrev pub max_steps : ℕ
max_steps = 200000

module _ {ℓ} {E : Type ℓ} where
  -- `pc += units`
  abbrev pub advance : ℕ → Frame → Machine E → Outcome E
  advance units f m = next (record f { pc = (f.pc + units) % u32_mod }) m

  -- `R[dst] = v; pc += units`
  unfoldable pub assign : ℕ → ℕ → ℕ → Frame → Machine E → Outcome E
  assign dst v units f m =
      if ltb dst (length f.regs)
      then next (record f { pc = (f.pc + units) % u32_mod; regs = set f.regs dst v }) m
      else undefined

  -- `R[src]`
  unfoldable pub with_reg : ℕ → Frame → (ℕ → Outcome E) → Outcome E
  with_reg src f k = elim (get_elem? f.regs src) [ none ↦ undefined | some v ↦ k v ]

  unfoldable pub with_regs : List ℕ → Frame → (List ℕ → Outcome E) → Outcome E
  with_regs [] f k = k []
  with_regs (r ∷ rs) f k = with_reg r f (λ v. with_regs rs f (λ vs. k (v ∷ vs)))

  -- `callback ? callback(args) : missing`: the arguments are read only for a callback that is set.
  unfoldable pub ask :
      {A B : Type 0}
      → Callback E A B
      → B
      → ((A → Outcome E) → Outcome E)
      → Machine E
      → (B → Machine E → Outcome E)
      → Outcome E
  ask none missing args m k = k missing m
  ask (some call) missing args m k =
      args (λ a. let (m', r) = call a m in elim r [ none ↦ throw m' | some b ↦ k b m' ])

  -- The case of an opcode.
  unfoldable pub perform : Host E → Frame → Machine E → Action → Outcome E
  perform h f m unsupported = leave f.ret m
  perform h f m (skip units) = advance units f m
  perform h f m (copy dst src units) = with_reg src f (λ v. assign dst v units f m)
  perform h f m (result dst) = assign dst f.ret 1 f m
  perform h f m give_nothing = leave 0 m
  perform h f m give_result = leave f.ret m
  perform h f m (give src) = with_reg src f (λ v. leave v m)
  perform h f m (load dst value units) = assign dst value units f m
  perform h f m (jump off fall) = advance (if off == 0 then fall else off) f m
  perform h f m (branch k a none off) =
      with_reg a f (λ x. advance (if passes k x 0 && not (off == 0) then off else 2) f m)
  perform h f m (branch k a (some b) off) =
      with_reg a f
        (λ x. with_reg b f (λ y. advance (if passes k x y && not (off == 0) then off else 2) f m))
  perform h f m (string dst idx units) =
      ask h.on_const_string 0 (λ call. call idx) m (λ v m'. assign dst v units f m')
  perform h f m (instance_of_type dst idx) =
      ask h.on_new_instance 0 (λ call. call idx) m (λ v m'. assign dst v 2 f m')
  perform h f m (array_length dst src) =
      ask h.on_array_length 0 (λ call. with_reg src f call) m
        (λ v m'. assign dst (v % u32_mod) 1 f m')
  perform h f m (new_array dst src idx) =
      ask h.on_new_array 0 (λ call. with_reg src f (λ x. call (idx, x % u32_mod))) m
        (λ v m'. assign dst v 2 f m')
  perform h f m (aget dst arr idx) =
      ask h.on_aget 0 (λ call. with_reg arr f (λ a. with_reg idx f (λ x. call (a, x % u32_mod)))) m
        (λ v m'. assign dst v 2 f m')
  perform h f m (aput src arr idx) =
      ask h.on_aput tt
        (λ call.
          with_reg arr f
            (λ a. with_reg idx f (λ x. with_reg src f (λ v. call (a, x % u32_mod, v)))))
        m (λ _ m'. advance 2 f m')
  perform h f m (sget dst idx) = ask h.on_sget 0 (λ call. call idx) m (λ v m'. assign dst v 2 f m')
  perform h f m (sput src idx) =
      ask h.on_sput tt (λ call. with_reg src f (λ v. call (idx, v))) m (λ _ m'. advance 2 f m')
  perform h f m (iget dst obj idx) =
      ask h.on_iget 0 (λ call. with_reg obj f (λ o. call (o, idx))) m (λ v m'. assign dst v 2 f m')
  perform h f m (iput src obj idx) =
      ask h.on_iput tt (λ call. with_reg obj f (λ o. with_reg src f (λ v. call (o, idx, v)))) m
        (λ _ m'. advance 2 f m')
  perform h f m (invoke kind idx count regs) =
      if ltb (length regs) count
      then undefined
      else with_regs (take count regs) f (λ a.
        ask h.on_invoke 0 (λ call. call (kind, idx, a)) m
          (λ v m'. advance 3 (record f { ret = v }) m'))
  perform h f m (invoke_range kind idx count first) =
      ask h.on_invoke 0 (λ call. call (kind, idx, take count (drop first f.regs))) m
        (λ v m'. advance 3 (record f { ret = v }) m')
  perform h f m (convert op dst src) = with_reg src f (λ v. assign dst (unary op v) 1 f m)
  perform h f m (binary k dst a b units) =
      with_reg a f (λ x. with_reg b f (λ y. assign dst (ibin k x y) units f m))
  perform h f m (literal reversed k dst src lit) = with_reg src f (λ v.
      assign dst (if reversed then ibin 1 lit (from_int32 v) else ibin k (from_int32 v) lit) 2 f m)

  -- One round of the loop, at a place within the code.
  unfoldable pub step : Host E → Bytes → Code → Frame → Machine E → Outcome E
  step h d code f m =
      let iaddr = (code.insns_off + f.pc + f.pc) % u32_mod in
      if ltb iaddr (length d) then perform h f m (decode (fetch d iaddr)) else undefined

  -- `--depth_; return v`
  abbrev pub finish : ℕ → Machine E → Outcome E
  finish v m = leave v (record m { depth = m.depth - 1 })

  -- What follows an instruction: the next round, or the end of the run.
  unfoldable pub follow : Outcome E → (Frame → Machine E → Outcome E) → Outcome E
  follow (next f m) round = round f m
  follow (leave v m) round = finish v m
  follow (throw m) round = throw m
  follow undefined round = undefined

  -- The loop, of `steps` rounds at most; it never comes to `next`.
  unfoldable pub loop : ℕ → Host E → Bytes → Code → Frame → Machine E → Outcome E
  loop zero h d code f m = finish f.ret m
  loop (suc steps) h d code f m = elim (leb code.insns_size f.pc) [
    | true ↦ finish f.ret m
    | false ↦ follow (step h d code f m) (loop steps h d code)
  ]

  unfoldable pub run : ℕ → Host E → Bytes → Code → List ℕ → Machine E → Outcome E
  run max_depth h d code args m =
      let regs = replicate (if code.registers_size == 0 then 1 else code.registers_size) 0 in
      let at =
        if ltb code.registers_size code.ins_size
        then u64_mod - (code.ins_size - code.registers_size)
        else code.registers_size - code.ins_size in
      if not code.valid || leb max_depth m.depth
      then leave 0 m
      else elim (place at code.ins_size args regs) [
        | none ↦ undefined
        | some placed ↦
            loop max_steps h d code (record { pc = 0; regs = placed; ret = 0 })
              (record m { depth = m.depth + 1 })
      ]
