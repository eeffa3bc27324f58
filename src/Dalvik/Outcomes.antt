-- ===== src/Dalvik/Outcomes.antt =====
-- Rules for what a run of the interpreter comes to, over what the callbacks keep.
use vardoger.Prelude.{
  ℕ, zero, suc, ◌%◌, ◌≤◌, ◌<◌, ◌≡◌, refl, ◌∙◌, inl, inr, none, some, List, [], ◌∷◌, arith, ltb,
  length, length-set, get_elem?, take, Bool-cases, Option,
}
use vardoger.Dex.{u32_mod}
use vardoger.Dalvik.Actions.{
  Action, unsupported, skip, copy, result, give_nothing, give_result, give, load, jump, branch,
  string, instance_of_type, array_length, new_array, aget, aput, sget, sput, iget, iput, invoke,
  invoke_range, convert, binary, literal,
}
use vardoger.Dalvik.Machine.{
  Machine, Callback, Host, Frame, Outcome, next, leave, throw, undefined, assign, with_reg,
  with_regs, ask, perform,
}

-- An instruction that names only registers for which `Named` holds, and whose count of registers
-- satisfies `Counted` with the number of registers that it has room for.
module _ (Named : ℕ → Type 0) (Counted : ℕ → ℕ → Type 0) where
  abbrev pub All : List ℕ → Type 0
  All [] = Unit {0}
  All (r ∷ rs) = Named r × All rs

  abbrev pub Fits : Action → Type 0
  Fits (copy dst src units) = Named dst × Named src
  Fits (result dst) = Named dst
  Fits (give src) = Named src
  Fits (load dst value units) = Named dst
  Fits (branch k a none off) = Named a
  Fits (branch k a (some b) off) = Named a × Named b
  Fits (string dst idx units) = Named dst
  Fits (instance_of_type dst idx) = Named dst
  Fits (array_length dst src) = Named dst × Named src
  Fits (new_array dst src idx) = Named dst × Named src
  Fits (aget dst arr idx) = Named dst × Named arr × Named idx
  Fits (aput dst arr idx) = Named dst × Named arr × Named idx
  Fits (sget dst idx) = Named dst
  Fits (sput dst idx) = Named dst
  Fits (iget dst obj idx) = Named dst × Named obj
  Fits (iput dst obj idx) = Named dst × Named obj
  Fits (invoke kind idx count regs) = Counted count (length regs) × All (take count regs)
  Fits (convert op dst src) = Named dst × Named src
  Fits (binary k dst a b units) = Named dst × Named a × Named b
  Fits (literal reversed k dst src lit) = Named dst × Named src
  Fits _ = Unit {0}

module _ {ℓ} {E : Type ℓ} (n : ℕ) (Q T : Machine E → Type 0) (U : Type 0) where
  -- What an outcome has to satisfy.
  abbrev pub Ends : Outcome E → Type 0
  Ends (next f m) = (length f.regs ≡ n) × Q m
  Ends (leave v m) = Q m
  Ends (throw m) = T m
  Ends undefined = U

module _ {ℓ} {E : Type ℓ} (Q T : Machine E → Type 0) where
  abbrev pub After : {B : Type 0} → Machine E × Option B → Type 0
  After (m, none) = T m
  After (m, some b) = Q m

  -- A callback that is set keeps `Q`, and ends in `T` if it throws.
  abbrev pub Keeps : {A B : Type 0} → Callback E A B → Type ℓ
  Keeps none = Unit {ℓ}
  Keeps {A} (some call) = (a : A) (m : Machine E) → Q m → After (call a m)

  pub record KeepsAll (h : Host E) : Type ℓ where
    pub invokes : Keeps h.on_invoke
    pub sgets : Keeps h.on_sget
    pub sputs : Keeps h.on_sput
    pub igets : Keeps h.on_iget
    pub iputs : Keeps h.on_iput
    pub strings : Keeps h.on_const_string
    pub instances : Keeps h.on_new_instance
    pub arrays : Keeps h.on_new_array
    pub lengths : Keeps h.on_array_length
    pub agets : Keeps h.on_aget
    pub aputs : Keeps h.on_aput

module _ {ℓ} {E : Type ℓ} (Named : ℕ → Type 0) (Counted : ℕ → ℕ → Type 0) (n : ℕ)
    (Q T : Machine E → Type 0) (U : Type 0) (no_reg : (r : ℕ) → Named r → n ≤ r → U)
    (too_many : (count room : ℕ) → Counted count room → room < count → U) where
  beyond : (xs : List ℕ) (i : ℕ) → get_elem? xs i ≡ none → length xs ≤ i
  beyond [] i e = omega arith
  beyond (x ∷ xs) zero e = absurd (cc)
  beyond (x ∷ xs) (suc i) e = omega (arith, beyond xs i e)

  assign-Ends :
      (dst v units : ℕ) (f : Frame) (m : Machine E)
      → Named dst
      → length f.regs ≡ n
      → Q m
      → Ends n Q T U (assign dst v units f m)
  unfolding assign
  assign-Ends dst v units f m named size ok = elim (Bool-cases (ltb dst (length f.regs))) [
    | inl there ↦ rw there (length-set f.regs dst v ∙ size, ok)
    | inr out ↦ rw out (no_reg dst named (ground arith))
  ]

  with_reg-Ends :
      (src : ℕ) (f : Frame) (k : ℕ → Outcome E)
      → Named src
      → length f.regs ≡ n
      → ((v : ℕ) → Ends n Q T U (k v))
      → Ends n Q T U (with_reg src f k)
  unfolding with_reg
  with_reg-Ends src f k named size later = go (get_elem? f.regs src) refl
    where
      go :
          (o : Option ℕ)
          → get_elem? f.regs src ≡ o
          → Ends n Q T U (elim o [ none ↦ undefined | some v ↦ k v ])
      go none out = no_reg src named (omega (arith, beyond f.regs src out))
      go (some v) there = later v

  with_regs-Ends :
      (rs : List ℕ) (f : Frame) (k : List ℕ → Outcome E)
      → All Named Counted rs
      → length f.regs ≡ n
      → ((vs : List ℕ) → Ends n Q T U (k vs))
      → Ends n Q T U (with_regs rs f k)
  unfolding with_regs
  with_regs-Ends [] f k named size later = later []
  with_regs-Ends (r ∷ rs) f k (named, more) size later =
      with_reg-Ends r f _ named size (λ v. with_regs-Ends rs f _ more size (λ vs. later (v ∷ vs)))

  ask-Ends :
      {A B : Type 0} (c : Callback E A B) (missing : B) (args : (A → Outcome E) → Outcome E)
      (m : Machine E) (k : B → Machine E → Outcome E)
      → Keeps Q T c
      → Q m
      → ((call : A → Outcome E) → ((a : A) → Ends n Q T U (call a)) → Ends n Q T U (args call))
      → ((b : B) (m' : Machine E) → Q m' → Ends n Q T U (k b m'))
      → Ends n Q T U (ask c missing args m k)
  unfolding ask
  ask-Ends {B} none missing args m k keeps ok given later = later missing m ok
  ask-Ends {B} (some call) missing args m k keeps ok given later =
      given _ (λ a. answer (call a m) (keeps a m ok))
    where
      answer :
          (r : Machine E × Option B)
          → After Q T r
          → Ends n Q T U (elim r.1 [ none ↦ throw r.0 | some b ↦ k b r.0 ])
      answer (m', none) after = after
      answer (m', some b) after = later b m' after

  -- One instruction.
  pub perform-Ends :
      (h : Host E) (f : Frame) (m : Machine E) (a : Action)
      → KeepsAll Q T h
      → Fits Named Counted a
      → length f.regs ≡ n
      → Q m
      → Ends n Q T U (perform h f m a)
  unfolding perform
  perform-Ends h f m unsupported keeps fits size ok = ok
  perform-Ends h f m (skip units) keeps fits size ok = (size, ok)
  perform-Ends h f m (copy dst src units) keeps (d, s) size ok =
      with_reg-Ends src f _ s size (λ v. assign-Ends dst v units f m d size ok)
  perform-Ends h f m (result dst) keeps d size ok = assign-Ends dst f.ret 1 f m d size ok
  perform-Ends h f m give_nothing keeps fits size ok = ok
  perform-Ends h f m give_result keeps fits size ok = ok
  perform-Ends h f m (give src) keeps s size ok = with_reg-Ends src f _ s size (λ v. ok)
  perform-Ends h f m (load dst value units) keeps d size ok =
      assign-Ends dst value units f m d size ok
  perform-Ends h f m (jump off fall) keeps fits size ok = (size, ok)
  perform-Ends h f m (branch k a none off) keeps fits size ok =
      with_reg-Ends a f _ fits size (λ x. (size, ok))
  perform-Ends h f m (branch k a (some b) off) keeps (fa, fb) size ok =
      with_reg-Ends a f _ fa size (λ x. with_reg-Ends b f _ fb size (λ y. (size, ok)))
  perform-Ends h f m (string dst idx units) keeps d size ok =
      ask-Ends h.on_const_string 0 _ m _ keeps.strings ok (λ call given. given idx)
        (λ v m' ok'. assign-Ends dst v units f m' d size ok')
  perform-Ends h f m (instance_of_type dst idx) keeps d size ok =
      ask-Ends h.on_new_instance 0 _ m _ keeps.instances ok (λ call given. given idx)
        (λ v m' ok'. assign-Ends dst v 2 f m' d size ok')
  perform-Ends h f m (array_length dst src) keeps (d, s) size ok =
      ask-Ends h.on_array_length 0 _ m _ keeps.lengths ok
        (λ call given. with_reg-Ends src f _ s size given)
        (λ v m' ok'. assign-Ends dst (v % u32_mod) 1 f m' d size ok')
  perform-Ends h f m (new_array dst src idx) keeps (d, s) size ok =
      ask-Ends h.on_new_array 0 _ m _ keeps.arrays ok
        (λ call given. with_reg-Ends src f _ s size (λ x. given _))
        (λ v m' ok'. assign-Ends dst v 2 f m' d size ok')
  perform-Ends h f m (aget dst arr idx) keeps (d, fa, fi) size ok =
      ask-Ends h.on_aget 0 _ m _ keeps.agets ok
        (λ call given.
          with_reg-Ends arr f _ fa size (λ a. with_reg-Ends idx f _ fi size (λ x. given _)))
        (λ v m' ok'. assign-Ends dst v 2 f m' d size ok')
  perform-Ends h f m (aput src arr idx) keeps (s, fa, fi) size ok =
      ask-Ends h.on_aput tt _ m _ keeps.aputs ok
        (λ call given.
          with_reg-Ends arr f _ fa size
            (λ a. with_reg-Ends idx f _ fi size (λ x. with_reg-Ends src f _ s size (λ v. given _))))
        (λ b m' ok'. (size, ok'))
  perform-Ends h f m (sget dst idx) keeps d size ok =
      ask-Ends h.on_sget 0 _ m _ keeps.sgets ok (λ call given. given idx)
        (λ v m' ok'. assign-Ends dst v 2 f m' d size ok')
  perform-Ends h f m (sput src idx) keeps s size ok =
      ask-Ends h.on_sput tt _ m _ keeps.sputs ok
        (λ call given. with_reg-Ends src f _ s size (λ v. given _)) (λ b m' ok'. (size, ok'))
  perform-Ends h f m (iget dst obj idx) keeps (d, o) size ok =
      ask-Ends h.on_iget 0 _ m _ keeps.igets ok
        (λ call given. with_reg-Ends obj f _ o size (λ x. given _))
        (λ v m' ok'. assign-Ends dst v 2 f m' d size ok')
  perform-Ends h f m (iput src obj idx) keeps (s, o) size ok =
      ask-Ends h.on_iput tt _ m _ keeps.iputs ok
        (λ call given.
          with_reg-Ends obj f _ o size (λ x. with_reg-Ends src f _ s size (λ v. given _)))
        (λ b m' ok'. (size, ok'))
  perform-Ends h f m (invoke kind idx count regs) keeps (counted, all) size ok =
      elim (Bool-cases (ltb (length regs) count)) [
        | inl over ↦ rw over (too_many count (length regs) counted (ground arith))
        | inr fits ↦ rw fits (
            with_regs-Ends (take count regs) f _ all size (λ vs.
              ask-Ends h.on_invoke 0 _ m _ keeps.invokes ok (λ call given. given _)
                (λ v m' ok'. (size, ok'))))
      ]
  perform-Ends h f m (invoke_range kind idx count first) keeps fits size ok =
      ask-Ends h.on_invoke 0 _ m _ keeps.invokes ok (λ call given. given _)
        (λ v m' ok'. (size, ok'))
  perform-Ends h f m (convert op dst src) keeps (d, s) size ok =
      with_reg-Ends src f _ s size (λ v. assign-Ends dst _ 1 f m d size ok)
  perform-Ends h f m (binary k dst a b units) keeps (d, fa, fb) size ok =
      with_reg-Ends a f _ fa size
        (λ x. with_reg-Ends b f _ fb size (λ y. assign-Ends dst _ units f m d size ok))
  perform-Ends h f m (literal reversed k dst src lit) keeps (d, s) size ok =
      with_reg-Ends src f _ s size (λ v. assign-Ends dst _ 2 f m d size ok)
