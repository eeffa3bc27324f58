-- ===== src/Dalvik/Balance.antt =====
-- The counter depth_ of the interpreter, over runs that return and runs that end by an exception.
use vardoger.Prelude.{
  ℕ, zero, suc, ◌+◌, ◌≤◌, ◌<◌, ◌≡◌, refl, subst, inr, none, some, List, [], ◌∷◌, arith, take,
  if◌then◌else◌, ◌==◌, leb, not, ◌||◌, true,
}
use vardoger.Prelude.Order.{Bytes}
use vardoger.Dex.File.{Code}
use vardoger.Dalvik.Actions.{
  Action, unsupported, skip, copy, result, give_nothing, give_result, give, load, jump, branch,
  string, instance_of_type, array_length, new_array, aget, aput, sget, sput, iget, iput, invoke,
  invoke_range, convert, binary, literal,
}
use vardoger.Dalvik.Machine.{Machine, Host, Outcome, leave, throw, run}
use vardoger.Dalvik.Outcomes.{KeepsAll, Fits, All}
use vardoger.Dalvik.Rounds.{Done, run-Done}

-- Nothing is asked of the registers.
abbrev Any : ℕ → Type 0
Any r = Unit {0}

abbrev AnyCount : ℕ → ℕ → Type 0
AnyCount count room = Unit {0}

All-Any : (rs : List ℕ) → All Any AnyCount rs
All-Any [] = tt
All-Any (r ∷ rs) = (tt, All-Any rs)

Fits-Any : (a : Action) → Fits Any AnyCount a
Fits-Any unsupported = tt
Fits-Any (skip _) = tt
Fits-Any (copy _ _ _) = (tt, tt)
Fits-Any (result _) = tt
Fits-Any give_nothing = tt
Fits-Any give_result = tt
Fits-Any (give _) = tt
Fits-Any (load _ _ _) = tt
Fits-Any (jump _ _) = tt
Fits-Any (branch _ _ none _) = tt
Fits-Any (branch _ _ (some _) _) = (tt, tt)
Fits-Any (string _ _ _) = tt
Fits-Any (instance_of_type _ _) = tt
Fits-Any (array_length _ _) = (tt, tt)
Fits-Any (new_array _ _ _) = (tt, tt)
Fits-Any (aget _ _ _) = (tt, tt, tt)
Fits-Any (aput _ _ _) = (tt, tt, tt)
Fits-Any (sget _ _) = tt
Fits-Any (sput _ _) = tt
Fits-Any (iget _ _ _) = (tt, tt)
Fits-Any (iput _ _ _) = (tt, tt)
Fits-Any (invoke _ _ count regs) = (tt, All-Any (take count regs))
Fits-Any (invoke_range _ _ _ _) = tt
Fits-Any (convert _ _ _) = (tt, tt)
Fits-Any (binary _ _ _ _ _) = (tt, tt, tt)
Fits-Any (literal _ _ _ _ _) = (tt, tt)

module _ {ℓ} {E : Type ℓ} where
  -- Callbacks that bring the depth back when they return, and do not lower it when they throw. One
  -- that runs the interpreter again, in turn with such callbacks, is of this kind.
  abbrev pub IsNeutral : Host E → Type ℓ
  IsNeutral h = (k : ℕ) → KeepsAll (λ m. m.depth ≡ k) (λ m. k ≤ m.depth) h

  abbrev pub Balanced : Machine E → Outcome E → Type 0
  Balanced m = Done (Unit {0}) (λ m'. m.depth < m'.depth) (λ m'. m'.depth ≡ m.depth)

  -- With callbacks that bring the depth back when they return and do not lower it when they throw,
  -- every run ends; one that returns leaves the depth as it was, and one that throws leaves it
  -- greater than it was.
  pub run-Balanced :
      (max_depth : ℕ) (h : Host E) (d : Bytes) (code : Code) (args : List ℕ) (m : Machine E)
      → IsNeutral h
      → Balanced m (run max_depth h d code args m)
  run-Balanced max_depth h d code args m neutral =
      run-Done Any AnyCount (if code.registers_size == 0 then 1 else code.registers_size) (Unit {0})
        (λ m'. m'.depth ≡ suc m.depth) _ _ (λ r named out. tt) (λ c r counted over. tt)
        (λ m' e. omega arith) max_depth h d code args m (neutral (suc m.depth))
        (λ valid pc inside. (λ out. tt, Fits-Any _)) refl (inr tt) refl (omega arith)

  -- Runs one after the other, each of which throws.
  pub data Throws (max_depth : ℕ) (h : Host E) (d : Bytes)
      : ℕ → Machine E → Machine E → Type ℓ where
    done : {m : Machine E} → Throws max_depth h d zero m m
    more :
        {count : ℕ} {m m' last : Machine E} (code : Code) (args : List ℕ)
        → run max_depth h d code args m ≡ throw m'
        → Throws max_depth h d count m' last
        → Throws max_depth h d (suc count) m last

  Throws-le :
      {max_depth : ℕ} {h : Host E} {d : Bytes} {count : ℕ} {m last : Machine E}
      → IsNeutral h
      → Throws max_depth h d count m last
      → m.depth + count ≤ last.depth
  Throws-le neutral done = omega arith
  Throws-le {max_depth} {h} {d} {m = m} neutral (more {m' = m'} code args thrown rest) =
      let deeper : Balanced m (throw m') =
        subst (Balanced m) thrown (run-Balanced max_depth h d code args m neutral) in
      omega (arith, Throws-le neutral rest)

  -- The levels that runs leave open when they throw are not closed again: after as many of them as
  -- the depth may grow, no method is run any more, and each run gives 0.
  pub run-Throws :
      (max_depth : ℕ) (h : Host E) (d : Bytes) (count : ℕ) (m last : Machine E)
      → IsNeutral h
      → Throws max_depth h d count m last
      → max_depth ≤ m.depth + count
      → (code : Code) (args : List ℕ) → run max_depth h d code args last ≡ leave 0 last
  unfolding run
  run-Throws max_depth h d count m last neutral thrown enough code args =
      let deep : (not code.valid || leb max_depth last.depth) ≡ true =
        ground (arith, Throws-le neutral thrown) in
      rw deep
