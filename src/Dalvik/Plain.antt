-- ===== src/Dalvik/Plain.antt =====
-- An instruction of the interpreter that goes on behind itself, with registers that are there.
use vardoger.Prelude.{
  ℕ, zero, suc, ◌+◌, ◌%◌, ◌≤◌, ◌<◌, ◌≡◌, refl, ◌∙◌, true, false, none, some, List, [], ◌∷◌, arith,
  ltb, length, length-set, get_elem?, take, Option,
}
use vardoger.Dex.{u32_mod}
use vardoger.Dalvik.Actions.{
  Action, unsupported, skip, copy, result, give_nothing, give_result, give, load, jump, branch,
  string, instance_of_type, array_length, new_array, aget, aput, sget, sput, iget, iput, invoke,
  invoke_range, convert, binary, literal,
}
use vardoger.Dalvik.Machine.{
  Machine, Callback, Host, Frame, Outcome, next, leave, throw, undefined, assign, with_reg,
  with_regs, ask, perform,
}

-- Every register is one of `n`.
abbrev pub AllBelow : ℕ → List ℕ → Type 0
AllBelow n [] = Unit {0}
AllBelow n (r ∷ rs) = (r < n) × AllBelow n rs

pub AllBelow-take : (n k : ℕ) (rs : List ℕ) → AllBelow n rs → AllBelow n (take k rs)
AllBelow-take n zero rs low = tt
AllBelow-take n (suc k) [] low = tt
AllBelow-take n (suc k) (r ∷ rs) (low, lows) = (low, AllBelow-take n k rs lows)

-- An action on `n` registers that returns, or goes on `units` further.
abbrev pub Plain : ℕ → ℕ → Action → Type 0
Plain n units (skip u) = u ≡ units
Plain n units (copy dst src u) = (dst < n) × (src < n) × (u ≡ units)
Plain n units (result dst) = (dst < n) × (units ≡ 1)
Plain n units give_nothing = Unit {0}
Plain n units (give src) = src < n
Plain n units (load dst value u) = (dst < n) × (u ≡ units)
Plain n units (string dst idx u) = (dst < n) × (u ≡ units)
Plain n units (iget dst obj idx) = (dst < n) × (obj < n) × (units ≡ 2)
Plain n units (invoke kind idx count regs) =
    (count ≤ length regs) × AllBelow n (take count regs) × (units ≡ 3)
Plain n units (binary k dst a b u) = (dst < n) × (a < n) × (b < n) × (u ≡ units)
Plain n units _ = ⊥

pub get_elem?-some : (xs : List ℕ) (i : ℕ) → i < length xs → (v : ℕ) × (get_elem? xs i ≡ some v)
get_elem?-some [] i low = absurd (omega arith)
get_elem?-some (x ∷ xs) zero low = (x, refl)
get_elem?-some (x ∷ xs) (suc i) low = get_elem?-some xs i (omega arith)

module _ {ℓ} {E : Type ℓ} (n : ℕ) (P : ℕ → Type 0) where
  -- The run goes on with as many registers, at a place of `P`, or it ends.
  abbrev pub Lands : Outcome E → Type 0
  Lands (next f m) = (length f.regs ≡ n) × P f.pc
  Lands (leave v m) = Unit {0}
  Lands (throw m) = Unit {0}
  Lands undefined = ⊥

  assign-Lands :
      (dst v units u : ℕ) (f : Frame) (m : Machine E)
      → dst < n
      → u ≡ units
      → length f.regs ≡ n
      → P ((f.pc + units) % u32_mod)
      → Lands (assign dst v u f m)
  unfolding assign
  assign-Lands dst v units u f m low same size there =
      rw (let inside : ltb dst (length f.regs) ≡ true = ground arith in inside, Lands)
        (length-set f.regs dst v ∙ size, rw same there)

  pub with_reg-Lands :
      (src : ℕ) (f : Frame) (k : ℕ → Outcome E)
      → src < n
      → length f.regs ≡ n
      → ((v : ℕ) → Lands (k v))
      → Lands (with_reg src f k)
  unfolding with_reg
  with_reg-Lands src f k low size later =
      let (v, e) = get_elem?-some f.regs src (omega arith) in rw (e, Lands) (later v)

  with_regs-Lands :
      (rs : List ℕ) (f : Frame) (k : List ℕ → Outcome E)
      → AllBelow n rs
      → length f.regs ≡ n
      → ((vs : List ℕ) → Lands (k vs))
      → Lands (with_regs rs f k)
  unfolding with_regs
  with_regs-Lands [] f k low size later = later []
  with_regs-Lands (r ∷ rs) f k (low, lows) size later =
      with_reg-Lands r f _ low size (λ v. with_regs-Lands rs f _ lows size (λ vs. later (v ∷ vs)))

  ask-Lands :
      {A B : Type 0} (c : Callback E A B) (missing : B) (args : (A → Outcome E) → Outcome E)
      (m : Machine E) (k : B → Machine E → Outcome E)
      → ((call : A → Outcome E) → ((a : A) → Lands (call a)) → Lands (args call))
      → ((b : B) (m' : Machine E) → Lands (k b m'))
      → Lands (ask c missing args m k)
  unfolding ask
  ask-Lands {B} none missing args m k given later = later missing m
  ask-Lands {B} (some call) missing args m k given later = given _ (λ a. answer (call a m))
    where
      answer : (r : Machine E × Option B) → Lands (elim r.1 [ none ↦ throw r.0 | some b ↦ k b r.0 ])
      answer (m', none) = tt
      answer (m', some b) = later b m'

  -- One instruction.
  pub perform-Lands :
      (h : Host E) (f : Frame) (m : Machine E) (units : ℕ) (a : Action)
      → Plain n units a
      → length f.regs ≡ n
      → P ((f.pc + units) % u32_mod)
      → Lands (perform h f m a)
  unfolding perform
  perform-Lands h f m units (skip u) same size there = (size, rw same there)
  perform-Lands h f m units (copy dst src u) (d, s, same) size there =
      with_reg-Lands src f _ s size (λ v. assign-Lands dst v units u f m d same size there)
  perform-Lands h f m units (result dst) (d, one) size there =
      assign-Lands dst f.ret units 1 f m d (omega arith) size there
  perform-Lands h f m units give_nothing plain size there = tt
  perform-Lands h f m units (give src) s size there = with_reg-Lands src f _ s size (λ v. tt)
  perform-Lands h f m units (load dst value u) (d, same) size there =
      assign-Lands dst value units u f m d same size there
  perform-Lands h f m units (string dst idx u) (d, same) size there =
      ask-Lands h.on_const_string 0 _ m _ (λ call given. given idx)
        (λ v m'. assign-Lands dst v units u f m' d same size there)
  perform-Lands h f m units (iget dst obj idx) (d, o, two) size there =
      ask-Lands h.on_iget 0 _ m _ (λ call given. with_reg-Lands obj f _ o size (λ x. given _))
        (λ v m'. assign-Lands dst v units 2 f m' d (omega arith) size there)
  perform-Lands h f m units (invoke kind idx count regs) (room, all, three) size there =
      rw (let fits : ltb (length regs) count ≡ false = ground arith in fits, Lands)
        (with_regs-Lands (take count regs) f _ all size (λ vs.
          ask-Lands h.on_invoke 0 _ m _ (λ call given. given _)
            (λ v m'. (size, rw three at there))))
  perform-Lands h f m units (binary k dst a b u) (d, fa, fb, same) size there =
      with_reg-Lands a f _ fa size
        (λ x. with_reg-Lands b f _ fb size (λ y. assign-Lands dst _ units u f m d same size there))
  perform-Lands h f m units unsupported plain size there = absurd plain
  perform-Lands h f m units give_result plain size there = absurd plain
  perform-Lands h f m units (jump off fall) plain size there = absurd plain
  perform-Lands h f m units (branch k a b off) plain size there = absurd plain
  perform-Lands h f m units (instance_of_type dst idx) plain size there = absurd plain
  perform-Lands h f m units (array_length dst src) plain size there = absurd plain
  perform-Lands h f m units (new_array dst src idx) plain size there = absurd plain
  perform-Lands h f m units (aget dst arr idx) plain size there = absurd plain
  perform-Lands h f m units (aput dst arr idx) plain size there = absurd plain
  perform-Lands h f m units (sget dst idx) plain size there = absurd plain
  perform-Lands h f m units (sput dst idx) plain size there = absurd plain
  perform-Lands h f m units (iput dst obj idx) plain size there = absurd plain
  perform-Lands h f m units (invoke_range kind idx count first) plain size there = absurd plain
  perform-Lands h f m units (convert op dst src) plain size there = absurd plain
  perform-Lands h f m units (literal reversed k dst src lit) plain size there = absurd plain
