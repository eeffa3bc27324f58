-- ===== src/Scheduler/Scans.antt =====
-- The scan of `Scheduler::pick_next`, and how far a thread is from the cursor.
use vardoger.Prelude.{
  ℕ, zero, suc, ◌+◌, ◌-◌, ◌%◌, ◌≤◌, ◌<◌, ◌≡◌, ◌⊎◌, sym, ap, ◌∙◌, subst, inl, inr, Bool, true, false,
  Option, none, some, [], ◌∷◌, arith, ◌==◌, leb, ltb, ltb→lt, if◌then◌else◌, length, get_or,
  Bool-cases, ==_iff,
}
use native.Mathlib.Nat.{mod-lt, mod-eq_of_lt, mod-add-mod, mod-eq-sub-mod}
use vardoger.Prelude.Order.{nat_key}
use vardoger.Prelude.Map.{Map, find, keys}
use vardoger.Scheduler.{Thread, is_runnable, scan}

-- Is there a runnable thread of that number?
unfoldable pub runs : Map ℕ Thread → ℕ → Bool
runs m id = elim (find id m) [ none ↦ false | some t ↦ is_runnable t ]

-- The number at a position from the cursor on, round the table.
unfoldable pub id_at : Map ℕ Thread → ℕ → ℕ → ℕ
id_at m rr k = get_or (keys m) ((rr + k) % length m) 0

scan-step :
    (m : Map ℕ Thread) (rr left k : ℕ)
    → scan m rr (suc left) k
      ≡ (if runs m (id_at m rr k) then some (k, id_at m rr k) else scan m rr left (k + 1))
unfolding scan runs id_at
scan-step m rr left k = ground arith

some_pair : {a b c d : ℕ} → ◌≡◌ {A = Option (ℕ × ℕ)} (some (a, b)) (some (c, d)) → (a ≡ c) × (b ≡ d)
some_pair h = ground arith

pub compare_cases : (a b : ℕ) → (a < b) ⊎ (a ≡ b) ⊎ (b < a)
compare_cases a b = omega arith

-- The scan stops at the first position whose thread can run.
pub scan-some :
    (m : Map ℕ Thread) (rr left k i id : ℕ)
    → scan m rr left k ≡ some (i, id)
    → (k ≤ i)
      × (i < k + left)
      × (id ≡ id_at m rr i)
      × (runs m id ≡ true)
      × ((j : ℕ) → k ≤ j → j < i → runs m (id_at m rr j) ≡ false)
unfolding scan
scan-some m rr zero k i id h = cc
scan-some m rr (suc left) k i id h = elim (Bool-cases (runs m (id_at m rr k))) [
  | inl hit ↦
      let e : ◌≡◌ {A = Option (ℕ × ℕ)} (some (k, id_at m rr k)) (some (i, id)) =
        sym (scan-step m rr left k ∙ rw hit) ∙ h in
      let k_i : k ≡ i = (some_pair e).0 in
      let same : id_at m rr k ≡ id = (some_pair e).1 in
      (
        omega arith,
        omega arith,
        sym same ∙ ap (id_at m rr) k_i,
        ap (runs m) (sym same) ∙ hit,
        λ j le lt. absurd (omega arith),
      )
  | inr miss ↦
      let later = scan-some m rr left (k + 1) i id (sym (scan-step m rr left k ∙ rw miss) ∙ h) in
      (
        omega (arith, later.0),
        omega (arith, later.1),
        later.2,
        later.3,
        λ j le lt. ground (arith, later.4 j),
      )
]

pub scan-none :
    (m : Map ℕ Thread) (rr left k : ℕ)
    → scan m rr left k ≡ none
    → (j : ℕ) → k ≤ j
    → j < k + left
    → runs m (id_at m rr j) ≡ false
unfolding scan
scan-none m rr zero k h j le lt = absurd (omega arith)
scan-none m rr (suc left) k h j le lt = elim (Bool-cases (runs m (id_at m rr k))) [
  | inl hit ↦
      absurd
        (let no : none ≡ some (k, id_at m rr k) = sym h ∙ (scan-step m rr left k ∙ rw hit) in cc)
  | inr miss ↦
      let later = scan-none m rr left (k + 1) (sym (scan-step m rr left k ∙ rw miss) ∙ h) in
      elim (Bool-cases (j == k)) [
        | inl e ↦ subst (λ (t : ℕ). runs m (id_at m rr t) ≡ false) (sym ((==_iff j k).0 e)) miss
        | inr ne ↦ later j (ground arith) (omega arith)
      ]
]

-- How far position `j` is ahead of the cursor, round a table of `n`.
abbrev pub distance : ℕ → ℕ → ℕ → ℕ
distance rr j n = if leb (rr % n) j then j - rr % n else j + n - rr % n

pub distance-lt : (rr j n : ℕ) → j < n → distance rr j n < n
distance-lt rr j n h = ground arith

mod_wrap : (a n : ℕ) → a < n + n → a % n ≡ (if ltb a n then a else a - n)
mod_wrap a n h = elim (Bool-cases (ltb a n)) [
  | inl lt ↦ rw lt (mod-eq_of_lt (ltb→lt a n lt))
  | inr ge ↦ rw ge (
      mod-eq-sub-mod {n = a} {m = n} (ground arith)
      ∙ mod-eq_of_lt {n = a - n} {m = n} (ground arith))
]

distance_lem : (rr j n : ℕ) → j < n → (rr + distance rr j n) % n ≡ j
distance_lem rr j n h =
    sym (mod-add-mod rr n (distance rr j n))
    ∙ (mod_wrap (rr % n + distance rr j n) n (ground (arith, mod-lt rr {m = n}))
        ∙ ground (arith, mod-lt rr {m = n}))

-- The cursor moves to behind the picked position, which brings `j` nearer.
pub distance_next :
    (rr j n i : ℕ) → j < n → i < distance rr j n → distance ((rr + i + 1) % n) j n < distance rr j n
distance_next rr j n i h lt =
    let r_lt : rr % n < n = mod-lt rr (omega arith) in
    let c_lt : (rr + i + 1) % n < n = mod-lt (rr + i + 1) (omega arith) in
    let shift : (rr + i + 1) % n ≡ (rr % n + (i + 1)) % n =
      ground (arith, mod-add-mod rr n (i + 1)) in
    let wrap = mod_wrap (rr % n + (i + 1)) n (ground arith) in
    let same = mod-eq_of_lt c_lt in ground arith

-- A thread of the table stands at some position.
pub position :
    (m : Map ℕ Thread) (id : ℕ)
    → runs m id ≡ true
    → (j : ℕ) × (j < length m) × (get_or (keys m) j 0 ≡ id)
unfolding runs find
position [] id h = cc
position ((k, t) ∷ m) id h = elim (Bool-cases (id == k)) [
  | inl e ↦ (0, omega arith, sym ((==_iff id k).0 e))
  | inr ne ↦
      let rest : runs m id ≡ true = rw (ne, runs, find) at h in
      let (j, lt, e) = position m id rest in (suc j, omega arith, e)
]

pub id_at-distance :
    (m : Map ℕ Thread) (rr j : ℕ)
    → j < length m
    → id_at m rr (distance rr j (length m)) ≡ get_or (keys m) j 0
unfolding id_at
id_at-distance m rr j h = ap (λ (k : ℕ). get_or (keys m) k 0) (distance_lem rr j (length m) h)

pub some_eq : {a b : ℕ} → ◌≡◌ {A = Option ℕ} (some a) (some b) → a ≡ b
some_eq h = ground arith
