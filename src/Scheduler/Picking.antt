-- ===== src/Scheduler/Picking.antt =====
-- `Scheduler::pick_next`: it finds a runnable thread if there is one, and passes over none for long.
use vardoger.Prelude.{
  ℕ, zero, suc, ◌+◌, ◌%◌, ◌<◌, ◌≡◌, ◌↔◌, ◌⊎◌, refl, sym, ap, ◌∙◌, subst, inl, inr, true, false,
  Option, none, some, List, [], ◌∷◌, arith, length, get_or, Option-cases, Bool-cases,
}
use vardoger.Prelude.Order.{nat_key}
use vardoger.Prelude.Map.{keys}
use vardoger.Scheduler.{Sched, scan, preferred, pick_next}
use vardoger.Scheduler.Scans.{
  runs, id_at, compare_cases, scan-some, scan-none, distance, distance-lt, distance_next, position,
  id_at-distance, some_eq,
}

-- The number is among those that were picked.
abbrev pub Picked : ℕ → List (Option ℕ) → Type 0
Picked id [] = ⊥
Picked id (p ∷ ps) = (p ≡ some id) ⊎ Picked id ps

module _ {ℓ} {M : Type ℓ} where
  preferred-runs : (s : Sched M) (id : ℕ) → preferred s ≡ some id → runs s.threads id ≡ true
  unfolding preferred runs
  preferred-runs s id h = ground arith

  -- The three ways in which `pick_next` ends.
  data Picks (s : Sched M) : Sched M × Option ℕ → Type ℓ where
    first : {id : ℕ} → preferred s ≡ some id → Picks s (record s { prefer = 0 }, some id)
    nobody :
        preferred s ≡ none
        → scan s.threads s.rr (length s.threads) 0 ≡ none
        → Picks s (record s { prefer = 0 }, none)
    in_turn :
        {k id : ℕ}
        → preferred s ≡ none
        → scan s.threads s.rr (length s.threads) 0 ≡ some (k, id)
        → Picks s (record s { prefer = 0; rr = (s.rr + k + 1) % length s.threads }, some id)

  pick_next-Picks : (s : Sched M) → Picks s (pick_next s)
  unfolding pick_next
  pick_next-Picks s = elim (Option-cases (preferred s)) [
    | inr (id, e) ↦ rw (e, pick_next) (first e)
    | inl e ↦ elim (Option-cases (scan s.threads s.rr (length s.threads) 0)) [
      | inl n ↦ rw (e, n, pick_next) (nobody e n)
      | inr ((k, id), f) ↦ rw (e, f, pick_next) (in_turn e f)
    ]
  ]

  Picks-runs :
      (s : Sched M) (r : Sched M × Option ℕ) (id : ℕ)
      → Picks s r
      → r.1 ≡ some id
      → (runs s.threads id ≡ true) × (r.0.threads ≡ s.threads)
  Picks-runs s _ id (first {id = a} e) h = (preferred-runs s id (e ∙ h), refl)
  Picks-runs s _ id (nobody e f) h = cc
  Picks-runs s _ id (in_turn {k} {id = a} e f) h =
      let found = scan-some s.threads s.rr (length s.threads) 0 k a f in
      (subst (λ (t : ℕ). runs s.threads t ≡ true) (some_eq h) found.3, refl)

  -- `pick_next` picks a thread of the table that can run, and leaves the table as it is.
  pub pick_next-runs :
      (s : Sched M) (id : ℕ)
      → (pick_next s).1 ≡ some id
      → (runs s.threads id ≡ true) × ((pick_next s).0.threads ≡ s.threads)
  pick_next-runs s id h = Picks-runs s _ id (pick_next-Picks s) h

  pub pick_next-threads : (s : Sched M) → (pick_next s).0.threads ≡ s.threads
  unfolding pick_next
  pick_next-threads s = ground arith

  Picks-none :
      (s : Sched M) (r : Sched M × Option ℕ)
      → Picks s r
      → r.1 ≡ none
      → (id : ℕ) → runs s.threads id ≡ false
  Picks-none s _ (first e) h id = cc
  Picks-none s _ (in_turn e f) h id = cc
  Picks-none s _ (nobody e f) h id = elim (Bool-cases (runs s.threads id)) [
    | inr no' ↦ no'
    | inl yes' ↦
        let (j, lt, at) = position s.threads id yes' in
        let d = distance s.rr j (length s.threads) in
        let idle =
          scan-none s.threads s.rr (length s.threads) 0 f d (omega arith)
            (omega (arith, distance-lt s.rr j (length s.threads) lt)) in
        absurd (
          let no' : true ≡ false =
            sym yes'
            ∙ (sym (ap (runs s.threads) (id_at-distance s.threads s.rr j lt ∙ at)) ∙ idle) in
          cc)
  ]

  -- `pick_next` gives no thread exactly when no thread of the table can run.
  pub pick_next-none_iff :
      (s : Sched M) → ((pick_next s).1 ≡ none) ↔ ((id : ℕ) → runs s.threads id ≡ false)
  pick_next-none_iff s = (
    Picks-none s _ (pick_next-Picks s),
    λ idle. elim (Option-cases (pick_next s).1) [
      | inl e ↦ e
      | inr (id, e) ↦
          absurd (let no' : true ≡ false = sym (pick_next-runs s id e).0 ∙ idle id in cc)
    ],
  )

  -- `n` picks in a row, with nothing between them.
  abbrev pub picks : ℕ → Sched M → List (Option ℕ)
  picks zero s = []
  picks (suc n) s = (pick_next s).1 ∷ picks n (pick_next s).0

  Picks-nearer :
      (s : Sched M) (r : Sched M × Option ℕ) (j id : ℕ)
      → Picks s r
      → s.prefer ≡ 0
      → j < length s.threads
      → get_or (keys s.threads) j 0 ≡ id
      → runs s.threads id ≡ true
      → (r.1 ≡ some id)
        ⊎ ((r.0.threads ≡ s.threads)
            × (r.0.prefer ≡ 0)
            × (distance r.0.rr j (length s.threads) < distance s.rr j (length s.threads)))
  unfolding preferred
  Picks-nearer s _ j id (first e) z lt at run = ground arith
  Picks-nearer s _ j id (nobody e f) z lt at run =
      absurd (let no' : true ≡ false = sym run ∙ Picks-none s _ (nobody e f) refl id in cc)
  Picks-nearer s _ j id (in_turn {k} {id = a} e f) z lt at run =
      let n = length s.threads in
      let d = distance s.rr j n in
      let here : id_at s.threads s.rr d ≡ id = id_at-distance s.threads s.rr j lt ∙ at in
      let found = scan-some s.threads s.rr n 0 k a f in
      let awake : runs s.threads (id_at s.threads s.rr d) ≡ true = ap (runs s.threads) here ∙ run in
      elim (compare_cases d k) [
        | inl before ↦
            absurd (let no' : true ≡ false = sym awake ∙ found.4 d (omega arith) before in cc)
        | inr (inl same) ↦ inl (ap some (found.2 ∙ (ap (id_at s.threads s.rr) (sym same) ∙ here)))
        | inr (inr behind) ↦ inr (refl, refl, distance_next s.rr j n k lt behind)
      ]

  picks-Picked :
      (left : ℕ) (s : Sched M) (j id : ℕ)
      → s.prefer ≡ 0
      → j < length s.threads
      → get_or (keys s.threads) j 0 ≡ id
      → runs s.threads id ≡ true
      → distance s.rr j (length s.threads) < left
      → Picked id (picks left s)
  picks-Picked zero s j id z lt at run near = absurd (omega arith)
  picks-Picked (suc left) s j id z lt at run near =
      elim (Picks-nearer s _ j id (pick_next-Picks s) z lt at run) [
        | inl hit ↦ inl hit
        | inr (same, z', closer) ↦
            let r = (pick_next s).0 in
            inr (
              picks-Picked left r j id z' (rw same lt) (rw same at) (rw same run)
                (rw same (omega arith)))
      ]

  -- A thread that can run is picked within as many picks in a row as there are threads, when no
  -- thread is preferred and the table stays as it is.
  pub picks_fair :
      (s : Sched M) (id : ℕ)
      → s.prefer ≡ 0
      → runs s.threads id ≡ true
      → Picked id (picks (length s.threads) s)
  picks_fair s id z run =
      let (j, lt, at) = position s.threads id run in
      picks-Picked (length s.threads) s j id z lt at run (distance-lt s.rr j (length s.threads) lt)
