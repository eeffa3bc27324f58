-- ===== src/Scheduler/Endings.antt =====
-- The ways in which `Scheduler::run` ends: the flag `running_`, and the count of preemptions.
use vardoger.Prelude.{
  ℕ, ◌+◌, ◌≡◌, refl, ◌∙◌, inl, inr, Bool, true, false, not, ◌&&◌, ltb, Option, none, some, List, [],
  ◌∷◌, arith, ◌==◌, get_or, if◌then◌else◌, Option-cases, Bool-cases,
}
use vardoger.Prelude.Order.{nat_key}
use vardoger.Prelude.Map.{find}
use vardoger.Scheduler.{
  Sched, Thread, finished, update, Config, Stop, no_stop, exit_stop, block_stop, yield_stop,
  fini_page, wake_joiners, pick_next,
}
use vardoger.Scheduler.Calls.{
  spawn, spawn_clone, thread_exit, join_done, do_join, do_yield, mutex_lock, mutex_unlock,
  cond_wait, cond_wake,
}
use vardoger.Scheduler.Slices.{
  Action, Slice, act, execute, enter, retire, ended, after_fault, after_run, stopped, after_enter,
  resume, and_then, Round, round, loop, start, run, Error, continues, returns, throws, computes,
  maps, spawns, clones, exits, joins, yields, locks, unlocks, waits, wakes, preempt_cap,
}

abbrev is_cap : Error → Bool
is_cap preempt_cap = true
is_cap _ = false

module _ {ℓ} {M : Type ℓ} (mmap_alloc : M → ℕ → Option (ℕ × M)) (g : Config) where
  -- `running_` is set while the loop goes on. It is reset by a normal end and by the preemption
  -- cap, and by no other error.
  abbrev pub Flagged : Round M → Type 0
  Flagged (continues s n) = s.running ≡ true
  Flagged (returns s v) = s.running ≡ false
  Flagged (throws s e) = s.running ≡ not (is_cap e)

  spawn-running :
      (s : Sched M) (out routine arg : ℕ)
      → (spawn mmap_alloc s out routine arg).0.running ≡ s.running
  unfolding spawn
  spawn-running s out routine arg = ground arith

  wake_joiners-running : (s : Sched M) (id : ℕ) → (wake_joiners s id).0.running ≡ s.running
  unfolding wake_joiners
  wake_joiners-running s id = ground arith

  act-running : (s : Sched M) (a : Action) → (act mmap_alloc g s a).0.running ≡ s.running
  unfolding act spawn_clone thread_exit do_join join_done do_yield mutex_lock mutex_unlock cond_wait
      cond_wake
  act-running s (computes cpu) = refl
  act-running s (maps accepts) = refl
  act-running s (spawns out routine arg) = spawn-running s out routine arg
  act-running s (clones child_sp tls ptid ctid) = ground arith
  act-running s (exits status) = ground arith
  act-running s (joins tid out) = ground arith
  act-running s yields = refl
  act-running s (locks m) = ground arith
  act-running s (unlocks m) = refl
  act-running s (waits c m) = refl
  act-running s (wakes c all) = refl

  execute-running :
      (s : Sched M) (as' : List Action) → (execute mmap_alloc g s as').0.running ≡ s.running
  unfolding execute
  execute-running s [] = refl
  execute-running s (a ∷ rest) =
      ground (arith, act-running s a, execute-running (act mmap_alloc g s a).0 rest)

  -- The end of a thread, and what follows it.
  retire-Flagged :
      (s : Sched M) (f : Thread → Thread) (next : Sched M → Round M)
      → s.running ≡ true
      → ((r : Sched M) → r.running ≡ true → Flagged (next r))
      → Flagged (ended mmap_alloc g (retire mmap_alloc g s f) next)
  unfolding retire
  retire-Flagged s f next on later =
      let gone = update s s.cur (λ t. record (f t) { state = finished }) in
      let on' = wake_joiners-running gone s.cur ∙ on in
      elim (Bool-cases (wake_joiners gone s.cur).1) [
        | inl threw ↦ rw threw on'
        | inr done ↦ rw done (later _ on')
      ]

  after_fault-Flagged :
      (s : Sched M) (n : ℕ) → s.running ≡ true → Flagged (after_fault mmap_alloc g s n)
  unfolding after_fault
  after_fault-Flagged s n on = elim (Bool-cases (not (s.cur == 0) && g.tolerate_worker_fault)) [
    | inl t ↦ rw t (retire-Flagged s _ (λ r. continues r n) on (λ r on'. on'))
    | inr t ↦ rw t on
  ]

  after_run-Flagged :
      (s : Sched M) (n : ℕ) → s.running ≡ true → Flagged (after_run mmap_alloc g s n)
  unfolding after_run
  after_run-Flagged s n on = elim (Bool-cases (s.cpu.pc == fini_page)) [
    | inl fini ↦ elim (Bool-cases (s.cur == 0)) [
      | inl main ↦
          rw (fini, main)
            (retire-Flagged s _ (λ r. returns (record r { running = false }) (get_or s.cpu.x 0 0))
              on (λ r on'. refl))
      | inr worker ↦ rw (fini, worker) (retire-Flagged s _ (λ r. continues r n) on (λ r on'. on'))
    ]
    | inr going ↦ elim (Bool-cases (g.quantum == 0)) [
      | inl never ↦ rw (going, never) on
      | inr sliced ↦
          elim (Bool-cases (
            not (g.max_preempt == 0)
            && ltb g.max_preempt (if g.max_preempt == 0 then n else n + 1))) [
              | inl cap ↦ rw (going, sliced, cap) refl
              | inr below ↦ rw (going, sliced, below) on
            ]
    ]
  ]

  stopped-Flagged :
      (s : Sched M) (n : ℕ) (why : Stop) → s.running ≡ true → Flagged (stopped mmap_alloc g s n why)
  unfolding stopped
  stopped-Flagged s n no_stop on = after_run-Flagged s n on
  stopped-Flagged s n exit_stop on = after_run-Flagged s n on
  stopped-Flagged s n block_stop on = on
  stopped-Flagged s n yield_stop on = on

  after_enter-Flagged :
      (s : Sched M) (n : ℕ) (slice : Slice)
      → s.running ≡ true
      → Flagged (after_enter mmap_alloc g s n slice)
  unfolding after_enter
  after_enter-Flagged s n slice on =
      let (s₂, threw) = execute mmap_alloc g s slice.actions in
      let on' = execute-running s slice.actions ∙ on in
      elim (Bool-cases threw) [
        | inl t ↦ rw t (after_fault-Flagged s₂ n on')
        | inr t ↦ elim (Bool-cases slice.faults) [
          | inl f ↦ rw (t, f) (after_fault-Flagged s₂ n on')
          | inr f ↦ rw (t, f) (stopped-Flagged s₂ n s₂.stop on')
        ]
      ]

  resume-Flagged :
      (s : Sched M) (n : ℕ) (slice : Slice) (picked : Option ℕ)
      → s.running ≡ true
      → Flagged (resume mmap_alloc g s n slice picked)
  unfolding resume enter
  resume-Flagged s n slice none on = on
  resume-Flagged s n slice (some id) on = elim (Option-cases (find id s.threads)) [
    | inl e ↦ rw (e, resume) on
    | inr (t, e) ↦ rw (e, resume) (after_enter-Flagged (enter mmap_alloc g s t) n slice on)
  ]

  pick_next-running : (s : Sched M) → (pick_next s).0.running ≡ s.running
  unfolding pick_next
  pick_next-running s = ground arith

  and_then-Flagged :
      (r : Round M) (next : Sched M → ℕ → Round M)
      → ((s : Sched M) (n : ℕ) → s.running ≡ true → Flagged (next s n))
      → Flagged r
      → Flagged (and_then mmap_alloc g r next)
  unfolding and_then
  and_then-Flagged (continues s n) next later on = later s n on
  and_then-Flagged (returns s v) next later off = off
  and_then-Flagged (throws s e) next later flag = flag

  loop-Flagged :
      (s : Sched M) (n : ℕ) (slices : List Slice)
      → s.running ≡ true
      → Flagged (loop mmap_alloc g s n slices)
  unfolding loop round
  loop-Flagged s n [] on = on
  loop-Flagged s n (slice ∷ rest) on =
      and_then-Flagged (round mmap_alloc g s n slice) _ (λ s' n' on'. loop-Flagged s' n' rest on')
        (resume-Flagged (pick_next s).0 n slice (pick_next s).1 (pick_next-running s ∙ on))

  -- While the loop of `run` goes on `running_` is set; it is reset when `run` returns or when it
  -- throws for the preemption cap, and it is still set when `run` throws for another reason.
  pub run-running :
      (s : Sched M) (fn : ℕ) (args : List ℕ) (slices : List Slice)
      → Flagged (run mmap_alloc g s fn args slices)
  unfolding run start
  run-running s fn args slices = loop-Flagged (start mmap_alloc g s fn args) 0 slices refl
