-- ===== src/Scheduler/Rounds.antt =====
-- The loop of `Scheduler::run` keeps the table sound.
use vardoger.Prelude.{
  ℕ, ◌+◌, ◌≡◌, refl, sym, ap, ◌∙◌, subst, inl, inr, true, false, not, ◌&&◌, ltb, Option, none, some,
  List, [], ◌∷◌, arith, ◌==◌, get_or, if◌then◌else◌, Option-cases, Bool-cases,
}
use vardoger.Prelude.Order.{nat_key}
use vardoger.Prelude.Map.{Map, find, insert, find-insert_self, adjust}
use vardoger.Scheduler.{
  Sched, Thread, Config, runnable, finished, Stop, no_stop, exit_stop, block_stop, yield_stop,
  fini_page, is_runnable, save_ctx, update, wake_loop, wake_joiners, pick_next,
}
use vardoger.Scheduler.Calls.{worker, thread_exit, do_yield}
use vardoger.Scheduler.Joins.{
  alive, lives, NoLostJoin, NoLostJoinBut, Named, NoLostJoin-retire, NoLostJoinBut-retire,
  NoLostJoin-insert, Named-insert, Named-Woken, wake_loop-Woken,
}
use vardoger.Scheduler.Soundness.{
  IsSound, IsSound-same, calm-IsSound, spawn-IsSound, spawn_clone-IsSound, do_join-IsSound,
  mutex_lock-IsSound, mutex_unlock-IsSound, cond_wait-IsSound, cond_wake-IsSound,
}
use vardoger.Scheduler.Scans.{runs}
use vardoger.Scheduler.Picking.{pick_next-runs, pick_next-threads}
use vardoger.Scheduler.Slices.{
  Action, Slice, act, execute, enter, retire, after_fault, after_run, stopped, after_enter, resume,
  and_then, Round, round, loop, start, run, continues, returns, throws, write_refused, ended,
  computes, maps, spawns, clones, exits, joins, yields, locks, unlocks, waits, wakes,
}

-- What holds of the table between two rounds.
abbrev pub TableOk : Map ℕ Thread → Type 0
TableOk m = Named m × NoLostJoin m

nothing_in : (k : ℕ) (t : Thread) → find k [] ≡ some t → ⊥
unfolding find
nothing_in k t e = ground arith

module _ {ℓ} {M : Type ℓ} (mmap_alloc : M → ℕ → Option (ℕ × M)) (g : Config) where
  act-IsSound : (s : Sched M) (a : Action) → IsSound s → IsSound (act mmap_alloc g s a).0
  unfolding act thread_exit do_yield
  act-IsSound s (computes cpu) sound = IsSound-same s _ refl refl sound
  act-IsSound s (maps accepts) sound = IsSound-same s _ refl refl sound
  act-IsSound s (spawns out routine arg) sound = spawn-IsSound mmap_alloc s out routine arg sound
  act-IsSound s (clones child_sp tls ptid ctid) sound =
      spawn_clone-IsSound g s child_sp tls ptid ctid sound
  act-IsSound s (exits status) sound = elim (Bool-cases s.running) [
    | inl on ↦ rw on (IsSound-same s _ refl refl sound)
    | inr off ↦ rw off (IsSound-same s _ refl refl sound)
  ]
  act-IsSound s (joins tid out) sound = do_join-IsSound s tid out sound
  act-IsSound s yields sound = IsSound-same s _ refl refl sound
  act-IsSound s (locks m) sound = mutex_lock-IsSound s m sound
  act-IsSound s (unlocks m) sound = mutex_unlock-IsSound s m sound
  act-IsSound s (waits c m) sound = cond_wait-IsSound s c m sound
  act-IsSound s (wakes c all) sound = cond_wake-IsSound s c all sound

  execute-IsSound :
      (s : Sched M) (as' : List Action) → IsSound s → IsSound (execute mmap_alloc g s as').0
  unfolding execute
  execute-IsSound s [] sound = sound
  execute-IsSound s (a ∷ rest) sound =
      let next = act-IsSound s a sound in
      elim (Bool-cases s.halted) [
        | inl h ↦ simp h sound
        | inr h ↦ elim (Bool-cases (act mmap_alloc g s a).1) [
          | inl t ↦ simp (h, t) next
          | inr t ↦ simp (h, t) (execute-IsSound (act mmap_alloc g s a).0 rest next)
        ]
      ]

  -- What a round leaves behind. After a write at the end of a thread that was refused, its joiners
  -- may still wait for it.
  abbrev pub Leaves : Round M → Type 0
  Leaves (continues s n) = TableOk s.threads
  Leaves (returns s v) = TableOk s.threads
  Leaves (throws s write_refused) = Named s.threads × NoLostJoinBut s.cur s.threads
  Leaves (throws s e) = TableOk s.threads

  -- The end of the running thread, and what follows it.
  retire-Leaves :
      (s : Sched M) (f : Thread → Thread) (next : Sched M → Round M)
      → ((t : Thread) → (f t).tid ≡ t.tid)
      → IsSound s
      → ((r : Sched M) → TableOk r.threads → Leaves (next r))
      → Leaves (ended mmap_alloc g (retire mmap_alloc g s f) next)
  unfolding retire wake_joiners adjust lives
  retire-Leaves s f next name sound later = elim (Option-cases (find s.cur s.threads)) [
    | inl e ↦ absurd (let no' : false ≡ true = sym (ap alive e) ∙ sound.current in cc)
    | inr (t, e) ↦
        let t' : Thread = record (f t) { state = finished } in
        let table = insert s.cur t' s.threads in
        let woken = wake_loop-Woken s.accepts s.cur t'.retval table in
        let named =
          Named-Woken table (wake_loop s.accepts s.cur t'.retval table).0 woken
            (Named-insert s.cur t' s.threads sound.named (name t ∙ sound.named s.cur t e)) in
        elim (Bool-cases (wake_loop s.accepts s.cur t'.retval table).2) [
          | inl threw ↦
              rw (e, adjust)
                (rw (find-insert_self s.cur t' s.threads, wake_joiners)
                  (rw threw (
                    named,
                    NoLostJoinBut-retire s.accepts s.cur t'.retval t' s.threads sound.joins refl,
                  )))
          | inr done ↦
              rw (e, adjust)
                (rw (find-insert_self s.cur t' s.threads, wake_joiners)
                  (rw done (
                    later _ (
                      named,
                      NoLostJoin-retire s.accepts s.cur t'.retval t' s.threads sound.joins refl
                          done,
                    ))))
        ]
  ]

  table : (s : Sched M) → IsSound s → TableOk s.threads
  table s sound = (sound.named, sound.joins)

  save-IsSound : (s : Sched M) → IsSound s → IsSound (update s s.cur (save_ctx g s.cpu))
  unfolding save_ctx
  save-IsSound s sound = calm-IsSound s _ (λ t. refl) (λ t h. h) (λ t j. (j, refl)) sound

  preempt-IsSound :
      (s : Sched M)
      → IsSound s
      → IsSound (update s s.cur (λ t. record (save_ctx g s.cpu t) { state = runnable }))
  unfolding save_ctx
  preempt-IsSound s sound =
      calm-IsSound s _ (λ t. refl) (λ t h. refl) (λ t j. absurd (let no' : false ≡ true = j in cc))
        sound

  after_run-Leaves : (s : Sched M) (n : ℕ) → IsSound s → Leaves (after_run mmap_alloc g s n)
  unfolding after_run
  after_run-Leaves s n sound =
      let saved = table _ (preempt-IsSound s sound) in
      elim (Bool-cases (s.cpu.pc == fini_page)) [
        | inl fini ↦ elim (Bool-cases (s.cur == 0)) [
          | inl main ↦
              rw (fini, main)
                (retire-Leaves s _
                  (λ r. returns (record r { running = false }) (get_or s.cpu.x 0 0)) (λ t. refl)
                  sound (λ r ok. ok))
          | inr worker ↦
              rw (fini, worker)
                (retire-Leaves s _ (λ r. continues r n) (λ t. refl) sound (λ r ok. ok))
        ]
        | inr going ↦ elim (Bool-cases (g.quantum == 0)) [
          | inl never ↦ rw (going, never) (table s sound)
          | inr sliced ↦
              elim (Bool-cases (
                not (g.max_preempt == 0)
                && ltb g.max_preempt (if g.max_preempt == 0 then n else n + 1))) [
                  | inl cap ↦ rw (going, sliced, cap) saved
                  | inr on ↦ rw (going, sliced, on) saved
                ]
        ]
      ]

  after_fault-Leaves : (s : Sched M) (n : ℕ) → IsSound s → Leaves (after_fault mmap_alloc g s n)
  unfolding after_fault
  after_fault-Leaves s n sound = elim (Bool-cases (not (s.cur == 0) && g.tolerate_worker_fault)) [
    | inl on ↦ rw on (retire-Leaves s _ (λ r. continues r n) (λ t. refl) sound (λ r ok. ok))
    | inr off ↦ rw off (table s sound)
  ]

  stopped-Leaves :
      (s : Sched M) (n : ℕ) (why : Stop) → IsSound s → Leaves (stopped mmap_alloc g s n why)
  unfolding stopped
  stopped-Leaves s n no_stop sound = after_run-Leaves s n sound
  stopped-Leaves s n exit_stop sound = after_run-Leaves s n sound
  stopped-Leaves s n block_stop sound = table _ (save-IsSound s sound)
  stopped-Leaves s n yield_stop sound = table _ (preempt-IsSound s sound)

  -- What follows the entry of a thread.
  after_enter-Leaves :
      (s : Sched M) (n : ℕ) (slice : Slice)
      → IsSound s
      → Leaves (after_enter mmap_alloc g s n slice)
  unfolding after_enter
  after_enter-Leaves s n slice sound =
      let (s₂, threw) = execute mmap_alloc g s slice.actions in
      let ok = execute-IsSound s slice.actions sound in
      elim (Bool-cases threw) [
        | inl t ↦ rw t (after_fault-Leaves s₂ n ok)
        | inr t ↦ elim (Bool-cases slice.faults) [
          | inl f ↦ rw (t, f) (after_fault-Leaves s₂ n ok)
          | inr f ↦ rw (t, f) (stopped-Leaves s₂ n s₂.stop ok)
        ]
      ]

  enter-IsSound :
      (s : Sched M) (id : ℕ) (t : Thread)
      → TableOk s.threads
      → find id s.threads ≡ some t
      → is_runnable t ≡ true
      → IsSound (enter mmap_alloc g s t)
  unfolding enter lives
  enter-IsSound s id t ok e run = record {
    current = ap (λ (k : ℕ). lives k s.threads) (ok.0 id t e) ∙ (ap alive e ∙ ground arith);
    named = ok.0;
    joins = ok.1;
  }

  resume-Leaves :
      (s : Sched M) (n : ℕ) (slice : Slice) (picked : Option ℕ)
      → ((id : ℕ) → picked ≡ some id → runs s.threads id ≡ true)
      → TableOk s.threads
      → Leaves (resume mmap_alloc g s n slice picked)
  unfolding resume runs
  resume-Leaves s n slice none run ok = ok
  resume-Leaves s n slice (some id) run ok = elim (Option-cases (find id s.threads)) [
    | inl e ↦ rw (e, resume) ok
    | inr (t, e) ↦
        rw (e, resume)
          (after_enter-Leaves _ n slice (enter-IsSound s id t ok e (rw (e, runs) at (run id refl))))
  ]

  round-Leaves :
      (s : Sched M) (n : ℕ) (slice : Slice)
      → TableOk s.threads
      → Leaves (round mmap_alloc g s n slice)
  unfolding round
  round-Leaves s n slice ok =
      let (s₁, picked) = pick_next s in
      let same = pick_next-threads s in
      resume-Leaves s₁ n slice picked
        (λ id e. ap (λ (m : Map ℕ Thread). runs m id) same ∙ (pick_next-runs s id e).0)
        (subst TableOk (sym same) ok)

  and_then-Leaves :
      (r : Round M) (next : Sched M → ℕ → Round M)
      → ((s : Sched M) (n : ℕ) → TableOk s.threads → Leaves (next s n))
      → Leaves r
      → Leaves (and_then mmap_alloc g r next)
  unfolding and_then
  and_then-Leaves (continues s n) next later ok = later s n ok
  and_then-Leaves (returns s v) next later ok = ok
  and_then-Leaves (throws s e) next later ok = ok

  loop-Leaves :
      (s : Sched M) (n : ℕ) (slices : List Slice)
      → TableOk s.threads
      → Leaves (loop mmap_alloc g s n slices)
  unfolding loop
  loop-Leaves s n [] ok = ok
  loop-Leaves s n (slice ∷ rest) ok =
      and_then-Leaves (round mmap_alloc g s n slice) _ (λ s' n' ok'. loop-Leaves s' n' rest ok')
        (round-Leaves s n slice ok)

  start-TableOk :
      (s : Sched M) (fn : ℕ) (args : List ℕ) → TableOk (start mmap_alloc g s fn args).threads
  unfolding start
  start-TableOk s fn args =
      let none_there : Map ℕ Thread = [] in
      (
        Named-insert 0 _ none_there (λ k t e. absurd (nothing_in k t e)) refl,
        NoLostJoin-insert 0 _ none_there (λ k t e. absurd (nothing_in k t e)) refl
            (λ j. absurd (let no' : false ≡ true = j in cc)),
      )

  -- Whatever the guest does and whichever of the scheduler's writes are refused: while the loop goes
  -- on, when `run` returns, and when it throws for another reason than a refused write at the end of a
  -- thread, each thread that is blocked in a join waits for a thread of the table that has not ended.
  -- When `run` throws for that reason, it waits for such a thread or for the thread that ended. The
  -- keys of the table are the threads' own numbers in each case.
  pub run-NoLostJoin :
      (s : Sched M) (fn : ℕ) (args : List ℕ) (slices : List Slice)
      → Leaves (run mmap_alloc g s fn args slices)
  unfolding run
  run-NoLostJoin s fn args slices =
      loop-Leaves (start mmap_alloc g s fn args) 0 slices (start-TableOk s fn args)
