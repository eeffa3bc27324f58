-- ===== src/Scheduler/Slices.antt =====
-- The loop of `Scheduler::run`. What the guest does in a slice is an explicit list of actions.
use vardoger.Prelude.{
  ℕ, ◌+◌, Bool, true, false, not, ◌&&◌, Option, none, some, List, [], ◌∷◌, ltb, ◌==◌, if◌then◌else◌,
  get_or, set, is_some,
}
use vardoger.Prelude.Order.{nat_key}
use vardoger.Prelude.Map.{find, insert}
use vardoger.Scheduler.{
  Sched, Thread, Cpu, Config, runnable, finished, Stop, no_stop, exit_stop, block_stop, yield_stop,
  fini_page, blank_thread, load_ctx, save_ctx, update, pick_next, wake_joiners,
}
use vardoger.Scheduler.Calls.{
  spawn, spawn_clone, thread_exit, do_join, do_yield, mutex_lock, mutex_unlock, cond_wait,
  cond_wake,
}

-- One thing that the running guest code does: change registers or its pages, or call into the
-- scheduler.
pub data Action : Type 0 where
  computes : Cpu → Action
  maps : (ℕ → ℕ → Bool) → Action
  spawns : ℕ → ℕ → ℕ → Action
  clones : ℕ → ℕ → ℕ → ℕ → Action
  exits : ℕ → Action
  joins : ℕ → ℕ → Action
  yields : Action
  locks : ℕ → Action
  unlocks : ℕ → Action
  waits : ℕ → ℕ → Action
  wakes : ℕ → Bool → Action

-- The guest's part of one `engine_.run`: its actions, and whether it then faults.
pub record Slice : Type 0 where
  pub actions : List Action
  pub faults : Bool

pub data Error : Type 0 where
  deadlock guest_fault preempt_cap unexpected_end write_refused : Error

-- One round of the loop goes on (with the count of preemptions), ends `run`, or throws.
pub data Round {ℓ} (M : Type ℓ) : Type ℓ where
  continues : Sched M → ℕ → Round M
  returns : Sched M → ℕ → Round M
  throws : Sched M → Error → Round M

module _ {ℓ} {M : Type ℓ} (mmap_alloc : M → ℕ → Option (ℕ × M)) (g : Config) where
  -- The Boolean says that the stub throws.
  unfoldable pub act : Sched M → Action → Sched M × Bool
  act s (computes cpu) = (record s { cpu = cpu }, false)
  act s (maps accepts) = (record s { accepts = accepts }, false)
  act s (spawns out routine arg) = spawn mmap_alloc s out routine arg
  act s (clones child_sp tls ptid ctid) =
      let (s', tid) = spawn_clone g s child_sp tls ptid ctid in (s', not (is_some tid))
  act s (exits status) = ((thread_exit s status).0, false)
  act s (joins tid out) = do_join s tid out
  act s yields = (do_yield s, false)
  act s (locks m) = (mutex_lock s m, false)
  act s (unlocks m) = (mutex_unlock s m, false)
  act s (waits cond mutex) = (cond_wait s cond mutex, false)
  act s (wakes cond all) = (cond_wake s cond all, false)

  -- The state after the actions, and whether one threw. What follows a stop does not run.
  unfoldable pub execute : Sched M → List Action → Sched M × Bool
  execute s [] = (s, false)
  execute s (a ∷ rest) =
      let (s', threw) = act s a in
      let later = execute s' rest in
      if s.halted then (s, false) else if threw then (s', true) else later

  -- `cur_ = t->tid; load_ctx(*t); stop_ = Stop::None;` and the entry at `t->pc`.
  unfoldable pub enter : Sched M → Thread → Sched M
  enter s t = record s {
    cur = t.tid;
    cpu = record (load_ctx g s.cpu t.ctx) { pc = t.ctx.pc };
    stop = no_stop;
    halted = false;
  }

  -- `state = State::Finished; wake_joiners(cur_);`, and whether that throws.
  unfoldable pub retire : Sched M → (Thread → Thread) → Sched M × Bool
  retire s f = wake_joiners (update s s.cur (λ t. record (f t) { state = finished })) s.cur

  -- What follows a thread's end, unless that threw: then so does `run`.
  abbrev pub ended : Sched M × Bool → (Sched M → Round M) → Round M
  ended r next = if r.1 then throws r.0 write_refused else next r.0

  unfoldable pub after_fault : Sched M → ℕ → Round M
  after_fault s preempts =
      if not (s.cur == 0) && g.tolerate_worker_fault
      then ended (retire s (λ t. t)) (λ gone. continues gone preempts)
      else throws s guest_fault

  -- The slice ended without a stop of the scheduler's.
  unfoldable pub after_run : Sched M → ℕ → Round M
  after_run s preempts =
      let x0 = get_or s.cpu.x 0 0 in
      let saved = update s s.cur (λ t. record (save_ctx g s.cpu t) { state = runnable }) in
      let count = if g.max_preempt == 0 then preempts else preempts + 1 in
      let gone = retire s (λ t. record t { retval = x0 }) in
      if s.cpu.pc == fini_page
      then ended gone (λ r.
        if s.cur == 0 then returns (record r { running = false }) x0 else continues r preempts)
      else if g.quantum == 0
      then throws s unexpected_end
      else if not (g.max_preempt == 0) && ltb g.max_preempt count
      then throws (record saved { running = false }) preempt_cap
      else continues saved count

  -- The tests of `stop_`, in the code's order.
  unfoldable pub stopped : Sched M → ℕ → Stop → Round M
  stopped s preempts block_stop = continues (update s s.cur (save_ctx g s.cpu)) preempts
  stopped s preempts yield_stop =
      continues (update s s.cur (λ t. record (save_ctx g s.cpu t) { state = runnable })) preempts
  stopped s preempts no_stop = after_run s preempts
  stopped s preempts exit_stop = after_run s preempts

  abbrev pub after_slice : Sched M → ℕ → Round M
  after_slice s preempts = stopped s preempts s.stop

  -- The entered thread's slice and what follows it.
  unfoldable pub after_enter : Sched M → ℕ → Slice → Round M
  after_enter s preempts slice =
      let (s', threw) = execute s slice.actions in
      if threw
      then after_fault s' preempts
      else if slice.faults
      then after_fault s' preempts
      else after_slice s' preempts

  unfoldable pub resume : Sched M → ℕ → Slice → Option ℕ → Round M
  resume s preempts slice none = throws s deadlock
  resume s preempts slice (some tid) = elim (find tid s.threads) [
    | none ↦ throws s deadlock
    | some t ↦ after_enter (enter s t) preempts slice
  ]

  -- One round of the loop.
  unfoldable pub round : Sched M → ℕ → Slice → Round M
  round s preempts slice = let (s₁, picked) = pick_next s in resume s₁ preempts slice picked

  -- The next rounds, if the loop goes on.
  unfoldable pub and_then : Round M → (Sched M → ℕ → Round M) → Round M
  and_then (continues s n) next = next s n
  and_then (returns s v) next = returns s v
  and_then (throws s e) next = throws s e

  -- The loop over the slices that the guest makes; it is still going if they run out.
  unfoldable pub loop : Sched M → ℕ → List Slice → Round M
  loop s preempts [] = continues s preempts
  loop s preempts (slice ∷ rest) = and_then (round s preempts slice) (λ s' n. loop s' n rest)

  -- `if (i < 31) main.x[i] = a; ++i;`
  set_args : List ℕ → ℕ → List ℕ → List ℕ
  set_args x i [] = x
  set_args x i (a ∷ rest) = set_args (set x i a) (i + 1) rest

  unfoldable pub start : Sched M → ℕ → List ℕ → Sched M
  unfolding set_args
  start s fn args =
      let snapshot = (save_ctx g s.cpu (blank_thread 0)).ctx in
      let main : Thread = record (blank_thread 0) {
        ctx = record snapshot { x = set (set_args snapshot.x 0 args) 30 fini_page; pc = fn };
        ctx_valid = true;
      } in
      record s {
        threads = insert 0 main [];
        mutex_owner = [];
        cur = 0;
        rr = 0;
        next_tid = 1;
        running = true;
      }

  unfoldable pub run : Sched M → ℕ → List ℕ → List Slice → Round M
  run s fn args slices = loop (start s fn args) 0 slices
