-- ===== src/Scheduler/Calls.antt =====
-- What the pthread stubs and the clone and exit system calls do to the scheduler, on arm64.
use vardoger.Prelude.{
  ℕ, ◌+◌, ◌%◌, ◌^◌, Bool, true, false, not, Option, none, some, [], ◌∷◌, ◌++◌, ◌==◌, if◌then◌else◌,
  set,
}
use mathlib.Core.Option
use vardoger.Prelude.Order.{nat_key}
use vardoger.Prelude.Map.{Map, find, insert}
use vardoger.Scheduler.{
  Sched, Thread, Cpu, Config, runnable, blocked, Block, on_join, on_mutex, on_cond, Stop,
  block_stop, yield_stop, fini_page, worker_stack, align16, is_finished, waits_mutex, waits_cond,
  wake, set_ret, link_reg, blank_cpu, blank_thread, save_ctx, update, refuses,
}

-- The first thread that waits for the mutex is woken; its `tid` field becomes the owner.
unfoldable pub hand_off : ℕ → Map ℕ Thread → Map ℕ Thread × Option ℕ
hand_off m [] = ([], none)
hand_off m ((k, t) ∷ rest) =
    let (rest', next) = hand_off m rest in
    if waits_mutex m t then ((k, wake t) ∷ rest, some t.tid) else ((k, t) ∷ rest', next)

-- Wakes the first thread that waits for the condition, or all of them.
unfoldable pub wake_waiters : ℕ → Bool → Map ℕ Thread → Map ℕ Thread
wake_waiters c all [] = []
wake_waiters c all ((k, t) ∷ rest) =
    let rest' = wake_waiters c all rest in
    if waits_cond c t then (k, wake t) ∷ (if all then rest' else rest) else (k, t) ∷ rest'

module _ {ℓ} {M : Type ℓ} where
  -- `e.write_reg(Reg::Ret0, 0); e.write_reg(Reg::Pc, e.read_reg(Reg::Lr)); stop_ = why; e.stop();`
  abbrev pub pause : Sched M → Stop → Sched M
  pause s why = record s {
    cpu = record (set_ret s.cpu 0) { pc = link_reg s.cpu };
    stop = why;
    halted = true;
  }

  -- `if (p) e.write_t<...>(p, value)`
  abbrev pub store_if : Sched M → ℕ → ℕ → ℕ → Sched M
  store_if s addr width value = record s {
    stores =
        if addr == 0
        then s.stores
        else s.stores ++ record { addr = addr; width = width; value = value } ∷ [];
  }

  -- The new thread runs next, the creator stays runnable and its slice ends.
  abbrev yield_to : Sched M → ℕ → Sched M
  yield_to s tid = record (update s s.cur (λ t. record t { state = runnable })) {
    prefer = tid;
    stop = yield_stop;
    halted = true;
  }

  abbrev pub worker : Sched M → ℕ → ℕ → ℕ → ℕ → Thread
  worker s tid base routine arg =
      let top = align16 (base + worker_stack) in
      record (blank_thread tid) {
        stack_top = top;
        ctx = record blank_cpu {
          x = set (set blank_cpu.x 0 arg) 30 fini_page;
          sp = top;
          pc = routine;
          tpidr = s.cpu.tpidr;
        };
        ctx_valid = true;
      }

  -- `mmap_alloc` is the memory manager's; with `none` it throws, and so does `spawn` (`true`), as it
  -- does for a write that is refused.
  unfoldable pub spawn : (M → ℕ → Option (ℕ × M)) → Sched M → ℕ → ℕ → ℕ → Sched M × Bool
  spawn mmap_alloc s out_ptr routine arg = elim (mmap_alloc s.mem worker_stack) [
    | none ↦ (record s { next_tid = s.next_tid + 1 }, true)
    | some (base, mem) ↦
        let tid = s.next_tid in
        let added : Sched M = record s {
          mem = mem;
          next_tid = s.next_tid + 1;
          threads = insert tid (worker s tid base routine arg) s.threads;
        } in
        let told = store_if added out_ptr 64 tid in
        let back : Sched M = record told { cpu = set_ret told.cpu 0 } in
        if refuses s.accepts out_ptr 64 then (added, true) else (
          if back.hybrid
              then yield_to (record back { cpu = record back.cpu { pc = link_reg back.cpu } }) tid
              else back,
          false,
        )
  ]

  -- The child's context: the parent's, returning 0, on its own stack and TLS if these are given.
  abbrev clone_ctx : Config → Sched M → ℕ → ℕ → Cpu
  clone_ctx g s child_sp tls =
      let c = set_ret (save_ctx g s.cpu (blank_thread 0)).ctx 0 in
      let d : Cpu =
        (if child_sp == 0
          then c
          else record c { sp = align16 child_sp; x = set c.x 30 fini_page }) in
      record d { tpidr = if tls == 0 then d.tpidr else tls }

  -- The child's number, or 0 where nothing runs under the scheduler; `none` if it throws.
  unfoldable pub spawn_clone : Config → Sched M → ℕ → ℕ → ℕ → ℕ → Sched M × Option ℕ
  spawn_clone g s child_sp tls ptid ctid =
      let tid = s.next_tid in
      let child : Thread = record (blank_thread tid) {
        ctx = clone_ctx g s child_sp tls;
        ctx_valid = true;
      } in
      let added : Sched M = record s {
        next_tid = s.next_tid + 1;
        threads = insert tid child s.threads;
      } in
      let half = store_if added ptid 32 (tid % 2 ^ 32) in
      let told = store_if half ctid 32 (tid % 2 ^ 32) in
      let back : Sched M = record told { cpu = set_ret told.cpu tid } in
      if not s.running
      then (s, some 0)
      else if refuses s.accepts ptid 32
      then (added, none)
      else if refuses s.accepts ctid 32
      then (half, none)
      else (if back.hybrid then yield_to back tid else back, some tid)

  -- Points the thread at the sentinel and ends the slice.
  unfoldable pub thread_exit : Sched M → ℕ → Sched M × Bool
  thread_exit s status =
      if s.running
      then (
        record s { cpu = record (set_ret s.cpu status) { pc = fini_page }; halted = true },
        true,
      )
      else (s, false)

  -- The running thread waits for `obj` and its slice ends.
  abbrev pub block_on : Sched M → Block → ℕ → Sched M
  block_on s why obj =
      pause (update s s.cur (λ t. record t { state = blocked; block = why; block_obj = obj }))
        block_stop

  -- Nothing to wait for: the result is 0 for a thread that does not exist.
  unfoldable pub join_done : Sched M → ℕ → ℕ → Sched M × Bool
  join_done s out rv =
      let told = store_if s out 64 rv in
      if refuses s.accepts out 64
      then (s, true)
      else (record told { cpu = set_ret told.cpu 0 }, false)

  -- The Boolean says that it throws.
  unfoldable pub do_join : Sched M → ℕ → ℕ → Sched M × Bool
  do_join s tid out = elim (find tid s.threads) [
    | none ↦ join_done s out 0
    | some t ↦ if is_finished t then join_done s out t.retval else (
      pause
          (update s s.cur (λ self. record self {
            state = blocked;
            block = on_join;
            block_obj = tid;
            join_out = out;
          }))
          block_stop,
      false,
    )
  ]

  unfoldable pub do_yield : Sched M → Sched M
  do_yield s = pause s yield_stop

  -- Free is: no entry, or owner 0.
  abbrev pub owner : Sched M → ℕ → ℕ
  owner s m = Option.get_or (find m s.mutex_owner) 0

  unfoldable pub mutex_lock : Sched M → ℕ → Sched M
  mutex_lock s m =
      if owner s m == 0
      then record s { mutex_owner = insert m s.cur s.mutex_owner; cpu = set_ret s.cpu 0 }
      else block_on s on_mutex m

  -- The mutex is free, or it is the woken thread's.
  abbrev pub unlock_with : Sched M → ℕ → Map ℕ Thread × Option ℕ → Sched M
  unlock_with s m (threads', next) =
      let freed = insert m 0 s.mutex_owner in
      record s {
        threads = threads';
        mutex_owner = elim next [ none ↦ freed | some tid ↦ insert m tid freed ];
      }

  unfoldable pub mutex_unlock : Sched M → ℕ → Sched M
  mutex_unlock s m = unlock_with s m (hand_off m s.threads)

  unfoldable pub cond_wait : Sched M → ℕ → ℕ → Sched M
  unfolding mutex_unlock
  cond_wait s cond mutex = block_on (mutex_unlock s mutex) on_cond cond

  unfoldable pub cond_wake : Sched M → ℕ → Bool → Sched M
  cond_wake s cond all = record s { threads = wake_waiters cond all s.threads }
