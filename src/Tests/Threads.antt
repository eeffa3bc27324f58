-- ===== src/Tests/Threads.antt =====
-- A program of two threads: thread 0 spawns thread 1 and joins it.
use vardoger.Prelude.{
  ℕ, ◌+◌, ◌≡◌, ◌≢◌, refl, false, true, Option, none, some, List, [], ◌∷◌, arith, length,
}
use vardoger.Prelude.Order.{nat_key}
use vardoger.Prelude.Map.{Map, find, insert, adjust, map_values}
use vardoger.Scheduler.{
  Sched, Store, Thread, Config, blocked, on_mutex, no_stop, blank_cpu, blank_thread, scan, load_ctx,
  wake_joiners, wake_loop, pick_next, save_ctx, State, finished,
}
use vardoger.Scheduler.Calls.{
  owner, spawn, mutex_lock, mutex_unlock, thread_exit, do_join, join_done, do_yield, hand_off,
}
use vardoger.Scheduler.Slices.{
  and_then, resume, after_enter, act, stopped, after_run, after_fault, retire, Slice, Round,
  returns, throws, Error, write_refused, yields, maps, start, loop, round, run, execute, enter,
  spawns, joins, exits, locks, unlocks,
}
use vardoger.Scheduler.Scans.{runs}
use vardoger.Scheduler.Picking.{picks, Picked, picks_fair}
use vardoger.Scheduler.Rounds.{Leaves, run-NoLostJoin}
use vardoger.Scheduler.Mutexes.{Unlocked, rival, mutex_unlock-Unlocked, mutex_lock_main}
use vardoger.Scheduler.Endings.{Flagged, run-running}
use vardoger.Scheduler.Contexts.{ctx_of, Numbered, start-Numbered, execute-ctx}

-- An allocator that counts up.
abbrev bump : ℕ → ℕ → Option (ℕ × ℕ)
bump next size = some (next, next + size)

abbrev config : Config
config = record { quantum = 1000; max_preempt = 5; tolerate_worker_fault = true; no_vregs = false }

abbrev waiter : Thread
waiter = record (blank_thread 2) { state = blocked; block = on_mutex; block_obj = 0x40 }

-- Thread 1 runs and owns the mutex 0x40, thread 2 waits for it.
abbrev busy : Sched ℕ
busy = record {
  threads = (0, blank_thread 0) ∷ (1, blank_thread 1) ∷ (2, waiter) ∷ [];
  mutex_owner = (0x40, 1) ∷ [];
  cur = 1;
  next_tid = 3;
  rr = 1;
  prefer = 0;
  hybrid = true;
  running = true;
  stop = no_stop;
  cpu = blank_cpu;
  halted = false;
  stores = [];
  accepts = λ addr width. true;
  mem = 0x1000;
}

-- Thread 0 runs.
abbrev calm : Sched ℕ
calm = record busy { cur = 0; mutex_owner = [] }

abbrev program : List Slice
program =
    record { actions = spawns 0x800 0x5000 7 ∷ []; faults = false }
    ∷ record { actions = locks 0x40 ∷ unlocks 0x40 ∷ exits 9 ∷ []; faults = false }
    ∷ record { actions = joins 1 0x808 ∷ []; faults = false }
    ∷ record { actions = exits 0 ∷ []; faults = false }
    ∷ []

-- The result of a run that returned, and what the scheduler wrote to guest memory.
abbrev outcome : Round ℕ → Option (ℕ × List Store)
outcome (returns s v) = some (v, s.stores)
outcome _ = none

-- The program returns 0; thread 0 learns the number and the result of thread 1.
outcome-program :
    outcome (run bump config calm 0x4000 (1 ∷ 2 ∷ []) program)
    ≡ some (
      0,
      record { addr = 0x800; width = 64; value = 1 }
          ∷ record { addr = 0x808; width = 64; value = 9 }
          ∷ [],
    )
unfolding run start loop round and_then resume pick_next scan insert find after_enter execute enter
    act spawn stopped adjust mutex_lock mutex_unlock thread_exit after_run map_values do_join
    hand_off after_fault retire load_ctx save_ctx wake_joiners wake_loop join_done
outcome-program = refl

picked : (pick_next busy).1 ≡ some 1
unfolding pick_next scan find
picked = refl

one_runs : runs busy.threads 1 ≡ true
unfolding runs find
one_runs = refl

two_there : find 2 busy.threads ≡ some waiter
unfolding find
two_there = refl

one_there : find 1 calm.threads ≡ some (blank_thread 1)
unfolding find
one_there = refl

held : owner busy 0x40 ≡ 1
unfolding find
held = refl

unowned : owner busy 0x50 ≡ 0
unfolding find
unowned = refl

unowned_calm : owner calm 0x40 ≡ 0
unfolding find
unowned_calm = refl

one_not_zero : busy.cur ≢ 0
one_not_zero e = omega arith

picks_fair_example : Picked 1 (picks (length busy.threads) busy)
picks_fair_example = picks_fair busy 1 refl one_runs

run-NoLostJoin_example : Leaves bump config (run bump config calm 0x4000 (1 ∷ 2 ∷ []) program)
run-NoLostJoin_example = run-NoLostJoin bump config calm 0x4000 (1 ∷ 2 ∷ []) program

run-running_example : Flagged bump config (run bump config calm 0x4000 (1 ∷ 2 ∷ []) program)
run-running_example = run-running bump config calm 0x4000 (1 ∷ 2 ∷ []) program

mutex_unlock-Unlocked_example : Unlocked busy 0x40 (mutex_unlock busy 0x40)
mutex_unlock-Unlocked_example = mutex_unlock-Unlocked busy 0x40

mutex_lock_main_example :
    (owner (rival calm 0x40 1) 0x40 ≡ 1)
    × ((rival calm 0x40 1).halted ≡ false)
    × ((rival calm 0x40 1).threads ≡ calm.threads)
mutex_lock_main_example = mutex_lock_main calm 0x40 1 unowned_calm refl

busy-Numbered : Numbered bump config busy
unfolding find
busy-Numbered q above = ground arith

started-Numbered : Numbered bump config (start bump config calm 0x4000 [])
started-Numbered = start-Numbered bump config calm 0x4000 []

execute-ctx_example :
    let r = (execute bump config busy (spawns 0 0x5000 7 ∷ unlocks 0x40 ∷ [])).0 in
    (ctx_of 2 r.threads ≡ some waiter.ctx) × Numbered bump config r
execute-ctx_example =
    execute-ctx bump config busy (spawns 0 0x5000 7 ∷ unlocks 0x40 ∷ []) 2 waiter busy-Numbered
      two_there

-- Thread 0 waits for thread 1, whose result may then not be written: `run` throws, and thread 0
-- still waits.
abbrev refusal : List Slice
refusal =
    record { actions = spawns 0 0x5000 7 ∷ []; faults = false }
    ∷ record { actions = yields ∷ []; faults = false }
    ∷ record { actions = maps (λ addr width. false) ∷ joins 1 0x808 ∷ []; faults = false }
    ∷ record { actions = exits 9 ∷ []; faults = false }
    ∷ []

-- Why a run threw, and the states of its threads then.
abbrev states : Map ℕ Thread → List State
states [] = []
states ((k, t) ∷ rest) = t.state ∷ states rest

abbrev failure : Round ℕ → Option (Error × List State)
failure (throws s e) = some (e, states s.threads)
failure _ = none

failure-refusal :
    failure (run bump config calm 0x4000 [] refusal) ≡ some (write_refused, blocked ∷ finished ∷ [])
unfolding run start loop round and_then resume pick_next scan insert find after_enter execute enter
    act spawn stopped adjust thread_exit do_yield after_run map_values do_join after_fault retire
    load_ctx save_ctx wake_joiners wake_loop
failure-refusal = refl
