-- ===== src/Scheduler.antt =====
-- core/engine/scheduler.cpp and include/vardoger/engine/scheduler.hpp: cooperative green threads.
--
-- The state holds the class's fields, the registers of the one CPU (`cpu`), whether the running
-- slice was told to stop (`halted`, uc_emu_stop), the writes to guest memory that the scheduler
-- made (`stores`, newest last) and the memory manager `mem`. `accepts` says at which addresses the
-- engine takes a write of so many bits, as the guest's pages are; at another one the write throws.
-- `VARDOGER_*` settings are the record `Config`. The maps are in key order, as `std::map` iterates.
pub mod Scans
pub mod Picking
pub mod Calls
pub mod Joins
pub mod Soundness
pub mod Rounds
pub mod Mutexes
pub mod Endings
pub mod Contexts
pub mod Slices
use vardoger.Prelude.{
  ℕ, zero, suc, ◌+◌, ◌-◌, ◌*◌, ◌/◌, ◌%◌, ◌^◌, Bool, true, false, not, ◌&&◌, ◌||◌, Option, none,
  some, List, [], ◌∷◌, ◌++◌, ltb, ◌==◌, if◌then◌else◌, is_some, length, get_or, set, replicate,
}
use vardoger.Prelude.Order.{nat_key}
use vardoger.Prelude.Map.{Map, find, insert, map_values, keys, adjust}

pub data State : Type 0 where
  runnable blocked finished : State

-- `Block::None` is `unblocked`, the others are the things that a thread waits for.
pub data Block : Type 0 where
  unblocked on_join on_mutex on_cond : Block

-- Why a slice ended.
pub data Stop : Type 0 where
  no_stop exit_stop block_stop yield_stop : Stop

-- The saved registers: X0 to X30, SP, PC, NZCV, TPIDR_EL0, and V0 to V31.
pub record Cpu : Type 0 where
  pub x : List ℕ
  pub sp : ℕ
  pub pc : ℕ
  pub nzcv : ℕ
  pub tpidr : ℕ
  pub v : List ℕ

-- The fields that the code reads; a vector register is one number.
pub record Thread : Type 0 where
  pub tid : ℕ
  pub state : State
  pub block : Block
  pub block_obj : ℕ
  pub join_out : ℕ
  pub retval : ℕ
  pub stack_top : ℕ
  pub ctx : Cpu
  pub ctx_valid : Bool

-- A write of `value`, `width` bits wide, to guest memory.
pub record Store : Type 0 where
  pub addr : ℕ
  pub width : ℕ
  pub value : ℕ

pub record Config : Type 0 where
  pub quantum : ℕ
  pub max_preempt : ℕ
  pub tolerate_worker_fault : Bool
  pub no_vregs : Bool

pub record Sched {ℓ} (M : Type ℓ) : Type ℓ where
  pub threads : Map ℕ Thread
  pub mutex_owner : Map ℕ ℕ
  pub cur : ℕ
  pub next_tid : ℕ
  pub rr : ℕ
  pub prefer : ℕ
  pub hybrid : Bool
  pub running : Bool
  pub stop : Stop
  pub cpu : Cpu
  pub halted : Bool
  pub stores : List Store
  pub accepts : ℕ → ℕ → Bool
  pub mem : M

-- `kFiniPage` and `kWorkerStack`.
abbrev pub fini_page : ℕ
fini_page = 0x1FFF0000

abbrev pub worker_stack : ℕ
worker_stack = 0x100000

abbrev pub u64_mod : ℕ
u64_mod = 2 ^ 64

-- `a & ~uint64_t(15)`
abbrev pub align16 : ℕ → ℕ
align16 a = a - a % 16

abbrev pub is_runnable : Thread → Bool
is_runnable t = elim t.state [ runnable ↦ true | _ ↦ false ]

abbrev pub is_finished : Thread → Bool
is_finished t = elim t.state [ finished ↦ true | _ ↦ false ]

-- Is the thread blocked on a join of `tid`, on the mutex `m`, on the condition `c`?
abbrev pub joins_on : ℕ → Thread → Bool
joins_on tid t = elim t.state [
  | blocked ↦ elim t.block [ on_join ↦ t.block_obj == tid | _ ↦ false ]
  | _ ↦ false
]

abbrev pub waits_mutex : ℕ → Thread → Bool
waits_mutex m t = elim t.state [
  | blocked ↦ elim t.block [ on_mutex ↦ t.block_obj == m | _ ↦ false ]
  | _ ↦ false
]

abbrev pub waits_cond : ℕ → Thread → Bool
waits_cond c t = elim t.state [
  | blocked ↦ elim t.block [ on_cond ↦ t.block_obj == c | _ ↦ false ]
  | _ ↦ false
]

-- `t.block = Block::None; t.state = State::Runnable;`
abbrev pub wake : Thread → Thread
wake t = record t { block = unblocked; state = runnable }

-- Registers: X0 is the return value, X30 the link register.
abbrev pub set_ret : Cpu → ℕ → Cpu
set_ret c v = record c { x = set c.x 0 v }

abbrev pub link_reg : Cpu → ℕ
link_reg c = get_or c.x 30 0

abbrev pub blank_cpu : Cpu
blank_cpu = record { x = replicate 31 0; sp = 0; pc = 0; nzcv = 0; tpidr = 0; v = replicate 32 0 }

-- `Thread t{}`
abbrev pub blank_thread : ℕ → Thread
blank_thread tid = record {
  tid = tid;
  state = runnable;
  block = unblocked;
  block_obj = 0;
  join_out = 0;
  retval = 0;
  stack_top = 0;
  ctx = blank_cpu;
  ctx_valid = false;
}

-- The vector registers move only without VARDOGER_NO_VREGS. `load_ctx` leaves PC to the run.
unfoldable pub load_ctx : Config → Cpu → Cpu → Cpu
load_ctx g cpu ctx = record ctx { pc = cpu.pc; v = if g.no_vregs then cpu.v else ctx.v }

unfoldable pub save_ctx : Config → Cpu → Thread → Thread
save_ctx g cpu t = record t { ctx = record cpu { v = if g.no_vregs then t.ctx.v else cpu.v } }

-- The loop of `pick_next`: position and identifier of the first runnable thread.
unfoldable pub scan : Map ℕ Thread → ℕ → ℕ → ℕ → Option (ℕ × ℕ)
scan threads rr zero k = none
scan threads rr (suc left) k =
    let rest = scan threads rr left (k + 1) in
    let id = get_or (keys threads) ((rr + k) % length threads) 0 in
    elim (find id threads) [ none ↦ rest | some t ↦ if is_runnable t then some (k, id) else rest ]

-- `if (p) e.write_t<...>(p, value)` throws.
abbrev pub refuses : (ℕ → ℕ → Bool) → ℕ → ℕ → Bool
refuses accepts addr width = not (addr == 0) && not (accepts addr width)

-- The loop of `wake_joiners` over the threads that join `tid`, whose result is `rv`: the table, the
-- writes, and whether one was refused, at which the loop stops.
unfoldable pub wake_loop : (ℕ → ℕ → Bool) → ℕ → ℕ → Map ℕ Thread → Map ℕ Thread × List Store × Bool
wake_loop accepts tid rv [] = ([], [], false)
wake_loop accepts tid rv ((k, t) ∷ m) =
    let (m', stores, threw) = wake_loop accepts tid rv m in
    if joins_on tid t
    then (if refuses accepts t.join_out 64 then ((k, t) ∷ m, [], true) else (
      (k, wake t) ∷ m',
      if t.join_out == 0
          then stores
          else record { addr = t.join_out; width = 64; value = rv } ∷ stores,
      threw,
    ))
    else ((k, t) ∷ m', stores, threw)

module _ {ℓ} {M : Type ℓ} where
  -- `Thread& self = threads_.at(cur_)`, then writes to it.
  abbrev pub update : Sched M → ℕ → (Thread → Thread) → Sched M
  update s tid f = record s { threads = adjust tid f s.threads }

  -- The preferred thread, if there is one and it can run.
  preferred : Sched M → Option ℕ
  preferred s = if s.prefer == 0 then none else elim (find s.prefer s.threads) [
    | none ↦ none
    | some t ↦ if is_runnable t then some s.prefer else none
  ]

  unfoldable pub pick_next : Sched M → Sched M × Option ℕ
  unfolding preferred
  pick_next s = elim (preferred s) [
    | some tid ↦ (record s { prefer = 0 }, some tid)
    | none ↦ elim (scan s.threads s.rr (length s.threads) 0) [
      | none ↦ (record s { prefer = 0 }, none)
      | some (k, id) ↦ (record s { prefer = 0; rr = (s.rr + k + 1) % length s.threads }, some id)
    ]
  ]

  -- The Boolean says that it throws.
  unfoldable pub wake_joiners : Sched M → ℕ → Sched M × Bool
  wake_joiners s tid = elim (find tid s.threads) [
    | none ↦ (s, true)
    | some t ↦
        let (threads', stores', threw) = wake_loop s.accepts tid t.retval s.threads in
        (record s { threads = threads'; stores = s.stores ++ stores' }, threw)
  ]
