-- ===== src/Scheduler/Mutexes.antt =====
-- The mutexes of the scheduler: `mutex_lock` against `mutex_unlock`.
use mathlib.Core.Option
use vardoger.Prelude.{
  ℕ, ◌≢◌, ◌≡◌, refl, ap, inl, inr, true, false, Option, none, some, [], ◌∷◌, ◌++◌, arith, ◌==◌,
  Bool-cases,
}
use vardoger.Prelude.Order.{nat_key}
use vardoger.Prelude.Map.{Map, find, insert, find-insert_self, adjust}
use vardoger.Scheduler.{Sched, Thread, blocked, on_mutex, waits_mutex, wake}
use vardoger.Scheduler.Calls.{owner, hand_off, unlock_with, mutex_lock, mutex_unlock}

-- No thread of the table waits for the mutex.
abbrev pub NoWaiter : ℕ → Map ℕ Thread → Type 0
NoWaiter m [] = Unit
NoWaiter m ((k, t) ∷ rest) = (waits_mutex m t ≡ false) × NoWaiter m rest

-- What `hand_off` makes of a table: no thread waits, or the first one that does is woken.
pub data HandedOff (m : ℕ) (table : Map ℕ Thread) : Map ℕ Thread × Option ℕ → Type 0 where
  nobody : NoWaiter m table → HandedOff m table (table, none)
  next :
      (before after : Map ℕ Thread) (k : ℕ) (t : Thread)
      → NoWaiter m before
      → waits_mutex m t ≡ true
      → table ≡ before ++ (k, t) ∷ after
      → HandedOff m table (before ++ (k, wake t) ∷ after, some t.tid)

hand_off-skip :
    (m k : ℕ) (t : Thread) (table : Map ℕ Thread) (r : Map ℕ Thread × Option ℕ)
    → waits_mutex m t ≡ false
    → HandedOff m table r
    → HandedOff m ((k, t) ∷ table) ((k, t) ∷ r.0, r.1)
hand_off-skip m k t table _ idle (nobody none') = nobody (idle, none')
hand_off-skip m k t table _ idle (next before after k' t' none' hit e) =
    next ((k, t) ∷ before) after k' t' (idle, none') hit (ap (λ (l : Map ℕ Thread). (k, t) ∷ l) e)

pub hand_off-HandedOff : (m : ℕ) (table : Map ℕ Thread) → HandedOff m table (hand_off m table)
unfolding hand_off
hand_off-HandedOff m [] = nobody tt
hand_off-HandedOff m ((k, t) ∷ rest) = elim (Bool-cases (waits_mutex m t)) [
  | inl hit ↦ rw hit (next [] rest k t tt hit refl)
  | inr idle ↦ rw idle (hand_off-skip m k t rest (hand_off m rest) idle (hand_off-HandedOff m rest))
]

module _ {ℓ} {M : Type ℓ} where
  owner-insert : (s : Sched M) (m o : ℕ) → Option.get_or (find m (insert m o s.mutex_owner)) 0 ≡ o
  owner-insert s m o = rw (find-insert_self m o s.mutex_owner) refl

  -- The thread that runs locks a mutex that no thread owns, and then another one tries.
  abbrev pub rival : Sched M → ℕ → ℕ → Sched M
  rival s m b = mutex_lock (record (mutex_lock s m) { cur = b }) m

  -- The two ways in which `mutex_unlock` ends.
  pub data Unlocked (s : Sched M) (m : ℕ) (r : Sched M) : Type ℓ where
    free : NoWaiter m s.threads → r.threads ≡ s.threads → owner r m ≡ 0 → Unlocked s m r
    handed :
        (before after : Map ℕ Thread) (k : ℕ) (t : Thread)
        → NoWaiter m before
        → waits_mutex m t ≡ true
        → s.threads ≡ before ++ (k, t) ∷ after
        → r.threads ≡ before ++ (k, wake t) ∷ after
        → owner r m ≡ t.tid
        → Unlocked s m r

  HandedOff-Unlocked :
      (s : Sched M) (m : ℕ) (r : Map ℕ Thread × Option ℕ)
      → HandedOff m s.threads r
      → Unlocked s m (unlock_with s m r)
  HandedOff-Unlocked s m _ (nobody none') = free none' refl (owner-insert s m 0)
  HandedOff-Unlocked s m _ (next before after k t none' hit e) =
      handed before after k t none' hit e refl
        (rw (find-insert_self m t.tid (insert m 0 s.mutex_owner)) refl)

  -- `mutex_unlock` wakes the first thread that waits for the mutex, makes it the owner and leaves
  -- the others as they are; if no thread waits, the mutex is free and the table is as it was.
  pub mutex_unlock-Unlocked : (s : Sched M) (m : ℕ) → Unlocked s m (mutex_unlock s m)
  unfolding mutex_unlock
  mutex_unlock-Unlocked s m =
      HandedOff-Unlocked s m (hand_off m s.threads) (hand_off-HandedOff m s.threads)

  -- A thread other than 0 that locks a free mutex excludes the others: one that tries to lock it is
  -- blocked and its slice ends, and the first thread stays the owner.
  pub mutex_lock_excludes :
      (s : Sched M) (m b : ℕ) (t : Thread)
      → owner s m ≡ 0
      → s.cur ≢ 0
      → find b s.threads ≡ some t
      → (owner (rival s m b) m ≡ s.cur)
        × ((rival s m b).halted ≡ true)
        × (find b (rival s m b).threads
            ≡ some (record t { state = blocked; block = on_mutex; block_obj = m }))
  unfolding mutex_lock adjust
  mutex_lock_excludes s m b t unowned worker e =
      let taken = find-insert_self m s.cur s.mutex_owner in
      let held : (s.cur == 0) ≡ false = ground (arith, worker) in
      rw (unowned, taken)
        (rw (held) (rw (e, adjust) (rw taken (refl, refl, find-insert_self b _ s.threads))))

  -- Thread 0 does not exclude the others from a free mutex that it locks: the next one to try
  -- becomes the owner and runs on, and no thread is blocked.
  pub mutex_lock_main :
      (s : Sched M) (m b : ℕ)
      → owner s m ≡ 0
      → s.cur ≡ 0
      → (owner (rival s m b) m ≡ b)
        × ((rival s m b).halted ≡ s.halted)
        × ((rival s m b).threads ≡ s.threads)
  unfolding mutex_lock
  mutex_lock_main s m b unowned main =
      let taken = find-insert_self m s.cur s.mutex_owner in
      let zero' : (s.cur == 0) ≡ true = ground (arith, main) in
      rw (unowned, taken)
        (rw zero' (rw (find-insert_self m b (insert m s.cur s.mutex_owner)) (refl, refl, refl)))
