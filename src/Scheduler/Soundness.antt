-- ===== src/Scheduler/Soundness.antt =====
-- Every call of the running thread into the scheduler keeps the table sound.
use vardoger.Prelude.{
  ℕ, ◌≡◌, ◌⊎◌, refl, sym, ap, ◌∙◌, inl, inr, Bool, true, false, Option, some, arith, ◌==◌,
  Option-cases, Bool-cases,
}
use vardoger.Prelude.Order.{nat_key}
use vardoger.Prelude.Map.{find, insert, adjust}
use vardoger.Scheduler.{
  Sched, Thread, Config, runnable, blocked, Block, on_mutex, on_cond, is_finished, update,
  blank_thread, worker_stack, refuses,
}
use vardoger.Scheduler.Calls.{
  owner, worker, spawn, spawn_clone, join_done, do_join, mutex_lock, mutex_unlock, cond_wait,
  cond_wake,
}
use vardoger.Scheduler.Joins.{
  joining, alive, lives, NoLostJoin, Named, Woken, lives-insert, NoLostJoin-insert, lives-Woken,
  NoLostJoin-Woken, Woken-refl, hand_off-Woken, wake_waiters-Woken, Named-insert, Named-Woken,
}

module _ {ℓ} {M : Type ℓ} where
  -- The running thread is in the table and has not ended, the keys are the threads' own numbers,
  -- and no join is lost.
  pub record IsSound (s : Sched M) : Type ℓ where
    pub current : lives s.cur s.threads ≡ true
    pub named : Named s.threads
    pub joins : NoLostJoin s.threads

  -- The table of `s` is changed by waking threads, and the running thread stays the same.
  IsSound-Woken :
      (s r : Sched M) → r.cur ≡ s.cur → Woken s.threads r.threads → IsSound s → IsSound r
  IsSound-Woken s r c w sound = record {
    current =
        ap (λ (k : ℕ). lives k r.threads) c ∙ lives-Woken s.threads r.threads s.cur w sound.current;
    named = Named-Woken s.threads r.threads w sound.named;
    joins = NoLostJoin-Woken s.threads r.threads w sound.joins;
  }

  -- The same table and the same running thread.
  pub IsSound-same : (s r : Sched M) → r.cur ≡ s.cur → r.threads ≡ s.threads → IsSound s → IsSound r
  IsSound-same s r c t sound = IsSound-Woken s r c (rw t (Woken-refl s.threads)) sound

  pub insert-IsSound :
      (s r : Sched M) (k : ℕ) (t : Thread)
      → r.cur ≡ s.cur
      → r.threads ≡ insert k t s.threads
      → t.tid ≡ k
      → is_finished t ≡ false
      → (joining t ≡ true → lives t.block_obj s.threads ≡ true)
      → IsSound s
      → IsSound r
  insert-IsSound s r k t c e name alive own sound = record {
    current = rw (c, e) (ground (arith, lives-insert s.cur k t s.threads, sound.current));
    named = rw e (Named-insert k t s.threads sound.named name);
    joins = rw e (NoLostJoin-insert k t s.threads sound.joins alive own);
  }

  -- The running thread is changed, without ending it.
  pub update-IsSound :
      (s : Sched M) (f : Thread → Thread)
      → ((t : Thread) → (f t).tid ≡ t.tid)
      → ((t : Thread) → is_finished t ≡ false → is_finished (f t) ≡ false)
      → ((t : Thread)
          → find s.cur s.threads ≡ some t
          → joining (f t) ≡ true
          → lives (f t).block_obj s.threads ≡ true)
      → IsSound s
      → IsSound (update s s.cur f)
  unfolding lives adjust
  update-IsSound s f name keeps own sound = elim (Option-cases (find s.cur s.threads)) [
    | inl e ↦ IsSound-same s (update s s.cur f) refl (rw (e, adjust)) sound
    | inr (t, e) ↦
        let going : is_finished t ≡ false = ground (arith, sound.current) in
        insert-IsSound s (update s s.cur f) s.cur (f t) refl (rw (e, adjust))
          (name t ∙ sound.named s.cur t e) (keeps t going) (own t e) sound
  ]

  -- Changes that leave what the running thread waits for alone.
  pub calm-IsSound :
      (s : Sched M) (f : Thread → Thread)
      → ((t : Thread) → (f t).tid ≡ t.tid)
      → ((t : Thread) → is_finished t ≡ false → is_finished (f t) ≡ false)
      → ((t : Thread) → joining (f t) ≡ true → (joining t ≡ true) × ((f t).block_obj ≡ t.block_obj))
      → IsSound s
      → IsSound (update s s.cur f)
  calm-IsSound s f name keeps calm sound =
      update-IsSound s f name keeps (λ t e j. rw (calm t j).1 (sound.joins s.cur t e (calm t j).0))
        sound

  pub block-IsSound :
      (s : Sched M) (why : Block) (obj : ℕ)
      → (joining (record (blank_thread 0) { state = blocked; block = why }) ≡ false)
      → IsSound s
      → IsSound (update s s.cur (λ t. record t { state = blocked; block = why; block_obj = obj }))
  block-IsSound s why obj not_join sound =
      update-IsSound s _ (λ t. refl) (λ t h. refl)
        (λ t e j. absurd (let no' : true ≡ false = sym j ∙ not_join in cc)) sound

  -- The running thread can run.
  pub ready-IsSound :
      (s : Sched M) → IsSound s → IsSound (update s s.cur (λ t. record t { state = runnable }))
  ready-IsSound s sound =
      calm-IsSound s _ (λ t. refl) (λ t h. refl) (λ t j. absurd (let no' : false ≡ true = j in cc))
        sound

  -- A new thread, which can run, and after it the hybrid mode's change of the running one.
  pub fork-IsSound :
      (s r : Sched M) (tid : ℕ) (t : Thread)
      → t.state ≡ runnable
      → t.tid ≡ tid
      → r.cur ≡ s.cur
      → (r.threads ≡ insert tid t s.threads)
        ⊎ (r.threads ≡ adjust s.cur (λ u. record u { state = runnable }) (insert tid t s.threads))
      → IsSound s
      → IsSound r
  fork-IsSound s r tid t ready name c e sound =
      let added : Sched M = record s { threads = insert tid t s.threads } in
      let sound' =
        insert-IsSound s added tid t refl refl name (ground arith)
          (λ j. absurd (let no' : false ≡ true = ground arith in cc)) sound in
      elim e [
        | inl plain ↦ IsSound-same added r c plain sound'
        | inr hybrid ↦
            IsSound-same (update added s.cur (λ u. record u { state = runnable })) r c hybrid
              (ready-IsSound added sound')
      ]

  pub spawn-IsSound :
      (mmap_alloc : M → ℕ → Option (ℕ × M)) (s : Sched M) (out routine arg : ℕ)
      → IsSound s
      → IsSound (spawn mmap_alloc s out routine arg).0
  unfolding spawn
  spawn-IsSound mmap_alloc s out routine arg sound =
      elim (Option-cases (mmap_alloc s.mem worker_stack)) [
        | inl e ↦ rw (e, spawn) (IsSound-same s _ refl refl sound)
        | inr ((base, mem), e) ↦
            let t = worker s s.next_tid base routine arg in
            elim (Bool-cases (refuses s.accepts out 64)) [
              | inl shut ↦
                  rw (e, shut, spawn)
                    (fork-IsSound s _ s.next_tid t refl refl refl (inl refl) sound)
              | inr open' ↦ elim (Bool-cases s.hybrid) [
                | inl h ↦
                    rw (e, open', h, spawn)
                      (fork-IsSound s _ s.next_tid t refl refl refl (inr refl) sound)
                | inr h ↦
                    rw (e, open', h, spawn)
                      (fork-IsSound s _ s.next_tid t refl refl refl (inl refl) sound)
              ]
            ]
      ]

  pub spawn_clone-IsSound :
      (g : Config) (s : Sched M) (child_sp tls ptid ctid : ℕ)
      → IsSound s
      → IsSound (spawn_clone g s child_sp tls ptid ctid).0
  unfolding spawn_clone
  spawn_clone-IsSound g s child_sp tls ptid ctid sound = elim (Bool-cases s.running) [
    | inr off ↦ rw off (IsSound-same s _ refl refl sound)
    | inl on ↦ elim (Bool-cases (refuses s.accepts ptid 32)) [
      | inl shut ↦ rw (on, shut) (fork-IsSound s _ s.next_tid _ refl refl refl (inl refl) sound)
      | inr p ↦ elim (Bool-cases (refuses s.accepts ctid 32)) [
        | inl shut ↦
            rw (on, p, shut) (fork-IsSound s _ s.next_tid _ refl refl refl (inl refl) sound)
        | inr c ↦ elim (Bool-cases s.hybrid) [
          | inl h ↦ rw (on, p, c, h) (fork-IsSound s _ s.next_tid _ refl refl refl (inr refl) sound)
          | inr h ↦ rw (on, p, c, h) (fork-IsSound s _ s.next_tid _ refl refl refl (inl refl) sound)
        ]
      ]
    ]
  ]

  join_done-IsSound : (s : Sched M) (out rv : ℕ) → IsSound s → IsSound (join_done s out rv).0
  unfolding join_done
  join_done-IsSound s out rv sound = elim (Bool-cases (refuses s.accepts out 64)) [
    | inl shut ↦ rw shut sound
    | inr open' ↦ rw open' (IsSound-same s _ refl refl sound)
  ]

  pub do_join-IsSound : (s : Sched M) (tid out : ℕ) → IsSound s → IsSound (do_join s tid out).0
  unfolding do_join lives
  do_join-IsSound s tid out sound = elim (Option-cases (find tid s.threads)) [
    | inl e ↦ rw (e, do_join) (join_done-IsSound s out 0 sound)
    | inr (t, e) ↦ elim (Bool-cases (is_finished t)) [
      | inl f ↦ rw (e, f, do_join) (join_done-IsSound s out t.retval sound)
      | inr f ↦
          rw (e, f, do_join)
            (IsSound-same (update s s.cur _) _ refl refl
              (update-IsSound s _ (λ u. refl) (λ u h. refl) (λ u h j. rw (e, f)) sound))
    ]
  ]

  pub mutex_lock-IsSound : (s : Sched M) (m : ℕ) → IsSound s → IsSound (mutex_lock s m)
  unfolding mutex_lock
  mutex_lock-IsSound s m sound = elim (Bool-cases (owner s m == 0)) [
    | inl free ↦ rw free (IsSound-same s _ refl refl sound)
    | inr held ↦
        rw held
          (IsSound-same (update s s.cur _) _ refl refl (block-IsSound s on_mutex m refl sound))
  ]

  pub mutex_unlock-IsSound : (s : Sched M) (m : ℕ) → IsSound s → IsSound (mutex_unlock s m)
  unfolding mutex_unlock
  mutex_unlock-IsSound s m sound = IsSound-Woken s _ refl (hand_off-Woken m s.threads) sound

  pub cond_wait-IsSound : (s : Sched M) (c m : ℕ) → IsSound s → IsSound (cond_wait s c m)
  unfolding cond_wait
  cond_wait-IsSound s c m sound =
      IsSound-same (update (mutex_unlock s m) s.cur _) _ refl refl
        (block-IsSound (mutex_unlock s m) on_cond c refl (mutex_unlock-IsSound s m sound))

  pub cond_wake-IsSound :
      (s : Sched M) (c : ℕ) (all : Bool) → IsSound s → IsSound (cond_wake s c all)
  unfolding cond_wake
  cond_wake-IsSound s c all sound =
      IsSound-Woken s _ refl (wake_waiters-Woken c all s.threads) sound
