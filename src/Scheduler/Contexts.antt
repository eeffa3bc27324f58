-- ===== src/Scheduler/Contexts.antt =====
-- The saved registers of the threads: what a thread computes is not touched by the others.
use vardoger.Prelude.{
  ℕ, ◌+◌, ◌≤◌, ◌<◌, ◌≡◌, ◌≢◌, ◌⊎◌, refl, ◌∙◌, inl, inr, Bool, Option, none, some, List, [], ◌∷◌,
  arith, ◌==◌, if◌then◌else◌, Option-cases, Bool-cases,
}
use vardoger.Prelude.Order.{nat_key}
use vardoger.Prelude.Map.{Map, find, insert, find-insert, adjust}
use vardoger.Scheduler.{
  Sched, Thread, Cpu, Config, worker_stack, runnable, refuses, is_finished, save_ctx, load_ctx,
}
use vardoger.Scheduler.Calls.{
  owner, worker, hand_off, wake_waiters, join_done, spawn, spawn_clone, thread_exit, do_join,
  do_yield, mutex_lock, mutex_unlock, cond_wait, cond_wake,
}
use vardoger.Scheduler.Slices.{
  Action, act, execute, enter, start, computes, maps, spawns, clones, exits, joins, yields, locks,
  unlocks, waits, wakes,
}

-- The saved registers of the thread of that number, if there is one.
abbrev pub ctx_of : ℕ → Map ℕ Thread → Option Cpu
ctx_of q m = elim (find q m) [ none ↦ none | some t ↦ some t.ctx ]

hand_off-ctx : (c q : ℕ) (m : Map ℕ Thread) → ctx_of q (hand_off c m).0 ≡ ctx_of q m
unfolding hand_off find
hand_off-ctx c q [] = refl
hand_off-ctx c q ((k, t) ∷ m) = ground (arith, hand_off-ctx c q m)

wake_waiters-ctx :
    (c q : ℕ) (all : Bool) (m : Map ℕ Thread) → ctx_of q (wake_waiters c all m) ≡ ctx_of q m
unfolding wake_waiters find
wake_waiters-ctx c q all [] = refl
wake_waiters-ctx c q all ((k, t) ∷ m) = ground (arith, wake_waiters-ctx c q all m)

adjust-ctx :
    (k q : ℕ) (f : Thread → Thread) (m : Map ℕ Thread)
    → ((t : Thread) → (f t).ctx ≡ t.ctx)
    → ctx_of q (adjust k f m) ≡ ctx_of q m
unfolding adjust
adjust-ctx k q f m same = elim (Option-cases (find k m)) [
  | inl e ↦ rw (e, adjust)
  | inr (t, e) ↦ rw (e, adjust) (ground (arith, find-insert q k (f t) m, same t))
]

insert-ctx :
    (k q : ℕ) (t : Thread) (m : Map ℕ Thread) → q ≢ k → ctx_of q (insert k t m) ≡ ctx_of q m
insert-ctx k q t m h = ground (arith, find-insert q k t m)

module _ {ℓ} {M : Type ℓ} (mmap_alloc : M → ℕ → Option (ℕ × M)) (g : Config) where
  -- Every number of the table was given by the counter.
  abbrev pub Numbered : Sched M → Type 0
  Numbered s = (q : ℕ) → s.next_tid ≤ q → ctx_of q s.threads ≡ none

  -- `run` starts with such a table.
  pub start-Numbered :
      (s : Sched M) (fn : ℕ) (args : List ℕ) → Numbered (start mmap_alloc g s fn args)
  unfolding start find insert
  start-Numbered s fn args q above = ground arith

  -- The counter does not fall. The registers of every thread are kept but those of the numbers that
  -- it passes.
  abbrev pub Keeps : ℕ → Sched M → Sched M → Type 0
  Keeps q s r =
      ((q < s.next_tid) ⊎ (r.next_tid ≤ q) → ctx_of q r.threads ≡ ctx_of q s.threads)
      × (s.next_tid ≤ r.next_tid)

  -- A new thread takes the next number.
  fork-Keeps :
      (s : Sched M) (q : ℕ) (t : Thread) (m : Map ℕ Thread)
      → (m ≡ insert s.next_tid t s.threads)
        ⊎ (m ≡ adjust s.cur (λ u. record u { state = runnable }) (insert s.next_tid t s.threads))
      → ((q < s.next_tid) ⊎ (s.next_tid + 1 ≤ q) → ctx_of q m ≡ ctx_of q s.threads)
        × (s.next_tid ≤ s.next_tid + 1)
  fork-Keeps s q t m e = (
    λ place.
        let apart : q ≢ s.next_tid = λ same. elim place [
          | inl low ↦ omega (arith, same, low)
          | inr high ↦ omega (arith, same, high)
        ] in
        let inserted = insert-ctx s.next_tid q t s.threads apart in
        elim e [
          | inl plain ↦ rw plain inserted
          | inr hybrid ↦ rw hybrid (adjust-ctx s.cur q _ _ (λ u. refl) ∙ inserted)
        ],
    omega arith,
  )

  spawn-Keeps :
      (s : Sched M) (q out routine arg : ℕ) → Keeps q s (spawn mmap_alloc s out routine arg).0
  unfolding spawn
  spawn-Keeps s q out routine arg = elim (Option-cases (mmap_alloc s.mem worker_stack)) [
    | inl e ↦ rw (e, spawn) (λ h. refl, omega arith)
    | inr ((base, mem), e) ↦
        let t = worker s s.next_tid base routine arg in
        elim (Bool-cases (refuses s.accepts out 64)) [
          | inl shut ↦ rw (e, shut, spawn) (fork-Keeps s q t _ (inl refl))
          | inr open' ↦ elim (Bool-cases s.hybrid) [
            | inl hy ↦ rw (e, open', hy, spawn) (fork-Keeps s q t _ (inr refl))
            | inr hy ↦ rw (e, open', hy, spawn) (fork-Keeps s q t _ (inl refl))
          ]
        ]
  ]

  spawn_clone-Keeps :
      (s : Sched M) (q child_sp tls ptid ctid : ℕ)
      → Keeps q s (spawn_clone g s child_sp tls ptid ctid).0
  unfolding spawn_clone
  spawn_clone-Keeps s q child_sp tls ptid ctid = elim (Bool-cases s.running) [
    | inr off ↦ rw off (λ h. refl, omega arith)
    | inl on ↦ elim (Bool-cases (refuses s.accepts ptid 32)) [
      | inl shut ↦ rw (on, shut) (fork-Keeps s q _ _ (inl refl))
      | inr p ↦ elim (Bool-cases (refuses s.accepts ctid 32)) [
        | inl shut ↦ rw (on, p, shut) (fork-Keeps s q _ _ (inl refl))
        | inr c ↦ elim (Bool-cases s.hybrid) [
          | inl hy ↦ rw (on, p, c, hy) (fork-Keeps s q _ _ (inr refl))
          | inr hy ↦ rw (on, p, c, hy) (fork-Keeps s q _ _ (inl refl))
        ]
      ]
    ]
  ]

  join_done-Keeps : (s : Sched M) (q out rv : ℕ) → Keeps q s (join_done s out rv).0
  unfolding join_done
  join_done-Keeps s q out rv = elim (Bool-cases (refuses s.accepts out 64)) [
    | inl shut ↦ rw shut (λ h. refl, omega arith)
    | inr open' ↦ rw open' (λ h. refl, omega arith)
  ]

  do_join-Keeps : (s : Sched M) (q tid out : ℕ) → Keeps q s (do_join s tid out).0
  unfolding do_join
  do_join-Keeps s q tid out = elim (Option-cases (find tid s.threads)) [
    | inl e ↦ rw (e, do_join) (join_done-Keeps s q out 0)
    | inr (t, e) ↦ elim (Bool-cases (is_finished t)) [
      | inl f ↦ rw (e, f, do_join) (join_done-Keeps s q out t.retval)
      | inr f ↦ rw (e, f, do_join) (λ h. adjust-ctx s.cur q _ s.threads (λ u. refl), omega arith)
    ]
  ]

  mutex_lock-Keeps : (s : Sched M) (q m : ℕ) → Keeps q s (mutex_lock s m)
  unfolding mutex_lock
  mutex_lock-Keeps s q m = elim (Bool-cases (owner s m == 0)) [
    | inl free ↦ rw free (λ h. refl, omega arith)
    | inr held ↦ rw held (λ h. adjust-ctx s.cur q _ s.threads (λ u. refl), omega arith)
  ]

  act-Keeps : (s : Sched M) (q : ℕ) (a : Action) → Keeps q s (act mmap_alloc g s a).0
  unfolding act thread_exit do_yield mutex_unlock cond_wait cond_wake
  act-Keeps s q (computes cpu) = (λ h. refl, omega arith)
  act-Keeps s q (maps accepts) = (λ h. refl, omega arith)
  act-Keeps s q (spawns out routine arg) = spawn-Keeps s q out routine arg
  act-Keeps s q (clones child_sp tls ptid ctid) = spawn_clone-Keeps s q child_sp tls ptid ctid
  act-Keeps s q (exits status) = elim (Bool-cases s.running) [
    | inl on ↦ rw on (λ h. refl, omega arith)
    | inr off ↦ rw off (λ h. refl, omega arith)
  ]
  act-Keeps s q (joins tid out) = do_join-Keeps s q tid out
  act-Keeps s q yields = (λ h. refl, omega arith)
  act-Keeps s q (locks m) = mutex_lock-Keeps s q m
  act-Keeps s q (unlocks m) = (λ h. hand_off-ctx m q s.threads, omega arith)
  act-Keeps s q (waits c m) =
      (λ h. adjust-ctx s.cur q _ _ (λ t. refl) ∙ hand_off-ctx m q s.threads, omega arith)
  act-Keeps s q (wakes c all) = (λ h. wake_waiters-ctx c q all s.threads, omega arith)

  Keeps-then : (s r u : Sched M) (q : ℕ) → Keeps q s r → Keeps q r u → Keeps q s u
  Keeps-then s r u q first second = (
    λ h. elim h [
      | inl low ↦ second.0 (inl (omega (arith, low, first.1))) ∙ first.0 (inl low)
      | inr high ↦ second.0 (inr high) ∙ first.0 (inr (omega (arith, high, second.1)))
    ],
    omega (arith, first.1, second.1),
  )

  execute-Keeps :
      (s : Sched M) (q : ℕ) (slice : List Action) → Keeps q s (execute mmap_alloc g s slice).0
  unfolding execute
  execute-Keeps s q [] = (λ h. refl, omega arith)
  execute-Keeps s q (a ∷ rest) =
      let first = act-Keeps s q a in
      let second = execute-Keeps (act mmap_alloc g s a).0 q rest in
      elim (Bool-cases s.halted) [
        | inl h ↦ simp h (λ place. refl, omega arith)
        | inr h ↦ elim (Bool-cases (act mmap_alloc g s a).1) [
          | inl t ↦ simp (h, t) first
          | inr t ↦
              simp (h, t)
                (Keeps-then s (act mmap_alloc g s a).0
                  (execute mmap_alloc g (act mmap_alloc g s a).0 rest).0 q first second)
        ]
      ]

  -- Where every number of the table lies below the counter, it does so after any slice of the
  -- running thread, whatever the thread does in it; and every thread that was in the table is there
  -- with its saved registers as they were.
  pub execute-ctx :
      (s : Sched M) (slice : List Action) (q : ℕ) (t : Thread)
      → Numbered s
      → find q s.threads ≡ some t
      → (ctx_of q (execute mmap_alloc g s slice).0.threads ≡ some t.ctx)
        × Numbered (execute mmap_alloc g s slice).0
  execute-ctx s slice q t numbered e =
      let there : ctx_of q s.threads ≡ some t.ctx = rw (e, ctx_of) refl in
      let low : q < s.next_tid = ground (arith, numbered q, there) in
      (
        (execute-Keeps s q slice).0 (inl low) ∙ there,
        λ p above.
            let kept = execute-Keeps s p slice in
            kept.0 (inr above) ∙ numbered p (omega (arith, above, kept.1)),
      )

  -- Entering a thread after its registers were saved gives the CPU back as it was when they were
  -- saved, except that without vector registers in the context the current ones stay.
  pub enter-save_ctx :
      (s : Sched M) (t : Thread) (cpu : Cpu)
      → (enter mmap_alloc g s (save_ctx g cpu t)).cpu
        ≡ (if g.no_vregs then record cpu { v = s.cpu.v } else cpu)
  unfolding enter save_ctx load_ctx
  enter-save_ctx s t cpu = ground arith
