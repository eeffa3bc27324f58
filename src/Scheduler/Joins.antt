-- ===== src/Scheduler/Joins.antt =====
-- No thread waits for ever on a thread that has ended: `do_join` against `wake_joiners`.
use vardoger.Prelude.{
  ℕ, ◌≡◌, ◌⊎◌, refl, sym, ap, ◌∙◌, inl, inr, Bool, true, false, not, Option, none, some, [], ◌∷◌,
  arith, ◌==◌, if◌then◌else◌, Bool-cases,
}
use vardoger.Prelude.Order.{nat_key}
use vardoger.Prelude.Map.{Map, find, insert, find-insert}
use vardoger.Scheduler.{
  Thread, blocked, on_join, is_finished, waits_mutex, waits_cond, wake, wake_loop, joins_on,
  refuses,
}
use vardoger.Scheduler.Calls.{hand_off, wake_waiters}

-- Is the thread blocked in a join?
abbrev pub joining : Thread → Bool
joining t = elim t.state [ blocked ↦ elim t.block [ on_join ↦ true | _ ↦ false ] | _ ↦ false ]

abbrev pub alive : Option Thread → Bool
alive none = false
alive (some t) = not (is_finished t)

-- There is a thread of that number, and it has not ended.
unfoldable pub lives : ℕ → Map ℕ Thread → Bool
lives id m = alive (find id m)

-- Every thread that is blocked in a join waits for a thread that has not ended.
abbrev pub NoLostJoin : Map ℕ Thread → Type 0
NoLostJoin m =
    (k : ℕ) (t : Thread) → find k m ≡ some t → joining t ≡ true → lives t.block_obj m ≡ true

pub lives-insert :
    (q k : ℕ) (t : Thread) (m : Map ℕ Thread)
    → lives q (insert k t m) ≡ (if q == k then not (is_finished t) else lives q m)
unfolding lives
lives-insert q k t m = ground (arith, find-insert q k t m)

-- Writing a thread that has not ended, and that waits for a live one if it joins.
pub NoLostJoin-insert :
    (k : ℕ) (t : Thread) (m : Map ℕ Thread)
    → NoLostJoin m
    → is_finished t ≡ false
    → (joining t ≡ true → lives t.block_obj m ≡ true)
    → NoLostJoin (insert k t m)
NoLostJoin-insert k t m all alive own q u e j = ground (
  arith,
  find-insert q k t m,
  lives-insert u.block_obj k t m,
  lives-insert t.block_obj k t m,
  all q u,
)

-- Each thread is as it was, or was blocked and can run again.
abbrev pub Woken : Map ℕ Thread → Map ℕ Thread → Type 0
Woken m n =
    (q : ℕ)
    → (find q n ≡ find q m)
      ⊎ ((t : Thread) × (find q m ≡ some t) × (t.state ≡ blocked) × (find q n ≡ some (wake t)))

some_thread : {a b : Thread} → ◌≡◌ {A = Option Thread} (some a) (some b) → a ≡ b
some_thread h = ground arith

pub lives-Woken : (m n : Map ℕ Thread) (q : ℕ) → Woken m n → lives q m ≡ true → lives q n ≡ true
unfolding lives
lives-Woken m n q w h = ground (arith, w q)

pub NoLostJoin-Woken : (m n : Map ℕ Thread) → Woken m n → NoLostJoin m → NoLostJoin n
NoLostJoin-Woken m n w all q t e j = lives-Woken m n t.block_obj w (all q t (ground (arith, w q)) j)

waits_mutex-blocked : (c : ℕ) (t : Thread) → waits_mutex c t ≡ true → t.state ≡ blocked
waits_mutex-blocked c t h = ground arith

waits_cond-blocked : (c : ℕ) (t : Thread) → waits_cond c t ≡ true → t.state ≡ blocked
waits_cond-blocked c t h = ground arith

pub Woken-refl : (m : Map ℕ Thread) → Woken m m
Woken-refl m q = inl refl

Woken-keep : (k : ℕ) (t : Thread) (m n : Map ℕ Thread) → Woken m n → Woken ((k, t) ∷ m) ((k, t) ∷ n)
unfolding find
Woken-keep k t m n w q = elim (Bool-cases (q == k)) [ inl e ↦ rw e (inl refl) | inr e ↦ rw e (w q) ]

Woken-wake :
    (k : ℕ) (t : Thread) (m n : Map ℕ Thread)
    → t.state ≡ blocked
    → Woken m n
    → Woken ((k, t) ∷ m) ((k, wake t) ∷ n)
unfolding find
Woken-wake k t m n b w q = elim (Bool-cases (q == k)) [
  | inl e ↦ rw e (inr (t, refl, b, refl))
  | inr e ↦ rw e (w q)
]

pub hand_off-Woken : (c : ℕ) (m : Map ℕ Thread) → Woken m (hand_off c m).0
unfolding hand_off
hand_off-Woken c [] = Woken-refl []
hand_off-Woken c ((k, t) ∷ m) = elim (Bool-cases (waits_mutex c t)) [
  | inl w ↦ rw w (Woken-wake k t m m (waits_mutex-blocked c t w) (Woken-refl m))
  | inr w ↦ rw w (Woken-keep k t m (hand_off c m).0 (hand_off-Woken c m))
]

pub wake_waiters-Woken : (c : ℕ) (all : Bool) (m : Map ℕ Thread) → Woken m (wake_waiters c all m)
unfolding wake_waiters
wake_waiters-Woken c all [] = Woken-refl []
wake_waiters-Woken c all ((k, t) ∷ m) = elim (Bool-cases (waits_cond c t)) [
  | inl w ↦ rw w (
      Woken-wake k t m _ (waits_cond-blocked c t w) (elim (Bool-cases all) [
        | inl a ↦ rw a (wake_waiters-Woken c all m)
        | inr a ↦ rw a (Woken-refl m)
      ]))
  | inr w ↦ rw w (Woken-keep k t m (wake_waiters c all m) (wake_waiters-Woken c all m))
]

joins_on-blocked : (k : ℕ) (t : Thread) → joins_on k t ≡ true → t.state ≡ blocked
joins_on-blocked k t h = ground arith

-- The loop of `wake_joiners` wakes threads, whether a write is refused or not.
pub wake_loop-Woken :
    (accepts : ℕ → ℕ → Bool) (k rv : ℕ) (m : Map ℕ Thread) → Woken m (wake_loop accepts k rv m).0
unfolding wake_loop
wake_loop-Woken accepts k rv [] = Woken-refl []
wake_loop-Woken accepts k rv ((j, t) ∷ m) =
    let rest = wake_loop-Woken accepts k rv m in
    elim (Bool-cases (joins_on k t)) [
      | inr idle ↦ rw idle (Woken-keep j t m _ rest)
      | inl hit ↦ elim (Bool-cases (refuses accepts t.join_out 64)) [
        | inl shut ↦ rw (hit, shut) (Woken-refl ((j, t) ∷ m))
        | inr open' ↦ rw (hit, open') (Woken-wake j t m _ (joins_on-blocked k t hit) rest)
      ]
    ]

-- Where no write is refused, no thread of the table joins `k` afterwards.
pub wake_loop-joined :
    (accepts : ℕ → ℕ → Bool) (k rv q : ℕ) (t : Thread) (m : Map ℕ Thread)
    → (wake_loop accepts k rv m).2 ≡ false
    → find q (wake_loop accepts k rv m).0 ≡ some t
    → joins_on k t ≡ false
unfolding wake_loop find
wake_loop-joined accepts k rv q t [] done e = ground arith
wake_loop-joined accepts k rv q t ((j, u) ∷ m) done e =
    ground (arith, wake_loop-joined accepts k rv q t m)

-- Every thread that is blocked in a join waits for a thread that has not ended, or for `k`.
abbrev pub NoLostJoinBut : ℕ → Map ℕ Thread → Type 0
NoLostJoinBut k m =
    (q : ℕ) (t : Thread)
    → find q m ≡ some t
    → joining t ≡ true
    → (lives t.block_obj m ≡ true) ⊎ (t.block_obj ≡ k)

NoLostJoinBut-insert :
    (k : ℕ) (t : Thread) (m : Map ℕ Thread)
    → NoLostJoin m
    → is_finished t ≡ true
    → NoLostJoinBut k (insert k t m)
NoLostJoinBut-insert k t m all ended q u e j = elim (Bool-cases (u.block_obj == k)) [
  | inl same ↦ inr (ground arith)
  | inr other ↦ inl (ground (arith, find-insert q k t m, lives-insert u.block_obj k t m, all q u))
]

NoLostJoinBut-Woken :
    (k : ℕ) (m n : Map ℕ Thread) → Woken m n → NoLostJoinBut k m → NoLostJoinBut k n
NoLostJoinBut-Woken k m n w all q t e j = elim (all q t (ground (arith, w q)) j) [
  | inl live ↦ inl (lives-Woken m n t.block_obj w live)
  | inr same ↦ inr same
]

joining-joins_on : (t : Thread) → joining t ≡ true → joins_on t.block_obj t ≡ true
joining-joins_on t j = ground arith

-- Ending the thread `k` and waking its joiners, up to a write that is refused.
pub NoLostJoinBut-retire :
    (accepts : ℕ → ℕ → Bool) (k rv : ℕ) (t : Thread) (m : Map ℕ Thread)
    → NoLostJoin m
    → is_finished t ≡ true
    → NoLostJoinBut k (wake_loop accepts k rv (insert k t m)).0
NoLostJoinBut-retire accepts k rv t m all ended =
    NoLostJoinBut-Woken k (insert k t m) _ (wake_loop-Woken accepts k rv (insert k t m))
      (NoLostJoinBut-insert k t m all ended)

-- All of them, where none is refused.
pub NoLostJoin-retire :
    (accepts : ℕ → ℕ → Bool) (k rv : ℕ) (t : Thread) (m : Map ℕ Thread)
    → NoLostJoin m
    → is_finished t ≡ true
    → (wake_loop accepts k rv (insert k t m)).2 ≡ false
    → NoLostJoin (wake_loop accepts k rv (insert k t m)).0
NoLostJoin-retire accepts k rv t m all ended done q u e j =
    elim (NoLostJoinBut-retire accepts k rv t m all ended q u e j) [
      | inl live ↦ live
      | inr same ↦
          let on = joining-joins_on u j in
          let off = wake_loop-joined accepts k rv q u (insert k t m) done e in
          absurd (let no' : true ≡ false = sym on ∙ ap (λ (i : ℕ). joins_on i u) same ∙ off in cc)
    ]

-- The table's keys are the threads' own numbers.
abbrev pub Named : Map ℕ Thread → Type 0
Named m = (k : ℕ) (t : Thread) → find k m ≡ some t → t.tid ≡ k

pub Named-insert :
    (k : ℕ) (t : Thread) (m : Map ℕ Thread) → Named m → t.tid ≡ k → Named (insert k t m)
Named-insert k t m all own q u e = ground (arith, find-insert q k t m, all q u)

pub Named-Woken : (m n : Map ℕ Thread) → Woken m n → Named m → Named n
Named-Woken m n w all q t e = elim (w q) [
  | inl same ↦ all q t (sym same ∙ e)
  | inr (u, was, b, now) ↦
      sym (ap (λ (x : Thread). x.tid) (some_thread (sym now ∙ e))) ∙ all q u was
]
