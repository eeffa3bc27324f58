-- ===== src/Devirt/Sorts.antt =====
-- The order in which md_classify of devirt_rebuild.hpp puts the call targets.
use vardoger.Prelude.{
  ℕ, ◌≤◌, ◌≡◌, inl, inr, some, List, [], ◌∷◌, arith, ◌==◌, Bool-cases, subst, split,
}
use vardoger.Prelude.Order.{nat_key}
use vardoger.Prelude.Map.{Map, IsSorted, find, Above-later, Above-IsSorted}
use vardoger.Devirt.Classify.{ranks, put_ranked, sort_ranked}

abbrev pub Every : (ℕ × ℕ → Type 0) → List (ℕ × ℕ) → Type 0
Every P [] = Unit {0}
Every P (b ∷ rest) = P b × Every P rest

pub Every-map :
    (P Q : ℕ × ℕ → Type 0) (l : List (ℕ × ℕ)) → ((b : ℕ × ℕ) → P b → Q b) → Every P l → Every Q l
Every-map P Q [] f all = tt
Every-map P Q (b ∷ rest) f (p, all) = (f b p, Every-map P Q rest f all)

pub Every-find :
    (P : ℕ × ℕ → Type 0) (c n : ℕ) (m : Map ℕ ℕ) → Every P m → find c m ≡ some n → P (c, n)
unfolding find
Every-find P c n [] all e = absurd (cc)
Every-find P c n ((k, w) ∷ m) (p, all) e = elim (Bool-cases (c == k)) [
  | inl same ↦
      let key_is : k ≡ c = ground arith in
      let value_is : w ≡ n = ground arith in
      subst (λ j. P (j, n)) key_is (subst (λ x. P (k, x)) value_is p)
  | inr other ↦ Every-find P c n m all (ground arith)
]

pub Every-entries : (m : Map ℕ ℕ) → IsSorted m → Every (λ b. find b.0 m ≡ some b.1) m
unfolding find
Every-entries [] sorted = tt
Every-entries ((k, w) ∷ m) sorted = (
  ground arith,
  Every-map (λ b. find b.0 m ≡ some b.1) _ m (λ b e. Above-later k b.0 w b.1 m sorted e)
      (Every-entries m (Above-IsSorted k m sorted)),
)

-- The greater counts come first.
abbrev pub IsRanked : List (ℕ × ℕ) → Type 0
IsRanked [] = Unit {0}
IsRanked (a ∷ rest) = Every (λ b. b.1 ≤ a.1) rest × IsRanked rest

put-Every :
    (P : ℕ × ℕ → Type 0) (seen : Map ℕ ℕ) (a : ℕ × ℕ) (l : List (ℕ × ℕ))
    → P a
    → Every P l
    → Every P (put_ranked seen a l)
unfolding put_ranked
put-Every P seen a [] p all = (p, tt)
put-Every P seen a (b ∷ rest) p (q, all) =
    split (Every P) (ranks seen b a) (λ _. (q, put-Every P seen a rest p all)) (λ _. (p, (q, all)))

put-IsRanked :
    (seen : Map ℕ ℕ) (a : ℕ × ℕ) (l : List (ℕ × ℕ)) → IsRanked l → IsRanked (put_ranked seen a l)
unfolding put_ranked
put-IsRanked seen a [] sorted = (tt, tt)
put-IsRanked seen a (b ∷ rest) (all, sorted) =
    split IsRanked (ranks seen b a)
      (λ e.
        let less : a.1 ≤ b.1 = ground arith in
        (put-Every (λ x. x.1 ≤ b.1) seen a rest less all, put-IsRanked seen a rest sorted))
      (λ e.
        let less : b.1 ≤ a.1 = ground arith in
        (
          (less, Every-map (λ x. x.1 ≤ b.1) (λ x. x.1 ≤ a.1) rest (λ x below. omega arith) all),
          (all, sorted),
        ))

pub sort-IsRanked : (seen : Map ℕ ℕ) (l : List (ℕ × ℕ)) → IsRanked (sort_ranked seen l)
unfolding sort_ranked
sort-IsRanked seen [] = tt
sort-IsRanked seen (a ∷ l) = put-IsRanked seen a (sort_ranked seen l) (sort-IsRanked seen l)

pub sort-Every :
    (P : ℕ × ℕ → Type 0) (seen : Map ℕ ℕ) (l : List (ℕ × ℕ))
    → Every P l
    → Every P (sort_ranked seen l)
unfolding sort_ranked
sort-Every P seen [] all = tt
sort-Every P seen (a ∷ l) (p, all) =
    put-Every P seen a (sort_ranked seen l) p (sort-Every P seen l all)

put-Every-back :
    (P : ℕ × ℕ → Type 0) (seen : Map ℕ ℕ) (a : ℕ × ℕ) (l : List (ℕ × ℕ))
    → Every P (put_ranked seen a l)
    → P a × Every P l
unfolding put_ranked
put-Every-back P seen a [] = λ all. (all.0, tt)
put-Every-back P seen a (b ∷ rest) =
    split (λ l. Every P l → P a × (P b × Every P rest)) (ranks seen b a)
      (λ _ (q, all). let (p, all') = put-Every-back P seen a rest all in (p, (q, all')))
      (λ _ (p, (q, all)). (p, (q, all)))

pub sort-Every-back :
    (P : ℕ × ℕ → Type 0) (seen : Map ℕ ℕ) (l : List (ℕ × ℕ))
    → Every P (sort_ranked seen l)
    → Every P l
unfolding sort_ranked
sort-Every-back P seen [] all = tt
sort-Every-back P seen (a ∷ l) all =
    let (p, all') = put-Every-back P seen a (sort_ranked seen l) all in
    (p, sort-Every-back P seen l all')
