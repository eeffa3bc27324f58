-- ===== src/Devirt/Counts.antt =====
-- How often md_classify of devirt_rebuild.hpp counts a call target.
use vardoger.Prelude.{
  ℕ, ◌+◌, ◌≡◌, refl, sym, ap, inl, inr, Bool, none, List, [], ◌∷◌, arith, if◌then◌else◌, ◌==◌,
  is_some, Bool-cases, subst,
}
use vardoger.Prelude.Order.{nat_key}
use vardoger.Prelude.Map.{
  Map, IsSorted, find, insert, find-insert, insert-IsSorted, Above-find, Above-IsSorted,
}
use vardoger.Devirt.Families.{or_zero}
use vardoger.Devirt.Classify.{MicrovmRow, set_of, count_calls, freq_of, has}

-- The number of rows that call a target.
unfoldable pub uses : ℕ → Map ℕ MicrovmRow → ℕ
uses c [] = 0
uses c ((op, row) ∷ rows) = (if has c row.calls then 1 else 0) + uses c rows

find-set_of : (c : ℕ) (calls : List ℕ) → is_some (find c (set_of calls)) ≡ has c calls
unfolding set_of has find
find-set_of c [] = refl
find-set_of c (x ∷ calls) = ground (arith, find-insert c x tt (set_of calls), find-set_of c calls)

set_of-IsSorted : (calls : List ℕ) → IsSorted (set_of calls)
unfolding set_of
set_of-IsSorted [] = tt
set_of-IsSorted (x ∷ calls) = insert-IsSorted x tt (set_of calls) (set_of-IsSorted calls)

find-count_calls :
    (c : ℕ) (s : Map ℕ (Unit {0})) (freq : Map ℕ ℕ)
    → IsSorted s
    → or_zero (find c (count_calls s freq))
      ≡ or_zero (find c freq) + (if is_some (find c s) then 1 else 0)
unfolding count_calls find
find-count_calls c [] freq sorted = omega arith
find-count_calls c ((k, _) ∷ s) freq sorted =
    let n = or_zero (find k freq) + 1 in
    let later = find-count_calls c s (insert k n freq) (Above-IsSorted k s sorted) in
    elim (Bool-cases (c == k)) [
      | inl same ↦
          let c-is : c ≡ k = ground arith in
          let absent : find c s ≡ none =
            subst (λ j. find j s ≡ none) (sym c-is) (Above-find k s sorted) in
          let now : or_zero (find c (insert k n freq)) ≡ n =
            rw (find-insert c k n freq, same) refl in
          let old : find c freq ≡ find k freq = ap (λ j. find j freq) c-is in
          rw (same, later, now, absent, old) (omega arith)
      | inr other ↦
          let now : find c (insert k n freq) ≡ find c freq =
            rw (find-insert c k n freq, other) refl in
          rw (other, later, now) refl
    ]

pub find-freq_of :
    (c : ℕ) (rows : Map ℕ MicrovmRow) (freq : Map ℕ ℕ)
    → or_zero (find c (freq_of rows freq)) ≡ or_zero (find c freq) + uses c rows
unfolding freq_of uses
find-freq_of c [] freq = omega arith
find-freq_of c ((op, row) ∷ rows) freq =
    let head = find-count_calls c (set_of row.calls) freq (set_of-IsSorted row.calls) in
    let tail = find-freq_of c rows (count_calls (set_of row.calls) freq) in
    let test =
      ap (λ (b : Bool). or_zero (find c freq) + (if b then 1 else 0)) (find-set_of c row.calls) in
    omega (arith, tail, head, test)

count_calls-IsSorted :
    (s : Map ℕ (Unit {0})) (freq : Map ℕ ℕ) → IsSorted freq → IsSorted (count_calls s freq)
unfolding count_calls
count_calls-IsSorted [] freq sorted = sorted
count_calls-IsSorted ((k, _) ∷ s) freq sorted =
    count_calls-IsSorted s _ (insert-IsSorted k (or_zero (find k freq) + 1) freq sorted)

pub freq_of-IsSorted :
    (rows : Map ℕ MicrovmRow) (freq : Map ℕ ℕ) → IsSorted freq → IsSorted (freq_of rows freq)
unfolding freq_of
freq_of-IsSorted [] freq sorted = sorted
freq_of-IsSorted ((op, row) ∷ rows) freq sorted =
    freq_of-IsSorted rows _ (count_calls-IsSorted (set_of row.calls) freq sorted)
