-- ===== src/Devirt/Ranks.antt =====
-- Which call targets md_classify of devirt_rebuild.hpp takes for those of operands and of invocations.
use mathlib.Core.Option
use vardoger.Prelude.{
  ℕ, ◌+◌, ◌≤◌, ◌≡◌, ◌≢◌, refl, ap, ◌⊎◌, inl, inr, Option, none, some, List, [], ◌∷◌, arith, ◌==◌,
  Bool-cases, Option-cases, subst, split,
}
use vardoger.Prelude.Order.{nat_key}
use vardoger.Prelude.Map.{Map, find}
use vardoger.Devirt.Families.{or_zero}
use vardoger.Devirt.Classify.{
  MicrovmRow, freq_of, seen_of, sort_ranked, ranked, first_call, first_other, family_of_row,
  classify_rows, md_classify,
}
use vardoger.Devirt.Counts.{uses, find-freq_of, freq_of-IsSorted}
use vardoger.Devirt.Sorts.{
  Every, Every-map, Every-find, Every-entries, IsRanked, sort-IsRanked, sort-Every, sort-Every-back,
}

-- The uses of a target that may be missing.
abbrev pub uses_of : Option ℕ → Map ℕ MicrovmRow → ℕ
uses_of none rows = 0
uses_of (some c) rows = uses c rows

-- `OPF` and `INV`, if there are such targets.
abbrev pub opf_of : Map ℕ MicrovmRow → Option ℕ
opf_of rows = first_call (ranked rows)

abbrev pub inv_of : Map ℕ MicrovmRow → Option ℕ
inv_of rows = first_other (opf_of rows) (ranked rows)

module _ (rows : Map ℕ MicrovmRow) where
  abbrev Counts : ℕ × ℕ → Type 0
  Counts b = b.1 ≡ uses b.0 rows

  first_call-most :
      (l : List (ℕ × ℕ))
      → IsRanked l
      → Every Counts l
      → Every (λ b. b.1 ≤ uses_of (first_call l) rows) l
  first_call-most [] sorted counts = tt
  first_call-most ((c, n) ∷ l) (all, sorted) (count, counts) = (
    omega arith,
    Every-map (λ b. b.1 ≤ n) (λ b. b.1 ≤ uses c rows) l (λ b below. omega arith) all,
  )

  first_other-most :
      (opf : Option ℕ) (l : List (ℕ × ℕ))
      → IsRanked l
      → Every Counts l
      → Every (λ b. (opf ≡ some b.0) ⊎ (b.1 ≤ uses_of (first_other opf l) rows)) l
  unfolding first_other
  first_other-most opf [] sorted counts = tt
  first_other-most none ((c, n) ∷ l) (all, sorted) (count, counts) =
      (inr (omega arith), Every-map (λ b. b.1 ≤ n) _ l (λ b below. inr (omega arith)) all)
  first_other-most (some o) ((c, n) ∷ l) (all, sorted) (count, counts) =
      split (λ f. Every (λ b. (some o ≡ some b.0) ⊎ (b.1 ≤ uses_of f rows)) ((c, n) ∷ l)) (c == o)
        (λ same. (
          inl (ap some (let e : o ≡ c = ground arith in e)),
          first_other-most (some o) l sorted counts,
        ))
        (λ other.
          (inr (omega arith), Every-map (λ b. b.1 ≤ n) _ l (λ b below. inr (omega arith)) all))

  first_other-other :
      (opf : Option ℕ) (l : List (ℕ × ℕ))
      → (opf ≡ none) ⊎ ((first_other opf l ≡ none) ⊎ (first_other opf l ≢ opf))
  unfolding first_other
  first_other-other none l = inl refl
  first_other-other (some o) [] = inr (inl refl)
  first_other-other (some o) ((c, n) ∷ l) = elim (Bool-cases (c == o)) [
    | inl same ↦ rw same (first_other-other (some o) l)
    | inr other ↦ rw other (inr (inr (λ e. absurd (ground arith))))
  ]

  -- The counts of `freq` are the numbers of rows.
  freq-Counts : Every Counts (freq_of rows [])
  unfolding find
  freq-Counts =
      Every-map (λ b. find b.0 (freq_of rows []) ≡ some b.1) Counts (freq_of rows [])
        (λ b e.
          let total = find-freq_of b.0 rows [] in
          let here : or_zero (find b.0 (freq_of rows [])) ≡ b.1 = ap or_zero e in
          counted b.0 b.1 total here)
        (Every-entries (freq_of rows []) (freq_of-IsSorted rows [] tt))
    where
      counted :
          (c n : ℕ)
          → or_zero (find c (freq_of rows [])) ≡ or_zero (find c []) + uses c rows
          → or_zero (find c (freq_of rows [])) ≡ n
          → n ≡ uses c rows
      counted c n total here = omega arith

  -- What holds of each entry of `freq` and of an entry of 0 holds of each target and its number of rows.
  freq-all :
      (P : ℕ × ℕ → Type 0) (c : ℕ) → Every P (freq_of rows []) → P (c, 0) → P (c, uses c rows)
  unfolding find
  freq-all P c all zero' =
      let total = find-freq_of c rows [] in
      elim (Option-cases (find c (freq_of rows []))) [
        | inl missing ↦
            subst (λ n. P (c, n))
              (let e : 0 ≡ uses c rows = omega (arith, total, ap or_zero missing) in e) zero'
        | inr (n, e) ↦
            subst (λ n. P (c, n))
              (let same : n ≡ uses c rows = omega (arith, total, ap or_zero e) in same)
              (Every-find P c n (freq_of rows []) all e)
      ]

find-classify_rows :
    (opf inv : Option ℕ) (rows : Map ℕ MicrovmRow) (op : ℕ)
    → find op (classify_rows opf inv rows) ≡ Option.map (family_of_row opf inv) (find op rows)
unfolding find classify_rows
find-classify_rows opf inv [] op = refl
find-classify_rows opf inv ((j, row) ∷ rows) op = elim (Bool-cases (op == j)) [
  | inl same ↦ rw same refl
  | inr other ↦ rw other (find-classify_rows opf inv rows op)
]

-- `md_classify` gives a family to exactly the opcodes that have a row, by what the row says and two
-- call targets: no target is called by the handlers of more opcodes than OPF, which is the target of
-- operands; and none but OPF by more than INV, which is the target of invocations and not OPF. Where
-- there is no OPF or no INV, no target, or none but OPF, is called.
pub md_classify_lem :
    (rows : Map ℕ MicrovmRow) (op c : ℕ)
    → (find op (md_classify rows)
        ≡ Option.map (family_of_row (opf_of rows) (inv_of rows)) (find op rows))
      × (uses c rows ≤ uses_of (opf_of rows) rows)
      × ((opf_of rows ≡ some c) ⊎ (uses c rows ≤ uses_of (inv_of rows) rows))
      × ((opf_of rows ≡ none) ⊎ ((inv_of rows ≡ none) ⊎ (inv_of rows ≢ opf_of rows)))
unfolding md_classify ranked
md_classify_lem rows op c =
    let seen = (seen_of rows ([], 0)).0 in
    let freq = freq_of rows [] in
    let sorted = sort-IsRanked seen freq in
    let counts = sort-Every (Counts rows) seen freq (freq-Counts rows) in
    let opf = opf_of rows in
    let inv = inv_of rows in
    (
      find-classify_rows opf inv rows op,
      freq-all rows (λ b. b.1 ≤ uses_of opf rows) c
          (sort-Every-back (λ b. b.1 ≤ uses_of opf rows) seen freq
            (first_call-most rows (sort_ranked seen freq) sorted counts))
          (omega arith),
      freq-all rows (λ b. (opf ≡ some b.0) ⊎ (b.1 ≤ uses_of inv rows)) c
          (sort-Every-back (λ b. (opf ≡ some b.0) ⊎ (b.1 ≤ uses_of inv rows)) seen freq
            (first_other-most rows opf (sort_ranked seen freq) sorted counts))
          (inr (omega arith)),
      first_other-other rows opf (sort_ranked seen freq),
    )
