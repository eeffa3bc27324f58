-- ===== src/Devirt/Classify.antt =====
-- The families of opcodes, from what their handlers do: md_classify of devirt_rebuild.hpp.
--
-- The rows, which md_parse_static reads from the log, are given.
use vardoger.Prelude.{
  ℕ, ◌+◌, Bool, true, false, ◌&&◌, ◌||◌, not, Option, none, some, List, [], ◌∷◌, ◌++◌, leb, ltb,
  if◌then◌else◌, length, ◌==◌, is_some,
}
use vardoger.Prelude.Order.{Bytes, nat_key}
use vardoger.Prelude.Map.{Map, find, insert}
use vardoger.Prelude.Text.{text}
use vardoger.Devirt.Families.{or_zero}

pub record MicrovmRow : Type 0 where
  pub reads : List ℕ
  pub writes : List ℕ
  pub alu : List Bytes
  pub branch : ℕ
  pub nfetch : ℕ
  pub worddec : ℕ
  pub calls : List ℕ

-- A set of call targets, as a map to nothing.
unfoldable pub set_of : List ℕ → Map ℕ (Unit {0})
set_of [] = []
set_of (c ∷ cs) = insert c tt (set_of cs)

-- `freq`: the number of rows that call a target.
unfoldable pub count_calls : Map ℕ (Unit {0}) → Map ℕ ℕ → Map ℕ ℕ
count_calls [] freq = freq
count_calls ((c, _) ∷ cs) freq = count_calls cs (insert c (or_zero (find c freq) + 1) freq)

unfoldable pub freq_of : Map ℕ MicrovmRow → Map ℕ ℕ → Map ℕ ℕ
freq_of [] freq = freq
freq_of ((_, row) ∷ rows) freq = freq_of rows (count_calls (set_of row.calls) freq)

-- `firstseen`, with the next number.
unfoldable pub see_calls : Map ℕ (Unit {0}) → Map ℕ ℕ × ℕ → Map ℕ ℕ × ℕ
see_calls [] seen = seen
see_calls ((c, _) ∷ cs) (seen, seq) =
    see_calls cs (if is_some (find c seen) then (seen, seq) else (insert c seq seen, seq + 1))

unfoldable pub seen_of : Map ℕ MicrovmRow → Map ℕ ℕ × ℕ → Map ℕ ℕ × ℕ
seen_of [] seen = seen
seen_of ((_, row) ∷ rows) seen = seen_of rows (see_calls (set_of row.calls) seen)

-- The order of `ranked`, and the sort, which is stable.
abbrev pub ranks : Map ℕ ℕ → ℕ × ℕ → ℕ × ℕ → Bool
ranks seen (a, n) (b, k) =
    if n == k then ltb (or_zero (find a seen)) (or_zero (find b seen)) else ltb k n

unfoldable pub put_ranked : Map ℕ ℕ → ℕ × ℕ → List (ℕ × ℕ) → List (ℕ × ℕ)
put_ranked seen a [] = a ∷ []
put_ranked seen a (b ∷ rest) = if ranks seen b a then b ∷ put_ranked seen a rest else a ∷ b ∷ rest

unfoldable pub sort_ranked : Map ℕ ℕ → List (ℕ × ℕ) → List (ℕ × ℕ)
sort_ranked seen [] = []
sort_ranked seen (a ∷ rest) = put_ranked seen a (sort_ranked seen rest)

unfoldable pub ranked : Map ℕ MicrovmRow → List (ℕ × ℕ)
ranked rows = sort_ranked (seen_of rows ([], 0)).0 (freq_of rows [])

-- `OPF` and `INV`.
abbrev pub first_call : List (ℕ × ℕ) → Option ℕ
first_call [] = none
first_call ((c, _) ∷ rest) = some c

unfoldable pub first_other : Option ℕ → List (ℕ × ℕ) → Option ℕ
first_other opf [] = none
first_other none ((c, _) ∷ rest) = some c
first_other (some o) ((c, n) ∷ rest) = if c == o then first_other (some o) rest else some c

abbrev pub calls_it : Option ℕ → Map ℕ (Unit {0}) → Bool
calls_it none calls = false
calls_it (some c) calls = is_some (find c calls)

-- A register that is written is also read.
unfoldable pub has : ℕ → List ℕ → Bool
has x [] = false
has x (y ∷ ys) = x == y || has x ys

unfoldable pub in_place : List ℕ → List ℕ → Bool
in_place [] reads = false
in_place (w ∷ ws) reads = has w reads || in_place ws reads

abbrev pub is_nil : {A : Type 0} → List A → Bool
is_nil [] = true
is_nil (x ∷ xs) = false

-- The family by the numbers of reads and writes.
unfoldable pub family_by_counts : ℕ → ℕ → Bool → Bytes
family_by_counts nr nw has_calls =
    if leb 2 nr && leb 1 nw
    then text "binary-int"
    else if nr == 2 && nw == 0
    then text "if-cmp"
    else if nr == 1 && nw == 1
    then text "move/unary"
    else if nr == 0 && nw == 1
    then text "move-result/const"
    else if nr == 1 && nw == 0
    then text "if-testz/return"
    else if has_calls
    then text "ref-op"
    else text "nop/goto"

unfoldable pub family_of_row : Option ℕ → Option ℕ → MicrovmRow → Bytes
family_of_row opf inv d =
    let nr = length d.reads in
    let nw = length d.writes in
    let calls = set_of d.calls in
    if not (d.branch == 0)
    then (if leb 2 nr then text "if-cmp" else text "if-testz")
    else if calls_it inv calls
    then text "invoke"
    else elim d.alu [
      | alu ∷ _ ↦ if in_place d.writes d.reads then alu ++ text "/2addr" else alu
      | [] ↦
          if leb 1 d.worddec && (nr == 0 && nw == 0)
          then text "const-wide/switch/fill-array"
          else if calls_it opf calls && (nr == 0 && leb nw 1)
          then text "const/ref"
          else family_by_counts nr nw (not (is_nil calls))
    ]

unfoldable pub classify_rows : Option ℕ → Option ℕ → Map ℕ MicrovmRow → Map ℕ Bytes
classify_rows opf inv [] = []
classify_rows opf inv ((op, row) ∷ rows) =
    (op, family_of_row opf inv row) ∷ classify_rows opf inv rows

unfoldable pub md_classify : Map ℕ MicrovmRow → Map ℕ Bytes
md_classify rows =
    let opf = first_call (ranked rows) in classify_rows opf (first_other opf (ranked rows)) rows
