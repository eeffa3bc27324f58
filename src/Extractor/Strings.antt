-- ===== src/Extractor/Strings.antt =====
-- Which strings the search of a buffer finds.
use vardoger.Prelude.{
  ℕ, ◌+◌, ◌≤◌, ◌<◌, ◌≡◌, ◌⊎◌, refl, sym, ap, ◌∙◌, inl, inr, Bool, true, false, ◌&&◌, ◌||◌, List, [],
  ◌∷◌, ◌++◌, arith, leb, ◌==◌, if◌then◌else◌, length, length-append, append_assoc, Bool-cases,
}
use vardoger.Prelude.Order.{Bytes}
use vardoger.Prelude.Text.{contains}
use vardoger.Memory.{add64}
use vardoger.Extractor.{FoundString, is_printable, flush, search_loop}

abbrev pub all_printable : Bytes → Bool
all_printable [] = true
all_printable (c ∷ cs) = is_printable c && all_printable cs

-- The bytes before a run end, and those behind it start, with one that is not printable.
abbrev pub EndsRun : Bytes → Type 0
EndsRun pre =
    (pre ≡ []) ⊎ ((front : Bytes) × (c : ℕ) × (pre ≡ front ++ c ∷ []) × (is_printable c ≡ false))

abbrev pub StartsGap : Bytes → Type 0
StartsGap post = (post ≡ []) ⊎ ((c : ℕ) × (cs : Bytes) × (post ≡ c ∷ cs) × (is_printable c ≡ false))

-- A string of a buffer: a whole run of printable bytes, at least as long as asked for, in which the
-- needle occurs if there is one.
abbrev pub IsRun : Bytes → ℕ → Bytes → ℕ → Bytes → FoundString → Type 0
IsRun needle min_len label base buf s =
    (pre : Bytes) × (post : Bytes) × (buf ≡ pre ++ (s.text ++ post))
    × (s.addr ≡ add64 base (length pre))
    × (s.region ≡ label)
    × (all_printable s.text ≡ true)
    × EndsRun pre
    × StartsGap post
    × (min_len ≤ length s.text)
    × ((length needle == 0 || contains needle s.text) ≡ true)

unfoldable pub Every : (FoundString → Type 0) → List FoundString → Type 0
Every P [] = Unit
Every P (s ∷ rest) = P s × Every P rest

Every-append :
    (P : FoundString → Type 0) (xs ys : List FoundString)
    → Every P xs
    → Every P ys
    → Every P (xs ++ ys)
unfolding Every
Every-append P [] ys h k = k
Every-append P (x ∷ xs) ys (h, hs) k = (h, Every-append P xs ys hs k)

all_printable-append :
    (run : Bytes) (c : ℕ)
    → all_printable run ≡ true
    → is_printable c ≡ true
    → all_printable (run ++ c ∷ []) ≡ true
all_printable-append [] c h k = rw k
all_printable-append (r ∷ run) c h k = ground (arith, all_printable-append run c)

module _ (needle : Bytes) (min_len : ℕ) (label : Bytes) (base : ℕ) (buf : Bytes)
    (some_len : 0 < min_len) where
  flush-IsRun :
      (start : ℕ) (pre run post : Bytes)
      → buf ≡ pre ++ (run ++ post)
      → all_printable run ≡ true
      → EndsRun pre
      → StartsGap post
      → (length run ≡ 0) ⊎ (start ≡ length pre)
      → Every (IsRun needle min_len label base buf) (flush needle min_len label base start run)
  unfolding Every flush
  flush-IsRun start pre run post e all before behind place =
      elim (Bool-cases (leb min_len (length run) && (length needle == 0 || contains needle run))) [
        | inr out ↦ rw out tt
        | inl kept ↦ rw kept (
          (
            pre,
            post,
            e,
            ap (add64 base) (ground arith),
            refl,
            all,
            before,
            behind,
            ground arith,
            ground arith,
          ),
          tt,
        )
      ]

  search_loop-IsRun :
      (cs : Bytes) (i start : ℕ) (pre run : Bytes)
      → buf ≡ pre ++ (run ++ cs)
      → i ≡ length pre + length run
      → all_printable run ≡ true
      → EndsRun pre
      → (length run ≡ 0) ⊎ (start ≡ length pre)
      → Every
          (IsRun needle min_len label base buf)
          (search_loop needle min_len label base i start run cs)
  unfolding search_loop
  search_loop-IsRun [] i start pre run e at all before place =
      flush-IsRun start pre run [] e all before (inl refl) place
  search_loop-IsRun (c ∷ cs) i start pre run e at all before place =
      elim (Bool-cases (is_printable c)) [
        | inl shown ↦ rw shown (
            search_loop-IsRun cs (i + 1) (if length run == 0 then i else start) pre (run ++ c ∷ [])
              (e ∙ ap (◌++◌ pre) (sym (append_assoc run (c ∷ []) cs)))
              (omega (arith, length-append run (c ∷ []))) (all_printable-append run c all shown)
              before (inr (ground arith)))
        | inr gap ↦
            let whole : (pre ++ (run ++ c ∷ [])) ++ cs ≡ pre ++ (run ++ c ∷ cs) =
              append_assoc pre (run ++ c ∷ []) cs ∙ ap (◌++◌ pre) (append_assoc run (c ∷ []) cs) in
            rw gap (
              Every-append (IsRun needle min_len label base buf)
                (flush needle min_len label base start run)
                (search_loop needle min_len label base (i + 1) start [] cs)
                (flush-IsRun start pre run (c ∷ cs) e all before (inr (c, cs, refl, gap)) place)
                (search_loop-IsRun cs (i + 1) start (pre ++ (run ++ c ∷ [])) [] (e ∙ sym whole)
                  (omega (arith, length-append pre (run ++ c ∷ []), length-append run (c ∷ [])))
                  refl (inr (pre ++ run, c, sym (append_assoc pre run (c ∷ [])), gap)) (inl refl)))
      ]

-- For a least length that is not 0, the strings found in a buffer are whole runs of printable bytes
-- of it, of that length at least, with the needle in them, and their addresses are where they start.
pub search_loop-Every :
    (needle : Bytes) (min_len : ℕ) (label : Bytes) (base : ℕ) (buf : Bytes)
    → 0 < min_len
    → Every (IsRun needle min_len label base buf) (search_loop needle min_len label base 0 0 [] buf)
search_loop-Every needle min_len label base buf some_len =
    search_loop-IsRun needle min_len label base buf some_len buf 0 0 [] [] refl refl refl (inl refl)
      (inl refl)
