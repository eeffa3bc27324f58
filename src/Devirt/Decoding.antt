-- ===== src/Devirt/Decoding.antt =====
-- What md_decode_method of devirt_rebuild.hpp gives to the assembler.
use vardoger.Prelude.{
  ℕ, zero, suc, ◌+◌, ◌/◌, ◌≤◌, ◌<◌, ◌≡◌, ◌≢◌, refl, sym, ap, true, not, ◌&&◌, ◌||◌, Option, none,
  some, List, [], ◌∷◌, arith, ltb, length, get_elem?, subst, is_some, split,
}
use vardoger.Prelude.Order.{Bytes, bytes_key, nat_key, equal_bytes}
use vardoger.Prelude.Map.{Map, find}
use vardoger.Prelude.Text.{text, contains}
use vardoger.Devirt.Families.{md_alu, VmInstr, fam_base, md_to_dalvik}
use vardoger.Devirt.Methods.{
  RawDlv, real_rows, place_map, nibble, operands, decode_row, is_if, is_goto, aimed, sanitize,
  decode_rows, md_decode_method,
}
use vardoger.Devirt.Known.{AllSmall, IsSound, Aims, IsOperation}
use vardoger.Devirt.Sound.{md_to_dalvik-IsSound}

abbrev HasSmall : VmInstr → Type 0
HasSmall d = AllSmall d.vregs × (length d.vregs ≤ 5)

nibble-small : (hi k : ℕ) → nibble hi k < 16
nibble-small hi k = omega arith

one : (hi : ℕ) → AllSmall (nibble hi 1 ∷ []) × (length (nibble hi 1 ∷ []) ≤ 5)
one hi = ((omega arith, tt), omega arith)

two :
    (hi : ℕ)
    → AllSmall (nibble hi 1 ∷ nibble hi 16 ∷ []) × (length (nibble hi 1 ∷ nibble hi 16 ∷ []) ≤ 5)
two hi = ((omega arith, (omega arith, tt)), omega arith)

three :
    (hi : ℕ)
    → AllSmall (nibble hi 1 ∷ nibble hi 16 ∷ nibble hi 0x100 ∷ [])
      × (length (nibble hi 1 ∷ nibble hi 16 ∷ nibble hi 0x100 ∷ []) ≤ 5)
three hi = ((omega arith, (omega arith, (omega arith, tt))), omega arith)

operands-small : (d : VmInstr) (hi : ℕ) → HasSmall d → HasSmall (operands d hi)
unfolding operands
operands-small d hi small =
    split HasSmall
      (equal_bytes d.family (text "invoke")
        || contains (text "ref") d.family
        || equal_bytes d.family (text "const/ref"))
      (λ _. one hi)
      (λ _.
        split HasSmall
          (is_some (find (fam_base d.family) md_alu) || equal_bytes d.family (text "binary-int"))
          (λ _. three hi)
          (λ _.
            split HasSmall (contains (text "move") d.family) (λ _. two hi)
              (λ _.
                split HasSmall (contains (text "if-") d.family) (λ _. two hi)
                  (λ _.
                    split HasSmall (equal_bytes d.family (text "const")) (λ _. one hi)
                      (λ _. small)))))

decode_row-small :
    (cls : Map ℕ Bytes) (places : Map ℕ ℕ) (s : RawDlv) → HasSmall (decode_row cls places s)
unfolding decode_row
decode_row-small cls places s = operands-small _ (s.raw / 0x100) (tt, omega arith)

aimed-Aims : (n i : ℕ) (fam : Bytes) (o : Option ℕ) → aimed n i o ≡ true → Aims n i fam o
aimed-Aims n i fam none e = absurd (cc)
aimed-Aims n i fam (some t) e =
    let low : t < n = ground arith in let other : t ≢ i = ground arith in (low, other)

-- An operation that was put in order.
sanitize-IsOperation : (n i : ℕ) (d : VmInstr) → HasSmall d → IsOperation n i (sanitize n i d)
unfolding sanitize
sanitize-IsOperation n i d (small, few) =
    split (IsOperation n i) (not (is_if d.family || is_goto d.family))
      (λ e. record { small = small; few = few; aims = λ e'. absurd (ground arith) })
      (λ _.
        split (IsOperation n i) (aimed n i d.target)
          (λ e. record { small = small; few = few; aims = λ _. aimed-Aims n i d.family d.target e })
          (λ _.
            split (IsOperation n i) (is_if d.family && ltb (i + 1) n)
              (λ e. record { small = small; few = few; aims = λ _. (ground arith, omega arith) })
              (λ _. record { small = small; few = few; aims = λ _. refl })))

decode_rows-IsOperation :
    (cls : Map ℕ Bytes) (places : Map ℕ ℕ) (n i k : ℕ) (rows : List RawDlv) (d : VmInstr)
    → get_elem? (decode_rows cls places n i rows) k ≡ some d
    → IsOperation n (i + k) d
unfolding decode_rows
decode_rows-IsOperation cls places n i k [] d e = absurd (cc)
decode_rows-IsOperation cls places n i zero (s ∷ rest) d e =
    subst (λ j. IsOperation n j d) (let same : i ≡ i + 0 = omega arith in same)
      (subst (IsOperation n i) (let same : sanitize n i (decode_row cls places s) ≡ d = cc in same)
        (sanitize-IsOperation n i _ (decode_row-small cls places s)))
decode_rows-IsOperation cls places n i (suc k) (s ∷ rest) d e =
    subst (λ j. IsOperation n j d) (let same : (i + 1) + k ≡ i + suc k = omega arith in same)
      (decode_rows-IsOperation cls places n (i + 1) k rest d e)

length-decode_rows :
    (cls : Map ℕ Bytes) (places : Map ℕ ℕ) (n i : ℕ) (rows : List RawDlv)
    → length (decode_rows cls places n i rows) ≡ length rows
unfolding decode_rows
length-decode_rows cls places n i [] = refl
length-decode_rows cls places n i (s ∷ rest) = ap suc (length-decode_rows cls places n (i + 1) rest)

-- Whatever the log's rows and the classification of its opcodes are, each operation that
-- `md_decode_method` decodes is translated by `md_to_dalvik` to an instruction that the assembler
-- has in its table, with registers below 16, at most five of them for an invoke, and, where it
-- is a branch, with a target that is another operation of the same method.
pub md_decode_method-IsSound :
    (dlv : List RawDlv) (cls : Map ℕ Bytes) (i : ℕ) (d : VmInstr)
    → get_elem? (md_decode_method dlv cls) i ≡ some d
    → IsSound (length (md_decode_method dlv cls)) i (md_to_dalvik d)
unfolding md_decode_method
md_decode_method-IsSound dlv cls i d e =
    let real = real_rows dlv in
    let places = place_map 0 real [] in
    subst (λ n. IsSound n i (md_to_dalvik d))
      (sym (length-decode_rows cls places (length real) 0 real))
      (md_to_dalvik-IsSound (length real) i d (
        subst (λ j. IsOperation (length real) j d) (let same : 0 + i ≡ i = omega arith in same)
          (decode_rows-IsOperation cls places (length real) 0 i real d e)))
