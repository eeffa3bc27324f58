-- ===== src/Devirt/Places.antt =====
-- The places of instructions in assembled code.
use vardoger.Prelude.{
  ℕ, zero, suc, ◌+◌, ◌≤◌, ◌<◌, ◌≡◌, ◌≢◌, refl, sym, ap, ◌∙◌, ◌⊎◌, inl, inr, some, List, [], ◌∷◌,
  ◌++◌, arith, length, get_elem?, Option-cases, Bool-cases, ltb, ltb→lt, append_assoc,
}
use vardoger.Prelude.Order.{bytes_key}
use vardoger.Prelude.Map.{find}
use vardoger.Devirt.Table.{md_ops}
use vardoger.Devirt.Encode.{DalvikInstr, width, offsets}
use vardoger.Devirt.Layout.{size, offsets-at}
use vardoger.Devirt.Branching.{md_units_pos, size-append}

-- The instructions in front of one, and behind it.
pub record Split (body : List DalvikInstr) (ins : DalvikInstr) : Type 0 where
  pub front : List DalvikInstr
  pub back : List DalvikInstr
  pub whole : body ≡ front ++ ins ∷ back

-- The start of an instruction, or the end of the code.
abbrev pub IsPlace : List DalvikInstr → ℕ → Type 0
IsPlace body pc =
    (size body ≤ pc) ⊎ ((ins : DalvikInstr) × (s : Split body ins) × (pc ≡ size s.front))

pub width-positive : (ins : DalvikInstr) → 0 < width ins
unfolding width
width-positive ins = elim (Option-cases (find ins.mnem md_ops)) [
  | inl unknown ↦ rw (unknown, width) (omega arith)
  | inr (o, known) ↦ rw (known, width) (md_units_pos o.fmt)
]

pub start-IsPlace : (body : List DalvikInstr) → IsPlace body 0
start-IsPlace [] = inl (omega arith)
start-IsPlace (ins ∷ back) = inr (ins, record { front = []; back = back; whole = refl }, refl)

size-Split :
    (body : List DalvikInstr) (ins : DalvikInstr) (s : Split body ins)
    → size body ≡ size s.front + (width ins + size s.back)
size-Split body ins s = ap size s.whole ∙ size-append s.front (ins ∷ s.back)

pub inside-Split :
    (body : List DalvikInstr) (ins : DalvikInstr) (s : Split body ins)
    → size s.front + width ins ≤ size body
inside-Split body ins s = omega (arith, size-Split body ins s)

-- The place behind an instruction.
pub behind-IsPlace :
    (body : List DalvikInstr) (ins : DalvikInstr) (s : Split body ins)
    → IsPlace body (size s.front + width ins)
behind-IsPlace body ins s = by_back s.back s.whole
  where
    by_back :
        (back : List DalvikInstr)
        → body ≡ s.front ++ ins ∷ back
        → IsPlace body (size s.front + width ins)
    by_back [] whole = inl (omega (arith, ap size whole, size-append s.front (ins ∷ [])))
    by_back (ins' ∷ back) whole = inr (
      ins',
      record {
        front = s.front ++ ins ∷ [];
        back = back;
        whole = whole ∙ sym (append_assoc s.front (ins ∷ []) (ins' ∷ back));
      },
      omega (arith, size-append s.front (ins ∷ [])),
    )

-- The instruction of an index.
pub Split-at :
    (body : List DalvikInstr) (i : ℕ)
    → i < length body
    → (ins : DalvikInstr) × (s : Split body ins) × (length s.front ≡ i)
Split-at [] i low = absurd (omega arith)
Split-at (ins ∷ back) zero low = (ins, record { front = []; back = back; whole = refl }, refl)
Split-at (first ∷ rest) (suc i) low =
    let (ins, s, e) = Split-at rest i (omega arith) in
    (
      ins,
      record { front = first ∷ s.front; back = s.back; whole = ap (◌∷◌ first) s.whole },
      ap suc e,
    )

pub offset-Split :
    (body : List DalvikInstr) (ins : DalvikInstr) (s : Split body ins)
    → get_elem? (offsets 0 body) (length s.front) ≡ some (size s.front)
offset-Split body ins s =
    ap (λ (l : List DalvikInstr). get_elem? (offsets 0 l) (length s.front)) s.whole
    ∙ (offsets-at 0 s.front ins s.back ∙ ap some (omega arith))

pub elem-Split :
    (front : List DalvikInstr) (ins : DalvikInstr) (back : List DalvikInstr)
    → get_elem? (front ++ ins ∷ back) (length front) ≡ some ins
elem-Split [] ins back = refl
elem-Split (first ∷ front) ins back = elem-Split front ins back

offsets-from : (u : ℕ) (l : List DalvikInstr) (i v : ℕ) → get_elem? (offsets u l) i ≡ some v → u ≤ v
unfolding offsets
offsets-from u [] i v e = absurd (cc)
offsets-from u (first ∷ rest) zero v e = let same : u ≡ v = cc in omega arith
offsets-from u (first ∷ rest) (suc i) v e = omega (arith, offsets-from (u + width first) rest i v e)

-- Later instructions have greater offsets.
offsets-less :
    (u : ℕ) (l : List DalvikInstr) (i j v w : ℕ)
    → i < j
    → get_elem? (offsets u l) i ≡ some v
    → get_elem? (offsets u l) j ≡ some w
    → v < w
unfolding offsets
offsets-less u [] i j v w less e e' = absurd (cc)
offsets-less u (first ∷ rest) i zero v w less e e' = absurd (omega arith)
offsets-less u (first ∷ rest) zero (suc j) v w less e e' =
    let same : u ≡ v = cc in
    omega (arith, width-positive first, offsets-from (u + width first) rest j w e')
offsets-less u (first ∷ rest) (suc i) (suc j) v w less e e' =
    offsets-less (u + width first) rest i j v w (omega arith) e e'

-- Different instructions stand at different places.
pub offsets-apart :
    (body : List DalvikInstr) (i j v w : ℕ)
    → i ≢ j
    → get_elem? (offsets 0 body) i ≡ some v
    → get_elem? (offsets 0 body) j ≡ some w
    → v ≢ w
offsets-apart body i j v w other e e' same = elim (Bool-cases (ltb i j)) [
  | inl less ↦ absurd (omega (arith, offsets-less 0 body i j v w (ltb→lt i j less) e e'))
  | inr more ↦
      let less : j < i = ground arith in
      absurd (omega (arith, offsets-less 0 body j i w v less e' e))
]
