-- ===== src/Devirt/Sound.antt =====
-- What a decoded method consists of: known instructions on 16 registers, and branches between them.
use mathlib.Core.Option
use vardoger.Prelude.{
  ℕ, ◌≤◌, ◌<◌, ◌≡◌, ◌≢◌, refl, sym, ap, ◌∙◌, Bool, true, false, ◌&&◌, ◌||◌, Option, none, some, [],
  ◌∷◌, ◌++◌, arith, leb, ltb, if◌then◌else◌, length, get_or, ◌==◌, inl, inr, Bool-cases,
  Option-cases, subst, split,
}
use vardoger.Prelude.Order.{Bytes, bytes_key, equal_bytes, equal_bytes_iff}
use vardoger.Prelude.Map.{find, every_value-find}
use vardoger.Prelude.Text.{text, contains, begins}
use vardoger.Devirt.Table.{f12x, f23x, md_ops}
use vardoger.Devirt.Encode.{DalvikInstr}
use vardoger.Devirt.Families.{
  md_alu, VmInstr, fam_base, or_zero, within_signed, make, alu_to_dalvik, const_to_dalvik,
  ref_to_dalvik, flow_to_dalvik, family_to_dalvik, md_to_dalvik,
}
use vardoger.Devirt.Methods.{is_if, is_goto}
use vardoger.Devirt.Known.{
  made, AllSmall, Operands, IsSound, Aims, IsOperation, get_or-small, known_nop, known_move,
  known_move_object, known_move_result, known_return_void, known_return, known_const4,
  known_const16, known_const, known_const_wide, known_const_string, known_goto, known_if_eq,
  known_if_eqz, known_iget_object, known_invoke, known_add, known_add_in_place, has_23x, has_12x,
  has_both, md_alu-table, and_left, and_right,
}

module _ (n i : ℕ) where
  three-IsSound :
      (mn : Bytes) (a b c : ℕ)
      → has_23x (find mn md_ops) ≡ true
      → a < 16
      → b < 16
      → c < 16
      → IsSound n i (make mn (a ∷ b ∷ c ∷ []))
  three-IsSound mn a b c has fa fb fc = elim (Option-cases (find mn md_ops)) [
    | inl e ↦ absurd (let no : false ≡ true = ap has_23x (sym e) ∙ has in cc)
    | inr (o, e) ↦
        let test : has_23x (some o) ≡ true = ap has_23x (sym e) ∙ has in
        let same : o.fmt ≡ f23x = ground arith in
        (
          o,
          e,
          (let all : made o ≡ true = ground arith in all),
          subst (λ fmt. Operands fmt n i (make mn (a ∷ b ∷ c ∷ []))) (sym same) (fa, fb, fc),
        )
  ]

  two-IsSound :
      (mn : Bytes) (a b : ℕ)
      → has_12x (find mn md_ops) ≡ true
      → a < 16
      → b < 16
      → IsSound n i (make mn (a ∷ b ∷ []))
  two-IsSound mn a b has fa fb = elim (Option-cases (find mn md_ops)) [
    | inl e ↦ absurd (let no : false ≡ true = ap has_12x (sym e) ∙ has in cc)
    | inr (o, e) ↦
        let test : has_12x (some o) ≡ true = ap has_12x (sym e) ∙ has in
        let same : o.fmt ≡ f12x = ground arith in
        (
          o,
          e,
          (let all : made o ≡ true = ground arith in all),
          subst (λ fmt. Operands fmt n i (make mn (a ∷ b ∷ []))) (sym same) (fa, fb),
        )
  ]

  module _ (d : VmInstr) (ok : IsOperation n i d) where
    reg : (k : ℕ) → get_or d.vregs k 0 < 16
    reg k = get_or-small d.vregs k ok.small

    abbrev SoundIfAny : Option DalvikInstr → Type 0
    SoundIfAny none = Unit {0}
    SoundIfAny (some ins) = IsSound n i ins

    alu-IsSound : SoundIfAny (alu_to_dalvik d)
    unfolding alu_to_dalvik
    alu-IsSound = by_name (find (fam_base d.family) md_alu) refl
      where
        by_name :
            (r : Option Bytes)
            → find (fam_base d.family) md_alu ≡ r
            → SoundIfAny (elim r [
              | none ↦ none
              | some mn ↦
                  if contains (text "/2addr") d.family && leb 2 (length d.vregs)
                  then some
                      (make (mn ++ text "/2addr") (get_or d.vregs 0 0 ∷ get_or d.vregs 1 0 ∷ []))
                  else if leb 3 (length d.vregs)
                  then some
                      (make mn (get_or d.vregs 0 0 ∷ get_or d.vregs 1 0 ∷ get_or d.vregs 2 0 ∷ []))
                  else if leb 2 (length d.vregs)
                  then some
                      (make (mn ++ text "/2addr") (get_or d.vregs 0 0 ∷ get_or d.vregs 1 0 ∷ []))
                  else none
            ])
        by_name none e = tt
        by_name (some mn) e =
            let both = every_value-find has_both (fam_base d.family) mn md_alu md_alu-table e in
            let three : has_23x (find mn md_ops) ≡ true = and_left _ _ both in
            let two : has_12x (find (mn ++ text "/2addr") md_ops) ≡ true = and_right _ _ both in
            split SoundIfAny (contains (text "/2addr") d.family && leb 2 (length d.vregs))
              (λ c. two-IsSound (mn ++ text "/2addr") _ _ two (reg 0) (reg 1))
              (λ c.
                split SoundIfAny (leb 3 (length d.vregs))
                  (λ c'. three-IsSound mn _ _ _ three (reg 0) (reg 1) (reg 2))
                  (λ c'.
                    split SoundIfAny (leb 2 (length d.vregs))
                      (λ c''. two-IsSound (mn ++ text "/2addr") _ _ two (reg 0) (reg 1))
                      (λ c''. tt)))

    const-IsSound : (l : ℕ) → IsSound n i (const_to_dalvik (get_or d.vregs 0 0) l)
    unfolding const_to_dalvik
    const-IsSound l =
        split (IsSound n i) (within_signed 8 l) (λ e. (_, known_const4, refl, reg 0))
          (λ e.
            split (IsSound n i) (within_signed 0x8000 l) (λ e'. (_, known_const16, refl, reg 0))
              (λ e'. (_, known_const, refl, reg 0)))

    ref-IsSound : IsSound n i (ref_to_dalvik d)
    unfolding ref_to_dalvik
    ref-IsSound = by_pool d.pool
      where
        last : (c : Bool) → (if c then get_or d.vregs 1 0 else get_or d.vregs 0 0) < 16
        last true = reg 1
        last false = reg 0

        by_pool :
            (pool : Option ℕ)
            → IsSound n i (elim pool [
              | some k ↦
                  if leb 2 (length d.vregs)
                  then make (text "iget-object") (get_or d.vregs 0 0 ∷ get_or d.vregs 1 0 ∷ k ∷ [])
                  else make (text "const-string") (get_or d.vregs 0 0 ∷ k ∷ [])
              | none ↦ make (text "move-object") (
                  get_or d.vregs 0 0
                  ∷ (if ltb 1 (length d.vregs) then get_or d.vregs 1 0 else get_or d.vregs 0 0)
                  ∷ [])
            ])
        by_pool (some k) =
            split (IsSound n i) (leb 2 (length d.vregs))
              (λ e. (_, known_iget_object, refl, (reg 0, reg 1)))
              (λ e. (_, known_const_string, refl, reg 0))
        by_pool none = (_, known_move_object, refl, (reg 0, last (ltb 1 (length d.vregs))))

    -- A branch of a family whose name holds `if-`.
    aimed_if : is_if d.family ≡ true → (or_zero d.target < n) × (or_zero d.target ≢ i)
    aimed_if yes_if = by_target d.target (ok.aims (ground arith))
      where
        by_target : (o : Option ℕ) → Aims n i d.family o → (or_zero o < n) × (or_zero o ≢ i)
        by_target none no_if = absurd (cc)
        by_target (some t) aim = aim

    -- A family of one of two names.
    either :
        (f : Bytes → Bool) (name name' : Bytes)
        → f name ≡ true
        → f name' ≡ true
        → (equal_bytes d.family name || equal_bytes d.family name') ≡ true
        → f d.family ≡ true
    either f name name' p p' e = elim (Bool-cases (equal_bytes d.family name)) [
      | inl same ↦ ap f ((equal_bytes_iff d.family name).0 same) ∙ p
      | inr other ↦ ap f ((equal_bytes_iff d.family name').0 (ground arith)) ∙ p'
    ]

    go-IsSound :
        is_goto d.family ≡ true
        → IsSound n i
            (elim d.target [ none ↦ make (text "nop") [] | some t ↦ make (text "goto") (t ∷ []) ])
    go-IsSound yes_goto = by_target d.target (ok.aims (ground arith))
      where
        by_target :
            (o : Option ℕ)
            → Aims n i d.family o
            → IsSound n i
                (elim o [ none ↦ make (text "nop") [] | some t ↦ make (text "goto") (t ∷ []) ])
        by_target none aim = (_, known_nop, refl, tt)
        by_target (some t) (low, other) = (_, known_goto, refl, (t, refl, low, other))

    flow-IsSound : IsSound n i (flow_to_dalvik d)
    unfolding flow_to_dalvik
    flow-IsSound =
        split (IsSound n i) (equal_bytes d.family (text "if-cmp") && leb 2 (length d.vregs))
          (λ c.
            let (low, other) =
              aimed_if (ap is_if ((equal_bytes_iff d.family (text "if-cmp")).0 (and_left _ _ c))) in
            (_, known_if_eq, refl, (_, _, _, refl, reg 0, reg 1, low, other)))
          (λ _.
            split (IsSound n i)
              ((equal_bytes d.family (text "if-testz")
                  || equal_bytes d.family (text "if-testz/return"))
                && leb 1 (length d.vregs))
              (λ c.
                let (low, other) = aimed_if (either is_if _ _ refl refl (and_left _ _ c)) in
                (_, known_if_eqz, refl, (_, _, refl, reg 0, low, other)))
              (λ _.
                split (IsSound n i)
                  (equal_bytes (fam_base d.family) (text "wide")
                    || contains (text "multi-word") d.family)
                  (λ c. (_, known_const_wide, refl, reg 0))
                  (λ _.
                    split (IsSound n i)
                      (equal_bytes d.family (text "nop/goto") || equal_bytes d.family (text "nop"))
                      (λ c. go-IsSound (either is_goto _ _ refl refl c))
                      (λ _.
                        split (IsSound n i) (begins (text "return") d.family)
                          (λ c.
                            split (IsSound n i) (length d.vregs == 0)
                              (λ c'. (_, known_return_void, refl, tt))
                              (λ c'. (_, known_return, refl, reg 0)))
                          (λ _. (_, known_nop, refl, tt))))))

    invoke-small :
        (c : Bool)
        → AllSmall (if c then 0 ∷ [] else d.vregs) × (length (if c then 0 ∷ [] else d.vregs) ≤ 5)
    invoke-small true = ((omega arith, tt), omega arith)
    invoke-small false = (ok.small, ok.few)

    family-IsSound : IsSound n i (family_to_dalvik d)
    unfolding family_to_dalvik
    family-IsSound =
        split (IsSound n i) (equal_bytes d.family (text "binary-int") && leb 3 (length d.vregs))
          (λ c. (_, known_add, refl, (reg 0, reg 1, reg 2)))
          (λ _.
            split (IsSound n i) (equal_bytes d.family (text "binary-int") && length d.vregs == 2)
              (λ c. (_, known_add_in_place, refl, (reg 0, reg 1)))
              (λ _.
                split (IsSound n i)
                  ((equal_bytes d.family (text "move/unary") || equal_bytes d.family (text "move"))
                    && leb 2 (length d.vregs))
                  (λ c. (_, known_move, refl, (reg 0, reg 1)))
                  (λ _.
                    split (IsSound n i)
                      ((equal_bytes d.family (text "move-result/const")
                          || equal_bytes d.family (text "move-result"))
                        && leb 1 (length d.vregs))
                      (λ c. (_, known_move_result, refl, reg 0))
                      (λ _.
                        split (IsSound n i)
                          (equal_bytes d.family (text "const") && leb 1 (length d.vregs))
                          (λ c. const-IsSound (or_zero d.lit))
                          (λ _.
                            split (IsSound n i) (equal_bytes d.family (text "invoke"))
                              (λ c. (_, known_invoke, refl, invoke-small (length d.vregs == 0)))
                              (λ _.
                                split (IsSound n i)
                                  ((equal_bytes d.family (text "ref-op")
                                      || equal_bytes d.family (text "const/ref"))
                                    && leb 1 (length d.vregs))
                                  (λ c. ref-IsSound) (λ _. flow-IsSound)))))))

    -- What `md_to_dalvik` makes of a sanitized operation.
    pub md_to_dalvik-IsSound : IsSound n i (md_to_dalvik d)
    unfolding md_to_dalvik
    md_to_dalvik-IsSound = by_alu (alu_to_dalvik d) alu-IsSound
      where
        by_alu :
            (r : Option DalvikInstr)
            → SoundIfAny r
            → IsSound n i (Option.get_or r (family_to_dalvik d))
        by_alu none sound = family-IsSound
        by_alu (some ins) sound = sound
