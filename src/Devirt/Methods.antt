-- ===== src/Devirt/Methods.antt =====
-- The decoding of a method's rows into operations: md_decode_method of devirt_rebuild.hpp.
--
-- The rows are those of one method in the decoded log; reading them from its text is left out.
use vardoger.Prelude.{
  ℕ, ◌+◌, ◌-◌, ◌/◌, ◌%◌, Bool, false, not, ◌&&◌, ◌||◌, Option, none, some, List, [], ◌∷◌, leb, ltb,
  if◌then◌else◌, length, drop, ◌==◌, is_some,
}
use vardoger.Prelude.Order.{Bytes, bytes_key, nat_key, equal_bytes}
use vardoger.Prelude.Map.{Map, find, insert}
use vardoger.Prelude.Text.{text, contains}
use vardoger.Devirt.Families.{md_alu, VmInstr, fam_base}

-- A row, as far as the decoding reads it: its place, opcode, raw word and branch target. The log has
-- no negative place.
pub record RawDlv : Type 0 where
  pub p : ℕ
  pub op : ℕ
  pub raw : ℕ
  pub tgt : Option ℕ

-- The rows that are not to be skipped.
unfoldable pub real_rows : List RawDlv → List RawDlv
real_rows [] = []
real_rows (s ∷ rest) = if s.op == 0xFFFF then real_rows rest else s ∷ real_rows rest

-- `p2i`: the index of the last row at a place.
unfoldable pub place_map : ℕ → List RawDlv → Map ℕ ℕ → Map ℕ ℕ
place_map i [] m = m
place_map i (s ∷ rest) m = place_map (i + 1) rest (insert s.p i m)

abbrev pub nibble : ℕ → ℕ → ℕ
nibble hi k = hi / k % 16

-- The operands, by family.
unfoldable pub operands : VmInstr → ℕ → VmInstr
operands d hi =
    if equal_bytes d.family (text "invoke")
      || contains (text "ref") d.family
      || equal_bytes d.family (text "const/ref")
    then record d { pool = some hi; vregs = nibble hi 1 ∷ [] }
    else if is_some (find (fam_base d.family) md_alu) || equal_bytes d.family (text "binary-int")
    then record d { vregs = nibble hi 1 ∷ nibble hi 16 ∷ nibble hi 0x100 ∷ [] }
    else if contains (text "move") d.family
    then record d { vregs = nibble hi 1 ∷ nibble hi 16 ∷ [] }
    else if contains (text "if-") d.family
    then record d { vregs = nibble hi 1 ∷ nibble hi 16 ∷ [] }
    else if equal_bytes d.family (text "const")
    then record d { vregs = nibble hi 1 ∷ []; lit = some (hi / 16) }
    else d

unfoldable pub family_of : Map ℕ Bytes → ℕ → Bytes
family_of cls op = elim (find op cls) [ none ↦ text "?" | some fam ↦ fam ]

unfoldable pub decode_row : Map ℕ Bytes → Map ℕ ℕ → RawDlv → VmInstr
decode_row cls places s =
    operands
      (record {
        op = s.op;
        family = family_of cls s.op;
        vregs = [];
        pool = none;
        lit = none;
        target = elim s.tgt [ none ↦ none | some t ↦ find t places ];
      })
      (s.raw / 0x100)

abbrev pub is_if : Bytes → Bool
is_if fam = contains (text "if-") fam

abbrev pub is_goto : Bytes → Bool
is_goto fam =
    equal_bytes fam (text "nop/goto")
    || equal_bytes fam (text "nop")
    || equal_bytes fam (text "goto")
    || leb 4 (length fam) && equal_bytes (drop (length fam - 4) fam) (text "goto")

-- Does the target name another of the `n` operations.
abbrev pub aimed : ℕ → ℕ → Option ℕ → Bool
aimed n i none = false
aimed n i (some t) = ltb t n && not (t == i)

-- The branch target of operation `i` is put in order.
unfoldable pub sanitize : ℕ → ℕ → VmInstr → VmInstr
sanitize n i d =
    if not (is_if d.family || is_goto d.family)
    then d
    else if aimed n i d.target
    then d
    else if is_if d.family && ltb (i + 1) n
    then record d { target = some (i + 1) }
    else record d { family = text "nop"; target = none }

unfoldable pub decode_rows : Map ℕ Bytes → Map ℕ ℕ → ℕ → ℕ → List RawDlv → List VmInstr
decode_rows cls places n i [] = []
decode_rows cls places n i (s ∷ rest) =
    sanitize n i (decode_row cls places s) ∷ decode_rows cls places n (i + 1) rest

unfoldable pub md_decode_method : List RawDlv → Map ℕ Bytes → List VmInstr
md_decode_method dlv cls =
    let real = real_rows dlv in decode_rows cls (place_map 0 real []) (length real) 0 real
