-- ===== src/Dex/Bounds.antt =====
-- What `DexFile::code_at` reads, and where the code it returns lies.
use vardoger.Prelude.{
  ℕ, ◌+◌, ◌*◌, ◌%◌, ◌≤◌, ◌<◌, ◌≡◌, refl, ◌∙◌, inl, inr, true, false, none, some, List, [], ◌∷◌,
  ◌++◌, arith, leb, ltb, ◌==◌, length, length-append, Bool-cases,
}
use vardoger.Prelude.Order.{Bytes}
use vardoger.Dex.{u32_mod, word16, word32}
use vardoger.Dex.File.{DexFile, Code, blank_code, code_at}
use vardoger.Dex.Words.{word16-behind, word32-behind}
use vardoger.Dex.Rebuilder.{make_code_item, units}

-- The code item at a place is inside the file.
abbrev pub IsInside : DexFile → ℕ → Code → Type 0
IsInside f o c = (0 < o) × (c.insns_off ≡ o + 16) × (c.insns_off + c.insns_size * 2 ≤ length f.d)

-- At an offset that the 16 bytes of the header do not carry over 2 ^ 32, `code_at` reads nothing
-- behind the end of the file; code it calls valid lies behind its header and within the file.
pub code_at-IsInside :
    (f : DexFile) (o : ℕ)
    → o + 16 < u32_mod
    → (c : Code) × (code_at f o ≡ some c) × (c.valid ≡ true → IsInside f o c)
unfolding code_at
code_at-IsInside f o fits =
    let same : (o + 16) % u32_mod ≡ o + 16 = omega arith in
    rw same (elim (Bool-cases (o == 0)) [
      | inl origin ↦ rw origin (blank_code, refl, λ e. ground arith)
      | inr later ↦ elim (Bool-cases (ltb (length f.d) (o + 16))) [
        | inl short ↦ rw (later, short) (blank_code, refl, λ e. ground arith)
        | inr long ↦ rw (later, long) (_, refl, λ e. (ground arith, refl, ground arith))
      ]
    ])

-- Behind that, the guard's sum wraps to less than 16: where the file is that long, the header is
-- read behind its end.
pub code_at_wraps :
    (f : DexFile) (o : ℕ)
    → u32_mod ≤ o + 16
    → o < u32_mod
    → o + 16 ≤ u32_mod + length f.d
    → length f.d < o + 16
    → code_at f o ≡ none
unfolding code_at
code_at_wraps f o large word long short =
    let later : (o == 0) ≡ false = ground arith in
    let granted : ltb (length f.d) ((o + 16) % u32_mod) ≡ false = ground arith in
    let behind : ltb (length f.d) (o + 16) ≡ true = ground arith in rw (later, granted, behind) refl

-- A code item somewhere in a file.
module _ (pre rest : Bytes) (regs ins outs : ℕ) (insns : List ℕ) where
  abbrev item : Bytes
  item = make_code_item regs ins outs insns

  units-length : (us : List ℕ) → length (units us) ≡ length us * 2
  unfolding units
  units-length [] = refl
  units-length (u ∷ us) = omega (arith, units-length us)

  item-length : length (pre ++ (item ++ rest)) ≡ length pre + 16 + length insns * 2 + length rest
  unfolding make_code_item
  item-length = omega (
    arith,
    length-append pre (item ++ rest),
    length-append (units insns) rest,
    units-length insns,
  )

  header :
      regs < 0x10000
      → ins < 0x10000
      → outs < 0x10000
      → length insns < u32_mod
      → (word16 (item ++ rest) 0 ≡ regs)
        × (word16 (item ++ rest) 2 ≡ ins)
        × (word16 (item ++ rest) 4 ≡ outs)
        × (word32 (item ++ rest) 12 ≡ length insns)
  unfolding make_code_item
  header h₁ h₂ h₃ h₄ = (omega arith, omega arith, omega arith, omega arith)

-- A code item that the rebuilder makes is read back wherever it stands in a file shorter than 4 GiB,
-- but not at offset 0: the registers, the number of instruction units, and the place of the first.
pub code_at-make_code_item :
    (f : DexFile) (pre rest : Bytes) (regs ins outs : ℕ) (insns : List ℕ)
    → f.d ≡ pre ++ (make_code_item regs ins outs insns ++ rest)
    → 0 < length pre
    → length f.d < u32_mod
    → regs < 0x10000
    → ins < 0x10000
    → outs < 0x10000
    → code_at f (length pre)
      ≡ some (record {
        registers_size = regs;
        ins_size = ins;
        outs_size = outs;
        insns_off = length pre + 16;
        insns_size = length insns;
        valid = true;
      })
unfolding code_at
code_at-make_code_item f pre rest regs ins outs insns file later short h₁ h₂ h₃ =
    let d = f.d in
    let o = length pre in
    let size = item-length pre rest regs ins outs insns in
    let same : length d ≡ o + 16 + length insns * 2 + length rest = rw file size in
    let (r, i, t, n) = header pre rest regs ins outs insns h₁ h₂ h₃ (omega arith) in
    let tail = make_code_item regs ins outs insns ++ rest in
    let none' : o + 0 ≡ o = omega arith in
    let r' : word16 d o ≡ regs = rw file (rw none' at (word16-behind pre tail 0 ∙ r)) in
    let i' : word16 d (o + 2) ≡ ins = rw file (word16-behind pre tail 2 ∙ i) in
    let t' : word16 d (o + 4) ≡ outs = rw file (word16-behind pre tail 4 ∙ t) in
    let n' : word32 d (o + 12) ≡ length insns = rw file (word32-behind pre tail 12 ∙ n) in
    let origin : (o == 0) ≡ false = ground arith in
    let there : ltb (length d) (o + 16) ≡ false = ground arith in
    let place : (o + 16) % u32_mod ≡ o + 16 = omega arith in
    let fits : leb (o + 16 + length insns * 2) (length d) ≡ true = ground arith in
    rw (place, origin, there, r', i', t', n', fits) refl
