-- ===== src/Dex/Leb.antt =====
-- Both readers of uleb128 numbers read back what `wuleb` writes.
use vardoger.Prelude.{
  ℕ, zero, suc, ◌+◌, ◌*◌, ◌/◌, ◌%◌, ◌^◌, ◌≤◌, ◌<◌, ◌≡◌, refl, ap, ◌∙◌, inl, inr, true, false, [],
  ◌∷◌, ◌++◌, arith, ltb, ◌==◌, if◌then◌else◌, bit_and, bit_or, bit_and_low7, bit_and_bit7,
  bit_or-shifted, length, length-append, append_assoc, Bool-cases,
}
use native.Mathlib.Nat.{pow-suc}
use native.Mathlib.Numerals.{towards_suc}
use vardoger.Prelude.Order.{Bytes}
use vardoger.Prelude.Splice.{byte_at}
use vardoger.Dex.{u32_mod, add_group, uleb_loop, wuleb_loop, wuleb}
use vardoger.Dex.File.{uleb}
use vardoger.Dex.Rebuilder.{read_uleb}

pub byte_at-append :
    (pre : Bytes) (b : ℕ) (rest : Bytes) → byte_at (pre ++ b ∷ rest) (length pre) ≡ b
byte_at-append [] b rest = refl
byte_at-append (x ∷ pre) b rest = byte_at-append pre b rest

pow_seven : (s : ℕ) → 2 ^ (s + 7) ≡ 128 * 2 ^ s
pow_seven s = simp towards_suc (omega arith)

-- The groups of `wuleb_loop`: the last one, and one that others follow.
last_group : (x : ℕ) → x < 128 → (bit_and x 0x7F ≡ x) × (bit_and x 0x80 ≡ 0)
last_group x h = omega (arith, bit_and_low7 x, bit_and_bit7 x)

inner_group :
    (v : ℕ)
    → let b = bit_or (bit_and v 0x7F) 0x80 in (bit_and b 0x7F ≡ v % 128) × (bit_and b 0x80 ≡ 128)
inner_group v =
    let low = bit_and_low7 v in
    let b = bit_or (bit_and v 0x7F) 0x80 in
    let sum : b ≡ bit_and v 0x7F + 128 = bit_or-shifted 7 (bit_and v 0x7F) 1 (omega arith) in
    omega (arith, bit_and_low7 b, bit_and_bit7 b)

add_group_lem :
    (acc b x shift : ℕ)
    → bit_and b 0x7F ≡ x
    → acc < 2 ^ shift
    → x * 2 ^ shift < u32_mod
    → add_group acc b shift ≡ acc + x * 2 ^ shift
add_group_lem acc b x shift e small fits =
    let same : x * 2 ^ shift % u32_mod ≡ x * 2 ^ shift = omega arith in
    rw (e, same) (bit_or-shifted shift acc x small)

-- One step of the reader, at a byte that is there.
uleb_loop-step :
    (left : ℕ) (pre : Bytes) (b : ℕ) (rest : Bytes) (acc shift : ℕ)
    → uleb_loop (suc left) (pre ++ b ∷ rest) (length pre) acc shift ≡ (
        if bit_and b 0x80 == 0
        then (add_group acc b shift, length pre + 1)
        else uleb_loop left (pre ++ b ∷ rest) (length pre + 1) (add_group acc b shift) (shift + 7))
unfolding uleb_loop
uleb_loop-step left pre b rest acc shift =
    let there : ltb (length pre) (length (pre ++ b ∷ rest)) ≡ true =
      ground (arith, length-append pre (b ∷ rest)) in
    rw (there, byte_at-append pre b rest)

mul_mono : (a b p : ℕ) → a ≤ b → a * p ≤ b * p
mul_mono a b p h = grind arith

split_groups : (v p : ℕ) → v % 128 * p + v / 128 * (128 * p) ≡ v * p
split_groups v p =
    let q = v / 128 in
    let r = v % 128 in
    let whole : r + q * 128 ≡ v = omega arith in
    let spread : r * p + q * (128 * p) ≡ (r + q * 128) * p = grind arith in
    spread ∙ ap (λ (t : ℕ). t * p) whole

uleb_loop-last :
    (left v acc shift : ℕ) (pre rest : Bytes)
    → v < 128
    → acc < 2 ^ shift
    → v * 2 ^ shift < u32_mod
    → uleb_loop (suc left) (pre ++ bit_and v 0x7F ∷ rest) (length pre) acc shift
      ≡ (acc + v * 2 ^ shift, length pre + 1)
uleb_loop-last left v acc shift pre rest small fits total =
    let same = (last_group v small).0 in
    let none' = (last_group v small).1 in
    rw same (
      uleb_loop-step left pre v rest acc shift
      ∙ rw (none', add_group_lem acc v v shift same fits total))

uleb_loop-inner :
    (left v acc shift : ℕ) (pre rest : Bytes)
    → acc < 2 ^ shift
    → v * 2 ^ shift < u32_mod
    → let b = bit_or (bit_and v 0x7F) 0x80 in
      uleb_loop (suc left) (pre ++ b ∷ rest) (length pre) acc shift
      ≡ uleb_loop left
          ((pre ++ b ∷ []) ++ rest)
          (length (pre ++ b ∷ []))
          (acc + v % 128 * 2 ^ shift)
          (shift + 7)
uleb_loop-inner left v acc shift pre rest fits total =
    let b = bit_or (bit_and v 0x7F) 0x80 in
    let group = inner_group v in
    let less = mul_mono (v % 128) v (2 ^ shift) (omega arith) in
    let sum = add_group_lem acc b (v % 128) shift group.0 fits (omega arith) in
    let whole : (pre ++ b ∷ []) ++ rest ≡ pre ++ b ∷ rest = append_assoc pre (b ∷ []) rest in
    let next : length (pre ++ b ∷ []) ≡ length pre + 1 = length-append pre (b ∷ []) in
    uleb_loop-step left pre b rest acc shift ∙ rw (group.1, sum, whole, next)

wuleb_loop-last : (n v : ℕ) → v < 128 → wuleb_loop (suc n) v ≡ bit_and v 0x7F ∷ []
unfolding wuleb_loop
wuleb_loop-last n v small = let last : (v / 128 == 0) ≡ true = ground arith in rw last

wuleb_loop-inner :
    (n v : ℕ)
    → 128 ≤ v
    → wuleb_loop (suc (suc n)) v ≡ bit_or (bit_and v 0x7F) 0x80 ∷ wuleb_loop (suc n) (v / 128)
unfolding wuleb_loop
wuleb_loop-inner n v large = let more : (v / 128 == 0) ≡ false = ground arith in rw more

-- The bounds the next group needs.
next_fits : (acc v s : ℕ) → acc < 2 ^ s → acc + v % 128 * 2 ^ s < 2 ^ (s + 7)
next_fits acc v s fits =
    let seven = pow_seven s in
    let most = mul_mono (v % 128) 127 (2 ^ s) (omega arith) in omega arith

next_total : (v s : ℕ) → v * 2 ^ s < u32_mod → v / 128 * 2 ^ (s + 7) < u32_mod
next_total v s total = let split = split_groups v (2 ^ s) in rw (pow_seven s) (omega arith)

next_sum : (acc v s : ℕ) → acc + v % 128 * 2 ^ s + v / 128 * 2 ^ (s + 7) ≡ acc + v * 2 ^ s
next_sum acc v s = let split = split_groups v (2 ^ s) in rw (pow_seven s) (omega arith)

wuleb_loop-filled : (n v : ℕ) → 0 < length (wuleb_loop (suc n) v)
unfolding wuleb_loop
wuleb_loop-filled n v = elim (Bool-cases (v / 128 == 0)) [
  | inl last ↦ rw last (omega arith)
  | inr more ↦ rw more (omega arith)
]

wuleb_loop-length : (n v : ℕ) → length (wuleb_loop n v) ≤ n
unfolding wuleb_loop
wuleb_loop-length zero v = omega arith
wuleb_loop-length (suc n) v =
    let rest = wuleb_loop-length n (v / 128) in
    elim (Bool-cases (v / 128 == 0)) [
      | inl last ↦ rw last (omega arith)
      | inr more ↦ rw more (omega arith)
    ]

uleb_loop-wuleb_loop :
    (n left : ℕ) (v acc shift : ℕ) (pre rest : Bytes)
    → v < 128 ^ suc n
    → length (wuleb_loop (suc n) v) ≤ left
    → acc < 2 ^ shift
    → v * 2 ^ shift < u32_mod
    → uleb_loop left (pre ++ (wuleb_loop (suc n) v ++ rest)) (length pre) acc shift
      ≡ (acc + v * 2 ^ shift, length pre + length (wuleb_loop (suc n) v))
uleb_loop-wuleb_loop n zero v acc shift pre rest small enough fits total =
    absurd (omega (arith, wuleb_loop-filled n v))
uleb_loop-wuleb_loop zero (suc left) v acc shift pre rest small enough fits total =
    rw (wuleb_loop-last 0 v (omega arith))
      (uleb_loop-last left v acc shift pre rest (omega arith) fits total)
uleb_loop-wuleb_loop (suc n) (suc left) v acc shift pre rest small enough fits total =
    elim (Bool-cases (ltb v 128)) [
      | inl last ↦
          rw (wuleb_loop-last (suc n) v (ground arith))
            (uleb_loop-last left v acc shift pre rest (ground arith) fits total)
      | inr large ↦
          let b = bit_or (bit_and v 0x7F) 0x80 in
          let groups = wuleb_loop (suc n) (v / 128) in
          let many : wuleb_loop (suc (suc n)) v ≡ b ∷ groups =
            wuleb_loop-inner n v (ground arith) in
          let longer : length (wuleb_loop (suc (suc n)) v) ≡ suc (length groups) = rw many in
          let next : length (pre ++ b ∷ []) ≡ length pre + 1 = length-append pre (b ∷ []) in
          let power : 128 ^ suc (suc n) ≡ 128 ^ suc n * 128 = pow-suc 128 (suc n) in
          let step =
            uleb_loop-wuleb_loop n left (v / 128) (acc + v % 128 * 2 ^ shift) (shift + 7)
              (pre ++ b ∷ []) rest (omega arith) (omega arith) (next_fits acc v shift fits)
              (next_total v shift total) in
          let sum = next_sum acc v shift in
          let places : length pre + 1 + length groups ≡ length pre + suc (length groups) =
            omega arith in
          rw many (
            uleb_loop-inner left v acc shift pre (groups ++ rest) fits total
            ∙ step
            ∙ rw (sum, next, places))
    ]

wuleb-length : (v : ℕ) → length (wuleb v) ≤ 5
unfolding wuleb
wuleb-length v = wuleb_loop-length 5 v

uleb_loop-wuleb :
    (left v : ℕ) (pre rest : Bytes)
    → v < u32_mod
    → length (wuleb v) ≤ left
    → uleb_loop left (pre ++ (wuleb v ++ rest)) (length pre) 0 0
      ≡ (v, length pre + length (wuleb v))
unfolding wuleb
uleb_loop-wuleb left v pre rest small enough =
    let whole : 0 + v * 2 ^ 0 ≡ v = omega arith in
    uleb_loop-wuleb_loop 4 left v 0 0 pre rest (omega arith) enough (omega arith) (omega arith)
    ∙ rw whole

-- What the rebuilder writes for a 32-bit number is read back by its own reader and by the reader of
-- `DexFile`, wherever it stands in a file: both return the number and the position behind it.
pub uleb-wuleb :
    (v : ℕ) (pre rest : Bytes)
    → v < u32_mod
    → (uleb (pre ++ (wuleb v ++ rest)) (length pre) ≡ (v, length pre + length (wuleb v)))
      × (read_uleb (pre ++ (wuleb v ++ rest)) (length pre) ≡ (v, length pre + length (wuleb v)))
unfolding uleb read_uleb
uleb-wuleb v pre rest small =
    let enough : length (wuleb v) ≤ length (pre ++ (wuleb v ++ rest)) =
      omega (arith, length-append pre (wuleb v ++ rest), length-append (wuleb v) rest) in
    (
      uleb_loop-wuleb 5 v pre rest small (wuleb-length v),
      uleb_loop-wuleb (length (pre ++ (wuleb v ++ rest))) v pre rest small enough,
    )
