-- ===== src/Devirt/Fetches.antt =====
-- What the interpreter reads of an assembled instruction: its units, taken apart and decoded.
use vardoger.Prelude.{
  ℕ, suc, ◌+◌, ◌-◌, ◌*◌, ◌/◌, ◌%◌, ◌^◌, ◌≤◌, ◌<◌, ◌≡◌, ◌≢◌, ap, ◌∙◌, true, false, none, some, List,
  [], ◌∷◌, ◌++◌, arith, ltb, leb, ◌==◌, length, get_elem?, bit_or, bit_or-shifted,
}
use vardoger.Prelude.Order.{Bytes, bytes_key}
use vardoger.Prelude.Splice.{byte_at}
use vardoger.Dex.{u32_mod}
use vardoger.Dalvik.{u16, u32}
use vardoger.Dalvik.Actions.{
  Insn, fetch, branch, jump, decode, decode_branch, decode_object, off8, off16,
}
use vardoger.Devirt.Encode.{unit_byte, unit_nibbles, distance}

-- The file holds the units from `base` on.
pub record Holds (d : Bytes) (base : ℕ) (us : List ℕ) : Type 0 where
  pub words :
      (i v : ℕ)
      → get_elem? us i ≡ some v
      → (byte_at d (base + i + i) ≡ v % 0x100) × (byte_at d (base + i + i + 1) ≡ v / 0x100)
  pub room : base + 2 * length us ≤ length d

pub get_elem?-behind {ℓ} :
    {A : Type ℓ} (a b : List A) (k : ℕ) → get_elem? (a ++ b) (length a + k) ≡ get_elem? b k
get_elem?-behind [] b k = ap (get_elem? b) {x = 0 + k} {y = k} (omega arith)
get_elem?-behind (x ∷ a) b k =
    ap (get_elem? (x ∷ (a ++ b))) {x = suc (length a) + k} {y = suc (length a + k)} (omega arith)
    ∙ get_elem?-behind a b k

-- The first unit, taken apart.
pub first_byte : (op a : ℕ) → op < 0x100 → a < 0x100 → unit_byte op a ≡ op + a * 0x100
first_byte op a small small' = omega (arith, bit_or-shifted 8 op a small)

pub first_nibbles :
    (op a b : ℕ) → op < 0x100 → b < 16 → unit_nibbles op a b ≡ op + a % 16 * 0x100 + b * 0x1000
first_nibbles op a b small small' =
    let low = bit_or-shifted 8 op (a % 16) small in
    omega (arith, low, bit_or-shifted 12 (bit_or op (a % 16 * 2 ^ 8)) b (omega arith))

-- What `fetch` finds of an instruction of one, two and three units.
module _ (d : Bytes) (at : ℕ) (short : length d < u32_mod) where
  pub fetch_one :
      (v : ℕ)
      → at + 2 ≤ length d
      → byte_at d at ≡ v % 0x100
      → byte_at d (at + 1) ≡ v / 0x100
      → ((fetch d at).op ≡ v % 0x100) × ((fetch d at).b1 ≡ v / 0x100)
  unfolding fetch
  fetch_one v room b0 b1 =
      let one : (at + 1) % u32_mod ≡ at + 1 = omega arith in
      let there : ltb (at + 1) (length d) ≡ true = ground arith in (b0, rw (one, there) b1)

  pub fetch_two :
      (w : ℕ)
      → at + 4 ≤ length d
      → byte_at d (at + 2) ≡ w % 0x100
      → byte_at d (at + 3) ≡ w / 0x100
      → (fetch d at).w1 ≡ w
  unfolding fetch u16
  fetch_two w room b2 b3 =
      let two : (at + 2) % u32_mod ≡ at + 2 = omega arith in
      let four : (at + 2 + 2) % u32_mod ≡ at + 4 = omega arith in
      let there : leb (at + 4) (length d) ≡ true = ground arith in
      let three : at + 2 + 1 ≡ at + 3 = omega arith in
      rw (two, four, there, three, b2, b3) (omega arith)

  pub fetch_three :
      (w w' : ℕ)
      → at + 6 ≤ length d
      → byte_at d (at + 2) ≡ w % 0x100
      → byte_at d (at + 3) ≡ w / 0x100
      → byte_at d (at + 4) ≡ w' % 0x100
      → byte_at d (at + 5) ≡ w' / 0x100
      → (fetch d at).d1 ≡ w + w' * 0x10000
  unfolding fetch u32
  fetch_three w w' room b2 b3 b4 b5 =
      let two : (at + 2) % u32_mod ≡ at + 2 = omega arith in
      let six : (at + 2 + 4) % u32_mod ≡ at + 6 = omega arith in
      let there : leb (at + 6) (length d) ≡ true = ground arith in
      let three : at + 2 + 1 ≡ at + 3 = omega arith in
      let four : at + 2 + 2 ≡ at + 4 = omega arith in
      let five : at + 2 + 3 ≡ at + 5 = omega arith in
      rw (two, six, there, three, four, five, b2, b3, b4, b5) (omega arith)

-- What the branch opcodes stand for.
pub decode_22t :
    (i : Insn)
    → 0x32 ≤ i.op
    → i.op ≤ 0x37
    → decode i ≡ branch (i.op - 0x32) (i.b1 % 16) (some (i.b1 / 16)) (off16 i.w1)
unfolding decode decode_branch
decode_22t i low high = ground arith

pub decode_21t :
    (i : Insn) → 0x38 ≤ i.op → i.op ≤ 0x3D → decode i ≡ branch (i.op - 0x38) i.b1 none (off16 i.w1)
unfolding decode decode_branch
decode_21t i low high = ground arith

pub decode_goto : (i : Insn) → i.op ≡ 0x28 → i.b1 ≢ 0 → decode i ≡ jump (off8 i.b1) 0
unfolding decode decode_object
decode_goto i e moved = ground arith

pub decode_goto16 : (i : Insn) → i.op ≡ 0x29 → decode i ≡ jump (off16 i.w1) 2
unfolding decode decode_object
decode_goto16 i e = ground arith

pub decode_goto32 : (i : Insn) → i.op ≡ 0x2A → decode i ≡ jump i.d1 3
unfolding decode decode_object
decode_goto32 i e = ground arith

-- An offset of 8, 16 or 32 bits leads from `here` to `there`, and is not 0.
module _ (here there : ℕ) (h : here < 0x80000000) (t : there < 0x80000000)
    (moved : there ≢ here) where
  pub land8 :
      there < here + 0x80
      → here ≤ there + 0x80
      → let off = off8 (distance there here % 0x100) in
        ((here + off) % u32_mod ≡ there) × ((off == 0) ≡ false)
  land8 near near' = ground arith

  pub land16 :
      there < here + 0x8000
      → here ≤ there + 0x8000
      → let off = off16 (distance there here % 0x10000) in
        ((here + off) % u32_mod ≡ there) × ((off == 0) ≡ false)
  land16 near near' = ground arith

  pub land32 :
      let off = distance there here % u32_mod in
      ((here + off) % u32_mod ≡ there) × ((off == 0) ≡ false)
  land32 = ground arith

-- An offset of 8 bits does not lead further than 127 units.
pub wrap8 :
    (here there : ℕ)
    → here < 0x80000000
    → there < 0x80000000
    → here + 0x80 ≤ there
    → there < here + 0x100
    → let off = off8 (distance there here % 0x100) in
      ((here + off) % u32_mod ≡ (there + (u32_mod - 0x100)) % u32_mod) × ((off == 0) ≡ false)
wrap8 here there h t far near = ground arith
