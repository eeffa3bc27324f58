-- ===== src/Prelude/Bits.antt =====
-- Bit operations, digit by digit.
use Prim.Native.Nat.{
  ℕ, zero, suc, ◌+◌, ◌-◌, ◌*◌, ◌/◌, ◌%◌, ◌^◌, ◌≤◌, ◌<◌, min, max, bit_and, bit_or, bit_xor, digits,
  differ, bit_and-bitwise, bit_or-bitwise, bit_xor-bitwise,
}
use mathlib.Core.Path.{◌≡◌, refl, sym, ap, ◌∙◌}
use mathlib.Core.Logic.{◌⊎◌, inl, inr}
use native.Mathlib.Omega.{arith}
use native.Mathlib.Nat.{pow-suc}

-- A digitwise operation, its digits given by `both`, and by `rest` where the first number has ended.
module _ (rest : ℕ → ℕ) (both : ℕ → ℕ → ℕ) where
  -- More steps than the first number has digits change nothing.
  enough_steps :
      (b a left right : ℕ)
      → a ≤ right
      → a ≤ left
      → digits rest both left a b ≡ digits rest both right a b
  enough_steps b zero zero zero h k = refl
  enough_steps b zero zero (suc right) h k = refl
  enough_steps b zero (suc left) zero h k = refl
  enough_steps b zero (suc left) (suc right) h k = refl
  enough_steps b (suc a) zero right h k = absurd (omega arith)
  enough_steps b (suc a) (suc left) zero h k = absurd (omega arith)
  enough_steps b (suc a) (suc left) (suc right) h k =
      let half = suc a / 2 in
      omega (arith, enough_steps (b / 2) half left right (omega arith) (omega arith))

  -- The law for the lowest digit.
  lowest_digit :
      (op : ℕ → ℕ → ℕ)
      → ((a b : ℕ) → op a b ≡ digits rest both a a b)
      → ((b : ℕ) → rest b ≡ rest (b / 2) * 2 + both 0 (b % 2))
      → (a b : ℕ) → op a b ≡ op (a / 2) (b / 2) * 2 + both (a % 2) (b % 2)
  lowest_digit op law ended zero b = omega (arith, law 0 b, law 0 (b / 2), ended b)
  lowest_digit op law ended (suc a) b =
      let half = suc a / 2 in
      omega (
        arith,
        law (suc a) b,
        law half (b / 2),
        enough_steps (b / 2) half a half (omega arith) (omega arith),
      )

differ_cases :
    (x y : ℕ) → x < 2 → y < 2 → ((x ≡ y) × (differ x y ≡ 0)) ⊎ ((x + y ≡ 1) × (differ x y ≡ 1))
differ_cases zero zero p q = inl (refl, refl)
differ_cases zero (suc zero) p q = inr (refl, refl)
differ_cases (suc zero) zero p q = inr (refl, refl)
differ_cases (suc zero) (suc zero) p q = inl (refl, refl)
differ_cases zero (suc (suc y)) p q = absurd (omega arith)
differ_cases (suc zero) (suc (suc y)) p q = absurd (omega arith)
differ_cases (suc (suc x)) y p q = absurd (omega arith)

bit_xor_step : (a b : ℕ) → bit_xor a b ≡ bit_xor (a / 2) (b / 2) * 2 + differ (a % 2) (b % 2)
bit_xor_step =
    lowest_digit (λ b. b) differ bit_xor bit_xor-bitwise
      (λ b. omega (arith, differ_cases 0 (b % 2) (omega arith) (omega arith)))

bit_xor_twice_fuel : (n a b : ℕ) → a ≤ n → b ≤ n → bit_xor (bit_xor a b) b ≡ a
bit_xor_twice_fuel zero zero zero p q = refl
bit_xor_twice_fuel zero (suc a) b p q = absurd (omega arith)
bit_xor_twice_fuel zero zero (suc b) p q = absurd (omega arith)
bit_xor_twice_fuel (suc n) a b p q =
    let c = bit_xor a b in
    let half = bit_xor_twice_fuel n (a / 2) (b / 2) (omega arith) (omega arith) in
    let low = differ_cases (a % 2) (b % 2) (omega arith) (omega arith) in
    let low' = differ_cases (c % 2) (b % 2) (omega arith) (omega arith) in
    let c_step = bit_xor_step a b in
    let c_half : c / 2 ≡ bit_xor (a / 2) (b / 2) = omega arith in
    let step' : bit_xor c b
        ≡ bit_xor (bit_xor (a / 2) (b / 2)) (b / 2) * 2 + differ (c % 2) (b % 2) =
      rw c_half at (bit_xor_step c b) in
    omega arith

pub bit_xor_twice : (a b : ℕ) → bit_xor (bit_xor a b) b ≡ a
bit_xor_twice a b = bit_xor_twice_fuel (a + b) a b (omega arith) (omega arith)

pub bit_and_step : (a b : ℕ) → bit_and a b ≡ bit_and (a / 2) (b / 2) * 2 + min (a % 2) (b % 2)
bit_and_step = lowest_digit (λ b. zero) min bit_and bit_and-bitwise (λ b. omega arith)

pub bit_or_step : (a b : ℕ) → bit_or a b ≡ bit_or (a / 2) (b / 2) * 2 + max (a % 2) (b % 2)
bit_or_step = lowest_digit (λ b. b) max bit_or bit_or-bitwise (λ b. omega arith)

-- `k` zeros below `d` ones.
unfoldable pub mask : ℕ → ℕ → ℕ
mask zero zero = 0
mask zero (suc d) = mask zero d * 2 + 1
mask (suc k) d = mask k d * 2

-- The lowest `d` digits of a number, and the number without the `k` lowest of its `d` digits.
unfoldable pub digits_of : ℕ → ℕ → ℕ → ℕ
digits_of zero zero a = 0
digits_of zero (suc d) a = digits_of zero d (a / 2) * 2 + a % 2
digits_of (suc k) d a = digits_of k d (a / 2) * 2

-- Nothing is left by an empty mask; `halvings` bounds how often the number is halved.
and_nothing : (halvings a : ℕ) → a < 2 ^ halvings → bit_and a 0 ≡ 0
and_nothing zero a small = let none' : a ≡ 0 = omega arith in rw none' (bit_and-bitwise 0 0)
and_nothing (suc halvings) a small =
    let rest = and_nothing halvings (a / 2) (omega (arith, pow-suc 2 halvings)) in
    omega (arith, bit_and_step a 0, rest)

below_power : (a : ℕ) → a < 2 ^ a
below_power zero = omega arith
below_power (suc a) = omega (arith, pow-suc 2 a, below_power a)

pub bit_and-mask : (k d a : ℕ) → bit_and a (mask k d) ≡ digits_of k d a
unfolding mask digits_of
bit_and-mask zero zero a = and_nothing a a (below_power a)
bit_and-mask zero (suc d) a =
    let m = mask zero d in
    let half : (m * 2 + 1) / 2 ≡ m = omega arith in
    let step : bit_and a (m * 2 + 1) ≡ bit_and (a / 2) m * 2 + min (a % 2) ((m * 2 + 1) % 2) =
      rw half at (bit_and_step a (m * 2 + 1)) in
    omega (arith, bit_and-mask zero d (a / 2))
bit_and-mask (suc k) d a =
    let m = mask k d in
    let half : (m * 2) / 2 ≡ m = omega arith in
    let step : bit_and a (m * 2) ≡ bit_and (a / 2) m * 2 + min (a % 2) ((m * 2) % 2) =
      rw half at (bit_and_step a (m * 2)) in
    omega (arith, bit_and-mask k d (a / 2))

digits_of_all : (d a : ℕ) → a < 2 ^ d → digits_of zero d a ≡ a
unfolding digits_of
digits_of_all zero a h = omega arith
digits_of_all (suc d) a h = omega (arith, pow-suc 2 d, digits_of_all d (a / 2))

digits_of_four : (d a : ℕ) → digits_of 4 d a ≡ digits_of 0 d (a / 2 / 2 / 2 / 2) * 2 * 2 * 2 * 2
unfolding digits_of
digits_of_four d a = refl

-- The bit 0x100.
pub bit_and_0x100 : (a : ℕ) → bit_and a 0x100 ≡ a / 0x100 % 2 * 0x100
unfolding mask digits_of
bit_and_0x100 a = omega (arith, bit_and-mask 8 1 a)

mask_align16 : mask 4 60 ≡ 0xFFFFFFFFFFFFFFF0
unfolding mask
mask_align16 = refl

-- `a & ~15` and `a & 0x7f`.
pub bit_and_align16 : (a : ℕ) → a < 18446744073709551616 → bit_and a 0xFFFFFFFFFFFFFFF0 ≡ a - a % 16
bit_and_align16 a h =
    ap (bit_and a) (sym mask_align16)
    ∙ (bit_and-mask 4 60 a
        ∙ omega (arith, digits_of_four 60 a, digits_of_all 60 (a / 2 / 2 / 2 / 2) (omega arith)))

pub bit_and_low7 : (a : ℕ) → bit_and a 0x7F ≡ a % 128
unfolding mask digits_of
bit_and_low7 a = bit_and-mask 0 7 a ∙ omega arith

-- Digits that stand apart are put together.
pub bit_or-shifted : (s r g : ℕ) → r < 2 ^ s → bit_or r (g * 2 ^ s) ≡ r + g * 2 ^ s
bit_or-shifted zero r g h =
    let none' : r ≡ 0 = omega arith in
    ap (λ (t : ℕ). bit_or t (g * 1)) none' ∙ (bit_or-bitwise 0 (g * 1) ∙ omega arith)
bit_or-shifted (suc s) r g h =
    let m = g * 2 ^ s in
    let twice : g * 2 ^ suc s ≡ m * 2 = ap (λ (t : ℕ). g * t) (pow-suc 2 s) ∙ grind arith in
    let small : r < 2 ^ s * 2 = omega (arith, pow-suc 2 s) in
    let half : m * 2 / 2 ≡ m = omega arith in
    let step : bit_or r (m * 2) ≡ bit_or (r / 2) m * 2 + max (r % 2) (m * 2 % 2) =
      rw half at (bit_or_step r (m * 2)) in
    let later = bit_or-shifted s (r / 2) g (omega arith) in rw twice (omega arith)

-- `a & 0x80` of a byte.
pub bit_and_bit7 : (a : ℕ) → bit_and a 0x80 ≡ a / 128 % 2 * 128
unfolding mask digits_of
bit_and_bit7 a = bit_and-mask 7 1 a ∙ omega arith
