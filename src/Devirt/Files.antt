-- ===== src/Devirt/Files.antt =====
-- A code item that DexRebuilder makes holds its units.
use vardoger.Prelude.{
  ℕ, zero, suc, ◌+◌, ◌*◌, ◌/◌, ◌%◌, ◌≡◌, ap, some, List, [], ◌∷◌, ◌++◌, arith, length,
  length-append, get_elem?, append_assoc,
}
use mathlib.Core.Path.{subst₂}
use vardoger.Prelude.Order.{Bytes}
use vardoger.Prelude.Splice.{byte_at}
use vardoger.Dex.{bytes16, bytes32, u32_mod}
use vardoger.Dex.Words.{byte_at-behind}
use vardoger.Dex.Rebuilder.{units, make_code_item}
use vardoger.Devirt.Fetches.{Holds}

byte_at-units :
    (us : List ℕ) (post : Bytes) (i v : ℕ)
    → get_elem? us i ≡ some v
    → (byte_at (units us ++ post) (i + i) ≡ v % 0x100)
      × (byte_at (units us ++ post) (i + i + 1) ≡ v / 0x100)
unfolding units
byte_at-units [] post i v e = absurd (cc)
byte_at-units (u ∷ us) post zero v e =
    let same : u ≡ v = cc in (ap (λ (x : ℕ). x % 0x100) same, ap (λ (x : ℕ). x / 0x100) same)
byte_at-units (u ∷ us) post (suc i) v e =
    let (low, high) = byte_at-units us post i v e in
    let twice : suc i + suc i ≡ suc (suc (i + i)) = omega arith in
    let next : suc (suc (i + i)) + 1 ≡ suc (suc (i + i + 1)) = omega arith in
    (rw twice low, rw (twice, next) high)

length-units : (us : List ℕ) → length (units us) ≡ 2 * length us
unfolding units
length-units [] = omega arith
length-units (u ∷ us) = omega (arith, length-units us)

pub Holds-units :
    (pre : Bytes) (us : List ℕ) (post : Bytes) → Holds (pre ++ (units us ++ post)) (length pre) us
Holds-units pre us post = record {
  words = λ i v e.
      let (low, high) = byte_at-units us post i v e in
      let place : length pre + i + i ≡ length pre + (i + i) = omega arith in
      let place' : length pre + (i + i) + 1 ≡ length pre + (i + i + 1) = omega arith in
      (
        rw (place, byte_at-behind pre (units us ++ post) (i + i)) low,
        rw (place, place', byte_at-behind pre (units us ++ post) (i + i + 1)) high,
      );
  room =
      omega (
        arith,
        length-append pre (units us ++ post),
        length-append (units us) post,
        length-units us,
      );
}

-- Where a file has a code item that DexRebuilder made, it holds the units 16 bytes behind.
pub Holds-make_code_item :
    (pre : Bytes) (regs ins outs : ℕ) (us : List ℕ) (post : Bytes)
    → Holds (pre ++ (make_code_item regs ins outs us ++ post)) (length pre + 16) us
unfolding make_code_item
Holds-make_code_item pre regs ins outs us post =
    let head : Bytes =
      bytes16 regs
      ++ (bytes16 ins
          ++ (bytes16 outs ++ (bytes16 0 ++ (bytes32 0 ++ bytes32 (length us % u32_mod))))) in
    subst₂ (λ d base. Holds d base us) (append_assoc pre head (units us ++ post))
      (length-append pre head) (Holds-units (pre ++ head) us post)
