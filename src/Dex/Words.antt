-- ===== src/Dex/Words.antt =====
-- Words that stand in a list of bytes: read where they were written.
use vardoger.Prelude.{
  ℕ, suc, ◌+◌, ◌%◌, ◌≤◌, ◌<◌, ◌≡◌, ◌⊎◌, ◌∙◌, [], ◌∷◌, ◌++◌, arith, length, length-take, take, drop,
}
use vardoger.Prelude.Order.{Bytes}
use vardoger.Prelude.Splice.{byte_at-overwrite, byte_at, overwrite}
use vardoger.Dex.{u32_mod, word16, word32, bytes32}

pub byte_at-behind : (pre ys : Bytes) (k : ℕ) → byte_at (pre ++ ys) (length pre + k) ≡ byte_at ys k
byte_at-behind [] ys k = let none' : 0 + k ≡ k = omega arith in rw none'
byte_at-behind (x ∷ pre) ys k =
    let step : length (x ∷ pre) + k ≡ suc (length pre + k) = omega arith in
    rw step (byte_at-behind pre ys k)

pub word16-behind : (pre ys : Bytes) (k : ℕ) → word16 (pre ++ ys) (length pre + k) ≡ word16 ys k
word16-behind pre ys k =
    let one : length pre + k + 1 ≡ length pre + (k + 1) = omega arith in
    rw (one, byte_at-behind pre ys k, byte_at-behind pre ys (k + 1))

pub word32-behind : (pre ys : Bytes) (k : ℕ) → word32 (pre ++ ys) (length pre + k) ≡ word32 ys k
word32-behind pre ys k =
    let one : length pre + k + 1 ≡ length pre + (k + 1) = omega arith in
    let two : length pre + k + 2 ≡ length pre + (k + 2) = omega arith in
    let three : length pre + k + 3 ≡ length pre + (k + 3) = omega arith in
    rw (
      one,
      two,
      three,
      byte_at-behind pre ys k,
      byte_at-behind pre ys (k + 1),
      byte_at-behind pre ys (k + 2),
      byte_at-behind pre ys (k + 3),
    )

-- A word that was written, and one that lies beside the written bytes.
pub word32-overwrite_self :
    (d : Bytes) (o v : ℕ) → o + 4 ≤ length d → word32 (overwrite d o (bytes32 v)) o ≡ v % u32_mod
unfolding overwrite
word32-overwrite_self d o v fits =
    let front : length (take o d) ≡ o = omega (arith, length-take o d) in
    let rest = drop (o + 4) d in
    let none' : o + 0 ≡ o = omega arith in
    let here : word32 (take o d ++ (bytes32 v ++ rest)) o ≡ word32 (bytes32 v ++ rest) 0 =
      rw (front, none') at (word32-behind (take o d) (bytes32 v ++ rest) 0) in
    here ∙ omega arith

pub byte_at-overwrite_ne :
    (d : Bytes) (o : ℕ) (bytes : Bytes) (i : ℕ)
    → o + length bytes ≤ length d
    → (i < o) ⊎ (o + length bytes ≤ i)
    → byte_at (overwrite d o bytes) i ≡ byte_at d i
byte_at-overwrite_ne d o bytes i fits beside = ground (arith, byte_at-overwrite d o bytes i fits)

pub word32-overwrite_ne :
    (d : Bytes) (o : ℕ) (bytes : Bytes) (k : ℕ)
    → o + length bytes ≤ length d
    → (k + 4 ≤ o) ⊎ (o + length bytes ≤ k)
    → word32 (overwrite d o bytes) k ≡ word32 d k
word32-overwrite_ne d o bytes k fits beside = rw (
  byte_at-overwrite_ne d o bytes k fits (ground arith),
  byte_at-overwrite_ne d o bytes (k + 1) fits (ground arith),
  byte_at-overwrite_ne d o bytes (k + 2) fits (ground arith),
  byte_at-overwrite_ne d o bytes (k + 3) fits (ground arith),
)
