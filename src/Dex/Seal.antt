-- ===== src/Dex/Seal.antt =====
-- The header that `DexRebuilder::build` writes at the end: sizes, signature and checksum agree with the
-- bytes they are about.
use vardoger.Prelude.{
  ℕ, ◌+◌, ◌-◌, ◌≤◌, ◌<◌, ◌≡◌, ◌⊎◌, inl, inr, ◌∙◌, ◌++◌, arith, length, length-append, ltb,
  Bool-cases, take, drop,
}
use vardoger.Prelude.Order.{Bytes}
use vardoger.Prelude.Splice.{
  byte_at, overwrite, length-overwrite, drop-overwrite, drop_behind-overwrite,
}
use vardoger.Dex.{u32_mod, word32, bytes32}
use vardoger.Dex.Words.{word32-overwrite_self, word32-overwrite_ne, byte_at-overwrite_ne}
use vardoger.Dex.Sha1.{sha1, sha1-length}
use vardoger.Dex.Rebuilder.{finish}

-- What a reader of the file checks: the file's size at 0x20, the data section at 0x68 that ends where
-- the file does, the SHA-1 at 0x0C of what follows it, and the checksum at 0x08 of what follows that.
abbrev pub IsSealed : (Bytes → ℕ) → Bytes → Type 0
IsSealed adler32 out =
    (word32 out 0x20 ≡ length out)
    × (word32 out 0x68 + word32 out 0x6C ≡ length out)
    × (take 20 (drop 0x0C out) ≡ sha1 (drop 0x20 out))
    × (word32 out 0x08 ≡ adler32 (drop 0x0C out))

-- The places `finish` may change.
abbrev pub IsHeader : ℕ → Type 0
IsHeader k = ((0x08 ≤ k) × (k < 0x24)) ⊎ ((0x68 ≤ k) × (k < 0x6C))

pub beside : (k o n : ℕ) → (o ≤ k → k < o + n → ⊥) → (k < o) ⊎ (o + n ≤ k)
beside k o n away = elim (Bool-cases (ltb k o)) [
  | inl low ↦ inl (ground arith)
  | inr high ↦ elim (Bool-cases (ltb k (o + n))) [
    | inl inside ↦ absurd (away (ground arith) (ground arith))
    | inr behind ↦ inr (ground arith)
  ]
]

module _ (adler32 : Bytes → ℕ) (d tail : Bytes) (header : 0x70 ≤ length d) where
  abbrev d₁ : Bytes
  d₁ = d ++ tail

  abbrev d₂ : Bytes
  d₂ = overwrite d₁ 0x20 (bytes32 (length d₁))

  abbrev d₃ : Bytes
  d₃ = overwrite d₂ 0x68 (bytes32 (length d₂ + u32_mod - word32 d₂ 0x6C))

  abbrev d₄ : Bytes
  d₄ = overwrite d₃ 0x0C (sha1 (drop 0x20 d₃))

  size₁ : length d₁ ≡ length d + length tail
  size₁ = length-append d tail

  size₂ : length d₂ ≡ length d + length tail
  size₂ = length-overwrite d₁ 0x20 (bytes32 (length d₁)) (omega (arith, size₁)) ∙ size₁

  size₃ : length d₃ ≡ length d + length tail
  size₃ =
      length-overwrite d₂ 0x68 (bytes32 (length d₂ + u32_mod - word32 d₂ 0x6C))
        (omega (arith, size₂))
      ∙ size₂

  size₄ : length d₄ ≡ length d + length tail
  size₄ =
      length-overwrite d₃ 0x0C (sha1 (drop 0x20 d₃))
        (omega (arith, size₃, sha1-length (drop 0x20 d₃)))
      ∙ size₃

  abbrev out : Bytes
  out = overwrite d₄ 0x08 (bytes32 (adler32 (drop 0x0C d₄)))

  size : length out ≡ length d + length tail
  size = length-overwrite d₄ 0x08 (bytes32 (adler32 (drop 0x0C d₄))) (omega (arith, size₄)) ∙ size₄

  -- A word that the signature and the checksum leave alone.
  late : (k : ℕ) → 0x20 ≤ k → word32 out k ≡ word32 d₃ k
  late k far =
      let l = sha1-length (drop 0x20 d₃) in
      word32-overwrite_ne d₄ 0x08 (bytes32 (adler32 (drop 0x0C d₄))) k (omega (arith, size₄))
        (inr (omega arith))
      ∙ word32-overwrite_ne d₃ 0x0C (sha1 (drop 0x20 d₃)) k (omega (arith, size₃))
          (inr (omega arith))

  keeps : (k : ℕ) → ¬ IsHeader k → byte_at out k ≡ byte_at (d ++ tail) k
  keeps k away =
      let l = sha1-length (drop 0x20 d₃) in
      byte_at-overwrite_ne d₄ 0x08 (bytes32 (adler32 (drop 0x0C d₄))) k (omega (arith, size₄))
        (beside k 0x08 4 (λ lo hi. away (inl (lo, omega arith))))
      ∙ byte_at-overwrite_ne d₃ 0x0C (sha1 (drop 0x20 d₃)) k (omega (arith, size₃)) (
          beside k 0x0C (length (sha1 (drop 0x20 d₃)))
            (λ lo hi. away (inl (omega arith, omega arith))))
      ∙ byte_at-overwrite_ne d₂ 0x68 (bytes32 (length d₂ + u32_mod - word32 d₂ 0x6C)) k
          (omega (arith, size₂)) (beside k 0x68 4 (λ lo hi. away (inr (lo, hi))))
      ∙ byte_at-overwrite_ne d₁ 0x20 (bytes32 (length d₁)) k (omega (arith, size₁))
          (beside k 0x20 4 (λ lo hi. away (inl (omega arith, hi))))

  module _ (word : (b : Bytes) → adler32 b < u32_mod) (short : length d + length tail < u32_mod)
      (start_inside : word32 (d ++ tail) 0x6C ≤ length d + length tail) where
    first : word32 out 0x20 ≡ length out
    first =
        late 0x20 (omega arith)
        ∙ word32-overwrite_ne d₂ 0x68 (bytes32 (length d₂ + u32_mod - word32 d₂ 0x6C)) 0x20
            (omega (arith, size₂)) (inl (omega arith))
        ∙ word32-overwrite_self d₁ 0x20 (length d₁) (omega (arith, size₁))
        ∙ omega (arith, size₁, size)

    start : word32 d₂ 0x6C ≡ word32 (d ++ tail) 0x6C
    start =
        word32-overwrite_ne d₁ 0x20 (bytes32 (length d₁)) 0x6C (omega (arith, size₁))
          (inr (omega arith))

    start_stays : word32 out 0x6C ≡ word32 d₂ 0x6C
    start_stays =
        late 0x6C (omega arith)
        ∙ word32-overwrite_ne d₂ 0x68 (bytes32 (length d₂ + u32_mod - word32 d₂ 0x6C)) 0x6C
            (omega (arith, size₂)) (inr (omega arith))

    second : word32 out 0x68 + word32 out 0x6C ≡ length out
    second =
        let self =
          word32-overwrite_self d₂ 0x68 (length d₂ + u32_mod - word32 d₂ 0x6C)
            (omega (arith, size₂)) in
        omega (arith, late 0x68 (omega arith), self, start_stays, start, size, size₂)

    third : take 20 (drop 0x0C out) ≡ sha1 (drop 0x20 out)
    third =
        let l = sha1-length (drop 0x20 d₃) in
        let behind =
          drop_behind-overwrite d₄ 0x08 (bytes32 (adler32 (drop 0x0C d₄))) 0x0C
            (omega (arith, size₄)) (omega arith) in
        let behind' =
          drop_behind-overwrite d₄ 0x08 (bytes32 (adler32 (drop 0x0C d₄))) 0x20
            (omega (arith, size₄)) (omega arith) in
        let rest =
          drop_behind-overwrite d₃ 0x0C (sha1 (drop 0x20 d₃)) 0x20 (omega (arith, size₃))
            (omega arith) in
        let written = drop-overwrite d₃ 0x0C (sha1 (drop 0x20 d₃)) (omega (arith, size₃)) in
        rw (behind, behind', rest) (rw l at written)

    fourth : word32 out 0x08 ≡ adler32 (drop 0x0C out)
    fourth =
        let behind =
          drop_behind-overwrite d₄ 0x08 (bytes32 (adler32 (drop 0x0C d₄))) 0x0C
            (omega (arith, size₄)) (omega arith) in
        let self = word32-overwrite_self d₄ 0x08 (adler32 (drop 0x0C d₄)) (omega (arith, size₄)) in
        rw behind (omega (arith, self, word (drop 0x0C d₄)))

-- Once the tail is appended to a file whose data section ends within it, `finish` leaves a file of
-- that length, shorter than 4 GiB, with a consistent header, and changes no byte behind 0x24 but
-- those of the data section's size, and none before 0x08.
pub finish-IsSealed :
    (adler32 : Bytes → ℕ) (d tail : Bytes)
    → ((b : Bytes) → adler32 b < u32_mod)
    → 0x70 ≤ length d
    → length d + length tail < u32_mod
    → word32 (d ++ tail) 0x6C ≤ length d + length tail
    → let out = finish adler32 d tail in
      (length out ≡ length d + length tail)
      × IsSealed adler32 out
      × ((k : ℕ) → ¬ IsHeader k → byte_at out k ≡ byte_at (d ++ tail) k)
unfolding finish
finish-IsSealed adler32 d tail word header short start = (
  size adler32 d tail header,
  (
    first adler32 d tail header word short start,
    second adler32 d tail header word short start,
    third adler32 d tail header word short start,
    fourth adler32 d tail header word short start,
  ),
  keeps adler32 d tail header,
)

pub finish-length :
    (adler32 : Bytes → ℕ) (d tail : Bytes)
    → 0x70 ≤ length d
    → length (finish adler32 d tail) ≡ length d + length tail
unfolding finish
finish-length adler32 d tail header = size adler32 d tail header
