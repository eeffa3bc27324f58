-- ===== src/Dex/Build.antt =====
-- `DexRebuilder::build` as a whole: what it leaves of the file it was given, and the header it ends
-- with.
use vardoger.Prelude.{
  ℕ, zero, suc, ◌+◌, ◌*◌, ◌≤◌, ◌<◌, ◌≡◌, inl, inr, refl, ap, ◌∙◌, true, false, ◌||◌, [], ◌++◌,
  arith, leb, ltb, ◌==◌, length, Bool-cases,
}
use vardoger.Prelude.Order.{Bytes, nat_key}
use vardoger.Prelude.Map.{Map}
use vardoger.Prelude.Splice.{byte_at, byte_at-append, length-overwrite}
use vardoger.Dex.{u32_mod, word32, bytes32}
use vardoger.Dex.Words.{byte_at-overwrite_ne}
use vardoger.Dex.Parse.{has_magic}
use vardoger.Dex.Rebuilder.{
  Rebuilder, Progress, rebuild_class, align4, patch_class, patch_classes, append_codes, finish,
  build,
}
use vardoger.Dex.Seal.{IsSealed, IsHeader, beside, finish-IsSealed, finish-length}

-- The word `class_data_off` of one of `left` class definitions.
abbrev pub IsLink : ℕ → ℕ → ℕ → Type 0
IsLink cdef left k = (i : ℕ) × (i < left) × (cdef + i * 32 + 24 ≤ k) × (k < cdef + i * 32 + 28)

abbrev Keeps : ℕ → ℕ → Bytes → Bytes → Type 0
Keeps cdef left d d' =
    (length d' ≡ length d) × ((k : ℕ) → ¬ IsLink cdef left k → byte_at d' k ≡ byte_at d k)

patch_class-Keeps :
    (offs : Map ℕ ℕ) (cdef : ℕ) (g : Progress)
    → cdef + 32 ≤ length g.d
    → Keeps cdef 1 g.d (patch_class offs cdef g).d
unfolding patch_class
patch_class-Keeps offs cdef g fits =
    let cdo = word32 g.d (cdef + 24) in
    let aligned = align4 (length g.d) g.tail in
    let link = bytes32 (length g.d + length aligned) in
    elim (Bool-cases (cdo == 0 || leb (length g.d) cdo)) [
      | inl skipped ↦ rw skipped (refl, λ k away. refl)
      | inr there ↦ elim (Bool-cases ((rebuild_class g.d offs cdo).1 == 0)) [
        | inl same ↦ rw (there, same) (refl, λ k away. refl)
        | inr changed ↦
            rw (there, changed)
              (
                length-overwrite g.d (cdef + 24) link (omega arith),
                λ k away. byte_at-overwrite_ne g.d (cdef + 24) link k (omega arith) (
                    beside k (cdef + 24) 4
                      (λ lo hi. away (0, omega arith, omega arith, omega arith))),
              )
      ]
    ]

patch_classes-Keeps :
    (left : ℕ) (offs : Map ℕ ℕ) (cdef : ℕ) (g : Progress)
    → cdef + left * 32 ≤ length g.d
    → Keeps cdef left g.d (patch_classes left offs cdef g).d
unfolding patch_classes
patch_classes-Keeps zero offs cdef g fits = (refl, λ k away. refl)
patch_classes-Keeps (suc left) offs cdef g fits =
    let (size, kept) = patch_class-Keeps offs cdef g (omega arith) in
    let (size', kept') =
      patch_classes-Keeps left offs (cdef + 32) (patch_class offs cdef g) (omega arith) in
    (
      size' ∙ size,
      λ k away.
          kept' k (λ (i, less, lo, hi). away (suc i, omega arith, omega arith, omega arith))
          ∙ kept k (λ (i, less, lo, hi). away (0, omega arith, omega arith, omega arith)),
    )

-- The file and the tail as the last step finds them.
abbrev pub patched : Rebuilder → Progress
patched r =
    let codes = append_codes (length r.d) r.recovered [] [] in
    patch_classes (word32 r.d 0x60) codes.1 (word32 r.d 0x64)
      (record { d = r.d; tail = codes.0; methods = 0; classes = 0 })

build-finish :
    (adler32 : Bytes → ℕ) (r : Rebuilder)
    → has_magic r.d ≡ true
    → word32 r.d 0x64 + word32 r.d 0x60 * 32 ≤ length r.d
    → (build adler32 r).1 ≡ finish adler32 (patched r).d (patched r).tail
unfolding build
build-finish adler32 r magic fits =
    let there : ltb (length r.d) (word32 r.d 0x64 + word32 r.d 0x60 * 32) ≡ false = ground arith in
    rw (magic, there) refl

-- A byte of the file as the last step finds it: the tail comes behind, and only links have changed.
patched_byte :
    (r : Rebuilder) (k : ℕ)
    → word32 r.d 0x64 + word32 r.d 0x60 * 32 ≤ length r.d
    → k < length r.d
    → ¬ IsLink (word32 r.d 0x64) (word32 r.d 0x60) k
    → byte_at ((patched r).d ++ (patched r).tail) k ≡ byte_at r.d k
patched_byte r k fits inside free =
    let codes = append_codes (length r.d) r.recovered [] [] in
    let (size, kept) =
      patch_classes-Keeps (word32 r.d 0x60) codes.1 (word32 r.d 0x64)
        (record { d = r.d; tail = codes.0; methods = 0; classes = 0 }) fits in
    ground (arith, byte_at-append (patched r).d (patched r).tail k, kept k free)

pub build-length :
    (adler32 : Bytes → ℕ) (r : Rebuilder)
    → has_magic r.d ≡ true
    → 0x70 ≤ word32 r.d 0x64
    → word32 r.d 0x64 + word32 r.d 0x60 * 32 ≤ length r.d
    → length (build adler32 r).1 ≡ length r.d + length (patched r).tail
build-length adler32 r magic table fits =
    let g = patched r in
    let codes = append_codes (length r.d) r.recovered [] [] in
    let size : length g.d ≡ length r.d =
      (patch_classes-Keeps (word32 r.d 0x60) codes.1 (word32 r.d 0x64)
        (record { d = r.d; tail = codes.0; methods = 0; classes = 0 }) fits).0 in
    let same = build-finish adler32 r magic fits in
    omega (arith, ap length same, finish-length adler32 g.d g.tail (omega arith))

-- The rebuilt file keeps every byte of the one given, but in the header's file size, data size,
-- signature and checksum, and in the class definitions' links to their data. It is sealed.
pub build-IsSealed :
    (adler32 : Bytes → ℕ) (r : Rebuilder)
    → ((b : Bytes) → adler32 b < u32_mod)
    → has_magic r.d ≡ true
    → 0x70 ≤ word32 r.d 0x64
    → word32 r.d 0x64 + word32 r.d 0x60 * 32 ≤ length r.d
    → word32 r.d 0x6C ≤ length r.d
    → length (build adler32 r).1 < u32_mod
    → let out = (build adler32 r).1 in
      IsSealed adler32 out
      × ((k : ℕ)
          → k < length r.d
          → ¬ IsHeader k
          → ¬ IsLink (word32 r.d 0x64) (word32 r.d 0x60) k
          → byte_at out k ≡ byte_at r.d k)
build-IsSealed adler32 r word magic table fits start short =
    let g = patched r in
    let codes = append_codes (length r.d) r.recovered [] [] in
    let size : length g.d ≡ length r.d =
      (patch_classes-Keeps (word32 r.d 0x60) codes.1 (word32 r.d 0x64)
        (record { d = r.d; tail = codes.0; methods = 0; classes = 0 }) fits).0 in
    let same = build-finish adler32 r magic fits in
    let short' : length g.d + length g.tail < u32_mod =
      omega (arith, build-length adler32 r magic table fits) in
    let byte : (k : ℕ) → k < 0x70 → byte_at (g.d ++ g.tail) k ≡ byte_at r.d k =
      λ k low. patched_byte r k fits (omega arith) (λ (i, less, lo, hi). absurd (omega arith)) in
    let origin : word32 (g.d ++ g.tail) 0x6C ≡ word32 r.d 0x6C = rw (
      byte 0x6C (omega arith),
      byte 0x6D (omega arith),
      byte 0x6E (omega arith),
      byte 0x6F (omega arith),
    ) in
    let (_, sealed, rest) =
      finish-IsSealed adler32 g.d g.tail word (omega arith) short' (omega arith) in
    rw same (sealed, λ k inside away free. rest k away ∙ patched_byte r k fits inside free)
