-- ===== src/Extractor/Scans.antt =====
-- Which DEX files the scan of a buffer finds.
use mathlib.Core.Option
use vardoger.Prelude.{
  ℕ, zero, suc, ◌+◌, ◌*◌, ◌≤◌, ◌<◌, ◌≡◌, ◌==◌, not, ◌||◌, false, refl, sym, ◌∙◌, inl, inr, true,
  Option, none, some, subst, ap, List, [], ◌∷◌, arith, leb, ltb, length, length-drop, take, drop,
  Bool-cases, Option-cases,
}
use vardoger.Prelude.Order.{Bytes}
use vardoger.Prelude.Splice.{drop-drop, byte_at}
use vardoger.Dex.{word32}
use vardoger.Memory.{add64}
use vardoger.Extractor.{
  FoundDex, is_dex_magic, is_cdex_magic, bad_size, is_dex, scan_loop, scan_buffer,
}

-- A DEX or a compact DEX file begins here, of `size` bytes that are all there: what the header of
-- the format says, byte by byte.
pub data Begins (p : Bytes) : ℕ → Bytes → Type 0 where
  dex :
      (v : ℕ) (rest : Bytes)
      → p ≡ b'd' ∷ b'e' ∷ b'x' ∷ 10 ∷ b'0' ∷ b'3' ∷ v ∷ 0 ∷ rest
      → b'5' ≤ v
      → v ≤ b'9'
      → word32 p 0x24 ≡ 0x70
      → word32 p 0x28 ≡ 0x12345678
      → 0x70 ≤ word32 p 0x20
      → word32 p 0x20 ≤ length p
      → Begins p (word32 p 0x20) (b'0' ∷ b'3' ∷ v ∷ [])
  cdex :
      (rest : Bytes)
      → p ≡ b'c' ∷ b'd' ∷ b'e' ∷ b'x' ∷ rest
      → 0x70 ≤ word32 p 0x20
      → word32 p 0x20 ≤ length p
      → Begins p (word32 p 0x20) (b'c' ∷ b'd' ∷ b'e' ∷ b'x' ∷ [])

-- No file begins here.
abbrev pub BeginsNone : Bytes → Type 0
BeginsNone p = (size : ℕ) (version : Bytes) → Begins p size version → ⊥

dex_text :
    (p : Bytes)
    → 0x70 ≤ length p
    → is_dex_magic p ≡ true
    → (rest : Bytes) × ((p ≡ b'd' ∷ b'e' ∷ b'x' ∷ 10 ∷ b'0' ∷ b'3' ∷ byte_at p 6 ∷ 0 ∷ rest)
        × ((b'5' ≤ byte_at p 6) × (byte_at p 6 ≤ b'9')))
dex_text [] long h = absurd (omega arith)
dex_text (a ∷ []) long h = absurd (omega arith)
dex_text (a ∷ b ∷ []) long h = absurd (omega arith)
dex_text (a ∷ b ∷ c ∷ []) long h = absurd (omega arith)
dex_text (a ∷ b ∷ c ∷ d ∷ []) long h = absurd (omega arith)
dex_text (a ∷ b ∷ c ∷ d ∷ e ∷ []) long h = absurd (omega arith)
dex_text (a ∷ b ∷ c ∷ d ∷ e ∷ f ∷ []) long h = absurd (omega arith)
dex_text (a ∷ b ∷ c ∷ d ∷ e ∷ f ∷ g ∷ []) long h = absurd (omega arith)
dex_text (a ∷ b ∷ c ∷ d ∷ e ∷ f ∷ g ∷ i ∷ rest) long h =
    let ea : a ≡ b'd' = ground arith in
    let eb : b ≡ b'e' = ground arith in
    let ec : c ≡ b'x' = ground arith in
    let ed : d ≡ 10 = ground arith in
    let ee : e ≡ b'0' = ground arith in
    let ef : f ≡ b'3' = ground arith in
    let ei : i ≡ 0 = ground arith in (rest, (rw (ea, eb, ec, ed, ee, ef, ei) refl, ground arith))

cdex_text :
    (p : Bytes) → is_cdex_magic p ≡ true → (rest : Bytes) × (p ≡ b'c' ∷ b'd' ∷ b'e' ∷ b'x' ∷ rest)
cdex_text [] h = absurd (let no : false ≡ true = ground arith in cc)
cdex_text (a ∷ []) h = absurd (let no : false ≡ true = ground arith in cc)
cdex_text (a ∷ b ∷ []) h = absurd (let no : false ≡ true = ground arith in cc)
cdex_text (a ∷ b ∷ c ∷ []) h = absurd (let no : false ≡ true = ground arith in cc)
cdex_text (a ∷ b ∷ c ∷ d ∷ rest) h =
    let ea : a ≡ b'c' = ground arith in
    let eb : b ≡ b'd' = ground arith in
    let ec : c ≡ b'e' = ground arith in
    let ed : d ≡ b'x' = ground arith in (rest, rw (ea, eb, ec, ed) refl)

Begins-is_dex :
    (p : Bytes) (size : ℕ) (version : Bytes)
    → Begins p size version
    → is_dex p ≡ some (size, version)
unfolding is_dex
Begins-is_dex p _ _ (dex v rest e low high head end big fits) =
    let six : byte_at p 6 ≡ v = rw e refl in
    let magic : is_dex_magic p ≡ true = rw e (ground arith) in
    let enough : ltb (length p) 0x70 ≡ false = ground arith in
    let good : bad_size p ≡ false = ground arith in
    let known : (not (word32 p 0x24 == 0x70) || not (word32 p 0x28 == 0x12345678)) ≡ false =
      ground arith in
    rw (enough, magic, known, good, is_dex) (rw six refl)
Begins-is_dex p _ _ (cdex rest e big fits) =
    let other : is_dex_magic p ≡ false = rw e refl in
    let magic : is_cdex_magic p ≡ true = rw e refl in
    let enough : ltb (length p) 0x70 ≡ false = ground arith in
    let good : bad_size p ≡ false = ground arith in rw (enough, other, magic, good, is_dex) refl

refused : {r : ℕ × Bytes} → ◌≡◌ {A = Option (ℕ × Bytes)} none (some r) → ⊥
refused h = cc

given : {q r : ℕ × Bytes} → ◌≡◌ {A = Option (ℕ × Bytes)} (some q) (some r) → q ≡ r
given h = ap (λ (o : Option (ℕ × Bytes)). Option.get_or o (0, [])) h

is_dex-Begins :
    (p : Bytes) (size : ℕ) (version : Bytes)
    → is_dex p ≡ some (size, version)
    → Begins p size version
unfolding is_dex
is_dex-Begins p size version h = elim (Bool-cases (ltb (length p) 0x70)) [
  | inl short ↦ absurd (refused (rw (short, is_dex) at h))
  | inr long ↦ elim (Bool-cases (bad_size p)) [
    | inl bad ↦
        let nothing : is_dex p ≡ none = rw (long, bad, is_dex) (ground arith) in
        absurd (refused (sym nothing ∙ h))
    | inr good ↦ elim (Bool-cases (is_dex_magic p)) [
      | inl magic ↦
          elim (Bool-cases (not (word32 p 0x24 == 0x70) || not (word32 p 0x28 == 0x12345678))) [
            | inl unknown ↦ absurd (refused (rw (long, magic, unknown, is_dex) at h))
            | inr known ↦
                let (rest, (e, (low, high))) = dex_text p (ground arith) magic in
                subst (λ (r : ℕ × Bytes). Begins p r.0 r.1)
                  (given (rw (long, magic, known, good, is_dex) at h))
                  (dex (byte_at p 6) rest e low high (ground arith) (ground arith) (ground arith)
                    (ground arith))
          ]
      | inr other ↦ elim (Bool-cases (is_cdex_magic p)) [
        | inr none' ↦ absurd (refused (rw (long, other, none', is_dex) at h))
        | inl magic ↦
            let (rest, e) = cdex_text p magic in
            subst (λ (r : ℕ × Bytes). Begins p r.0 r.1)
              (given (rw (long, other, magic, good, is_dex) at h))
              (cdex rest e (ground arith) (ground arith))
      ]
    ]
  ]
]

Begins-inside :
    (p : Bytes) (size : ℕ) (version : Bytes)
    → Begins p size version
    → (0x70 ≤ size) × (size ≤ length p)
Begins-inside p _ _ (dex v rest e low high head end big fits) = (big, fits)
Begins-inside p _ _ (cdex rest e big fits) = (big, fits)

Begins-short : (p : Bytes) → length p < 0x70 → BeginsNone p
Begins-short p short size version begins =
    let inside = Begins-inside p size version begins in omega (arith, inside.0, inside.1)

is_dex-BeginsNone : (p : Bytes) → is_dex p ≡ none → BeginsNone p
is_dex-BeginsNone p none' size version begins =
    refused (sym none' ∙ Begins-is_dex p size version begins)

-- What a scan of `rest`, which starts at offset `off`, has to give: the first file that starts at a
-- multiple of four bytes, whole, and then those behind its end in the same way.
unfoldable pub IsScan : Bytes → ℕ → ℕ → Bytes → List FoundDex → Type 0
IsScan label base off rest [] = (k : ℕ) → BeginsNone (drop (k * 4) rest)
IsScan label base off rest (d ∷ ds) =
    (k : ℕ) × (size : ℕ) × (version : Bytes) × ((j : ℕ) → j < k → BeginsNone (drop (j * 4) rest))
    × Begins (drop (k * 4) rest) size version
    × (0x70 ≤ size)
    × (k * 4 + size ≤ length rest)
    × (d ≡ record {
      addr = add64 base (off + k * 4);
      region = label;
      version = version;
      bytes = take size (drop (k * 4) rest);
    })
    × IsScan label base (off + (k * 4 + size)) (drop (k * 4 + size) rest) ds

-- Four bytes on.
drop_four : (k : ℕ) (rest : Bytes) → drop (k * 4) (drop 4 rest) ≡ drop (suc k * 4) rest
drop_four k rest =
    let same : 4 + k * 4 ≡ suc k * 4 = omega arith in drop-drop 4 (k * 4) rest ∙ rw same

before :
    (k : ℕ) (rest : Bytes)
    → BeginsNone rest
    → ((j : ℕ) → j < k → BeginsNone (drop (j * 4) (drop 4 rest)))
    → (j : ℕ) → j < suc k
    → BeginsNone (drop (j * 4) rest)
before k rest here later zero lt = here
before k rest here later (suc j) lt = rw (sym (drop_four j rest)) (later j (omega arith))

skip-IsScan :
    (label : Bytes) (base off : ℕ) (rest : Bytes) (out : List FoundDex)
    → BeginsNone rest
    → 4 ≤ length rest
    → IsScan label base (off + 4) (drop 4 rest) out
    → IsScan label base off rest out
unfolding IsScan
skip-IsScan label base off rest [] here long scan =
    λ k. before (suc k) rest here (λ j lt. scan j) k (omega arith)
skip-IsScan label base off rest (d ∷ ds) here long
      (k, size, version, none', at, low, high, same, more) =
    let place : off + suc k * 4 ≡ off + 4 + k * 4 = omega arith in
    let place' : off + (suc k * 4 + size) ≡ off + 4 + (k * 4 + size) = omega arith in
    let sum : suc k * 4 + size ≡ 4 + (k * 4 + size) = omega arith in
    let behind : drop (k * 4 + size) (drop 4 rest) ≡ drop (suc k * 4 + size) rest =
      rw sum (drop-drop 4 (k * 4 + size) rest) in
    (
      suc k,
      size,
      version,
      before k rest here none',
      rw (sym (drop_four k rest)) at,
      low,
      omega (arith, length-drop 4 rest),
      same ∙ rw (place, sym (drop_four k rest)),
      rw (place', sym behind) more,
    )

scan_loop-IsScan :
    (left : ℕ) (label : Bytes) (base off : ℕ) (rest : Bytes)
    → length rest ≤ left
    → IsScan label base off rest (scan_loop left label base off rest)
unfolding IsScan scan_loop
scan_loop-IsScan zero label base off rest enough =
    λ k. Begins-short (drop (k * 4) rest) (omega (arith, length-drop (k * 4) rest))
scan_loop-IsScan (suc left) label base off rest enough =
    elim (Bool-cases (leb 0x70 (length rest))) [
      | inr short ↦
          rw short
            (λ k. Begins-short (drop (k * 4) rest) (ground (arith, length-drop (k * 4) rest)))
      | inl long ↦ elim (Option-cases (is_dex rest)) [
        | inl here ↦
            rw (long, here)
              (skip-IsScan label base off rest (scan_loop left label base (off + 4) (drop 4 rest))
                (is_dex-BeginsNone rest here) (ground arith)
                (scan_loop-IsScan left label base (off + 4) (drop 4 rest)
                  (ground (arith, length-drop 4 rest))))
        | inr ((size, version), hit) ↦
            let found = is_dex-Begins rest size version hit in
            let (low, high) = Begins-inside rest size version found in
            let place : off + 0 * 4 ≡ off = omega arith in
            let place' : 0 * 4 + size ≡ size = omega arith in
            rw (long, hit)
              (
                0,
                size,
                version,
                λ j lt. absurd (omega arith),
                found,
                low,
                rw place' high,
                rw place refl,
                rw place' (
                    scan_loop-IsScan left label base (off + size) (drop size rest)
                      (omega (arith, length-drop size rest))),
              )
      ]
    ]

-- The loop over a buffer ends. From the start of the buffer, and then from the end of each file it
-- finds, it gives the first place at a multiple of four bytes from there at which the header of a
-- file stands whose bytes all lie in the buffer, with those bytes, their address and the version;
-- behind the last one there is no such place.
pub scan_buffer-IsScan :
    (label : Bytes) (base : ℕ) (buf : Bytes) → IsScan label base 0 buf (scan_buffer label base buf)
unfolding scan_buffer
scan_buffer-IsScan label base buf = scan_loop-IsScan (length buf) label base 0 buf (omega arith)
