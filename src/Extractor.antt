-- ===== src/Extractor.antt =====
-- core/extract/extractor.cpp and include/vardoger/extract/extractor.hpp: DEX files and strings in the
-- guest's memory.
--
-- Reading guest memory is a parameter that may throw, and so is the label of a region, which the
-- memory manager's model leaves out. A buffer is a list of bytes. The messages to the user and
-- write_artifacts, which only writes files, are left out.
pub mod Scans
pub mod Strings
use vardoger.Prelude.{
  ℕ, zero, suc, ◌+◌, ◌*◌, Bool, true, false, not, ◌&&◌, ◌||◌, Option, none, some, List, [], ◌∷◌,
  ◌++◌, leb, ltb, ◌==◌, if◌then◌else◌, length, get_or, take, drop,
}
use vardoger.Prelude.Order.{Bytes, bytes_key, equal_bytes}
use vardoger.Prelude.Map.{Map, insert}
use vardoger.Prelude.Splice.{byte_at}
use vardoger.Prelude.Text.{contains}
use vardoger.Memory.{Region, Kind, heap, mmap, lib, other, add64}
use vardoger.Dex.{word32}

pub record FoundDex : Type 0 where
  pub addr : ℕ
  pub region : Bytes
  pub version : Bytes
  pub bytes : Bytes

pub record FoundString : Type 0 where
  pub addr : ℕ
  pub text : Bytes
  pub region : Bytes

-- `Extractor::is_dex` on the bytes that are there: the file's size and its version.
abbrev pub is_dex_magic : Bytes → Bool
is_dex_magic p =
    equal_bytes (take 4 p) (b'd' ∷ b'e' ∷ b'x' ∷ 10 ∷ [])
    && byte_at p 7 == 0
    && byte_at p 4 == b'0'
    && byte_at p 5 == b'3'
    && leb b'5' (byte_at p 6)
    && leb (byte_at p 6) b'9'

abbrev pub is_cdex_magic : Bytes → Bool
is_cdex_magic p = equal_bytes (take 4 p) (b'c' ∷ b'd' ∷ b'e' ∷ b'x' ∷ [])

-- `fsz < 0x70 || fsz > avail`
abbrev pub bad_size : Bytes → Bool
bad_size p = ltb (word32 p 0x20) 0x70 || ltb (length p) (word32 p 0x20)

unfoldable pub is_dex : Bytes → Option (ℕ × Bytes)
is_dex p =
    if ltb (length p) 0x70
    then none
    else if is_dex_magic p
    then (if not (word32 p 0x24 == 0x70) || not (word32 p 0x28 == 0x12345678)
        then none
        else if bad_size p
        then none
        else some (word32 p 0x20, b'0' ∷ b'3' ∷ byte_at p 6 ∷ []))
    else if is_cdex_magic p
    then (if bad_size p then none else some (word32 p 0x20, b'c' ∷ b'd' ∷ b'e' ∷ b'x' ∷ []))
    else none

-- The files captured so far, and whether one was.
unfoldable pub observe : List FoundDex → Bytes → Bytes → List FoundDex × Bool
observe captured bytes src = elim (is_dex bytes) [
  | none ↦ (captured, false)
  | some (size, version) ↦ (
    captured ++ record { addr = 0; region = src; version = version; bytes = take size bytes } ∷ [],
    true,
  )
]

abbrev pub scannable : Kind → Bool
scannable k = elim k [ heap ↦ true | mmap ↦ true | lib ↦ true | other ↦ true | _ ↦ false ]

-- The loop over one buffer, from offset `off` on, whose bytes are `rest`; each step passes four
-- bytes or more.
unfoldable pub scan_loop : ℕ → Bytes → ℕ → ℕ → Bytes → List FoundDex
scan_loop zero label base off rest = []
scan_loop (suc left) label base off rest =
    if leb 0x70 (length rest)
    then elim (is_dex rest) [
      | none ↦ scan_loop left label base (off + 4) (drop 4 rest)
      | some (size, version) ↦
          record {
            addr = add64 base off;
            region = label;
            version = version;
            bytes = take size rest;
          }
          ∷ scan_loop left label base (off + size) (drop size rest)
    ]
    else []

unfoldable pub scan_buffer : Bytes → ℕ → Bytes → List FoundDex
scan_buffer label base buf = scan_loop (length buf) label base 0 buf

abbrev pub is_printable : ℕ → Bool
is_printable c = leb 0x20 c && leb c 0x7E

-- The set of strings, as a map to nothing.
abbrev pub keep_run : ℕ → Bytes → Map Bytes (Unit {0}) → Map Bytes (Unit {0})
keep_run min_len run uniq = if leb min_len (length run) then insert run tt uniq else uniq

unfoldable pub harvest_loop : ℕ → Bytes → Bytes → Map Bytes (Unit {0}) → Map Bytes (Unit {0})
harvest_loop min_len run [] uniq = keep_run min_len run uniq
harvest_loop min_len run (c ∷ cs) uniq =
    if is_printable c
    then harvest_loop min_len (run ++ c ∷ []) cs uniq
    else harvest_loop min_len [] cs (keep_run min_len run uniq)

-- `flush`, and the loop over one buffer at index `i`.
unfoldable pub flush : Bytes → ℕ → Bytes → ℕ → ℕ → Bytes → List FoundString
flush needle min_len label base start run =
    if leb min_len (length run) && (length needle == 0 || contains needle run)
    then record { addr = add64 base start; text = run; region = label } ∷ []
    else []

unfoldable pub search_loop : Bytes → ℕ → Bytes → ℕ → ℕ → ℕ → Bytes → Bytes → List FoundString
search_loop needle min_len label base i start run [] = flush needle min_len label base start run
search_loop needle min_len label base i start run (c ∷ cs) =
    if is_printable c
    then search_loop needle min_len label base (i + 1) (if length run == 0 then i else start)
        (run ++ c ∷ []) cs
    else flush needle min_len label base start run
      ++ search_loop needle min_len label base (i + 1) start [] cs

module _ (read : ℕ → ℕ → Option Bytes) (label : Region → Bytes) where
  -- The regions in turn; a read that throws ends the scan.
  unfoldable pub scan_dex : List Region → Option (List FoundDex)
  scan_dex [] = some []
  scan_dex (r ∷ rest) =
      if scannable r.kind
      then elim (read r.base r.size) [
        | none ↦ none
        | some buf ↦ elim (scan_dex rest) [
          | none ↦ none
          | some out ↦ some (scan_buffer (label r) r.base buf ++ out)
        ]
      ]
      else scan_dex rest

  unfoldable pub harvest_regions :
      ℕ → List Region → Map Bytes (Unit {0}) → Option (Map Bytes (Unit {0}))
  harvest_regions min_len [] uniq = some uniq
  harvest_regions min_len (r ∷ rest) uniq =
      if scannable r.kind
      then elim (read r.base r.size) [
        | none ↦ none
        | some buf ↦ harvest_regions min_len rest (harvest_loop min_len [] buf uniq)
      ]
      else harvest_regions min_len rest uniq

  unfoldable pub search_strings : Bytes → ℕ → List Region → Option (List FoundString)
  search_strings needle min_len [] = some []
  search_strings needle min_len (r ∷ rest) =
      if scannable r.kind
      then elim (read r.base r.size) [
        | none ↦ none
        | some buf ↦ elim (search_strings needle min_len rest) [
          | none ↦ none
          | some out ↦ some (search_loop needle min_len (label r) r.base 0 0 [] buf ++ out)
        ]
      ]
      else search_strings needle min_len rest
