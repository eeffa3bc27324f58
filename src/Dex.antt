-- ===== src/Dex.antt =====
-- core/dex/dex_file.cpp, include/vardoger/dex/dex_file.hpp and rebuilder.hpp: reading and rewriting
-- DEX files. This module has what they share: words and uleb128 numbers in a list of bytes.
--
-- A file is shorter than 4 GiB, so that a position in it does not wrap; sums of 32-bit offsets do.
pub mod File
pub mod Parse
pub mod Rebuilder
pub mod Sha1
pub mod Leb
pub mod Bounds
pub mod Words
pub mod Seal
pub mod Relink
pub mod Build
use vardoger.Prelude.{
  ℕ, zero, suc, ◌+◌, ◌*◌, ◌/◌, ◌%◌, ◌^◌, Bool, List, [], ◌∷◌, ◌++◌, leb, ltb, ◌==◌, if◌then◌else◌,
  bit_and, bit_or, length, get_or, take, drop,
}
use vardoger.Prelude.Order.{Bytes}
use vardoger.Prelude.Splice.{byte_at}

abbrev pub u32_mod : ℕ
u32_mod = 0x100000000

-- The little-endian words that `std::memcpy` copies.
abbrev pub word16 : Bytes → ℕ → ℕ
word16 d o = byte_at d o + 0x100 * byte_at d (o + 1)

abbrev pub word32 : Bytes → ℕ → ℕ
word32 d o =
    byte_at d o
    + 0x100 * byte_at d (o + 1)
    + 0x10000 * byte_at d (o + 2)
    + 0x1000000 * byte_at d (o + 3)

abbrev pub bytes16 : ℕ → Bytes
bytes16 v = v % 0x100 ∷ v / 0x100 % 0x100 ∷ []

abbrev pub bytes32 : ℕ → Bytes
bytes32 v = v % 0x100 ∷ v / 0x100 % 0x100 ∷ v / 0x10000 % 0x100 ∷ v / 0x1000000 % 0x100 ∷ []

-- One group of a uleb128 number: `result |= uint32_t(b & 0x7f) << shift`.
abbrev pub add_group : ℕ → ℕ → ℕ → ℕ
add_group result b shift = bit_or result (bit_and b 0x7F * 2 ^ shift % u32_mod)

-- The loop that reads a uleb128 number, of `left` bytes at most; the value and the next position.
unfoldable pub uleb_loop : ℕ → Bytes → ℕ → ℕ → ℕ → ℕ × ℕ
uleb_loop zero d p result shift = (result, p)
uleb_loop (suc left) d p result shift =
    let b = byte_at d p in
    let result' = add_group result b shift in
    let rest = uleb_loop left d (p + 1) result' (shift + 7) in
    if ltb p (length d)
    then (if bit_and b 0x80 == 0 then (result', p + 1) else rest)
    else (result, p)

-- `wuleb`: at most ten groups are written for a number below 2 ^ 70.
unfoldable pub wuleb_loop : ℕ → ℕ → Bytes
wuleb_loop zero v = []
wuleb_loop (suc left) v =
    let rest = wuleb_loop left (v / 128) in
    let x = bit_and v 0x7F in if v / 128 == 0 then x ∷ [] else bit_or x 0x80 ∷ rest

-- A 32-bit number has five groups at most.
unfoldable pub wuleb : ℕ → Bytes
wuleb v = wuleb_loop 5 v
