-- ===== src/Dalvik.antt =====
-- core/dex/dalvik.cpp and include/vardoger/dex/dalvik.hpp: the interpreter of Dalvik bytecode.
--
-- This module has the words that are read from the file and the arithmetic on registers. Actions has
-- what each opcode stands for, Machine the interpreter.
--
-- A register is a number below 2^64, a signed number its two's complement. Signed overflow, which
-- C++ leaves undefined, wraps.
pub mod Actions
pub mod Machine
pub mod Outcomes
pub mod Rounds
pub mod Balance
pub mod Plain
pub mod Safety
use vardoger.Prelude.{
  ℕ, ◌+◌, ◌-◌, ◌*◌, ◌/◌, ◌%◌, ◌^◌, Bool, true, false, not, leb, ltb, ◌==◌, if◌then◌else◌, bit_and,
  bit_or, bit_xor, length,
}
use vardoger.Prelude.Order.{Bytes}
use vardoger.Prelude.Splice.{byte_at}
use vardoger.Dex.{u32_mod, word16, word32}

abbrev pub u64_mod : ℕ
u64_mod = 0x10000000000000000

-- `u16` and `u32`: 0 where the word does not lie in the file. The ends are taken on 32 bits; a read
-- behind the end of the file gives 0 too.
unfoldable pub u16 : Bytes → ℕ → ℕ
u16 d off = if leb ((off + 2) % u32_mod) (length d) then word16 d off else 0

unfoldable pub u32 : Bytes → ℕ → ℕ
u32 d off = if leb ((off + 4) % u32_mod) (length d) then word32 d off else 0

-- A number of `2 * half` values, taken as a signed one, in a wider type.
abbrev pub extend : ℕ → ℕ → ℕ → ℕ
extend half modulus x = if ltb x half then x else x + (modulus - 2 * half)

abbrev pub from_int8 : ℕ → ℕ
from_int8 x = extend 0x80 u64_mod (x % 0x100)

abbrev pub from_int16 : ℕ → ℕ
from_int16 x = extend 0x8000 u64_mod (x % 0x10000)

abbrev pub from_int32 : ℕ → ℕ
from_int32 x = extend 0x80000000 u64_mod (x % u32_mod)

abbrev pub is_negative : ℕ → Bool
is_negative a = leb 0x8000000000000000 a

abbrev pub negate : ℕ → ℕ
negate a = (u64_mod - a) % u64_mod

abbrev pub magnitude : ℕ → ℕ
magnitude a = if is_negative a then u64_mod - a else a

-- `a < b` on `int64_t`.
abbrev pub less : ℕ → ℕ → Bool
less a b = ltb ((a + 0x8000000000000000) % u64_mod) ((b + 0x8000000000000000) % u64_mod)

-- `a / b`, `a % b` and `a >> k` on `int64_t`.
unfoldable pub divide : ℕ → ℕ → ℕ
divide a b =
    let q = magnitude a / magnitude b in
    let differ = if is_negative a then not (is_negative b) else is_negative b in
    if differ then negate q else q

unfoldable pub remainder : ℕ → ℕ → ℕ
remainder a b = let r = magnitude a % magnitude b in if is_negative a then negate r else r

unfoldable pub shift_right : ℕ → ℕ → ℕ
shift_right a k = if is_negative a then u64_mod - 1 - (u64_mod - 1 - a) / 2 ^ k else a / 2 ^ k

-- The lambda `ibin`.
unfoldable pub ibin : ℕ → ℕ → ℕ → ℕ
ibin k a b =
    if k == 0
    then (a + b) % u64_mod
    else if k == 1
    then (a + (u64_mod - b)) % u64_mod
    else if k == 2
    then a * b % u64_mod
    else if k == 3
    then (if b == 0 then 0 else divide a b)
    else if k == 4
    then (if b == 0 then 0 else remainder a b)
    else if k == 5
    then bit_and a b
    else if k == 6
    then bit_or a b
    else if k == 7
    then bit_xor a b
    else if k == 8
    then a * 2 ^ (b % 64) % u64_mod
    else if k == 9
    then shift_right a (b % 64)
    else if k == 10
    then a / 2 ^ (b % 64)
    else 0

-- The opcodes 0x7b to 0x8f.
unfoldable pub unary : ℕ → ℕ → ℕ
unary op v =
    if op == 0x7B
    then negate (from_int32 v)
    else if op == 0x7C
    then u64_mod - 1 - from_int32 v
    else if op == 0x7D
    then negate v
    else if op == 0x7E
    then u64_mod - 1 - v
    else if op == 0x81
    then from_int32 v
    else if op == 0x84
    then from_int32 v
    else if op == 0x8D
    then from_int8 v
    else if op == 0x8E
    then v % 0x10000
    else if op == 0x8F
    then from_int16 v
    else v

-- The six tests of the opcodes 0x32 to 0x37 and 0x38 to 0x3d.
unfoldable pub passes : ℕ → ℕ → ℕ → Bool
passes k a b =
    if k == 0
    then a == b
    else if k == 1
    then not (a == b)
    else if k == 2
    then less a b
    else if k == 3
    then not (less a b)
    else if k == 4
    then less b a
    else not (less b a)
