-- ===== src/Dex/Relink.antt =====
-- `DexRebuilder` on class data: the methods it has code for are linked to it, and nothing else of the
-- class data changes.
use vardoger.Prelude.{
  ℕ, ◌+◌, ◌%◌, ◌<◌, List, [], ◌∷◌, ◌++◌, if◌then◌else◌, ◌/◌, ◌-◌, ◌==◌, Bool, none, some,
}
use vardoger.Prelude.Order.{Bytes, nat_key}
use vardoger.Prelude.Map.{Map, find}
use vardoger.Dex.{u32_mod, wuleb}

-- A method of class data: the difference to the index before it, its flags, the place of its code.
abbrev pub Encoded : Type 0
Encoded = ℕ × ℕ × ℕ

unfoldable pub encode : List Encoded → Bytes
encode [] = []
encode ((diff, acc, coff) ∷ ms) = wuleb diff ++ (wuleb acc ++ (wuleb coff ++ encode ms))

-- Every number has 32 bits.
unfoldable pub IsEncoded : List Encoded → Type 0
IsEncoded [] = Unit
IsEncoded ((diff, acc, coff) ∷ ms) =
    (diff < u32_mod) × (acc < u32_mod) × (coff < u32_mod) × IsEncoded ms

-- The flag of a native method, the bit 0x100.
abbrev pub is_native : ℕ → Bool
is_native acc = (acc / 0x100) % 2 == 1

-- The methods linked to their new code, and how many are: a native method whose index has new code
-- loses the flag and gets the place of the code, any other one stays as it is.
unfoldable pub relinked : Map ℕ ℕ → ℕ → List Encoded → List Encoded × ℕ
relinked offs midx [] = ([], 0)
relinked offs midx ((diff, acc, coff) ∷ ms) =
    let index = (midx + diff) % u32_mod in
    let (rest, count) = relinked offs index ms in
    elim (find index offs) [
      | none ↦ ((diff, acc, coff) ∷ rest, count)
      | some off ↦
          if is_native acc
          then ((diff, acc - 0x100, off) ∷ rest, count + 1)
          else ((diff, acc, coff) ∷ rest, count)
    ]
