-- ===== src/Tests/Ciphers.antt =====
-- RC4 with the key `Key` on the bytes of `Plain`.
use vardoger.Prelude.{◌≡◌, refl, [], ◌∷◌}
use vardoger.Prelude.Order.{Bytes}
use vardoger.Rc4.{swap, mix, ksa, step, crypt, rc4}
use vardoger.Rc4.Swaps.{IsState, ksa-IsState, crypt-IsState}

abbrev key : Bytes
key = b'K' ∷ b'e' ∷ b'y' ∷ []

abbrev plain : Bytes
plain = b'P' ∷ b'l' ∷ b'a' ∷ b'i' ∷ b'n' ∷ []

-- The published test vector.
vector : rc4 key plain ≡ 0xBB ∷ 0xF3 ∷ 0x16 ∷ 0xE8 ∷ 0xD9 ∷ []
unfolding rc4 ksa mix swap step crypt
vector = refl

crypt-IsState_example : IsState (crypt (ksa key) plain).0
crypt-IsState_example = crypt-IsState (ksa key) plain (ksa-IsState key)
