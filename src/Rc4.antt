-- ===== src/Rc4.antt =====
-- include/vardoger/util/rc4.hpp: the RC4 stream cipher, its key schedule and its saved state.
--
-- The S-box is a list; a buffer that is changed in place is a result. Reads out of range give 0,
-- which the theorems exclude by a valid state.
pub mod Swaps
pub mod Streams
use vardoger.Prelude.{
  ℕ, zero, suc, ◌+◌, ◌%◌, List, [], ◌∷◌, ◌++◌, ◌==◌, if◌then◌else◌, bit_xor, length, get_or, set,
  take,
}
use vardoger.Prelude.Order.{Bytes}

pub record Rc4 : Type 0 where
  pub box : Bytes
  pub i : ℕ
  pub j : ℕ

-- `first`, `first + 1` and so on, `n` numbers.
abbrev pub count_from : ℕ → ℕ → Bytes
count_from first zero = []
count_from first (suc n) = first ∷ count_from (suc first) n

abbrev pub at : Bytes → ℕ → ℕ
at xs k = get_or xs k 0

-- `uint8_t t = S[a]; S[a] = S[b]; S[b] = t;`
unfoldable pub swap : Bytes → ℕ → ℕ → Bytes
swap s a b = set (set s a (at s b)) b (at s a)

-- `keylen ? key[k % keylen] : 0`
abbrev pub key_byte : Bytes → ℕ → ℕ
key_byte key k = if length key == 0 then 0 else at key (k % length key)

-- The second loop of `ksa`, from `k` on, `left` steps.
unfoldable pub mix : Bytes → ℕ → ℕ → ℕ → Bytes → Bytes
mix key zero k jj s = s
mix key (suc left) k jj s =
    let jj' = (jj + at s k + key_byte key k) % 256 in mix key left (k + 1) jj' (swap s k jj')

unfoldable pub ksa : Bytes → Rc4
ksa key = record { box = mix key 256 0 0 (count_from 0 256); i = 0; j = 0 }

-- One pass of the loop of `crypt`: the next state and the byte of the key stream.
unfoldable pub step : Rc4 → Rc4 × ℕ
step r =
    let i' = (r.i + 1) % 256 in
    let j' = (r.j + at r.box i') % 256 in
    let s = swap r.box i' j' in
    (record { box = s; i = i'; j = j' }, at s ((at s i' + at s j') % 256))

unfoldable pub crypt : Rc4 → Bytes → Rc4 × Bytes
crypt r [] = (r, [])
crypt r (b ∷ buf) =
    let (r', k) = step r in let (r'', out) = crypt r' buf in (r'', bit_xor b k ∷ out)

-- The state from the 0x102 bytes of the guest, and back.
unfoldable pub load_state : Bytes → Rc4
load_state g = record { box = take 256 g; i = at g 0x100; j = at g 0x101 }

unfoldable pub save_state : Rc4 → Bytes
save_state r = r.box ++ r.i ∷ r.j ∷ []

-- The one-shot function.
unfoldable pub rc4 : Bytes → Bytes → Bytes
rc4 key data' = (crypt (ksa key) data').1
