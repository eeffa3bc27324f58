-- ===== src/Dex/Sha1.antt =====
-- SHA-1, as `DexRebuilder::sha1` computes it.
use vardoger.Prelude.{
  ◌≡◌, refl, ℕ, zero, suc, ◌+◌, ◌-◌, ◌*◌, ◌/◌, ◌%◌, ◌^◌, List, [], ◌∷◌, ◌++◌, ltb, if◌then◌else◌,
  bit_and, bit_or, bit_xor, length, get_or, replicate, take, drop,
}
use vardoger.Prelude.Order.{Bytes}
use vardoger.Dex.{u32_mod}

-- `(v << c) | (v >> (32 - c))`
abbrev pub rol : ℕ → ℕ → ℕ
rol v c = bit_or (v * 2 ^ c % u32_mod) (v / 2 ^ (32 - c))

-- A word of a block, high byte first.
abbrev big_word : Bytes → ℕ → ℕ
big_word p i =
    bit_or
      (bit_or (bit_or (get_or p (i * 4) 0 * 0x1000000) (get_or p (i * 4 + 1) 0 * 0x10000))
        (get_or p (i * 4 + 2) 0 * 0x100))
      (get_or p (i * 4 + 3) 0)

words : ℕ → ℕ → Bytes → List ℕ
words zero i p = []
words (suc left) i p = big_word p i ∷ words left (i + 1) p

-- The words from 16 on; the list holds those before, newest first.
extend : ℕ → List ℕ → List ℕ
extend zero w = w
extend (suc left) w = extend left (
    rol (bit_xor (bit_xor (bit_xor (get_or w 2 0) (get_or w 7 0)) (get_or w 13 0)) (get_or w 15 0))
      1
    ∷ w)

reverse_onto : List ℕ → List ℕ → List ℕ
reverse_onto [] acc = acc
reverse_onto (x ∷ xs) acc = reverse_onto xs (x ∷ acc)

pub record Digest : Type 0 where
  pub a : ℕ
  pub b : ℕ
  pub c : ℕ
  pub d : ℕ
  pub e : ℕ

-- `f` and `k` of round `i`; `~b` is taken on 32 bits.
mix_of : ℕ → Digest → ℕ
mix_of i h =
    if ltb i 20
    then bit_or (bit_and h.b h.c) (bit_and (0xFFFFFFFF - h.b) h.d)
    else if ltb i 40
    then bit_xor (bit_xor h.b h.c) h.d
    else if ltb i 60
    then bit_or (bit_or (bit_and h.b h.c) (bit_and h.b h.d)) (bit_and h.c h.d)
    else bit_xor (bit_xor h.b h.c) h.d

constant_of : ℕ → ℕ
constant_of i =
    if ltb i 20
    then 0x5A827999
    else if ltb i 40
    then 0x6ED9EBA1
    else if ltb i 60
    then 0x8F1BBCDC
    else 0xCA62C1D6

rounds : ℕ → List ℕ → Digest → Digest
rounds i [] h = h
rounds i (w ∷ ws) h = rounds (i + 1) ws (record {
  a = (rol h.a 5 + mix_of i h + h.e + constant_of i + w) % u32_mod;
  b = h.a;
  c = rol h.b 30;
  d = h.c;
  e = h.d;
})

-- One block of 64 bytes.
unfoldable pub block : Digest → Bytes → Digest
unfolding words extend reverse_onto mix_of constant_of rounds
block h p =
    let w = reverse_onto (extend 64 (reverse_onto (words 16 0 p) [])) [] in
    let r = rounds 0 w h in
    record {
      a = (h.a + r.a) % u32_mod;
      b = (h.b + r.b) % u32_mod;
      c = (h.c + r.c) % u32_mod;
      d = (h.d + r.d) % u32_mod;
      e = (h.e + r.e) % u32_mod;
    }

-- The low `n` bytes of a number, high byte first.
big_bytes : ℕ → ℕ → Bytes
big_bytes zero v = []
big_bytes (suc n) v = v / 0x100 ^ n % 0x100 ∷ big_bytes n v

-- The message, a byte 0x80, zeros up to 56 bytes in a block, and the length in bits.
unfoldable pub padded : Bytes → Bytes
unfolding big_bytes
padded data' =
    data'
    ++ 0x80
      ∷ (replicate ((56 + 64 - (length data' + 1) % 64) % 64) 0 ++ big_bytes 8 (length data' * 8))

blocks : ℕ → Bytes → Digest → Digest
blocks zero m h = h
blocks (suc left) m h = blocks left (drop 64 m) (block h (take 64 m))

unfoldable pub sha1 : Bytes → Bytes
unfolding blocks padded big_bytes
sha1 data' =
    let m = padded data' in
    let start : Digest = record {
      a = 0x67452301;
      b = 0xEFCDAB89;
      c = 0x98BADCFE;
      d = 0x10325476;
      e = 0xC3D2E1F0;
    } in
    let h = blocks (length m / 64) m start in
    big_bytes 4 h.a
    ++ (big_bytes 4 h.b ++ (big_bytes 4 h.c ++ (big_bytes 4 h.d ++ big_bytes 4 h.e)))

-- A signature has 20 bytes.
pub sha1-length : (data' : Bytes) → length (sha1 data') ≡ 20
unfolding sha1 big_bytes
sha1-length data' = refl
