-- ===== src/Prelude/Splice.antt =====
-- Bytes written over a part of a list of bytes, and the byte that then stands at each place.
use vardoger.Prelude.{
  ℕ, zero, suc, ◌+◌, ◌-◌, ◌≤◌, ◌<◌, ◌≡◌, refl, ap, ◌∙◌, subst, ◌&&◌, [], ◌∷◌, ◌++◌, arith, leb, ltb,
  if◌then◌else◌, length, take, drop, get_or, length-append, length-take, length-drop, take-append,
  drop-append, drop_all, sym,
}
use vardoger.Prelude.Order.{Bytes}

-- The byte at an index, 0 beyond the end.
abbrev pub byte_at : Bytes → ℕ → ℕ
byte_at bytes i = get_or bytes i 0

pub byte_at-append :
    (a b : Bytes) (i : ℕ)
    → byte_at (a ++ b) i ≡ (if ltb i (length a) then byte_at a i else byte_at b (i - length a))
byte_at-append [] b i = ground arith
byte_at-append (x ∷ a) b zero = ground arith
byte_at-append (x ∷ a) b (suc i) = ground (arith, byte_at-append a b i)

pub byte_at_beyond : (a : Bytes) (i : ℕ) → length a ≤ i → byte_at a i ≡ 0
byte_at_beyond [] i h = refl
byte_at_beyond (x ∷ a) zero h = absurd (omega arith)
byte_at_beyond (x ∷ a) (suc i) h = byte_at_beyond a i (omega arith)

pub byte_at-take : (n : ℕ) (a : Bytes) (i : ℕ) → i < n → byte_at (take n a) i ≡ byte_at a i
byte_at-take zero a i h = absurd (omega arith)
byte_at-take (suc n) [] i h = refl
byte_at-take (suc n) (x ∷ a) zero h = refl
byte_at-take (suc n) (x ∷ a) (suc i) h = byte_at-take n a i (omega arith)

pub byte_at-drop : (n : ℕ) (a : Bytes) (i : ℕ) → byte_at (drop n a) i ≡ byte_at a (n + i)
byte_at-drop zero a i = ap (byte_at a) {x = i} {y = 0 + i} (omega arith)
byte_at-drop (suc n) [] i = refl
byte_at-drop (suc n) (x ∷ a) i =
    byte_at-drop n a i ∙ ap (byte_at (x ∷ a)) {x = suc (n + i)} {y = suc n + i} (omega arith)

-- `memcpy(&dst[pos], bytes, n)`
unfoldable pub overwrite : Bytes → ℕ → Bytes → Bytes
overwrite dst pos bytes = take pos dst ++ (bytes ++ drop (pos + length bytes) dst)

pub byte_at-overwrite :
    (dst : Bytes) (pos : ℕ) (bytes : Bytes) (i : ℕ)
    → pos + length bytes ≤ length dst
    → byte_at (overwrite dst pos bytes) i
      ≡ (if leb pos i && ltb i (pos + length bytes) then byte_at bytes (i - pos) else byte_at dst i)
unfolding overwrite
byte_at-overwrite dst pos bytes i fits =
    let front : length (take pos dst) ≡ pos = omega (arith, length-take pos dst) in
    rw
      (
        byte_at-append (take pos dst) (bytes ++ drop (pos + length bytes) dst) i,
        byte_at-append bytes (drop (pos + length bytes) dst) (i - length (take pos dst)),
        byte_at-drop (pos + length bytes) dst (i - length (take pos dst) - length bytes),
        front,
      )
      (ground (arith, byte_at-take pos dst i))

pub length-overwrite :
    (dst : Bytes) (pos : ℕ) (bytes : Bytes)
    → pos + length bytes ≤ length dst
    → length (overwrite dst pos bytes) ≡ length dst
unfolding overwrite
length-overwrite dst pos bytes fits = omega (
  arith,
  length-append (take pos dst) (bytes ++ drop (pos + length bytes) dst),
  length-append bytes (drop (pos + length bytes) dst),
  length-take pos dst,
  length-drop (pos + length bytes) dst,
)

-- The bytes from `pos` on are the written ones, then the old ones behind them.
pub drop-overwrite :
    (dst : Bytes) (pos : ℕ) (bytes : Bytes)
    → pos + length bytes ≤ length dst
    → take (length bytes) (drop pos (overwrite dst pos bytes)) ≡ bytes
unfolding overwrite
drop-overwrite dst pos bytes fits =
    let front : length (take pos dst) ≡ pos = omega (arith, length-take pos dst) in
    let rest = bytes ++ drop (pos + length bytes) dst in
    subst (λ (k : ℕ). take (length bytes) (drop k (take pos dst ++ rest)) ≡ bytes) front
      (rw (drop-append (take pos dst) rest) (take-append bytes (drop (pos + length bytes) dst)))

drop_behind : (xs ys : Bytes) (n : ℕ) → length xs ≤ n → drop n (xs ++ ys) ≡ drop (n - length xs) ys
drop_behind [] ys n h = let same : n - 0 ≡ n = omega arith in rw same
drop_behind (x ∷ xs) ys zero h = absurd (omega arith)
drop_behind (x ∷ xs) ys (suc n) h =
    let same : suc n - suc (length xs) ≡ n - length xs = omega arith in
    rw same (drop_behind xs ys n (omega arith))

pub drop-drop : (m n : ℕ) (xs : Bytes) → drop n (drop m xs) ≡ drop (m + n) xs
drop-drop zero n xs = let same : 0 + n ≡ n = omega arith in rw same
drop-drop (suc m) n [] = drop_all n [] (omega arith) ∙ sym (drop_all (suc m + n) [] (omega arith))
drop-drop (suc m) n (x ∷ xs) =
    let same : suc m + n ≡ suc (m + n) = omega arith in rw same (drop-drop m n xs)

-- What lies behind the written bytes stays.
pub drop_behind-overwrite :
    (dst : Bytes) (pos : ℕ) (bytes : Bytes) (n : ℕ)
    → pos + length bytes ≤ length dst
    → pos + length bytes ≤ n
    → drop n (overwrite dst pos bytes) ≡ drop n dst
unfolding overwrite
drop_behind-overwrite dst pos bytes n fits behind =
    let front : length (take pos dst) ≡ pos = omega (arith, length-take pos dst) in
    let rest = drop (pos + length bytes) dst in
    let same : pos + length bytes + (n - pos - length bytes) ≡ n = omega arith in
    rw (
      drop_behind (take pos dst) (bytes ++ rest) n (omega arith),
      front,
      drop_behind bytes rest (n - pos) (omega arith),
      drop-drop (pos + length bytes) (n - pos - length bytes) dst,
      same,
    )
