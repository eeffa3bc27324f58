-- ===== src/Vfs/Gives.antt =====
-- What a read of core/android/vfs.cpp gives, and when it throws.
use vardoger.Prelude.{
  ℕ, zero, suc, ◌+◌, ◌≤◌, ◌<◌, ◌≡◌, ap, ◌↔◌, false, some, [], ◌∷◌, ◌++◌, arith, ltb, min, length,
  take, drop, length-drop, take_all, drop_all, lt→ltb,
}
use vardoger.Prelude.Order.{Bytes, bytes_key, nat_key}
use vardoger.Prelude.Map.{Map, find, insert}
use vardoger.Vfs.{Vfs, Handle, read, ok, out_of_range, set_handle, data_of, available}

take-min : (n : ℕ) (xs : Bytes) → take (min n (length xs)) xs ≡ take n xs
take-min n xs = ground (
  arith,
  take_all n xs,
  take_all (min n (length xs)) xs,
  (λ (e : min n (length xs) ≡ n). ap (λ (k : ℕ). take k xs) e),
)

-- The bytes that a handle has still to give.
abbrev pub rest_of : Vfs → Handle → Bytes
rest_of v h = drop h.pos (data_of v h)

available-drop : (src : Bytes) (pos : ℕ) → available src pos ≡ length (drop pos src)
unfolding available
available-drop src pos = ground (arith, length-drop pos src)

-- A read at a position within the data.
pub read-inside :
    (v : Vfs) (fd : ℕ) (out : Bytes) (n : ℕ) (h : Handle)
    → find fd v.handles ≡ some h
    → h.pos ≤ length (data_of v h)
    → read v fd out n
      ≡ ok (
        set_handle v fd (record h { pos = h.pos + min n (length (rest_of v h)) }),
        take n (rest_of v h),
        min n (length (rest_of v h)),
      )
unfolding read
read-inside v fd out n h e within =
    let src = data_of v h in
    let inside : ltb (length src) h.pos ≡ false = ground arith in
    rw (e, inside, read)
      (rw (available-drop src h.pos) (
        ap
          (λ (b : Bytes). ok (
            set_handle v fd (record h { pos = h.pos + min n (length (rest_of v h)) }),
            b,
            min n (length (rest_of v h)),
          ))
          (take-min n (rest_of v h))))

pub read-outside :
    (v : Vfs) (fd : ℕ) (out : Bytes) (n : ℕ) (h : Handle)
    → find fd v.handles ≡ some h
    → length (data_of v h) < h.pos
    → read v fd out n ≡ out_of_range
unfolding read
read-outside v fd out n h e beyond = rw (e, lt→ltb _ _ beyond, read)

-- `read` on an open descriptor throws exactly when the position is beyond the end of the data.
pub read-out_of_range_iff :
    (v : Vfs) (fd : ℕ) (out : Bytes) (n : ℕ) (h : Handle)
    → find fd v.handles ≡ some h
    → (read v fd out n ≡ out_of_range) ↔ (length (data_of v h) < h.pos)
read-out_of_range_iff v fd out n h e =
    (λ t. ground (arith, read-inside v fd out n h e), read-outside v fd out n h e)

pub insert-insert :
    (k : ℕ) (a b : Handle) (m : Map ℕ Handle) → insert k b (insert k a m) ≡ insert k b m
unfolding insert
insert-insert k a b [] = ground arith
insert-insert k a b ((j, w) ∷ m) = ground (arith, insert-insert k a b m)

pub take-drop_add : (n m : ℕ) (xs : Bytes) → take n xs ++ take m (drop n xs) ≡ take (n + m) xs
take-drop_add zero m xs = ap (λ (k : ℕ). take k xs) {x = m} {y = 0 + m} (omega arith)
take-drop_add (suc n) m [] = ground (arith, take_all {A = ℕ} m [], take_all {A = ℕ} (suc n + m) [])
take-drop_add (suc n) m (x ∷ xs) =
    let e : suc n + m ≡ suc (n + m) = omega arith in rw e (ap (◌∷◌ x) (take-drop_add n m xs))

pub drop-drop : (n m : ℕ) (xs : Bytes) → drop m (drop n xs) ≡ drop (n + m) xs
drop-drop zero m xs = ap (λ (k : ℕ). drop k xs) {x = m} {y = 0 + m} (omega arith)
drop-drop (suc n) m [] = ground (arith, drop_all {A = ℕ} m [], drop_all {A = ℕ} (suc n + m) [])
drop-drop (suc n) m (x ∷ xs) =
    let e : suc n + m ≡ suc (n + m) = omega arith in rw e (drop-drop n m xs)
