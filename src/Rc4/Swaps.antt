-- ===== src/Rc4/Swaps.antt =====
-- The S-box of RC4 stays a permutation of the bytes.
use vardoger.Prelude.{
  ℕ, zero, suc, ◌+◌, ◌%◌, ◌≤◌, ◌<◌, ◌≡◌, refl, sym, ap, ◌∙◌, inl, inr, [], ◌∷◌, ◌++◌, arith, ◌==◌,
  ==_iff, if◌then◌else◌, length, set, take, length-set, get_or-set_self, get_or-set_ne, take-append,
  Bool-cases,
}
use vardoger.Prelude.Order.{Bytes}
use vardoger.Rc4.{
  Rc4, at, swap, count_from, key_byte, mix, ksa, step, crypt, load_state, save_state,
}

-- The list holds 256 different bytes.
pub record IsBox (s : Bytes) : Type 0 where
  pub size : length s ≡ 256
  pub bound : (k : ℕ) → k < 256 → at s k < 256
  pub different : (k m : ℕ) → k < 256 → m < 256 → at s k ≡ at s m → k ≡ m

-- The box holds 256 different bytes, and the cursors are bytes.
pub record IsState (r : Rc4) : Type 0 where
  pub box : IsBox r.box
  pub i : r.i < 256
  pub j : r.j < 256

-- The position that a swap moves to `k`.
abbrev moved : ℕ → ℕ → ℕ → ℕ
moved a b k = if k == b then a else if k == a then b else k

at-set : (s : Bytes) (i v k : ℕ) → i < length s → at (set s i v) k ≡ (if k == i then v else at s k)
at-set s i v k h = elim (Bool-cases (k == i)) [
  | inl e ↦ rw e (ap (at (set s i v)) ((==_iff k i).0 e) ∙ get_or-set_self s i v 0 h)
  | inr ne ↦ rw ne (get_or-set_ne s i k v 0 (λ same. ground arith))
]

at-swap :
    (s : Bytes) (a b k : ℕ) → a < length s → b < length s → at (swap s a b) k ≡ at s (moved a b k)
unfolding swap
at-swap s a b k p q = ground (
  arith,
  at-set (set s a (at s b)) b (at s a) k (omega (arith, length-set s a (at s b))),
  at-set s a (at s b) k p,
)

moved_lt : (a b k : ℕ) → a < 256 → b < 256 → k < 256 → moved a b k < 256
moved_lt a b k p q h = ground arith

moved_inj : (a b k m : ℕ) → moved a b k ≡ moved a b m → k ≡ m
moved_inj a b k m h = ground arith

swap-IsBox : (s : Bytes) (a b : ℕ) → a < 256 → b < 256 → IsBox s → IsBox (swap s a b)
unfolding swap
swap-IsBox s a b p q box =
    let there = (λ (k : ℕ). at-swap s a b k (omega (arith, box.size)) (omega (arith, box.size))) in
    record {
      size = length-set (set s a (at s b)) b (at s a) ∙ (length-set s a (at s b) ∙ box.size);
      bound = λ k h. omega (arith, there k, box.bound (moved a b k) (moved_lt a b k p q h));
      different = λ k m h h' e. moved_inj a b k m (
          box.different (moved a b k) (moved a b m) (moved_lt a b k p q h) (moved_lt a b m p q h')
            (sym (there k) ∙ (e ∙ there m)));
    }

mix-IsBox :
    (key : Bytes) (left k jj : ℕ) (s : Bytes)
    → k + left ≤ 256
    → IsBox s
    → IsBox (mix key left k jj s)
unfolding mix
mix-IsBox key zero k jj s h box = box
mix-IsBox key (suc left) k jj s h box =
    let jj' = (jj + at s k + key_byte key k) % 256 in
    mix-IsBox key left (k + 1) jj' (swap s k jj') (omega arith)
      (swap-IsBox s k jj' (omega arith) (omega arith) box)

length-count_from : (first n : ℕ) → length (count_from first n) ≡ n
length-count_from first zero = refl
length-count_from first (suc n) = ap suc (length-count_from (suc first) n)

at-count_from : (first n k : ℕ) → k < n → at (count_from first n) k ≡ first + k
at-count_from first zero k h = absurd (omega arith)
at-count_from first (suc n) zero h = omega arith
at-count_from first (suc n) (suc k) h = omega (arith, at-count_from (suc first) n k (omega arith))

count_from-IsBox : IsBox (count_from 0 256)
count_from-IsBox = record {
  size = length-count_from 0 256;
  bound = λ k h. omega (arith, at-count_from 0 256 k h);
  different = λ k m h h' e. omega (arith, at-count_from 0 256 k h, at-count_from 0 256 m h');
}

-- The key schedule, of any key, gives a state with a box of 256 different bytes.
pub ksa-IsState : (key : Bytes) → IsState (ksa key)
unfolding ksa
ksa-IsState key = record {
  box = mix-IsBox key 256 0 0 (count_from 0 256) (omega arith) count_from-IsBox;
  i = omega arith;
  j = omega arith;
}

step-IsState : (r : Rc4) → IsState r → IsState (step r).0
unfolding step
step-IsState r st = record {
  box = swap-IsBox r.box _ _ (omega arith) (omega arith) st.box;
  i = omega arith;
  j = omega arith;
}

-- Crypting keeps a box of 256 different bytes and cursors that are bytes, whatever the buffer.
pub crypt-IsState : (r : Rc4) (buf : Bytes) → IsState r → IsState (crypt r buf).0
unfolding crypt
crypt-IsState r [] st = st
crypt-IsState r (b ∷ buf) st = crypt-IsState (step r).0 buf (step-IsState r st)

at-append : (s rest : Bytes) (q k : ℕ) → q ≡ length s + k → at (s ++ rest) q ≡ at rest k
at-append [] rest q k e = ap (at rest) (omega arith)
at-append (b ∷ s) rest zero k e = absurd (omega arith)
at-append (b ∷ s) rest (suc q) k e = at-append s rest q k (omega arith)

-- A state that is saved and loaded again is the state as it was.
pub load_state-save_state : (r : Rc4) → IsState r → load_state (save_state r) ≡ r
unfolding load_state save_state
load_state-save_state r st =
    let n = st.box.size in
    let tail = r.i ∷ r.j ∷ [] in
    let box_back : take 256 (r.box ++ tail) ≡ r.box =
      ap (λ (k : ℕ). take k (r.box ++ tail)) (sym n) ∙ take-append r.box tail in
    let i_back : at (r.box ++ tail) 0x100 ≡ r.i = at-append r.box tail 0x100 0 (omega arith) in
    let j_back : at (r.box ++ tail) 0x101 ≡ r.j = at-append r.box tail 0x101 1 (omega arith) in
    ap
      (λ (s : Bytes). record {
        box = s;
        i = at (r.box ++ tail) 0x100;
        j = at (r.box ++ tail) 0x101;
      })
      box_back
    ∙ (ap (λ (k : ℕ). record { box = r.box; i = k; j = at (r.box ++ tail) 0x101 }) i_back
        ∙ ap (λ (k : ℕ). record { box = r.box; i = r.i; j = k }) j_back)
