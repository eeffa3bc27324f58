-- ===== src/Prelude/Order.antt =====
-- The order on keys that `std::map` and `std::set` need, for numbers and for byte strings.
use vardoger.Prelude.{
  ℕ, ◌≡◌, refl, ◌↔◌, Bool, true, false, List, [], ◌∷◌, arith, ltb, ◌==◌, if◌then◌else◌, ==_iff,
}

pub record Key {ℓ} (K : Type ℓ) : Type ℓ where
  pub equal : K → K → Bool
  pub less : K → K → Bool
  pub equal_iff : (a b : K) → (equal a b ≡ true) ↔ (a ≡ b)
  pub less_irrefl : (a : K) → less a a ≡ false
  pub less_trans : (a b c : K) → less a b ≡ true → less b c ≡ true → less a c ≡ true
  pub less_total : (a b : K) → less a b ≡ false → equal a b ≡ false → less b a ≡ true

module _ {ℓ} {K : Type ℓ} ⦃key : Key K⦄ where
  pub equal_refl : (a : K) → key.equal a a ≡ true
  equal_refl a = (key.equal_iff a a).1 refl

  pub less_asymm : (a b : K) → key.less a b ≡ true → key.less b a ≡ false
  less_asymm a b h = ground (arith, key.less_trans a b a, key.less_irrefl a)

pub nat_less_trans : (a b c : ℕ) → ltb a b ≡ true → ltb b c ≡ true → ltb a c ≡ true
nat_less_trans a b c p q = ground arith

pub nat_less_total : (a b : ℕ) → ltb a b ≡ false → (a == b) ≡ false → ltb b a ≡ true
nat_less_total a b p q = ground arith

pub nat_less_irrefl : (a : ℕ) → ltb a a ≡ false
nat_less_irrefl a = ground arith

instance abbrev pub nat_key : Key ℕ
nat_key = record {
  equal = ◌==◌;
  less = ltb;
  equal_iff = ==_iff;
  less_irrefl = nat_less_irrefl;
  less_trans = nat_less_trans;
  less_total = nat_less_total;
}

-- A `std::string`, byte by byte.
abbrev pub Bytes : Type 0
Bytes = List ℕ

abbrev pub equal_bytes : Bytes → Bytes → Bool
equal_bytes [] [] = true
equal_bytes [] (y ∷ ys) = false
equal_bytes (x ∷ xs) [] = false
equal_bytes (x ∷ xs) (y ∷ ys) = if x == y then equal_bytes xs ys else false

-- `std::string`'s order compares unsigned bytes from the left.
abbrev pub less_bytes : Bytes → Bytes → Bool
less_bytes [] [] = false
less_bytes [] (y ∷ ys) = true
less_bytes (x ∷ xs) [] = false
less_bytes (x ∷ xs) (y ∷ ys) = if x == y then less_bytes xs ys else ltb x y

equal_bytes_sound : (a b : Bytes) → equal_bytes a b ≡ true → a ≡ b
equal_bytes_sound [] [] h = refl
equal_bytes_sound [] (y ∷ ys) h = ground arith
equal_bytes_sound (x ∷ xs) [] h = ground arith
equal_bytes_sound (x ∷ xs) (y ∷ ys) h = ground (arith, equal_bytes_sound xs ys)

equal_bytes_refl : (a : Bytes) → equal_bytes a a ≡ true
equal_bytes_refl [] = refl
equal_bytes_refl (x ∷ xs) = ground (arith, equal_bytes_refl xs)

pub equal_bytes_iff : (a b : Bytes) → (equal_bytes a b ≡ true) ↔ (a ≡ b)
equal_bytes_iff a b = (equal_bytes_sound a b, λ e. rw e (equal_bytes_refl b))

pub less_bytes_irrefl : (a : Bytes) → less_bytes a a ≡ false
less_bytes_irrefl [] = refl
less_bytes_irrefl (x ∷ xs) = ground (arith, less_bytes_irrefl xs)

pub less_bytes_trans :
    (a b c : Bytes) → less_bytes a b ≡ true → less_bytes b c ≡ true → less_bytes a c ≡ true
less_bytes_trans [] [] c p q = q
less_bytes_trans [] (y ∷ ys) [] p q = q
less_bytes_trans [] (y ∷ ys) (z ∷ zs) p q = refl
less_bytes_trans (x ∷ xs) [] c p q = ground arith
less_bytes_trans (x ∷ xs) (y ∷ ys) [] p q = q
less_bytes_trans (x ∷ xs) (y ∷ ys) (z ∷ zs) p q = ground (arith, less_bytes_trans xs ys zs)

pub less_bytes_total :
    (a b : Bytes) → less_bytes a b ≡ false → equal_bytes a b ≡ false → less_bytes b a ≡ true
less_bytes_total [] [] p q = ground arith
less_bytes_total [] (y ∷ ys) p q = ground arith
less_bytes_total (x ∷ xs) [] p q = refl
less_bytes_total (x ∷ xs) (y ∷ ys) p q = ground (arith, less_bytes_total xs ys)

instance abbrev pub bytes_key : Key Bytes
bytes_key = record {
  equal = equal_bytes;
  less = less_bytes;
  equal_iff = equal_bytes_iff;
  less_irrefl = less_bytes_irrefl;
  less_trans = less_bytes_trans;
  less_total = less_bytes_total;
}
