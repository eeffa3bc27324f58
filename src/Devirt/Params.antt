-- ===== src/Devirt/Params.antt =====
-- What sig_ins and sig_ret of devirt_rebuild.hpp find in a signature that is built from descriptors.
use vardoger.Prelude.{
  ℕ, zero, suc, ◌+◌, ◌%◌, ◌<◌, ◌≡◌, ◌≢◌, refl, ◌∙◌, Bool, true, false, ◌||◌, some, List, [], ◌∷◌,
  ◌++◌, arith, if◌then◌else◌, ◌==◌, append_assoc,
}
use vardoger.Prelude.Order.{Bytes}
use vardoger.Devirt.Signatures.{
  after, before, sig_ret, u16_mod, count, count_name, count_array, params_of, sig_ins,
}

-- The type of a parameter: a primitive type's letter, or a class.
pub data Descriptor : Type 0 where
  primitive : ℕ → Descriptor
  class : Bytes → Descriptor

-- A parameter, with the number of its array dimensions.
pub record Param : Type 0 where
  pub dims : ℕ
  pub element : Descriptor

-- Every byte is none of the two.
abbrev Avoids : ℕ → ℕ → Bytes → Type 0
Avoids c c' [] = Unit {0}
Avoids c c' (x ∷ xs) = (x ≢ c) × (x ≢ c') × Avoids c c' xs

abbrev pub IsDescriptor : Descriptor → Type 0
IsDescriptor (primitive c) = (c ≢ b'L') × (c ≢ b'[') × (c ≢ b')')
IsDescriptor (class name) = Avoids b';' b')' name

abbrev pub AllDescriptors : List Param → Type 0
AllDescriptors [] = Unit {0}
AllDescriptors (p ∷ ps) = IsDescriptor p.element × AllDescriptors ps

unfoldable pub descriptor : Descriptor → Bytes
descriptor (primitive c) = c ∷ []
descriptor (class name) = b'L' ∷ name ++ (b';' ∷ [])

unfoldable pub dimensions : ℕ → Bytes → Bytes
dimensions zero bytes = bytes
dimensions (suc n) bytes = b'[' ∷ dimensions n bytes

unfoldable pub params : List Param → Bytes
params [] = []
params (p ∷ ps) = dimensions p.dims (descriptor p.element) ++ params ps

abbrev pub signature : List Param → Bytes → Bytes
signature ps ret = b'(' ∷ params ps ++ (b')' ∷ ret)

-- Two registers for a long and a double.
abbrev pub registers_of : Descriptor → ℕ
registers_of (primitive c) = if c == b'J' || c == b'D' then 2 else 1
registers_of (class name) = 1

abbrev pub width : ℕ → Descriptor → ℕ
width zero e = registers_of e
width (suc dims) e = 1

unfoldable pub registers : List Param → ℕ
registers [] = 0
registers (p ∷ ps) = width p.dims p.element + registers ps

name_lem :
    (n : ℕ) (name rest : Bytes)
    → Avoids b';' b')' name
    → count_name n (name ++ (b';' ∷ rest)) ≡ count ((n + 1) % u16_mod) rest
unfolding count
name_lem n [] rest _ = refl
name_lem n (x ∷ name) rest (fresh, _, avoids) =
    rw (count_name, (let no : (x == b';') ≡ false = ground arith in no))
      (name_lem n name rest avoids)

array_lem :
    (n dims : ℕ) (e : Descriptor) (rest : Bytes)
    → IsDescriptor e
    → count_array n (dimensions dims (descriptor e) ++ rest) ≡ count ((n + 1) % u16_mod) rest
unfolding count dimensions descriptor
array_lem n zero (primitive c) rest (not_class, not_array, _) =
    rw
      (
        count_array,
        let no : (c == b'[') ≡ false = ground arith in no,
        let no : (c == b'L') ≡ false = ground arith in no,
      )
      refl
array_lem n zero (class name) rest avoids =
    rw (append_assoc name (b';' ∷ []) rest) (name_lem n name rest avoids)
array_lem n (suc dims) e rest ok = array_lem n dims e rest ok

param_lem :
    (n dims : ℕ) (e : Descriptor) (rest : Bytes)
    → IsDescriptor e
    → count n (dimensions dims (descriptor e) ++ rest) ≡ count ((n + width dims e) % u16_mod) rest
unfolding count dimensions descriptor
param_lem n zero (primitive c) rest (not_class, not_array, _) =
    rw
      (
        count,
        let no : (c == b'L') ≡ false = ground arith in no,
        let no : (c == b'[') ≡ false = ground arith in no,
      )
      (by_width (c == b'J' || c == b'D'))
  where
    by_width :
        (wide : Bool)
        → (elim wide [
          | true ↦ count ((n + 2) % u16_mod) rest
          | false ↦ count ((n + 1) % u16_mod) rest
        ])
          ≡ count ((n + (if wide then 2 else 1)) % u16_mod) rest
    by_width true = refl
    by_width false = refl
param_lem n zero (class name) rest avoids =
    rw (append_assoc name (b';' ∷ []) rest) (name_lem n name rest avoids)
param_lem n (suc dims) e rest ok = array_lem n dims e rest ok

count-params :
    (n : ℕ) (ps : List Param)
    → AllDescriptors ps
    → n < u16_mod
    → count n (params ps) ≡ (n + registers ps) % u16_mod
unfolding count params registers
count-params n [] _ small = omega arith
count-params n (p ∷ ps) (ok, all) small =
    let w = width p.dims p.element in
    let sum : ((n + w) % u16_mod + registers ps) % u16_mod ≡ (n + (w + registers ps)) % u16_mod =
      omega arith in
    param_lem n p.dims p.element (params ps) ok
    ∙ (count-params ((n + w) % u16_mod) ps all (omega arith) ∙ sum)

-- No closing parenthesis.
abbrev Open : Bytes → Type 0
Open [] = Unit {0}
Open (x ∷ xs) = (x ≢ b')') × Open xs

Open-append : (a b : Bytes) → Open a → Open b → Open (a ++ b)
Open-append [] b open_a open_b = open_b
Open-append (x ∷ a) b (other, open_a) open_b = (other, Open-append a b open_a open_b)

name-Open : (name : Bytes) → Avoids b';' b')' name → Open name
name-Open [] _ = tt
name-Open (x ∷ name) (_, other, avoids) = (other, name-Open name avoids)

param-Open : (dims : ℕ) (e : Descriptor) → IsDescriptor e → Open (dimensions dims (descriptor e))
unfolding dimensions descriptor
param-Open zero (primitive c) (_, _, other) = (other, tt)
param-Open zero (class name) avoids =
    (omega arith, Open-append name (b';' ∷ []) (name-Open name avoids) (omega arith, tt))
param-Open (suc dims) e ok = (omega arith, param-Open dims e ok)

params-Open : (ps : List Param) → AllDescriptors ps → Open (params ps)
unfolding params
params-Open [] _ = tt
params-Open (p ∷ ps) (ok, all) =
    Open-append (dimensions p.dims (descriptor p.element)) (params ps)
      (param-Open p.dims p.element ok) (params-Open ps all)

before-Open : (a rest : Bytes) → Open a → before b')' (a ++ (b')' ∷ rest)) ≡ some a
unfolding before
before-Open [] rest _ = refl
before-Open (x ∷ a) rest (other, open_a) =
    rw (before, (let no : (x == b')') ≡ false = ground arith in no), before-Open a rest open_a) refl

after-Open : (a rest : Bytes) → Open a → after b')' (a ++ (b')' ∷ rest)) ≡ some rest
unfolding after
after-Open [] rest _ = refl
after-Open (x ∷ a) rest (other, open_a) =
    rw (after, (let no : (x == b')') ≡ false = ground arith in no)) (after-Open a rest open_a)

-- For a signature that is made of descriptors, with a descriptor `c ∷ ret` of what it returns,
-- `sig_ins` gives the number of registers of the parameters, modulo 2^16: two for a long or a
-- double that is not in an array, one for any other, and one more for the object of a method that
-- is not static; and `sig_ret` gives the descriptor of what it returns.
pub sig_ins-signature :
    (ps : List Param) (c : ℕ) (ret : Bytes) (is_static : Bool)
    → AllDescriptors ps
    → (sig_ins (signature ps (c ∷ ret)) is_static
        ≡ ((if is_static then 0 else 1) + registers ps) % u16_mod)
      × (sig_ret (signature ps (c ∷ ret)) ≡ c ∷ ret)
unfolding sig_ins sig_ret params_of
sig_ins-signature ps c ret is_static all = (
  rw (before-Open (params ps) (c ∷ ret) (params-Open ps all))
      (count-params (if is_static then 0 else 1) ps all (small is_static)),
  rw (sig_ret, after-Open (b'(' ∷ params ps) (c ∷ ret) (omega arith, params-Open ps all)) refl,
)
  where
    small : (is_static : Bool) → (if is_static then 0 else 1) < u16_mod
    small true = omega arith
    small false = omega arith
