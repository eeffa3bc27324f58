-- ===== src/Devirt/Signatures.antt =====
-- Signatures of methods, and the body of a method without recovered code: sig_ret, minimal_body and
-- sig_ins of devirt_rebuild.hpp.
use vardoger.Prelude.{
  ℕ, ◌+◌, ◌%◌, Bool, true, false, ◌||◌, Option, none, some, List, [], ◌∷◌, if◌then◌else◌, ◌==◌, max,
}
use vardoger.Prelude.Order.{Bytes, bytes_key, equal_bytes}
use vardoger.Prelude.Text.{text}

-- What stands behind the first byte `c`, and in front of it.
unfoldable pub after : ℕ → Bytes → Option Bytes
after c [] = none
after c (x ∷ xs) = elim (x == c) [ true ↦ some xs | false ↦ after c xs ]

unfoldable pub before : ℕ → Bytes → Option Bytes
before c [] = none
before c (x ∷ xs) = elim (x == c) [
  | true ↦ some []
  | false ↦ elim (before c xs) [ none ↦ none | some ys ↦ some (x ∷ ys) ]
]

-- The descriptor behind the parameters, if there is one.
unfoldable pub sig_ret : Bytes → Bytes
sig_ret sig = elim (after b')' sig) [
  | none ↦ text "V"
  | some [] ↦ text "V"
  | some (c ∷ cs) ↦ c ∷ cs
]

abbrev pub u16_mod : ℕ
u16_mod = 0x10000

-- The loop of sig_ins over the parameters, with `n` registers so far, and its two inner loops: to the
-- end of a class's name, and over the dimensions of an array.
unfoldable mutual
  pub count : ℕ → Bytes → ℕ
  count n [] = n
  count n (c ∷ cs) = elim (c == b'L') [
    | true ↦ count_name n cs
    | false ↦ elim (c == b'[') [
      | true ↦ count_array n cs
      | false ↦ elim (c == b'J' || c == b'D') [
        | true ↦ count ((n + 2) % u16_mod) cs
        | false ↦ count ((n + 1) % u16_mod) cs
      ]
    ]
  ]

  pub count_name : ℕ → Bytes → ℕ
  count_name n [] = (n + 1) % u16_mod
  count_name n (c ∷ cs) = elim (c == b';') [
    | true ↦ count ((n + 1) % u16_mod) cs
    | false ↦ count_name n cs
  ]

  pub count_array : ℕ → Bytes → ℕ
  count_array n [] = (n + 1) % u16_mod
  count_array n (c ∷ cs) = elim (c == b'[') [
    | true ↦ count_array n cs
    | false ↦ elim (c == b'L') [ true ↦ count_name n cs | false ↦ count ((n + 1) % u16_mod) cs ]
  ]

-- `params`
unfoldable pub params_of : Bytes → Bytes
params_of [] = []
params_of (c ∷ cs) =
    if c == b'(' then elim (before b')' cs) [ none ↦ [] | some params ↦ params ] else []

unfoldable pub sig_ins : Bytes → Bool → ℕ
sig_ins sig is_static = count (if is_static then 0 else 1) (params_of sig)

abbrev pub is_ref : Bytes → Bool
is_ref [] = false
is_ref (c ∷ cs) = c == b'L' || c == b'['

-- The number of registers, and the code.
unfoldable pub minimal_body : Bytes → ℕ → ℕ × List ℕ
minimal_body ret ins =
    if equal_bytes ret (text "V")
    then (max ins 1, 0x000E ∷ [])
    else if equal_bytes ret (text "J") || equal_bytes ret (text "D")
    then (max ins 2, 0x0016 ∷ 0x0000 ∷ 0x0010 ∷ [])
    else if is_ref ret
    then (max ins 1, 0x0012 ∷ 0x0011 ∷ [])
    else (max ins 1, 0x0012 ∷ 0x000F ∷ [])
