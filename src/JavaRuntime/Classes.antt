-- ===== src/JavaRuntime/Classes.antt =====
-- The class hierarchy and the registered natives of the Java runtime.
use mathlib.Core.Option
use vardoger.Prelude.{
  ℕ, zero, suc, ◌<◌, ◌≡◌, ◌⊎◌, ◌↔◌, refl, ap, ◌∙◌, inl, inr, true, false, ◌||◌, Option, none, some,
  List, [], ◌∷◌, ◌++◌, arith, Bool-cases, Option-cases,
}
use vardoger.Prelude.Order.{Bytes, nat_key, bytes_key, equal_bytes, equal_bytes_iff}
use vardoger.Prelude.Map.{Map, find, find-insert}
use vardoger.Prelude.Act.{◌>>=◌}
use vardoger.JavaRuntime.{
  Native, Java, Arena, alloc, member_id, get_method_id, class_name, object_class,
}
use vardoger.JavaRuntime.Methods.{
  is_empty, walk, set_superclass, is_subclass, first_native, enter_native, lookup_native,
  register_native,
}

-- The class `k` steps up from `c`.
abbrev pub up : Map Bytes Bytes → ℕ → Bytes → Option Bytes
up supers zero c = some c
up supers (suc k) c = elim (find c supers) [ none ↦ none | some d ↦ up supers k d ]

-- No superclass has an empty name.
abbrev pub NoEmpty : Map Bytes Bytes → Type 0
NoEmpty supers = (c d : Bytes) → find c supers ≡ some d → is_empty d ≡ false

bytes_eq : {a b : Bytes} → ◌≡◌ {A = Option Bytes} (some a) (some b) → a ≡ b
bytes_eq h = ground arith

walk_sound :
    (supers : Map Bytes Bytes) (left : ℕ) (c sup : Bytes)
    → walk supers left c sup ≡ true
    → (k : ℕ) × (k < left) × (up supers k c ≡ some sup)
unfolding walk
walk_sound supers zero c sup h = cc
walk_sound supers (suc left) c sup h = elim (Bool-cases (is_empty c)) [
  | inl e ↦ absurd (let no' : false ≡ true = rw e at h in cc)
  | inr e ↦ elim (Bool-cases (equal_bytes c sup)) [
    | inl same ↦ (0, omega arith, ap some ((equal_bytes_iff c sup).0 same))
    | inr other ↦ elim (Option-cases (find c supers)) [
      | inl n ↦ absurd (let no' : false ≡ true = rw (e, other, n, walk) at h in cc)
      | inr (d, n) ↦
          let (k, lt, at) = walk_sound supers left d sup (rw (e, other, n, walk) at h) in
          (suc k, omega arith, rw (n, up) at)
    ]
  ]
]

walk_complete :
    (supers : Map Bytes Bytes) (left k : ℕ) (c sup : Bytes)
    → NoEmpty supers
    → is_empty c ≡ false
    → k < left
    → up supers k c ≡ some sup
    → walk supers left c sup ≡ true
unfolding walk
walk_complete supers zero k c sup ne e lt at = absurd (omega arith)
walk_complete supers (suc left) zero c sup ne e lt at =
    let same : equal_bytes c sup ≡ true = (equal_bytes_iff c sup).1 (bytes_eq at) in rw (e, same)
walk_complete supers (suc left) (suc k) c sup ne e lt at = elim (Bool-cases (equal_bytes c sup)) [
  | inl same ↦ rw (e, same)
  | inr other ↦ elim (Option-cases (find c supers)) [
    | inl n ↦ absurd (let no' : none ≡ some sup = rw (n, up) at at in cc)
    | inr (d, n) ↦
        rw (e, other, n, walk)
          (walk_complete supers left k d sup ne (ne c d n) (omega arith) (rw (n, up) at at))
  ]
]

module _ {ℓ} {M H : Type ℓ} where
  -- With a named class and no empty superclass names, `is_subclass` holds exactly of the class
  -- itself, of java/lang/Object, and of a class that is fewer than 64 steps up.
  pub is_subclass_iff :
      (s : Java M H) (sub sup : Bytes)
      → NoEmpty s.superclass
      → is_empty sub ≡ false
      → (is_subclass s sub sup ≡ true)
        ↔ ((sup ≡ object_class) ⊎ ((k : ℕ) × (k < 64) × (up s.superclass k sub ≡ some sup)))
  unfolding is_subclass
  is_subclass_iff s sub sup ne e = (
    λ h. elim (Bool-cases (equal_bytes sub sup)) [
      | inl same ↦ inr (0, omega arith, ap some ((equal_bytes_iff sub sup).0 same))
      | inr other ↦ elim (Bool-cases (equal_bytes sup object_class)) [
        | inl top ↦ inl ((equal_bytes_iff sup object_class).0 top)
        | inr below ↦ inr (walk_sound s.superclass 64 sub sup (rw (other, below) at h))
      ]
    ],
    λ h. elim (Bool-cases (equal_bytes sub sup || equal_bytes sup object_class)) [
      | inl quick ↦ rw quick
      | inr slow ↦ elim h [
        | inl top ↦ ground (arith, equal_bytes_iff sup object_class)
        | inr (k, lt, at) ↦ rw slow (walk_complete s.superclass 64 k sub sup ne e lt at)
      ]
    ],
  )

  -- `set_superclass` keeps the names of superclasses not empty.
  pub set_superclass-NoEmpty :
      (s : Java M H) (cls super : Bytes)
      → NoEmpty s.superclass
      → NoEmpty (set_superclass s cls super).superclass
  unfolding set_superclass
  set_superclass-NoEmpty s cls super ne c d e =
      ground (arith, find-insert c cls super s.superclass, ne c d)

first_native-append :
    (cls name : Bytes) (l rest : List Native) (fn : ℕ)
    → first_native cls name l ≡ some fn
    → first_native cls name (l ++ rest) ≡ some fn
unfolding first_native
first_native-append cls name [] rest fn h = cc
first_native-append cls name (n ∷ l) rest fn h =
    ground (arith, first_native-append cls name l rest fn)

first_native-new :
    (cls name : Bytes) (l : List Native) (n : Native)
    → n.cls ≡ cls
    → n.name ≡ name
    → first_native cls name l ≡ none
    → first_native cls name (l ++ n ∷ []) ≡ some n.fn
unfolding first_native
first_native-new cls name [] n c e h =
    ground (arith, equal_bytes_iff n.cls cls, equal_bytes_iff n.name name)
first_native-new cls name (m ∷ l) n c e h = ground (arith, first_native-new cls name l n c e)

module _ {ℓ} {M H : Type ℓ} (arena : Arena M) where
  lookup_native-some :
      (s : Java M H) (cls name : Bytes) (fn : ℕ)
      → first_native cls name s.registered ≡ some fn
      → lookup_native s cls name ≡ fn
  unfolding lookup_native
  lookup_native-some s cls name fn e = rw (e, lookup_native)

  member_id-registered :
      (s : Java M H) (clazz : ℕ) (name sig : Bytes)
      → (get_method_id arena clazz name sig false s).0.registered ≡ s.registered
  unfolding get_method_id member_id alloc
  member_id-registered s clazz name sig = ground arith

  enter_native-registered :
      (s : Java M H) (p : Java M H × Option ℕ) (clazz : ℕ) (name sig : Bytes) (fn : ℕ)
      → (((λ (t : Java M H). p) >>= enter_native clazz name sig fn) s).1 ≡ some tt
      → (((λ (t : Java M H). p) >>= enter_native clazz name sig fn) s).0.registered
        ≡ p.0.registered
          ++ record { cls = class_name p.0 clazz; name = name; sig = sig; fn = fn } ∷ []
  enter_native-registered s (t, none) clazz name sig fn e = cc
  enter_native-registered s (t, some mid) clazz name sig fn e = refl

  -- What the table of natives is after `register_native`, unless it throws.
  register_native-registered :
      (s : Java M H) (clazz : ℕ) (name sig : Bytes) (fn : ℕ)
      → (register_native arena clazz name sig fn s).1 ≡ some tt
      → (register_native arena clazz name sig fn s).0.registered
        ≡ s.registered
          ++ record {
            cls = class_name (get_method_id arena clazz name sig false s).0 clazz;
            name = name;
            sig = sig;
            fn = fn;
          }
            ∷ []
  unfolding register_native
  register_native-registered s clazz name sig fn e =
      enter_native-registered s (get_method_id arena clazz name sig false s) clazz name sig fn e
      ∙ ap
          (λ (l : List Native).
            l
            ++ record {
              cls = class_name (get_method_id arena clazz name sig false s).0 clazz;
              name = name;
              sig = sig;
              fn = fn;
            }
              ∷ [])
          (member_id-registered s clazz name sig)

  -- After `register_native` of a method that has no native yet under the name of its class,
  -- `lookup_native` gives the function; of one that has, it gives the one that was there first.
  pub lookup_native-register_native :
      (s : Java M H) (clazz : ℕ) (cls name sig : Bytes) (fn : ℕ)
      → class_name (get_method_id arena clazz name sig false s).0 clazz ≡ cls
      → (register_native arena clazz name sig fn s).1 ≡ some tt
      → lookup_native (register_native arena clazz name sig fn s).0 cls name
        ≡ Option.get_or (first_native cls name s.registered) fn
  lookup_native-register_native s clazz cls name sig fn same e =
      let s' = (register_native arena clazz name sig fn s).0 in
      let n : Native = record {
        cls = class_name (get_method_id arena clazz name sig false s).0 clazz;
        name = name;
        sig = sig;
        fn = fn;
      } in
      let after = ap (first_native cls name) (register_native-registered s clazz name sig fn e) in
      elim (Option-cases (first_native cls name s.registered)) [
        | inl e' ↦ rw e' (
            lookup_native-some s' cls name fn
              (after ∙ first_native-new cls name s.registered n same refl e'))
        | inr (old, e') ↦ rw e' (
            lookup_native-some s' cls name old
              (after ∙ first_native-append cls name s.registered (n ∷ []) old e'))
      ]
