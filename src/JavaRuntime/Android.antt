-- ===== src/JavaRuntime/Android.antt =====
-- `JavaRuntime::register_android_hierarchy`, and the pending exception and the observer of byte
-- arrays of java_runtime.hpp.
use vardoger.Prelude.{
  ℕ, zero, suc, ◌<◌, ◌≡◌, inl, inr, sym, refl, ◌∙◌, true, false, ◌||◌, Option, none, some, List, [],
  ◌∷◌, if◌then◌else◌, arith, Bool-cases, Option-cases,
}
use vardoger.Prelude.Order.{Bytes, bytes_key, equal_bytes, equal_bytes_iff}
use vardoger.Prelude.Map.{Map, find, find-insert}
use vardoger.Prelude.Text.{text}
use vardoger.JavaRuntime.{Java, object_class}
use vardoger.JavaRuntime.Methods.{is_empty, walk, set_superclass, is_subclass}

-- The classes of the list, each with its superclass, in the order of the calls.
abbrev android_classes : List (Bytes × Bytes)
android_classes =
    (text "android/content/ContextWrapper", text "android/content/Context")
    ∷ (text "android/app/Application", text "android/content/ContextWrapper")
    ∷ (text "android/app/Service", text "android/content/ContextWrapper")
    ∷ (text "android/app/Activity", text "android/content/ContextWrapper")
    ∷ (text "dalvik/system/BaseDexClassLoader", text "java/lang/ClassLoader")
    ∷ (text "dalvik/system/PathClassLoader", text "dalvik/system/BaseDexClassLoader")
    ∷ (text "dalvik/system/DexClassLoader", text "dalvik/system/BaseDexClassLoader")
    ∷ (text "com/stub/StubApp", text "android/app/Application")
    ∷ []

-- `observer` changes a state of the host, which the class does not have.
abbrev notify_bytes {ℓ} : {O : Type ℓ} → Option (O → Bytes → Bytes → O) → O → Bytes → Bytes → O
notify_bytes none o b src = o
notify_bytes (some observer) o b src = observer o b src

module _ {ℓ} {M H : Type ℓ} where
  -- One call of `set_superclass` after another.
  unfoldable pub set_superclasses : List (Bytes × Bytes) → Java M H → Java M H
  set_superclasses [] s = s
  set_superclasses ((cls, super) ∷ rest) s = set_superclasses rest (set_superclass s cls super)

  unfoldable pub register_android_hierarchy : Java M H → Java M H
  register_android_hierarchy s = set_superclasses android_classes s

  abbrev set_pending_exception : Java M H → ℕ → Java M H
  set_pending_exception s exc = record s { pending_exc = exc }

  abbrev clear_pending_exception : Java M H → Java M H
  clear_pending_exception s = record s { pending_exc = 0 }

-- The superclass that the list gives: that of its last line for the class.
unfoldable pub listed : List (Bytes × Bytes) → Bytes → Option Bytes
listed [] c = none
listed ((cls, super) ∷ rest) c = elim (listed rest c) [
  | some d ↦ some d
  | none ↦ if equal_bytes c cls then some super else none
]

-- The class `k` steps up from `c` in the list.
unfoldable pub listed_up : List (Bytes × Bytes) → ℕ → Bytes → Option Bytes
listed_up l zero c = some c
listed_up l (suc k) c = elim (listed l c) [ none ↦ none | some d ↦ listed_up l k d ]

-- What `set_superclass` does not refuse: names that are not empty, of different classes.
abbrev IsProper : List (Bytes × Bytes) → Type 0
IsProper [] = Unit {0}
IsProper ((cls, super) ∷ rest) =
    (is_empty cls ≡ false)
    × ((is_empty super ≡ false) × (equal_bytes cls super ≡ false))
    × IsProper rest

android_classes-IsProper : IsProper android_classes
android_classes-IsProper = (
  refl,
  (refl, refl),
  (
    refl,
    (refl, refl),
    (
      refl,
      (refl, refl),
      (
        refl,
        (refl, refl),
        (refl, (refl, refl), (refl, (refl, refl), (refl, (refl, refl), (refl, (refl, refl), tt)))),
      ),
    ),
  ),
)

bytes_eq : {a b : Bytes} → ◌≡◌ {A = Option Bytes} (some a) (some b) → a ≡ b
bytes_eq h = ground arith

proper-listed :
    (l : List (Bytes × Bytes)) (c d : Bytes)
    → IsProper l
    → listed l c ≡ some d
    → (is_empty c ≡ false) × (is_empty d ≡ false)
unfolding listed
proper-listed [] c d p h = absurd (let no : none ≡ some d = h in cc)
proper-listed ((cls, super) ∷ rest) c d (ne, (ns, nd), p) h = elim (Option-cases (listed rest c)) [
  | inr (e, f) ↦ proper-listed rest c d p (f ∙ (rw (f, listed) at h))
  | inl f ↦ elim (Bool-cases (equal_bytes c cls)) [
    | inl same ↦
        let last : super ≡ d = bytes_eq (rw (f, same, listed) at h) in
        (rw (sym ((equal_bytes_iff c cls).0 same)) at ne, rw last at ns)
    | inr other ↦ absurd (let no : none ≡ some d = rw (f, other, listed) at h in cc)
  ]
]

-- In a hierarchy that agrees with the list, the walk finds every class that the list puts above.
walk-listed :
    (l : List (Bytes × Bytes)) (supers : Map Bytes Bytes) (left k : ℕ) (c sup : Bytes)
    → IsProper l
    → ((a b : Bytes) → listed l a ≡ some b → find a supers ≡ some b)
    → is_empty c ≡ false
    → k < left
    → listed_up l k c ≡ some sup
    → walk supers left c sup ≡ true
unfolding walk listed_up
walk-listed l supers zero k c sup p agree e lt up = absurd (omega arith)
walk-listed l supers (suc left) zero c sup p agree e lt up =
    let same : equal_bytes c sup ≡ true = (equal_bytes_iff c sup).1 (bytes_eq up) in
    rw (e, same) refl
walk-listed l supers (suc left) (suc k) c sup p agree e lt up = elim (Option-cases (listed l c)) [
  | inl n ↦ absurd (let no : none ≡ some sup = rw (n, listed_up) at up in cc)
  | inr (d, n) ↦ elim (Bool-cases (equal_bytes c sup)) [
    | inl same ↦ rw (e, same) refl
    | inr other ↦
        rw (e, other, agree c d n, walk)
          (walk-listed l supers left k d sup p agree (proper-listed l c d p n).1 (omega arith)
            (rw (n, listed_up) at up))
  ]
]

module _ {ℓ} {M H : Type ℓ} where
  find-set_superclass :
      (s : Java M H) (cls super c : Bytes)
      → is_empty cls ≡ false
      → is_empty super ≡ false
      → equal_bytes cls super ≡ false
      → find c (set_superclass s cls super).superclass
        ≡ (if equal_bytes c cls then some super else find c s.superclass)
  unfolding set_superclass
  find-set_superclass s cls super c a b d = rw (a, b, d) (find-insert c cls super s.superclass)

  find-set_superclasses :
      (l : List (Bytes × Bytes)) (s : Java M H) (c : Bytes)
      → IsProper l
      → find c (set_superclasses l s).superclass
        ≡ (elim (listed l c) [ some d ↦ some d | none ↦ find c s.superclass ])
  unfolding set_superclasses listed
  find-set_superclasses [] s c p = refl
  find-set_superclasses ((cls, super) ∷ rest) s c (ne, (ns, nd), p) =
      find-set_superclasses rest (set_superclass s cls super) c p
      ∙ elim (Option-cases (listed rest c)) [
        | inr (d, f) ↦ rw (f, listed) refl
        | inl f ↦ rw (f, listed) (find-set_superclass s cls super c ne ns nd ∙ ground arith)
      ]

  -- Whatever the hierarchy was, after `register_android_hierarchy` each class that the list of
  -- classes puts fewer than 64 steps above a named one is a superclass of it.
  pub is_subclass-register_android_hierarchy :
      (s : Java M H) (k : ℕ) (sub sup : Bytes)
      → is_empty sub ≡ false
      → k < 64
      → listed_up android_classes k sub ≡ some sup
      → is_subclass (register_android_hierarchy s) sub sup ≡ true
  unfolding is_subclass register_android_hierarchy
  is_subclass-register_android_hierarchy s k sub sup e lt up =
      let found =
        walk-listed android_classes (register_android_hierarchy s).superclass 64 k sub sup
          android_classes-IsProper
          (λ a b h. rw h at (find-set_superclasses android_classes s a android_classes-IsProper)) e
          lt up in
      elim (Bool-cases (equal_bytes sub sup || equal_bytes sup object_class)) [
        | inl quick ↦ rw quick refl
        | inr slow ↦ rw slow found
      ]
