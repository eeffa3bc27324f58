-- ===== src/JavaRuntime/Made.antt =====
-- The objects, strings and arrays that the Java runtime makes.
use vardoger.Prelude.{
  ℕ, ◌≡◌, ◌↔◌, sym, ap, ◌∙◌, inl, inr, Option, some, List, arith, length, replicate, Option-cases,
}
use vardoger.Prelude.Order.{Bytes, nat_key, bytes_key}
use vardoger.Prelude.Map.{find}
use vardoger.JavaRuntime.{
  blank, string, object, byte_array, object_array, Java, Arena, class_name, string_of, find_class,
  string_class,
}
use vardoger.JavaRuntime.Objects.{
  new_object, new_string_utf, new_byte_array, new_zero_array, new_object_array, byte_array_class,
  object_array_class,
}
use vardoger.JavaRuntime.Handles.{IsTable, Grows}
use vardoger.JavaRuntime.Fresh.{
  Made, made, unmade, Found, found, failed, find_class-Found, class_name_lem, some_eq,
  new_entry-Made, then_length-Made,
}

module _ {ℓ} {M H : Type ℓ} (arena : Arena M) where
  -- On a sound table, each of the five operations that make an object, a string or an array ends
  -- with a handle that was not in use and is not 0, under which the new entry holds what was given,
  -- every other entry and class kept and the table sound again; or it throws and keeps them all.
  pub new-Made :
      (s : Java M H) (bytes : Bytes) (len : ℕ) (elems : List ℕ)
      → IsTable arena s
      → Made arena s (record (blank object) { owner = bytes }) (new_object arena bytes s)
        × Made arena s (record (blank string) { utf8 = bytes }) (new_string_utf arena bytes s)
        × Made arena s (record (blank byte_array) { bytes = bytes }) (new_byte_array arena bytes s)
        × Made arena s
            (record (blank byte_array) { bytes = replicate len 0 })
            (new_zero_array arena len s)
        × Made arena s
            (record (blank object_array) { elems = elems })
            (new_object_array arena elems s)
  unfolding new_object new_string_utf new_byte_array new_zero_array new_object_array
  new-Made s bytes len elems t = (
    new_entry-Made arena s _ bytes t,
    new_entry-Made arena s _ string_class t,
    then_length-Made arena s _ (length bytes) _ (new_entry-Made arena s _ byte_array_class t),
    then_length-Made arena s _ len _ (new_entry-Made arena s _ byte_array_class t),
    then_length-Made arena s _ (length elems) _ (new_entry-Made arena s _ object_array_class t),
  )

  string_of-Made :
      (s : Java M H) (str : Bytes) (p : Java M H × Option ℕ) (h : ℕ)
      → Made arena s (record (blank string) { utf8 = str }) p
      → p.1 ≡ some h
      → (string_of p.0 h ≡ some str)
        × ((k : ℕ) (old : Bytes) → string_of s k ≡ some old → string_of p.0 k ≡ some old)
  string_of-Made s str _ h (unmade t g) e = cc
  string_of-Made s str _ h (made t k g u pos at) e = (
    ground arith,
    λ q old f. elim (Option-cases (find q s.handles)) [
      | inl gone ↦ ground arith
      | inr (r, there) ↦ ground (arith, g.keeps q r there)
    ],
  )

  -- On a sound table, a handle that `new_string_utf` gave leads to the string that it was given, and
  -- the handles of older strings to theirs.
  pub string_of-new_string_utf :
      (s : Java M H) (str : Bytes) (h : ℕ)
      → IsTable arena s
      → (new_string_utf arena str s).1 ≡ some h
      → (string_of (new_string_utf arena str s).0 h ≡ some str)
        × ((k : ℕ) (old : Bytes)
            → string_of s k ≡ some old
            → string_of (new_string_utf arena str s).0 k ≡ some old)
  unfolding new_string_utf
  string_of-new_string_utf s str h t e =
      string_of-Made s str _ h (new_entry-Made arena s _ string_class t) e

  Found-some :
      (s : Java M H) (name : Bytes) (p : Java M H × Option ℕ) (h : ℕ)
      → Found arena s name p
      → p.1 ≡ some h
      → Grows arena s p.0 × (find name p.0.class_by_name ≡ some h)
  Found-some s name _ h (failed t g) e = cc
  Found-some s name _ h (found t k g at named) e = (g, at ∙ e)

  class_name-table :
      (s : Java M H) (name : Bytes) (h : ℕ)
      → IsTable arena s
      → find name s.class_by_name ≡ some h
      → class_name s h ≡ name
  class_name-table s name h t e =
      let (r, at, kind, same) = t.classes name h e in class_name_lem arena s h r at kind ∙ same

  -- On a sound table, two calls of `find_class` give classes of the names that were asked for, and
  -- the same handle exactly when the names are the same.
  pub find_class-find_class :
      (s : Java M H) (a b : Bytes) (h k : ℕ)
      → IsTable arena s
      → (find_class arena a s).1 ≡ some h
      → (find_class arena b (find_class arena a s).0).1 ≡ some k
      → let last = (find_class arena b (find_class arena a s).0).0 in
        (class_name last h ≡ a) × (class_name last k ≡ b) × ((a ≡ b) ↔ (h ≡ k))
  find_class-find_class s a b h k t e d =
      let mid = (find_class arena a s).0 in
      let last = (find_class arena b mid).0 in
      let first = Found-some s a _ h (find_class-Found arena s a t) e in
      let second = Found-some mid b _ k (find_class-Found arena mid b first.0.table) d in
      let at_a = second.0.keeps_class a h first.1 in
      let name_a = class_name-table last a h second.0.table at_a in
      let name_b = class_name-table last b k second.0.table second.1 in
      (
        name_a,
        name_b,
        (
          λ same.
              some_eq (sym at_a ∙ (ap (λ (n : Bytes). find n last.class_by_name) same ∙ second.1)),
          λ same. sym name_a ∙ (ap (λ (x : ℕ). class_name last x) same ∙ name_b),
        ),
      )
