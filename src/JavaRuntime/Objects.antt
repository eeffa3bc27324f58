-- ===== src/JavaRuntime/Objects.antt =====
-- Objects, strings, arrays and fields of the Java runtime.
use vardoger.Prelude.{
  ℕ, ◌+◌, Option, none, some, List, [], ◌∷◌, ◌++◌, if◌then◌else◌, ltb, length, get_or, set,
  replicate,
}
use vardoger.Prelude.Order.{Bytes, nat_key, bytes_key}
use vardoger.Prelude.Map.{find, insert, adjust}
use vardoger.Prelude.Act.{Act, ◌>>=◌, ◌>>◌, ret}
use vardoger.JavaRuntime.{
  DvmValue, void, Entry, blank, string, object, byte_array, object_array, Java, Arena, get,
  is_object, is_string, is_byte_array, is_object_array, write32, alloc, find_class, string_class,
}

-- The class names `[B` and `[Ljava/lang/Object;`.
abbrev pub byte_array_class : Bytes
byte_array_class = b'[' ∷ b'B' ∷ []

abbrev pub object_array_class : Bytes
object_array_class =
    b'[' ∷ b'L' ∷ b'j' ∷ b'a' ∷ b'v' ∷ b'a' ∷ b'/' ∷ b'l' ∷ b'a' ∷ b'n' ∷ b'g' ∷ b'/' ∷ b'O' ∷ b'b'
    ∷ b'j' ∷ b'e' ∷ b'c' ∷ b't' ∷ b';' ∷ []

-- `cls + "\x1f" + name`
abbrev pub skey : Bytes → Bytes → Bytes
skey cls name = cls ++ 0x1F ∷ name

module _ {ℓ} {M H : Type ℓ} (arena : Arena M) where
  -- A new entry, with a reference to its class in its shadow.
  unfoldable pub new_entry : Entry → Bytes → Act (Java M H) ℕ
  new_entry r cls = do h ← alloc arena r; c ← find_class arena cls; write32 h c; ret h

  unfoldable pub new_object : Bytes → Act (Java M H) ℕ
  new_object cls = new_entry (record (blank object) { owner = cls }) cls

  unfoldable pub new_string_utf : Bytes → Act (Java M H) ℕ
  new_string_utf s = new_entry (record (blank string) { utf8 = s }) string_class

  unfoldable pub new_byte_array : Bytes → Act (Java M H) ℕ
  new_byte_array bytes = do
    h ← new_entry (record (blank byte_array) { bytes = bytes }) byte_array_class
    write32 (h + 8) (length bytes)
    ret h

  -- The overload that fills with zeros.
  unfoldable pub new_zero_array : ℕ → Act (Java M H) ℕ
  new_zero_array len = do
    h ← new_entry (record (blank byte_array) { bytes = replicate len 0 }) byte_array_class
    write32 (h + 8) len
    ret h

  unfoldable pub new_object_array : List ℕ → Act (Java M H) ℕ
  new_object_array elems = do
    h ← new_entry (record (blank object_array) { elems = elems }) object_array_class
    write32 (h + 8) (length elems)
    ret h

module _ {ℓ} {M H : Type ℓ} where
  -- `bytes_ptr` and `bytes_view`
  abbrev pub bytes_view : Java M H → ℕ → Option Bytes
  bytes_view s arr = elim (get s arr) [
    | none ↦ none
    | some r ↦ if is_byte_array r then some r.bytes else none
  ]

  unfoldable pub array_length : Java M H → ℕ → ℕ
  array_length s arr = elim (get s arr) [
    | none ↦ 0
    | some r ↦
        if is_byte_array r then length r.bytes else if is_object_array r then length r.elems else 0
  ]

  unfoldable pub object_array_element : Java M H → ℕ → ℕ → ℕ
  object_array_element s arr i = elim (get s arr) [
    | none ↦ 0
    | some r ↦
        if is_object_array r then (if ltb i (length r.elems) then get_or r.elems i 0 else 0) else 0
  ]

  unfoldable pub set_object_array_element : Java M H → ℕ → ℕ → ℕ → Java M H
  set_object_array_element s arr i val = elim (get s arr) [
    | none ↦ s
    | some r ↦
        if is_object_array r
        then (if ltb i (length r.elems)
            then record s {
              handles = insert arr (record r { elems = set r.elems i val }) s.handles;
            }
            else s)
        else s
  ]

  class_handle : Java M H → Bytes → ℕ
  class_handle s name = elim (find name s.class_by_name) [ none ↦ 0 | some h ↦ h ]

  unfoldable pub class_of : Java M H → ℕ → ℕ
  unfolding class_handle
  class_of s h = elim (get s h) [
    | none ↦ 0
    | some r ↦
        if is_object r
        then class_handle s r.owner
        else if is_string r
        then class_handle s string_class
        else 0
  ]

  unfoldable pub set_field : Java M H → ℕ → Bytes → DvmValue → Java M H
  set_field s h name v = record s {
    handles = adjust h (λ r. record r { fields = insert name v r.fields }) s.handles;
  }

  field_default : Java M H → Bytes → DvmValue
  field_default s name = elim (find name s.field_defaults) [ none ↦ void | some v ↦ v ]

  unfoldable pub get_field : Java M H → ℕ → Bytes → DvmValue
  unfolding field_default
  get_field s h name = elim (get s h) [
    | none ↦ field_default s name
    | some r ↦ elim (find name r.fields) [ none ↦ field_default s name | some v ↦ v ]
  ]

  unfoldable pub set_field_default : Java M H → Bytes → DvmValue → Java M H
  set_field_default s name v = record s { field_defaults = insert name v s.field_defaults }

  unfoldable pub set_static : Java M H → Bytes → Bytes → DvmValue → Java M H
  set_static s cls name v = record s { static_fields = insert (skey cls name) v s.static_fields }

  unfoldable pub get_static : Java M H → Bytes → Bytes → DvmValue
  get_static s cls name = elim (find (skey cls name) s.static_fields) [ none ↦ void | some v ↦ v ]
