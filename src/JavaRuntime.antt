-- ===== src/JavaRuntime.antt =====
-- core/jni/java_runtime.cpp and include/vardoger/jni/java_runtime.hpp: the table of Java objects.
--
-- The state holds the class's fields, the writes to guest memory that were made (`stores`) and the
-- memory manager `mem`. What the runtime needs of it is the interface `Arena`. A host method is a
-- value of `H`, and what it does is a parameter of `call_method`. Strings are byte strings, 64-bit
-- integers and doubles are their bits, and the hash maps, which the code only looks up, are maps in
-- key order. The observer of methods is the list of the calls that it saw.
pub mod Objects
pub mod Methods
pub mod Classes
pub mod Handles
pub mod Fresh
pub mod Made
pub mod Shadows
pub mod Android
use vardoger.Prelude.{
  ℕ, ◌+◌, ◌%◌, ◌^◌, ◌≤◌, ◌<◌, ◌≡◌, Bool, true, false, ◌&&◌, ◌||◌, not, Option, none, some, List, [],
  ◌∷◌, ◌++◌, if◌then◌else◌, is_some, ◌==◌,
}
use vardoger.Prelude.Order.{Bytes, nat_key, bytes_key, equal_bytes}
use vardoger.Prelude.Map.{Map, find, insert}
use vardoger.Prelude.Act.{Act, ◌>>=◌, ◌>>◌, ret, modify}

pub data DvmValue : Type 0 where
  void : DvmValue
  int double obj : ℕ → DvmValue

pub data Kind : Type 0 where
  class method field string object byte_array object_array : Kind

-- A record of the table.
pub record Entry : Type 0 where
  pub kind : Kind
  pub name : Bytes
  pub sig : Bytes
  pub owner : Bytes
  pub utf8 : Bytes
  pub is_static : Bool
  pub native_fn : ℕ
  pub fields : Map Bytes DvmValue
  pub bytes : Bytes
  pub elems : List ℕ

abbrev pub blank : Kind → Entry
blank kind = record {
  kind = kind;
  name = [];
  sig = [];
  owner = [];
  utf8 = [];
  is_static = false;
  native_fn = 0;
  fields = [];
  bytes = [];
  elems = [];
}

pub record Native : Type 0 where
  pub cls : Bytes
  pub name : Bytes
  pub sig : Bytes
  pub fn : ℕ

-- A 32-bit write to guest memory.
pub record Store : Type 0 where
  pub addr : ℕ
  pub value : ℕ

-- A call that the observer saw.
pub record Seen : Type 0 where
  pub owner : Bytes
  pub name : Bytes
  pub sig : Bytes
  pub args : List DvmValue
  pub handled : Bool

pub record Java {ℓ} (M H : Type ℓ) : Type ℓ where
  pub handles : Map ℕ Entry
  pub class_by_name : Map Bytes ℕ
  pub superclass : Map Bytes Bytes
  pub member_cache : Map Bytes ℕ
  pub static_fields : Map Bytes DvmValue
  pub field_defaults : Map Bytes DvmValue
  pub host_methods : Map Bytes H
  pub registered : List Native
  pub pending_exc : ℕ
  pub seen : List Seen
  pub stores : List Store
  pub mem : M

-- What the runtime needs of the memory manager: fresh addresses, none of them 0.
pub record Arena {ℓ} (M : Type ℓ) : Type (ℓ + 1) where
  pub java_alloc : M → ℕ → M × Option ℕ
  pub cursor : M → ℕ
  pub IsOk : M → Type ℓ
  pub fresh :
      (s : M) (len p : ℕ)
      → IsOk s
      → len ≤ 0x80
      → (java_alloc s len).1 ≡ some p
      → (0 < p) × (cursor s ≤ p) × (p + len ≤ cursor (java_alloc s len).0)
  pub rises : (s : M) (len : ℕ) → IsOk s → len ≤ 0x80 → cursor s ≤ cursor (java_alloc s len).0
  pub stays : (s : M) (len : ℕ) → IsOk s → len ≤ 0x80 → IsOk (java_alloc s len).0

abbrev pub shadow_size : ℕ
shadow_size = 0x80

abbrev pub object_class : Bytes
object_class =
    b'j' ∷ b'a' ∷ b'v' ∷ b'a' ∷ b'/' ∷ b'l' ∷ b'a' ∷ b'n' ∷ b'g' ∷ b'/' ∷ b'O' ∷ b'b' ∷ b'j' ∷ b'e'
    ∷ b'c' ∷ b't' ∷ []

abbrev pub string_class : Bytes
string_class =
    b'j' ∷ b'a' ∷ b'v' ∷ b'a' ∷ b'/' ∷ b'l' ∷ b'a' ∷ b'n' ∷ b'g' ∷ b'/' ∷ b'S' ∷ b't' ∷ b'r' ∷ b'i'
    ∷ b'n' ∷ b'g' ∷ []

abbrev pub is_class : Entry → Bool
is_class r = elim r.kind [ class ↦ true | _ ↦ false ]

abbrev pub is_method : Entry → Bool
is_method r = elim r.kind [ method ↦ true | _ ↦ false ]

abbrev pub is_field : Entry → Bool
is_field r = elim r.kind [ field ↦ true | _ ↦ false ]

abbrev pub is_string : Entry → Bool
is_string r = elim r.kind [ string ↦ true | _ ↦ false ]

abbrev pub is_object : Entry → Bool
is_object r = elim r.kind [ object ↦ true | _ ↦ false ]

abbrev pub is_byte_array : Entry → Bool
is_byte_array r = elim r.kind [ byte_array ↦ true | _ ↦ false ]

abbrev pub is_object_array : Entry → Bool
is_object_array r = elim r.kind [ object_array ↦ true | _ ↦ false ]

-- `handles_.emplace(addr, r)`: an entry that is there stays.
abbrev pub emplace : ℕ → Entry → Map ℕ Entry → Map ℕ Entry
emplace h r m = if is_some (find h m) then m else insert h r m

-- `owner + "|" + (is_static ? "S" : "v") + "M|" + name + "|" + sig`, with F for a field.
abbrev pub member_key : Bytes → Bool → ℕ → Bytes → Bytes → Bytes
member_key owner is_static letter name sig =
    owner ++ b'|' ∷ (if is_static then b'S' else b'v') ∷ letter ∷ b'|' ∷ (name ++ b'|' ∷ sig)

module _ {ℓ} {M H : Type ℓ} where
  abbrev pub get : Java M H → ℕ → Option Entry
  get s h = find h s.handles

  -- `(r && r->kind == kind) ? r->f : std::string{}`
  abbrev pub text_of : Java M H → ℕ → (Entry → Bool) → (Entry → Bytes) → Bytes
  text_of s h kind f = elim (get s h) [ none ↦ [] | some r ↦ if kind r then f r else [] ]

  abbrev pub class_name : Java M H → ℕ → Bytes
  class_name s h = text_of s h is_class Entry.name

  abbrev pub method_name : Java M H → ℕ → Bytes
  method_name s h = text_of s h is_method Entry.name

  abbrev pub method_sig : Java M H → ℕ → Bytes
  method_sig s h = text_of s h is_method Entry.sig

  abbrev pub field_name : Java M H → ℕ → Bytes
  field_name s h = text_of s h is_field Entry.name

  abbrev pub field_owner : Java M H → ℕ → Bytes
  field_owner s h = text_of s h is_field Entry.owner

  abbrev pub string_of : Java M H → ℕ → Option Bytes
  string_of s h = elim (get s h) [
    | none ↦ none
    | some r ↦ if is_string r then some r.utf8 else none
  ]

  -- `e_.write_t<uint32_t>(addr, static_cast<uint32_t>(value))`
  abbrev pub write32 : ℕ → ℕ → Act (Java M H) (Unit {0})
  write32 addr value =
      modify
        (λ s. record s { stores = s.stores ++ record { addr = addr; value = value % 2 ^ 32 } ∷ [] })

  -- The new class is entered by its name, and refers to itself.
  abbrev pub enter_class : Bytes → ℕ → Act (Java M H) ℕ
  enter_class name h = do
    modify (λ t. record t { class_by_name = insert name h t.class_by_name })
    write32 h h
    ret h

  abbrev pub enter_member : Bytes → ℕ → Act (Java M H) ℕ
  enter_member key h = do
    modify (λ t. record t { member_cache = insert key h t.member_cache })
    ret h

module _ {ℓ} {M H : Type ℓ} (arena : Arena M) where
  unfoldable pub alloc : Entry → Act (Java M H) ℕ
  alloc r s =
      let (mem', p) = arena.java_alloc s.mem shadow_size in
      elim p [
        | none ↦ (record s { mem = mem' }, none)
        | some h ↦ (record s { mem = mem'; handles = emplace h r s.handles }, some h)
      ]

  unfoldable pub find_class : Bytes → Act (Java M H) ℕ
  find_class name s = elim (find name s.class_by_name) [
    | some h ↦ (s, some h)
    | none ↦ (do h ← alloc (record (blank class) { name = name }); enter_class name h) s
  ]

  -- The common text of `get_method_id` and `get_field_id`.
  unfoldable pub member_id : Kind → ℕ → ℕ → Bytes → Bytes → Bool → Act (Java M H) ℕ
  member_id kind letter clazz name sig is_static s =
      let owner = class_name s clazz in
      let key = member_key owner is_static letter name sig in
      elim (find key s.member_cache) [
        | some h ↦ (s, some h)
        | none ↦
            (do
              h ← alloc (record (blank kind) {
                name = name;
                sig = sig;
                owner = owner;
                is_static = is_static;
              })
              enter_member key h)
              s
      ]

  unfoldable pub get_method_id : ℕ → Bytes → Bytes → Bool → Act (Java M H) ℕ
  get_method_id = member_id method b'M'

  unfoldable pub get_field_id : ℕ → Bytes → Bytes → Bool → Act (Java M H) ℕ
  get_field_id = member_id field b'F'
