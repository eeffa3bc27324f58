-- ===== src/Tests/Java.antt =====
-- The Java runtime on the memory manager's arena.
use vardoger.Prelude.{
  ℕ, sym, Bool-cases, ◌<◌, ◌≡◌, ◌⊎◌, ◌↔◌, refl, inl, inr, true, Option, none, some, [], ◌∷◌, arith,
  replicate,
}
use vardoger.Prelude.Order.{equal_bytes, Bytes, nat_key, bytes_key}
use vardoger.Prelude.Map.{find, insert}
use vardoger.Memory.{Memory, add_region}
use vardoger.Memory.Arenas.{java_alloc, open_java}
use vardoger.JavaRuntime.{
  Entry, blank, class, string, object, byte_array, object_array, Java, Arena, class_name, alloc,
  find_class, object_class,
}
use vardoger.JavaRuntime.Objects.{
  new_object, new_string_utf, new_byte_array, new_zero_array, new_object_array,
}
use vardoger.JavaRuntime.Methods.{is_subclass}
use vardoger.JavaRuntime.Handles.{IsTable}
use vardoger.JavaRuntime.Fresh.{Made}
use vardoger.JavaRuntime.Made.{new-Made, find_class-find_class}
use vardoger.JavaRuntime.Classes.{NoEmpty, up, is_subclass_iff}
use vardoger.JavaRuntime.Android.{
  listed, listed_up, register_android_hierarchy, is_subclass-register_android_hierarchy,
}
use vardoger.Prelude.Text.{text}
use vardoger.JavaRuntime.Shadows.{memory_arena}
use vardoger.Tests.Regions.{accept, drop_pages, machine}
use vardoger.Tests.Arenas.{machine-JavaOk}

abbrev arena : Arena (Memory ℕ)
arena = memory_arena accept drop_pages

abbrev start : Java (Memory ℕ) Unit
start = record {
  handles = [];
  class_by_name = [];
  superclass = [];
  member_cache = [];
  static_fields = [];
  field_defaults = [];
  host_methods = [];
  registered = [];
  pending_exc = 0;
  seen = [];
  stores = [];
  mem = machine;
}

start-IsTable : IsTable arena start
unfolding find
start-IsTable = record {
  arena_ok = machine-JavaOk;
  below = λ h r e. absurd (let no : ◌≡◌ {A = Option Entry} none (some r) = e in cc);
  classes = λ n h e. absurd (let no : ◌≡◌ {A = Option ℕ} none (some h) = e in cc);
  members = λ n h e. absurd (let no : ◌≡◌ {A = Option ℕ} none (some h) = e in cc);
}

abbrev a : Bytes
a = b'A' ∷ []

abbrev b : Bytes
b = b'B' ∷ []

new-Made_example :
    Made arena start (record (blank object) { owner = a }) (new_object arena a start)
    × Made arena start (record (blank string) { utf8 = a }) (new_string_utf arena a start)
    × Made arena start (record (blank byte_array) { bytes = a }) (new_byte_array arena a start)
    × Made arena start
        (record (blank byte_array) { bytes = replicate 4 0 })
        (new_zero_array arena 4 start)
    × Made arena start
        (record (blank object_array) { elems = 7 ∷ 8 ∷ [] })
        (new_object_array arena (7 ∷ 8 ∷ []) start)
new-Made_example = new-Made arena start a 4 (7 ∷ 8 ∷ []) start-IsTable

find_class-find_class_example :
    let last = (find_class arena b (find_class arena a start).0).0 in
    (class_name last 0x30000000 ≡ a)
    × (class_name last 0x30000080 ≡ b)
    × ((a ≡ b) ↔ ◌≡◌ {A = ℕ} 0x30000000 0x30000080)
unfolding find_class alloc java_alloc open_java add_region find insert
find_class-find_class_example =
    find_class-find_class arena start a b 0x30000000 0x30000080 start-IsTable refl refl

-- A class and its superclass, and a method with a native.
abbrev loaded : Java (Memory ℕ) Unit
loaded = record start {
  handles = (0x30000000, record (blank class) { name = b }) ∷ [];
  class_by_name = (b, 0x30000000) ∷ [];
  superclass = (b, a) ∷ [];
  mem = record machine { java_next = 0x30000080; java_end = 0x34000000 };
}

loaded-NoEmpty : NoEmpty loaded.superclass
unfolding find
loaded-NoEmpty c d e = elim (Bool-cases (equal_bytes c b)) [
  | inl same ↦
      let hit : ◌≡◌ {A = Option Bytes} (some a) (some d) = rw same at e in
      let same' : a ≡ d = ground arith in rw (sym same')
  | inr other ↦ let miss : ◌≡◌ {A = Option Bytes} none (some d) = rw other at e in absurd cc
]

is_subclass_iff_example :
    (is_subclass loaded b a ≡ true)
    ↔ ((a ≡ object_class) ⊎ ((k : ℕ) × (k < 64) × (up loaded.superclass k b ≡ some a)))
is_subclass_iff_example = is_subclass_iff loaded b a loaded-NoEmpty refl

-- An application of a known packer is a context, three steps up.
stub_is_context :
    is_subclass
      (register_android_hierarchy loaded)
      (text "com/stub/StubApp")
      (text "android/content/Context")
    ≡ true
unfolding listed listed_up
stub_is_context =
    is_subclass-register_android_hierarchy loaded 3 (text "com/stub/StubApp")
      (text "android/content/Context") refl (omega arith) refl
