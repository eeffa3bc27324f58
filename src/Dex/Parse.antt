-- ===== src/Dex/Parse.antt =====
-- `DexFile::parse`: the header, the class definitions and their lists of methods.
use vardoger.Prelude.{
  ℕ, zero, suc, ◌+◌, ◌*◌, ◌%◌, Bool, true, false, not, ◌&&◌, ◌||◌, List, [], ◌∷◌, ltb, leb, ◌==◌,
  if◌then◌else◌, length, take,
}
use vardoger.Prelude.Order.{Bytes, equal_bytes}
use vardoger.Dex.{u32_mod}
use vardoger.Dex.File.{
  Method, blank_method, ClassDef, DexFile, rd32, uleb, string_at, type_at, shorty_at, id_entry,
}

-- The method of that index, its flags and the place of its code.
unfoldable pub decoded : DexFile → ℕ → ℕ → ℕ → Method
decoded f midx access code_off =
    let (cls_idx, proto_idx, name_idx) = id_entry f.d (f.method_ids_off + midx * 8) in
    if ltb midx f.method_ids_size
    then record {
      access = access;
      code_off = code_off;
      cls = type_at f cls_idx;
      name = string_at f name_idx;
      sig = shorty_at f proto_idx;
    }
    else record blank_method { access = access; code_off = code_off }

-- `decode_method`: the method, the next index and the next position.
unfoldable pub decode_method : DexFile → ℕ → ℕ → Method × ℕ × ℕ
decode_method f midx p =
    let (diff, p₁) = uleb f.d p in
    let (access, p₂) = uleb f.d p₁ in
    let (code_off, p₃) = uleb f.d p₂ in
    let midx' = (midx + diff) % u32_mod in (decoded f midx' access code_off, midx', p₃)

-- A loop over `left` methods.
unfoldable pub decode_methods : ℕ → DexFile → ℕ → ℕ → List Method × ℕ
decode_methods zero f midx p = ([], p)
decode_methods (suc left) f midx p =
    let (m, midx', p') = decode_method f midx p in
    let (rest, p'') = decode_methods left f midx' p' in (m ∷ rest, p'')

-- The loop over the fields: two numbers each.
unfoldable pub skip_fields : ℕ → Bytes → ℕ → ℕ
skip_fields zero d p = p
skip_fields (suc left) d p = skip_fields left d (uleb d (uleb d p).1).1

unfoldable pub parse_class_data : DexFile → ClassDef → ClassDef
parse_class_data f c =
    let (static_fields, p₁) = uleb f.d c.class_data_off in
    let (instance_fields, p₂) = uleb f.d p₁ in
    let (direct_methods, p₃) = uleb f.d p₂ in
    let (virtual_methods, p₄) = uleb f.d p₃ in
    let p₅ = skip_fields ((static_fields + instance_fields) % u32_mod) f.d p₄ in
    let (direct, p₆) = decode_methods direct_methods f 0 p₅ in
    let (virtual, p₇) = decode_methods virtual_methods f 0 p₆ in
    if c.class_data_off == 0 || leb (length f.d) c.class_data_off
    then c
    else record c { direct_methods = direct; virtual_methods = virtual }

-- One entry of the table of classes.
unfoldable pub class_at : DexFile → ℕ → ClassDef
class_at f i =
    let o = f.class_defs_off + i * 32 in
    parse_class_data f (record {
      descriptor = type_at f (rd32 f.d o);
      access = rd32 f.d (o + 4);
      superclass = type_at f (rd32 f.d (o + 8));
      class_data_off = rd32 f.d (o + 24);
      direct_methods = [];
      virtual_methods = [];
    })

-- The entries from `i` on, `left` of them.
unfoldable pub classes_from : ℕ → DexFile → ℕ → List ClassDef
classes_from zero f i = []
classes_from (suc left) f i = class_at f i ∷ classes_from left f (i + 1)

-- "dex\n"
abbrev pub magic : Bytes
magic = b'd' ∷ b'e' ∷ b'x' ∷ b'\n' ∷ []

abbrev pub has_magic : Bytes → Bool
has_magic d = leb 0x70 (length d) && equal_bytes (take 4 d) magic

-- "bad magic/too small" and "class_defs OOB"
abbrev pub bad_magic : Bytes
bad_magic =
    b'b' ∷ b'a' ∷ b'd' ∷ b' ' ∷ b'm' ∷ b'a' ∷ b'g' ∷ b'i' ∷ b'c' ∷ b'/' ∷ b't' ∷ b'o' ∷ b'o' ∷ b' '
    ∷ b's' ∷ b'm' ∷ b'a' ∷ b'l' ∷ b'l' ∷ []

abbrev pub classes_outside : Bytes
classes_outside =
    b'c' ∷ b'l' ∷ b'a' ∷ b's' ∷ b's' ∷ b'_' ∷ b'd' ∷ b'e' ∷ b'f' ∷ b's' ∷ b' ' ∷ b'O' ∷ b'O' ∷ b'B'
    ∷ []

-- What the header says, with no class yet.
unfoldable pub with_header : DexFile → Bytes → DexFile
with_header f d = record f {
  d = d;
  is_valid = false;
  err = [];
  classes = [];
  string_ids_size = rd32 d 0x38;
  string_ids_off = rd32 d 0x3C;
  type_ids_size = rd32 d 0x40;
  type_ids_off = rd32 d 0x44;
  proto_ids_size = rd32 d 0x48;
  proto_ids_off = rd32 d 0x4C;
  field_ids_size = rd32 d 0x50;
  field_ids_off = rd32 d 0x54;
  method_ids_size = rd32 d 0x58;
  method_ids_off = rd32 d 0x5C;
  class_defs_size = rd32 d 0x60;
  class_defs_off = rd32 d 0x64;
}

-- The new state, and what the function returns.
unfoldable pub parse : DexFile → Bytes → DexFile × Bool
parse f d =
    let h = with_header f d in
    if not (has_magic d)
    then (record f { d = d; is_valid = false; err = bad_magic; classes = [] }, false)
    else if ltb (length d) (h.class_defs_off + h.class_defs_size * 32)
    then (record h { err = classes_outside }, false)
    else (record h { is_valid = true; classes = classes_from h.class_defs_size h 0 }, true)
