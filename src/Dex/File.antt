-- ===== src/Dex/File.antt =====
-- The accessors of `DexFile`: strings, types, methods, fields and code items by their index.
use vardoger.Prelude.{
  ℕ, ◌+◌, ◌-◌, ◌*◌, ◌%◌, Bool, false, not, ◌&&◌, ◌||◌, Option, none, some, List, [], ◌∷◌, ◌++◌, leb,
  ltb, ◌==◌, if◌then◌else◌, length, take, drop,
}
use vardoger.Prelude.Order.{Bytes}
use vardoger.Dex.{u32_mod, word16, word32, uleb_loop}

-- `kNoIndex`
abbrev pub no_index : ℕ
no_index = 0xFFFFFFFF

pub record Method : Type 0 where
  pub cls : Bytes
  pub name : Bytes
  pub sig : Bytes
  pub access : ℕ
  pub code_off : ℕ

abbrev pub blank_method : Method
blank_method = record { cls = []; name = []; sig = []; access = 0; code_off = 0 }

pub record ClassDef : Type 0 where
  pub descriptor : Bytes
  pub superclass : Bytes
  pub access : ℕ
  pub class_data_off : ℕ
  pub direct_methods : List Method
  pub virtual_methods : List Method

pub record Field : Type 0 where
  pub cls : Bytes
  pub name : Bytes
  pub type : Bytes

pub record Code : Type 0 where
  pub registers_size : ℕ
  pub ins_size : ℕ
  pub outs_size : ℕ
  pub insns_off : ℕ
  pub insns_size : ℕ
  pub valid : Bool

abbrev pub blank_code : Code
blank_code = record {
  registers_size = 0;
  ins_size = 0;
  outs_size = 0;
  insns_off = 0;
  insns_size = 0;
  valid = false;
}

-- The fields of the class: the bytes, the tables' places and sizes, and the classes.
pub record DexFile : Type 0 where
  pub d : Bytes
  pub is_valid : Bool
  pub err : Bytes
  pub string_ids_off : ℕ
  pub string_ids_size : ℕ
  pub type_ids_off : ℕ
  pub type_ids_size : ℕ
  pub proto_ids_off : ℕ
  pub proto_ids_size : ℕ
  pub field_ids_off : ℕ
  pub field_ids_size : ℕ
  pub method_ids_off : ℕ
  pub method_ids_size : ℕ
  pub class_defs_off : ℕ
  pub class_defs_size : ℕ
  pub classes : List ClassDef

-- `rd32`: 0 where the word does not lie in the file.
unfoldable pub rd32 : Bytes → ℕ → ℕ
rd32 d o = if ltb (length d) (o + 4) then 0 else word32 d o

unfoldable pub uleb : Bytes → ℕ → ℕ × ℕ
uleb d p = uleb_loop 5 d p 0 0

-- The bytes up to a 0.
unfoldable pub until_nul : Bytes → Bytes
until_nul [] = []
until_nul (b ∷ rest) = if b == 0 then [] else b ∷ until_nul rest

unfoldable pub string_at : DexFile → ℕ → Bytes
string_at f idx =
    let data_off = rd32 f.d ((f.string_ids_off + idx * 4) % u32_mod) in
    if leb f.string_ids_size idx
    then []
    else if leb (length f.d) data_off
    then []
    else until_nul (drop (uleb f.d data_off).1 f.d)

unfoldable pub type_at : DexFile → ℕ → Bytes
type_at f idx =
    if idx == no_index || leb f.type_ids_size idx
    then []
    else string_at f (rd32 f.d ((f.type_ids_off + idx * 4) % u32_mod))

-- Two 16-bit words and a 32-bit one, all 0 where they do not lie in the file.
abbrev pub id_entry : Bytes → ℕ → ℕ × ℕ × ℕ
id_entry d o =
    if leb (o + 8) (length d) then (word16 d o, word16 d (o + 2), word32 d (o + 4)) else (0, 0, 0)

-- `if (proto_idx < proto_ids_size_) m.sig = string_at(rd32(d_, proto_ids_off_ + proto_idx * 12))`
abbrev pub shorty_at : DexFile → ℕ → Bytes
shorty_at f proto_idx =
    if ltb proto_idx f.proto_ids_size
    then string_at f (rd32 f.d (f.proto_ids_off + proto_idx * 12))
    else []

unfoldable pub method_at : DexFile → ℕ → Method
method_at f idx =
    let (cls_idx, proto_idx, name_idx) = id_entry f.d (f.method_ids_off + idx * 8) in
    if leb f.method_ids_size idx then blank_method else record blank_method {
      cls = type_at f cls_idx;
      name = string_at f name_idx;
      sig = shorty_at f proto_idx;
    }

unfoldable pub field_at : DexFile → ℕ → Field
field_at f idx =
    let (cls_idx, type_idx, name_idx) = id_entry f.d (f.field_ids_off + idx * 8) in
    if leb f.field_ids_size idx
    then record { cls = []; name = []; type = [] }
    else record { cls = type_at f cls_idx; type = type_at f type_idx; name = string_at f name_idx }

-- `none` is a read behind the end of the file: the guard adds on 32 bits.
unfoldable pub code_at : DexFile → ℕ → Option Code
code_at f code_off =
    let insns_off = (code_off + 16) % u32_mod in
    let insns_size = word32 f.d (code_off + 12) in
    if code_off == 0 || ltb (length f.d) ((code_off + 16) % u32_mod)
    then some blank_code
    else if ltb (length f.d) (code_off + 16)
    then none
    else some (record {
      registers_size = word16 f.d code_off;
      ins_size = word16 f.d (code_off + 2);
      outs_size = word16 f.d (code_off + 4);
      insns_off = insns_off;
      insns_size = insns_size;
      valid = leb (insns_off + insns_size * 2) (length f.d);
    })

-- Does the text hold the byte, and with every such byte replaced.
abbrev pub holds : ℕ → Bytes → Bool
holds c [] = false
holds c (b ∷ rest) = b == c || holds c rest

abbrev pub replace : ℕ → ℕ → Bytes → Bytes
replace from to [] = []
replace from to (b ∷ rest) = (if b == from then to else b) ∷ replace from to rest

abbrev pub first_is : ℕ → Bytes → Bool
first_is c [] = false
first_is c (b ∷ rest) = b == c

abbrev pub last_is : ℕ → Bytes → Bool
last_is c [] = false
last_is c (b ∷ []) = b == c
last_is c (b ∷ e ∷ rest) = last_is c (e ∷ rest)

-- `desc.substr(1, desc.size() - 2)`
abbrev pub inner : Bytes → Bytes
inner desc = take (length desc - 2) (drop 1 desc)

unfoldable pub descriptor_to_binary : Bytes → Bytes
descriptor_to_binary desc =
    if leb 2 (length desc) && first_is b'L' desc && last_is b';' desc
    then replace b'/' b'.' (inner desc)
    else desc

unfoldable pub binary_to_descriptor : Bytes → Bytes
binary_to_descriptor bin =
    let filled = ltb 0 (length bin) in
    if filled && not (holds b'/' bin) && holds b'.' bin
    then b'L' ∷ (replace b'.' b'/' bin ++ b';' ∷ [])
    else if filled && not (first_is b'L' bin)
    then b'L' ∷ (bin ++ b';' ∷ [])
    else bin
