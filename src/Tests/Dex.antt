-- ===== src/Tests/Dex.antt =====
-- A DEX file of one class with one native method, and code for it.
use vardoger.Prelude.{
  ℕ, ◌+◌, ◌%◌, ◌<◌, ◌≡◌, refl, true, some, List, [], ◌∷◌, ◌++◌, arith, length, replicate,
}
use vardoger.Prelude.Order.{Bytes, nat_key}
use vardoger.Prelude.Map.{Map, find, insert}
use vardoger.Prelude.Splice.{byte_at, overwrite}
use vardoger.Dex.{u32_mod, word32, uleb_loop, wuleb_loop, wuleb}
use vardoger.Dex.File.{DexFile, Code, uleb, code_at}
use vardoger.Dex.Sha1.{sha1, block}
use vardoger.Dex.Rebuilder.{
  Rebuilder, no_error, read_uleb, make_code_item, units, set_code, append_codes, patch_classes,
  patch_class, rebuild_class, copy_fields, copy_methods, relink, build,
}
use vardoger.Dex.Leb.{uleb-wuleb}
use vardoger.Dex.Bounds.{IsInside, code_at-IsInside, code_at-make_code_item}
use vardoger.Dex.Seal.{IsSealed, IsHeader}
use vardoger.Dex.Build.{IsLink, patched, build-length, build-IsSealed}
use vardoger.Dex.Relink.{relinked}

abbrev file_bytes : Bytes
file_bytes =
    100 ∷ 101 ∷ 120 ∷ 10 ∷ 48 ∷ 51 ∷ 53 ∷ 0 ∷ 0 ∷ 0 ∷ 0 ∷ 0 ∷ 0 ∷ 0 ∷ 0 ∷ 0 ∷ 0 ∷ 0 ∷ 0 ∷ 0 ∷ 0 ∷ 0
    ∷ 0 ∷ 0 ∷ 0 ∷ 0 ∷ 0 ∷ 0 ∷ 0 ∷ 0 ∷ 0 ∷ 0 ∷ 152 ∷ 0 ∷ 0 ∷ 0 ∷ 0 ∷ 0 ∷ 0 ∷ 0 ∷ 0 ∷ 0 ∷ 0 ∷ 0 ∷ 0
    ∷ 0 ∷ 0 ∷ 0 ∷ 0 ∷ 0 ∷ 0 ∷ 0 ∷ 0 ∷ 0 ∷ 0 ∷ 0 ∷ 0 ∷ 0 ∷ 0 ∷ 0 ∷ 0 ∷ 0 ∷ 0 ∷ 0 ∷ 0 ∷ 0 ∷ 0 ∷ 0 ∷ 0
    ∷ 0 ∷ 0 ∷ 0 ∷ 0 ∷ 0 ∷ 0 ∷ 0 ∷ 0 ∷ 0 ∷ 0 ∷ 0 ∷ 0 ∷ 0 ∷ 0 ∷ 0 ∷ 0 ∷ 0 ∷ 0 ∷ 0 ∷ 0 ∷ 0 ∷ 0 ∷ 0 ∷ 0
    ∷ 0 ∷ 0 ∷ 0 ∷ 1 ∷ 0 ∷ 0 ∷ 0 ∷ 112 ∷ 0 ∷ 0 ∷ 0 ∷ 8 ∷ 0 ∷ 0 ∷ 0 ∷ 144 ∷ 0 ∷ 0 ∷ 0 ∷ 0 ∷ 0 ∷ 0 ∷ 0
    ∷ 0 ∷ 0 ∷ 0 ∷ 0 ∷ 0 ∷ 0 ∷ 0 ∷ 0 ∷ 0 ∷ 0 ∷ 0 ∷ 0 ∷ 0 ∷ 0 ∷ 0 ∷ 0 ∷ 0 ∷ 0 ∷ 0 ∷ 0 ∷ 144 ∷ 0 ∷ 0
    ∷ 0 ∷ 0 ∷ 0 ∷ 0 ∷ 0 ∷ 0 ∷ 0 ∷ 1 ∷ 0 ∷ 0 ∷ 129 ∷ 2 ∷ 0 ∷ []

abbrev file_of : Bytes → DexFile
file_of d = record {
  d = d;
  is_valid = true;
  err = [];
  string_ids_off = 0;
  string_ids_size = 0;
  type_ids_off = 0;
  type_ids_size = 0;
  proto_ids_off = 0;
  proto_ids_size = 0;
  field_ids_off = 0;
  field_ids_size = 0;
  method_ids_off = 0;
  method_ids_size = 0;
  class_defs_off = 0;
  class_defs_size = 0;
  classes = [];
}

-- The digest of "abc" in FIPS 180.
sha1_abc :
    sha1 (b'a' ∷ b'b' ∷ b'c' ∷ [])
    ≡ 0xA9 ∷ 0x99 ∷ 0x3E ∷ 0x36 ∷ 0x47 ∷ 0x06 ∷ 0x81 ∷ 0x6A ∷ 0xBA ∷ 0x3E ∷ 0x25 ∷ 0x71 ∷ 0x78
      ∷ 0x50 ∷ 0xC2 ∷ 0x6C ∷ 0x9C ∷ 0xD0 ∷ 0xD8 ∷ 0x9D ∷ []
unfolding sha1 block
sha1_abc = refl

uleb-wuleb_example :
    (uleb (7 ∷ [] ++ (wuleb 300 ++ 9 ∷ [])) 1 ≡ (300, 1 + length (wuleb 300)))
    × (read_uleb (7 ∷ [] ++ (wuleb 300 ++ 9 ∷ [])) 1 ≡ (300, 1 + length (wuleb 300)))
uleb-wuleb_example = uleb-wuleb 300 (7 ∷ []) (9 ∷ []) (omega arith)

code_at-IsInside_example :
    (c : Code) × (code_at (file_of file_bytes) 0x70 ≡ some c)
    × (c.valid ≡ true → IsInside (file_of file_bytes) 0x70 c)
code_at-IsInside_example = code_at-IsInside (file_of file_bytes) 0x70 (omega arith)

-- `const/4 v0, 1; return v0` behind a header.
abbrev insns : List ℕ
insns = 0x1012 ∷ 0x000F ∷ []

abbrev pub coded : DexFile
coded = file_of (replicate 8 0 ++ (make_code_item 1 1 0 insns ++ []))

coded-length : length coded.d ≡ 28
unfolding make_code_item units
coded-length = refl

code_at-make_code_item_example :
    code_at coded 8
    ≡ some (record {
      registers_size = 1;
      ins_size = 1;
      outs_size = 0;
      insns_off = 24;
      insns_size = 2;
      valid = true;
    })
code_at-make_code_item_example =
    code_at-make_code_item coded (replicate 8 0) [] 1 1 0 insns refl (omega arith)
      (omega (arith, coded-length)) (omega arith) (omega arith) (omega arith)

abbrev builder : Rebuilder
builder =
    set_code
      (record {
        d = file_bytes;
        recovered = [];
        patched_methods = 0;
        patched_classes = 0;
        err = no_error;
      })
      0 (make_code_item 1 1 0 insns)

-- A checksum for the tests.
abbrev checksum : Bytes → ℕ
checksum bytes = length bytes % u32_mod

builder-d : builder.d ≡ file_bytes
unfolding set_code
builder-d = refl

builder-tail : length (patched builder).tail ≡ 28
unfolding set_code append_codes patch_classes patch_class rebuild_class copy_fields copy_methods
    relink read_uleb uleb_loop wuleb wuleb_loop make_code_item units overwrite find insert
builder-tail = refl

build-IsSealed_example :
    let out = (build checksum builder).1 in
    IsSealed checksum out
    × ((k : ℕ)
        → k < length builder.d
        → ¬ IsHeader k
        → ¬ IsLink (word32 builder.d 0x64) (word32 builder.d 0x60) k
        → byte_at out k ≡ byte_at builder.d k)
unfolding set_code
build-IsSealed_example =
    build-IsSealed checksum builder (λ b. omega arith) refl (omega arith) (omega arith)
      (omega arith)
      (omega (arith, build-length checksum builder refl (omega arith) (omega arith), builder-tail))

-- A native method with new code, one without, and one that is not native.
abbrev methods : List (ℕ × ℕ × ℕ)
methods = (3, 0x101, 0) ∷ (1, 0x102, 0) ∷ (2, 0x1, 500) ∷ []

abbrev new_code : Map ℕ ℕ
new_code = (3, 0x98) ∷ (6, 0xB0) ∷ []

methods-relinked :
    relinked new_code 0 methods ≡ ((3, 0x1, 0x98) ∷ (1, 0x102, 0) ∷ (2, 0x1, 500) ∷ [], 1)
unfolding relinked relink find
methods-relinked = refl
