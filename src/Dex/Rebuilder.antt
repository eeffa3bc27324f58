-- ===== src/Dex/Rebuilder.antt =====
-- `DexRebuilder`: recovered code items are appended to the file, and the class data that name them
-- rebuilt. zlib's adler32 is a parameter.
use vardoger.Prelude.{
  ℕ, zero, suc, ◌+◌, ◌-◌, ◌*◌, ◌/◌, ◌%◌, Bool, true, false, not, ◌||◌, none, some, List, [], ◌∷◌,
  ◌++◌, leb, ltb, ◌==◌, if◌then◌else◌, bit_and, length, drop, replicate, is_some,
}
use vardoger.Prelude.Order.{Bytes, nat_key}
use vardoger.Prelude.Map.{Map, find, insert}
use vardoger.Prelude.Splice.{overwrite}
use vardoger.Dex.{u32_mod, word32, bytes16, bytes32, uleb_loop, wuleb}
use vardoger.Dex.Parse.{has_magic}
use vardoger.Dex.Sha1.{sha1}

-- `err_` is `""`, "not a DEX" or "bad class_defs".
pub data Error : Type 0 where
  no_error not_dex bad_class_defs : Error

pub record Rebuilder : Type 0 where
  pub d : Bytes
  pub recovered : Map ℕ Bytes
  pub patched_methods : ℕ
  pub patched_classes : ℕ
  pub err : Error

unfoldable pub set_code : Rebuilder → ℕ → Bytes → Rebuilder
set_code r method_idx code_item = record r { recovered = insert method_idx code_item r.recovered }

abbrev pub has : Rebuilder → ℕ → Bool
has r method_idx = is_some (find method_idx r.recovered)

-- The units of an instruction list, low byte first.
unfoldable pub units : List ℕ → Bytes
units [] = []
units (u ∷ rest) = u % 0x100 ∷ u / 0x100 ∷ units rest

unfoldable pub make_code_item : ℕ → ℕ → ℕ → List ℕ → Bytes
make_code_item regs ins outs insns =
    bytes16 regs
    ++ (bytes16 ins
        ++ (bytes16 outs
            ++ (bytes16 0 ++ (bytes32 0 ++ (bytes32 (length insns % u32_mod) ++ units insns)))))

-- The private reader of uleb128 numbers goes on while there are bytes.
unfoldable pub read_uleb : Bytes → ℕ → ℕ × ℕ
read_uleb d p = uleb_loop (length d) d p 0 0

-- `while ((d_.size() + tail.size()) % 4) tail.push_back(0);`
abbrev pub align4 : ℕ → Bytes → Bytes
align4 size tail = tail ++ replicate ((4 - (size + length tail) % 4) % 4) 0

-- Step 1: the code items, and the places where they will be.
unfoldable pub append_codes : ℕ → Map ℕ Bytes → Bytes → Map ℕ ℕ → Bytes × Map ℕ ℕ
append_codes size [] tail offs = (tail, offs)
append_codes size ((idx, code) ∷ rest) tail offs =
    let aligned = align4 size tail in
    append_codes size rest (aligned ++ code) (insert idx ((size + length aligned) % u32_mod) offs)

-- `copy_fields`: `n` pairs of numbers, from `p` on, written again.
unfoldable pub copy_fields : ℕ → Bytes → ℕ → Bytes × ℕ
copy_fields zero d p = ([], p)
copy_fields (suc n) d p =
    let (a, p₁) = read_uleb d p in
    let (b, p₂) = read_uleb d p₁ in
    let (rest, p₃) = copy_fields n d p₂ in (wuleb a ++ (wuleb b ++ rest), p₃)

-- The flags and the place of one method's code, and whether they are new: `acc & kAccNative`.
unfoldable pub relink : Map ℕ ℕ → ℕ → ℕ → ℕ → ℕ × ℕ × Bool
relink offs midx acc coff = elim (find midx offs) [
  | none ↦ (acc, coff, false)
  | some off ↦ if bit_and acc 0x100 == 0 then (acc, coff, false) else (acc - 0x100, off, true)
]

-- `n` methods, from `p` on: the bytes, the next position and how many were relinked.
unfoldable pub copy_methods : ℕ → Bytes → Map ℕ ℕ → ℕ → ℕ → Bytes × ℕ × ℕ
copy_methods zero d offs midx p = ([], p, 0)
copy_methods (suc n) d offs midx p =
    let (diff, p₁) = read_uleb d p in
    let (acc, p₂) = read_uleb d p₁ in
    let (coff, p₃) = read_uleb d p₂ in
    let midx' = (midx + diff) % u32_mod in
    let (acc', coff', new) = relink offs midx' acc coff in
    let (rest, p₄, count) = copy_methods n d offs midx' p₃ in
    (wuleb diff ++ (wuleb acc' ++ (wuleb coff' ++ rest)), p₄, if new then count + 1 else count)

-- The class data at `cdo`, rebuilt, and how many methods were relinked.
unfoldable pub rebuild_class : Bytes → Map ℕ ℕ → ℕ → Bytes × ℕ
rebuild_class d offs cdo =
    let (sf, p₁) = read_uleb d cdo in
    let (ifs, p₂) = read_uleb d p₁ in
    let (dm, p₃) = read_uleb d p₂ in
    let (vm, p₄) = read_uleb d p₃ in
    let (statics, p₅) = copy_fields sf d p₄ in
    let (instances, p₆) = copy_fields ifs d p₅ in
    let (directs, p₇, n) = copy_methods dm d offs 0 p₆ in
    let (virtuals, p₈, m) = copy_methods vm d offs 0 p₇ in
    (
      wuleb sf
          ++ (wuleb ifs
              ++ (wuleb dm ++ (wuleb vm ++ (statics ++ (instances ++ (directs ++ virtuals)))))),
      n + m,
    )

-- The file so far, what will be appended to it, and the counts.
pub record Progress : Type 0 where
  pub d : Bytes
  pub tail : Bytes
  pub methods : ℕ
  pub classes : ℕ

-- Step 2 for one class definition.
unfoldable pub patch_class : Map ℕ ℕ → ℕ → Progress → Progress
patch_class offs cdef g =
    let cdo = word32 g.d (cdef + 24) in
    let (blk, count) = rebuild_class g.d offs cdo in
    let aligned = align4 (length g.d) g.tail in
    if cdo == 0 || leb (length g.d) cdo then g else if count == 0 then g else record {
      d = overwrite g.d (cdef + 24) (bytes32 (length g.d + length aligned));
      tail = aligned ++ blk;
      methods = g.methods + count;
      classes = g.classes + 1;
    }

unfoldable pub patch_classes : ℕ → Map ℕ ℕ → ℕ → Progress → Progress
patch_classes zero offs cdef g = g
patch_classes (suc left) offs cdef g = patch_classes left offs (cdef + 32) (patch_class offs cdef g)

-- Step 3: the tail, and the header's sizes, signature and checksum.
unfoldable pub finish : (Bytes → ℕ) → Bytes → Bytes → Bytes
finish adler32 d tail =
    let d₁ = d ++ tail in
    let d₂ = overwrite d₁ 0x20 (bytes32 (length d₁)) in
    let d₃ = overwrite d₂ 0x68 (bytes32 (length d₂ + u32_mod - word32 d₂ 0x6C)) in
    let d₄ = overwrite d₃ 0x0C (sha1 (drop 0x20 d₃)) in
    overwrite d₄ 0x08 (bytes32 (adler32 (drop 0x0C d₄)))

-- The rebuilt file is empty on an error.
unfoldable pub build : (Bytes → ℕ) → Rebuilder → Rebuilder × Bytes
build adler32 r =
    let fresh : Rebuilder = record r { patched_methods = 0; patched_classes = 0 } in
    let cd_size = word32 r.d 0x60 in
    let cd_off = word32 r.d 0x64 in
    let (tail, offs) = append_codes (length r.d) r.recovered [] [] in
    let g =
      patch_classes cd_size offs cd_off
        (record { d = r.d; tail = tail; methods = 0; classes = 0 }) in
    let out = finish adler32 g.d g.tail in
    if not (has_magic r.d)
    then (record fresh { err = not_dex }, [])
    else if ltb (length r.d) (cd_off + cd_size * 32)
    then (record fresh { err = bad_class_defs }, [])
    else (record r { d = out; patched_methods = g.methods; patched_classes = g.classes }, out)
