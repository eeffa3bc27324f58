-- ===== src/Tests/Rebuilds.antt =====
-- A method that is decoded, the registers of a signature, and a method without recovered code.
use mathlib.Core.Option
use vardoger.Prelude.{
  ℕ, ◌+◌, ◌%◌, ◌≤◌, ◌<◌, ◌≡◌, ◌≢◌, ◌⊎◌, sym, ap, refl, false, none, some, List, [], ◌∷◌, ◌++◌,
  arith, length, replicate, get_elem?,
}
use vardoger.Prelude.Order.{Bytes, nat_key}
use vardoger.Prelude.Map.{Map, find, insert}
use vardoger.Prelude.Text.{text}
use vardoger.Dex.{u32_mod}
use vardoger.Dex.File.{DexFile, Code, code_at}
use vardoger.Dex.Rebuilder.{units, make_code_item}
use vardoger.Dalvik.Machine.{leave, undefined, run}
use vardoger.Devirt.Table.{md_units, md_ops}
use vardoger.Devirt.Encode.{
  md_encode, encode_as, width, offsets, resolve, encode_all, to_units, md_assemble,
}
use vardoger.Devirt.Layout.{size}
use vardoger.Devirt.Families.{
  VmInstr, fam_base, alu_to_dalvik, flow_to_dalvik, family_to_dalvik, md_to_dalvik,
}
use vardoger.Devirt.Rebuild.{translate, recover, code_item}
use vardoger.Devirt.Rebuilt.{rebuilt_runs}
use vardoger.Devirt.Methods.{
  RawDlv, real_rows, place_map, operands, family_of, decode_row, sanitize, decode_rows,
  md_decode_method,
}
use vardoger.Devirt.Known.{IsSound}
use vardoger.Devirt.Decoding.{md_decode_method-IsSound}
use vardoger.Devirt.Signatures.{u16_mod, sig_ret, minimal_body, sig_ins, params_of, before, count}
use vardoger.Devirt.Params.{
  Param, primitive, class, descriptor, dimensions, params, signature, registers, sig_ins-signature,
}
use vardoger.Devirt.Classify.{
  MicrovmRow, set_of, count_calls, freq_of, see_calls, seen_of, put_ranked, sort_ranked, ranked,
  first_other, family_of_row, classify_rows, md_classify,
}
use vardoger.Devirt.Counts.{uses}
use vardoger.Devirt.Ranks.{uses_of, opf_of, inv_of, md_classify_lem}
use vardoger.Devirt.Bodies.{minimal_body_returns}
use vardoger.Tests.Dex.{coded}
use vardoger.Tests.Code.{thrower, fresh}

-- A test of register 3 that leads to itself, a row that is skipped, and a return.
abbrev rows : List RawDlv
rows =
    record { p = 4; op = 0x11; raw = 0x311; tgt = some 4 }
    ∷ record { p = 5; op = 0xFFFF; raw = 0; tgt = none }
    ∷ record { p = 8; op = 0x22; raw = 0x22; tgt = none }
    ∷ []

abbrev classes : Map ℕ Bytes
classes = (0x11, text "if-testz") ∷ (0x22, text "return") ∷ []

abbrev test_zero : VmInstr
test_zero = record {
  op = 0x11;
  family = text "if-testz";
  vregs = 3 ∷ 0 ∷ [];
  pool = none;
  lit = none;
  target = some 1;
}

rows-decoded : get_elem? (md_decode_method rows classes) 0 ≡ some test_zero
unfolding md_decode_method real_rows place_map insert find decode_rows decode_row family_of operands
    fam_base sanitize
rows-decoded = refl

md_decode_method-IsSound_example :
    IsSound (length (md_decode_method rows classes)) 0 (md_to_dalvik test_zero)
md_decode_method-IsSound_example = md_decode_method-IsSound rows classes 0 test_zero rows-decoded

-- `(J[JLa;)I`
abbrev three_params : List Param
three_params =
    record { dims = 0; element = primitive b'J' }
    ∷ record { dims = 1; element = primitive b'J' }
    ∷ record { dims = 0; element = class (text "a") }
    ∷ []

three_params-signature : signature three_params (text "I") ≡ text "(J[JLa;)I"
unfolding params dimensions descriptor
three_params-signature = refl

three_params-registers : registers three_params ≡ 4
unfolding registers
three_params-registers = refl

sig_ins-signature_example :
    (sig_ins (signature three_params (text "I")) false ≡ (1 + registers three_params) % u16_mod)
    × (sig_ret (signature three_params (text "I")) ≡ text "I")
sig_ins-signature_example = sig_ins-signature three_params b'I' [] false (
  (omega arith, omega arith, omega arith),
  ((omega arith, omega arith, omega arith), ((omega arith, omega arith, tt), tt)),
)

-- A method that returns a long, behind a header of eight bytes.
abbrev wide_file : DexFile
wide_file = record coded {
  d = replicate 8 0 ++ (make_code_item 2 1 5 (0x0016 ∷ 0x0000 ∷ 0x0010 ∷ []) ++ []);
}

wide_file-body : minimal_body (text "J") 1 ≡ (2, 0x0016 ∷ 0x0000 ∷ 0x0010 ∷ [])
unfolding minimal_body
wide_file-body = refl

wide_file-short : length wide_file.d < u32_mod
unfolding make_code_item units
wide_file-short = omega arith

minimal_body_returns_example :
    (code : Code) × (code_at wide_file 8 ≡ some code)
    × (run 1 thrower wide_file.d code (7 ∷ []) fresh ≡ leave 0 fresh)
unfolding minimal_body
minimal_body_returns_example =
    minimal_body_returns thrower wide_file (replicate 8 0) [] (text "J") 1 5 (7 ∷ []) 1 fresh
      (omega arith) (omega arith) refl (omega arith) wide_file-short (omega arith)

-- Two handlers that call 0x400, and one of them 0x500 too.
abbrev reading : MicrovmRow
reading = record {
  reads = [];
  writes = 1 ∷ [];
  alu = [];
  branch = 0;
  nfetch = 1;
  worddec = 0;
  calls = 0x400 ∷ [];
}

abbrev handlers : Map ℕ MicrovmRow
handlers = (0x11, reading) ∷ (0x22, record reading { calls = 0x500 ∷ 0x400 ∷ [] }) ∷ []

handlers-classified : md_classify handlers ≡ (0x11, text "const/ref") ∷ (0x22, text "invoke") ∷ []
unfolding md_classify classify_rows family_of_row ranked freq_of seen_of sort_ranked put_ranked
    set_of count_calls see_calls first_other insert find
handlers-classified = refl

md_classify_lem_example :
    (find 0x22 (md_classify handlers)
      ≡ Option.map (family_of_row (opf_of handlers) (inv_of handlers)) (find 0x22 handlers))
    × (uses 0x500 handlers ≤ uses_of (opf_of handlers) handlers)
    × ((opf_of handlers ≡ some 0x500) ⊎ (uses 0x500 handlers ≤ uses_of (inv_of handlers) handlers))
    × ((opf_of handlers ≡ none) ⊎ ((inv_of handlers ≡ none) ⊎ (inv_of handlers ≢ opf_of handlers)))
md_classify_lem_example = md_classify_lem handlers 0x22 0x500

-- The code of the method of `rows`: its test goes to the return.
rows-recovered : recover rows classes ≡ some (0x0338 ∷ 2 ∷ 0x000E ∷ [])
unfolding recover translate md_to_dalvik alu_to_dalvik family_to_dalvik flow_to_dalvik
    md_decode_method real_rows place_map insert find decode_rows decode_row family_of operands
    fam_base sanitize md_assemble encode_all offsets width resolve md_encode encode_as md_units
    md_ops to_units
rows-recovered = refl

rows-few : size (translate (md_decode_method rows classes)) < 0x80
unfolding translate md_to_dalvik alu_to_dalvik family_to_dalvik flow_to_dalvik md_decode_method
    real_rows place_map insert find decode_rows decode_row family_of operands fam_base sanitize
    width md_units md_ops
rows-few = omega arith

-- In a file, as a method without parameters.
abbrev rows_file : DexFile
rows_file = record coded {
  d = replicate 8 0 ++ (make_code_item 16 1 5 (0x0338 ∷ 2 ∷ 0x000E ∷ []) ++ []);
}

rows_file-short : length rows_file.d < u32_mod
unfolding make_code_item units
rows_file-short = omega arith

rows_file-item :
    code_item (text "()V") false (recover rows classes)
    ≡ make_code_item 16 1 5 (0x0338 ∷ 2 ∷ 0x000E ∷ [])
unfolding code_item sig_ins params_of before count
rows_file-item = rw rows-recovered refl

rebuilt_runs_example :
    (code : Code) × (code_at rows_file 8 ≡ some code)
    × (run 1 thrower rows_file.d code (7 ∷ []) fresh ≢ undefined)
rebuilt_runs_example =
    rebuilt_runs thrower 1 (7 ∷ []) fresh rows_file (replicate 8 0) [] rows classes (text "()V")
      false (omega arith) rows_file-short rows-few
      (ap (λ (item : Bytes). replicate 8 0 ++ (item ++ [])) (sym rows_file-item))
