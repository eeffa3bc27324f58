-- ===== src/Tests/Code.antt =====
-- Bytecode: a method that is run, one that throws, and assembled branches.
use vardoger.Prelude.{
  ◌<◌, ◌≡◌, refl, true, none, some, List, [], ◌∷◌, ◌++◌, arith, length, replicate, get_elem?,
}
use vardoger.Prelude.Order.{Bytes, bytes_key}
use vardoger.Prelude.Map.{find}
use vardoger.Prelude.Text.{text}
use vardoger.Dex.{u32_mod}
use vardoger.Dex.File.{Code}
use vardoger.Dex.Rebuilder.{units, make_code_item}
use vardoger.Dalvik.{u16, u32, passes}
use vardoger.Dalvik.Actions.{fetch, decode, decode_move, decode_const, decode_invoke}
use vardoger.Dalvik.Machine.{
  Machine, Host, next, leave, throw, assign, with_reg, with_regs, ask, perform, step, follow, loop,
  place, run,
}
use vardoger.Dalvik.Balance.{IsNeutral, Balanced, done, more, run-Balanced, run-Throws}
use vardoger.Devirt.Table.{f10t, f21t, md_units, md_ops}
use vardoger.Devirt.Encode.{
  DalvikInstr, encode_as, md_encode, width, offsets, resolve, encode_all, to_units, md_assemble,
}
use vardoger.Devirt.Files.{Holds-units}
use vardoger.Devirt.Landing.{branch_lands, goto_wraps}
use vardoger.Tests.Dex.{coded}

-- Every callback is missing but the one for calls, which throws.
abbrev pub thrower : Host (Unit {0})
thrower = record {
  on_invoke = some (λ call m. (m, none));
  on_sget = none;
  on_sput = none;
  on_iget = none;
  on_iput = none;
  on_const_string = none;
  on_new_instance = none;
  on_new_array = none;
  on_array_length = none;
  on_aget = none;
  on_aput = none;
}

thrower-IsNeutral : IsNeutral thrower
thrower-IsNeutral k = record {
  invokes = λ call m same. omega arith;
  sgets = tt;
  sputs = tt;
  igets = tt;
  iputs = tt;
  strings = tt;
  instances = tt;
  arrays = tt;
  lengths = tt;
  agets = tt;
  aputs = tt;
}

abbrev pub fresh : Machine (Unit {0})
fresh = record { depth = 0; env = tt }

-- `invoke-static {}, method@0`
abbrev calling : Bytes
calling = 0x71 ∷ 0 ∷ 0 ∷ 0 ∷ 0 ∷ 0 ∷ []

abbrev calling_code : Code
calling_code = record {
  registers_size = 1;
  ins_size = 0;
  outs_size = 0;
  insns_off = 0;
  insns_size = 3;
  valid = true;
}

run-calling : run 1 thrower calling calling_code [] fresh ≡ throw (record { depth = 1; env = tt })
unfolding run loop follow step decode decode_invoke fetch u16 u32 perform with_regs ask place
run-calling = refl

run-Balanced_example : Balanced fresh (run 1 thrower calling calling_code [] fresh)
run-Balanced_example = run-Balanced 1 thrower calling calling_code [] fresh thrower-IsNeutral

run-Throws_example :
    run 1 thrower calling calling_code [] (record { depth = 1; env = tt })
    ≡ leave 0 (record { depth = 1; env = tt })
run-Throws_example =
    run-Throws 1 thrower calling 1 fresh (record { depth = 1; env = tt }) thrower-IsNeutral
      (more calling_code [] run-calling done) (omega arith) calling_code []

-- `const/4 v0, 1; return v0`
abbrev coded_code : Code
coded_code = record {
  registers_size = 1;
  ins_size = 1;
  outs_size = 0;
  insns_off = 24;
  insns_size = 2;
  valid = true;
}

run-coded : run 1 thrower coded.d coded_code (7 ∷ []) fresh ≡ leave 1 fresh
unfolding run loop follow step decode decode_move decode_const fetch u16 u32 perform assign with_reg
    place make_code_item units
run-coded = refl

-- `if-eqz v0, 2; nop; return-void`
abbrev if_zero : DalvikInstr
if_zero = record { mnem = text "if-eqz"; ops = 0 ∷ 2 ∷ []; regs = [] }

abbrev nop : DalvikInstr
nop = record { mnem = text "nop"; ops = []; regs = [] }

abbrev return_void : DalvikInstr
return_void = record { mnem = text "return-void"; ops = []; regs = [] }

assembled : md_assemble (if_zero ∷ nop ∷ return_void ∷ []) ≡ 0x38 ∷ 3 ∷ 0 ∷ 0x0E ∷ []
unfolding md_assemble encode_all offsets width resolve md_encode encode_as md_units md_ops find
    to_units
assembled = refl

if_zero-known : find (text "if-eqz") md_ops ≡ some (record { op = 0x38; fmt = f21t })
unfolding find md_ops
if_zero-known = refl

abbrev branching : List DalvikInstr
branching = if_zero ∷ nop ∷ return_void ∷ []

abbrev branching_file : Bytes
branching_file = units (md_assemble branching) ++ []

abbrev branching_code : Code
branching_code = record {
  registers_size = 1;
  ins_size = 0;
  outs_size = 0;
  insns_off = 0;
  insns_size = 4;
  valid = true;
}

branching-short : length branching_file < u32_mod
unfolding md_assemble encode_all offsets width resolve md_encode encode_as md_units md_ops find
    to_units units
branching-short = omega arith

if_zero-target : get_elem? (offsets 0 branching) 2 ≡ some 3
unfolding offsets width md_ops find md_units
if_zero-target = refl

branch_lands_example :
    step thrower branching_file branching_code (record { pc = 0; regs = 0 ∷ []; ret = 0 }) fresh
    ≡ next (record { pc = 3; regs = 0 ∷ []; ret = 0 }) fresh
unfolding passes
branch_lands_example =
    branch_lands thrower (record { pc = 0; regs = 0 ∷ []; ret = 0 }) fresh branching_file
      branching_code [] if_zero (nop ∷ return_void ∷ []) (record { op = 0x38; fmt = f21t }) 2 3
      0x8000 true branching-short (Holds-units [] (md_assemble branching) []) refl if_zero-known
      (0, 0, refl, omega arith, refl, refl, refl) if_zero-target (omega arith) (omega arith)
      (omega arith)

-- A goto over 128 instructions.
abbrev goto : DalvikInstr
goto = record { mnem = text "goto"; ops = 129 ∷ []; regs = [] }

abbrev jumping : List DalvikInstr
jumping = goto ∷ (replicate 128 nop ++ return_void ∷ [])

abbrev jumping_file : Bytes
jumping_file = units (md_assemble jumping) ++ []

jumping-short : length jumping_file < u32_mod
unfolding md_assemble encode_all offsets width resolve md_encode encode_as md_units md_ops find
    to_units units
jumping-short = omega arith

goto-known : find (text "goto") md_ops ≡ some (record { op = 0x28; fmt = f10t })
unfolding find md_ops
goto-known = refl

goto-target : get_elem? (offsets 0 jumping) 129 ≡ some 129
unfolding offsets width md_ops find md_units
goto-target = refl

goto_wraps_example :
    step thrower jumping_file branching_code (record { pc = 0; regs = []; ret = 0 }) fresh
    ≡ next (record { pc = 0xFFFFFF81; regs = []; ret = 0 }) fresh
goto_wraps_example =
    goto_wraps thrower (record { pc = 0; regs = []; ret = 0 }) fresh jumping_file branching_code []
      goto (replicate 128 nop ++ return_void ∷ []) (record { op = 0x28; fmt = f10t }) 129 129
      jumping-short (Holds-units [] (md_assemble jumping) []) refl goto-known refl refl goto-target
      (omega arith) (omega arith)
