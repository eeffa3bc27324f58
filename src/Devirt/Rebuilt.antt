-- ===== src/Devirt/Rebuilt.antt =====
-- The interpreter runs the code that devirt_rebuild of devirt_rebuild.hpp gives to a method.
use vardoger.Prelude.{
  ℕ, zero, suc, ◌+◌, ◌-◌, ◌%◌, ◌≤◌, ◌<◌, ◌≡◌, ◌≢◌, refl, sym, ap, ◌∙◌, Bool, true, false, not, ◌||◌,
  none, some, List, [], ◌∷◌, ◌++◌, arith, leb, ltb, ◌==◌, length, get_elem?, replicate,
  length-replicate, max, subst, Bool-cases, inl, inr,
}
use vardoger.Prelude.Order.{Bytes, nat_key}
use vardoger.Prelude.Map.{Map}
use vardoger.Dex.{u32_mod}
use vardoger.Dex.File.{DexFile, Code, code_at}
use vardoger.Dex.Rebuilder.{make_code_item}
use vardoger.Dex.Bounds.{code_at-make_code_item}
use vardoger.Dalvik.Machine.{Machine, Host, leave, undefined, loop, max_steps, run}
use vardoger.Devirt.Encode.{DalvikInstr, md_assemble}
use vardoger.Devirt.Families.{VmInstr, md_to_dalvik}
use vardoger.Devirt.Methods.{RawDlv, md_decode_method}
use vardoger.Devirt.Signatures.{
  u16_mod, sig_ret, count, count_name, count_array, params_of, sig_ins, minimal_body,
}
use vardoger.Devirt.Layout.{size, length-md_assemble}
use vardoger.Devirt.Fetches.{Holds}
use vardoger.Devirt.Files.{Holds-make_code_item}
use vardoger.Devirt.Known.{IsSound}
use vardoger.Devirt.Decoding.{md_decode_method-IsSound}
use vardoger.Devirt.Places.{start-IsPlace}
use vardoger.Devirt.Walks.{Defined, AllSound, loop-Defined}
use vardoger.Devirt.Bodies.{minimal_body_returns}
use vardoger.Devirt.Runs.{place-length}
use vardoger.Devirt.Rebuild.{translate, recover, code_item}

-- A number of registers fits 16 bits.
mutual
  unfolding count

  count-small : (n : ℕ) (params : Bytes) → n < u16_mod → count n params < u16_mod
  count-small n [] small = small
  count-small n (c ∷ cs) small = ground (
    arith,
    count_name-small n cs small,
    count_array-small n cs small,
    count-small ((n + 2) % u16_mod) cs (omega arith),
    count-small ((n + 1) % u16_mod) cs (omega arith),
  )

  count_name-small : (n : ℕ) (params : Bytes) → n < u16_mod → count_name n params < u16_mod
  count_name-small n [] small = omega arith
  count_name-small n (c ∷ cs) small =
      ground (arith, count-small ((n + 1) % u16_mod) cs (omega arith), count_name-small n cs small)

  count_array-small : (n : ℕ) (params : Bytes) → n < u16_mod → count_array n params < u16_mod
  count_array-small n [] small = omega arith
  count_array-small n (c ∷ cs) small = ground (
    arith,
    count_array-small n cs small,
    count_name-small n cs small,
    count-small ((n + 1) % u16_mod) cs (omega arith),
  )

sig_ins-small : (sig : Bytes) (is_static : Bool) → sig_ins sig is_static < u16_mod
unfolding sig_ins
sig_ins-small sig true = count-small 0 (params_of sig) (omega arith)
sig_ins-small sig false = count-small 1 (params_of sig) (omega arith)

length-translate : (vm : List VmInstr) → length (translate vm) ≡ length vm
unfolding translate
length-translate [] = refl
length-translate (v ∷ vm) = ap suc (length-translate vm)

elem-translate :
    (vm : List VmInstr) (i : ℕ) (ins : DalvikInstr)
    → get_elem? (translate vm) i ≡ some ins
    → (v : VmInstr) × (get_elem? vm i ≡ some v) × (md_to_dalvik v ≡ ins)
unfolding translate
elem-translate [] i ins e = absurd (cc)
elem-translate (v ∷ vm) zero ins e = (v, refl, cc)
elem-translate (v ∷ vm) (suc i) ins e = elem-translate vm i ins e

-- The instructions of a decoded method.
decoded-AllSound :
    (dlv : List RawDlv) (cls : Map ℕ Bytes) → AllSound (translate (md_decode_method dlv cls))
decoded-AllSound dlv cls i ins e =
    let vm = md_decode_method dlv cls in
    let (v, there, same) = elem-translate vm i ins e in
    subst (IsSound (length (translate vm)) i) same (
      subst (λ n. IsSound n i (md_to_dalvik v)) (sym (length-translate vm))
        (md_decode_method-IsSound dlv cls i v there))

-- A run of valid code with room for its arguments, by the loop.
run-Defined {ℓ} :
    {E : Type ℓ} (h : Host E) (max_depth : ℕ) (d : Bytes) (code : Code) (args : List ℕ)
    (m : Machine E)
    → code.valid ≡ true
    → 0 < code.registers_size
    → code.ins_size ≤ code.registers_size
    → ((regs : List ℕ)
        → length regs ≡ code.registers_size
        → Defined (
            loop max_steps h d code
              (record { pc = 0; regs = regs; ret = 0 })
              (record m { depth = m.depth + 1 })))
    → Defined (run max_depth h d code args m)
unfolding run
run-Defined h max_depth d code args m valid some' room looped =
    let n = code.registers_size in
    let (placed, is, regs) =
      place-length (n - code.ins_size) code.ins_size args (replicate n 0)
        (omega (arith, length-replicate {A = ℕ} n 0)) in
    elim (Bool-cases (leb max_depth m.depth)) [
      | inl deep ↦ rw (valid, deep, Defined) tt
      | inr shallow ↦
          rw
            (
              valid,
              shallow,
              let e : (n == 0) ≡ false = ground arith in e,
              let e : ltb n code.ins_size ≡ false = ground arith in e,
              is,
              Defined,
            )
            (looped placed (regs ∙ length-replicate {A = ℕ} n 0))
    ]

module _ {ℓ} {E : Type ℓ} (h : Host E) (max_depth : ℕ) (args : List ℕ) (m : Machine E) (f : DexFile)
    (pre post : Bytes) (later : 0 < length pre) (short : length f.d < u32_mod) where
  -- The method at `pre` is valid code that the interpreter runs without leaving its registers or the file.
  abbrev Runs : Type ℓ
  Runs =
      (code : Code) × (code_at f (length pre) ≡ some code)
      × (run max_depth h f.d code args m ≢ undefined)

  assembled-Runs :
      (body : List DalvikInstr) (ins : ℕ)
      → AllSound body
      → size body < 0x80
      → ins < u16_mod
      → f.d ≡ pre ++ (make_code_item (max 16 ins) ins 5 (md_assemble body) ++ post)
      → Runs
  assembled-Runs body ins sound few small file =
      let n = max 16 ins in
      let us = md_assemble body in
      let code : Code = record {
        registers_size = n;
        ins_size = ins;
        outs_size = 5;
        insns_off = length pre + 16;
        insns_size = length us;
        valid = true;
      } in
      let holds : Holds f.d (length pre + 16) us =
        subst (λ d. Holds d (length pre + 16) us) (sym file)
          (Holds-make_code_item pre n ins 5 us post) in
      (
        code,
        code_at-make_code_item f pre post n ins 5 us file later short (omega arith) small
            (omega arith),
        λ lost. subst Defined lost (
            run-Defined h max_depth f.d code args m refl (omega arith) (omega arith) (λ regs len.
              loop-Defined h n (omega arith) body f.d code few short holds sound
                (length-md_assemble body) max_steps (record { pc = 0; regs = regs; ret = 0 }) _ len
                (start-IsPlace body))),
      )

  -- No method is run below the greatest depth.
  deep_run :
      (code : Code) → leb max_depth m.depth ≡ true → run max_depth h f.d code args m ≡ leave 0 m
  unfolding run
  deep_run code deep =
      rw (let e : (not code.valid || leb max_depth m.depth) ≡ true = ground arith in e) refl

  -- A method without units, at any depth.
  minimal-Runs :
      (ret : Bytes) (ins : ℕ)
      → ins < u16_mod
      → f.d
        ≡ pre ++ (make_code_item (minimal_body ret ins).0 ins 5 (minimal_body ret ins).1 ++ post)
      → Runs
  minimal-Runs ret ins small file = elim (Bool-cases (leb max_depth m.depth)) [
    | inl deep ↦
        let (code, here, _) =
          minimal_body_returns h f pre post ret ins 5 args (suc m.depth) m small (omega arith) file
            later short (omega arith) in
        (code, here, λ lost. subst Defined (sym (deep_run code deep) ∙ lost) tt)
    | inr shallow ↦
        let (code, here, returns) =
          minimal_body_returns h f pre post ret ins 5 args max_depth m small (omega arith) file
            later short (ground arith) in
        (code, here, λ lost. subst Defined (sym returns ∙ lost) tt)
  ]

-- The code that `devirt_rebuild` gives to a method, whatever the log and the classification of its
-- opcodes are, is read by `code_at` as valid code, where its instructions have fewer than 128 units and
-- it stands behind the start of a file shorter than 4 GiB; and the interpreter, with any arguments and
-- callbacks, runs it without leaving the registers of the method or the file.
pub rebuilt_runs {ℓ} :
    {E : Type ℓ} (h : Host E) (max_depth : ℕ) (args : List ℕ) (m : Machine E) (f : DexFile)
    (pre post : Bytes) (dlv : List RawDlv) (cls : Map ℕ Bytes) (sig : Bytes) (is_static : Bool)
    → 0 < length pre
    → length f.d < u32_mod
    → size (translate (md_decode_method dlv cls)) < 0x80
    → f.d ≡ pre ++ (code_item sig is_static (recover dlv cls) ++ post)
    → (code : Code) × (code_at f (length pre) ≡ some code)
      × (run max_depth h f.d code args m ≢ undefined)
unfolding recover code_item translate
rebuilt_runs h max_depth args m f pre post dlv cls sig is_static later short few file =
    by_rows (md_decode_method dlv cls) (decoded-AllSound dlv cls) few file
  where
    by_rows :
        (vm : List VmInstr)
        → AllSound (translate vm)
        → size (translate vm) < 0x80
        → f.d
          ≡ pre
            ++ (code_item sig is_static
                  (elim vm [ [] ↦ none | v ∷ rest ↦ some (md_assemble (translate (v ∷ rest))) ])
                ++ post)
        → (code : Code) × (code_at f (length pre) ≡ some code)
          × (run max_depth h f.d code args m ≢ undefined)
    by_rows [] sound few file =
        minimal-Runs h max_depth args m f pre post later short (sig_ret sig) (sig_ins sig is_static)
          (sig_ins-small sig is_static) file
    by_rows (v ∷ vm) sound few file =
        assembled-Runs h max_depth args m f pre post later short (translate (v ∷ vm))
          (sig_ins sig is_static) sound few (sig_ins-small sig is_static) file
