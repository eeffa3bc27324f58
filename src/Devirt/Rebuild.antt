-- ===== src/Devirt/Rebuild.antt =====
-- The code that devirt_rebuild of devirt_rebuild.hpp gives to a method.
use vardoger.Prelude.{ℕ, Bool, Option, none, some, List, [], ◌∷◌, max}
use vardoger.Prelude.Order.{Bytes}
use vardoger.Prelude.Map.{Map}
use vardoger.Dex.Rebuilder.{make_code_item}
use vardoger.Devirt.Encode.{DalvikInstr, md_assemble}
use vardoger.Devirt.Families.{VmInstr, md_to_dalvik}
use vardoger.Devirt.Methods.{RawDlv, md_decode_method}
use vardoger.Devirt.Signatures.{sig_ret, sig_ins, minimal_body}

-- `di`
unfoldable pub translate : List VmInstr → List DalvikInstr
translate [] = []
translate (v ∷ vm) = md_to_dalvik v ∷ translate vm

-- `dc.units`, for a method that is covered.
unfoldable pub recover : List RawDlv → Map ℕ Bytes → Option (List ℕ)
recover dlv cls = elim (md_decode_method dlv cls) [
  | [] ↦ none
  | v ∷ vm ↦ some (md_assemble (translate (v ∷ vm)))
]

-- The code item of a method, with its recovered units if it has any.
unfoldable pub code_item : Bytes → Bool → Option (List ℕ) → Bytes
code_item sig is_static units =
    let ins = sig_ins sig is_static in
    elim units [
      | some us ↦ make_code_item (max 16 ins) ins 5 us
      | none ↦ let (regs, us) = minimal_body (sig_ret sig) ins in make_code_item regs ins 5 us
    ]
