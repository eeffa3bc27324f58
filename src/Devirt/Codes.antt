-- ===== src/Devirt/Codes.antt =====
-- The units that a branch is assembled to.
use vardoger.Prelude.{
  ℕ, ◌+◌, ◌*◌, ◌/◌, ◌%◌, ◌<◌, ◌≡◌, refl, ap, ◌∙◌, some, List, [], ◌∷◌, arith, get_elem?, set,
}
use vardoger.Prelude.Order.{bytes_key}
use vardoger.Prelude.Map.{find}
use vardoger.Devirt.Table.{Fmt, f10t, f21t, f22t, f20t, f30t, MdOp, md_ops}
use vardoger.Devirt.Encode.{
  DalvikInstr, distance, encode_as, md_encode, resolve_at, resolve_as, resolve, to_units,
}
use vardoger.Devirt.Layout.{md_encode_known}
use vardoger.Devirt.Fetches

-- The units of a branch from offset `here` to the instruction at `there`.
module _ (offs : List ℕ) (ins : DalvikInstr) (o : MdOp) (known : find ins.mnem md_ops ≡ some o)
    (here t there : ℕ) (target : get_elem? offs t ≡ some there) where
  resolve_known : resolve offs ins ≡ resolve_as o.fmt offs ins
  unfolding resolve
  resolve_known = rw (known, resolve)

  -- With the operands of the resolved instruction.
  encoded :
      (fmt : Fmt) (ops : List ℕ)
      → o.fmt ≡ fmt
      → resolve_as fmt offs ins ≡ record ins { ops = ops }
      → md_encode (resolve offs ins) here ≡ encode_as o.op fmt (record ins { ops = ops }) here
  encoded fmt ops same resolved =
      ap (λ (x : DalvikInstr). md_encode x here)
        (resolve_known ∙ (ap (λ (x : Fmt). resolve_as x offs ins) same ∙ resolved))
      ∙ (md_encode_known (record ins { ops = ops }) here o known
          ∙ ap (λ (x : Fmt). encode_as o.op x (record ins { ops = ops }) here) same)

  resolved_at :
      (i : ℕ) (ops : List ℕ)
      → ins.ops ≡ ops
      → get_elem? ops i ≡ some t
      → resolve_at i offs ins ≡ record ins { ops = set ops i there }
  resolved_at i ops same e =
      let named : get_elem? ins.ops i ≡ some t = ap (λ (l : List ℕ). get_elem? l i) same ∙ e in
      rw (named, resolve_at)
        (rw (target, resolve_at) (ap (λ (l : List ℕ). record ins { ops = set l i there }) same))

  pub code_22t :
      (a b : ℕ)
      → o.fmt ≡ f22t
      → ins.ops ≡ a ∷ b ∷ t ∷ []
      → a < 16
      → b < 16
      → o.op < 0x100
      → to_units (md_encode (resolve offs ins) here)
        ≡ (o.op + a * 0x100 + b * 0x1000) ∷ (distance there here % 0x10000) ∷ []
  unfolding to_units encode_as
  code_22t a b same ops fa fb fo =
      ap to_units (encoded f22t (a ∷ b ∷ there ∷ []) same (resolved_at 2 _ ops refl))
      ∙ ground (arith, Fetches.first_nibbles o.op a (b % 16))

  pub code_21t :
      (a : ℕ)
      → o.fmt ≡ f21t
      → ins.ops ≡ a ∷ t ∷ []
      → a < 0x100
      → o.op < 0x100
      → to_units (md_encode (resolve offs ins) here)
        ≡ (o.op + a * 0x100) ∷ (distance there here % 0x10000) ∷ []
  unfolding to_units encode_as
  code_21t a same ops fa fo =
      ap to_units (encoded f21t (a ∷ there ∷ []) same (resolved_at 1 _ ops refl))
      ∙ ground (arith, Fetches.first_byte o.op a)

  pub code_10t :
      o.fmt ≡ f10t
      → ins.ops ≡ t ∷ []
      → o.op < 0x100
      → to_units (md_encode (resolve offs ins) here)
        ≡ (o.op + distance there here % 0x100 * 0x100) ∷ []
  unfolding to_units encode_as
  code_10t same ops fo =
      ap to_units (encoded f10t (there ∷ []) same (resolved_at 0 _ ops refl))
      ∙ ground (arith, Fetches.first_byte o.op (distance there here % 0x100))

  pub code_20t :
      o.fmt ≡ f20t
      → ins.ops ≡ t ∷ []
      → o.op < 0x100
      → to_units (md_encode (resolve offs ins) here) ≡ o.op ∷ (distance there here % 0x10000) ∷ []
  unfolding to_units encode_as
  code_20t same ops fo =
      ap to_units (encoded f20t (there ∷ []) same (resolved_at 0 _ ops refl)) ∙ ground arith

  pub code_30t :
      o.fmt ≡ f30t
      → ins.ops ≡ t ∷ []
      → o.op < 0x100
      → to_units (md_encode (resolve offs ins) here)
        ≡ o.op ∷ (distance there here % 0x10000) ∷ (distance there here / 0x10000 % 0x10000) ∷ []
  unfolding to_units encode_as
  code_30t same ops fo =
      ap to_units (encoded f30t (there ∷ []) same (resolved_at 0 _ ops refl)) ∙ ground arith
