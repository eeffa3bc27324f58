-- ===== src/Devirt/Meanings.antt =====
-- What the interpreter makes of the instructions that md_to_dalvik of devirt_rebuild.hpp makes, but
-- the branches.
use vardoger.Prelude.{
  ℕ, ◌/◌, ◌%◌, ◌≤◌, ◌<◌, ◌≡◌, refl, sym, true, ◌&&◌, ◌||◌, [], ◌∷◌, arith, leb, ◌==◌, subst,
  Bool-cases, inl, inr,
}
use vardoger.Dalvik.{u64_mod, extend, from_int16, from_int32}
use vardoger.Dalvik.Actions.{
  Insn, Action, skip, copy, result, give_nothing, give, load, string, iget, invoke, binary, virtual,
  low, high, family_index, decode, decode_move, decode_const, decode_field, decode_invoke,
  decode_arith,
}
use vardoger.Dalvik.Plain.{Plain, AllBelow-take}

module _ (n : ℕ) (enough : 16 ≤ n) (i : Insn) where
  means : (units : ℕ) (a : Action) → decode i ≡ a → Plain n units a → Plain n units (decode i)
  means units a e plain = subst (Plain n units) (sym e) plain

  pub means_10x : (i.op == 0x00 || i.op == 0x0E) ≡ true → Plain n 1 (decode i)
  unfolding decode decode_move
  means_10x e = elim (Bool-cases (i.op == 0x00)) [
    | inl yes' ↦ means 1 (skip 1) (ground arith) refl
    | inr no' ↦ means 1 give_nothing (ground arith) tt
  ]

  pub means_11x : (i.op == 0x0A || i.op == 0x0F) ≡ true → i.b1 < 16 → Plain n 1 (decode i)
  unfolding decode decode_move
  means_11x e small = elim (Bool-cases (i.op == 0x0A)) [
    | inl yes' ↦ means 1 (result i.b1) (ground arith) (omega arith, refl)
    | inr no' ↦ means 1 (give i.b1) (ground arith) (omega arith)
  ]

  pub means_11n : (i.op == 0x12) ≡ true → Plain n 1 (decode i)
  unfolding decode decode_const
  means_11n e =
      means 1 (load (low i) (extend 8 u64_mod (high i)) 1) (ground arith) (omega arith, refl)

  pub means_12x :
      (i.op == 0x01 || (i.op == 0x07 || (leb 0xB0 i.op && leb i.op 0xCF))) ≡ true
      → i.b1 < 0x100
      → Plain n 1 (decode i)
  unfolding decode decode_move decode_arith
  means_12x e small = elim (Bool-cases (leb i.op 0x11)) [
    | inl yes' ↦ means 1 (copy (low i) (high i) 1) (ground arith) (omega arith, omega arith, refl)
    | inr no' ↦
        means 1 (binary (family_index 0xB0 i.op) (low i) (low i) (high i) 1) (ground arith)
          (omega arith, omega arith, omega arith, refl)
  ]

  pub means_21s : (i.op == 0x13 || i.op == 0x16) ≡ true → i.b1 < 16 → Plain n 2 (decode i)
  unfolding decode decode_const
  means_21s e small = means 2 (load i.b1 (from_int16 i.w1) 2) (ground arith) (omega arith, refl)

  pub means_21c : (i.op == 0x1A) ≡ true → i.b1 < 16 → Plain n 2 (decode i)
  unfolding decode decode_const
  means_21c e small = means 2 (string i.b1 i.w1 2) (ground arith) (omega arith, refl)

  pub means_31i : (i.op == 0x14) ≡ true → i.b1 < 16 → Plain n 3 (decode i)
  unfolding decode decode_const
  means_31i e small = means 3 (load i.b1 (from_int32 i.d1) 3) (ground arith) (omega arith, refl)

  pub means_22c : (i.op == 0x54) ≡ true → i.b1 < 0x100 → Plain n 2 (decode i)
  unfolding decode decode_field
  means_22c e small =
      means 2 (iget (low i) (high i) i.w1) (ground arith) (omega arith, omega arith, refl)

  pub means_23x :
      (leb 0x90 i.op && leb i.op 0xAF) ≡ true
      → i.b1 < 16
      → i.w1 % 0x100 < 16
      → i.w1 / 0x100 < 16
      → Plain n 2 (decode i)
  unfolding decode decode_arith
  means_23x e small small' small'' =
      means 2 (binary (family_index 0x90 i.op) i.b1 (i.w1 % 0x100) (i.w1 / 0x100) 2) (ground arith)
        (omega arith, omega arith, omega arith, refl)

  pub means_35c : (i.op == 0x6E) ≡ true → high i ≤ 5 → Plain n 3 (decode i)
  unfolding decode decode_invoke
  means_35c e few =
      means 3
        (invoke virtual i.w1 (high i)
          (i.w2 % 16 ∷ i.w2 / 16 % 16 ∷ i.w2 / 0x100 % 16 ∷ i.w2 / 0x1000 % 16 ∷ low i ∷ []))
        (ground arith) (few, AllBelow-take n (high i) _ (omega arith), refl)
