-- ===== src/Devirt/Bodies.antt =====
-- The interpreter runs a body of minimal_body of devirt_rebuild.hpp to its end.
use vardoger.Prelude.{
  ℕ, suc, ◌+◌, ◌-◌, ◌≤◌, ◌<◌, ◌≡◌, refl, sym, ap, ◌∙◌, true, false, ◌||◌, some, List, [], ◌∷◌, ◌++◌,
  arith, leb, ltb, length, ◌==◌, replicate, length-replicate, split, max, subst,
}
use vardoger.Prelude.Order.{Bytes, bytes_key, equal_bytes}
use vardoger.Prelude.Text.{text}
use vardoger.Dex.{u32_mod}
use vardoger.Dex.File.{DexFile, Code, code_at}
use vardoger.Dex.Rebuilder.{make_code_item}
use vardoger.Dex.Bounds.{code_at-make_code_item}
use vardoger.Dalvik.Machine.{Machine, Host, leave, loop, finish, run}
use vardoger.Devirt.Fetches.{Holds}
use vardoger.Devirt.Files.{Holds-make_code_item}
use vardoger.Devirt.Signatures.{is_ref, minimal_body}
use vardoger.Devirt.Runs.{frame, place-length, void_returns, narrow_returns, wide_returns}

module _ {ℓ} {E : Type ℓ} (h : Host E) (ins : ℕ) (few : ins < 0x10000) where
  -- Registers for the arguments, and code that runs to its end.
  abbrev Runs : ℕ × List ℕ → Type ℓ
  Runs (regs, us) =
      (ins ≤ regs)
      × (0 < regs)
      × (regs < 0x10000)
      × ((d : Bytes) (code : Code) (m : Machine E) (r : ℕ) (rs : List ℕ) (steps : ℕ)
          → length d < u32_mod
          → Holds d code.insns_off us
          → code.insns_size ≡ length us
          → loop (suc (suc steps)) h d code (frame 0 (r ∷ rs)) m ≡ finish 0 m)

  minimal_body-Runs : (ret : Bytes) → Runs (minimal_body ret ins)
  unfolding minimal_body
  minimal_body-Runs ret =
      split Runs (equal_bytes ret (text "V"))
        (λ _. (
          at_least 1,
          some_of 1 (omega arith),
          below 1 (omega arith),
          λ d code m r rs steps short holds size.
              void_returns h d code m short r rs (suc steps) holds size,
        ))
        (λ _.
          split Runs (equal_bytes ret (text "J") || equal_bytes ret (text "D"))
            (λ _. (
              at_least 2,
              some_of 2 (omega arith),
              below 2 (omega arith),
              λ d code m r rs steps short holds size.
                  wide_returns h d code m short r rs steps holds size,
            ))
            (λ _.
              split Runs (is_ref ret)
                (λ _. (
                  at_least 1,
                  some_of 1 (omega arith),
                  below 1 (omega arith),
                  λ d code m r rs steps short holds size.
                      narrow_returns h d code m short r rs steps 0x11 holds size (omega arith)
                        (omega arith),
                ))
                (λ _. (
                  at_least 1,
                  some_of 1 (omega arith),
                  below 1 (omega arith),
                  λ d code m r rs steps short holds size.
                      narrow_returns h d code m short r rs steps 0x0F holds size (omega arith)
                        (omega arith),
                ))))
    where
      at_least : (n : ℕ) → ins ≤ max ins n
      at_least n = ground arith

      some_of : (n : ℕ) → 0 < n → 0 < max ins n
      some_of n some' = ground arith

      below : (n : ℕ) → n < 0x10000 → max ins n < 0x10000
      below n small = ground arith

-- The first register and the others.
registers-some :
    (n : ℕ) (regs : List ℕ) → length regs ≡ n → 0 < n → (r : ℕ) × (rs : List ℕ) × (regs ≡ r ∷ rs)
registers-some n [] size some' = absurd (omega arith)
registers-some n (r ∷ rs) size some' = (r, rs, refl)

-- A method that gets the body of `minimal_body` for what it returns, in a code item that
-- `make_code_item` writes behind the start of a file shorter than 4 GiB, is read by `code_at` as valid
-- code, and the interpreter runs it to its return with any arguments and callbacks: it gives 0, and
-- leaves the callbacks' state and the depth as they were.
pub minimal_body_returns {ℓ} :
    {E : Type ℓ} (h : Host E) (f : DexFile) (pre post : Bytes) (ret : Bytes) (ins outs : ℕ)
    (args : List ℕ) (max_depth : ℕ) (m : Machine E)
    → ins < 0x10000
    → outs < 0x10000
    → f.d
      ≡ pre ++ (make_code_item (minimal_body ret ins).0 ins outs (minimal_body ret ins).1 ++ post)
    → 0 < length pre
    → length f.d < u32_mod
    → m.depth < max_depth
    → (code : Code) × (code_at f (length pre) ≡ some code)
      × (run max_depth h f.d code args m ≡ leave 0 m)
unfolding run
minimal_body_returns h f pre post ret ins outs args max_depth m few few' file later short shallow =
    let (enough, positive, below, runs) = minimal_body-Runs h ins few ret in
    let regs = (minimal_body ret ins).0 in
    let us = (minimal_body ret ins).1 in
    let code : Code = record {
      registers_size = regs;
      ins_size = ins;
      outs_size = outs;
      insns_off = length pre + 16;
      insns_size = length us;
      valid = true;
    } in
    let holds : Holds f.d (length pre + 16) us =
      subst (λ d. Holds d (length pre + 16) us) (sym file)
        (Holds-make_code_item pre regs ins outs us post) in
    let (placed, is, size) =
      place-length (regs - ins) ins args (replicate regs 0)
        (omega (arith, length-replicate {A = ℕ} regs 0)) in
    let (r, rs, some_regs) =
      registers-some regs placed (size ∙ length-replicate {A = ℕ} regs 0) positive in
    (
      code,
      code_at-make_code_item f pre post regs ins outs us file later short below few few',
      rw
          (
            let e : (regs == 0) ≡ false = ground arith in e,
            let e : ltb regs ins ≡ false = ground arith in e,
            let e : leb max_depth m.depth ≡ false = ground arith in e,
            is,
            some_regs,
          )
          (runs f.d code (record m { depth = m.depth + 1 }) r rs 199998 short holds refl
            ∙ ap (λ n. leave 0 (record m { depth = n }))
                (let e : m.depth + 1 - 1 ≡ m.depth = omega arith in e)),
    )
