-- ===== src/Prelude/Act.antt =====
-- Code that changes a state and may throw: no result is an exception, with the state it leaves.
use mathlib.Core.Option.{Option, none, some}

abbrev pub Act {ℓ κ} : Type ℓ → Type κ → Type (ℓ ⊔ κ)
Act S A = S → S × Option A

infixl 5 ◌>>=◌ ◌>>◌
abbrev pub ◌>>=◌ {ℓ κ μ} :
    {S : Type ℓ} {A : Type κ} {B : Type μ} → Act S A → (A → Act S B) → Act S B
◌>>=◌ m f s = let (s', r) = m s in elim r [ none ↦ (s', none) | some a ↦ f a s' ]

abbrev pub ◌>>◌ {ℓ κ} : {S : Type ℓ} {B : Type κ} → Act S (Unit {0}) → Act S B → Act S B
m >> k = m >>= λ _. k

abbrev pub ret {ℓ κ} : {S : Type ℓ} {A : Type κ} → A → Act S A
ret a s = (s, some a)

-- A change that does not throw.
abbrev pub modify {ℓ} : {S : Type ℓ} → (S → S) → Act S (Unit {0})
modify f s = (f s, some tt)
