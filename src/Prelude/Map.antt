-- ===== src/Prelude/Map.antt =====
-- `std::map` as an association list in the order of its keys, which is the order of iteration.
use mathlib.Core.Option
use vardoger.Prelude.{
  ◌≡◌, refl, Bool, true, false, ◌&&◌, Option, none, some, List, [], ◌∷◌, arith, if◌then◌else◌, inl,
  inr, Bool-cases, Option-cases, ◌∙◌, is_some,
}
use vardoger.Prelude.Order.{Key, equal_refl, less_asymm}

abbrev pub Map {ℓ κ} : Type ℓ → Type κ → Type (ℓ ⊔ κ)
Map K V = List (K × V)

module _ {ℓ κ} {K : Type ℓ} {V : Type κ} ⦃key : Key K⦄ where
  -- `m.find(k)`; `none` is `m.end()`.
  unfoldable pub find : K → Map K V → Option V
  find k [] = none
  find k ((j, w) ∷ m) = if key.equal k j then some w else find k m

  -- `m[k] = v`
  unfoldable pub insert : K → V → Map K V → Map K V
  insert k v [] = (k, v) ∷ []
  insert k v ((j, w) ∷ m) =
      if key.equal k j
      then (k, v) ∷ m
      else if key.less k j
      then (k, v) ∷ (j, w) ∷ m
      else (j, w) ∷ insert k v m

  -- `m.erase(k)`
  unfoldable pub erase : K → Map K V → Map K V
  erase k [] = []
  erase k ((j, w) ∷ m) = if key.equal k j then erase k m else (j, w) ∷ erase k m

  -- `m.lower_bound(k)`: the first entry whose key is not below `k`.
  unfoldable pub lower_bound : K → Map K V → Option (K × V)
  lower_bound k [] = none
  lower_bound k ((j, w) ∷ m) = if key.less j k then lower_bound k m else some (j, w)

  pub find-insert :
      (q k : K) (v : V) (m : Map K V)
      → find q (insert k v m) ≡ (if key.equal q k then some v else find q m)
  unfolding find insert
  find-insert q k v [] = refl
  find-insert q k v ((j, w) ∷ m) =
      ground (arith, find-insert q k v m, key.equal_iff q k, key.equal_iff q j, key.equal_iff k j)

  pub find-erase :
      (q k : K) (m : Map K V) → find q (erase k m) ≡ (if key.equal q k then none else find q m)
  unfolding find erase
  find-erase q k [] = ground arith
  find-erase q k ((j, w) ∷ m) =
      ground (arith, find-erase q k m, key.equal_iff q k, key.equal_iff q j, key.equal_iff k j)

  pub find-insert_self : (k : K) (v : V) (m : Map K V) → find k (insert k v m) ≡ some v
  find-insert_self k v m = rw (find-insert, equal_refl k)

  -- Keys rise along the list and lie above `k`.
  abbrev pub Above : K → Map K V → Type 0
  Above k [] = Unit {0}
  Above k ((j, w) ∷ m) = (key.less k j ≡ true) × Above j m

  abbrev pub IsSorted : Map K V → Type 0
  IsSorted [] = Unit {0}
  IsSorted ((j, w) ∷ m) = Above j m

  Above-weaken : (a b : K) (m : Map K V) → key.less a b ≡ true → Above b m → Above a m
  Above-weaken a b [] h s = tt
  Above-weaken a b ((j, w) ∷ m) h s = (key.less_trans a b j h s.0, s.1)

  pub Above-IsSorted : (k : K) (m : Map K V) → Above k m → IsSorted m
  Above-IsSorted k [] s = tt
  Above-IsSorted k ((j, w) ∷ m) s = s.1

  insert-Above :
      (b k : K) (v : V) (m : Map K V) → key.less b k ≡ true → Above b m → Above b (insert k v m)
  unfolding insert
  insert-Above b k v [] h s = (h, tt)
  insert-Above b k v ((j, w) ∷ m) h s =
      ground (arith, insert-Above j k v m, key.less_total k j, key.equal_iff k j)

  pub insert-IsSorted : (k : K) (v : V) (m : Map K V) → IsSorted m → IsSorted (insert k v m)
  unfolding insert
  insert-IsSorted k v [] s = tt
  insert-IsSorted k v ((j, w) ∷ m) s =
      ground (arith, insert-Above j k v m, key.less_total k j, key.equal_iff k j)

  erase-Above : (b k : K) (m : Map K V) → Above b m → Above b (erase k m)
  unfolding erase
  erase-Above b k [] s = tt
  erase-Above b k ((j, w) ∷ m) s =
      ground (arith, erase-Above j k m, erase-Above b k m (Above-weaken b j m s.0 s.1))

  pub erase-IsSorted : (k : K) (m : Map K V) → IsSorted m → IsSorted (erase k m)
  unfolding erase
  erase-IsSorted k [] s = tt
  erase-IsSorted k ((j, w) ∷ m) s = ground (arith, erase-Above j k m, Above-IsSorted j (erase k m))

  Above-less : (k q : K) (w : V) (m : Map K V) → Above k m → find q m ≡ some w → key.less k q ≡ true
  unfolding find
  Above-less k q w [] s h = ground arith
  Above-less k q w ((j, u) ∷ m) s h =
      ground (arith, key.equal_iff q j, Above-less j q w m, key.less_trans k j q)

  pub Above-find : (k : K) (m : Map K V) → Above k m → find k m ≡ none
  Above-find k m s = elim (Option-cases (find k m)) [
    | inl missing ↦ missing
    | inr (w, e) ↦ ground (arith, Above-less k k w m s e, key.less_irrefl k)
  ]

  pub Above-later :
      (k q : K) (v w : V) (m : Map K V)
      → Above k m
      → find q m ≡ some w
      → find q ((k, v) ∷ m) ≡ some w
  unfolding find
  Above-later k q v w m s e =
      ground (arith, key.equal_iff q k, key.less_irrefl k, Above-less k q w m s e)

  -- An entry not below `k` makes `lower_bound` succeed, at that entry or before it.
  pub lower_bound-least :
      (k q : K) (w : V) (m : Map K V)
      → IsSorted m
      → find q m ≡ some w
      → key.less q k ≡ false
      → (e : K × V) × (lower_bound k m ≡ some e) × (key.less q e.0 ≡ false)
  unfolding find lower_bound
  lower_bound-least k q w [] s h n = ground arith
  lower_bound-least k q w ((j, u) ∷ m) s h n = elim (Bool-cases (key.less j k)) [
    | inl below ↦
        rw below
          (lower_bound-least k q w m (Above-IsSorted j m s) (ground (arith, key.equal_iff q j)) n)
    | inr here ↦ (
      (j, u),
      rw here,
      ground (arith, key.equal_iff q j, key.less_irrefl q, Above-less j q w m s, less_asymm j q),
    )
  ]

  -- What `lower_bound` gives is an entry, and not below `k`.
  pub lower_bound-find :
      (k : K) (e : K × V) (m : Map K V)
      → lower_bound k m ≡ some e
      → (is_some (find e.0 m) ≡ true) × (key.less e.0 k ≡ false)
  unfolding find lower_bound
  lower_bound-find k e [] h = ground arith
  lower_bound-find k e ((j, u) ∷ m) h = ground (arith, lower_bound-find k e m, key.equal_iff e.0 j)

  -- The keys, in order.
  abbrev pub keys : Map K V → List K
  keys [] = []
  keys ((j, w) ∷ m) = j ∷ keys m

  -- Every value changed by `f`.
  unfoldable pub map_values : (V → V) → Map K V → Map K V
  map_values f [] = []
  map_values f ((j, w) ∷ m) = (j, f w) ∷ map_values f m

  pub find-map_values :
      (q : K) (f : V → V) (m : Map K V) → find q (map_values f m) ≡ Option.map f (find q m)
  unfolding find map_values
  find-map_values q f [] = refl
  find-map_values q f ((j, w) ∷ m) = ground (arith, find-map_values q f m)

  -- `f(m.at(k))`, where the value is changed in place; nothing without an entry.
  unfoldable pub adjust : K → (V → V) → Map K V → Map K V
  adjust k f m = elim (find k m) [ none ↦ m | some v ↦ insert k (f v) m ]

  pub find-adjust :
      (q k : K) (f : V → V) (m : Map K V)
      → find q (adjust k f m) ≡ (if key.equal q k then Option.map f (find q m) else find q m)
  unfolding adjust
  find-adjust q k f m = elim (Option-cases (find k m)) [
    | inl e ↦
        rw (e, adjust)
          (elim (Bool-cases (key.equal q k)) [
            | inl same ↦ rw (same, (key.equal_iff q k).0 same, e)
            | inr other ↦ rw other
          ])
    | inr (v, e) ↦
        rw (e, adjust)
          (find-insert q k (f v) m ∙ elim (Bool-cases (key.equal q k)) [
            | inl same ↦ rw (same, (key.equal_iff q k).0 same, e)
            | inr other ↦ rw other
          ])
  ]

  -- A test that every value passes, and so one that is found.
  unfoldable pub every_value : (V → Bool) → Map K V → Bool
  every_value p [] = true
  every_value p ((j, w) ∷ m) = p w && every_value p m

  pub every_value-find :
      (p : V → Bool) (k : K) (v : V) (m : Map K V)
      → every_value p m ≡ true
      → find k m ≡ some v
      → p v ≡ true
  unfolding every_value find
  every_value-find p k v [] all e = ground arith
  every_value-find p k v ((j, w) ∷ m) all e = ground (arith, every_value-find p k v m)
