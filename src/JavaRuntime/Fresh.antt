-- ===== src/JavaRuntime/Fresh.antt =====
-- What the operations that make handles give.
use vardoger.Prelude.{
  ℕ, ◌+◌, ◌<◌, ◌≡◌, refl, sym, ap, ◌∙◌, inl, inr, true, Option, none, some, List, arith,
  if◌then◌else◌, Bool-cases, Option-cases,
}
use vardoger.Prelude.Order.{Bytes, nat_key, bytes_key, equal_bytes, equal_bytes_iff}
use vardoger.Prelude.Map.{Map, find, insert, find-insert, find-insert_self}
use vardoger.Prelude.Act.{◌>>=◌, ◌>>◌, ret}
use vardoger.JavaRuntime.{
  Store, Entry, blank, class, Java, Arena, is_class, class_name, write32, alloc, enter_class,
  find_class,
}
use vardoger.JavaRuntime.Objects.{new_entry}
use vardoger.JavaRuntime.Handles.{
  IsTable, Grows, Grows-refl, Grows-trans, Added, Allocated, added, full, alloc-Allocated,
}

pub some_eq : {a b : ℕ} → ◌≡◌ {A = Option ℕ} (some a) (some b) → a ≡ b
some_eq h = ground arith

keeps_insert :
    (name : Bytes) (h : ℕ) (n : Bytes) (k : ℕ) (m m' : Map Bytes ℕ)
    → m' ≡ m
    → find name m ≡ none
    → find n m ≡ some k
    → find n (insert name h m') ≡ some k
keeps_insert name h n k m m' same new e =
    rw same (ground (arith, find-insert n name h m, equal_bytes_iff n name))

module _ {ℓ} {M H : Type ℓ} (arena : Arena M) where
  pub class_name_lem :
      (s : Java M H) (h : ℕ) (r : Entry)
      → find h s.handles ≡ some r
      → is_class r ≡ true
      → class_name s h ≡ r.name
  class_name_lem s h r e kind = ground arith

  classes_insert :
      (s : Java M H) (name : Bytes) (h : ℕ) (r : Entry)
      → IsTable arena s
      → find h s.handles ≡ some r
      → is_class r ≡ true
      → r.name ≡ name
      → (n : Bytes) (k : ℕ) → find n (insert name h s.class_by_name) ≡ some k
      → (q : Entry) × (find k s.handles ≡ some q) × (is_class q ≡ true) × (q.name ≡ n)
  classes_insert s name h r t at kind same n k e =
      let e' : (if equal_bytes n name then some h else find n s.class_by_name) ≡ some k =
        sym (find-insert n name h s.class_by_name) ∙ e in
      elim (Bool-cases (equal_bytes n name)) [
        | inl hit ↦
            let k_h : h ≡ k = some_eq (rw hit at e') in
            (
              r,
              ap (λ (x : ℕ). find x s.handles) (sym k_h) ∙ at,
              kind,
              same ∙ sym ((equal_bytes_iff n name).0 hit),
            )
        | inr miss ↦ t.classes n k (rw miss at e')
      ]

  -- How `find_class` ends: with the handle of the class of that name, which the cache leads to from
  -- then on, or with an exception; no entry and no class is lost.
  pub data Found (s : Java M H) (name : Bytes) : Java M H × Option ℕ → Type ℓ where
    found :
        (s' : Java M H) (h : ℕ)
        → Grows arena s s'
        → find name s'.class_by_name ≡ some h
        → class_name s' h ≡ name
        → Found s name (s', some h)
    failed : (s' : Java M H) → Grows arena s s' → Found s name (s', none)

  enter_class-Found :
      (s : Java M H) (name : Bytes) (p : Java M H × Option ℕ)
      → find name s.class_by_name ≡ none
      → Allocated arena s (record (blank class) { name = name }) p
      → Found s name (((λ (t : Java M H). p) >>= enter_class name) s)
  enter_class-Found s name _ new (full s' g) = failed s' g
  enter_class-Found s name _ new (added s' h a) =
      let r : Entry = record (blank class) { name = name } in
      let s'' : Java M H = (enter_class name h s').0 in
      found s'' h
        (record {
          table = record {
            arena_ok = a.grows.table.arena_ok;
            below = a.grows.table.below;
            classes = classes_insert s' name h r a.grows.table a.there refl refl;
            members = a.grows.table.members;
          };
          keeps = a.grows.keeps;
          keeps_class = λ n k e.
              keeps_insert name h n k s.class_by_name s'.class_by_name a.classes_same new e;
        })
        (find-insert_self name h s'.class_by_name) (class_name_lem s'' h r a.there refl)

  pub find_class-Found :
      (s : Java M H) (name : Bytes) → IsTable arena s → Found s name (find_class arena name s)
  unfolding find_class
  find_class-Found s name t = elim (Option-cases (find name s.class_by_name)) [
    | inr (h, e) ↦
        let (r, at, kind, same) = t.classes name h e in
        rw (e, find_class)
          (found s h (Grows-refl arena s t) e (class_name_lem s h r at kind ∙ same))
    | inl e ↦
        rw (e, find_class)
          (enter_class-Found s name _ e
            (alloc-Allocated arena s (record (blank class) { name = name }) t))
  ]

  -- How the operations that make an object, a string or an array end: with a handle that was not
  -- in use and is not 0, which leads to the entry, every other entry kept; or with an exception.
  pub data Made (s : Java M H) (r : Entry) : Java M H × Option ℕ → Type ℓ where
    made :
        (s' : Java M H) (h : ℕ)
        → Grows arena s s'
        → find h s.handles ≡ none
        → 0 < h
        → find h s'.handles ≡ some r
        → Made s r (s', some h)
    unmade : (s' : Java M H) → Grows arena s s' → Made s r (s', none)

  -- Writes to guest memory leave the tables alone.
  stores-Grows :
      (s t : Java M H) (stores : List Store)
      → Grows arena s t
      → Grows arena s (record t { stores = stores })
  stores-Grows s t stores g = record {
    table = record {
      arena_ok = g.table.arena_ok;
      below = g.table.below;
      classes = g.table.classes;
      members = g.table.members;
    };
    keeps = g.keeps;
    keeps_class = g.keeps_class;
  }

  linked-Made :
      (s s' : Java M H) (h : ℕ) (r : Entry) (cls : Bytes) (p : Java M H × Option ℕ)
      → Added arena s s' h r
      → Found s' cls p
      → Made s r (((λ (t : Java M H). p) >>= (λ (c : ℕ). write32 h c >> ret h)) s')
  linked-Made s s' h r cls _ a (failed t g) = unmade t (Grows-trans arena s s' t a.grows g)
  linked-Made s s' h r cls _ a (found t c g e n) =
      made _ h (stores-Grows s t _ (Grows-trans arena s s' t a.grows g)) a.unused a.not_null
        (g.keeps h r a.there)

  entry-Made :
      (s : Java M H) (r : Entry) (cls : Bytes) (p : Java M H × Option ℕ)
      → Allocated arena s r p
      → Made s r (
          ((λ (t : Java M H). p)
              >>= (λ (h : ℕ). find_class arena cls >>= (λ (c : ℕ). write32 h c >> ret h)))
            s)
  entry-Made s r cls _ (full s' g) = unmade s' g
  entry-Made s r cls _ (added s' h a) =
      linked-Made s s' h r cls (find_class arena cls s') a (find_class-Found s' cls a.grows.table)

  pub new_entry-Made :
      (s : Java M H) (r : Entry) (cls : Bytes)
      → IsTable arena s
      → Made s r (new_entry arena r cls s)
  unfolding new_entry
  new_entry-Made s r cls t = entry-Made s r cls (alloc arena r s) (alloc-Allocated arena s r t)

  pub then_length-Made :
      (s : Java M H) (r : Entry) (value : ℕ) (p : Java M H × Option ℕ)
      → Made s r p
      → Made s r (((λ (t : Java M H). p) >>= (λ (h : ℕ). write32 (h + 8) value >> ret h)) s)
  then_length-Made s r value _ (unmade t g) = unmade t g
  then_length-Made s r value _ (made t h g u pos at) = made _ h (stores-Grows s t _ g) u pos at
