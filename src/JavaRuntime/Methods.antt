-- ===== src/JavaRuntime/Methods.antt =====
-- Natives, the class hierarchy, and the dispatch of method calls of the Java runtime.
use vardoger.Prelude.{
  ℕ, zero, suc, ◌+◌, Bool, true, false, not, ◌&&◌, ◌||◌, Option, none, some, List, [], ◌∷◌, ◌++◌,
  ◌==◌, if◌then◌else◌, is_some,
}
use vardoger.Prelude.Order.{Bytes, nat_key, bytes_key, equal_bytes}
use vardoger.Prelude.Map.{Map, find, insert, adjust}
use vardoger.Prelude.Act.{Act, ◌>>=◌, modify}
use vardoger.JavaRuntime.{
  DvmValue, void, Entry, Native, Seen, Java, Arena, is_method, class_name, method_name, method_sig,
  text_of, get_method_id, object_class,
}

abbrev pub is_empty : Bytes → Bool
is_empty [] = true
is_empty (b ∷ bs) = false

abbrev named : Bytes → Bytes → Native → Bool
named cls name n = equal_bytes n.cls cls && equal_bytes n.name name

-- The first loop of `lookup_native`.
unfoldable pub first_native : Bytes → Bytes → List Native → Option ℕ
first_native cls name [] = none
first_native cls name (n ∷ rest) =
    if named cls name n then some n.fn else first_native cls name rest

-- The second loop: the last match by the name alone, and how many there are.
unfoldable pub by_name : Bytes → List Native → ℕ → ℕ → ℕ × ℕ
by_name name [] hit count = (hit, count)
by_name name (n ∷ rest) hit count =
    by_name name rest (if equal_bytes n.name name then n.fn else hit)
      (if equal_bytes n.name name then count + 1 else count)

-- The walk of `is_subclass` up the chain, `left` steps at most.
unfoldable pub walk : Map Bytes Bytes → ℕ → Bytes → Bytes → Bool
walk supers zero c sup = false
walk supers (suc left) c sup =
    if is_empty c
    then false
    else if equal_bytes c sup
    then true
    else elim (find c supers) [ none ↦ false | some next ↦ walk supers left next sup ]

module _ {ℓ} {M H : Type ℓ} where
  unfoldable pub set_superclass : Java M H → Bytes → Bytes → Java M H
  set_superclass s cls super =
      if not (is_empty cls) && not (is_empty super) && not (equal_bytes cls super)
      then record s { superclass = insert cls super s.superclass }
      else s

  unfoldable pub superclass_of : Java M H → Bytes → Bytes
  superclass_of s cls = elim (find cls s.superclass) [ none ↦ [] | some super ↦ super ]

  unfoldable pub is_subclass : Java M H → Bytes → Bytes → Bool
  is_subclass s sub sup =
      if equal_bytes sub sup || equal_bytes sup object_class
      then true
      else walk s.superclass 64 sub sup

  unfoldable pub register_method : Java M H → Bytes → H → Java M H
  register_method s name fn = record s { host_methods = insert name fn s.host_methods }

  -- The implementation for the class and name, else for the name.
  unfoldable pub host_method : Java M H → Bytes → Bytes → Option H
  host_method s owner name =
      let by_name' = find name s.host_methods in
      if is_empty owner
      then by_name'
      else elim (find (owner ++ b'#' ∷ name) s.host_methods) [ none ↦ by_name' | some f ↦ some f ]

  -- `invoke` is what a host method does.
  unfoldable pub call_method :
      (H → Java M H → ℕ → List DvmValue → Java M H × DvmValue)
      → Bool
      → Java M H
      → ℕ
      → ℕ
      → List DvmValue
      → Java M H × DvmValue
  call_method invoke observed s mid self args =
      let name = method_name s mid in
      let owner = text_of s mid is_method Entry.owner in
      let impl = host_method s owner name in
      let call : Seen = record {
        owner = owner;
        name = name;
        sig = method_sig s mid;
        args = args;
        handled = is_some impl;
      } in
      let s' : Java M H = record s { seen = if observed then s.seen ++ call ∷ [] else s.seen } in
      elim impl [ none ↦ (s', void) | some f ↦ invoke f s' self args ]

  unfoldable pub lookup_native : Java M H → Bytes → Bytes → ℕ
  lookup_native s cls name = elim (first_native cls name s.registered) [
    | some fn ↦ fn
    | none ↦ let (hit, count) = by_name name s.registered 0 0 in if count == 1 then hit else 0
  ]

  -- `get(mid)->native_fn = fn; registered_.push_back({class_name(clazz), name, sig, fn});`
  abbrev pub enter_native : ℕ → Bytes → Bytes → ℕ → ℕ → Act (Java M H) (Unit {0})
  enter_native clazz name sig fn mid = modify (λ s. record s {
    handles = adjust mid (λ r. record r { native_fn = fn }) s.handles;
    registered =
        s.registered ++ record { cls = class_name s clazz; name = name; sig = sig; fn = fn } ∷ [];
  })

module _ {ℓ} {M H : Type ℓ} (arena : Arena M) where
  unfoldable pub register_native : ℕ → Bytes → Bytes → ℕ → Act (Java M H) (Unit {0})
  register_native clazz name sig fn = do
    mid ← get_method_id arena clazz name sig false
    enter_native clazz name sig fn mid
