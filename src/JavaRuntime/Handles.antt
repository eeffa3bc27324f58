-- ===== src/JavaRuntime/Handles.antt =====
-- The table of handles: every operation that makes one gives a fresh one and keeps the others.
use vardoger.Prelude.{
  ℕ, ◌+◌, ◌≤◌, ◌<◌, ◌≡◌, refl, inl, inr, true, Option, none, some, arith, Option-cases, ==_iff,
}
use vardoger.Prelude.Order.{Bytes, nat_key, bytes_key}
use vardoger.Prelude.Map.{find, insert, find-insert, find-insert_self}
use vardoger.JavaRuntime.{Entry, Java, Arena, is_class, alloc}

module _ {ℓ} {M H : Type ℓ} (arena : Arena M) where
  -- The entries lie apart from what is allocated next, none at 0, and the two caches lead to
  -- entries: the one of classes to the class of that name.
  pub record IsTable (s : Java M H) : Type ℓ where
    pub arena_ok : arena.IsOk s.mem
    pub below :
        (h : ℕ) (r : Entry) → find h s.handles ≡ some r → (0 < h) × (h + 0x80 ≤ arena.cursor s.mem)
    pub classes :
        (name : Bytes) (h : ℕ)
        → find name s.class_by_name ≡ some h
        → (r : Entry) × (find h s.handles ≡ some r) × (is_class r ≡ true) × (r.name ≡ name)
    pub members :
        (key : Bytes) (h : ℕ)
        → find key s.member_cache ≡ some h
        → (r : Entry) × (find h s.handles ≡ some r)

  -- No entry and no class is lost.
  pub record Grows (s s' : Java M H) : Type ℓ where
    pub table : IsTable s'
    pub keeps : (h : ℕ) (r : Entry) → find h s.handles ≡ some r → find h s'.handles ≡ some r
    pub keeps_class :
        (name : Bytes) (h : ℕ)
        → find name s.class_by_name ≡ some h
        → find name s'.class_by_name ≡ some h

  pub Grows-refl : (s : Java M H) → IsTable s → Grows s s
  Grows-refl s t = record { table = t; keeps = λ h r e. e; keeps_class = λ n h e. e }

  pub Grows-trans : (s t u : Java M H) → Grows s t → Grows t u → Grows s u
  Grows-trans s t u a b = record {
    table = b.table;
    keeps = λ h r e. b.keeps h r (a.keeps h r e);
    keeps_class = λ n h e. b.keeps_class n h (a.keeps_class n h e);
  }

  -- The state `s'` has one entry more than `s`, at a fresh place.
  pub record Added (s s' : Java M H) (h : ℕ) (r : Entry) : Type ℓ where
    pub grows : Grows s s'
    pub unused : find h s.handles ≡ none
    pub there : find h s'.handles ≡ some r
    pub not_null : 0 < h
    pub classes_same : s'.class_by_name ≡ s.class_by_name
    pub members_same : s'.member_cache ≡ s.member_cache

  -- How `alloc` ends.
  pub data Allocated (s : Java M H) (r : Entry) : Java M H × Option ℕ → Type ℓ where
    added : (s' : Java M H) (h : ℕ) → Added s s' h r → Allocated s r (s', some h)
    full : (s' : Java M H) → Grows s s' → Allocated s r (s', none)

  -- Only the memory manager moves on.
  mem-Grows :
      (s : Java M H) (mem : M)
      → arena.IsOk mem
      → arena.cursor s.mem ≤ arena.cursor mem
      → IsTable s
      → Grows s (record s { mem = mem })
  mem-Grows s mem ok up t = record {
    table = record {
      arena_ok = ok;
      below = λ h r e. omega (arith, t.below h r e);
      classes = t.classes;
      members = t.members;
    };
    keeps = λ h r e. e;
    keeps_class = λ n h e. e;
  }

  insert-keeps :
      (s : Java M H) (h : ℕ) (r : Entry)
      → find h s.handles ≡ none
      → (k : ℕ) (q : Entry) → find k s.handles ≡ some q
      → find k (insert h r s.handles) ≡ some q
  insert-keeps s h r u k q e = ground (arith, find-insert k h r s.handles, ==_iff k h)

  add-Added :
      (s : Java M H) (mem : M) (h : ℕ) (r : Entry)
      → arena.IsOk mem
      → 0 < h
      → arena.cursor s.mem ≤ h
      → h + 0x80 ≤ arena.cursor mem
      → IsTable s
      → Added s (record s { mem = mem; handles = insert h r s.handles }) h r
  add-Added s mem h r ok pos lo hi t =
      let unused : find h s.handles ≡ none = elim (Option-cases (find h s.handles)) [
        | inl e ↦ e
        | inr (q, e) ↦ absurd (omega (arith, t.below h q e))
      ] in
      let kept = insert-keeps s h r unused in
      record {
        grows = record {
          table = record {
            arena_ok = ok;
            below = λ k q e. ground (arith, find-insert k h r s.handles, t.below k q);
            classes = λ n k e. let (q, f, g, i) = t.classes n k e in (q, kept k q f, g, i);
            members = λ n k e. let (q, f) = t.members n k e in (q, kept k q f);
          };
          keeps = kept;
          keeps_class = λ n k e. e;
        };
        unused = unused;
        there = find-insert_self h r s.handles;
        not_null = pos;
        classes_same = refl;
        members_same = refl;
      }

  pub alloc-Allocated : (s : Java M H) (r : Entry) → IsTable s → Allocated s r (alloc arena r s)
  unfolding alloc
  alloc-Allocated s r t =
      let mem = (arena.java_alloc s.mem 0x80).0 in
      let ok = arena.stays s.mem 0x80 t.arena_ok (omega arith) in
      elim (Option-cases (arena.java_alloc s.mem 0x80).1) [
        | inl e ↦
            rw (e, alloc)
              (full _ (mem-Grows s mem ok (arena.rises s.mem 0x80 t.arena_ok (omega arith)) t))
        | inr (h, e) ↦
            let at = arena.fresh s.mem 0x80 h t.arena_ok (omega arith) e in
            let new = add-Added s mem h r ok at.0 at.1 at.2 t in
            rw (e, alloc) (rw new.unused (added _ h new))
      ]
