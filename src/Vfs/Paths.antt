-- ===== src/Vfs/Paths.antt =====
-- Directories of core/android/vfs.cpp: `is_dir` looks at one entry of the ordered store.
use mathlib.Core.List.{reverse, reverse-append, reverse-reverse}
use vardoger.Prelude.{
  ◌≡◌, ◌≢◌, ◌↔◌, ◌⊎◌, inl, inr, refl, sym, ap, ◌∙◌, true, false, [], ◌∷◌, ◌++◌, arith, is_some,
  Option-cases, Bool-cases, if◌then◌else◌, ◌==◌,
}
use vardoger.Prelude.Order.{Bytes, bytes_key, less_bytes, equal_bytes, equal_bytes_iff}
use vardoger.Prelude.Map.{
  Map, find, lower_bound, IsSorted, lower_bound-least, lower_bound-find, find-insert_self,
}
use vardoger.Vfs.{Vfs, trim_back, trim, starts_with, implied_dir, is_dir, add_dir}

starts_with-less : (p k : Bytes) → starts_with p k ≡ true → less_bytes k p ≡ false
unfolding starts_with
starts_with-less [] [] h = refl
starts_with-less [] (d ∷ ds) h = refl
starts_with-less (c ∷ cs) [] h = ground arith
starts_with-less (c ∷ cs) (d ∷ ds) h = ground (arith, starts_with-less cs ds)

-- The keys that begin with `p` are consecutive, and nothing at or after `p` comes before them.
starts_with_between :
    (p a b : Bytes)
    → less_bytes a p ≡ false
    → less_bytes b a ≡ false
    → starts_with p b ≡ true
    → starts_with p a ≡ true
unfolding starts_with
starts_with_between [] a b low high h = refl
starts_with_between (c ∷ cs) [] b low high h = ground arith
starts_with_between (c ∷ cs) (e ∷ es) [] low high h = ground arith
starts_with_between (c ∷ cs) (e ∷ es) (d ∷ ds) low high h =
    ground (arith, starts_with_between cs es ds)

-- Some stored file lies under the prefix.
abbrev pub HasUnder : Map Bytes Bytes → Bytes → Type 0
HasUnder store prefix =
    (key : Bytes) × (is_some (find key store) ≡ true) × (starts_with prefix key ≡ true)

implied_dir_sound :
    (prefix : Bytes) (store : Map Bytes Bytes)
    → implied_dir prefix (lower_bound prefix store) ≡ true
    → HasUnder store prefix
unfolding implied_dir
implied_dir_sound prefix store h = elim (Option-cases (lower_bound prefix store)) [
  | inl e ↦ absurd (let no : false ≡ true = (rw (e, implied_dir) at h) in cc)
  | inr (entry, e) ↦
      (entry.0, (lower_bound-find prefix entry store e).0, (rw (e, implied_dir) at h))
]

implied_dir_complete :
    (prefix : Bytes) (store : Map Bytes Bytes)
    → IsSorted store
    → HasUnder store prefix
    → implied_dir prefix (lower_bound prefix store) ≡ true
unfolding implied_dir
implied_dir_complete prefix store sorted (key, found, under) =
    elim (Option-cases (find key store)) [
      | inl e ↦ ground arith
      | inr (w, e) ↦
          let (entry, hit, before) =
            lower_bound-least prefix key w store sorted e (starts_with-less prefix key under) in
          rw hit (
            starts_with_between prefix entry.0 key (lower_bound-find prefix entry store hit).1
              before under)
    ]

abbrev pub root : Bytes
root = b'/' ∷ []

-- Some stored file is in the directory or below it: its path is the directory's, a slash (the root
-- has it at its end) and more.
abbrev pub LiesUnder : Map Bytes Bytes → Bytes → Type 0
LiesUnder store dir =
    (name : Bytes) × (is_some
        (find ((if equal_bytes dir root then dir else dir ++ root) ++ name) store)
      ≡ true)

starts_with-append : (p name : Bytes) → starts_with p (p ++ name) ≡ true
unfolding starts_with
starts_with-append [] name = refl
starts_with-append (c ∷ cs) name = ground (arith, starts_with-append cs name)

starts_with-split : (p key : Bytes) → starts_with p key ≡ true → (name : Bytes) × (key ≡ p ++ name)
unfolding starts_with
starts_with-split [] key h = (key, refl)
starts_with-split (c ∷ cs) [] h = absurd cc
starts_with-split (c ∷ cs) (d ∷ ds) h = elim (Bool-cases (c == d)) [
  | inl same ↦
      let (name, e) = starts_with-split cs ds (rw same at h) in
      let c_d : c ≡ d = ground arith in (name, rw (c_d, e) refl)
  | inr other ↦ absurd (let no : false ≡ true = rw other at h in cc)
]

HasUnder-iff :
    (store : Map Bytes Bytes) (p : Bytes)
    → HasUnder store p ↔ ((name : Bytes) × (is_some (find (p ++ name) store) ≡ true))
HasUnder-iff store p = (
  λ u.
      let (key, found, under) = u in
      let (name, e) = starts_with-split p key under in (name, rw e at found),
  λ u. (p ++ u.0, u.1, starts_with-append p u.0),
)

-- `is_dir` of a path that is looked up as `dir`.
is_dir-HasUnder :
    (v : Vfs) (path : Bytes)
    → IsSorted v.store
    → (is_dir v path ≡ true)
      ↔ ((is_some (find (trim path) v.dirs) ≡ true) ⊎ HasUnder v.store (trim path ++ root))
unfolding is_dir
is_dir-HasUnder v path sorted = elim (Bool-cases (is_some (find (trim path) v.dirs))) [
  | inl yes' ↦ (λ _. inl yes', λ _. rw yes')
  | inr no' ↦ rw no' (
    λ h. inr (implied_dir_sound _ _ h),
    λ d. elim d [ inl e ↦ cc | inr u ↦ implied_dir_complete _ _ sorted u ],
  )
]

-- On an ordered store, `is_dir` of a path that is not the root holds exactly of the registered
-- directories (less trailing slashes) and of those with a stored file in them or below. Of the root
-- it holds exactly if that is registered or the path of a stored file begins with two slashes.
pub is_dir_iff :
    (v : Vfs) (path : Bytes)
    → IsSorted v.store
    → (is_dir v path ≡ true) ↔ (
        (is_some (find (trim path) v.dirs) ≡ true)
        ⊎ (((trim path ≢ root) × LiesUnder v.store (trim path))
            ⊎ ((trim path ≡ root)
                × ((name : Bytes) × (is_some (find (root ++ (root ++ name)) v.store) ≡ true)))))
is_dir_iff v path sorted =
    let whole = is_dir-HasUnder v path sorted in
    let under = HasUnder-iff v.store (trim path ++ root) in
    let decided = equal_bytes_iff (trim path) root in
    elim (Bool-cases (equal_bytes (trim path) root)) [
      | inr other ↦
          let apart : trim path ≢ root =
            λ e. let no : true ≡ false = sym (decided.1 e) ∙ other in cc in
          rw other (
            λ h. elim (whole.0 h) [ inl e ↦ inl e | inr u ↦ inr (inl (apart, under.0 u)) ],
            λ d. whole.1 (elim d [
              | inl e ↦ inl e
              | inr (inl u) ↦ inr (under.1 u.1)
              | inr (inr u) ↦ absurd (apart u.0)
            ]),
          )
      | inl same ↦
          let e = decided.0 same in
          let same_text =
            λ (name : Bytes). ap (λ (d : Bytes). is_some (find ((d ++ root) ++ name) v.store)) e in
          (
            λ h. elim (whole.0 h) [
              | inl r ↦ inl r
              | inr u ↦
                  let (name, at) = under.0 u in inr (inr (e, (name, sym (same_text name) ∙ at)))
            ],
            λ d. whole.1 (elim d [
              | inl r ↦ inl r
              | inr (inl u) ↦ absurd (u.0 e)
              | inr (inr u) ↦ inr (under.1 (u.1.0, same_text u.1.0 ∙ u.1.1))
            ]),
          )
    ]

-- A byte before a non-empty text, seen by the loop: a slash goes.
trim_back-slash : (cs : Bytes) → cs ≢ [] → trim_back (b'/' ∷ cs) ≡ trim_back cs
unfolding trim_back
trim_back-slash [] h = absurd (h refl)
trim_back-slash (c ∷ cs) h = refl

reverse-ne-nil : (cs : Bytes) → cs ≢ [] → reverse cs ≢ []
reverse-ne-nil cs h e = h (sym (reverse-reverse cs) ∙ ap reverse e)

-- A trailing slash makes no difference to the path that is looked up.
pub trim-slash : (path : Bytes) → path ≢ [] → trim (path ++ b'/' ∷ []) ≡ trim path
unfolding trim
trim-slash path h = ap reverse (
    ap trim_back (reverse-append path (b'/' ∷ []))
    ∙ trim_back-slash (reverse path) (reverse-ne-nil path h))

trim_back-ne-nil : (cs : Bytes) → cs ≢ [] → trim_back cs ≢ []
unfolding trim_back
trim_back-ne-nil [] h = h
trim_back-ne-nil (c ∷ []) h = λ e. cc
trim_back-ne-nil (c ∷ d ∷ ds) h = ground (arith, trim_back-ne-nil (d ∷ ds))

trim-ne-nil : (path : Bytes) → path ≢ [] → trim path ≢ []
unfolding trim
trim-ne-nil path h = reverse-ne-nil _ (trim_back-ne-nil _ (reverse-ne-nil path h))

-- A registered path is a directory afterwards, with and without a slash at its end.
pub is_dir-add_dir :
    (v : Vfs) (path : Bytes)
    → path ≢ []
    → (is_dir (add_dir v path) path ≡ true) × (is_dir (add_dir v path) (path ++ b'/' ∷ []) ≡ true)
unfolding is_dir add_dir
is_dir-add_dir v path h = rw (trim-slash path h) (
    ground (
      arith,
      equal_bytes_iff (trim path) [],
      trim-ne-nil path h,
      find-insert_self (trim path) tt v.dirs,
    ))
