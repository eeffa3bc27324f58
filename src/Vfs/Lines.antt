-- ===== src/Vfs/Lines.antt =====
-- `gets` of core/android/vfs.cpp against a description of what a line is.
use vardoger.Prelude.{
  ℕ, zero, suc, ◌+◌, ◌≤◌, ◌<◌, ◌≡◌, ◌≢◌, refl, ap, ◌∙◌, inl, inr, true, false, some, [], ◌∷◌, ◌++◌,
  arith, ◌==◌, ltb, Bool-cases, length, take, drop, length-append, length-drop, append_assoc,
  append-nil, lt→ltb, ==_iff,
}
use vardoger.Prelude.Order.{Bytes, bytes_key, nat_key}
use vardoger.Prelude.Map.{find}
use vardoger.Vfs.{Vfs, Handle, gets, set_handle, data_of, gets_loop}

-- `Line budget bytes line`: of `bytes`, `line` is the part up to the first newline, that one
-- included, or up to `budget` bytes, or all of them, whichever is shortest.
pub data Line : ℕ → Bytes → Bytes → Type 0 where
  full : {bytes : Bytes} → Line zero bytes []
  end : {n : ℕ} → Line n [] []
  newline : {n c : ℕ} {bytes : Bytes} → c ≡ b'\n' → Line (suc n) (c ∷ bytes) (c ∷ [])
  char :
      {n c : ℕ} {bytes line : Bytes}
      → c ≢ b'\n'
      → Line n bytes line
      → Line (suc n) (c ∷ bytes) (c ∷ line)

-- The loop adds such a line to what it has, and counts it on the position.
gets_loop-Line :
    (bytes : Bytes) (pos : ℕ) (got : Bytes) (limit budget : ℕ)
    → length got + budget + 1 ≡ limit
    → (line : Bytes) × Line budget bytes line
      × (gets_loop bytes pos got limit ≡ (pos + length line, got ++ line))
unfolding gets_loop
gets_loop-Line [] pos got limit budget e = ([], end, ground (arith, append-nil got))
gets_loop-Line (c ∷ bytes) pos got limit zero e =
    let stop : ltb (length got + 1) limit ≡ false = ground arith in
    ([], full, rw stop (ground (arith, append-nil got)))
gets_loop-Line (c ∷ bytes) pos got limit (suc budget) e =
    let more : ltb (length got + 1) limit ≡ true = ground arith in
    elim (Bool-cases (c == b'\n')) [
      | inl hit ↦ (c ∷ [], newline ((==_iff c _).0 hit), rw (more, hit))
      | inr miss ↦
          let (line, is_line, r) =
            gets_loop-Line bytes (pos + 1) (got ++ c ∷ []) limit budget
              (omega (arith, length-append got (c ∷ []))) in
          (
            c ∷ line,
            char (λ h. ground (arith, ==_iff c b'\n')) is_line,
            rw (more, miss) (r ∙ ground (arith, append_assoc got (c ∷ []) line)),
          )
    ]

-- A line is not empty where there are bytes and room for one.
Line-pos :
    {n : ℕ} {bytes line : Bytes} → Line n bytes line → 0 < n → 0 < length bytes → 0 < length line
Line-pos full h k = h
Line-pos end h k = k
Line-pos (newline e) h k = omega arith
Line-pos (char e l) h k = omega arith

-- A line is where the bytes begin.
Line-prefix :
    {n : ℕ} {bytes line : Bytes}
    → Line n bytes line
    → (line ≡ take (length line) bytes) × (length line ≤ n)
Line-prefix full = (refl, omega arith)
Line-prefix end = (refl, omega arith)
Line-prefix (newline {n} {c} {bytes} e) = (refl, omega arith)
Line-prefix (char {n} {c} {bytes} {line} e l) =
    (ap (◌∷◌ c) (Line-prefix l).0, omega (arith, (Line-prefix l).1))

-- `gets` with a buffer of `limit + 1` bytes, on an open descriptor whose position is before the end,
-- succeeds: it gives the line that begins at the position, of at most `limit` bytes, not empty if
-- `limit` is positive, and moves the position behind it.
pub gets_lem :
    (v : Vfs) (fd : ℕ) (out : Bytes) (limit : ℕ) (h : Handle)
    → find fd v.handles ≡ some h
    → h.pos < length (data_of v h)
    → (line : Bytes) × Line limit (drop h.pos (data_of v h)) line
      × (line ≡ take (length line) (drop h.pos (data_of v h)))
      × (length line ≤ limit)
      × (0 < limit → 0 < length line)
      × (gets v fd out (limit + 1)
          ≡ (set_handle v fd (record h { pos = h.pos + length line }), line, true))
unfolding gets
gets_lem v fd out limit h e inside =
    let (line, is_line, r) =
      gets_loop-Line (drop h.pos (data_of v h)) h.pos [] (limit + 1) limit (omega arith) in
    let some_room : ((limit + 1) == 0) ≡ false = ground arith in
    let before : ltb h.pos (length (data_of v h)) ≡ true = lt→ltb _ _ inside in
    (
      line,
      is_line,
      (Line-prefix is_line).0,
      (Line-prefix is_line).1,
      λ room. Line-pos is_line room (omega (arith, length-drop h.pos (data_of v h))),
      rw (e, gets) (rw r (rw some_room (rw before refl))),
    )
