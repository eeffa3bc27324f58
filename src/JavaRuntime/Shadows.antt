-- ===== src/JavaRuntime/Shadows.antt =====
-- The memory manager's `java_alloc` serves the Java runtime as its arena.
use vardoger.Prelude.{ℕ, ◌+◌, ◌≤◌, ◌<◌, ◌≡◌, Option, some, arith}
use vardoger.Memory.{Memory}
use vardoger.Memory.Arenas.{java_alloc}
use vardoger.Memory.Arenas.Bumps.{
  JavaOk, java_cursor, Bumped, given, exhausted, unmapped, java_alloc-Bumped,
}
use vardoger.JavaRuntime.{Arena}

module _ {ℓ} {E : Type ℓ} (map : E → ℕ → ℕ → ℕ → Option E)
    (unmap_pages : E → ℕ → ℕ → Option E) where
  pub Bumped-fresh :
      (s : Memory E) (len p : ℕ) (r : Memory E × Option ℕ)
      → Bumped map unmap_pages s len r
      → JavaOk map unmap_pages s
      → r.1 ≡ some p
      → (0 < p) × (java_cursor map unmap_pages s ≤ p) × (p + len ≤ java_cursor map unmap_pages r.0)
  Bumped-fresh s len p _ (given q s' a b c d ok) v e = ground arith
  Bumped-fresh s len p _ (exhausted s' a ok same) v e = cc
  Bumped-fresh s len p _ (unmapped a b) v e = cc

  pub Bumped-rises :
      (s : Memory E) (len : ℕ) (r : Memory E × Option ℕ)
      → Bumped map unmap_pages s len r
      → java_cursor map unmap_pages s ≤ java_cursor map unmap_pages r.0
  Bumped-rises s len _ (given q s' a b c d ok) = ground arith
  Bumped-rises s len _ (exhausted s' a ok same) = ground arith
  Bumped-rises s len _ (unmapped a b) = ground arith

  pub Bumped-JavaOk :
      (s : Memory E) (len : ℕ) (r : Memory E × Option ℕ)
      → JavaOk map unmap_pages s
      → Bumped map unmap_pages s len r
      → JavaOk map unmap_pages r.0
  Bumped-JavaOk s len _ v (given q s' a b c d ok) = ok
  Bumped-JavaOk s len _ v (exhausted s' a ok same) = ok
  Bumped-JavaOk s len _ v (unmapped a b) = v

  abbrev pub memory_arena : Arena (Memory E)
  memory_arena = record {
    java_alloc = λ s len. java_alloc map unmap_pages s len 16;
    cursor = java_cursor map unmap_pages;
    IsOk = JavaOk map unmap_pages;
    fresh = λ s len p v small e.
        Bumped-fresh s len p _ (java_alloc-Bumped map unmap_pages s len (omega arith) v) v e;
    rises = λ s len v small.
        Bumped-rises s len _ (java_alloc-Bumped map unmap_pages s len (omega arith) v);
    stays = λ s len v small.
        Bumped-JavaOk s len _ v (java_alloc-Bumped map unmap_pages s len (omega arith) v);
  }
