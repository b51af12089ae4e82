-- ===== src/Palloc/Reuse.antt =====
-- The search of nc_palloc_large for a free record.
use mathlib.Core.Option
use libnc.Prelude.{
  ℕ, ◌+◌, ◌≡◌, ◌≢◌, refl, ap, sym, inl, inr, ◌||◌, Option, none, some, List, [], ◌∷◌, arith, ltb,
  ◌==◌, Bool-cases,
}
use libnc.Memory.{Addr, null, Mem, block, within}
use libnc.Palloc.Chain.{Chunk}
use libnc.Palloc.Blocks.{Large, reuse}
use libnc.Palloc.Invariant.{NotBase, NotLarge, IsLargeList, cells_of, used_large}

-- The block of `size` bytes at p has come into the list, and no block has left it.
pub record Reused (m' : Mem) (bs : List Chunk) (size : ℕ) (p : Addr) (ls ls' : List Large)
    : Type 0 where
  pub valid : IsLargeList m' bs ls'
  pub used : (a : Addr) → used_large m' ls' a ≡ (used_large m' ls a || within p size a)
  pub larges : (q : Addr) → q ≢ p → NotLarge q ls → NotLarge q ls'
  pub same_cells : cells_of ls' ≡ cells_of ls

pub data ReuseResult (m' : Mem) (bs : List Chunk) (size : ℕ) (p : Addr) (ls : List Large)
    : Option (List Large) → Type 0 where
  missed : ReuseResult m' bs size p ls none
  found : {ls' : List Large} → Reused m' bs size p ls ls' → ReuseResult m' bs size p ls (some ls')

module _ (m : Mem) (bs : List Chunk) (size : ℕ) (p : Addr) (live : block m p ≡ some size)
    (not_null : p ≢ null) (base : NotBase p bs) where
  -- A record before the one that is reused stays.
  keep-ReuseResult :
      {l : Large} {ls : List Large} {r : Option (List Large)}
      → IsLargeList m bs (l ∷ ls)
      → NotLarge p (l ∷ ls)
      → ReuseResult m bs size p ls r
      → ReuseResult m bs size p (l ∷ ls) (Option.map (◌∷◌ l) r)
  unfolding used_large
  keep-ReuseResult is out missed = missed
  keep-ReuseResult {l} (inl free, is) out (found r) = found (record {
    valid = (inl free, r.valid);
    used = λ a. ground (arith, r.used a);
    larges = λ q ne h. (h.0, r.larges q ne h.1);
    same_cells = ap (◌∷◌ l.cell) r.same_cells;
  })
  keep-ReuseResult {l} (inr (n, old, b, later), is) out (found r) = found (record {
    valid = (inr (n, old, b, r.larges l.alloc (λ e. out.0 (sym e)) later), r.valid);
    used = λ a. ground (arith, r.used a);
    larges = λ q ne h. (h.0, r.larges q ne h.1);
    same_cells = ap (◌∷◌ l.cell) r.same_cells;
  })

  pub reuse-ReuseResult :
      (n : ℕ) (ls : List Large)
      → IsLargeList m bs ls
      → NotLarge p ls
      → ReuseResult m bs size p ls (reuse n p ls)
  unfolding reuse used_large
  reuse-ReuseResult n [] is out = missed
  reuse-ReuseResult n (l ∷ ls) is out = elim (Bool-cases (l.alloc == null)) [
    | inl free ↦ rw free (
        found (record {
          valid = (inr (size, live, base, out.1), is.1);
          used = λ a. ground arith;
          larges = λ q ne h. (ne, h.1);
          same_cells = refl;
        }))
    | inr taken ↦ elim (Bool-cases (ltb 3 n)) [
      | inl stop ↦ rw (taken, stop) missed
      | inr more ↦
          rw (taken, more) (keep-ReuseResult is out (reuse-ReuseResult (n + 1) ls is.1 out.1))
    ]
  ]
