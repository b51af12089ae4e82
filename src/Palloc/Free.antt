-- ===== src/Palloc/Free.antt =====
-- nc_pfree of src/nc_palloc.c.
use mathlib.Core.Option
use libnc.Prelude.{
  ℕ, ◌≡◌, ◌≢◌, refl, ap, sym, subst, true, ◌∙◌, inl, inr, false, ◌&&◌, Option, none, some, List, [],
  ◌∷◌, arith, ◌==◌, Bool-cases,
}
use mathlib.Core.Bool.{not}
use libnc.Memory.{Addr, null, Mem, block, within}
use libnc.Memory.Gives.{Gives, gives, seq}
use libnc.Memory.Heap.{IsHeap, Freed-IsHeap}
use libnc.Memory.Libc.{Libc, IsLibc, Freed}
use libnc.Macros.{Status, nc_ok, nc_error}
use libnc.Macros.Calloc.{nc_free-Freed}
use libnc.Palloc.Chain.{Chunk}
use libnc.Palloc.Blocks.{Large, forget}
use libnc.Palloc.Invariant.{
  NotBase, NotLarge, IsLargeList, IsRecords, cells_of, IsPool, used_large, in_use,
}
use libnc.Palloc.Small.{apart_chain}
use libnc.Palloc.Block.{apart_large}
use libnc.Palloc.Release.{has_large, IsChain-freed, IsLargeList-freed}
use libnc.Palloc.{Pool, after_forget, pfree}

-- The record of p has been cleared: p was a live block of n bytes, no chunk, and once it is free
-- the list is well formed without its bytes.
record Forgotten (m : Mem) (bs : List Chunk) (p : Addr) (ls ls' : List Large) : Type 0 where
  size : ℕ
  live : block m p ≡ some size
  base : NotBase p bs
  valid : {m' : Mem} → Freed m p m' → IsLargeList m' bs ls'
  others : (q : Addr) → NotLarge q ls → q ≢ null → NotLarge q ls'
  inside : has_large ls p ≡ true
  gone : NotLarge p ls'
  same_cells : cells_of ls' ≡ cells_of ls
  used :
      {m' : Mem}
      → Freed m p m'
      → (a : Addr) → used_large m' ls' a ≡ (used_large m ls a && not (within p size a))

data ForgetResult (m : Mem) (bs : List Chunk) (p : Addr) (ls : List Large)
    : Option (List Large) → Type 0 where
  missed : NotLarge p ls → ForgetResult m bs p ls none
  found : {ls' : List Large} → Forgotten m bs p ls ls' → ForgetResult m bs p ls (some ls')

-- Blocks in other records keep their bytes in use.
pub used_large-Freed :
    (m m' : Mem) (bs : List Chunk) (p : Addr) (ls : List Large) (a : Addr)
    → Freed m p m'
    → IsLargeList m bs ls
    → NotLarge p ls
    → used_large m' ls a ≡ used_large m ls a
unfolding used_large
used_large-Freed m m' bs p [] a gone is out = refl
used_large-Freed m m' bs p (l ∷ ls) a gone is out =
    ground (arith, gone.live l.alloc, out.0, used_large-Freed m m' bs p ls a gone is.1 out.1)

module _ (m : Mem) (bs : List Chunk) (p : Addr) (heap : IsHeap m) (ne : p ≢ null) where
  here-Forgotten :
      {l : Large} {ls : List Large} {k : ℕ}
      → p ≡ l.alloc
      → block m p ≡ some k
      → NotBase p bs
      → NotLarge p ls
      → IsLargeList m bs ls
      → Forgotten m bs p (l ∷ ls) (record l { alloc = null } ∷ ls)
  unfolding used_large has_large
  here-Forgotten {l} {ls} {k} here live base later is = record {
    size = k;
    live = live;
    base = base;
    valid = λ gone. (inl refl, IsLargeList-freed gone bs ls is later);
    others = λ q out not_null. (not_null, out.1);
    inside = ground (arith, ne);
    gone = (ne, later);
    same_cells = refl;
    used = λ {m'} gone a.
        rw (used_large-Freed m m' bs p ls a gone is later)
          (rw (← here, live) (ground (arith, ne, apart_large m k p bs ls a heap live later)));
  }

  later-Forgotten :
      {l : Large} {ls ls' : List Large}
      → (p == l.alloc) ≡ false
      → IsLargeList m bs (l ∷ ls)
      → Forgotten m bs p ls ls'
      → Forgotten m bs p (l ∷ ls) (l ∷ ls')
  unfolding used_large has_large
  later-Forgotten {l} other (inl free, is) f = record {
    size = f.size;
    live = f.live;
    base = f.base;
    valid = λ {m'} gone. (inl free, f.valid gone);
    others = λ q out not_null. (out.0, f.others q out.1 not_null);
    inside = ground (arith, f.inside);
    gone = ((λ e. ground arith), f.gone);
    same_cells = ap (◌∷◌ l.cell) f.same_cells;
    used = λ {m'} gone a. ground (arith, f.used gone a);
  }
  later-Forgotten {l} other (inr (k, old, base, later), is) f = record {
    size = f.size;
    live = f.live;
    base = f.base;
    valid = λ {m'} gone. (
      elim (Bool-cases (l.alloc == null)) [
        | inl is_null ↦ inl (ground arith)
        | inr not_null ↦
            inr (k, ground (arith, gone.live l.alloc), base, f.others l.alloc later (ground arith))
      ],
      f.valid gone,
    );
    others = λ q out not_null. (out.0, f.others q out.1 not_null);
    inside = ground (arith, f.inside);
    gone = ((λ e. ground arith), f.gone);
    same_cells = ap (◌∷◌ l.cell) f.same_cells;
    used = λ {m'} gone a.
        let ne' : p ≢ l.alloc = ground arith in
        ground (arith, gone.live l.alloc, heap p l.alloc f.size k ne' f.live old, f.used gone a);
  }

  -- The search goes on behind a record of another block.
  later-ForgetResult :
      {l : Large} {ls : List Large} {r : Option (List Large)}
      → (p == l.alloc) ≡ false
      → IsLargeList m bs (l ∷ ls)
      → ForgetResult m bs p ls r
      → ForgetResult m bs p (l ∷ ls) (Option.map (◌∷◌ l) r)
  later-ForgetResult other is (missed out) = missed ((λ e. ground arith), out)
  later-ForgetResult other is (found f) = found (later-Forgotten other is f)

  -- The search ends at the record of p.
  here-ForgetResult :
      (l : Large) (ls : List Large)
      → p ≡ l.alloc
      → IsLargeList m bs (l ∷ ls)
      → ForgetResult m bs p (l ∷ ls) (some (record l { alloc = null } ∷ ls))
  here-ForgetResult l ls here (inl free, is) = absurd (ne (here ∙ free))
  here-ForgetResult l ls here (inr (k, live, base, later), is) = found (
      here-Forgotten {k = k} here (rw here live) (rw here base)
        (subst (λ q. NotLarge q ls) (sym here) later) is)

  forget-ForgetResult :
      (ls : List Large) → IsLargeList m bs ls → ForgetResult m bs p ls (forget p ls)
  unfolding forget
  forget-ForgetResult [] is = missed tt
  forget-ForgetResult (l ∷ ls) is = elim (Bool-cases (p == l.alloc)) [
    | inl here ↦ rw here (here-ForgetResult l ls (ground arith) is)
    | inr other ↦ rw other (later-ForgetResult other is (forget-ForgetResult ls is.1))
  ]

-- NC_ERROR with nothing changed, where p is no large block of the pool; or NC_OK, where p is one,
-- and then it is one no more, and its block is gone, with all its bytes out of use and no other.
pub data PfreeResult (m : Mem) (n : ℕ) (pool : Pool) (p : Addr) (r : Status × Pool) (m' : Mem)
    : Type 0 where
  not_found :
      NotLarge p pool.large → r.0 ≡ nc_error → r.1 ≡ pool → m' ≡ m → PfreeResult m n pool p r m'
  freed :
      (size : ℕ)
      → has_large pool.large p ≡ true
      → block m p ≡ some size
      → r.0 ≡ nc_ok
      → NotLarge p r.1.large
      → r.1.cleanup ≡ pool.cleanup
      → Freed m p m'
      → IsPool m' n r.1
      → ((a : Addr) → in_use m' r.1 a ≡ (in_use m pool a && not (within p size a)))
      → PfreeResult m n pool p r m'

module _ {c : Libc} (libc : IsLibc c) {m : Mem} {n : ℕ} {pool : Pool} (p : Addr)
    (is : IsPool m n pool) (ne : p ≢ null) where
  Freed-IsPool :
      {m' : Mem} {ls : List Large}
      → Forgotten m pool.chain p pool.large ls
      → Freed m p m'
      → IsPool m' n (record pool { large = ls })
  Freed-IsPool f gone = record {
    heap = Freed-IsHeap is.heap gone;
    size = is.size;
    word_size = is.word_size;
    room = is.room;
    max_large = is.max_large;
    chain = IsChain-freed gone n pool.chain is.chain f.base;
    current = is.current;
    large = f.valid gone;
    header = is.header;
    records = subst (IsRecords pool.chain) (sym f.same_cells) is.records;
  }

  -- A byte of the block was in no chunk.
  Freed-in_use :
      {m' : Mem} {ls : List Large} (a : Addr)
      → (f : Forgotten m pool.chain p pool.large ls) → Freed m p m'
      → in_use m' (record pool { large = ls }) a ≡ (in_use m pool a && not (within p f.size a))
  Freed-in_use a f gone =
      ground
        (arith, f.used gone a, apart_chain m n is.heap p f.size pool.chain a is.chain f.base f.live)

  after_forget-PfreeResult :
      (r : Option (List Large))
      → ForgetResult m pool.chain p pool.large r
      → Gives (PfreeResult m n pool p) (after_forget c pool p r m)
  unfolding after_forget
  after_forget-PfreeResult r (missed out) = gives (not_found out refl refl refl)
  after_forget-PfreeResult r (found f) = seq (nc_free-Freed libc p f.size m ne f.live) λ _ m' gone.
      gives (
        freed f.size f.inside f.live refl f.gone refl gone (Freed-IsPool f gone)
          (λ a. Freed-in_use a f gone))

  -- nc_pfree of an address that is not NULL, with a well-formed pool, gives NC_ERROR and changes
  -- nothing where it is no large block of the pool. Where it is one, nc_pfree gives NC_OK and
  -- frees that block, which is no large block of the pool any more; exactly its bytes go out of
  -- use, and the pool stays well formed.
  pub pfree-PfreeResult : Gives (PfreeResult m n pool p) (pfree c pool p m)
  unfolding pfree
  pfree-PfreeResult =
      after_forget-PfreeResult _ (forget-ForgetResult m pool.chain p is.heap ne pool.large is.large)
