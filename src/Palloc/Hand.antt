-- ===== src/Palloc/Hand.antt =====
-- nc_palloc_large, nc_palloc, nc_pnalloc and nc_pcalloc of src/nc_palloc.c: what an allocation
-- promises.
use libnc.Prelude.{
  ℕ, ◌<◌, ◌≡◌, refl, sym, ap, ◌∙◌, inl, inr, true, false, Option, some, List, ◌∷◌, arith, leb, ◌==◌,
  ◌||◌, if◌then◌else◌, Bool-cases,
}
use libnc.Memory.{Addr, null, Mem, block, within, pure}
use libnc.Memory.Gives.{Gives, gives, seq}
use libnc.Memory.Heap.{
  Keeps, Keeps-refl, Keeps-trans, Placed-Keeps, Freed-Keeps, Placed-IsHeap, Freed-IsHeap,
}
use libnc.Memory.Libc.{Libc, IsLibc, Placed}
use libnc.Macros.Calloc.{Allocated, failed, placed, nc_alloc-Allocated, nc_free-Freed}
use libnc.Palloc.Blocks.{Large, reuse}
use libnc.Palloc.Invariant.{
  NotBase, NotLarge, IsPool, used_chain, used_large, in_use, cells_of, in_cells,
}
use libnc.Palloc.Records.{Spared, Keeps-Spared, in_cells-used, in_cells-unused}
use libnc.Palloc.Keep.{IsPool-keep, used_large-keep, NotBase-fresh, NotLarge-fresh}
use libnc.Palloc.Small.{apart_chain}
use libnc.Palloc.Block.{
  Handed, PallocResult, no_memory, handed, apart_large, palloc_small-PallocResult,
}
use libnc.Palloc.Reuse.{Reused, ReuseResult, missed, found, reuse-ReuseResult}
use libnc.Palloc.{Pool, pool_large_size, link_large, after_search, palloc_large, palloc, pnalloc}

-- A block of `size` bytes at p, new in g, for the pool of the memory m before it.
module _ {c : Libc} (libc : IsLibc c) {m g : Mem} {n : ℕ} {pool : Pool} {p : Addr} (size : ℕ)
    (is : IsPool m n pool) (new : Placed m size p g) (big : pool.max < size) where
  here : block g p ≡ some size
  here = ground (arith, new.live p)

  is_later : IsPool g n pool
  is_later = IsPool-keep (Placed-Keeps new).stay (Placed-IsHeap is.heap new) is

  no_base : NotBase p pool.chain
  no_base = NotBase-fresh m n p pool.chain is.chain new.fresh

  no_large : NotLarge p pool.large
  no_large = NotLarge-fresh m p pool.chain pool.large is.large new.ne_null new.fresh

  in_use-later : (a : Addr) → in_use g pool a ≡ in_use m pool a
  in_use-later a = rw (used_large-keep (Placed-Keeps new).stay pool.chain pool.large a is.large)

  untouched : (a : Addr) → within p size a ≡ true → in_use m pool a ≡ false
  untouched a inside =
      let chain =
        apart_chain g n is_later.heap p size pool.chain a is_later.chain no_base here inside in
      let large =
        apart_large g size p pool.chain pool.large a is_later.heap here no_large inside
          is_later.large in
      sym (in_use-later a) ∙ rw chain large

  -- A record was there to reuse.
  Reused-Handed :
      {ls : List Large}
      → Reused g pool.chain size p pool.large ls
      → Handed m n pool size p (record pool { large = ls }) g
  Reused-Handed {ls} r = record {
    valid = record {
      heap = is_later.heap;
      size = is.size;
      word_size = is.word_size;
      room = is.room;
      max_large = is.max_large;
      chain = is_later.chain;
      current = is.current;
      large = r.valid;
      header = is.header;
      records = rw r.same_cells is.records;
    };
    ne_null = new.ne_null;
    kept = λ a used. ground (arith, r.used a, in_use-later a);
    taken = λ a inside. ground (arith, r.used a);
    fresh = untouched;
    home = (p, size, here, omega arith, omega arith);
    keeps = Keeps-Spared _ (Placed-Keeps new);
    new_cells = λ a inside used. rw r.same_cells at inside;
    apart = λ a inside. rw r.same_cells (in_cells-unused a is (untouched a inside));
    same_large = λ small. absurd (omega (arith, big, small));
    same_cleanup = refl;
    bases = λ q t live out. out;
    larges = λ q t live out. r.larges q (λ e. ground (arith, ap (block m) e, new.fresh)) out;
  }

  module _ {cell : Addr} {pool' : Pool} {h : Mem}
      (r : Handed g n pool pool_large_size cell pool' h) where
    live : block h p ≡ some size
    live = r.keeps.live p size here

    no_chunk : (a : Addr) → within p size a ≡ true → used_chain pool'.chain a ≡ false
    no_chunk a inside =
        apart_chain h n r.valid.heap p size pool'.chain a r.valid.chain
          (r.bases p size here no_base) live inside

    -- The block is apart from the chunks, so from the records too.
    outside : (a : Addr) → within p size a ≡ true → in_cells (cells_of pool'.large) a ≡ false
    outside a inside = elim (Bool-cases (in_cells (cells_of pool'.large) a)) [
      | inl own_byte ↦
          let used = in_cells-used pool'.chain (cells_of pool'.large) a r.valid.records own_byte in
          absurd (ground (arith, no_chunk a inside))
      | inr free ↦ free
    ]

    -- The record stands in a chunk, since a size of a record makes no large block.
    cell_used : (a : Addr) → within cell pool_large_size a ≡ true → used_chain pool'.chain a ≡ true
    cell_used a inside =
        let same = r.same_large is.max_large in
        let later = used_large-keep r.keeps.stay pool.chain pool.large a is_later.large in
        let old : used_large h pool'.large a ≡ used_large g pool.large a = rw same later in
        ground (arith, r.taken a inside, r.fresh a inside, old)

    outside_cell : (a : Addr) → within p size a ≡ true → within cell pool_large_size a ≡ false
    outside_cell a inside = elim (Bool-cases (within cell pool_large_size a)) [
      | inl in_cell ↦ let used = cell_used a in_cell in absurd (ground (arith, no_chunk a inside))
      | inr free ↦ free
    ]

    older_cell :
        (a : Addr)
        → in_use m pool a ≡ true
        → (within cell pool_large_size a || in_cells (cells_of pool'.large) a) ≡ true
        → in_cells (cells_of pool.large) a ≡ true
    older_cell a used inside =
        let used_later : in_use g pool a ≡ true = in_use-later a ∙ used in
        let in_old : in_cells (cells_of pool'.large) a ≡ true = ground (arith, r.fresh a) in
        r.new_cells a in_old used_later

    linked_keeps :
        Spared m (record pool' { large = record { cell = cell; alloc = p } ∷ pool'.large }) h
    linked_keeps = record {
      stay = record { live = λ q t old. r.keeps.live q t ((Placed-Keeps new).live q t old) };
      bytes = λ q t i old lt out.
          r.keeps.bytes q t i ((Placed-Keeps new).live q t old) lt (ground (arith, out))
          ∙ (Placed-Keeps new).bytes q t i old lt;
    }

  -- A new record has been taken from the pool.
  linked-Handed :
      {cell : Addr} {pool' : Pool} {h : Mem}
      → Handed g n pool pool_large_size cell pool' h
      → Handed m n pool size p
          (record pool' { large = record { cell = cell; alloc = p } ∷ pool'.large })
          h
  unfolding used_large
  linked-Handed {pool'} {h} r = record {
    valid = record {
      heap = r.valid.heap;
      size = r.valid.size;
      word_size = r.valid.word_size;
      room = r.valid.room;
      max_large = r.valid.max_large;
      chain = r.valid.chain;
      current = r.valid.current;
      large = (
        inr (size, live r, r.bases p size here no_base, r.larges p size here no_large),
        r.valid.large,
      );
      header = r.valid.header;
      records = (λ a inside. (cell_used r a inside, r.apart a inside), r.valid.records);
    };
    ne_null = new.ne_null;
    kept = λ a used. ground (arith, r.kept a, in_use-later a);
    taken = λ a inside. ground (arith, live r, new.ne_null);
    fresh = untouched;
    home = (p, size, live r, omega arith, omega arith);
    keeps = linked_keeps r;
    new_cells = λ a inside used. older_cell r a used inside;
    apart = λ a inside. rw (outside_cell r a inside) (outside r a inside);
    same_large = λ small. absurd (omega (arith, big, small));
    same_cleanup = r.same_cleanup;
    bases = λ q t old out. r.bases q t (keep.live q t old) out;
    larges = λ q t old out.
        (λ e. ground (arith, ap (block m) e, new.fresh), r.larges q t (keep.live q t old) out);
  }
    where
      keep : Keeps m g
      keep = Placed-Keeps new

  link_large-PallocResult :
      (r : Addr × Pool) (h : Mem)
      → PallocResult g n pool pool_large_size r h
      → Gives (PallocResult m n pool size) (link_large c p r h)
  unfolding link_large
  link_large-PallocResult (cell, pool') h (no_memory is_null same heap keeps) =
      rw (is_null, same)
        (seq (nc_free-Freed libc p size h new.ne_null (keeps.live p size here)) λ _ k gone. gives (
          no_memory refl refl (Freed-IsHeap heap gone)
            (Freed-Keeps new.fresh (Keeps-trans (Placed-Keeps new) keeps) gone)))
  link_large-PallocResult (cell, pool') h (handed r) =
      let not_null : (cell == null) ≡ false = ground (arith, r.ne_null) in
      rw not_null (gives (handed (linked-Handed r)))

  after_search-PallocResult :
      (r : Option (List Large))
      → ReuseResult g pool.chain size p pool.large r
      → Gives (PallocResult m n pool size) (after_search c pool p r g)
  unfolding after_search
  after_search-PallocResult r (found reused) = gives (handed (Reused-Handed reused))
  after_search-PallocResult r missed =
      seq (palloc_small-PallocResult libc pool_large_size is_later is.max_large true)
        link_large-PallocResult

module _ {c : Libc} (libc : IsLibc c) {m : Mem} {n : ℕ} {pool : Pool} (is : IsPool m n pool)
    (size : ℕ) where
  palloc_large-PallocResult :
      (big : pool.max < size) → Gives (PallocResult m n pool size) (palloc_large c pool size m)
  unfolding palloc_large
  palloc_large-PallocResult big = seq (nc_alloc-Allocated libc size m) step
    where
      step :
          (p : Addr) (g : Mem)
          → Allocated m size p g
          → Gives (PallocResult m n pool size) (
              (if p == null
                  then pure (null, pool)
                  else after_search c pool p (reuse 0 p pool.large))
                g)
      step p g (failed is_null same) =
          rw (is_null, same) (gives (no_memory refl refl is.heap (Keeps-refl m)))
      step p g (placed new aligned) =
          let not_null : (p == null) ≡ false = ground (arith, new.ne_null) in
          let keep = Placed-Keeps new in
          rw not_null (
            after_search-PallocResult libc size is new big _ (
              reuse-ReuseResult g pool.chain size p (here libc size is new big) new.ne_null
                (no_base libc size is new big) 0 pool.large (is_later libc size is new big).large
                (no_large libc size is new big)))

  -- nc_palloc of a well-formed pool, at any size, gives NULL with the pool as it was and no live
  -- block gone or changed, or hands out that many bytes inside one live block: none of them was in
  -- use before, no byte goes out of use, no live block goes, and of the bytes of live blocks only
  -- those in the headers of the pool's chunks and in the records of its large blocks may change. A
  -- new record stands in bytes that were not in use and apart from the region, and the pool stays
  -- well formed, its records apart from each other in bytes in use.
  pub palloc-PallocResult : Gives (PallocResult m n pool size) (palloc c pool size m)
  unfolding palloc
  palloc-PallocResult = elim (Bool-cases (leb size pool.max)) [
    | inl small ↦ rw small (palloc_small-PallocResult libc size is (ground arith) true)
    | inr large ↦ rw large (palloc_large-PallocResult (ground arith))
  ]

  pub pnalloc-PallocResult : Gives (PallocResult m n pool size) (pnalloc c pool size m)
  unfolding pnalloc
  pnalloc-PallocResult = elim (Bool-cases (leb size pool.max)) [
    | inl small ↦ rw small (palloc_small-PallocResult libc size is (ground arith) false)
    | inr large ↦ rw large (palloc_large-PallocResult (ground arith))
  ]
