-- ===== src/Palloc/Block.antt =====
-- nc_palloc_small and nc_palloc_block of src/nc_palloc.c.
use libnc.Prelude.{
  ℕ, ◌+◌, ◌%◌, ◌≤◌, ◌<◌, ◌≡◌, ◌≢◌, refl, sym, ap, ◌∙◌, inl, inr, Bool, true, false, ◌||◌, Option,
  some, List, [], ◌∷◌, length-append, arith, ◌==◌, if◌then◌else◌,
}
use libnc.Memory.{Addr, null, word, Mem, block, within, pure}
use libnc.Memory.Gives.{Gives, gives, seq}
use libnc.Memory.Heap.{IsHeap, Keeps, Keeps-refl, Placed-Keeps, Placed-IsHeap}
use libnc.Memory.Libc.{Libc, IsLibc, Placed}
use libnc.Macros.Align.{nc_align_ptr-least}
use libnc.Macros.Calloc.{Allocated, failed, placed, nc_memalign-Allocated}
use libnc.Palloc.Chain.{Chunk, mark_failures}
use libnc.Palloc.Blocks.{Large}
use libnc.Palloc.Invariant.{
  IsChunk, NotBase, NotLarge, IsLargeList, IsPool, used_chunk, used_chain, used_large, in_use,
  cells_of, in_cells,
}
use libnc.Palloc.Keep.{
  used_large-keep, NotBase-fresh, NotLarge-fresh, IsChain-keep, IsLargeList-keep,
}
use libnc.Palloc.Small.{Taken, ScanResult, missed, found, apart_chain, small_scan-ScanResult}
use libnc.Palloc.Mark.{
  Marked, mark_failures-Marked, mark_failures-lt, IsChain-snoc, NotBase-snoc, used_chain-snoc,
  chunk_size-snoc, IsLargeList-snoc, IsLargeList-bases,
}
use libnc.Palloc.Records.{Spared, Keeps-Spared, IsRecords-mono, in_cells-unused, HasHeader-snoc}
use libnc.Palloc.{
  Pool, chunk_size, pool_data_size, first_start, with_chunk, palloc_block, after_scan, palloc_small,
}

-- `size` bytes at p have been handed out: none of them was in use, all are now, no byte has gone
-- out of use, no live block has gone, and what changed of them is the pool's own: the headers of
-- its chunks and the records of its large blocks. A new record stands in bytes that were not in
-- use, and apart from the region; a size up to the pool's bound makes none.
pub record Handed (m : Mem) (n : ℕ) (pool : Pool) (size : ℕ) (p : Addr) (pool' : Pool) (m' : Mem)
    : Type 0 where
  pub valid : IsPool m' n pool'
  pub ne_null : p ≢ null
  pub kept : (a : Addr) → in_use m pool a ≡ true → in_use m' pool' a ≡ true
  pub taken : (a : Addr) → within p size a ≡ true → in_use m' pool' a ≡ true
  pub fresh : (a : Addr) → within p size a ≡ true → in_use m pool a ≡ false
  pub home : (q : Addr) × (t : ℕ) × (block m' q ≡ some t) × (q ≤ p) × (p + size ≤ q + t)
  pub keeps : Spared m pool' m'
  pub new_cells :
      (a : Addr)
      → in_cells (cells_of pool'.large) a ≡ true
      → in_use m pool a ≡ true
      → in_cells (cells_of pool.large) a ≡ true
  pub apart : (a : Addr) → within p size a ≡ true → in_cells (cells_of pool'.large) a ≡ false
  pub same_large : size ≤ pool.max → pool'.large ≡ pool.large
  pub same_cleanup : pool'.cleanup ≡ pool.cleanup
  pub bases : (q t : ℕ) → block m q ≡ some t → NotBase q pool.chain → NotBase q pool'.chain
  pub larges : (q t : ℕ) → block m q ≡ some t → NotLarge q pool.large → NotLarge q pool'.large

-- NULL with the pool as it was, or `size` bytes.
pub data PallocResult (m : Mem) (n : ℕ) (pool : Pool) (size : ℕ) (r : Addr × Pool) (m' : Mem)
    : Type 0 where
  no_memory : r.0 ≡ null → r.1 ≡ pool → IsHeap m' → Keeps m m' → PallocResult m n pool size r m'
  handed : Handed m n pool size r.0 r.1 m' → PallocResult m n pool size r m'

-- A large block holds no byte of another live block.
pub apart_large :
    (m : Mem) (n : ℕ) (q : Addr) (bs : List Chunk) (ls : List Large) (a : Addr)
    → IsHeap m
    → block m q ≡ some n
    → NotLarge q ls
    → within q n a ≡ true
    → IsLargeList m bs ls
    → used_large m ls a ≡ false
unfolding used_large
apart_large m n q bs [] a heap live other inside is = refl
apart_large m n q bs (l ∷ ls) a heap live other inside (inl free, is) =
    ground (arith, apart_large m n q bs ls a heap live other.1 inside is)
apart_large m n q bs (l ∷ ls) a heap live other inside (inr (k, old, base, later), is) = ground (
  arith,
  heap q l.alloc n k other.0 live old,
  apart_large m n q bs ls a heap live other.1 inside is,
)

-- A chunk of the chain is no large block.
NotLarge-home :
    (m : Mem) (q : Addr) (bs : List Chunk) (ls : List Large)
    → ((r : Addr) → NotBase r bs → r ≢ q)
    → q ≢ null
    → IsLargeList m bs ls
    → NotLarge q ls
NotLarge-home m q bs [] home ne is = tt
NotLarge-home m q bs (l ∷ ls) home ne (inl free, is) =
    (λ e. ne (e ∙ free), NotLarge-home m q bs ls home ne is)
NotLarge-home m q bs (l ∷ ls) home ne (inr (k, old, base, later), is) =
    (λ e. home l.alloc base (sym e), NotLarge-home m q bs ls home ne is)

Taken-fresh :
    {m : Mem} {n : ℕ} {pool : Pool} {size : ℕ} {align : Bool} {p : Addr} {bs : List Chunk}
    → IsPool m n pool
    → Taken m n size align pool.chain p bs
    → (a : Addr) → within p size a ≡ true
    → in_use m pool a ≡ false
Taken-fresh {m} {n} {pool} {size} {p} {bs} is t a inside = rw (t.fresh a inside) (
    apart_large m n t.home pool.chain pool.large a is.heap t.home_live
      (NotLarge-home m t.home pool.chain pool.large t.home_base t.home_ne_null is.large)
      (ground (arith, t.lower, t.upper)) is.large)

-- The bytes come from a chunk of the chain, and the memory does not change.
Taken-Handed :
    {m : Mem} {n : ℕ} {pool : Pool} {size : ℕ} {align : Bool} {p : Addr} {bs : List Chunk}
    → IsPool m n pool
    → Taken m n size align pool.chain p bs
    → Handed m n pool size p (record pool { chain = bs }) m
Taken-Handed {m} {n} {pool} {size} {p} {bs} is t = record {
  valid = record {
    heap = is.heap;
    size = t.same_size ∙ is.size;
    word_size = is.word_size;
    room = is.room;
    max_large = is.max_large;
    chain = t.chain;
    current = omega (arith, is.current, t.same_length);
    large = IsLargeList-bases m pool.chain bs pool.large t.bases is.large;
    header = t.header is.header;
    records = IsRecords-mono pool.chain bs (cells_of pool.large) t.kept is.records;
  };
  ne_null = omega (arith, t.lower);
  kept = λ a used. ground (arith, t.kept a);
  taken = λ a inside. ground (arith, t.taken a inside);
  fresh = Taken-fresh is t;
  home = (t.home, n, t.home_live, omega (arith, t.lower), t.upper);
  keeps = Keeps-Spared _ (Keeps-refl m);
  new_cells = λ a inside used. inside;
  apart = λ a inside. in_cells-unused a is (Taken-fresh is t a inside);
  same_large = λ small. refl;
  same_cleanup = refl;
  bases = λ q k live out. t.bases q out;
  larges = λ q k live out. out;
}

-- A chunk is aligned, so its first allocation starts right behind the header.
first_start-eq : (p : Addr) → p % 16 ≡ 0 → p + 64 < word → first_start p ≡ p + pool_data_size
first_start-eq p aligned small =
    let (multiple, above, least) = nc_align_ptr-least (p + pool_data_size) (omega arith) in
    let below = least (p + pool_data_size) (omega arith) (omega arith) in omega arith

-- A new chunk at p, which is full up to `last`.
abbrev chunk_at : Addr → ℕ → ℕ → Chunk
chunk_at p n last = record { base = p; last = last; end = p + n; failed = 0 }

module _ {m m' : Mem} {n : ℕ} {pool : Pool} {p : Addr} (size : ℕ) (is : IsPool m n pool)
    (new : Placed m n p m') (aligned : p % 16 ≡ 0) (small : size ≤ pool.max) where
  marked : Marked m n pool.chain (mark_failures pool.current 0 pool.current pool.chain).1
  marked = mark_failures-Marked m n pool.current 0 pool.current pool.chain is.chain

  abbrev old_chain : List Chunk
  old_chain = (mark_failures pool.current 0 pool.current pool.chain).1

  first : first_start p ≡ p + pool_data_size
  first = first_start-eq p aligned (omega (arith, is.room, is.max_large, new.fits))

  abbrev fresh_chunk : Chunk
  fresh_chunk = chunk_at p n (first_start p + size)

  fresh_chunk-IsChunk : IsChunk m' n fresh_chunk
  fresh_chunk-IsChunk = record {
    ne_null = new.ne_null;
    live = ground (arith, new.live p);
    ends = refl;
    fits = new.fits;
    aligned = aligned;
    header = omega (arith, first);
    inside = omega (arith, first, is.room);
  }

  keeps : Keeps m m'
  keeps = Placed-Keeps new

  base_new : NotBase p old_chain
  base_new = marked.bases p (NotBase-fresh m n p pool.chain is.chain new.fresh)

  large_new : NotLarge p pool.large
  large_new = NotLarge-fresh m p pool.chain pool.large is.large new.ne_null new.fresh

  with_chunk-IsPool : IsPool m' n (with_chunk pool p size)
  with_chunk-IsPool = rw is.size (record {
    heap = Placed-IsHeap is.heap new;
    size =
        chunk_size-snoc old_chain fresh_chunk (omega (arith, is.current, marked.same_length))
        ∙ marked.same_size
        ∙ is.size;
    word_size = is.word_size;
    room = is.room;
    max_large = is.max_large;
    chain =
        IsChain-snoc m' n old_chain fresh_chunk (IsChain-keep keeps.stay n old_chain marked.chain)
          fresh_chunk-IsChunk base_new;
    current =
        mark_failures-lt pool.current 0 pool.current _ pool.chain
          (omega
            (arith, is.current, marked.same_length, length-append old_chain (fresh_chunk ∷ [])))
          (omega (arith, marked.same_length, length-append old_chain (fresh_chunk ∷ [])));
    large =
        IsLargeList-snoc m' old_chain fresh_chunk pool.large
          (IsLargeList-keep keeps.stay old_chain pool.large
            (IsLargeList-bases m pool.chain old_chain pool.large marked.bases is.large))
          new.ne_null large_new;
    header =
        HasHeader-snoc old_chain fresh_chunk (omega (arith, is.current, marked.same_length))
          (marked.header is.header);
    records =
        IsRecords-mono pool.chain _ (cells_of pool.large)
          (λ a used. rw (used_chain-snoc old_chain fresh_chunk a, marked.used a) (ground arith))
          is.records;
  })

  in_use-with_chunk :
      (a : Addr)
      → in_use m' (with_chunk pool p size) a
        ≡ ((used_chain pool.chain a || used_chunk fresh_chunk a) || used_large m pool.large a)
  in_use-with_chunk a = rw is.size (
      rw (
        used_chain-snoc old_chain fresh_chunk a,
        marked.used a,
        used_large-keep keeps.stay pool.chain pool.large a is.large,
      ))

  untouched : (a : Addr) → within p n a ≡ true → in_use m pool a ≡ false
  untouched a inside =
      let live : block m' p ≡ some n = ground (arith, new.live p) in
      let heap = Placed-IsHeap is.heap new in
      let chain = IsChain-keep keeps.stay n pool.chain is.chain in
      let no_chunk =
        apart_chain m' n heap p n pool.chain a chain
          (NotBase-fresh m n p pool.chain is.chain new.fresh) live inside in
      let no_large =
        apart_large m' n p pool.chain pool.large a heap live large_new inside
          (IsLargeList-keep keeps.stay pool.chain pool.large is.large) in
      rw no_chunk (sym (used_large-keep keeps.stay pool.chain pool.large a is.large) ∙ no_large)

  block-Handed : Handed m n pool size (first_start p) (with_chunk pool p size) m'
  block-Handed = record {
    valid = with_chunk-IsPool;
    ne_null = omega (arith, first);
    kept = λ a used. ground (arith, in_use-with_chunk a);
    taken = λ a inside. rw (in_use-with_chunk a) (ground (arith, first));
    fresh = λ a inside. untouched a (ground (arith, first, is.room));
    home = (p, n, ground (arith, new.live p), omega (arith, first), omega (arith, first, is.room));
    keeps = Keeps-Spared _ keeps;
    new_cells = λ a inside used. inside;
    apart = λ a inside. in_cells-unused a is (untouched a (ground (arith, first, is.room)));
    same_large = λ within_max. refl;
    same_cleanup = refl;
    bases = λ q k live out.
        NotBase-snoc q old_chain _ (marked.bases q out)
          (λ e. ground (arith, ap (block m) e, new.fresh));
    larges = λ q k live out. out;
  }

module _ {c : Libc} (libc : IsLibc c) {m : Mem} {n : ℕ} {pool : Pool} (size : ℕ)
    (is : IsPool m n pool) (small : size ≤ pool.max) where
  palloc_block-PallocResult : Gives (PallocResult m n pool size) (palloc_block c pool size m)
  unfolding palloc_block
  palloc_block-PallocResult =
      seq (nc_memalign-Allocated libc (chunk_size pool.chain) m) λ p g result. step p g result
    where
      step :
          (p : Addr) (g : Mem)
          → Allocated m (chunk_size pool.chain) p g
          → Gives (PallocResult m n pool size) (
              (if p == null
                  then pure (null, pool)
                  else pure (first_start p, with_chunk pool p size))
                g)
      step p g (failed is_null same) =
          rw (is_null, same) (gives (no_memory refl refl is.heap (Keeps-refl m)))
      step p g (placed new aligned) =
          let not_null : (p == null) ≡ false = ground (arith, new.ne_null) in
          rw not_null (gives (handed (block-Handed size is (rw is.size at new) aligned small)))

  after_scan-PallocResult :
      {align : Bool} (r : Option (Addr × List Chunk))
      → ScanResult m n size align pool.chain r
      → Gives (PallocResult m n pool size) (after_scan c pool size r m)
  unfolding after_scan
  after_scan-PallocResult r missed = palloc_block-PallocResult
  after_scan-PallocResult r (found t) = gives (handed (Taken-Handed is t))

  -- nc_palloc_small of a size that the pool takes from chunks gives NULL and leaves the pool as it
  -- was, or hands out that many bytes.
  pub palloc_small-PallocResult :
      (align : Bool) → Gives (PallocResult m n pool size) (palloc_small c pool size align m)
  unfolding palloc_small
  palloc_small-PallocResult align =
      after_scan-PallocResult _
        (small_scan-ScanResult size is.heap is.word_size align pool.current pool.chain is.chain)
