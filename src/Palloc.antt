-- ===== src/Palloc.antt =====
-- src/nc_palloc.h and src/nc_palloc.c: memory pools. A pool hands out memory from a chain of chunks
-- and keeps a list of large blocks; it frees all of them at once.
-- A linked list that only its pool holds is a list here. The cells of such a list stand in pool
-- memory, and each record keeps the address of its cell.
pub mod Chain
pub mod Blocks
pub mod Handlers
pub mod Invariant
pub mod Keep
pub mod Records
pub mod Small
pub mod Mark
pub mod Block
pub mod Reuse
pub mod Hand
pub mod Zero
pub mod Trace
pub mod Release
pub mod Reset
pub mod Free
pub mod Register
pub mod Intact
pub mod Lifetime
pub mod Overrun
use libnc.Prelude.{
  ℕ, ◌+◌, ◌-◌, ◌%◌, ◌^◌, List, [], ◌∷◌, ◌++◌, ltb, leb, ◌==◌, if◌then◌else◌, false, true, Bool,
  Option, none, some, map,
}
use libnc.Memory.{Addr, null, word, Cmd, undefined, pure, ◌>>=◌, ◌>>◌, memset}
use libnc.Memory.Libc.{Libc}
use libnc.Macros.{
  minimum, nc_align_ptr, nc_alignment, nc_alloc, nc_free, nc_memalign, Status, nc_ok, nc_error,
}
use Chain.{Chunk, small_scan, mark_failures}
use Blocks.{Large, reuse, forget, free_large}
use Handlers.{Cleanup, run_cleanups}

-- The chain begins with the pool's own chunk, so it is never empty; `current` is a place in it.
pub record Pool : Type 0 where
  pub chain : List Chunk
  pub max : ℕ
  pub current : ℕ
  pub large : List Large
  pub cleanup : List Cleanup

-- The sizes of the four structs of src/nc_palloc.h on a 64-bit machine.
abbrev pub pool_size : ℕ
pool_size = 64

abbrev pub pool_data_size : ℕ
pool_data_size = 32

abbrev pub pool_large_size : ℕ
pool_large_size = 16

abbrev pub pool_cleanup_size : ℕ
pool_cleanup_size = 24

abbrev pub nc_pool_alignment : ℕ
nc_pool_alignment = 16

abbrev pub nc_max_alloc_from_pool : ℕ
nc_max_alloc_from_pool = 4096 - 1

-- (size_t)(pool->d.end - (u_char *)pool)
abbrev pub chunk_size : List Chunk → ℕ
chunk_size [] = 0
chunk_size (b ∷ _) = b.end - b.base

abbrev pub new_pool : Addr → ℕ → Pool
new_pool p size = record {
  chain = record { base = p; last = p + pool_size; end = p + size; failed = 0 } ∷ [];
  max = minimum ((size + word - pool_size) % word) nc_max_alloc_from_pool;
  current = 0;
  large = [];
  cleanup = [];
}

-- The header of a pool that is smaller than it would reach past the block.
unfoldable pub pool_create : Libc → ℕ → Cmd (Option Pool)
pool_create c size = do
  p ← nc_memalign c nc_pool_alignment size
  if p == null
      then pure none
      else if ltb size pool_size
      then (λ _. undefined)
      else pure (some (new_pool p size))

-- Where the first allocation in a later chunk starts.
abbrev pub first_start : Addr → Addr
first_start m = nc_align_ptr (m + pool_data_size) nc_alignment

-- The pool with a new chunk at m, from which `size` bytes are taken.
abbrev pub with_chunk : Pool → Addr → ℕ → Pool
with_chunk pool m size =
    let (current, chain) = mark_failures pool.current 0 pool.current pool.chain in
    record pool {
      current = current;
      chain =
          chain
          ++ record {
            base = m;
            last = first_start m + size;
            end = m + chunk_size pool.chain;
            failed = 0;
          }
            ∷ [];
    }

unfoldable pub palloc_block : Libc → Pool → ℕ → Cmd (Addr × Pool)
palloc_block c pool size = do
  m ← nc_memalign c nc_pool_alignment (chunk_size pool.chain)
  if m == null then pure (null, pool) else pure (first_start m, with_chunk pool m size)

-- The end of nc_palloc_small, after its walk.
after_scan : Libc → Pool → ℕ → Option (Addr × List Chunk) → Cmd (Addr × Pool)
after_scan c pool size (some (m, chain)) = pure (m, record pool { chain = chain })
after_scan c pool size none = palloc_block c pool size

unfoldable pub palloc_small : Libc → Pool → ℕ → Bool → Cmd (Addr × Pool)
unfolding after_scan
palloc_small c pool size align =
    after_scan c pool size (small_scan align size pool.current pool.chain)

-- The end of nc_palloc_large, where no record can be reused.
link_large : Libc → Addr → Addr × Pool → Cmd (Addr × Pool)
link_large c p (cell, pool) =
    if cell == null
    then nc_free c p >> pure (null, pool)
    else pure (p, record pool { large = record { cell = cell; alloc = p } ∷ pool.large })

-- nc_palloc_large, after its search for a record.
after_search : Libc → Pool → Addr → Option (List Large) → Cmd (Addr × Pool)
after_search c pool p (some large) = pure (p, record pool { large = large })
after_search c pool p none = palloc_small c pool pool_large_size true >>= link_large c p

unfoldable pub palloc_large : Libc → Pool → ℕ → Cmd (Addr × Pool)
unfolding link_large after_search
palloc_large c pool size = do
  p ← nc_alloc c size
  if p == null then pure (null, pool) else after_search c pool p (reuse 0 p pool.large)

unfoldable pub palloc : Libc → Pool → ℕ → Cmd (Addr × Pool)
palloc c pool size =
    if leb size pool.max then palloc_small c pool size true else palloc_large c pool size

unfoldable pub pnalloc : Libc → Pool → ℕ → Cmd (Addr × Pool)
pnalloc c pool size =
    if leb size pool.max then palloc_small c pool size false else palloc_large c pool size

unfoldable pub pcalloc : Libc → Pool → ℕ → Cmd (Addr × Pool)
pcalloc c pool size = do
  (p, pool') ← palloc c pool size
  if p == null then pure (p, pool') else do memset p 0 size; pure (p, pool')

-- nc_pfree, after its search.
after_forget : Libc → Pool → Addr → Option (List Large) → Cmd (Status × Pool)
after_forget c pool p (some large) = nc_free c p >> pure (nc_ok, record pool { large = large })
after_forget c pool p none = pure (nc_error, pool)

unfoldable pub pfree : Libc → Pool → Addr → Cmd (Status × Pool)
unfolding after_forget
pfree c pool p = after_forget c pool p (forget p pool.large)

-- The record of a cleanup, once its memory is there: the address, and the pool.
link_cleanup : Addr → Addr → Pool → Addr × Pool
link_cleanup cell arg pool = (
  cell,
  record pool { cleanup = record { cell = cell; handler = null; arg = arg } ∷ pool.cleanup },
)

unfoldable pub cleanup_add : Libc → Pool → ℕ → Cmd (Addr × Pool)
unfolding link_cleanup
cleanup_add c pool size = do
  (cell, pool') ← palloc c pool pool_cleanup_size
  if cell == null
      then pure (null, pool')
      else if size == 0
      then pure (link_cleanup cell null pool')
      else do
        (arg, pool'') ← palloc c pool' size
        if arg == null then pure (null, pool'') else pure (link_cleanup cell arg pool'')

-- The last loop of nc_pool_destroy.
unfoldable pub free_chain : Libc → List Chunk → Cmd (Unit {0})
free_chain c [] = pure tt
free_chain c (b ∷ bs) = nc_free c b.base >> free_chain c bs

unfoldable pub pool_destroy : Libc → (Addr → Addr → Cmd (Unit {0})) → Pool → Cmd (Unit {0})
unfolding free_chain
pool_destroy c call pool = do
  run_cleanups call pool.cleanup
  free_large c pool.large
  free_chain c pool.chain

abbrev pub reset_chunk : Chunk → Chunk
reset_chunk b = record b { last = b.base + pool_size; failed = 0 }

unfoldable pub pool_reset : Libc → Pool → Cmd Pool
pool_reset c pool = do
  free_large c pool.large
  pure (record pool { chain = map reset_chunk pool.chain; current = 0; large = [] })
