-- ===== src/Tests/PallocTests.antt =====
-- The theorems on pools at concrete inputs.
use libnc.Prelude.{ℕ, ◌<◌, ◌≡◌, refl, inr, [], ◌∷◌, arith, none, some}
use libnc.Memory.{Addr, null, Mem, ok, find, pure}
use libnc.Memory.Gives.{Gives, gives}
use libnc.Memory.Heap.{IsHeap}
use libnc.Macros.{nc_align_ptr, nc_memalign}
use libnc.Palloc.Chain.{Chunk, small_scan}
use libnc.Palloc.Blocks.{Large, reuse}
use libnc.Palloc.Handlers.{Cleanup}
use libnc.Palloc.{
  Pool, new_pool, palloc_small, palloc, pcalloc, pfree, pool_create, pool_destroy, cleanup_add,
}
use libnc.Palloc.Invariant.{IsPool, used_chain}
use libnc.Palloc.Block.{PallocResult}
use libnc.Palloc.Hand.{palloc-PallocResult}
use libnc.Palloc.Zero.{PcallocResult, pcalloc-PcallocResult}
use libnc.Palloc.Trace.{aligned, unaligned, zeros, serve_all, ServedAll, serve_all-ServedAll}
use libnc.Palloc.Release.{CreateResult, pool_create-CreateResult, owns, Gone}
use libnc.Palloc.Lifetime.{Alive, created, added, handled, destroy-Gone}
use libnc.Palloc.Intact.{RecordsUsed}
use libnc.Palloc.Free.{PfreeResult, pfree-PfreeResult}
use libnc.Palloc.Register.{CleanupResult, cleanup_add-CleanupResult}
use libnc.Palloc.Overrun.{palloc_overrun, reuse_among_five, reset_client, reset_reuses_cleanup}
use libnc.Tests.Bump.{bump, bump-IsLibc}

-- A pool of 128 bytes at 16 that is full up to 96, with a record at 80, which holds a block of 200
-- bytes as a large one.
abbrev memory : Mem
memory = record { byte = λ a. 7; blocks = (160, 200) ∷ (16, 128) ∷ [] }

abbrev pool : Pool
pool = record (new_pool 16 128) {
  chain = record { base = 16; last = 96; end = 144; failed = 0 } ∷ [];
  large = record { cell = 80; alloc = 160 } ∷ [];
}

memory-IsHeap : IsHeap memory
unfolding find
memory-IsHeap p q s t ne hp hq = ground arith

pool-IsPool : IsPool memory 128 pool
unfolding find used_chain
pool-IsPool = record {
  heap = memory-IsHeap;
  size = refl;
  word_size = refl;
  room = omega arith;
  max_large = omega arith;
  chain = (
    record {
      ne_null = omega arith;
      live = refl;
      ends = refl;
      fits = omega arith;
      aligned = refl;
      header = omega arith;
      inside = omega arith;
    },
    tt,
    tt,
  );
  current = omega arith;
  large = (inr (200, refl, ((omega arith), tt), tt), tt);
  header = omega arith;
  records = (λ a inside. (ground arith, refl), tt);
}

palloc-PallocResult_example : Gives (PallocResult memory 128 pool 24) (palloc bump pool 24 memory)
palloc-PallocResult_example = palloc-PallocResult bump-IsLibc pool-IsPool 24

serve_all-ServedAll_example :
    Gives
      (ServedAll memory 128 pool)
      (serve_all bump pool (unaligned 3 ∷ aligned 40 ∷ aligned 50 ∷ zeros 500 ∷ []) memory)
serve_all-ServedAll_example =
    serve_all-ServedAll bump-IsLibc memory pool
      (unaligned 3 ∷ aligned 40 ∷ aligned 50 ∷ zeros 500 ∷ []) pool-IsPool

pcalloc-PcallocResult_example :
    Gives (PcallocResult memory 128 pool 500) (pcalloc bump pool 500 memory)
pcalloc-PcallocResult_example = pcalloc-PcallocResult bump-IsLibc pool-IsPool 500

pool_create-CreateResult_example : Gives (CreateResult memory 256) (pool_create bump 256 memory)
pool_create-CreateResult_example =
    pool_create-CreateResult bump-IsLibc 256 memory memory-IsHeap refl (omega arith)

-- A pool of 128 bytes at 368, with a cleanup that has 16 bytes of memory and a handler at 7.
abbrev opened_memory : Mem
opened_memory = record { byte = λ a. 7; blocks = (368, 128) ∷ (160, 200) ∷ (16, 128) ∷ [] }

abbrev with_cleanup : Addr → Pool
with_cleanup handler = record {
  chain = record { base = 368; last = 472; end = 496; failed = 0 } ∷ [];
  max = 64;
  current = 0;
  large = [];
  cleanup = record { cell = 432; handler = handler; arg = 456 } ∷ [];
}

created_pool : pool_create bump 128 memory ≡ ok (some (new_pool 368 128)) opened_memory
unfolding pool_create nc_memalign
created_pool = refl

added_cleanup :
    cleanup_add bump (new_pool 368 128) 16 opened_memory ≡ ok (432, with_cleanup null) opened_memory
unfolding cleanup_add palloc palloc_small small_scan nc_align_ptr
added_cleanup = refl

with_cleanup-Alive : Alive bump 128 opened_memory (with_cleanup 7)
with_cleanup-Alive =
    handled (record { cell = 432; handler = 7; arg = 456 } ∷ [])
      (added 16 (created memory memory-IsHeap refl (omega arith) created_pool) added_cleanup) refl

destroy-Gone_example :
    RecordsUsed opened_memory (with_cleanup 7) (432 ∷ [])
    × Gives
        (λ _ m'. Gone (owns (with_cleanup 7)) opened_memory m')
        (pool_destroy bump (λ h a. pure tt) (with_cleanup 7) opened_memory)
destroy-Gone_example =
    destroy-Gone bump-IsLibc with_cleanup-Alive (λ h a. pure tt) (λ h a g. gives refl)

pfree-PfreeResult_example : Gives (PfreeResult memory 128 pool 160) (pfree bump pool 160 memory)
pfree-PfreeResult_example = pfree-PfreeResult bump-IsLibc 160 pool-IsPool (omega arith)

cleanup_add-CleanupResult_example :
    Gives (CleanupResult memory 128 pool 16) (cleanup_add bump pool 16 memory)
cleanup_add-CleanupResult_example = cleanup_add-CleanupResult bump-IsLibc pool-IsPool 16

-- A chunk of 100 bytes after nc_pnalloc took 34: 2 bytes are left, and 4 more up to a multiple.
abbrev ragged : Chunk
ragged = record { base = 16; last = 114; end = 116; failed = 0 }

palloc_overrun_example :
    (p : Addr) × (pool' : Pool) × (palloc bump
        (record { chain = ragged ∷ []; max = 36; current = 0; large = []; cleanup = [] })
        36
        memory
      ≡ ok (p, pool') memory)
    × (116 < p)
unfolding nc_align_ptr
palloc_overrun_example =
    palloc_overrun bump memory 36 36 ragged [] [] [] (omega arith) (omega arith) (omega arith)
      (omega arith) (omega arith)

abbrev held : ℕ → Large
held p = record { cell = 80; alloc = p }

reuse_among_five_example :
    (reuse 0 9 (held 1 ∷ held 2 ∷ held 3 ∷ held 4 ∷ held 0 ∷ [])
      ≡ some (held 1 ∷ held 2 ∷ held 3 ∷ held 4 ∷ held 9 ∷ []))
    × (reuse 0 9 (held 1 ∷ held 2 ∷ held 3 ∷ held 4 ∷ []) ≡ none)
reuse_among_five_example =
    reuse_among_five 9 (held 1 ∷ held 2 ∷ held 3 ∷ held 4 ∷ []) (held 0) []
      (omega arith, (omega arith, (omega arith, (omega arith, tt)))) refl

reset_reuses_cleanup_example :
    Gives
      (λ (cell, q, pool') m'.
        (q ≡ cell) × ((k : Cleanup) × (pool'.cleanup ≡ k ∷ []) × (k.cell ≡ q)))
      (reset_client bump (new_pool 16 128) memory)
reset_reuses_cleanup_example =
    reset_reuses_cleanup bump memory 16 128 refl (omega arith) (omega arith)
