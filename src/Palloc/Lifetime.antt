-- ===== src/Palloc/Lifetime.antt =====
-- The life of a pool of src/nc_palloc.c, from nc_pool_create to nc_pool_destroy. The loop of
-- nc_pool_destroy reads the records of the cleanups in the memory of the pool, so the client must
-- not call nc_pool_reset with cleanups registered, nor give back the memory of such a record.
use libnc.Prelude.{ℕ, ◌%◌, ◌≤◌, ◌≡◌, ◌≢◌, refl, subst, some, List, []}
use libnc.Memory.{Addr, null, Mem, Run, ok, Cmd}
use libnc.Memory.Gives.{Gives, gives}
use libnc.Memory.Heap.{IsHeap, StayLive}
use libnc.Memory.Libc.{Libc, IsLibc, Freed}
use libnc.Macros.{Status}
use libnc.Palloc.Handlers.{Cleanup}
use libnc.Palloc.Invariant.{NotBase, NotLarge}
use libnc.Palloc.Hand.{palloc-PallocResult, pnalloc-PallocResult}
use libnc.Palloc.Zero.{pcalloc-PcallocResult}
use libnc.Palloc.Release.{pool_create-CreateResult, SameBlocks, Gone, owns, pool_destroy-Gone}
use libnc.Palloc.Reset.{pool_reset-WasReset}
use libnc.Palloc.Free.{pfree-PfreeResult}
use libnc.Palloc.Register.{IsPool-cleanup, cleanup_add-CleanupResult}
use libnc.Palloc.{
  Pool, pool_create, palloc, pnalloc, pcalloc, pfree, cleanup_add, pool_reset, pool_destroy,
}
use libnc.Palloc.Intact.{
  NoRecord, records_of, RecordsUsed, Intact, kept-Intact, stay-Intact, PallocResult-Intact,
  PcallocResult-Intact, CleanupResult-Intact, PfreeResult-Intact, Freed-Intact, CreateResult-Intact,
}

-- A pool that the client has made and used: what each call gave, and what happened between them.
pub data Alive (c : Libc) (n : ℕ) : Mem → Pool → Type 0 where
  created :
      (m : Mem) {m' : Mem} {pool : Pool}
      → IsHeap m
      → n % 8 ≡ 0
      → 80 ≤ n
      → pool_create c n m ≡ ok (some pool) m'
      → Alive c n m' pool
  took :
      {m m' : Mem} {pool pool' : Pool} {p : Addr} (size : ℕ)
      → Alive c n m pool
      → palloc c pool size m ≡ ok (p, pool') m'
      → Alive c n m' pool'
  took_unaligned :
      {m m' : Mem} {pool pool' : Pool} {p : Addr} (size : ℕ)
      → Alive c n m pool
      → pnalloc c pool size m ≡ ok (p, pool') m'
      → Alive c n m' pool'
  took_zeros :
      {m m' : Mem} {pool pool' : Pool} {p : Addr} (size : ℕ)
      → Alive c n m pool
      → pcalloc c pool size m ≡ ok (p, pool') m'
      → Alive c n m' pool'
  gave_back :
      {m m' : Mem} {pool : Pool} (p : Addr) {r : Status × Pool}
      → Alive c n m pool
      → p ≢ null
      → NoRecord m p pool.cleanup
      → pfree c pool p m ≡ ok r m'
      → Alive c n m' r.1
  added :
      {m m' : Mem} {pool pool' : Pool} {cell : Addr} (size : ℕ)
      → Alive c n m pool
      → cleanup_add c pool size m ≡ ok (cell, pool') m'
      → Alive c n m' pool'
  -- The client writes handlers and their arguments into the records.
  handled :
      {m : Mem} {pool : Pool} (ks : List Cleanup)
      → Alive c n m pool
      → records_of ks ≡ records_of pool.cleanup
      → Alive c n m (record pool { cleanup = ks })
  was_reset :
      {m m' : Mem} {pool pool' : Pool}
      → Alive c n m pool
      → pool.cleanup ≡ []
      → pool_reset c pool m ≡ ok pool' m'
      → Alive c n m' pool'
  -- Other code takes blocks from the C library and writes bytes.
  elsewhere :
      {m m' : Mem} {pool : Pool} → Alive c n m pool → StayLive m m' → IsHeap m' → Alive c n m' pool
  -- Other code frees a block that is not the pool's.
  freed_elsewhere :
      {m m' : Mem} {pool : Pool} (p : Addr)
      → Alive c n m pool
      → NotBase p pool.chain
      → NotLarge p pool.large
      → Freed m p m'
      → Alive c n m' pool

-- What a command ensures holds of the result that it has.
ran :
    {A : Type 0} {P : A → Mem → Type 0} {r : Run A} {a : A} {m : Mem}
    → Gives P r
    → r ≡ ok a m
    → P a m
ran {A} {P} {a = a} {m = m} is e = given (subst (Gives P) e is)
  where
    given : Gives P (ok a m) → P a m
    given (gives p) = p

module _ {c : Libc} (libc : IsLibc c) {n : ℕ} where
  Alive-Intact : {m : Mem} {pool : Pool} → Alive c n m pool → Intact m n pool
  Alive-Intact (created m heap eights enough e) =
      CreateResult-Intact (ran (pool_create-CreateResult libc n m heap eights enough) e)
  Alive-Intact (took size before e) =
      let is = Alive-Intact before in
      PallocResult-Intact _ is (ran (palloc-PallocResult libc is.valid size) e)
  Alive-Intact (took_unaligned size before e) =
      let is = Alive-Intact before in
      PallocResult-Intact _ is (ran (pnalloc-PallocResult libc is.valid size) e)
  Alive-Intact (took_zeros size before e) =
      let is = Alive-Intact before in
      PcallocResult-Intact _ is (ran (pcalloc-PcallocResult libc is.valid size) e)
  Alive-Intact (gave_back p before ne none_there e) =
      let is = Alive-Intact before in
      PfreeResult-Intact p _ is none_there (ran (pfree-PfreeResult libc p is.valid ne) e)
  Alive-Intact (added size before e) =
      let is = Alive-Intact before in
      CleanupResult-Intact _ is (ran (cleanup_add-CleanupResult libc is.valid size) e)
  Alive-Intact (handled ks before same) =
      let is = Alive-Intact before in
      kept-Intact is (IsPool-cleanup ks is.valid) (λ a used. used) same
  Alive-Intact (was_reset before none_there e) =
      let is = Alive-Intact before in
      let done = ran (pool_reset-WasReset libc is.valid) e in
      record { valid = done.valid; cells = rw (done.same_cleanup, none_there) tt }
  Alive-Intact (elsewhere before stay heap) = stay-Intact _ (Alive-Intact before) refl heap stay
  Alive-Intact (freed_elsewhere p before base large gone) =
      Freed-Intact p (Alive-Intact before) base large gone

  -- Take a pool that the client has made with nc_pool_create, of a size that is a multiple of
  -- eight and at least 80, and then used with nc_palloc, nc_pnalloc, nc_pcalloc, nc_pfree,
  -- nc_pool_cleanup_add and nc_pool_reset in any order, with handlers set in the records of
  -- cleanups, no nc_pool_reset while cleanups are registered and no nc_pfree of the memory of a
  -- cleanup's record, while other code leaves the blocks and the records of the pool alone. All
  -- bytes of the records of its cleanups are in use, and nc_pool_destroy, with handlers that
  -- neither take nor give back memory, frees each chunk and each large block of the pool once, and
  -- no other block.
  pub destroy-Gone :
      {m : Mem} {pool : Pool}
      → Alive c n m pool
      → (call : Addr → Addr → Cmd (Unit {0}))
      → ((h a : Addr) (g : Mem) → Gives (λ _ m'. SameBlocks g m') (call h a g))
      → RecordsUsed m pool (records_of pool.cleanup)
        × Gives (λ _ m'. Gone (owns pool) m m') (pool_destroy c call pool m)
  destroy-Gone alive call quiet =
      let is = Alive-Intact alive in (is.cells, pool_destroy-Gone libc is.valid call quiet)
