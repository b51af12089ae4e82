-- ===== src/Palloc/Intact.antt =====
-- The records of the cleanups of src/nc_palloc.c, in the memory of their pool: each operation of the
-- pool keeps them.
use libnc.Prelude.{ℕ, ◌≡◌, refl, ◌&&◌, subst, ap, ◌∙◌, true, false, some, List, [], ◌∷◌, arith}
use libnc.Memory.{Addr, Mem, block, within}
use libnc.Memory.Heap.{IsHeap, StayLive, Keeps-refl, Freed-IsHeap}
use libnc.Memory.Libc.{Freed}
use mathlib.Core.Bool.{not}
use libnc.Macros.{Status}
use libnc.Palloc.Handlers.{Cleanup}
use libnc.Palloc.Invariant.{NotBase, NotLarge, IsPool, in_use}
use libnc.Palloc.Keep.{IsPool-keep, used_large-keep}
use libnc.Palloc.Block.{PallocResult, no_memory, handed}
use libnc.Palloc.Zero.{PcallocResult}
use libnc.Palloc.Trace.{in_use-Cleared}
use libnc.Palloc.Release.{CreateResult, IsChain-freed, IsLargeList-freed}
use libnc.Palloc.Free.{PfreeResult, not_found, freed, used_large-Freed}
use libnc.Palloc.Register.{CleanupResult}
use libnc.Palloc.{Pool, pool_cleanup_size}

-- The block at p, if it is live, holds no byte of the records.
abbrev pub NoRecord : Mem → Addr → List Cleanup → Type 0
NoRecord m p [] = Unit {0}
NoRecord m p (k ∷ ks) =
    ((t a : ℕ)
      → block m p ≡ some t
      → within k.cell pool_cleanup_size a ≡ true
      → within p t a ≡ false)
    × NoRecord m p ks

-- The addresses of the records.
abbrev pub records_of : List Cleanup → List Addr
records_of [] = []
records_of (k ∷ ks) = k.cell ∷ records_of ks

-- The records of the cleanups stand in bytes in use, which no allocation hands out.
abbrev pub RecordsUsed : Mem → Pool → List Addr → Type 0
RecordsUsed m pool [] = Unit {0}
RecordsUsed m pool (p ∷ ps) =
    ((a : Addr) → within p pool_cleanup_size a ≡ true → in_use m pool a ≡ true)
    × RecordsUsed m pool ps

pub record Intact (m : Mem) (n : ℕ) (pool : Pool) : Type 0 where
  pub valid : IsPool m n pool
  pub cells : RecordsUsed m pool (records_of pool.cleanup)

RecordsUsed-mono :
    (m m' : Mem) (pool pool' : Pool) (ps : List Addr)
    → ((a : Addr) → in_use m pool a ≡ true → in_use m' pool' a ≡ true)
    → RecordsUsed m pool ps
    → RecordsUsed m' pool' ps
RecordsUsed-mono m m' pool pool' [] kept used = tt
RecordsUsed-mono m m' pool pool' (p ∷ ps) kept used =
    (λ a inside. kept a (used.0 a inside), RecordsUsed-mono m m' pool pool' ps kept used.1)

-- What happens to the pool and keeps the bytes in use and the cleanups keeps the records.
pub kept-Intact :
    {m m' : Mem} {n : ℕ} {pool pool' : Pool}
    → Intact m n pool
    → IsPool m' n pool'
    → ((a : Addr) → in_use m pool a ≡ true → in_use m' pool' a ≡ true)
    → records_of pool'.cleanup ≡ records_of pool.cleanup
    → Intact m' n pool'
kept-Intact {m} {m'} {n} {pool} {pool'} is valid kept same = record {
  valid = valid;
  cells = rw same (RecordsUsed-mono m m' pool pool' (records_of pool.cleanup) kept is.cells);
}

pub stay-Intact :
    {m m' : Mem} {n : ℕ} {pool : Pool} (pool' : Pool)
    → Intact m n pool
    → pool' ≡ pool
    → IsHeap m'
    → StayLive m m'
    → Intact m' n pool'
stay-Intact {m} {m'} {n} {pool} pool' is same heap stay = rw same (
    kept-Intact is (IsPool-keep stay heap is.valid)
      (λ a used. rw (used_large-keep stay pool.chain pool.large a is.valid.large) used) refl)

pub PallocResult-Intact :
    {m m' : Mem} {n size : ℕ} {pool : Pool} (r : Addr × Pool)
    → Intact m n pool
    → PallocResult m n pool size r m'
    → Intact m' n r.1
PallocResult-Intact r is (no_memory is_null same heap keeps) =
    stay-Intact r.1 is same heap keeps.stay
PallocResult-Intact r is (handed h) = kept-Intact is h.valid h.kept (ap records_of h.same_cleanup)

pub PcallocResult-Intact :
    {m m' : Mem} {n size : ℕ} {pool : Pool} (r : Addr × Pool)
    → Intact m n pool
    → PcallocResult m n pool size r m'
    → Intact m' n r.1
PcallocResult-Intact r is (PcallocResult.null_result is_null same heap keeps) =
    stay-Intact r.1 is same heap keeps.stay
PcallocResult-Intact r is (PcallocResult.zeroed g h cleared valid) =
    kept-Intact is valid (λ a used. in_use-Cleared r.1 a cleared ∙ h.kept a used)
      (ap records_of h.same_cleanup)

pub CleanupResult-Intact :
    {m m' : Mem} {n size : ℕ} {pool : Pool} (r : Addr × Pool)
    → Intact m n pool
    → CleanupResult m n pool size r m'
    → Intact m' n r.1
CleanupResult-Intact r is (CleanupResult.null_result is_null same valid kept) =
    kept-Intact is valid kept (ap records_of same)
CleanupResult-Intact {m} {m'} {pool = pool} r is (CleanupResult.registered one) = record {
  valid = one.valid;
  cells =
      rw one.added
        (one.cell_used, RecordsUsed-mono m m' pool r.1 (records_of pool.cleanup) one.kept is.cells);
}

-- The block at p goes, which holds no record.
without-RecordsUsed :
    (m m' : Mem) (pool pool' : Pool) (p size : ℕ) (ks : List Cleanup)
    → block m p ≡ some size
    → ((a : Addr) → in_use m' pool' a ≡ (in_use m pool a && not (within p size a)))
    → NoRecord m p ks
    → RecordsUsed m pool (records_of ks)
    → RecordsUsed m' pool' (records_of ks)
without-RecordsUsed m m' pool pool' p size [] live used none_there records = tt
without-RecordsUsed m m' pool pool' p size (k ∷ ks) live used none_there records = (
  λ a inside. used a ∙ ground (arith, records.0 a inside, none_there.0 size a live inside),
  without-RecordsUsed m m' pool pool' p size ks live used none_there.1 records.1,
)

pub PfreeResult-Intact :
    {m m' : Mem} {n : ℕ} {pool : Pool} (p : Addr) (r : Status × Pool)
    → Intact m n pool
    → NoRecord m p pool.cleanup
    → PfreeResult m n pool p r m'
    → Intact m' n r.1
PfreeResult-Intact p r is none_there (not_found out status same same_memory) =
    stay-Intact r.1 is same (rw same_memory is.valid.heap) (rw same_memory ((Keeps-refl _).stay))
PfreeResult-Intact {m} {m'} {pool = pool} p r is none_there
      (freed size inside live status out same gone valid used) =
    record {
      valid = valid;
      cells =
          rw same
            (without-RecordsUsed m m' pool r.1 p size pool.cleanup live used none_there is.cells);
    }

-- Other code frees a block that is not the pool's.
pub Freed-Intact :
    {m m' : Mem} {n : ℕ} {pool : Pool} (p : Addr)
    → Intact m n pool
    → NotBase p pool.chain
    → NotLarge p pool.large
    → Freed m p m'
    → Intact m' n pool
Freed-Intact {m} {m'} {n} {pool} p is base large gone =
    kept-Intact is
      (record {
        heap = Freed-IsHeap is.valid.heap gone;
        size = is.valid.size;
        word_size = is.valid.word_size;
        room = is.valid.room;
        max_large = is.valid.max_large;
        chain = IsChain-freed gone n pool.chain is.valid.chain base;
        current = is.valid.current;
        large = IsLargeList-freed gone pool.chain pool.large is.valid.large large;
        header = is.valid.header;
        records = is.valid.records;
      })
      (λ a used.
        rw (used_large-Freed m m' pool.chain p pool.large a gone is.valid.large large) used)
      refl

pub CreateResult-Intact :
    {m m' : Mem} {n : ℕ} {pool : Pool} → CreateResult m n (some pool) m' → Intact m' n pool
CreateResult-Intact (CreateResult.null_result e same) = absurd (cc)
CreateResult-Intact {m' = m'} {n = n}
      (CreateResult.new_pool_at p pool' e valid used none_there new) =
    subst (Intact m' n) (cc) (record { valid = valid; cells = rw none_there tt })
