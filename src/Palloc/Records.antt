-- ===== src/Palloc/Records.antt =====
-- The records of large blocks that src/nc_palloc.c keeps in the memory of their pool.
use libnc.Prelude.{
  ℕ, ◌<◌, ◌+◌, ◌≡◌, inl, inr, Bool, true, false, ◌||◌, some, List, [], ◌∷◌, ◌++◌, length, arith,
  Bool-cases,
}
use libnc.Memory.{Addr, Mem, block, within}
use libnc.Memory.Heap.{StayLive, Keeps}
use libnc.Palloc.Chain.{Chunk}
use libnc.Palloc.{Pool}
use libnc.Palloc.Invariant.{
  IsPool, HasHeader, IsRecords, cells_of, in_cells, in_pool_header, used_chain, in_use,
}

pub IsRecords-mono :
    (bs bs' : List Chunk) (ps : List Addr)
    → ((a : Addr) → used_chain bs a ≡ true → used_chain bs' a ≡ true)
    → IsRecords bs ps
    → IsRecords bs' ps
IsRecords-mono bs bs' [] more is = tt
IsRecords-mono bs bs' (p ∷ ps) more is =
    (λ a inside. (more a (is.0 a inside).0, (is.0 a inside).1), IsRecords-mono bs bs' ps more is.1)

pub in_cells-used :
    (bs : List Chunk) (ps : List Addr) (a : Addr)
    → IsRecords bs ps
    → in_cells ps a ≡ true
    → used_chain bs a ≡ true
in_cells-used bs [] a is inside = absurd (cc)
in_cells-used bs (p ∷ ps) a is inside = elim (Bool-cases (within p 16 a)) [
  | inl here ↦ (is.0 a here).0
  | inr other ↦ in_cells-used bs ps a is.1 (ground arith)
]

-- A byte that is not in use is in no record.
pub in_cells-unused :
    {m : Mem} {n : ℕ} {pool : Pool} (a : Addr)
    → IsPool m n pool
    → in_use m pool a ≡ false
    → in_cells (cells_of pool.large) a ≡ false
in_cells-unused {pool = pool} a is free = elim (Bool-cases (in_cells (cells_of pool.large) a)) [
  | inl inside ↦
      let used = in_cells-used pool.chain (cells_of pool.large) a is.records inside in
      absurd (ground arith)
  | inr outside ↦ outside
]

pub HasHeader-snoc :
    (bs : List Chunk) (b : Chunk) → 0 < length bs → HasHeader bs → HasHeader (bs ++ b ∷ [])
HasHeader-snoc [] b some_chunk is = absurd (omega arith)
HasHeader-snoc (c ∷ bs) b some_chunk is = is

-- A byte that the pool writes for itself: in the header of a chunk, or in a record.
abbrev pub own : Pool → Addr → Bool
own pool a = in_pool_header pool.chain a || in_cells (cells_of pool.large) a

-- Live blocks stay live, and all their bytes stay but those of the pool's own.
pub record Spared (m : Mem) (pool : Pool) (m' : Mem) : Type 0 where
  pub stay : StayLive m m'
  pub open stay use *
  pub bytes :
      (q t i : ℕ)
      → block m q ≡ some t
      → i < t
      → own pool (q + i) ≡ false
      → m'.byte (q + i) ≡ m.byte (q + i)

pub Keeps-Spared : {m m' : Mem} (pool : Pool) → Keeps m m' → Spared m pool m'
Keeps-Spared pool keeps = record {
  stay = keeps.stay;
  bytes = λ q t i live lt out. keeps.bytes q t i live lt;
}
