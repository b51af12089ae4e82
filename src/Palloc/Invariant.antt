-- ===== src/Palloc/Invariant.antt =====
-- When a pool is well formed, and which bytes it has handed out.
use libnc.Prelude.{
  ℕ, ◌+◌, ◌%◌, ◌≤◌, ◌<◌, ◌≡◌, ◌≢◌, ◌⊎◌, Bool, true, false, ◌&&◌, ◌||◌, Option, none, some, List, [],
  ◌∷◌, length, ltb, leb, ◌==◌, if◌then◌else◌,
}
use libnc.Memory.{Addr, null, word, Mem, block, within}
use libnc.Memory.Heap.{IsHeap}
use libnc.Palloc.Chain.{Chunk}
use libnc.Palloc.Blocks.{Large}
use libnc.Palloc.{Pool, chunk_size, pool_size, pool_data_size, pool_large_size}

-- A chunk of n bytes is a live block; what is handed out lies between its header and its end.
pub record IsChunk (m : Mem) (n : ℕ) (b : Chunk) : Type 0 where
  pub ne_null : b.base ≢ null
  pub live : block m b.base ≡ some n
  pub ends : b.end ≡ b.base + n
  pub fits : b.base + n < word
  pub aligned : b.base % 16 ≡ 0
  pub header : b.base + pool_data_size ≤ b.last
  pub inside : b.last ≤ b.end

-- The address is the base of no chunk.
abbrev pub NotBase : Addr → List Chunk → Type 0
NotBase p [] = Unit {0}
NotBase p (b ∷ bs) = (p ≢ b.base) × NotBase p bs

abbrev pub IsChain : Mem → ℕ → List Chunk → Type 0
IsChain m n [] = Unit {0}
IsChain m n (b ∷ bs) = IsChunk m n b × NotBase b.base bs × IsChain m n bs

-- The address is that of no large block.
abbrev pub NotLarge : Addr → List Large → Type 0
NotLarge p [] = Unit {0}
NotLarge p (l ∷ ls) = (p ≢ l.alloc) × NotLarge p ls

-- Each record is free for reuse, or holds a live block that is no chunk and in no later record.
abbrev pub IsLargeList : Mem → List Chunk → List Large → Type 0
IsLargeList m bs [] = Unit {0}
IsLargeList m bs (l ∷ ls) =
    ((l.alloc ≡ null)
      ⊎ ((n : ℕ) × (block m l.alloc ≡ some n) × NotBase l.alloc bs × NotLarge l.alloc ls))
    × IsLargeList m bs ls

abbrev pub used_chunk : Chunk → Addr → Bool
used_chunk b a = leb b.base a && ltb a b.last

unfoldable pub used_chain : List Chunk → Addr → Bool
used_chain [] a = false
used_chain (b ∷ bs) a = used_chunk b a || used_chain bs a

-- The first chunk is full past the pool's own header.
abbrev pub HasHeader : List Chunk → Type 0
HasHeader [] = Unit {0}
HasHeader (b ∷ bs) = b.base + pool_size ≤ b.last

-- The headers: of the pool in the first chunk, and of a chunk in the others.
abbrev pub in_chunk_header : List Chunk → Addr → Bool
in_chunk_header [] a = false
in_chunk_header (b ∷ bs) a = within b.base pool_data_size a || in_chunk_header bs a

abbrev pub in_pool_header : List Chunk → Addr → Bool
in_pool_header [] a = false
in_pool_header (b ∷ bs) a = within b.base pool_size a || in_chunk_header bs a

-- The addresses of the records of large blocks, and the bytes of these records.
abbrev pub cells_of : List Large → List Addr
cells_of [] = []
cells_of (l ∷ ls) = l.cell ∷ cells_of ls

abbrev pub in_cells : List Addr → Addr → Bool
in_cells [] a = false
in_cells (p ∷ ps) a = within p pool_large_size a || in_cells ps a

-- The records stand in the chunks, in bytes that are in use, and are apart from each other.
abbrev pub IsRecords : List Chunk → List Addr → Type 0
IsRecords bs [] = Unit {0}
IsRecords bs (p ∷ ps) =
    ((a : Addr)
      → within p pool_large_size a ≡ true
      → (used_chain bs a ≡ true) × (in_cells ps a ≡ false))
    × IsRecords bs ps

-- A pool whose chunks have n bytes.
pub record IsPool (m : Mem) (n : ℕ) (pool : Pool) : Type 0 where
  pub heap : IsHeap m
  pub size : chunk_size pool.chain ≡ n
  pub word_size : n % 8 ≡ 0
  pub room : pool.max + pool_size ≤ n
  pub max_large : pool_large_size ≤ pool.max
  pub chain : IsChain m n pool.chain
  pub current : pool.current < length pool.chain
  pub large : IsLargeList m pool.chain pool.large
  pub header : HasHeader pool.chain
  pub records : IsRecords pool.chain (cells_of pool.large)

abbrev pub within_block : Option ℕ → Addr → Addr → Bool
within_block none p a = false
within_block (some n) p a = within p n a

unfoldable pub used_large : Mem → List Large → Addr → Bool
used_large m [] a = false
used_large m (l ∷ ls) a =
    (if l.alloc == null then false else within_block (block m l.alloc) l.alloc a)
    || used_large m ls a

-- A byte is in use if it lies in a chunk before `last`, header included, or in a large block.
abbrev pub in_use : Mem → Pool → Addr → Bool
in_use m pool a = used_chain pool.chain a || used_large m pool.large a
