-- ===== src/Palloc/Chain.antt =====
-- struct nc_pool_data of src/nc_palloc.h: one chunk of a pool, and the walks along the chain in
-- nc_palloc_small and nc_palloc_block.
use libnc.Prelude.{
  ℕ, zero, suc, ◌+◌, ◌-◌, ◌%◌, ◌^◌, Bool, List, [], ◌∷◌, Option, none, some, ltb, leb,
  if◌then◌else◌,
}
use mathlib.Core.Option
use libnc.Memory.{Addr, word}
use libnc.Macros.{nc_alignment, nc_align_ptr}

-- The chunk starts at `base`, and `next` is its place in the list.
pub record Chunk : Type 0 where
  pub base : Addr
  pub last : Addr
  pub end : Addr
  pub failed : ℕ

-- Where an allocation in the chunk would start.
abbrev pub start : Bool → Chunk → Addr
start align b = if align then nc_align_ptr b.last nc_alignment else b.last

-- (size_t)(p->d.end - m)
abbrev pub left_space : Chunk → Addr → ℕ
left_space b m = (b.end + word - m) % word

abbrev pub prepend : Chunk → Option (Addr × List Chunk) → Option (Addr × List Chunk)
prepend b = Option.map λ (m, bs). (m, b ∷ bs)

-- The walk of nc_palloc_small from the k-th chunk on.
unfoldable pub small_scan : Bool → ℕ → ℕ → List Chunk → Option (Addr × List Chunk)
small_scan align size k [] = none
small_scan align size (suc k) (b ∷ bs) = prepend b (small_scan align size k bs)
small_scan align size zero (b ∷ bs) =
    let m = start align b in
    if leb size (left_space b m)
    then some (m, record b { last = m + size } ∷ bs)
    else prepend b (small_scan align size zero bs)

abbrev pub count_failure : Chunk → Chunk
count_failure b = record b { failed = (b.failed + 1) % 2 ^ 32 }

-- The walk of nc_palloc_block from the k-th chunk to the last one: every chunk but the last counts
-- a failure, and one that had more than four before passes `current` on to its successor. The first
-- chunk of the list is the i-th of the chain.
unfoldable pub mark_failures : (k i current : ℕ) → List Chunk → ℕ × List Chunk
mark_failures k i current [] = (current, [])
mark_failures k i current (b ∷ []) = (current, b ∷ [])
mark_failures (suc k) i current (b ∷ b' ∷ bs) =
    let (current', rest) = mark_failures k (i + 1) current (b' ∷ bs) in (current', b ∷ rest)
mark_failures zero i current (b ∷ b' ∷ bs) =
    let next = if ltb 4 b.failed then i + 1 else current in
    let (current', rest) = mark_failures zero (i + 1) next (b' ∷ bs) in
    (current', count_failure b ∷ rest)
