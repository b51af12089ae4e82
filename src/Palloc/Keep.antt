-- ===== src/Palloc/Keep.antt =====
-- A well-formed pool stays so, with the same bytes in use, where the memory keeps its live blocks.
use libnc.Prelude.{ℕ, ◌≡◌, ◌≢◌, refl, ap, ◌∙◌, inl, inr, none, List, [], ◌∷◌, arith}
use libnc.Memory.{Addr, null, Mem, block}
use libnc.Memory.Heap.{IsHeap, StayLive}
use libnc.Palloc.Chain.{Chunk}
use libnc.Palloc.Blocks.{Large}
use libnc.Palloc.{Pool}
use libnc.Palloc.Invariant.{IsChunk, NotBase, IsChain, NotLarge, IsLargeList, IsPool, used_large}

module _ {m m' : Mem} (keeps : StayLive m m') where
  pub IsChunk-keep : {n : ℕ} {b : Chunk} → IsChunk m n b → IsChunk m' n b
  IsChunk-keep is = record {
    ne_null = is.ne_null;
    live = keeps.live _ _ is.live;
    ends = is.ends;
    fits = is.fits;
    aligned = is.aligned;
    header = is.header;
    inside = is.inside;
  }

  pub IsChain-keep : (n : ℕ) (bs : List Chunk) → IsChain m n bs → IsChain m' n bs
  IsChain-keep n [] is = tt
  IsChain-keep n (b ∷ bs) is = (IsChunk-keep is.0, is.1, IsChain-keep n bs is.2)

  pub IsLargeList-keep :
      (bs : List Chunk) (ls : List Large) → IsLargeList m bs ls → IsLargeList m' bs ls
  IsLargeList-keep bs [] is = tt
  IsLargeList-keep bs (l ∷ ls) (inl free, is) = (inl free, IsLargeList-keep bs ls is)
  IsLargeList-keep bs (l ∷ ls) (inr (n, live, base, later), is) =
      (inr (n, keeps.live _ _ live, base, later), IsLargeList-keep bs ls is)

  pub used_large-keep :
      (bs : List Chunk) (ls : List Large) (a : Addr)
      → IsLargeList m bs ls
      → used_large m' ls a ≡ used_large m ls a
  unfolding used_large
  used_large-keep bs [] a is = refl
  used_large-keep bs (l ∷ ls) a (inl free, is) = ground (arith, used_large-keep bs ls a is)
  used_large-keep bs (l ∷ ls) a (inr (n, live, _, _), is) =
      ground (arith, keeps.live l.alloc n live, used_large-keep bs ls a is)

  pub IsPool-keep : {n : ℕ} {pool : Pool} → IsHeap m' → IsPool m n pool → IsPool m' n pool
  IsPool-keep {n} {pool} heap is = record {
    heap = heap;
    size = is.size;
    word_size = is.word_size;
    room = is.room;
    max_large = is.max_large;
    chain = IsChain-keep n pool.chain is.chain;
    current = is.current;
    large = IsLargeList-keep pool.chain pool.large is.large;
    header = is.header;
    records = is.records;
  }

-- A block that is not live yet is no chunk and no large block.
pub NotBase-fresh :
    (m : Mem) (n : ℕ) (p : Addr) (bs : List Chunk)
    → IsChain m n bs
    → block m p ≡ none
    → NotBase p bs
NotBase-fresh m n p [] is new = tt
NotBase-fresh m n p (b ∷ bs) is new =
    (λ e. ground (arith, ap (block m) e, is.0.live), NotBase-fresh m n p bs is.2 new)

pub NotLarge-fresh :
    (m : Mem) (p : Addr) (bs : List Chunk) (ls : List Large)
    → IsLargeList m bs ls
    → p ≢ null
    → block m p ≡ none
    → NotLarge p ls
NotLarge-fresh m p bs [] is ne new = tt
NotLarge-fresh m p bs (l ∷ ls) (inl free, is) ne new =
    (λ e. ne (e ∙ free), NotLarge-fresh m p bs ls is ne new)
NotLarge-fresh m p bs (l ∷ ls) (inr (n, live, _, _), is) ne new =
    (λ e. ground (arith, ap (block m) e), NotLarge-fresh m p bs ls is ne new)
