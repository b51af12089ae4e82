-- ===== src/Palloc/Release.antt =====
-- nc_pool_create, nc_pool_destroy and nc_pool_reset of src/nc_palloc.c.
use libnc.Prelude.{
  ℕ, ◌+◌, ◌%◌, ◌≤◌, ◌≡◌, ◌≢◌, refl, ap, ◌∙◌, inl, inr, Bool, false, ◌||◌, Option, none, some, List,
  [], ◌∷◌, arith, ltb, ◌==◌, if◌then◌else◌, Bool-cases,
}
use libnc.Memory.{Addr, null, Mem, block, find, within, undefined, Cmd, pure}
use libnc.Memory.Gives.{Gives, gives, seq, weaken}
use libnc.Memory.Heap.{IsHeap, StayLive, Placed-IsHeap, Freed-IsHeap}
use libnc.Palloc.Keep.{IsChain-keep, IsLargeList-keep}
use libnc.Memory.Libc.{Libc, IsLibc, Placed, Freed}
use libnc.Macros.Calloc.{Allocated, failed, placed, nc_memalign-Allocated, nc_free-Freed}
use libnc.Palloc.Chain.{Chunk}
use libnc.Palloc.Blocks.{Large, free_large}
use libnc.Palloc.Handlers.{Cleanup, run_cleanups}
use libnc.Palloc.Invariant.{
  IsChunk, NotBase, IsChain, NotLarge, IsLargeList, IsPool, used_chain, used_large, in_use,
}
use libnc.Palloc.{Pool, pool_size, new_pool, pool_create, free_chain, pool_destroy}

-- NULL with the memory as it was, or a well-formed pool of which only the header is in use, with no
-- cleanups.
pub data CreateResult (m : Mem) (size : ℕ) (r : Option Pool) (m' : Mem) : Type 0 where
  null_result : r ≡ none → m' ≡ m → CreateResult m size r m'
  new_pool_at :
      (p : Addr) (pool : Pool)
      → r ≡ some pool
      → IsPool m' size pool
      → ((a : Addr) → in_use m' pool a ≡ within p pool_size a)
      → pool.cleanup ≡ []
      → Placed m size p m'
      → CreateResult m size r m'

new_pool-IsPool :
    {m m' : Mem} {p : Addr} (size : ℕ)
    → IsHeap m
    → Placed m size p m'
    → p % 16 ≡ 0
    → size % 8 ≡ 0
    → 80 ≤ size
    → IsPool m' size (new_pool p size)
new_pool-IsPool {m} {m'} {p} size heap new aligned eights enough = record {
  heap = Placed-IsHeap heap new;
  size = omega arith;
  word_size = eights;
  room = ground (arith, new.fits);
  max_large = ground (arith, new.fits);
  chain = (chunk, tt, tt);
  current = omega arith;
  large = tt;
  header = omega arith;
  records = tt;
}
  where
    chunk : IsChunk m' size (record { base = p; last = p + pool_size; end = p + size; failed = 0 })
    chunk = record {
      ne_null = new.ne_null;
      live = ground (arith, new.live p);
      ends = refl;
      fits = new.fits;
      aligned = aligned;
      header = omega arith;
      inside = omega arith;
    }

-- nc_pool_create of a size that is a multiple of eight and has room for the header and a record of
-- a large block gives NULL, or a well-formed pool of which only the header is in use, with no
-- cleanups.
pub pool_create-CreateResult :
    {c : Libc} (libc : IsLibc c) (size : ℕ) (m : Mem)
    → IsHeap m
    → size % 8 ≡ 0
    → 80 ≤ size
    → Gives (CreateResult m size) (pool_create c size m)
unfolding pool_create used_chain used_large
pool_create-CreateResult libc size m heap eights enough =
    seq (nc_memalign-Allocated libc size m) step
  where
    step :
        (p : Addr) (g : Mem)
        → Allocated m size p g
        → Gives (CreateResult m size) (
            (if p == null
                then pure none
                else if ltb size pool_size
                then (λ _. undefined)
                else pure (some (new_pool p size)))
              g)
    step p g (failed is_null same) = rw (is_null, same) (gives (null_result refl refl))
    step p g (placed new aligned) =
        let not_null : (p == null) ≡ false = ground (arith, new.ne_null) in
        let room : ltb size pool_size ≡ false = ground arith in
        rw (not_null, room)
          (gives (
            new_pool_at p (new_pool p size) refl
              (new_pool-IsPool size heap new aligned eights enough) (λ a. ground arith) refl new))

-- The address is the base of a chunk, or that of a large block.
unfoldable pub has_base : List Chunk → Addr → Bool
has_base [] q = false
has_base (b ∷ bs) q = b.base == q || has_base bs q

unfoldable pub has_large : List Large → Addr → Bool
has_large [] q = false
has_large (l ∷ ls) q = (if l.alloc == null then false else l.alloc == q) || has_large ls q

module _ {m m' : Mem} {p : Addr} (gone : Freed m p m') where
  IsChunk-freed : {n : ℕ} {b : Chunk} → IsChunk m n b → p ≢ b.base → IsChunk m' n b
  IsChunk-freed {b} is ne = record {
    ne_null = is.ne_null;
    live = ground (arith, gone.live b.base, is.live);
    ends = is.ends;
    fits = is.fits;
    aligned = is.aligned;
    header = is.header;
    inside = is.inside;
  }

  pub IsChain-freed : (n : ℕ) (bs : List Chunk) → IsChain m n bs → NotBase p bs → IsChain m' n bs
  IsChain-freed n [] is out = tt
  IsChain-freed n (b ∷ bs) is out = (IsChunk-freed is.0 out.0, is.1, IsChain-freed n bs is.2 out.1)

  pub IsLargeList-freed :
      (bs : List Chunk) (ls : List Large)
      → IsLargeList m bs ls
      → NotLarge p ls
      → IsLargeList m' bs ls
  IsLargeList-freed bs [] is out = tt
  IsLargeList-freed bs (l ∷ ls) (inl free, is) out = (inl free, IsLargeList-freed bs ls is out.1)
  IsLargeList-freed bs (l ∷ ls) (inr (k, live, base, later), is) out = (
    inr (k, ground (arith, gone.live l.alloc, out.0), base, later),
    IsLargeList-freed bs ls is out.1,
  )

-- The blocks that a test picks are gone, and no other.
abbrev pub Gone : (Addr → Bool) → Mem → Mem → Type 0
Gone has m m' = (q : Addr) → block m' q ≡ (if has q then none else block m q)

module _ {c : Libc} (libc : IsLibc c) (n : ℕ) where
  pub free_large-Gone :
      (bs : List Chunk) (ls : List Large) (m : Mem)
      → IsHeap m
      → IsChain m n bs
      → IsLargeList m bs ls
      → Gives (λ _ m'. Gone (has_large ls) m m' × IsChain m' n bs × IsHeap m') (free_large c ls m)
  unfolding free_large has_large
  free_large-Gone bs [] m heap chain is = gives (λ q. refl, chain, heap)
  free_large-Gone bs (l ∷ ls) m heap chain (inl free, is) =
      rw free (free_large-Gone bs ls m heap chain is)
  free_large-Gone bs (l ∷ ls) m heap chain (inr (k, live, base, later), is) =
      elim (Bool-cases (l.alloc == null)) [
        | inl is_null ↦ rw is_null (free_large-Gone bs ls m heap chain is)
        | inr not_null ↦ rw not_null (
            seq (nc_free-Freed libc l.alloc k m (ground arith) live) λ _ g freed.
              weaken
                (free_large-Gone bs ls g (Freed-IsHeap heap freed)
                  (IsChain-freed freed n bs chain base) (IsLargeList-freed freed bs ls is later))
                λ _ m' (gone, rest, heap').
                  (λ q. ground (arith, gone q, freed.live q), rest, heap'))
      ]

  free_chain-Gone :
      (bs : List Chunk) (m : Mem)
      → IsChain m n bs
      → Gives (λ _ m'. Gone (has_base bs) m m') (free_chain c bs m)
  unfolding free_chain has_base
  free_chain-Gone [] m is = gives (λ q. refl)
  free_chain-Gone (b ∷ bs) m is =
      seq (nc_free-Freed libc b.base n m is.0.ne_null is.0.live) λ _ g freed.
        weaken (free_chain-Gone bs g (IsChain-freed freed n bs is.2 is.1))
          λ _ m' gone q. ground (arith, gone q, freed.live q)

-- The blocks that a pool owns.
abbrev pub owns : Pool → Addr → Bool
owns pool q = has_base pool.chain q || has_large pool.large q

-- The same blocks are live, in the same order.
abbrev pub SameBlocks : Mem → Mem → Type 0
SameBlocks m m' = m'.blocks ≡ m.blocks

run_cleanups-SameBlocks :
    (call : Addr → Addr → Cmd (Unit {0})) (ks : List Cleanup) (m : Mem)
    → ((h a : Addr) (g : Mem) → Gives (λ _ m'. SameBlocks g m') (call h a g))
    → Gives (λ _ m'. SameBlocks m m') (run_cleanups call ks m)
unfolding run_cleanups
run_cleanups-SameBlocks call [] m quiet = gives refl
run_cleanups-SameBlocks call (k ∷ ks) m quiet = elim (Bool-cases (k.handler == null)) [
  | inl none_set ↦ rw none_set (run_cleanups-SameBlocks call ks m quiet)
  | inr some_set ↦ rw some_set (
      seq (quiet k.handler k.arg m)
        λ _ g same. weaken (run_cleanups-SameBlocks call ks g quiet) λ _ m' same'. same' ∙ same)
]

module _ {c : Libc} (libc : IsLibc c) {m : Mem} {n : ℕ} {pool : Pool} (is : IsPool m n pool) where
  -- The steps of nc_pool_destroy, for a list of cleanups that is still as it was registered.
  pub pool_destroy-Gone :
      (call : Addr → Addr → Cmd (Unit {0}))
      → ((h a : Addr) (g : Mem) → Gives (λ _ m'. SameBlocks g m') (call h a g))
      → Gives (λ _ m'. Gone (owns pool) m m') (pool_destroy c call pool m)
  unfolding pool_destroy
  pool_destroy-Gone call quiet = seq (run_cleanups-SameBlocks call pool.cleanup m quiet) λ _ g same.
      let stay : StayLive m g = record { live = λ q t old. rw same old } in
      let heap : IsHeap g = rw same is.heap in
      seq
        (free_large-Gone libc n pool.chain pool.large g heap
          (IsChain-keep stay n pool.chain is.chain)
          (IsLargeList-keep stay pool.chain pool.large is.large))
        λ _ h (gone, chain, _).
          weaken (free_chain-Gone libc n pool.chain h chain)
            λ _ m' gone' q. ground (arith, gone' q, gone q, ap (find q) same)
