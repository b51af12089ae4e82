-- ===== src/Palloc/Reset.antt =====
-- nc_pool_reset of src/nc_palloc.c.
use libnc.Prelude.{
  ℕ, suc, ◌≤◌, ◌≡◌, refl, ap, ◌∙◌, Bool, false, ◌||◌, List, [], ◌∷◌, map, length, arith,
}
use libnc.Memory.{Addr, Mem, within}
use libnc.Memory.Gives.{Gives, gives, seq}
use libnc.Memory.Libc.{Libc, IsLibc}
use libnc.Palloc.Chain.{Chunk}
use libnc.Palloc.Invariant.{
  IsChunk, HasHeader, NotBase, IsChain, IsPool, used_chain, used_large, in_use,
}
use libnc.Palloc.Release.{has_large, Gone, free_large-Gone}
use libnc.Palloc.{Pool, pool_size, chunk_size, reset_chunk, pool_reset}

-- The headers, of which each has the size of the first one.
unfoldable pub in_header : List Chunk → Addr → Bool
in_header [] a = false
in_header (b ∷ bs) a = within b.base pool_size a || in_header bs a

NotBase-reset : (q : Addr) (bs : List Chunk) → NotBase q bs → NotBase q (map reset_chunk bs)
NotBase-reset q [] out = tt
NotBase-reset q (b ∷ bs) out = (out.0, NotBase-reset q bs out.1)

IsChunk-reset :
    {m : Mem} {n : ℕ} {b : Chunk} → pool_size ≤ n → IsChunk m n b → IsChunk m n (reset_chunk b)
IsChunk-reset room is = record {
  ne_null = is.ne_null;
  live = is.live;
  ends = is.ends;
  fits = is.fits;
  aligned = is.aligned;
  header = omega arith;
  inside = omega (arith, is.ends);
}

IsChain-reset :
    (m : Mem) (n : ℕ) (bs : List Chunk)
    → pool_size ≤ n
    → IsChain m n bs
    → IsChain m n (map reset_chunk bs)
IsChain-reset m n [] room is = tt
IsChain-reset m n (b ∷ bs) room is =
    (IsChunk-reset room is.0, NotBase-reset b.base bs is.1, IsChain-reset m n bs room is.2)

HasHeader-reset : (bs : List Chunk) → HasHeader (map reset_chunk bs)
HasHeader-reset [] = tt
HasHeader-reset (b ∷ bs) = omega arith

used_chain-reset : (bs : List Chunk) (a : Addr) → used_chain (map reset_chunk bs) a ≡ in_header bs a
unfolding used_chain in_header
used_chain-reset [] a = refl
used_chain-reset (b ∷ bs) a = rw (used_chain-reset bs a)

length-reset : (bs : List Chunk) → length (map reset_chunk bs) ≡ length bs
length-reset [] = refl
length-reset (b ∷ bs) = ap suc (length-reset bs)

chunk_size-reset : (bs : List Chunk) → chunk_size (map reset_chunk bs) ≡ chunk_size bs
chunk_size-reset [] = refl
chunk_size-reset (b ∷ bs) = refl

-- What nc_pool_reset promises.
pub record WasReset (m : Mem) (n : ℕ) (pool pool' : Pool) (m' : Mem) : Type 0 where
  pub valid : IsPool m' n pool'
  pub gone : Gone (has_large pool.large) m m'
  pub used : (a : Addr) → in_use m' pool' a ≡ in_header pool.chain a
  pub same_max : pool'.max ≡ pool.max
  pub same_cleanup : pool'.cleanup ≡ pool.cleanup

module _ {c : Libc} (libc : IsLibc c) {m : Mem} {n : ℕ} {pool : Pool} (is : IsPool m n pool) where
  pub pool_reset-WasReset : Gives (WasReset m n pool) (pool_reset c pool m)
  unfolding pool_reset used_large
  pool_reset-WasReset =
      seq (free_large-Gone libc n pool.chain pool.large m is.heap is.chain is.large)
        λ _ m' (gone, chain, heap). gives (record {
          valid = record {
            heap = heap;
            size = chunk_size-reset pool.chain ∙ is.size;
            word_size = is.word_size;
            room = is.room;
            max_large = is.max_large;
            chain = IsChain-reset m' n pool.chain (omega (arith, is.room)) chain;
            current = omega (arith, is.current, length-reset pool.chain);
            large = tt;
            header = HasHeader-reset pool.chain;
            records = tt;
          };
          gone = gone;
          used = λ a. ground (arith, used_chain-reset pool.chain a);
          same_max = refl;
          same_cleanup = refl;
        })
