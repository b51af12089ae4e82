-- ===== src/Palloc/Zero.antt =====
-- nc_pcalloc of src/nc_palloc.c: memset over what nc_palloc hands out.
use libnc.Prelude.{ℕ, ◌≡◌, refl, true, false, arith, ◌==◌, if◌then◌else◌}
use libnc.Memory.{Addr, null, Mem, within, pure, ◌>>◌, memset}
use libnc.Memory.Gives.{Gives, gives, seq}
use libnc.Memory.Heap.{Keeps, IsHeap}
use libnc.Memory.Libc.{Libc, IsLibc}
use libnc.Palloc.Invariant.{IsPool}
use libnc.Palloc.Keep.{IsPool-keep}
use libnc.Palloc.Block.{Handed, PallocResult, no_memory, handed}
use libnc.Palloc.Hand.{palloc-PallocResult}
use libnc.Palloc.{Pool, pcalloc}

-- The n bytes at p are zero in m', which is otherwise g.
pub record Cleared (p : Addr) (n : ℕ) (g m' : Mem) : Type 0 where
  pub zero_byte : (a : Addr) → within p n a ≡ true → m'.byte a ≡ 0
  pub spared : (a : Addr) → within p n a ≡ false → m'.byte a ≡ g.byte a
  pub same_blocks : m'.blocks ≡ g.blocks

-- NULL, or memory handed out as by nc_palloc and then cleared.
pub data PcallocResult (m : Mem) (n : ℕ) (pool : Pool) (size : ℕ) (r : Addr × Pool) (m' : Mem)
    : Type 0 where
  null_result : r.0 ≡ null → r.1 ≡ pool → IsHeap m' → Keeps m m' → PcallocResult m n pool size r m'
  zeroed :
      (g : Mem)
      → Handed m n pool size r.0 r.1 g
      → Cleared r.0 size g m'
      → IsPool m' n r.1
      → PcallocResult m n pool size r m'

-- memset changes no block, so it keeps a pool.
memset-Cleared :
    {g : Mem} {n : ℕ} {pool : Pool} (p size : ℕ)
    → IsPool g n pool
    → Gives (λ _ m'. Cleared p size g m' × IsPool m' n pool) (memset p 0 size g)
unfolding memset
memset-Cleared p size is = gives (
  record {
    zero_byte = λ a inside. ground arith;
    spared = λ a outside. ground arith;
    same_blocks = refl;
  },
  IsPool-keep (record { live = λ q t h. h }) is.heap is,
)

module _ {c : Libc} (libc : IsLibc c) {m : Mem} {n : ℕ} {pool : Pool} (is : IsPool m n pool)
    (size : ℕ) where
  -- nc_pcalloc of a well-formed pool gives NULL and leaves the pool as it was, or hands out memory
  -- as nc_palloc does, all of it zero, writes no other byte, and keeps the pool well formed.
  pub pcalloc-PcallocResult : Gives (PcallocResult m n pool size) (pcalloc c pool size m)
  unfolding pcalloc
  pcalloc-PcallocResult = seq (palloc-PallocResult libc is size) step
    where
      step :
          (r : Addr × Pool) (g : Mem)
          → PallocResult m n pool size r g
          → Gives (PcallocResult m n pool size) (
              (let (p, pool') = r in
                  if p == null then pure (p, pool') else do memset p 0 size; pure (p, pool'))
                g)
      step (p, pool') g (no_memory is_null same heap keeps) =
          rw is_null (gives (null_result refl same heap keeps))
      step (p, pool') g (handed h) =
          let not_null : (p == null) ≡ false = ground (arith, h.ne_null) in
          rw not_null (
            seq (memset-Cleared p size h.valid)
              λ _ m' (cleared, valid). gives (zeroed g h cleared valid))
