-- ===== src/Palloc/Register.antt =====
-- nc_pool_cleanup_add of src/nc_palloc.c, and what nc_pool_reset does to a cleanup.
use libnc.Prelude.{
  ℕ, ◌≡◌, ◌≢◌, refl, ap, ◌∙◌, inl, inr, true, false, List, ◌∷◌, arith, ◌==◌, if◌then◌else◌,
  Bool-cases,
}
use libnc.Memory.{Addr, null, Mem, within, pure, ◌>>=◌}
use libnc.Memory.Gives.{Gives, gives, seq}
use libnc.Memory.Heap.{IsHeap, Keeps}
use libnc.Memory.Libc.{Libc, IsLibc}
use libnc.Palloc.Handlers.{Cleanup}
use libnc.Palloc.Invariant.{IsPool, in_use}
use libnc.Palloc.Keep.{IsPool-keep, used_large-keep}
use libnc.Palloc.Block.{Handed, PallocResult, no_memory, handed}
use libnc.Palloc.Hand.{palloc-PallocResult}
use libnc.Palloc.{Pool, pool_cleanup_size, palloc, link_cleanup, cleanup_add}

-- A new record at `cell`, first in the list, with no handler yet and `arg` for its memory. The
-- record and the memory were not in use, are now, and are apart.
pub record Registered (m : Mem) (n : ℕ) (pool : Pool) (size : ℕ) (cell : Addr) (pool' : Pool)
    (m' : Mem) : Type 0 where
  pub valid : IsPool m' n pool'
  pub kept : (a : Addr) → in_use m pool a ≡ true → in_use m' pool' a ≡ true
  pub cell_fresh : (a : Addr) → within cell pool_cleanup_size a ≡ true → in_use m pool a ≡ false
  pub cell_used : (a : Addr) → within cell pool_cleanup_size a ≡ true → in_use m' pool' a ≡ true
  pub arg : Addr
  pub added : pool'.cleanup ≡ record { cell = cell; handler = null; arg = arg } ∷ pool.cleanup
  pub arg_null : size ≡ 0 → arg ≡ null
  pub arg_fresh : (a : Addr) → size ≢ 0 → within arg size a ≡ true → in_use m pool a ≡ false
  pub arg_used : (a : Addr) → size ≢ 0 → within arg size a ≡ true → in_use m' pool' a ≡ true
  pub apart :
      (a : Addr) → size ≢ 0 → within cell pool_cleanup_size a ≡ true → within arg size a ≡ false

-- NULL with the cleanups as they were, or the new record.
pub data CleanupResult (m : Mem) (n : ℕ) (pool : Pool) (size : ℕ) (r : Addr × Pool) (m' : Mem)
    : Type 0 where
  null_result :
      r.0 ≡ null
      → r.1.cleanup ≡ pool.cleanup
      → IsPool m' n r.1
      → ((a : Addr) → in_use m pool a ≡ true → in_use m' r.1 a ≡ true)
      → CleanupResult m n pool size r m'
  registered : Registered m n pool size r.0 r.1 m' → CleanupResult m n pool size r m'

-- The list of cleanups is no concern of the invariant.
pub IsPool-cleanup :
    {m : Mem} {n : ℕ} {pool : Pool} (ks : List Cleanup)
    → IsPool m n pool
    → IsPool m n (record pool { cleanup = ks })
IsPool-cleanup ks is = record {
  heap = is.heap;
  size = is.size;
  word_size = is.word_size;
  room = is.room;
  max_large = is.max_large;
  chain = is.chain;
  current = is.current;
  large = is.large;
  header = is.header;
  records = is.records;
}

failed-CleanupResult :
    {m m' : Mem} {n : ℕ} {pool : Pool} (pool' : Pool)
    → IsPool m n pool
    → pool' ≡ pool
    → IsHeap m'
    → Keeps m m'
    → IsPool m' n pool' × ((a : Addr) → in_use m' pool' a ≡ in_use m pool a)
failed-CleanupResult {m} {m'} {n} {pool} pool' is same heap keeps = rw same (
  IsPool-keep keeps.stay heap is,
  λ a. rw (used_large-keep keeps.stay pool.chain pool.large a is.large),
)

module _ {m g : Mem} {n : ℕ} {pool pool' : Pool} {cell : Addr}
    (first : Handed m n pool pool_cleanup_size cell pool' g) where
  -- No memory for the client.
  without-Registered : Registered m n pool 0 cell (link_cleanup cell null pool').1 g
  unfolding link_cleanup
  without-Registered = record {
    valid = IsPool-cleanup _ first.valid;
    kept = first.kept;
    cell_fresh = first.fresh;
    cell_used = first.taken;
    arg = null;
    added = ap (◌∷◌ (record { cell = cell; handler = null; arg = null })) first.same_cleanup;
    arg_null = λ e. refl;
    arg_fresh = λ a ne inside. absurd (ne refl);
    arg_used = λ a ne inside. absurd (ne refl);
    apart = λ a ne inside. absurd (ne refl);
  }

  -- The memory for the client came after the record.
  with-Registered :
      {h : Mem} (size : ℕ) (arg : Addr) (pool'' : Pool)
      → size ≢ 0
      → Handed g n pool' size arg pool'' h
      → Registered m n pool size cell (link_cleanup cell arg pool'').1 h
  unfolding link_cleanup
  with-Registered size arg pool'' ne second = record {
    valid = IsPool-cleanup _ second.valid;
    kept = λ a used. second.kept a (first.kept a used);
    cell_fresh = first.fresh;
    cell_used = λ a inside. second.kept a (first.taken a inside);
    arg = arg;
    added =
        ap (◌∷◌ (record { cell = cell; handler = null; arg = arg }))
          (second.same_cleanup ∙ first.same_cleanup);
    arg_null = λ e. absurd (ne e);
    arg_fresh = λ a _ inside. ground (arith, first.kept a, second.fresh a inside);
    arg_used = λ a _ inside. second.taken a inside;
    apart = λ a _ inside. ground (arith, first.taken a inside, second.fresh a);
  }

module _ {c : Libc} (libc : IsLibc c) {m : Mem} {n : ℕ} {pool : Pool} (is : IsPool m n pool)
    (size : ℕ) where
  arg_step :
      {g : Mem} {pool' : Pool} (cell : Addr) (r : Addr × Pool) (h : Mem)
      → size ≢ 0
      → Handed m n pool pool_cleanup_size cell pool' g
      → PallocResult g n pool' size r h
      → Gives (CleanupResult m n pool size) (
          (let (arg, pool'') = r in
              if arg == null then pure (null, pool'') else pure (link_cleanup cell arg pool''))
            h)
  unfolding link_cleanup
  arg_step {g} {pool'} cell (arg, pool'') h ne first (no_memory is_null same heap keeps) =
      let (valid, used) = failed-CleanupResult pool'' first.valid same heap keeps in
      rw is_null (
        gives (
          null_result refl (ap (λ x. x.cleanup) same ∙ first.same_cleanup) valid
            (λ a u. used a ∙ first.kept a u)))
  arg_step cell (arg, pool'') h ne first (handed second) =
      let not_null : (arg == null) ≡ false = ground (arith, second.ne_null) in
      rw not_null (gives (registered (with-Registered first size arg pool'' ne second)))

  -- nc_pool_cleanup_add of a well-formed pool gives NULL with the list of cleanups as it was, or a
  -- record, first in the list and with no handler, in fresh pool memory, with `size` more fresh
  -- bytes apart from the record where the size is not zero. The pool stays well formed, and no
  -- byte goes out of use.
  pub cleanup_add-CleanupResult : Gives (CleanupResult m n pool size) (cleanup_add c pool size m)
  unfolding cleanup_add
  cleanup_add-CleanupResult = seq (palloc-PallocResult libc is pool_cleanup_size) cell_step
    where
      cell_step :
          (r : Addr × Pool) (g : Mem)
          → PallocResult m n pool pool_cleanup_size r g
          → Gives (CleanupResult m n pool size) (
              (let (cell, pool') = r in
                  if cell == null
                  then pure (null, pool')
                  else if size == 0
                  then pure (link_cleanup cell null pool')
                  else do
                    (arg, pool'') ← palloc c pool' size
                    if arg == null
                        then pure (null, pool'')
                        else pure (link_cleanup cell arg pool''))
                g)
      cell_step (cell, pool') g (no_memory is_null same heap keeps) =
          let (valid, used) = failed-CleanupResult pool' is same heap keeps in
          rw is_null (gives (null_result refl (ap (λ x. x.cleanup) same) valid (λ a u. used a ∙ u)))
      cell_step (cell, pool') g (handed first) =
          let not_null : (cell == null) ≡ false = ground (arith, first.ne_null) in
          elim (Bool-cases (size == 0)) [
            | inl zero_size ↦
                let e : size ≡ 0 = ground arith in
                rw (not_null, e) (gives (registered (without-Registered first)))
            | inr some_size ↦
                rw (not_null, some_size)
                  (seq (palloc-PallocResult libc first.valid size)
                    λ r h result. arg_step cell r h (ground arith) first result)
          ]
