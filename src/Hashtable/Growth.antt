-- ===== src/Hashtable/Growth.antt =====
-- hashtable_do_rehash of src/nc_hashtable.c, and the allocation of buckets.
use libnc.Prelude.{
  ℕ, zero, suc, ◌%◌, Bool, true, false, List, none, some, replicate, ◌==◌, if◌then◌else◌,
}
use libnc.Memory.{Addr, null}
use libnc.Hashtable.Store.{
  Bucket, out_of_fuel, Cmd, pure, ◌>>=◌, ◌>>◌, load, table, change, load_pair,
}
use libnc.Hashtable.Links.{list_init, insert_to_bucket, num_buckets, empty_buckets}

module _ {K V : Type 0} where
  -- The assignment of an allocated array of buckets, and whether it is not NULL.
  unfoldable pub alloc_buckets : (has_memory : Bool) → Cmd K V Bool
  alloc_buckets has_memory = do
    n ← num_buckets
    let fresh : List Bucket = replicate n (record { first = null; last = null })
    change (λ t. record t { buckets = if has_memory then some fresh else none })
    pure has_memory

  -- The loop of hashtable_do_rehash, from the node p on.
  unfoldable pub rehash_loop : (fuel : ℕ) → Addr → Cmd K V (Unit {0})
  rehash_loop zero p = λ t. out_of_fuel
  rehash_loop (suc fuel) p = do
    t ← table
    let rest : Cmd K V (Unit {0}) = do
      n ← load p
      pair ← load_pair p
      m ← num_buckets
      insert_to_bucket (pair.hash % m) p
      rehash_loop fuel n.next
    if p == t.list then pure tt else rest

  -- `has_memory` tells whether the new array of buckets is allocated.
  unfoldable pub do_rehash : (has_memory : Bool) → Cmd K V Bool
  do_rehash has_memory = do
    change (λ t. record t { buckets = none; num_buckets = suc t.num_buckets })
    ok ← alloc_buckets has_memory
    let rest : Cmd K V Bool = do
      n ← num_buckets
      empty_buckets 0 n
      t ← table
      own ← load t.list
      list_init t.list
      rehash_loop (suc t.size) own.next
      pure true
    if ok then rest else pure false
