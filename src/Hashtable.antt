-- ===== src/Hashtable.antt =====
-- src/nc_hashtable.h and src/nc_hashtable.c: a hash table whose pairs stand in one circular list,
-- the pairs of a bucket side by side, with the ends of its stretch in the bucket.
-- A pair that is allocated comes at an address that is an argument, NULL where there is no memory,
-- and the status `true` is 0 and `false` is -1. A loop over the list takes fuel.
pub mod Store
pub mod Links
pub mod Removal
pub mod Growth
pub mod Search
pub mod Splice
pub mod Buckets
pub mod Insertion
pub mod Failure
pub mod Replacement
use libnc.Prelude.{
  ℕ, zero, suc, ◌+◌, ◌-◌, ◌%◌, Bool, true, false, ◌&&◌, List, [], ◌∷◌, Option, none, some,
  get_elem?, replicate, leb, ◌==◌, if◌then◌else◌,
}
use libnc.Memory.{Addr, null, word}
use Store.{
  Pair, Node, Bucket, Table, Client, Run, done, undefined, out_of_fuel, Cmd, pure, ◌>>=◌, ◌>>◌,
  load, put, store, table, change, set_next, set_prev, of_option, load_pair, set_value, load_bucket,
  store_bucket,
}
use Links.{
  primes, list_init, list_insert, list_remove, bucket_is_empty, insert_to_bucket, num_buckets,
  empty_buckets, find_loop, find_pair,
}
use Removal.{free_key, free_value, free_pair, do_del, do_clear}
use Growth.{alloc_buckets, do_rehash}

module _ {K V : Type 0} where
  unfoldable pub init : (has_memory : Bool) → Cmd K V Bool
  init has_memory = do
    change (λ t. record t { size = 0; num_buckets = 0 })
    ok ← alloc_buckets has_memory
    let rest : Cmd K V Bool = do
      t ← table
      list_init t.list
      n ← num_buckets
      empty_buckets 0 n
      pure true
    if ok then rest else pure false

  unfoldable pub deinit : Client K → Cmd K V (Unit {0})
  deinit c = do do_clear c; change (λ t. record t { buckets = none })

  unfoldable pub clear : Client K → Cmd K V (Unit {0})
  clear c = do
    do_clear c
    n ← num_buckets
    empty_buckets 0 n
    t ← table
    list_init t.list
    change (λ t. record t { size = 0 })

  -- The key is there already, in the pair p.
  unfoldable pub replace : Client K → Addr → K → V → Cmd K V Bool
  replace c p key value = do
    free_key c key
    pair ← load_pair p
    free_value c pair.value
    set_value p value
    pure true

  -- The key is not there, and p is what the allocation of a pair gives.
  unfoldable pub add : (i : ℕ) → Addr → Pair K V → Cmd K V Bool
  add i p pair =
      let rest : Cmd K V Bool = do
        store p (some (record { prev = null; next = null; pair = some pair }))
        list_init p
        insert_to_bucket i p
        change (λ t. record t { size = (t.size + 1) % word })
        pure true
      in if p == null then pure false else rest

  abbrev pub replace_or_add : Client K → (i p : ℕ) → Pair K V → Option Addr → Cmd K V Bool
  replace_or_add c i p pair none = add i p pair
  replace_or_add c i p pair (some q) = replace c q pair.key pair.value

  -- The rehash of nc_hashtable_set, where the load ratio exceeds 1.
  unfoldable pub make_room : (has_memory : Bool) → Cmd K V Bool
  make_room has_memory = do
    t ← table
    n ← num_buckets
    if leb n t.size then do_rehash has_memory else pure true

  -- `p` is what the allocation of a pair gives.
  unfoldable pub set_key : Client K → (has_memory : Bool) → Addr → K → V → Cmd K V Bool
  set_key c has_memory p key value = do
    ok ← make_room has_memory
    let hash : ℕ = c.hash_key key
    let rest : Cmd K V Bool = do
      n ← num_buckets
      found ← find_pair c (hash % n) key hash
      replace_or_add c (hash % n) p (record { key = key; value = value; hash = hash }) found
    if ok then rest else pure false

  abbrev pub value_at : Option Addr → Cmd K V (Option V)
  value_at none = pure none
  value_at (some p) = do pair ← load_pair p; pure (some pair.value)

  unfoldable pub iter_at : Client K → K → Cmd K V (Option Addr)
  iter_at c key = do n ← num_buckets; find_pair c (c.hash_key key % n) key (c.hash_key key)

  unfoldable pub get_key : Client K → K → Cmd K V (Option V)
  get_key c key = do
    n ← num_buckets
    found ← find_pair c (c.hash_key key % n) key (c.hash_key key)
    value_at found

  unfoldable pub del_key : Client K → K → Cmd K V Bool
  del_key c key = do_del c key (c.hash_key key)

  unfoldable pub iter_next : Addr → Cmd K V (Option Addr)
  iter_next p = do t ← table; n ← load p; pure (if n.next == t.list then none else some n.next)

  unfoldable pub iter : Cmd K V (Option Addr)
  iter = do t ← table; iter_next t.list

  unfoldable pub iter_key : Addr → Cmd K V K
  iter_key p = do pair ← load_pair p; pure pair.key

  unfoldable pub iter_value : Addr → Cmd K V V
  iter_value p = do pair ← load_pair p; pure pair.value

  unfoldable pub iter_set : Client K → Addr → V → Cmd K V (Unit {0})
  iter_set c p value = do pair ← load_pair p; free_value c pair.value; set_value p value

  -- `list` is where the table's own node stands, in the object that is allocated if `has_object`.
  unfoldable pub create : (list : Addr) (has_object has_memory : Bool) → Cmd K V (Option Addr)
  create list has_object has_memory =
      let rest : Cmd K V (Option Addr) = do
        change (λ t. record t { list = list })
        store list (some (record { prev = null; next = null; pair = none }))
        ok ← init has_memory
        let failed : Cmd K V (Option Addr) = do store list none; pure none
        if ok then pure (some list) else failed
      in if has_object then rest else pure none

  unfoldable pub destroy : Client K → Cmd K V (Unit {0})
  destroy c = do deinit c; t ← table; store t.list none
