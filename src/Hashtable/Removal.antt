-- ===== src/Hashtable/Removal.antt =====
-- hashtable_do_del and hashtable_do_clear of src/nc_hashtable.c.
use libnc.Prelude.{
  ℕ, zero, suc, ◌+◌, ◌-◌, ◌%◌, Bool, true, false, ◌&&◌, ◌∷◌, Option, none, some, ◌==◌,
  if◌then◌else◌,
}
use libnc.Memory.{Addr, word}
use libnc.Hashtable.Store.{
  Node, Bucket, Table, Client, done, out_of_fuel, Cmd, pure, ◌>>=◌, ◌>>◌, load, store, table,
  change, load_pair, load_bucket, store_bucket,
}
use libnc.Hashtable.Links.{list_remove, num_buckets, find_pair}

module _ {K V : Type 0} where
  -- Calls of free_key and free_value, where the client gave them.
  unfoldable pub free_key : Client K → K → Cmd K V (Unit {0})
  free_key c k t =
      done tt (record t { freed_keys = if c.frees_keys then k ∷ t.freed_keys else t.freed_keys })

  unfoldable pub free_value : Client K → V → Cmd K V (Unit {0})
  free_value c v t =
      done tt
        (record t { freed_values = if c.frees_values then v ∷ t.freed_values else t.freed_values })

  -- Both calls for a pair, and the free of the pair.
  unfoldable pub free_pair : Client K → Addr → Cmd K V (Unit {0})
  free_pair c p = do pair ← load_pair p; free_key c pair.key; free_value c pair.value; store p none

  -- The bucket without the node p at one of its ends.
  abbrev pub shrink : Table K V → Addr → Node K V → Bucket → Bucket
  shrink t p n b =
      if p == b.first && p == b.last
      then record { first = t.list; last = t.list }
      else if p == b.first
      then record b { first = n.next }
      else if p == b.last
      then record b { last = n.prev }
      else b

  -- The rest of hashtable_do_del, where the pair was found. `true` is 0 and `false` is -1.
  unfoldable pub del_pair : Client K → ℕ → Option Addr → Cmd K V Bool
  del_pair c i none = pure false
  del_pair c i (some p) = do
    t ← table
    n ← load p
    b ← load_bucket i
    store_bucket i (shrink t p n b)
    list_remove p
    free_pair c p
    change (λ t'. record t' { size = (t'.size + word - 1) % word })
    pure true

  unfoldable pub do_del : Client K → K → ℕ → Cmd K V Bool
  do_del c key hash = do
    n ← num_buckets
    found ← find_pair c (hash % n) key hash
    del_pair c (hash % n) found

  -- The loop of hashtable_do_clear, from the node p on.
  unfoldable pub clear_loop : Client K → (fuel : ℕ) → Addr → Cmd K V (Unit {0})
  clear_loop c zero p = λ t. out_of_fuel
  clear_loop c (suc fuel) p = do
    t ← table
    let rest : Cmd K V (Unit {0}) = do n ← load p; free_pair c p; clear_loop c fuel n.next
    if p == t.list then pure tt else rest

  unfoldable pub do_clear : Client K → Cmd K V (Unit {0})
  do_clear c = do t ← table; n ← load t.list; clear_loop c (suc t.size) n.next
