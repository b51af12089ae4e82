-- ===== src/Hashtable/Links.antt =====
-- src/nc_hashtable.c: the circular list of nodes, the stretch of it that is a bucket, and the
-- search of a bucket. The search takes fuel.
use libnc.Prelude.{
  ℕ, zero, suc, Bool, ◌&&◌, List, [], ◌∷◌, Option, none, some, get_elem?, ◌==◌, if◌then◌else◌,
}
use libnc.Memory.{Addr}
use libnc.Hashtable.Store.{
  Bucket, Table, Client, out_of_fuel, Cmd, pure, ◌>>=◌, ◌>>◌, load, table, set_next, set_prev,
  of_option, load_pair, load_bucket, store_bucket,
}

abbrev pub primes : List ℕ
primes =
    5 ∷ 13 ∷ 23 ∷ 53 ∷ 97 ∷ 193 ∷ 389 ∷ 769 ∷ 1543 ∷ 3079 ∷ 6151 ∷ 12289 ∷ 24593 ∷ 49157 ∷ 98317
    ∷ 196613 ∷ 393241 ∷ 786433 ∷ 1572869 ∷ 3145739 ∷ 6291469 ∷ 12582917 ∷ 25165843 ∷ 50331653
    ∷ 100663319 ∷ 201326611 ∷ 402653189 ∷ 805306457 ∷ 1610612741 ∷ []

module _ {K V : Type 0} where
  -- A new node that is alone in its list.
  unfoldable pub list_init : Addr → Cmd K V (Unit {0})
  list_init p = do set_next p p; set_prev p p

  unfoldable pub list_insert : (list node : Addr) → Cmd K V (Unit {0})
  list_insert list node = do
    set_next node list
    l ← load list
    set_prev node l.prev
    set_next l.prev node
    set_prev list node

  unfoldable pub list_remove : Addr → Cmd K V (Unit {0})
  list_remove p = do n ← load p; set_next n.prev n.next; n' ← load p; set_prev n'.next n'.prev

  abbrev pub bucket_is_empty : Table K V → Bucket → Bool
  bucket_is_empty t b = b.first == t.list && b.first == b.last

  unfoldable pub insert_to_bucket : ℕ → Addr → Cmd K V (Unit {0})
  insert_to_bucket i p = do
    t ← table
    b ← load_bucket i
    if bucket_is_empty t b
        then (do list_insert t.list p; store_bucket i (record { first = p; last = p }))
        else (do list_insert b.first p; store_bucket i (record b { first = p }))

  -- A place past the list of primes is undefined.
  unfoldable pub num_buckets : Cmd K V ℕ
  unfolding of_option
  num_buckets t = of_option (get_elem? primes t.num_buckets) t

  -- The loop of hashtable_find_pair, from the node p on.
  unfoldable pub find_loop : Client K → (fuel : ℕ) (last p : Addr) → K → ℕ → Cmd K V (Option Addr)
  find_loop c zero last p key hash = λ t. out_of_fuel
  find_loop c (suc fuel) last p key hash = do
    pair ← load_pair p
    let rest : Cmd K V (Option Addr) = do n ← load p; find_loop c fuel last n.next key hash
    if pair.hash == hash && c.cmp_keys pair.key key
        then pure (some p)
        else if p == last
        then pure none
        else rest

  unfoldable pub find_pair : Client K → ℕ → K → ℕ → Cmd K V (Option Addr)
  find_pair c i key hash = do
    t ← table
    b ← load_bucket i
    if bucket_is_empty t b then pure none else find_loop c (suc t.size) b.last b.first key hash

  -- The loop that empties the n buckets from i on.
  unfoldable pub empty_buckets : (i n : ℕ) → Cmd K V (Unit {0})
  empty_buckets i zero = pure tt
  empty_buckets i (suc n) = do
    t ← table
    store_bucket i (record { first = t.list; last = t.list })
    empty_buckets (suc i) n
