-- ===== src/Hashtable/Failure.antt =====
-- nc_hashtable_set of src/nc_hashtable.c where its rehash finds no memory.
use libnc.Prelude.{ℕ, suc, ◌≤◌, true, false, none, some, get_elem?, leb, ◌≡◌, refl, ◌∙◌, arith}
use libnc.Hashtable.Store.{Table, Client, done, undefined, load_bucket, of_option}
use libnc.Hashtable.Links.{primes, find_pair}
use libnc.Hashtable.Growth.{alloc_buckets, do_rehash}
use libnc.Hashtable.Search.{num_buckets_lem, then_lem}
use libnc.Hashtable.{make_room, set_key, get_key}

module _ {K V : Type 0} where
  -- The table that a failed rehash leaves.
  abbrev broken : Table K V → Table K V
  broken t = record t { buckets = none; num_buckets = suc t.num_buckets }

  do_rehash_fails :
      (t : Table K V) (m : ℕ)
      → get_elem? primes (suc t.num_buckets) ≡ some m
      → do_rehash false t ≡ done false (broken t)
  unfolding do_rehash alloc_buckets
  do_rehash_fails t m prime = rw (num_buckets_lem (broken t) m prime) refl

  get_key-broken :
      (c : Client K) (t : Table K V) (key : K) (m : ℕ)
      → get_elem? primes (suc t.num_buckets) ≡ some m
      → get_key c key (broken t) ≡ undefined
  unfolding get_key find_pair load_bucket of_option
  get_key-broken c t key m prime = rw (num_buckets_lem (broken t) m prime) refl

  -- Where the table's size has reached its prime and a larger prime is listed, and the array of
  -- buckets of a rehash finds no memory, nc_hashtable_set returns -1 with the size as it was, and
  -- leaves no buckets: the next nc_hashtable_get, of any key, reads through a NULL pointer.
  pub set_key_without_memory :
      (c : Client K) (t : Table K V) (key : K) (value : V) (p n m : ℕ)
      → get_elem? primes t.num_buckets ≡ some n
      → get_elem? primes (suc t.num_buckets) ≡ some m
      → n ≤ t.size
      → (t' : Table K V) × (set_key c false p key value t ≡ done false t')
        × (t'.buckets ≡ none)
        × (t'.size ≡ t.size)
        × ((key' : K) → get_key c key' t' ≡ undefined)
  unfolding set_key make_room
  set_key_without_memory c t key value p n m prime prime' reached = (
    broken t,
    rw (num_buckets_lem t n prime) (
        rw
          (then_lem (leb n t.size) (do_rehash false) (λ t. done true t) t (ground (arith, reached))
            ∙ do_rehash_fails t m prime')
          refl),
    refl,
    refl,
    λ key'. get_key-broken c t key' m prime',
  )
