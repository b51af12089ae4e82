-- ===== src/Tests/HashtableTests.antt =====
-- Runs of src/nc_hashtable.c.
use libnc.Prelude.{
  ℕ, zero, suc, ◌+◌, ◌%◌, Bool, true, false, [], ◌∷◌, Option, none, some, ◌==◌, ◌≡◌, refl,
  if◌then◌else◌, arith,
}
use libnc.Hashtable.Store.{
  Pair, Node, Bucket, Table, Client, Run, done, undefined, out_of_fuel, Cmd, pure, ◌>>=◌, ◌>>◌,
}
use libnc.Hashtable.{create, set_key, get_key, del_key, iter_at}
use libnc.Hashtable.Search.{first_match, BucketHolds, full, end, get_key-first_match}
use libnc.Hashtable.Splice.{Splice, Away, anchor}
use libnc.Hashtable.Insertion.{Added, set_key-Added, set_key-get_key}
use libnc.Hashtable.Replacement.{revalue, set_key_replaces}
use libnc.Hashtable.Failure.{set_key_without_memory}

abbrev client : Client ℕ
client = record {
  hash_key = λ k. k;
  cmp_keys = λ j k. j == k;
  frees_keys = true;
  frees_values = true;
}

abbrev nowhere : Table ℕ ℕ
nowhere = record {
  size = 0;
  buckets = none;
  num_buckets = 0;
  list = 1;
  node = λ _. none;
  freed_keys = [];
  freed_values = [];
}

abbrev result : {A : Type 0} → Run ℕ ℕ A → Option A
result (done a t) = some a
result undefined = none
result out_of_fuel = none

-- Keys from 0 on, at 10 bytes from each other, each with a value of 100 more.
abbrev fill : ℕ → Cmd ℕ ℕ Bool
fill zero = pure true
fill (suc n) = do fill n; set_key client true (10 + n) n (100 + n)

abbrev filled : Cmd ℕ ℕ (Option ℕ)
filled = do
  create 1 true true
  fill 7
  set_key client true 30 11 111
  set_key client true 31 2 222
  del_key client 3
  get_key client 2

filled_gives : result (filled nowhere) ≡ some (some 222)
unfolding create libnc.Hashtable.Store.store libnc.Hashtable.init
    libnc.Hashtable.Growth.alloc_buckets libnc.Hashtable.Links.num_buckets
    libnc.Hashtable.Links.list_init libnc.Hashtable.Store.set_next libnc.Hashtable.Store.set_prev
    libnc.Hashtable.Links.empty_buckets libnc.Hashtable.Store.store_bucket set_key
    libnc.Hashtable.make_room libnc.Hashtable.Links.find_pair libnc.Hashtable.add
    libnc.Hashtable.Links.insert_to_bucket libnc.Hashtable.Links.list_insert
    libnc.Hashtable.Growth.do_rehash libnc.Hashtable.Growth.rehash_loop
    libnc.Hashtable.Links.find_loop libnc.Hashtable.Removal.free_key
    libnc.Hashtable.Removal.free_value libnc.Hashtable.Store.load libnc.Hashtable.Store.load_bucket
    libnc.Hashtable.Store.load_pair libnc.Hashtable.Store.of_option libnc.Hashtable.Store.set_value
    libnc.Hashtable.replace del_key get_key libnc.Hashtable.Removal.do_del
    libnc.Hashtable.Removal.del_pair libnc.Hashtable.Links.list_remove
    libnc.Hashtable.Removal.free_pair
filled_gives = refl

abbrev held : Pair ℕ ℕ
held = record { key = 2; value = 102; hash = 2 }

abbrev hollow : Bucket
hollow = record { first = 1; last = 1 }

-- One pair, at 10, in the bucket 2.
abbrev single : Table ℕ ℕ
single = record {
  size = 1;
  buckets = some (hollow ∷ hollow ∷ record { first = 10; last = 10 } ∷ hollow ∷ hollow ∷ []);
  num_buckets = 0;
  list = 1;
  node = λ a.
      if a == 1
      then some (record { prev = 10; next = 10; pair = none })
      else if a == 10
      then some (record { prev = 1; next = 1; pair = some held })
      else none;
  freed_keys = [];
  freed_values = [];
}

single-BucketHolds : BucketHolds single 2 ((10, held) ∷ [])
single-BucketHolds =
    full _ (record { first = 10; last = 10 }) refl refl (omega arith)
      (end (record { prev = 1; next = 1; pair = some held }) held refl refl) (omega arith)

single-Splice : Splice single 10 20 ((10, held) ∷ [])
unfolding Away
single-Splice = record {
  node = record { prev = 1; next = 1; pair = some held };
  before = record { prev = 10; next = 10; pair = none };
  stands = refl;
  before_stands = refl;
  here_apart = omega arith;
  before_apart = omega arith;
  before_away = (omega arith, tt);
  away = (omega arith, tt);
}

get_key-first_match_example :
    (get_key client 2 single ≡ done (some 102) single)
    × (iter_at client 2 single ≡ done (some 10) single)
unfolding first_match
get_key-first_match_example = get_key-first_match client single 2 5 refl single-BucketHolds

set_key-Added_example :
    (t' : Table ℕ ℕ) × (set_key client true 20 7 107 single ≡ done true t')
    × Added single 2 20 (record { key = 7; value = 107; hash = 7 }) ((10, held) ∷ []) t'
unfolding first_match anchor
set_key-Added_example =
    set_key-Added client single 7 107 20 5 true refl (omega arith) (omega arith) (omega arith)
      single-BucketHolds refl single-Splice

set_key-get_key_example :
    (t' : Table ℕ ℕ) × (set_key client true 20 7 107 single ≡ done true t')
    × (get_key client 7 t' ≡ done (some 107) t')
unfolding first_match anchor
set_key-get_key_example =
    set_key-get_key client single 7 107 20 5 true refl (omega arith) (omega arith) (omega arith)
      single-BucketHolds refl single-Splice refl

set_key_without_memory_example :
    (t' : Table ℕ ℕ) × (set_key client false 20 7 107 (record single { size = 5 }) ≡ done false t')
    × (t'.buckets ≡ none)
    × (t'.size ≡ 5)
    × ((key' : ℕ) → get_key client key' t' ≡ undefined)
set_key_without_memory_example =
    set_key_without_memory client (record single { size = 5 }) 7 107 20 5 13 refl refl (omega arith)

-- Keys with the same last digit are equal.
abbrev by_digit : Client ℕ
by_digit = record client { hash_key = λ k. k % 10; cmp_keys = λ j k. j % 10 == k % 10 }

set_key_replaces_example :
    (t' : Table ℕ ℕ) × (set_key by_digit true 20 12 107 single ≡ done true t')
    × BucketHolds t' 2 (revalue 10 107 ((10, held) ∷ []))
    × (t'.size ≡ 1)
    × (t'.freed_keys ≡ 12 ∷ [])
    × (t'.freed_values ≡ 102 ∷ [])
    × (get_key by_digit 2 t' ≡ done (some 107) t')
unfolding first_match
set_key_replaces_example =
    set_key_replaces by_digit single 12 2 107 20 10 5 true held refl (omega arith)
      single-BucketHolds refl refl refl (λ e. (omega arith, (omega arith, tt)))
