-- ===== src/Hashtable/Store.antt =====
-- The store of a hash table: its list nodes at addresses, and commands over a table.
-- A pair is known by the address of the list node inside it (list_to_pair of
-- src/nc_hashtable.c), and the table's own node holds no pair.
use mathlib.Core.Option
use libnc.Prelude.{ℕ, Bool, List, Option, get_elem?, set, none, some, ◌==◌, if◌then◌else◌}
use libnc.Memory.{Addr}

-- struct hashtable_pair, less its list node
pub record Pair (K V : Type 0) : Type 0 where
  pub key : K
  pub value : V
  pub hash : ℕ

-- struct hashtable_list, with the pair around it
pub record Node (K V : Type 0) : Type 0 where
  pub prev : Addr
  pub next : Addr
  pub pair : Option (Pair K V)

-- struct hashtable_bucket
pub record Bucket : Type 0 where
  pub first : Addr
  pub last : Addr

-- struct nc_hashtable and its store. `size` is a size_t, which wraps at 2^64. `list` is the
-- address of the table's own node, no `buckets` is a pointer that is NULL or was freed, and
-- `num_buckets` is a place in the list of primes. The keys and values that the client's free
-- functions have been called for are recorded, latest first.
pub record Table (K V : Type 0) : Type 0 where
  pub size : ℕ
  pub buckets : Option (List Bucket)
  pub num_buckets : ℕ
  pub list : Addr
  pub node : Addr → Option (Node K V)
  pub freed_keys : List K
  pub freed_values : List V

-- The functions that the client gives, and whether it gives free functions.
pub record Client (K : Type 0) : Type 0 where
  pub hash_key : K → ℕ
  pub cmp_keys : K → K → Bool
  pub frees_keys : Bool
  pub frees_values : Bool

pub data Run (K V A : Type 0) : Type 0 where
  done : A → Table K V → Run K V A
  undefined : Run K V A
  out_of_fuel : Run K V A

abbrev pub Cmd : (K V A : Type 0) → Type 0
Cmd K V A = Table K V → Run K V A

module _ {K V A : Type 0} where
  abbrev pub pure : A → Cmd K V A
  pure a t = done a t

module _ {K V A B : Type 0} where
  abbrev pub and_then : Run K V A → (A → Cmd K V B) → Run K V B
  and_then (done a t) k = k a t
  and_then undefined k = undefined
  and_then out_of_fuel k = out_of_fuel

  infixl 5 ◌>>=◌ ◌>>◌
  abbrev pub ◌>>=◌ : Cmd K V A → (A → Cmd K V B) → Cmd K V B
  c >>= k = λ t. and_then (c t) k

  abbrev pub ◌>>◌ : Cmd K V A → Cmd K V B → Cmd K V B
  c >> d = c >>= λ _. d

abbrev pub given {ℓ} : {A : Type ℓ} → Option A → A → A
given none d = d
given (some a) d = a

module _ {K V : Type 0} where
  unfoldable pub of_option : {A : Type 0} → Option A → Cmd K V A
  of_option none t = undefined
  of_option (some a) t = done a t

  -- The node at an address that is none is undefined.
  unfoldable pub load : Addr → Cmd K V (Node K V)
  unfolding of_option
  load p t = of_option (t.node p) t

  abbrev pub put : Addr → Option (Node K V) → Table K V → Table K V
  put p n t = record t { node = λ q. if p == q then n else t.node q }

  unfoldable pub store : Addr → Option (Node K V) → Cmd K V (Unit {0})
  store p n t = done tt (put p n t)

  unfoldable pub set_next : Addr → Addr → Cmd K V (Unit {0})
  unfolding load store
  set_next p q = do n ← load p; store p (some (record n { next = q }))

  unfoldable pub set_prev : Addr → Addr → Cmd K V (Unit {0})
  unfolding load store
  set_prev p q = do n ← load p; store p (some (record n { prev = q }))

  abbrev pub table : Cmd K V (Table K V)
  table t = done t t

  abbrev pub change : (Table K V → Table K V) → Cmd K V (Unit {0})
  change f t = done tt (f t)

  unfoldable pub load_pair : Addr → Cmd K V (Pair K V)
  unfolding load of_option
  load_pair p = do n ← load p; of_option n.pair

  unfoldable pub set_value : Addr → V → Cmd K V (Unit {0})
  unfolding load of_option store
  set_value p v = do
    n ← load p
    pair ← of_option n.pair
    store p (some (record n { pair = some (record pair { value = v }) }))

  -- hashtable->buckets[i]
  unfoldable pub load_bucket : ℕ → Cmd K V Bucket
  unfolding of_option
  load_bucket i = do t ← table; bs ← of_option t.buckets; of_option (get_elem? bs i)

  unfoldable pub store_bucket : ℕ → Bucket → Cmd K V (Unit {0})
  unfolding load_bucket
  store_bucket i b =
      load_bucket i >> λ t. done tt (record t { buckets = Option.map (λ bs. set bs i b) t.buckets })
