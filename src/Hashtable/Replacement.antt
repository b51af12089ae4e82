-- ===== src/Hashtable/Replacement.antt =====
-- nc_hashtable_set of src/nc_hashtable.c where the key is in the table.
use mathlib.Core.Option
use mathlib.Core.Option.{some-injective, none-ne-some}
use libnc.Prelude.{
  ℕ, ◌%◌, ◌<◌, Bool, true, false, List, [], ◌∷◌, Option, none, some, get_elem?, length, ◌==◌,
  if◌then◌else◌, ◌≡◌, ◌≢◌, All, refl, ap, sym, subst, ◌∙◌, arith, Bool-cases, inl, inr,
}
use libnc.Memory.{Addr}
use libnc.Hashtable.Store.{
  Pair, Node, Table, Client, done, put, store, and_then, set_value, of_option,
}
use libnc.Hashtable.Links.{primes, find_pair}
use libnc.Hashtable.Removal.{free_key, free_value}
use libnc.Hashtable.Search.{
  Segment, end, link, first_match, is_match, found_value, BucketHolds, empty, full, load_lem,
  load_pair_lem, find_pair_lem, num_buckets_lem, get_key-first_match,
}
use libnc.Hashtable.Insertion.{make_room_lem}
use libnc.Hashtable.{replace, set_key, get_key}

module _ {K V : Type 0} where
  abbrev pub revalue_one : Addr → V → Addr × Pair K V → Addr × Pair K V
  revalue_one q v (a, pair) = (a, (if q == a then record pair { value = v } else pair))

  -- A list of pairs with the value of the one at an address replaced.
  unfoldable pub revalue : Addr → V → List (Addr × Pair K V) → List (Addr × Pair K V)
  revalue q v [] = []
  revalue q v (x ∷ xs) = revalue_one q v x ∷ revalue q v xs

  -- The table with a new value in the node n at q, and what the client's functions were called for.
  replaced : Client K → Table K V → (q : Addr) → Node K V → (old : Pair K V) → K → V → Table K V
  replaced c t q n old key value =
      put q (some (record n { pair = some (record old { value = value }) })) (record t {
        freed_keys = if c.frees_keys then key ∷ t.freed_keys else t.freed_keys;
        freed_values = if c.frees_values then old.value ∷ t.freed_values else t.freed_values;
      })

  set_value_lem :
      (t : Table K V) (q : Addr) (n : Node K V) (old : Pair K V) (value : V)
      → t.node q ≡ some n
      → n.pair ≡ some old
      → set_value q value t
        ≡ done tt (put q (some (record n { pair = some (record old { value = value }) })) t)
  unfolding set_value store of_option
  set_value_lem t q n old value at has = rw (load_lem t q n at) (
      ap
        (λ o. and_then (of_option o t) (λ pair.
          λ t. done tt (put q (some (record n { pair = some (record pair { value = value }) })) t)))
        has)

  replace_lem :
      (c : Client K) (t : Table K V) (q : Addr) (n : Node K V) (old : Pair K V) (key : K)
      (value : V)
      → t.node q ≡ some n
      → n.pair ≡ some old
      → replace c q key value t ≡ done true (replaced c t q n old key value)
  unfolding replace free_key free_value replaced
  replace_lem c t q n old key value at has =
      rw
        (load_pair_lem
          (record t { freed_keys = if c.frees_keys then key ∷ t.freed_keys else t.freed_keys }) q n
          old at has)
        (rw
          (set_value_lem
            (record t {
              freed_keys = if c.frees_keys then key ∷ t.freed_keys else t.freed_keys;
              freed_values = if c.frees_values then old.value ∷ t.freed_values else t.freed_values;
            })
            q n old value at has)
          refl)

  revalued_node :
      (c : Client K) (t : Table K V) (q : Addr) (n : Node K V) (old : Pair K V) (key : K)
      (value : V) (a : Addr) (m : Node K V) (pair : Pair K V)
      → t.node q ≡ some n
      → n.pair ≡ some old
      → t.node a ≡ some m
      → m.pair ≡ some pair
      → (m' : Node K V) × ((replaced c t q n old key value).node a ≡ some m')
        × (m'.next ≡ m.next)
        × (m'.pair ≡ some (if q == a then record pair { value = value } else pair))
  unfolding replaced
  revalued_node c t q n old key value a m pair at has at' has' = elim (Bool-cases (q == a)) [
    | inl e ↦
        let q≡a : q ≡ a = ground (arith, e) in
        let n≡m : n ≡ m = cc in
        let old≡pair : old ≡ pair = cc in
        (
          record n { pair = some (record old { value = value }) },
          ground (arith, e),
          ap (λ m. m.next) n≡m,
          ap {A = Pair K V} (λ o. some (record o { value = value })) old≡pair
              ∙ ap (λ b. some (if b then record pair { value = value } else pair)) (sym e),
        )
    | inr e ↦ (
      m,
      ground (arith, e, at'),
      refl,
      has' ∙ ap (λ b. some (if b then record pair { value = value } else pair)) (sym e),
    )
  ]

  replaced-Segment :
      (c : Client K) (t : Table K V) (q : Addr) (n : Node K V) (old : Pair K V) (key : K)
      (value : V) {last a : Addr} {ps : List (Addr × Pair K V)}
      → t.node q ≡ some n
      → n.pair ≡ some old
      → Segment t last a ps
      → Segment (replaced c t q n old key value) last a (revalue q value ps)
  unfolding revalue
  replaced-Segment c t q n old key value at has (end m pair at' has') =
      let (m', at'', next, same) = revalued_node c t q n old key value _ m pair at has at' has' in
      end m' _ at'' same
  replaced-Segment c t q n old key value {last} at has (link p m pair {ps} off at' has' s) =
      let (m', at'', next, same) = revalued_node c t q n old key value p m pair at has at' has' in
      let rest : Segment (replaced c t q n old key value) last (m.next) (revalue q value ps) =
        replaced-Segment c t q n old key value at has s in
      link p m' _ off at'' same (
        subst (λ a. Segment (replaced c t q n old key value) last a (revalue q value ps)) (sym next)
          rest)

  length-revalue :
      (q : Addr) (v : V) (ps : List (Addr × Pair K V)) → length (revalue q v ps) ≡ length ps
  unfolding revalue
  length-revalue q v [] = refl
  length-revalue q v (x ∷ xs) = omega (arith, length-revalue q v xs)

  match_found :
      (t : Table K V) (a q : Addr) (m : Node K V) (pair old : Pair K V)
      (later : Option (Addr × Pair K V)) (matches : Bool)
      → t.node a ≡ some m
      → m.pair ≡ some pair
      → (later ≡ some (q, old) → (n : Node K V) × (t.node q ≡ some n) × (n.pair ≡ some old))
      → (if matches then some (a, pair) else later) ≡ some (q, old)
      → (n : Node K V) × (t.node q ≡ some n) × (n.pair ≡ some old)
  match_found t a q m pair old later true at has on found =
      let x : Addr × Pair K V = (a, pair) in
      let y : Addr × Pair K V = (q, old) in
      let same : x ≡ y = some-injective _ _ found in
      (m, subst (λ x. t.node (x.0) ≡ some m) same at, has ∙ ap (λ x. some (x.1)) same)
  match_found t a q m pair old later false at has on found = on found

  first_match-at :
      (c : Client K) (t : Table K V) (key : K) (hash : ℕ) (q : Addr) (old : Pair K V)
      {last a : Addr} {ps : List (Addr × Pair K V)}
      → Segment t last a ps
      → first_match c key hash ps ≡ some (q, old)
      → (n : Node K V) × (t.node q ≡ some n) × (n.pair ≡ some old)
  unfolding first_match
  first_match-at c t key hash q old (end m pair at has) found =
      match_found t _ q m pair old none (is_match c key hash pair) at has (λ e. cc) found
  first_match-at c t key hash q old (link p m pair off at has s) found =
      match_found t p q m pair old _ (is_match c key hash pair) at has
        (first_match-at c t key hash q old s) found

  found_again :
      (a q : Addr) (v : V) (pair old pair' : Pair K V) (later later' : Option (Addr × Pair K V))
      (matches : Bool)
      → (a ≡ q → pair'.value ≡ v)
      → (later ≡ some (q, old) → found_value later' ≡ some v)
      → (if matches then some (a, pair) else later) ≡ some (q, old)
      → found_value (if matches then some (a, pair') else later') ≡ some v
  found_again a q v pair old pair' later later' true here on found =
      ap some (here (ap (λ x. x.0) (some-injective _ _ found)))
  found_again a q v pair old pair' later later' false here on found = on found

  same_match :
      (c : Client K) (key : K) (hash : ℕ) (v : V) (pair : Pair K V) (b : Bool)
      → is_match c key hash (if b then record pair { value = v } else pair)
        ≡ is_match c key hash pair
  same_match c key hash v pair true = refl
  same_match c key hash v pair false = refl

  first_match-revalue :
      (c : Client K) (key : K) (hash : ℕ) (q : Addr) (old : Pair K V) (v : V)
      (ps : List (Addr × Pair K V))
      → first_match c key hash ps ≡ some (q, old)
      → found_value (first_match c key hash (revalue q v ps)) ≡ some v
  unfolding first_match revalue
  first_match-revalue c key hash q old v [] found = absurd (none-ne-some _ found)
  first_match-revalue c key hash q old v ((a, pair) ∷ ps) found =
      let pair' : Pair K V = if q == a then record pair { value = v } else pair in
      let value' : a ≡ q → pair'.value ≡ v = λ e.
        let here : (q == a) ≡ true = ground (arith, e) in
        ap (λ b. (if b then record pair { value = v } else pair).value) here in
      subst
        (λ b.
          found_value (if b then some (a, pair') else first_match c key hash (revalue q v ps))
          ≡ some v)
        (sym (same_match c key hash v pair (q == a)))
        (found_again a q v pair old pair' _ _ (is_match c key hash pair) value'
          (first_match-revalue c key hash q old v ps) found)

  found_in :
      (c : Client K) (t : Table K V) (i : ℕ) (key : K) (hash : ℕ) (q : Addr) (old : Pair K V)
      {ps : List (Addr × Pair K V)}
      → BucketHolds t i ps
      → first_match c key hash ps ≡ some (q, old)
      → (n : Node K V) × (t.node q ≡ some n) × (n.pair ≡ some old)
  unfolding first_match
  found_in c t i key hash q old (empty bs b stand at first last) found =
      absurd (none-ne-some _ found)
  found_in c t i key hash q old (full bs b stand at first s small) found =
      first_match-at c t key hash q old s found

  replaced-BucketHolds :
      (c : Client K) (t : Table K V) (i : ℕ) (q : Addr) (n : Node K V) (old : Pair K V) (key : K)
      (value : V) {ps : List (Addr × Pair K V)}
      → t.node q ≡ some n
      → n.pair ≡ some old
      → BucketHolds t i ps
      → BucketHolds (replaced c t q n old key value) i (revalue q value ps)
  unfolding revalue replaced
  replaced-BucketHolds c t i q n old key value at has (empty bs b stand at' first last) =
      empty bs b stand at' first last
  replaced-BucketHolds c t i q n old key value at has (full bs b {ps} stand at' first s small) =
      full bs b stand at' first (replaced-Segment c t q n old key value at has s)
        (omega (arith, small, length-revalue q value ps))

  -- Where the table has room (its size is below its prime n) and the bucket of the key holds a
  -- list of pairs of which q is the first with the key's hash and an equal key, nc_hashtable_set
  -- returns 0: it gives the key that it was called with and the old value to the client's free
  -- functions, where there are such, the bucket holds the same pairs, with their keys, but for the
  -- new value at q, and the size is as it was. The nc_hashtable_get that follows, of a key of the
  -- same hash whose first equal pair was that at q, returns the new value. Where the client frees
  -- keys, the key that set is called with is none of those in the bucket, and not that of the get.
  pub set_key_replaces :
      (c : Client K) (t : Table K V) (key later : K) (value : V) (p q n : ℕ) (has_memory : Bool)
      (old : Pair K V) {ps : List (Addr × Pair K V)}
      → get_elem? primes t.num_buckets ≡ some n
      → t.size < n
      → BucketHolds t (c.hash_key key % n) ps
      → first_match c key (c.hash_key key) ps ≡ some (q, old)
      → c.hash_key later ≡ c.hash_key key
      → first_match c later (c.hash_key key) ps ≡ some (q, old)
      → (c.frees_keys ≡ true → (key ≢ later) × All (λ (x : Addr × Pair K V). key ≢ x.1.key) ps)
      → (t' : Table K V) × (set_key c has_memory p key value t ≡ done true t')
        × BucketHolds t' (c.hash_key key % n) (revalue q value ps)
        × (t'.size ≡ t.size)
        × (t'.freed_keys ≡ (if c.frees_keys then key ∷ t.freed_keys else t.freed_keys))
        × (t'.freed_values
            ≡ (if c.frees_values then old.value ∷ t.freed_values else t.freed_values))
        × (get_key c later t' ≡ done (some value) t')
  unfolding set_key replaced
  set_key_replaces c t key later value p q n has_memory old {ps} prime room holds found same_hash
        found' apart =
      let hash : ℕ = c.hash_key key in
      let (node, at, has) = found_in c t (hash % n) key hash q old holds found in
      let after : Table K V = replaced c t q node old key value in
      let holds' : BucketHolds after (hash % n) (revalue q value ps) =
        replaced-BucketHolds c t (hash % n) q node old key value at has holds in
      let hit : find_pair c (hash % n) key hash t ≡ done (some q) t =
        find_pair_lem c t _ key hash holds ∙ ap (λ o. done (Option.map (λ x. x.0) o) t) found in
      let run : set_key c has_memory p key value t ≡ done true after =
        rw (make_room_lem t n has_memory prime room)
          (rw (num_buckets_lem t n prime) (rw hit (replace_lem c t q node old key value at has))) in
      let gets : get_key c later after ≡ done (some value) after =
        (get_key-first_match c after later n prime
          (subst (λ h. BucketHolds after (h % n) (revalue q value ps)) (sym same_hash) holds')).0
        ∙ ap (λ h. done (found_value (first_match c later h (revalue q value ps))) after) same_hash
        ∙ ap (λ o. done o after) (first_match-revalue c later hash q old value ps found') in
      (after, run, holds', refl, refl, refl, gets)
