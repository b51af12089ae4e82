-- ===== src/Hashtable/Search.antt =====
-- hashtable_find_pair of src/nc_hashtable.c and the operations that look a key up, against the list
-- of the pairs that stand in a bucket.
use mathlib.Core.Option
use libnc.Prelude.{
  ℕ, zero, suc, ◌%◌, ◌≤◌, Bool, true, false, ◌&&◌, List, [], ◌∷◌, Option, none, some, get_elem?,
  length, ◌==◌, if◌then◌else◌, ◌≡◌, ◌≢◌, refl, ap, ◌∙◌, arith,
}
use libnc.Memory.{Addr}
use libnc.Hashtable.Store.{
  Pair, Node, Bucket, Table, Client, done, load, load_pair, of_option, load_bucket, Cmd, pure,
  and_then,
}
use libnc.Hashtable.Links.{primes, bucket_is_empty, num_buckets, find_loop, find_pair}
use libnc.Hashtable.{get_key, iter_at, value_at}

module _ {K V : Type 0} where
  -- The nodes from an address on, to the node at `last`, with their pairs.
  pub data Segment (t : Table K V) (last : Addr) : Addr → List (Addr × Pair K V) → Type 0 where
    end :
        (n : Node K V) (pair : Pair K V)
        → t.node last ≡ some n
        → n.pair ≡ some pair
        → Segment t last last ((last, pair) ∷ [])
    link :
        (p : Addr) (n : Node K V) (pair : Pair K V) {ps : List (Addr × Pair K V)}
        → (p == last) ≡ false
        → t.node p ≡ some n
        → n.pair ≡ some pair
        → Segment t last n.next ps
        → Segment t last p ((p, pair) ∷ ps)

  abbrev pub is_match : Client K → K → ℕ → Pair K V → Bool
  is_match c key hash pair = pair.hash == hash && c.cmp_keys pair.key key

  -- The first pair of a list that matches.
  unfoldable pub first_match : Client K → K → ℕ → List (Addr × Pair K V) → Option (Addr × Pair K V)
  first_match c key hash [] = none
  first_match c key hash ((p, pair) ∷ ps) =
      if is_match c key hash pair then some (p, pair) else first_match c key hash ps

  pub load_pair_lem :
      (t : Table K V) (p : Addr) (n : Node K V) (pair : Pair K V)
      → t.node p ≡ some n
      → n.pair ≡ some pair
      → load_pair p t ≡ done pair t
  unfolding load_pair load of_option
  load_pair_lem t p n pair at has =
      ap (λ o. and_then (of_option o t) (λ m. of_option m.pair)) at ∙ ap (λ o. of_option o t) has

  pub load_lem : (t : Table K V) (p : Addr) (n : Node K V) → t.node p ≡ some n → load p t ≡ done n t
  unfolding load
  load_lem t p n at = ap (λ o. of_option o t) at

  pub then_lem :
      {A : Type 0} (b : Bool) (x y : Cmd K V A) (t : Table K V)
      → b ≡ true
      → (if b then x else y) t ≡ x t
  then_lem b x y t is = ap (λ b. (if b then x else y) t) is

  pub else_lem :
      {A : Type 0} (b : Bool) (x y : Cmd K V A) (t : Table K V)
      → b ≡ false
      → (if b then x else y) t ≡ y t
  else_lem b x y t is = ap (λ b. (if b then x else y) t) is

  -- One turn of the search, where the node is the last and where it is not.
  at_end :
      (matches last : Bool) (found : Addr × Pair K V) (rest : Cmd K V (Option Addr)) (t : Table K V)
      → last ≡ true
      → (if matches then pure (some (found.0)) else if last then pure none else rest) t
        ≡ done (Option.map (λ x. x.0) (if matches then some found else none)) t
  at_end true last found rest t is = refl
  at_end false last found rest t is = then_lem last (pure none) rest t is

  at_link :
      (matches last : Bool) (found : Addr × Pair K V) (later : Option (Addr × Pair K V))
      (rest : Cmd K V (Option Addr)) (t : Table K V)
      → last ≡ false
      → rest t ≡ done (Option.map (λ x. x.0) later) t
      → (if matches then pure (some (found.0)) else if last then pure none else rest) t
        ≡ done (Option.map (λ x. x.0) (if matches then some found else later)) t
  at_link true last found later rest t is here = refl
  at_link false last found later rest t is here = else_lem last (pure none) rest t is ∙ here

  pub find_loop_lem :
      (c : Client K) (t : Table K V) (key : K) (hash : ℕ) (fuel : ℕ) {last p : Addr}
      {ps : List (Addr × Pair K V)}
      → Segment t last p ps
      → length ps ≤ fuel
      → find_loop c fuel last p key hash t
        ≡ done (Option.map (λ x. x.0) (first_match c key hash ps)) t
  unfolding find_loop first_match
  find_loop_lem c t key hash zero (end n pair at has) le = absurd (omega arith)
  find_loop_lem c t key hash (suc fuel) {last} (end n pair at has) le =
      rw (load_pair_lem t _ n pair at has)
        (at_end (is_match c key hash pair) (last == last) (last, pair) _ t (ground arith))
  find_loop_lem c t key hash zero (link p n pair off at has s) le = absurd (omega arith)
  find_loop_lem c t key hash (suc fuel) {last} (link p n pair off at has s) le =
      rw (load_pair_lem t _ n pair at has) (
        at_link (is_match c key hash pair) (p == last) (p, pair) _ _ t off
          (rw (load_lem t p n at) (find_loop_lem c t key hash fuel s (omega arith))))

  -- The i-th bucket stands, and holds a list of pairs, of which the table's size counts each.
  pub data BucketHolds (t : Table K V) (i : ℕ) : List (Addr × Pair K V) → Type 0 where
    empty :
        (bs : List Bucket) (b : Bucket)
        → t.buckets ≡ some bs
        → get_elem? bs i ≡ some b
        → b.first ≡ t.list
        → b.last ≡ t.list
        → BucketHolds t i []
    full :
        (bs : List Bucket) (b : Bucket) {ps : List (Addr × Pair K V)}
        → t.buckets ≡ some bs
        → get_elem? bs i ≡ some b
        → b.first ≢ t.list
        → Segment t b.last b.first ps
        → length ps ≤ t.size
        → BucketHolds t i ps

  pub load_bucket_lem :
      (t : Table K V) (i : ℕ) (bs : List Bucket) (b : Bucket)
      → t.buckets ≡ some bs
      → get_elem? bs i ≡ some b
      → load_bucket i t ≡ done b t
  unfolding load_bucket of_option
  load_bucket_lem t i bs b stand at =
      ap (λ o. and_then (of_option o t) (λ bs. of_option (get_elem? bs i))) stand
      ∙ ap (λ o. of_option o t) at

  pub find_pair_lem :
      (c : Client K) (t : Table K V) (i : ℕ) (key : K) (hash : ℕ) {ps : List (Addr × Pair K V)}
      → BucketHolds t i ps
      → find_pair c i key hash t ≡ done (Option.map (λ x. x.0) (first_match c key hash ps)) t
  unfolding find_pair first_match
  find_pair_lem c t i key hash (empty bs b stand at first last) =
      rw (load_bucket_lem t i bs b stand at)
        (then_lem (bucket_is_empty t b) _ _ t (ground (arith, first, last)))
  find_pair_lem c t i key hash (full bs b stand at first s small) =
      rw (load_bucket_lem t i bs b stand at) (
        else_lem (bucket_is_empty t b) _ _ t (ground (arith, first))
        ∙ find_loop_lem c t key hash (suc t.size) s (omega arith))

  abbrev pub found_value : Option (Addr × Pair K V) → Option V
  found_value o = Option.map (λ x. x.1.value) o

  -- Reading the value that a search found.
  value_at_lem :
      (t : Table K V) (p : Addr) (n : Node K V) (pair : Pair K V) (o : Option (Addr × Pair K V))
      (matches : Bool)
      → t.node p ≡ some n
      → n.pair ≡ some pair
      → value_at (Option.map (λ x. x.0) o) t ≡ done (found_value o) t
      → value_at (Option.map (λ x. x.0) (if matches then some (p, pair) else o)) t
        ≡ done (found_value (if matches then some (p, pair) else o)) t
  value_at_lem t p n pair o true at has later =
      ap (λ r. and_then r (λ pair. pure (some pair.value))) (load_pair_lem t p n pair at has)
  value_at_lem t p n pair o false at has later = later

  Segment-value :
      (c : Client K) (t : Table K V) (key : K) (hash : ℕ) {last p : Addr}
      {ps : List (Addr × Pair K V)}
      → Segment t last p ps
      → value_at (Option.map (λ x. x.0) (first_match c key hash ps)) t
        ≡ done (found_value (first_match c key hash ps)) t
  unfolding first_match
  Segment-value c t key hash (end n pair at has) =
      value_at_lem t _ n pair none (is_match c key hash pair) at has refl
  Segment-value c t key hash (link p n pair off at has s) =
      value_at_lem t p n pair _ (is_match c key hash pair) at has (Segment-value c t key hash s)

  bucket_value :
      (c : Client K) (t : Table K V) (i : ℕ) (key : K) (hash : ℕ) {ps : List (Addr × Pair K V)}
      → BucketHolds t i ps
      → value_at (Option.map (λ x. x.0) (first_match c key hash ps)) t
        ≡ done (found_value (first_match c key hash ps)) t
  unfolding first_match
  bucket_value c t i key hash (empty bs b stand at first last) = refl
  bucket_value c t i key hash (full bs b stand at first s small) = Segment-value c t key hash s

  pub num_buckets_lem :
      (t : Table K V) (n : ℕ) → get_elem? primes t.num_buckets ≡ some n → num_buckets t ≡ done n t
  unfolding num_buckets of_option
  num_buckets_lem t n is = ap (λ o. of_option o t) is

  -- Where the table's prime is n and the bucket of a key's hash holds a list of pairs,
  -- nc_hashtable_get returns the value of the first pair of that list with the key's hash and an
  -- equal key, or nothing where there is none, and nc_hashtable_iter_at the address of that pair.
  -- Both end, run into nothing undefined and leave the table as it was.
  pub get_key-first_match :
      (c : Client K) (t : Table K V) (key : K) (n : ℕ) {ps : List (Addr × Pair K V)}
      → get_elem? primes t.num_buckets ≡ some n
      → BucketHolds t (c.hash_key key % n) ps
      → (get_key c key t ≡ done (found_value (first_match c key (c.hash_key key) ps)) t)
        × (iter_at c key t ≡ done (Option.map (λ x. x.0) (first_match c key (c.hash_key key) ps)) t)
  unfolding get_key iter_at
  get_key-first_match c t key n prime holds = (
    rw (num_buckets_lem t n prime) (
        rw (find_pair_lem c t _ key (c.hash_key key) holds)
          (bucket_value c t _ key (c.hash_key key) holds)),
    rw (num_buckets_lem t n prime) (find_pair_lem c t _ key (c.hash_key key) holds),
  )
