-- ===== src/Hashtable/Buckets.antt =====
-- The new pair of nc_hashtable_set of src/nc_hashtable.c: its node, and insert_to_bucket on it.
use mathlib.Core.Option
use libnc.Prelude.{
  ℕ, ◌+◌, ◌%◌, true, false, List, Option, some, get_elem?, set, ◌==◌, ◌≡◌, ◌≢◌, refl, ◌∙◌, arith,
}
use libnc.Memory.{Addr, null, word}
use libnc.Hashtable.Store.{Pair, Node, Bucket, Table, done, put, store, store_bucket}
use libnc.Hashtable.Links.{list_init, bucket_is_empty, insert_to_bucket}
use libnc.Hashtable.Search.{Segment, end, link, load_bucket_lem, then_lem, else_lem}
use libnc.Hashtable.{add}
use libnc.Hashtable.Splice.{
  Away, anchor, Spliced, spliced_node, list_insert_lem, Spliced-spliced_node, set_next_lem,
  set_prev_lem, put_at,
}

module _ {K V : Type 0} where
  pub store_bucket_lem :
      (t : Table K V) (i : ℕ) (bs : List Bucket) (b b' : Bucket)
      → t.buckets ≡ some bs
      → get_elem? bs i ≡ some b
      → store_bucket i b' t
        ≡ done tt (record t { buckets = Option.map (λ bs. set bs i b') t.buckets })
  unfolding store_bucket
  store_bucket_lem t i bs b b' stand at = rw (load_bucket_lem t i bs b stand at) refl

  -- The new pair's node before it is spliced in.
  abbrev pub alone : Table K V → Addr → Pair K V → Table K V
  alone t p pair = put p (some (record { prev = p; next = p; pair = some pair })) (
      put p (some (record { prev = null; next = p; pair = some pair }))
        (put p (some (record { prev = null; next = null; pair = some pair })) t))

  pub list_init_lem :
      (t : Table K V) (p : Addr) (pair : Pair K V)
      → list_init p (put p (some (record { prev = null; next = null; pair = some pair })) t)
        ≡ done tt (alone t p pair)
  unfolding list_init
  list_init_lem t p pair =
      let fresh : Table K V =
        put p (some (record { prev = null; next = null; pair = some pair })) t in
      let half : Table K V =
        put p (some (record { prev = null; next = p; pair = some pair })) fresh in
      rw
        (set_next_lem p p (record { prev = null; next = null; pair = some pair }) fresh
          (put_at p (some (record { prev = null; next = null; pair = some pair })) t))
        (set_prev_lem p p (record { prev = null; next = p; pair = some pair }) half
          (put_at p (some (record { prev = null; next = p; pair = some pair })) fresh))

  -- A table with another store and another i-th bucket.
  abbrev pub relinked : Table K V → ℕ → (Addr → Option (Node K V)) → Bucket → Table K V
  relinked t i f b = record t { node = f; buckets = Option.map (λ bs. set bs i b) t.buckets }

  pub insert_empty :
      (t : Table K V) (i : ℕ) (p : Addr) (bs : List Bucket) (b : Bucket) (l v q : Node K V)
      → t.buckets ≡ some bs
      → get_elem? bs i ≡ some b
      → bucket_is_empty t b ≡ true
      → t.node (t.list) ≡ some l
      → t.node (l.prev) ≡ some v
      → t.node p ≡ some q
      → t.list ≢ p
      → l.prev ≢ p
      → insert_to_bucket i p t
        ≡ done tt (relinked t i (spliced_node t (t.list) p l v q) (record { first = p; last = p }))
  unfolding insert_to_bucket
  insert_empty t i p bs b l v q stand at is at_here at_before at_p apart before_apart =
      rw (load_bucket_lem t i bs b stand at) (
        then_lem (bucket_is_empty t b) _ _ t is
        ∙ rw (list_insert_lem t (t.list) p l v q at_here at_before at_p apart before_apart) (
            store_bucket_lem (record t { node = spliced_node t (t.list) p l v q }) i bs b
              (record { first = p; last = p }) stand at))

  pub insert_full :
      (t : Table K V) (i : ℕ) (p : Addr) (bs : List Bucket) (b : Bucket) (l v q : Node K V)
      → t.buckets ≡ some bs
      → get_elem? bs i ≡ some b
      → bucket_is_empty t b ≡ false
      → t.node (b.first) ≡ some l
      → t.node (l.prev) ≡ some v
      → t.node p ≡ some q
      → b.first ≢ p
      → l.prev ≢ p
      → insert_to_bucket i p t
        ≡ done tt (relinked t i (spliced_node t (b.first) p l v q) (record b { first = p }))
  unfolding insert_to_bucket
  insert_full t i p bs b l v q stand at is at_here at_before at_p apart before_apart =
      rw (load_bucket_lem t i bs b stand at) (
        else_lem (bucket_is_empty t b) _ _ t is
        ∙ rw (list_insert_lem t (b.first) p l v q at_here at_before at_p apart before_apart) (
            store_bucket_lem (record t { node = spliced_node t (b.first) p l v q }) i bs b
              (record b { first = p }) stand at))

  -- The table once the pair is counted.
  abbrev pub counted : Table K V → Table K V
  counted t = record t { size = (t.size + 1) % word }

  pub add_lem :
      (t : Table K V) (i : ℕ) (p : Addr) (pair : Pair K V) (t' : Table K V)
      → p ≢ null
      → insert_to_bucket i p (alone t p pair) ≡ done tt t'
      → add i p pair t ≡ done true (counted t')
  unfolding add store
  add_lem t i p pair t' ne inserted =
      else_lem (p == null) _ _ t (ground (arith, ne))
      ∙ rw (list_init_lem t p pair) (rw inserted refl)

  pub anchor_lem :
      (t : Table K V) (list : Addr) {last a : Addr} {ps : List (Addr × Pair K V)}
      → Segment t last a ps
      → anchor list ps ≡ a
  unfolding anchor
  anchor_lem t list (end n pair at has) = refl
  anchor_lem t list (link p n pair off at has s) = refl

  pub last_apart :
      (t : Table K V) (p : Addr) {last a : Addr} {ps : List (Addr × Pair K V)}
      → Segment t last a ps
      → Away p ps
      → (p == last) ≡ false
  unfolding Away
  last_apart t p (end n pair at has) away = ground (arith, away.0)
  last_apart t p (link q n pair off at has s) away = last_apart t p s (away.1)

  -- The same, seen from the table before the new node was written.
  pub Spliced-alone :
      (t : Table K V) (here p : Addr) (pair : Pair K V) (l v : Node K V)
      → t.node here ≡ some l
      → t.node (l.prev) ≡ some v
      → here ≢ p
      → l.prev ≢ p
      → Spliced t here (l.prev) p (some pair) (
          spliced_node
            (alone t p pair)
            here
            p
            l
            v
            (record { prev = p; next = p; pair = some pair }))
  Spliced-alone t here p pair l v at_here at_before apart before_apart =
      let s : Spliced (alone t p pair) here (l.prev) p (some pair) _ =
        Spliced-spliced_node (alone t p pair) here p l v
          (record { prev = p; next = p; pair = some pair }) (ground (arith, at_here, apart))
          (ground (arith, at_before, before_apart)) (ground arith) apart before_apart in
      record { new = s.new; others = λ a n ne ne' at. s.others a n ne ne' (ground (arith, ne, at)) }
