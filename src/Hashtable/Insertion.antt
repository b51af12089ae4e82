-- ===== src/Hashtable/Insertion.antt =====
-- nc_hashtable_set of src/nc_hashtable.c where the key is new: what it does to the circular list
-- and to the list of the pairs of the key's bucket.
use mathlib.Core.Option
use libnc.Prelude.{
  ℕ, zero, suc, ◌+◌, All, ◌%◌, ◌<◌, ◌≤◌, Bool, true, List, [], ◌∷◌, Option, none, some, get_elem?,
  set, get_elem?-set, length, leb, if◌then◌else◌, ◌≡◌, ◌≢◌, refl, ap, sym, subst, ◌∙◌, arith,
}
use libnc.Memory.{Addr, null, word}
use libnc.Hashtable.Store.{Pair, Node, Bucket, Table, Client, done}
use libnc.Hashtable.Links.{primes, find_pair}
use libnc.Hashtable.Search.{
  Segment, end, link, first_match, BucketHolds, empty, full, find_pair_lem, get_key-first_match,
  found_value, is_match, num_buckets_lem, else_lem,
}
use libnc.Hashtable.{get_key, add, make_room, set_key}
use libnc.Hashtable.Splice.{anchor, Splice, Spliced, spliced_node, Spliced-Segment}
use libnc.Hashtable.Buckets.{
  alone, relinked, insert_empty, insert_full, counted, add_lem, anchor_lem, last_apart,
  Spliced-alone,
}

get_elem?-small :
    (xs : List ℕ) (i n : ℕ) → All (λ x. x < word) xs → get_elem? xs i ≡ some n → n < word
get_elem?-small [] i n small at = absurd (cc)
get_elem?-small (x ∷ xs) zero n small at = ground (arith, small.0)
get_elem?-small (x ∷ xs) (suc i) n small at = get_elem?-small xs i n small.1 at

-- A prime of the table fits size_t.
prime-small : (i n : ℕ) → get_elem? primes i ≡ some n → n < word
prime-small i n = get_elem?-small primes i n (
  omega arith,
  (
    omega arith,
    (
      omega arith,
      (
        omega arith,
        (
          omega arith,
          (
            omega arith,
            (
              omega arith,
              (
                omega arith,
                (
                  omega arith,
                  (
                    omega arith,
                    (
                      omega arith,
                      (
                        omega arith,
                        (
                          omega arith,
                          (
                            omega arith,
                            (
                              omega arith,
                              (
                                omega arith,
                                (
                                  omega arith,
                                  (
                                    omega arith,
                                    (
                                      omega arith,
                                      (
                                        omega arith,
                                        (
                                          omega arith,
                                          (
                                            omega arith,
                                            (
                                              omega arith,
                                              (
                                                omega arith,
                                                (
                                                  omega arith,
                                                  (
                                                    omega arith,
                                                    (omega arith, (omega arith, (omega arith, tt))),
                                                  ),
                                                ),
                                              ),
                                            ),
                                          ),
                                        ),
                                      ),
                                    ),
                                  ),
                                ),
                              ),
                            ),
                          ),
                        ),
                      ),
                    ),
                  ),
                ),
              ),
            ),
          ),
        ),
      ),
    ),
  ),
)

module _ {K V : Type 0} where
  -- The table after the pair is added in front of the i-th bucket.
  pub record Added (t : Table K V) (i : ℕ) (p : Addr) (pair : Pair K V)
      (ps : List (Addr × Pair K V)) (t' : Table K V) : Type 0 where
    pub holds : BucketHolds t' i ((p, pair) ∷ ps)
    pub size : t'.size ≡ suc t.size
    pub num_buckets : t'.num_buckets ≡ t.num_buckets

  add_empty :
      (t : Table K V) (i : ℕ) (p : Addr) (pair : Pair K V) (bs : List Bucket) (b : Bucket)
      → t.size + 1 < word
      → p ≢ null
      → t.list ≢ p
      → t.buckets ≡ some bs
      → get_elem? bs i ≡ some b
      → b.first ≡ t.list
      → b.last ≡ t.list
      → Splice t (t.list) p []
      → (t' : Table K V) × (add i p pair t ≡ done true t') × Added t i p pair [] t'
  add_empty t i p pair bs b count ne off stand at first last s =
      let q : Node K V = record { prev = p; next = p; pair = some pair } in
      let b' : Bucket = record { first = p; last = p } in
      let f : Addr → Option (Node K V) =
        spliced_node (alone t p pair) (t.list) p (s.node) (s.before) q in
      let spliced : Spliced t (t.list) (s.node.prev) p (some pair) f =
        Spliced-alone t (t.list) p pair (s.node) (s.before) s.stands s.before_stands s.here_apart
          s.before_apart in
      let run : add i p pair t ≡ done true (counted (relinked (alone t p pair) i f b')) =
        add_lem t i p pair _ ne (
          insert_empty (alone t p pair) i p bs b (s.node) (s.before) q stand at
            (ground (arith, first, last)) (ground (arith, s.stands, s.here_apart))
            (ground (arith, s.before_stands, s.before_apart)) (ground arith) s.here_apart
            s.before_apart) in
      (
        counted (relinked (alone t p pair) i f b'),
        run,
        record {
          holds =
              full (set bs i b') b' (ap (Option.map (λ bs. set bs i b')) stand)
                (get_elem?-set bs i b b' at) (λ e. off (sym e)) (end _ pair spliced.new refl)
                (omega (arith, count));
          size = omega (arith, count);
          num_buckets = refl;
        },
      )

  add_full :
      (t : Table K V) (i : ℕ) (p : Addr) (pair : Pair K V) (bs : List Bucket) (b : Bucket)
      (ps : List (Addr × Pair K V))
      → t.size + 1 < word
      → p ≢ null
      → t.list ≢ p
      → t.buckets ≡ some bs
      → get_elem? bs i ≡ some b
      → b.first ≢ t.list
      → Segment t (b.last) (b.first) ps
      → length ps ≤ t.size
      → Splice t (b.first) p ps
      → (t' : Table K V) × (add i p pair t ≡ done true t') × Added t i p pair ps t'
  add_full t i p pair bs b ps count ne off stand at first seg small s =
      let q : Node K V = record { prev = p; next = p; pair = some pair } in
      let b' : Bucket = record b { first = p } in
      let f : Addr → Option (Node K V) =
        spliced_node (alone t p pair) (b.first) p (s.node) (s.before) q in
      let spliced : Spliced t (b.first) (s.node.prev) p (some pair) f =
        Spliced-alone t (b.first) p pair (s.node) (s.before) s.stands s.before_stands s.here_apart
          s.before_apart in
      let t' : Table K V = counted (relinked (alone t p pair) i f b') in
      let run : add i p pair t ≡ done true t' = add_lem t i p pair _ ne (
        insert_full (alone t p pair) i p bs b (s.node) (s.before) q stand at (ground (arith, first))
          (ground (arith, s.stands, s.here_apart)) (ground (arith, s.before_stands, s.before_apart))
          (ground arith) s.here_apart s.before_apart) in
      (
        t',
        run,
        record {
          holds =
              full (set bs i b') b' (ap (Option.map (λ bs. set bs i b')) stand)
                (get_elem?-set bs i b b' at) (λ e. off (sym e))
                (link p _ pair (last_apart t p seg s.away) spliced.new refl (
                  Spliced-Segment t t' (b.first) (s.node.prev) p (some pair) spliced seg s.away
                    s.before_away))
                (omega (arith, small, count));
          size = omega (arith, count);
          num_buckets = refl;
        },
      )

  pub make_room_lem :
      (t : Table K V) (n : ℕ) (has_memory : Bool)
      → get_elem? primes t.num_buckets ≡ some n
      → t.size < n
      → make_room has_memory t ≡ done true t
  unfolding make_room
  make_room_lem t n has_memory prime room =
      rw (num_buckets_lem t n prime) (else_lem (leb n t.size) _ _ t (ground (arith, room)))

  add-Added :
      (t : Table K V) (i : ℕ) (p : Addr) (pair : Pair K V) {ps : List (Addr × Pair K V)}
      → t.size + 1 < word
      → p ≢ null
      → t.list ≢ p
      → BucketHolds t i ps
      → Splice t (anchor (t.list) ps) p ps
      → (t' : Table K V) × (add i p pair t ≡ done true t') × Added t i p pair ps t'
  unfolding anchor
  add-Added t i p pair count ne off (empty bs b stand at first last) s =
      add_empty t i p pair bs b count ne off stand at first last s
  add-Added t i p pair count ne off (full bs b {ps} stand at first seg small) s =
      add_full t i p pair bs b ps count ne off stand at first seg small
        (subst (λ a. Splice t a p ps) (anchor_lem t (t.list) seg) s)

  -- Where the table has room (its size is below its prime n), the bucket of the key holds a list
  -- of pairs, none with the key's hash and an equal key, the allocation of a pair gives an address
  -- p that is not NULL, the node in front of which the pair goes and the node before that one
  -- stand, p is none of these, nor the table's own node, nor in the bucket, and the node before is
  -- not in the bucket either, nc_hashtable_set returns 0: the bucket holds the new pair in front
  -- of the pairs it held, the size is one more, and the prime is the same.
  pub set_key-Added :
      (c : Client K) (t : Table K V) (key : K) (value : V) (p n : ℕ) (has_memory : Bool)
      {ps : List (Addr × Pair K V)}
      → get_elem? primes t.num_buckets ≡ some n
      → t.size < n
      → p ≢ null
      → t.list ≢ p
      → BucketHolds t (c.hash_key key % n) ps
      → first_match c key (c.hash_key key) ps ≡ none
      → Splice t (anchor (t.list) ps) p ps
      → (t' : Table K V) × (set_key c has_memory p key value t ≡ done true t')
        × Added t
            (c.hash_key key % n)
            p
            (record { key = key; value = value; hash = c.hash_key key })
            ps
            t'
  unfolding set_key
  set_key-Added c t key value p n has_memory prime room ne off holds missing splice =
      let pair : Pair K V = record { key = key; value = value; hash = c.hash_key key } in
      let (t', run, is) =
        add-Added t (c.hash_key key % n) p pair
          (omega (arith, room, prime-small t.num_buckets n prime)) ne off holds splice in
      let miss : find_pair c (c.hash_key key % n) key (c.hash_key key) t ≡ done none t =
        find_pair_lem c t _ key (c.hash_key key) holds
        ∙ ap (λ o. done (Option.map (λ x. x.0) o) t) missing in
      (
        t',
        rw (make_room_lem t n has_memory prime room) (rw (num_buckets_lem t n prime) (rw miss run)),
        is,
      )

  -- Under the same conditions, and where the client's comparison finds the key equal to itself, the
  -- nc_hashtable_get of the key after that nc_hashtable_set returns the value.
  pub set_key-get_key :
      (c : Client K) (t : Table K V) (key : K) (value : V) (p n : ℕ) (has_memory : Bool)
      {ps : List (Addr × Pair K V)}
      → get_elem? primes t.num_buckets ≡ some n
      → t.size < n
      → p ≢ null
      → t.list ≢ p
      → BucketHolds t (c.hash_key key % n) ps
      → first_match c key (c.hash_key key) ps ≡ none
      → Splice t (anchor (t.list) ps) p ps
      → c.cmp_keys key key ≡ true
      → (t' : Table K V) × (set_key c has_memory p key value t ≡ done true t')
        × (get_key c key t' ≡ done (some value) t')
  unfolding first_match
  set_key-get_key c t key value p n has_memory {ps} prime room ne off holds missing splice same =
      let (t', run, is) =
        set_key-Added c t key value p n has_memory prime room ne off holds missing splice in
      let gets =
        (get_key-first_match c t' key n (ap (λ i. get_elem? primes i) is.num_buckets ∙ prime)
          is.holds).0 in
      let pair : Pair K V = record { key = key; value = value; hash = c.hash_key key } in
      let matches : is_match c key (c.hash_key key) pair ≡ true = ground (arith, same) in
      (
        t',
        run,
        gets
            ∙ ap
                (λ b.
                  done
                    (found_value
                      (if b then some (p, pair) else first_match c key (c.hash_key key) ps))
                    t')
                matches,
      )
