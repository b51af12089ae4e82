-- ===== src/Hashtable/Splice.antt =====
-- list_insert of src/nc_hashtable.c: a node spliced into the circular list, and the lists of pairs
-- that it leaves as they were.
use libnc.Prelude.{
  List, [], ◌∷◌, Option, some, ◌==◌, Bool-cases, inl, inr, if◌then◌else◌, ◌≡◌, ◌≢◌, refl, ap, sym,
  subst, ◌∙◌, arith,
}
use libnc.Memory.{Addr}
use libnc.Hashtable.Store.{Pair, Node, Table, done, put, set_next, set_prev, store}
use libnc.Hashtable.Links.{list_insert}
use libnc.Hashtable.Search.{Segment, end, link, load_lem}

module _ {K V : Type 0} where
  -- An address that is not in a list.
  unfoldable pub Away : Addr → List (Addr × Pair K V) → Type 0
  Away a [] = Unit {0}
  Away a ((q, pair) ∷ ps) = (q ≢ a) × Away a ps

  -- The node that a new node is put in front of.
  unfoldable pub anchor : Addr → List (Addr × Pair K V) → Addr
  anchor list [] = list
  anchor list ((q, pair) ∷ ps) = q

  -- The node at `here` and the one before it stand, and p is neither; the one before it and p are
  -- not in a list.
  pub record Splice (t : Table K V) (here p : Addr) (ps : List (Addr × Pair K V)) : Type 0 where
    pub node : Node K V
    pub before : Node K V
    pub stands : t.node here ≡ some node
    pub before_stands : t.node (node.prev) ≡ some before
    pub here_apart : here ≢ p
    pub before_apart : node.prev ≢ p
    pub before_away : Away (node.prev) ps
    pub away : Away p ps

  pub set_next_lem :
      (p q : Addr) (n : Node K V) (t : Table K V)
      → t.node p ≡ some n
      → set_next p q t ≡ done tt (put p (some (record n { next = q })) t)
  unfolding set_next store
  set_next_lem p q n t at = rw (load_lem t p n at) refl

  pub set_prev_lem :
      (p q : Addr) (n : Node K V) (t : Table K V)
      → t.node p ≡ some n
      → set_prev p q t ≡ done tt (put p (some (record n { prev = q })) t)
  unfolding set_prev store
  set_prev_lem p q n t at = rw (load_lem t p n at) refl

  pub put_at : (p : Addr) (o : Option (Node K V)) (t : Table K V) → (put p o t).node p ≡ o
  put_at p o t = ground arith

  pub put_apart :
      (p q : Addr) (o : Option (Node K V)) (t : Table K V) → p ≢ q → (put p o t).node q ≡ t.node q
  put_apart p q o t ne = ground arith

  -- A store with the node p spliced in before `here`, after `before`: the nodes but these two have
  -- kept their pairs and what comes after them.
  pub record Spliced (t : Table K V) (here before p : Addr) (o : Option (Pair K V))
      (f : Addr → Option (Node K V)) : Type 0 where
    pub new : f p ≡ some (record { prev = before; next = here; pair = o })
    pub others :
        (a : Addr) (n : Node K V)
        → a ≢ p
        → a ≢ before
        → t.node a ≡ some n
        → (n' : Node K V) × (f a ≡ some n') × (n'.next ≡ n.next) × (n'.pair ≡ n.pair)

  -- The store that list_insert leaves.
  unfoldable pub spliced_node :
      (t : Table K V) (here p : Addr) (l v q : Node K V) → Addr → Option (Node K V)
  spliced_node t here p l v q =
      let l' : Node K V = if l.prev == here then record v { next = p } else l in
      (put here (some (record l' { prev = p })) (
        put (l.prev) (some (record v { next = p })) (
          put p (some (record { prev = l.prev; next = here; pair = q.pair }))
            (put p (some (record q { next = here })) t)))).node

  pub list_insert_lem :
      (t : Table K V) (here p : Addr) (l v q : Node K V)
      → t.node here ≡ some l
      → t.node (l.prev) ≡ some v
      → t.node p ≡ some q
      → here ≢ p
      → l.prev ≢ p
      → list_insert here p t ≡ done tt (record t { node = spliced_node t here p l v q })
  unfolding list_insert spliced_node
  list_insert_lem t here p l v q at_here at_before at_p apart before_apart =
      rw (set_next_lem p here q t at_p) (
        rw
          (load_lem (put p (some (record q { next = here })) t) here l
            (ground (arith, at_here, apart)))
          (rw
            (set_prev_lem p (l.prev) (record q { next = here })
              (put p (some (record q { next = here })) t) (put_at p _ t))
            (rw
              (set_next_lem (l.prev) p v
                (put p (some (record { prev = l.prev; next = here; pair = q.pair }))
                  (put p (some (record q { next = here })) t))
                (ground (arith, at_before, before_apart)))
              (set_prev_lem here p (if l.prev == here then record v { next = p } else l)
                (put (l.prev) (some (record v { next = p })) (
                  put p (some (record { prev = l.prev; next = here; pair = q.pair }))
                    (put p (some (record q { next = here })) t)))
                (ground (arith, at_here, apart, before_apart))))))

  spliced_other :
      (t : Table K V) (here p : Addr) (l v q n : Node K V) (a : Addr)
      → t.node here ≡ some l
      → a ≢ p
      → a ≢ l.prev
      → t.node a ≡ some n
      → (n' : Node K V) × (spliced_node t here p l v q a ≡ some n')
        × (n'.next ≡ n.next)
        × (n'.pair ≡ n.pair)
  unfolding spliced_node
  spliced_other t here p l v q n a at_here ne ne' at = elim (Bool-cases (here == a)) [
    | inl e ↦
        let here≡a : here ≡ a = ground (arith, e) in
        let l≡n : l ≡ n = cc in
        (record l { prev = p }, ground (arith, e, ne'), ap (λ m. m.next) l≡n, ap (λ m. m.pair) l≡n)
    | inr e ↦ (n, ground (arith, e, ne, ne', at), refl, refl)
  ]

  pub Spliced-spliced_node :
      (t : Table K V) (here p : Addr) (l v q : Node K V)
      → t.node here ≡ some l
      → t.node (l.prev) ≡ some v
      → t.node p ≡ some q
      → here ≢ p
      → l.prev ≢ p
      → Spliced t here (l.prev) p (q.pair) (spliced_node t here p l v q)
  unfolding spliced_node
  Spliced-spliced_node t here p l v q at_here at_before at_p apart before_apart = record {
    new = ground (arith, apart, before_apart);
    others = λ a n ne ne' at. spliced_other t here p l v q n a at_here ne ne' at;
  }

  pub Spliced-Segment :
      (t t' : Table K V) (here before p : Addr) (o : Option (Pair K V)) {last a : Addr}
      {ps : List (Addr × Pair K V)}
      → Spliced t here before p o (t'.node)
      → Segment t last a ps
      → Away p ps
      → Away before ps
      → Segment t' last a ps
  unfolding Away
  Spliced-Segment t t' here before p o spliced (end n pair at has) away away' =
      let (n', at', next, same) = spliced.others _ n (away.0) (away'.0) at in
      end n' pair at' (same ∙ has)
  Spliced-Segment t t' here before p o {last} spliced (link q n pair {ps} off at has s) away away' =
      let (n', at', next, same) = spliced.others q n (away.0) (away'.0) at in
      let rest : Segment t' last (n.next) ps =
        Spliced-Segment t t' here before p o spliced s (away.1) (away'.1) in
      link q n' pair off at' (same ∙ has) (subst (λ a. Segment t' last a ps) (sym next) rest)
