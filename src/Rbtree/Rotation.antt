-- ===== src/Rbtree/Rotation.antt =====
-- The rotations of src/nc_rbtree.c.
use libnc.Prelude.{◌+◌, ◌≤◌, List, some, ◌≡◌, ◌≢◌, refl, sym, ap, subst, ◌∙◌, arith}
use libnc.Memory.{Addr}
use libnc.Rbtree.Store.{Side, other, Node, Tree, done, with_child, set_child, set_parent}
use libnc.Rbtree.Links.{lower, rotate}
use libnc.Rbtree.Shape.{
  Label, Shape, mk, Crumb, here, here_eq, count, count_way, count-mk, items-rotate,
}
use libnc.Rbtree.Focus.{Zipper, Turned}
use libnc.Rbtree.Stands.{
  node_of, Nodes, put, ptr, Stands, above, Around, root_of, Stands-mk, Stands-parts, ptr-mk,
  Stands-frame, Around-frame, update_lem, put_at, put_apart, child_of-near, child_of-far,
  with_child-near, with_child-far, node_of-parent, with_parent,
}
use libnc.Rbtree.Relink.{child_lem, parent_lem, replace_child-Relinked, adopt_lem}

module _ (z top : Addr) (s : Side) (a b d : Shape) (x y : Label) (c : List Crumb) (t : Tree) where
  -- What the first half of a rotation leaves.
  record Lowered (f : Nodes) : Type 0 where
    pub x_at : f x.addr ≡ some (node_of s (ptr z a) (ptr z b) (above top c) x)
    pub y_at : f y.addr ≡ some (node_of s (ptr z b) (ptr z d) (above top c) y)
    pub b_stands : Stands z f x.addr b
    pub same : (e : Addr) → x.addr ≢ e → y.addr ≢ e → count e b ≡ 0 → f e ≡ t.node e

  -- The node x with the child y on the far side, and no address twice.
  record Ready : Type 0 where
    pub sentinel : t.sentinel ≡ z
    pub x_at : t.node x.addr ≡ some (node_of s (ptr z a) y.addr (above top c) x)
    pub x_ne : x.addr ≢ z
    pub a_stands : Stands z t.node x.addr a
    pub y_at : t.node y.addr ≡ some (node_of s (ptr z b) (ptr z d) x.addr y)
    pub y_ne : y.addr ≢ z
    pub b_stands : Stands z t.node y.addr b
    pub d_stands : Stands z t.node y.addr d
    pub root : t.root ≡ root_of x.addr c
    pub around : Around z t.node top x.addr c
    pub once :
        (e : Addr)
        → here e x.addr + count e a + here e y.addr + count e b + count e d + count_way e c ≤ 1
    pub x_ne_y : x.addr ≢ y.addr

  Zipper-Ready : Zipper z top t (mk s a x (mk s b y d)) c → Ready
  Zipper-Ready zip =
      let (x_at, x_ne, a_stands, inner) =
        Stands-parts z t.node (above top c) s a x (mk s b y d) zip.stands in
      let (y_at, y_ne, b_stands, d_stands) = Stands-parts z t.node x.addr s b y d inner in
      record {
        sentinel = zip.sentinel;
        x_at = x_at ∙ ap (λ p. some (node_of s (ptr z a) p (above top c) x)) (ptr-mk z s b y d);
        x_ne = x_ne;
        a_stands = a_stands;
        y_at = y_at;
        y_ne = y_ne;
        b_stands = b_stands;
        d_stands = d_stands;
        root = zip.root ∙ ap (λ p. root_of p c) (ptr-mk z s a x (mk s b y d));
        around = subst (λ p. Around z t.node top p c) (ptr-mk z s a x (mk s b y d)) zip.around;
        once = λ e. omega (arith, zip.once e, count-mk e s a x (mk s b y d), count-mk e s b y d);
        x_ne_y = λ e. absurd (
            omega (
              arith,
              zip.once y.addr,
              count-mk y.addr s a x (mk s b y d),
              count-mk y.addr s b y d,
              here_eq y.addr x.addr e,
              here_eq y.addr y.addr refl,
            ));
      }

  module _ (r : Ready) where
    -- x and y are none of the addresses of the other parts.
    x_apart : (e : Addr) → 1 ≤ count e a + count e b + count e d + count_way e c → x.addr ≢ e
    x_apart e h eq = absurd (omega (arith, r.once e, here_eq e x.addr eq))

    y_apart : (e : Addr) → 1 ≤ count e a + count e b + count e d + count_way e c → y.addr ≢ e
    y_apart e h eq = absurd (omega (arith, r.once e, here_eq e y.addr eq))

    lower-Lowered :
        (f : Nodes) × (lower s x.addr t ≡ done y.addr (record t { node = f })) × Lowered f
    unfolding lower
    lower-Lowered =
        let up : Addr = above top c in
        let nx : Node = node_of s (ptr z a) (ptr z b) up x in
        let ny : Node = node_of s (ptr z b) (ptr z d) x.addr y in
        let ny' : Node = node_of s (ptr z b) (ptr z d) up y in
        let f1 : Nodes = put x.addr nx t.node in
        let x_out : count x.addr b ≡ 0 = omega (arith, r.once x.addr, here_eq x.addr x.addr refl) in
        let y_out : count y.addr b ≡ 0 = omega (arith, r.once y.addr, here_eq y.addr y.addr refl) in
        let (f2, adopts, stands, kept) =
          adopt_lem z (record t { node = f1 }) y.addr x.addr b r.sentinel
            (Stands-frame z t.node f1 y.addr b
              (λ e h. put_apart x.addr e nx t.node (x_apart e (omega arith))) r.b_stands)
            (λ e. omega (arith, r.once e)) in
        let f3 : Nodes = put y.addr ny' f2 in
        let t2 : Tree = record t { node = f2 } in
        let x_at2 : f2 x.addr ≡ some nx = kept x.addr x_out ∙ put_at x.addr nx t.node in
        let y_at2 : f2 y.addr ≡ some ny =
          kept y.addr y_out ∙ put_apart x.addr y.addr nx t.node r.x_ne_y ∙ r.y_at in
        (
          f3,
          rw
              (child_lem t (other s) x.addr _ r.x_at
                ∙ ap (λ p. done p t) (child_of-far s (ptr z a) y.addr up x))
              (rw
                (child_lem t s y.addr ny r.y_at
                  ∙ ap (λ p. done p t) (child_of-near s (ptr z b) (ptr z d) x.addr y))
                (rw
                  (update_lem t x.addr _ (with_child (other s) (ptr z b)) r.x_at
                    ∙ ap (λ n. done tt (record t { node = put x.addr n t.node }))
                        (with_child-far s (ptr z a) y.addr (ptr z b) up x))
                  (rw adopts (
                    rw
                      (parent_lem t2 x.addr nx x_at2
                        ∙ ap (λ p. done p t2) (node_of-parent s (ptr z a) (ptr z b) up x))
                      (rw
                        (update_lem t2 y.addr ny (λ n. record n { parent = up }) y_at2
                          ∙ ap (λ n. done tt (record t { node = put y.addr n f2 }))
                              (with_parent s (ptr z b) (ptr z d) x.addr up y))
                        refl))))),
          record {
            x_at = put_apart y.addr x.addr ny' f2 (λ e. r.x_ne_y (sym e)) ∙ x_at2;
            y_at = put_at y.addr ny' f2;
            b_stands =
                Stands-frame z f2 f3 x.addr b
                  (λ e h. put_apart y.addr e ny' f2 (y_apart e (omega arith))) stands;
            same = λ e nex ney out.
                put_apart y.addr e ny' f2 ney ∙ kept e out ∙ put_apart x.addr e nx t.node nex;
          },
        )

    -- The second half, from the nodes f that the first one leaves.
    module _ (f : Nodes) (low : Lowered f) (g : Nodes) where
      -- The two nodes that the last statements write.
      risen : Node
      risen = node_of s x.addr (ptr z d) (above top c) y

      sunk : Node
      sunk = node_of s (ptr z a) (ptr z b) y.addr x

      turned : Nodes
      unfolding risen sunk
      turned = put x.addr sunk (put y.addr risen g)

      turned_same :
          ((e : Addr) → count_way e c ≡ 0 → g e ≡ f e)
          → (e : Addr) → x.addr ≢ e
          → y.addr ≢ e
          → count_way e c ≡ 0
          → turned e ≡ f e
      unfolding turned
      turned_same kept e nex ney out =
          put_apart x.addr e sunk (put y.addr risen g) nex
          ∙ put_apart y.addr e risen g ney
          ∙ kept e out

      turned-Stands :
          ((e : Addr) → count_way e c ≡ 0 → g e ≡ f e)
          → Stands z turned (above top c) (mk s (mk s a x b) y d)
      unfolding turned risen sunk
      turned-Stands kept =
          let off = turned_same kept in
          let old : (e : Addr) → 1 ≤ count e a + count e d → turned e ≡ t.node e = λ e h.
            off e (x_apart e (omega arith)) (y_apart e (omega arith)) (omega (arith, r.once e))
            ∙ low.same e (x_apart e (omega arith)) (y_apart e (omega arith))
                (omega (arith, r.once e)) in
          let y_at : turned y.addr
              ≡ some (node_of s (ptr z (mk s a x b)) (ptr z d) (above top c) y) =
            put_apart x.addr y.addr sunk (put y.addr risen g) r.x_ne_y
            ∙ put_at y.addr risen g
            ∙ ap (λ p. some (node_of s p (ptr z d) (above top c) y)) (sym (ptr-mk z s a x b)) in
          Stands-mk z turned (above top c) s (mk s a x b) y d y_at r.y_ne
            (Stands-mk z turned y.addr s a x b (put_at x.addr sunk (put y.addr risen g)) r.x_ne
              (Stands-frame z t.node turned x.addr a (λ e h. old e (omega arith)) r.a_stands)
              (Stands-frame z f turned x.addr b
                (λ e h.
                  off e (x_apart e (omega arith)) (y_apart e (omega arith))
                    (omega (arith, r.once e)))
                low.b_stands))
            (Stands-frame z t.node turned y.addr d (λ e h. old e (omega arith)) r.d_stands)

  -- Where the node x stands at a place of a tree with the node y as its child on the far side, the
  -- rotation of x ends and runs into nothing undefined: y stands in the place of x, with x as its
  -- child on the near side, and the inner subtree of y is the far one of x. The way to the place
  -- is as it was, also where it is the root, no address stands in the tree twice, and the nodes
  -- that are not of the tree are as they were.
  pub rotate-Turned :
      Zipper z top t (mk s a x (mk s b y d)) c
      → (t' : Tree) × (rotate s x.addr t ≡ done tt t')
        × Turned z top (mk s a x (mk s b y d)) (mk s (mk s a x b) y d) c t t'
  unfolding rotate turned risen sunk
  rotate-Turned zip =
      let r : Ready = Zipper-Ready zip in
      let (f, lowers, low) = lower-Lowered r in
      let t3 : Tree = record t { node = f } in
      let x_out : count_way x.addr c ≡ 0 =
        omega (arith, r.once x.addr, here_eq x.addr x.addr refl) in
      let y_out : count_way y.addr c ≡ 0 =
        omega (arith, r.once y.addr, here_eq y.addr y.addr refl) in
      let (t4, replaces, re) =
        replace_child-Relinked z top s x.addr y.addr (node_of s (ptr z a) (ptr z b) (above top c) x)
          c t3 r.x_ne low.x_at (node_of-parent s (ptr z a) (ptr z b) (above top c) x)
          (Around-frame z t.node f top x.addr c
            (λ e h.
              low.same e (x_apart r e (omega arith)) (y_apart r e (omega arith))
                (omega (arith, r.once e)))
            r.around)
          r.root (λ e. omega (arith, r.once e)) x_out in
      let g : Nodes = t4.node in
      let t5 : Tree = record t4 { node = put y.addr (risen r f low g) g } in
      let t6 : Tree = record t4 { node = turned r f low g } in
      let off = turned_same r f low g re.same in
      let y_up : set_child s y.addr x.addr t4 ≡ done tt t5 =
        update_lem t4 y.addr _ (with_child s x.addr) (re.same y.addr y_out ∙ low.y_at)
        ∙ ap (λ n. done tt (record t4 { node = put y.addr n g }))
            (with_child-near s (ptr z b) x.addr (ptr z d) (above top c) y) in
      let x_down : set_parent x.addr y.addr t5 ≡ done tt t6 =
        update_lem t5 x.addr _ (λ n. record n { parent = y.addr })
          (put_apart y.addr x.addr (risen r f low g) g (λ e. r.x_ne_y (sym e))
            ∙ re.same x.addr x_out
            ∙ low.x_at)
        ∙ ap (λ n. done tt (record t4 { node = put x.addr n t5.node }))
            (with_parent s (ptr z a) (ptr z b) (above top c) y.addr x) in
      (
        t6,
        rw lowers (rw replaces (rw y_up x_down)),
        record {
          zipper = record {
            sentinel = re.sentinel ∙ r.sentinel;
            root = re.root ∙ ap (λ p. root_of p c) (sym (ptr-mk z s (mk s a x b) y d));
            stands = turned-Stands r f low g re.same;
            around =
                subst (λ p. Around z t6.node top p c) (sym (ptr-mk z s (mk s a x b) y d))
                  (Around-frame z g t6.node top y.addr c
                    (λ e h.
                      put_apart x.addr e (sunk r f low g) t5.node (x_apart r e (omega arith))
                      ∙ put_apart y.addr e (risen r f low g) g (y_apart r e (omega arith)))
                    re.around);
            once = λ e. omega (arith, r.once e, count-mk e s (mk s a x b) y d, count-mk e s a x b);
          };
          items = items-rotate s a b d x y;
          kept = λ e. omega (
            arith,
            count-mk e s (mk s a x b) y d,
            count-mk e s a x b,
            count-mk e s a x (mk s b y d),
            count-mk e s b y d,
          );
          same = λ e h.
              let outer = count-mk e s a x (mk s b y d) in
              let lower_part = count-mk e s b y d in
              let nex : x.addr ≢ e = λ eq. absurd (omega (arith, h, outer, here_eq e x.addr eq)) in
              let ney : y.addr ≢ e =
                λ eq. absurd (omega (arith, h, outer, lower_part, here_eq e y.addr eq)) in
              off e nex ney (omega (arith, h))
              ∙ low.same e nex ney (omega (arith, h, outer, lower_part));
        },
      )
