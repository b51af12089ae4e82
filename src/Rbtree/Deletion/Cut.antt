-- ===== src/Rbtree/Deletion/Cut.antt =====
-- The node that leaves its place in nc_rbtree_delete of src/nc_rbtree.c: its parent links to its
-- child.
use libnc.Prelude.{◌+◌, ◌≤◌, List, ◌∷◌, ◌==◌, if◌then◌else◌, ◌≡◌, ◌≢◌, refl, sym, ap, ◌∙◌, arith}
use libnc.Memory.{Addr}
use libnc.Rbtree.Store.{Side, left, Node, Tree, done, parent, with_child, set_child, set_parent}
use libnc.Rbtree.Removal.{splice_out, take_place}
use libnc.Rbtree.Shape.{
  Label, Shape, nil, fork, mk, Crumb, here, count, count_way, count-mk, here_eq,
}
use libnc.Rbtree.Stands.{
  node_of, Nodes, put, put_at, put_apart, ptr, Stands, above, Around, Stands-parts, Stands-frame,
  Around-frame, update_lem, with_child-near, node_of-parent,
}
use libnc.Rbtree.Focus.{Zipper, zoom_out, IsDark, Around-sentinel}
use libnc.Rbtree.Relink.{parent_lem}
use libnc.Rbtree.Turn.{parent_at}
use libnc.Rbtree.Fixup.Steps.{side_test}
use libnc.Rbtree.Deletion.Sibling.{Below}

-- A node of no part of a tree changes.
module _ {z top : Addr} where
  pub apart-Zipper :
      {t : Tree} {s : Shape} {c : List Crumb} (p : Addr) (n : Node)
      → Zipper z top t s c
      → count p s + count_way p c ≡ 0
      → Zipper z top (record t { node = put p n t.node }) s c
  apart-Zipper {t} {s} {c} p n zip out =
      let f : Nodes = put p n t.node in
      record {
        sentinel = zip.sentinel;
        root = zip.root;
        stands =
            Stands-frame z t.node f (above top c) s
              (λ a h.
                put_apart p a n t.node (λ e. absurd (omega (arith, h, out, ap (λ a. count a s) e))))
              zip.stands;
        around =
            Around-frame z t.node f top (ptr z s) c
              (λ a h.
                put_apart p a n t.node
                  (λ e. absurd (omega (arith, h, out, ap (λ a. count_way a c) e))))
              zip.around;
        once = zip.once;
      }

pub apart-IsDark :
    {z : Addr} {t : Tree} (p : Addr) (n : Node)
    → p ≢ z
    → IsDark z t
    → IsDark z (record t { node = put p n t.node })
apart-IsDark {z} {t} p n ne dark = record {
  node = dark.node;
  stands = put_apart p z n t.node ne ∙ dark.stands;
  color = dark.color;
}

pub apart-Below :
    {z : Addr} (t : Tree) (p : Addr) (n : Node) (q : Addr) (m : Shape)
    → p ≢ z
    → Below z t q m
    → Below z (record t { node = put p n t.node }) q m
apart-Below {z} t p n q nil ne (k, at, is) = (k, put_apart p z n t.node ne ∙ at, is)
apart-Below t p n q (fork l x r) ne below = tt

-- A subtree, which may be the sentinel, gets a parent.
pub set_parent_lem :
    (z : Addr) (t : Tree) (p q : Addr) (m : Shape)
    → IsDark z t
    → Stands z t.node p m
    → ((a : Addr) → count a m ≤ 1)
    → (f : Nodes) × (set_parent (ptr z m) q t ≡ done tt (record t { node = f }))
      × Stands z f q m
      × IsDark z (record t { node = f })
      × Below z (record t { node = f }) q m
      × ((a : Addr) → count a m ≡ 0 → a ≢ z → f a ≡ t.node a)
set_parent_lem z t p q nil dark stands once =
    let n : Node = record dark.node { parent = q } in
    (
      put z n t.node,
      update_lem t z dark.node (λ n. record n { parent = q }) dark.stands,
      tt,
      record { node = n; stands = put_at z n t.node; color = dark.color },
      (n, put_at z n t.node, refl),
      λ a h ne. put_apart z a n t.node (λ e. ne (sym e)),
    )
set_parent_lem z t p q (fork l x r) dark stands once =
    let n : Node = node_of left (ptr z l) (ptr z r) q x in
    let f : Nodes = put x.addr n t.node in
    let kept : (a : Addr) → 1 ≤ count a l + count a r → f a ≡ t.node a = λ a h.
      put_apart x.addr a n t.node (λ e. absurd (omega (arith, h, once a, here_eq a x.addr e))) in
    (
      f,
      update_lem t x.addr _ (λ n. record n { parent = q }) stands.0,
      (
        put_at x.addr n t.node,
        stands.1,
        Stands-frame z t.node f x.addr l (λ a h. kept a (omega arith)) stands.2,
        Stands-frame z t.node f x.addr r (λ a h. kept a (omega arith)) stands.3,
      ),
      apart-IsDark x.addr n stands.1 dark,
      tt,
      λ a h ne. put_apart x.addr a n t.node (λ e. absurd (omega (arith, h, here_eq a x.addr e))),
    )

-- The store where the end of a way links to m, whose parent is q.
pub record Cut (z top : Addr) (t : Tree) (q : Addr) (m : Shape) (c : List Crumb) (t' : Tree)
    : Type 0 where
  pub sentinel : t'.sentinel ≡ t.sentinel
  pub root : t'.root ≡ t.root
  pub stands : Stands z t'.node q m
  pub around : Around z t'.node top (ptr z m) c
  pub dark : IsDark z t'
  pub below : Below z t' q m
  pub same : (a : Addr) → a ≢ z → count a m + count_way a c ≡ 0 → t'.node a ≡ t.node a

-- A node y with the one child m at a place below the root.
module _ (z top : Addr) (t : Tree) (side : Side) (y : Label) (m : Shape) (k : Crumb)
    (c : List Crumb) (zip : Zipper z top t (mk side nil y m) (k ∷ c)) (dark : IsDark z t) where
  up_node : Node
  up_node = node_of k.side (ptr z m) (ptr z k.far) (above top c) k.label

  pub bypassed : Tree
  unfolding up_node
  bypassed = record t { node = put k.label.addr up_node t.node }

  pub once_under : (a : Addr) → here a y.addr + count a m + count_way a (k ∷ c) ≤ 1
  once_under a = omega (arith, zip.once a, count-mk a side nil y m)

  bypass_run : set_child k.side k.label.addr (ptr z m) t ≡ done tt bypassed
  unfolding bypassed up_node
  bypass_run =
      update_lem t k.label.addr _ (with_child k.side (ptr z m)) zip.around.0
      ∙ ap (λ n. done tt (record t { node = put k.label.addr n t.node }))
          (with_child-near k.side (ptr z (mk side nil y m)) (ptr z m) (ptr z k.far) (above top c)
            k.label)

  bypass_same : (a : Addr) → k.label.addr ≢ a → bypassed.node a ≡ t.node a
  unfolding bypassed
  bypass_same a ne = put_apart k.label.addr a up_node t.node ne

  up_apart :
      (a : Addr) → 1 ≤ here a y.addr + count a m + count a k.far + count_way a c → k.label.addr ≢ a
  up_apart a h e = absurd (omega (arith, h, once_under a, here_eq a k.label.addr e))

  pub y_same : bypassed.node y.addr ≡ t.node y.addr
  y_same = bypass_same y.addr (up_apart y.addr (omega (arith, here_eq y.addr y.addr refl)))

  bypassed-Around : Around z bypassed.node top (ptr z m) (k ∷ c)
  unfolding bypassed up_node
  bypassed-Around = (
    put_at k.label.addr up_node t.node,
    zip.around.1,
    Stands-frame z t.node bypassed.node k.label.addr k.far
        (λ a h. bypass_same a (up_apart a (omega arith))) zip.around.2,
    Around-frame z t.node bypassed.node top k.label.addr c
        (λ a h. bypass_same a (up_apart a (omega arith))) zip.around.3,
  )

  bypassed-Stands : Stands z bypassed.node y.addr m
  bypassed-Stands =
      Stands-frame z t.node bypassed.node y.addr m (λ a h. bypass_same a (up_apart a (omega arith)))
        (Stands-parts z t.node k.label.addr side nil y m zip.stands).3

  bypassed-IsDark : IsDark z bypassed
  unfolding bypassed
  bypassed-IsDark = apart-IsDark k.label.addr up_node zip.around.1 dark

  pub bypassed-Cut :
      (q : Addr)
      → (t' : Tree) × (set_parent (ptr z m) q bypassed ≡ done tt t') × Cut z top t q m (k ∷ c) t'
  unfolding bypassed
  bypassed-Cut q =
      let (f, run, stands, dark', below, same) =
        set_parent_lem z bypassed y.addr q m bypassed-IsDark bypassed-Stands
          (λ a. omega (arith, once_under a)) in
      let way_z = Around-sentinel z t.node top (ptr z (mk side nil y m)) (k ∷ c) zip.around in
      (
        record bypassed { node = f },
        run,
        record {
          sentinel = refl;
          root = refl;
          stands = stands;
          around =
              Around-frame z bypassed.node f top (ptr z m) (k ∷ c)
                (λ a h.
                  same a (omega (arith, h, once_under a))
                    (λ e. absurd (omega (arith, h, way_z, ap (λ a. count_way a (k ∷ c)) e))))
                bypassed-Around;
          dark = dark';
          below = below;
          same = λ a ne h.
              same a (omega (arith, h)) ne
              ∙ bypass_same a (λ e. absurd (omega (arith, h, here_eq a k.label.addr e)));
        },
      )

  pub parent_y : parent y.addr t ≡ done k.label.addr t
  parent_y = parent_at side nil y m (k ∷ c) zip

  -- The statements of splice_out before its test.
  pub bypass :
      (node : Addr)
      → splice_out node y.addr (ptr z m) t
        ≡ (if y.addr == node
              then set_parent (ptr z m) k.label.addr
              else take_place node y.addr (ptr z m))
            bypassed
  unfolding splice_out
  bypass node =
      let (q, child_run, test) =
        side_test k.side side nil y m k.label k.far c (zoom_out (mk side nil y m) k c zip) in
      let at = (Stands-parts z t.node k.label.addr side nil y m zip.stands).0 in
      rw parent_y (
        rw child_run (
          rw (ap (λ s. set_child s k.label.addr (ptr z m) t) test ∙ bypass_run) (
            rw
              (parent_lem bypassed y.addr _ (y_same ∙ at)
                ∙ ap (λ p. done p bypassed) (node_of-parent side z (ptr z m) k.label.addr y))
              refl)))

  -- Below its own parent.
  pub Cut-Zipper : {t' : Tree} → Cut z top t k.label.addr m (k ∷ c) t' → Zipper z top t' m (k ∷ c)
  Cut-Zipper cut = record {
    sentinel = cut.sentinel ∙ zip.sentinel;
    root = cut.root ∙ zip.root;
    stands = cut.stands;
    around = cut.around;
    once = λ a. omega (arith, once_under a);
  }
