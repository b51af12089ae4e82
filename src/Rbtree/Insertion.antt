-- ===== src/Rbtree/Insertion.antt =====
-- nc_rbtree_insert of src/nc_rbtree.c.
pub mod Leaf
pub mod Hanging
use libnc.Prelude.{
  ℕ, ◌+◌, ◌≤◌, ◌<◌, Bool, true, false, List, [], ◌∷◌, some, length, ◌==◌, ne→==, ==_refl, ==_iff,
  Bool-cases, inl, inr, ◌≡◌, ◌≢◌, refl, sym, ap, subst, ◌∙◌, arith,
}
use libnc.Memory.{Addr, null}
use libnc.Rbtree.Store.{
  pos, Side, left, right, Node, Tree, done, Cmd, ◌>>=◌, ◌>>◌, update, set_root, set_child,
  set_parent, red, black, with_child, tree,
}
use libnc.Rbtree.Shape.{
  Label, Shape, nil, fork, mk, Crumb, plug, items, item, count, count_way, count-plug, here_eq,
  here_ne,
}
use libnc.Rbtree.Stands.{
  node_of, color_of, paint, put, put_at, put_apart, ptr, above, Stands-frame, Around-frame,
  load_lem, update_lem, with_child-near,
}
use libnc.Rbtree.Focus.{
  Zipper, Turned, Turned-trans, paint-Turned, IsDark, Turned-IsDark, root_red, zoom_out,
}
use libnc.Rbtree.Relink.{then_lem, else_lem}
use libnc.Rbtree.Turn.{crumb}
use libnc.Rbtree.Colors.{
  RedBlack, leaf, red_node, black_node, unplug-RedBlack, Unplugged, blacken-RedBlack,
}
use libnc.Rbtree.Fixup.{insert_fixup-Rebalances}
use libnc.Rbtree.Order.{Item, IsSorted, insert_item, insert_item-IsSorted, items-grow}
use libnc.Rbtree.Descent.{height, descend-Place}
use libnc.Rbtree.Links.{node_init}
use libnc.Rbtree.{init, descend, insert_fixup, insert}
use libnc.Rbtree.Invariant.{IsRedBlack, Holds}
use libnc.Rbtree.Insertion.Leaf.{one, four, leaf_label, four_at, four_apart, four_run}
use libnc.Rbtree.Insertion.Hanging.{
  Inserted, blacken, insert_first, hung, hung_same, hung_run, hung-Zipper,
}

whole-Zipper :
    (z top : Addr) (t : Tree) (s : Shape) (c : List Crumb)
    → Zipper z top t s c
    → Zipper z top t (plug s c) []
whole-Zipper z top t s [] zip = zip
whole-Zipper z top t s (k ∷ c) zip =
    whole-Zipper z top t (mk k.side s k.label k.far) c (zoom_out s k c zip)

-- The loop and the last statement, from a new red leaf.
rebalanced :
    (z top : Addr) (fuel : ℕ) (x : Label) (c : List Crumb) (t : Tree)
    → length c < fuel
    → Zipper z top t (fork nil x nil) c
    → IsDark z t
    → x.red ≡ true
    → Unplugged nil c
    → (t' : Tree) × (w : Shape) × ((insert_fixup fuel x.addr >> (tree >>= λ t'. black t'.root)) t
        ≡ done tt t')
      × Turned z top (plug (fork nil x nil) c) w [] t t'
      × IsRedBlack w
rebalanced z top fuel x c t le zip dark is (h, v, way, calm) =
    let whole : Shape = plug (fork nil x nil) c in
    let (t2, run, fixed) =
      insert_fixup-Rebalances z top fuel left nil x nil c h t le zip dark is
        (red_node x is refl refl v v) way in
    let one : 1 ≤ count x.addr fixed.shape = omega (
      arith,
      fixed.turned.kept x.addr,
      count-plug x.addr (fork nil x nil) c,
      here_eq x.addr x.addr refl,
    ) in
    let (t3, w, last, turned, colors) =
      blacken z top fixed.shape x.addr fixed.height t2 fixed.turned.zipper one fixed.colors in
    (t3, w, rw run last, Turned-trans fixed.turned turned, colors)

module _ (z : Addr) (t : Tree) (p : Addr) (n : Node) (fuel : ℕ) (at : t.node p ≡ some n)
    (ne : p ≢ z) (l : Shape) (x : Label) (r : Shape) where
  insert_later :
      (holds : Holds z t (fork l x r))
      → count p (fork l x r) ≡ 0
      → height (fork l x r) < fuel
      → (t' : Tree) × (insert fuel p t ≡ done tt t')
        × Inserted z t (fork l x r) (p, n.key, n.content) t'
  unfolding insert
  insert_later holds new le =
      let s : Shape = fork l x r in
      let top : Addr = holds.top in
      let zip = holds.zipper in
      let leaf_x : Label = leaf_label t p n z z true in
      let (place, walk) = descend-Place z top leaf_x t fuel l x r [] (omega arith) zip in
      let q : Label = place.node in
      let k : Crumb = crumb place.side q place.sibling in
      let way : List Crumb = k ∷ place.way in
      let counts : (a : Addr) → count_way a way ≡ count a s =
        λ a. omega (arith, count-plug a nil way, ap (count a) place.whole) in
      let new' : count_way p way ≡ 0 = counts p ∙ new in
      let t1 : Tree =
        hung z top t p n place.side q place.sibling place.way at ne place.zipper new' in
      let zip1 =
        hung-Zipper z top t p n place.side q place.sibling place.way at ne place.zipper new' in
      let q_ne_z : q.addr ≢ z = place.zipper.around.1 in
      let out =
        hung_same z top t p n place.side q place.sibling place.way at ne place.zipper new' in
      let dark1 : IsDark z t1 = record {
        node = holds.dark.node;
        stands = out z ne q_ne_z ∙ holds.dark.stands;
        color = holds.dark.color;
      } in
      let (t3, w, run, turned, colors) =
        rebalanced z top fuel leaf_x way t1 (omega (arith, place.short)) zip1 dark1 refl (
          unplug-RedBlack nil way
            (subst (λ w. RedBlack w holds.colors.height) (sym place.whole) holds.colors.colors)
            (ap root_red place.whole ∙ holds.colors.root_black)) in
      let items_w : items w ≡ insert_item (item leaf_x) (items s) =
        turned.items ∙ ap items place.grown ∙ items-grow s leaf_x holds.sorted in
      (
        t3,
        else_lem (t.root == t.sentinel) _ _ t
              (ne→== _ _ (λ e. zip.stands.1 (sym zip.root ∙ e ∙ zip.sentinel)))
            ∙ rw (load_lem t p n at) (
                rw (ap (λ a. descend fuel n.key a t) zip.root ∙ walk) (
                  hung_run z top t p n place.side q place.sibling place.way at ne place.zipper new'
                    _
                  ∙ run)),
        record {
          shape = w;
          holds = record {
            top = top;
            zipper = turned.zipper;
            dark =
                Turned-IsDark (whole-Zipper z top t1 (fork nil leaf_x nil) way zip1) turned dark1;
            colors = colors;
            sorted =
                subst IsSorted (sym items_w)
                  (insert_item-IsSorted (item leaf_x) (items s) holds.sorted);
          };
          items = items_w;
          same = λ a nep h.
              turned.same a (
                omega (arith, count-plug a (fork nil leaf_x nil) way, here_ne a p nep, counts a, h))
              ∙ out a nep (λ e. absurd (omega (arith, counts a, h, here_eq a q.addr e)));
        },
      )

-- nc_rbtree_insert of a node that is not in the tree, with more fuel than the tree is high, ends
-- and runs into nothing undefined. A red-black tree in sorted order becomes a red-black tree in
-- sorted order: its items are those before, with the new one in front of the first with a greater
-- key. The links of the nodes to children and parents are those of that tree, its sentinel is
-- still black, and no node but those of the tree and the new one has changed.
pub insert-Inserted :
    (z : Addr) (t : Tree) (s : Shape) (p : Addr) (n : Node) (fuel : ℕ)
    → Holds z t s
    → t.node p ≡ some n
    → p ≢ z
    → count p s ≡ 0
    → height s < fuel
    → (t' : Tree) × (insert fuel p t ≡ done tt t') × Inserted z t s (p, n.key, n.content) t'
insert-Inserted z t nil p n fuel holds at ne new le = insert_first z t p n fuel at ne holds
insert-Inserted z t (fork l x r) p n fuel holds at ne new le =
    insert_later z t p n fuel at ne l x r holds new le

-- nc_rbtree_init of a node makes it the black sentinel of an empty red-black tree, and changes no
-- other node.
pub init-Holds :
    (t : Tree) (p : Addr) (n : Node)
    → t.node p ≡ some n
    → (t' : Tree) × (init p t ≡ done tt t')
      × Holds p t' nil
      × ((a : Addr) → p ≢ a → t'.node a ≡ t.node a)
unfolding init node_init
init-Holds t p n at =
    let n1 : Node = record n {
      left = null;
      right = null;
      parent = null;
      key = pos 0;
      content = null;
    } in
    let n2 : Node = record n1 { color = 0 } in
    let t1 : Tree = record t { node = put p n1 t.node } in
    let t2 : Tree = record t1 { node = put p n2 t1.node; root = p; sentinel = p } in
    (
      t2,
      rw
          (update_lem t p n
            (λ n. record n {
              left = null;
              right = null;
              parent = null;
              key = pos 0;
              content = null;
            })
            at)
          (rw (update_lem t1 p n1 (λ n. record n { color = 0 }) (put_at p n1 t.node)) refl),
      record {
        top = null;
        zipper = record {
          sentinel = refl;
          root = refl;
          stands = tt;
          around = tt;
          once = λ a. omega arith;
        };
        dark = record { node = n2; stands = put_at p n2 t1.node; color = refl };
        colors = record { height = 0; colors = leaf 0 refl; root_black = refl };
        sorted = tt;
      },
      λ a ne. put_apart p a n2 t1.node ne ∙ put_apart p a n1 t.node ne,
    )
