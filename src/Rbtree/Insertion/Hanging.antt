-- ===== src/Rbtree/Insertion/Hanging.antt =====
-- nc_rbtree_insert hangs a node into a tree, also into an empty one.
use libnc.Prelude.{
  ℕ, ◌+◌, ◌≤◌, true, false, List, [], ◌∷◌, some, ◌==◌, ==_refl, ==_iff, Bool-cases, inl, inr, ◌≡◌,
  ◌≢◌, refl, sym, ap, ◌∙◌, arith,
}
use libnc.Memory.{Addr, null}
use libnc.Rbtree.Store.{
  Side, left, right, Node, Tree, done, Cmd, ◌>>◌, set_root, set_child, set_parent, red, black,
  with_child,
}
use libnc.Rbtree.Shape.{Label, Shape, nil, fork, Crumb, items, count, count_way, here_eq, here_ne}
use libnc.Rbtree.Stands.{
  node_of, paint, put, put_at, put_apart, ptr, above, Stands-frame, Around-frame, update_lem,
  with_child-near,
}
use libnc.Rbtree.Focus.{Zipper, Turned, paint-Turned, IsDark}
use libnc.Rbtree.Relink.{then_lem}
use libnc.Rbtree.Turn.{crumb}
use libnc.Rbtree.Colors.{RedBlack, leaf, black_node, blacken-RedBlack}
use libnc.Rbtree.Order.{Item, insert_item}
use libnc.Rbtree.{insert}
use libnc.Rbtree.Invariant.{IsRedBlack, Holds}
use libnc.Rbtree.Insertion.Leaf.{one, four, leaf_label, four_at, four_apart, four_run}

-- What an insertion of the item x leaves of the tree s.
pub record Inserted (z : Addr) (t : Tree) (s : Shape) (x : Item) (t' : Tree) : Type 0 where
  pub shape : Shape
  pub holds : Holds z t' shape
  pub items : items shape ≡ insert_item x (items s)
  pub same : (a : Addr) → x.0 ≢ a → count a s ≡ 0 → t'.node a ≡ t.node a

-- The root becomes black.
pub blacken :
    (z top : Addr) (s : Shape) (p h : ℕ) (t : Tree)
    → Zipper z top t s []
    → 1 ≤ count p s
    → RedBlack s h
    → (t' : Tree) × (s' : Shape) × (black t.root t ≡ done tt t')
      × Turned z top s s' [] t t'
      × IsRedBlack s'
blacken z top nil p h t zip one v = absurd (omega arith)
blacken z top (fork l x r) p h t zip one v =
    let (t', run, turned) = paint-Turned false left l x r [] t zip in
    let (h', v') = blacken-RedBlack {x' = paint false x} refl v in
    (
      t',
      fork l (paint false x) r,
      ap (λ p. black p t) zip.root ∙ run,
      turned,
      record { height = h'; colors = v'; root_black = refl },
    )

module _ (z : Addr) (t : Tree) (p : Addr) (n : Node) (fuel : ℕ) (at : t.node p ≡ some n)
    (ne : p ≢ z) where
  abbrev new_item : Item
  new_item = (p, n.key, n.content)

  pub insert_first :
      Holds z t nil → (t' : Tree) × (insert fuel p t ≡ done tt t') × Inserted z t nil new_item t'
  unfolding insert insert_item
  insert_first holds =
      let zip = holds.zipper in
      let t4 : Tree = four t p n t.sentinel null false in
      let t' : Tree = record t4 { root = p } in
      let x : Label = leaf_label t p n t.sentinel null false in
      let dark : IsDark z t' = record {
        node = holds.dark.node;
        stands = four_apart t p n t.sentinel null false z ne ∙ holds.dark.stands;
        color = holds.dark.color;
      } in
      (
        t',
        then_lem (t.root == t.sentinel) _ _ t
              (ap (λ a. a == t.sentinel) (zip.root ∙ sym zip.sentinel) ∙ ==_refl t.sentinel)
            ∙ four_run t p n t.sentinel null false (set_root p) at,
        record {
          shape = fork nil x nil;
          holds = record {
            top = null;
            zipper = record {
              sentinel = zip.sentinel;
              root = refl;
              stands = (
                four_at t p n t.sentinel null false
                    ∙ ap (λ a. some (node_of left a a null x)) zip.sentinel,
                ne,
                tt,
                tt,
              );
              around = tt;
              once = λ a. ground arith;
            };
            dark = dark;
            colors = record {
              height = 1;
              colors = black_node x 0 refl refl (leaf 0 refl) (leaf 0 refl);
              root_black = refl;
            };
            sorted = (tt, tt);
          };
          items = refl;
          same = λ a ne' h. four_apart t p n t.sentinel null false a ne';
        },
      )

-- A new red leaf at an empty place.
module _ (z top : Addr) (t : Tree) (p : Addr) (n : Node) (s : Side) (q : Label) (sib : Shape)
    (way : List Crumb) (at : t.node p ≡ some n) (ne : p ≢ z)
    (zip : Zipper z top t nil (crumb s q sib ∷ way))
    (new : count_way p (crumb s q sib ∷ way) ≡ 0) where
  above_node : Node
  above_node = node_of s z (ptr z sib) (above top way) q

  linked : Tree
  unfolding above_node
  linked = record t { node = put q.addr (with_child s p above_node) t.node }

  pub hung : Tree
  unfolding linked
  hung = four linked p n t.sentinel q.addr true

  new_apart : (a : Addr) → 1 ≤ count_way a (crumb s q sib ∷ way) → p ≢ a
  new_apart a h e = absurd (omega (arith, h, ap (λ p. count_way p (crumb s q sib ∷ way)) e, new))

  q_apart : (a : Addr) → 1 ≤ count a sib + count_way a way → q.addr ≢ a
  q_apart a h e = absurd (omega (arith, h, zip.once a, here_eq a q.addr e))

  pub hung_same : (a : Addr) → p ≢ a → q.addr ≢ a → hung.node a ≡ t.node a
  unfolding hung linked
  hung_same a nep neq =
      four_apart linked p n t.sentinel q.addr true a nep ∙ put_apart q.addr a _ t.node neq

  link_run : set_child s q.addr p t ≡ done tt linked
  unfolding linked above_node
  link_run = update_lem t q.addr _ (with_child s p) zip.around.0

  pub hung_run :
      {A : Type 0} (k : Cmd A)
      → (set_child s q.addr p
            >> (set_parent p q.addr
                >> (set_child left p t.sentinel >> (set_child right p t.sentinel >> (red p >> k)))))
          t
        ≡ k hung
  unfolding hung linked
  hung_run k = rw link_run (
      four_run linked p n t.sentinel q.addr true k (
        put_apart q.addr p _ t.node
          (λ e. new_apart q.addr (omega (arith, here_eq q.addr q.addr refl)) (sym e))
        ∙ at))

  abbrev new_leaf : Label
  new_leaf = leaf_label t p n z q.addr true

  hung_once : (a : Addr) → count a (fork nil new_leaf nil) + count_way a (crumb s q sib ∷ way) ≤ 1
  hung_once a = elim (Bool-cases (a == p)) [
    | inl e ↦
        let a≡p : a ≡ p = (==_iff a p).0 e in
        let none_here = ap (λ a. count_way a (crumb s q sib ∷ way)) a≡p ∙ new in
        omega (arith, none_here, here_eq a p (sym a≡p))
    | inr e ↦ omega (arith, zip.once a, here_ne a p (λ eq. absurd (cc (==_refl a, eq))))
  ]

  pub hung-Zipper : Zipper z top hung (fork nil new_leaf nil) (crumb s q sib ∷ way)
  unfolding hung linked above_node
  hung-Zipper = record {
    sentinel = zip.sentinel;
    root = zip.root;
    stands = (
      four_at linked p n t.sentinel q.addr true
          ∙ ap (λ a. some (node_of left a a q.addr new_leaf)) zip.sentinel,
      ne,
      tt,
      tt,
    );
    around = (
      four_apart linked p n t.sentinel q.addr true q.addr
            (new_apart q.addr (omega (arith, here_eq q.addr q.addr refl)))
          ∙ put_at q.addr _ t.node
          ∙ ap some (with_child-near s z p (ptr z sib) (above top way) q),
      zip.around.1,
      Stands-frame z t.node hung.node q.addr sib
          (λ a h. hung_same a (new_apart a (omega arith)) (q_apart a (omega arith))) zip.around.2,
      Around-frame z t.node hung.node top q.addr way
          (λ a h. hung_same a (new_apart a (omega arith)) (q_apart a (omega arith))) zip.around.3,
    );
    once = hung_once;
  }
