-- ===== src/Rbtree/Deletion/Takeover.antt =====
-- nc_rbtree_delete of src/nc_rbtree.c puts a node in the place of another.
use libnc.Prelude.{◌+◌, ◌≤◌, List, some, ◌≡◌, ◌≢◌, refl, sym, ap, subst, ◌∙◌, arith}
use libnc.Memory.{Addr}
use libnc.Rbtree.Store.{
  Side, left, right, Node, Tree, done, Cmd, ◌>>=◌, ◌>>◌, load, copy_color, with_child, set_child,
  set_parent, child_of,
}
use libnc.Rbtree.Links.{replace_child}
use libnc.Rbtree.Removal.{adopt}
use libnc.Rbtree.Shape.{Label, Shape, fork, Crumb, here, count, count_way, here_eq}
use libnc.Rbtree.Stands.{
  node_of, color_of, Nodes, put, put_at, put_apart, ptr, Stands, above, Around, root_of,
  Stands-frame, Around-frame, load_lem, update_lem,
}
use libnc.Rbtree.Focus.{Zipper}
use libnc.Rbtree.Relink.{child_lem, adopt_lem, replace_child-Relinked}

-- The statements of take_place after the new parent of temp.
abbrev pub settle : (node subst : Addr) → Cmd (Unit {0})
settle node subst = do
  n ← load node
  set_child left subst n.left
  set_child right subst n.right
  set_parent subst n.parent
  copy_color subst node
  replace_child left node subst
  adopt left subst
  adopt right subst

-- The node x stands at a place, and the node y with the links a, b and u at none; the right
-- subtree of x may have any parent q.
module _ (z top : Addr) (t : Tree) (l : Shape) (x : Label) (r : Shape) (c : List Crumb) (y : Label)
    (q a b u : Addr) where
  pub record Free : Type 0 where
    pub sentinel : t.sentinel ≡ z
    pub root : t.root ≡ root_of x.addr c
    pub x_at : t.node x.addr ≡ some (node_of left (ptr z l) (ptr z r) (above top c) x)
    pub x_ne : x.addr ≢ z
    pub y_at : t.node y.addr ≡ some (node_of left a b u y)
    pub y_ne : y.addr ≢ z
    pub l_stands : Stands z t.node x.addr l
    pub r_stands : Stands z t.node q r
    pub around : Around z t.node top x.addr c
    pub once :
        (e : Addr) → here e x.addr + here e y.addr + count e l + count e r + count_way e c ≤ 1

  -- y with the color of x
  abbrev heir : Label
  heir = record y { red = x.red }

  n1 : Node
  n1 = record (node_of left a b u y) { left = ptr z l }

  n2 : Node
  unfolding n1
  n2 = record n1 { right = ptr z r }

  n3 : Node
  unfolding n2
  n3 = record n2 { parent = above top c }

  n4 : Node
  n4 = node_of left (ptr z l) (ptr z r) (above top c) heir

  f1 : Nodes
  f1 = put y.addr n1 t.node

  f2 : Nodes
  f2 = put y.addr n2 f1

  f3 : Nodes
  f3 = put y.addr n3 f2

  copied : Nodes
  copied = put y.addr n4 f3

  copied_apart : (e : Addr) → y.addr ≢ e → copied e ≡ t.node e
  unfolding copied f3 f2 f1
  copied_apart e ne =
      put_apart y.addr e n4 f3 ne
      ∙ put_apart y.addr e n3 f2 ne
      ∙ put_apart y.addr e n2 f1 ne
      ∙ put_apart y.addr e n1 t.node ne

  module _ (free : Free) where
    x_ne_y : x.addr ≢ y.addr
    x_ne_y e =
        absurd
          (omega (arith, free.once y.addr, here_eq y.addr x.addr e, here_eq y.addr y.addr refl))

    y_apart : (e : Addr) → 1 ≤ here e x.addr + count e l + count e r + count_way e c → y.addr ≢ e
    y_apart e h eq = absurd (omega (arith, h, free.once e, here_eq e y.addr eq))

    copied_run :
        (k : Cmd (Unit {0}))
        → (load x.addr >>= λ n.
              set_child left y.addr n.left
              >> (set_child right y.addr n.right
                  >> (set_parent y.addr n.parent >> (copy_color y.addr x.addr >> k))))
            t
          ≡ k (record t { node = copied })
    unfolding copied f3 f2 f1 n1 n2 n3 n4
    copied_run k = rw (load_lem t x.addr _ free.x_at) (
        rw (update_lem t y.addr _ (with_child left (ptr z l)) free.y_at) (
          rw
            (update_lem (record t { node = f1 }) y.addr n1 (with_child right (ptr z r))
              (put_at y.addr n1 t.node))
            (rw
              (update_lem (record t { node = f2 }) y.addr n2
                (λ n. record n { parent = above top c }) (put_at y.addr n2 f1))
              (rw
                (load_lem (record t { node = f3 }) x.addr _
                  (put_apart y.addr x.addr n3 f2 (λ e. x_ne_y (sym e))
                    ∙ put_apart y.addr x.addr n2 f1 (λ e. x_ne_y (sym e))
                    ∙ put_apart y.addr x.addr n1 t.node (λ e. x_ne_y (sym e))
                    ∙ free.x_at))
                (rw
                  (update_lem (record t { node = f3 }) y.addr n3
                    (λ n. record n { color = color_of x.red }) (put_at y.addr n3 f2))
                  refl)))))

    -- What the two adoptions leave, from the nodes g that the new link to y leaves.
    pub record Settled (t' : Tree) : Type 0 where
      pub zipper : Zipper z top t' (fork l heir r) c
      pub same :
          (e : Addr) → y.addr ≢ e → count e l + count e r + count_way e c ≡ 0 → t'.node e ≡ t.node e

    adopt_run :
        (t5 : Tree) (s : Side) (p : Addr) (w : Shape)
        → t5.sentinel ≡ z
        → t5.node y.addr ≡ some n4
        → child_of s n4 ≡ ptr z w
        → Stands z t5.node p w
        → ((e : Addr) → count e w ≤ 1)
        → (f : Nodes) × (adopt s y.addr t5 ≡ done tt (record t5 { node = f }))
          × Stands z f y.addr w
          × ((e : Addr) → count e w ≡ 0 → f e ≡ t5.node e)
    unfolding adopt
    adopt_run t5 s p w is at child_is stands once =
        let (f, run, stands', same) = adopt_lem z t5 p y.addr w is stands once in
        (f, rw (child_lem t5 s y.addr n4 at ∙ ap (λ p. done p t5) child_is) run, stands', same)

    adoptions :
        (t5 : Tree)
        → t5.sentinel ≡ z
        → t5.root ≡ root_of y.addr c
        → Around z t5.node top y.addr c
        → ((e : Addr) → count_way e c ≡ 0 → t5.node e ≡ copied e)
        → (t' : Tree) × ((adopt left y.addr >> adopt right y.addr) t5 ≡ done tt t') × Settled t'
    unfolding copied n4
    adoptions t5 is root around same =
        let old : (e : Addr) → 1 ≤ count e l + count e r → t5.node e ≡ t.node e = λ e h.
          same e (omega (arith, h, free.once e)) ∙ copied_apart e (y_apart e (omega arith)) in
        let at5 : t5.node y.addr ≡ some n4 =
          same y.addr (omega (arith, free.once y.addr, here_eq y.addr y.addr refl))
          ∙ put_at y.addr n4 f3 in
        let (f6, run6, stands6, same6) =
          adopt_run t5 left x.addr l is at5 refl
            (Stands-frame z t.node t5.node x.addr l (λ e h. old e (omega arith)) free.l_stands)
            (λ e. omega (arith, free.once e)) in
        let t6 : Tree = record t5 { node = f6 } in
        let at6 : f6 y.addr ≡ some n4 =
          same6 y.addr (omega (arith, free.once y.addr, here_eq y.addr y.addr refl)) ∙ at5 in
        let (f7, run7, stands7, same7) =
          adopt_run t6 right q r is at6 refl
            (Stands-frame z t.node f6 q r
              (λ e h. same6 e (omega (arith, h, free.once e)) ∙ old e (omega arith)) free.r_stands)
            (λ e. omega (arith, free.once e)) in
        (
          record t6 { node = f7 },
          rw run6 run7,
          record {
            zipper = record {
              sentinel = is;
              root = root;
              stands = (
                same7 y.addr (omega (arith, free.once y.addr, here_eq y.addr y.addr refl)) ∙ at6,
                free.y_ne,
                Stands-frame z f6 f7 y.addr l (λ e h. same7 e (omega (arith, h, free.once e)))
                    stands6,
                stands7,
              );
              around =
                  Around-frame z t5.node f7 top y.addr c
                    (λ e h.
                      same7 e (omega (arith, h, free.once e))
                      ∙ same6 e (omega (arith, h, free.once e)))
                    around;
              once = λ e. omega (arith, free.once e);
            };
            same = λ e ne h.
                same7 e (omega (arith, h))
                ∙ same6 e (omega (arith, h))
                ∙ same e (omega (arith, h))
                ∙ copied_apart e ne;
          },
        )

    pub settle-Settled : (t' : Tree) × (settle x.addr y.addr t ≡ done tt t') × Settled t'
    settle-Settled =
        let t4 : Tree = record t { node = copied } in
        let (t5, replaces, re) =
          replace_child-Relinked z top left x.addr y.addr _ c t4 free.x_ne
            (copied_apart x.addr (λ e. x_ne_y (sym e)) ∙ free.x_at) refl
            (Around-frame z t.node copied top x.addr c
              (λ e h. copied_apart e (y_apart e (omega arith))) free.around)
            free.root (λ e. omega (arith, free.once e))
            (omega (arith, free.once x.addr, here_eq x.addr x.addr refl)) in
        let (t', run, settled) =
          adoptions t5 (re.sentinel ∙ free.sentinel) re.root re.around re.same in
        (
          t',
          copied_run (replace_child left x.addr y.addr >> (adopt left y.addr >> adopt right y.addr))
              ∙ rw replaces run,
          settled,
        )
