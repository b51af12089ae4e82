-- ===== src/Rbtree/Deletion/OneChild.antt =====
-- nc_rbtree_delete of src/nc_rbtree.c, of a node with one child at most.
use mathlib.Core.List.{append-nil}
use libnc.Prelude.{
  ℕ, ◌+◌, ◌<◌, false, List, [], ◌∷◌, ◌++◌, some, ◌==◌, ==_refl, if◌then◌else◌, ◌≡◌, ◌≢◌, refl, sym,
  ap, subst, ◌∙◌, arith,
}
use libnc.Memory.{Addr}
use libnc.Rbtree.Store.{Side, left, right, Node, Tree, done, Cmd, ◌>>◌, is_red, set_root, black}
use libnc.Rbtree.Links.{node_init}
use libnc.Rbtree.Removal.{choose}
use libnc.Rbtree.Shape.{
  Label, Shape, nil, fork, mk, Crumb, plug, items, item, count, count_way, count-mk, count-plug,
  here_eq,
}
use libnc.Rbtree.Stands.{
  paint, put, put_at, put_apart, ptr, Stands-parts, ptr-mk, load_lem, update_lem,
}
use libnc.Rbtree.Focus.{Zipper, paint-Turned, IsDark, Turned-IsDark, root_red, is_red_lem}
use libnc.Rbtree.Relink.{then_lem, else_lem}
use libnc.Rbtree.Colors.{
  RedBlack, leaf, black_parts, root_red-mk, unplug-RedBlack, blacken-RedBlack,
}
use libnc.Rbtree.Order.{IsSorted}
use libnc.Rbtree.Deletion.Mending.{not_at_root}
use libnc.Rbtree.Deletion.Cut.{apart-Zipper, apart-IsDark}
use libnc.Rbtree.Descent.{height}
use libnc.Rbtree.Deletion.Succession.{own_succeeds}
use libnc.Rbtree.Deletion.Leftmost.{choose_one, height-plug}
use libnc.Rbtree.Deletion.Remaining.{Without, plug-Without, IsSorted-without}
use libnc.Rbtree.Deletion.Finish.{Deleted, cleared, finish, finish-Deleted}
use libnc.Rbtree.{delete}

-- The statements where the node that leaves its place is the root.
abbrev pub at_root : (node temp : Addr) → Cmd (Unit {0})
at_root node temp = do set_root temp; black temp; node_init node

pub delete_run :
    (fuel : ℕ) (t : Tree) (p y m : Addr) (n : Node)
    → t.node p ≡ some n
    → choose fuel p n t ≡ done (y, m) t
    → delete fuel p t ≡ (if y == t.root then at_root p m else finish fuel p y m) t
unfolding delete
delete_run fuel t p y m n at run = rw (load_lem t p n at) (rw run refl)

mk-Without :
    (side : Side) (x : Label) (m : Shape) (c : List Crumb)
    → Without (plug (mk side nil x m) c) (plug m c) (item x)
mk-Without left x m c = plug-Without nil x m m c refl
mk-Without right x m c = plug-Without m x nil m c (sym (append-nil (items m)))

-- The root x has no child but m, which becomes the root.
module _ (z top : Addr) (t : Tree) (side : Side) (x : Label) where
  root_left :
      (m : Shape) (t2 : Tree) (n : Node) (h : ℕ)
      → x.addr ≢ z
      → t2.node x.addr ≡ some n
      → Zipper z x.addr t2 m []
      → count x.addr m ≡ 0
      → IsDark z t2
      → RedBlack m h
      → root_red m ≡ false
      → (w : Shape) → items m ≡ items w
      → IsSorted (items (mk side nil x w))
      → ((a : Addr) → a ≢ z → count a (mk side nil x w) ≡ 0 → t2.node a ≡ t.node a)
      → (t' : Tree) × (node_init x.addr t2 ≡ done tt t') × Deleted z t (mk side nil x w) x.addr t'
  unfolding node_init
  root_left m t2 n h ne at zip out dark v is w kept sorted same =
      let gone = mk-Without side x w [] in
      let rest : items m ≡ gone.before ++ gone.after = kept ∙ gone.rest in
      (
        record t2 { node = put x.addr (cleared n) t2.node },
        update_lem t2 x.addr n cleared at,
        record {
          shape = m;
          holds = record {
            top = x.addr;
            zipper = apart-Zipper x.addr (cleared n) zip (omega (arith, out));
            dark = apart-IsDark x.addr (cleared n) ne dark;
            colors = record { height = h; colors = v; root_black = is };
            sorted = subst IsSorted (sym rest) (
                IsSorted-without gone.before (item x) gone.after
                  (subst IsSorted gone.whole sorted));
          };
          item = item x;
          addr = refl;
          without = record {
            before = gone.before;
            after = gone.after;
            whole = gone.whole;
            rest = rest;
          };
          node = cleared n;
          stands = put_at x.addr (cleared n) t2.node;
          left = refl;
          right = refl;
          parent = refl;
          same = λ a nep nez h.
              put_apart x.addr a (cleared n) t2.node (λ e. nep (sym e)) ∙ same a nez h;
        },
      )

  root_leaves :
      (m : Shape) (h : ℕ)
      → Zipper z top t (mk side nil x m) []
      → IsDark z t
      → RedBlack (mk side nil x m) h
      → x.red ≡ false
      → IsSorted (items (mk side nil x m))
      → (t' : Tree) × (at_root x.addr (ptr z m) t ≡ done tt t')
        × Deleted z t (mk side nil x m) x.addr t'
  root_leaves nil h zip dark v is sorted =
      let (at, ne, near, far) = Stands-parts z t.node top side nil x nil zip.stands in
      let n : Node = record dark.node { color = 0 } in
      let t2 : Tree = record t { root = z; node = put z n t.node } in
      let (t', run, deleted) =
        root_left nil t2 _ 0 ne (put_apart z x.addr n t.node (λ e. ne (sym e)) ∙ at)
          (record {
            sentinel = zip.sentinel;
            root = refl;
            stands = tt;
            around = tt;
            once = λ a. omega arith;
          })
          refl (record { node = n; stands = put_at z n t.node; color = refl }) (leaf 0 refl) refl
          nil refl sorted (λ a nez h. put_apart z a n t.node (λ e. nez (sym e))) in
      (
        t',
        rw
            (update_lem (record t { root = z }) z dark.node (λ n. record n { color = 0 })
              dark.stands)
            run,
        deleted,
      )
  root_leaves (fork ml mx mr) h zip dark v is sorted =
      let m : Shape = fork ml mx mr in
      let (at, ne, near, far) = Stands-parts z t.node top side nil x m zip.stands in
      let t1 : Tree = record t { root = mx.addr } in
      let zip1 : Zipper z x.addr t1 m [] = record {
        sentinel = zip.sentinel;
        root = refl;
        stands = far;
        around = tt;
        once = λ a. omega (arith, zip.once a, count-mk a side nil x m);
      } in
      let out : count x.addr m ≡ 0 =
        omega (arith, zip.once x.addr, count-mk x.addr side nil x m, here_eq x.addr x.addr refl) in
      let (t2, run2, p) = paint-Turned false left ml mx mr [] t1 zip1 in
      let dark1 : IsDark z t1 = record {
        node = dark.node;
        stands = dark.stands;
        color = dark.color;
      } in
      let (k, e, vl, vm) = black_parts side nil x m v is in
      let (h', v') = blacken-RedBlack {x' = paint false mx} refl vm in
      let (t', run, deleted) =
        root_left (fork ml (paint false mx) mr) t2 _ h' ne (p.same x.addr (omega (arith, out)) ∙ at)
          p.zipper (p.kept x.addr ∙ out) (Turned-IsDark zip1 p dark1) v' refl m p.items sorted
          (λ a nez h. p.same a (omega (arith, h, count-mk a side nil x m))) in
      (t', rw run2 run, deleted)

-- A node with no child but m.
module _ (z top : Addr) (fuel : ℕ) (t : Tree) (side : Side) (x : Label) (m : Shape) where
  pub one_child-Deleted :
      (c : List Crumb) {h : ℕ}
      → (side ≡ right → ptr z m ≢ z)
      → Zipper z top t (mk side nil x m) c
      → IsDark z t
      → RedBlack (plug (mk side nil x m) c) h
      → root_red (plug (mk side nil x m) c) ≡ false
      → IsSorted (items (plug (mk side nil x m) c))
      → height (plug (mk side nil x m) c) < fuel
      → (t' : Tree) × (delete fuel x.addr t ≡ done tt t')
        × Deleted z t (plug (mk side nil x m) c) x.addr t'
  one_child-Deleted [] {h} ne zip dark v is sorted le =
      let at = (Stands-parts z t.node top side nil x m zip.stands).0 in
      let (t', run, deleted) =
        root_leaves z top t side x m h zip dark v (sym (root_red-mk side nil x m) ∙ is) sorted in
      (
        t',
        delete_run fuel t x.addr x.addr (ptr z m) _ at
              (choose_one z fuel x.addr (ptr z m) top side x t zip.sentinel ne)
            ∙ then_lem (x.addr == t.root) _ _ t
                (ap (λ p. x.addr == p) (zip.root ∙ ptr-mk z side nil x m) ∙ ==_refl x.addr)
            ∙ run,
        deleted,
      )
  one_child-Deleted (k ∷ c) ne zip dark v is sorted le =
      let s : Shape = mk side nil x m in
      let (at, ne_z, near, far) = Stands-parts z t.node k.label.addr side nil x m zip.stands in
      let (h, v', way, calm) = unplug-RedBlack s (k ∷ c) v is in
      let at_s : ptr z s ≡ x.addr = ptr-mk z side nil x m in
      let red_run : is_red x.addr t ≡ done x.red t =
        ap (λ p. is_red p t) (sym at_s)
        ∙ is_red_lem z t k.label.addr s dark zip.stands
        ∙ ap (λ b. done b t) (root_red-mk side nil x m) in
      let one : (a : Addr) → count a (plug s (k ∷ c)) ≡ count a s + count_way a (k ∷ c) =
        λ a. count-plug a s (k ∷ c) in
      let (t', run, deleted) =
        finish-Deleted z top fuel t (plug s (k ∷ c)) x side x m k c h
          (omega (arith, le, height-plug s (k ∷ c))) red_run
          (own_succeeds z top t side x m k c zip dark)
          (λ a. omega (arith, one a, count-mk a side nil x m)) ne_z
          (omega (arith, zip.once x.addr, count-mk x.addr side nil x m, here_eq x.addr x.addr refl))
          (omega (arith, one x.addr, count-mk x.addr side nil x m, here_eq x.addr x.addr refl)) v'
          way (λ e. calm (root_red-mk side nil x m ∙ e)) sorted (mk-Without side x m (k ∷ c)) in
      (
        t',
        delete_run fuel t x.addr x.addr (ptr z m) _ at
              (choose_one z fuel x.addr (ptr z m) k.label.addr side x t zip.sentinel ne)
            ∙ else_lem (x.addr == t.root) _ _ t
                (ap (λ p. p == t.root) (sym at_s) ∙ not_at_root s k c zip)
            ∙ run,
        deleted,
      )
