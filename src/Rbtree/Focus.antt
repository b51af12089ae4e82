-- ===== src/Rbtree/Focus.antt =====
-- A tree of src/nc_rbtree.h in the store, seen from one of its places, and changes of its nodes.
use libnc.Prelude.{
  ◌+◌, ◌≤◌, Bool, true, false, List, [], ◌∷◌, some, ◌==◌, if◌then◌else◌, ◌≡◌, refl, sym, ap, subst,
  ◌∙◌, arith,
}
use libnc.Memory.{Addr}
use libnc.Rbtree.Store.{Side, Node, Tree, done, update, is_red}
use libnc.Rbtree.Shape.{
  Label, Shape, nil, fork, mk, Crumb, items, here_eq, here_ne, count, count_way, count-mk, items-mk,
}
use libnc.Rbtree.Stands.{
  node_of, color_of, paint, with_color, Nodes, put, put_at, put_apart, ptr, Stands, above, Around,
  root_of, Stands-mk, Stands-parts, ptr-mk, Stands-frame, Around-frame, load_lem, update_lem,
}

-- The tree of a store, seen from one of its places: the subtree there, and the way to it. No
-- address stands in it twice.
pub record Zipper (z top : Addr) (t : Tree) (s : Shape) (c : List Crumb) : Type 0 where
  pub sentinel : t.sentinel ≡ z
  pub root : t.root ≡ root_of (ptr z s) c
  pub stands : Stands z t.node (above top c) s
  pub around : Around z t.node top (ptr z s) c
  pub once : (a : Addr) → count a s + count_way a c ≤ 1

-- The tree after a change at a place that kept the nodes of the tree in order, and the nodes that
-- are not in it.
pub record Turned (z top : Addr) (s s' : Shape) (c : List Crumb) (t t' : Tree) : Type 0 where
  pub zipper : Zipper z top t' s' c
  pub items : items s' ≡ items s
  pub kept : (a : Addr) → count a s' ≡ count a s
  pub same : (a : Addr) → count a s + count_way a c ≡ 0 → t'.node a ≡ t.node a

module _ {z top : Addr} where
  pub Turned-trans :
      {s s' s'' : Shape} {c : List Crumb} {t t' t'' : Tree}
      → Turned z top s s' c t t'
      → Turned z top s' s'' c t' t''
      → Turned z top s s'' c t t''
  Turned-trans p q = record {
    zipper = q.zipper;
    items = q.items ∙ p.items;
    kept = λ a. q.kept a ∙ p.kept a;
    same = λ a h. q.same a (omega (arith, h, p.kept a)) ∙ p.same a h;
  }

  -- From a place to the one above it, and back.
  pub zoom_out :
      {t : Tree} (s : Shape) (k : Crumb) (c : List Crumb)
      → Zipper z top t s (k ∷ c)
      → Zipper z top t (mk k.side s k.label k.far) c
  zoom_out {t} s k c zip = record {
    sentinel = zip.sentinel;
    root = zip.root ∙ ap (λ p. root_of p c) (sym (ptr-mk z k.side s k.label k.far));
    stands =
        Stands-mk z t.node (above top c) k.side s k.label k.far zip.around.0 zip.around.1 zip.stands
          zip.around.2;
    around =
        subst (λ p. Around z t.node top p c) (sym (ptr-mk z k.side s k.label k.far)) zip.around.3;
    once = λ a. omega (arith, zip.once a, count-mk a k.side s k.label k.far);
  }

  pub zoom_in :
      {t : Tree} (s : Shape) (k : Crumb) (c : List Crumb)
      → Zipper z top t (mk k.side s k.label k.far) c
      → Zipper z top t s (k ∷ c)
  zoom_in {t} s k c zip =
      let (at, ne, near, far) =
        Stands-parts z t.node (above top c) k.side s k.label k.far zip.stands in
      record {
        sentinel = zip.sentinel;
        root = zip.root ∙ ap (λ p. root_of p c) (ptr-mk z k.side s k.label k.far);
        stands = near;
        around = (
          at,
          ne,
          far,
          subst (λ p. Around z t.node top p c) (ptr-mk z k.side s k.label k.far) zip.around,
        );
        once = λ a. omega (arith, zip.once a, count-mk a k.side s k.label k.far);
      }

  pub Turned-out :
      {t t' : Tree} (s s' : Shape) (k : Crumb) (c : List Crumb)
      → Turned z top s s' (k ∷ c) t t'
      → Turned z top (mk k.side s k.label k.far) (mk k.side s' k.label k.far) c t t'
  Turned-out s s' k c p = record {
    zipper = zoom_out s' k c p.zipper;
    items = items-mk k.side s' s k.label k.label k.far k.far p.items refl refl;
    kept = λ a.
        omega
          (arith, p.kept a, count-mk a k.side s k.label k.far, count-mk a k.side s' k.label k.far);
    same = λ a h. p.same a (omega (arith, h, count-mk a k.side s k.label k.far));
  }

  -- A node of the tree gets a color.
  pub paint-Turned :
      (b : Bool) (s : Side) (l : Shape) (x : Label) (r : Shape) (c : List Crumb) (t : Tree)
      → Zipper z top t (mk s l x r) c
      → (t' : Tree) × (update x.addr (λ n. record n { color = color_of b }) t ≡ done tt t')
        × Turned z top (mk s l x r) (mk s l (paint b x) r) c t t'
  paint-Turned b s l x r c t zip =
      let up : Addr = above top c in
      let (at, ne, near, far) = Stands-parts z t.node up s l x r zip.stands in
      let n : Node = node_of s (ptr z l) (ptr z r) up (paint b x) in
      let f : Nodes = put x.addr n t.node in
      let off : (a : Addr) → 1 ≤ count a l + count a r + count_way a c → f a ≡ t.node a = λ a h.
        put_apart x.addr a n t.node
          (λ e. absurd (omega (arith, h, zip.once a, count-mk a s l x r, here_eq a x.addr e))) in
      let same_ptr : ptr z (mk s l x r) ≡ ptr z (mk s l (paint b x) r) =
        ptr-mk z s l x r ∙ sym (ptr-mk z s l (paint b x) r) in
      (
        record t { node = f },
        update_lem t x.addr _ (λ n. record n { color = color_of b }) at
            ∙ ap (λ n. done tt (record t { node = put x.addr n t.node }))
                (with_color s (ptr z l) (ptr z r) up x b),
        record {
          zipper = record {
            sentinel = zip.sentinel;
            root = zip.root ∙ ap (λ p. root_of p c) same_ptr;
            stands =
                Stands-mk z f up s l (paint b x) r (put_at x.addr n t.node) ne
                  (Stands-frame z t.node f x.addr l (λ a h. off a (omega arith)) near)
                  (Stands-frame z t.node f x.addr r (λ a h. off a (omega arith)) far);
            around =
                subst (λ p. Around z f top p c) same_ptr
                  (Around-frame z t.node f top (ptr z (mk s l x r)) c (λ a h. off a (omega arith))
                    zip.around);
            once = λ a. omega (arith, zip.once a, count-mk a s l x r, count-mk a s l (paint b x) r);
          };
          items = items-mk s l l (paint b x) x r r refl refl refl;
          kept = λ a. omega (arith, count-mk a s l x r, count-mk a s l (paint b x) r);
          same = λ a h.
              put_apart x.addr a n t.node
                (λ e. absurd (omega (arith, h, count-mk a s l x r, here_eq a x.addr e)));
        },
      )

-- The sentinel stands, and is black.
pub record IsDark (z : Addr) (t : Tree) : Type 0 where
  pub node : Node
  pub stands : t.node z ≡ some node
  pub color : node.color ≡ 0

pub Stands-sentinel :
    (z : Addr) (f : Nodes) (up : Addr) (s : Shape) → Stands z f up s → count z s ≡ 0
Stands-sentinel z f up nil s = refl
Stands-sentinel z f up (fork l x r) s = omega (
  arith,
  here_ne z x.addr s.1,
  Stands-sentinel z f x.addr l s.2,
  Stands-sentinel z f x.addr r s.3,
)

pub Around-sentinel :
    (z : Addr) (f : Nodes) (top hole : Addr) (c : List Crumb)
    → Around z f top hole c
    → count_way z c ≡ 0
Around-sentinel z f top hole [] s = refl
Around-sentinel z f top hole (k ∷ c) s = omega (
  arith,
  here_ne z k.label.addr s.1,
  Stands-sentinel z f k.label.addr k.far s.2,
  Around-sentinel z f top k.label.addr c s.3,
)

abbrev pub root_red : Shape → Bool
root_red nil = false
root_red (fork l x r) = x.red

color_test : (b : Bool) → (if color_of b == 0 then false else true) ≡ b
color_test true = refl
color_test false = refl

pub is_red_lem :
    (z : Addr) (t : Tree) (up : Addr) (s : Shape)
    → IsDark z t
    → Stands z t.node up s
    → is_red (ptr z s) t ≡ done (root_red s) t
is_red_lem z t up nil dark stands =
    rw (load_lem t z dark.node dark.stands)
      (ap (λ n. done (if n == 0 then false else true) t) dark.color)
is_red_lem z t up (fork l x r) dark stands =
    rw (load_lem t x.addr _ stands.0) (ap (λ b. done b t) (color_test x.red))

module _ {z top : Addr} where
  pub Turned-IsDark :
      {s s' : Shape} {c : List Crumb} {t t' : Tree}
      → Zipper z top t s c
      → Turned z top s s' c t t'
      → IsDark z t
      → IsDark z t'
  Turned-IsDark {s} {c = c} {t} zip p dark = record {
    node = dark.node;
    stands =
        p.same z (
          omega (
            arith,
            Stands-sentinel z t.node (above top c) s zip.stands,
            Around-sentinel z t.node top (ptr z s) c zip.around,
          ))
        ∙ dark.stands;
    color = dark.color;
  }
