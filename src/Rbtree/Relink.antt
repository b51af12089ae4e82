-- ===== src/Rbtree/Relink.antt =====
-- What the rotations and the deletion of src/nc_rbtree.c write: the link of a parent, and the
-- parent of a subtree.
use libnc.Prelude.{
  ◌+◌, ◌≤◌, Bool, true, false, List, [], ◌∷◌, some, ◌==◌, ne→==, if◌then◌else◌, ◌≡◌, ◌≢◌, refl, ap,
  ◌∙◌, arith,
}
use libnc.Memory.{Addr}
use libnc.Rbtree.Store.{
  Side, left, right, other, Node, Tree, done, Cmd, pure, child_of, child, with_child, set_child,
  parent, set_parent,
}
use libnc.Rbtree.Links.{replace_child}
use libnc.Rbtree.Shape.{Label, Shape, nil, fork, Crumb, here_eq, count, count_way}
use libnc.Rbtree.Stands.{
  node_of, Nodes, put, ptr, Stands, above, Around, root_of, Stands-frame, Around-frame, ptr_apart,
  root_of-count, load_lem, update_lem, put_at, put_apart, with_child-near,
}

pub then_lem :
    {A : Type 0} (b : Bool) (x y : Cmd A) (t : Tree) → b ≡ true → (if b then x else y) t ≡ x t
then_lem b x y t is = ap (λ b. (if b then x else y) t) is

pub else_lem :
    {A : Type 0} (b : Bool) (x y : Cmd A) (t : Tree) → b ≡ false → (if b then x else y) t ≡ y t
else_lem b x y t is = ap (λ b. (if b then x else y) t) is

pub child_lem :
    (t : Tree) (s : Side) (p : Addr) (n : Node)
    → t.node p ≡ some n
    → child s p t ≡ done (child_of s n) t
child_lem t s p n at = rw (load_lem t p n at) refl

pub parent_lem : (t : Tree) (p : Addr) (n : Node) → t.node p ≡ some n → parent p t ≡ done n.parent t
parent_lem t p n at = rw (load_lem t p n at) refl

-- The link that the test of replace_child finds.
choose_side :
    (s side : Side) (x y far up p : Addr) (l : Label) (t : Tree)
    → far ≢ x
    → (if x == child_of s (node_of side x far up l)
          then set_child s p y
          else set_child (other s) p y)
        t
      ≡ set_child side p y t
choose_side left left x y far up p l t ne = then_lem (x == x) _ _ t (ground arith)
choose_side left right x y far up p l t ne = else_lem (x == far) _ _ t (ground arith)
choose_side right left x y far up p l t ne = else_lem (x == far) _ _ t (ground arith)
choose_side right right x y far up p l t ne = then_lem (x == x) _ _ t (ground arith)

-- A tree where the end of a way links to y, and no node but those of the way has changed.
pub record Relinked (z top y : Addr) (c : List Crumb) (t t' : Tree) : Type 0 where
  pub sentinel : t'.sentinel ≡ t.sentinel
  pub root : t'.root ≡ root_of y c
  pub around : Around z t'.node top y c
  pub same : (a : Addr) → count_way a c ≡ 0 → t'.node a ≡ t.node a

pub replace_child-Relinked :
    (z top : Addr) (s : Side) (x y : Addr) (n : Node) (c : List Crumb) (t : Tree)
    → x ≢ z
    → t.node x ≡ some n
    → n.parent ≡ above top c
    → Around z t.node top x c
    → t.root ≡ root_of x c
    → ((a : Addr) → count_way a c ≤ 1)
    → count_way x c ≡ 0
    → (t' : Tree) × (replace_child s x y t ≡ done tt t') × Relinked z top y c t t'
unfolding replace_child
replace_child-Relinked z top s x y n [] t ne at up around root once out = (
  record t { root = y },
  then_lem (x == t.root) _ _ t (ground arith),
  record { sentinel = refl; root = refl; around = tt; same = λ a h. refl },
)
replace_child-Relinked z top s x y n (k ∷ c) t ne at up around root once out =
    let m : Node = node_of k.side x (ptr z k.far) (above top c) k.label in
    let f : Nodes = put k.label.addr (with_child k.side y m) t.node in
    let apart : x ≢ t.root = λ e.
      absurd (omega (arith, root_of-count x k c, ap (λ a. count_way a (k ∷ c)) (e ∙ root), out)) in
    let up' : parent x t ≡ done k.label.addr t = parent_lem t x n at ∙ ap (λ p. done p t) up in
    (
      record t { node = f },
      else_lem (x == t.root) _ _ t (ne→== x t.root apart)
          ∙ rw up' (
              rw (child_lem t s k.label.addr m around.0) (
                choose_side s k.side x y (ptr z k.far) (above top c) k.label.addr k.label t
                  (ptr_apart z t.node k.label.addr k.far x ne (omega arith))
                ∙ update_lem t k.label.addr m (with_child k.side y) around.0)),
      record {
        sentinel = refl;
        root = root;
        around = (
          put_at k.label.addr _ t.node
              ∙ ap some (with_child-near k.side x y (ptr z k.far) (above top c) k.label),
          around.1,
          Stands-frame z t.node f k.label.addr k.far
              (λ a h.
                put_apart k.label.addr a _ t.node
                  (λ e. absurd (omega (arith, once a, here_eq a k.label.addr e))))
              around.2,
          Around-frame z t.node f top k.label.addr c
              (λ a h.
                put_apart k.label.addr a _ t.node
                  (λ e. absurd (omega (arith, once a, here_eq a k.label.addr e))))
              around.3,
        );
        same = λ a h.
            put_apart k.label.addr a _ t.node
              (λ e. absurd (omega (arith, h, here_eq a k.label.addr e)));
      },
    )

-- The new parent of a subtree that is not the sentinel.
pub adopt_lem :
    (z : Addr) (t : Tree) (p q : Addr) (s : Shape)
    → t.sentinel ≡ z
    → Stands z t.node p s
    → ((a : Addr) → count a s ≤ 1)
    → (f : Nodes) × ((if ptr z s == t.sentinel then pure tt else set_parent (ptr z s) q) t
        ≡ done tt (record t { node = f }))
      × Stands z f q s
      × ((a : Addr) → count a s ≡ 0 → f a ≡ t.node a)
adopt_lem z t p q nil is stands once =
    (t.node, then_lem (z == t.sentinel) _ _ t (ground arith), tt, λ a h. refl)
adopt_lem z t p q (fork l x r) is stands once =
    let n : Node = node_of left (ptr z l) (ptr z r) q x in
    let f : Nodes = put x.addr n t.node in
    let kept : (a : Addr) → 1 ≤ count a l + count a r → f a ≡ t.node a = λ a h.
      put_apart x.addr a n t.node (λ e. absurd (omega (arith, once a, here_eq a x.addr e))) in
    (
      f,
      else_lem (x.addr == t.sentinel) _ _ t (ne→== _ _ (λ e. stands.1 (e ∙ is)))
          ∙ update_lem t x.addr _ _ stands.0,
      (
        put_at x.addr n t.node,
        stands.1,
        Stands-frame z t.node f x.addr l (λ a h. kept a (omega arith)) stands.2,
        Stands-frame z t.node f x.addr r (λ a h. kept a (omega arith)) stands.3,
      ),
      λ a h. put_apart x.addr a n t.node (λ e. absurd (omega (arith, h, here_eq a x.addr e))),
    )
