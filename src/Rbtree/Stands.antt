-- ===== src/Rbtree/Stands.antt =====
-- Trees of src/nc_rbtree.h in the store: a tree under a parent, and the steps of a way around a
-- place.
use libnc.Prelude.{
  ℕ, ◌≤◌, Bool, List, [], ◌∷◌, Option, some, ◌==◌, if◌then◌else◌, ◌≡◌, ◌≢◌, refl, ap, ◌∙◌, arith,
}
use libnc.Memory.{Addr}
use libnc.Rbtree.Store.{
  Side, left, right, other, Node, Tree, done, load, update, of_option, child_of, with_child,
}
use libnc.Rbtree.Shape.{Label, Shape, nil, fork, mk, Crumb, plug, count, count_way}

abbrev pub color_of : Bool → ℕ
color_of b = if b then 1 else 0

-- The node with a label, a child on a side, one on the other side, and a parent.
abbrev pub node_of : Side → (near far up : Addr) → Label → Node
node_of left near far up x = record {
  left = near;
  right = far;
  parent = up;
  key = x.key;
  content = x.content;
  color = color_of x.red;
}
node_of right near far up x = record {
  left = far;
  right = near;
  parent = up;
  key = x.key;
  content = x.content;
  color = color_of x.red;
}

pub child_of-near :
    (s : Side) (near far up : Addr) (x : Label) → child_of s (node_of s near far up x) ≡ near
child_of-near left near far up x = refl
child_of-near right near far up x = refl

pub child_of-far :
    (s : Side) (near far up : Addr) (x : Label) → child_of (other s) (node_of s near far up x) ≡ far
child_of-far left near far up x = refl
child_of-far right near far up x = refl

pub with_child-near :
    (s : Side) (near near' far up : Addr) (x : Label)
    → with_child s near' (node_of s near far up x) ≡ node_of s near' far up x
with_child-near left near near' far up x = refl
with_child-near right near near' far up x = refl

pub with_child-far :
    (s : Side) (near far far' up : Addr) (x : Label)
    → with_child (other s) far' (node_of s near far up x) ≡ node_of s near far' up x
with_child-far left near far far' up x = refl
with_child-far right near far far' up x = refl

pub node_of-parent :
    (s : Side) (near far up : Addr) (x : Label) → (node_of s near far up x).parent ≡ up
node_of-parent left near far up x = refl
node_of-parent right near far up x = refl

pub with_parent :
    (s : Side) (near far up up' : Addr) (x : Label)
    → record (node_of s near far up x) { parent = up' } ≡ node_of s near far up' x
with_parent left near far up up' x = refl
with_parent right near far up up' x = refl

abbrev pub paint : Bool → Label → Label
paint b x = record x { red = b }

pub with_color :
    (s : Side) (near far up : Addr) (x : Label) (b : Bool)
    → record (node_of s near far up x) { color = color_of b } ≡ node_of s near far up (paint b x)
with_color left near far up x b = refl
with_color right near far up x b = refl

pub node_of-color :
    (s : Side) (near far up : Addr) (x : Label) → (node_of s near far up x).color ≡ color_of x.red
node_of-color left near far up x = refl
node_of-color right near far up x = refl

pub node_of-key :
    (s : Side) (near far up : Addr) (x : Label) → (node_of s near far up x).key ≡ x.key
node_of-key left near far up x = refl
node_of-key right near far up x = refl

-- Where a node stands on the other side, as its sibling sees it.
pub node_of-other :
    (s : Side) (near far up : Addr) (x : Label)
    → node_of (other s) near far up x ≡ node_of s far near up x
node_of-other left near far up x = refl
node_of-other right near far up x = refl

abbrev pub Nodes : Type 0
Nodes = Addr → Option Node

abbrev pub put : Addr → Node → Nodes → Nodes
put p n f = λ q. if p == q then some n else f q

-- The parent of the place at the end of a way; `top` is the parent of the root.
abbrev pub above : (top : Addr) → List Crumb → Addr
above top [] = top
above top (k ∷ c) = k.label.addr

-- The root of the tree that a way leads through.
abbrev pub root_of : Addr → List Crumb → Addr
root_of hole [] = hole
root_of hole (k ∷ c) = root_of k.label.addr c

pub root_of-count :
    (hole : Addr) (k : Crumb) (c : List Crumb) → 1 ≤ count_way (root_of hole (k ∷ c)) (k ∷ c)
root_of-count hole k [] = ground arith
root_of-count hole k (j ∷ c) = omega (arith, root_of-count k.label.addr j c)

-- The sentinel stands at z.
module _ (z : Addr) where
  -- What links to a tree.
  abbrev pub ptr : Shape → Addr
  ptr nil = z
  ptr (fork l x r) = x.addr

  -- A tree stands in the store, and `up` is the parent of its root.
  abbrev pub Stands : Nodes → (up : Addr) → Shape → Type 0
  Stands f up nil = Unit {0}
  Stands f up (fork l x r) =
      (f x.addr ≡ some (node_of left (ptr l) (ptr r) up x))
      × (x.addr ≢ z)
      × Stands f x.addr l
      × Stands f x.addr r

  -- The steps of a way stand in the store, and its end links to `hole`.
  abbrev pub Around : Nodes → (top hole : Addr) → List Crumb → Type 0
  Around f top hole [] = Unit {0}
  Around f top hole (k ∷ c) =
      (f k.label.addr ≡ some (node_of k.side hole (ptr k.far) (above top c) k.label))
      × (k.label.addr ≢ z)
      × Stands f k.label.addr k.far
      × Around f top k.label.addr c

  pub Stands-mk :
      (f : Nodes) (up : Addr) (s : Side) (l : Shape) (x : Label) (r : Shape)
      → f x.addr ≡ some (node_of s (ptr l) (ptr r) up x)
      → x.addr ≢ z
      → Stands f x.addr l
      → Stands f x.addr r
      → Stands f up (mk s l x r)
  Stands-mk f up left l x r at ne sl sr = (at, ne, sl, sr)
  Stands-mk f up right l x r at ne sl sr = (at, ne, sr, sl)

  pub Stands-parts :
      (f : Nodes) (up : Addr) (s : Side) (l : Shape) (x : Label) (r : Shape)
      → Stands f up (mk s l x r)
      → (f x.addr ≡ some (node_of s (ptr l) (ptr r) up x))
        × (x.addr ≢ z)
        × Stands f x.addr l
        × Stands f x.addr r
  Stands-parts f up left l x r s = s
  Stands-parts f up right l x r s = (s.0, s.1, s.3, s.2)

  pub ptr-mk : (s : Side) (l : Shape) (x : Label) (r : Shape) → ptr (mk s l x r) ≡ x.addr
  ptr-mk left l x r = refl
  ptr-mk right l x r = refl

  -- A tree still stands where the store is the same at its addresses.
  pub Stands-frame :
      (f g : Nodes) (up : Addr) (s : Shape)
      → ((a : Addr) → 1 ≤ count a s → g a ≡ f a)
      → Stands f up s
      → Stands g up s
  Stands-frame f g up nil same s = tt
  Stands-frame f g up (fork l x r) same s = (
    same x.addr (ground arith) ∙ s.0,
    s.1,
    Stands-frame f g x.addr l (λ a h. same a (omega arith)) s.2,
    Stands-frame f g x.addr r (λ a h. same a (omega arith)) s.3,
  )

  pub Around-frame :
      (f g : Nodes) (top hole : Addr) (c : List Crumb)
      → ((a : Addr) → 1 ≤ count_way a c → g a ≡ f a)
      → Around f top hole c
      → Around g top hole c
  Around-frame f g top hole [] same s = tt
  Around-frame f g top hole (k ∷ c) same s = (
    same k.label.addr (ground arith) ∙ s.0,
    s.1,
    Stands-frame f g k.label.addr k.far (λ a h. same a (omega arith)) s.2,
    Around-frame f g top k.label.addr c (λ a h. same a (omega arith)) s.3,
  )

  -- What links to a tree is the sentinel, or stands in the tree.
  pub ptr_apart : (f : Nodes) (up : Addr) (s : Shape) (a : Addr) → a ≢ z → count a s ≡ 0 → ptr s ≢ a
  ptr_apart f up nil a ne out = ground arith
  ptr_apart f up (fork l x r) a ne out = ground arith

  pub ptr-plug : (s : Shape) (c : List Crumb) → ptr (plug s c) ≡ root_of (ptr s) c
  ptr-plug s [] = refl
  ptr-plug s (k ∷ c) =
      ptr-plug (mk k.side s k.label k.far) c ∙ ap (λ a. root_of a c) (ptr-mk k.side s k.label k.far)

-- Loads and updates of a node that stands.
pub load_lem : (t : Tree) (p : Addr) (n : Node) → t.node p ≡ some n → load p t ≡ done n t
unfolding load of_option
load_lem t p n at = ap (λ o. of_option o t) at

pub update_lem :
    (t : Tree) (p : Addr) (n : Node) (h : Node → Node)
    → t.node p ≡ some n
    → update p h t ≡ done tt (record t { node = put p (h n) t.node })
unfolding update
update_lem t p n h at = rw (load_lem t p n at) refl

pub put_at : (p : Addr) (n : Node) (f : Nodes) → put p n f p ≡ some n
put_at p n f = ground arith

pub put_apart : (p a : Addr) (n : Node) (f : Nodes) → p ≢ a → put p n f a ≡ f a
put_apart p a n f ne = ground arith
