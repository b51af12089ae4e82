-- ===== src/Rbtree/Shape.antt =====
-- What the nodes of src/nc_rbtree.c stand for: binary trees, and the way from the root of a tree to
-- one of its places.
use libnc.Prelude.{
  ℕ, ◌+◌, Bool, List, [], ◌∷◌, ◌++◌, ◌==◌, if◌then◌else◌, ◌≡◌, ◌≢◌, refl, sym, arith,
}
use libnc.Memory.{Addr}
use libnc.Rbtree.Store.{ℤ, Side, left, right}
use mathlib.Core.List.{append_assoc}

-- What a node holds besides its links.
pub record Label : Type 0 where
  pub addr : Addr
  pub key : ℤ
  pub content : Addr
  pub red : Bool

pub data Shape : Type 0 where
  nil : Shape
  fork : Shape → Label → Shape → Shape

-- A tree with one subtree on a side, and another on the other side.
abbrev pub mk : Side → Shape → Label → Shape → Shape
mk left near x far = fork near x far
mk right near x far = fork far x near

-- One step of a way down: the side that it takes, the node, and the subtree on the other side.
pub record Crumb : Type 0 where
  pub side : Side
  pub label : Label
  pub far : Shape

-- A tree with a subtree put at the end of a way, whose steps are listed from there up.
abbrev pub plug : Shape → List Crumb → Shape
plug s [] = s
plug s (k ∷ c) = plug (mk k.side s k.label k.far) c

-- The address, the key and the content of each node, in order.
abbrev pub item : Label → Addr × ℤ × Addr
item x = (x.addr, x.key, x.content)

abbrev pub items : Shape → List (Addr × ℤ × Addr)
items nil = []
items (fork l x r) = items l ++ item x ∷ items r

-- How often an address stands in a tree, and in the steps of a way.
abbrev pub here : Addr → Addr → ℕ
here a b = if a == b then 1 else 0

abbrev pub count : Addr → Shape → ℕ
count a nil = 0
count a (fork l x r) = here a x.addr + count a l + count a r

abbrev pub count_way : Addr → List Crumb → ℕ
count_way a [] = 0
count_way a (k ∷ c) = here a k.label.addr + count a k.far + count_way a c

pub here_eq : (a b : Addr) → b ≡ a → here a b ≡ 1
here_eq a b e = ground arith

pub here_ne : (a b : Addr) → b ≢ a → here a b ≡ 0
here_ne a b ne = ground arith

pub count-mk :
    (a : Addr) (s : Side) (l : Shape) (x : Label) (r : Shape)
    → count a (mk s l x r) ≡ here a x.addr + count a l + count a r
count-mk a left l x r = refl
count-mk a right l x r = omega arith

pub count-plug :
    (a : Addr) (s : Shape) (c : List Crumb) → count a (plug s c) ≡ count a s + count_way a c
count-plug a s [] = omega arith
count-plug a s (k ∷ c) =
    omega (arith, count-plug a (mk k.side s k.label k.far) c, count-mk a k.side s k.label k.far)

pub items-mk :
    (s : Side) (l l' : Shape) (x x' : Label) (r r' : Shape)
    → items l ≡ items l'
    → item x ≡ item x'
    → items r ≡ items r'
    → items (mk s l x r) ≡ items (mk s l' x' r')
items-mk left l l' x x' r r' el ex er = cc
items-mk right l l' x x' r r' el ex er = cc

-- A rotation keeps the order.
pub items-rotate :
    (s : Side) (a b c : Shape) (x y : Label)
    → items (mk s (mk s a x b) y c) ≡ items (mk s a x (mk s b y c))
items-rotate left a b c x y = append_assoc (items a) (item x ∷ items b) (item y ∷ items c)
items-rotate right a b c x y = sym (append_assoc (items c) (item y ∷ items b) (item x ∷ items a))

pub items-plug :
    (s s' : Shape) (c : List Crumb) → items s ≡ items s' → items (plug s c) ≡ items (plug s' c)
items-plug s s' [] e = e
items-plug s s' (k ∷ c) e =
    items-plug (mk k.side s k.label k.far) (mk k.side s' k.label k.far) c
      (items-mk k.side s s' k.label k.label k.far k.far e refl refl)
