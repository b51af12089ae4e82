-- ===== src/Rbtree/Store.antt =====
-- src/nc_rbtree.h: the nodes of a red-black tree at addresses, and commands over a tree.
use libnc.Prelude.{ℕ, Bool, true, false, Option, none, some, ltb, ◌==◌, if◌then◌else◌}
use libnc.Memory.{Addr}

-- int64_t
pub data ℤ : Type 0 where
  pos : ℕ → ℤ
  negsuc : ℕ → ℤ

abbrev pub less : ℤ → ℤ → Bool
less (pos m) (pos n) = ltb m n
less (pos m) (negsuc n) = false
less (negsuc m) (pos n) = true
less (negsuc m) (negsuc n) = ltb n m

-- struct nc_rbnode
pub record Node : Type 0 where
  pub left : Addr
  pub right : Addr
  pub parent : Addr
  pub key : ℤ
  pub content : Addr
  pub color : ℕ

-- struct nc_rbtree and its store
pub record Tree : Type 0 where
  pub root : Addr
  pub sentinel : Addr
  pub node : Addr → Option Node

pub data Run (A : Type 0) : Type 0 where
  done : A → Tree → Run A
  undefined : Run A
  out_of_fuel : Run A

abbrev pub Cmd : (A : Type 0) → Type 0
Cmd A = Tree → Run A

abbrev pub pure : {A : Type 0} → A → Cmd A
pure a t = done a t

abbrev pub and_then : {A B : Type 0} → Run A → (A → Cmd B) → Run B
and_then (done a t) k = k a t
and_then undefined k = undefined
and_then out_of_fuel k = out_of_fuel

infixl 5 ◌>>=◌ ◌>>◌
abbrev pub ◌>>=◌ : {A B : Type 0} → Cmd A → (A → Cmd B) → Cmd B
c >>= k = λ t. and_then (c t) k

abbrev pub ◌>>◌ : {A B : Type 0} → Cmd A → Cmd B → Cmd B
c >> d = c >>= λ _. d

abbrev pub tree : Cmd Tree
tree t = done t t

abbrev pub set_root : Addr → Cmd (Unit {0})
set_root p t = done tt (record t { root = p })

unfoldable pub of_option : {A : Type 0} → Option A → Cmd A
of_option none t = undefined
of_option (some a) t = done a t

-- The node at an address that is none is undefined.
unfoldable pub load : Addr → Cmd Node
unfolding of_option
load p t = of_option (t.node p) t

unfoldable pub update : Addr → (Node → Node) → Cmd (Unit {0})
unfolding load
update p f = do
  n ← load p
  λ t. done tt (record t { node = λ q. if p == q then some (f n) else t.node q })

pub data Side : Type 0 where
  left : Side
  right : Side

abbrev pub other : Side → Side
other left = right
other right = left

abbrev pub child_of : Side → Node → Addr
child_of left n = n.left
child_of right n = n.right

-- p->left or p->right
abbrev pub child : Side → Addr → Cmd Addr
child s p = do n ← load p; pure (child_of s n)

abbrev pub with_child : Side → Addr → Node → Node
with_child left q n = record n { left = q }
with_child right q n = record n { right = q }

abbrev pub set_child : Side → Addr → Addr → Cmd (Unit {0})
set_child s p q = update p (with_child s q)

abbrev pub parent : Addr → Cmd Addr
parent p = do n ← load p; pure n.parent

abbrev pub set_parent : Addr → Addr → Cmd (Unit {0})
set_parent p q = update p (λ n. record n { parent = q })

abbrev pub red : Addr → Cmd (Unit {0})
red p = update p (λ n. record n { color = 1 })

abbrev pub black : Addr → Cmd (Unit {0})
black p = update p (λ n. record n { color = 0 })

abbrev pub is_red : Addr → Cmd Bool
is_red p = do n ← load p; pure (if n.color == 0 then false else true)

abbrev pub copy_color : Addr → Addr → Cmd (Unit {0})
copy_color p q = do n ← load q; update p (λ m. record m { color = n.color })
