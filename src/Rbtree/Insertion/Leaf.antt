-- ===== src/Rbtree/Insertion/Leaf.antt =====
-- The writes of nc_rbtree_insert that make a node a leaf.
use libnc.Prelude.{Bool, some, ◌≡◌, ◌≢◌, refl, ◌∙◌}
use libnc.Memory.{Addr}
use libnc.Rbtree.Store.{
  left, right, Node, Tree, Cmd, ◌>>◌, update, set_child, set_parent, with_child,
}
use libnc.Rbtree.Shape.{Label}
use libnc.Rbtree.Stands.{node_of, color_of, put, put_at, put_apart, update_lem}

-- The four writes that make a node a leaf below `up`, one after the other.
module _ (t : Tree) (p : Addr) (n : Node) (z up : Addr) (b : Bool) where
  abbrev with_node : Node → Tree → Tree
  with_node m t = record t { node = put p m t.node }

  abbrev pub one : Tree
  one = with_node (record n { parent = up }) t

  abbrev two : Tree
  two = with_node (record n { parent = up; left = z }) one

  abbrev three : Tree
  three = with_node (record n { parent = up; left = z; right = z }) two

  abbrev pub four : Tree
  four = with_node (record n { parent = up; left = z; right = z; color = color_of b }) three

  abbrev pub leaf_label : Label
  leaf_label = record { addr = p; key = n.key; content = n.content; red = b }

  pub four_at : four.node p ≡ some (node_of left z z up leaf_label)
  four_at = put_at p _ three.node

  pub four_apart : (a : Addr) → p ≢ a → four.node a ≡ t.node a
  four_apart a ne =
      put_apart p a _ three.node ne
      ∙ put_apart p a _ two.node ne
      ∙ put_apart p a _ one.node ne
      ∙ put_apart p a _ t.node ne

  pub four_run :
      {A : Type 0} (k : Cmd A)
      → t.node p ≡ some n
      → (set_parent p up
            >> (set_child left p z
                >> (set_child right p z >> (update p (λ m. record m { color = color_of b }) >> k))))
          t
        ≡ k four
  four_run k at = rw (update_lem t p n (λ m. record m { parent = up }) at) (
      rw (update_lem one p _ (with_child left z) (put_at p _ t.node)) (
        rw (update_lem two p _ (with_child right z) (put_at p _ one.node)) (
          rw (update_lem three p _ (λ m. record m { color = color_of b }) (put_at p _ two.node))
            refl)))
