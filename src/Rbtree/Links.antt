-- ===== src/Rbtree/Links.antt =====
-- The parts of src/nc_rbtree.c that insertion and deletion share.
use libnc.Prelude.{ℕ, zero, suc, ◌==◌, if◌then◌else◌}
use libnc.Memory.{Addr, null}
use libnc.Rbtree.Store.{
  pos, out_of_fuel, Cmd, pure, ◌>>=◌, ◌>>◌, tree, set_root, update, Side, left, other, child,
  set_child, parent, set_parent,
}

-- The color is left as it is.
unfoldable pub node_init : Addr → Cmd (Unit {0})
node_init p =
    update p
      (λ n. record n { left = null; right = null; parent = null; key = pos 0; content = null })

unfoldable pub node_min : (fuel : ℕ) → Addr → Cmd Addr
node_min zero p = λ t. out_of_fuel
node_min (suc fuel) p = do
  t ← tree
  l ← child left p
  let rest : Cmd Addr = node_min fuel l
  if l == t.sentinel then pure p else rest

-- The place of p in its tree is given to q: *root, or the link of p's parent on the side s, or else
-- the other one.
unfoldable pub replace_child : Side → (p q : Addr) → Cmd (Unit {0})
replace_child s p q = do
  t ← tree
  let below : Cmd (Unit {0}) = do
    up ← parent p
    c ← child s up
    if p == c then set_child s up q else set_child (other s) up q
  if p == t.root then set_root q else below

-- The first statements of a rotation, down to the new parent of the node that rises, which it
-- gives.
unfoldable pub lower : Side → Addr → Cmd Addr
lower s node = do
  t ← tree
  temp ← child (other s) node
  inner ← child s temp
  set_child (other s) node inner
  if inner == t.sentinel then pure tt else set_parent inner node
  up ← parent node
  set_parent temp up
  pure temp

-- rbtree_left_rotate for `left`, rbtree_right_rotate for `right`.
unfoldable pub rotate : Side → Addr → Cmd (Unit {0})
unfolding lower
rotate s node = do
  temp ← lower s node
  replace_child s node temp
  set_child s temp node
  set_parent node temp
