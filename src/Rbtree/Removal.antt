-- ===== src/Rbtree/Removal.antt =====
-- nc_rbtree_delete of src/nc_rbtree.c: the node that leaves its place, its links, and the loop that
-- rebalances.
use libnc.Prelude.{ℕ, zero, suc, ◌==◌, if◌then◌else◌}
use libnc.Memory.{Addr}
use libnc.Rbtree.Store.{
  Node, out_of_fuel, Cmd, pure, ◌>>=◌, ◌>>◌, tree, load, Side, left, right, other, child, set_child,
  parent, set_parent, red, black, is_red, copy_color,
}
use libnc.Rbtree.Links.{node_min, rotate, replace_child}

-- The node that leaves its place, and the one that takes it: `subst` and `temp`.
unfoldable pub choose : (fuel : ℕ) → Addr → Node → Cmd (Addr × Addr)
choose fuel node n = do
  t ← tree
  let least : Cmd (Addr × Addr) = do
    subst ← node_min fuel n.right
    temp ← child right subst
    pure (subst, temp)
  if n.left == t.sentinel
      then pure (node, n.right)
      else if n.right == t.sentinel
      then pure (node, n.left)
      else least

-- The child of p on a side gets p as its parent, where it is not the sentinel.
unfoldable pub adopt : Side → Addr → Cmd (Unit {0})
adopt s p = do t ← tree; c ← child s p; if c == t.sentinel then pure tt else set_parent c p

-- `subst`, not `node` itself, is put in the place of `node`.
unfoldable pub take_place : (node subst temp : Addr) → Cmd (Unit {0})
take_place node subst temp = do
  up ← parent subst
  set_parent temp (if up == node then subst else up)
  n ← load node
  set_child left subst n.left
  set_child right subst n.right
  set_parent subst n.parent
  copy_color subst node
  replace_child left node subst
  adopt left subst
  adopt right subst

unfoldable pub splice_out : (node subst temp : Addr) → Cmd (Unit {0})
splice_out node subst temp = do
  up ← parent subst
  l ← child left up
  set_child (if subst == l then left else right) up temp
  up' ← parent subst
  if subst == node then set_parent temp up' else take_place node subst temp

-- The sibling of `temp`, after the first rotation of a turn, where temp is its parent's child on
-- the side s.
unfoldable pub sibling : Side → (temp : Addr) → Cmd Addr
sibling s temp = do
  up ← parent temp
  w ← child (other s) up
  w_red ← is_red w
  let turn : Cmd Addr = do black w; red up; rotate s up; up' ← parent temp; child (other s) up'
  if w_red then turn else pure w

-- The sibling after the second rotation, where its far child is black.
unfoldable pub far_red : Side → (temp w : Addr) → Cmd Addr
far_red s temp w = do
  far ← child (other s) w
  is_far_red ← is_red far
  let turn : Cmd Addr = do
    near ← child s w
    black near
    red w
    rotate (other s) w
    up ← parent temp
    child (other s) up
  if is_far_red then pure w else turn

-- One turn of the loop that rebalances after a deletion. It gives the next `temp`.
unfoldable pub delete_turn : Side → (temp : Addr) → Cmd Addr
delete_turn s temp = do
  w ← sibling s temp
  l ← child left w
  l_red ← is_red l
  let recolor : Cmd Addr = do red w; parent temp
  let turn : Cmd Addr = do
    w' ← far_red s temp w
    up ← parent temp
    copy_color w' up
    black up
    far ← child (other s) w'
    black far
    rotate s up
    t ← tree
    pure t.root
  let right_first : Cmd Addr = do
    r ← child right w
    r_red ← is_red r
    if r_red then turn else recolor
  if l_red then turn else right_first

unfoldable pub delete_fixup : (fuel : ℕ) → Addr → Cmd Addr
delete_fixup zero temp = λ t. out_of_fuel
delete_fixup (suc fuel) temp = do
  t ← tree
  let turn : Cmd Addr = do
    temp_red ← is_red temp
    let on : Cmd Addr = do
      up ← parent temp
      l ← child left up
      temp' ← delete_turn (if temp == l then left else right) temp
      delete_fixup fuel temp'
    if temp_red then pure temp else on
  if temp == t.root then pure temp else turn
