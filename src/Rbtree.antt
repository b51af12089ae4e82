-- ===== src/Rbtree.antt =====
-- src/nc_rbtree.h and src/nc_rbtree.c: a red-black tree over nodes with parent links. Code that the
-- source writes twice, with left and right exchanged, takes the side as an argument. A loop takes
-- fuel.
pub mod Store
pub mod Links
pub mod Removal
pub mod Minimum
pub mod Shape
pub mod Stands
pub mod Focus
pub mod Relink
pub mod Rotation
pub mod Turn
pub mod Colors
pub mod Fixup
pub mod Order
pub mod Descent
pub mod Invariant
pub mod Insertion
pub mod Deletion
pub mod Logarithmic
use libnc.Prelude.{ℕ, zero, suc, Bool, true, false, ◌&&◌, Option, none, some, ◌==◌, if◌then◌else◌}
use libnc.Memory.{Addr, null}
use Store.{
  ℤ, pos, less, Node, Tree, Run, done, undefined, out_of_fuel, Cmd, pure, ◌>>=◌, ◌>>◌, tree,
  set_root, load, update, Side, left, right, other, child_of, child, set_child, parent, set_parent,
  red, black, is_red, copy_color,
}
use Links.{node_init, node_min, replace_child, rotate}
use Removal.{choose, splice_out, delete_fixup}

unfoldable pub init : Addr → Cmd (Unit {0})
init p = do node_init p; black p; λ t. done tt (record t { root = p; sentinel = p })

unfoldable pub min : (fuel : ℕ) → Cmd (Option Addr)
min fuel = do
  t ← tree
  let rest : Cmd (Option Addr) = do p ← node_min fuel t.root; pure (some p)
  if t.root == t.sentinel then pure none else rest

-- The place for a key: the node to hang it under, and the side.
unfoldable pub descend : (fuel : ℕ) → ℤ → Addr → Cmd (Addr × Side)
descend zero key temp = λ t. out_of_fuel
descend (suc fuel) key temp = do
  t ← tree
  n ← load temp
  let side : Side = if less key n.key then left else right
  let rest : Cmd (Addr × Side) = descend fuel key (child_of side n)
  if child_of side n == t.sentinel then pure (temp, side) else rest

-- One turn of the loop that rebalances after an insertion, where the parent is its parent's child
-- on the side s. It gives the next node.
unfoldable pub insert_turn : Side → (node up grand : Addr) → Cmd Addr
insert_turn s node up grand = do
  uncle ← child (other s) grand
  uncle_red ← is_red uncle
  let recolor : Cmd Addr = do black up; black uncle; red grand; pure grand
  let turn : Cmd Addr = do
    c ← child (other s) up
    node' ← if node == c then (rotate s up >> pure up) else pure node
    up' ← parent node'
    black up'
    grand' ← parent up'
    red grand'
    rotate (other s) grand'
    pure node'
  if uncle_red then recolor else turn

unfoldable pub insert_fixup : (fuel : ℕ) → Addr → Cmd (Unit {0})
insert_fixup zero node = λ t. out_of_fuel
insert_fixup (suc fuel) node = do
  t ← tree
  let turn : Cmd (Unit {0}) = do
    up ← parent node
    up_red ← is_red up
    let on : Cmd (Unit {0}) = do
      grand ← parent up
      l ← child left grand
      node' ← insert_turn (if up == l then left else right) node up grand
      insert_fixup fuel node'
    if up_red then on else pure tt
  if node == t.root then pure tt else turn

unfoldable pub insert : (fuel : ℕ) → Addr → Cmd (Unit {0})
insert fuel node = do
  t ← tree
  let first : Cmd (Unit {0}) = do
    set_parent node null
    set_child left node t.sentinel
    set_child right node t.sentinel
    black node
    set_root node
  let later : Cmd (Unit {0}) = do
    n ← load node
    (temp, side) ← descend fuel n.key t.root
    set_child side temp node
    set_parent node temp
    set_child left node t.sentinel
    set_child right node t.sentinel
    red node
    insert_fixup fuel node
    t' ← tree
    black t'.root
  if t.root == t.sentinel then first else later

unfoldable pub delete : (fuel : ℕ) → Addr → Cmd (Unit {0})
delete fuel node = do
  t ← tree
  n ← load node
  (subst, temp) ← choose fuel node n
  let at_root : Cmd (Unit {0}) = do set_root temp; black temp; node_init node
  let below : Cmd (Unit {0}) = do
    was_red ← is_red subst
    splice_out node subst temp
    node_init node
    let fixup : Cmd (Unit {0}) = do temp' ← delete_fixup fuel temp; black temp'
    if was_red then pure tt else fixup
  if subst == t.root then at_root else below
