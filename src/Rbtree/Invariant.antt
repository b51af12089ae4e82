-- ===== src/Rbtree/Invariant.antt =====
-- The invariant of the trees of src/nc_rbtree.c.
use libnc.Prelude.{ℕ, false, [], ◌≡◌}
use libnc.Memory.{Addr}
use libnc.Rbtree.Store.{Tree}
use libnc.Rbtree.Shape.{Shape, items}
use libnc.Rbtree.Focus.{Zipper, IsDark, root_red}
use libnc.Rbtree.Colors.{RedBlack}
use libnc.Rbtree.Order.{IsSorted}

pub record IsRedBlack (s : Shape) : Type 0 where
  pub height : ℕ
  pub colors : RedBlack s height
  pub root_black : root_red s ≡ false

-- A store holds a red-black tree whose keys are in order, beside its black sentinel at z.
pub record Holds (z : Addr) (t : Tree) (s : Shape) : Type 0 where
  pub top : Addr
  pub zipper : Zipper z top t s []
  pub dark : IsDark z t
  pub colors : IsRedBlack s
  pub sorted : IsSorted (items s)
