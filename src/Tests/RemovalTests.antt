-- ===== src/Tests/RemovalTests.antt =====
-- The theorems on nc_rbtree_delete of src/nc_rbtree.c at concrete inputs.
use libnc.Prelude.{
  ◌≡◌, ◌*◌, some, none, [], ◌∷◌, ◌+◌, ◌≤◌, ◌==◌, true, false, if◌then◌else◌, refl, arith,
}
use libnc.Memory.{Addr}
use libnc.Rbtree.Store.{pos, Tree, left, done}
use libnc.Rbtree.Shape.{Label, Shape, nil, fork, Crumb, count, count_way}
use libnc.Rbtree.Focus.{Zipper}
use libnc.Rbtree.Turn.{crumb}
use libnc.Rbtree.Colors.{black_node, leaf, at_root, black_step, red_node}
use libnc.Rbtree.Deletion.Mending.{mend, Mended}
use libnc.Rbtree.Descent.{height}
use libnc.Rbtree.Invariant.{Holds}
use libnc.Rbtree.Deletion.Finish.{Deleted}
use libnc.Rbtree.Deletion.{delete-Deleted}
use libnc.Rbtree.{insert, delete}
use libnc.Rbtree.Logarithmic.{updates_terminate}
use libnc.Rbtree.Deletion.Repair.{delete_fixup-Mended}

-- 20 at the root, with nothing on its left, a red 30 on its right, and the black 25 and 35 below
-- that; the sentinel stands at 1, and has 20 as its parent.
abbrev uneven : Tree
uneven = record {
  root = 20;
  sentinel = 1;
  node = λ a.
      if a == 20
      then some (record { left = 1; right = 30; parent = 0; key = pos 2; content = 7; color = 0 })
      else if a == 30
      then some (record { left = 25; right = 35; parent = 20; key = pos 5; content = 8; color = 1 })
      else if a == 25
      then some (record { left = 1; right = 1; parent = 30; key = pos 4; content = 9; color = 0 })
      else if a == 35
      then some (record { left = 1; right = 1; parent = 30; key = pos 6; content = 9; color = 0 })
      else if a == 1
      then some (record { left = 0; right = 0; parent = 20; key = pos 0; content = 0; color = 0 })
      else none;
}

abbrev label_20 : Label
label_20 = record { addr = 20; key = pos 2; content = 7; red = false }

abbrev label_25 : Label
label_25 = record { addr = 25; key = pos 4; content = 9; red = false }

abbrev label_30 : Label
label_30 = record { addr = 30; key = pos 5; content = 8; red = true }

abbrev label_35 : Label
label_35 = record { addr = 35; key = pos 6; content = 9; red = false }

abbrev tall : Shape
tall = fork (fork nil label_25 nil) label_30 (fork nil label_35 nil)

abbrev to_left : Crumb
to_left = crumb left label_20 tall

uneven_once : (a : Addr) → count a nil + count_way a (to_left ∷ []) ≤ 1
uneven_once a = ground arith

uneven-Zipper : Zipper 1 0 uneven nil (to_left ∷ [])
uneven-Zipper = record {
  sentinel = refl;
  root = refl;
  stands = tt;
  around = (
    refl,
    omega arith,
    (refl, omega arith, (refl, omega arith, tt, tt), (refl, omega arith, tt, tt)),
    tt,
  );
  once = uneven_once;
}

delete_fixup-Mended_example : Mended 1 0 (fork nil label_20 tall) uneven (mend 3 1 uneven)
delete_fixup-Mended_example =
    delete_fixup-Mended 1 0 3 nil (to_left ∷ []) 0 uneven (omega arith) uneven-Zipper (omega arith)
      (record { left = 0; right = 0; parent = 20; key = pos 0; content = 0; color = 0 }, refl, refl)
      (record {
        node = record { left = 0; right = 0; parent = 20; key = pos 0; content = 0; color = 0 };
        stands = refl;
        color = refl;
      })
      refl
      (black_step to_left refl
        (red_node label_30 refl refl refl
          (black_node label_25 0 refl refl (leaf 0 refl) (leaf 0 refl))
          (black_node label_35 0 refl refl (leaf 0 refl) (leaf 0 refl)))
        (at_root 2))

-- 20 at the root, with 10 and 30 below it, all black, and a free node at 40.
abbrev even : Tree
even = record {
  root = 20;
  sentinel = 1;
  node = λ a.
      if a == 20
      then some (record { left = 10; right = 30; parent = 0; key = pos 2; content = 7; color = 0 })
      else if a == 10
      then some (record { left = 1; right = 1; parent = 20; key = pos 1; content = 8; color = 0 })
      else if a == 30
      then some (record { left = 1; right = 1; parent = 20; key = pos 5; content = 9; color = 0 })
      else if a == 40
      then some (record { left = 0; right = 0; parent = 0; key = pos 3; content = 5; color = 1 })
      else if a == 1
      then some (record { left = 0; right = 0; parent = 0; key = pos 0; content = 0; color = 0 })
      else none;
}

abbrev black_10 : Label
black_10 = record { addr = 10; key = pos 1; content = 8; red = false }

abbrev black_30 : Label
black_30 = record { addr = 30; key = pos 5; content = 9; red = false }

abbrev balanced : Shape
balanced = fork (fork nil black_10 nil) label_20 (fork nil black_30 nil)

balanced_once : (a : Addr) → count a balanced + count_way a [] ≤ 1
balanced_once a = ground arith

balanced-Holds : Holds 1 even balanced
balanced-Holds = record {
  top = 0;
  zipper = record {
    sentinel = refl;
    root = refl;
    stands = (refl, omega arith, (refl, omega arith, tt, tt), (refl, omega arith, tt, tt));
    around = tt;
    once = balanced_once;
  };
  dark = record {
    node = record { left = 0; right = 0; parent = 0; key = pos 0; content = 0; color = 0 };
    stands = refl;
    color = refl;
  };
  colors = record {
    height = 2;
    colors =
        black_node label_20 1 refl refl
          (black_node black_10 0 refl refl (leaf 0 refl) (leaf 0 refl))
          (black_node black_30 0 refl refl (leaf 0 refl) (leaf 0 refl));
    root_black = refl;
  };
  sorted = ((refl, (refl, tt)), ((refl, tt), (tt, tt)));
}

-- The node with two children leaves the tree, and the loop rebalances.
delete-Deleted_example :
    (t' : Tree) × (delete 3 20 even ≡ done tt t') × Deleted 1 even balanced 20 t'
unfolding height
delete-Deleted_example =
    delete-Deleted 1 even balanced 20 3 balanced-Holds (omega arith) (omega arith)

updates_terminate_example :
    ((t' : Tree) × (insert (2 * 2 + 1) 40 even ≡ done tt t'))
    × ((t' : Tree) × (delete (2 * 2 + 1) 10 even ≡ done tt t'))
updates_terminate_example =
    updates_terminate 1 even balanced 40 10
      (record { left = 0; right = 0; parent = 0; key = pos 3; content = 5; color = 1 }) 2
      balanced-Holds refl (omega arith) refl (omega arith) (omega arith)
