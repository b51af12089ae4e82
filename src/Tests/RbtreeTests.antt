-- ===== src/Tests/RbtreeTests.antt =====
-- Runs of src/nc_rbtree.c, and the theorems at concrete inputs.
use libnc.Prelude.{
  Option, none, some, [], ◌+◌, ◌≤◌, ◌==◌, true, false, if◌then◌else◌, ◌≡◌, ◌≢◌, refl, arith,
}
use libnc.Memory.{Addr, null}
use libnc.Rbtree.Store.{
  pos, Node, Tree, Run, done, undefined, out_of_fuel, Cmd, right, pure, ◌>>=◌, ◌>>◌,
}
use libnc.Rbtree.Minimum.{spine, min-first}
use libnc.Rbtree.Shape.{Label, Shape, nil, fork, count, count_way}
use libnc.Rbtree.Focus.{Zipper, Turned}
use libnc.Rbtree.Colors.{black_node, red_node, leaf}
use libnc.Rbtree.Rotation.{rotate-Turned}
use libnc.Rbtree.Descent.{height}
use libnc.Rbtree.Insertion.{insert-Inserted, init-Holds}
use libnc.Rbtree.Insertion.Hanging.{Inserted}
use libnc.Rbtree.Invariant.{Holds}
use libnc.Rbtree.Links.{rotate}
use libnc.Rbtree.{init, insert, delete, min}

-- A node of the key k stands at 10 + k, and the sentinel at 1.
abbrev nowhere : Tree
nowhere = record {
  root = null;
  sentinel = null;
  node = λ a.
      if a == 0
      then none
      else some (record {
        left = null;
        right = null;
        parent = null;
        key = pos a;
        content = null;
        color = 1;
      });
}

abbrev result : {A : Type 0} → Run A → Option A
result (done a t) = some a
result undefined = none
result out_of_fuel = none

abbrev run : Cmd (Option Addr)
run = do
  init 1
  insert 9 10
  insert 9 11
  insert 9 12
  insert 9 13
  insert 9 15
  insert 9 14
  insert 9 16
  delete 9 13
  delete 9 10
  delete 9 12
  min 9

run_gives : result (run nowhere) ≡ some (some 11)
unfolding init insert delete min libnc.Rbtree.descend libnc.Rbtree.insert_fixup
    libnc.Rbtree.insert_turn libnc.Rbtree.Links.node_init libnc.Rbtree.Links.node_min
    libnc.Rbtree.Links.replace_child libnc.Rbtree.Links.rotate libnc.Rbtree.Removal.choose
    libnc.Rbtree.Removal.adopt libnc.Rbtree.Removal.take_place libnc.Rbtree.Removal.splice_out
    libnc.Rbtree.Removal.sibling libnc.Rbtree.Removal.far_red libnc.Rbtree.Removal.delete_turn
    libnc.Rbtree.Removal.delete_fixup libnc.Rbtree.Store.of_option libnc.Rbtree.Store.load
    libnc.Rbtree.Store.update
run_gives = refl

-- 20 at the root, with a red 10 on its left, and a free node at 30 with the key 1; the sentinel
-- stands at 1.
abbrev standing : Tree
standing = record {
  root = 20;
  sentinel = 1;
  node = λ a.
      if a == 20
      then some (record { left = 10; right = 1; parent = 0; key = pos 2; content = 7; color = 0 })
      else if a == 10
      then some (record { left = 1; right = 1; parent = 20; key = pos 1; content = 8; color = 1 })
      else if a == 30
      then some (record { left = 0; right = 0; parent = 0; key = pos 1; content = 9; color = 5 })
      else if a == 1
      then some (record { left = 0; right = 0; parent = 0; key = pos 0; content = 0; color = 0 })
      else none;
}

abbrev label_10 : Label
label_10 = record { addr = 10; key = pos 1; content = 8; red = true }

abbrev label_20 : Label
label_20 = record { addr = 20; key = pos 2; content = 7; red = false }

abbrev leaning : Shape
leaning = fork (fork nil label_10 nil) label_20 nil

leaning_once : (a : Addr) → count a leaning + count_way a [] ≤ 1
leaning_once a = ground arith

leaning-Zipper : Zipper 1 0 standing leaning []
leaning-Zipper = record {
  sentinel = refl;
  root = refl;
  stands = (refl, omega arith, (refl, omega arith, tt, tt), tt);
  around = tt;
  once = leaning_once;
}

leaning-Holds : Holds 1 standing leaning
leaning-Holds = record {
  top = 0;
  zipper = leaning-Zipper;
  dark = record {
    node = record { left = 0; right = 0; parent = 0; key = pos 0; content = 0; color = 0 };
    stands = refl;
    color = refl;
  };
  colors = record {
    height = 1;
    colors =
        black_node label_20 0 refl refl
          (red_node label_10 refl refl refl (leaf 0 refl) (leaf 0 refl)) (leaf 0 refl);
    root_black = refl;
  };
  sorted = ((refl, tt), (tt, tt));
}

rotate-Turned_example :
    (t' : Tree) × (rotate right 20 standing ≡ done tt t')
    × Turned 1 0 leaning (fork nil label_10 (fork nil label_20 nil)) [] standing t'
rotate-Turned_example =
    rotate-Turned 1 0 right nil nil nil label_20 label_10 [] standing leaning-Zipper

insert-Inserted_example :
    (t' : Tree) × (insert 3 30 standing ≡ done tt t')
    × Inserted 1 standing leaning (30, pos 1, 9) t'
unfolding height
insert-Inserted_example =
    insert-Inserted 1 standing leaning 30
      (record { left = 0; right = 0; parent = 0; key = pos 1; content = 9; color = 5 }) 3
      leaning-Holds refl (omega arith) refl (omega arith)

init-Holds_example :
    (t' : Tree) × (init 30 standing ≡ done tt t')
    × Holds 30 t' nil
    × ((a : Addr) → 30 ≢ a → t'.node a ≡ standing.node a)
init-Holds_example =
    init-Holds standing 30
      (record { left = 0; right = 0; parent = 0; key = pos 1; content = 9; color = 5 }) refl

min-first_example : min 2 standing ≡ done (some 10) standing
unfolding spine
min-first_example = min-first 1 0 standing leaning 2 leaning-Zipper (omega arith)
