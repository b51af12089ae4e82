-- ===== src/Rbtree/Logarithmic.antt =====
-- The height of a red-black tree of src/nc_rbtree.c, and the steps that insertion and deletion
-- take.
use native.Mathlib.Nat.{two-pow-succ, pow-le-pow_right}
use libnc.Prelude.{
  ℕ, suc, ◌+◌, ◌*◌, ◌^◌, ◌≤◌, ◌<◌, false, ◌∷◌, some, length, length-append, leb, if◌then◌else◌,
  Bool-cases, ◌⊎◌, inl, inr, ◌≡◌, ◌≢◌, ap, subst, arith,
}
use libnc.Memory.{Addr}
use libnc.Rbtree.Store.{Node, Tree, done}
use libnc.Rbtree.Shape.{Label, Shape, fork, items, item, count}
use libnc.Rbtree.Focus.{root_red}
use libnc.Rbtree.Colors.{RedBlack, leaf, red_node, black_node}
use libnc.Rbtree.Descent.{height}
use libnc.Rbtree.Insertion.{insert-Inserted}
use libnc.Rbtree.Invariant.{Holds}
use libnc.Rbtree.Deletion.{delete-Deleted}
use libnc.Rbtree.{insert, delete}

height-fork :
    (l : Shape) (x : Label) (r : Shape) (n : ℕ)
    → height l ≤ n
    → height r ≤ n
    → height (fork l x r) ≤ suc n
unfolding height
height-fork l x r n hl hr = ground arith

abbrev red_one : Shape → ℕ
red_one s = if root_red s then 1 else 0

red_one_le : (s : Shape) → red_one s ≤ 1
red_one_le s = elim (Bool-cases (root_red s)) [
  | inl e ↦ rw e (omega arith)
  | inr e ↦ rw e (omega arith)
]

black_one : (s : Shape) → root_red s ≡ false → red_one s ≡ 0
black_one s is = ap (λ b. if b then 1 else 0) is

-- No way down is longer than twice the number of black nodes on it, and one more under a red root.
pub height-RedBlack : {s : Shape} {h : ℕ} → RedBlack s h → height s ≤ 2 * h + red_one s
unfolding height
height-RedBlack (leaf h e) = omega arith
height-RedBlack (red_node {l} {r} x {h} is bl br vl vr) = rw is (
    omega (
      arith,
      height-fork l x r (2 * h) (omega (arith, height-RedBlack vl, black_one l bl))
          (omega (arith, height-RedBlack vr, black_one r br)),
    ))
height-RedBlack (black_node {l} {r} x k is e vl vr) = omega (
  arith,
  height-fork l x r (2 * k + 1) (omega (arith, height-RedBlack vl, red_one_le l))
      (omega (arith, height-RedBlack vr, red_one_le r)),
)

-- A tree with h black nodes on every way down has 2 ^ h - 1 nodes at least.
pub items-RedBlack : {s : Shape} {h : ℕ} → RedBlack s h → 2 ^ h ≤ suc (length (items s))
items-RedBlack (leaf h e) = rw e (omega arith)
items-RedBlack (red_node {l} {r} x is bl br vl vr) =
    omega (arith, items-RedBlack vl, length-append (items l) (item x ∷ items r))
items-RedBlack (black_node {l} {r} x k is e vl vr) = rw e (
    omega (
      arith,
      two-pow-succ k,
      items-RedBlack vl,
      items-RedBlack vr,
      length-append (items l) (item x ∷ items r),
    ))

le_or_more : (h k : ℕ) → (h ≤ k) ⊎ (suc k ≤ h)
le_or_more h k = elim (Bool-cases (leb h k)) [
  | inl e ↦ inl (ground arith)
  | inr e ↦ inr (ground arith)
]

height_bound :
    (z : Addr) (t : Tree) (s : Shape) (k : ℕ)
    → Holds z t s
    → suc (length (items s)) < 2 ^ suc k
    → height s ≤ 2 * k
height_bound z t s k holds few =
    let h : ℕ = holds.colors.height in
    let tall =
      subst (λ b. height s ≤ 2 * h + (if b then 1 else 0)) holds.colors.root_black
        (height-RedBlack holds.colors.colors) in
    elim (le_or_more h k) [
      | inl le ↦ omega arith
      | inr more ↦
          let powers : 2 ^ suc k ≤ 2 ^ h = pow-le-pow_right (omega arith) more in
          absurd (omega (arith, few, items-RedBlack holds.colors.colors, powers))
    ]

-- Where a red-black tree in sorted order has fewer than 2 ^ (k + 1) - 1 items, 2 * k + 1 units of
-- fuel are enough to insert a node that is not in it, and to delete one that is: both end and run
-- into nothing undefined.
pub updates_terminate :
    (z : Addr) (t : Tree) (s : Shape) (p d : Addr) (n : Node) (k : ℕ)
    → Holds z t s
    → t.node p ≡ some n
    → p ≢ z
    → count p s ≡ 0
    → 1 ≤ count d s
    → suc (length (items s)) < 2 ^ suc k
    → ((t' : Tree) × (insert (2 * k + 1) p t ≡ done tt t'))
      × ((t' : Tree) × (delete (2 * k + 1) d t ≡ done tt t'))
updates_terminate z t s p d n k holds at ne new inside few =
    let le = height_bound z t s k holds few in
    let (t1, run1, inserted) =
      insert-Inserted z t s p n (2 * k + 1) holds at ne new (omega arith) in
    let (t2, run2, deleted) = delete-Deleted z t s d (2 * k + 1) holds inside (omega arith) in
    ((t1, run1), (t2, run2))
