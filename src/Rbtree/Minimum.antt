-- ===== src/Rbtree/Minimum.antt =====
-- nc_rbtree_min of src/nc_rbtree.c against the items of the tree in order.
use mathlib.Core.Option
use mathlib.Core.List.{append_assoc}
use libnc.Prelude.{
  ℕ, zero, suc, ◌≤◌, List, [], ◌∷◌, ◌++◌, some, ◌==◌, ne→==, ==_refl, ◌≡◌, refl, ap, sym, ◌∙◌,
  arith, get_elem?,
}
use libnc.Memory.{Addr}
use libnc.Rbtree.Store.{Tree, done, left}
use libnc.Rbtree.Links.{node_min}
use libnc.Rbtree.Shape.{Label, Shape, nil, fork, Crumb, items, item}
use libnc.Rbtree.Focus.{Zipper, zoom_in}
use libnc.Rbtree.Relink.{then_lem, else_lem}
use libnc.Rbtree.Turn.{crumb, near_at}
use libnc.Rbtree.Order.{Item}
use libnc.Rbtree.{min}

-- The number of nodes on the way to the first one.
unfoldable pub spine : Shape → ℕ
spine nil = 0
spine (fork l x r) = suc (spine l)

-- The label of the first node of a tree, below the node x if the tree is empty.
unfoldable pub first_label : Label → Shape → Label
first_label x nil = x
first_label x (fork l y r) = first_label y l

get_elem?-first :
    (l : Shape) (x : Label) (xs : List Item)
    → get_elem? (items l ++ item x ∷ xs) 0 ≡ some (item (first_label x l))
unfolding first_label
get_elem?-first nil x xs = refl
get_elem?-first (fork l y r) x xs =
    ap (λ l. get_elem? l 0) (append_assoc (items l) (item y ∷ items r) (item x ∷ xs))
    ∙ get_elem?-first l y (items r ++ item x ∷ xs)

module _ {z top : Addr} where
  -- The walk down the left links ends at the first node.
  pub node_min_lem :
      (t : Tree) (fuel : ℕ) (l : Shape) (x : Label) (r : Shape) (c : List Crumb)
      → Zipper z top t (fork l x r) c
      → suc (spine l) ≤ fuel
      → node_min fuel x.addr t ≡ done (first_label x l).addr t
  unfolding node_min spine first_label
  node_min_lem t zero l x r c zip le = absurd (omega arith)
  node_min_lem t (suc fuel) nil x r c zip le =
      rw (near_at left nil x r c zip)
        (then_lem (z == t.sentinel) _ _ t (ap (λ p. z == p) zip.sentinel ∙ ==_refl z))
  node_min_lem t (suc fuel) (fork ll y lr) x r c zip le =
      let zip_l = zoom_in (fork ll y lr) (crumb left x r) c zip in
      rw (near_at left (fork ll y lr) x r c zip) (
        else_lem (y.addr == t.sentinel) _ _ t (ne→== _ _ (λ e. zip_l.stands.1 (e ∙ zip.sentinel)))
        ∙ node_min_lem t fuel ll y lr (crumb left x r ∷ c) zip_l (omega arith))

-- Where the store holds a tree, and there is a unit of fuel for each node on the way down its left
-- side, nc_rbtree_min returns the address of the first item in order, or NULL where the tree is
-- empty. It ends, runs into nothing undefined and leaves the tree as it was.
pub min-first :
    (z top : Addr) (t : Tree) (s : Shape) (fuel : ℕ)
    → Zipper z top t s []
    → spine s ≤ fuel
    → min fuel t ≡ done (Option.map (λ (x : Item). x.0) (get_elem? (items s) 0)) t
unfolding min spine
min-first z top t nil fuel zip le =
    then_lem (t.root == t.sentinel) _ _ t
      (ap (λ p. p == t.sentinel) (zip.root ∙ sym zip.sentinel) ∙ ==_refl t.sentinel)
min-first z top t (fork l x r) fuel zip le =
    else_lem (t.root == t.sentinel) _ _ t
      (ne→== _ _ (λ e. zip.stands.1 (sym zip.root ∙ e ∙ zip.sentinel)))
    ∙ rw (ap (λ p. node_min fuel p t) zip.root ∙ node_min_lem t fuel l x r [] zip le)
        (ap (λ o. done (Option.map (λ (x : Item). x.0) o) t) (sym (get_elem?-first l x (items r))))
