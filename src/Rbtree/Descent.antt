-- ===== src/Rbtree/Descent.antt =====
-- The walk of nc_rbtree_insert down to the place of the new node.
use libnc.Prelude.{
  ℕ, zero, suc, ◌+◌, ◌≤◌, List, ◌∷◌, length, leb, ◌==◌, ne→==, ==_refl, Bool-cases, if◌then◌else◌,
  inl, inr, ◌≡◌, refl, sym, ap, subst, ◌∙◌, arith,
}
use libnc.Memory.{Addr}
use libnc.Rbtree.Store.{less, Side, left, right, Node, Tree, Run, done, pure, child_of}
use libnc.Rbtree.Shape.{Label, Shape, nil, fork, mk, Crumb, plug}
use libnc.Rbtree.Stands.{ptr, above, node_of, node_of-key, child_of-near, Stands-parts, load_lem}
use libnc.Rbtree.Focus.{Zipper, zoom_in}
use libnc.Rbtree.Relink.{then_lem, else_lem}
use libnc.Rbtree.Turn.{crumb}
use libnc.Rbtree.Order.{grow}
use libnc.Rbtree.{descend}

-- The number of nodes on the longest way down.
unfoldable pub height : Shape → ℕ
height nil = 0
height (fork l x r) = suc (if leb (height l) (height r) then height r else height l)

pub height-left : (l : Shape) (x : Label) (r : Shape) → suc (height l) ≤ height (fork l x r)
unfolding height
height-left l x r = ground arith

pub height-right : (l : Shape) (x : Label) (r : Shape) → suc (height r) ≤ height (fork l x r)
unfolding height
height-right l x r = ground arith

-- The place that the walk ends at: the empty one below q on a side.
pub record Place (z top : Addr) (t : Tree) (s : Shape) (c : List Crumb) (n : Label) (size : ℕ)
    : Type 0 where
  pub side : Side
  pub node : Label
  pub sibling : Shape
  pub way : List Crumb
  pub zipper : Zipper z top t nil (crumb side node sibling ∷ way)
  pub whole : plug nil (crumb side node sibling ∷ way) ≡ plug s c
  pub grown : plug (fork nil n nil) (crumb side node sibling ∷ way) ≡ plug (grow s n) c
  pub short : length (crumb side node sibling ∷ way) ≤ size

-- That the walk from a node whose subtree is not higher than the fuel ends at the place of the new
-- node.
abbrev pub Descends : (z top : Addr) (n : Label) (t : Tree) (fuel : ℕ) → Type 0
Descends z top n t fuel =
    (l : Shape) (x : Label) (r : Shape) (c : List Crumb)
    → height (fork l x r) ≤ fuel
    → Zipper z top t (fork l x r) c
    → (place : Place z top t (fork l x r) c n (height (fork l x r) + length c)) × (descend fuel
          n.key x.addr t
        ≡ done (place.node.addr, place.side) t)

module _ (z top : Addr) (n : Label) (t : Tree) where
  -- One step, on the side that the keys tell.
  step_run :
      (fuel : ℕ) (s : Side) (l : Shape) (x : Label) (r : Shape) (c : List Crumb)
      → (if less n.key x.key then left else right) ≡ s
      → Zipper z top t (mk s l x r) c
      → descend (suc fuel) n.key x.addr t
        ≡ (if ptr z l == t.sentinel then pure (x.addr, s) else descend fuel n.key (ptr z l)) t
  unfolding descend
  step_run fuel s l x r c test zip =
      let node : Node = node_of s (ptr z l) (ptr z r) (above top c) x in
      let at = (Stands-parts z t.node (above top c) s l x r zip.stands).0 in
      let go : Side → Addr → Run (Addr × Side) =
        λ s q. (if q == t.sentinel then pure (x.addr, s) else descend fuel n.key q) t in
      rw (load_lem t x.addr node at) (
        ap
          (λ k.
            go (if less n.key k then left else right)
              (child_of (if less n.key k then left else right) node))
          (node_of-key s (ptr z l) (ptr z r) (above top c) x)
        ∙ ap (λ s. go s (child_of s node)) test
        ∙ ap (λ q. go s q) (child_of-near s (ptr z l) (ptr z r) (above top c) x))

  step-Place :
      (fuel size : ℕ) (s : Side) (l : Shape) (x : Label) (r w : Shape) (c : List Crumb)
      → Descends z top n t fuel
      → (if less n.key x.key then left else right) ≡ s
      → mk s l x r ≡ w
      → grow w n ≡ mk s (grow l n) x r
      → height l ≤ fuel
      → suc (height l) ≤ size
      → Zipper z top t w c
      → (place : Place z top t w c n (size + length c)) × (descend (suc fuel) n.key x.addr t
          ≡ done (place.node.addr, place.side) t)
  unfolding grow
  step-Place fuel size s nil x r w c again test is grown le size_le zip =
      let zip' = subst (λ w. Zipper z top t w c) (sym is) zip in
      (
        record {
          side = s;
          node = x;
          sibling = r;
          way = c;
          zipper = zoom_in nil (crumb s x r) c zip';
          whole = ap (λ w. plug w c) is;
          grown = ap (λ w. plug w c) (sym grown);
          short = omega arith;
        },
        step_run fuel s nil x r c test zip'
            ∙ then_lem (z == t.sentinel) _ _ t (ap (λ p. z == p) zip.sentinel ∙ ==_refl z),
      )
  step-Place fuel size s (fork ll lx lr) x r w c again test is grown le size_le zip =
      let l : Shape = fork ll lx lr in
      let zip' = subst (λ w. Zipper z top t w c) (sym is) zip in
      let zip_l = zoom_in l (crumb s x r) c zip' in
      let (place, run) = again ll lx lr (crumb s x r ∷ c) le zip_l in
      (
        record {
          side = place.side;
          node = place.node;
          sibling = place.sibling;
          way = place.way;
          zipper = place.zipper;
          whole = place.whole ∙ ap (λ w. plug w c) is;
          grown = place.grown ∙ ap (λ w. plug w c) (sym grown);
          short = omega (arith, place.short);
        },
        step_run fuel s l x r c test zip'
            ∙ else_lem (lx.addr == t.sentinel) _ _ t
                (ne→== _ _ (λ e. zip_l.stands.1 (e ∙ zip.sentinel)))
            ∙ run,
      )

  pub descend-Place : (fuel : ℕ) → Descends z top n t fuel
  unfolding grow
  descend-Place zero l x r c le zip = absurd (omega (arith, height-left l x r))
  descend-Place (suc fuel) l x r c le zip = elim (Bool-cases (less n.key x.key)) [
    | inl e ↦
        step-Place fuel (height (fork l x r)) left l x r (fork l x r) c (descend-Place fuel)
          (ap (λ b. if b then left else right) e) refl
          (ap (λ b. if b then fork (grow l n) x r else fork l x (grow r n)) e)
          (omega (arith, height-left l x r)) (height-left l x r) zip
    | inr e ↦
        step-Place fuel (height (fork l x r)) right r x l (fork l x r) c (descend-Place fuel)
          (ap (λ b. if b then left else right) e) refl
          (ap (λ b. if b then fork (grow l n) x r else fork l x (grow r n)) e)
          (omega (arith, height-right l x r)) (height-right l x r) zip
  ]
