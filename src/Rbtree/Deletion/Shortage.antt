-- ===== src/Rbtree/Deletion/Shortage.antt =====
-- The loop of nc_rbtree_delete that rebalances, from a sibling that is black on.
use libnc.Prelude.{
  ℕ, zero, suc, ◌≤◌, true, false, List, ◌∷◌, Bool-cases, inl, inr, ◌≡◌, refl, sym, ap, subst, arith,
}
use libnc.Memory.{Addr}
use libnc.Rbtree.Store.{Side, left, Tree, and_then, black}
use libnc.Rbtree.Shape.{Label, Shape, nil, fork, mk, Crumb, plug}
use libnc.Rbtree.Stands.{paint, ptr}
use libnc.Rbtree.Focus.{Zipper, IsDark, Turned-IsDark, root_red}
use libnc.Rbtree.Turn.{crumb}
use libnc.Rbtree.Colors.{
  RedBlack, leaf, WayRedBlack, red_step, black_step, root_red-mk, RedBlack-red, RedBlack-black,
  red_parts, black_parts,
}
use libnc.Rbtree.Fixup.Steps.{as_side}
use libnc.Rbtree.Deletion.Sibling.{Below}
use libnc.Rbtree.Deletion.Turn.{rest, rest-recolored, rest-far, rest-near}
use libnc.Rbtree.Deletion.Mending.{
  Lacks, lacks_red, lacks_black, mend, Mended, Mended-after, mends_red, lifted_ends,
}

-- The turn of the loop at a short subtree b below u, from where its sibling W is black.
module _ (z top : Addr) (fuel : ℕ) (t : Tree) (s : Side) (b : Shape) (u : Label) (c : List Crumb)
    (h : ℕ) where
  pub record Deficit (far : Shape) : Type 0 where
    pub zipper : Zipper z top t (mk s b u far) c
    pub below : Below z t u.addr b
    pub dark : IsDark z t
    pub b_black : root_red b ≡ false
    pub b_colors : RedBlack b h
    pub way : WayRedBlack (crumb s u far ∷ c) (suc h)

  -- The parent is short now.
  abbrev Goal : Shape → Label → Type 0
  Goal far w =
      Mended z top (plug (mk s b u far) c) t (and_then (rest s (ptr z b) w.addr t) (mend fuel))

  -- That the loop ends from the parent, with any sibling.
  abbrev pub Again : Type 0
  Again =
      (far : Shape) (k : ℕ) (t' : Tree)
      → Zipper z top t' (mk s b u far) c
      → IsDark z t'
      → Lacks b u far k
      → WayRedBlack c (suc k)
      → Mended z top (plug (mk s b u far) c) t' (mend fuel u.addr t')

  shortened_parent :
      {far : Shape} (far' : Shape)
      → WayRedBlack (crumb s u far ∷ c) (suc h)
      → RedBlack b h
      → RedBlack far' h
      → (k : ℕ) × Lacks b u far' k × WayRedBlack c (suc k)
  shortened_parent far' (red_step _ is up calm vf w) vb v = (h, lacks_red is vb v, w)
  shortened_parent far' (black_step _ is vf w) vb v = (suc h, lacks_black h is refl vb v, w)

  recolored_mends :
      (i : Shape) (w : Label) (o : Shape)
      → Deficit (mk s i w o)
      → Again
      → 1 ≤ fuel
      → RedBlack i h
      → RedBlack o h
      → root_red i ≡ false
      → root_red o ≡ false
      → Goal (mk s i w o) w
  recolored_mends i w o d again le vi vo bi bo =
      let far : Shape = mk s i (paint true w) o in
      let (t1, run, p) = rest-recolored t s b u i w o c d.zipper d.below d.dark bi bo in
      let (k, lacks, way) =
        shortened_parent far d.way d.b_colors (RedBlack-red s (paint true w) refl bi bo vi vo) in
      Mended-after (mk s b u (mk s i w o)) (mk s b u far) c p (ap (λ r. and_then r (mend fuel)) run)
        (again far k t1 p.zipper (Turned-IsDark d.zipper p d.dark) lacks way)

  far_mends :
      (i : Shape) (w : Label) (ol : Shape) (o : Label) (or : Shape)
      → Deficit (mk s i w (fork ol o or))
      → 1 ≤ fuel
      → RedBlack i h
      → RedBlack (fork ol o or) h
      → o.red ≡ true
      → Goal (mk s i w (fork ol o or)) w
  far_mends i w ol o or d le vi vo is =
      let (t1, run, p) = rest-far t s b u i w ol o or c d.zipper d.below d.dark is in
      let (bl, br, vl, vr) = red_parts left ol o or vo is in
      let u' : Label = paint false u in
      let near : Shape = mk s b u' i in
      let (t2, w', run', turned, colors) =
        lifted_ends (mk s b u (mk s i w (fork ol o or))) s u (mk s i w (fork ol o or)) near
          (paint u.red w) (fork ol (paint false o) or) c (suc h) fuel p le d.way refl
          (root_red-mk s b u' i) refl (RedBlack-black s u' refl d.b_colors vi)
          (RedBlack-black left (paint false o) refl vl vr) in
      (t2, w', rw run run', turned, colors)

  near_mends :
      (i : Shape) (y : Label) (j : Shape) (w : Label) (o : Shape)
      → Deficit (mk s (mk s i y j) w o)
      → 1 ≤ fuel
      → RedBlack (mk s i y j) h
      → RedBlack o h
      → y.red ≡ true
      → root_red o ≡ false
      → Goal (mk s (mk s i y j) w o) w
  near_mends i y j w o d le vy vo is bo =
      let (t1, run, p) = rest-near t s b u i y j w o c d.zipper d.below d.dark is bo in
      let (bl, br, vi, vj) = red_parts s i y j vy is in
      let u' : Label = paint false u in
      let w' : Label = paint false w in
      let (t2, s', run', turned, colors) =
        lifted_ends (mk s b u (mk s (mk s i y j) w o)) s u (mk s (mk s i y j) w o) (mk s b u' i)
          (paint u.red y) (mk s j w' o) c (suc h) fuel p le d.way refl (root_red-mk s b u' i)
          (root_red-mk s j w' o) (RedBlack-black s u' refl d.b_colors vi)
          (RedBlack-black s w' refl vj vo) in
      (t2, s', rw run run', turned, colors)

  black_far_mends :
      (i : Shape) (w : Label) (o : Shape)
      → Deficit (mk s i w o)
      → Again
      → 1 ≤ fuel
      → RedBlack i h
      → RedBlack o h
      → root_red o ≡ false
      → Goal (mk s i w o) w
  black_far_mends nil w o d again le vi vo bo = recolored_mends nil w o d again le vi vo refl bo
  black_far_mends (fork il y ir) w o d again le vi vo bo = elim (Bool-cases y.red) [
    | inr black ↦ recolored_mends (fork il y ir) w o d again le vi vo black bo
    | inl is ↦
        let (i, j, e) = as_side s left il y ir in
        subst (λ v. Goal (mk s v w o) w) (sym e)
          (near_mends i y j w o (subst (λ v. Deficit (mk s v w o)) e d) le
            (subst (λ v. RedBlack v h) e vi) vo is bo)
  ]

  black_sibling_mends :
      (i : Shape) (w : Label) (o : Shape)
      → Deficit (mk s i w o)
      → Again
      → 1 ≤ fuel
      → RedBlack i h
      → RedBlack o h
      → Goal (mk s i w o) w
  black_sibling_mends i w nil d again le vi vo = black_far_mends i w nil d again le vi vo refl
  black_sibling_mends i w (fork ol o or) d again le vi vo = elim (Bool-cases o.red) [
    | inr black ↦ black_far_mends i w (fork ol o or) d again le vi vo black
    | inl is ↦ far_mends i w ol o or d le vi vo is
  ]

  black_rest_mends :
      (i : Shape) (w : Label) (o : Shape)
      → Deficit (mk s i w o)
      → Again
      → 1 ≤ fuel
      → w.red ≡ false
      → RedBlack (mk s i w o) (suc h)
      → Goal (mk s i w o) w
  black_rest_mends i w o d again le is v =
      let (k, e, vi, vo) = black_parts s i w o v is in
      let e' : k ≡ h = omega arith in
      black_sibling_mends i w o d again le (subst (λ h. RedBlack i h) e' vi)
        (subst (λ h. RedBlack o h) e' vo)

  -- The sibling after the rotation is not empty.
  pub root_rest_mends :
      (w : Shape)
      → Deficit w
      → Again
      → 1 ≤ fuel
      → root_red w ≡ false
      → RedBlack w (suc h)
      → Mended z top (plug (mk s b u w) c) t (and_then (rest s (ptr z b) (ptr z w) t) (mend fuel))
  root_rest_mends nil d again le is (leaf _ e) = absurd (omega arith)
  root_rest_mends (fork l w r) d again le is v =
      let (i, o, e) = as_side s left l w r in
      subst (λ v. Goal v w) (sym e)
        (black_rest_mends i w o (subst Deficit e d) again le is
          (subst (λ v. RedBlack v (suc h)) e v))

pub red_ends :
    (z top : Addr) (fuel : ℕ) (s : Side) (l : Shape) (x : Label) (r : Shape) (k : Crumb)
    (c : List Crumb) (h : ℕ) (t : Tree)
    → 1 ≤ fuel
    → Zipper z top t (mk s l x r) (k ∷ c)
    → IsDark z t
    → x.red ≡ true
    → RedBlack l h
    → RedBlack r h
    → WayRedBlack (k ∷ c) (suc h)
    → Mended z top (plug (mk s l x r) (k ∷ c)) t (mend fuel x.addr t)
red_ends z top zero s l x r k c h t le zip dark is vl vr way = absurd (omega arith)
red_ends z top (suc fuel) s l x r k c h t le zip dark is vl vr way =
    mends_red s l x r k c h fuel zip dark is vl vr way
