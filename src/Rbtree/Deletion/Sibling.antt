-- ===== src/Rbtree/Deletion/Sibling.antt =====
-- The turns of the loop of nc_rbtree_delete that rebalances, at the parent of the short subtree.
use libnc.Prelude.{true, false, List, ◌∷◌, some, ◌≡◌, refl, sym, ap, subst, ◌∙◌, arith}
use libnc.Memory.{Addr}
use libnc.Rbtree.Store.{Side, left, right, other, Node, Tree, done, is_red, parent}
use libnc.Rbtree.Removal.{sibling, far_red}
use libnc.Rbtree.Shape.{Label, Shape, nil, fork, mk, Crumb}
use libnc.Rbtree.Stands.{paint, ptr, above, Stands-parts, ptr-mk}
use libnc.Rbtree.Focus.{
  Zipper, Turned, Turned-trans, zoom_in, Turned-out, paint-Turned, IsDark, root_red, is_red_lem,
  Stands-sentinel, Around-sentinel,
}
use libnc.Rbtree.Colors.{root_red-mk}
use libnc.Rbtree.Rotation.{rotate-Turned}
use libnc.Rbtree.Relink.{parent_lem, then_lem, else_lem}
use libnc.Rbtree.Turn.{crumb, parent_at, near_at, far_at, zoom_far, Turned-far}

turn_eq :
    (s : Side) (i : Shape) (y : Label) (j : Shape) (w : Label) (o : Shape)
    → mk (other s) o w (mk (other s) j y i) ≡ mk s (mk s i y j) w o
turn_eq left i y j w o = refl
turn_eq right i y j w o = refl

turned_eq :
    (s : Side) (i : Shape) (y : Label) (j : Shape) (w : Label) (o : Shape)
    → mk (other s) (mk (other s) o w j) y i ≡ mk s i y (mk s j w o)
turned_eq left i y j w o = refl
turned_eq right i y j w o = refl

-- The sentinel, where it stands for an empty subtree, has the parent p.
abbrev pub Below : (z : Addr) (t : Tree) (p : Addr) → Shape → Type 0
Below z t p nil = (m : Node) × (t.node z ≡ some m) × (m.parent ≡ p)
Below z t p (fork l x r) = Unit {0}

module _ {z top : Addr} where
  pub parent_of :
      {t : Tree} (s : Shape) (k : Crumb) (c : List Crumb)
      → Zipper z top t s (k ∷ c)
      → Below z t k.label.addr s
      → parent (ptr z s) t ≡ done k.label.addr t
  parent_of {t} nil k c zip (m, at, is) = parent_lem t z m at ∙ ap (λ p. done p t) is
  parent_of {t} (fork l x r) k c zip below = parent_at left l x r (k ∷ c) zip

  pub Turned-Below :
      {s s' : Shape} {c : List Crumb} {t t' : Tree} (p : Addr) (b : Shape)
      → Zipper z top t s c
      → Turned z top s s' c t t'
      → Below z t p b
      → Below z t' p b
  Turned-Below {s} {c = c} {t} p nil zip turned (m, at, is) = (
    m,
    turned.same z (
          omega (
            arith,
            Stands-sentinel z t.node (above top c) s zip.stands,
            Around-sentinel z t.node top (ptr z s) c zip.around,
          ))
        ∙ at,
    is,
  )
  Turned-Below p (fork l x r) zip turned below = tt

  -- The sibling is black.
  pub sibling_black :
      {t : Tree} (s : Side) (b : Shape) (u : Label) (w : Shape) (c : List Crumb)
      → Zipper z top t (mk s b u w) c
      → Below z t u.addr b
      → IsDark z t
      → root_red w ≡ false
      → sibling s (ptr z b) t ≡ done (ptr z w) t
  unfolding sibling
  sibling_black {t} s b u w c zip below dark is =
      let e =
        is_red_lem z t u.addr w dark (Stands-parts z t.node (above top c) s b u w zip.stands).3 in
      rw (parent_of b (crumb s u w) c (zoom_in b (crumb s u w) c zip) below)
        (rw (far_at s b u w c zip) (rw e (else_lem (root_red w) _ _ t is)))

  -- The sibling is red: the parent is rotated, and the sibling becomes its black parent.
  pub sibling_red :
      (t : Tree) (s : Side) (b : Shape) (u : Label) (i : Shape) (w : Label) (o : Shape)
      (c : List Crumb)
      → Zipper z top t (mk s b u (mk s i w o)) c
      → Below z t u.addr b
      → IsDark z t
      → w.red ≡ true
      → (t' : Tree) × (sibling s (ptr z b) t ≡ done (ptr z i) t')
        × Turned z top
            (mk s b u (mk s i w o))
            (mk s (mk s b (paint true u) i) (paint false w) o)
            c
            t
            t'
  unfolding sibling
  sibling_red t s b u i w o c zip below dark is =
      let far : Shape = mk s i w o in
      let kw : Crumb = crumb (other s) u b in
      let zip_w = zoom_far s b u far c zip in
      let at_w : ptr z far ≡ w.addr = ptr-mk z s i w o in
      let e =
        is_red_lem z t u.addr far dark
          (Stands-parts z t.node (above top c) s b u far zip.stands).3 in
      let w_red : is_red w.addr t ≡ done w.red t =
        ap (λ p. is_red p t) (sym at_w) ∙ e ∙ ap (λ b. done b t) (root_red-mk s i w o) in
      let (t1, run1, p1) = paint-Turned false s i w o (kw ∷ c) t zip_w in
      let q1 = Turned-far s b u far (mk s i (paint false w) o) c p1 in
      let (t2, run2, q2) = paint-Turned true s b u (mk s i (paint false w) o) c t1 q1.zipper in
      let (t3, run3, q3) =
        rotate-Turned z top s b i o (paint true u) (paint false w) c t2 q2.zipper in
      let all = Turned-trans q1 (Turned-trans q2 q3) in
      let zip_u = zoom_in (mk s b (paint true u) i) (crumb s (paint false w) o) c q3.zipper in
      let zip_b = zoom_in b (crumb s (paint true u) i) (crumb s (paint false w) o ∷ c) zip_u in
      (
        t3,
        rw (parent_of b (crumb s u far) c (zoom_in b (crumb s u far) c zip) below) (
            rw (far_at s b u far c zip ∙ ap (λ p. done p t) at_w) (
              rw w_red (
                then_lem w.red _ _ t is
                ∙ rw run1 (
                    rw run2 (
                      rw run3 (
                        rw
                          (parent_of b (crumb s (paint true u) i) (crumb s (paint false w) o ∷ c)
                            zip_b (Turned-Below u.addr b zip all below))
                          (far_at s b (paint true u) i (crumb s (paint false w) o ∷ c) zip_u))))))),
        all,
      )

  -- The far child of the sibling is red.
  pub far_red_red :
      {t : Tree} (s : Side) (b : Shape) (u : Label) (i : Shape) (w : Label) (o : Shape)
      (c : List Crumb)
      → Zipper z top t (mk s b u (mk s i w o)) c
      → IsDark z t
      → root_red o ≡ true
      → far_red s (ptr z b) w.addr t ≡ done w.addr t
  unfolding far_red
  far_red_red {t} s b u i w o c zip dark is =
      let zip_w = zoom_far s b u (mk s i w o) c zip in
      let e = is_red_lem z t w.addr o dark (Stands-parts z t.node u.addr s i w o zip_w.stands).3 in
      rw (far_at s i w o (crumb (other s) u b ∷ c) zip_w) (rw e (then_lem (root_red o) _ _ t is))

  -- The far child of the sibling is black and the near one red: the sibling is rotated, and its
  -- near child is the black sibling.
  pub far_red_black :
      (t : Tree) (s : Side) (b : Shape) (u : Label) (i : Shape) (y : Label) (j : Shape) (w : Label)
      (o : Shape) (c : List Crumb)
      → Zipper z top t (mk s b u (mk s (mk s i y j) w o)) c
      → Below z t u.addr b
      → IsDark z t
      → root_red o ≡ false
      → (t' : Tree) × (far_red s (ptr z b) w.addr t ≡ done y.addr t')
        × Turned z top
            (mk s b u (mk s (mk s i y j) w o))
            (mk s b u (mk s i (paint false y) (mk s j (paint true w) o)))
            c
            t
            t'
  unfolding far_red
  far_red_black t s b u i y j w o c zip below dark is =
      let near : Shape = mk s i y j in
      let y' : Label = paint false y in
      let w' : Label = paint true w in
      let kw : Crumb = crumb (other s) u b in
      let zip_w = zoom_far s b u (mk s near w o) c zip in
      let e =
        is_red_lem z t w.addr o dark (Stands-parts z t.node u.addr s near w o zip_w.stands).3 in
      let (t1, run1, p1) =
        paint-Turned false s i y j (crumb s w o ∷ kw ∷ c) t
          (zoom_in near (crumb s w o) (kw ∷ c) zip_w) in
      let q1 = Turned-out near (mk s i y' j) (crumb s w o) (kw ∷ c) p1 in
      let (t2, run2, q2) = paint-Turned true s (mk s i y' j) w o (kw ∷ c) t1 q1.zipper in
      let same = turn_eq s i y' j w' o in
      let (t3, run3, p3) =
        rotate-Turned z top (other s) o j i w' y' (kw ∷ c) t2
          (subst (λ v. Zipper z top t2 v (kw ∷ c)) (sym same) q2.zipper) in
      let q3 =
        subst (λ v. Turned z top v (mk s i y' (mk s j w' o)) (kw ∷ c) t2 t3) same
          (subst (λ v. Turned z top (mk (other s) o w' (mk (other s) j y' i)) v (kw ∷ c) t2 t3)
            (turned_eq s i y' j w' o) p3) in
      let all =
        Turned-far s b u (mk s near w o) (mk s i y' (mk s j w' o)) c
          (Turned-trans q1 (Turned-trans q2 q3)) in
      let far : Shape = mk s i y' (mk s j w' o) in
      (
        t3,
        rw (far_at s near w o (kw ∷ c) zip_w) (
            rw e (
              else_lem (root_red o) _ _ t is
              ∙ rw (near_at s near w o (kw ∷ c) zip_w ∙ ap (λ p. done p t) (ptr-mk z s i y j)) (
                  rw run1 (
                    rw run2 (
                      rw run3 (
                        rw
                          (parent_of b (crumb s u far) c (zoom_in b (crumb s u far) c all.zipper)
                            (Turned-Below u.addr b zip all below))
                          (far_at s b u far c all.zipper
                            ∙ ap (λ p. done p t3) (ptr-mk z s i y' (mk s j w' o))))))))),
        all,
      )
