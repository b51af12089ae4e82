-- ===== src/Rbtree/Turn.antt =====
-- One turn of the loop of nc_rbtree_insert that rebalances, at the grandparent of the node.
use libnc.Prelude.{
  true, false, List, ◌∷◌, ◌==◌, ne→==, ==_refl, if◌then◌else◌, ◌≡◌, ◌≢◌, refl, sym, ap, subst, ◌∙◌,
  arith,
}
use libnc.Memory.{Addr}
use libnc.Rbtree.Store.{
  Side, left, right, other, Tree, done, Cmd, pure, ◌>>=◌, ◌>>◌, is_red, red, black, parent, child,
}
use libnc.Rbtree.Links.{rotate}
use libnc.Rbtree.Shape.{Label, Shape, fork, mk, Crumb, count-mk, here_eq}
use libnc.Rbtree.Stands.{
  paint, ptr, above, Stands-parts, ptr-mk, child_of-near, child_of-far, node_of-parent, ptr_apart,
}
use libnc.Rbtree.Focus.{
  Zipper, Turned, Turned-trans, zoom_in, Turned-out, paint-Turned, IsDark, root_red, is_red_lem,
}
use libnc.Rbtree.Rotation.{rotate-Turned}
use libnc.Rbtree.Relink.{child_lem, parent_lem, then_lem, else_lem}
use libnc.Rbtree.{insert_turn}

pub mk-other : (s : Side) (a : Shape) (x : Label) (b : Shape) → mk (other s) a x b ≡ mk s b x a
mk-other left a x b = refl
mk-other right a x b = refl

abbrev pub crumb : Side → Label → Shape → Crumb
crumb s x far = record { side = s; label = x; far = far }

-- The statements of a turn where the uncle is red.
abbrev recolor : (up uncle grand : Addr) → Cmd Addr
recolor up uncle grand = do black up; black uncle; red grand; pure grand

-- The statements that end with the rotation of the grandparent, where n is its grandchild on an
-- outer side.
abbrev rise : Side → Addr → Cmd Addr
rise s p = do up ← parent p; black up; grand ← parent up; red grand; rotate (other s) grand; pure p

outer-eq :
    (s : Side) (n sib uncle : Shape) (u g : Label)
    → mk (other s) uncle g (mk (other s) sib u n) ≡ mk s (mk s n u sib) g uncle
outer-eq left n sib uncle u g = refl
outer-eq right n sib uncle u g = refl

abbrev pub risen : Side → (n sib uncle : Shape) → (u g : Label) → Shape
risen s n sib uncle u g = mk (other s) (mk (other s) uncle (paint true g) sib) (paint false u) n

module _ {z top : Addr} where
  pub parent_at :
      {t : Tree} (s : Side) (l : Shape) (x : Label) (r : Shape) (c : List Crumb)
      → Zipper z top t (mk s l x r) c
      → parent x.addr t ≡ done (above top c) t
  parent_at {t} s l x r c zip =
      let (at, ne, near, far) = Stands-parts z t.node (above top c) s l x r zip.stands in
      parent_lem t x.addr _ at
      ∙ ap (λ p. done p t) (node_of-parent s (ptr z l) (ptr z r) (above top c) x)

  pub near_at :
      {t : Tree} (s : Side) (l : Shape) (x : Label) (r : Shape) (c : List Crumb)
      → Zipper z top t (mk s l x r) c
      → child s x.addr t ≡ done (ptr z l) t
  near_at {t} s l x r c zip =
      let (at, ne, near, far) = Stands-parts z t.node (above top c) s l x r zip.stands in
      child_lem t s x.addr _ at
      ∙ ap (λ p. done p t) (child_of-near s (ptr z l) (ptr z r) (above top c) x)

  pub far_at :
      {t : Tree} (s : Side) (l : Shape) (x : Label) (r : Shape) (c : List Crumb)
      → Zipper z top t (mk s l x r) c
      → child (other s) x.addr t ≡ done (ptr z r) t
  far_at {t} s l x r c zip =
      let (at, ne, near, far) = Stands-parts z t.node (above top c) s l x r zip.stands in
      child_lem t (other s) x.addr _ at
      ∙ ap (λ p. done p t) (child_of-far s (ptr z l) (ptr z r) (above top c) x)

  -- From a place to the one below it on the far side.
  pub zoom_far :
      {t : Tree} (s : Side) (l : Shape) (x : Label) (r : Shape) (c : List Crumb)
      → Zipper z top t (mk s l x r) c
      → Zipper z top t r (crumb (other s) x l ∷ c)
  zoom_far {t} s l x r c zip =
      zoom_in r (crumb (other s) x l) c
        (subst (λ w. Zipper z top t w c) (sym (mk-other s r x l)) zip)

  pub Turned-far :
      {t t' : Tree} (s : Side) (l : Shape) (x : Label) (r r' : Shape) (c : List Crumb)
      → Turned z top r r' (crumb (other s) x l ∷ c) t t'
      → Turned z top (mk s l x r) (mk s l x r') c t t'
  Turned-far {t} {t'} s l x r r' c p =
      subst (λ w. Turned z top w (mk s l x r') c t t') (mk-other s r x l)
        (subst (λ w. Turned z top (mk (other s) r x l) w c t t') (mk-other s r' x l)
          (Turned-out r r' (crumb (other s) x l) c p))

  -- The parent and the uncle become black, and the grandparent red.
  pub recolor-Turned :
      (s side : Side) (n sib : Shape) (u g : Label) (yl : Shape) (y : Label) (yr : Shape)
      (c : List Crumb) (t : Tree)
      → Zipper z top t (mk s (mk side n u sib) g (fork yl y yr)) c
      → (t' : Tree) × (recolor u.addr y.addr g.addr t ≡ done g.addr t')
        × Turned z top
            (mk s (mk side n u sib) g (fork yl y yr))
            (mk s (mk side n (paint false u) sib) (paint true g) (fork yl (paint false y) yr))
            c
            t
            t'
  recolor-Turned s side n sib u g yl y yr c t zip =
      let (t1, run1, p1) =
        paint-Turned false side n u sib (crumb s g (fork yl y yr) ∷ c) t
          (zoom_in (mk side n u sib) (crumb s g (fork yl y yr)) c zip) in
      let q1 =
        Turned-out (mk side n u sib) (mk side n (paint false u) sib) (crumb s g (fork yl y yr)) c
          p1 in
      let u' : Shape = mk side n (paint false u) sib in
      let (t2, run2, p2) =
        paint-Turned false left yl y yr (crumb (other s) g u' ∷ c) t1
          (zoom_far s u' g (fork yl y yr) c q1.zipper) in
      let q2 = Turned-far s u' g (fork yl y yr) (fork yl (paint false y) yr) c p2 in
      let (t3, run3, p3) = paint-Turned true s u' g (fork yl (paint false y) yr) c t2 q2.zipper in
      (t3, rw run1 (rw run2 (rw run3 refl)), Turned-trans q1 (Turned-trans q2 p3))

  rise-Turned :
      (s side : Side) (l : Shape) (n : Label) (r sib uncle : Shape) (u g : Label) (c : List Crumb)
      (t : Tree)
      → Zipper z top t (mk s (mk s (mk side l n r) u sib) g uncle) c
      → (t' : Tree) × (rise s n.addr t ≡ done n.addr t')
        × Turned z top
            (mk s (mk s (mk side l n r) u sib) g uncle)
            (risen s (mk side l n r) sib uncle u g)
            c
            t
            t'
  rise-Turned s side l n r sib uncle u g c t zip =
      let low : Shape = mk side l n r in
      let kg : Crumb = crumb s g uncle in
      let zip_u = zoom_in (mk s low u sib) kg c zip in
      let zip_n = zoom_in low (crumb s u sib) (kg ∷ c) zip_u in
      let u' : Label = paint false u in
      let g' : Label = paint true g in
      let (t1, run1, p1) = paint-Turned false s low u sib (kg ∷ c) t zip_u in
      let q1 = Turned-out (mk s low u sib) (mk s low u' sib) kg c p1 in
      let (t2, run2, p2) = paint-Turned true s (mk s low u' sib) g uncle c t1 q1.zipper in
      let same = outer-eq s low sib uncle u' g' in
      let (t3, run3, p3) =
        rotate-Turned z top (other s) uncle sib low g' u' c t2
          (subst (λ w. Zipper z top t2 w c) (sym same) p2.zipper) in
      let q3 = subst (λ w. Turned z top w (risen s low sib uncle u g) c t2 t3) same p3 in
      (
        t3,
        rw (parent_at side l n r (crumb s u sib ∷ kg ∷ c) zip_n)
            (rw run1 (rw (parent_at s low u' sib (kg ∷ c) p1.zipper) (rw run2 (rw run3 refl)))),
        Turned-trans q1 (Turned-trans p2 q3),
      )

  uncle_red :
      (s : Side) (w uncle : Shape) (g : Label) (c : List Crumb) (t : Tree)
      → Zipper z top t (mk s w g uncle) c
      → IsDark z t
      → is_red (ptr z uncle) t ≡ done (root_red uncle) t
  uncle_red s w uncle g c t zip dark =
      is_red_lem z t g.addr uncle dark
        (Stands-parts z t.node (above top c) s w g uncle zip.stands).3

  -- A turn where the uncle is red.
  pub insert_turn-recolor :
      (s side : Side) (n sib : Shape) (p : Addr) (u g : Label) (yl : Shape) (y : Label) (yr : Shape)
      (c : List Crumb) (t : Tree)
      → Zipper z top t (mk s (mk side n u sib) g (fork yl y yr)) c
      → IsDark z t
      → y.red ≡ true
      → (t' : Tree) × (insert_turn s p u.addr g.addr t ≡ done g.addr t')
        × Turned z top
            (mk s (mk side n u sib) g (fork yl y yr))
            (mk s (mk side n (paint false u) sib) (paint true g) (fork yl (paint false y) yr))
            c
            t
            t'
  unfolding insert_turn
  insert_turn-recolor s side n sib p u g yl y yr c t zip dark is =
      let uncle : Shape = fork yl y yr in
      let (t', run, turned) = recolor-Turned s side n sib u g yl y yr c t zip in
      (
        t',
        rw (far_at s (mk side n u sib) g uncle c zip) (
            rw (uncle_red s (mk side n u sib) uncle g c t zip dark)
              (then_lem y.red _ _ t is ∙ run)),
        turned,
      )

  -- A turn where the uncle is black and the node is on the outer side.
  pub insert_turn-outer :
      (s side : Side) (l : Shape) (n : Label) (r sib uncle : Shape) (u g : Label) (c : List Crumb)
      (t : Tree)
      → Zipper z top t (mk s (mk s (mk side l n r) u sib) g uncle) c
      → IsDark z t
      → root_red uncle ≡ false
      → (t' : Tree) × (insert_turn s n.addr u.addr g.addr t ≡ done n.addr t')
        × Turned z top
            (mk s (mk s (mk side l n r) u sib) g uncle)
            (risen s (mk side l n r) sib uncle u g)
            c
            t
            t'
  unfolding insert_turn
  insert_turn-outer s side l n r sib uncle u g c t zip dark is =
      let low : Shape = mk side l n r in
      let kg : Crumb = crumb s g uncle in
      let zip_u = zoom_in (mk s low u sib) kg c zip in
      let zip_n = zoom_in low (crumb s u sib) (kg ∷ c) zip_u in
      let n_ne = (Stands-parts z t.node u.addr side l n r zip_n.stands).1 in
      let apart : ptr z sib ≢ n.addr = ptr_apart z t.node u.addr sib n.addr n_ne (
        omega (arith, zip_n.once n.addr, count-mk n.addr side l n r, here_eq n.addr n.addr refl)) in
      let stay : (if n.addr == ptr z sib then (rotate s u.addr >> pure u.addr) else pure n.addr) t
          ≡ done n.addr t =
        else_lem (n.addr == ptr z sib) _ _ t (ne→== _ _ (λ e. apart (sym e))) in
      let (t', run, turned) = rise-Turned s side l n r sib uncle u g c t zip in
      (
        t',
        rw (far_at s (mk s low u sib) g uncle c zip) (
            rw (uncle_red s (mk s low u sib) uncle g c t zip dark) (
              else_lem (root_red uncle) _ _ t is
              ∙ rw (far_at s low u sib (kg ∷ c) zip_u) (rw stay run))),
        turned,
      )

  -- A turn where the uncle is black and the node is on the inner side.
  pub insert_turn-inner :
      (s : Side) (a : Shape) (n : Label) (b sib uncle : Shape) (u g : Label) (c : List Crumb)
      (t : Tree)
      → Zipper z top t (mk s (mk s sib u (mk s a n b)) g uncle) c
      → IsDark z t
      → root_red uncle ≡ false
      → (t' : Tree) × (insert_turn s n.addr u.addr g.addr t ≡ done u.addr t')
        × Turned z top
            (mk s (mk s sib u (mk s a n b)) g uncle)
            (risen s (mk s sib u a) b uncle n g)
            c
            t
            t'
  unfolding insert_turn
  insert_turn-inner s a n b sib uncle u g c t zip dark is =
      let low : Shape = mk s a n b in
      let kg : Crumb = crumb s g uncle in
      let zip_u = zoom_in (mk s sib u low) kg c zip in
      let (t1, run1, p1) = rotate-Turned z top s sib a b u n (kg ∷ c) t zip_u in
      let move : (if n.addr == n.addr then (rotate s u.addr >> pure u.addr) else pure n.addr) t
          ≡ done u.addr t1 =
        then_lem (n.addr == n.addr) _ _ t (==_refl n.addr) ∙ rw run1 refl in
      let q1 = Turned-out (mk s sib u low) (mk s (mk s sib u a) n b) kg c p1 in
      let (t', run, turned) = rise-Turned s s sib u a b uncle n g c t1 q1.zipper in
      (
        t',
        rw (far_at s (mk s sib u low) g uncle c zip) (
            rw (uncle_red s (mk s sib u low) uncle g c t zip dark) (
              else_lem (root_red uncle) _ _ t is
              ∙ rw (far_at s sib u low (kg ∷ c) zip_u ∙ ap (λ p. done p t) (ptr-mk z s a n b))
                  (rw move run))),
        Turned-trans q1 turned,
      )
