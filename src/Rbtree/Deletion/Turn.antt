-- ===== src/Rbtree/Deletion/Turn.antt =====
-- A whole turn of the loop of nc_rbtree_delete, from its sibling on.
use libnc.Prelude.{
  true, false, List, ◌∷◌, if◌then◌else◌, ◌⊎◌, inl, inr, Bool-cases, ◌≡◌, refl, ap, ◌∙◌,
}
use libnc.Memory.{Addr}
use libnc.Rbtree.Store.{
  Side, left, right, other, Tree, done, Cmd, pure, ◌>>=◌, ◌>>◌, update, is_red, red, black,
  copy_color, parent, child, tree,
}
use libnc.Rbtree.Links.{rotate}
use libnc.Rbtree.Removal.{sibling, far_red, delete_turn}
use libnc.Rbtree.Shape.{Label, Shape, fork, mk, Crumb}
use libnc.Rbtree.Stands.{paint, ptr, above, Stands-parts, ptr-mk, node_of-color, load_lem}
use libnc.Rbtree.Focus.{
  Zipper, Turned, Turned-trans, zoom_in, paint-Turned, IsDark, root_red, is_red_lem,
}
use libnc.Rbtree.Colors.{root_red-mk}
use libnc.Rbtree.Rotation.{rotate-Turned}
use libnc.Rbtree.Relink.{then_lem, else_lem}
use libnc.Rbtree.Turn.{crumb, near_at, far_at, zoom_far, Turned-far}
use libnc.Rbtree.Deletion.Sibling.{Below, parent_of, Turned-Below, far_red_red, far_red_black}

-- The end of a turn that makes the sibling red.
abbrev pub recolored : (temp w : Addr) → Cmd Addr
recolored temp w = do red w; parent temp

-- The end of a turn that rotates the parent.
abbrev lifted : Side → (temp w : Addr) → Cmd Addr
lifted s temp w = do
  up ← parent temp
  copy_color w up
  black up
  far ← child (other s) w
  black far
  rotate s up
  t ← tree
  pure t.root

abbrev turned_over : Side → (temp w : Addr) → Cmd Addr
turned_over s temp w = do w' ← far_red s temp w; lifted s temp w'

-- The tests of the children of the sibling, left one first.
abbrev tests : Addr → (some_red none_red : Cmd Addr) → Cmd Addr
tests w some_red none_red = do
  l ← child left w
  l_red ← is_red l
  let right_first : Cmd Addr = do
    r ← child right w
    r_red ← is_red r
    if r_red then some_red else none_red
  if l_red then some_red else right_first

module _ {z top : Addr} where
  tests_fork :
      {t : Tree} (l : Shape) (w : Label) (r : Shape) (c : List Crumb) (x y : Cmd Addr)
      → Zipper z top t (fork l w r) c
      → IsDark z t
      → tests w.addr x y t ≡ (if root_red l then x else (if root_red r then x else y)) t
  tests_fork {t} l w r c x y zip dark =
      let (at, ne, sl, sr) = zip.stands in
      rw (near_at left l w r c zip) (
        rw (is_red_lem z t w.addr l dark sl) (elim (Bool-cases (root_red l)) [
          | inl e ↦ rw e refl
          | inr e ↦ rw e (rw (far_at left l w r c zip) (rw (is_red_lem z t w.addr r dark sr) refl))
        ]))

  tests_black :
      {t : Tree} (s : Side) (i : Shape) (w : Label) (o : Shape) (c : List Crumb) (x y : Cmd Addr)
      → Zipper z top t (mk s i w o) c
      → IsDark z t
      → root_red i ≡ false
      → root_red o ≡ false
      → tests w.addr x y t ≡ y t
  tests_black {t} left i w o c x y zip dark bi bo =
      tests_fork i w o c x y zip dark
      ∙ else_lem (root_red i) x _ t bi
      ∙ else_lem (root_red o) x y t bo
  tests_black {t} right i w o c x y zip dark bi bo =
      tests_fork o w i c x y zip dark
      ∙ else_lem (root_red o) x _ t bo
      ∙ else_lem (root_red i) x y t bi

  tests_red :
      {t : Tree} (s : Side) (i : Shape) (w : Label) (o : Shape) (c : List Crumb) (x y : Cmd Addr)
      → Zipper z top t (mk s i w o) c
      → IsDark z t
      → (root_red i ≡ true) ⊎ (root_red o ≡ true)
      → tests w.addr x y t ≡ x t
  tests_red {t} left i w o c x y zip dark (inl e) =
      tests_fork i w o c x y zip dark ∙ then_lem (root_red i) x _ t e
  tests_red {t} left i w o c x y zip dark (inr e) =
      tests_fork i w o c x y zip dark ∙ elim (Bool-cases (root_red i)) [
        | inl e' ↦ then_lem (root_red i) x _ t e'
        | inr e' ↦ else_lem (root_red i) x _ t e' ∙ then_lem (root_red o) x y t e
      ]
  tests_red {t} right i w o c x y zip dark (inr e) =
      tests_fork o w i c x y zip dark ∙ then_lem (root_red o) x _ t e
  tests_red {t} right i w o c x y zip dark (inl e) =
      tests_fork o w i c x y zip dark ∙ elim (Bool-cases (root_red o)) [
        | inl e' ↦ then_lem (root_red o) x _ t e'
        | inr e' ↦ else_lem (root_red o) x _ t e' ∙ then_lem (root_red i) x y t e
      ]

  copy_color-Turned :
      (t : Tree) (s : Side) (b : Shape) (u : Label) (i : Shape) (w : Label) (o : Shape)
      (c : List Crumb)
      → Zipper z top t (mk s b u (mk s i w o)) c
      → (t' : Tree) × (copy_color w.addr u.addr t ≡ done tt t')
        × Turned z top (mk s b u (mk s i w o)) (mk s b u (mk s i (paint u.red w) o)) c t t'
  copy_color-Turned t s b u i w o c zip =
      let zip_w = zoom_far s b u (mk s i w o) c zip in
      let (t1, run, p) = paint-Turned u.red s i w o (crumb (other s) u b ∷ c) t zip_w in
      let at = (Stands-parts z t.node (above top c) s b u (mk s i w o) zip.stands).0 in
      (
        t1,
        rw (load_lem t u.addr _ at) (
            ap (λ k. update w.addr (λ m. record m { color = k }) t)
              (node_of-color s (ptr z b) (ptr z (mk s i w o)) (above top c) u)
            ∙ run),
        Turned-far s b u (mk s i w o) (mk s i (paint u.red w) o) c p,
      )

  lifted-Turned :
      (t : Tree) (s side : Side) (b : Shape) (u : Label) (i : Shape) (w : Label) (ol : Shape)
      (o : Label) (or : Shape) (c : List Crumb)
      → Zipper z top t (mk s b u (mk s i w (mk side ol o or))) c
      → Below z t u.addr b
      → (t' : Tree) × (lifted s (ptr z b) w.addr t ≡ done t'.root t')
        × Turned z top
            (mk s b u (mk s i w (mk side ol o or)))
            (mk s (mk s b (paint false u) i) (paint u.red w) (mk side ol (paint false o) or))
            c
            t
            t'
  lifted-Turned t s side b u i w ol o or c zip below =
      let out : Shape = mk side ol o or in
      let w' : Label = paint u.red w in
      let u' : Label = paint false u in
      let (t1, run1, q1) = copy_color-Turned t s b u i w out c zip in
      let (t2, run2, q2) = paint-Turned false s b u (mk s i w' out) c t1 q1.zipper in
      let zip_w = zoom_far s b u' (mk s i w' out) c q2.zipper in
      let kw : Crumb = crumb (other s) u' b in
      let (t3, run3, p3) =
        paint-Turned false side ol o or (crumb (other s) w' i ∷ kw ∷ c) t2
          (zoom_far s i w' out (kw ∷ c) zip_w) in
      let out' : Shape = mk side ol (paint false o) or in
      let q3 =
        Turned-far s b u' (mk s i w' out) (mk s i w' out') c
          (Turned-far s i w' out out' (kw ∷ c) p3) in
      let (t4, run4, q4) = rotate-Turned z top s b i out' u' w' c t3 q3.zipper in
      (
        t4,
        rw
            (parent_of b (crumb s u (mk s i w out)) c (zoom_in b (crumb s u (mk s i w out)) c zip)
              below)
            (rw run1 (
              rw run2 (
                rw (far_at s i w' out (kw ∷ c) zip_w ∙ ap (λ p. done p t2) (ptr-mk z side ol o or))
                  (rw run3 (rw run4 refl))))),
        Turned-trans q1 (Turned-trans q2 (Turned-trans q3 q4)),
      )

-- A turn from its tests on.
abbrev pub rest : Side → (temp w : Addr) → Cmd Addr
rest s temp w = tests w (turned_over s temp w) (recolored temp w)

pub delete_turn-rest :
    (t t' : Tree) (s : Side) (temp w : Addr)
    → sibling s temp t ≡ done w t'
    → delete_turn s temp t ≡ rest s temp w t'
unfolding delete_turn
delete_turn-rest t t' s temp w run = rw run refl

module _ {z top : Addr} where
  -- Both children of the sibling are black.
  pub rest-recolored :
      (t : Tree) (s : Side) (b : Shape) (u : Label) (i : Shape) (w : Label) (o : Shape)
      (c : List Crumb)
      → Zipper z top t (mk s b u (mk s i w o)) c
      → Below z t u.addr b
      → IsDark z t
      → root_red i ≡ false
      → root_red o ≡ false
      → (t' : Tree) × (rest s (ptr z b) w.addr t ≡ done u.addr t')
        × Turned z top (mk s b u (mk s i w o)) (mk s b u (mk s i (paint true w) o)) c t t'
  rest-recolored t s b u i w o c zip below dark bi bo =
      let kw : Crumb = crumb (other s) u b in
      let far : Shape = mk s i (paint true w) o in
      let zip_w = zoom_far s b u (mk s i w o) c zip in
      let (t1, run, p) = paint-Turned true s i w o (kw ∷ c) t zip_w in
      let q = Turned-far s b u (mk s i w o) far c p in
      (
        t1,
        tests_black s i w o (kw ∷ c) (turned_over s (ptr z b) w.addr) (recolored (ptr z b) w.addr)
              zip_w dark bi bo
            ∙ rw run (
                parent_of b (crumb s u far) c (zoom_in b (crumb s u far) c q.zipper)
                  (Turned-Below u.addr b zip q below)),
        q,
      )

  -- The far child of the sibling is red.
  pub rest-far :
      (t : Tree) (s : Side) (b : Shape) (u : Label) (i : Shape) (w : Label) (ol : Shape) (o : Label)
      (or : Shape) (c : List Crumb)
      → Zipper z top t (mk s b u (mk s i w (fork ol o or))) c
      → Below z t u.addr b
      → IsDark z t
      → o.red ≡ true
      → (t' : Tree) × (rest s (ptr z b) w.addr t ≡ done t'.root t')
        × Turned z top
            (mk s b u (mk s i w (fork ol o or)))
            (mk s (mk s b (paint false u) i) (paint u.red w) (fork ol (paint false o) or))
            c
            t
            t'
  rest-far t s b u i w ol o or c zip below dark is =
      let out : Shape = fork ol o or in
      let kw : Crumb = crumb (other s) u b in
      let zip_w = zoom_far s b u (mk s i w out) c zip in
      let (t', run, p) = lifted-Turned t s left b u i w ol o or c zip below in
      (
        t',
        tests_red s i w out (kw ∷ c) (turned_over s (ptr z b) w.addr) (recolored (ptr z b) w.addr)
              zip_w dark (inr is)
            ∙ rw (far_red_red s b u i w out c zip dark is) run,
        p,
      )

  -- Only the near child of the sibling is red.
  pub rest-near :
      (t : Tree) (s : Side) (b : Shape) (u : Label) (i : Shape) (y : Label) (j : Shape) (w : Label)
      (o : Shape) (c : List Crumb)
      → Zipper z top t (mk s b u (mk s (mk s i y j) w o)) c
      → Below z t u.addr b
      → IsDark z t
      → y.red ≡ true
      → root_red o ≡ false
      → (t' : Tree) × (rest s (ptr z b) w.addr t ≡ done t'.root t')
        × Turned z top
            (mk s b u (mk s (mk s i y j) w o))
            (mk s (mk s b (paint false u) i) (paint u.red y) (mk s j (paint false w) o))
            c
            t
            t'
  rest-near t s b u i y j w o c zip below dark is bo =
      let near : Shape = mk s i y j in
      let kw : Crumb = crumb (other s) u b in
      let zip_w = zoom_far s b u (mk s near w o) c zip in
      let (t1, run1, p1) = far_red_black t s b u i y j w o c zip below dark bo in
      let (t2, run2, p2) =
        lifted-Turned t1 s s b u i (paint false y) j (paint true w) o c p1.zipper
          (Turned-Below u.addr b zip p1 below) in
      (
        t2,
        tests_red s near w o (kw ∷ c) (turned_over s (ptr z b) w.addr) (recolored (ptr z b) w.addr)
              zip_w dark (inl (root_red-mk s i y j ∙ is))
            ∙ rw run1 run2,
        Turned-trans p1 p2,
      )
