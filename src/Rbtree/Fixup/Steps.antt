-- ===== src/Rbtree/Fixup/Steps.antt =====
-- The steps of the loop of nc_rbtree_insert that rebalances, and where it ends.
use libnc.Prelude.{
  ℕ, suc, true, false, List, [], ◌∷◌, ◌==◌, ne→==, ==_refl, if◌then◌else◌, ◌⊎◌, inl, inr, ◌≡◌, refl,
  sym, ap, ◌∙◌, arith,
}
use libnc.Memory.{Addr}
use libnc.Rbtree.Store.{Side, left, right, other, Tree, done, is_red, child}
use libnc.Rbtree.Shape.{Label, Shape, mk, Crumb, plug, count, count-mk, here_eq}
use libnc.Rbtree.Stands.{paint, ptr, above, root_of, root_of-count, Stands-parts, ptr-mk, ptr_apart}
use libnc.Rbtree.Focus.{
  Zipper, Turned, Turned-trans, zoom_out, zoom_in, Turned-out, IsDark, root_red, is_red_lem,
}
use libnc.Rbtree.Relink.{then_lem, else_lem}
use libnc.Rbtree.Turn.{crumb, parent_at, near_at, far_at, zoom_far, risen}
use libnc.Rbtree.Colors.{
  RedBlack, WayRedBlack, above_red, root_red-mk, RedBlack-red, RedBlack-black, plug-RedBlack,
}
use libnc.Rbtree.{insert_turn, insert_fixup}

-- What the loop leaves of a tree w: the same nodes in the same order, and the rules on the colors
-- but for that on the root.
pub record Fixed (z top : Addr) (w : Shape) (t t' : Tree) : Type 0 where
  pub shape : Shape
  pub turned : Turned z top w shape [] t t'
  pub height : ℕ
  pub colors : RedBlack shape height

module _ {z top : Addr} where
  pub Turned-refl :
      {s : Shape} {c : List Crumb} {t : Tree} → Zipper z top t s c → Turned z top s s c t t
  Turned-refl zip = record { zipper = zip; items = refl; kept = λ a. refl; same = λ a h. refl }

  -- The same change, seen from the root.
  pub Turned-plug :
      {t t' : Tree} (s s' : Shape) (c : List Crumb)
      → Turned z top s s' c t t'
      → Turned z top (plug s c) (plug s' c) [] t t'
  Turned-plug s s' [] p = p
  Turned-plug s s' (k ∷ c) p =
      Turned-plug (mk k.side s k.label k.far) (mk k.side s' k.label k.far) c (Turned-out s s' k c p)

  -- The side of the grandparent that the parent is on.
  pub side_test :
      {t : Tree} (s side : Side) (l : Shape) (u : Label) (r : Shape) (g : Label) (uncle : Shape)
      (c : List Crumb)
      → Zipper z top t (mk s (mk side l u r) g uncle) c
      → (q : Addr) × (child left g.addr t ≡ done q t) × ((if u.addr == q then left else right) ≡ s)
  side_test {t} left side l u r g uncle c zip = (
    u.addr,
    near_at left (mk side l u r) g uncle c zip ∙ ap (λ p. done p t) (ptr-mk z side l u r),
    ap (λ b. if b then left else right) (==_refl u.addr),
  )
  side_test {t} right side l u r g uncle c zip =
      let zip_u = zoom_in (mk side l u r) (crumb right g uncle) c zip in
      let u_ne = (Stands-parts z t.node g.addr side l u r zip_u.stands).1 in
      let apart = ptr_apart z t.node g.addr uncle u.addr u_ne (
        omega (arith, zip_u.once u.addr, count-mk u.addr side l u r, here_eq u.addr u.addr refl)) in
      (
        ptr z uncle,
        far_at right (mk side l u r) g uncle c zip,
        ap (λ b. if b then left else right) (ne→== _ _ (λ e. apart (sym e))),
      )

  -- A turn of the loop, split as in the code.
  pub not_root :
      {t : Tree} (s : Side) (l : Shape) (n : Label) (r : Shape) (k : Crumb) (c : List Crumb)
      → Zipper z top t (mk s l n r) (k ∷ c)
      → (n.addr == t.root) ≡ false
  not_root {t} s l n r k c zip = ne→== n.addr t.root (λ e. absurd (
      omega (
        arith,
        zip.once (root_of n.addr (k ∷ c)),
        root_of-count n.addr k c,
        ap (λ a. count a (mk s l n r)) (e ∙ zip.root),
        count-mk n.addr s l n r,
        here_eq n.addr n.addr refl,
      )))

  parent_red :
      {t : Tree} (s : Shape) (k : Crumb) (c : List Crumb)
      → Zipper z top t s (k ∷ c)
      → IsDark z t
      → is_red k.label.addr t ≡ done k.label.red t
  parent_red {t} s k c zip dark =
      let out = zoom_out s k c zip in
      let e = is_red_lem z t (above top c) (mk k.side s k.label k.far) dark out.stands in
      ap (λ p. is_red p t) (sym (ptr-mk z k.side s k.label k.far))
      ∙ e
      ∙ ap (λ b. done b t) (root_red-mk k.side s k.label k.far)

  -- The loop ends under a black parent.
  pub fixup_under_black :
      {t : Tree} (s : Side) (l : Shape) (n : Label) (r : Shape) (k : Crumb) (c : List Crumb)
      (fuel : ℕ)
      → Zipper z top t (mk s l n r) (k ∷ c)
      → IsDark z t
      → k.label.red ≡ false
      → insert_fixup (suc fuel) n.addr t ≡ done tt t
  unfolding insert_fixup
  fixup_under_black {t} s l n r k c fuel zip dark is =
      else_lem (n.addr == t.root) _ _ t (not_root s l n r k c zip)
      ∙ rw (parent_at s l n r (k ∷ c) zip)
          (rw (parent_red (mk s l n r) k c zip dark) (else_lem k.label.red _ _ t is))

  pub fixup_at_root :
      {t : Tree} (s : Side) (l : Shape) (n : Label) (r : Shape) (fuel : ℕ)
      → Zipper z top t (mk s l n r) []
      → insert_fixup (suc fuel) n.addr t ≡ done tt t
  unfolding insert_fixup
  fixup_at_root {t} s l n r fuel zip =
      then_lem (n.addr == t.root) _ _ t
        (ap (λ p. n.addr == p) (zip.root ∙ ptr-mk z s l n r) ∙ ==_refl n.addr)

  -- Under a red parent the loop makes a turn at the grandparent.
  pub fixup_turns :
      {t : Tree} (s side : Side) (l : Shape) (n : Label) (r sib uncle : Shape) (u g : Label)
      (ku : Side) (c : List Crumb) (fuel : ℕ) (q : Addr) (t' : Tree)
      → Zipper z top t (mk s (mk ku (mk side l n r) u sib) g uncle) c
      → IsDark z t
      → u.red ≡ true
      → insert_turn s n.addr u.addr g.addr t ≡ done q t'
      → insert_fixup (suc fuel) n.addr t ≡ insert_fixup fuel q t'
  unfolding insert_fixup
  fixup_turns {t} s side l n r sib uncle u g ku c fuel q t' zip dark is turn =
      let low : Shape = mk side l n r in
      let kg : Crumb = crumb s g uncle in
      let k : Crumb = crumb ku u sib in
      let zip_u = zoom_in (mk ku low u sib) kg c zip in
      let zip_n = zoom_in low k (kg ∷ c) zip_u in
      let (p, child_run, test) = side_test s ku low u sib g uncle c zip in
      else_lem (n.addr == t.root) _ _ t (not_root side l n r k (kg ∷ c) zip_n)
      ∙ rw (parent_at side l n r (k ∷ kg ∷ c) zip_n) (
          rw (parent_red low k (kg ∷ c) zip_n dark) (
            then_lem u.red _ _ t is
            ∙ rw (parent_at ku low u sib (kg ∷ c) zip_u) (
                rw child_run
                  (rw (ap (λ s. insert_turn s n.addr u.addr g.addr t) test ∙ turn) refl))))

  pub plugged :
      {t t' : Tree} (s s' : Shape) (c : List Crumb) (h : ℕ)
      → Turned z top s s' c t t'
      → RedBlack s' h
      → WayRedBlack c h
      → (root_red s' ≡ true → above_red c ≡ false)
      → Fixed z top (plug s c) t t'
  plugged s s' c h turned v way calm =
      let (h', v') = plug-RedBlack s' v way calm in
      record { shape = plug s' c; turned = Turned-plug s s' c turned; height = h'; colors = v' }

  pub Fixed-after :
      {t t' t'' : Tree} (s s' : Shape) (c : List Crumb)
      → Turned z top s s' c t t'
      → Fixed z top (plug s' c) t' t''
      → Fixed z top (plug s c) t t''
  Fixed-after s s' c p q = record {
    shape = q.shape;
    turned = Turned-trans (Turned-plug s s' c p) q.turned;
    height = q.height;
    colors = q.colors;
  }

  -- After the rotation of the grandparent the loop ends, with the node under a black parent.
  pub risen_ends :
      {t t' : Tree} (s side : Side) (w : Shape) (l : Shape) (n : Label) (r sib uncle : Shape)
      (u g : Label) (c : List Crumb) (h fuel : ℕ)
      → Turned z top w (risen s (mk side l n r) sib uncle u g) c t t'
      → IsDark z t'
      → RedBlack (mk side l n r) h
      → RedBlack sib h
      → RedBlack uncle h
      → root_red sib ≡ false
      → root_red uncle ≡ false
      → WayRedBlack c (suc h)
      → (insert_fixup (suc fuel) n.addr t' ≡ done tt t') × Fixed z top (plug w c) t t'
  risen_ends s side w l n r sib uncle u g c h fuel turned dark vn vs vu bs bu way =
      let low : Shape = mk side l n r in
      let near : Shape = mk (other s) uncle (paint true g) sib in
      let vg = RedBlack-red (other s) (paint true g) refl bu bs vu vs in
      (
        fixup_under_black side l n r (crumb (other (other s)) (paint false u) near) c fuel
            (zoom_far (other s) near (paint false u) low c turned.zipper) dark refl,
        plugged w (risen s low sib uncle u g) c (suc h) turned
            (RedBlack-black (other s) (paint false u) refl vg vn) way
            (λ e. absurd (cc (root_red-mk (other s) near (paint false u) low))),
      )

pub Side-cases : (s side : Side) → (side ≡ s) ⊎ (side ≡ other s)
Side-cases left left = inl refl
Side-cases left right = inr refl
Side-cases right left = inr refl
Side-cases right right = inl refl

-- A tree with its subtrees named by another side.
pub as_side :
    (s side : Side) (l : Shape) (n : Label) (r : Shape)
    → (a : Shape) × (b : Shape) × (mk side l n r ≡ mk s a n b)
as_side left left l n r = (l, r, refl)
as_side left right l n r = (r, l, refl)
as_side right left l n r = (r, l, refl)
as_side right right l n r = (l, r, refl)
