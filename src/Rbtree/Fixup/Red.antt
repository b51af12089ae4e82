-- ===== src/Rbtree/Fixup/Red.antt =====
-- A turn of the loop of nc_rbtree_insert at a red node with a red parent.
use libnc.Prelude.{ℕ, suc, ◌<◌, true, false, List, length, ◌≡◌, refl, sym, subst, ◌∙◌}
use libnc.Memory.{Addr}
use libnc.Rbtree.Store.{Side, left, other, Tree, done, black}
use libnc.Rbtree.Shape.{Label, Shape, fork, mk, Crumb, plug}
use libnc.Rbtree.Stands.{paint}
use libnc.Rbtree.Focus.{Zipper, IsDark, Turned-IsDark, root_red}
use libnc.Rbtree.Turn.{mk-other, insert_turn-recolor, insert_turn-outer, insert_turn-inner}
use libnc.Rbtree.Colors.{
  RedBlack, WayRedBlack, root_red-mk, RedBlack-red, RedBlack-black, red_parts,
}
use libnc.Rbtree.{insert_fixup}
use libnc.Rbtree.Fixup.Steps.{Fixed, fixup_turns, Fixed-after, risen_ends}

-- That the loop ends from each place whose way is shorter than the fuel.
abbrev pub Rebalances : (z top : Addr) (fuel : ℕ) → Type 0
Rebalances z top fuel =
    (s : Side) (l : Shape) (n : Label) (r : Shape) (c : List Crumb) (h : ℕ) (t : Tree)
    → length c < fuel
    → Zipper z top t (mk s l n r) c
    → IsDark z t
    → n.red ≡ true
    → RedBlack (mk s l n r) h
    → WayRedBlack c h
    → (t' : Tree) × (insert_fixup fuel n.addr t ≡ done tt t')
      × Fixed z top (plug (mk s l n r) c) t t'

-- The node n is red and so is its parent u; the grandparent g is black.
module _ (z top : Addr) (s ku side : Side) (l : Shape) (n : Label) (r sib : Shape) (u g : Label)
    (c : List Crumb) (h : ℕ) (t : Tree) where
  pub record Clash (uncle : Shape) : Type 0 where
    pub zipper : Zipper z top t (mk s (mk ku (mk side l n r) u sib) g uncle) c
    pub dark : IsDark z t
    pub n_red : n.red ≡ true
    pub u_red : u.red ≡ true
    pub n_colors : RedBlack (mk side l n r) h
    pub sib_black : root_red sib ≡ false
    pub sib_colors : RedBlack sib h
    pub uncle_colors : RedBlack uncle h
    pub way : WayRedBlack c (suc h)

  pub red_uncle :
      (fuel : ℕ) (yl : Shape) (y : Label) (yr : Shape)
      → Rebalances z top fuel
      → length c < fuel
      → Clash (fork yl y yr)
      → y.red ≡ true
      → (t' : Tree) × (insert_fixup (suc fuel) n.addr t ≡ done tt t')
        × Fixed z top (plug (mk s (mk ku (mk side l n r) u sib) g (fork yl y yr)) c) t t'
  red_uncle fuel yl y yr again le e is =
      let low : Shape = mk side l n r in
      let u' : Shape = mk ku low (paint false u) sib in
      let uncle : Shape = fork yl y yr in
      let uncle' : Shape = fork yl (paint false y) yr in
      let (t1, turn, p) =
        insert_turn-recolor s ku low sib n.addr u g yl y yr c t e.zipper e.dark is in
      let (bl, br, vl, vr) = red_parts left yl y yr e.uncle_colors is in
      let colors : RedBlack (mk s u' (paint true g) uncle') (suc h) =
        RedBlack-red s (paint true g) refl (root_red-mk ku low (paint false u) sib) refl
          (RedBlack-black ku (paint false u) refl e.n_colors e.sib_colors)
          (RedBlack-black left (paint false y) refl vl vr) in
      let (t2, run, fixed) =
        again s u' (paint true g) uncle' c (suc h) t1 le p.zipper (Turned-IsDark e.zipper p e.dark)
          refl colors e.way in
      (
        t2,
        fixup_turns s side l n r sib uncle u g ku c fuel g.addr t1 e.zipper e.dark e.u_red turn
            ∙ run,
        Fixed-after (mk s (mk ku low u sib) g uncle) (mk s u' (paint true g) uncle') c p fixed,
      )

module _ (z top : Addr) (s side : Side) (l : Shape) (n : Label) (r sib uncle : Shape) (u g : Label)
    (c : List Crumb) (h fuel : ℕ) (t : Tree) where
  pub outer_node :
      Clash z top s s side l n r sib u g c h t uncle
      → root_red uncle ≡ false
      → (t' : Tree) × (insert_fixup (suc (suc fuel)) n.addr t ≡ done tt t')
        × Fixed z top (plug (mk s (mk s (mk side l n r) u sib) g uncle) c) t t'
  outer_node e black =
      let (t1, turn, p) = insert_turn-outer s side l n r sib uncle u g c t e.zipper e.dark black in
      let (ends, fixed) =
        risen_ends s side (mk s (mk s (mk side l n r) u sib) g uncle) l n r sib uncle u g c h fuel p
          (Turned-IsDark e.zipper p e.dark) e.n_colors e.sib_colors e.uncle_colors e.sib_black black
          e.way in
      (
        t1,
        fixup_turns s side l n r sib uncle u g s c (suc fuel) n.addr t1 e.zipper e.dark e.u_red turn
            ∙ ends,
        fixed,
      )

  pub inner_node :
      Clash z top s (other s) s l n r sib u g c h t uncle
      → root_red uncle ≡ false
      → (t' : Tree) × (insert_fixup (suc (suc fuel)) n.addr t ≡ done tt t')
        × Fixed z top (plug (mk s (mk (other s) (mk s l n r) u sib) g uncle) c) t t'
  inner_node e black =
      let low : Shape = mk s l n r in
      let flip : mk (other s) low u sib ≡ mk s sib u low = mk-other s low u sib in
      let zip = subst (λ w. Zipper z top t (mk s w g uncle) c) flip e.zipper in
      let (t1, turn, p) = insert_turn-inner s l n r sib uncle u g c t zip e.dark black in
      let (bl, br, vl, vr) = red_parts s l n r e.n_colors e.n_red in
      let (ends, fixed) =
        risen_ends s s (mk s (mk s sib u low) g uncle) sib u l r uncle n g c h fuel p
          (Turned-IsDark zip p e.dark) (RedBlack-red s u e.u_red e.sib_black bl e.sib_colors vl) vr
          e.uncle_colors br black e.way in
      (
        t1,
        fixup_turns s s l n r sib uncle u g (other s) c (suc fuel) u.addr t1 e.zipper e.dark e.u_red
              turn
            ∙ ends,
        subst (λ w. Fixed z top (plug (mk s w g uncle) c) t t1) (sym flip) fixed,
      )
