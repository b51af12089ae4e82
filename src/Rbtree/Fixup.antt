-- ===== src/Rbtree/Fixup.antt =====
-- The loop of nc_rbtree_insert that rebalances.
pub mod Steps
pub mod Red
use libnc.Prelude.{
  ℕ, zero, suc, ◌+◌, ◌≤◌, ◌<◌, true, false, List, [], ◌∷◌, ◌==◌, ne→==, ==_refl, Bool-cases, length,
  if◌then◌else◌, ◌⊎◌, inl, inr, ◌≡◌, refl, sym, ap, subst, ◌∙◌, arith,
}
use libnc.Memory.{Addr}
use libnc.Rbtree.Store.{Side, left, right, other, Tree, done, is_red, red, black, child}
use libnc.Rbtree.Shape.{Label, Shape, nil, fork, mk, Crumb, plug, count, count-mk, here_eq}
use libnc.Rbtree.Stands.{paint, ptr, above, root_of, root_of-count, Stands-parts, ptr-mk, ptr_apart}
use libnc.Rbtree.Focus.{
  Zipper, Turned, Turned-trans, zoom_out, zoom_in, Turned-out, IsDark, Turned-IsDark, root_red,
  is_red_lem,
}
use libnc.Rbtree.Relink.{then_lem, else_lem}
use libnc.Rbtree.Turn.{
  crumb, mk-other, parent_at, near_at, far_at, zoom_far, risen, insert_turn-recolor,
  insert_turn-outer, insert_turn-inner,
}
use libnc.Rbtree.Colors.{
  RedBlack, WayRedBlack, above_red, root_red-mk, RedBlack-red, RedBlack-black, red_parts,
  plug-RedBlack, RedParent, grand, red_parent,
}
use libnc.Rbtree.{insert_turn, insert_fixup}
use libnc.Rbtree.Fixup.Steps.{
  Fixed, Turned-refl, fixup_under_black, fixup_at_root, fixup_turns, plugged, Fixed-after,
  risen_ends, Side-cases, as_side,
}
use libnc.Rbtree.Fixup.Red.{Rebalances, Clash, red_uncle, outer_node, inner_node}

-- The same clash, with the side of the parent and the subtrees of the node named by another side.
renamed :
    (z top : Addr) (s ku side : Side) (l : Shape) (n : Label) (r sib : Shape) (u g : Label)
    (c : List Crumb) (h : ℕ) (t : Tree) (uncle a b : Shape)
    → ku ≡ other s
    → mk side l n r ≡ mk s a n b
    → Clash z top s ku side l n r sib u g c h t uncle
    → Clash z top s (other s) s a n b sib u g c h t uncle
renamed z top s ku side l n r sib u g c h t uncle a b turned low e = record {
  zipper =
      subst (λ w. Zipper z top t (mk s (mk (other s) w u sib) g uncle) c) low
        (subst (λ ku. Zipper z top t (mk s (mk ku (mk side l n r) u sib) g uncle) c) turned
          e.zipper);
  dark = e.dark;
  n_red = e.n_red;
  u_red = e.u_red;
  n_colors = subst (λ w. RedBlack w h) low e.n_colors;
  sib_black = e.sib_black;
  sib_colors = e.sib_colors;
  uncle_colors = e.uncle_colors;
  way = e.way;
}

black_uncle :
    (z top : Addr) (s ku side : Side) (l : Shape) (n : Label) (r sib uncle : Shape) (u g : Label)
    (c : List Crumb) (h fuel : ℕ) (t : Tree)
    → 1 ≤ fuel
    → Clash z top s ku side l n r sib u g c h t uncle
    → root_red uncle ≡ false
    → (t' : Tree) × (insert_fixup (suc fuel) n.addr t ≡ done tt t')
      × Fixed z top (plug (mk s (mk ku (mk side l n r) u sib) g uncle) c) t t'
black_uncle z top s ku side l n r sib uncle u g c h zero t le e black = absurd (omega arith)
black_uncle z top s ku side l n r sib uncle u g c h (suc fuel) t le e black =
    elim (Side-cases s ku) [
      | inl same ↦
          let P : Side → Type 0 = λ ku.
            (t' : Tree) × (insert_fixup (suc (suc fuel)) n.addr t ≡ done tt t')
            × Fixed z top (plug (mk s (mk ku (mk side l n r) u sib) g uncle) c) t t' in
          subst P (sym same) (
            outer_node z top s side l n r sib uncle u g c h fuel t
              (subst (λ ku. Clash z top s ku side l n r sib u g c h t uncle) same e) black)
      | inr turned ↦
          let (a, b, low) = as_side s side l n r in
          let P : Side → Shape → Type 0 = λ ku w.
            (t' : Tree) × (insert_fixup (suc (suc fuel)) n.addr t ≡ done tt t')
            × Fixed z top (plug (mk s (mk ku w u sib) g uncle) c) t t' in
          subst (λ ku. P ku (mk side l n r)) (sym turned)
            (subst (λ w. P (other s) w) (sym low)
              (inner_node z top s s a n b sib uncle u g c h fuel t
                (renamed z top s ku side l n r sib u g c h t uncle a b turned low e) black))
    ]

any_uncle :
    (z top : Addr) (s ku side : Side) (l : Shape) (n : Label) (r sib uncle : Shape) (u g : Label)
    (c : List Crumb) (h fuel : ℕ) (t : Tree)
    → Rebalances z top fuel
    → length c + 1 < fuel
    → Clash z top s ku side l n r sib u g c h t uncle
    → (t' : Tree) × (insert_fixup (suc fuel) n.addr t ≡ done tt t')
      × Fixed z top (plug (mk s (mk ku (mk side l n r) u sib) g uncle) c) t t'
any_uncle z top s ku side l n r sib nil u g c h fuel t again le e =
    black_uncle z top s ku side l n r sib nil u g c h fuel t (omega arith) e refl
any_uncle z top s ku side l n r sib (fork yl y yr) u g c h fuel t again le e =
    elim (Bool-cases y.red) [
      | inl is ↦ red_uncle z top s ku side l n r sib u g c h t fuel yl y yr again (omega arith) e is
      | inr black ↦
          black_uncle z top s ku side l n r sib (fork yl y yr) u g c h fuel t (omega arith) e black
    ]

red_turn :
    (z top : Addr) (fuel : ℕ) (side : Side) (l : Shape) (n : Label) (r : Shape) (k : Crumb)
    (c : List Crumb) (h : ℕ) (t : Tree)
    → Rebalances z top fuel
    → length (k ∷ c) < suc fuel
    → Zipper z top t (mk side l n r) (k ∷ c)
    → IsDark z t
    → n.red ≡ true
    → RedBlack (mk side l n r) h
    → RedParent k c h
    → k.label.red ≡ true
    → (t' : Tree) × (insert_fixup (suc fuel) n.addr t ≡ done tt t')
      × Fixed z top (plug (mk side l n r) (k ∷ c)) t t'
red_turn z top fuel side l n r k _ h t again le zip dark n_red v
      (grand _ g {c} calm vsib is_black vunc way) u_red =
    let zip_g =
      zoom_out (mk k.side (mk side l n r) k.label k.far) g c
        (zoom_out (mk side l n r) k (g ∷ c) zip) in
    let clash : Clash z top g.side k.side side l n r k.far k.label g.label c h t g.far = record {
      zipper = zip_g;
      dark = dark;
      n_red = n_red;
      u_red = u_red;
      n_colors = v;
      sib_black = calm;
      sib_colors = vsib;
      uncle_colors = vunc;
      way = way;
    } in
    any_uncle z top g.side k.side side l n r k.far g.far k.label g.label c h fuel t again
      (omega arith) clash

pub insert_fixup-Rebalances : (z top : Addr) (fuel : ℕ) → Rebalances z top fuel
insert_fixup-Rebalances z top zero s l n r c h t le zip dark red v way = absurd (omega arith)
insert_fixup-Rebalances z top (suc fuel) s l n r [] h t le zip dark red v way = (
  t,
  fixup_at_root s l n r fuel zip,
  record { shape = mk s l n r; turned = Turned-refl zip; height = h; colors = v },
)
insert_fixup-Rebalances z top (suc fuel) s l n r (k ∷ c) h t le zip dark red v way =
    elim (Bool-cases k.label.red) [
      | inr black ↦ (
        t,
        fixup_under_black s l n r k c fuel zip dark black,
        plugged (mk s l n r) (mk s l n r) (k ∷ c) h (Turned-refl zip) v way (λ e. black),
      )
      | inl up_red ↦
          red_turn z top fuel s l n r k c h t (insert_fixup-Rebalances z top fuel) le zip dark red v
            (red_parent way up_red) up_red
    ]
