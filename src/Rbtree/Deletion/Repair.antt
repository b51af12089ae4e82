-- ===== src/Rbtree/Deletion/Repair.antt =====
-- The loop of nc_rbtree_delete that rebalances.
use libnc.Prelude.{
  ℕ, zero, suc, ◌≤◌, ◌<◌, true, false, List, [], ◌∷◌, ◌==◌, ==_refl, Bool-cases, length, inl, inr,
  ◌≡◌, ◌≢◌, refl, sym, ap, subst, ◌∙◌, arith,
}
use libnc.Memory.{Addr}
use libnc.Rbtree.Store.{Side, left, right, Tree, and_then, red}
use libnc.Rbtree.Removal.{delete_turn, delete_fixup}
use libnc.Rbtree.Shape.{Label, Shape, nil, fork, mk, Crumb, plug}
use libnc.Rbtree.Stands.{paint, ptr, above, ptr-mk}
use libnc.Rbtree.Focus.{Zipper, zoom_out, zoom_in, paint-Turned, IsDark, Turned-IsDark, root_red}
use libnc.Rbtree.Relink.{then_lem}
use libnc.Rbtree.Turn.{crumb}
use libnc.Rbtree.Colors.{
  RedBlack, leaf, WayRedBlack, red_step, black_step, root_red-mk, RedBlack-black, red_parts,
}
use libnc.Rbtree.Fixup.Steps.{as_side}
use libnc.Rbtree.Invariant.{IsRedBlack}
use libnc.Rbtree.Deletion.Sibling.{Below, Turned-Below, sibling_black, sibling_red}
use libnc.Rbtree.Deletion.Turn.{delete_turn-rest}
use libnc.Rbtree.Deletion.Shortage.{Deficit, Again, root_rest_mends, red_ends}
use libnc.Rbtree.Deletion.Mending.{
  Lacks, lacks_red, lacks_black, mend, Mended, Mended-after, loop_turns, Mends,
}

-- A whole turn of the loop, from the short subtree on.
module _ (z top : Addr) (fuel : ℕ) (t : Tree) (s : Side) (b : Shape) (u : Label) (c : List Crumb)
    (h : ℕ) where
  abbrev TurnEnds : Shape → Type 0
  TurnEnds far =
      Mended z top (plug (mk s b u far) c) t (and_then (delete_turn s (ptr z b) t) (mend fuel))

  turn_black :
      (w : Shape)
      → Deficit z top fuel t s b u c h w
      → Again z top fuel t s b u c h
      → 1 ≤ fuel
      → root_red w ≡ false
      → RedBlack w (suc h)
      → TurnEnds w
  turn_black w d again le is v =
      let run = sibling_black s b u w c d.zipper d.below d.dark is in
      let (t', w', ends, turned, colors) =
        root_rest_mends z top fuel t s b u c h w d again le is v in
      (
        t',
        w',
        ap (λ r. and_then r (mend fuel)) (delete_turn-rest t t s (ptr z b) (ptr z w) run) ∙ ends,
        turned,
        colors,
      )

  red_way :
      {far : Shape} (i : Shape) (w : Label) (o : Shape)
      → WayRedBlack (crumb s u far ∷ c) (suc h)
      → root_red far ≡ true
      → root_red i ≡ false
      → RedBlack i (suc h)
      → RedBlack o (suc h)
      → WayRedBlack (crumb s (paint true u) i ∷ crumb s (paint false w) o ∷ c) (suc h)
  red_way i w o (red_step _ is up calm vf way) red bi vi vo = absurd (cc)
  red_way i w o (black_step _ is vf way) red bi vi vo =
      red_step (crumb s (paint true u) i) refl refl bi vi
        (black_step (crumb s (paint false w) o) refl vo way)

  -- The loop ends at the parent that a red sibling has made red.
  red_parent_ends :
      (t1 : Tree) (k : Crumb) → 1 ≤ fuel → Again z top fuel t1 s b (paint true u) (k ∷ c) h
  red_parent_ends t1 k le far j t' zip dark (lacks_black i is e vl vr) way = absurd (cc)
  red_parent_ends t1 k le far j t' zip dark (lacks_red is vl vr) way =
      red_ends z top fuel s b (paint true u) far k c j t' le zip dark is vl vr way

  turn_red :
      (i : Shape) (w : Label) (o : Shape)
      → Deficit z top fuel t s b u c h (mk s i w o)
      → 1 ≤ fuel
      → w.red ≡ true
      → RedBlack (mk s i w o) (suc h)
      → TurnEnds (mk s i w o)
  turn_red i w o d le is v =
      let (bi, bo, vi, vo) = red_parts s i w o v is in
      let u' : Label = paint true u in
      let k : Crumb = crumb s (paint false w) o in
      let (t1, run, p) = sibling_red t s b u i w o c d.zipper d.below d.dark is in
      let d' : Deficit z top fuel t1 s b u' (k ∷ c) h i = record {
        zipper = zoom_in (mk s b u' i) k c p.zipper;
        below = Turned-Below u.addr b d.zipper p d.below;
        dark = Turned-IsDark d.zipper p d.dark;
        b_black = d.b_black;
        b_colors = d.b_colors;
        way = red_way i w o d.way (root_red-mk s i w o ∙ is) bi vi vo;
      } in
      Mended-after (mk s b u (mk s i w o)) (mk s (mk s b u' i) (paint false w) o) c p
        (ap (λ r. and_then r (mend fuel)) (delete_turn-rest t t1 s (ptr z b) (ptr z i) run))
        (root_rest_mends z top fuel t1 s b u' (k ∷ c) h i d' (red_parent_ends t1 k le) le bi vi)

  full_turn :
      (w : Shape)
      → Deficit z top fuel t s b u c h w
      → Again z top fuel t s b u c h
      → 1 ≤ fuel
      → RedBlack w (suc h)
      → TurnEnds w
  full_turn nil d again le (leaf _ e) = absurd (omega arith)
  full_turn (fork l w r) d again le v = elim (Bool-cases w.red) [
    | inr is ↦ turn_black (fork l w r) d again le is v
    | inl is ↦
        let (i, o, e) = as_side s left l w r in
        subst TurnEnds (sym e) (
          turn_red i w o (subst (Deficit z top fuel t s b u c h) e d) le is
            (subst (λ v. RedBlack v (suc h)) e v))
  ]

way_far : {k : Crumb} {c : List Crumb} {h : ℕ} → WayRedBlack (k ∷ c) h → RedBlack k.far h
way_far (red_step k is up calm far w) = far
way_far (black_step k is far w) = far

Below-mk :
    (z : Addr) (t : Tree) (p : Addr) (s : Side) (l : Shape) (x : Label) (r : Shape)
    → Below z t p (mk s l x r)
Below-mk z t p left l x r = tt
Below-mk z t p right l x r = tt

module _ (z top : Addr) where
  -- The loop at a black subtree below the root.
  black_loop :
      (fuel : ℕ) (b : Shape) (s : Side) (u : Label) (far : Shape) (c : List Crumb) (h : ℕ)
      (t : Tree)
      → Mends z top fuel
      → length c < fuel
      → Zipper z top t b (crumb s u far ∷ c)
      → Below z t u.addr b
      → IsDark z t
      → root_red b ≡ false
      → RedBlack b h
      → WayRedBlack (crumb s u far ∷ c) (suc h)
      → Mended z top (plug b (crumb s u far ∷ c)) t (mend (suc fuel) (ptr z b) t)
  black_loop fuel b s u nil c h t again le zip below dark calm v way = elim (way_far way) [
    | leaf _ e ↦ absurd (omega arith)
  ]
  black_loop fuel b s u (fork l w r) c h t again le zip below dark calm v way =
      let far : Shape = fork l w r in
      let zip_u = zoom_out b (crumb s u far) c zip in
      let d : Deficit z top fuel t s b u c h far = record {
        zipper = zip_u;
        below = below;
        dark = dark;
        b_black = calm;
        b_colors = v;
        way = way;
      } in
      let (t', w', run, turned, colors) =
        full_turn z top fuel t s b u c h far d
          (λ far k t' zip dark lacks way. again s b u far c k t' le zip dark lacks way)
          (omega arith) (way_far way) in
      (t', w', loop_turns s b u l w r c fuel zip_u below dark calm ∙ run, turned, colors)

  -- The loop ends at the root, which becomes black.
  mends_alone :
      (fuel : ℕ) (s : Side) (l : Shape) (x : Label) (r : Shape) (h : ℕ) (t : Tree)
      → Zipper z top t (mk s l x r) []
      → Lacks l x r h
      → Mended z top (mk s l x r) t (mend (suc fuel) x.addr t)
  unfolding delete_fixup
  mends_alone fuel s l x r h t zip lacks =
      let (t', run, p) = paint-Turned false s l x r [] t zip in
      let w : Shape = mk s l (paint false x) r in
      let colors : IsRedBlack w = elim lacks [
        | lacks_red is vl vr ↦ record {
          height = suc h;
          colors = RedBlack-black s (paint false x) refl vl vr;
          root_black = root_red-mk s l (paint false x) r;
        }
        | lacks_black j is e vl vr ↦ record {
          height = suc j;
          colors = RedBlack-black s (paint false x) refl vl vr;
          root_black = root_red-mk s l (paint false x) r;
        }
      ] in
      (
        t',
        w,
        rw
            (then_lem (x.addr == t.root) _ _ t
              (ap (λ p. x.addr == p) (zip.root ∙ ptr-mk z s l x r) ∙ ==_refl x.addr))
            run,
        p,
        colors,
      )

  loop-Mends : (fuel : ℕ) → Mends z top fuel
  loop-Mends zero s l x r c h t le zip dark lacks way = absurd (omega arith)
  loop-Mends (suc fuel) s l x r [] h t le zip dark lacks way =
      mends_alone fuel s l x r h t zip lacks
  loop-Mends (suc fuel) s l x r (k ∷ c) h t le zip dark (lacks_red is vl vr) way =
      red_ends z top (suc fuel) s l x r k c h t (omega arith) zip dark is vl vr way
  loop-Mends (suc fuel) s l x r (k ∷ c) h t le zip dark (lacks_black j is e vl vr) way =
      subst (λ p. Mended z top (plug (mk s l x r) (k ∷ c)) t (mend (suc fuel) p t))
        (ptr-mk z s l x r)
        (black_loop fuel (mk s l x r) k.side k.label k.far c h t (loop-Mends fuel) (omega arith) zip
          (Below-mk z t k.label.addr s l x r) dark (root_red-mk s l x r ∙ is)
          (subst (λ h. RedBlack (mk s l x r) h) (sym e) (RedBlack-black s x is vl vr)) way)

-- A subtree that lacks a black node on every way down, against h + 1 of them.
abbrev pub Short : Shape → ℕ → Type 0
Short nil h = h ≡ 0
Short (fork l x r) h = Lacks l x r h

-- Take a place of a tree in the store, not a sentinel in place of the whole tree, where each way
-- down the subtree b meets one black node fewer than the rules on the colors ask for there, and
-- the rest of the tree keeps the rules. If b is empty, the sentinel has the node above the place
-- as its parent. With more fuel than the place is deep, the loop of nc_rbtree_delete from b and
-- the statement after it end and run into nothing undefined. They leave a red-black tree with a
-- black root, of the same nodes in the same order, whose links stand in the store, and change no
-- other node.
pub delete_fixup-Mended :
    (z top : Addr) (fuel : ℕ) (b : Shape) (c : List Crumb) (h : ℕ) (t : Tree)
    → length c < fuel
    → Zipper z top t b c
    → t.root ≢ z
    → Below z t (above top c) b
    → IsDark z t
    → Short b h
    → WayRedBlack c (suc h)
    → Mended z top (plug b c) t (mend fuel (ptr z b) t)
delete_fixup-Mended z top fuel (fork l x r) c h t le zip ne below dark short way =
    loop-Mends z top fuel left l x r c h t le zip dark short way
delete_fixup-Mended z top fuel nil [] h t le zip ne below dark short way = absurd (ne zip.root)
delete_fixup-Mended z top zero nil (k ∷ c) h t le zip ne below dark short way = absurd (omega arith)
delete_fixup-Mended z top (suc fuel) nil (k ∷ c) h t le zip ne below dark short way =
    black_loop z top fuel nil k.side k.label k.far c h t (loop-Mends z top fuel) (omega arith) zip
      below dark refl (leaf h short) way
