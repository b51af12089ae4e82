-- ===== src/Rbtree/Deletion/Finish.antt =====
-- The statements of nc_rbtree_delete of src/nc_rbtree.c that take a node out below the root.
use libnc.Prelude.{
  ℕ, ◌+◌, ◌≤◌, ◌<◌, Bool, true, false, List, [], ◌∷◌, ◌++◌, some, Bool-cases, length, if◌then◌else◌,
  inl, inr, ◌≡◌, ◌≢◌, refl, sym, ap, subst, ◌∙◌, arith,
}
use libnc.Memory.{Addr, null}
use libnc.Rbtree.Store.{pos, Side, left, Node, Tree, done, Cmd, pure, ◌>>=◌, ◌>>◌, is_red}
use libnc.Rbtree.Links.{node_init}
use libnc.Rbtree.Removal.{splice_out}
use libnc.Rbtree.Shape.{
  Label, Shape, nil, fork, mk, Crumb, plug, items, item, count, count_way, count-plug,
}
use libnc.Rbtree.Stands.{put, put_at, put_apart, ptr, root_of-count, update_lem}
use libnc.Rbtree.Focus.{Zipper, IsDark, Turned-IsDark, root_red, Around-sentinel}
use libnc.Rbtree.Relink.{then_lem, else_lem}
use libnc.Rbtree.Colors.{
  RedBlack, leaf, red_node, black_node, WayRedBlack, above_red, red_parts, black_parts,
  plug-RedBlack,
}
use libnc.Rbtree.Fixup.Steps.{Turned-refl, Turned-plug}
use libnc.Rbtree.Order.{Item, IsSorted}
use libnc.Rbtree.Invariant.{Holds}
use libnc.Rbtree.Deletion.Sibling.{Below}
use libnc.Rbtree.Deletion.Mending.{lacks_red, lacks_black, mend, Mended, plug_black}
use libnc.Rbtree.Deletion.Repair.{Short, delete_fixup-Mended}
use libnc.Rbtree.Deletion.Cut.{apart-Zipper, apart-IsDark, apart-Below}
use libnc.Rbtree.Deletion.Succession.{Succeeded}
use libnc.Rbtree.Deletion.Remaining.{Without, IsSorted-without}

RedBlack-Short : (m : Shape) (h : ℕ) → RedBlack m h → Short m h
RedBlack-Short nil h (leaf _ e) = e
RedBlack-Short (fork l x r) h (red_node _ is bl br vl vr) = lacks_red is vl vr
RedBlack-Short (fork l x r) h (black_node _ k is e vl vr) = lacks_black k is e vl vr

-- The loop, where the node that left its place was black.
abbrev pub settle_colors : (fuel : ℕ) → Bool → Addr → Cmd (Unit {0})
settle_colors fuel was_red temp = if was_red then pure tt else mend fuel temp

module _ (z top : Addr) (fuel : ℕ) (t : Tree) (side : Side) (x : Label) (m : Shape) (k : Crumb)
    (c : List Crumb) (h : ℕ) where
  root_stands : Zipper z top t m (k ∷ c) → t.root ≢ z
  root_stands zip e = absurd (
      omega (
        arith,
        Around-sentinel z t.node top (ptr z m) (k ∷ c) zip.around,
        root_of-count (ptr z m) k c,
        ap (λ a. count_way a (k ∷ c)) (sym e ∙ zip.root),
      ))

  -- The child m of the node x takes its place.
  repaired :
      length (k ∷ c) < fuel
      → Zipper z top t m (k ∷ c)
      → Below z t k.label.addr m
      → IsDark z t
      → RedBlack (mk side nil x m) h
      → WayRedBlack (k ∷ c) h
      → (x.red ≡ true → above_red (k ∷ c) ≡ false)
      → Mended z top (plug m (k ∷ c)) t (settle_colors fuel x.red (ptr z m) t)
  repaired le zip below dark v way calm = elim (Bool-cases x.red) [
    | inl is ↦
        let (bl, br, vl, vr) = red_parts side nil x m v is in
        let calm_m : root_red m ≡ true → above_red (k ∷ c) ≡ false = λ e. absurd (cc) in
        let (h', v') = plug-RedBlack m vr way calm_m in
        (
          t,
          plug m (k ∷ c),
          then_lem x.red _ _ t is,
          Turned-plug m m (k ∷ c) (Turned-refl zip),
          record { height = h'; colors = v'; root_black = plug_black m way calm_m },
        )
    | inr is ↦
        let (j, e, vl, vr) = black_parts side nil x m v is in
        let (t', w, run, turned, colors) =
          delete_fixup-Mended z top fuel m (k ∷ c) j t le zip (root_stands zip) below dark
            (RedBlack-Short m j vr) (subst (WayRedBlack (k ∷ c)) e way) in
        (t', w, else_lem x.red _ _ t is ∙ run, turned, colors)
  ]

-- What nc_rbtree_delete leaves of the tree s with the node p.
pub record Deleted (z : Addr) (t : Tree) (s : Shape) (p : Addr) (t' : Tree) : Type 0 where
  pub shape : Shape
  pub holds : Holds z t' shape
  pub item : Item
  pub addr : item.0 ≡ p
  pub without : Without s shape item
  pub node : Node
  pub stands : t'.node p ≡ some node
  pub left : node.left ≡ null
  pub right : node.right ≡ null
  pub parent : node.parent ≡ null
  pub same : (a : Addr) → a ≢ p → a ≢ z → count a s ≡ 0 → t'.node a ≡ t.node a

abbrev pub cleared : Node → Node
cleared n = record n { left = null; right = null; parent = null; key = pos 0; content = null }

-- The statements of nc_rbtree_delete from the test of the color on.
abbrev pub finish : (fuel : ℕ) → (node subst temp : Addr) → Cmd (Unit {0})
finish fuel node subst temp = do
  was_red ← is_red subst
  splice_out node subst temp
  node_init node
  settle_colors fuel was_red temp

-- The node y leaves its place, and x leaves the tree.
module _ (z top : Addr) (fuel : ℕ) where
  pub finish-Deleted :
      (t : Tree) (s : Shape) (x : Label) (side : Side) (y : Label) (m : Shape) (k : Crumb)
      (c : List Crumb) (h : ℕ)
      → length (k ∷ c) < fuel
      → is_red y.addr t ≡ done y.red t
      → (t1 : Tree) × (splice_out x.addr y.addr (ptr z m) t ≡ done tt t1)
        × Succeeded z top t m (k ∷ c) x.addr y.addr t1
      → ((a : Addr) → count a m + count_way a (k ∷ c) ≤ count a s)
      → x.addr ≢ z
      → count x.addr m + count_way x.addr (k ∷ c) ≡ 0
      → 1 ≤ count y.addr s
      → RedBlack (mk side nil y m) h
      → WayRedBlack (k ∷ c) h
      → (y.red ≡ true → above_red (k ∷ c) ≡ false)
      → IsSorted (items s)
      → Without s (plug m (k ∷ c)) (item x)
      → (t' : Tree) × (finish fuel x.addr y.addr (ptr z m) t ≡ done tt t') × Deleted z t s x.addr t'
  unfolding node_init
  finish-Deleted t s x side y m k c h le red_run (t1, run1, next) within ne out inside v way calm
        sorted gone =
      let n : Node = next.left_over in
      let t2 : Tree = record t1 { node = put x.addr (cleared n) t1.node } in
      let zip2 = apart-Zipper x.addr (cleared n) next.zipper out in
      let dark2 = apart-IsDark x.addr (cleared n) ne next.dark in
      let below2 = apart-Below t1 x.addr (cleared n) k.label.addr m ne next.below in
      let (t3, w, run3, turned, colors) =
        repaired z top fuel t2 side y m k c h le zip2 below2 dark2 v way calm in
      let whole2 = Turned-plug m m (k ∷ c) (Turned-refl zip2) in
      let items_w : items w ≡ gone.before ++ gone.after = turned.items ∙ gone.rest in
      let kept : (a : Addr) → count a m + count_way a (k ∷ c) ≡ 0 → t3.node a ≡ t2.node a =
        λ a h. turned.same a (omega (arith, h, count-plug a m (k ∷ c))) in
      (
        t3,
        rw red_run (rw run1 (rw (update_lem t1 x.addr n cleared next.left_stands) run3)),
        record {
          shape = w;
          holds = record {
            top = top;
            zipper = turned.zipper;
            dark = Turned-IsDark whole2.zipper turned dark2;
            colors = colors;
            sorted = subst IsSorted (sym items_w) (
                IsSorted-without gone.before (item x) gone.after
                  (subst IsSorted gone.whole sorted));
          };
          item = item x;
          addr = refl;
          without = record {
            before = gone.before;
            after = gone.after;
            whole = gone.whole;
            rest = items_w;
          };
          node = cleared n;
          stands = kept x.addr out ∙ put_at x.addr (cleared n) t1.node;
          left = refl;
          right = refl;
          parent = refl;
          same = λ a nep nez h.
              let out_a : count a m + count_way a (k ∷ c) ≡ 0 = omega (arith, h, within a) in
              kept a out_a
              ∙ put_apart x.addr a (cleared n) t1.node (λ e. nep (sym e))
              ∙ next.same a nez nep (λ e. absurd (omega (arith, h, inside, ap (λ a. count a s) e)))
                  out_a;
        },
      )

  -- The same for a way whose first step is not named.
  pub finish_way-Deleted :
      (w : List Crumb) (t : Tree) (s : Shape) (x : Label) (y : Label) (m : Shape) (h : ℕ)
      → 1 ≤ length w
      → length w < fuel
      → is_red y.addr t ≡ done y.red t
      → (t1 : Tree) × (splice_out x.addr y.addr (ptr z m) t ≡ done tt t1)
        × Succeeded z top t m w x.addr y.addr t1
      → ((a : Addr) → count a m + count_way a w ≤ count a s)
      → x.addr ≢ z
      → count x.addr m + count_way x.addr w ≡ 0
      → 1 ≤ count y.addr s
      → RedBlack (fork nil y m) h
      → WayRedBlack w h
      → (y.red ≡ true → above_red w ≡ false)
      → IsSorted (items s)
      → Without s (plug m w) (item x)
      → (t' : Tree) × (finish fuel x.addr y.addr (ptr z m) t ≡ done tt t') × Deleted z t s x.addr t'
  finish_way-Deleted [] t s x y m h one le red_run next within ne out inside v way calm sorted
        gone =
      absurd (omega arith)
  finish_way-Deleted (k ∷ c) t s x y m h one le red_run next within ne out inside v way calm sorted
        gone =
      finish-Deleted t s x left y m k c h le red_run next within ne out inside v way calm sorted
        gone
