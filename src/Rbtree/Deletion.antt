-- ===== src/Rbtree/Deletion.antt =====
-- nc_rbtree_delete of src/nc_rbtree.c.
pub mod Sibling
pub mod Turn
pub mod Mending
pub mod Shortage
pub mod Repair
pub mod Cut
pub mod Remaining
pub mod Takeover
pub mod Succession
pub mod Leftmost
pub mod Finish
pub mod OneChild
use libnc.Prelude.{
  ℕ, zero, suc, ◌+◌, ◌≤◌, ◌<◌, Bool, true, false, List, [], ◌∷◌, ◌++◌, some, ◌==◌, ne→==, ==_refl,
  ==_iff, Bool-cases, length, length-append, if◌then◌else◌, ◌⊎◌, inl, inr, ◌≡◌, ◌≢◌, refl, sym, ap,
  subst, ◌∙◌, arith,
}
use libnc.Memory.{Addr}
use libnc.Rbtree.Store.{Side, left, right, Node, Tree, done}
use libnc.Rbtree.Shape.{
  Label, Shape, nil, fork, mk, Crumb, plug, items, item, count, count_way, count-mk, count-plug,
  here_eq, here_ne,
}
use libnc.Rbtree.Stands.{ptr, above}
use libnc.Rbtree.Focus.{Zipper, zoom_in, IsDark, root_red, is_red_lem}
use libnc.Rbtree.Relink.{then_lem, else_lem}
use libnc.Rbtree.Turn.{crumb}
use libnc.Rbtree.Colors.{RedBlack, red_node, black_node, plug-RedBlack, unplug-RedBlack}
use libnc.Rbtree.Order.{IsSorted}
use libnc.Rbtree.Invariant.{IsRedBlack, Holds}
use libnc.Rbtree.Deletion.Mending.{not_at_root, plug_black}
use libnc.Rbtree.Minimum.{spine}
use libnc.Rbtree.Descent.{height, height-right}
use libnc.Rbtree.Deletion.Succession.{succeeds, zoom_down, count_way-++}
use libnc.Rbtree.Deletion.Leftmost.{
  Least, leftmost, choose_leftmost, height-plug, height-mk, plug-++,
}
use libnc.Rbtree.Deletion.Remaining.{Without, plug-Without}
use libnc.Rbtree.Deletion.Finish.{Deleted, finish_way-Deleted}
use libnc.Rbtree.Deletion.OneChild.{delete_run, one_child-Deleted}
use libnc.Rbtree.{delete}

relabel_root :
    {l r : Shape} {x : Label} {h : ℕ} (x' : Label)
    → x'.red ≡ x.red
    → RedBlack (fork l x r) h
    → RedBlack (fork l x' r) h
relabel_root x' e (red_node _ is bl br vl vr) = red_node x' (e ∙ is) bl br vl vr
relabel_root x' e (black_node _ k is eq vl vr) = black_node x' k (e ∙ is) eq vl vr

module _ (z top : Addr) where
  not_root_under :
      {t : Tree} (s : Shape) (w : List Crumb) (k : Crumb) (c : List Crumb)
      → Zipper z top t s (w ++ k ∷ c)
      → (ptr z s == t.root) ≡ false
  not_root_under s [] k c zip = not_at_root s k c zip
  not_root_under s (j ∷ w) k c zip = not_at_root s j (w ++ k ∷ c) zip

  unzoom :
      {t : Tree} (s : Shape) (c : List Crumb) → Zipper z top t (plug s c) [] → Zipper z top t s c
  unzoom s [] zip = zip
  unzoom s (k ∷ c) zip = zoom_in s k c (unzoom (mk k.side s k.label k.far) c zip)

  -- The node x has two children.
  module _ (fuel : ℕ) (t : Tree) (l : Shape) (x : Label) (rl : Shape) (rx : Label) (rr : Shape)
      (c : List Crumb) (m : Least rl rx rr) where
    abbrev r : Shape
    r = fork rl rx rr

    abbrev heir : Label
    heir = record m.label { red = x.red }

    abbrev way : List Crumb
    way = m.way ++ crumb right heir l ∷ c

    counted_right : (a : Addr) → count a r ≡ count a (fork nil m.label m.child) + count_way a m.way
    counted_right a = ap (count a) (sym m.whole) ∙ count-plug a (fork nil m.label m.child) m.way

    counted_way :
        (a : Addr) → count_way a way ≡ count_way a m.way + count_way a (crumb right heir l ∷ c)
    counted_way a = count_way-++ a m.way (crumb right heir l ∷ c)

    counted : (a : Addr) → count a (plug (fork l x r) c) ≡ count a (fork l x r) + count_way a c
    counted a = count-plug a (fork l x r) c

    shorter : length m.way + suc (length c) ≤ height (plug (fork l x r) c)
    shorter = omega (
      arith,
      height-plug (fork l x r) c,
      height-right l x r,
      height-plug (fork nil m.label m.child) m.way,
      ap height m.whole,
      height-right nil m.label m.child,
    )

    gone : Without (plug (fork l x r) c) (plug m.child way) (item x)
    gone =
        subst (λ s. Without (plug (fork l x r) c) s (item x))
          (sym (plug-++ m.child m.way (crumb right heir l ∷ c)))
          (plug-Without l x r (fork l heir (plug m.child m.way)) c
            (ap (λ xs. items l ++ xs) (sym m.items)))

    -- The whole tree with the color of x on its heir.
    heir_colors :
        {h : ℕ}
        → RedBlack (plug (fork l x r) c) h
        → root_red (plug (fork l x r) c) ≡ false
        → (h' : ℕ) × RedBlack (plug (fork nil m.label m.child) way) h'
          × (root_red (plug (fork nil m.label m.child) way) ≡ false)
    heir_colors v is =
        let (h, v', w, calm) = unplug-RedBlack (fork l x r) c v is in
        let v2 : RedBlack (fork l heir r) h = relabel_root heir refl v' in
        let (h', whole) = plug-RedBlack (fork l heir r) v2 w calm in
        let same : plug (fork nil m.label m.child) way ≡ plug (fork l heir r) c =
          plug-++ (fork nil m.label m.child) m.way (crumb right heir l ∷ c)
          ∙ ap (λ r. plug (fork l heir r) c) m.whole in
        (
          h',
          subst (λ s. RedBlack s h') (sym same) whole,
          ap root_red same ∙ plug_black (fork l heir r) w calm,
        )

    two_children-Deleted :
        {h : ℕ}
        → ptr z l ≢ z
        → Zipper z top t (fork l x r) c
        → IsDark z t
        → RedBlack (plug (fork l x r) c) h
        → root_red (plug (fork l x r) c) ≡ false
        → IsSorted (items (plug (fork l x r) c))
        → height (plug (fork l x r) c) < fuel
        → (t' : Tree) × (delete fuel x.addr t ≡ done tt t')
          × Deleted z t (plug (fork l x r) c) x.addr t'
    two_children-Deleted ne zip dark v is sorted le =
        let y : Label = m.label in
        let k : Crumb = crumb right x l in
        let low : Shape = fork nil y m.child in
        let zip_r = zoom_in r k c zip in
        let zip_y =
          zoom_down low m.way (k ∷ c) (subst (λ s. Zipper z top t s (k ∷ c)) (sym m.whole) zip_r) in
        let (h0, v0, is0) = heir_colors v is in
        let (h, v', w, calm) = unplug-RedBlack low way v0 is0 in
        let (t', run, deleted) =
          finish_way-Deleted z top fuel way t (plug (fork l x r) c) x y m.child h
            (omega (arith, length-append m.way (crumb right heir l ∷ c)))
            (omega (arith, length-append m.way (crumb right heir l ∷ c), shorter, le))
            (is_red_lem z t (above top (m.way ++ k ∷ c)) low dark zip_y.stands)
            (succeeds z top l x c y m.child t m.way zip_y dark)
            (λ a. omega (arith, counted a, counted_right a, counted_way a)) zip.stands.1
            (omega (
              arith,
              zip.once x.addr,
              counted_right x.addr,
              counted_way x.addr,
              here_eq x.addr x.addr refl,
            ))
            (omega (arith, counted y.addr, counted_right y.addr, here_eq y.addr y.addr refl)) v' w
            calm sorted gone in
        (
          t',
          delete_run fuel t x.addr y.addr (ptr z m.child) _ zip.stands.0 (
                choose_leftmost t fuel x.addr (ptr z l) (above top c) x rl rx rr (k ∷ c) zip_r ne
                  (omega (arith, shorter, m.short, le)) m)
              ∙ else_lem (y.addr == t.root) _ _ t (not_root_under low m.way k c zip_y)
              ∙ run,
          deleted,
        )

  -- A node at a place of the tree.
  place-Deleted :
      (fuel : ℕ) (t : Tree) (l : Shape) (x : Label) (r : Shape) (c : List Crumb) {h : ℕ}
      → Zipper z top t (fork l x r) c
      → IsDark z t
      → RedBlack (plug (fork l x r) c) h
      → root_red (plug (fork l x r) c) ≡ false
      → IsSorted (items (plug (fork l x r) c))
      → height (plug (fork l x r) c) < fuel
      → (t' : Tree) × (delete fuel x.addr t ≡ done tt t')
        × Deleted z t (plug (fork l x r) c) x.addr t'
  place-Deleted fuel t nil x r c zip dark v is sorted le =
      one_child-Deleted z top fuel t left x r c (λ e. absurd (cc)) zip dark v is sorted le
  place-Deleted fuel t (fork ll lx lr) x nil c zip dark v is sorted le =
      one_child-Deleted z top fuel t right x (fork ll lx lr) c (λ e. zip.stands.2.1) zip dark v is
        sorted le
  place-Deleted fuel t (fork ll lx lr) x (fork rl rx rr) c zip dark v is sorted le =
      two_children-Deleted fuel t (fork ll lx lr) x rl rx rr c (leftmost rl rx rr) zip.stands.2.1
        zip dark v is sorted le

-- The place of a node of a tree.
record Found (p : Addr) (s : Shape) : Type 0 where
  pub left_tree : Shape
  pub label : Label
  pub right_tree : Shape
  pub way : List Crumb
  pub whole : plug (fork left_tree label right_tree) way ≡ s
  pub addr : label.addr ≡ p

none_or_some : (n : ℕ) → (n ≡ 0) ⊎ (1 ≤ n)
none_or_some zero = inl refl
none_or_some (suc n) = inr (omega arith)

find : (p : Addr) (s : Shape) (c : List Crumb) → 1 ≤ count p s → Found p (plug s c)
find p nil c le = absurd (omega arith)
find p (fork l x r) c le = elim (Bool-cases (p == x.addr)) [
  | inl e ↦ record {
    left_tree = l;
    label = x;
    right_tree = r;
    way = c;
    whole = refl;
    addr = sym ((==_iff p x.addr).0 e);
  }
  | inr e ↦ elim (none_or_some (count p l)) [
    | inr inside ↦ find p l (crumb left x r ∷ c) inside
    | inl outside ↦
        find p r (crumb right x l ∷ c)
          (omega (arith, le, here_ne p x.addr (λ q. absurd (cc (==_refl p, e, q)))))
  ]
]

-- nc_rbtree_delete of a node of the tree, with more fuel than the tree is high, ends and runs into
-- nothing undefined. A red-black tree in sorted order becomes a red-black tree in sorted order,
-- whose items are those before without that of the node. The links of the nodes to children and
-- parents are those of the new tree, its sentinel is still black, the links of the node that has
-- left it are NULL, and no node but the sentinel and those of the tree has changed.
pub delete-Deleted :
    (z : Addr) (t : Tree) (s : Shape) (p : Addr) (fuel : ℕ)
    → Holds z t s
    → 1 ≤ count p s
    → height s < fuel
    → (t' : Tree) × (delete fuel p t ≡ done tt t') × Deleted z t s p t'
delete-Deleted z t s p fuel holds inside le =
    let found = find p s [] inside in
    let whole : Shape = plug (fork found.left_tree found.label found.right_tree) found.way in
    let e : s ≡ whole = sym found.whole in
    let result =
      place-Deleted z holds.top fuel t found.left_tree found.label found.right_tree found.way
        (unzoom z holds.top (fork found.left_tree found.label found.right_tree) found.way
          (subst (λ s. Zipper z holds.top t s []) e holds.zipper))
        holds.dark (subst (λ s. RedBlack s holds.colors.height) e holds.colors.colors)
        (ap root_red found.whole ∙ holds.colors.root_black)
        (subst (λ s. IsSorted (items s)) e holds.sorted) (subst (λ s. height s < fuel) e le) in
    subst (λ p. (t' : Tree) × (delete fuel p t ≡ done tt t') × Deleted z t s p t') found.addr
      (subst
        (λ s.
          (t' : Tree) × (delete fuel found.label.addr t ≡ done tt t')
          × Deleted z t s found.label.addr t')
        found.whole result)
