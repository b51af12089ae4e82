-- ===== src/Rbtree/Deletion/Leftmost.antt =====
-- The node that nc_rbtree_delete of src/nc_rbtree.c takes out of its place.
use libnc.Prelude.{
  ℕ, suc, ◌+◌, ◌≤◌, List, [], ◌∷◌, ◌++◌, length, length-append, ◌==◌, ne→==, ==_refl, ◌≡◌, ◌≢◌,
  refl, sym, ap, subst, ◌∙◌, arith,
}
use libnc.Memory.{Addr}
use libnc.Rbtree.Store.{left, right, Side, Tree, done}
use libnc.Rbtree.Removal.{choose}
use libnc.Rbtree.Shape.{Label, Shape, nil, fork, mk, Crumb, plug, items, item}
use libnc.Rbtree.Stands.{node_of, ptr}
use libnc.Rbtree.Focus.{Zipper}
use libnc.Rbtree.Relink.{then_lem, else_lem}
use libnc.Rbtree.Turn.{crumb, far_at}
use libnc.Rbtree.Minimum.{spine, first_label, node_min_lem}
use libnc.Rbtree.Descent.{height, height-left, height-right}
use libnc.Rbtree.Deletion.Succession.{zoom_down}

pub plug-++ : (s : Shape) (w c : List Crumb) → plug s (w ++ c) ≡ plug (plug s w) c
plug-++ s [] c = refl
plug-++ s (k ∷ w) c = plug-++ (mk k.side s k.label k.far) w c

pub height-mk :
    (side : Side) (l : Shape) (x : Label) (r : Shape) → suc (height l) ≤ height (mk side l x r)
height-mk left l x r = height-left l x r
height-mk right l x r = height-right r x l

pub height-plug : (s : Shape) (c : List Crumb) → length c + height s ≤ height (plug s c)
height-plug s [] = omega arith
height-plug s (k ∷ c) =
    omega (arith, height-plug (mk k.side s k.label k.far) c, height-mk k.side s k.label k.far)

-- The first node of a tree, which has no left child, and the way to it.
pub record Least (l : Shape) (x : Label) (r : Shape) : Type 0 where
  pub label : Label
  pub child : Shape
  pub way : List Crumb
  pub whole : plug (fork nil label child) way ≡ fork l x r
  pub items : items (fork l x r) ≡ item label ∷ items (plug child way)
  pub first : first_label x l ≡ label
  pub short : length way ≡ spine l

pub leftmost : (l : Shape) (x : Label) (r : Shape) → Least l x r
unfolding first_label spine
leftmost nil x r = record {
  label = x;
  child = r;
  way = [];
  whole = refl;
  items = refl;
  first = refl;
  short = refl;
}
leftmost (fork ll y lr) x r =
    let m = leftmost ll y lr in
    let k : Crumb = crumb left x r in
    record {
      label = m.label;
      child = m.child;
      way = m.way ++ k ∷ [];
      whole = plug-++ (fork nil m.label m.child) m.way (k ∷ []) ∙ ap (λ l. fork l x r) m.whole;
      items =
          ap (λ l. l ++ item x ∷ items r) m.items
          ∙ ap (λ s. item m.label ∷ items s) (sym (plug-++ m.child m.way (k ∷ [])));
      first = m.first;
      short = omega (arith, m.short, length-append m.way (k ∷ []));
    }

-- What choose gives in each case.
pub choose_one :
    (z : Addr) (fuel : ℕ) (p m up : Addr) (side : Side) (x : Label) (t : Tree)
    → t.sentinel ≡ z
    → (side ≡ right → m ≢ z)
    → choose fuel p (node_of side z m up x) t ≡ done (p, m) t
unfolding choose
choose_one z fuel p m up left x t is ne =
    then_lem (z == t.sentinel) _ _ t (ap (λ p. z == p) is ∙ ==_refl z)
choose_one z fuel p m up right x t is ne =
    else_lem (m == t.sentinel) _ _ t (ne→== m t.sentinel (λ e. ne refl (e ∙ is)))
    ∙ then_lem (z == t.sentinel) _ _ t (ap (λ p. z == p) is ∙ ==_refl z)

module _ {z top : Addr} where
  pub choose_leftmost :
      (t : Tree) (fuel : ℕ) (p a up : Addr) (x : Label) (rl : Shape) (rx : Label) (rr : Shape)
      (c : List Crumb)
      → Zipper z top t (fork rl rx rr) c
      → a ≢ z
      → suc (spine rl) ≤ fuel
      → (m : Least rl rx rr)
      → choose fuel p (node_of left a rx.addr up x) t ≡ done (m.label.addr, ptr z m.child) t
  unfolding choose
  choose_leftmost t fuel p a up x rl rx rr c zip ne le m =
      let zip_y =
        zoom_down (fork nil m.label m.child) m.way c
          (subst (λ s. Zipper z top t s c) (sym m.whole) zip) in
      else_lem (a == t.sentinel) _ _ t (ne→== a t.sentinel (λ e. ne (e ∙ zip.sentinel)))
      ∙ else_lem (rx.addr == t.sentinel) _ _ t
          (ne→== rx.addr t.sentinel (λ e. zip.stands.1 (e ∙ zip.sentinel)))
      ∙ rw (node_min_lem t fuel rl rx rr c zip le ∙ ap (λ x. done x.addr t) m.first)
          (rw (far_at left nil m.label m.child (m.way ++ c) zip_y) refl)
