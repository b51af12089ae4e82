-- ===== src/Rbtree/Colors.antt =====
-- The rules on the colors of a red-black tree: no red node has a red child, and every way down to a
-- sentinel meets the same number of black nodes.
use libnc.Prelude.{
  ℕ, suc, Bool, true, false, List, [], ◌∷◌, ◌≡◌, inl, inr, Bool-cases, refl, subst, ◌∙◌,
}
use libnc.Rbtree.Store.{Side, left, right}
use libnc.Rbtree.Shape.{Label, Shape, nil, fork, mk, Crumb, plug}
use libnc.Rbtree.Focus.{root_red}

-- A tree with h black nodes on every way down.
pub data RedBlack : Shape → ℕ → Type 0 where
  leaf : (h : ℕ) → h ≡ 0 → RedBlack nil h
  red_node :
      {l r : Shape} (x : Label) {h : ℕ}
      → x.red ≡ true
      → root_red l ≡ false
      → root_red r ≡ false
      → RedBlack l h
      → RedBlack r h
      → RedBlack (fork l x r) h
  black_node :
      {l r : Shape} (x : Label) (k : ℕ) {h : ℕ}
      → x.red ≡ false
      → h ≡ suc k
      → RedBlack l k
      → RedBlack r k
      → RedBlack (fork l x r) h

-- Whether a place has a red parent. The root counts as having one, as it must be black.
abbrev pub above_red : List Crumb → Bool
above_red [] = true
above_red (k ∷ c) = k.label.red

-- The steps of a way around a place for a tree with h black nodes on every way down.
pub data WayRedBlack : List Crumb → ℕ → Type 0 where
  at_root : (h : ℕ) → WayRedBlack [] h
  red_step :
      (k : Crumb) {c : List Crumb} {h : ℕ}
      → k.label.red ≡ true
      → above_red c ≡ false
      → root_red k.far ≡ false
      → RedBlack k.far h
      → WayRedBlack c h
      → WayRedBlack (k ∷ c) h
  black_step :
      (k : Crumb) {c : List Crumb} {h : ℕ}
      → k.label.red ≡ false
      → RedBlack k.far h
      → WayRedBlack c (suc h)
      → WayRedBlack (k ∷ c) h

pub root_red-mk : (s : Side) (l : Shape) (x : Label) (r : Shape) → root_red (mk s l x r) ≡ x.red
root_red-mk left l x r = refl
root_red-mk right l x r = refl

pub RedBlack-red :
    (s : Side) {l r : Shape} (x : Label) {h : ℕ}
    → x.red ≡ true
    → root_red l ≡ false
    → root_red r ≡ false
    → RedBlack l h
    → RedBlack r h
    → RedBlack (mk s l x r) h
RedBlack-red left x is bl br l r = red_node x is bl br l r
RedBlack-red right x is bl br l r = red_node x is br bl r l

pub RedBlack-black :
    (s : Side) {l r : Shape} (x : Label) {h : ℕ}
    → x.red ≡ false
    → RedBlack l h
    → RedBlack r h
    → RedBlack (mk s l x r) (suc h)
RedBlack-black left x is l r = black_node x _ is refl l r
RedBlack-black right x is l r = black_node x _ is refl r l

red_fork :
    {l r : Shape} {x : Label} {h : ℕ}
    → RedBlack (fork l x r) h
    → x.red ≡ true
    → (root_red l ≡ false) × (root_red r ≡ false) × RedBlack l h × RedBlack r h
red_fork (red_node x is' bl br l r) is = (bl, br, l, r)
red_fork (black_node x k is' e l r) is = absurd (cc)

pub red_parts :
    (s : Side) (l : Shape) (x : Label) (r : Shape) {h : ℕ}
    → RedBlack (mk s l x r) h
    → x.red ≡ true
    → (root_red l ≡ false) × (root_red r ≡ false) × RedBlack l h × RedBlack r h
red_parts left l x r v is = red_fork v is
red_parts right l x r v is = let (br, bl, vr, vl) = red_fork v is in (bl, br, vl, vr)

-- A tree keeps the rules when its root becomes black.
pub blacken-RedBlack :
    {l r : Shape} {x x' : Label} {h : ℕ}
    → x'.red ≡ false
    → RedBlack (fork l x r) h
    → (h' : ℕ) × RedBlack (fork l x' r) h'
blacken-RedBlack {x' = x'} is' (red_node x {h} is bl br l r) = (suc h, black_node x' h is' refl l r)
blacken-RedBlack {x' = x'} is' (black_node x k {h} is e l r) = (h, black_node x' k is' e l r)

-- A tree keeps the rules in its place, where it has no red root under a red node.
pub plug-RedBlack :
    (s : Shape) {c : List Crumb} {h : ℕ}
    → RedBlack s h
    → WayRedBlack c h
    → (root_red s ≡ true → above_red c ≡ false)
    → (h' : ℕ) × RedBlack (plug s c) h'
plug-RedBlack s {h = h} v (at_root _) calm = (h, v)
plug-RedBlack s v (red_step k {c} is up calm_far far w) calm =
    let calm_s : root_red s ≡ false = elim (Bool-cases (root_red s)) [
      | inl e ↦ absurd (cc (calm e))
      | inr e ↦ e
    ] in
    plug-RedBlack (mk k.side s k.label k.far) (RedBlack-red k.side k.label is calm_s calm_far v far)
      w (λ e. up)
plug-RedBlack s v (black_step k is far w) calm =
    plug-RedBlack (mk k.side s k.label k.far) (RedBlack-black k.side k.label is v far) w
      (λ e. absurd (cc (root_red-mk k.side s k.label k.far)))

-- The steps above a red parent: the grandparent is there, and is black.
pub data RedParent : Crumb → List Crumb → ℕ → Type 0 where
  grand :
      (k g : Crumb) {c : List Crumb} {h : ℕ}
      → root_red k.far ≡ false
      → RedBlack k.far h
      → g.label.red ≡ false
      → RedBlack g.far h
      → WayRedBlack c (suc h)
      → RedParent k (g ∷ c) h

pub red_parent :
    {k : Crumb} {c : List Crumb} {h : ℕ}
    → WayRedBlack (k ∷ c) h
    → k.label.red ≡ true
    → RedParent k c h
red_parent (red_step k is up calm far (at_root _)) red = absurd (cc)
red_parent (red_step k is up calm far (red_step g is' up' calm' far' w)) red = absurd (cc)
red_parent (red_step k is up calm far (black_step g is' far' w)) red = grand k g calm far is' far' w
red_parent (black_step k is far w) red = absurd (cc)

abbrev pub Unplugged : Shape → List Crumb → Type 0
Unplugged s c = (h : ℕ) × RedBlack s h × WayRedBlack c h × (root_red s ≡ true → above_red c ≡ false)

pub black_parts :
    (s : Side) (l : Shape) (x : Label) (r : Shape) {h : ℕ}
    → RedBlack (mk s l x r) h
    → x.red ≡ false
    → (k : ℕ) × (h ≡ suc k) × RedBlack l k × RedBlack r k
black_parts left l x r (red_node _ is' bl br vl vr) is = absurd (cc)
black_parts left l x r (black_node _ k is' e vl vr) is = (k, e, vl, vr)
black_parts right l x r (red_node _ is' bl br vl vr) is = absurd (cc)
black_parts right l x r (black_node _ k is' e vl vr) is = (k, e, vr, vl)

-- The rules on a whole tree hold at each of its places and of the way to it.
pub unplug-RedBlack :
    (s : Shape) (c : List Crumb) {h : ℕ}
    → RedBlack (plug s c) h
    → root_red (plug s c) ≡ false
    → Unplugged s c
unplug-RedBlack s [] {h} v black = (h, v, at_root h, λ e. absurd (cc))
unplug-RedBlack s (k ∷ c) v black =
    let (h, v', way, calm) = unplug-RedBlack (mk k.side s k.label k.far) c v black in
    let is_root = root_red-mk k.side s k.label k.far in
    elim (Bool-cases k.label.red) [
      | inl e ↦
          let (calm_s, calm_far, vs, vf) = red_parts k.side s k.label k.far v' e in
          (h, vs, red_step k e (calm (is_root ∙ e)) calm_far vf way, λ e'. absurd (cc))
      | inr e ↦
          let (j, is, vs, vf) = black_parts k.side s k.label k.far v' e in
          (j, vs, black_step k e vf (subst (λ h. WayRedBlack c h) is way), λ e'. e)
    ]
