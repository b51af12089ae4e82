-- ===== src/Rbtree/Deletion/Mending.antt =====
-- The loop of nc_rbtree_delete that rebalances, and where it ends.
use libnc.Prelude.{
  ℕ, zero, suc, ◌≤◌, ◌<◌, true, false, List, [], ◌∷◌, ◌==◌, ne→==, ==_refl, Bool-cases, length,
  if◌then◌else◌, inl, inr, ◌≡◌, refl, sym, ap, ◌∙◌, arith,
}
use libnc.Memory.{Addr}
use libnc.Rbtree.Store.{
  Side, left, right, Tree, Run, done, undefined, out_of_fuel, Cmd, ◌>>=◌, and_then, is_red, black,
  child,
}
use libnc.Rbtree.Removal.{delete_turn, delete_fixup}
use libnc.Rbtree.Shape.{
  Label, Shape, nil, fork, mk, Crumb, plug, count, count_way, count-mk, count-plug, here_eq,
}
use libnc.Rbtree.Stands.{paint, ptr, above, root_of-count, Stands-parts, ptr-mk, ptr_apart}
use libnc.Rbtree.Focus.{
  Zipper, Turned, Turned-trans, zoom_in, paint-Turned, IsDark, root_red, is_red_lem,
  Around-sentinel,
}
use libnc.Rbtree.Relink.{then_lem, else_lem}
use libnc.Rbtree.Turn.{crumb, near_at, far_at}
use libnc.Rbtree.Colors.{
  RedBlack, WayRedBlack, at_root, red_step, black_step, above_red, root_red-mk, RedBlack-black,
  plug-RedBlack,
}
use libnc.Rbtree.Fixup.Steps.{Turned-plug, not_root}
use libnc.Rbtree.Insertion.Hanging.{blacken}
use libnc.Rbtree.Invariant.{IsRedBlack}
use libnc.Rbtree.Deletion.Sibling.{Below, parent_of}

-- The root of a subtree that lacks a black node: it keeps the rules with h black nodes on every way
-- down, or does but for a red root.
pub data Lacks (l : Shape) (x : Label) (r : Shape) (h : ℕ) : Type 0 where
  lacks_red : x.red ≡ true → RedBlack l h → RedBlack r h → Lacks l x r h
  lacks_black : (j : ℕ) → x.red ≡ false → h ≡ suc j → RedBlack l j → RedBlack r j → Lacks l x r h

pub plug_black :
    (s : Shape) {c : List Crumb} {h : ℕ}
    → WayRedBlack c h
    → (root_red s ≡ true → above_red c ≡ false)
    → root_red (plug s c) ≡ false
plug_black s (at_root _) calm = elim (Bool-cases (root_red s)) [
  | inl e ↦ absurd (cc (calm e))
  | inr e ↦ e
]
plug_black s (red_step k is up calm_far far w) calm =
    plug_black (mk k.side s k.label k.far) w (λ e. up)
plug_black s (black_step k is far w) calm =
    plug_black (mk k.side s k.label k.far) w (λ e. absurd (cc (root_red-mk k.side s k.label k.far)))

-- A step of a way with another label of the same color and another far subtree.
relabel :
    {k : Crumb} {c : List Crumb} {h : ℕ} (x : Label) (r : Shape)
    → WayRedBlack (k ∷ c) h
    → x.red ≡ k.label.red
    → root_red r ≡ false
    → RedBlack r h
    → WayRedBlack (crumb k.side x r ∷ c) h
relabel x r (red_step k is up calm far w) e black v =
    red_step (crumb k.side x r) (e ∙ is) up black v w
relabel x r (black_step k is far w) e black v = black_step (crumb k.side x r) (e ∙ is) v w

and_then-and_then :
    {A B C : Type 0} (m : Run A) (f : A → Cmd B) (g : B → Cmd C)
    → and_then (and_then m f) g ≡ and_then m (λ a. f a >>= g)
and_then-and_then (done a t) f g = refl
and_then-and_then undefined f g = refl
and_then-and_then out_of_fuel f g = refl

-- The loop, and the statement after it.
abbrev pub mend : (fuel : ℕ) → Addr → Cmd (Unit {0})
mend fuel p = do temp ← delete_fixup fuel p; black temp

-- That the loop ends on a tree w with a red-black tree of the same nodes in the same order.
abbrev pub Mended : (z top : Addr) (w : Shape) (t : Tree) → Run (Unit {0}) → Type 0
Mended z top w t run =
    (t' : Tree) × (w' : Shape) × (run ≡ done tt t') × Turned z top w w' [] t t' × IsRedBlack w'

module _ {z top : Addr} where
  pub Mended-after :
      {t t' : Tree} {run run' : Run (Unit {0})} (s s' : Shape) (c : List Crumb)
      → Turned z top s s' c t t'
      → run ≡ run'
      → Mended z top (plug s' c) t' run'
      → Mended z top (plug s c) t run
  Mended-after s s' c p e (t2, w, run, turned, colors) =
      (t2, w, e ∙ run, Turned-trans (Turned-plug s s' c p) turned, colors)

  mends_at_root :
      {t : Tree} (w : Shape) (p h fuel : ℕ)
      → Zipper z top t w []
      → 1 ≤ count p w
      → RedBlack w h
      → Mended z top w t (mend (suc fuel) t.root t)
  unfolding delete_fixup
  mends_at_root {t} w p h fuel zip one v =
      let (t', w', run, turned, colors) = blacken z top w p h t zip one v in
      (t', w', rw (then_lem (t.root == t.root) _ _ t (==_refl t.root)) run, turned, colors)

  -- A node below the root is not it.
  pub not_at_root :
      {t : Tree} (s : Shape) (k : Crumb) (c : List Crumb)
      → Zipper z top t s (k ∷ c)
      → (ptr z s == t.root) ≡ false
  not_at_root {t} nil k c zip = ne→== z t.root (λ e. absurd (
      omega (
        arith,
        root_of-count z k c,
        ap (λ a. count_way a (k ∷ c)) (e ∙ zip.root),
        Around-sentinel z t.node top z (k ∷ c) zip.around,
      )))
  not_at_root (fork l x r) k c zip = not_root left l x r k c zip

  -- The loop ends at a red node.
  pub mends_red :
      {t : Tree} (s : Side) (l : Shape) (x : Label) (r : Shape) (k : Crumb) (c : List Crumb)
      (h fuel : ℕ)
      → Zipper z top t (mk s l x r) (k ∷ c)
      → IsDark z t
      → x.red ≡ true
      → RedBlack l h
      → RedBlack r h
      → WayRedBlack (k ∷ c) (suc h)
      → Mended z top (plug (mk s l x r) (k ∷ c)) t (mend (suc fuel) x.addr t)
  unfolding delete_fixup
  mends_red {t} s l x r k c h fuel zip dark is vl vr way =
      let (t', run, p) = paint-Turned false s l x r (k ∷ c) t zip in
      let s' : Shape = mk s l (paint false x) r in
      let calm : root_red s' ≡ true → above_red (k ∷ c) ≡ false =
        λ e. absurd (cc (root_red-mk s l (paint false x) r)) in
      let (h', v) = plug-RedBlack s' (RedBlack-black s (paint false x) refl vl vr) way calm in
      let test : is_red x.addr t ≡ done x.red t =
        ap (λ p. is_red p t) (sym (ptr-mk z s l x r))
        ∙ is_red_lem z t k.label.addr (mk s l x r) dark zip.stands
        ∙ ap (λ b. done b t) (root_red-mk s l x r) in
      (
        t',
        plug s' (k ∷ c),
        rw
            (else_lem (x.addr == t.root) _ _ t
              (ap (λ p. p == t.root) (sym (ptr-mk z s l x r)) ∙ not_at_root (mk s l x r) k c zip))
            (rw test (rw (then_lem x.red _ _ t is) run)),
        Turned-plug (mk s l x r) s' (k ∷ c) p,
        record { height = h'; colors = v; root_black = plug_black s' way calm },
      )

  -- The side of its parent that a subtree is on.
  temp_side :
      {t : Tree} (s : Side) (b : Shape) (u : Label) (l : Shape) (w : Label) (r : Shape)
      (c : List Crumb)
      → Zipper z top t (mk s b u (fork l w r)) c
      → (q : Addr) × (child left u.addr t ≡ done q t) × ((if ptr z b == q then left else right) ≡ s)
  temp_side left b u l w r c zip = (
    ptr z b,
    near_at left b u (fork l w r) c zip,
    ap (λ b. if b then left else right) (==_refl (ptr z b)),
  )
  temp_side {t} right b u l w r c zip =
      let zip_b = zoom_in b (crumb right u (fork l w r)) c zip in
      let w_ne = (Stands-parts z t.node (above top c) right b u (fork l w r) zip.stands).3.1 in
      let apart =
        ptr_apart z t.node u.addr b w.addr w_ne
          (omega (arith, zip_b.once w.addr, here_eq w.addr w.addr refl)) in
      (
        w.addr,
        far_at right b u (fork l w r) c zip,
        ap (λ b. if b then left else right) (ne→== _ _ apart),
      )

  -- At a black node below the root the loop makes a turn.
  pub loop_turns :
      {t : Tree} (s : Side) (b : Shape) (u : Label) (l : Shape) (w : Label) (r : Shape)
      (c : List Crumb) (fuel : ℕ)
      → Zipper z top t (mk s b u (fork l w r)) c
      → Below z t u.addr b
      → IsDark z t
      → root_red b ≡ false
      → mend (suc fuel) (ptr z b) t ≡ and_then (delete_turn s (ptr z b) t) (mend fuel)
  unfolding delete_fixup
  loop_turns {t} s b u l w r c fuel zip below dark calm =
      let k : Crumb = crumb s u (fork l w r) in
      let zip_b = zoom_in b k c zip in
      let (p, child_run, test) = temp_side s b u l w r c zip in
      rw (else_lem (ptr z b == t.root) _ _ t (not_at_root b k c zip_b)) (
        rw (is_red_lem z t u.addr b dark zip_b.stands) (
          rw (else_lem (root_red b) _ _ t calm) (
            rw (parent_of b k c zip_b below) (
              rw child_run (
                rw (ap (λ s. delete_turn s (ptr z b) t) test)
                  (and_then-and_then (delete_turn s (ptr z b) t) (delete_fixup fuel) black))))))

  -- After the rotation of the parent the loop ends at the root.
  pub lifted_ends :
      {t t' : Tree} (w : Shape) (s : Side) (u : Label) (far : Shape) (l : Shape) (x : Label)
      (r : Shape) (c : List Crumb) (h fuel : ℕ)
      → Turned z top w (mk s l x r) c t t'
      → 1 ≤ fuel
      → WayRedBlack (crumb s u far ∷ c) h
      → x.red ≡ u.red
      → root_red l ≡ false
      → root_red r ≡ false
      → RedBlack l h
      → RedBlack r h
      → Mended z top (plug w c) t (mend fuel t'.root t')
  lifted_ends w s u far l x r c h zero p le way e bl br vl vr = absurd (omega arith)
  lifted_ends {t' = t'} w s u far l x r c h (suc fuel) p le way e bl br vl vr =
      let (h', v) = plug-RedBlack l vl (relabel x r way e br vr) (λ e'. absurd (cc)) in
      let v' : RedBlack (plug (mk s l x r) c) h' = v in
      let whole = Turned-plug w (mk s l x r) c p in
      let (t2, w', run, turned, colors) =
        mends_at_root (plug (mk s l x r) c) x.addr h' fuel whole.zipper
          (omega (
            arith,
            count-plug x.addr (mk s l x r) c,
            count-mk x.addr s l x r,
            here_eq x.addr x.addr refl,
          ))
          v' in
      (t2, w', run, Turned-trans whole turned, colors)

-- That the loop ends from each node whose way is shorter than the fuel.
abbrev pub Mends : (z top : Addr) (fuel : ℕ) → Type 0
Mends z top fuel =
    (s : Side) (l : Shape) (x : Label) (r : Shape) (c : List Crumb) (h : ℕ) (t : Tree)
    → length c < fuel
    → Zipper z top t (mk s l x r) c
    → IsDark z t
    → Lacks l x r h
    → WayRedBlack c (suc h)
    → Mended z top (plug (mk s l x r) c) t (mend fuel x.addr t)
