-- ===== src/Rbtree/Deletion/Succession.antt =====
-- nc_rbtree_delete of src/nc_rbtree.c takes a node out of its place and puts it in the place of
-- another, which stands above it.
use libnc.Prelude.{
  ◌+◌, List, [], ◌∷◌, ◌++◌, some, ◌==◌, ne→==, ==_refl, if◌then◌else◌, ◌≡◌, ◌≢◌, refl, sym, ap, ◌∙◌,
  arith,
}
use libnc.Memory.{Addr}
use libnc.Rbtree.Store.{Side, left, right, Node, Tree, done, set_parent}
use libnc.Rbtree.Removal.{take_place, splice_out}
use libnc.Rbtree.Shape.{
  Label, Shape, nil, fork, mk, Crumb, plug, count, count_way, count-plug, here_eq, here_ne,
}
use libnc.Rbtree.Stands.{node_of, ptr, above, Stands-parts}
use libnc.Rbtree.Focus.{Zipper, zoom_in, zoom_out, IsDark, Stands-sentinel, Around-sentinel}
use libnc.Rbtree.Relink.{then_lem, else_lem, parent_lem}
use libnc.Rbtree.Turn.{crumb}
use libnc.Rbtree.Deletion.Sibling.{Below}
use libnc.Rbtree.Deletion.Cut.{bypassed, once_under, y_same, bypassed-Cut, bypass, Cut-Zipper}
use libnc.Rbtree.Deletion.Takeover.{settle, Free, settle-Settled}

-- From a place to the end of a way above it, and back.
module _ {z top : Addr} {t : Tree} where
  pub zoom_up :
      (s : Shape) (w c : List Crumb) → Zipper z top t s (w ++ c) → Zipper z top t (plug s w) c
  zoom_up s [] c zip = zip
  zoom_up s (k ∷ w) c zip = zoom_up (mk k.side s k.label k.far) w c (zoom_out s k (w ++ c) zip)

  pub zoom_down :
      (s : Shape) (w c : List Crumb) → Zipper z top t (plug s w) c → Zipper z top t s (w ++ c)
  zoom_down s [] c zip = zip
  zoom_down s (k ∷ w) c zip = zoom_in s k (w ++ c) (zoom_down (mk k.side s k.label k.far) w c zip)

pub count_way-++ :
    (a : Addr) (w c : List Crumb) → count_way a (w ++ c) ≡ count_way a w + count_way a c
count_way-++ a [] c = omega arith
count_way-++ a (k ∷ w) c = omega (arith, count_way-++ a w c)

-- What stays where the sentinel does not change.
pub same-Below :
    {z : Addr} (t t' : Tree) (q : Addr) (m : Shape)
    → t'.node z ≡ t.node z
    → Below z t q m
    → Below z t' q m
same-Below t t' q nil e (n, at, is) = (n, e ∙ at, is)
same-Below t t' q (fork l x r) e below = tt

pub same-IsDark : {z : Addr} {t t' : Tree} → t'.node z ≡ t.node z → IsDark z t → IsDark z t'
same-IsDark e dark = record { node = dark.node; stands = e ∙ dark.stands; color = dark.color }

-- The tree with y in the place of x, and m in the place of y.
pub record Succeeded (z top : Addr) (t : Tree) (m : Shape) (w : List Crumb) (x y : Addr) (t' : Tree)
    : Type 0 where
  pub zipper : Zipper z top t' m w
  pub below : Below z t' (above top w) m
  pub dark : IsDark z t'
  pub left_over : Node
  pub left_stands : t'.node x ≡ some left_over
  pub same :
      (e : Addr) → e ≢ z → e ≢ x → e ≢ y → count e m + count_way e w ≡ 0 → t'.node e ≡ t.node e

module _ (z top : Addr) (l : Shape) (x : Label) (c : List Crumb) (y : Label) (m : Shape) where
  abbrev pub heir_crumb : Crumb
  heir_crumb = crumb right (record y { red = x.red }) l

  settles :
      (t1 : Tree) (w : List Crumb) (q a b u : Addr)
      → Free z top t1 l x (plug m w) c y q a b u
      → Below z t1 (above top (w ++ heir_crumb ∷ c)) m
      → IsDark z t1
      → (t' : Tree) × (settle x.addr y.addr t1 ≡ done tt t')
        × Succeeded z top t1 m (w ++ heir_crumb ∷ c) x.addr y.addr t'
  settles t1 w q a b u free below dark =
      let (t', run, settled) = settle-Settled z top t1 l x (plug m w) c y q a b u free in
      let x_apart : x.addr ≢ y.addr = λ e. absurd (
        omega
          (arith, free.once x.addr, here_eq x.addr x.addr refl, here_eq x.addr y.addr (sym e))) in
      let zip : Zipper z top t' m (w ++ heir_crumb ∷ c) =
        zoom_down m w (heir_crumb ∷ c) (zoom_in (plug m w) heir_crumb c settled.zipper) in
      let z_same : t'.node z ≡ t1.node z = settled.same z free.y_ne (
        omega (
          arith,
          Stands-sentinel z t1.node x.addr l free.l_stands,
          Stands-sentinel z t1.node q (plug m w) free.r_stands,
          Around-sentinel z t1.node top x.addr c free.around,
        )) in
      (
        t',
        run,
        record {
          zipper = zip;
          below = same-Below t1 t' (above top (w ++ heir_crumb ∷ c)) m z_same below;
          dark = same-IsDark z_same dark;
          left_over = node_of left (ptr z l) (ptr z (plug m w)) (above top c) x;
          left_stands =
              settled.same x.addr (λ e. x_apart (sym e))
                (omega (arith, free.once x.addr, here_eq x.addr x.addr refl))
              ∙ free.x_at;
          same = λ e nez nex ney h.
              settled.same e (λ eq. ney (sym eq))
                (omega (arith, h, count-plug e m w, count_way-++ e w (heir_crumb ∷ c)));
        },
      )

  abbrev node_crumb : Crumb
  node_crumb = crumb right x l

  -- y is the right child of x.
  child_succeeds :
      (t : Tree)
      → Zipper z top t (fork nil y m) (node_crumb ∷ c)
      → IsDark z t
      → (t' : Tree) × (splice_out x.addr y.addr (ptr z m) t ≡ done tt t')
        × Succeeded z top t m (heir_crumb ∷ c) x.addr y.addr t'
  unfolding take_place
  child_succeeds t zip dark =
      let b0 : Tree = bypassed z top t left y m node_crumb c zip dark in
      let once = once_under z top t left y m node_crumb c zip dark in
      let (t1, run1, cut) = bypassed-Cut z top t left y m node_crumb c zip dark y.addr in
      let y_at : b0.node y.addr ≡ some (node_of left z (ptr z m) x.addr y) =
        y_same z top t left y m node_crumb c zip dark ∙ zip.stands.0 in
      let out : count y.addr m + count_way y.addr (node_crumb ∷ c) ≡ 0 =
        omega (arith, once y.addr, here_eq y.addr y.addr refl) in
      let apart : y.addr ≢ x.addr =
        λ e. absurd (omega (arith, out, here_eq y.addr x.addr (sym e))) in
      let free : Free z top t1 l x m c y y.addr z (ptr z m) x.addr = record {
        sentinel = cut.sentinel ∙ zip.sentinel;
        root = cut.root ∙ zip.root;
        x_at = cut.around.0;
        x_ne = cut.around.1;
        y_at = cut.same y.addr zip.stands.1 out ∙ zip.stands.0;
        y_ne = zip.stands.1;
        l_stands = cut.around.2;
        r_stands = cut.stands;
        around = cut.around.3;
        once = λ e. omega (arith, once e);
      } in
      let (t', run, done_) = settles t1 [] y.addr z (ptr z m) x.addr free cut.below cut.dark in
      let test : (if x.addr == x.addr then y.addr else x.addr) ≡ y.addr =
        ap (λ b. if b then y.addr else x.addr) (==_refl x.addr) in
      (
        t',
        bypass z top t left y m node_crumb c zip dark x.addr
            ∙ else_lem (y.addr == x.addr) _ _ b0 (ne→== y.addr x.addr apart)
            ∙ rw (parent_lem b0 y.addr _ y_at)
                (rw (ap (λ q. set_parent (ptr z m) q b0) test ∙ run1) run),
        record {
          zipper = done_.zipper;
          below = done_.below;
          dark = done_.dark;
          left_over = done_.left_over;
          left_stands = done_.left_stands;
          same = λ e nez nex ney h.
              done_.same e nez nex ney h
              ∙ cut.same e nez (omega (arith, h, here_ne e x.addr (λ q. nex (sym q))));
        },
      )

  -- y stands deeper in the right subtree of x.
  deep_succeeds :
      (t : Tree) (k : Crumb) (w : List Crumb)
      → Zipper z top t (fork nil y m) (k ∷ w ++ node_crumb ∷ c)
      → IsDark z t
      → (t' : Tree) × (splice_out x.addr y.addr (ptr z m) t ≡ done tt t')
        × Succeeded z top t m (k ∷ w ++ heir_crumb ∷ c) x.addr y.addr t'
  unfolding take_place
  deep_succeeds t k w zip dark =
      let way : List Crumb = w ++ node_crumb ∷ c in
      let up : Addr = k.label.addr in
      let b0 : Tree = bypassed z top t left y m k way zip dark in
      let once = once_under z top t left y m k way zip dark in
      let (t1, run1, cut) = bypassed-Cut z top t left y m k way zip dark up in
      let zip1 = Cut-Zipper z top t left y m k way zip dark cut in
      let zip_r : Zipper z top t1 (plug m (k ∷ w)) (node_crumb ∷ c) =
        zoom_up m (k ∷ w) (node_crumb ∷ c) zip1 in
      let y_at : b0.node y.addr ≡ some (node_of left z (ptr z m) up y) =
        y_same z top t left y m k way zip dark ∙ zip.stands.0 in
      let out : count y.addr m + count_way y.addr (k ∷ way) ≡ 0 =
        omega (arith, once y.addr, here_eq y.addr y.addr refl) in
      let apart : y.addr ≢ x.addr = λ e. absurd (
        omega
          (arith, out, here_eq y.addr x.addr (sym e), count_way-++ y.addr w (node_crumb ∷ c))) in
      let up_apart : up ≢ x.addr = λ e. absurd (
        omega (
          arith,
          once x.addr,
          here_eq x.addr up e,
          here_eq x.addr x.addr refl,
          count_way-++ x.addr w (node_crumb ∷ c),
        )) in
      let free : Free z top t1 l x (plug m (k ∷ w)) c y x.addr z (ptr z m) up = record {
        sentinel = zip_r.sentinel;
        root = zip_r.root;
        x_at = zip_r.around.0;
        x_ne = zip_r.around.1;
        y_at = cut.same y.addr zip.stands.1 out ∙ zip.stands.0;
        y_ne = zip.stands.1;
        l_stands = zip_r.around.2;
        r_stands = zip_r.stands;
        around = zip_r.around.3;
        once =
            λ e. omega (arith, once e, count-plug e m (k ∷ w), count_way-++ e w (node_crumb ∷ c));
      } in
      let (t', run, done_) = settles t1 (k ∷ w) x.addr z (ptr z m) up free cut.below cut.dark in
      let test : (if up == x.addr then y.addr else up) ≡ up =
        ap (λ b. if b then y.addr else up) (ne→== up x.addr up_apart) in
      (
        t',
        bypass z top t left y m k way zip dark x.addr
            ∙ else_lem (y.addr == x.addr) _ _ b0 (ne→== y.addr x.addr apart)
            ∙ rw (parent_lem b0 y.addr _ y_at)
                (rw (ap (λ q. set_parent (ptr z m) q b0) test ∙ run1) run),
        record {
          zipper = done_.zipper;
          below = done_.below;
          dark = done_.dark;
          left_over = done_.left_over;
          left_stands = done_.left_stands;
          same = λ e nez nex ney h.
              done_.same e nez nex ney h
              ∙ cut.same e nez (
                  omega (
                    arith,
                    h,
                    here_ne e x.addr (λ q. nex (sym q)),
                    count_way-++ e w (node_crumb ∷ c),
                    count_way-++ e w (heir_crumb ∷ c),
                  ));
        },
      )

  -- The way from y to x, whatever its length.
  pub succeeds :
      (t : Tree) (w : List Crumb)
      → Zipper z top t (fork nil y m) (w ++ node_crumb ∷ c)
      → IsDark z t
      → (t' : Tree) × (splice_out x.addr y.addr (ptr z m) t ≡ done tt t')
        × Succeeded z top t m (w ++ heir_crumb ∷ c) x.addr y.addr t'
  succeeds t [] zip dark = child_succeeds t zip dark
  succeeds t (k ∷ w) zip dark = deep_succeeds t k w zip dark

-- x leaves its own place, for its only child.
pub own_succeeds :
    (z top : Addr) (t : Tree) (side : Side) (x : Label) (m : Shape) (k : Crumb) (c : List Crumb)
    → Zipper z top t (mk side nil x m) (k ∷ c)
    → IsDark z t
    → (t' : Tree) × (splice_out x.addr x.addr (ptr z m) t ≡ done tt t')
      × Succeeded z top t m (k ∷ c) x.addr x.addr t'
own_succeeds z top t side x m k c zip dark =
    let (t', run, cut) = bypassed-Cut z top t side x m k c zip dark k.label.addr in
    let (at, ne, near, far) = Stands-parts z t.node k.label.addr side nil x m zip.stands in
    let once = once_under z top t side x m k c zip dark in
    (
      t',
      bypass z top t side x m k c zip dark x.addr
          ∙ then_lem (x.addr == x.addr) _ _ (bypassed z top t side x m k c zip dark)
              (==_refl x.addr)
          ∙ run,
      record {
        zipper = Cut-Zipper z top t side x m k c zip dark cut;
        below = cut.below;
        dark = cut.dark;
        left_over = node_of side z (ptr z m) k.label.addr x;
        left_stands =
            cut.same x.addr ne (omega (arith, once x.addr, here_eq x.addr x.addr refl)) ∙ at;
        same = λ e nez nex ney h. cut.same e nez h;
      },
    )
