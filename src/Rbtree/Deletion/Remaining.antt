-- ===== src/Rbtree/Deletion/Remaining.antt =====
-- The items of a tree of src/nc_rbtree.c without one of them.
use mathlib.Core.List.{append_assoc, append-nil}
use libnc.Prelude.{List, [], ◌∷◌, ◌++◌, ◌≡◌, sym, ap, ◌∙◌}
use libnc.Rbtree.Store.{ℤ, Side, left, right}
use libnc.Rbtree.Turn.{crumb}
use libnc.Rbtree.Shape.{Label, Shape, fork, Crumb, plug, items, item}
use libnc.Rbtree.Order.{Item, NotBelow, IsSorted}

pub NotBelow-without :
    (k : ℤ) (xs : List Item) (y : Item) (ys : List Item)
    → NotBelow k (xs ++ y ∷ ys)
    → NotBelow k (xs ++ ys)
NotBelow-without k [] y ys h = h.1
NotBelow-without k (x ∷ xs) y ys h = (h.0, NotBelow-without k xs y ys h.1)

pub IsSorted-without :
    (xs : List Item) (y : Item) (ys : List Item) → IsSorted (xs ++ y ∷ ys) → IsSorted (xs ++ ys)
IsSorted-without [] y ys s = s.1
IsSorted-without (x ∷ xs) y ys s = (NotBelow-without x.1 xs y ys s.0, IsSorted-without xs y ys s.1)

-- The items of a tree, around those of the subtree at the end of a way.
pub record Framed (c : List Crumb) : Type 0 where
  pub before : List Item
  pub after : List Item
  pub whole : (s : Shape) → items (plug s c) ≡ before ++ (items s ++ after)

frame_side :
    (side : Side) (x : Label) (far : Shape) (c : List Crumb)
    → Framed c
    → Framed (crumb side x far ∷ c)
frame_side left x far c f = record {
  before = f.before;
  after = item x ∷ items far ++ f.after;
  whole = λ s.
      f.whole (fork s x far)
      ∙ ap (λ l. f.before ++ l) (append_assoc (items s) (item x ∷ items far) f.after);
}
frame_side right x far c f = record {
  before = f.before ++ (items far ++ item x ∷ []);
  after = f.after;
  whole = λ s.
      f.whole (fork far x s)
      ∙ ap (λ l. f.before ++ (l ++ f.after))
          (sym (append_assoc (items far) (item x ∷ []) (items s)))
      ∙ ap (λ l. f.before ++ l) (append_assoc (items far ++ item x ∷ []) (items s) f.after)
      ∙ sym (append_assoc f.before (items far ++ item x ∷ []) (items s ++ f.after));
}

pub frame_of : (c : List Crumb) → Framed c
frame_of [] = record { before = []; after = []; whole = λ s. sym (append-nil (items s)) }
frame_of (k ∷ c) = frame_side k.side k.label k.far c (frame_of c)

-- The tree s has the item x, and the tree s' is without it.
pub record Without (s s' : Shape) (x : Item) : Type 0 where
  pub before : List Item
  pub after : List Item
  pub whole : items s ≡ before ++ x ∷ after
  pub rest : items s' ≡ before ++ after

pub plug-Without :
    (l : Shape) (x : Label) (r s : Shape) (c : List Crumb)
    → items s ≡ items l ++ items r
    → Without (plug (fork l x r) c) (plug s c) (item x)
plug-Without l x r s c e =
    let f = frame_of c in
    record {
      before = f.before ++ items l;
      after = items r ++ f.after;
      whole =
          f.whole (fork l x r)
          ∙ ap (λ l. f.before ++ l) (append_assoc (items l) (item x ∷ items r) f.after)
          ∙ sym (append_assoc f.before (items l) (item x ∷ items r ++ f.after));
      rest =
          f.whole s
          ∙ ap (λ l. f.before ++ (l ++ f.after)) e
          ∙ ap (λ l. f.before ++ l) (append_assoc (items l) (items r) f.after)
          ∙ sym (append_assoc f.before (items l) (items r ++ f.after));
    }
