-- ===== src/Rbtree/Order.antt =====
-- The order of the keys in a tree of src/nc_rbtree.c, and the insertion of a key into a sorted
-- list.
use libnc.Prelude.{
  true, false, List, [], ◌∷◌, ◌++◌, All, Bool-cases, if◌then◌else◌, inl, inr, ◌≡◌, refl, sym, ap,
  ◌∙◌, arith,
}
use libnc.Memory.{Addr}
use libnc.Rbtree.Store.{ℤ, pos, negsuc, less}
use libnc.Rbtree.Shape.{Label, Shape, nil, fork, items, item}

abbrev pub Item : Type 0
Item = Addr × ℤ × Addr

-- No key comes before an earlier one.
abbrev pub NotBelow : ℤ → List Item → Type 0
NotBelow k xs = All (λ (x : Item). less x.1 k ≡ false) xs

abbrev pub IsSorted : List Item → Type 0
IsSorted [] = Unit {0}
IsSorted (x ∷ xs) = NotBelow x.1 xs × IsSorted xs

-- A new item goes before the first one with a greater key.
unfoldable pub insert_item : Item → List Item → List Item
insert_item x [] = x ∷ []
insert_item x (y ∷ ys) = if less x.1 y.1 then x ∷ y ∷ ys else y ∷ insert_item x ys

-- The tree that the walk of nc_rbtree_insert makes, before it is rebalanced.
unfoldable pub grow : Shape → Label → Shape
grow nil n = fork nil n nil
grow (fork l x r) n = if less n.key x.key then fork (grow l n) x r else fork l x (grow r n)

pub less_trans : (a b c : ℤ) → less a b ≡ false → less b c ≡ false → less a c ≡ false
less_trans (pos a) (pos b) (pos c) p q = ground arith
less_trans (pos a) (pos b) (negsuc c) p q = refl
less_trans (pos a) (negsuc b) (pos c) p q = absurd (cc)
less_trans (pos a) (negsuc b) (negsuc c) p q = refl
less_trans (negsuc a) (pos b) c p q = absurd (cc)
less_trans (negsuc a) (negsuc b) (pos c) p q = absurd (cc)
less_trans (negsuc a) (negsuc b) (negsuc c) p q = ground arith

pub less_asym : (a b : ℤ) → less a b ≡ true → less b a ≡ false
less_asym (pos a) (pos b) h = ground arith
less_asym (pos a) (negsuc b) h = absurd (cc)
less_asym (negsuc a) (pos b) h = refl
less_asym (negsuc a) (negsuc b) h = ground arith

insert_item-left :
    (x y : Item) (xs ys : List Item)
    → less x.1 y.1 ≡ true
    → insert_item x (xs ++ y ∷ ys) ≡ insert_item x xs ++ y ∷ ys
unfolding insert_item
insert_item-left x y [] ys h = rw h
insert_item-left x y (w ∷ xs) ys h = elim (Bool-cases (less x.1 w.1)) [
  | inl e ↦ rw e
  | inr e ↦ rw e (ap (λ l. w ∷ l) (insert_item-left x y xs ys h))
]

NotBelow-middle :
    (k : ℤ) (xs : List Item) (y : Item) (ys : List Item)
    → NotBelow k (xs ++ y ∷ ys)
    → less y.1 k ≡ false
NotBelow-middle k [] y ys h = h.0
NotBelow-middle k (x ∷ xs) y ys h = NotBelow-middle k xs y ys h.1

insert_item-right :
    (x y : Item) (xs ys : List Item)
    → less x.1 y.1 ≡ false
    → IsSorted (xs ++ y ∷ ys)
    → insert_item x (xs ++ y ∷ ys) ≡ xs ++ y ∷ insert_item x ys
unfolding insert_item
insert_item-right x y [] ys h sorted = rw h
insert_item-right x y (w ∷ xs) ys h sorted =
    let w_le : less x.1 w.1 ≡ false =
      less_trans x.1 y.1 w.1 h (NotBelow-middle w.1 xs y ys sorted.0) in
    rw w_le (ap (λ l. w ∷ l) (insert_item-right x y xs ys h sorted.1))

All-left : (k : ℤ) (xs ys : List Item) → NotBelow k (xs ++ ys) → NotBelow k xs
All-left k [] ys h = tt
All-left k (x ∷ xs) ys h = (h.0, All-left k xs ys h.1)

IsSorted-left : (xs : List Item) (y : Item) (ys : List Item) → IsSorted (xs ++ y ∷ ys) → IsSorted xs
IsSorted-left [] y ys s = tt
IsSorted-left (x ∷ xs) y ys s = (All-left x.1 xs (y ∷ ys) s.0, IsSorted-left xs y ys s.1)

IsSorted-right :
    (xs : List Item) (y : Item) (ys : List Item) → IsSorted (xs ++ y ∷ ys) → IsSorted ys
IsSorted-right [] y ys s = s.1
IsSorted-right (x ∷ xs) y ys s = IsSorted-right xs y ys s.1

-- The grown tree holds the items of the sorted list with the new one in its place.
pub items-grow :
    (s : Shape) (n : Label) → IsSorted (items s) → items (grow s n) ≡ insert_item (item n) (items s)
unfolding grow insert_item
items-grow nil n sorted = refl
items-grow (fork l x r) n sorted = elim (Bool-cases (less n.key x.key)) [
  | inl e ↦ rw e (
      ap (λ xs. xs ++ item x ∷ items r)
        (items-grow l n (IsSorted-left (items l) (item x) (items r) sorted))
      ∙ sym (insert_item-left (item n) (item x) (items l) (items r) e))
  | inr e ↦ rw e (
      ap (λ xs. items l ++ item x ∷ xs)
        (items-grow r n (IsSorted-right (items l) (item x) (items r) sorted))
      ∙ sym (insert_item-right (item n) (item x) (items l) (items r) e sorted))
]

NotBelow-insert_item :
    (k : ℤ) (x : Item) (xs : List Item)
    → less x.1 k ≡ false
    → NotBelow k xs
    → NotBelow k (insert_item x xs)
unfolding insert_item
NotBelow-insert_item k x [] h s = (h, tt)
NotBelow-insert_item k x (y ∷ ys) h s = elim (Bool-cases (less x.1 y.1)) [
  | inl e ↦ rw e (h, s)
  | inr e ↦ rw e (s.0, NotBelow-insert_item k x ys h s.1)
]

NotBelow-trans : (k j : ℤ) (xs : List Item) → less k j ≡ false → NotBelow k xs → NotBelow j xs
NotBelow-trans k j [] h s = tt
NotBelow-trans k j (x ∷ xs) h s = (less_trans x.1 k j s.0 h, NotBelow-trans k j xs h s.1)

pub insert_item-IsSorted : (x : Item) (xs : List Item) → IsSorted xs → IsSorted (insert_item x xs)
unfolding insert_item
insert_item-IsSorted x [] s = (tt, tt)
insert_item-IsSorted x (y ∷ ys) s = elim (Bool-cases (less x.1 y.1)) [
  | inl e ↦ let le = less_asym x.1 y.1 e in rw e ((le, NotBelow-trans y.1 x.1 ys le s.0), s)
  | inr e ↦ rw e (NotBelow-insert_item y.1 x ys e s.0, insert_item-IsSorted x ys s.1)
]
