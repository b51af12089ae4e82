-- ===== src/Tests/Bump.antt =====
-- A C library that can be run: each new block goes behind all others.
use libnc.Prelude.{
  ℕ, ◌+◌, ◌-◌, ◌*◌, ◌/◌, ◌%◌, ◌≤◌, ◌<◌, ◌≡◌, refl, inl, inr, true, false, List, [], ◌∷◌, Option,
  none, some, arith, ltb, ◌==◌, ◌&&◌, if◌then◌else◌, Option-cases,
}
use libnc.Memory.{Addr, word, Mem, block, find, within}
use libnc.Memory.Libc.{Libc, IsLibc, Placed, Moved}

-- No block reaches past this address.
abbrev top : List (Addr × ℕ) → ℕ
top [] = 0
top ((q, n) ∷ bs) = if ltb (q + n) (top bs) then top bs else q + n

abbrev remove : Addr → List (Addr × ℕ) → List (Addr × ℕ)
remove p [] = []
remove p ((q, n) ∷ bs) = if q == p then remove p bs else (q, n) ∷ remove p bs

-- The first multiple of a past the top.
abbrev above : ℕ → Mem → Addr
above a m = (top m.blocks / a + 1) * a

abbrev place : ℕ → Mem → ℕ → Option (Addr × Mem)
place a m n =
    let p = above a m in
    if ltb (p + n) word && ltb 0 a then some (p, record m { blocks = (p, n) ∷ m.blocks }) else none

abbrev copied : Mem → Addr → Addr → ℕ → Addr → ℕ
copied m p q n a = if within q n a then m.byte (p + (a - q)) else m.byte a

abbrev move : Mem → Addr → ℕ → Option (Addr × Mem)
move m p n =
    let q = above 16 m in
    if ltb (q + n) word
    then some (q, record { byte = copied m p q n; blocks = (q, n) ∷ remove p m.blocks })
    else none

abbrev pub bump : Libc
bump = record {
  has_posix_memalign = true;
  malloc = place 16;
  posix_memalign = λ m a n. place a m n;
  realloc = move;
  free = λ m p. record m { blocks = remove p m.blocks };
}

find-top : (q s : ℕ) (bs : List (Addr × ℕ)) → find q bs ≡ some s → q + s ≤ top bs
unfolding find
find-top q s [] e = absurd (ground arith)
find-top q s ((r, n) ∷ bs) e = ground (arith, find-top q s bs)

find_above : (q : ℕ) (bs : List (Addr × ℕ)) → top bs < q → find q bs ≡ none
find_above q bs h = elim (Option-cases (find q bs)) [
  | inl e ↦ e
  | inr (s, e) ↦ absurd (omega (arith, find-top q s bs e))
]

find-remove :
    (p q : ℕ) (bs : List (Addr × ℕ)) → find q (remove p bs) ≡ (if p == q then none else find q bs)
unfolding find
find-remove p q [] = ground arith
find-remove p q ((r, n) ∷ bs) = ground (arith, find-remove p q bs)

above_lt : (t a : ℕ) → 0 < a → t < (t / a + 1) * a
above_lt t a h = grind arith

above_mod : (t a : ℕ) → 0 < a → ((t / a + 1) * a) % a ≡ 0
above_mod t a h = grind arith

abbrev with_block : Mem → Addr → ℕ → Mem
with_block m p n = record m { blocks = (p, n) ∷ m.blocks }

Placed-at :
    (m : Mem) (n : ℕ) (p : Addr) → top m.blocks < p → p + n < word → Placed m n p (with_block m p n)
unfolding find
Placed-at m n p high fits = record {
  ne_null = omega arith;
  fits = fits;
  fresh = find_above p m.blocks high;
  live = λ q. refl;
  apart = λ q s old. inl (omega (arith, find-top q s m.blocks old));
  kept = λ q s i old lt. refl;
}

place-Placed :
    (a : ℕ) (m : Mem) (n : ℕ) (p : Addr) (m' : Mem)
    → place a m n ≡ some (p, m')
    → Placed m n p m' × (p % a ≡ 0)
place-Placed a m n p m' e =
    let a_pos : 0 < a = ground arith in
    let fits : above a m + n < word = ground arith in
    let here : p ≡ above a m = ground arith in
    let after : m' ≡ with_block m (above a m) n = ground arith in
    rw (here, after)
      (
        Placed-at m n (above a m) (above_lt (top m.blocks) a a_pos) fits,
        above_mod (top m.blocks) a a_pos,
      )

abbrev moved_block : Mem → Addr → Addr → ℕ → Mem
moved_block m p q n = record { byte = copied m p q n; blocks = (q, n) ∷ remove p m.blocks }

Moved-at :
    (m : Mem) (p s n : ℕ) (q : Addr)
    → block m p ≡ some s
    → top m.blocks < q
    → q + n < word
    → Moved m p s n q (moved_block m p q n)
unfolding find
Moved-at m p s n q old high fits = record {
  ne_null = omega arith;
  fits = fits;
  live = λ r. ground (arith, find-remove p r m.blocks);
  fresh = λ r t ne live e. ground (arith, find-top r t m.blocks live);
  apart = λ r t ne live. inl (omega (arith, find-top r t m.blocks live));
  copied = λ i lt lt'.
      let inside : within q n (q + i) ≡ true = ground arith in
      let back : q + i - q ≡ i = omega arith in rw (inside, back);
  kept = λ r t i ne live lt.
      let outside : within q n (r + i) ≡ false = ground (arith, find-top r t m.blocks live) in
      rw outside;
}

move-Moved :
    (m : Mem) (p s n : ℕ) (q : Addr) (m' : Mem)
    → block m p ≡ some s
    → move m p n ≡ some (q, m')
    → Moved m p s n q m'
move-Moved m p s n q m' old e =
    let fits : above 16 m + n < word = ground arith in
    let here : q ≡ above 16 m = ground arith in
    let after : m' ≡ moved_block m p (above 16 m) n = ground arith in
    rw (here, after) (Moved-at m p s n (above 16 m) old (omega arith) fits)

pub bump-IsLibc : IsLibc bump
bump-IsLibc = record {
  malloc_placed = λ m n p m' e. (place-Placed 16 m n p m' e).0;
  malloc_aligned = λ m n p m' e. (place-Placed 16 m n p m' e).1;
  memalign_placed = λ m a n p m' e. place-Placed a m n p m' e;
  realloc_moved = λ m p s n q m' old e. move-Moved m p s n q m' old e;
  free_freed =
      λ m p s old. record { live = λ q. find-remove p q m.blocks; kept = λ q t i ne live lt. refl };
}
