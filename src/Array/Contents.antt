-- ===== src/Array/Contents.antt =====
-- An array as a sequence of elements: what a client reads after it fills the element that a push
-- returns.
use libnc.Prelude.{
  ℕ, ◌+◌, ◌-◌, ◌*◌, ◌<◌, ◌≡◌, refl, ◌∙◌, ◌⊎◌, inl, inr, false, true, arith, ◌==◌, if◌then◌else◌,
  Bool-cases,
}
use libnc.Memory.{Addr, null, word, Mem, Cmd, ok, within, pure, ◌>>=◌, ◌>>◌}
use libnc.Memory.Gives.{Gives, gives, seq}
use libnc.Memory.Libc.{Libc, IsLibc}
use libnc.Array.{Array, int_limit, push}
use libnc.Array.Invariant.{IsArray, IsStuck, Pushed, PushResult, no_memory, pushed}
use libnc.Array.Push.{push-PushResult}

-- Byte j of element i is `f i j`.
abbrev pub Contents : Mem → Array → (ℕ → ℕ → ℕ) → Type 0
Contents m a f = (i j : ℕ) → i < a.nelem → j < a.size → m.byte (a.elems + (a.size * i + j)) ≡ f i j

-- A client's write of the element x through a pointer.
unfoldable pub fill : Addr → ℕ → (ℕ → ℕ) → Cmd (Unit {0})
fill p n x m = ok tt (record m { byte = λ a. if within p n a then x (a - p) else m.byte a })

-- A sequence with one more element at place n.
abbrev pub snoc : ℕ → (ℕ → ℕ → ℕ) → (ℕ → ℕ) → ℕ → ℕ → ℕ
snoc n f x i j = if i == n then x j else f i j

-- A client that adds the element x.
unfoldable pub append : Libc → Array → (ℕ → ℕ) → Cmd Array
append c a x = do r ← push c a; if r.0 == null then pure r.1 else do fill r.0 a.size x; pure r.1

place_lt : (s i n j : ℕ) → i < n → j < s → s * i + j < s * n
place_lt s i n j h k = grind arith

-- A byte of the new array after the write: of x, or of an old element.
cell :
    {m g : Mem} {a a' : Array} {p : Addr} {f : ℕ → ℕ → ℕ} (x : ℕ → ℕ) (i j : ℕ)
    → Contents m a f
    → Pushed m a 1 p a' g
    → i < a'.nelem
    → j < a'.size
    → let b = a'.elems + (a'.size * i + j) in
      (if within p a.size b then x (b - p) else g.byte b) ≡ snoc a.nelem f x i j
cell {m} {g} {a} {a'} {p} x i j old done hi hj = elim (Bool-cases (i == a.nelem)) [
  | inl last ↦
      let same : i ≡ a.nelem = ground arith in
      let here : a'.elems + (a'.size * i + j) ≡ p + j =
        rw (done.same_size, same) (omega (arith, done.slot)) in
      let inside : within p a.size (p + j) ≡ true = ground (arith, done.same_size) in
      let back : p + j - p ≡ j = omega arith in rw (here, last, inside, back)
  | inr older ↦
      let lower : i < a.nelem = ground (arith, done.counted) in
      let small : j < a.size = omega (arith, done.same_size) in
      let below = place_lt a.size i a.nelem j lower small in
      let outside : within p a.size (a'.elems + (a.size * i + j)) ≡ false =
        ground (arith, done.slot) in
      rw (done.same_size, older, outside) (done.kept (a.size * i + j) below ∙ old i j lower small)
]

-- The old elements, and x.
filled :
    {m g : Mem} {a a' : Array} {p : Addr} {f : ℕ → ℕ → ℕ} (x : ℕ → ℕ)
    → Contents m a f
    → Pushed m a 1 p a' g
    → Gives (λ _ h. IsArray h a' × Contents h a' (snoc a.nelem f x)) (fill p a.size x g)
unfolding fill
filled {m} {g} {a} {a'} {p} {f} x old done = gives (
  record {
    ne_null = done.valid.ne_null;
    live = done.valid.live;
    fits = done.valid.fits;
    used = done.valid.used;
    small = done.valid.small;
    size_pos = done.valid.size_pos;
    nalloc_pos = done.valid.nalloc_pos;
  },
  λ i j hi hj. cell x i j old done hi hj,
)

module _ {c : Libc} (libc : IsLibc c) where
  -- Of a well-formed array whose doubled capacity is below 2 ^ 31 and takes less than 2 ^ 64
  -- bytes, the contents after a client adds an element with nc_array_push are the old elements and
  -- then the new one. Only where the array is full and realloc has no memory for the doubled
  -- capacity are they the old ones.
  pub append-Contents :
      {m : Mem} {a : Array} {f : ℕ → ℕ → ℕ} (x : ℕ → ℕ)
      → IsArray m a
      → Contents m a f
      → a.nalloc * 2 < int_limit
      → a.size * (a.nalloc * 2) < word
      → Gives
          (λ a' m'.
            IsArray m' a'
            × (IsStuck c m a 1 (a.nalloc * 2) × (a' ≡ a) × Contents m' a' f
                ⊎ (a'.nelem ≡ a.nelem + 1) × Contents m' a' (snoc a.nelem f x)))
          (append c a x m)
  unfolding append
  append-Contents {m} {a} {f} x is old small fits =
      seq (push-PushResult libc is small fits) λ r g result. step r g result
    where
      step :
          (r : Addr × Array) (g : Mem)
          → PushResult c (a.nalloc * 2) m a 1 r g
          → Gives
              (λ a' m'.
                IsArray m' a'
                × (IsStuck c m a 1 (a.nalloc * 2) × (a' ≡ a) × Contents m' a' f
                    ⊎ (a'.nelem ≡ a.nelem + 1) × Contents m' a' (snoc a.nelem f x)))
              ((if r.0 == null then pure r.1 else do fill r.0 a.size x; pure r.1) g)
      step (p, a') g (no_memory stuck is_null same_array same) =
          rw (is_null, same_array, same) (gives (is, inl (stuck, refl, old)))
      step (p, a') g (pushed done) =
          let not_null : (p == null) ≡ false = ground (arith, done.slot, done.valid.ne_null) in
          rw not_null (seq (filled x old done) λ _ h now. gives (now.0, inr (done.counted, now.1)))
