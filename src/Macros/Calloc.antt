-- ===== src/Macros/Calloc.antt =====
-- The allocation wrappers of src/nc_macros.c.
use libnc.Prelude.{
  ℕ, ◌+◌, ◌*◌, ◌%◌, ◌≤◌, ◌<◌, ◌≡◌, refl, ◌≢◌, ◌⊎◌, inl, inr, false, some, arith, ◌==◌,
  if◌then◌else◌, Option-cases, Bool-cases,
}
use libnc.Memory.{Addr, null, word, within, Mem, block, ok, pure, ◌>>◌, memset}
use libnc.Memory.Gives.{Gives, gives, seq}
use libnc.Memory.Libc.{Libc, IsLibc, Placed, Freed}
use libnc.Macros.{nc_alloc, nc_zalloc, nc_calloc, nc_free, nc_memalign}

-- NULL and the old memory, or a new block.
pub data Allocated (m : Mem) (n : ℕ) (p : Addr) (m' : Mem) : Type 0 where
  failed : p ≡ null → m' ≡ m → Allocated m n p m'
  placed : Placed m n p m' → p % 16 ≡ 0 → Allocated m n p m'

pub nc_alloc-some :
    (c : Libc) (n : ℕ) (p : Addr) (m m' : Mem)
    → c.malloc m n ≡ some (p, m')
    → nc_alloc c n m ≡ ok p m'
unfolding nc_alloc
nc_alloc-some c n p m m' e = rw (e, nc_alloc) refl

module _ {c : Libc} (is : IsLibc c) where
  pub nc_alloc-Allocated : (n : ℕ) (m : Mem) → Gives (Allocated m n) (nc_alloc c n m)
  unfolding nc_alloc
  nc_alloc-Allocated n m = elim (Option-cases (c.malloc m n)) [
    | inl e ↦ rw (e, nc_alloc) (gives (failed refl refl))
    | inr ((p, m'), e) ↦
        rw (e, nc_alloc)
          (gives (placed (is.malloc_placed m n p m' e) (is.malloc_aligned m n p m' e)))
  ]

  pub nc_memalign-Allocated : (n : ℕ) (m : Mem) → Gives (Allocated m n) (nc_memalign c 16 n m)
  unfolding nc_memalign
  nc_memalign-Allocated n m = elim (Bool-cases c.has_posix_memalign) [
    | inl posix ↦ elim (Option-cases (c.posix_memalign m 16 n)) [
      | inl e ↦ rw (posix, e, nc_memalign) (gives (failed refl refl))
      | inr ((p, m'), e) ↦
          let (new, aligned) = is.memalign_placed m 16 n p m' e in
          rw (posix, e, nc_memalign) (gives (placed new aligned))
    ]
    | inr plain ↦ simp plain (nc_alloc-Allocated n m)
  ]

  -- A free of a live block takes that block away and nothing else.
  pub nc_free-Freed :
      (p s : ℕ) (m : Mem)
      → p ≢ null
      → block m p ≡ some s
      → Gives (λ _ m'. Freed m p m') (nc_free c p m)
  unfolding nc_free
  nc_free-Freed p s m ne live =
      let other : (p == null) ≡ false = ground arith in
      rw (other, live, nc_free) (gives (is.free_freed m p s live))

-- A new block of n bytes, all zero.
pub record Zeroed (m : Mem) (n : ℕ) (p : Addr) (m' : Mem) : Type 0 where
  pub place : Placed m n p m'
  pub zero_byte : (i : ℕ) → i < n → m'.byte (p + i) ≡ 0

-- memset inside a new block spares every older one.
Placed-memset :
    {m m' : Mem} {n : ℕ} {p : Addr} (v : ℕ)
    → Placed m n p m'
    → Gives (λ _ g. Placed m n p g × ((i : ℕ) → i < n → g.byte (p + i) ≡ v)) (memset p v n m')
unfolding memset
Placed-memset v new = gives (
  record {
    ne_null = new.ne_null;
    fits = new.fits;
    fresh = new.fresh;
    live = new.live;
    apart = new.apart;
    kept = λ q s i old lt. ground (arith, new.apart q s, new.kept q s i);
  },
  λ i lt. ground arith,
)

module _ {c : Libc} (is : IsLibc c) where
  nc_zalloc-Zeroed :
      (n : ℕ) (m : Mem)
      → Gives (λ p m'. ((p ≡ null) × (m' ≡ m)) ⊎ Zeroed m n p m') (nc_zalloc c n m)
  unfolding nc_zalloc
  nc_zalloc-Zeroed n m = seq (nc_alloc-Allocated is n m) λ p m' result. clear p m' result
    where
      clear :
          (p : Addr) (m' : Mem)
          → Allocated m n p m'
          → Gives
              (λ q g. ((q ≡ null) × (g ≡ m)) ⊎ Zeroed m n q g)
              ((if p == null then pure p else do memset p 0 n; pure p) m')
      clear p m' (failed e f) = rw (e, f) (gives (inl (refl, refl)))
      clear p m' (placed new aligned) = rw not_null (
          seq (Placed-memset 0 new)
            λ _ g zeroed. gives (inr (record { place = zeroed.0; zero_byte = zeroed.1 })))
        where
          not_null : (p == null) ≡ false
          not_null = ground (arith, new.ne_null)

  -- nc_calloc of a product that fits 64 bits gives NULL, and then changes nothing, or a new block
  -- of that many bytes, all zero, and spares every older block.
  pub nc_calloc-Zeroed :
      (nmemb size : ℕ) (m : Mem)
      → nmemb * size < word
      → Gives
          (λ p m'. ((p ≡ null) × (m' ≡ m)) ⊎ Zeroed m (nmemb * size) p m')
          (nc_calloc c nmemb size m)
  unfolding nc_calloc
  nc_calloc-Zeroed nmemb size m fits =
      let e : nmemb * size % word ≡ nmemb * size = omega arith in rw e (nc_zalloc-Zeroed _ m)

  -- Where a product is 2^64 or more, and malloc has memory for the product modulo 2^64, nc_calloc
  -- returns that block, which is smaller than the product.
  pub nc_calloc_overflow :
      (nmemb size : ℕ) (p : Addr) (m g : Mem)
      → word ≤ nmemb * size
      → c.malloc m (nmemb * size % word) ≡ some (p, g)
      → (k : ℕ) × (m' : Mem) × (nc_calloc c nmemb size m ≡ ok p m')
        × (p ≢ null)
        × (block m' p ≡ some k)
        × (k < nmemb * size)
  unfolding nc_calloc nc_zalloc memset
  nc_calloc_overflow nmemb size p m g over got =
      let new = is.malloc_placed m (nmemb * size % word) p g got in
      let p_set : (p == null) ≡ false = ground (arith, new.ne_null) in
      (
        nmemb * size % word,
        record g { byte = λ a. if within p (nmemb * size % word) a then 0 else g.byte a },
        rw (nc_alloc-some c (nmemb * size % word) p m g got) (rw p_set refl),
        new.ne_null,
        ground (arith, new.live p),
        omega arith,
      )
