-- ===== src/Memory/Libc.antt =====
-- malloc, posix_memalign, realloc and free, which the program takes from the C library: a record
-- of operations, and their documented behaviour as laws.
use libnc.Prelude.{
  ℕ, ◌+◌, ◌%◌, ◌≤◌, ◌<◌, ◌≡◌, ◌≢◌, ◌⊎◌, Bool, Option, none, some, ◌==◌, if◌then◌else◌,
}
use libnc.Memory.{Addr, null, word, Mem, block}

-- `none` is a NULL result. A failed call leaves the memory as it was.
pub record Libc : Type 0 where
  -- whether the build defines NC_HAVE_POSIX_MEMALIGN
  pub has_posix_memalign : Bool
  pub malloc : Mem → ℕ → Option (Addr × Mem)
  -- the alignment comes first
  pub posix_memalign : Mem → ℕ → ℕ → Option (Addr × Mem)
  pub realloc : Mem → Addr → ℕ → Option (Addr × Mem)
  pub free : Mem → Addr → Mem

-- A new block of n bytes at p, apart from all live blocks, whose bytes it leaves alone.
pub record Placed (m : Mem) (n : ℕ) (p : Addr) (m' : Mem) : Type 0 where
  pub ne_null : p ≢ null
  pub fits : p + n < word
  pub fresh : block m p ≡ none
  pub live : (q : Addr) → block m' q ≡ (if p == q then some n else block m q)
  pub apart : (q s : ℕ) → block m q ≡ some s → (q + s ≤ p) ⊎ (p + n ≤ q)
  pub kept : (q s i : ℕ) → block m q ≡ some s → i < s → m'.byte (q + i) ≡ m.byte (q + i)

-- The block at p has given way to one of n bytes at p', with the bytes that fit copied.
pub record Moved (m : Mem) (p : Addr) (s n : ℕ) (p' : Addr) (m' : Mem) : Type 0 where
  pub ne_null : p' ≢ null
  pub fits : p' + n < word
  pub live :
      (q : Addr) → block m' q ≡ (if p' == q then some n else if p == q then none else block m q)
  pub fresh : (q t : ℕ) → p ≢ q → block m q ≡ some t → p' ≢ q
  pub apart : (q t : ℕ) → p ≢ q → block m q ≡ some t → (q + t ≤ p') ⊎ (p' + n ≤ q)
  pub copied : (i : ℕ) → i < s → i < n → m'.byte (p' + i) ≡ m.byte (p + i)
  pub kept : (q t i : ℕ) → p ≢ q → block m q ≡ some t → i < t → m'.byte (q + i) ≡ m.byte (q + i)

-- The block at p is gone.
pub record Freed (m : Mem) (p : Addr) (m' : Mem) : Type 0 where
  pub live : (q : Addr) → block m' q ≡ (if p == q then none else block m q)
  pub kept : (q t i : ℕ) → p ≢ q → block m q ≡ some t → i < t → m'.byte (q + i) ≡ m.byte (q + i)

pub record IsLibc (c : Libc) : Type 0 where
  pub malloc_placed :
      (m : Mem) (n : ℕ) (p : Addr) (m' : Mem) → c.malloc m n ≡ some (p, m') → Placed m n p m'
  -- a block is aligned for every fundamental type
  pub malloc_aligned :
      (m : Mem) (n : ℕ) (p : Addr) (m' : Mem) → c.malloc m n ≡ some (p, m') → p % 16 ≡ 0
  pub memalign_placed :
      (m : Mem) (a n : ℕ) (p : Addr) (m' : Mem)
      → c.posix_memalign m a n ≡ some (p, m')
      → Placed m n p m' × (p % a ≡ 0)
  pub realloc_moved :
      (m : Mem) (p : Addr) (s n : ℕ) (p' : Addr) (m' : Mem)
      → block m p ≡ some s
      → c.realloc m p n ≡ some (p', m')
      → Moved m p s n p' m'
  pub free_freed : (m : Mem) (p : Addr) (s : ℕ) → block m p ≡ some s → Freed m p (c.free m p)
