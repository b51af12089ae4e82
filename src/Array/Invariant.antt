-- ===== src/Array/Invariant.antt =====
-- When an array is well formed, and what a push promises.
use libnc.Prelude.{ℕ, ◌+◌, ◌*◌, ◌≤◌, ◌<◌, ◌≡◌, ◌≢◌, none, some}
use libnc.Memory.Libc.{Libc}
use libnc.Memory.{Addr, null, word, Mem, block}
use libnc.Array.{Array, int_limit}

-- The array owns a block of `nalloc` elements, the first `nelem` of them in use.
pub record IsArray (m : Mem) (a : Array) : Type 0 where
  pub ne_null : a.elems ≢ null
  pub live : block m a.elems ≡ some (a.size * a.nalloc)
  pub fits : a.elems + a.size * a.nalloc < word
  pub used : a.nelem ≤ a.nalloc
  pub small : a.nalloc < int_limit
  pub size_pos : 0 < a.size
  pub nalloc_pos : 0 < a.nalloc

-- Blocks other than the one at p are live as before, with the same bytes.
abbrev pub SameBeside : Addr → Mem → Mem → Type 0
SameBeside p m m' =
    (q t : ℕ)
    → p ≢ q
    → block m q ≡ some t
    → (block m' q ≡ some t) × ((i : ℕ) → i < t → m'.byte (q + i) ≡ m.byte (q + i))

-- n elements from p on have been added: they lie in the array's block, behind the old elements,
-- whose bytes have not changed.
pub record Pushed (m : Mem) (a : Array) (n : ℕ) (p : Addr) (a' : Array) (m' : Mem) : Type 0 where
  pub valid : IsArray m' a'
  pub slot : p ≡ a'.elems + a.size * a.nelem
  pub room : p + a.size * n ≤ a'.elems + a'.size * a'.nalloc
  pub counted : a'.nelem ≡ a.nelem + n
  pub same_size : a'.size ≡ a.size
  pub kept : (i : ℕ) → i < a.size * a.nelem → m'.byte (a'.elems + i) ≡ m.byte (a.elems + i)
  pub beside : SameBeside a.elems m m'

-- The elements do not fit the capacity, and the C library has no memory for one of `nalloc`
-- elements.
pub record IsStuck (c : Libc) (m : Mem) (a : Array) (n nalloc : ℕ) : Type 0 where
  pub full : a.nalloc < a.nelem + n
  pub refused : c.realloc m a.elems (a.size * nalloc) ≡ none

-- NULL with nothing changed, where there is neither room nor memory, or the new elements.
pub data PushResult (c : Libc) (nalloc : ℕ) (m : Mem) (a : Array) (n : ℕ) (r : Addr × Array)
    (m' : Mem) : Type 0 where
  no_memory :
      IsStuck c m a n nalloc → r.0 ≡ null → r.1 ≡ a → m' ≡ m → PushResult c nalloc m a n r m'
  pushed : Pushed m a n r.0 r.1 m' → PushResult c nalloc m a n r m'
