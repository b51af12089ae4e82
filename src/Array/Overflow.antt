-- ===== src/Array/Overflow.antt =====
-- The unchecked multiplication in nc_array_init of src/nc_array.h.
use libnc.Prelude.{ℕ, ◌*◌, ◌%◌, ◌≤◌, ◌<◌, ◌≡◌, refl, false, some, arith, ◌==◌}
use libnc.Memory.{Addr, null, word, Mem, block, ok}
use libnc.Memory.Libc.{Libc, IsLibc}
use libnc.Macros.Calloc.{nc_alloc-some}
use libnc.Array.{Array, struct_size, init, create, created}

-- Where n elements of `size` bytes are 2^64 bytes or more, and malloc has memory for the struct
-- and for that product modulo 2^64, nc_array_create returns an array with room for n elements
-- whose block is shorter than n elements.
pub create_overflow :
    {c : Libc} (libc : IsLibc c) (fresh : Array) (n size : ℕ) (p e : Addr) (m g h : Mem)
    → word ≤ size * n
    → c.malloc m struct_size ≡ some (p, g)
    → c.malloc g (n * size % word) ≡ some (e, h)
    → (a : Array) × (k : ℕ) × (create c fresh n size m ≡ ok (some (p, a)) h)
      × (a.nalloc ≡ n)
      × (a.size ≡ size)
      × (block h a.elems ≡ some k)
      × (k < a.size * a.nalloc)
unfolding create init created
create_overflow {c} libc fresh n size p e m g h over first second =
    let new = libc.malloc_placed m struct_size p g first in
    let placed = libc.malloc_placed g (n * size % word) e h second in
    let p_set : (p == null) ≡ false = ground (arith, new.ne_null) in
    let e_set : (e == null) ≡ false = ground (arith, placed.ne_null) in
    (
      record { elems = e; nelem = 0; size = size; nalloc = n },
      n * size % word,
      rw (nc_alloc-some c struct_size p m g first)
          (rw p_set (rw (nc_alloc-some c (n * size % word) e g h second) (rw e_set refl))),
      refl,
      refl,
      ground (arith, placed.live e),
      omega arith,
    )
