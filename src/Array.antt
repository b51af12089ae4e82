-- ===== src/Array.antt =====
-- src/nc_array.h and src/nc_array.c: an array of elements of one size that doubles when it is full.
-- A count is an int, here a number: a signed overflow is undefined, and size_t wraps at 2^64.
-- Negative counts are left out.
pub mod Invariant
pub mod Create
pub mod Push
pub mod Contents
pub mod Overflow
use libnc.Prelude.{ℕ, ◌+◌, ◌*◌, ◌%◌, ◌^◌, Option, none, some, ltb, leb, ◌==◌, if◌then◌else◌}
use libnc.Memory.{Addr, null, word, Mem, ok, undefined, Cmd, pure, ◌>>=◌, ◌>>◌}
use libnc.Memory.Libc.{Libc}
use libnc.Macros.{Status, nc_ok, nc_enomem, nc_alloc, nc_realloc, nc_free}

pub record Array : Type 0 where
  pub elems : Addr
  pub nelem : ℕ
  pub size : ℕ
  pub nalloc : ℕ

abbrev pub int_limit : ℕ
int_limit = 2 ^ 31

-- sizeof(struct nc_array)
abbrev pub struct_size : ℕ
struct_size = 32

-- The result of an addition or a multiplication of ints.
abbrev pub int : ℕ → Cmd ℕ
int x m = if ltb x int_limit then ok x m else undefined

-- `a` is the struct as the caller hands it over, with any content.
unfoldable pub init : Libc → Array → ℕ → ℕ → Cmd (Status × Array)
init c a n size = do
  p ← nc_alloc c (n * size % word)
  if p == null
      then pure (nc_enomem, record a { elems = null })
      else pure (nc_ok, record { elems = p; nelem = 0; size = size; nalloc = n })

-- The array comes with the address of its struct, whose content at first is `fresh`.
created : Libc → Addr → Status × Array → Cmd (Option (Addr × Array))
created c p (nc_ok, a) = pure (some (p, a))
created c p (_, a) = nc_free c p >> pure none

unfoldable pub create : Libc → Array → ℕ → ℕ → Cmd (Option (Addr × Array))
unfolding init created
create c fresh n size = do
  p ← nc_alloc c struct_size
  if p == null then pure none else do r ← init c fresh n size; created c p r

unfoldable pub destroy : Libc → Addr → Array → Cmd (Unit {0})
destroy c p a = (if a.elems == null then pure tt else nc_free c a.elems) >> nc_free c p

-- The end of push and push_n: the address of the next element, and the new count.
take_slots : ℕ → Array → Cmd (Addr × Array)
take_slots n a = do
  nelem ← int (a.nelem + n)
  pure ((a.elems + a.size * a.nelem % word) % word, record a { nelem = nelem })

unfoldable pub push : Libc → Array → Cmd (Addr × Array)
unfolding take_slots
push c a =
    if a.nelem == a.nalloc
    then (do
      p ← nc_realloc c a.elems (2 * (a.size * a.nalloc % word) % word)
      if p == null then pure (null, a) else do
        nalloc ← int (a.nalloc * 2)
        take_slots 1 (record a { elems = p; nalloc = nalloc }))
    else take_slots 1 a

unfoldable pub push_n : Libc → Array → ℕ → Cmd (Addr × Array)
unfolding take_slots
push_n c a n = do
  total ← int (a.nelem + n)
  if ltb a.nalloc total
      then (do
        nalloc ← int (2 * (if leb a.nalloc n then n else a.nalloc))
        p ← nc_realloc c a.elems (nalloc * a.size % word)
        if p == null
            then pure (null, a)
            else take_slots n (record a { elems = p; nalloc = nalloc }))
      else take_slots n a
