-- ===== src/Macros.antt =====
-- src/nc_macros.h and src/nc_macros.c: status codes, alignment, and the allocation wrappers.
-- NC_ASSERT and the log macros expand to nothing in the repository's builds.
pub mod Align
pub mod Calloc
use Prim.Native.Nat.{bit_and}
use libnc.Prelude.{ℕ, ◌+◌, ◌-◌, ◌*◌, ◌%◌, none, some, ltb, ◌==◌, if◌then◌else◌}
use libnc.Memory.{Addr, null, word, block, Run, ok, undefined, Cmd, pure, ◌>>=◌, ◌>>◌, memset}
use libnc.Memory.Libc.{Libc}

-- NC_OK, NC_ERROR and NC_ENOMEM
pub data Status : Type 0 where
  nc_ok nc_error nc_enomem : Status

abbrev pub minimum : ℕ → ℕ → ℕ
minimum a b = if ltb a b then a else b

-- sizeof(unsigned long)
abbrev pub nc_alignment : ℕ
nc_alignment = 8

-- uintptr_t arithmetic wraps, and `~` complements 64 bits.
unfoldable pub nc_align_ptr : Addr → ℕ → Addr
nc_align_ptr p n = bit_and ((p + (n - 1)) % word) (word - 1 - (n - 1))

module _ (c : Libc) where
  unfoldable pub nc_alloc : ℕ → Cmd Addr
  nc_alloc size m = elim (c.malloc m size) [ none ↦ ok null m | some (p, m') ↦ ok p m' ]

  unfoldable pub nc_zalloc : ℕ → Cmd Addr
  nc_zalloc size = do p ← nc_alloc size; if p == null then pure p else do memset p 0 size; pure p

  unfoldable pub nc_calloc : ℕ → ℕ → Cmd Addr
  nc_calloc nmemb size = nc_zalloc (nmemb * size % word)

  -- realloc(NULL, size) is malloc(size), and a pointer to no live block is undefined.
  unfoldable pub nc_realloc : Addr → ℕ → Cmd Addr
  nc_realloc p size m =
      let moved : Run Addr = elim (c.realloc m p size) [
        | none ↦ ok null m
        | some (q, m') ↦ ok q m'
      ] in
      let of_block : Run Addr = elim (block m p) [ none ↦ undefined | some _ ↦ moved ] in
      if p == null then moved else of_block

  -- free(NULL) does nothing, and a pointer to no live block is undefined.
  unfoldable pub nc_free : Addr → Cmd (Unit {0})
  nc_free p m =
      if p == null
      then ok tt m
      else elim (block m p) [ none ↦ undefined | some _ ↦ ok tt (c.free m p) ]

  unfoldable pub nc_memalign : ℕ → ℕ → Cmd Addr
  nc_memalign alignment size m =
      if c.has_posix_memalign
      then elim (c.posix_memalign m alignment size) [ none ↦ ok null m | some (p, m') ↦ ok p m' ]
      else nc_alloc size m
