-- ===== src/Palloc/Overrun.antt =====
-- Three points of src/nc_palloc.c: the unsigned space test of nc_palloc_small, the list of cleanups
-- across nc_pool_reset, and how far nc_palloc_large looks for a free record.
use libnc.Prelude.{
  ℕ, ◌+◌, ◌-◌, ◌%◌, ◌≤◌, ◌<◌, ◌≡◌, ◌≢◌, refl, true, false, List, [], ◌∷◌, ◌++◌, All, length, none,
  some, arith, leb, ltb, Bool-cases, inl, inr, ap, ◌∙◌, ◌==◌, if◌then◌else◌,
}
use libnc.Memory.{Addr, null, word, Mem, ok, Cmd, pure, ◌>>=◌}
use libnc.Memory.Libc.{Libc}
use libnc.Memory.Gives.{Gives, gives}
use libnc.Macros.Align.{nc_align_ptr-least}
use libnc.Macros.{nc_align_ptr, nc_alignment}
use libnc.Palloc.Chain.{Chunk, left_space, small_scan}
use libnc.Palloc.Blocks.{Large, reuse, free_large}
use libnc.Palloc.Handlers.{Cleanup}
use libnc.Palloc.{
  Pool, pool_size, new_pool, pool_cleanup_size, palloc_small, palloc, cleanup_add, pool_reset,
}

-- Where alignment takes the start past the end of the current chunk, nc_palloc of any size that the
-- pool takes from chunks succeeds and returns an address past the end of that chunk.
pub palloc_overrun :
    (c : Libc) (m : Mem) (max size : ℕ) (b : Chunk) (bs : List Chunk) (large : List Large)
    (cleanup : List Cleanup)
    → size ≤ max
    → max < 4096
    → b.end < nc_align_ptr b.last nc_alignment
    → nc_align_ptr b.last nc_alignment < b.end + 8
    → nc_align_ptr b.last nc_alignment < word
    → (p : Addr) × (pool : Pool) × (palloc c
          (record { chain = b ∷ bs; max = max; current = 0; large = large; cleanup = cleanup })
          size
          m
        ≡ ok (p, pool) m)
      × (b.end < p)
unfolding palloc palloc_small small_scan
palloc_overrun c m max size b bs large cleanup small bound past near fits =
    let m0 = nc_align_ptr b.last nc_alignment in
    (
      m0,
      record {
        chain = record b { last = m0 + size } ∷ bs;
        max = max;
        current = 0;
        large = large;
        cleanup = cleanup;
      },
      rw (test, enough) refl,
      past,
    )
  where
    test : leb size max ≡ true
    test = ground arith

    enough : leb size (left_space b (nc_align_ptr b.last nc_alignment)) ≡ true
    enough = ground arith

-- No record of the list is free for reuse.
abbrev pub AllTaken : List Large → Type 0
AllTaken ls = All (λ (l : Large). l.alloc ≢ null) ls

reuse_taken : (n : ℕ) (p : Addr) (ls : List Large) → AllTaken ls → reuse n p ls ≡ none
unfolding reuse
reuse_taken n p [] taken = refl
reuse_taken n p (l ∷ ls) taken = ground (arith, taken.0, reuse_taken (n + 1) p ls taken.1)

-- The search that begins with the counter n.
reuse_first :
    (n : ℕ) (p : Addr) (before : List Large) (l : Large) (rest : List Large)
    → n ≤ 4
    → AllTaken before
    → l.alloc ≡ null
    → reuse n p (before ++ l ∷ rest)
      ≡ (if ltb (n + length before) 5 then some (before ++ record l { alloc = p } ∷ rest) else none)
unfolding reuse
reuse_first n p [] l rest le taken free = ground arith
reuse_first n p (k ∷ before) l rest le taken free = elim (Bool-cases (ltb 3 n)) [
  | inl stop ↦ ground (arith, taken.0)
  | inr more ↦
      ground (arith, taken.0, reuse_first (n + 1) p before l rest (ground arith) taken.1 free)
]

-- Take a list of large records that begins with records in use, and then a free one.
-- nc_palloc_large reuses that one if fewer than five stand before it, and none otherwise; and it
-- reuses none of a list of records in use.
pub reuse_among_five :
    (p : Addr) (before : List Large) (l : Large) (rest : List Large)
    → AllTaken before
    → l.alloc ≡ null
    → (reuse 0 p (before ++ l ∷ rest)
        ≡ (if ltb (length before) 5 then some (before ++ record l { alloc = p } ∷ rest) else none))
      × (reuse 0 p before ≡ none)
reuse_among_five p before l rest taken free = (
  reuse_first 0 p before l rest (omega arith) taken free
      ∙ ap (λ n. if ltb n 5 then some (before ++ record l { alloc = p } ∷ rest) else none)
          (omega arith),
  reuse_taken 0 p before taken,
)

-- A client that registers a cleanup, resets the pool, and takes as much memory as a record has.
unfoldable pub reset_client : Libc → Pool → Cmd (Addr × Addr × Pool)
reset_client c pool = do
  (cell, pool') ← cleanup_add c pool 0
  pool'' ← pool_reset c pool'
  (p, pool''') ← palloc c pool'' pool_cleanup_size
  pure (cell, p, pool''')

-- The aligned start behind the header of a chunk.
behind_header : (p : Addr) → p % 16 ≡ 0 → p + 71 < word → nc_align_ptr (p + 64) 8 ≡ p + 64
behind_header p aligned small =
    let (multiple, above, least) = nc_align_ptr-least (p + 64) (omega arith) in
    let below = least (p + 64) (omega arith) (omega arith) in omega arith

-- One allocation in a fresh chunk.
first_palloc :
    (c : Libc) (m : Mem) (p size max : ℕ) (cleanup : List Cleanup)
    → p % 16 ≡ 0
    → p + size < word
    → 88 ≤ size
    → 24 ≤ max
    → palloc c
        (record {
          chain = record { base = p; last = p + pool_size; end = p + size; failed = 0 } ∷ [];
          max = max;
          current = 0;
          large = [];
          cleanup = cleanup;
        })
        pool_cleanup_size
        m
      ≡ ok
          (
            p + 64,
            record {
              chain = record { base = p; last = p + 64 + 24; end = p + size; failed = 0 } ∷ [];
              max = max;
              current = 0;
              large = [];
              cleanup = cleanup;
            },
          )
          m
unfolding palloc palloc_small small_scan
first_palloc c m p size max cleanup aligned fits enough small =
    let test : leb 24 max ≡ true = ground arith in
    let room : leb 24 ((p + size + word - (p + 64)) % word) ≡ true = ground arith in
    rw (test, behind_header p aligned (omega arith), room)

-- nc_pool_reset keeps the cleanups but not their memory: on a new pool at an aligned address, with
-- room for the record of a cleanup behind its header, the record of a cleanup that was registered
-- before the reset is handed out again, as it is still in the list.
pub reset_reuses_cleanup :
    (c : Libc) (m : Mem) (p size : ℕ)
    → p % 16 ≡ 0
    → p + size < word
    → 88 ≤ size
    → Gives
        (λ (cell, q, pool) m'.
          (q ≡ cell) × ((k : Cleanup) × (pool.cleanup ≡ k ∷ []) × (k.cell ≡ q)))
        (reset_client c (new_pool p size) m)
unfolding reset_client cleanup_add pool_reset free_large
reset_reuses_cleanup c m p size aligned fits enough =
    rw (first_palloc c m p size _ [] aligned fits enough max_ok, not_null)
      (rw
        (first_palloc c m p size _ (record { cell = p + 64; handler = null; arg = null } ∷ [])
          aligned fits enough max_ok)
        (gives (refl, (_, refl, refl))))
  where
    not_null : (p + 64 == null) ≡ false
    not_null = ground arith

    max_ok : 24 ≤ (new_pool p size).max
    max_ok = ground arith
