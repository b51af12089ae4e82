-- ===== src/Array/Create.antt =====
-- nc_array_init, nc_array_create and nc_array_destroy of src/nc_array.h and src/nc_array.c.
use libnc.Prelude.{
  ℕ, ◌*◌, ◌%◌, ◌<◌, ◌≡◌, refl, ◌≢◌, false, Option, none, some, arith, ◌==◌, if◌then◌else◌,
}
use libnc.Memory.{Addr, null, word, Mem, block, pure, ◌>>=◌}
use libnc.Memory.Gives.{Gives, gives, seq, weaken}
use libnc.Memory.Libc.{Libc, IsLibc, Placed}
use libnc.Macros.{Status, nc_ok, nc_enomem}
use libnc.Macros.Calloc.{Allocated, failed, placed, nc_alloc-Allocated, nc_free-Freed}
use libnc.Array.{Array, int_limit, struct_size, init, create, created, destroy}
use libnc.Array.Invariant.{IsArray}

-- The same blocks are live.
abbrev pub SameLive : Mem → Mem → Type 0
SameLive m m' = (q : Addr) → block m' q ≡ block m q

-- The struct and the elements of an array are live blocks.
pub record Owned (m : Mem) (p : Addr) (a : Array) : Type 0 where
  pub valid : IsArray m a
  pub ne_null : p ≢ null
  pub struct_live : block m p ≡ some struct_size
  pub distinct : p ≢ a.elems

-- A new empty array, in two blocks that were not live before, or NULL with no block kept.
pub data CreateResult (m : Mem) (n size : ℕ) (r : Option (Addr × Array)) (m' : Mem) : Type 0 where
  no_memory : r ≡ none → SameLive m m' → CreateResult m n size r m'
  new_array :
      (p : Addr) (a : Array)
      → r ≡ some (p, a)
      → Owned m' p a
      → a.nelem ≡ 0
      → a.size ≡ size
      → a.nalloc ≡ n
      → block m p ≡ none
      → block m a.elems ≡ none
      → ((q : Addr)
          → block m' q ≡ (
              if p == q
              then some struct_size
              else if a.elems == q
              then some (size * n)
              else block m q))
      → CreateResult m n size r m'

abbrev empty_array : Addr → ℕ → ℕ → Array
empty_array e n size = record { elems = e; nelem = 0; size = size; nalloc = n }

data InitResult (g : Mem) (n size : ℕ) (r : Status × Array) (m' : Mem) : Type 0 where
  enomem : (a : Array) → r ≡ (nc_enomem, a) → m' ≡ g → InitResult g n size r m'
  made :
      (e : Addr)
      → r ≡ (nc_ok, empty_array e n size)
      → Placed g (size * n) e m'
      → InitResult g n size r m'

-- The blocks of an array are gone, and no other.
abbrev pub Destroyed : Mem → Addr → Array → Mem → Type 0
Destroyed m p a m' =
    (q : Addr) → block m' q ≡ (if p == q then none else if a.elems == q then none else block m q)

module _ {c : Libc} (libc : IsLibc c) where
  -- nc_array_destroy of a created array never frees a block twice: it frees the struct and the
  -- elements, and no other block.
  pub destroy-Destroyed :
      (m : Mem) (p : Addr) (a : Array)
      → Owned m p a
      → Gives (λ _ m'. Destroyed m p a m') (destroy c p a m)
  unfolding destroy
  destroy-Destroyed m p a own =
      let elems : (a.elems == null) ≡ false = ground (arith, own.valid.ne_null) in
      rw elems (
        seq (nc_free-Freed libc a.elems (a.size * a.nalloc) m own.valid.ne_null own.valid.live)
          λ _ g gone.
            let still : block g p ≡ some struct_size =
              ground (arith, gone.live p, own.struct_live, own.distinct) in
            weaken (nc_free-Freed libc p struct_size g own.ne_null still)
              λ _ m' freed q. ground (arith, gone.live q, freed.live q))

  -- The elements are placed: the array is complete.
  both :
      {m g m' : Mem} {p e : Addr} (n size : ℕ)
      → 0 < n
      → n < int_limit
      → 0 < size
      → Placed m struct_size p g
      → Placed g (size * n) e m'
      → CreateResult m n size (some (p, empty_array e n size)) m'
  both {m} {g} {m'} {p} {e} n size n_pos small size_pos first second =
      let apart : p ≢ e = ground (arith, first.live p, second.fresh) in
      new_array p _ refl
        (record {
          valid = record {
            ne_null = second.ne_null;
            live = ground (arith, second.live e);
            fits = second.fits;
            used = omega arith;
            small = small;
            size_pos = size_pos;
            nalloc_pos = n_pos;
          };
          ne_null = first.ne_null;
          struct_live = ground (arith, first.live p, second.live p);
          distinct = apart;
        })
        refl refl refl first.fresh (ground (arith, first.live e, second.fresh))
        (λ q. ground (arith, first.live q, second.live q))

  -- nc_array_init of a size that fits gives NC_ENOMEM and no memory, or an empty array.
  init-InitResult :
      (fresh : Array) (n size : ℕ) (g : Mem)
      → size * n < word
      → Gives (InitResult g n size) (init c fresh n size g)
  unfolding init
  init-InitResult fresh n size g fits =
      let bytes : n * size % word ≡ size * n = omega arith in
      rw bytes (seq (nc_alloc-Allocated libc (size * n) g) λ e m' result. step e m' result)
    where
      step :
          (e : Addr) (m' : Mem)
          → Allocated g (size * n) e m'
          → Gives (InitResult g n size) (
              (if e == null
                  then pure (nc_enomem, record fresh { elems = null })
                  else pure (nc_ok, empty_array e n size))
                m')
      step e m' (failed is_null same) = rw is_null (gives (enomem _ refl same))
      step e m' (placed new aligned) =
          let not_null : (e == null) ≡ false = ground (arith, new.ne_null) in
          rw not_null (gives (made e refl new))

  -- The struct goes back when the elements cannot be had.
  created-CreateResult :
      {m g : Mem} {p : Addr} (n size : ℕ) (r : Status × Array) (m' : Mem)
      → 0 < n
      → n < int_limit
      → 0 < size
      → Placed m struct_size p g
      → InitResult g n size r m'
      → Gives (CreateResult m n size) (created c p r m')
  unfolding created
  created-CreateResult {m} {g} {p} n size r m' n_pos small size_pos first (enomem a e same) =
      rw (e, same, created)
        (seq (nc_free-Freed libc p struct_size g first.ne_null (ground (arith, first.live p)))
          λ _ h freed.
            gives (no_memory refl λ q. ground (arith, freed.live q, first.live q, first.fresh)))
  created-CreateResult n size r m' n_pos small size_pos first (made e is new) =
      rw (is, created) (gives (both n size n_pos small size_pos first new))

  -- nc_array_create of n elements of a size, both positive and their product below 2^64, gives NULL
  -- and keeps no block, or an empty well-formed array of that capacity in two new blocks.
  pub create-CreateResult :
      (fresh : Array) (n size : ℕ) (m : Mem)
      → 0 < n
      → n < int_limit
      → 0 < size
      → size * n < word
      → Gives (CreateResult m n size) (create c fresh n size m)
  unfolding create
  create-CreateResult fresh n size m n_pos small size_pos fits =
      seq (nc_alloc-Allocated libc struct_size m) λ p g result. step p g result
    where
      step :
          (p : Addr) (g : Mem)
          → Allocated m struct_size p g
          → Gives
              (CreateResult m n size)
              ((if p == null then pure none else do r ← init c fresh n size; created c p r) g)
      step p g (failed is_null same) = rw (is_null, same) (gives (no_memory refl λ q. refl))
      step p g (placed new aligned) =
          let not_null : (p == null) ≡ false = ground (arith, new.ne_null) in
          rw not_null (
            seq (init-InitResult fresh n size g fits)
              λ r m' result. created-CreateResult n size r m' n_pos small size_pos new result)
