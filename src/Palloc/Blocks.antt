-- ===== src/Palloc/Blocks.antt =====
-- struct nc_pool_large of src/nc_palloc.h and the walks along the list of large blocks.
use mathlib.Core.Option
use libnc.Prelude.{ℕ, ◌+◌, List, [], ◌∷◌, Option, none, some, ltb, ◌==◌, if◌then◌else◌}
use libnc.Memory.{Addr, null, Cmd, pure, ◌>>◌}
use libnc.Memory.Libc.{Libc}
use libnc.Macros.{nc_free}

-- The record stands at `cell`; an `alloc` of NULL marks it free for reuse.
pub record Large : Type 0 where
  pub cell : Addr
  pub alloc : Addr

-- The search of nc_palloc_large for a record to reuse, with its counter n.
unfoldable pub reuse : ℕ → Addr → List Large → Option (List Large)
reuse n p [] = none
reuse n p (l ∷ ls) =
    if l.alloc == null
    then some (record l { alloc = p } ∷ ls)
    else if ltb 3 n
    then none
    else Option.map (◌∷◌ l) (reuse (n + 1) p ls)

-- The search of nc_pfree, which clears the record that it finds.
unfoldable pub forget : Addr → List Large → Option (List Large)
forget p [] = none
forget p (l ∷ ls) =
    if p == l.alloc then some (record l { alloc = null } ∷ ls) else Option.map (◌∷◌ l) (forget p ls)

-- The loop of nc_pool_destroy and nc_pool_reset over the large blocks.
unfoldable pub free_large : Libc → List Large → Cmd (Unit {0})
free_large c [] = pure tt
free_large c (l ∷ ls) = (if l.alloc == null then pure tt else nc_free c l.alloc) >> free_large c ls
