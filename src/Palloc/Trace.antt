-- ===== src/Palloc/Trace.antt =====
-- A client that takes memory from one pool again and again.
use mathlib.Core.Bool.{false≢true}
use libnc.Prelude.{
  ℕ, ◌≡◌, ◌≢◌, sym, ap, ◌∙◌, inl, inr, true, false, List, [], ◌∷◌, All, arith, ◌==◌, if◌then◌else◌,
  Bool-cases,
}
use libnc.Memory.{Addr, null, Mem, within, Cmd, pure, ◌>>=◌}
use libnc.Memory.Gives.{Gives, gives, seq, weaken}
use libnc.Memory.Libc.{Libc, IsLibc}
use libnc.Memory.Heap.{IsHeap, Keeps}
use libnc.Palloc.Keep.{IsPool-keep, used_large-keep}
use libnc.Palloc.Invariant.{IsPool, used_large, in_use}
use libnc.Palloc.Block.{Handed, PallocResult, no_memory, handed}
use libnc.Palloc.Hand.{palloc-PallocResult, pnalloc-PallocResult}
use libnc.Palloc.Zero.{Cleared, PcallocResult, null_result, zeroed, pcalloc-PcallocResult}
use libnc.Palloc.{Pool, palloc, pnalloc, pcalloc}

pub data Request : Type 0 where
  aligned unaligned zeros : ℕ → Request

abbrev pub size_of : Request → ℕ
size_of (aligned n) = n
size_of (unaligned n) = n
size_of (zeros n) = n

pub serve : Libc → Pool → Request → Cmd (Addr × Pool)
serve c pool (aligned n) = palloc c pool n
serve c pool (unaligned n) = pnalloc c pool n
serve c pool (zeros n) = pcalloc c pool n

-- The regions that a sequence of requests gets, less those that fail.
unfoldable pub serve_all : Libc → Pool → List Request → Cmd (List (Addr × ℕ) × Pool)
unfolding serve
serve_all c pool [] = pure ([], pool)
serve_all c pool (r ∷ rs) = do
  (p, pool') ← serve c pool r
  (regions, pool'') ← serve_all c pool' rs
  pure ((if p == null then regions else (p, size_of r) ∷ regions), pool'')

-- No byte is in two regions.
abbrev pub Apart : Addr × ℕ → Addr × ℕ → Type 0
Apart (p, s) (q, t) = (a : Addr) → within p s a ≡ true → within q t a ≡ false

abbrev pub AllApart : List (Addr × ℕ) → Type 0
AllApart [] = Unit {0}
AllApart (r ∷ rs) = All (Apart r) rs × AllApart rs

-- No byte of the region was in use.
abbrev Unused : Mem → Pool → Addr × ℕ → Type 0
Unused m pool (p, s) = (a : Addr) → within p s a ≡ true → in_use m pool a ≡ false

-- One request: what stays in use, and a region, unless it fails.
record Served (m : Mem) (n : ℕ) (pool : Pool) (size : ℕ) (r : Addr × Pool) (m' : Mem) : Type 0 where
  valid : IsPool m' n r.1
  kept : (a : Addr) → in_use m pool a ≡ true → in_use m' r.1 a ≡ true
  region :
      r.0 ≢ null
      → Unused m pool (r.0, size) × ((a : Addr) → within r.0 size a ≡ true → in_use m' r.1 a ≡ true)

Handed-Served :
    {m m' : Mem} {n size : ℕ} {pool : Pool} (r : Addr × Pool)
    → Handed m n pool size r.0 r.1 m'
    → Served m n pool size r m'
Handed-Served r h = record { valid = h.valid; kept = h.kept; region = λ ne. (h.fresh, h.taken) }

same-Served :
    {m m' : Mem} {n size : ℕ} {pool : Pool} (p : Addr) (pool' : Pool)
    → IsPool m n pool
    → p ≡ null
    → pool' ≡ pool
    → IsHeap m'
    → Keeps m m'
    → Served m n pool size (p, pool') m'
same-Served {m} {m'} {n} {pool} p pool' is is_null same heap keeps = record {
  valid = rw same (IsPool-keep keeps.stay heap is);
  kept = λ a used. rw (same, used_large-keep keeps.stay pool.chain pool.large a is.large) used;
  region = λ ne. absurd (ne is_null);
}

-- Clearing the bytes leaves the use of them alone.
pub in_use-Cleared :
    {p n : ℕ} {g m' : Mem} (pool : Pool) (a : Addr)
    → Cleared p n g m'
    → in_use m' pool a ≡ in_use g pool a
unfolding used_large
in_use-Cleared {g} {m'} pool a cleared =
    ap (λ bs. in_use (record { byte = g.byte; blocks = bs }) pool a) cleared.same_blocks

module _ {c : Libc} (libc : IsLibc c) {m : Mem} {n : ℕ} {pool : Pool} (is : IsPool m n pool) where
  PallocResult-Served :
      (size : ℕ) (r : Addr × Pool) (m' : Mem)
      → PallocResult m n pool size r m'
      → Served m n pool size r m'
  PallocResult-Served size (p, pool') m' (no_memory is_null same heap keeps) =
      same-Served p pool' is is_null same heap keeps
  PallocResult-Served size r m' (handed h) = Handed-Served r h

  PcallocResult-Served :
      (size : ℕ) (r : Addr × Pool) (m' : Mem)
      → PcallocResult m n pool size r m'
      → Served m n pool size r m'
  PcallocResult-Served size (p, pool') m' (null_result is_null same heap keeps) =
      same-Served p pool' is is_null same heap keeps
  PcallocResult-Served size (p, pool') m' (zeroed g h cleared valid) = record {
    valid = valid;
    kept = λ a used. in_use-Cleared pool' a cleared ∙ h.kept a used;
    region = λ ne. (h.fresh, λ a inside. in_use-Cleared pool' a cleared ∙ h.taken a inside);
  }

  serve-Served : (r : Request) → Gives (Served m n pool (size_of r)) (serve c pool r m)
  unfolding serve
  serve-Served (aligned n) = weaken (palloc-PallocResult libc is n) (PallocResult-Served n)
  serve-Served (unaligned n) = weaken (pnalloc-PallocResult libc is n) (PallocResult-Served n)
  serve-Served (zeros n) = weaken (pcalloc-PcallocResult libc is n) (PcallocResult-Served n)

-- Regions that were unused after a request are apart from what it got, and were unused before it.
Unused-Apart :
    (m' : Mem) (pool' : Pool) (r : Addr × ℕ) (rs : List (Addr × ℕ))
    → ((a : Addr) → within r.0 r.1 a ≡ true → in_use m' pool' a ≡ true)
    → All (Unused m' pool') rs
    → All (Apart r) rs
Unused-Apart m' pool' r [] taken unused = tt
Unused-Apart m' pool' r ((q, t) ∷ rs) taken unused = (
  λ a inside. elim (Bool-cases (within q t a)) [
    | inl shared ↦ absurd (false≢true (sym (unused.0 a shared) ∙ taken a inside))
    | inr apart ↦ apart
  ],
  Unused-Apart m' pool' r rs taken unused.1,
)

Unused-before :
    (m m' : Mem) (pool pool' : Pool) (rs : List (Addr × ℕ))
    → ((a : Addr) → in_use m pool a ≡ true → in_use m' pool' a ≡ true)
    → All (Unused m' pool') rs
    → All (Unused m pool) rs
Unused-before m m' pool pool' [] kept unused = tt
Unused-before m m' pool pool' ((q, t) ∷ rs) kept unused = (
  λ a inside. elim (Bool-cases (in_use m pool a)) [
    | inl used ↦ absurd (false≢true (sym (unused.0 a inside) ∙ kept a used))
    | inr free ↦ free
  ],
  Unused-before m m' pool pool' rs kept unused.1,
)

-- What a sequence of requests promises.
pub record ServedAll (m : Mem) (n : ℕ) (pool : Pool) (r : List (Addr × ℕ) × Pool) (m' : Mem)
    : Type 0 where
  pub apart : AllApart r.0
  pub unused : All (Unused m pool) r.0
  pub valid : IsPool m' n r.1

module _ {c : Libc} (libc : IsLibc c) {n : ℕ} where
  serve_cons :
      {m m' m'' : Mem} {pool pool'' : Pool} (size : ℕ) (p : Addr) (pool' : Pool)
      (rs : List (Addr × ℕ))
      → Served m n pool size (p, pool') m'
      → ServedAll m' n pool' (rs, pool'') m''
      → ServedAll m n pool ((if p == null then rs else (p, size) ∷ rs), pool'') m''
  serve_cons {m} {m'} {pool} size p pool' rs one all = elim (Bool-cases (p == null)) [
    | inl is_null ↦ rw is_null (record { apart = all.apart; unused = before; valid = all.valid })
    | inr not_null ↦
        let (unused, taken) = one.region (ground arith) in
        rw not_null (record {
          apart = (Unused-Apart m' pool' (p, size) rs taken all.unused, all.apart);
          unused = (unused, before);
          valid = all.valid;
        })
  ]
    where
      before : All (Unused m pool) rs
      before = Unused-before m m' pool pool' rs one.kept all.unused

  -- All the regions that a sequence of nc_palloc, nc_pnalloc and nc_pcalloc calls gets from one
  -- well-formed pool are apart from each other and from what was in use before, and the pool
  -- stays well formed.
  pub serve_all-ServedAll :
      (m : Mem) (pool : Pool) (rs : List Request)
      → IsPool m n pool
      → Gives (ServedAll m n pool) (serve_all c pool rs m)
  unfolding serve_all
  serve_all-ServedAll m pool [] is = gives (record { apart = tt; unused = tt; valid = is })
  serve_all-ServedAll m pool (r ∷ rs) is = seq (serve-Served libc is r) λ (p, pool') m' one.
      seq (serve_all-ServedAll m' pool' rs one.valid)
        λ (regions, pool'') m'' all. gives (serve_cons (size_of r) p pool' regions one all)
