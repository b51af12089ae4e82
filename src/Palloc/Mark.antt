-- ===== src/Palloc/Mark.antt =====
-- The walk of nc_palloc_block over the chain, and the chunk that it links at the end.
use libnc.Prelude.{
  ℕ, zero, suc, ◌+◌, ◌≤◌, ◌<◌, ◌≡◌, ◌≢◌, refl, sym, ap, inl, inr, ◌||◌, List, [], ◌∷◌, ◌++◌, length,
  arith,
}
use libnc.Memory.{Addr, null, Mem}
use libnc.Palloc.Chain.{Chunk, mark_failures, count_failure}
use libnc.Palloc.Blocks.{Large}
use libnc.Palloc.{chunk_size}
use libnc.Palloc.Invariant.{
  IsChunk, HasHeader, NotBase, IsChain, NotLarge, IsLargeList, used_chunk, used_chain,
}

IsChunk-count : {m : Mem} {n : ℕ} {b : Chunk} → IsChunk m n b → IsChunk m n (count_failure b)
IsChunk-count is = record {
  ne_null = is.ne_null;
  live = is.live;
  ends = is.ends;
  fits = is.fits;
  aligned = is.aligned;
  header = is.header;
  inside = is.inside;
}

-- Only the counters of failures differ.
pub record Marked (m : Mem) (n : ℕ) (bs bs' : List Chunk) : Type 0 where
  pub chain : IsChain m n bs'
  pub bases : (q : Addr) → NotBase q bs → NotBase q bs'
  pub same_length : length bs' ≡ length bs
  pub same_size : chunk_size bs' ≡ chunk_size bs
  pub header : HasHeader bs → HasHeader bs'
  pub used : (a : Addr) → used_chain bs' a ≡ used_chain bs a

Marked-refl : {m : Mem} {n : ℕ} (bs : List Chunk) → IsChain m n bs → Marked m n bs bs
Marked-refl bs is = record {
  chain = is;
  bases = λ q h. h;
  same_length = refl;
  same_size = refl;
  header = λ h. h;
  used = λ a. refl;
}

module _ (m : Mem) (n : ℕ) where
  Marked-cons :
      (b : Chunk) (bs bs' : List Chunk)
      → IsChain m n (b ∷ bs)
      → Marked m n bs bs'
      → Marked m n (b ∷ bs) (b ∷ bs')
  unfolding used_chain
  Marked-cons b bs bs' is marked = record {
    chain = (is.0, marked.bases b.base is.1, marked.chain);
    bases = λ q h. (h.0, marked.bases q h.1);
    same_length = ap suc marked.same_length;
    same_size = refl;
    header = λ h. h;
    used = λ a. rw (marked.used a);
  }

  Marked-count :
      (b : Chunk) (bs bs' : List Chunk)
      → IsChain m n (b ∷ bs)
      → Marked m n bs bs'
      → Marked m n (b ∷ bs) (count_failure b ∷ bs')
  unfolding used_chain
  Marked-count b bs bs' is marked = record {
    chain = (IsChunk-count is.0, marked.bases b.base is.1, marked.chain);
    bases = λ q h. (h.0, marked.bases q h.1);
    same_length = ap suc marked.same_length;
    same_size = refl;
    header = λ h. h;
    used = λ a. rw (marked.used a);
  }

  pub mark_failures-Marked :
      (k i current : ℕ) (bs : List Chunk)
      → IsChain m n bs
      → Marked m n bs (mark_failures k i current bs).1
  unfolding mark_failures
  mark_failures-Marked k i current [] is = Marked-refl [] is
  mark_failures-Marked k i current (b ∷ []) is = Marked-refl (b ∷ []) is
  mark_failures-Marked (suc k) i current (b ∷ b' ∷ bs) is =
      Marked-cons b (b' ∷ bs) _ is (mark_failures-Marked k (i + 1) current (b' ∷ bs) is.2)
  mark_failures-Marked zero i current (b ∷ b' ∷ bs) is =
      Marked-count b (b' ∷ bs) _ is (mark_failures-Marked zero (i + 1) _ (b' ∷ bs) is.2)

-- The new place of `current` is in the chain.
pub mark_failures-lt :
    (k i current n : ℕ) (bs : List Chunk)
    → current < n
    → i + length bs ≤ n
    → (mark_failures k i current bs).0 < n
unfolding mark_failures
mark_failures-lt k i current n [] lt le = lt
mark_failures-lt k i current n (b ∷ []) lt le = lt
mark_failures-lt (suc k) i current n (b ∷ b' ∷ bs) lt le =
    mark_failures-lt k (i + 1) current n (b' ∷ bs) lt (omega arith)
mark_failures-lt zero i current n (b ∷ b' ∷ bs) lt le =
    mark_failures-lt zero (i + 1) _ n (b' ∷ bs) (ground arith) (omega arith)

-- A chunk at the end of the chain.
pub NotBase-snoc :
    (q : Addr) (bs : List Chunk) (b : Chunk) → NotBase q bs → q ≢ b.base → NotBase q (bs ++ b ∷ [])
NotBase-snoc q [] b h ne = (ne, tt)
NotBase-snoc q (c ∷ bs) b h ne = (h.0, NotBase-snoc q bs b h.1 ne)

pub IsChain-snoc :
    (m : Mem) (n : ℕ) (bs : List Chunk) (b : Chunk)
    → IsChain m n bs
    → IsChunk m n b
    → NotBase b.base bs
    → IsChain m n (bs ++ b ∷ [])
IsChain-snoc m n [] b is new out = (new, tt, tt)
IsChain-snoc m n (c ∷ bs) b is new out =
    (is.0, NotBase-snoc c.base bs b is.1 (λ e. out.0 (sym e)), IsChain-snoc m n bs b is.2 new out.1)

pub used_chain-snoc :
    (bs : List Chunk) (b : Chunk) (a : Addr)
    → used_chain (bs ++ b ∷ []) a ≡ (used_chain bs a || used_chunk b a)
unfolding used_chain
used_chain-snoc [] b a = ground arith
used_chain-snoc (c ∷ bs) b a = ground (arith, used_chain-snoc bs b a)

pub chunk_size-snoc :
    (bs : List Chunk) (b : Chunk) → 0 < length bs → chunk_size (bs ++ b ∷ []) ≡ chunk_size bs
chunk_size-snoc [] b h = absurd (omega arith)
chunk_size-snoc (c ∷ bs) b h = refl

pub IsLargeList-snoc :
    (m : Mem) (bs : List Chunk) (b : Chunk) (ls : List Large)
    → IsLargeList m bs ls
    → b.base ≢ null
    → NotLarge b.base ls
    → IsLargeList m (bs ++ b ∷ []) ls
IsLargeList-snoc m bs b [] is ne out = tt
IsLargeList-snoc m bs b (l ∷ ls) (inl free, is) ne out =
    (inl free, IsLargeList-snoc m bs b ls is ne out.1)
IsLargeList-snoc m bs b (l ∷ ls) (inr (k, live, base, later), is) ne out = (
  inr (k, live, NotBase-snoc l.alloc bs b base (λ e. out.0 (sym e)), later),
  IsLargeList-snoc m bs b ls is ne out.1,
)

-- Where the bases stay, so does the list of large blocks.
pub IsLargeList-bases :
    (m : Mem) (bs bs' : List Chunk) (ls : List Large)
    → ((q : Addr) → NotBase q bs → NotBase q bs')
    → IsLargeList m bs ls
    → IsLargeList m bs' ls
IsLargeList-bases m bs bs' [] bases is = tt
IsLargeList-bases m bs bs' (l ∷ ls) bases (inl free, is) =
    (inl free, IsLargeList-bases m bs bs' ls bases is)
IsLargeList-bases m bs bs' (l ∷ ls) bases (inr (k, live, base, later), is) =
    (inr (k, live, bases l.alloc base, later), IsLargeList-bases m bs bs' ls bases is)
