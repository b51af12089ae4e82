-- ===== src/Palloc/Small.antt =====
-- The walk of nc_palloc_small along the chain.
use libnc.Prelude.{
  ℕ, zero, suc, ◌+◌, ◌-◌, ◌%◌, ◌≤◌, ◌<◌, ◌≡◌, ◌≢◌, refl, sym, inl, inr, Bool, true, false, Option,
  none, some, List, [], ◌∷◌, length, arith, leb, Bool-cases, ap,
}
use libnc.Memory.{Addr, null, word, Mem, block, within}
use libnc.Memory.Heap.{IsHeap}
use libnc.Macros.Align.{nc_align_ptr-least}
use libnc.Palloc.Chain.{Chunk, start, left_space, small_scan, prepend}
use libnc.Palloc.{chunk_size, pool_data_size}
use libnc.Palloc.Invariant.{IsChunk, HasHeader, NotBase, IsChain, used_chunk, used_chain}

-- An allocation starts between `last` and `end`, aligned if that is asked for.
start_bounds :
    {m : Mem} {n : ℕ} {b : Chunk} (align : Bool)
    → IsChunk m n b
    → n % 8 ≡ 0
    → (b.last ≤ start align b) × (start align b ≤ b.end) × (align ≡ true → start align b % 8 ≡ 0)
start_bounds {b} true is eights =
    let (multiple, above, least) = nc_align_ptr-least b.last (omega arith) in
    (above, least _ is.inside (omega arith), λ _. multiple)
start_bounds false is eights = (omega arith, is.inside, λ e. cc)

-- The test of nc_palloc_small, at an address that is not past the end.
left_space-fits :
    (size e m : ℕ) → m ≤ e → e < word → leb size ((e + word - m) % word) ≡ true → m + size ≤ e
left_space-fits size e m le small enough =
    let enough' : size ≤ (e + word - m) % word = ground arith in omega arith

-- An allocation of `size` bytes at p, in the chunk at `home`: the bytes were free and are in use
-- now, and what was in use still is.
pub record Taken (m : Mem) (n size : ℕ) (align : Bool) (bs : List Chunk) (p : Addr)
    (bs' : List Chunk) : Type 0 where
  pub chain : IsChain m n bs'
  pub bases : (q : Addr) → NotBase q bs → NotBase q bs'
  pub same_length : length bs' ≡ length bs
  pub same_size : chunk_size bs' ≡ chunk_size bs
  pub header : HasHeader bs → HasHeader bs'
  pub kept : (a : Addr) → used_chain bs a ≡ true → used_chain bs' a ≡ true
  pub taken : (a : Addr) → within p size a ≡ true → used_chain bs' a ≡ true
  pub fresh : (a : Addr) → within p size a ≡ true → used_chain bs a ≡ false
  pub home : Addr
  pub home_ne_null : home ≢ null
  pub home_live : block m home ≡ some n
  pub home_base : (q : Addr) → NotBase q bs → q ≢ home
  pub lower : home + pool_data_size ≤ p
  pub upper : p + size ≤ home + n
  pub multiple : align ≡ true → p % 8 ≡ 0

pub data ScanResult (m : Mem) (n size : ℕ) (align : Bool) (bs : List Chunk)
    : Option (Addr × List Chunk) → Type 0 where
  missed : ScanResult m n size align bs none
  found :
      {p : Addr} {bs' : List Chunk}
      → Taken m n size align bs p bs'
      → ScanResult m n size align bs (some (p, bs'))

module _ (m : Mem) (n : ℕ) (heap : IsHeap m) where
  -- A byte of another live block is in no chunk.
  apart_chunk :
      {b : Chunk} {q t : ℕ} (a : Addr)
      → IsChunk m n b
      → q ≢ b.base
      → block m q ≡ some t
      → within q t a ≡ true
      → used_chunk b a ≡ false
  apart_chunk {b} {q} {t} a is ne live inside =
      ground (arith, heap q b.base t n ne live is.live, is.ends, is.inside)

  pub apart_chain :
      (q t : ℕ) (bs : List Chunk) (a : Addr)
      → IsChain m n bs
      → NotBase q bs
      → block m q ≡ some t
      → within q t a ≡ true
      → used_chain bs a ≡ false
  unfolding used_chain
  apart_chain q t [] a is outside live inside = refl
  apart_chain q t (b ∷ bs) a is outside live inside =
      rw (apart_chunk a is.0 outside.0 live inside)
        (apart_chain q t bs a is.2 outside.1 live inside)

module _ {m : Mem} {n : ℕ} (size : ℕ) (heap : IsHeap m) (eights : n % 8 ≡ 0) where
  prepend-ScanResult :
      {align : Bool} {b : Chunk} {bs : List Chunk} {r : Option (Addr × List Chunk)}
      → IsChain m n (b ∷ bs)
      → ScanResult m n size align bs r
      → ScanResult m n size align (b ∷ bs) (prepend b r)
  unfolding used_chain
  prepend-ScanResult is missed = missed
  prepend-ScanResult {b} is (found {p} {bs'} t) = found (record {
    chain = (is.0, t.bases b.base is.1, t.chain);
    bases = λ q outside. (outside.0, t.bases q outside.1);
    same_length = ap suc t.same_length;
    same_size = refl;
    header = λ h. h;
    kept = λ a used. ground (arith, t.kept a);
    taken = λ a inside. ground (arith, t.taken a inside);
    fresh = λ a inside.
        rw
          (apart_chunk m n heap {b = b} {q = t.home} a is.0 (λ e. t.home_base b.base is.1 (sym e))
            t.home_live (ground (arith, t.lower, t.upper)))
          (t.fresh a inside);
    home = t.home;
    home_ne_null = t.home_ne_null;
    home_live = t.home_live;
    home_base = λ q outside. t.home_base q outside.1;
    lower = t.lower;
    upper = t.upper;
    multiple = t.multiple;
  })

  here-ScanResult :
      {b : Chunk} {bs : List Chunk} (align : Bool)
      → IsChain m n (b ∷ bs)
      → leb size (left_space b (start align b)) ≡ true
      → Taken m n size align
          (b ∷ bs)
          (start align b)
          (record b { last = start align b + size } ∷ bs)
  unfolding used_chain
  here-ScanResult {b} {bs} align is enough =
      let (above, below, multiple) = start_bounds align is.0 eights in
      let upper =
        left_space-fits size b.end (start align b) below (omega (arith, is.0.ends, is.0.fits))
          enough in
      record {
        chain = (
          record {
            ne_null = is.0.ne_null;
            live = is.0.live;
            ends = is.0.ends;
            fits = is.0.fits;
            aligned = is.0.aligned;
            header = omega (arith, is.0.header, above);
            inside = upper;
          },
          is.1,
          is.2,
        );
        bases = λ q outside. outside;
        same_length = refl;
        same_size = refl;
        header = λ h. omega (arith, above);
        kept = λ a used. ground (arith, above);
        taken = λ a inside. ground (arith, above, is.0.header);
        fresh = λ a inside. rw (ahead a inside) (
            apart_chain m n heap b.base n bs a is.2 is.1 is.0.live
              (ground (arith, above, is.0.header, is.0.ends, upper)));
        home = b.base;
        home_ne_null = is.0.ne_null;
        home_live = is.0.live;
        home_base = λ q outside. outside.0;
        lower = omega (arith, is.0.header);
        upper = omega (arith, is.0.ends);
        multiple = multiple;
      }
    where
      ahead : (a : Addr) → within (start align b) size a ≡ true → used_chunk b a ≡ false
      ahead a inside = let (above, _, _) = start_bounds align is.0 eights in ground (arith, above)

  pub small_scan-ScanResult :
      (align : Bool) (k : ℕ) (bs : List Chunk)
      → IsChain m n bs
      → ScanResult m n size align bs (small_scan align size k bs)
  unfolding small_scan
  small_scan-ScanResult align k [] is = missed
  small_scan-ScanResult align (suc k) (b ∷ bs) is =
      prepend-ScanResult is (small_scan-ScanResult align k bs is.2)
  small_scan-ScanResult align zero (b ∷ bs) is =
      elim (Bool-cases (leb size (left_space b (start align b)))) [
        | inl enough ↦ rw enough (found (here-ScanResult align is enough))
        | inr little ↦ rw little (prepend-ScanResult is (small_scan-ScanResult align zero bs is.2))
      ]
