-- ===== src/Memory/Heap.antt =====
-- The live blocks of a memory do not overlap, and the C library keeps it so.
use libnc.Prelude.{ℕ, ◌+◌, ◌≤◌, ◌<◌, ◌≡◌, refl, ap, ◌∙◌, ◌≢◌, ◌⊎◌, none, some, arith}
use libnc.Memory.{Addr, Mem, block}
use libnc.Memory.Libc.{Placed, Freed}

abbrev pub IsHeap : Mem → Type 0
IsHeap m =
    (p q s t : ℕ) → p ≢ q → block m p ≡ some s → block m q ≡ some t → (p + s ≤ q) ⊎ (q + t ≤ p)

-- A new block is apart from the old ones.
pub Placed-IsHeap : {m m' : Mem} {n : ℕ} {x : Addr} → IsHeap m → Placed m n x m' → IsHeap m'
Placed-IsHeap {m} {x} heap new p q s t ne hp hq =
    ground (arith, new.live p, new.live q, new.apart p s, new.apart q t, heap p q s t ne)

pub Freed-IsHeap : {m m' : Mem} {x : Addr} → IsHeap m → Freed m x m' → IsHeap m'
Freed-IsHeap heap gone p q s t ne hp hq = ground (arith, gone.live p, gone.live q, heap p q s t ne)

-- Live blocks stay live.
pub record StayLive (m m' : Mem) : Type 0 where
  pub live : (q t : ℕ) → block m q ≡ some t → block m' q ≡ some t

-- Live blocks stay live, with their bytes.
pub record Keeps (m m' : Mem) : Type 0 where
  pub stay : StayLive m m'
  pub open stay use *
  pub bytes : (q t i : ℕ) → block m q ≡ some t → i < t → m'.byte (q + i) ≡ m.byte (q + i)

pub Keeps-refl : (m : Mem) → Keeps m m
Keeps-refl m = record { stay = record { live = λ q t h. h }; bytes = λ q t i h lt. refl }

pub Keeps-trans : {m g h : Mem} → Keeps m g → Keeps g h → Keeps m h
Keeps-trans first second = record {
  stay = record { live = λ q t old. second.live q t (first.live q t old) };
  bytes = λ q t i old lt. second.bytes q t i (first.live q t old) lt ∙ first.bytes q t i old lt;
}

pub Placed-Keeps : {m m' : Mem} {n : ℕ} {p : Addr} → Placed m n p m' → Keeps m m'
Placed-Keeps new = record {
  stay = record { live = λ q t old. ground (arith, new.live q, new.fresh) };
  bytes = new.kept;
}

-- A block that comes and goes leaves the older ones alone.
pub Freed-Keeps : {m g h : Mem} {p : Addr} → block m p ≡ none → Keeps m g → Freed g p h → Keeps m h
Freed-Keeps {m} {p} new first gone = record {
  stay = record { live = λ q t old. ground (arith, gone.live q, first.live q t old) };
  bytes = λ q t i old lt.
      let ne : p ≢ q = λ e. ground (arith, ap (block m) e) in
      gone.kept q t i ne (first.live q t old) lt ∙ first.bytes q t i old lt;
}
