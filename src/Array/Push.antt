-- ===== src/Array/Push.antt =====
-- nc_array_push and nc_array_push_n of src/nc_array.c.
use libnc.Prelude.{
  ℕ, ◌+◌, ◌*◌, ◌%◌, ◌≤◌, ◌<◌, ◌≡◌, refl, inl, inr, true, false, some, ◌∙◌, arith, ltb, leb, ◌==◌,
  if◌then◌else◌, Option-cases, Bool-cases,
}
use libnc.Memory.{Addr, null, word, Mem, Cmd, block, pure, then_run}
use libnc.Memory.Gives.{Gives, gives, weaken}
use libnc.Memory.Libc.{Libc, IsLibc, Moved}
use libnc.Macros.{nc_realloc}
use libnc.Array.{Array, int_limit, take_slots, push, push_n}
use libnc.Array.Invariant.{IsArray, Pushed, PushResult, no_memory, pushed}

-- The array after a reallocation to `nalloc` elements.
abbrev grown : Array → Addr → ℕ → Array
grown a p nalloc = record a { elems = p; nalloc = nalloc }

mul_mono : (s x y : ℕ) → x ≤ y → s * x ≤ s * y
mul_mono s x y h = grind arith

-- Elements taken where there is room.
take_slots-Pushed :
    {m : Mem} {a : Array} (n : ℕ)
    → IsArray m a
    → a.nelem + n ≤ a.nalloc
    → Gives (λ r m'. Pushed m a n r.0 r.1 m') (take_slots n a m)
unfolding take_slots
take_slots-Pushed {m} {a} n is room =
    let fits : ltb (a.nelem + n) int_limit ≡ true = ground (arith, is.small) in
    let inside = mul_mono a.size (a.nelem + n) a.nalloc room in
    let here : (a.elems + a.size * a.nelem % word) % word ≡ a.elems + a.size * a.nelem =
      omega (arith, inside) in
    rw (fits, here)
      (gives (record {
        valid = record {
          ne_null = is.ne_null;
          live = is.live;
          fits = is.fits;
          used = room;
          small = is.small;
          size_pos = is.size_pos;
          nalloc_pos = is.nalloc_pos;
        };
        slot = refl;
        room = omega (arith, inside);
        counted = refl;
        same_size = refl;
        kept = λ i lt. refl;
        beside = λ q t ne live. (live, λ i lt. refl);
      }))

-- Elements taken after a reallocation that makes room.
grown-Pushed :
    {m m' : Mem} {a : Array} {p : Addr} (n nalloc : ℕ)
    → IsArray m a
    → Moved m a.elems (a.size * a.nalloc) (a.size * nalloc) p m'
    → a.nalloc ≤ nalloc
    → nalloc < int_limit
    → a.nelem + n ≤ nalloc
    → Gives (λ r g. Pushed m a n r.0 r.1 g) (take_slots n (grown a p nalloc) m')
grown-Pushed {m} {m'} {a} {p} n nalloc is moved more small room =
    weaken (take_slots-Pushed n valid room) λ r g done. record {
      valid = done.valid;
      slot = done.slot;
      room = done.room;
      counted = done.counted;
      same_size = done.same_size;
      kept = λ i lt. done.kept i lt ∙ moved.copied i (omega (arith, before)) (omega (arith, after));
      beside = λ q t ne old.
          let new : block m' q ≡ some t = ground (arith, moved.live q, moved.fresh q t ne old) in
          let later = done.beside q t (moved.fresh q t ne old) new in
          (later.0, λ i lt. later.1 i lt ∙ moved.kept q t i ne old lt);
    }
  where
    before : a.size * a.nelem ≤ a.size * a.nalloc
    before = mul_mono a.size a.nelem a.nalloc is.used

    after : a.size * a.nelem ≤ a.size * nalloc
    after = mul_mono a.size a.nelem nalloc (omega arith)

    valid : IsArray m' (grown a p nalloc)
    valid = record {
      ne_null = moved.ne_null;
      live = ground (arith, moved.live p);
      fits = moved.fits;
      used = omega (arith, is.used);
      small = small;
      size_pos = is.size_pos;
      nalloc_pos = omega (arith, is.nalloc_pos);
    }

-- A reallocation, and then NULL or the new elements.
realloc-PushResult :
    {c : Libc} {m : Mem} {a : Array} (n nalloc : ℕ) (rest : Addr → Cmd (Addr × Array))
    → IsLibc c
    → IsArray m a
    → a.nalloc ≤ nalloc
    → nalloc < int_limit
    → a.nelem + n ≤ nalloc
    → ((p : Addr) (m' : Mem) → rest p m' ≡ take_slots n (grown a p nalloc) m')
    → a.nalloc < a.nelem + n
    → Gives (PushResult c nalloc m a n) (
        then_run
          (nc_realloc c a.elems (a.size * nalloc) m)
          (λ p. if p == null then pure (null, a) else rest p))
unfolding nc_realloc
realloc-PushResult {c} {m} {a} n nalloc rest libc is more small room same full =
    let set : (a.elems == null) ≡ false = ground (arith, is.ne_null) in
    elim (Option-cases (c.realloc m a.elems (a.size * nalloc))) [
      | inl e ↦
          rw (set, is.live, e, nc_realloc)
            (gives (no_memory (record { full = full; refused = e }) refl refl refl))
      | inr ((p, m'), e) ↦
          let moved = libc.realloc_moved m a.elems (a.size * a.nalloc) _ p m' is.live e in
          let not_null : (p == null) ≡ false = ground (arith, moved.ne_null) in
          rw (set, is.live, e, nc_realloc, not_null, same p m')
            (weaken (grown-Pushed n nalloc is moved more small room) λ r g done. pushed done)
    ]

module _ {c : Libc} {m : Mem} {a : Array} (libc : IsLibc c) (is : IsArray m a) where
  -- Of a well-formed array whose doubled capacity is within int and size_t, nc_array_push always
  -- has a result. It adds one element behind the old ones, which keep their bytes, and keeps the
  -- array well formed; or it gives NULL and changes nothing, and then the array is full and
  -- realloc has no memory for the doubled capacity.
  pub push-PushResult :
      a.nalloc * 2 < int_limit
      → a.size * (a.nalloc * 2) < word
      → Gives (PushResult c (a.nalloc * 2) m a 1) (push c a m)
  unfolding push
  push-PushResult small fits = elim (Bool-cases (a.nelem == a.nalloc)) [
    | inl full ↦
        let bytes : 2 * (a.size * a.nalloc % word) % word ≡ a.size * (a.nalloc * 2) = omega arith in
        let doubled : ltb (a.nalloc * 2) int_limit ≡ true = ground arith in
        let room : a.nelem + 1 ≤ a.nalloc * 2 = ground (arith, is.used, is.nalloc_pos) in
        rw (full, bytes)
          (realloc-PushResult 1 (a.nalloc * 2) _ libc is (omega arith) small room
            (λ p m'. rw doubled) (ground (arith, is.used)))
    | inr more ↦
        let room : a.nelem + 1 ≤ a.nalloc = ground (arith, is.used) in
        rw more (weaken (take_slots-Pushed 1 is room) λ r m' done. pushed done)
  ]

  -- The capacity that nc_array_push_n asks for.
  abbrev wanted : ℕ → ℕ
  wanted n = 2 * (if leb a.nalloc n then n else a.nalloc)

  -- Of a well-formed array, where the count of elements with n more and the capacity of twice the
  -- greater of n and the old capacity are below 2 ^ 31, and that many elements take less than 2 ^
  -- 64 bytes, nc_array_push_n always has a result. It adds n elements behind the old ones, which
  -- keep their bytes, and keeps the array well formed; or it gives NULL and changes nothing, and
  -- then the n elements do not fit the old capacity and realloc has no memory for the new one.
  pub push_n-PushResult :
      (n : ℕ)
      → a.nelem + n < int_limit
      → wanted n < int_limit
      → a.size * wanted n < word
      → Gives (PushResult c (wanted n) m a n) (push_n c a n m)
  unfolding push_n
  push_n-PushResult n sum small fits = rw total (elim (Bool-cases (ltb a.nalloc (a.nelem + n))) [
    | inl full ↦
        let bytes : wanted n * a.size % word ≡ a.size * wanted n = omega arith in
        let doubled : ltb (wanted n) int_limit ≡ true = ground arith in
        rw (full, doubled, bytes)
          (realloc-PushResult n (wanted n) _ libc is (ground arith) small (ground (arith, is.used))
            (λ p m'. refl) (ground arith))
    | inr enough ↦
        let room : a.nelem + n ≤ a.nalloc = ground arith in
        rw enough (weaken (take_slots-Pushed n is room) λ r m' done. pushed done)
  ])
    where
      total : ltb (a.nelem + n) int_limit ≡ true
      total = ground arith
