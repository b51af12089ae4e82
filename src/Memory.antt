-- ===== src/Memory.antt =====
-- The memory that the components share: bytes at 64-bit addresses, the live blocks that the C
-- library has handed out, and commands over them. A command that the C standard leaves undefined
-- (a free of a block that is not live, a signed overflow) has no result.
pub mod Gives
pub mod Libc
pub mod Heap
use libnc.Prelude.{
  ℕ, ◌+◌, ◌^◌, ◌<◌, ◌≡◌, List, [], ◌∷◌, Option, none, some, Bool, ◌&&◌, ltb, leb, ◌==◌,
  if◌then◌else◌,
}

abbrev pub Addr : Type 0
Addr = ℕ

abbrev pub null : Addr
null = 0

-- uintptr_t and size_t have 64 bits.
abbrev pub word : ℕ
word = 2 ^ 64

-- A live block is its address and its size.
pub record Mem : Type 0 where
  pub byte : Addr → ℕ
  pub blocks : List (Addr × ℕ)

unfoldable pub find : Addr → List (Addr × ℕ) → Option ℕ
find p [] = none
find p ((q, n) ∷ rest) = if q == p then some n else find p rest

-- The size of the live block at an address.
abbrev pub block : Mem → Addr → Option ℕ
block m p = find p m.blocks

-- The address is one of the n from p on.
abbrev pub within : Addr → ℕ → Addr → Bool
within p n a = leb p a && ltb a (p + n)

pub data Run (A : Type 0) : Type 0 where
  ok : A → Mem → Run A
  undefined : Run A

abbrev pub Cmd : Type 0 → Type 0
Cmd A = Mem → Run A

abbrev pub pure : {A : Type 0} → A → Cmd A
pure a m = ok a m

module _ {A B : Type 0} where
  abbrev pub then_run : Run A → (A → Cmd B) → Run B
  then_run (ok a m) k = k a m
  then_run undefined k = undefined

  infixl 5 ◌>>=◌ ◌>>◌
  abbrev pub ◌>>=◌ : Cmd A → (A → Cmd B) → Cmd B
  c >>= k = λ m. then_run (c m) k

  abbrev pub ◌>>◌ : Cmd A → Cmd B → Cmd B
  c >> d = c >>= λ _. d

-- memset(p, v, n) and memcpy(p, q, n) for regions apart
unfoldable pub memset : Addr → ℕ → ℕ → Cmd (Unit {0})
memset p v n m = ok tt (record m { byte = λ a. if within p n a then v else m.byte a })
