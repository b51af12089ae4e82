-- ===== src/Memory/Gives.antt =====
-- What a command ensures: it has a result, and the result has a property.
use libnc.Memory.{Mem, Run, ok, Cmd, then_run}

pub data Gives {A : Type 0} (P : A → Mem → Type 0) : Run A → Type 0 where
  gives : {a : A} {m : Mem} → P a m → Gives P (ok a m)

module _ {A : Type 0} {P : A → Mem → Type 0} where
  -- The rule for a sequence of commands.
  pub seq :
      {B : Type 0} {Q : B → Mem → Type 0} {r : Run A} {k : A → Cmd B}
      → Gives P r
      → ((a : A) (m : Mem) → P a m → Gives Q (k a m))
      → Gives Q (then_run r k)
  seq (gives p) next = next _ _ p

  pub weaken :
      {Q : A → Mem → Type 0} {r : Run A}
      → Gives P r
      → ((a : A) (m : Mem) → P a m → Q a m)
      → Gives Q r
  weaken (gives p) weaker = gives (weaker _ _ p)
