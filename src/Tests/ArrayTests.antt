-- ===== src/Tests/ArrayTests.antt =====
-- The theorems on arrays at concrete inputs.
use libnc.Prelude.{ℕ, ◌*◌, ◌<◌, ◌≡◌, refl, ◌⊎◌, Option, [], ◌∷◌, arith, some, none}
use libnc.Memory.{Mem, block, Run, ok, find, ◌>>=◌, Cmd, pure}
use libnc.Memory.Gives.{Gives}
use libnc.Macros.{nc_alloc, nc_realloc}
use libnc.Array.{Array, create, destroy, push, push_n}
use libnc.Array.Invariant.{IsArray, IsStuck, PushResult}
use libnc.Array.Create.{CreateResult, Owned, Destroyed, create-CreateResult, destroy-Destroyed}
use libnc.Array.Push.{push-PushResult, push_n-PushResult}
use libnc.Array.Contents.{Contents, append, snoc, append-Contents}
use libnc.Array.Overflow.{create_overflow}
use libnc.Tests.Bump.{bump, bump-IsLibc}

-- A struct at 16 and its two elements of eight bytes at 64, both in use.
abbrev memory : Mem
memory = record { byte = λ a. 7; blocks = (64, 16) ∷ (16, 32) ∷ [] }

abbrev full : Array
full = record { elems = 64; nelem = 2; size = 8; nalloc = 2 }

abbrev unset : Array
unset = record { elems = 0; nelem = 0; size = 0; nalloc = 0 }

full-IsArray : IsArray memory full
unfolding find
full-IsArray = record {
  ne_null = omega arith;
  live = refl;
  fits = omega arith;
  used = omega arith;
  small = omega arith;
  size_pos = omega arith;
  nalloc_pos = omega arith;
}

full-Owned : Owned memory 16 full
unfolding find
full-Owned = record {
  valid = full-IsArray;
  ne_null = omega arith;
  struct_live = refl;
  distinct = omega arith;
}

-- The steps of the repository's test: 5 slots, 3 pushes and then 4 more give 7 of 10.
abbrev repository_test : Cmd (Option (ℕ × ℕ))
repository_test = do
  made ← create bump unset 5 8
  elim made [
    | none ↦ pure none
    | some (p, a) ↦ do
      (_, a1) ← push bump a
      (_, a2) ← push bump a1
      (_, a3) ← push bump a2
      (_, a4) ← push_n bump a3 4
      pure (some (a4.nelem, a4.nalloc))
  ]

abbrev result {ℓ} : {A : Type 0} {B : Type ℓ} → Run A → (A → B) → B → B
result (ok a m) f d = f a
result _ f d = d

repository_result :
    result (repository_test (record { byte = λ a. 0; blocks = [] })) (λ r. r) none ≡ some (7, 10)
unfolding create push push_n nc_alloc nc_realloc find
repository_result = refl

push-PushResult_example : Gives (PushResult bump 4 memory full 1) (push bump full memory)
push-PushResult_example = push-PushResult bump-IsLibc full-IsArray (omega arith) (omega arith)

push_n-PushResult_example : Gives (PushResult bump 10 memory full 5) (push_n bump full 5 memory)
push_n-PushResult_example =
    push_n-PushResult bump-IsLibc full-IsArray 5 (omega arith) (omega arith) (omega arith)

append-Contents_example :
    Gives
      (λ a' m'.
        IsArray m' a'
        × (IsStuck bump memory full 1 4 × (a' ≡ full) × Contents m' a' (λ i j. 7)
            ⊎ (a'.nelem ≡ 3) × Contents m' a' (snoc 2 (λ i j. 7) (λ j. j))))
      (append bump full (λ j. j) memory)
append-Contents_example =
    append-Contents bump-IsLibc (λ j. j) full-IsArray (λ i j hi hj. refl) (omega arith)
      (omega arith)

create-CreateResult_example : Gives (CreateResult memory 5 8) (create bump unset 5 8 memory)
create-CreateResult_example =
    create-CreateResult bump-IsLibc unset 5 8 memory (omega arith) (omega arith) (omega arith)
      (omega arith)

destroy-Destroyed_example :
    Gives (λ _ m'. Destroyed memory 16 full m') (destroy bump 16 full memory)
destroy-Destroyed_example = destroy-Destroyed bump-IsLibc memory 16 full full-Owned

-- The memory with the struct of a new array, and with its short block.
abbrev with_struct : Mem
with_struct = record memory { blocks = (96, 32) ∷ memory.blocks }

abbrev with_elems : Mem
with_elems = record with_struct { blocks = (144, 0x100) ∷ with_struct.blocks }

create_overflow_example :
    (a : Array) × (k : ℕ) × (create bump unset 0x100 0x100_0000_0000_0001 memory
      ≡ ok (some (96, a)) with_elems)
    × (a.nalloc ≡ 0x100)
    × (a.size ≡ 0x100_0000_0000_0001)
    × (block with_elems a.elems ≡ some k)
    × (k < a.size * a.nalloc)
create_overflow_example =
    create_overflow bump-IsLibc unset 0x100 0x100_0000_0000_0001 96 144 memory with_struct
      with_elems (omega arith) refl refl
