-- ===== src/Tests/MacrosTests.antt =====
-- The theorems on the macros at concrete inputs.
use libnc.Prelude.{ℕ, ◌*◌, ◌%◌, ◌≤◌, ◌<◌, ◌≡◌, ◌≢◌, ◌∷◌, refl, ◌⊎◌, [], arith, some}
use libnc.Memory.{Addr, null, Mem, block, ok}
use libnc.Memory.Gives.{Gives}
use libnc.Macros.{nc_align_ptr, nc_alignment, nc_calloc}
use libnc.Macros.Align.{nc_align_ptr-least}
use libnc.Macros.Calloc.{Zeroed, nc_calloc-Zeroed, nc_calloc_overflow}
use libnc.Tests.Bump.{bump, bump-IsLibc}

abbrev blank : Mem
blank = record { byte = λ a. 7; blocks = [] }

align_test : nc_align_ptr 41 nc_alignment ≡ 48
unfolding nc_align_ptr
align_test = refl

nc_align_ptr-least_example :
    (nc_align_ptr 41 nc_alignment % 8 ≡ 0)
    × (41 ≤ nc_align_ptr 41 nc_alignment)
    × ((q : Addr) → 41 ≤ q → q % 8 ≡ 0 → nc_align_ptr 41 nc_alignment ≤ q)
nc_align_ptr-least_example = nc_align_ptr-least 41 (omega arith)

nc_calloc-Zeroed_example :
    Gives (λ p m'. ((p ≡ null) × (m' ≡ blank)) ⊎ Zeroed blank 24 p m') (nc_calloc bump 3 8 blank)
nc_calloc-Zeroed_example = nc_calloc-Zeroed bump-IsLibc 3 8 blank (omega arith)

-- The memory with the short block.
abbrev with_block : Mem
with_block = record { byte = λ a. 7; blocks = (16, 0x1_0000_0000) ∷ [] }

nc_calloc_overflow_example :
    (k : ℕ) × (m' : Mem) × (nc_calloc bump 0x1_0000_0000 0x1_0000_0001 blank ≡ ok 16 m')
    × (16 ≢ null)
    × (block m' 16 ≡ some k)
    × (k < 0x1_0000_0000 * 0x1_0000_0001)
nc_calloc_overflow_example =
    nc_calloc_overflow bump-IsLibc 0x1_0000_0000 0x1_0000_0001 16 blank with_block (omega arith)
      refl
