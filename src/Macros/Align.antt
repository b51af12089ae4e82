-- ===== src/Macros/Align.antt =====
-- NC_ALIGN_PTR of src/nc_macros.h.
use libnc.Prelude.{◌+◌, ◌*◌, ◌/◌, ◌%◌, ◌≤◌, ◌<◌, ◌≡◌, ◌∙◌, arith}
use libnc.Prelude.Bits.{bit_and_eights}
use libnc.Memory.{Addr, word}
use libnc.Macros.{nc_alignment, nc_align_ptr}

nc_align_ptr-eights : (p : Addr) → p + 7 < word → nc_align_ptr p nc_alignment ≡ (p + 7) / 8 * 8
unfolding nc_align_ptr
nc_align_ptr-eights p h = bit_and_eights ((p + 7) % word) (omega arith) ∙ omega arith

-- At an address that does not wrap, the aligned address is the least multiple of the machine word
-- that is not below it.
pub nc_align_ptr-least :
    (p : Addr)
    → p + 7 < word
    → (nc_align_ptr p nc_alignment % 8 ≡ 0)
      × (p ≤ nc_align_ptr p nc_alignment)
      × ((q : Addr) → p ≤ q → q % 8 ≡ 0 → nc_align_ptr p nc_alignment ≤ q)
nc_align_ptr-least p h =
    let e = nc_align_ptr-eights p h in (omega arith, omega arith, λ q le zero_mod. omega arith)
