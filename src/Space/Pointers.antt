-- ===== src/Space/Pointers.antt =====
-- The check of pointers that user programs pass.
use spike_os.Prelude.{ℕ, ◌+◌, ◌≤◌, ◌<◌, ◌^◌, ◌≡◌, ◌↔◌, false, arith}
use spike_os.Space.{bad_user_ptr, kernel_vma}

-- For an address and a length of 32 bits, `bad_user_ptr` lets a pointer pass exactly where it is not NULL
-- and every byte, and the address itself, lies below the kernel.
pub bad_user_ptr_lem :
    (addr len : ℕ)
    → addr < 2 ^ 32
    → len < 2 ^ 32
    → (bad_user_ptr addr len ≡ false)
      ↔ ((1 ≤ addr) × (addr < kernel_vma) × (addr + len ≤ kernel_vma))
unfolding bad_user_ptr
bad_user_ptr_lem addr len h k = ground arith
