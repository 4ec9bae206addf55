-- ===== src/Memory/Range.antt =====
-- `memory_range_valid` against the range that it is to accept.
use piux_kernel.Prelude.{ℕ, ◌+◌, ◌^◌, ◌≤◌, ◌<◌, ◌≡◌, ◌↔◌, true, false, arith}
use piux_kernel.Memory.{memory_range_valid, user_space_base, user_space_top, user_memory_limit}

-- The bytes from `start` on, as whole numbers: at least one, from 1 MiB up to the last page of
-- the address space.
pub record InMemory (start size : ℕ) : Type 0 where
  pub not_empty : 0 < size
  pub above : 0x0010_0000 ≤ start
  pub below : start + size ≤ 0xffff_f000

-- Besides, inside the memory of user programs.
pub record InUserMemory (start size : ℕ) : Type 0 where
  pub not_empty : 0 < size
  pub above : user_space_base ≤ start
  pub below : start + size ≤ user_memory_limit

-- For words `start` and `size`, `memory_range_valid` accepts for the kernel exactly the ranges
-- that are not empty, begin at 1 MiB or above and end at 0xfffff000 or below, with no wrap.
kernel_range_iff :
    (start size : ℕ)
    → start < 2 ^ 32
    → size < 2 ^ 32
    → (memory_range_valid start size false ≡ true) ↔ InMemory start size
unfolding memory_range_valid
kernel_range_iff start size p q = (λ h. ground arith, λ h. ground arith)

-- For words `start` and `size`, `memory_range_valid` accepts for a user program exactly the
-- ranges that are not empty and lie between 4 MiB and 64 MiB, with no wrap; these lie below
-- `USER_SPACE_TOP` and are ranges that it accepts for the kernel too.
pub user_range_iff :
    (start size : ℕ)
    → start < 2 ^ 32
    → size < 2 ^ 32
    → ((memory_range_valid start size true ≡ true) ↔ InUserMemory start size)
      × (InUserMemory start size
          → (start + size ≤ user_space_top) × (memory_range_valid start size false ≡ true))
unfolding memory_range_valid
user_range_iff start size p q =
    ((λ h. ground arith, λ h. ground arith), λ h. (omega arith, ground arith))
