-- ===== src/Memory/Tests.antt =====
-- Runs of kernel/memory.c.
use piux_kernel.Prelude.{◌+◌, ◌≤◌, ◌≡◌, ◌↔◌, refl, true, false, arith}
use piux_kernel.Memory.{kmalloc, memory_init, memory_range_valid, user_space_top}
use piux_kernel.Memory.Range.{InUserMemory, user_range_iff}
use piux_kernel.Memory.Alloc.{kmalloc_refused}

user_range_iff_example :
    ((memory_range_valid 0x0050_0000 512 true ≡ true) ↔ InUserMemory 0x0050_0000 512)
    × (InUserMemory 0x0050_0000 512
        → (0x0050_0000 + 512 ≤ user_space_top) × (memory_range_valid 0x0050_0000 512 false ≡ true))
user_range_iff_example = user_range_iff 0x0050_0000 512 (omega arith) (omega arith)

kmalloc_refused_example :
    let heap_end = (memory_init 0x0051_2345 0x0010_2000).heap_end in
    kmalloc heap_end 100 ≡ (0, heap_end)
kmalloc_refused_example = kmalloc_refused 0x0051_2345 0x0010_2000 100 (omega arith) (omega arith)

-- Below the memory of user programs the same request would be met.
run_met : kmalloc 0x0010_0010 100 ≡ (0x0010_1000, 0x0010_2000)
unfolding kmalloc
run_met = refl
