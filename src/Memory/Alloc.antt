-- ===== src/Memory/Alloc.antt =====
-- `kmalloc` of kernel/memory.c, with the end of the heap that `memory_init` sets.
use piux_kernel.Prelude.{ℕ, ◌+◌, ◌%◌, ◌≤◌, ◌<◌, ◌≡◌, arith}
use piux_kernel.Memory.{align_up, kmalloc, memory_init, page_size, user_space_base}

-- The least multiple of the page size from `value` on, unless it is 2 ^ 32.
pub align_up_lem :
    (value : ℕ)
    → value ≤ 0xffff_f000
    → (value ≤ align_up value)
      × (align_up value < value + page_size)
      × (align_up value % page_size ≡ 0)
unfolding align_up
align_up_lem value h = omega arith

refused :
    (heap_end size : ℕ)
    → user_space_base ≤ heap_end
    → heap_end ≤ 0xffff_f000
    → kmalloc heap_end size ≡ (0, heap_end)
unfolding kmalloc
refused heap_end size lo hi = ground (arith, align_up_lem heap_end hi)

-- If the kernel ends at 5 MiB or above, where it ends when it is linked at 1 MiB with its 4 MiB of
-- page tables, then after `memory_init` no request of any size is ever met: `kmalloc` returns NULL
-- and leaves the heap as it is.
pub kmalloc_refused :
    (kernel_end tables size : ℕ)
    → 0x0050_0000 ≤ kernel_end
    → kernel_end ≤ 0xffff_f000
    → let heap_end = (memory_init kernel_end tables).heap_end in
      kmalloc heap_end size ≡ (0, heap_end)
unfolding memory_init
kmalloc_refused kernel_end tables size lo hi =
    let aligned = align_up_lem kernel_end hi in
    refused (align_up kernel_end) size (omega (arith, aligned)) (omega (arith, aligned))
