-- ===== src/Memory.antt =====
-- kernel/memory.c and kernel/memory.h: the bump allocator, the check of user ranges, and the
-- identity page tables. Addresses are numbers below 2 ^ 32 with the wrap-around written out.
pub mod Alloc
pub mod Range
pub mod Paging
mod Tests
use piux_kernel.Prelude.{
  ℕ, zero, suc, ◌+◌, ◌-◌, ◌*◌, ◌/◌, ◌%◌, ◌^◌, Bool, true, false, ◌&&◌, ◌||◌, not, ltb, leb, ◌==◌,
  if◌then◌else◌, List, [], ◌∷◌, bit_or,
}

abbrev pub page_size : ℕ
page_size = 4096

abbrev pub user_space_top : ℕ
user_space_top = 0xC000_0000

abbrev pub user_space_base : ℕ
user_space_base = 0x0040_0000

abbrev pub user_memory_limit : ℕ
user_memory_limit = 64 * 1024 * 1024

abbrev pub page_entries : ℕ
page_entries = 1024

abbrev pub identity_page_count : ℕ
identity_page_count = 1024 * 1024

-- `uint32_t` arithmetic.
abbrev pub wrap32 : ℕ → ℕ
wrap32 x = x % 2 ^ 32

-- `& ~(PAGE_SIZE - 1)` drops the remainder by the page size.
unfoldable pub align_up : ℕ → ℕ
align_up value = let sum = wrap32 (value + page_size - 1) in sum - sum % page_size

-- The result (0 for NULL) and the new `heap_end`.
unfoldable pub kmalloc : ℕ → ℕ → ℕ × ℕ
unfolding align_up
kmalloc heap_end size =
    let address = align_up heap_end in
    let size' = align_up size in
    if size == 0
    then (0, heap_end)
    else if ltb address heap_end
        || ltb (wrap32 (address + size')) address
        || leb user_space_base (wrap32 (address + size'))
    then (0, heap_end)
    else (address, wrap32 (address + size'))

-- `kfree` keeps everything.
abbrev pub kfree : ℕ → ℕ → ℕ
kfree heap_end address = heap_end

unfoldable pub memory_range_valid : ℕ → ℕ → Bool → Bool
memory_range_valid start size user_space =
    let end = wrap32 (start + size) in
    if size == 0 || ltb (wrap32 (start + size)) start
    then false
    else if user_space
        && (ltb start user_space_base || ltb user_space_top end || ltb user_memory_limit end)
    then false
    else leb 0x0010_0000 start && leb end 0xffff_f000

-- `page_tables[page]` after `memory_init`.
unfoldable pub page_table_entry : ℕ → ℕ
page_table_entry page =
    let flags =
      if leb user_space_base (wrap32 (page * page_size)) then bit_or 0x03 0x04 else 0x03 in
    bit_or (wrap32 (page * page_size)) flags

-- `page_directory[table]` after `memory_init`, with the tables at address `tables`.
unfoldable pub page_directory_entry : ℕ → ℕ → ℕ
page_directory_entry tables table =
    let flags = if table == 0 then 0x03 else 0x07 in
    if ltb table (identity_page_count / page_entries)
    then bit_or (wrap32 (tables + table * page_entries * 4)) flags
    else 0

-- What `memory_init` sets up.
pub record MemoryState : Type 0 where
  pub page_directory : ℕ → ℕ
  pub page_tables : ℕ → ℕ
  pub heap_end : ℕ
  pub paging_active : Bool

-- From the addresses of `__kernel_end` and of the array `page_tables`.
unfoldable pub memory_init : ℕ → ℕ → MemoryState
unfolding align_up page_table_entry page_directory_entry
memory_init kernel_end tables = record {
  page_directory = page_directory_entry tables;
  page_tables = page_table_entry;
  heap_end = align_up kernel_end;
  paging_active = true;
}
