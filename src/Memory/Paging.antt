-- ===== src/Memory/Paging.antt =====
-- The page tables that `memory_init` builds.
use piux_kernel.Prelude.{
  ℕ, ◌+◌, ◌-◌, ◌*◌, ◌/◌, ◌%◌, ◌^◌, ◌≤◌, ◌<◌, ◌≡◌, ◌↔◌, arith, if◌then◌else◌, leb, ◌==◌, bit_or,
  bit_or-fields,
}
use piux_kernel.Memory.{
  MemoryState, memory_init, page_table_entry, page_directory_entry, page_size, user_space_base,
  identity_page_count, page_entries,
}

-- The fields that the processor reads in an entry.
abbrev pub frame : ℕ → ℕ
frame entry = entry / 4096

abbrev pub present : ℕ → ℕ
present entry = entry % 2

abbrev pub writable : ℕ → ℕ
writable entry = entry / 2 % 2

abbrev pub user : ℕ → ℕ
user entry = entry / 4 % 2

low_flags : (value flags : ℕ) → flags < 8 → value % 4096 ≡ 0 → bit_or value flags ≡ value + flags
low_flags value flags h z =
    let e : value ≡ value / 4096 * 2 ^ 12 = omega arith in
    rw e (bit_or-fields 12 (value / 4096) flags (omega arith))

entry_lem :
    (page : ℕ)
    → page < identity_page_count
    → page_table_entry page ≡ page * 4096 + (if leb user_space_base (page * 4096) then 7 else 3)
unfolding page_table_entry
entry_lem page h = ground (
  arith,
  low_flags (page * page_size) 7 (omega arith) (omega arith),
  low_flags (page * page_size) 3 (omega arith) (omega arith),
)

directory_lem :
    (tables table : ℕ)
    → tables % 4096 ≡ 0
    → tables + 2 ^ 22 ≤ 2 ^ 32
    → table < page_entries
    → page_directory_entry tables table ≡ tables + table * 4096 + (if table == 0 then 3 else 7)
unfolding page_directory_entry
directory_lem tables table z fits h = ground (
  arith,
  low_flags (tables + table * page_entries * 4) 7 (omega arith) (omega arith),
  low_flags (tables + table * page_entries * 4) 3 (omega arith) (omega arith),
)

-- The two entries by which the processor translates an address: the one in the directory, and
-- the one in the table that this points to, an array element of `page_tables`.
abbrev pub directory_entry : MemoryState → ℕ → ℕ
directory_entry m address = m.page_directory (address / 2 ^ 22)

abbrev pub table_entry : MemoryState → ℕ → ℕ → ℕ
table_entry m tables address =
    m.page_tables
      ((frame (directory_entry m address) * 4096 - tables) / 4 + address / 4096 % page_entries)

-- How an address is translated, and who may use it.
pub record Identity (directory table address : ℕ) : Type 0 where
  pub in_place : frame table * 4096 + address % 4096 ≡ address
  pub is_present : (present directory ≡ 1) × (present table ≡ 1)
  pub is_writable : (writable directory ≡ 1) × (writable table ≡ 1)
  pub user_iff : ((user directory ≡ 1) × (user table ≡ 1)) ↔ (user_space_base ≤ address)

Identity-of :
    (directory table base address : ℕ)
    → address < 2 ^ 32
    → directory ≡ base + address / 2 ^ 22 * 4096 + (if address / 2 ^ 22 == 0 then 3 else 7)
    → base % 4096 ≡ 0
    → table ≡ address / 4096 * 4096 + (if leb user_space_base (address / 4096 * 4096) then 7 else 3)
    → Identity directory table address
Identity-of directory table base address h d z t = record {
  in_place = ground arith;
  is_present = ground arith;
  is_writable = ground arith;
  user_iff = (λ u. ground arith, λ u. ground arith);
}

-- With the page tables at a page that leaves room for them, after `memory_init` every address of
-- 32 bits is translated to itself by present, writable entries, and a user program may use it
-- exactly when it is at or above `USER_SPACE_BASE`.
pub memory_init-Identity :
    (kernel_end tables address : ℕ)
    → tables % page_size ≡ 0
    → tables + 2 ^ 22 ≤ 2 ^ 32
    → address < 2 ^ 32
    → let m = memory_init kernel_end tables in
      Identity (directory_entry m address) (table_entry m tables address) address
unfolding memory_init
memory_init-Identity kernel_end tables address z fits h =
    let d = directory_lem tables (address / 2 ^ 22) z fits (omega arith) in
    let index : (frame (page_directory_entry tables (address / 2 ^ 22)) * 4096 - tables) / 4
          + address / 4096 % page_entries
        ≡ address / 4096 =
      ground (arith, d) in
    Identity-of _ _ tables address h d z (rw index (entry_lem (address / 4096) (omega arith)))
