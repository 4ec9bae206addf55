-- ===== src/Ext2/State.antt =====
-- The state of kernel/ext2.c and the structures of kernel/ext2.h, which are bytes with fields.
use piux_kernel.Prelude.{ℕ, ◌+◌, ◌*◌, Bool, Buffer, CString, load16, load32}

-- `ext2_filesystem_t` and `fs_initialized`, with the disk. `block_buffer` and `inode_buffer` are
-- filled by every function before it reads them, and are values here.
pub record Ext2 (D : Type 0) : Type 0 where
  pub mounted : Bool
  pub superblock : Buffer
  pub block_size : ℕ
  pub inode_size : ℕ
  pub current_dir_inode : ℕ
  pub group_count : ℕ
  pub first_data_block : ℕ
  pub current_path : CString
  pub disk : D

abbrev pub inodes_count : Buffer → ℕ
inodes_count b = load32 b 0

abbrev pub blocks_count : Buffer → ℕ
blocks_count b = load32 b 4

-- The offsets of the fields that are written.
abbrev pub super_free_blocks : ℕ
super_free_blocks = 12

abbrev pub super_free_inodes : ℕ
super_free_inodes = 16

abbrev pub super_first_data_block : Buffer → ℕ
super_first_data_block b = load32 b 20

abbrev pub log_block_size : Buffer → ℕ
log_block_size b = load32 b 24

abbrev pub blocks_per_group : Buffer → ℕ
blocks_per_group b = load32 b 32

abbrev pub inodes_per_group : Buffer → ℕ
inodes_per_group b = load32 b 40

abbrev pub magic : Buffer → ℕ
magic b = load16 b 56

abbrev pub first_ino : Buffer → ℕ
first_ino b = load32 b 84

abbrev pub super_inode_size : Buffer → ℕ
super_inode_size b = load16 b 88

abbrev pub feature_incompat : Buffer → ℕ
feature_incompat b = load32 b 96

-- `ext2_group_descriptor_t`, of 32 bytes.
abbrev pub block_bitmap : Buffer → ℕ
block_bitmap b = load32 b 0

abbrev pub inode_bitmap : Buffer → ℕ
inode_bitmap b = load32 b 4

abbrev pub inode_table : Buffer → ℕ
inode_table b = load32 b 8

abbrev pub group_free_blocks : ℕ
group_free_blocks = 12

abbrev pub group_free_inodes : ℕ
group_free_inodes = 14

-- `ext2_inode_t`, of 128 bytes.
abbrev pub inode_mode : Buffer → ℕ
inode_mode b = load16 b 0

abbrev pub inode_size_of : Buffer → ℕ
inode_size_of b = load32 b 4

abbrev pub inode_blocks : Buffer → ℕ
inode_blocks b = load32 b 28

abbrev pub inode_links : Buffer → ℕ
inode_links b = load16 b 26

abbrev pub inode_direct : Buffer → ℕ → ℕ
inode_direct b i = load32 b (40 + 4 * i)

abbrev pub indirect_block : Buffer → ℕ
indirect_block b = load32 b 88

abbrev pub doubly_indirect_block : Buffer → ℕ
doubly_indirect_block b = load32 b 92

abbrev pub triply_indirect_block : Buffer → ℕ
triply_indirect_block b = load32 b 96

-- `ext2_dir_entry_t` at an offset of a block.
abbrev pub entry_inode : Buffer → ℕ → ℕ
entry_inode b o = load32 b o

abbrev pub entry_rec_len : Buffer → ℕ → ℕ
entry_rec_len b o = load16 b (o + 4)

abbrev pub entry_name_len : Buffer → ℕ → ℕ
entry_name_len b o = b (o + 6)

abbrev pub entry_file_type : Buffer → ℕ → ℕ
entry_file_type b o = b (o + 7)

abbrev pub no_bytes : Buffer
no_bytes _ = 0
