-- ===== src/Ext2/Inodes.antt =====
-- Inodes and block pointers of kernel/ext2.c.
use piux_kernel.Prelude.{
  ℕ, ◌+◌, ◌-◌, ◌*◌, ◌/◌, ◌%◌, ◌^◌, Bool, ◌&&◌, not, ltb, leb, ◌==◌, if◌then◌else◌, none, some,
  Buffer, copy_bytes, load32, Fallible, ◌>>=◌, ◌>>◌, pure, get_state, guard,
}
use piux_kernel.Ext2.Disk.{Disk}
use piux_kernel.Ext2.State.{
  Ext2, inodes_count, inodes_per_group, inode_table, inode_direct, indirect_block,
  doubly_indirect_block, triply_indirect_block, no_bytes,
}
use piux_kernel.Ext2.Blocks.{min_u32, ext2_read_block, ext2_write_block, read_group_descriptor}

module _ {D : Type 0} where
  -- Whether the file system is mounted and has the inode.
  abbrev pub has_inode : ℕ → Ext2 D → Bool
  has_inode inode_num s =
      s.mounted && not (inode_num == 0) && leb inode_num (inodes_count s.superblock)

  abbrev pub inode_group : ℕ → Ext2 D → ℕ
  inode_group inode_num s = (inode_num - 1) / inodes_per_group s.superblock

  -- The offset of the inode in the table of its group.
  abbrev pub inode_byte : ℕ → Ext2 D → ℕ
  inode_byte inode_num s = (inode_num - 1) % inodes_per_group s.superblock * s.inode_size % 2 ^ 32

  -- The block of the inode and the offset there, with the descriptor of its group.
  abbrev pub inode_block_num : Buffer → ℕ → Ext2 D → ℕ
  inode_block_num descriptor inode_num s =
      (inode_table descriptor + inode_byte inode_num s / s.block_size) % 2 ^ 32

  abbrev pub inode_offset : ℕ → Ext2 D → ℕ
  inode_offset inode_num s = inode_byte inode_num s % s.block_size

  -- The part of the inode in its first block.
  abbrev pub first_part : ℕ → Ext2 D → ℕ
  first_part inode_num s = min_u32 s.inode_size (s.block_size - inode_offset inode_num s)

-- The bytes of the structure in memory: those that the disk does not have are 0.
abbrev pub inode_of : ℕ → Buffer → Buffer
inode_of size b i = if ltb i (min_u32 128 size) then b i else 0

module _ {D : Type 0} (k : Disk D) where
  -- What is left of the inode in the next block.
  unfoldable pub read_inode_rest : ℕ → ℕ → ℕ → Buffer → Fallible (Ext2 D) Buffer
  unfolding ext2_read_block
  read_inode_rest block part inode_size first =
      if ltb part inode_size
      then (do
        rest ← ext2_read_block k (block + 1)
        pure (copy_bytes (inode_size - part) first part rest 0))
      else pure first

  unfoldable pub read_inode_bytes : ℕ → ℕ → ℕ → ℕ → Fallible (Ext2 D) Buffer
  unfolding ext2_read_block read_inode_rest
  read_inode_bytes block offset part inode_size = do
    b ← ext2_read_block k block
    read_inode_rest block part inode_size (copy_bytes part no_bytes 0 b offset)

  unfoldable pub ext2_read_inode : ℕ → Fallible (Ext2 D) Buffer
  ext2_read_inode inode_num = do
    s ← get_state
    guard (has_inode inode_num s)
    descriptor ← read_group_descriptor k (inode_group inode_num s)
    b ←
        read_inode_bytes (inode_block_num descriptor inode_num s) (inode_offset inode_num s)
          (first_part inode_num s) s.inode_size
    pure (inode_of s.inode_size b)

  -- The part of the inode in the next block.
  unfoldable pub write_inode_rest : ℕ → ℕ → ℕ → Buffer → Fallible (Ext2 D) (Unit {0})
  unfolding ext2_read_block ext2_write_block
  write_inode_rest block part inode_size bytes =
      if ltb part inode_size
      then (do
        rest ← ext2_read_block k (block + 1)
        ext2_write_block k (block + 1) (copy_bytes (inode_size - part) rest 0 bytes part))
      else pure tt

  unfoldable pub ext2_write_inode : ℕ → Buffer → Fallible (Ext2 D) (Unit {0})
  ext2_write_inode inode_num inode = do
    s ← get_state
    guard (has_inode inode_num s)
    descriptor ← read_group_descriptor k (inode_group inode_num s)
    let block = inode_block_num descriptor inode_num s
    let offset = inode_offset inode_num s
    let part = first_part inode_num s
    old ← read_inode_bytes block offset part s.inode_size
    let bytes = copy_bytes (min_u32 128 s.inode_size) old 0 inode 0
    b ← ext2_read_block k block
    ext2_write_block k block (copy_bytes part b offset bytes 0)
    write_inode_rest block part s.inode_size bytes

  unfoldable pub read_pointer : ℕ → ℕ → Fallible (Ext2 D) ℕ
  unfolding ext2_read_block
  read_pointer block index = do
    s ← get_state
    guard (not (block == 0) && ltb index (s.block_size / 4))
    b ← ext2_read_block k block
    pure (load32 b (4 * index))

  -- Through two and through three tables, with the number of pointers in a table.
  unfoldable pub double_block : Buffer → ℕ → ℕ → Fallible (Ext2 D) ℕ
  unfolding read_pointer
  double_block inode pointers logical = do
    first ← read_pointer (doubly_indirect_block inode) (logical / pointers)
    read_pointer first (logical % pointers)

  unfoldable pub triple_block : Buffer → ℕ → ℕ → Fallible (Ext2 D) ℕ
  unfolding read_pointer
  triple_block inode pointers logical = do
    first ← read_pointer (triply_indirect_block inode) (logical / (pointers * pointers))
    second ← read_pointer first (logical / pointers % pointers)
    read_pointer second (logical % pointers)

  unfoldable pub inode_block : Buffer → ℕ → Fallible (Ext2 D) ℕ
  unfolding read_pointer double_block triple_block
  inode_block inode logical s =
      let pointers = s.block_size / 4 in
      let behind = logical - 12 in
      let behind_double = behind - pointers in
      let behind_triple = behind_double - pointers * pointers in
      if ltb logical 12
      then (some (inode_direct inode logical), s)
      else if ltb behind pointers
      then read_pointer (indirect_block inode) behind s
      else if ltb behind_double (pointers * pointers)
      then double_block inode pointers behind_double s
      else if ltb behind_triple (pointers * pointers * pointers)
      then triple_block inode pointers behind_triple s
      else (none, s)

  -- The block of a file or directory, which must be there.
  unfoldable pub block_of : Buffer → ℕ → Fallible (Ext2 D) ℕ
  unfolding inode_block
  block_of inode logical = do
    physical ← inode_block inode logical
    guard (not (physical == 0))
    pure physical
