-- ===== src/Ext2/Files.antt =====
-- Reading and writing the data of a file in kernel/ext2.c.
use piux_kernel.Prelude.{
  ℕ, zero, suc, ◌+◌, ◌-◌, ◌*◌, ◌/◌, ◌%◌, ◌^◌, true, false, ltb, leb, ◌==◌, if◌then◌else◌, none,
  some, Buffer, CString, copy_bytes, put32, load32, Fallible, ◌>>=◌, ◌>>◌, pure, get_state, guard,
}
use piux_kernel.Ext2.Disk.{Disk}
use piux_kernel.Ext2.State.{Ext2, inode_size_of, indirect_block, doubly_indirect_block, no_bytes}
use piux_kernel.Ext2.Blocks.{
  min_u32, block_count_for_size, metadata_block_count, ext2_read_block, ext2_write_block,
}
use piux_kernel.Ext2.Inodes.{ext2_read_inode, ext2_write_inode, read_pointer, block_of}
use piux_kernel.Ext2.Bitmaps.{allocate_block}
use piux_kernel.Ext2.Dirs.{is_kind, kind_reg, as_int, ext2_find_inode, ext2_find_inode_by_path}

-- The data of one block: the bytes of the file from `from` on, and 0 behind them.
abbrev pub block_bytes : ℕ → ℕ → Buffer → Buffer
block_bytes from amount buffer = copy_bytes amount no_bytes 0 buffer from

module _ {D : Type 0} where
  -- The most blocks that can be written.
  abbrev pub max_blocks : Ext2 D → ℕ
  max_blocks s = 12 + s.block_size / 4 + s.block_size / 4 * (s.block_size / 4)

  -- The sizes of the inode after a write.
  abbrev pub sized : Buffer → ℕ → ℕ → Ext2 D → Buffer
  sized inode size new_blocks s =
      put32 (put32 inode 4 size) 28
        ((new_blocks + metadata_block_count new_blocks s) * (s.block_size / 512) % 2 ^ 32)

module _ {D : Type 0} (k : Disk D) where
  -- The loop of `ext2_read_file`, with the rounds left; each round reads up to the end of a block.
  unfoldable pub read_from : ℕ → Buffer → ℕ → ℕ → Buffer → Fallible (Ext2 D) Buffer
  read_from zero inode wanted bytes_read buffer s = (some buffer, s)
  read_from (suc left) inode wanted bytes_read buffer s =
      let offset = bytes_read % s.block_size in
      let amount = min_u32 (wanted - bytes_read) (s.block_size - offset) in
      let next = read_from left inode wanted (bytes_read + amount) in
      let more : Fallible (Ext2 D) Buffer = (do
        physical ← block_of k inode (bytes_read / s.block_size)
        b ← ext2_read_block k physical
        next (copy_bytes amount buffer bytes_read b offset)) in
      elim (ltb bytes_read wanted) [ true ↦ more s | false ↦ (some buffer, s) ]

  -- The number of bytes and the buffer of the caller.
  unfoldable pub ext2_read_file : ℕ → Buffer → ℕ → Fallible (Ext2 D) (ℕ × Buffer)
  unfolding ext2_read_inode read_from
  ext2_read_file inode_num buffer size = do
    inode ← ext2_read_inode k inode_num
    let wanted = min_u32 size (inode_size_of inode)
    bytes ← read_from wanted inode wanted 0 buffer
    count ← as_int wanted
    pure (count, bytes)

  unfoldable pub ext2_read_file_by_name : CString → Buffer → ℕ → Fallible (Ext2 D) (ℕ × Buffer)
  unfolding ext2_find_inode ext2_read_file
  ext2_read_file_by_name filename buffer size = do
    inode ← ext2_find_inode k filename
    ext2_read_file inode buffer size

  unfoldable pub ext2_read_file_by_path : CString → Buffer → ℕ → Fallible (Ext2 D) (ℕ × Buffer)
  unfolding ext2_find_inode_by_path ext2_read_file
  ext2_read_file_by_path path buffer size = do
    inode ← ext2_find_inode_by_path k path
    ext2_read_file inode buffer size

  -- A pointer of the inode at an offset, allocated if it is 0.
  unfoldable pub need_pointer : Buffer → ℕ → Fallible (Ext2 D) Buffer
  unfolding allocate_block
  need_pointer inode o =
      if load32 inode o == 0 then (do b ← allocate_block k; pure (put32 inode o b)) else pure inode

  unfoldable pub write_pointer : ℕ → ℕ → ℕ → Fallible (Ext2 D) (Unit {0})
  unfolding ext2_read_block ext2_write_block
  write_pointer block index physical = do
    b ← ext2_read_block k block
    ext2_write_block k block (put32 b (4 * index) physical)

  unfoldable pub set_single : Buffer → ℕ → ℕ → Fallible (Ext2 D) Buffer
  unfolding need_pointer write_pointer
  set_single inode logical physical = do
    inode' ← need_pointer inode 88
    write_pointer (indirect_block inode') logical physical
    pure inode'

  -- The table of a doubly indirect pointer, allocated if it is not there.
  unfoldable pub need_table : ℕ → ℕ → ℕ → Fallible (Ext2 D) ℕ
  unfolding allocate_block write_pointer
  need_table block table child =
      if child == 0
      then (do b ← allocate_block k; write_pointer block table b; pure b)
      else pure child

  unfoldable pub set_double : Buffer → ℕ → ℕ → ℕ → Fallible (Ext2 D) Buffer
  unfolding need_pointer read_pointer need_table write_pointer
  set_double inode pointers logical physical = do
    inode' ← need_pointer inode 92
    child ← read_pointer k (doubly_indirect_block inode') (logical / pointers)
    table ← need_table (doubly_indirect_block inode') (logical / pointers) child
    write_pointer table (logical % pointers) physical
    pure inode'

  -- The inode with the pointer.
  unfoldable pub set_inode_block : Buffer → ℕ → ℕ → Fallible (Ext2 D) Buffer
  unfolding set_single set_double
  set_inode_block inode logical physical s =
      let pointers = s.block_size / 4 in
      let behind = logical - 12 in
      if ltb logical 12
      then (some (put32 inode (40 + 4 * logical) physical), s)
      else if ltb behind pointers
      then set_single inode behind physical s
      else if ltb (behind - pointers) (pointers * pointers)
      then set_double inode pointers (behind - pointers) physical s
      else (none, s)

  -- The loop that adds blocks to a file, with the blocks left.
  unfoldable pub grow : ℕ → ℕ → Buffer → Fallible (Ext2 D) Buffer
  grow zero logical inode s = (some inode, s)
  grow (suc left) logical inode s =
      let next = grow left (logical + 1) in
      let grown : Fallible (Ext2 D) Buffer = (do
        physical ← allocate_block k
        inode' ← set_inode_block inode logical physical
        next inode') in
      grown s

  -- The loop that writes the blocks of a file.
  unfoldable pub write_blocks : ℕ → ℕ → Buffer → Buffer → ℕ → Fallible (Ext2 D) (Unit {0})
  write_blocks zero logical inode buffer size s = (some tt, s)
  write_blocks (suc left) logical inode buffer size s =
      let next = write_blocks left (logical + 1) inode buffer size in
      let from = logical * s.block_size in
      let amount = min_u32 (size - from) s.block_size in
      let written : Fallible (Ext2 D) (Unit {0}) = (do
        physical ← block_of k inode logical
        ext2_write_block k physical (block_bytes from amount buffer)
        next) in
      written s

  unfoldable pub ext2_write_file : ℕ → Buffer → ℕ → Fallible (Ext2 D) ℕ
  unfolding ext2_read_inode grow write_blocks ext2_write_inode
  ext2_write_file inode_num buffer size = do
    s ← get_state
    inode ← ext2_read_inode k inode_num
    guard (is_kind kind_reg inode)
    guard (leb (inode_size_of inode) size)
    let old_blocks = block_count_for_size (inode_size_of inode) s
    let new_blocks = block_count_for_size size s
    guard (leb new_blocks (max_blocks s))
    inode' ← grow (new_blocks - old_blocks) old_blocks inode
    write_blocks new_blocks 0 inode' buffer size
    ext2_write_inode k inode_num (sized inode' size new_blocks s)
    as_int size
