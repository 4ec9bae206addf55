-- ===== src/Ext2/Bitmaps.antt =====
-- The bitmaps of kernel/ext2.c: blocks and inodes are taken and given back.
use piux_kernel.Prelude.{
  ℕ, zero, suc, ◌+◌, ◌-◌, ◌*◌, ◌/◌, ◌%◌, ◌^◌, Bool, true, false, ◌||◌, not, ltb, leb, ◌==◌,
  if◌then◌else◌, Option, none, some, Buffer, update, put16, put32, load16, load32, bit_and, bit_or,
  Fallible, ◌>>=◌, ◌>>◌, pure, get_state,
}
use piux_kernel.Ext2.Disk.{Disk}
use piux_kernel.Ext2.State.{
  Ext2, blocks_count, inodes_count, blocks_per_group, inodes_per_group, first_ino, block_bitmap,
  inode_bitmap, group_free_blocks, group_free_inodes, super_free_blocks, super_free_inodes,
  no_bytes,
}
use piux_kernel.Ext2.Blocks.{
  ext2_read_block, ext2_write_block, read_group_descriptor, write_group_descriptor,
  write_superblock,
}

-- `block_buffer[bit / 8] & (1U << (bit % 8))`.
abbrev pub bit_is_set : Buffer → ℕ → Bool
bit_is_set b bit = not (bit_and (b (bit / 8)) (2 ^ (bit % 8)) == 0)

abbrev pub set_bit : Buffer → ℕ → Buffer
set_bit b bit = update b (bit / 8) (bit_or (b (bit / 8)) (2 ^ (bit % 8)))

abbrev pub clear_bit : Buffer → ℕ → Buffer
clear_bit b bit = update b (bit / 8) (bit_and (b (bit / 8)) (255 - 2 ^ (bit % 8)))

-- The loop over the bits of a group, with the bits left.
unfoldable pub first_clear : ℕ → ℕ → Buffer → Option ℕ
first_clear zero bit b = none
first_clear (suc left) bit b =
    let rest = first_clear left (bit + 1) b in if bit_is_set b bit then rest else some bit

-- A counter of 16 bits or of 32 bits in a structure, one up or one down.
abbrev pub count_down16 : Buffer → ℕ → Buffer
count_down16 b o = put16 b o ((load16 b o + 2 ^ 16 - 1) % 2 ^ 16)

abbrev pub count_up16 : Buffer → ℕ → Buffer
count_up16 b o = put16 b o ((load16 b o + 1) % 2 ^ 16)

abbrev pub count_down32 : Buffer → ℕ → Buffer
count_down32 b o = put32 b o ((load32 b o + 2 ^ 32 - 1) % 2 ^ 32)

abbrev pub count_up32 : Buffer → ℕ → Buffer
count_up32 b o = put32 b o ((load32 b o + 1) % 2 ^ 32)

module _ {D : Type 0} where
  abbrev pub first_block : ℕ → Ext2 D → ℕ
  first_block group s = (s.first_data_block + group * blocks_per_group s.superblock) % 2 ^ 32

  -- The blocks of a group; the last one may be shorter.
  abbrev pub blocks_of_group : ℕ → Ext2 D → ℕ
  blocks_of_group group s =
      let first = first_block group s in
      let per_group = blocks_per_group s.superblock in
      if ltb (blocks_count s.superblock) ((first + per_group) % 2 ^ 32)
      then blocks_count s.superblock - first
      else per_group

  abbrev pub first_inode : ℕ → Ext2 D → ℕ
  first_inode group s = group * inodes_per_group s.superblock % 2 ^ 32

  abbrev pub inodes_of_group : ℕ → Ext2 D → ℕ
  inodes_of_group group s =
      let first = first_inode group s in
      let per_group = inodes_per_group s.superblock in
      if ltb (inodes_count s.superblock) ((first + per_group) % 2 ^ 32)
      then inodes_count s.superblock - first
      else per_group

  -- The reserved inodes at the start of a group are skipped.
  abbrev pub first_free_bit : ℕ → Ext2 D → ℕ
  first_free_bit group s =
      let first = first_inode group s in
      if ltb first (first_ino s.superblock) then first_ino s.superblock - first - 1 else 0

  abbrev pub change_super : (Buffer → Buffer) → Fallible (Ext2 D) (Unit {0})
  change_super f s = (some tt, record s { superblock = f s.superblock })

module _ {D : Type 0} where
  -- With the first clear bit of the group, or the next groups.
  abbrev pub take_or :
      (ℕ → Fallible (Ext2 D) ℕ) → Fallible (Ext2 D) ℕ → Option ℕ → Fallible (Ext2 D) ℕ
  take_or take next none = next
  take_or take next (some bit) = take bit

  -- With the descriptor of the group, if it can be read and has a free block or inode.
  abbrev pub search_group :
      (Buffer → Fallible (Ext2 D) ℕ) → Fallible (Ext2 D) ℕ → ℕ → Option Buffer → Fallible (Ext2 D) ℕ
  search_group search next counter none = next
  search_group search next counter (some descriptor) =
      if load16 descriptor counter == 0 then next else search descriptor

module _ {D : Type 0} (k : Disk D) where
  -- The bitmap is written, and then the counters of the group and of the file system.
  unfoldable pub write_counts :
      ℕ → ℕ → Buffer → Buffer → (Buffer → Buffer) → Fallible (Ext2 D) (Unit {0})
  unfolding ext2_write_block write_group_descriptor write_superblock
  write_counts group bitmap_block bitmap descriptor count_super = do
    ext2_write_block k bitmap_block bitmap
    change_super count_super
    write_group_descriptor k group descriptor
    write_superblock k

  -- A clear bit of the bitmap is found.
  unfoldable pub take_block : ℕ → Buffer → Buffer → ℕ → Fallible (Ext2 D) ℕ
  unfolding write_counts ext2_write_block
  take_block group descriptor bitmap bit = do
    s ← get_state
    let result = first_block group s + bit
    write_counts group (block_bitmap descriptor) (set_bit bitmap bit)
        (count_down16 descriptor group_free_blocks) (λ sb. count_down32 sb super_free_blocks)
    ext2_write_block k result no_bytes
    pure result

  unfoldable pub take_inode : ℕ → Buffer → Buffer → ℕ → Fallible (Ext2 D) ℕ
  unfolding write_counts
  take_inode group descriptor bitmap bit = do
    s ← get_state
    write_counts group (inode_bitmap descriptor) (set_bit bitmap bit)
        (count_down16 descriptor group_free_inodes) (λ sb. count_down32 sb super_free_inodes)
    pure (first_inode group s + bit + 1)

  unfoldable pub search_blocks : ℕ → Fallible (Ext2 D) ℕ → Buffer → Fallible (Ext2 D) ℕ
  unfolding ext2_read_block take_block
  search_blocks group next descriptor = do
    s ← get_state
    bitmap ← ext2_read_block k (block_bitmap descriptor)
    take_or (take_block group descriptor bitmap) next
        (first_clear (blocks_of_group group s) 0 bitmap)

  -- With the groups left.
  unfoldable pub allocate_block_from : ℕ → ℕ → Fallible (Ext2 D) ℕ
  allocate_block_from zero group s = (none, s)
  allocate_block_from (suc left) group s =
      let next = allocate_block_from left (group + 1) in
      let (descriptor, s') = read_group_descriptor k group s in
      elim (leb (blocks_count s.superblock) (first_block group s)) [
        | true ↦ next s
        | false ↦ search_group (search_blocks group next) next group_free_blocks descriptor s'
      ]

  unfoldable pub allocate_block : Fallible (Ext2 D) ℕ
  allocate_block s = allocate_block_from s.group_count 0 s

  unfoldable pub search_inodes : ℕ → Fallible (Ext2 D) ℕ → Buffer → Fallible (Ext2 D) ℕ
  unfolding ext2_read_block take_inode
  search_inodes group next descriptor = do
    s ← get_state
    bitmap ← ext2_read_block k (inode_bitmap descriptor)
    take_or (take_inode group descriptor bitmap) next (
        first_clear (inodes_of_group group s - first_free_bit group s) (first_free_bit group s)
          bitmap)

  unfoldable pub allocate_inode_from : ℕ → ℕ → Fallible (Ext2 D) ℕ
  allocate_inode_from zero group s = (none, s)
  allocate_inode_from (suc left) group s =
      let next = allocate_inode_from left (group + 1) in
      let (descriptor, s') = read_group_descriptor k group s in
      elim (leb (inodes_count s.superblock) (first_inode group s)) [
        | true ↦ next s
        | false ↦ search_group (search_inodes group next) next group_free_inodes descriptor s'
      ]

  unfoldable pub allocate_inode : Fallible (Ext2 D) ℕ
  allocate_inode s = allocate_inode_from s.group_count 0 s

  -- The block is in this group.
  unfoldable pub give_block : ℕ → ℕ → Fallible (Ext2 D) (Unit {0})
  unfolding read_group_descriptor ext2_read_block write_counts
  give_block group block_num = do
    s ← get_state
    descriptor ← read_group_descriptor k group
    bitmap ← ext2_read_block k (block_bitmap descriptor)
    write_counts group (block_bitmap descriptor)
        (clear_bit bitmap (block_num - first_block group s))
        (count_up16 descriptor group_free_blocks) (λ sb. count_up32 sb super_free_blocks)

  unfoldable pub free_block_from : ℕ → ℕ → ℕ → Fallible (Ext2 D) (Unit {0})
  free_block_from zero group block_num s = (none, s)
  free_block_from (suc left) group block_num s =
      let next = free_block_from left (group + 1) block_num in
      let first = first_block group s in
      elim (leb (blocks_count s.superblock) first
        || ltb block_num first
        || leb ((first + blocks_of_group group s) % 2 ^ 32) block_num) [
          | true ↦ next s
          | false ↦ give_block group block_num s
        ]

  unfoldable pub free_block : ℕ → Fallible (Ext2 D) (Unit {0})
  free_block block_num s = free_block_from s.group_count 0 block_num s

  unfoldable pub free_inode : ℕ → Fallible (Ext2 D) (Unit {0})
  unfolding read_group_descriptor ext2_read_block write_counts
  free_inode inode_num = do
    s ← get_state
    let group = (inode_num - 1) / inodes_per_group s.superblock
    let index = (inode_num - 1) % inodes_per_group s.superblock
    descriptor ← read_group_descriptor k group
    bitmap ← ext2_read_block k (inode_bitmap descriptor)
    write_counts group (inode_bitmap descriptor) (clear_bit bitmap index)
        (count_up16 descriptor group_free_inodes) (λ sb. count_up32 sb super_free_inodes)
