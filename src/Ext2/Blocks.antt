-- ===== src/Ext2/Blocks.antt =====
-- The mount, blocks, group descriptors and the super block of kernel/ext2.c.
use piux_kernel.Prelude.{
  ℕ, ◌+◌, ◌-◌, ◌*◌, ◌/◌, ◌%◌, ◌^◌, Bool, true, false, ◌&&◌, ◌||◌, not, ltb, leb, ◌==◌,
  if◌then◌else◌, [], ◌∷◌, Option, none, some, bit_and, Buffer, copy_bytes, Fallible, ◌>>=◌, ◌>>◌,
  pure, get_state, guard,
}
use piux_kernel.Ext2.Disk.{Disk}
use piux_kernel.Ext2.State.{
  Ext2, blocks_count, inodes_count, super_first_data_block, log_block_size, blocks_per_group,
  inodes_per_group, magic, super_inode_size, feature_incompat,
}

abbrev pub min_u32 : ℕ → ℕ → ℕ
min_u32 a b = if ltb a b then a else b

module _ {D : Type 0} where
  abbrev pub block_count_for_size : ℕ → Ext2 D → ℕ
  block_count_for_size size s = (size + s.block_size + 2 ^ 32 - 1) % 2 ^ 32 / s.block_size

  abbrev pub descriptor_block : Ext2 D → ℕ
  descriptor_block s = if s.block_size == 1024 then 2 else 1

  unfoldable pub metadata_block_count : ℕ → Ext2 D → ℕ
  metadata_block_count data_blocks s =
      let pointers = s.block_size / 4 in
      if ltb 12 data_blocks
      then (if ltb (12 + pointers) data_blocks
          then 2 + (data_blocks - 12 - pointers + pointers - 1) / pointers
          else 1)
      else 0

abbrev pub block_size_of : Buffer → ℕ
block_size_of sb = 1024 * 2 ^ log_block_size sb

abbrev pub on_disk_inode_size : Buffer → ℕ
on_disk_inode_size sb = if super_inode_size sb == 0 then 128 else super_inode_size sb

-- The larger of the groups by blocks and the groups by inodes.
abbrev pub group_count_of : Buffer → ℕ
group_count_of sb =
    let by_blocks =
      (blocks_count sb - super_first_data_block sb + blocks_per_group sb - 1)
      % 2 ^ 32
      / blocks_per_group sb in
    let by_inodes = (inodes_count sb + inodes_per_group sb - 1) % 2 ^ 32 / inodes_per_group sb in
    if ltb by_inodes by_blocks then by_blocks else by_inodes

-- The tests before the sizes are taken.
abbrev pub super_ok : Buffer → Bool
super_ok sb =
    magic sb == 0xef53
    && leb (log_block_size sb) 2
    && not (blocks_per_group sb == 0)
    && not (inodes_per_group sb == 0)
    && ltb (super_first_data_block sb) (blocks_count sb)
    && bit_and (feature_incompat sb) 0xfffffffd == 0

abbrev pub sizes_ok : Buffer → Bool
sizes_ok sb =
    leb 128 (on_disk_inode_size sb)
    && leb (on_disk_inode_size sb) (block_size_of sb)
    && block_size_of sb % on_disk_inode_size sb == 0

module _ {D : Type 0} where
  -- `ata_read_sectors` and `ata_write_sectors` on the disk of the state.
  abbrev pub got_sectors : Option Buffer → Fallible (Ext2 D) Buffer
  got_sectors none s = (none, s)
  got_sectors (some b) s = (some b, s)

  abbrev pub put_sectors : Option D → Fallible (Ext2 D) (Unit {0})
  put_sectors none s = (none, s)
  put_sectors (some d) s = (some tt, record s { disk = d })

  -- Where the descriptor of a group is: its block and the offset there.
  abbrev pub descriptor_place : ℕ → Ext2 D → ℕ × ℕ
  descriptor_place group s =
      let byte_offset = group * 32 % 2 ^ 32 in
      (descriptor_block s + byte_offset / s.block_size, byte_offset % s.block_size)

  -- The geometry that a super block gives.
  abbrev pub mounted_with : Buffer → ℕ → ℕ → ℕ → Ext2 D → Ext2 D
  mounted_with sb block_size inode_size group_count s = record s {
    mounted = true;
    superblock = sb;
    block_size = block_size;
    inode_size = inode_size;
    group_count = group_count;
    first_data_block = super_first_data_block sb;
    current_dir_inode = 2;
    current_path = b'~' ∷ [];
  }

  unfoldable pub mount_super : Buffer → Ext2 D → Bool × Ext2 D
  mount_super sb s =
      if not (super_ok sb)
      then (false, record s { superblock = sb })
      else if not (sizes_ok sb)
      then (
        false,
        record s {
          superblock = sb;
          block_size = block_size_of sb;
          inode_size = on_disk_inode_size sb;
        },
      )
      else if group_count_of sb == 0
      then (
        false,
        record s {
          superblock = sb;
          block_size = block_size_of sb;
          inode_size = on_disk_inode_size sb;
          group_count = 0;
        },
      )
      else (true, mounted_with sb (block_size_of sb) (on_disk_inode_size sb) (group_count_of sb) s)

  abbrev pub mount_read : Option Buffer → Ext2 D → Bool × Ext2 D
  mount_read none s = (false, s)
  mount_read (some sb) s = mount_super sb s

module _ {D : Type 0} (k : Disk D) where
  unfoldable pub ext2_read_block : ℕ → Fallible (Ext2 D) Buffer
  ext2_read_block block_num s =
      let sectors = s.block_size / 512 in
      if not s.mounted || leb (blocks_count s.superblock) block_num
      then (none, s)
      else got_sectors (k.ata_read_sectors (block_num * sectors % 2 ^ 32) sectors s.disk) s

  unfoldable pub ext2_write_block : ℕ → Buffer → Fallible (Ext2 D) (Unit {0})
  ext2_write_block block_num b s =
      let sectors = s.block_size / 512 in
      if not s.mounted || leb (blocks_count s.superblock) block_num
      then (none, s)
      else put_sectors (k.ata_write_sectors (block_num * sectors % 2 ^ 32) sectors b s.disk) s

  unfoldable pub read_group_descriptor : ℕ → Fallible (Ext2 D) Buffer
  unfolding ext2_read_block
  read_group_descriptor group = do
    s ← get_state
    guard (ltb group s.group_count)
    let place = descriptor_place group s
    b ← ext2_read_block place.0
    pure (λ i. b (place.1 + i))

  unfoldable pub write_group_descriptor : ℕ → Buffer → Fallible (Ext2 D) (Unit {0})
  unfolding ext2_read_block ext2_write_block
  write_group_descriptor group descriptor = do
    s ← get_state
    guard (ltb group s.group_count)
    let place = descriptor_place group s
    b ← ext2_read_block place.0
    ext2_write_block place.0 (copy_bytes 32 b place.1 descriptor 0)

  -- The super block is the whole of the two sectors.
  unfoldable pub write_superblock : Fallible (Ext2 D) (Unit {0})
  write_superblock = do
    s ← get_state
    b ← got_sectors (k.ata_read_sectors 2 2 s.disk)
    put_sectors (k.ata_write_sectors 2 2 (copy_bytes 1024 b 0 s.superblock 0) s.disk)

  -- Whether the mount succeeds, and the state.
  unfoldable pub ext2_mount : Ext2 D → Bool × Ext2 D
  ext2_mount s =
      let s' = record s { mounted = false; disk = k.ata_init s.disk } in
      mount_read (k.ata_read_sectors 2 2 s'.disk) s'
