-- ===== src/Ext2/Geometry.antt =====
-- What a mount of kernel/ext2.c accepts, and blocks that are written and read.
use piux_kernel.Prelude.{
  ℕ, zero, suc, ◌*◌, ◌/◌, ◌%◌, ◌^◌, ◌<◌, ◌≤◌, ◌≡◌, ◌≢◌, ◌⊎◌, inl, inr, refl, true, false, Option,
  none, some, Buffer, arith, Bool-cases,
}
use piux_kernel.Ext2.Disk.{Disk}
use piux_kernel.Ext2.State.{Ext2, blocks_count, log_block_size, blocks_per_group, inodes_per_group}
use piux_kernel.Ext2.Blocks.{
  super_ok, sizes_ok, block_size_of, on_disk_inode_size, group_count_of, mount_super, mount_read,
  mounted_with, ext2_mount,
}

-- What every function of the file relies on.
pub record IsMounted {D : Type 0} (s : Ext2 D) : Type 0 where
  pub mounted : s.mounted ≡ true
  pub block_sizes : (s.block_size ≡ 1024) ⊎ (s.block_size ≡ 2048) ⊎ (s.block_size ≡ 4096)
  pub inode_lo : 128 ≤ s.inode_size
  pub inode_hi : s.inode_size ≤ s.block_size
  pub inode_fits : s.block_size % s.inode_size ≡ 0
  pub groups : 0 < s.group_count
  pub blocks : s.first_data_block < blocks_count s.superblock
  pub per_group : 0 < blocks_per_group s.superblock
  pub inodes : 0 < inodes_per_group s.superblock

abbrev IsWhole : ℕ → Type 0
IsWhole size = (size / 512 * 512 ≡ size) × ((size / 512 ≡ 2) ⊎ (size / 512 ≡ 4) ⊎ (size / 512 ≡ 8))

sizes : (n : ℕ) → n ≤ 2 → (1024 * 2 ^ n ≡ 1024) ⊎ (1024 * 2 ^ n ≡ 2048) ⊎ (1024 * 2 ^ n ≡ 4096)
sizes zero h = inl refl
sizes (suc zero) h = inr (inl refl)
sizes (suc (suc zero)) h = inr (inr refl)
sizes (suc (suc (suc n))) h = absurd (omega arith)

module _ {D : Type 0} where
  refused :
      (sb : Buffer) (s : Ext2 D)
      → s.mounted ≡ false
      → (mount_super sb s).0 ≡ false
      → (mount_super sb s).1.mounted ≡ false
  unfolding mount_super
  refused sb s m h = ground arith

  accepted :
      (sb : Buffer) (s : Ext2 D)
      → (mount_super sb s).0 ≡ true
      → (super_ok sb ≡ true)
        × (sizes_ok sb ≡ true)
        × (group_count_of sb ≢ 0)
        × ((mount_super sb s).1
            ≡ mounted_with sb (block_size_of sb) (on_disk_inode_size sb) (group_count_of sb) s)
  unfolding mount_super
  accepted sb s h = ground arith

  with-IsMounted :
      (sb : Buffer) (s : Ext2 D)
      → super_ok sb ≡ true
      → sizes_ok sb ≡ true
      → group_count_of sb ≢ 0
      → IsMounted (mounted_with sb (block_size_of sb) (on_disk_inode_size sb) (group_count_of sb) s)
  with-IsMounted sb s h k g = record {
    mounted = refl;
    block_sizes = sizes (log_block_size sb) (ground arith);
    inode_lo = ground arith;
    inode_hi = ground arith;
    inode_fits = ground arith;
    groups = ground arith;
    blocks = ground arith;
    per_group = ground arith;
    inodes = ground arith;
  }

module _ {D : Type 0} (k : Disk D) where
  -- A mount that succeeds leaves the file system mounted with a block size of 1024, 2048 or 4096,
  -- inodes of at least 128 bytes that divide a block, at least one group, a first data block
  -- inside the disk, and no group empty; a mount that fails leaves it not mounted.
  pub mount-IsMounted :
      (s : Ext2 D)
      → let (ok, s') = ext2_mount k s in
        ((ok ≡ true) × IsMounted s') ⊎ ((ok ≡ false) × (s'.mounted ≡ false))
  unfolding ext2_mount
  mount-IsMounted s = by_read (k.ata_read_sectors 2 2 (k.ata_init s.disk))
    where
      start : Ext2 D
      start = record s { mounted = false; disk = k.ata_init s.disk }

      by_super :
          (sb : Buffer)
          → let (ok, s') = mount_super sb start in
            ((ok ≡ true) × IsMounted s') ⊎ ((ok ≡ false) × (s'.mounted ≡ false))
      by_super sb = elim (Bool-cases (mount_super sb start).0) [
        | inl e ↦
            let (good, fit, some_group, same) = accepted sb start e in
            inl (e, rw same (with-IsMounted sb start good fit some_group))
        | inr e ↦ inr (e, refused sb start refl e)
      ]

      by_read :
          (r : Option Buffer)
          → let (ok, s') = mount_read r start in
            ((ok ≡ true) × IsMounted s') ⊎ ((ok ≡ false) × (s'.mounted ≡ false))
      by_read none = inr (refl, refl)
      by_read (some sb) = by_super sb

  -- The driver can address the sectors of every block.
  abbrev pub IsAddressable : Ext2 D → Type 0
  IsAddressable s = blocks_count s.superblock * 8 ≤ 2 ^ 28
