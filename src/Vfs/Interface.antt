-- ===== src/Vfs/Interface.antt =====
-- What kernel/vfs.c calls: the accounts, the two file systems, the keyboard, the screen and the
-- disk, over any state of theirs.
use piux_kernel.Prelude.{ℕ, Bool, Option, ℤ, Buffer, CString}

pub record World (F : Type 0) : Type 0 where
  pub auth_current_uid : F → ℕ
  pub ext2_is_mounted : F → Bool
  -- `none` for a negative number.
  pub ext2_find_inode_by_path : CString → F → Option ℕ
  -- The mode and the owner.
  pub ext2_read_inode : ℕ → F → Option (ℕ × ℕ)
  pub ext2_create_file_by_path : CString → F → ℤ × F
  -- The result and the bytes in the buffer.
  pub ext2_read_file_by_path : CString → ℕ → F → ℤ × Buffer
  pub ext2_write_file_by_path : CString → Buffer → ℕ → F → ℤ × F
  pub ramfs_find_file : CString → F → ℤ
  pub ramfs_create_file : CString → F → ℤ × F
  pub ramfs_read_file : CString → ℕ → F → ℤ × Buffer
  pub ramfs_write_file : CString → Buffer → ℕ → F → ℤ × F
  pub keyboard_try_read_char : F → ℤ × F
  pub vga_putc : ℕ → F → F
  -- From a sector, so many sectors, into a buffer; `none` for a negative result.
  pub ata_read_sectors : ℕ → ℕ → Buffer → F → Option Buffer
  pub ata_write_sectors : ℕ → ℕ → Buffer → F → Option F
