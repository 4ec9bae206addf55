-- ===== src/Vfs/Files.antt =====
-- What `vfs_read` and `vfs_open` of kernel/vfs.c return for files and devices.
use piux_kernel.Prelude.{
  ℕ, ◌+◌, ◌*◌, ◌/◌, ◌%◌, ◌^◌, ◌<◌, ◌≤◌, ◌≡◌, ◌≢◌, ap, true, ◌&&◌, not, ltb, if◌then◌else◌, Option,
  none, some, ℤ, pos, minus_one, is_negative, nat_part, Buffer, CString, arith,
}
use piux_kernel.Vfs.Interface.{World}
use piux_kernel.Vfs.Devices.{hda, find_device, device_read, sectors_of, disk_read, disk_got}
use piux_kernel.Vfs.{
  Vfs, descriptor_at, has_permission, open_existing, vfs_open, is_some, read_file,
}

module _ {F : Type 0} (w : World F) where
  -- The bytes that a read of a file stores.
  abbrev pub content_read : ℤ × Buffer → ℕ → Buffer → ℕ → Buffer
  content_read (file_size, content) offset buffer size i =
      if not (is_negative file_size) && ltb i size && ltb (offset + i) (nat_part file_size)
      then content (offset + i)
      else buffer i

  -- What one read does: the result, the state, and the bytes stored.
  abbrev pub ReadsNothing : ℕ → Buffer → ℕ → Vfs F → ℤ × Buffer × Vfs F → Type 0
  ReadsNothing fd buffer size v (r, out, v') =
      let d = descriptor_at v.descriptors fd in
      (r ≡ pos 0)
      × (v' ≡ v)
      × ((i : ℕ) → out i ≡ content_read (read_file w d.path v.world) d.offset buffer size i)

  abbrev count_of : Option (ℕ × Buffer × F) → ℕ
  count_of none = 0
  count_of (some r) = r.0

  whole_sectors :
      (size : ℕ)
      → size + 511 < 2 ^ 32
      → let n = sectors_of size * 512 % 2 ^ 32 in (size ≤ n) × (n < size + 512) × (n % 512 ≡ 0)
  whole_sectors size h = (omega arith, omega arith, omega arith)

  disk_count :
      (size offset : ℕ) (f : F) (got : Option Buffer) (r : ℕ × Buffer × F)
      → size + 511 < 2 ^ 32
      → disk_got size f got ≡ some r
      → (size ≤ r.0) × (r.0 < size + 512) × (r.0 % 512 ≡ 0)
  disk_count size offset f none r h e = ground arith
  disk_count size offset f (some b) r h e = rw (← ap count_of e) (whole_sectors size h)

  -- A read of the disk that succeeds stores and reports whole sectors: as many bytes as asked for,
  -- rounded up to a multiple of 512, and so up to 511 bytes more than the caller has room for.
  pub disk_read_rounds :
      (buffer : Buffer) (size offset : ℕ) (f : F) (r : ℕ × Buffer × F)
      → size + 511 < 2 ^ 32
      → device_read w hda buffer size offset f ≡ some r
      → (size ≤ r.0) × (r.0 < size + 512) × (r.0 % 512 ≡ 0)
  unfolding device_read disk_read
  disk_read_rounds buffer size offset f r h e = ground (
    arith,
    disk_count size offset f (w.ata_read_sectors (offset / 512) (sectors_of size) buffer f) r h,
  )

  -- With ext2 mounted, a user other than root cannot open a path that has no inode there and is a
  -- device's: the result is -1 with any flags, and nothing changes.
  pub device_denied :
      (path : CString) (flags : ℕ) (v : Vfs F)
      → is_some (find_device path) ≡ true
      → w.ext2_is_mounted v.world ≡ true
      → w.auth_current_uid v.world ≢ 0
      → w.ext2_find_inode_by_path path v.world ≡ none
      → vfs_open w path flags v ≡ (minus_one, v)
  unfolding vfs_open open_existing has_permission
  device_denied path flags v device mounted user inode = rw (device, mounted, inode) (ground arith)
