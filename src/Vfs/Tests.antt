-- ===== src/Vfs/Tests.antt =====
-- Runs of kernel/vfs.c over a small world: one file, `a`, of three bytes in the store in memory.
use piux_kernel.Prelude.{
  ℕ, ◌+◌, ◌≡◌, refl, true, [], ◌∷◌, none, some, pos, minus_one, codes, length, replicate, ◌==◌,
}
use piux_kernel.Vfs.Interface.{World}
use piux_kernel.Vfs.Devices.{path_equals, find_device}
use piux_kernel.Vfs.{
  Vfs, vfs_init, vfs_open, vfs_close, descriptor_at, unused, is_regular, open_existing,
  has_permission, free_from, open_at,
}
use piux_kernel.Vfs.Inv.{IsValid, open_path, close, seek, apply_calls, apply_calls-IsValid}
use piux_kernel.Vfs.Open.{Takes, open-Takes, open-close}

-- The state is the number of the user; with user 7 ext2 is mounted, and empty.
abbrev small : World ℕ
small = record {
  auth_current_uid = λ f. f;
  ext2_is_mounted = λ f. f == 7;
  ext2_find_inode_by_path = λ path f. none;
  ext2_read_inode = λ i f. none;
  ext2_create_file_by_path = λ path f. (minus_one, f);
  ext2_read_file_by_path = λ path n f. (minus_one, λ _. 0);
  ext2_write_file_by_path = λ path b n f. (minus_one, f);
  ramfs_find_file = λ path f. pos 0;
  ramfs_create_file = λ path f. (pos 0, f);
  ramfs_read_file = λ path n f. (pos 3, λ i. i + 65);
  ramfs_write_file = λ path b n f. (pos n, f);
  keyboard_try_read_char = λ f. (minus_one, f);
  vga_putc = λ c f. f;
  ata_read_sectors = λ s n b f. some (λ i. s);
  ata_write_sectors = λ s n b f. some f;
}

apply_calls-IsValid_example :
    IsValid (
      apply_calls small
        (open_path (codes "a") 1 ∷ close (pos 0) ∷ seek (pos 3) 2 ∷ [])
        (vfs_init 0))
apply_calls-IsValid_example =
    apply_calls-IsValid small (open_path (codes "a") 1 ∷ close (pos 0) ∷ seek (pos 3) 2 ∷ []) 0

open-Takes_example : Takes (codes "a") 1 (vfs_init 0) (vfs_open small (codes "a") 1 (vfs_init 0))
open-Takes_example = open-Takes small (codes "a") 1 (vfs_init 0)

run_open : (vfs_open small (codes "a") 1 (vfs_init 0)).0 ≡ pos 3
unfolding vfs_open vfs_init find_device path_equals is_regular open_existing has_permission
    free_from open_at
run_open = refl

start_size : length (vfs_init {F = ℕ} 0).descriptors ≡ 32
unfolding vfs_init
start_size = refl

open-close_example :
    let (r, v'') = vfs_close (pos 3) (vfs_open small (codes "a") 1 (vfs_init 0)).1 in
    (r ≡ pos 0)
    × ((j : ℕ)
        → (descriptor_at v''.descriptors j).used
          ≡ (descriptor_at (vfs_init {F = ℕ} 0).descriptors j).used)
open-close_example = open-close small (codes "a") 1 3 (vfs_init 0) start_size run_open

-- The file is descriptor 0, read up to its second byte.
abbrev reading : Vfs ℕ
reading = record {
  descriptors =
      record { used = true; flags = 1; offset = 1; path = codes "a" } ∷ replicate 31 unused;
  world = 0;
}
