-- ===== src/Vfs/Devices.antt =====
-- The devices of kernel/vfs.c.
use piux_kernel.Prelude.{
  ℕ, zero, suc, ◌+◌, ◌*◌, ◌/◌, ◌%◌, ◌^◌, Bool, true, false, ◌&&◌, not, ◌==◌, if◌then◌else◌, [], ◌∷◌,
  Option, none, some, is_negative, nat_part, Buffer, update, CString, codes,
}
use piux_kernel.Vfs.Interface.{World}

-- The rows of `devices`.
pub data Device : Type 0 where
  console keyboard null hda : Device

abbrev pub path_of : Device → CString
path_of console = codes "/dev/console"
path_of keyboard = codes "/dev/keyboard"
path_of null = codes "/dev/null"
path_of hda = codes "/dev/hda"

unfoldable pub path_equals : CString → CString → Bool
path_equals [] [] = true
path_equals [] (b ∷ right) = b == 0
path_equals (a ∷ left) [] = a == 0
path_equals (a ∷ left) (b ∷ right) =
    let rest = path_equals left right in if a == b && not (a == 0) then rest else a == b

unfoldable pub find_device : CString → Option Device
find_device path =
    if path_equals path (path_of console)
    then some console
    else if path_equals path (path_of keyboard)
    then some keyboard
    else if path_equals path (path_of null)
    then some null
    else if path_equals path (path_of hda)
    then some hda
    else none

-- `(size + 511) / 512` in 32 bits.
abbrev pub sectors_of : ℕ → ℕ
sectors_of size = (size + 511) % 2 ^ 32 / 512

module _ {F : Type 0} where
  -- With what the disk gives.
  abbrev pub disk_got : ℕ → F → Option Buffer → Option (ℕ × Buffer × F)
  disk_got size f none = none
  disk_got size f (some buffer) = some (sectors_of size * 512 % 2 ^ 32, buffer, f)

  abbrev pub disk_put : ℕ → Option F → Option (ℕ × F)
  disk_put size none = none
  disk_put size (some f) = some (sectors_of size * 512 % 2 ^ 32, f)

module _ {F : Type 0} (w : World F) where
  -- The loop of `console_read`: the number of characters, the buffer and the state.
  unfoldable pub console_read : ℕ → ℕ → Buffer → F → ℕ × Buffer × F
  console_read zero done buffer f = (done, buffer, f)
  console_read (suc left) done buffer f =
      let (c, f') = w.keyboard_try_read_char f in
      elim (is_negative c) [
        | true ↦ (done, buffer, f')
        | false ↦ console_read left (done + 1) (update buffer done (nat_part c % 2 ^ 8)) f'
      ]

  unfoldable pub console_write : ℕ → ℕ → Buffer → F → F
  console_write zero done buffer f = f
  console_write (suc left) done buffer f =
      console_write left (done + 1) buffer (w.vga_putc (buffer done) f)

  -- The bytes done, the buffer and the state; `none` is -1.
  unfoldable pub disk_read : Buffer → ℕ → ℕ → F → Option (ℕ × Buffer × F)
  disk_read buffer size offset f =
      if not (offset % 512 == 0)
      then none
      else if sectors_of size == 0
      then none
      else disk_got size f (w.ata_read_sectors (offset / 512) (sectors_of size) buffer f)

  unfoldable pub disk_write : Buffer → ℕ → ℕ → F → Option (ℕ × F)
  disk_write buffer size offset f =
      if not (offset % 512 == 0)
      then none
      else if sectors_of size == 0
      then none
      else disk_put size (w.ata_write_sectors (offset / 512) (sectors_of size) buffer f)

  -- `device->read`.
  unfoldable pub device_read : Device → Buffer → ℕ → ℕ → F → Option (ℕ × Buffer × F)
  device_read console buffer size offset f = some (console_read size 0 buffer f)
  device_read keyboard buffer size offset f = some (console_read size 0 buffer f)
  device_read null buffer size offset f = some (0, buffer, f)
  device_read hda buffer size offset f = disk_read buffer size offset f

  -- `device->write`, which the keyboard has not.
  unfoldable pub device_write : Device → Buffer → ℕ → ℕ → F → Option (ℕ × F)
  device_write console buffer size offset f = some (size, console_write size 0 buffer f)
  device_write keyboard buffer size offset f = none
  device_write null buffer size offset f = some (size, f)
  device_write hda buffer size offset f = disk_write buffer size offset f
