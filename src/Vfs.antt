-- ===== src/Vfs.antt =====
-- kernel/vfs.c and kernel/vfs.h: descriptors over the devices and the two file systems, which are
-- an argument.
pub mod Interface
pub mod Devices
pub mod Table
pub mod Open
pub mod Inv
pub mod Files
mod Tests
use piux_kernel.Prelude.{
  ℕ, zero, suc, ◌+◌, ◌-◌, ◌*◌, ◌/◌, ◌%◌, ◌^◌, Bool, true, false, ◌&&◌, ◌||◌, not, ltb, leb, ◌==◌,
  if◌then◌else◌, List, [], ◌∷◌, Option, none, some, bit_and, ℤ, pos, negsuc, minus_one, is_negative,
  nat_part, get_or, set, take, Buffer, copy_bytes, CString, codes, replicate,
}
use Interface.{World}
use Devices.{
  Device, console, keyboard, null, hda, path_equals, find_device, device_read, device_write,
}

-- `vfs_node_type_t`.
pub data NodeType : Type 0 where
  file directory char block : NodeType

-- `vfs_fd_t`.
pub record Descriptor : Type 0 where
  pub used : Bool
  pub flags : ℕ
  pub offset : ℕ
  pub path : CString

pub record Vfs (F : Type 0) : Type 0 where
  pub descriptors : List Descriptor
  pub world : F

abbrev pub vfs_max_fds : ℕ
vfs_max_fds = 32

abbrev pub unused : Descriptor
unused = record { used = false; flags = 0; offset = 0; path = [] }

abbrev pub descriptor_at : List Descriptor → ℕ → Descriptor
descriptor_at ds fd = get_or ds fd unused

-- `flags & bit`.
abbrev pub has : ℕ → ℕ → Bool
has flags bit = not (bit_and flags bit == 0)

-- `copy_path`: at most 255 characters.
abbrev pub copy_path : CString → CString
copy_path source = take 255 source

-- `(int)done`.
abbrev pub int32 : ℕ → ℤ
int32 n = if ltb n (2 ^ 31) then pos n else negsuc (2 ^ 32 - 1 - n)

-- The tests at the end of `has_permission`.
unfoldable pub mode_allows : ℕ → ℕ → Bool → Bool
mode_allows flags mode owner =
    if owner
    then (not (has flags 1) || has mode 0x100) && (not (has flags 2) || has mode 0x80)
    else (not (has flags 1) || has mode 4) && (not (has flags 2) || has mode 2)

-- The first free descriptor, of so many from one on.
unfoldable pub free_from : ℕ → ℕ → List Descriptor → Option ℕ
free_from zero fd ds = none
free_from (suc left) fd ds =
    let rest = free_from left (fd + 1) ds in if (descriptor_at ds fd).used then rest else some fd

abbrev pub standard : ℕ → Descriptor
standard flags = record { used = true; flags = flags; offset = 0; path = codes "/dev/console" }

-- On the static descriptors, which hold 0 before the first call.
unfoldable pub vfs_init : {F : Type 0} → F → Vfs F
vfs_init f = record {
  descriptors = standard 1 ∷ standard 2 ∷ standard 2 ∷ replicate 29 unused;
  world = f;
}

abbrev pub is_some : {A : Type 0} → Option A → Bool
is_some none = false
is_some (some a) = true

abbrev pub type_of : Device → NodeType
type_of hda = block
type_of _ = char

abbrev pub node_of : Option Device → Bool → NodeType
node_of (some device) is_dir = type_of device
node_of none is_dir = if is_dir then directory else file

-- `descriptors[fd].offset += done`.
abbrev pub move_on : ℕ → ℕ → List Descriptor → List Descriptor
move_on fd done ds =
    let d = descriptor_at ds fd in set ds fd (record d { offset = (d.offset + done) % 2 ^ 32 })

module _ {F : Type 0} where
  -- The loop of `vfs_open`.
  unfoldable pub open_at : Option ℕ → CString → ℕ → List Descriptor → F → ℤ × Vfs F
  open_at none path flags ds f = (minus_one, record { descriptors = ds; world = f })
  open_at (some fd) path flags ds f = (
    pos fd,
    record {
      descriptors =
          set ds fd (record { used = true; flags = flags; offset = 0; path = copy_path path });
      world = f;
    },
  )

  -- With what a device gives.
  unfoldable pub end_read : ℕ → Buffer → Vfs F → Option (ℕ × Buffer × F) → ℤ × Buffer × Vfs F
  end_read fd buffer v none = (minus_one, buffer, v)
  end_read fd buffer v (some (done, buffer', f)) =
      (int32 done, buffer', record { descriptors = move_on fd done v.descriptors; world = f })

  unfoldable pub end_write : ℕ → Vfs F → Option (ℕ × F) → ℤ × Vfs F
  end_write fd v none = (minus_one, v)
  end_write fd v (some (done, f)) =
      (int32 done, record { descriptors = move_on fd done v.descriptors; world = f })

  unfoldable pub vfs_close : ℤ → Vfs F → ℤ × Vfs F
  vfs_close (negsuc n) v = (minus_one, v)
  vfs_close (pos fd) v =
      let d = descriptor_at v.descriptors fd in
      if ltb fd 3 || leb vfs_max_fds fd || not d.used
      then (minus_one, v)
      else (pos 0, record v { descriptors = set v.descriptors fd (record d { used = false }) })

  unfoldable pub vfs_seek : ℤ → ℕ → Vfs F → ℤ × Vfs F
  vfs_seek (negsuc n) offset v = (minus_one, v)
  vfs_seek (pos fd) offset v =
      let d = descriptor_at v.descriptors fd in
      if leb vfs_max_fds fd || not d.used
      then (minus_one, v)
      else (pos 0, record v { descriptors = set v.descriptors fd (record d { offset = offset }) })

module _ {F : Type 0} (w : World F) where
  -- With the mode and the owner of the inode, if it can be read.
  abbrev pub by_inode : ℕ → F → Option (ℕ × ℕ) → Bool
  by_inode flags f none = mode_allows flags 0x1a4 true
  by_inode flags f (some (mode, uid)) =
      mode_allows flags (bit_and mode 0x1ff) (uid == w.auth_current_uid f)

  -- With the number of the inode, if the path has one.
  abbrev pub by_number : ℕ → F → Option ℕ → Bool
  by_number flags f none = false
  by_number flags f (some inode) = by_inode flags f (w.ext2_read_inode inode f)

  unfoldable pub has_permission : CString → ℕ → F → Bool
  has_permission path flags f =
      if w.auth_current_uid f == 0
      then true
      else if w.ext2_is_mounted f
      then by_number flags f (w.ext2_find_inode_by_path path f)
      else mode_allows flags 0x1a4 true

  -- `regular_file`.
  unfoldable pub is_regular : CString → F → Bool
  is_regular path f =
      if w.ext2_is_mounted f
      then is_some (w.ext2_find_inode_by_path path f)
      else not (is_negative (w.ramfs_find_file path f))

  unfoldable pub create_file : CString → F → ℤ × F
  create_file path f =
      if w.ext2_is_mounted f then w.ext2_create_file_by_path path f else w.ramfs_create_file path f

  -- Behind the creation of the file.
  unfoldable pub open_existing : CString → ℕ → List Descriptor → F → ℤ × Vfs F
  open_existing path flags ds f =
      if has_permission path flags f
      then open_at (free_from (vfs_max_fds - 3) 3 ds) path flags ds f
      else (minus_one, record { descriptors = ds; world = f })

  unfoldable pub vfs_open : CString → ℕ → Vfs F → ℤ × Vfs F
  vfs_open path flags v =
      let (created, f) = create_file path v.world in
      if is_some (find_device path) || is_regular path v.world
      then open_existing path flags v.descriptors v.world
      else if not (has flags 4)
      then (minus_one, v)
      else if is_negative created
      then (minus_one, record v { world = f })
      else open_existing path flags v.descriptors f

  abbrev pub read_file : CString → F → ℤ × Buffer
  read_file path f =
      if w.ext2_is_mounted f
      then w.ext2_read_file_by_path path 8192 f
      else w.ramfs_read_file path 8192 f

  abbrev pub write_file : CString → Buffer → ℕ → F → ℤ × F
  write_file path bytes size f =
      if w.ext2_is_mounted f
      then w.ext2_write_file_by_path path bytes size f
      else w.ramfs_write_file path bytes size f

  -- The result of a file system is 0 here, whatever was read.
  unfoldable pub read_regular : ℕ → Buffer → ℕ → Vfs F → ℤ × Buffer × Vfs F
  read_regular fd buffer size v =
      let d = descriptor_at v.descriptors fd in
      let (file_size, content) = read_file d.path v.world in
      let done = nat_part file_size - d.offset in
      let count = if ltb size done then size else done in
      if is_negative file_size || leb (nat_part file_size) d.offset then (pos 0, buffer, v) else (
        pos 0,
        copy_bytes count buffer 0 content d.offset,
        record v { descriptors = move_on fd 0 v.descriptors },
      )

  unfoldable pub read_from : Option Device → ℕ → Buffer → ℕ → Vfs F → ℤ × Buffer × Vfs F
  read_from none fd buffer size v = read_regular fd buffer size v
  read_from (some device) fd buffer size v =
      end_read fd buffer v
        (device_read w device buffer size (descriptor_at v.descriptors fd).offset v.world)

  unfoldable pub vfs_read : ℤ → Buffer → ℕ → Vfs F → ℤ × Buffer × Vfs F
  vfs_read (negsuc n) buffer size v = (minus_one, buffer, v)
  vfs_read (pos fd) buffer size v =
      let d = descriptor_at v.descriptors fd in
      if leb vfs_max_fds fd || not d.used || not (has d.flags 1)
      then (minus_one, buffer, v)
      else read_from (find_device d.path) fd buffer size v

  unfoldable pub write_regular : ℕ → Buffer → ℕ → Vfs F → ℤ × Vfs F
  write_regular fd bytes size v =
      let d = descriptor_at v.descriptors fd in
      let (result, f) = write_file d.path bytes size v.world in
      if not (d.offset == 0)
      then (minus_one, v)
      else if is_negative result
      then (result, record v { world = f })
      else (result, record { descriptors = move_on fd (nat_part result) v.descriptors; world = f })

  unfoldable pub write_to : Option Device → ℕ → Buffer → ℕ → Vfs F → ℤ × Vfs F
  write_to none fd bytes size v = write_regular fd bytes size v
  write_to (some device) fd bytes size v =
      end_write fd v
        (device_write w device bytes size (descriptor_at v.descriptors fd).offset v.world)

  unfoldable pub vfs_write : ℤ → Buffer → ℕ → Vfs F → ℤ × Vfs F
  vfs_write (negsuc n) bytes size v = (minus_one, v)
  vfs_write (pos fd) bytes size v =
      let d = descriptor_at v.descriptors fd in
      if leb vfs_max_fds fd || not d.used || not (has d.flags 2)
      then (minus_one, v)
      else write_to (find_device d.path) fd bytes size v

  abbrev pub is_directory : CString → F → Bool
  is_directory path f =
      path_equals path (codes "/dev") || is_some (w.ext2_find_inode_by_path path f)

  abbrev pub vfs_node_type : CString → F → NodeType
  vfs_node_type path f = node_of (find_device path) (is_directory path f)
