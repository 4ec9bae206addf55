-- ===== src/Ext2/Tests.antt =====
-- Runs of kernel/ext2.c on a disk in memory.
use piux_kernel.Prelude.{
  ℕ, ◌+◌, ◌-◌, ◌*◌, ◌%◌, ◌^◌, ◌<◌, ◌≤◌, ◌≡◌, ◌⊎◌, inl, refl, leb→le, true, false, ◌&&◌, ltb, leb,
  ◌==◌, if◌then◌else◌, [], ◌∷◌, none, some, length, Buffer, AreBytes, copy_bytes, CString, update,
  put16, put32, arith,
}
use piux_kernel.Ext2.Disk.{Disk}
use piux_kernel.Ext2.State.{Ext2, no_bytes, inode_size_of}
use piux_kernel.Ext2.Blocks.{
  min_u32, read_group_descriptor, ext2_mount, mount_super, ext2_read_block,
}
use piux_kernel.Ext2.Inodes.{ext2_read_inode, read_inode_bytes, read_inode_rest, inode_of}
use piux_kernel.Ext2.Files.{ext2_read_file}
use piux_kernel.Ext2.Reading.{file_byte, read_file-GivesFile}
use piux_kernel.Ext2.Bitmaps.{first_clear, set_bit, clear_bit, bit_is_set}
use piux_kernel.Ext2.Names.{split_parent_path, name_length, name_equal, last_slash}
use piux_kernel.Ext2.Entries.{find_entry, add_entry, put_text, put_entry, split_entry}
use piux_kernel.Ext2.Geometry.{IsMounted, mount-IsMounted}
use piux_kernel.Ext2.Bits.{IsFirstClear, bitmap_take}
use piux_kernel.Ext2.Lookup.{IsName}
use piux_kernel.Ext2.Search.{Run, find_entry-Run}
use piux_kernel.Ext2.Added.{add-find}
use piux_kernel.Ext2.Paths.{NoSlash, Rejoins, split-join}

-- A disk whose bytes are in memory.
abbrev memory_disk : Disk Buffer
memory_disk = record {
  ata_init = λ d. d;
  ata_read_sectors =
      λ sector sectors d. some (λ i. if ltb i (sectors * 512) then d (sector * 512 + i) else 0);
  ata_write_sectors = λ sector sectors b d. some (λ i.
      if leb (sector * 512) i && ltb i (sector * 512 + sectors * 512)
      then b (i - sector * 512)
      else d i);
}

-- The disk after a write.
abbrev written : ℕ → ℕ → Buffer → Buffer → Buffer
written sector sectors b d i =
    if leb (sector * 512) i && ltb i (sector * 512 + sectors * 512)
    then b (i - sector * 512)
    else d i

-- A file system of 64 blocks of 1024 bytes with one group and 16 inodes.
abbrev super_block : Buffer
super_block =
    put16 (put32 (put32 (put32 (put32 (put32 no_bytes 0 16) 4 64) 20 1) 32 8192) 40 16) 56 0xef53

abbrev image : Buffer
image i = if leb 1024 i && ltb i 2048 then super_block (i - 1024) else 0

abbrev unmounted : Ext2 Buffer
unmounted = record {
  mounted = false;
  superblock = no_bytes;
  block_size = 0;
  inode_size = 0;
  current_dir_inode = 0;
  group_count = 0;
  first_data_block = 0;
  current_path = [];
  disk = image;
}

mounts : (ext2_mount memory_disk unmounted).0 ≡ true
unfolding ext2_mount mount_super
mounts = refl

mount-IsMounted_example :
    let (ok, s') = ext2_mount memory_disk unmounted in
    ((ok ≡ true) × IsMounted s') ⊎ ((ok ≡ false) × (s'.mounted ≡ false))
mount-IsMounted_example = mount-IsMounted memory_disk unmounted

-- The file system of the image, mounted.
abbrev mounted : Ext2 Buffer
mounted = record unmounted {
  mounted = true;
  superblock = super_block;
  block_size = 1024;
  inode_size = 128;
  current_dir_inode = 2;
  group_count = 1;
  first_data_block = 1;
}

abbrev counted : Buffer
counted i = i % 256

abbrev after_write : Ext2 Buffer
after_write = record mounted { disk = written 10 2 counted image }

-- A bitmap whose first eleven bits are set.
abbrev eleven_set : Buffer
eleven_set = update (update no_bytes 0 255) 1 7

eleven_set-AreBytes : AreBytes eleven_set
eleven_set-AreBytes i = ground arith

twelfth : first_clear 64 0 eleven_set ≡ some 11
unfolding first_clear
twelfth = refl

bitmap_take_example :
    IsFirstClear 64 0 eleven_set (some 11)
    × ((j : ℕ)
        → bit_is_set (set_bit eleven_set 11) j
          ≡ (if 11 == j then true else bit_is_set eleven_set j))
    × ((j : ℕ) → bit_is_set (clear_bit (set_bit eleven_set 11) 11) j ≡ bit_is_set eleven_set j)
bitmap_take_example = bitmap_take 64 0 11 eleven_set eleven_set-AreBytes twelfth

-- A block of 64 bytes with the one entry `.` of inode 2.
abbrev one_entry : Buffer
one_entry = put_entry (put16 no_bytes 4 64) 0 2 (b'.' ∷ []) 2

abbrev name_ab : CString
name_ab = b'a' ∷ b'b' ∷ []

abbrev two_entries : Buffer
two_entries = split_entry one_entry 0 12 name_ab 1

one_entry-AreBytes : AreBytes one_entry
unfolding put_text
one_entry-AreBytes i = ground arith

added : add_entry 64 0 64 one_entry 12 name_ab 1 ≡ some two_entries
unfolding add_entry put_text
added = refl

not_there : find_entry 64 0 64 one_entry name_ab ≡ none
unfolding find_entry put_text name_equal name_length
not_there = refl

name_ab-IsName : IsName name_ab
name_ab-IsName = record {
  text = ((λ e. omega (arith, e)), ((λ e. omega (arith, e)), tt));
  some_length = omega arith;
  short = omega arith;
}

add-find_example : find_entry 64 0 64 two_entries name_ab ≡ some 12
add-find_example =
    add-find 64 12 name_ab 1 name_ab-IsName (omega arith) (leb→le 13 (2 ^ 32) refl)
      (leb→le 65 (2 ^ 16) refl) one_entry two_entries one_entry-AreBytes added not_there

find_entry-Run_example : Run one_entry 64 name_ab 0 (find_entry 64 0 64 one_entry name_ab)
find_entry-Run_example = find_entry-Run 64 0 64 one_entry name_ab (omega arith)

-- `/bin/ls`.
abbrev path : CString
path = b'/' ∷ b'b' ∷ b'i' ∷ b'n' ∷ b'/' ∷ b'l' ∷ b's' ∷ []

abbrev parent : CString
parent = b'/' ∷ b'b' ∷ b'i' ∷ b'n' ∷ []

abbrev name : CString
name = b'l' ∷ b's' ∷ []

path_split : split_parent_path path ≡ some (parent, name)
unfolding split_parent_path last_slash
path_split = refl

split-join_example :
    NoSlash name × (0 < length name) × (length name ≤ 255) × Rejoins path parent name
split-join_example = split-join path parent name path_split

-- The file system with a file of 2000 bytes in the blocks 9 and 10, whose inode is the first one of
-- the table in block 5.
abbrev inode_image : Buffer
inode_image = put32 (put32 (put32 (put16 no_bytes 0 0x8000) 4 2000) 40 9) 44 10

abbrev file_image : Buffer
file_image i =
    if leb 9216 i
    then i % 256
    else if leb 5120 i && ltb i 5248
    then inode_image (i - 5120)
    else if i == 2056
    then 5
    else image i

abbrev with_file : Ext2 Buffer
with_file = record mounted { disk = file_image }

with_file-IsMounted : IsMounted with_file
with_file-IsMounted = record {
  mounted = refl;
  block_sizes = inl refl;
  inode_lo = omega arith;
  inode_hi = omega arith;
  inode_fits = refl;
  groups = omega arith;
  blocks = leb→le 2 64 refl;
  per_group = leb→le 1 8192 refl;
  inodes = leb→le 1 16 refl;
}

abbrev first_inode : Buffer
first_inode =
    inode_of 128
      (copy_bytes 128 no_bytes 0 (λ i. if ltb i 1024 then file_image (5120 + i) else 0) 0)

first_inode_read : ext2_read_inode memory_disk 1 with_file ≡ (some first_inode, with_file)
unfolding ext2_read_inode read_inode_bytes read_inode_rest read_group_descriptor ext2_read_block
first_inode_read = refl

read_file-GivesFile_example :
    let wanted = min_u32 4096 (inode_size_of first_inode) in
    let (r, s') = ext2_read_file memory_disk 1 no_bytes 4096 with_file in
    (s' ≡ with_file)
    × (((out : Buffer) × (r ≡ some (wanted, out))
          × ((i : ℕ) → i < wanted → file_byte memory_disk first_inode i with_file ≡ some (out i))
          × ((i : ℕ) → wanted ≤ i → out i ≡ 0))
        ⊎ ((i : ℕ) × (i < wanted)
            × (r ≡ none)
            × (file_byte memory_disk first_inode i with_file ≡ none)))
read_file-GivesFile_example =
    read_file-GivesFile memory_disk 1 4096 first_inode no_bytes with_file with_file-IsMounted
      first_inode_read (ground arith)
