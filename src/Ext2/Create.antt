-- ===== src/Ext2/Create.antt =====
-- Creating files and directories in kernel/ext2.c. The number of the current user is an argument.
use piux_kernel.Prelude.{
  ℕ, zero, suc, ◌+◌, ◌-◌, ◌/◌, ◌%◌, ◌^◌, true, false, ◌&&◌, not, ltb, leb, ◌==◌, if◌then◌else◌,
  Option, none, some, length, Buffer, CString, put16, put32, Fallible, ◌>>=◌, ◌>>◌, pure, fail,
  get_state, guard, attempt,
}
use piux_kernel.Ext2.Disk.{Disk}
use piux_kernel.Ext2.State.{Ext2, inode_size_of, inode_blocks, inode_links, no_bytes}
use piux_kernel.Ext2.Blocks.{block_count_for_size, ext2_read_block, ext2_write_block}
use piux_kernel.Ext2.Inodes.{ext2_read_inode, ext2_write_inode, block_of}
use piux_kernel.Ext2.Bitmaps.{allocate_block, allocate_inode}
use piux_kernel.Ext2.Names.{max_name_len, name_length, split_parent_path}
use piux_kernel.Ext2.Entries.{add_entry, put_entry}
use piux_kernel.Ext2.Dirs.{
  is_kind, kind_dir, as_int, dot, dot_dot, ext2_find_inode, ext2_find_inode_by_path,
}
use piux_kernel.Ext2.Files.{set_inode_block, ext2_write_file}

-- A new block of a directory with one entry that takes all of it.
abbrev pub single_entry : ℕ → ℕ → CString → ℕ → Buffer
single_entry size inode_num name type =
    put_entry (put16 no_bytes 4 (size % 2 ^ 16)) 0 inode_num name type

-- The first block of a new directory: itself and its parent.
abbrev pub first_entries : ℕ → ℕ → ℕ → Buffer
first_entries size inode_num parent =
    put_entry (put16 (put_entry (put16 no_bytes 4 12) 0 inode_num dot 2) 16 ((size - 12) % 2 ^ 16))
      12 parent dot_dot 2

abbrev pub file_inode : ℕ → Buffer
file_inode uid = put16 (put16 (put16 no_bytes 0 0x81a4) 2 (uid % 2 ^ 16)) 26 1

abbrev pub directory_inode : ℕ → ℕ → ℕ → Buffer
directory_inode uid size block =
    let b = put16 (put16 (put16 no_bytes 0 0x41ed) 2 (uid % 2 ^ 16)) 26 2 in
    put32 (put32 (put32 b 4 size) 28 (size / 512)) 40 block

module _ {D : Type 0} where
  -- The result of a step, with the current directory set back.
  abbrev pub back_to : ℕ → Option ℕ × Ext2 D → Option ℕ × Ext2 D
  back_to saved (r, s) = (r, record s { current_dir_inode = saved })

  -- A step in another current directory.
  abbrev pub in_directory : ℕ → Fallible (Ext2 D) ℕ → Fallible (Ext2 D) ℕ
  in_directory parent m s =
      back_to s.current_dir_inode (m (record s { current_dir_inode = parent }))

  -- One block more.
  abbrev pub longer : Buffer → Ext2 D → Buffer
  longer directory s =
      put32 (put32 directory 4 ((inode_size_of directory + s.block_size) % 2 ^ 32)) 28
        ((inode_blocks directory + s.block_size / 512) % 2 ^ 32)

module _ {D : Type 0} where
  -- The inode that was found, or what `create` gives.
  abbrev found_or_created : Fallible (Ext2 D) ℕ → Option ℕ → Fallible (Ext2 D) ℕ
  found_or_created create none = create
  found_or_created create (some inode) = pure inode

module _ {D : Type 0} (k : Disk D) where
  abbrev added_or : Buffer → ℕ → Fallible (Ext2 D) Buffer → Option Buffer → Fallible (Ext2 D) Buffer
  added_or directory physical next none = next
  added_or directory physical next (some b) = do ext2_write_block k physical b; pure directory

  -- The end of `add_directory_entry`: a new block.
  unfoldable pub add_block : Buffer → ℕ → ℕ → CString → ℕ → Fallible (Ext2 D) Buffer
  unfolding allocate_block set_inode_block ext2_write_block
  add_block directory blocks inode_num name type = do
    s ← get_state
    guard (ltb blocks 12)
    physical ← allocate_block k
    directory' ← set_inode_block k directory blocks physical
    ext2_write_block k physical (single_entry s.block_size inode_num name type)
    pure (longer directory' s)

  -- With the blocks left: the directory's inode, which may have grown.
  unfoldable pub add_to_blocks : ℕ → ℕ → Buffer → ℕ → CString → ℕ → Fallible (Ext2 D) Buffer
  add_to_blocks zero logical directory inode_num name type s =
      add_block directory logical inode_num name type s
  add_to_blocks (suc left) logical directory inode_num name type s =
      let next = add_to_blocks left (logical + 1) directory inode_num name type in
      let added : Fallible (Ext2 D) Buffer = (do
        physical ← block_of k directory logical
        b ← ext2_read_block k physical
        added_or directory physical next
            (add_entry s.block_size 0 s.block_size b inode_num name type)) in
      added s

  unfoldable pub add_directory_entry : Buffer → ℕ → CString → ℕ → Fallible (Ext2 D) Buffer
  unfolding add_to_blocks
  add_directory_entry directory inode_num name type s =
      add_to_blocks (block_count_for_size (inode_size_of directory) s) 0 directory inode_num name
        type s

  -- The inode of the current directory, if the name is new and fits.
  unfoldable pub directory_for : CString → Fallible (Ext2 D) Buffer
  unfolding ext2_find_inode ext2_read_inode
  directory_for name = do
    s ← get_state
    guard (s.mounted && not (name_length name == 0) && leb (name_length name) max_name_len)
    old ← attempt (ext2_find_inode k name)
    guard (elim old [ none ↦ true | some inode ↦ false ])
    directory ← ext2_read_inode k s.current_dir_inode
    guard (is_kind kind_dir directory)
    pure directory

  unfoldable pub ext2_create_file : ℕ → CString → Fallible (Ext2 D) ℕ
  unfolding directory_for allocate_inode ext2_write_inode add_directory_entry
  ext2_create_file uid filename = do
    s ← get_state
    directory ← directory_for filename
    inode_num ← allocate_inode k
    ext2_write_inode k inode_num (file_inode uid)
    directory' ← add_directory_entry directory inode_num filename 1
    ext2_write_inode k s.current_dir_inode directory'
    as_int inode_num

  unfoldable pub ext2_create_directory : ℕ → CString → Fallible (Ext2 D) ℕ
  unfolding directory_for allocate_inode allocate_block ext2_write_block ext2_write_inode
      add_directory_entry
  ext2_create_directory uid dirname = do
    s ← get_state
    parent ← directory_for dirname
    inode_num ← allocate_inode k
    data_block ← allocate_block k
    ext2_write_block k data_block (first_entries s.block_size inode_num s.current_dir_inode)
    ext2_write_inode k inode_num (directory_inode uid s.block_size data_block)
    parent' ← add_directory_entry parent inode_num dirname 2
    ext2_write_inode k s.current_dir_inode (put16 parent' 26 ((inode_links parent' + 1) % 2 ^ 16))
    as_int inode_num

  -- The number of the parent directory of a path.
  unfoldable pub parent_inode : CString → Fallible (Ext2 D) ℕ
  unfolding ext2_find_inode_by_path
  parent_inode parent_path s =
      if length parent_path == 0
      then as_int s.current_dir_inode s
      else ext2_find_inode_by_path k parent_path s

  -- A step on the name in the parent directory.
  abbrev create_in :
      (CString → Fallible (Ext2 D) ℕ) → Option (CString × CString) → Fallible (Ext2 D) ℕ
  create_in m none = fail
  create_in m (some (parent_path, name)) = do
    parent ← parent_inode parent_path
    in_directory parent (m name)

  unfoldable pub ext2_create_file_by_path : ℕ → CString → Fallible (Ext2 D) ℕ
  unfolding split_parent_path parent_inode ext2_create_file
  ext2_create_file_by_path uid path = create_in (ext2_create_file uid) (split_parent_path path)

  unfoldable pub ext2_create_directory_by_path : ℕ → CString → Fallible (Ext2 D) ℕ
  unfolding split_parent_path parent_inode ext2_create_directory
  ext2_create_directory_by_path uid path =
      create_in (ext2_create_directory uid) (split_parent_path path)

  unfoldable pub ext2_write_file_by_name : ℕ → CString → Buffer → ℕ → Fallible (Ext2 D) ℕ
  unfolding ext2_find_inode ext2_create_file ext2_write_file
  ext2_write_file_by_name uid filename buffer size = do
    found ← attempt (ext2_find_inode k filename)
    inode ← found_or_created (ext2_create_file uid filename) found
    ext2_write_file k inode buffer size

  unfoldable pub ext2_write_file_by_path : ℕ → CString → Buffer → ℕ → Fallible (Ext2 D) ℕ
  unfolding ext2_find_inode_by_path ext2_create_file_by_path ext2_write_file
  ext2_write_file_by_path uid path buffer size = do
    found ← attempt (ext2_find_inode_by_path k path)
    inode ← found_or_created (ext2_create_file_by_path uid path) found
    ext2_write_file k inode buffer size
