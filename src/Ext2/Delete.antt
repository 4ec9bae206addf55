-- ===== src/Ext2/Delete.antt =====
-- Deleting a file in kernel/ext2.c: its entry, its blocks and its inode.
use piux_kernel.Prelude.{
  ℕ, zero, suc, ◌+◌, ◌*◌, ◌/◌, ◌==◌, if◌then◌else◌, Option, none, some, Buffer, CString, load32,
  Fallible, ◌>>=◌, ◌>>◌, pure, guard,
}
use piux_kernel.Ext2.Disk.{Disk}
use piux_kernel.Ext2.State.{Ext2, inode_size_of, indirect_block, doubly_indirect_block, no_bytes}
use piux_kernel.Ext2.Blocks.{block_count_for_size, ext2_read_block}
use piux_kernel.Ext2.Inodes.{ext2_read_inode, ext2_write_inode, inode_block}
use piux_kernel.Ext2.Bitmaps.{free_block, free_inode}
use piux_kernel.Ext2.Names.{split_parent_path}
use piux_kernel.Ext2.Dirs.{is_kind, kind_reg, ext2_find_inode_in_dir, remove_directory_entry}
use piux_kernel.Ext2.Create.{parent_inode}

module _ {D : Type 0} (k : Disk D) where
  -- A block is given back if its number is not 0; a failure is not looked at.
  unfoldable pub give_back : ℕ → Ext2 D → Ext2 D
  unfolding free_block
  give_back block s = if block == 0 then s else (free_block k block s).1

  abbrev give_found : Option ℕ × Ext2 D → Ext2 D
  give_found (none, s) = s
  give_found (some block, s) = give_back block s

  -- The blocks of the file, with those left.
  unfoldable pub give_blocks : ℕ → ℕ → Buffer → Ext2 D → Ext2 D
  unfolding inode_block give_back
  give_blocks zero logical inode s = s
  give_blocks (suc left) logical inode s =
      give_blocks left (logical + 1) inode (give_found (inode_block k inode logical s))

  -- The tables in a block of pointers, with those left.
  unfoldable pub give_tables : ℕ → ℕ → Buffer → Ext2 D → Ext2 D
  unfolding give_back
  give_tables zero index b s = s
  give_tables (suc left) index b s =
      give_tables left (index + 1) b (give_back (load32 b (4 * index)) s)

  abbrev give_double : ℕ → Option Buffer × Ext2 D → Ext2 D
  give_double block (none, s) = (free_block k block s).1
  give_double block (some b, s) = (free_block k block (give_tables (s.block_size / 4) 0 b s)).1

  -- Behind the removal of the entry.
  unfoldable pub release : ℕ → Buffer → Ext2 D → Ext2 D
  unfolding give_blocks give_back give_tables free_block ext2_read_block ext2_write_inode free_inode
  release inode_num file s =
      let s1 = give_blocks (block_count_for_size (inode_size_of file) s) 0 file s in
      let s2 = give_back (indirect_block file) s1 in
      let s3 =
        if doubly_indirect_block file == 0
        then s2
        else give_double (doubly_indirect_block file)
            (ext2_read_block k (doubly_indirect_block file) s2) in
      let s4 = (ext2_write_inode k inode_num no_bytes s3).1 in (free_inode k inode_num s4).1

  -- Up to the removal of the entry: the number and the inode of the file.
  unfoldable pub unlink : CString → CString → Fallible (Ext2 D) (ℕ × Buffer)
  unfolding parent_inode ext2_read_inode ext2_find_inode_in_dir remove_directory_entry
  unlink parent_path name = do
    parent_num ← parent_inode k parent_path
    parent ← ext2_read_inode k parent_num
    file_num ← ext2_find_inode_in_dir k parent_num name
    file ← ext2_read_inode k file_num
    guard (is_kind kind_reg file)
    remove_directory_entry k parent name
    pure (file_num, file)

  abbrev released : Option (ℕ × Buffer) × Ext2 D → Option (Unit {0}) × Ext2 D
  released (none, s) = (none, s)
  released (some (inode_num, file), s) = (some tt, release inode_num file s)

  abbrev delete_in : Option (CString × CString) → Fallible (Ext2 D) (Unit {0})
  delete_in none s = (none, s)
  delete_in (some (parent_path, name)) s = released (unlink parent_path name s)

  unfoldable pub ext2_delete_file_by_path : CString → Fallible (Ext2 D) (Unit {0})
  unfolding split_parent_path unlink release
  ext2_delete_file_by_path path s =
      if s.mounted then delete_in (split_parent_path path) s else (none, s)
