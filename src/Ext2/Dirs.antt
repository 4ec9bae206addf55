-- ===== src/Ext2/Dirs.antt =====
-- Directories and paths of kernel/ext2.c.
use piux_kernel.Prelude.{
  ℕ, zero, suc, ◌+◌, ◌-◌, ◌*◌, ◌^◌, Bool, true, false, ◌&&◌, ◌||◌, not, ltb, leb, ◌==◌,
  if◌then◌else◌, List, [], ◌∷◌, ◌++◌, Option, none, some, length, bit_and, Buffer, CString, char_at,
  Fallible, after, ◌>>=◌, ◌>>◌, pure, fail, get_state, guard,
}
use piux_kernel.Ext2.Disk.{Disk}
use piux_kernel.Ext2.State.{Ext2, inode_mode, inode_size_of}
use piux_kernel.Ext2.Blocks.{min_u32, block_count_for_size, ext2_read_block, ext2_write_block}
use piux_kernel.Ext2.Inodes.{ext2_read_inode, block_of}
use piux_kernel.Ext2.Names.{
  max_name_len, name_length, component, end, too_long, path_next_component,
}
use piux_kernel.Ext2.Entries.{find_entry, remove_entry, list_entries}

-- `(inode.mode & EXT2_S_IFMT) == kind`.
abbrev pub is_kind : ℕ → Buffer → Bool
is_kind kind inode = bit_and (inode_mode inode) 0xf000 == kind

-- `EXT2_S_IFDIR` and `EXT2_S_IFREG`.
abbrev pub kind_dir : ℕ
kind_dir = 0x4000

abbrev pub kind_reg : ℕ
kind_reg = 0x8000

-- A number returned as an `int`: from 2 ^ 31 on it is negative, which is an error.
abbrev pub as_int : {S : Type 0} → ℕ → Fallible S ℕ
as_int n = if ltb n (2 ^ 31) then pure n else fail

abbrev pub dot : CString
dot = b'.' ∷ []

abbrev pub dot_dot : CString
dot_dot = b'.' ∷ b'.' ∷ []

abbrev pub same_text : CString → CString → Bool
same_text [] [] = true
same_text (a ∷ left) (b ∷ right) = a == b && same_text left right
same_text _ _ = false

-- Whether the path begins at the root: with a slash, or with a tilde alone or before a slash.
abbrev pub from_tilde : CString → Bool
from_tilde path = char_at path 0 == b'~' && (char_at path 1 == 0 || char_at path 1 == b'/')

abbrev pub without_first : CString → CString
without_first [] = []
without_first (c ∷ path) = path

module _ {D : Type 0} where
  -- With what the block gives: the entry, or the next blocks.
  abbrev found_or : Fallible (Ext2 D) ℕ → Option ℕ → Fallible (Ext2 D) ℕ
  found_or next none = next
  found_or next (some inode) = as_int inode

module _ {D : Type 0} (k : Disk D) where
  -- The blocks of a directory, with those left.
  unfoldable pub find_in_blocks : ℕ → ℕ → Buffer → CString → Fallible (Ext2 D) ℕ
  find_in_blocks zero logical inode name s = (none, s)
  find_in_blocks (suc left) logical inode name s =
      let next = find_in_blocks left (logical + 1) inode name in
      let limit = min_u32 s.block_size (inode_size_of inode - logical * s.block_size) in
      let found : Fallible (Ext2 D) ℕ = (do
        physical ← block_of k inode logical
        b ← ext2_read_block k physical
        found_or next (find_entry s.block_size 0 limit b name)) in
      found s

  unfoldable pub ext2_find_inode_in_dir : ℕ → CString → Fallible (Ext2 D) ℕ
  unfolding find_in_blocks ext2_read_inode
  ext2_find_inode_in_dir dir_inode name = do
    s ← get_state
    guard (not (name_length name == 0) && leb (name_length name) max_name_len)
    inode ← ext2_read_inode k dir_inode
    guard (is_kind kind_dir inode)
    find_in_blocks (block_count_for_size (inode_size_of inode) s) 0 inode name

  unfoldable pub ext2_find_inode : CString → Fallible (Ext2 D) ℕ
  unfolding ext2_find_inode_in_dir
  ext2_find_inode name = do s ← get_state; ext2_find_inode_in_dir s.current_dir_inode name

  -- One component of a path.
  unfoldable pub step_into : ℕ → CString → Fallible (Ext2 D) ℕ
  unfolding ext2_find_inode_in_dir
  step_into inode name =
      if same_text name dot then pure inode else ext2_find_inode_in_dir inode name

  -- The loop over the components. Each takes at least one character of the path.
  unfoldable pub walk : ℕ → CString → ℕ → Fallible (Ext2 D) ℕ
  walk zero path inode s = (none, s)
  walk (suc fuel) path inode s = elim (path_next_component path) [
    | end ↦ as_int inode s
    | too_long ↦ (none, s)
    | component name rest ↦ after (λ child. walk fuel rest child) (step_into inode name s)
  ]

  unfoldable pub ext2_find_inode_by_path : CString → Fallible (Ext2 D) ℕ
  unfolding walk
  ext2_find_inode_by_path path s =
      if not s.mounted || char_at path 0 == 0
      then (none, s)
      else if char_at path 0 == b'/'
      then walk (length path + 1) path 2 s
      else if from_tilde path
      then walk (length path) (without_first path) 2 s
      else walk (length path + 1) path s.current_dir_inode s

  -- `remove_directory_entry`, with the blocks left.
  abbrev removed_or :
      ℕ → Fallible (Ext2 D) (Unit {0}) → Option Buffer → Fallible (Ext2 D) (Unit {0})
  removed_or physical next none = next
  removed_or physical next (some b) = ext2_write_block k physical b

  unfoldable pub remove_from_blocks : ℕ → ℕ → Buffer → CString → Fallible (Ext2 D) (Unit {0})
  remove_from_blocks zero logical directory name s = (none, s)
  remove_from_blocks (suc left) logical directory name s =
      let next = remove_from_blocks left (logical + 1) directory name in
      let removed : Fallible (Ext2 D) (Unit {0}) = (do
        physical ← block_of k directory logical
        b ← ext2_read_block k physical
        removed_or physical next (remove_entry s.block_size 0 s.block_size b name)) in
      removed s

  unfoldable pub remove_directory_entry : Buffer → CString → Fallible (Ext2 D) (Unit {0})
  unfolding remove_from_blocks
  remove_directory_entry directory name s =
      remove_from_blocks (block_count_for_size (inode_size_of directory) s) 0 directory name s

  -- The lines that are printed up to the end or the first failure.
  unfoldable pub list_blocks : ℕ → ℕ → Buffer → Ext2 D → List (Bool × CString)
  list_blocks zero logical inode s = []
  list_blocks (suc left) logical inode s =
      let rest = list_blocks left (logical + 1) inode s in
      let block : Fallible (Ext2 D) Buffer = (do
        physical ← block_of k inode logical
        ext2_read_block k physical) in
      elim ((block s).0) [ none ↦ [] | some b ↦ list_entries s.block_size 0 s.block_size b ++ rest ]

  abbrev listed : Ext2 D → Option Buffer → Option (List (Bool × CString))
  listed s none = none
  listed s (some inode) =
      if is_kind kind_dir inode
      then some (list_blocks (block_count_for_size (inode_size_of inode) s) 0 inode s)
      else none

  -- `none` where the message is printed.
  unfoldable pub ext2_print_dir_contents : ℕ → Ext2 D → Option (List (Bool × CString))
  unfolding list_blocks ext2_read_inode
  ext2_print_dir_contents dir_inode s = listed s (ext2_read_inode k dir_inode s).0

  unfoldable pub ext2_print_dir_by_path : CString → Ext2 D → Option (Option (List (Bool × CString)))
  unfolding ext2_find_inode_by_path ext2_print_dir_contents
  ext2_print_dir_by_path path s = elim ((ext2_find_inode_by_path path s).0) [
    | none ↦ none
    | some inode ↦ some (ext2_print_dir_contents inode s)
  ]
