-- ===== src/Ext2/Entries.antt =====
-- The entries of one block of a directory of kernel/ext2.c. The loops over a block have as much fuel
-- as the block has bytes; each round moves on by at least 8.
use piux_kernel.Prelude.{
  ℕ, zero, suc, ◌+◌, ◌-◌, ◌*◌, ◌/◌, ◌%◌, ◌^◌, Bool, ◌&&◌, ◌||◌, not, ltb, leb, ◌==◌, if◌then◌else◌,
  List, [], ◌∷◌, Option, none, some, length, Buffer, CString, update, put16, put32, list_at,
}
use piux_kernel.Ext2.State.{entry_inode, entry_rec_len, entry_name_len, entry_file_type}
use piux_kernel.Ext2.Names.{name_equal}

-- `(length + 8 + 3) & ~3U`.
abbrev pub entry_size : ℕ → ℕ
entry_size len = (len + 11) / 4 * 4

-- The test that ends the loop, with the bytes left in the block.
abbrev pub is_broken : Buffer → ℕ → ℕ → Bool
is_broken b o left =
    ltb (entry_rec_len b o) 8
    || ltb left (entry_rec_len b o)
    || ltb (entry_rec_len b o - 8) (entry_name_len b o)

-- The loop of `ext2_find_inode_in_dir`: the inode of the first entry of the name.
unfoldable pub find_entry : ℕ → ℕ → ℕ → Buffer → CString → Option ℕ
find_entry zero o limit b name = none
find_entry (suc fuel) o limit b name =
    let rest = find_entry fuel (o + entry_rec_len b o) limit b name in
    if ltb limit (o + 8) || is_broken b o (limit - o)
    then none
    else if not (entry_inode b o == 0) && name_equal b (o + 8) (entry_name_len b o) name
    then some (entry_inode b o)
    else rest

-- for (i = 0; i < length; i++) name[i] = text[i];
unfoldable pub put_text : Buffer → ℕ → CString → Buffer
put_text b o [] = b
put_text b o (c ∷ text) = put_text (update b o c) (o + 1) text

-- An entry is filled in; `rec_len` is set by the caller.
abbrev pub put_entry : Buffer → ℕ → ℕ → CString → ℕ → Buffer
put_entry b o inode_num name type =
    put_text (update (update (put32 b o inode_num) (o + 6) (length name % 2 ^ 8)) (o + 7) type)
      (o + 8) name

-- The room that an entry needs for itself.
abbrev pub actual_size : Buffer → ℕ → ℕ
actual_size b o = if entry_inode b o == 0 then 8 else entry_size (entry_name_len b o)

-- A used entry keeps what it needs, and the new one takes the rest.
abbrev pub split_at : Buffer → ℕ → ℕ → ℕ → ℕ → CString → ℕ → Buffer
split_at b o actual rest inode_num name type =
    put_entry (put16 (put16 b (o + 4) actual) (o + actual + 4) rest) (o + actual) inode_num name
      type

abbrev pub split_entry : Buffer → ℕ → ℕ → CString → ℕ → Buffer
split_entry b o inode_num name type =
    split_at b o (actual_size b o) (entry_rec_len b o - actual_size b o) inode_num name type

-- The loop of `add_directory_entry` over a block: the block with the entry, if there is room.
unfoldable pub add_entry : ℕ → ℕ → ℕ → Buffer → ℕ → CString → ℕ → Option Buffer
add_entry zero o size b inode_num name type = none
add_entry (suc fuel) o size b inode_num name type =
    let rest = add_entry fuel (o + entry_rec_len b o) size b inode_num name type in
    let required = entry_size (length name) in
    if ltb size (o + 8) || is_broken b o (size - o)
    then none
    else if entry_inode b o == 0 && leb required (entry_rec_len b o)
    then some (put_entry b o inode_num name type)
    else if not (entry_inode b o == 0) && leb (actual_size b o + required) (entry_rec_len b o)
    then some (split_entry b o inode_num name type)
    else rest

-- The loop of `remove_directory_entry` over a block: the block without the entry.
unfoldable pub remove_entry : ℕ → ℕ → ℕ → Buffer → CString → Option Buffer
remove_entry zero o size b name = none
remove_entry (suc fuel) o size b name =
    let rest = remove_entry fuel (o + entry_rec_len b o) size b name in
    if ltb size (o + 8) || is_broken b o (size - o)
    then none
    else if not (entry_inode b o == 0) && name_equal b (o + 8) (entry_name_len b o) name
    then some (put32 b o 0)
    else rest

-- The lines of `ext2_print_dir_contents` for a block: whether it is a directory, and the name.
unfoldable pub list_entries : ℕ → ℕ → ℕ → Buffer → List (Bool × CString)
unfolding list_at
list_entries zero o size b = []
list_entries (suc fuel) o size b =
    let rest = list_entries fuel (o + entry_rec_len b o) size b in
    let line : Bool × CString =
      (entry_file_type b o == 2, list_at (entry_name_len b o) b (o + 8)) in
    if ltb size (o + 8) || is_broken b o (size - o)
    then []
    else if entry_inode b o == 0
    then rest
    else line ∷ rest
