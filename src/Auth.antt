-- ===== src/Auth.antt =====
-- kernel/auth.c: the records of the password file, with the calls of kernel/ext2.c as an argument
-- (Auth/Interface). A buffer that holds `bytes` of the file is the list of what is left of it; the
-- digest of a password is an argument.
pub mod Interface
pub mod Accounts
pub mod Digest
pub mod Create
mod Tests
use piux_kernel.Prelude.{
  ℕ, zero, suc, ◌+◌, ◌-◌, ◌^◌, Bool, true, false, ◌&&◌, ◌||◌, leb, ◌==◌, if◌then◌else◌, List, [],
  ◌∷◌, ◌++◌, length, Option, none, some, CString,
}
use piux_kernel.CStrings.{copy_up_to}
use piux_kernel.Auth.Interface.{Passwd}

abbrev pub auth_username_size : ℕ
auth_username_size = 32

abbrev pub auth_record_size : ℕ
auth_record_size = 256

unfoldable pub strings_equal : CString → CString → Bool
strings_equal [] [] = true
strings_equal [] (d ∷ right) = d == 0
strings_equal (c ∷ left) [] = c == 0
strings_equal (c ∷ left) (d ∷ right) =
    let rest = strings_equal left right in
    if c == 0 || d == 0 then c == d else if c == d then rest else false

-- The text of a record.
unfoldable pub auth_record : CString → CString → Bool → CString
auth_record username password_hash sudoer =
    username ++ (b':' ∷ (password_hash ++ (b':' ∷ (if sudoer then b'1' else b'0') ∷ b'\n' ∷ [])))

-- `(uint32_t)inode`, which is not negative where a file was found.
abbrev pub inode_number : Option ℕ → ℕ
inode_number none = 2 ^ 32 - 1
inode_number (some inode) = inode

module _ {W : Type 0} (k : Passwd W) where
  -- The end of `write_auth_record`, with the bytes that the file holds.
  abbrev pub store_record : CString → ℕ → List ℕ → W → Bool × W
  store_record new inode existing w =
      if leb auth_record_size (length existing + length new)
      then (false, w)
      else k.ext2_write_file inode (existing ++ new) w

  -- A file that was found, with what its read gives.
  abbrev pub add_to : CString → ℕ → Option (List ℕ) → W → Bool × W
  add_to new inode none w = (false, w)
  add_to new inode (some existing) w = store_record new inode existing w

  -- No file was found, with what its creation gives.
  abbrev pub add_created : CString → Bool × W → Bool × W
  add_created new (false, w) = (false, w)
  add_created new (true, w) = store_record new (inode_number (k.ext2_find_inode_by_path w)) [] w

  abbrev pub add_record : CString → Option ℕ → W → Bool × W
  add_record new none w = add_created new (k.ext2_create_file_by_path w)
  add_record new (some inode) w =
      add_to new inode (k.ext2_read_file inode (auth_record_size - 1) w) w

  -- Whether the result is 0, and the state.
  unfoldable pub write_auth_record : CString → W → Bool × W
  write_auth_record new w = add_record new (k.ext2_find_inode_by_path w) w

  -- Creating a user: the two loops stop at the end of `record`.
  unfoldable pub auth_create_user : CString → CString → Bool → W → Bool × W
  auth_create_user username password_hash sudoer w =
      let name = copy_up_to 255 username in
      let hash = copy_up_to (254 - length name) password_hash in
      write_auth_record (auth_record name hash sudoer) w

abbrev pub before_field : ℕ → List ℕ × List ℕ → List ℕ × List ℕ
before_field c (field, rest) = (c ∷ field, rest)

-- The loop up to a colon, with the room left: the field and what is left.
unfoldable pub take_field : ℕ → List ℕ → List ℕ × List ℕ
take_field room [] = ([], [])
take_field zero (c ∷ bytes) = ([], c ∷ bytes)
take_field (suc room) (c ∷ bytes) =
    let rest = take_field room bytes in if c == b':' then ([], c ∷ bytes) else before_field c rest

-- `offset >= bytes || records[offset++] != ':'` ends the search.
abbrev pub behind_colon : List ℕ → Option (List ℕ)
behind_colon [] = none
behind_colon (c ∷ bytes) = if c == b':' then some bytes else none

-- `offset < bytes && records[offset++] == '1'`.
abbrev pub take_flag : List ℕ → Bool × List ℕ
take_flag [] = (false, [])
take_flag (c ∷ bytes) = (c == b'1', bytes)

unfoldable pub next_line : List ℕ → List ℕ
next_line [] = []
next_line (c ∷ bytes) = let rest = next_line bytes in if c == b'\n' then bytes else rest

-- The end of a record: whether it is that of the user, or the search goes on.
abbrev pub match_or :
    CString → CString → CString → CString → (List ℕ → Option Bool) → Bool × List ℕ → Option Bool
match_or username password_hash user hash next (sudoer, rest) =
    if strings_equal username user && strings_equal password_hash hash
    then some sudoer
    else next (next_line rest)

abbrev pub flag_or :
    CString → CString → CString → CString → (List ℕ → Option Bool) → Option (List ℕ) → Option Bool
flag_or username password_hash user hash next none = none
flag_or username password_hash user hash next (some bytes) =
    match_or username password_hash user hash next (take_flag bytes)

abbrev pub behind_hash :
    CString → CString → CString → (List ℕ → Option Bool) → List ℕ × List ℕ → Option Bool
behind_hash username password_hash user next (hash, rest) =
    flag_or username password_hash user hash next (behind_colon rest)

abbrev pub take_hash :
    CString → CString → CString → (List ℕ → Option Bool) → Option (List ℕ) → Option Bool
take_hash username password_hash user next none = none
take_hash username password_hash user next (some bytes) =
    behind_hash username password_hash user next (take_field 64 bytes)

-- The loop over the records, each of which takes at least a byte: `*sudoer`, and `none` for -1.
unfoldable pub find_record : ℕ → CString → CString → List ℕ → Option Bool
find_record zero username password_hash records = none
find_record (suc fuel) username password_hash [] = none
find_record (suc fuel) username password_hash (c ∷ records) =
    let next = find_record fuel username password_hash in
    let (user, rest) = take_field 31 (c ∷ records) in
    take_hash username password_hash user next (behind_colon rest)

-- The search, with what the read of the file gives.
unfoldable pub search_read : CString → CString → Option (List ℕ) → Option Bool
search_read username password_hash none = none
search_read username password_hash (some records) =
    find_record (length records) username password_hash records

-- At most 511 bytes of the file are read.
unfoldable pub authenticate : {W : Type 0} → Passwd W → CString → CString → W → Option Bool
authenticate k username password_hash w =
    search_read username password_hash (k.ext2_read_file_by_path (512 - 1) w)
