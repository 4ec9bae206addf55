-- ===== src/RamFs.antt =====
-- kernel/ramfs.c and kernel/ramfs.h: the flat file store that is used when no ext2 disk is there.
-- The global `ramfs` is passed in and out. A file name in its buffer is the C string that
-- `strcpy_ramfs` left there; the 8192 data bytes of a file are a function of the index.
pub mod Create
pub mod Find
pub mod Inv
pub mod Names
pub mod Store
mod Tests
use piux_kernel.CStrings.{strlen_up_to, copy_up_to}
use piux_kernel.Prelude.{
  ℕ, zero, suc, ◌+◌, ◌-◌, Bool, true, false, ◌&&◌, ◌||◌, List, [], ◌∷◌, ◌++◌, ℤ, pos, minus_one,
  is_negative, nat_part, ltb, leb, ◌==◌, if◌then◌else◌, get_or, set, not, Buffer, copy_bytes,
  CString, char_at, codes,
}

abbrev pub ramfs_max_files : ℕ
ramfs_max_files = 256

abbrev pub ramfs_max_filename : ℕ
ramfs_max_filename = 64

abbrev pub ramfs_max_filesize : ℕ
ramfs_max_filesize = 8192

-- `ramfs_file_t`.
pub record RamfsFile : Type 0 where
  pub filename : CString
  pub bytes : Buffer
  pub size : ℕ
  pub used : Bool

-- `ramfs_t`.
pub record Ramfs : Type 0 where
  pub files : List RamfsFile
  pub file_count : ℕ

-- A slot of the zeroed array.
abbrev pub zero_file : RamfsFile
zero_file = record { filename = []; bytes = λ _. 0; size = 0; used = false }

-- `ramfs.files[i]`.
abbrev pub file_at : Ramfs → ℕ → RamfsFile
file_at r i = get_or r.files i zero_file

-- Whether `strncmp_ramfs(a, b, n)` is 0, which is all that its caller asks.
unfoldable pub strncmp_is_zero : CString → CString → ℕ → Bool
strncmp_is_zero a b zero = true
strncmp_is_zero [] b (suc n) = char_at b 0 == 0
strncmp_is_zero (x ∷ a) [] (suc n) = x == 0
strncmp_is_zero (x ∷ a) (y ∷ b) (suc n) = x == y && (x == 0 || strncmp_is_zero a b n)

unfoldable pub strlen_ramfs : CString → ℕ
unfolding strlen_up_to
strlen_ramfs = strlen_up_to ramfs_max_filename

unfoldable pub strcpy_ramfs : CString → ℕ → CString
unfolding copy_up_to
strcpy_ramfs src max = copy_up_to (max - 1) src

clear_files : List RamfsFile → List RamfsFile
clear_files [] = []
clear_files (f ∷ fs) = record f { used = false; size = 0 } ∷ clear_files fs

unfoldable pub ramfs_init : Ramfs → Ramfs
unfolding clear_files
ramfs_init r = record { files = clear_files r.files; file_count = 0 }

-- The loop of `ramfs_find_file` from index `i` on; `files` are the slots from there.
unfoldable pub find_from : CString → ℕ → ℕ → List RamfsFile → ℕ → ℤ
find_from name len count [] i = minus_one
find_from name len count (f ∷ fs) i =
    if not (ltb i count)
    then minus_one
    else if f.used && strncmp_is_zero f.filename name len
    then pos i
    else find_from name len count fs (i + 1)

unfoldable pub ramfs_find_file : Ramfs → CString → ℤ
ramfs_find_file r name = find_from name (strlen_ramfs name) r.file_count r.files 0

-- A new file in the slot behind the last one.
abbrev pub add_file : Ramfs → CString → Ramfs
add_file r name =
    let slot = file_at r r.file_count in
    record {
      files =
          set r.files r.file_count (record slot {
            filename = strcpy_ramfs name ramfs_max_filename;
            size = 0;
            used = true;
          });
      file_count = r.file_count + 1;
    }

unfoldable pub ramfs_create_file : Ramfs → CString → ℤ × Ramfs
ramfs_create_file r name =
    let len = strlen_ramfs name in
    if len == 0 || leb ramfs_max_filename len
    then (minus_one, r)
    else if not (is_negative (ramfs_find_file r name))
    then (minus_one, r)
    else if leb ramfs_max_files r.file_count
    then (minus_one, r)
    else (pos r.file_count, add_file r name)

-- The state that `ramfs_write_file` leaves, at the found index.
abbrev pub put_bytes : Ramfs → ℕ → Buffer → ℕ → Ramfs
put_bytes r idx src size =
    let f = file_at r idx in
    record r {
      files = set r.files idx (record f { bytes = copy_bytes size f.bytes 0 src 0; size = size });
    }

abbrev pub clamp : ℕ → ℕ → ℕ
clamp limit size = if ltb limit size then limit else size

unfoldable pub ramfs_write_file : Ramfs → CString → Buffer → ℕ → ℤ × Ramfs
ramfs_write_file r name src size =
    let idx = ramfs_find_file r name in
    let n = clamp ramfs_max_filesize size in
    if is_negative idx then (minus_one, r) else (pos n, put_bytes r (nat_part idx) src n)

-- The result, and the caller's buffer after the call.
unfoldable pub ramfs_read_file : Ramfs → CString → Buffer → ℕ → ℤ × Buffer
ramfs_read_file r name buffer size =
    let idx = ramfs_find_file r name in
    let f = file_at r (nat_part idx) in
    let to_read = clamp size f.size in
    if is_negative idx
    then (minus_one, buffer)
    else (pos to_read, copy_bytes to_read buffer 0 f.bytes 0)

-- What the loop of `ramfs_list_files` prints, in order.
list_from : ℕ → List RamfsFile → ℕ → List CString
list_from count [] i = []
list_from count (f ∷ fs) i =
    if not (ltb i count)
    then []
    else (if f.used then codes "[FILE] " ∷ f.filename ∷ codes " bytes\n" ∷ [] else [])
      ++ list_from count fs (i + 1)

unfoldable pub ramfs_list_files : Ramfs → List CString
unfolding list_from
ramfs_list_files r =
    if r.file_count == 0 then codes "(empty)\n" ∷ [] else list_from r.file_count r.files 0
