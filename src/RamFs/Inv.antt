-- ===== src/RamFs/Inv.antt =====
-- The invariant of the store, and that every operation of kernel/ramfs.c keeps it.
use piux_kernel.Prelude.{
  ℕ, ◌+◌, ◌<◌, ◌≤◌, ◌≡◌, ◌≢◌, refl, ◌∙◌, true, false, List, [], ◌∷◌, arith, length, get_or, set,
  CString, ◌==◌, Bool-cases, inl, inr, Buffer, is_negative, nat_part, length-set, get_or-set,
}
use piux_kernel.RamFs.{
  RamfsFile, Ramfs, zero_file, file_at, add_file, put_bytes, clear_files, ramfs_init,
  ramfs_find_file, ramfs_create_file, ramfs_write_file, strcpy_ramfs, strlen_ramfs, ramfs_max_files,
  ramfs_max_filename, ramfs_max_filesize, find_from,
}
use piux_kernel.CStrings.{IsText}
use piux_kernel.RamFs.Names.{strcpy-IsText}

-- A file in use: a name that fits its buffer, no more data than the buffer holds.
pub record IsFile (f : RamfsFile) : Type 0 where
  pub is_used : f.used ≡ true
  pub text : IsText f.filename
  pub fits : length f.filename < ramfs_max_filename
  pub size_le : f.size ≤ ramfs_max_filesize

-- 256 slots, of which the first `file_count` are files.
pub record IsValid (r : Ramfs) : Type 0 where
  pub slots : length r.files ≡ ramfs_max_files
  pub count_le : r.file_count ≤ ramfs_max_files
  pub is_file : (i : ℕ) → i < r.file_count → IsFile (file_at r i)

length-clear_files : (fs : List RamfsFile) → length (clear_files fs) ≡ length fs
unfolding clear_files
length-clear_files [] = refl
length-clear_files (f ∷ fs) = omega (arith, length-clear_files fs)

-- `ramfs_init` gives a valid empty store on the 256 slots, whatever they hold.
pub init-IsValid :
    (r : Ramfs)
    → length r.files ≡ ramfs_max_files
    → IsValid (ramfs_init r) × ((ramfs_init r).file_count ≡ 0)
unfolding ramfs_init
init-IsValid r h = (
  record {
    slots = omega (arith, length-clear_files r.files);
    count_le = omega arith;
    is_file = λ i lt. elim lt [ ];
  },
  refl,
)

-- A slot after a write to one of them.
set-IsFile :
    (fs : List RamfsFile) (idx i : ℕ) (f : RamfsFile)
    → idx < length fs
    → IsFile f
    → (idx ≢ i → IsFile (get_or fs i zero_file))
    → IsFile (get_or (set fs idx f) i zero_file)
set-IsFile fs idx i f lt new old = elim (Bool-cases (idx == i)) [
  | inl same ↦ rw (get_or-set fs idx i f zero_file lt, same) new
  | inr other ↦ rw (get_or-set fs idx i f zero_file lt, other) (old (ground arith))
]

name_lem :
    (name : CString)
    → IsText (strcpy_ramfs name ramfs_max_filename)
      × (length (strcpy_ramfs name ramfs_max_filename) < ramfs_max_filename)
name_lem name = strcpy-IsText name ramfs_max_filename (omega arith)

add_file-IsValid :
    (r : Ramfs) (name : CString)
    → IsValid r
    → r.file_count < ramfs_max_files
    → IsValid (add_file r name)
add_file-IsValid r name v room = record {
  slots = length-set r.files r.file_count _ ∙ v.slots;
  count_le = omega arith;
  is_file = λ i lt.
      set-IsFile r.files r.file_count i _ (omega (arith, v.slots))
        (record {
          is_used = refl;
          text = (name_lem name).0;
          fits = (name_lem name).1;
          size_le = omega arith;
        })
        (λ ne. v.is_file i (omega arith));
}

-- `ramfs_create_file` keeps the store valid.
pub create-IsValid : (r : Ramfs) (name : CString) → IsValid r → IsValid (ramfs_create_file r name).1
unfolding ramfs_create_file
create-IsValid r name v = ground (arith, add_file-IsValid r name v)

put_bytes-IsValid :
    (r : Ramfs) (idx : ℕ) (src : Buffer) (n : ℕ)
    → IsValid r
    → idx < r.file_count
    → n ≤ ramfs_max_filesize
    → IsValid (put_bytes r idx src n)
put_bytes-IsValid r idx src n v lt le = record {
  slots = length-set r.files idx _ ∙ v.slots;
  count_le = v.count_le;
  is_file = λ i h.
      let old = v.is_file idx lt in
      set-IsFile r.files idx i _ (omega (arith, v.slots, v.count_le))
        (record { is_used = old.is_used; text = old.text; fits = old.fits; size_le = le })
        (λ ne. v.is_file i h);
}

-- An index that the search returns is that of a file.
find_from-lt :
    (name : CString) (len count : ℕ) (fs : List RamfsFile) (i : ℕ)
    → is_negative (find_from name len count fs i) ≡ false
    → nat_part (find_from name len count fs i) < count
unfolding find_from
find_from-lt name len count [] i h = cc
find_from-lt name len count (f ∷ fs) i h = ground (arith, find_from-lt name len count fs (i + 1))

pub find-lt :
    (r : Ramfs) (name : CString)
    → is_negative (ramfs_find_file r name) ≡ false
    → nat_part (ramfs_find_file r name) < r.file_count
unfolding ramfs_find_file
find-lt r name = find_from-lt name (strlen_ramfs name) r.file_count r.files 0

-- `ramfs_write_file` keeps the store valid.
pub write-IsValid :
    (r : Ramfs) (name : CString) (src : Buffer) (size : ℕ)
    → IsValid r
    → IsValid (ramfs_write_file r name src size).1
unfolding ramfs_write_file
write-IsValid r name src size v = elim (Bool-cases (is_negative (ramfs_find_file r name))) [
  | inl missing ↦ rw missing v
  | inr found ↦ rw found (put_bytes-IsValid r _ src _ v (find-lt r name found) (ground arith))
]

-- A call of the module.
pub data Op : Type 0 where
  create : CString → Op
  write : CString → Buffer → ℕ → Op
  read : CString → Buffer → ℕ → Op

abbrev pub apply : Ramfs → Op → Ramfs
apply r (create name) = (ramfs_create_file r name).1
apply r (write name src size) = (ramfs_write_file r name src size).1
apply r (read name buffer size) = r

abbrev pub apply_all : Ramfs → List Op → Ramfs
apply_all r [] = r
apply_all r (op ∷ ops) = apply_all (apply r op) ops

-- From any slots, `ramfs_init` and then any sequence of creations, writes and reads leaves 256
-- slots of which the first `file_count` hold files with a terminated name and at most 8192 bytes.
pub apply_all-IsValid :
    (r : Ramfs) (ops : List Op)
    → length r.files ≡ ramfs_max_files
    → IsValid (apply_all (ramfs_init r) ops)
apply_all-IsValid r ops h = run (ramfs_init r) ops (init-IsValid r h).0
  where
    run : (s : Ramfs) (l : List Op) → IsValid s → IsValid (apply_all s l)
    run s [] v = v
    run s (create name ∷ l) v = run (apply s (create name)) l (create-IsValid s name v)
    run s (write name src size ∷ l) v =
        run (apply s (write name src size)) l (write-IsValid s name src size v)
    run s (read name buffer size ∷ l) v = run s l v
