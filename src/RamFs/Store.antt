-- ===== src/RamFs/Store.antt =====
-- What is written is read back; what creation adds, and when it refuses.
use piux_kernel.Prelude.{
  ℕ, zero, suc, ◌+◌, ◌-◌, ◌≡◌, refl, ◌∙◌, false, inl, inr, List, [], ◌∷◌, arith, get_or, set,
  CString, pos, ltb, if◌then◌else◌, Bool-cases, Buffer, is_negative, nat_part, get_or-set_self,
  copy_bytes, copy_bytes_lem, min, ap,
}
use piux_kernel.RamFs.{
  RamfsFile, Ramfs, zero_file, file_at, put_bytes, clamp, ramfs_find_file, ramfs_write_file,
  ramfs_read_file, strlen_ramfs, ramfs_max_filesize, find_from,
}
use piux_kernel.RamFs.Inv.{IsValid, find-lt}

-- The search looks at names and `used` flags only.
find_from-set :
    (name : CString) (len count : ℕ) (fs : List RamfsFile) (i k : ℕ) (f : RamfsFile)
    → f.used ≡ (get_or fs k zero_file).used
    → f.filename ≡ (get_or fs k zero_file).filename
    → find_from name len count (set fs k f) i ≡ find_from name len count fs i
unfolding find_from
find_from-set name len count [] i k f u n = refl
find_from-set name len count (g ∷ fs) i zero f u n = rw (u, n)
find_from-set name len count (g ∷ fs) i (suc k) f u n =
    rw (find_from-set name len count fs (i + 1) k f u n)

-- After a write every search gives what it gave.
pub find-write :
    (r : Ramfs) (name other : CString) (src : Buffer) (size : ℕ)
    → ramfs_find_file (ramfs_write_file r name src size).1 other ≡ ramfs_find_file r other
unfolding ramfs_find_file ramfs_write_file
find-write r name other src size =
    elim (Bool-cases (is_negative (find_from name (strlen_ramfs name) r.file_count r.files 0))) [
      | inl missing ↦ rw missing
      | inr found ↦
          rw found (find_from-set other (strlen_ramfs other) r.file_count r.files 0 _ _ refl refl)
    ]

write_found :
    (r : Ramfs) (name : CString) (src : Buffer) (n : ℕ)
    → is_negative (ramfs_find_file r name) ≡ false
    → ramfs_write_file r name src n ≡ (
      pos (clamp ramfs_max_filesize n),
      put_bytes r (nat_part (ramfs_find_file r name)) src (clamp ramfs_max_filesize n),
    )
unfolding ramfs_write_file
write_found r name src n found = rw found

read_found :
    (r : Ramfs) (name : CString) (buffer : Buffer) (m : ℕ)
    → is_negative (ramfs_find_file r name) ≡ false
    → let f = file_at r (nat_part (ramfs_find_file r name)) in
      ramfs_read_file r name buffer m
      ≡ (pos (clamp m f.size), copy_bytes (clamp m f.size) buffer 0 f.bytes 0)
unfolding ramfs_read_file
read_found r name buffer m found = rw found

-- The file just written.
written :
    (r : Ramfs) (name : CString) (src : Buffer) (n : ℕ)
    → IsValid r
    → is_negative (ramfs_find_file r name) ≡ false
    → file_at (ramfs_write_file r name src n).1 (nat_part (ramfs_find_file r name))
      ≡ record (file_at r (nat_part (ramfs_find_file r name))) {
        bytes =
            copy_bytes
              (clamp ramfs_max_filesize n)
              (file_at r (nat_part (ramfs_find_file r name))).bytes
              0
              src
              0;
        size = clamp ramfs_max_filesize n;
      }
written r name src n v found = rw (write_found r name src n found) (
    get_or-set_self r.files (nat_part (ramfs_find_file r name)) _ zero_file
      (omega (arith, find-lt r name found, v.slots, v.count_le)))

reread :
    (r : Ramfs) (name : CString) (src buffer : Buffer) (n m : ℕ)
    → IsValid r
    → is_negative (ramfs_find_file r name) ≡ false
    → ramfs_read_file (ramfs_write_file r name src n).1 name buffer m ≡ (
      pos (clamp m (clamp ramfs_max_filesize n)),
      copy_bytes
          (clamp m (clamp ramfs_max_filesize n))
          buffer
          0
          (copy_bytes
            (clamp ramfs_max_filesize n)
            (file_at r (nat_part (ramfs_find_file r name))).bytes
            0
            src
            0)
          0,
    )
reread r name src buffer n m v found =
    read_found (ramfs_write_file r name src n).1 name buffer m
      (rw (find-write r name name src n) found)
    ∙ rw (find-write r name name src n, written r name src n v found)

clamp-min : (a b : ℕ) → clamp a b ≡ min a b
clamp-min a b = ground arith

copied :
    (k n m : ℕ) (old src buffer : Buffer)
    → copy_bytes m buffer 0 (copy_bytes n old 0 src 0) 0 k
      ≡ (if ltb k m then (if ltb k n then src k else old k) else buffer k)
copied k n m old src buffer = ground (
  arith,
  copy_bytes_lem m buffer 0 (copy_bytes n old 0 src 0) 0 k,
  copy_bytes_lem n old 0 src 0 k,
  same (λ i. copy_bytes n old 0 src 0 i),
  same src,
)
  where
    same : (f : Buffer) → f (0 + (k - 0)) ≡ f k
    same f = ap f (omega arith)

-- A store that `ramfs_write_file` accepts gives the data back: a read of the name returns the
-- smallest of the two sizes and 8192, puts that many of the written bytes into the caller's
-- buffer, and leaves the rest of that buffer alone.
pub read-write :
    (r : Ramfs) (name : CString) (src buffer : Buffer) (n m : ℕ)
    → IsValid r
    → is_negative (ramfs_find_file r name) ≡ false
    → let (z, after) = ramfs_read_file (ramfs_write_file r name src n).1 name buffer m in
      (z ≡ pos (min m (min ramfs_max_filesize n)))
      × ((k : ℕ) → after k ≡ (if ltb k (min m (min ramfs_max_filesize n)) then src k else buffer k))
read-write r name src buffer n m v found =
    rw (reread r name src buffer n m v found, clamp-min, clamp-min)
      (refl, λ k. copied k _ _ _ src buffer ∙ ground arith)
