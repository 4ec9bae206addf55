-- ===== src/RamFs/Tests.antt =====
-- Runs of kernel/ramfs.c on small stores.
use piux_kernel.Prelude.{
  ℕ, ◌<◌, ◌≡◌, ◌≢◌, refl, [], ◌∷◌, arith, ◌++◌, CString, codes, pos, minus_one, ltb, if◌then◌else◌,
  Buffer, char_at, is_negative, true, replicate, min,
}
use piux_kernel.RamFs.{
  find_from, strlen_ramfs, strncmp_is_zero, strcpy_ramfs, Ramfs, zero_file, file_at, ramfs_init,
  ramfs_find_file, ramfs_create_file, ramfs_write_file, ramfs_read_file, ramfs_list_files,
  ramfs_max_files,
}
use piux_kernel.CStrings.{IsText}
use piux_kernel.RamFs.Find.{FirstAnswer, find-first}
use piux_kernel.RamFs.Inv.{IsValid, apply_all, apply_all-IsValid, create, write}
use piux_kernel.RamFs.Store.{read-write}
use piux_kernel.RamFs.Create.{IsName, create-find}

abbrev blank : Ramfs
blank = record { files = replicate 256 zero_file; file_count = 7 }

abbrev motd : CString
motd = codes "motd.txt"

abbrev greeting : Buffer
greeting = char_at (codes "hello")

abbrev store : Ramfs
store = apply_all (ramfs_init blank) (create motd ∷ write motd greeting 5 ∷ [])

store-IsValid : IsValid store
store-IsValid = apply_all-IsValid blank (create motd ∷ write motd greeting 5 ∷ []) refl

motd-IsText : IsText motd
motd-IsText = omega arith

-- The search takes "motd.txt" for "motd".
found :
    (ramfs_find_file store motd ≡ pos 0)
    × (ramfs_find_file store (codes "motd") ≡ pos 0)
    × (ramfs_find_file store (codes "motd.txt2") ≡ minus_one)
    × (store.file_count ≡ 1)
unfolding ramfs_find_file ramfs_create_file ramfs_write_file ramfs_init find_from strlen_ramfs
    strncmp_is_zero strcpy_ramfs
found = (refl, refl, refl, refl)

listed : ramfs_list_files store ≡ codes "[FILE] " ∷ motd ∷ codes " bytes\n" ∷ []
unfolding ramfs_find_file ramfs_create_file ramfs_write_file ramfs_init find_from strlen_ramfs
    strncmp_is_zero strcpy_ramfs ramfs_list_files
listed = refl

find-first_example : FirstAnswer motd store (ramfs_find_file store motd)
find-first_example = find-first store motd motd-IsText (omega arith)

apply_all-IsValid_example :
    IsValid (apply_all (ramfs_init blank) (create motd ∷ write motd greeting 5 ∷ []))
apply_all-IsValid_example = apply_all-IsValid blank (create motd ∷ write motd greeting 5 ∷ []) refl

abbrev beep : Buffer
beep = char_at (codes "beep")

read-write_example :
    let (z, after) = ramfs_read_file (ramfs_write_file store motd beep 4).1 motd greeting 3 in
    (z ≡ pos (min 3 (min 8192 4)))
    × ((k : ℕ) → after k ≡ (if ltb k (min 3 (min 8192 4)) then beep k else greeting k))
read-write_example = read-write store motd beep greeting 4 3 store-IsValid (rw (found.0) refl)

abbrev log : CString
log = codes "log"

log-IsName : IsName log
log-IsName = omega arith

no_log : (is_negative (ramfs_find_file store log) ≡ true) × (store.file_count < ramfs_max_files)
unfolding ramfs_find_file ramfs_create_file ramfs_write_file ramfs_init find_from strlen_ramfs
    strncmp_is_zero strcpy_ramfs
no_log = (refl, omega arith)

create-find_example :
    let (z, r') = ramfs_create_file store log in
    (z ≡ pos store.file_count)
    × (ramfs_find_file r' log ≡ pos store.file_count)
    × ((file_at r' store.file_count).filename ≡ log)
    × ((file_at r' store.file_count).size ≡ 0)
    × ((i : ℕ) → store.file_count ≢ i → file_at r' i ≡ file_at store i)
create-find_example = create-find store log store-IsValid log-IsName no_log.0 no_log.1

abbrev mo : CString
mo = codes "mo"

stored_name : (0 < store.file_count) × ((file_at store 0).filename ≡ mo ++ codes "td.txt")
unfolding ramfs_find_file ramfs_create_file ramfs_write_file ramfs_init find_from strlen_ramfs
    strncmp_is_zero strcpy_ramfs
stored_name = (omega arith, refl)
