-- ===== src/RamFs/Find.antt =====
-- `ramfs_find_file` against a search for the first used file whose name starts with the query.
use piux_kernel.Prelude.{
  ℕ, zero, suc, ◌+◌, ◌<◌, ◌≤◌, ◌≡◌, refl, Bool, true, false, ◌&&◌, inl, inr, List, [], ◌∷◌, arith,
  length, get_or, CString, ℤ, pos, negsuc, ltb, Bool-cases,
}
use piux_kernel.RamFs.{
  RamfsFile, Ramfs, zero_file, file_at, strncmp_is_zero, strlen_ramfs, find_from, ramfs_find_file,
  ramfs_max_filename,
}
use piux_kernel.CStrings.{IsText}
use piux_kernel.RamFs.Names.{IsPrefix, strlen-length, strncmp-IsPrefix}

-- The test of the loop.
abbrev hit : CString → ℕ → RamfsFile → Bool
hit name len f = f.used && strncmp_is_zero f.filename name len

-- What the loop started at index `i` with the slots `fs` may return.
abbrev FromResult : CString → ℕ → ℕ → List RamfsFile → ℕ → ℤ → Type 0
FromResult name len count fs i (pos k) =
    (m : ℕ) × (k ≡ i + m)
    × (k < count)
    × (hit name len (get_or fs m zero_file) ≡ true)
    × ((j : ℕ) → j < m → hit name len (get_or fs j zero_file) ≡ false)
FromResult name len count fs i (negsuc n) =
    (n ≡ 0) × ((j : ℕ) → i + j < count → hit name len (get_or fs j zero_file) ≡ false)

find_from-next :
    (name : CString) (len count : ℕ) (f : RamfsFile) (fs : List RamfsFile) (i : ℕ) (z : ℤ)
    → hit name len f ≡ false
    → FromResult name len count fs (i + 1) z
    → FromResult name len count (f ∷ fs) i z
find_from-next name len count f fs i (pos k) h (m, e, lt, found, before) =
    (suc m, omega arith, lt, found, earlier)
  where
    earlier : (j : ℕ) → j < suc m → hit name len (get_or (f ∷ fs) j zero_file) ≡ false
    earlier zero p = h
    earlier (suc j) p = before j (omega arith)
find_from-next name len count f fs i (negsuc n) h (e, none_of) = (e, all_of)
  where
    all_of : (j : ℕ) → i + j < count → hit name len (get_or (f ∷ fs) j zero_file) ≡ false
    all_of zero p = h
    all_of (suc j) p = none_of j (omega arith)

find_from-result :
    (name : CString) (len count : ℕ) (fs : List RamfsFile) (i : ℕ)
    → FromResult name len count fs i (find_from name len count fs i)
unfolding find_from
find_from-result name len count [] i = (refl, λ j h. refl)
find_from-result name len count (f ∷ fs) i = elim (Bool-cases (ltb i count)) [
  | inl more ↦ elim (Bool-cases (hit name len f)) [
    | inl found ↦ rw (more, found) (zero, omega arith, ground arith, found, λ j h. elim h [ ])
    | inr miss ↦
        rw (more, miss)
          (find_from-next name len count f fs i _ miss (find_from-result name len count fs (i + 1)))
  ]
  | inr done ↦ rw done (refl, λ j h. absurd (ground arith))
]

-- A used file whose name starts with the query.
abbrev pub Answers : CString → RamfsFile → Type 0
Answers name f = (f.used ≡ true) × IsPrefix name f.filename

-- The first file that answers, if any does.
abbrev pub FirstAnswer : CString → Ramfs → ℤ → Type 0
FirstAnswer name r (pos k) =
    (k < r.file_count)
    × Answers name (file_at r k)
    × ((j : ℕ) → j < k → ¬ Answers name (file_at r j))
FirstAnswer name r (negsuc n) =
    (n ≡ 0) × ((j : ℕ) → j < r.file_count → ¬ Answers name (file_at r j))

module _ (name : CString) (text : IsText name) (len : ℕ) (is_len : len ≡ length name) where
  hit-Answers : (f : RamfsFile) → hit name len f ≡ true → Answers name f
  hit-Answers f h =
      (ground arith, (strncmp-IsPrefix f.filename name text).0 (rw (← is_len) (ground arith)))

  not_hit-Answers : (f : RamfsFile) → hit name len f ≡ false → ¬ Answers name f
  not_hit-Answers f h a =
      let e = (strncmp-IsPrefix f.filename name text).1 a.1 in
      let e' : strncmp_is_zero f.filename name len ≡ true = rw is_len e in ground (arith, a.0)

  FirstAnswer-of_loop :
      (r : Ramfs) (z : ℤ) → FromResult name len r.file_count r.files 0 z → FirstAnswer name r z
  FirstAnswer-of_loop r (pos k) (m, e, lt, found, before) =
      let e' : k ≡ m = omega arith in
      rw e' (
        omega arith,
        hit-Answers (file_at r m) found,
        λ j h. not_hit-Answers (file_at r j) (before j h),
      )
  FirstAnswer-of_loop r (negsuc n) (e, none_of) =
      (e, λ j h. not_hit-Answers (file_at r j) (none_of j (omega arith)))

-- For a text of at most 64 bytes, `ramfs_find_file` returns the index of the first used file whose
-- name starts with it, and -1 exactly when no used file's name does.
pub find-first :
    (r : Ramfs) (name : CString)
    → IsText name
    → length name ≤ ramfs_max_filename
    → FirstAnswer name r (ramfs_find_file r name)
unfolding ramfs_find_file
find-first r name t h =
    FirstAnswer-of_loop name t (strlen_ramfs name) (strlen-length name t h) r _
      (find_from-result name (strlen_ramfs name) r.file_count r.files 0)
