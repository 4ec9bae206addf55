-- ===== src/RamFs/Create.antt =====
-- What `ramfs_create_file` adds, and when it refuses.
use piux_kernel.Prelude.{
  ℕ, ◌<◌, ◌≡◌, ◌≢◌, refl, sym, ◌∙◌, true, false, inl, inr, [], arith, length, CString, ℤ, pos,
  negsuc, Bool-cases, ◌++◌, ap, is_negative, minus_one, get_or-set_self, get_or-set_ne,
}
use mathlib.Core.List.{append-nil}
use native.Mathlib.Decide.{dec_lt}
use piux_kernel.RamFs.{
  RamfsFile, Ramfs, zero_file, file_at, add_file, ramfs_find_file, ramfs_create_file,
  ramfs_max_files, ramfs_max_filename,
}
use piux_kernel.CStrings.{IsText}
use piux_kernel.RamFs.Names.{strlen-length, strcpy-eq}
use piux_kernel.RamFs.Find.{find-first, FirstAnswer, Answers}
use piux_kernel.RamFs.Inv.{IsValid}

-- A name that `ramfs_create_file` does not refuse for its length.
pub record IsName (name : CString) : Type 0 where
  pub text : IsText name
  pub not_empty : 0 < length name
  pub fits : length name < ramfs_max_filename

module _ (r : Ramfs) (name : CString) (v : IsValid r) (n : IsName name) where
  answers_or_not : FirstAnswer name r (ramfs_find_file r name)
  answers_or_not = find-first r name n.text (omega (arith, n.fits))

  -- The outcome of the tests, by the search.
  create_taken :
      is_negative (ramfs_find_file r name) ≡ false → ramfs_create_file r name ≡ (minus_one, r)
  unfolding ramfs_create_file
  create_taken h = ground arith

  create_free :
      is_negative (ramfs_find_file r name) ≡ true
      → r.file_count < ramfs_max_files
      → ramfs_create_file r name ≡ (pos r.file_count, add_file r name)
  unfolding ramfs_create_file
  create_free h room = ground (arith, strlen-length name n.text, n.fits, n.not_empty)

  -- The slot that creation fills, and the others.
  new_file :
      r.file_count < ramfs_max_files
      → file_at (add_file r name) r.file_count
        ≡ record (file_at r r.file_count) { filename = name; size = 0; used = true }
  new_file room =
      get_or-set_self r.files r.file_count _ zero_file (omega (arith, v.slots))
      ∙ rw (strcpy-eq name ramfs_max_filename n.text n.fits)

  old_file : (i : ℕ) → r.file_count ≢ i → file_at (add_file r name) i ≡ file_at r i
  old_file i ne = get_or-set_ne r.files r.file_count i _ zero_file ne

  new_Answers :
      r.file_count < ramfs_max_files → Answers name (file_at (add_file r name) r.file_count)
  new_Answers room = rw (new_file room) (refl, ([], sym (append-nil name)))

  old_none :
      is_negative (ramfs_find_file r name) ≡ true
      → (j : ℕ) → j < r.file_count
      → ¬ Answers name (file_at r j)
  old_none h = of_negative (ramfs_find_file r name) h answers_or_not
    where
      of_negative :
          (z : ℤ)
          → is_negative z ≡ true
          → FirstAnswer name r z
          → (j : ℕ) → j < r.file_count
          → ¬ Answers name (file_at r j)
      of_negative (pos k) e f = cc
      of_negative (negsuc k) e f = f.1

  find_new :
      is_negative (ramfs_find_file r name) ≡ true
      → r.file_count < ramfs_max_files
      → (z : ℤ) → FirstAnswer name (add_file r name) z
      → z ≡ pos r.file_count
  find_new h room (pos k) (lt, a, before) = elim (dec_lt k r.file_count) [
    | yes below ↦ absurd (old_none h k below (rw (old_file k (omega arith)) at a))
    | no above ↦ ap pos (omega arith)
  ]
  find_new h room (negsuc k) (e, none_of) =
      absurd (none_of r.file_count (omega arith) (new_Answers room))

-- In a valid store with a free slot, for a name of 1 to 63 bytes that no file's name starts with,
-- `ramfs_create_file` returns the old count. The name is then found there, as an empty file of
-- just that name, and every other slot is as it was.
pub create-find :
    (r : Ramfs) (name : CString)
    → IsValid r
    → IsName name
    → is_negative (ramfs_find_file r name) ≡ true
    → r.file_count < ramfs_max_files
    → let (z, r') = ramfs_create_file r name in
      (z ≡ pos r.file_count)
      × (ramfs_find_file r' name ≡ pos r.file_count)
      × ((file_at r' r.file_count).filename ≡ name)
      × ((file_at r' r.file_count).size ≡ 0)
      × ((i : ℕ) → r.file_count ≢ i → file_at r' i ≡ file_at r i)
create-find r name v n h room = rw (create_free r name v n h room) (
  refl,
  find_new r name v n h room _ (find-first (add_file r name) name n.text (omega (arith, n.fits))),
  ap (λ (f : RamfsFile). f.filename) (new_file r name v n room),
  ap (λ (f : RamfsFile). f.size) (new_file r name v n room),
  old_file r name v n,
)

-- A name of 1 to 63 bytes that some file's longer name starts with cannot be created: the search
-- takes that file for it, the call returns -1, and the store stays as it was.
pub create_shadowed :
    (r : Ramfs) (name rest : CString) (i : ℕ)
    → IsValid r
    → IsName name
    → i < r.file_count
    → (file_at r i).filename ≡ name ++ rest
    → ramfs_create_file r name ≡ (minus_one, r)
create_shadowed r name rest i v n lt e = elim (Bool-cases (is_negative (ramfs_find_file r name))) [
  | inl none_of ↦ absurd (old_none r name v n none_of i lt ((v.is_file i lt).is_used, (rest, e)))
  | inr taken ↦ create_taken r name v n taken
]
