-- ===== src/RamFs/Names.antt =====
-- The name helpers of kernel/ramfs.c on well-formed C strings.
use piux_kernel.Prelude.{
  ℕ, suc, ◌<◌, ◌≤◌, ◌≡◌, ◌≢◌, ◌↔◌, refl, true, [], ◌∷◌, ◌++◌, arith, length, CString,
}
use piux_kernel.CStrings.{IsText, strlen_up_to-length, copy_up_to-eq, copy_up_to-IsText}
use piux_kernel.RamFs.{strncmp_is_zero, strlen_ramfs, strcpy_ramfs, ramfs_max_filename}

-- The second string starts with the first.
abbrev pub IsPrefix : CString → CString → Type 0
IsPrefix name stored = (rest : CString) × (stored ≡ name ++ rest)

-- A text of at most 64 bytes is measured exactly.
pub strlen-length :
    (s : CString) → IsText s → length s ≤ ramfs_max_filename → strlen_ramfs s ≡ length s
unfolding strlen_ramfs
strlen-length s t h = strlen_up_to-length ramfs_max_filename s t h

-- A text that fits with its terminator is copied whole.
pub strcpy-eq : (s : CString) (max : ℕ) → IsText s → length s < max → strcpy_ramfs s max ≡ s
unfolding strcpy_ramfs
strcpy-eq s max t h = copy_up_to-eq _ s t (omega arith)

-- Whatever is copied, the buffer holds a terminated text that fits.
pub strcpy-IsText :
    (s : CString) (max : ℕ)
    → 0 < max
    → IsText (strcpy_ramfs s max) × (length (strcpy_ramfs s max) < max)
unfolding strcpy_ramfs
strcpy-IsText s max h = let p = copy_up_to-IsText _ s in (p.0, omega arith)

IsPrefix-cons :
    (x y : ℕ) (a b : CString)
    → (strncmp_is_zero a b (length b) ≡ true) ↔ IsPrefix b a
    → y ≢ 0
    → (strncmp_is_zero (x ∷ a) (y ∷ b) (suc (length b)) ≡ true) ↔ IsPrefix (y ∷ b) (x ∷ a)
unfolding strncmp_is_zero
IsPrefix-cons x y a b ih ne = (forth, back)
  where
    forth : strncmp_is_zero (x ∷ a) (y ∷ b) (suc (length b)) ≡ true → IsPrefix (y ∷ b) (x ∷ a)
    forth h = let p = ih.0 (ground arith) in (p.0, ground (arith, p.1))

    back : IsPrefix (y ∷ b) (x ∷ a) → strncmp_is_zero (x ∷ a) (y ∷ b) (suc (length b)) ≡ true
    back p = ground (arith, ih.1 (p.0, ground (arith, p.1)))

-- The comparison over the length of a text asks whether the stored name starts with it.
pub strncmp-IsPrefix :
    (a name : CString)
    → IsText name
    → (strncmp_is_zero a name (length name) ≡ true) ↔ IsPrefix name a
unfolding strncmp_is_zero
strncmp-IsPrefix a [] t = (λ _. (a, refl), λ _. refl)
strncmp-IsPrefix [] (y ∷ b) t = (λ h. absurd (ground arith), λ p. absurd (ground arith))
strncmp-IsPrefix (x ∷ a) (y ∷ b) t = IsPrefix-cons x y a b (strncmp-IsPrefix a b t.1) t.0
