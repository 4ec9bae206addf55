-- ===== src/CStrings.antt =====
-- The loops over C strings that several files of kernel/ repeat: a bounded length and a bounded copy
-- (kernel/ramfs.c, kernel/process.c, kernel/vfs.c).
use piux_kernel.Prelude.{
  ℕ, zero, suc, ◌≤◌, ◌≡◌, ◌≢◌, refl, [], ◌∷◌, arith, length, CString, ◌==◌, if◌then◌else◌,
}

-- No terminator among the bytes.
abbrev pub IsText : CString → Type 0
IsText [] = Unit {0}
IsText (c ∷ s) = (c ≢ 0) × IsText s

-- `while (s[i] && i < limit) i++`, with `limit` steps left.
unfoldable pub strlen_up_to : ℕ → CString → ℕ
strlen_up_to zero s = 0
strlen_up_to (suc n) [] = 0
strlen_up_to (suc n) (c ∷ s) = if c == 0 then 0 else suc (strlen_up_to n s)

-- The C string that a bounded copy loop leaves, with `n` steps left.
unfoldable pub copy_up_to : ℕ → CString → CString
copy_up_to zero s = []
copy_up_to (suc n) [] = []
copy_up_to (suc n) (c ∷ s) = if c == 0 then [] else c ∷ copy_up_to n s

pub strlen_up_to-length :
    (n : ℕ) (s : CString) → IsText s → length s ≤ n → strlen_up_to n s ≡ length s
unfolding strlen_up_to
strlen_up_to-length zero [] t h = refl
strlen_up_to-length zero (c ∷ s) t h = absurd (omega arith)
strlen_up_to-length (suc n) [] t h = refl
strlen_up_to-length (suc n) (c ∷ s) t h = ground (arith, strlen_up_to-length n s t.1)

pub copy_up_to-eq : (n : ℕ) (s : CString) → IsText s → length s ≤ n → copy_up_to n s ≡ s
unfolding copy_up_to
copy_up_to-eq zero [] t h = refl
copy_up_to-eq zero (c ∷ s) t h = absurd (omega arith)
copy_up_to-eq (suc n) [] t h = refl
copy_up_to-eq (suc n) (c ∷ s) t h = ground (arith, copy_up_to-eq n s t.1)

pub copy_up_to-IsText :
    (n : ℕ) (s : CString) → IsText (copy_up_to n s) × (length (copy_up_to n s) ≤ n)
unfolding copy_up_to
copy_up_to-IsText zero s = (tt, omega arith)
copy_up_to-IsText (suc n) [] = (tt, omega arith)
copy_up_to-IsText (suc n) (c ∷ s) = ground (arith, copy_up_to-IsText n s)
