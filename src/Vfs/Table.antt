-- ===== src/Vfs/Table.antt =====
-- The table of descriptors: which one a call takes, and what every call keeps.
use piux_kernel.Prelude.{
  ℕ, zero, suc, ◌+◌, ◌<◌, ◌≤◌, ◌≡◌, ◌∙◌, inl, inr, sym, ap, true, false, List, Option, none, some,
  arith, Bool-cases, le_cases,
}
use piux_kernel.Vfs.{Descriptor, descriptor_at, free_from}

-- The search finds the lowest free descriptor of the range.
abbrev pub IsLowest : ℕ → ℕ → List Descriptor → Option ℕ → Type 0
IsLowest left fd ds none = (j : ℕ) → fd ≤ j → j < fd + left → (descriptor_at ds j).used ≡ true
IsLowest left fd ds (some k) =
    (fd ≤ k)
    × (k < fd + left)
    × ((descriptor_at ds k).used ≡ false)
    × ((j : ℕ) → fd ≤ j → j < k → (descriptor_at ds j).used ≡ true)

pub free_from-IsLowest :
    (left fd : ℕ) (ds : List Descriptor) → IsLowest left fd ds (free_from left fd ds)
unfolding free_from
free_from-IsLowest zero fd ds = λ j lo hi. absurd (omega arith)
free_from-IsLowest (suc left) fd ds = elim (Bool-cases (descriptor_at ds fd).used) [
  | inl e ↦ rw e (extend (free_from left (fd + 1) ds) e (free_from-IsLowest left (fd + 1) ds))
  | inr e ↦ rw e (omega arith, omega arith, e, λ j lo hi. absurd (omega arith))
]
  where
    here :
        (descriptor_at ds fd).used ≡ true
        → (j : ℕ) → fd ≤ j
        → (fd + 1 ≤ j → (descriptor_at ds j).used ≡ true)
        → (descriptor_at ds j).used ≡ true
    here e j lo later = elim (le_cases fd j lo) [
      | inl same ↦ ap (λ i. (descriptor_at ds i).used) (sym same) ∙ e
      | inr less ↦ later less
    ]

    extend :
        (found : Option ℕ)
        → (descriptor_at ds fd).used ≡ true
        → IsLowest left (fd + 1) ds found
        → IsLowest (suc left) fd ds found
    extend none e h = λ j lo hi. here e j lo (λ less. h j less (omega arith))
    extend (some k) e (lo, hi, free, below) =
        (omega arith, omega arith, free, λ j lo' hi'. here e j lo' (λ less. below j less hi'))
