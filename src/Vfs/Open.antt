-- ===== src/Vfs/Open.antt =====
-- Which descriptor `vfs_open` of kernel/vfs.c gives out, and that `vfs_close` takes it back.
use piux_kernel.Prelude.{
  ℕ, ◌-◌, ◌<◌, ◌≤◌, ◌≡◌, ◌∙◌, inl, inr, refl, sym, ap, subst, true, false, ◌||◌, not, ◌==◌, List,
  Option, none, some, ℤ, pos, negsuc, is_negative, set, length, length-set, get_or-set, CString,
  arith, Bool-cases, ==_iff,
}
use piux_kernel.Vfs.Interface.{World}
use piux_kernel.Vfs.Devices.{find_device}
use piux_kernel.Vfs.Table.{IsLowest, free_from-IsLowest}
use piux_kernel.Vfs.{
  Descriptor, Vfs, vfs_max_fds, unused, descriptor_at, has, copy_path, free_from, open_at,
  vfs_close, has_permission, is_regular, create_file, open_existing, vfs_open, is_some,
}

abbrev pub opened : CString → ℕ → Descriptor
opened path flags = record { used = true; flags = flags; offset = 0; path = copy_path path }

used_again :
    (ds : List Descriptor) (fd j : ℕ) (d e : Descriptor)
    → fd < length ds
    → (descriptor_at ds fd).used ≡ false
    → e.used ≡ false
    → (descriptor_at (set (set ds fd d) fd e) j).used ≡ (descriptor_at ds j).used
used_again ds fd j d e lt free h = elim (Bool-cases (fd == j)) [
  | inl same ↦
      ap (λ t. t.used) (get_or-set (set ds fd d) fd j e unused (omega (arith, length-set ds fd d)))
      ∙ rw same (h ∙ sym free ∙ ap (λ i. (descriptor_at ds i).used) ((==_iff fd j).0 same))
  | inr other ↦
      ap (λ t. t.used) (get_or-set (set ds fd d) fd j e unused (omega (arith, length-set ds fd d)))
      ∙ rw other (ap (λ t. t.used) (get_or-set ds fd j d unused lt) ∙ rw other refl)
]

module _ {F : Type 0} where
  -- A call that fails leaves the table as it is; one that succeeds takes the lowest descriptor
  -- from 3 on that is free.
  abbrev pub Takes : CString → ℕ → Vfs F → ℤ × Vfs F → Type 0
  Takes path flags v (negsuc n, v') = (n ≡ 0) × (v'.descriptors ≡ v.descriptors)
  Takes path flags v (pos fd, v') =
      IsLowest (vfs_max_fds - 3) 3 v.descriptors (some fd)
      × (v'.descriptors ≡ set v.descriptors fd (opened path flags))

  open_at-Takes :
      (path : CString) (flags : ℕ) (v : Vfs F) (f : F)
      → Takes path flags v (open_at (free_from 29 3 v.descriptors) path flags v.descriptors f)
  unfolding open_at
  open_at-Takes path flags v f =
      by_slot (free_from 29 3 v.descriptors) (free_from-IsLowest 29 3 v.descriptors)
    where
      by_slot :
          (slot : Option ℕ)
          → IsLowest 29 3 v.descriptors slot
          → Takes path flags v (open_at slot path flags v.descriptors f)
      by_slot none h = (refl, refl)
      by_slot (some fd) h = (h, refl)

  close_lem :
      (fd : ℕ) (v : Vfs F)
      → 3 ≤ fd
      → fd < vfs_max_fds
      → (descriptor_at v.descriptors fd).used ≡ true
      → vfs_close (pos fd) v ≡ (
        pos 0,
        record v {
          descriptors =
              set v.descriptors fd (record (descriptor_at v.descriptors fd) { used = false });
        },
      )
  unfolding vfs_close
  close_lem fd v lo hi used = ground arith

  -- A descriptor that was given out is closed with result 0, and the same descriptors are in use
  -- as before it was opened.
  close_opened :
      (path : CString) (flags fd : ℕ) (v v' : Vfs F)
      → length v.descriptors ≡ vfs_max_fds
      → Takes path flags v (pos fd, v')
      → let (r, v'') = vfs_close (pos fd) v' in
        (r ≡ pos 0)
        × ((j : ℕ) → (descriptor_at v''.descriptors j).used ≡ (descriptor_at v.descriptors j).used)
  close_opened path flags fd v v' size ((lo, hi, free, below), e) =
      rw (close_lem fd v' lo hi used) (refl, again)
    where
      used : (descriptor_at v'.descriptors fd).used ≡ true
      used = rw e (
          ap (λ t. t.used)
            (get_or-set v.descriptors fd fd (opened path flags) unused (omega (arith, size)))
          ∙ ground arith)

      again :
          (j : ℕ)
          → (descriptor_at
              (set v'.descriptors fd (record (descriptor_at v'.descriptors fd) { used = false }))
              j).used
            ≡ (descriptor_at v.descriptors j).used
      again j =
          ap
            (λ ds.
              (descriptor_at (set ds fd (record (descriptor_at v'.descriptors fd) { used = false }))
                j).used)
            e
          ∙ used_again v.descriptors fd j (opened path flags)
              (record (descriptor_at v'.descriptors fd) { used = false }) (omega (arith, size)) free
              refl

module _ {F : Type 0} (w : World F) where
  open_existing-Takes :
      (path : CString) (flags : ℕ) (v : Vfs F) (f : F)
      → Takes path flags v (open_existing w path flags v.descriptors f)
  unfolding open_existing
  open_existing-Takes path flags v f = elim (Bool-cases (has_permission w path flags f)) [
    | inl e ↦ rw e (open_at-Takes path flags v f)
    | inr e ↦ rw e (refl, refl)
  ]

  -- Whatever the file systems answer, `vfs_open` fails with -1 and leaves the table as it is, or
  -- returns the lowest free descriptor from 3 on, which is then in use from offset 0 with the path
  -- and the flags given, and leaves all others as they are.
  pub open-Takes :
      (path : CString) (flags : ℕ) (v : Vfs F) → Takes path flags v (vfs_open w path flags v)
  unfolding vfs_open
  open-Takes path flags v =
      let here = open_existing-Takes path flags v v.world in
      let there = open_existing-Takes path flags v (create_file w path v.world).1 in
      elim (Bool-cases (is_some (find_device path) || is_regular w path v.world)) [
        | inl e ↦ rw e here
        | inr e ↦ rw e (elim (Bool-cases (not (has flags 4))) [
          | inl e' ↦ rw e' (refl, refl)
          | inr e' ↦ rw e' (elim (Bool-cases (is_negative (create_file w path v.world).0)) [
            | inl e'' ↦ rw e'' (refl, refl)
            | inr e'' ↦ rw e'' there
          ])
        ])
      ]

  -- After a `vfs_open` that succeeds, `vfs_close` of what it returned gives 0, and then the same
  -- descriptors are in use as before.
  pub open-close :
      (path : CString) (flags fd : ℕ) (v : Vfs F)
      → length v.descriptors ≡ vfs_max_fds
      → (vfs_open w path flags v).0 ≡ pos fd
      → let (r, v'') = vfs_close (pos fd) (vfs_open w path flags v).1 in
        (r ≡ pos 0)
        × ((j : ℕ) → (descriptor_at v''.descriptors j).used ≡ (descriptor_at v.descriptors j).used)
  open-close path flags fd v size e =
      close_opened path flags fd v (vfs_open w path flags v).1 size (
        subst (λ r. Takes path flags v (r, (vfs_open w path flags v).1)) e
          (open-Takes path flags v))
