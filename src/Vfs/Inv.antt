-- ===== src/Vfs/Inv.antt =====
-- What every call of kernel/vfs.c keeps of the table of descriptors.
use piux_kernel.Prelude.{
  ℕ, ◌+◌, ◌%◌, ◌^◌, ◌<◌, ◌≤◌, ◌≡◌, ◌⊎◌, ◌∙◌, inl, inr, refl, ap, true, false, ◌||◌, not, ltb, leb,
  ◌==◌, List, [], ◌∷◌, Option, none, some, ℤ, pos, negsuc, is_negative, nat_part, set, length,
  length-set, get_or-set, Buffer, CString, arith, Bool-cases,
}
use piux_kernel.Vfs.Interface.{World}
use piux_kernel.Vfs.Devices.{Device, find_device, device_read, device_write}
use piux_kernel.Vfs.Table.{IsLowest, free_from-IsLowest}
use piux_kernel.Vfs.{
  Descriptor, Vfs, vfs_max_fds, unused, descriptor_at, has, copy_path, free_from, vfs_init, open_at,
  move_on, end_read, end_write, vfs_close, vfs_seek, has_permission, is_regular, create_file,
  open_existing, vfs_open, read_regular, read_from, vfs_read, write_regular, write_to, vfs_write,
  is_some, read_file, write_file,
}

-- The table has its 32 descriptors, and the three standard ones are in use.
pub record IsValid {F : Type 0} (v : Vfs F) : Type 0 where
  pub size : length v.descriptors ≡ vfs_max_fds
  pub stdin : (descriptor_at v.descriptors 0).used ≡ true
  pub stdout : (descriptor_at v.descriptors 1).used ≡ true
  pub stderr : (descriptor_at v.descriptors 2).used ≡ true

module _ {F : Type 0} where
  init-IsValid : (f : F) → IsValid (vfs_init f)
  unfolding vfs_init
  init-IsValid f = record { size = refl; stdin = refl; stdout = refl; stderr = refl }

  -- A descriptor is replaced by one in use.
  set-IsValid :
      (v : Vfs F) (fd : ℕ) (d : Descriptor) (f : F)
      → IsValid v
      → fd < vfs_max_fds
      → (d.used ≡ true) ⊎ (3 ≤ fd)
      → IsValid (record { descriptors = set v.descriptors fd d; world = f })
  set-IsValid v fd d f h lt ok = record {
    size = length-set v.descriptors fd d ∙ h.size;
    stdin = ground (arith, get_or-set v.descriptors fd 0 d unused, h.size, h.stdin);
    stdout = ground (arith, get_or-set v.descriptors fd 1 d unused, h.size, h.stdout);
    stderr = ground (arith, get_or-set v.descriptors fd 2 d unused, h.size, h.stderr);
  }

  world-IsValid : (v : Vfs F) (f : F) → IsValid v → IsValid (record v { world = f })
  world-IsValid v f h = record {
    size = h.size;
    stdin = h.stdin;
    stdout = h.stdout;
    stderr = h.stderr;
  }

  -- What a call of the file gives the descriptor table: nothing changes, or one descriptor is
  -- replaced by one in use or is not a standard one.
  abbrev pub Changes : Vfs F → Vfs F → Type 0
  Changes v v' =
      (v'.descriptors ≡ v.descriptors)
      ⊎ (fd : ℕ) × (d : Descriptor) × (fd < vfs_max_fds)
        × ((d.used ≡ true) ⊎ (3 ≤ fd))
        × (v'.descriptors ≡ set v.descriptors fd d)

  Changes-IsValid : (v v' : Vfs F) → IsValid v → Changes v v' → IsValid v'
  Changes-IsValid v v' h (inl e) = by_table v.descriptors e (world-IsValid v v'.world h)
    where
      by_table :
          (ds : List Descriptor)
          → v'.descriptors ≡ ds
          → IsValid (record { descriptors = ds; world = v'.world })
          → IsValid v'
      by_table ds e k = record {
        size = ap length e ∙ k.size;
        stdin = ap (λ t. (descriptor_at t 0).used) e ∙ k.stdin;
        stdout = ap (λ t. (descriptor_at t 1).used) e ∙ k.stdout;
        stderr = ap (λ t. (descriptor_at t 2).used) e ∙ k.stderr;
      }
  Changes-IsValid v v' h (inr (fd, d, lt, ok, e)) =
      let k = set-IsValid v fd d v'.world h lt ok in
      record {
        size = ap length e ∙ k.size;
        stdin = ap (λ t. (descriptor_at t 0).used) e ∙ k.stdin;
        stdout = ap (λ t. (descriptor_at t 1).used) e ∙ k.stdout;
        stderr = ap (λ t. (descriptor_at t 2).used) e ∙ k.stderr;
      }

  close-Changes : (fd : ℤ) (v : Vfs F) → Changes v (vfs_close fd v).1
  unfolding vfs_close
  close-Changes (negsuc n) v = inl refl
  close-Changes (pos fd) v =
      elim (Bool-cases
        (ltb fd 3 || leb vfs_max_fds fd || not (descriptor_at v.descriptors fd).used)) [
          | inl e ↦ rw e (inl refl)
          | inr e ↦ rw e (
              inr (
                fd,
                record (descriptor_at v.descriptors fd) { used = false },
                ground arith,
                inr (ground arith),
                refl,
              ))
        ]

  seek-Changes : (fd : ℤ) (offset : ℕ) (v : Vfs F) → Changes v (vfs_seek fd offset v).1
  unfolding vfs_seek
  seek-Changes (negsuc n) offset v = inl refl
  seek-Changes (pos fd) offset v =
      elim (Bool-cases (leb vfs_max_fds fd || not (descriptor_at v.descriptors fd).used)) [
        | inl e ↦ rw e (inl refl)
        | inr e ↦ rw e (
            inr (
              fd,
              record (descriptor_at v.descriptors fd) { offset = offset },
              ground arith,
              inl (ground arith),
              refl,
            ))
      ]

  open_at-Changes :
      (path : CString) (flags : ℕ) (v : Vfs F) (f : F)
      → Changes v (open_at (free_from 29 3 v.descriptors) path flags v.descriptors f).1
  unfolding open_at
  open_at-Changes path flags v f =
      by_slot (free_from 29 3 v.descriptors) (free_from-IsLowest 29 3 v.descriptors)
    where
      by_slot :
          (slot : Option ℕ)
          → IsLowest 29 3 v.descriptors slot
          → Changes v (open_at slot path flags v.descriptors f).1
      by_slot none h = inl refl
      by_slot (some fd) h = inr (
        fd,
        record { used = true; flags = flags; offset = 0; path = copy_path path },
        omega arith,
        inl refl,
        refl,
      )

-- A call of the file.
pub data Call : Type 0 where
  open_path : (path : CString) (flags : ℕ) → Call
  read : (fd : ℤ) (buffer : Buffer) (size : ℕ) → Call
  write : (fd : ℤ) (bytes : Buffer) (size : ℕ) → Call
  close : (fd : ℤ) → Call
  seek : (fd : ℤ) (offset : ℕ) → Call

module _ {F : Type 0} (w : World F) where
  open_existing-Changes :
      (path : CString) (flags : ℕ) (v : Vfs F) (f : F)
      → Changes v (open_existing w path flags v.descriptors f).1
  unfolding open_existing
  open_existing-Changes path flags v f = elim (Bool-cases (has_permission w path flags f)) [
    | inl e ↦ rw e (open_at-Changes path flags v f)
    | inr e ↦ rw e (inl refl)
  ]

  open-Changes : (path : CString) (flags : ℕ) (v : Vfs F) → Changes v (vfs_open w path flags v).1
  unfolding vfs_open
  open-Changes path flags v =
      let here = open_existing-Changes path flags v v.world in
      let there = open_existing-Changes path flags v (create_file w path v.world).1 in
      elim (Bool-cases (is_some (find_device path) || is_regular w path v.world)) [
        | inl e ↦ rw e here
        | inr e ↦ rw e (elim (Bool-cases (not (has flags 4))) [
          | inl e' ↦ rw e' (inl refl)
          | inr e' ↦ rw e' (elim (Bool-cases (is_negative (create_file w path v.world).0)) [
            | inl e'' ↦ rw e'' (inl refl)
            | inr e'' ↦ rw e'' there
          ])
        ])
      ]

  -- The descriptor is one in use.
  move_on-Changes :
      (fd done : ℕ) (v : Vfs F) (f : F)
      → fd < vfs_max_fds
      → (descriptor_at v.descriptors fd).used ≡ true
      → Changes v (record { descriptors = move_on fd done v.descriptors; world = f })
  move_on-Changes fd done v f lt used =
      let d = descriptor_at v.descriptors fd in
      inr (fd, record d { offset = (d.offset + done) % 2 ^ 32 }, lt, inl used, refl)

  read_from-Changes :
      (device : Option Device) (fd : ℕ) (buffer : Buffer) (size : ℕ) (v : Vfs F)
      → fd < vfs_max_fds
      → (descriptor_at v.descriptors fd).used ≡ true
      → Changes v (read_from w device fd buffer size v).2
  unfolding read_from read_regular end_read
  read_from-Changes none fd buffer size v lt used =
      let d = descriptor_at v.descriptors fd in
      let file_size = (read_file w d.path v.world).0 in
      elim (Bool-cases (is_negative file_size || leb (nat_part file_size) d.offset)) [
        | inl e ↦ rw e (inl refl)
        | inr e ↦ rw e (move_on-Changes fd 0 v v.world lt used)
      ]
  read_from-Changes (some device) fd buffer size v lt used =
      by_result (device_read w device buffer size (descriptor_at v.descriptors fd).offset v.world)
    where
      by_result : (r : Option (ℕ × Buffer × F)) → Changes v (end_read fd buffer v r).2
      by_result none = inl refl
      by_result (some (done, buffer', f)) = move_on-Changes fd done v f lt used

  read-Changes :
      (fd : ℤ) (buffer : Buffer) (size : ℕ) (v : Vfs F) → Changes v (vfs_read w fd buffer size v).2
  unfolding vfs_read
  read-Changes (negsuc n) buffer size v = inl refl
  read-Changes (pos fd) buffer size v =
      let d = descriptor_at v.descriptors fd in
      elim (Bool-cases (leb vfs_max_fds fd || not d.used || not (has d.flags 1))) [
        | inl e ↦ rw e (inl refl)
        | inr e ↦
            rw e (
              read_from-Changes (find_device d.path) fd buffer size v (ground arith) (ground arith))
      ]

  write_to-Changes :
      (device : Option Device) (fd : ℕ) (bytes : Buffer) (size : ℕ) (v : Vfs F)
      → fd < vfs_max_fds
      → (descriptor_at v.descriptors fd).used ≡ true
      → Changes v (write_to w device fd bytes size v).1
  unfolding write_to write_regular end_write
  write_to-Changes none fd bytes size v lt used =
      let d = descriptor_at v.descriptors fd in
      let result = (write_file w d.path bytes size v.world).0 in
      elim (Bool-cases (not (d.offset == 0))) [
        | inl e ↦ rw e (inl refl)
        | inr e ↦ rw e (elim (Bool-cases (is_negative result)) [
          | inl e' ↦ rw e' (inl refl)
          | inr e' ↦ rw e' (
              move_on-Changes fd (nat_part result) v (write_file w d.path bytes size v.world).1 lt
                used)
        ])
      ]
  write_to-Changes (some device) fd bytes size v lt used =
      by_result (device_write w device bytes size (descriptor_at v.descriptors fd).offset v.world)
    where
      by_result : (r : Option (ℕ × F)) → Changes v (end_write fd v r).1
      by_result none = inl refl
      by_result (some (done, f)) = move_on-Changes fd done v f lt used

  write-Changes :
      (fd : ℤ) (bytes : Buffer) (size : ℕ) (v : Vfs F) → Changes v (vfs_write w fd bytes size v).1
  unfolding vfs_write
  write-Changes (negsuc n) bytes size v = inl refl
  write-Changes (pos fd) bytes size v =
      let d = descriptor_at v.descriptors fd in
      elim (Bool-cases (leb vfs_max_fds fd || not d.used || not (has d.flags 2))) [
        | inl e ↦ rw e (inl refl)
        | inr e ↦
            rw e
              (write_to-Changes (find_device d.path) fd bytes size v (ground arith) (ground arith))
      ]

  abbrev pub apply_call : Call → Vfs F → Vfs F
  apply_call (open_path path flags) v = (vfs_open w path flags v).1
  apply_call (read fd buffer size) v = (vfs_read w fd buffer size v).2
  apply_call (write fd bytes size) v = (vfs_write w fd bytes size v).1
  apply_call (close fd) v = (vfs_close fd v).1
  apply_call (seek fd offset) v = (vfs_seek fd offset v).1

  call-Changes : (c : Call) (v : Vfs F) → Changes v (apply_call c v)
  call-Changes (open_path path flags) v = open-Changes path flags v
  call-Changes (read fd buffer size) v = read-Changes fd buffer size v
  call-Changes (write fd bytes size) v = write-Changes fd bytes size v
  call-Changes (close fd) v = close-Changes fd v
  call-Changes (seek fd offset) v = seek-Changes fd offset v

  abbrev pub apply_calls : List Call → Vfs F → Vfs F
  apply_calls [] v = v
  apply_calls (c ∷ calls) v = apply_calls calls (apply_call c v)

  keep-IsValid : (calls : List Call) (v : Vfs F) → IsValid v → IsValid (apply_calls calls v)
  keep-IsValid [] v h = h
  keep-IsValid (c ∷ calls) v h =
      keep-IsValid calls (apply_call c v) (Changes-IsValid v (apply_call c v) h (call-Changes c v))

  -- After the start and any sequence of calls, with any file systems and devices below, the table
  -- has its 32 descriptors and the three standard ones are in use.
  pub apply_calls-IsValid : (calls : List Call) (f : F) → IsValid (apply_calls calls (vfs_init f))
  apply_calls-IsValid calls f = keep-IsValid calls (vfs_init f) (init-IsValid f)
