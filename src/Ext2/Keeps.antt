-- ===== src/Ext2/Keeps.antt =====
-- Steps of kernel/ext2.c that only read: they leave the state as it is.
use piux_kernel.Prelude.{
  ℕ, ◌-◌, ◌*◌, ◌/◌, ◌%◌, ◌^◌, ◌≡◌, ◌∙◌, refl, ap, Bool, true, false, ◌&&◌, ◌||◌, not, ltb, leb,
  ◌==◌, if◌then◌else◌, Option, none, some, Buffer, load32, Fallible, after, ◌>>=◌, ◌>>◌, pure, fail,
  guard,
}
use piux_kernel.Ext2.Disk.{Disk}
use piux_kernel.Ext2.State.{
  Ext2, blocks_count, inode_direct, indirect_block, doubly_indirect_block, triply_indirect_block,
}
use piux_kernel.Ext2.Blocks.{ext2_read_block, got_sectors}
use piux_kernel.Ext2.Inodes.{read_pointer, double_block, triple_block, inode_block, block_of}

module _ {D : Type 0} where
  -- A step that leaves the state as it is.
  abbrev pub Keeps : {A : Type 0} → Fallible (Ext2 D) A → Type 0
  Keeps m = (s : Ext2 D) → (m s).1 ≡ s

  after-Keeps :
      {A B : Type 0} (f : A → Fallible (Ext2 D) B) (r : Option A) (s : Ext2 D)
      → ((a : A) → Keeps (f a))
      → (after f (r, s)).1 ≡ s
  after-Keeps f none s h = refl
  after-Keeps f (some a) s h = h a s

  pub then-Keeps :
      {A B : Type 0} (m : Fallible (Ext2 D) A) (f : A → Fallible (Ext2 D) B)
      → Keeps m
      → ((a : A) → Keeps (f a))
      → Keeps (m >>= f)
  then-Keeps m f h g s = ap (λ t. (after f ((m s).0, t)).1) (h s) ∙ after-Keeps f (m s).0 s g

  got-Keeps : (r : Option Buffer) → Keeps (got_sectors r)
  got-Keeps none s = refl
  got-Keeps (some b) s = refl

  guarded-Keeps : {A : Type 0} (b : Bool) (m : Fallible (Ext2 D) A) → Keeps m → Keeps (guard b >> m)
  guarded-Keeps true m h s = h s
  guarded-Keeps false m h s = refl

  if-Keeps :
      {A : Type 0} (b : Bool) (m n : Fallible (Ext2 D) A)
      → Keeps m
      → Keeps n
      → (s : Ext2 D) → (if b then m s else n s).1 ≡ s
  if-Keeps true m n h g s = h s
  if-Keeps false m n h g s = g s

module _ {D : Type 0} (k : Disk D) where
  pub read_block-Keeps : (n : ℕ) → Keeps (ext2_read_block k n)
  unfolding ext2_read_block
  read_block-Keeps n s =
      if-Keeps (not s.mounted || leb (blocks_count s.superblock) n) fail
        (got_sectors
          (k.ata_read_sectors (n * (s.block_size / 512) % 2 ^ 32) (s.block_size / 512) s.disk))
        (λ t. refl) (got-Keeps _) s

  read_pointer-Keeps : (block index : ℕ) → Keeps (read_pointer k block index)
  unfolding read_pointer
  read_pointer-Keeps block index s =
      guarded-Keeps (not (block == 0) && ltb index (s.block_size / 4))
        (ext2_read_block k block >>= λ b. pure (load32 b (4 * index)))
        (then-Keeps (ext2_read_block k block) (λ b. pure (load32 b (4 * index)))
          (read_block-Keeps block) (λ b t. refl))
        s

  double_block-Keeps :
      (inode : Buffer) (pointers logical : ℕ) → Keeps (double_block k inode pointers logical)
  unfolding double_block
  double_block-Keeps inode pointers logical =
      then-Keeps (read_pointer k (doubly_indirect_block inode) (logical / pointers))
        (λ first. read_pointer k first (logical % pointers))
        (read_pointer-Keeps (doubly_indirect_block inode) (logical / pointers))
        (λ first. read_pointer-Keeps first (logical % pointers))

  triple_block-Keeps :
      (inode : Buffer) (pointers logical : ℕ) → Keeps (triple_block k inode pointers logical)
  unfolding triple_block
  triple_block-Keeps inode pointers logical =
      let next : ℕ → Fallible (Ext2 D) ℕ = λ second. read_pointer k second (logical % pointers) in
      let table : ℕ → Fallible (Ext2 D) ℕ =
        λ first. read_pointer k first (logical / pointers % pointers) in
      let index = logical / (pointers * pointers) in
      then-Keeps (read_pointer k (triply_indirect_block inode) index)
        (λ first. table first >>= next) (read_pointer-Keeps (triply_indirect_block inode) index)
        (λ first.
          then-Keeps (table first) next (read_pointer-Keeps first (logical / pointers % pointers))
            (λ second. read_pointer-Keeps second (logical % pointers)))

  inode_block-Keeps : (inode : Buffer) (logical : ℕ) → Keeps (inode_block k inode logical)
  unfolding inode_block
  inode_block-Keeps inode logical s =
      let pointers = s.block_size / 4 in
      let behind = logical - 12 in
      let in_double = behind - pointers in
      let in_triple = in_double - pointers * pointers in
      let direct : Fallible (Ext2 D) ℕ = pure (inode_direct inode logical) in
      let single : Fallible (Ext2 D) ℕ = read_pointer k (indirect_block inode) behind in
      let double : Fallible (Ext2 D) ℕ = double_block k inode pointers in_double in
      let triple : Fallible (Ext2 D) ℕ = triple_block k inode pointers in_triple in
      let from_triple : Fallible (Ext2 D) ℕ =
        λ t. if ltb in_triple (pointers * pointers * pointers) then triple t else (none, t) in
      let from_double : Fallible (Ext2 D) ℕ =
        λ t. if ltb in_double (pointers * pointers) then double t else from_triple t in
      let from_single : Fallible (Ext2 D) ℕ =
        λ t. if ltb behind pointers then single t else from_double t in
      if-Keeps (ltb logical 12) direct from_single (λ t. refl)
        (if-Keeps (ltb behind pointers) single from_double
          (read_pointer-Keeps (indirect_block inode) behind)
          (if-Keeps (ltb in_double (pointers * pointers)) double from_triple
            (double_block-Keeps inode pointers in_double)
            (if-Keeps (ltb in_triple (pointers * pointers * pointers)) triple fail
              (triple_block-Keeps inode pointers in_triple) (λ t. refl))))
        s

  pub block_of-Keeps : (inode : Buffer) (logical : ℕ) → Keeps (block_of k inode logical)
  unfolding block_of
  block_of-Keeps inode logical =
      then-Keeps (inode_block k inode logical)
        (λ physical. guard (not (physical == 0)) >> pure physical) (inode_block-Keeps inode logical)
        (λ physical. guarded-Keeps (not (physical == 0)) (pure physical) (λ t. refl))
