-- ===== src/Ext2/Reading.antt =====
-- What `ext2_read_file` of kernel/ext2.c gives: the bytes of the blocks of the file.
use piux_kernel.Prelude.{
  ℕ, zero, suc, ◌+◌, ◌-◌, ◌/◌, ◌%◌, ◌^◌, ◌<◌, ◌≤◌, ◌≡◌, ◌⊎◌, ◌∙◌, inl, inr, refl, sym, ap, subst,
  true, false, ltb, Option, none, some, Buffer, copy_bytes, copy_bytes_lem, Fallible, after, ◌>>=◌,
  pure, arith, le_or_lt, ltb→lt, lt→ltb, Bool-cases,
}
use piux_kernel.Ext2.Disk.{Disk}
use piux_kernel.Ext2.State.{Ext2, inode_size_of}
use piux_kernel.Ext2.Blocks.{min_u32, ext2_read_block}
use piux_kernel.Ext2.Inodes.{ext2_read_inode, block_of}
use piux_kernel.Ext2.Files.{read_from, ext2_read_file}
use piux_kernel.Ext2.Dirs.{as_int}
use piux_kernel.Ext2.Geometry.{IsMounted}
use piux_kernel.Ext2.Keeps.{Keeps, then-Keeps, read_block-Keeps, block_of-Keeps}

-- The places of a round are in the block where it starts.
same_block :
    (size at i : ℕ)
    → (size ≡ 1024) ⊎ (size ≡ 2048) ⊎ (size ≡ 4096)
    → at ≤ i
    → i < at + (size - at % size)
    → (i / size ≡ at / size) × (i % size ≡ at % size + (i - at))
same_block size at i sizes lo hi = elim sizes [
  | inl e ↦ subst In (sym e) (λ h. (omega arith, omega arith)) hi
  | inr (inl e) ↦ subst In (sym e) (λ h. (omega arith, omega arith)) hi
  | inr (inr e) ↦ subst In (sym e) (λ h. (omega arith, omega arith)) hi
]
  where
    In : ℕ → Type 0
    In z = i < at + (z - at % z) → (i / z ≡ at / z) × (i % z ≡ at % z + (i - at))

some_room : (size at : ℕ) → (size ≡ 1024) ⊎ (size ≡ 2048) ⊎ (size ≡ 4096) → at % size < size
some_room size at (inl e) = rw e (omega arith)
some_room size at (inr (inl e)) = rw e (omega arith)
some_room size at (inr (inr e)) = rw e (omega arith)

-- A round reads at least one byte.
some_amount :
    (wanted at left room amount : ℕ)
    → (amount ≡ min_u32 (wanted - at) room)
    → 0 < room
    → at < wanted
    → wanted ≤ at + suc left
    → wanted ≤ at + amount + left
some_amount wanted at left room amount same pos lt enough = ground arith

after-after :
    {S A B C : Type 0} (f : B → Fallible S C) (g : A → Fallible S B) (r : Option A × S)
    → after (λ a s. after f (g a s)) r ≡ after f (after g r)
after-after f g (none, s) = refl
after-after f g (some a, s) = refl

-- The byte of a buffer that may be there.
abbrev pub byte_of : ℕ → Option Buffer → Option ℕ
byte_of o none = none
byte_of o (some b) = some (b o)

module _ {D : Type 0} (k : Disk D) (inode : Buffer) where
  -- A block of the data of the file.
  unfoldable pub data_block : ℕ → Fallible (Ext2 D) Buffer
  unfolding block_of
  data_block logical = do physical ← block_of k inode logical; ext2_read_block k physical

  -- The byte of the file at `i`, if its block can be read.
  unfoldable pub file_byte : ℕ → Ext2 D → Option ℕ
  unfolding data_block
  file_byte i s = byte_of (i % s.block_size) (data_block (i / s.block_size) s).0

  data_block-Keeps : (logical : ℕ) → Keeps (data_block logical)
  unfolding data_block
  data_block-Keeps logical =
      then-Keeps (block_of k inode logical) (ext2_read_block k) (block_of-Keeps k inode logical)
        (read_block-Keeps k)

  -- What a loop from `at` to `wanted` gives: the bytes of the file there and those of the buffer
  -- elsewhere, or nothing, where a byte of the file cannot be read.
  abbrev pub IsRead : ℕ → ℕ → Buffer → Ext2 D → Option Buffer → Type 0
  IsRead wanted at buffer s r =
      ((out : Buffer) × (r ≡ some out)
        × ((i : ℕ) → at ≤ i → i < wanted → file_byte i s ≡ some (out i))
        × ((i : ℕ) → (i < at) ⊎ (wanted ≤ i) → out i ≡ buffer i))
      ⊎ ((i : ℕ) × (i < wanted) × (r ≡ none) × (file_byte i s ≡ none))

  -- One round of the loop.
  read_round :
      (left wanted at : ℕ) (buffer : Buffer) (s : Ext2 D)
      → ltb at wanted ≡ true
      → let offset = at % s.block_size in
        let amount = min_u32 (wanted - at) (s.block_size - offset) in
        read_from k (suc left) inode wanted at buffer s
        ≡ after
            (λ b.
              read_from k left inode wanted (at + amount) (copy_bytes amount buffer at b offset))
            ((data_block (at / s.block_size) s).0, s)
  unfolding read_from data_block
  read_round left wanted at buffer s h =
      let offset = at % s.block_size in
      let amount = min_u32 (wanted - at) (s.block_size - offset) in
      let logical = at / s.block_size in
      let next : Buffer → Fallible (Ext2 D) Buffer =
        λ b. read_from k left inode wanted (at + amount) (copy_bytes amount buffer at b offset) in
      rw (h, read_from) (after-after next (ext2_read_block k) (block_of k inode logical s))
      ∙ ap (λ t. after next ((data_block logical s).0, t)) (data_block-Keeps logical s)

  -- The loop has come to the end.
  read_end :
      (left wanted at : ℕ) (buffer : Buffer) (s : Ext2 D)
      → ltb at wanted ≡ false
      → read_from k left inode wanted at buffer s ≡ (some buffer, s)
  unfolding read_from
  read_end zero wanted at buffer s h = refl
  read_end (suc left) wanted at buffer s h = rw (h, read_from) refl

  -- The bytes of one round.
  copied :
      (amount at offset : ℕ) (buffer b : Buffer) (i : ℕ)
      → at ≤ i
      → i < at + amount
      → copy_bytes amount buffer at b offset i ≡ b (offset + (i - at))
  copied amount at offset buffer b i lo hi =
      copy_bytes_lem amount buffer at b offset i ∙ ground arith

  not_copied :
      (amount at offset : ℕ) (buffer b : Buffer) (i : ℕ)
      → (i < at) ⊎ (at + amount ≤ i)
      → copy_bytes amount buffer at b offset i ≡ buffer i
  not_copied amount at offset buffer b i out =
      copy_bytes_lem amount buffer at b offset i ∙ ground arith

  -- A byte of a block that was read.
  byte_there :
      (at i : ℕ) (s : Ext2 D) (b : Buffer)
      → IsMounted s
      → at ≤ i
      → i < at + (s.block_size - at % s.block_size)
      → (data_block (at / s.block_size) s).0 ≡ some b
      → file_byte i s ≡ some (b (at % s.block_size + (i - at)))
  unfolding file_byte
  byte_there at i s b h lo hi e =
      let (same, place) = same_block s.block_size at i h.block_sizes lo hi in
      rw (same, place, e) refl

  -- A result and the state, which is as before.
  abbrev IsGiven : ℕ → ℕ → Buffer → Ext2 D → Option Buffer × Ext2 D → Type 0
  IsGiven wanted at buffer s (r, s') = (s' ≡ s) × IsRead wanted at buffer s r

  gives_end :
      (wanted at : ℕ) (buffer : Buffer) (s : Ext2 D)
      → wanted ≤ at
      → IsGiven wanted at buffer s (some buffer, s)
  gives_end wanted at buffer s h =
      (refl, inl (buffer, refl, (λ i lo hi. absurd (omega arith)), (λ i out. refl)))

  -- A round that reads, before the rounds that are left.
  gives_round :
      (wanted at : ℕ) (buffer b : Buffer) (s : Ext2 D) (r : Option Buffer × Ext2 D)
      → IsMounted s
      → at < wanted
      → (data_block (at / s.block_size) s).0 ≡ some b
      → let offset = at % s.block_size in
        let amount = min_u32 (wanted - at) (s.block_size - offset) in
        IsGiven wanted (at + amount) (copy_bytes amount buffer at b offset) s r
        → IsGiven wanted at buffer s r
  gives_round wanted at buffer b s (r, s') h lt e (same, inr none_read) = (same, inr none_read)
  gives_round wanted at buffer b s (r, s') h lt e (same, inl (out, some_out, bytes, others)) =
      let offset = at % s.block_size in
      let amount = min_u32 (wanted - at) (s.block_size - offset) in
      let few : (amount ≤ wanted - at) × (amount ≤ s.block_size - offset) = ground arith in
      (
        same,
        inl (
          out,
          some_out,
          (λ i lo hi. elim (le_or_lt (at + amount) i) [
            | inl later ↦ bytes i later hi
            | inr now ↦
                byte_there at i s b h lo (omega (arith, few.1)) e
                ∙ ap some (sym (others i (inl now) ∙ copied amount at offset buffer b i lo now))
          ]),
          (λ i apart.
              others i (elim apart [ inl before ↦ inl (omega arith) | inr behind ↦ inr behind ])
              ∙ not_copied amount at offset buffer b i (elim apart [
                | inl before ↦ inl before
                | inr behind ↦ inr (omega (arith, few.0))
              ])),
        ),
      )

  -- A byte of a block that cannot be read.
  no_byte :
      (at : ℕ) (s : Ext2 D) → (data_block (at / s.block_size) s).0 ≡ none → file_byte at s ≡ none
  unfolding file_byte
  no_byte at s e = rw e refl

  gives_block :
      (left wanted at : ℕ) (buffer : Buffer) (s : Ext2 D)
      → IsMounted s
      → at < wanted
      → wanted ≤ at + suc left
      → ((at' : ℕ) (buffer' : Buffer)
          → wanted ≤ at' + left
          → IsGiven wanted at' buffer' s (read_from k left inode wanted at' buffer' s))
      → (r : Option Buffer) → (data_block (at / s.block_size) s).0 ≡ r
      → let offset = at % s.block_size in
        let amount = min_u32 (wanted - at) (s.block_size - offset) in
        IsGiven wanted at buffer s (
          after
            (λ b.
              read_from k left inode wanted (at + amount) (copy_bytes amount buffer at b offset))
            (r, s))
  gives_block left wanted at buffer s h lt enough rest none e =
      (refl, inr (at, lt, refl, no_byte at s e))
  gives_block left wanted at buffer s h lt enough rest (some b) e =
      let offset = at % s.block_size in
      let amount = min_u32 (wanted - at) (s.block_size - offset) in
      gives_round wanted at buffer b s
        (read_from k left inode wanted (at + amount) (copy_bytes amount buffer at b offset) s) h lt
        e
        (rest (at + amount) (copy_bytes amount buffer at b offset) (
          some_amount wanted at left (s.block_size - offset) amount refl
            (omega (arith, some_room s.block_size at h.block_sizes)) lt enough))

  loop-IsGiven :
      (left wanted at : ℕ) (buffer : Buffer) (s : Ext2 D)
      → IsMounted s
      → wanted ≤ at + left
      → IsGiven wanted at buffer s (read_from k left inode wanted at buffer s)
  loop-IsGiven zero wanted at buffer s h enough =
      subst (IsGiven wanted at buffer s) (sym (read_end 0 wanted at buffer s (ground arith)))
        (gives_end wanted at buffer s (omega arith))
  loop-IsGiven (suc left) wanted at buffer s h enough = elim (Bool-cases (ltb at wanted)) [
    | inr done ↦
        subst (IsGiven wanted at buffer s) (sym (read_end (suc left) wanted at buffer s done))
          (gives_end wanted at buffer s (ground arith))
    | inl more ↦
        subst (IsGiven wanted at buffer s) (sym (read_round left wanted at buffer s more)) (
          gives_block left wanted at buffer s h (ltb→lt at wanted more) enough
            (λ at' buffer' enough'. loop-IsGiven left wanted at' buffer' s h enough')
            (data_block (at / s.block_size) s).0 refl)
  ]

  -- The number of the bytes, with the buffer.
  abbrev counted : ℕ → Buffer → Fallible (Ext2 D) (ℕ × Buffer)
  counted wanted bytes = do count ← as_int wanted; pure (count, bytes)

  -- What a read of the file gives.
  abbrev pub GivesFile : ℕ → Buffer → Ext2 D → Option (ℕ × Buffer) × Ext2 D → Type 0
  GivesFile wanted buffer s (r, s') =
      (s' ≡ s)
      × (((out : Buffer) × (r ≡ some (wanted, out))
            × ((i : ℕ) → i < wanted → file_byte i s ≡ some (out i))
            × ((i : ℕ) → wanted ≤ i → out i ≡ buffer i))
          ⊎ ((i : ℕ) × (i < wanted) × (r ≡ none) × (file_byte i s ≡ none)))

  counted-GivesFile :
      (wanted : ℕ) (buffer : Buffer) (s : Ext2 D) (r : Option Buffer × Ext2 D)
      → wanted < 2 ^ 31
      → IsGiven wanted 0 buffer s r
      → GivesFile wanted buffer s (after (counted wanted) r)
  counted-GivesFile wanted buffer s (r, s') small (same, inr (i, lt, e, missing)) =
      rw e (same, inr (i, lt, refl, missing))
  counted-GivesFile wanted buffer s (r, s') small (same, inl (out, e, bytes, others)) =
      rw (e, lt→ltb wanted (2 ^ 31) small)
        (same, inl (out, refl, (λ i lt. bytes i (omega arith) lt), (λ i h. others i (inr h))))

module _ {D : Type 0} (k : Disk D) where
  -- On a mounted file system, reading a file whose inode can be read, of less than 2 ^ 31 bytes or
  -- with less room in the buffer, leaves the state as it is. Either it gives the number of bytes,
  -- the smaller of the room and the size, each of them the byte at its place in the block of the
  -- file that its index falls in, and leaves the rest of the buffer; or it fails, and then one of
  -- those bytes is in a block that cannot be found or read.
  pub read_file-GivesFile :
      (inode_num size : ℕ) (inode buffer : Buffer) (s : Ext2 D)
      → IsMounted s
      → ext2_read_inode k inode_num s ≡ (some inode, s)
      → min_u32 size (inode_size_of inode) < 2 ^ 31
      → let wanted = min_u32 size (inode_size_of inode) in
        let (r, s') = ext2_read_file k inode_num buffer size s in
        (s' ≡ s)
        × (((out : Buffer) × (r ≡ some (wanted, out))
              × ((i : ℕ) → i < wanted → file_byte k inode i s ≡ some (out i))
              × ((i : ℕ) → wanted ≤ i → out i ≡ buffer i))
            ⊎ ((i : ℕ) × (i < wanted) × (r ≡ none) × (file_byte k inode i s ≡ none)))
  unfolding ext2_read_file
  read_file-GivesFile inode_num size inode buffer s h e small =
      let wanted = min_u32 size (inode_size_of inode) in
      rw e (
        counted-GivesFile k inode wanted buffer s (read_from k wanted inode wanted 0 buffer s) small
          (loop-IsGiven k inode wanted wanted 0 buffer s h (omega arith)))
