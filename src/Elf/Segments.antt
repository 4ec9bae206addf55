-- ===== src/Elf/Segments.antt =====
-- Where the segments of a program are stored, kernel/elf.c.
use piux_kernel.Prelude.{
  ℕ, zero, suc, ◌+◌, ◌-◌, ◌%◌, ◌^◌, ◌<◌, ◌≤◌, ◌≡◌, ◌⊎◌, inl, inr, ◌∙◌, refl, ap, subst, Bool, true,
  false, ◌||◌, not, ltb, ◌==◌, if◌then◌else◌, Option, none, some, Buffer, AreBytes, CString,
  copy_bytes, copy_bytes_lem, fill_bytes, fill_bytes_lem, within, load32, arith, Bool-cases,
  le_or_lt, sym,
}
use mathlib.Core.Option.{some-injective, none-ne-some}
use piux_kernel.Memory.{memory_range_valid, user_space_base, user_memory_limit}
use piux_kernel.Memory.Range.{InUserMemory, user_range_iff}
use piux_kernel.Elf.{
  Files, elf_pt_load, p_type, p_offset, p_vaddr, p_filesz, p_memsz, e_phnum, e_entry,
  elf_header_size, program_at, header_ok, wrapped, load_segment, after_segment, load_segments,
  load_image, elf_load, read_whole_file,
}

word : (b : Buffer) (o : ℕ) → AreBytes b → load32 b o < 2 ^ 32
word b o bytes = omega (arith, bytes o, bytes (o + 1), bytes (o + 2), bytes (o + 3))

-- The memory with a segment of `f` bytes of the file, `m` bytes in all, at `v`.
abbrev stored : ℕ → ℕ → ℕ → ℕ → Buffer → Buffer → Buffer
stored v f m source b memory = fill_bytes (m - f) (copy_bytes f memory v b source) (v + f) 0

module _ (v f m source : ℕ) (b memory : Buffer) where
  stored_lem :
      (x : ℕ)
      → stored v f m source b memory x ≡ (
          if within (v + f) (m - f) x
          then 0
          else if within v f x
          then b (source + (x - v))
          else memory x)
  stored_lem x =
      fill_bytes_lem (m - f) (copy_bytes f memory v b source) (v + f) 0 x
      ∙ ap (λ y. if within (v + f) (m - f) x then 0 else y) (copy_bytes_lem f memory v b source x)

  -- From the file, behind it, and elsewhere.
  stored_file : (i : ℕ) → i < f → stored v f m source b memory (v + i) ≡ b (source + i)
  stored_file i lt =
      let back : v + i - v ≡ i = omega arith in stored_lem (v + i) ∙ (rw back (ground arith))

  stored_zero : (i : ℕ) → f ≤ i → i < m → stored v f m source b memory (v + i) ≡ 0
  stored_zero i lo lt = stored_lem (v + i) ∙ ground arith

  stored_other : (x : ℕ) → f ≤ m → (x < v) ⊎ (v + m ≤ x) → stored v f m source b memory x ≡ memory x
  stored_other x fits out = stored_lem x ∙ ground arith

segment_ways :
    (valid long : Bool) (new memory' : Buffer)
    → ◌≡◌ {A = Option Buffer}
        (if not valid then none else if long then none else some new)
        (some memory')
    → (valid ≡ true) × (new ≡ memory')
segment_ways false long new memory' e = absurd (none-ne-some memory' e)
segment_ways true true new memory' e = absurd (none-ne-some memory' e)
segment_ways true false new memory' e = (refl, some-injective new memory' e)

-- A segment that is loaded, whatever its offset in the file.
load_segment_lem :
    (b : Buffer) (total o : ℕ) (memory memory' : Buffer)
    → AreBytes b
    → p_filesz b o ≤ p_memsz b o
    → load_segment b total o memory ≡ some memory'
    → InUserMemory (p_vaddr b o) (p_memsz b o)
      × ((i : ℕ) → i < p_filesz b o → memory' (p_vaddr b o + i) ≡ wrapped b (p_offset b o + i))
      × ((i : ℕ) → p_filesz b o ≤ i → i < p_memsz b o → memory' (p_vaddr b o + i) ≡ 0)
      × ((x : ℕ) → (x < p_vaddr b o) ⊎ (p_vaddr b o + p_memsz b o ≤ x) → memory' x ≡ memory x)
unfolding load_segment
load_segment_lem b total o memory memory' bytes fits e =
    let v = p_vaddr b o in
    let f = p_filesz b o in
    let m = p_memsz b o in
    let source = p_offset b o in
    let (valid, same) =
      segment_ways (memory_range_valid v m true) (ltb total ((source + f) % 2 ^ 32))
        (stored v f m source (wrapped b) memory) memory' e in
    subst
      (λ t.
        InUserMemory v m
        × ((i : ℕ) → i < f → t (v + i) ≡ wrapped b (source + i))
        × ((i : ℕ) → f ≤ i → i < m → t (v + i) ≡ 0)
        × ((x : ℕ) → (x < v) ⊎ (v + m ≤ x) → t x ≡ memory x))
      same
      (
        (user_range_iff v m (word b (o + 8) bytes) (word b (o + 20) bytes)).0.0 valid,
        stored_file v f m source (wrapped b) memory,
        stored_zero v f m source (wrapped b) memory,
        λ x out. stored_other v f m source (wrapped b) memory x fits out,
      )

-- The end of the segment in the file, with the sum that the test computes.
in_file :
    (valid : Bool) (total source f : ℕ) (new memory' : Buffer)
    → source + f < 2 ^ 32
    → ◌≡◌ {A = Option Buffer}
        (if not valid then none else if ltb total ((source + f) % 2 ^ 32) then none else some new)
        (some memory')
    → source + f ≤ total
in_file valid total source f new memory' h e = elim (le_or_lt (source + f) total) [
  | inl inside ↦ inside
  | inr outside ↦ absurd (none-ne-some memory' (sym (refused valid outside) ∙ e))
]
  where
    refused :
        (valid : Bool)
        → total < source + f
        → ◌≡◌ {A = Option Buffer}
            (if not valid
              then none
              else if ltb total ((source + f) % 2 ^ 32)
              then none
              else some new)
            none
    refused valid lt = ground arith

-- A segment that `elf_load` accepts, whose size in the file is at most its size in memory and whose
-- offset and size in the file add up without a wrap-around, lies in the file and in the memory of
-- user programs. Its bytes are those of the file from the segment's offset on, then zeros up to its
-- size in memory, and the rest of the memory is as it was.
pub segment-Loads :
    (b : Buffer) (total o : ℕ) (memory memory' : Buffer)
    → AreBytes b
    → p_filesz b o ≤ p_memsz b o
    → p_offset b o + p_filesz b o < 2 ^ 32
    → load_segment b total o memory ≡ some memory'
    → (p_offset b o + p_filesz b o ≤ total)
      × InUserMemory (p_vaddr b o) (p_memsz b o)
      × ((i : ℕ) → i < p_filesz b o → memory' (p_vaddr b o + i) ≡ b (p_offset b o + i))
      × ((i : ℕ) → p_filesz b o ≤ i → i < p_memsz b o → memory' (p_vaddr b o + i) ≡ 0)
      × ((x : ℕ) → (x < p_vaddr b o) ⊎ (p_vaddr b o + p_memsz b o ≤ x) → memory' x ≡ memory x)
unfolding load_segment
segment-Loads b total o memory memory' bytes fits small e =
    let v = p_vaddr b o in
    let f = p_filesz b o in
    let source = p_offset b o in
    let (inside, text, zeros, others) = load_segment_lem b total o memory memory' bytes fits e in
    (
      in_file (memory_range_valid v (p_memsz b o) true) total source f
          (stored v f (p_memsz b o) source (wrapped b) memory) memory' small e,
      inside,
      λ i lt. text i lt ∙ ap b (omega arith),
      zeros,
      others,
    )

-- Outside the memory of user programs.
abbrev pub Outside : ℕ → Type 0
Outside x = (x < user_space_base) ⊎ (user_memory_limit ≤ x)

-- The segments that are loaded have at least the size in memory that they have in the file.
abbrev pub AreSized : ℕ → Buffer → Type 0
AreSized count b =
    (index : ℕ) → index < count → p_filesz b (program_at b index) ≤ p_memsz b (program_at b index)

one_segment :
    (b : Buffer) (total o : ℕ) (memory : Buffer) (r : Option Buffer)
    → AreBytes b
    → p_filesz b o ≤ p_memsz b o
    → load_segment b total o memory ≡ r
    → (next : Buffer → Bool × Buffer) (x : ℕ) → Outside x
    → ((memory' : Buffer) → (next memory').1 x ≡ memory' x)
    → (after_segment next memory r).1 x ≡ memory x
one_segment b total o memory none bytes fits e next x out kept = refl
one_segment b total o memory (some memory') bytes fits e next x out kept =
    let (inside, text, zeros, others) = load_segment_lem b total o memory memory' bytes fits e in
    kept memory' ∙ others x (apart inside.above inside.below out)
  where
    apart :
        user_space_base ≤ p_vaddr b o
        → p_vaddr b o + p_memsz b o ≤ user_memory_limit
        → Outside x
        → (x < p_vaddr b o) ⊎ (p_vaddr b o + p_memsz b o ≤ x)
    apart lo hi (inl h) = inl (omega arith)
    apart lo hi (inr h) = inr (omega arith)

segments_kept :
    (left index : ℕ) (b : Buffer) (total : ℕ) (memory : Buffer) (x : ℕ)
    → AreBytes b
    → ((j : ℕ)
        → index ≤ j
        → j < index + left
        → p_filesz b (program_at b j) ≤ p_memsz b (program_at b j))
    → Outside x
    → (load_segments left index b total memory).1 x ≡ memory x
unfolding load_segments
segments_kept zero index b total memory x bytes fits out = refl
segments_kept (suc left) index b total memory x bytes fits out =
    let rest : (memory' : Buffer)
        → (load_segments left (index + 1) b total memory').1 x ≡ memory' x =
      λ memory'.
        segments_kept left (index + 1) b total memory' x bytes
          (λ j lo hi. fits j (omega arith) (omega arith)) out in
    elim (Bool-cases (p_type b (program_at b index) == elf_pt_load)) [
      | inl is_load ↦
          rw (is_load, load_segments)
            (one_segment b total (program_at b index) memory
              (load_segment b total (program_at b index) memory) bytes
              (fits index (omega arith) (omega arith)) refl (load_segments left (index + 1) b total)
              x out rest)
      | inr other ↦ rw (other, load_segments) (rest memory)
    ]

image_kept :
    (total : Option ℕ) (b memory : Buffer) (x : ℕ)
    → AreBytes b
    → AreSized (e_phnum b) b
    → Outside x
    → (load_image total b memory).1 x ≡ memory x
unfolding load_image
image_kept none b memory x bytes sized out = refl
image_kept (some total) b memory x bytes sized out =
    by_test (ltb total elf_header_size || not (header_ok b total))
  where
    by_test :
        (t : Bool)
        → let r : Option ℕ × Buffer = if t then (none, memory) else (
          if (load_segments (e_phnum b) 0 b total memory).0 then some (e_entry b) else none,
          (load_segments (e_phnum b) 0 b total memory).1,
        ) in
          r.1 x ≡ memory x
    by_test true = refl
    by_test false =
        segments_kept (e_phnum b) 0 b total memory x bytes (λ j lo hi. sized j (omega arith)) out

-- Whatever the file holds, if its bytes are bytes and no program header states more bytes in the
-- file than in memory, then a load, one that fails included, leaves the memory outside that of user
-- programs as it was.
pub elf_load-Outside :
    {W : Type 0} (k : Files W) (path : CString) (memory file_buffer : Buffer) (w : W) (x : ℕ)
    → AreBytes (read_whole_file k path file_buffer w).1
    → AreSized
        (e_phnum (read_whole_file k path file_buffer w).1)
        (read_whole_file k path file_buffer w).1
    → Outside x
    → (elf_load k path memory file_buffer w).0.1 x ≡ memory x
unfolding elf_load
elf_load-Outside k path memory file_buffer w x bytes sized out =
    image_kept (read_whole_file k path file_buffer w).0 (read_whole_file k path file_buffer w).1
      memory x bytes sized out
