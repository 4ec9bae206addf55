-- ===== src/Elf/Tests.antt =====
-- Runs of kernel/elf.c.
use piux_kernel.Prelude.{
  ℕ, zero, suc, ◌+◌, ◌-◌, ◌^◌, ◌<◌, ◌≤◌, ◌≡◌, ◌⊎◌, inl, refl, List, [], some, Buffer, AreBytes,
  in_memory, subst, sym, copy_bytes_lem, copy_bytes, fill_bytes, put16, put32, list_at, leb→le,
  arith,
}
use piux_kernel.Memory.{memory_range_valid}
use piux_kernel.Memory.Range.{InUserMemory}
use piux_kernel.Elf.{
  Files, program_at, load_image, load_segments, p_filesz, p_memsz, load_segment, wrapped, elf_load,
  read_whole_file, read_chunks, e_phnum,
}
use piux_kernel.Elf.Segments.{AreSized, segment-Loads, elf_load-Outside}

-- A program header at 52: 4 bytes of the file from 8 on are loaded at 4 MiB, with 6 bytes in memory.
abbrev image : Buffer
image = put32 (put32 (put32 (put32 (put32 (λ _. 0) 52 1) 56 8) 60 0x0040_0000) 68 4) 72 6

abbrev loaded : Buffer
loaded = fill_bytes 2 (copy_bytes 4 (λ _. 9) 0x0040_0000 (wrapped image) 8) 0x0040_0004 0

image-AreBytes : AreBytes image
image-AreBytes i = ground arith

segment_loaded : load_segment image 84 52 (λ _. 9) ≡ some loaded
unfolding load_segment memory_range_valid
segment_loaded = refl

segment-Loads_example :
    (12 ≤ 84)
    × InUserMemory 0x0040_0000 6
    × ((i : ℕ) → i < 4 → loaded (0x0040_0000 + i) ≡ image (8 + i))
    × ((i : ℕ) → 4 ≤ i → i < 6 → loaded (0x0040_0000 + i) ≡ 0)
    × ((x : ℕ) → (x < 0x0040_0000) ⊎ (0x0040_0006 ≤ x) → loaded x ≡ 9)
segment-Loads_example =
    segment-Loads image 84 52 (λ _. 9) loaded image-AreBytes (leb→le 4 6 refl)
      (leb→le 13 (2 ^ 32) refl) segment_loaded

-- A file with that segment and the header of a program.
abbrev program : Buffer
program =
    put16
      (put16
        (put32 (put32 (put16 (put32 (put16 image 4 1) 0 0x464c_457f) 16 2) 24 0x0040_0000) 28 52) 42
        32)
      44 1

program-AreBytes : AreBytes program
program-AreBytes i = ground arith

-- The files, whose state is what is left to be read of the one that there is.
abbrev one_file : Files (List ℕ)
one_file = record {
  vfs_open = λ path left. (some 3, left);
  vfs_read = λ fd size left. (left, []);
  vfs_close = λ fd left. left;
}

abbrev file : List ℕ
file = list_at 84 program 0

list_at-AreBytes : (n : ℕ) (b : Buffer) (o : ℕ) → AreBytes b → AreBytes (in_memory (list_at n b o))
unfolding list_at
list_at-AreBytes zero b o bytes i = omega arith
list_at-AreBytes (suc n) b o bytes zero = bytes o
list_at-AreBytes (suc n) b o bytes (suc i) = list_at-AreBytes n b (o + 1) bytes i

copy_bytes-AreBytes :
    (n : ℕ) (old : Buffer) (d : ℕ) (b : Buffer) (o : ℕ)
    → AreBytes old
    → AreBytes b
    → AreBytes (copy_bytes n old d b o)
copy_bytes-AreBytes n old d b o h g i =
    ground (arith, copy_bytes_lem n old d b o i, h i, g (o + (i - d)))

abbrev in_buffer : Buffer
in_buffer = copy_bytes 84 (λ _. 0) 0 (in_memory file) 0

whole_file : read_whole_file one_file [] (λ _. 0) file ≡ (some 84, in_buffer, [])
unfolding read_whole_file read_chunks list_at
whole_file = refl

one_header : e_phnum in_buffer ≡ 1
unfolding copy_bytes list_at
one_header = refl

sizes : (p_filesz in_buffer 52 ≡ 4) × (p_memsz in_buffer 52 ≡ 6)
unfolding copy_bytes list_at
sizes = (refl, refl)

first_place : program_at in_buffer 0 ≡ 52
unfolding copy_bytes list_at
first_place = refl

fits : p_filesz in_buffer 52 ≤ p_memsz in_buffer 52
fits = omega (arith, sizes.0, sizes.1)

loads : (elf_load one_file [] (λ _. 9) (λ _. 0) file).0.0 ≡ some 0x0040_0000
unfolding elf_load read_whole_file read_chunks load_image load_segments load_segment
    memory_range_valid copy_bytes list_at
loads = refl

in_buffer-AreBytes : AreBytes in_buffer
in_buffer-AreBytes =
    copy_bytes-AreBytes 84 (λ _. 0) 0 (in_memory file) 0 (λ i. omega arith)
      (list_at-AreBytes 84 program 0 program-AreBytes)

in_buffer-AreSized : AreSized (e_phnum in_buffer) in_buffer
in_buffer-AreSized zero lt =
    subst (λ o. p_filesz in_buffer o ≤ p_memsz in_buffer o) (sym first_place) fits
in_buffer-AreSized (suc index) lt = absurd (omega (arith, one_header))

elf_load-Outside_example : (elf_load one_file [] (λ _. 9) (λ _. 0) file).0.1 0x0010_0000 ≡ 9
elf_load-Outside_example =
    elf_load-Outside one_file [] (λ _. 9) (λ _. 0) file 0x0010_0000
      (subst (λ r. AreBytes r.1) (sym whole_file) in_buffer-AreBytes)
      (subst (λ r. AreSized (e_phnum r.1) r.1) (sym whole_file) in_buffer-AreSized)
      (inl (leb→le 0x0010_0001 0x0040_0000 refl))
