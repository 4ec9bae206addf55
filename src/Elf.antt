-- ===== src/Elf.antt =====
-- kernel/elf.c: the loader of programs. The files are an interface, the memory is a function from
-- addresses to bytes.
pub mod Segments
mod Tests
use piux_kernel.Prelude.{
  ℕ, zero, suc, ◌+◌, ◌-◌, ◌*◌, ◌%◌, ◌^◌, Bool, true, false, ◌&&◌, ◌||◌, not, ltb, leb, ◌==◌,
  if◌then◌else◌, List, [], ◌∷◌, length, Option, none, some, Buffer, CString, copy_bytes, fill_bytes,
  in_memory, load16, load32,
}
use piux_kernel.Memory.{memory_range_valid}

-- What the file calls of kernel/vfs.c, on any state: a read gives the bytes, none of them for a
-- result that is not positive.
pub record Files (W : Type 0) : Type 0 where
  pub vfs_open : CString → W → Option ℕ × W
  pub vfs_read : ℕ → ℕ → W → List ℕ × W
  pub vfs_close : ℕ → W → W

abbrev pub elf_max_file_size : ℕ
elf_max_file_size = 8192

-- `sizeof(elf32_header_t)`.
abbrev pub elf_header_size : ℕ
elf_header_size = 52

abbrev pub elf_pt_load : ℕ
elf_pt_load = 1

module _ {W : Type 0} (k : Files W) where
  -- The bytes read, up to the size of the chunk that was asked for.
  abbrev pub store_chunk : List ℕ → ℕ → Buffer → Buffer
  store_chunk chunk total file_buffer =
      copy_bytes (length chunk) file_buffer total (in_memory chunk) 0

  -- The loop of `read_whole_file`, with the rounds left; each one reads at least a byte.
  unfoldable pub read_chunks : ℕ → ℕ → ℕ → Buffer → W → ℕ × Buffer × W
  read_chunks zero fd total file_buffer w = (total, file_buffer, w)
  read_chunks (suc left) fd total file_buffer w =
      let (chunk, w') = k.vfs_read fd (elf_max_file_size - total) w in
      let next =
        read_chunks left fd (total + length chunk) (store_chunk chunk total file_buffer) w' in
      if length chunk == 0
      then (total, file_buffer, w')
      else if leb elf_max_file_size (total + length chunk)
      then (total + length chunk, store_chunk chunk total file_buffer, w')
      else next

  abbrev pub read_opened : Option ℕ × W → Buffer → Option ℕ × Buffer × W
  read_opened (none, w) file_buffer = (none, file_buffer, w)
  read_opened (some fd, w) file_buffer =
      let (total, file_buffer', w') = read_chunks elf_max_file_size fd 0 file_buffer w in
      (some total, file_buffer', k.vfs_close fd w')

  unfoldable pub read_whole_file : CString → Buffer → W → Option ℕ × Buffer × W
  read_whole_file path file_buffer w = read_opened (k.vfs_open path w) file_buffer

-- The fields of `elf32_header_t`.
abbrev pub e_type : Buffer → ℕ
e_type b = load16 b 16

abbrev pub e_entry : Buffer → ℕ
e_entry b = load32 b 24

abbrev pub e_phoff : Buffer → ℕ
e_phoff b = load32 b 28

abbrev pub e_phentsize : Buffer → ℕ
e_phentsize b = load16 b 42

abbrev pub e_phnum : Buffer → ℕ
e_phnum b = load16 b 44

-- The fields of `elf32_program_header_t` at an offset.
abbrev pub p_type : Buffer → ℕ → ℕ
p_type b o = load32 b o

abbrev pub p_offset : Buffer → ℕ → ℕ
p_offset b o = load32 b (o + 4)

abbrev pub p_vaddr : Buffer → ℕ → ℕ
p_vaddr b o = load32 b (o + 8)

abbrev pub p_filesz : Buffer → ℕ → ℕ
p_filesz b o = load32 b (o + 16)

abbrev pub p_memsz : Buffer → ℕ → ℕ
p_memsz b o = load32 b (o + 20)

-- The tests of the header; the sum is one of 32 bits.
abbrev pub header_ok : Buffer → ℕ → Bool
header_ok b total =
    (b 0 == 0x7f && b 1 == b'E' && b 2 == b'L' && b 3 == b'F')
    && (b 4 == 1 && e_type b == 2)
    && leb ((e_phoff b + e_phnum b * e_phentsize b) % 2 ^ 32) total

abbrev pub program_at : Buffer → ℕ → ℕ
program_at b index = e_phoff b + index * e_phentsize b

-- What `file_buffer + offset` points to, with an offset of 32 bits that wraps: the last offsets are
-- those of the memory in front of `file_buffer`.
abbrev pub wrapped : Buffer → Buffer
wrapped b i = b (i % 2 ^ 32)

-- One segment: the bytes of the file and zeros behind them; `none` for -1.
unfoldable pub load_segment : Buffer → ℕ → ℕ → Buffer → Option Buffer
load_segment b total o memory =
    let loaded = copy_bytes (p_filesz b o) memory (p_vaddr b o) (wrapped b) (p_offset b o) in
    if not (memory_range_valid (p_vaddr b o) (p_memsz b o) true)
    then none
    else if ltb total ((p_offset b o + p_filesz b o) % 2 ^ 32)
    then none
    else some (fill_bytes (p_memsz b o - p_filesz b o) loaded (p_vaddr b o + p_filesz b o) 0)

-- With what one segment gives: the memory as it is where the load fails.
abbrev pub after_segment : (Buffer → Bool × Buffer) → Buffer → Option Buffer → Bool × Buffer
after_segment next memory none = (false, memory)
after_segment next memory (some memory') = next memory'

-- The loop over the program headers, with those left: whether it succeeds, and the memory.
unfoldable pub load_segments : ℕ → ℕ → Buffer → ℕ → Buffer → Bool × Buffer
load_segments zero index b total memory = (true, memory)
load_segments (suc left) index b total memory =
    let next = load_segments left (index + 1) b total in
    if p_type b (program_at b index) == elf_pt_load
    then after_segment next memory (load_segment b total (program_at b index) memory)
    else next memory

-- The entry point, `none` for -1, and the memory.
unfoldable pub load_image : Option ℕ → Buffer → Buffer → Option ℕ × Buffer
load_image none b memory = (none, memory)
load_image (some total) b memory =
    let (ok, memory') = load_segments (e_phnum b) 0 b total memory in
    if ltb total elf_header_size || not (header_ok b total)
    then (none, memory)
    else (if ok then some (e_entry b) else none, memory')

module _ {W : Type 0} (k : Files W) where
  -- The entry point, the memory, the buffer of the file and what is below the files.
  unfoldable pub elf_load : CString → Buffer → Buffer → W → (Option ℕ × Buffer) × Buffer × W
  elf_load path memory file_buffer w =
      let (total, b, w') = read_whole_file k path file_buffer w in
      (load_image total b memory, b, w')
