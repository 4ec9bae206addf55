-- ===== src/Auth/Interface.antt =====
-- The calls that kernel/auth.c makes of kernel/ext2.c, all for the path /.config/passwd.
use piux_kernel.Prelude.{ℕ, ◌^◌, ◌<◌, ◌≤◌, ◌≡◌, Bool, true, List, [], length, Option, none, some}

-- `none` and `false` for a negative result, and the bytes that are read.
pub record Passwd (W : Type 0) : Type 0 where
  pub ext2_find_inode_by_path : W → Option ℕ
  pub ext2_read_file : ℕ → ℕ → W → Option (List ℕ)
  pub ext2_create_file_by_path : W → Bool × W
  pub ext2_write_file : ℕ → List ℕ → W → Bool × W
  pub ext2_read_file_by_path : ℕ → W → Option (List ℕ)

-- The bytes of the file in a state, `none` where there is no file, on a disk whose reads succeed: a
-- file is found and read whole into a buffer that is long enough, a new one is empty, and a write
-- that succeeds replaces all its bytes.
pub record KeepsFile {W : Type 0} (k : Passwd W) (file : W → Option (List ℕ)) : Type 0 where
  pub found :
      (w : W) (bytes : List ℕ)
      → file w ≡ some bytes
      → (inode : ℕ) × (k.ext2_find_inode_by_path w ≡ some inode)
        × ((n : ℕ) → length bytes ≤ n → n < 2 ^ 31 → k.ext2_read_file inode n w ≡ some bytes)
  pub missing : (w : W) → file w ≡ none → k.ext2_find_inode_by_path w ≡ none
  pub created :
      (w w' : W) → file w ≡ none → k.ext2_create_file_by_path w ≡ (true, w') → file w' ≡ some []
  pub written :
      (w w' : W) (inode : ℕ) (old bytes : List ℕ)
      → file w ≡ some old
      → k.ext2_find_inode_by_path w ≡ some inode
      → k.ext2_write_file inode bytes w ≡ (true, w')
      → file w' ≡ some bytes
  pub read_whole :
      (w : W) (n : ℕ) (bytes : List ℕ)
      → file w ≡ some bytes
      → length bytes ≤ n
      → n < 2 ^ 31
      → k.ext2_read_file_by_path n w ≡ some bytes
