-- ===== src/Ext2/Disk.antt =====
-- The driver of the disk, kernel/ata.c, as kernel/ext2.c uses it: sectors of 512 bytes.
use piux_kernel.Prelude.{ℕ, ◌+◌, ◌*◌, ◌^◌, ◌<◌, ◌≤◌, ◌≡◌, ◌⊎◌, Option, some, Buffer, AreBytes}

-- `none` for a negative result.
pub record Disk (D : Type 0) : Type 0 where
  pub ata_init : D → D
  pub ata_read_sectors : ℕ → ℕ → D → Option Buffer
  pub ata_write_sectors : ℕ → ℕ → Buffer → D → Option D

-- What one transfer of the driver can move: the number of the first sector has 28 bits, and the
-- count 8, with none for 0.
abbrev pub IsTransfer : ℕ → ℕ → Type 0
IsTransfer sector sectors = (0 < sectors) × (sectors ≤ 255) × (sector + sectors ≤ 2 ^ 28)

-- A disk that keeps what is written, as far as the driver can address it: the sectors written are
-- read as they were written, and the others as before.
pub record IsLawful {D : Type 0} (k : Disk D) : Type 0 where
  pub read-write :
      (sector sectors : ℕ) (b : Buffer) (d d' : D)
      → AreBytes b
      → IsTransfer sector sectors
      → k.ata_write_sectors sector sectors b d ≡ some d'
      → (b' : Buffer) × (k.ata_read_sectors sector sectors d' ≡ some b')
        × ((i : ℕ) → i < sectors * 512 → b' i ≡ b i)
  pub read-write_apart :
      (sector sectors other others : ℕ) (b : Buffer) (d d' : D)
      → IsTransfer sector sectors
      → IsTransfer other others
      → k.ata_write_sectors sector sectors b d ≡ some d'
      → (other + others ≤ sector) ⊎ (sector + sectors ≤ other)
      → k.ata_read_sectors other others d' ≡ k.ata_read_sectors other others d
