-- ===== src/Auth/Tests.antt =====
-- Runs of kernel/auth.c.
use piux_kernel.Prelude.{ℕ, ◌≡◌, refl, true, false, List, take, [], ◌∷◌, Option, none, some}
use piux_kernel.Auth.Interface.{Passwd}
use piux_kernel.Auth.Digest.{sha256}
use piux_kernel.Auth.Accounts.{Account}

abbrev root : Account
root = record { username = b'r' ∷ []; password_hash = b'5' ∷ b'e' ∷ []; sudoer = true }

abbrev guest : Account
guest = record { username = b'g' ∷ []; password_hash = b'a' ∷ b'b' ∷ []; sudoer = false }

-- The state is what the file holds.
abbrev one_file : Passwd (Option (List ℕ))
one_file = record {
  ext2_find_inode_by_path = λ w. elim w [ none ↦ none | some bytes ↦ some 12 ];
  ext2_read_file = λ inode n w. elim w [ none ↦ none | some bytes ↦ some (take n bytes) ];
  ext2_create_file_by_path =
      λ w. elim w [ none ↦ (true, some []) | some bytes ↦ (false, some bytes) ];
  ext2_write_file = λ inode bytes w. (true, some bytes);
  ext2_read_file_by_path = λ n w. elim w [ none ↦ none | some bytes ↦ some (take n bytes) ];
}

-- `abc`, whose digest begins with ba7816bf.
abc_digest :
    take 8 (sha256 (b'a' ∷ b'b' ∷ b'c' ∷ []))
    ≡ b'b' ∷ b'a' ∷ b'7' ∷ b'8' ∷ b'1' ∷ b'6' ∷ b'b' ∷ b'f' ∷ []
unfolding sha256
abc_digest = refl
