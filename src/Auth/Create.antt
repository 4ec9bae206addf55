-- ===== src/Auth/Create.antt =====
-- A user that kernel/auth.c creates can log in.
use piux_kernel.Prelude.{
  ℕ, ◌≡◌, ◌⊎◌, Bool, true, false, List, [], ◌∷◌, ◌++◌, Option, none, some, CString,
}
use piux_kernel.Auth.Interface.{Passwd}
use piux_kernel.Auth.{auth_record, authenticate}
use piux_kernel.Auth.Digest.{sha256}
use piux_kernel.Auth.Accounts.{Account, file_of}

-- What the file holds before a user is created: a missing one has no accounts.
abbrev pub Holds : List Account → Option (List ℕ) → Type 0
Holds accounts file = (file ≡ some (file_of accounts)) ⊎ (file ≡ none) × (accounts ≡ [])

-- The record that `auth_create_user` writes.
abbrev new_account : CString → CString → Bool → Account
new_account username password sudoer = record {
  username = username;
  password_hash = sha256 password;
  sudoer = sudoer;
}

module _ {W : Type 0} (k : Passwd W) (file : W → Option (List ℕ)) (username password : CString)
    (sudoer : Bool) (accounts : List Account) where
  abbrev line : CString
  line = auth_record username (sha256 password) sudoer

  abbrev all_accounts : List Account
  all_accounts = accounts ++ (new_account username password sudoer ∷ [])

  abbrev pub Writes : W → Bool × W → Type 0
  Writes w (ok, w') =
      (ok ≡ true)
      × (file w' ≡ some (file_of (accounts ++ (new_account username password sudoer ∷ []))))
      × (authenticate k username (sha256 password) w' ≡ some sudoer)

  -- A failure is one of ext2.
  abbrev pub Fails : W → Bool × W → Type 0
  Fails w (ok, w') =
      (ok ≡ false)
      × (((k.ext2_create_file_by_path w).0 ≡ false)
          ⊎ (inode : ℕ) × (v : W) × ((k.ext2_write_file inode
                (file_of (accounts ++ (new_account username password sudoer ∷ []))) v).0
              ≡ false))
