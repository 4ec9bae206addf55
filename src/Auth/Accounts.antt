-- ===== src/Auth/Accounts.antt =====
-- The password file of kernel/auth.c as a list of accounts.
use piux_kernel.Prelude.{
  ℕ, ◌≤◌, ◌≡◌, ◌≢◌, refl, ap, Bool, ◌&&◌, if◌then◌else◌, List, [], ◌∷◌, ◌++◌, length, Option, none,
  some, CString,
}
use piux_kernel.Auth.{strings_equal, auth_record, behind_colon, take_hash}

-- No colon among the characters.
abbrev pub IsField : CString → Type 0
IsField [] = Unit {0}
IsField (c ∷ text) = (c ≢ b':') × IsField text

pub record Account : Type 0 where
  pub username : CString
  pub password_hash : CString
  pub sudoer : Bool

pub record IsAccount (a : Account) : Type 0 where
  pub name_field : IsField a.username
  pub name_room : length a.username ≤ 31
  pub hash_field : IsField a.password_hash
  pub hash_room : length a.password_hash ≤ 64

abbrev pub AreAccounts : List Account → Type 0
AreAccounts [] = Unit {0}
AreAccounts (a ∷ accounts) = IsAccount a × AreAccounts accounts

-- The file: the records one behind another.
abbrev pub file_of : List Account → List ℕ
file_of [] = []
file_of (a ∷ accounts) = auth_record a.username a.password_hash a.sudoer ++ file_of accounts

-- The first account of the name and the digest.
abbrev pub first_match : CString → CString → List Account → Option Bool
first_match username password_hash [] = none
first_match username password_hash (a ∷ accounts) =
    if strings_equal username a.username && strings_equal password_hash a.password_hash
    then some a.sudoer
    else first_match username password_hash accounts

pub append_assoc : (xs ys zs : List ℕ) → (xs ++ ys) ++ zs ≡ xs ++ (ys ++ zs)
append_assoc [] ys zs = refl
append_assoc (x ∷ xs) ys zs = ap (λ t. x ∷ t) (append_assoc xs ys zs)

-- What one round does with the name and what is behind it.
abbrev opened : (List ℕ → Option Bool) → CString → CString → List ℕ × List ℕ → Option Bool
opened next username password_hash (user, rest) =
    take_hash username password_hash user next (behind_colon rest)
