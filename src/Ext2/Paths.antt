-- ===== src/Ext2/Paths.antt =====
-- Paths of kernel/ext2.c: their parents and their components.
use piux_kernel.Prelude.{
  ℕ, zero, suc, ◌+◌, ◌<◌, ◌≤◌, ◌≡◌, ◌≢◌, ◌⊎◌, ◌∙◌, inl, inr, refl, sym, ap, true, false, ◌||◌, ltb,
  ◌==◌, if◌then◌else◌, [], ◌∷◌, ◌++◌, Option, none, some, length, take, drop, CString, arith,
  Bool-cases, subst,
}
use piux_kernel.Ext2.Names.{last_slash, name_start, parent_of, split_parent_path, max_name_len}

abbrev pub NoSlash : CString → Type 0
NoSlash [] = Unit {0}
NoSlash (c ∷ path) = (c ≢ b'/') × NoSlash path

-- What the search for the last slash gives.
abbrev IsFound : ℕ → Option ℕ → CString → Type 0
IsFound i last path =
    (last_slash i last path ≡ last) × NoSlash path
    ⊎ (j : ℕ) × (last_slash i last path ≡ some (i + j))
      × (path ≡ take j path ++ (b'/' ∷ drop (suc j) path))
      × NoSlash (drop (suc j) path)

same_code : (c d : ℕ) → (c == d) ≡ true → c ≡ d
same_code c d e = ground arith

other_code : (c d : ℕ) → (c == d) ≡ false → c ≢ d
other_code c d e = ground arith

slash_here :
    (i : ℕ) (last : Option ℕ) (c : ℕ) (path : CString)
    → (c == b'/') ≡ true
    → last_slash (i + 1) (if c == b'/' then some i else last) path
      ≡ (if c == b'/' then some i else last)
    → last_slash i last (c ∷ path) ≡ some (i + 0)
unfolding last_slash
slash_here i last c path slash e = e ∙ (rw slash (ap some (omega arith)))

no_slash_here :
    (i : ℕ) (last : Option ℕ) (c : ℕ) (path : CString)
    → (c == b'/') ≡ false
    → last_slash (i + 1) (if c == b'/' then some i else last) path
      ≡ (if c == b'/' then some i else last)
    → last_slash i last (c ∷ path) ≡ last
unfolding last_slash
no_slash_here i last c path other e = e ∙ (rw other refl)

-- One character before the search.
last_slash-step :
    (i : ℕ) (last : Option ℕ) (c : ℕ) (path : CString)
    → IsFound (i + 1) (if c == b'/' then some i else last) path
    → IsFound i last (c ∷ path)
unfolding last_slash
last_slash-step i last c path (inl (e, free)) =
    elim (Bool-cases (c == b'/')) as (λ _. IsFound i last (c ∷ path)) [
      | inl slash ↦
          inr
            (0, slash_here i last c path slash e, ap (λ d. d ∷ path) (same_code c b'/' slash), free)
      | inr other ↦ inl (no_slash_here i last c path other e, (other_code c b'/' other, free))
    ]
last_slash-step i last c path (inr (j, e, split, free)) =
    inr (suc j, e ∙ ap some (omega arith), ap (λ rest. c ∷ rest) split, free)

last_slash-IsFound : (i : ℕ) (last : Option ℕ) (path : CString) → IsFound i last path
unfolding last_slash
last_slash-IsFound i last [] = inl (refl, tt)
last_slash-IsFound i last (c ∷ path) =
    last_slash-step i last c path
      (last_slash-IsFound (i + 1) (if c == b'/' then some i else last) path)

-- The path put together again.
abbrev pub Rejoins : CString → CString → CString → Type 0
Rejoins path parent name =
    (parent ≡ []) × (path ≡ name)
    ⊎ ((parent ≡ b'/' ∷ []) × (path ≡ b'/' ∷ name)
        ⊎ (0 < length parent) × (path ≡ parent ++ (b'/' ∷ name)))

-- A part of a path that is not empty.
taken_nonempty :
    (j : ℕ) (path rest : CString)
    → path ≡ take (suc j) path ++ (b'/' ∷ rest)
    → 0 < length (take (suc j) path)
taken_nonempty j [] rest e = ground arith
taken_nonempty j (c ∷ path) rest e = omega arith

behind_one : (j : ℕ) → suc j + 1 ≡ suc (suc j)
behind_one j = omega arith

last-Rejoins :
    (path : CString)
    → IsFound 0 none path
    → let name = drop (name_start (last_slash 0 none path)) path in
      NoSlash name × Rejoins path (parent_of path (last_slash 0 none path)) name
last-Rejoins path (inl (e, free)) = rw e (free, inl (refl, refl))
last-Rejoins path (inr (zero, e, split, free)) = rw e (free, inr (inl (refl, split)))
last-Rejoins path (inr (suc j, e, split, free)) =
    let here : 0 + suc j ≡ suc j = omega arith in
    rw (e, here, behind_one j)
      (free, inr (inr (taken_nonempty j path (drop (suc (suc j)) path) split, split)))

-- What `split_parent_path` tests.
abbrev Fits : CString → Type 0
Fits name = (0 < length name) × (length name ≤ 255)

tested : ℕ → ℕ → CString × CString → Option (CString × CString)
tested n m parts =
    if n == 0 || ltb 255 n then none else if m == 0 || ltb max_name_len m then none else some parts

tested_ways :
    (n m : ℕ) (parts found : CString × CString)
    → tested n m parts ≡ some found
    → (0 < m) × (m ≤ 255) × (parts ≡ found)
unfolding tested
tested_ways n m parts found e = ground arith

split_parent_path-tested :
    (path : CString)
    → split_parent_path path ≡ (
        let last = last_slash 0 none path in
        let name = drop (name_start last) path in
        tested (length path) (length name) (parent_of path last, name))
unfolding split_parent_path tested
split_parent_path-tested path = refl

-- When `split_parent_path` gives a parent and a name, the name has from 1 to 255 characters, none of
-- them a slash, and the path is the name alone with no parent, or a slash and the name with the root
-- as the parent, or a parent that is not empty, a slash and the name.
pub split-join :
    (path parent name : CString)
    → split_parent_path path ≡ some (parent, name)
    → NoSlash name × (0 < length name) × (length name ≤ 255) × Rejoins path parent name
unfolding last_slash
split-join path parent name e =
    let last = last_slash 0 none path in
    let found = drop (name_start last) path in
    let parts : CString × CString = (parent_of path last, found) in
    let (some_left, few, same) =
      tested_ways (length path) (length found) parts (parent, name)
        (sym (split_parent_path-tested path) ∙ e) in
    let (free, joined) = last-Rejoins path (last_slash-IsFound 0 none path) in
    let at : CString × CString → Type 0 =
      λ p. NoSlash p.1 × (0 < length p.1) × (length p.1 ≤ 255) × Rejoins path p.0 p.1 in
    subst at same (free, some_left, few, joined)
