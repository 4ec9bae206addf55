-- ===== src/Ext2/Lookup.antt =====
-- The entries of a directory block of kernel/ext2.c: what is added is found.
use piux_kernel.Prelude.{
  ℕ, zero, suc, ◌+◌, ◌-◌, ◌%◌, ◌^◌, ◌<◌, ◌≤◌, ◌≡◌, ◌∙◌, inl, inr, refl, sym, ap, Bool, true, false,
  ◌&&◌, ◌||◌, not, ltb, ◌==◌, if◌then◌else◌, [], ◌∷◌, none, some, length, Buffer, CString, update,
  put32, load32-put32, arith, Bool-cases,
}
use piux_kernel.CStrings.{IsText, strlen_up_to-length}
use piux_kernel.Ext2.State.{entry_inode, entry_rec_len, entry_name_len}
use piux_kernel.Ext2.Names.{name_length, name_equal, same_bytes, behind_first}
use piux_kernel.Ext2.Entries.{entry_size, is_broken, find_entry, put_text, put_entry}

-- An entry that the loops accept.
pub record IsEntry (b : Buffer) (o limit : ℕ) : Type 0 where
  pub room : o + 8 ≤ limit
  pub lo : 8 ≤ entry_rec_len b o
  pub hi : entry_rec_len b o ≤ limit - o
  pub fits : entry_name_len b o ≤ entry_rec_len b o - 8

abbrev pub stops : Buffer → ℕ → ℕ → Bool
stops b o limit = ltb limit (o + 8) || is_broken b o (limit - o)

-- The test of `find_entry` for the name.
abbrev pub matches : Buffer → ℕ → CString → Bool
matches b o name = not (entry_inode b o == 0) && name_equal b (o + 8) (entry_name_len b o) name

pub goes_on : (b : Buffer) (o limit : ℕ) → stops b o limit ≡ false → IsEntry b o limit
goes_on b o limit e = ground arith

pub IsEntry-stops : (b : Buffer) (o limit : ℕ) → IsEntry b o limit → stops b o limit ≡ false
IsEntry-stops b o limit h = ground (arith, h.room, h.lo, h.hi, h.fits)

pub find_step :
    (fuel o limit : ℕ) (b : Buffer) (name : CString)
    → IsEntry b o limit
    → find_entry (suc fuel) o limit b name ≡ (
        if matches b o name
        then some (entry_inode b o)
        else find_entry fuel (o + entry_rec_len b o) limit b name)
unfolding find_entry
find_step fuel o limit b name h = rw (IsEntry-stops b o limit h) refl

pub find_stop :
    (fuel o limit : ℕ) (b : Buffer) (name : CString)
    → stops b o limit ≡ true
    → find_entry (suc fuel) o limit b name ≡ none
unfolding find_entry
find_stop fuel o limit b name h = rw h refl

pub outside : (b : Buffer) (o limit : ℕ) → limit ≤ o → stops b o limit ≡ true
outside b o limit h = ground arith

-- As much fuel as bytes are left is enough: two searches with that much fuel give the same.
pub find_entry_fuel :
    (fuel fuel' o limit : ℕ) (b : Buffer) (name : CString)
    → limit ≤ o + fuel
    → limit ≤ o + fuel'
    → find_entry fuel o limit b name ≡ find_entry fuel' o limit b name
unfolding find_entry
find_entry_fuel zero zero o limit b name h h' = refl
find_entry_fuel zero (suc g) o limit b name h h' =
    sym (find_stop g o limit b name (outside b o limit (omega arith)))
find_entry_fuel (suc f) zero o limit b name h h' =
    find_stop f o limit b name (outside b o limit (omega arith))
find_entry_fuel (suc f) (suc g) o limit b name h h' = elim (Bool-cases (stops b o limit)) [
  | inl e ↦ find_stop f o limit b name e ∙ sym (find_stop g o limit b name e)
  | inr e ↦
      let entry = goes_on b o limit e in
      find_step f o limit b name entry
      ∙ ap (λ r. if matches b o name then some (entry_inode b o) else r)
          (find_entry_fuel f g (o + entry_rec_len b o) limit b name (omega (arith, entry.lo))
            (omega (arith, entry.lo)))
      ∙ sym (find_step g o limit b name entry)
]

pub same_bytes_agree :
    (n : ℕ) (b b' : Buffer) (o : ℕ) (w : CString)
    → ((i : ℕ) → o ≤ i → i < o + n → b' i ≡ b i)
    → same_bytes n b' o w ≡ same_bytes n b o w
unfolding same_bytes
same_bytes_agree zero b b' o w h = refl
same_bytes_agree (suc n) b b' o w h =
    rw
      (
        h o (omega arith) (omega arith),
        same_bytes_agree n b b' (o + 1) (behind_first w)
            (λ i lo hi. h i (omega arith) (omega arith)),
      )
      refl

put_text_before : (b : Buffer) (o : ℕ) (text : CString) (i : ℕ) → i < o → put_text b o text i ≡ b i
unfolding put_text
put_text_before b o [] i h = refl
put_text_before b o (c ∷ text) i h =
    put_text_before (update b o c) (o + 1) text i (omega arith) ∙ ground arith

same-put_text :
    (b : Buffer) (o : ℕ) (text : CString)
    → same_bytes (length text) (put_text b o text) o text ≡ true
unfolding put_text same_bytes
same-put_text b o [] = refl
same-put_text b o (c ∷ text) = rw (here, same-put_text (update b o c) (o + 1) text) (ground arith)
  where
    here : put_text (update b o c) (o + 1) text o ≡ c
    here = put_text_before (update b o c) (o + 1) text o (omega arith) ∙ ground arith

-- A name that an entry can hold.
pub record IsName (name : CString) : Type 0 where
  pub text : IsText name
  pub some_length : 0 < length name
  pub short : length name ≤ 255

named : (name : CString) → IsName name → name_length name ≡ length name
unfolding name_length
named name h = strlen_up_to-length 256 name h.text (omega (arith, h.short))

-- The fields of an entry that was filled in.
module _ (b : Buffer) (o inode_num : ℕ) (name : CString) (type : ℕ) where
  abbrev filled : Buffer
  filled = put_entry b o inode_num name type

  -- Below the name the text is not there yet.
  filled_at :
      (i : ℕ)
      → i < o + 8
      → filled i
        ≡ update (update (put32 b o inode_num) (o + 6) (length name % 2 ^ 8)) (o + 7) type i
  filled_at i h =
      put_text_before
        (update (update (put32 b o inode_num) (o + 6) (length name % 2 ^ 8)) (o + 7) type) (o + 8)
        name i h

  pub filled_before : (i : ℕ) → i < o → filled i ≡ b i
  filled_before i h = filled_at i (omega arith) ∙ ground arith

  filled_inode : inode_num < 2 ^ 32 → entry_inode filled o ≡ inode_num
  filled_inode h =
      rw
        (
          filled_at o (omega arith),
          filled_at (o + 1) (omega arith),
          filled_at (o + 2) (omega arith),
          filled_at (o + 3) (omega arith),
        )
        (ground (arith, load32-put32 b o inode_num h))

  filled_rec_len : entry_rec_len filled o ≡ entry_rec_len b o
  filled_rec_len =
      rw (filled_at (o + 4) (omega arith), filled_at (o + 4 + 1) (omega arith)) (ground arith)

  filled_name_len : IsName name → entry_name_len filled o ≡ length name
  filled_name_len h = filled_at (o + 6) (omega arith) ∙ ground (arith, h.short)

  filled_name : IsName name → name_equal filled (o + 8) (length name) name ≡ true
  unfolding name_equal
  filled_name h =
      rw
        (
          named name h,
          same-put_text
              (update (update (put32 b o inode_num) (o + 6) (length name % 2 ^ 8)) (o + 7) type)
              (o + 8) name,
        )
        (ground arith)

  -- The entry is found where it was filled in.
  pub filled_found :
      (fuel limit : ℕ)
      → IsName name
      → 0 < inode_num
      → inode_num < 2 ^ 32
      → o + 8 ≤ limit
      → entry_size (length name) ≤ entry_rec_len b o
      → entry_rec_len b o ≤ limit - o
      → find_entry (suc fuel) o limit filled name ≡ some inode_num
  filled_found fuel limit h pos small room lo hi =
      find_step fuel o limit filled name entry ∙ rw match (ap some (filled_inode small))
    where
      entry : IsEntry filled o limit
      entry = record {
        room = room;
        lo = rw filled_rec_len (omega arith);
        hi = rw filled_rec_len hi;
        fits = rw (filled_rec_len, filled_name_len h) (omega arith);
      }

      match : matches filled o name ≡ true
      match = rw (filled_name_len h, filled_name h, filled_inode small) (ground arith)
