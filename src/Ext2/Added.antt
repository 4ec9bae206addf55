-- ===== src/Ext2/Added.antt =====
-- An entry that was added to a directory block of kernel/ext2.c is found there.
use piux_kernel.Prelude.{
  ℕ, zero, suc, ◌+◌, ◌-◌, ◌^◌, ◌<◌, ◌≤◌, ◌≡◌, ◌≢◌, ◌⊎◌, ◌∙◌, inl, inr, refl, sym, ap, Bool, true,
  false, ◌&&◌, not, leb, ◌==◌, if◌then◌else◌, Option, none, some, length, Buffer, AreBytes, CString,
  put16, put16_other, load16-put16, arith, Bool-cases,
}
use piux_kernel.Ext2.State.{entry_inode, entry_rec_len, entry_name_len}
use piux_kernel.Ext2.Names.{name_equal}
use piux_kernel.Ext2.Entries.{
  entry_size, find_entry, put_entry, actual_size, split_at, split_entry, add_entry,
}
use piux_kernel.Ext2.Lookup.{
  IsEntry, stops, matches, goes_on, find_step, same_bytes_agree, find_entry_fuel, IsName,
  filled_before, filled_found,
}

abbrev required : CString → ℕ
required name = entry_size (length name)

-- The two tests of `add_entry`.
abbrev reuses : Buffer → ℕ → CString → Bool
reuses b o name = entry_inode b o == 0 && leb (required name) (entry_rec_len b o)

abbrev splits : Buffer → ℕ → CString → Bool
splits b o name =
    not (entry_inode b o == 0) && leb (actual_size b o + required name) (entry_rec_len b o)

module _ (size inode_num : ℕ) (name : CString) (type : ℕ) where
  add_stop :
      (fuel o : ℕ) (b : Buffer)
      → stops b o size ≡ true
      → add_entry (suc fuel) o size b inode_num name type ≡ none
  unfolding add_entry
  add_stop fuel o b h = rw h refl

  add_step :
      (fuel o : ℕ) (b : Buffer)
      → stops b o size ≡ false
      → add_entry (suc fuel) o size b inode_num name type ≡ (
          if reuses b o name
          then some (put_entry b o inode_num name type)
          else if splits b o name
          then some (split_entry b o inode_num name type)
          else add_entry fuel (o + entry_rec_len b o) size b inode_num name type)
  unfolding add_entry
  add_step fuel o b h = rw h refl

  some-eq : (x y : Buffer) → ◌≡◌ {A = Option Buffer} (some x) (some y) → x ≡ y
  some-eq x y e = cc

  none-some : (x : Buffer) → ◌≢◌ {A = Option Buffer} none (some x)
  none-some x e = cc

  -- What a split leaves of the entry that is split.
  module _ (b : Buffer) (o a v : ℕ) (h : 8 ≤ a) where
    abbrev split : Buffer
    split = split_at b o a v inode_num name type

    split_kept : (i : ℕ) → i < o + a → split i ≡ put16 b (o + 4) a i
    split_kept i lt =
        filled_before (put16 (put16 b (o + 4) a) (o + a + 4) v) (o + a) inode_num name type i lt
        ∙ put16_other (put16 b (o + 4) a) (o + a + 4) v i (inl (omega arith))

    split_other : (i : ℕ) → i < o + a → (i < o + 4) ⊎ (o + 4 + 2 ≤ i) → split i ≡ b i
    split_other i lt out = split_kept i lt ∙ put16_other b (o + 4) a i out

    split_rec_len : a < 2 ^ 16 → entry_rec_len split o ≡ a
    split_rec_len small =
        rw (split_kept (o + 4) (omega arith), split_kept (o + 4 + 1) (omega arith))
          (load16-put16 b (o + 4) a small)

  actual_lo : (b : Buffer) (o : ℕ) → 8 ≤ actual_size b o
  actual_lo b o = ground arith

  -- How an entry was added: in place of an unused one, behind a used one, or further on.
  abbrev Ways : ℕ → ℕ → Buffer → Buffer → Type 0
  Ways fuel o b b' =
      (reuses b o name ≡ true) × (put_entry b o inode_num name type ≡ b')
      ⊎ (splits b o name ≡ true) × (split_entry b o inode_num name type ≡ b')
      ⊎ (add_entry fuel (o + entry_rec_len b o) size b inode_num name type ≡ some b')

  ways :
      (fuel o : ℕ) (b b' : Buffer)
      → add_entry (suc fuel) o size b inode_num name type ≡ some b'
      → IsEntry b o size × Ways fuel o b b'
  ways fuel o b b' e = elim (Bool-cases (stops b o size)) [
    | inl t ↦ absurd (none-some b' (sym (add_stop fuel o b t) ∙ e))
    | inr t ↦ (
      goes_on b o size t,
      by_tests (reuses b o name) (splits b o name) refl refl (sym (add_step fuel o b t) ∙ e),
    )
  ]
    where
      by_tests :
          (r q : Bool)
          → reuses b o name ≡ r
          → splits b o name ≡ q
          → ◌≡◌ {A = Option Buffer}
              (if r
                then some (put_entry b o inode_num name type)
                else if q
                then some (split_entry b o inode_num name type)
                else add_entry fuel (o + entry_rec_len b o) size b inode_num name type)
              (some b')
          → Ways fuel o b b'
      by_tests true q er eq h = inl (er, some-eq (put_entry b o inode_num name type) b' h)
      by_tests false true er eq h =
          inr (inl (eq, some-eq (split_entry b o inode_num name type) b' h))
      by_tests false false er eq h = inr (inr h)

  -- What stands before the entry is kept.
  add_before :
      (fuel o : ℕ) (b b' : Buffer)
      → add_entry fuel o size b inode_num name type ≡ some b'
      → (i : ℕ) → i < o
      → b' i ≡ b i
  unfolding add_entry
  add_before zero o b b' e i lt = absurd (none-some b' e)
  add_before (suc fuel) o b b' e i lt =
      let (entry, way) = ways fuel o b b' e in
      elim way [
        | inl (r, same) ↦ ap (λ c. c i) (sym same) ∙ filled_before b o inode_num name type i lt
        | inr (inl (q, same)) ↦
            ap (λ c. c i) (sym same)
            ∙ split_other b o (actual_size b o) (entry_rec_len b o - actual_size b o)
                (actual_lo b o) i (omega (arith, actual_lo b o)) (inl (omega arith))
        | inr (inr further) ↦ add_before fuel (o + entry_rec_len b o) b b' further i (omega arith)
      ]

  -- The head of an entry that is kept as far as its name goes.
  kept_matches :
      (b b' : Buffer) (o : ℕ)
      → ((i : ℕ) → i < o + 4 → b' i ≡ b i)
      → ((i : ℕ) → o + 6 ≤ i → i < o + 8 + entry_name_len b o → b' i ≡ b i)
      → matches b' o name ≡ matches b o name
  unfolding name_equal
  kept_matches b b' o low high =
      rw
        (
          low o (omega arith),
          low (o + 1) (omega arith),
          low (o + 2) (omega arith),
          low (o + 3) (omega arith),
          high (o + 6) (omega arith) (omega arith),
          same_bytes_agree (entry_name_len b o) b b' (o + 8) name
              (λ i lo hi. high i (omega arith) (omega arith)),
        )
        refl

  -- The search goes past an entry that does not match.
  find_past :
      (fuel o : ℕ) (b : Buffer)
      → IsEntry b o size
      → matches b o name ≡ false
      → find_entry (suc fuel) o size b name ≡ find_entry fuel (o + entry_rec_len b o) size b name
  find_past fuel o b h m = find_step fuel o size b name h ∙ rw m refl

  refuted :
      (r : Bool) (n : ℕ) (x : Option ℕ)
      → ◌≡◌ {A = Option ℕ} (if r then some n else x) none
      → (r ≡ false) × (x ≡ none)
  refuted true n x e = cc
  refuted false n x e = (refl, e)

  -- A search that finds nothing passes every entry.
  passed :
      (fuel o : ℕ) (b : Buffer)
      → IsEntry b o size
      → find_entry (suc fuel) o size b name ≡ none
      → (matches b o name ≡ false) × (find_entry fuel (o + entry_rec_len b o) size b name ≡ none)
  passed fuel o b h e =
      refuted (matches b o name) (entry_inode b o)
        (find_entry fuel (o + entry_rec_len b o) size b name)
        (sym (find_step fuel o size b name h) ∙ e)

  module _ (named : IsName name) (positive : 0 < inode_num) (small : inode_num < 2 ^ 32)
      (block : size < 2 ^ 16) where
    find_reused :
        (fuel o : ℕ) (b : Buffer)
        → IsEntry b o size
        → reuses b o name ≡ true
        → find_entry (suc fuel) o size (put_entry b o inode_num name type) name ≡ some inode_num
    find_reused fuel o b h r =
        filled_found b o inode_num name type fuel size named positive small h.room (ground arith)
          h.hi

    find_split :
        (fuel o a v : ℕ) (b : Buffer)
        → IsEntry b o size
        → 8 ≤ a
        → entry_name_len b o ≤ a - 8
        → v ≡ entry_rec_len b o - a
        → a + required name ≤ entry_rec_len b o
        → matches b o name ≡ false
        → find_entry (suc (suc fuel)) o size (split_at b o a v inode_num name type) name
          ≡ some inode_num
    find_split fuel o a v b h lo name_fits rest fits m =
        find_past (suc fuel) o (split b o a v lo) entry (
          kept_matches b (split b o a v lo) o
            (λ i lt. split_other b o a v lo i (omega arith) (inl lt))
            (λ i below lt. split_other b o a v lo i (omega arith) (inr (omega arith)))
          ∙ m)
        ∙ ap (λ r. find_entry (suc fuel) (o + r) size (split b o a v lo) name) length_a
        ∙ filled_found (put16 (put16 b (o + 4) a) (o + a + 4) v) (o + a) inode_num name type fuel
            size named positive small (omega (arith, h.hi, h.room)) (rw length_v (omega arith))
            (rw length_v (omega (arith, h.hi)))
      where
        length_a : entry_rec_len (split b o a v lo) o ≡ a
        length_a = split_rec_len b o a v lo (omega (arith, h.hi))

        length_v : entry_rec_len (put16 (put16 b (o + 4) a) (o + a + 4) v) (o + a) ≡ v
        length_v = load16-put16 (put16 b (o + 4) a) (o + a + 4) v (omega (arith, h.hi))

        name_kept : entry_name_len (split b o a v lo) o ≡ entry_name_len b o
        name_kept = split_other b o a v lo (o + 6) (omega arith) (inr (omega arith))

        entry : IsEntry (split b o a v lo) o size
        entry = record {
          room = h.room;
          lo = rw length_a lo;
          hi = rw length_a (omega (arith, h.hi));
          fits = rw (length_a, name_kept) name_fits;
        }

    -- An entry further on is kept, and the search passes it.
    find_further :
        (fuel o : ℕ) (b b' : Buffer)
        → IsEntry b o size
        → ((i : ℕ) → i < o + entry_rec_len b o → b' i ≡ b i)
        → matches b o name ≡ false
        → find_entry (suc fuel) o size b' name
          ≡ find_entry fuel (o + entry_rec_len b o) size b' name
    find_further fuel o b b' h kept m =
        find_past fuel o b' entry (
          kept_matches b b' o (λ i lt. kept i (omega (arith, h.lo)))
            (λ i below lt. kept i (omega (arith, h.lo, h.fits)))
          ∙ m)
        ∙ ap (λ r. find_entry fuel (o + r) size b' name) length_kept
      where
        length_kept : entry_rec_len b' o ≡ entry_rec_len b o
        length_kept =
            rw (kept (o + 4) (omega (arith, h.lo)), kept (o + 4 + 1) (omega (arith, h.lo))) refl

        entry : IsEntry b' o size
        entry = record {
          room = h.room;
          lo = rw length_kept h.lo;
          hi = rw length_kept h.hi;
          fits = rw (length_kept, kept (o + 6) (omega (arith, h.lo))) h.fits;
        }

    find_added :
        (fuel o : ℕ) (b b' : Buffer)
        → AreBytes b
        → add_entry fuel o size b inode_num name type ≡ some b'
        → find_entry fuel o size b name ≡ none
        → find_entry (suc fuel) o size b' name ≡ some inode_num
    unfolding add_entry
    find_added zero o b b' bytes e absent = absurd (none-some b' e)
    find_added (suc fuel) o b b' bytes e absent =
        let (entry, way) = ways fuel o b b' e in
        let (m, absent') = passed fuel o b entry absent in
        elim way [
          | inl (r, same) ↦
              ap (λ c. find_entry (suc (suc fuel)) o size c name) (sym same)
              ∙ find_reused (suc fuel) o b entry r
          | inr (inl (q, same)) ↦
              ap (λ c. find_entry (suc (suc fuel)) o size c name) (sym same)
              ∙ find_split fuel o (actual_size b o) (entry_rec_len b o - actual_size b o) b entry
                  (actual_lo b o) (ground (arith, entry.fits)) refl (ground arith) m
          | inr (inr further) ↦
              find_further (suc fuel) o b b' entry
                (add_before fuel (o + entry_rec_len b o) b b' further) m
              ∙ find_added fuel (o + entry_rec_len b o) b b' bytes further absent'
        ]

    -- A name that is not in a directory block, and that `add_directory_entry` makes an entry for
    -- there, is found in the block afterwards with the inode it was given.
    pub add-find :
        (b b' : Buffer)
        → AreBytes b
        → add_entry size 0 size b inode_num name type ≡ some b'
        → find_entry size 0 size b name ≡ none
        → find_entry size 0 size b' name ≡ some inode_num
    add-find b b' bytes e absent =
        find_entry_fuel size (suc size) 0 size b' name (omega arith) (omega arith)
        ∙ find_added size 0 b b' bytes e absent
