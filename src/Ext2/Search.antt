-- ===== src/Ext2/Search.antt =====
-- The loop of `ext2_find_inode_in_dir` of kernel/ext2.c ends.
use piux_kernel.Prelude.{
  ℕ, zero, suc, ◌+◌, ◌≤◌, ◌≡◌, inl, inr, sym, subst, true, false, Option, none, some, Buffer,
  CString, arith, Bool-cases,
}
use piux_kernel.Ext2.State.{entry_inode, entry_rec_len}
use piux_kernel.Ext2.Entries.{find_entry}
use piux_kernel.Ext2.Lookup.{IsEntry, stops, matches, goes_on, IsEntry-stops, find_step, find_stop}

-- A run of the loop from an offset on, round by round to its end, with its result.
pub data Run (b : Buffer) (limit : ℕ) (name : CString) : ℕ → Option ℕ → Type 0 where
  broken : {o : ℕ} → ¬ IsEntry b o limit → Run b limit name o none
  taken :
      {o : ℕ}
      → IsEntry b o limit
      → matches b o name ≡ true
      → Run b limit name o (some (entry_inode b o))
  passed :
      {o : ℕ} {r : Option ℕ}
      → IsEntry b o limit
      → matches b o name ≡ false
      → Run b limit name (o + entry_rec_len b o) r
      → Run b limit name o r

no-IsEntry : (b : Buffer) (o limit : ℕ) → stops b o limit ≡ true → ¬ IsEntry b o limit
no-IsEntry b o limit e h = ground (arith, e, IsEntry-stops b o limit h)

-- Whatever bytes a directory block holds, the search for a name ends: with as much fuel as bytes are
-- left, its result is that of a finite run of rounds, each of which passes an entry of at least 8
-- bytes that lies in the block and does not hold the name, up to the first entry that holds it, whose
-- inode is the result, or to the first place without such an entry, where there is no result.
pub find_entry-Run :
    (fuel o limit : ℕ) (b : Buffer) (name : CString)
    → limit ≤ o + fuel
    → Run b limit name o (find_entry fuel o limit b name)
unfolding find_entry
find_entry-Run zero o limit b name h = broken (λ entry. omega (arith, entry.room))
find_entry-Run (suc fuel) o limit b name h = elim (Bool-cases (stops b o limit)) [
  | inl e ↦
      subst (Run b limit name o) (sym (find_stop fuel o limit b name e))
        (broken (no-IsEntry b o limit e))
  | inr e ↦
      let entry = goes_on b o limit e in
      let rest =
        find_entry-Run fuel (o + entry_rec_len b o) limit b name (omega (arith, entry.lo)) in
      subst (Run b limit name o) (sym (find_step fuel o limit b name entry))
        (elim (Bool-cases (matches b o name)) [
          | inl found ↦ rw found (taken entry found)
          | inr other ↦ rw other (passed entry other rest)
        ])
]
