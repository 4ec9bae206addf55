-- ===== src/Arp/Cache.antt =====
-- What a look-up in the cache of kernel/arp.c gives after an insertion.
use piux_kernel.Prelude.{
  ℕ, zero, suc, ◌<◌, ◌≡◌, ◌≢◌, ◌∙◌, inl, inr, refl, sym, ap, true, false, List, [], ◌∷◌, Option,
  none, some, set, length, length-set, arith, Bool-cases,
}
use piux_kernel.Arp.{
  Entry, Arp, arp_cache_size, is_entry_of, renew, insert_renewed, arp_cache_insert, lookup_in,
  arp_cache_lookup,
}

abbrev made : ℕ → List ℕ → Entry
made ip mac = record { ip_address = ip; mac = mac; used = true }

-- What the loop of the insertion gives.
abbrev Renewed : ℕ → List ℕ → List Entry → Option (List Entry) → Type 0
Renewed ip mac entries (some entries') =
    (lookup_in ip entries' ≡ some mac)
    × (length entries' ≡ length entries)
    × ((other : ℕ) → other ≢ ip → lookup_in other entries' ≡ lookup_in other entries)
Renewed ip mac entries none =
    (k : ℕ) → k < length entries → lookup_in ip (set entries k (made ip mac)) ≡ some mac

made_matches : (ip : ℕ) (mac : List ℕ) → is_entry_of ip (made ip mac) ≡ true
made_matches ip mac = ground arith

lookup_here :
    (ip : ℕ) (e : Entry) (entries : List Entry)
    → is_entry_of ip e ≡ true
    → lookup_in ip (e ∷ entries) ≡ some e.mac
unfolding lookup_in
lookup_here ip e entries h = rw h refl

lookup_there :
    (ip : ℕ) (e : Entry) (entries : List Entry)
    → is_entry_of ip e ≡ false
    → lookup_in ip (e ∷ entries) ≡ lookup_in ip entries
unfolding lookup_in
lookup_there ip e entries h = rw h refl

lookup_cons :
    (ip : ℕ) (e : Entry) (xs ys : List Entry)
    → lookup_in ip xs ≡ lookup_in ip ys
    → lookup_in ip (e ∷ xs) ≡ lookup_in ip (e ∷ ys)
unfolding lookup_in
lookup_cons ip e xs ys h = rw h refl

renew-Renewed :
    (ip : ℕ) (mac : List ℕ) (entries : List Entry) → Renewed ip mac entries (renew ip mac entries)
unfolding renew
renew-Renewed ip mac [] = λ k h. absurd (omega arith)
renew-Renewed ip mac (e ∷ entries) = elim (Bool-cases (is_entry_of ip e)) [
  | inl h ↦ rw h (
    lookup_here ip (record e { mac = mac }) entries h,
    refl,
    λ other ne.
        lookup_there other (record e { mac = mac }) entries (apart other ne h)
        ∙ sym (lookup_there other e entries (apart other ne h)),
  )
  | inr h ↦ rw h (by_rest (renew ip mac entries) h (renew-Renewed ip mac entries))
]
  where
    apart : (other : ℕ) → other ≢ ip → is_entry_of ip e ≡ true → is_entry_of other e ≡ false
    apart other ne h = ground arith

    by_rest :
        (rest : Option (List Entry))
        → is_entry_of ip e ≡ false
        → Renewed ip mac entries rest
        → Renewed ip mac
            (e ∷ entries)
            (elim rest [ none ↦ none | some entries' ↦ some (e ∷ entries') ])
    by_rest none h r = here
      where
        here :
            (k : ℕ)
            → k < length (e ∷ entries)
            → lookup_in ip (set (e ∷ entries) k (made ip mac)) ≡ some mac
        here zero lt = lookup_here ip (made ip mac) entries (made_matches ip mac)
        here (suc k) lt = lookup_there ip e (set entries k (made ip mac)) h ∙ r k (omega arith)
    by_rest (some entries') h (found, len, others) = (
      lookup_there ip e entries' h ∙ found,
      ap suc len,
      λ other ne. lookup_cons other e entries' entries (others other ne),
    )

-- The eight entries, and a slot of theirs.
pub record IsValid (a : Arp) : Type 0 where
  pub size : length a.cache ≡ arp_cache_size
  pub slot : a.next_cache_slot < arp_cache_size

insert_lem :
    (ip : ℕ) (mac : List ℕ) (a : Arp) (renewed : Option (List Entry))
    → IsValid a
    → Renewed ip mac a.cache renewed
    → IsValid (insert_renewed ip mac a renewed)
      × (arp_cache_lookup ip (insert_renewed ip mac a renewed) ≡ some mac)
insert_lem ip mac a none h r = (
  record { size = length-set a.cache a.next_cache_slot (made ip mac) ∙ h.size; slot = omega arith },
  r a.next_cache_slot (omega (arith, h.size, h.slot)),
)
insert_lem ip mac a (some entries) h (found, len, others) =
    (record { size = len ∙ h.size; slot = h.slot }, found)

-- Whatever the cache holds, a look-up of the address that was inserted last gives the hardware
-- address that was inserted with it, and the cache keeps its eight entries.
pub insert-lookup :
    (ip : ℕ) (mac : List ℕ) (a : Arp)
    → IsValid a
    → IsValid (arp_cache_insert ip mac a)
      × (arp_cache_lookup ip (arp_cache_insert ip mac a) ≡ some mac)
unfolding arp_cache_insert
insert-lookup ip mac a h =
    insert_lem ip mac a (renew ip mac a.cache) h (renew-Renewed ip mac a.cache)
