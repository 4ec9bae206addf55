-- ===== src/Arp.antt =====
-- kernel/arp.c: the cache of addresses. Its eight entries are a list, and the loops over them stop
-- at the first entry of the address.
pub mod Cache
mod Tests
use piux_kernel.Prelude.{
  ℕ, ◌+◌, ◌%◌, Bool, true, false, ◌&&◌, ◌==◌, if◌then◌else◌, List, [], ◌∷◌, Option, none, some, set,
}

-- `arp_cache_entry_t`, with the six bytes of the hardware address.
pub record Entry : Type 0 where
  pub ip_address : ℕ
  pub mac : List ℕ
  pub used : Bool

pub record Arp : Type 0 where
  pub cache : List Entry
  pub next_cache_slot : ℕ

abbrev pub arp_cache_size : ℕ
arp_cache_size = 8

abbrev pub is_entry_of : ℕ → Entry → Bool
is_entry_of ip e = e.used && e.ip_address == ip

-- The loop of `arp_cache_insert`: `none` if no entry has the address.
unfoldable pub renew : ℕ → List ℕ → List Entry → Option (List Entry)
renew ip mac [] = none
renew ip mac (e ∷ entries) =
    let rest : Option (List Entry) = elim (renew ip mac entries) [
      | none ↦ none
      | some entries' ↦ some (e ∷ entries')
    ] in
    if is_entry_of ip e then some (record e { mac = mac } ∷ entries) else rest

-- Behind the loop.
abbrev pub insert_renewed : ℕ → List ℕ → Arp → Option (List Entry) → Arp
insert_renewed ip mac a (some entries) = record a { cache = entries }
insert_renewed ip mac a none = record {
  cache = set a.cache a.next_cache_slot (record { ip_address = ip; mac = mac; used = true });
  next_cache_slot = (a.next_cache_slot + 1) % arp_cache_size;
}

unfoldable pub arp_cache_insert : ℕ → List ℕ → Arp → Arp
arp_cache_insert ip mac a = insert_renewed ip mac a (renew ip mac a.cache)

-- The hardware address, `none` for -1.
unfoldable pub lookup_in : ℕ → List Entry → Option (List ℕ)
lookup_in ip [] = none
lookup_in ip (e ∷ entries) =
    let rest = lookup_in ip entries in if is_entry_of ip e then some e.mac else rest

abbrev pub arp_cache_lookup : ℕ → Arp → Option (List ℕ)
arp_cache_lookup ip a = lookup_in ip a.cache
