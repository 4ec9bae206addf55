-- ===== src/Arp/Tests.antt =====
-- Runs of kernel/arp.c.
use piux_kernel.Prelude.{◌≡◌, refl, arith, false, [], ◌∷◌, some, replicate}
use piux_kernel.Arp.{Arp, arp_cache_insert, arp_cache_lookup, renew}
use piux_kernel.Arp.Cache.{IsValid, insert-lookup}

abbrev empty : Arp
empty = record {
  cache = replicate 8 (record { ip_address = 0; mac = []; used = false });
  next_cache_slot = 7;
}

insert-lookup_example :
    IsValid (arp_cache_insert 5 (1 ∷ 2 ∷ 3 ∷ 4 ∷ 5 ∷ 6 ∷ []) empty)
    × (arp_cache_lookup 5 (arp_cache_insert 5 (1 ∷ 2 ∷ 3 ∷ 4 ∷ 5 ∷ 6 ∷ []) empty)
        ≡ some (1 ∷ 2 ∷ 3 ∷ 4 ∷ 5 ∷ 6 ∷ []))
insert-lookup_example =
    insert-lookup 5 (1 ∷ 2 ∷ 3 ∷ 4 ∷ 5 ∷ 6 ∷ []) empty (record { size = refl; slot = omega arith })

-- The slot after the last one is the first.
run_wrap : (arp_cache_insert 5 [] empty).next_cache_slot ≡ 0
unfolding arp_cache_insert renew
run_wrap = refl
