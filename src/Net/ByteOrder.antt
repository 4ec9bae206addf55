-- ===== src/Net/ByteOrder.antt =====
-- `net_htons` and `net_htonl` of kernel/net.c swap the bytes of a word.
use piux_kernel.Prelude.{
  ℕ, ◌+◌, ◌*◌, ◌/◌, ◌%◌, ◌^◌, ◌<◌, ◌≡◌, arith, bit_and, bit_or, bit_or-fields, bit_or-low,
  bit_and-mask, bit_and-shift, ◌∙◌,
}
use piux_kernel.Net.{net_htons, net_htonl}

pub htons_bytes : (v : ℕ) → v < 2 ^ 16 → net_htons v ≡ v % 256 * 256 + v / 256
unfolding net_htons
htons_bytes v h = omega (arith, bit_or-fields 8 v (v / 2 ^ 8))

masked : (k v : ℕ) → bit_and v (0xff * 2 ^ k) ≡ v / 2 ^ k % 256 * 2 ^ k
masked k v = rw (bit_and-shift k v 0xff, bit_and-mask 8 (v / 2 ^ k))

four_fields :
    (a b c d : ℕ)
    → b < 256
    → c < 256
    → d < 256
    → bit_or
        (bit_or (bit_or (a * 2 ^ 24) (b * 2 ^ 8 * 2 ^ 8)) (c * 2 ^ 16 / 2 ^ 8))
        (d * 2 ^ 24 / 2 ^ 24)
      ≡ a * 2 ^ 24 + b * 2 ^ 16 + c * 2 ^ 8 + d
four_fields a b c d hb hc hd =
    rw
      (
        bit_or-low 24 (a * 2 ^ 24) (b * 2 ^ 8 * 2 ^ 8) (omega arith) (omega arith),
        bit_or-low 16 (a * 2 ^ 24 + b * 2 ^ 8 * 2 ^ 8) (c * 2 ^ 16 / 2 ^ 8) (omega arith)
            (omega arith),
        bit_or-low 8 (a * 2 ^ 24 + b * 2 ^ 8 * 2 ^ 8 + c * 2 ^ 16 / 2 ^ 8) (d * 2 ^ 24 / 2 ^ 24)
            (omega arith) (omega arith),
      )
      (omega arith)

pub htonl_bytes :
    (v : ℕ)
    → v < 2 ^ 32
    → net_htonl v
      ≡ v % 256 * 2 ^ 24 + v / 2 ^ 8 % 256 * 2 ^ 16 + v / 2 ^ 16 % 256 * 2 ^ 8 + v / 2 ^ 24
unfolding net_htonl
htonl_bytes v h =
    rw (bit_and-mask 8 v, masked 8 v, masked 16 v, masked 24 v)
      (four_fields (v % 256) (v / 256 % 256) (v / 65536 % 256) (v / 16777216 % 256) (omega arith)
          (omega arith) (omega arith)
        ∙ omega arith)

-- Swapping the two bytes of a 16-bit word twice gives the word back, and likewise the four bytes
-- of a 32-bit word: the two functions serve in both directions.
pub swap_twice :
    (v w : ℕ)
    → v < 2 ^ 16
    → w < 2 ^ 32
    → (net_htons (net_htons v) ≡ v) × (net_htonl (net_htonl w) ≡ w)
swap_twice v w h k = (
  omega (arith, htons_bytes v h, htons_bytes (net_htons v)),
  omega (arith, htonl_bytes w k, htonl_bytes (net_htonl w)),
)

pub htons_bound : (v : ℕ) → v < 2 ^ 16 → net_htons v < 2 ^ 16
htons_bound v h = omega (arith, htons_bytes v h)

pub htonl_bound : (v : ℕ) → v < 2 ^ 32 → net_htonl v < 2 ^ 32
htonl_bound v h = omega (arith, htonl_bytes v h)
