-- ===== src/Net/IpText.antt =====
-- Addresses as text: `net_parse_ip` reads back what `net_format_ip` writes.
use piux_kernel.Prelude.{
  ℕ, suc, ◌+◌, ◌*◌, ◌/◌, ◌%◌, ◌^◌, ◌<◌, ◌≡◌, refl, ◌∙◌, ap, arith, bit_and, bit_or, bit_or-low,
  bit_and-mask, [], ◌∷◌, ◌++◌, CString, some,
}
use piux_kernel.Net.{store_part, parse_from, net_parse_ip, format_octet, format_from, net_format_ip}

-- The digits of an octet are read as the octet.
parse-octet :
    (o : ℕ) (rest : CString) (result left : ℕ)
    → o < 256
    → parse_from (format_octet o ++ rest) result 0 left ≡ parse_from rest result o left
unfolding parse_from format_octet
parse-octet o rest result left h = ground arith

-- The octet at the byte `left` of an address.
abbrev octet : ℕ → ℕ → ℕ
octet address left = bit_and (address / 2 ^ (8 * left)) 0xff

octet_lem : (address left : ℕ) → octet address left ≡ address / 2 ^ (8 * left) % 256
octet_lem address left = bit_and-mask 8 (address / 2 ^ (8 * left))

octet-lt : (address left : ℕ) → octet address left < 256
octet-lt address left = omega (arith, octet_lem address left)

-- An octet with its dot is stored, and the parts behind it are read.
parse_dot :
    (address left result : ℕ)
    → parse_from
        (format_octet (octet address (suc left)) ++ (b'.' ∷ format_from address (suc left)))
        result
        0
        (suc (suc left))
      ≡ parse_from
          (format_from address (suc left))
          (bit_or result (bit_and (octet address (suc left)) 0xff * 2 ^ (8 * suc left)))
          0
          (suc left)
parse_dot address left result =
    parse-octet (octet address (suc left)) (b'.' ∷ format_from address (suc left)) result
      (suc (suc left)) (octet-lt address (suc left))
    ∙ unfold parse_from store_part in ground arith

-- The last octet is stored at the end of the text.
parse_end :
    (address result : ℕ)
    → parse_from (format_octet (octet address 0) ++ []) result 0 1
      ≡ some (bit_or result (bit_and (octet address 0) 0xff * 2 ^ 0))
parse_end address result =
    parse-octet (octet address 0) [] result 1 (octet-lt address 0)
    ∙ unfold parse_from store_part in refl

stored : (address left : ℕ) → bit_and (octet address left) 0xff ≡ address / 2 ^ (8 * left) % 256
stored address left = bit_and-mask 8 (octet address left) ∙ omega (arith, octet_lem address left)

four_parts :
    (a b c d : ℕ)
    → a < 256
    → b < 256
    → c < 256
    → d < 256
    → bit_or (bit_or (bit_or (bit_or 0 (a * 2 ^ 24)) (b * 2 ^ 16)) (c * 2 ^ 8)) (d * 2 ^ 0)
      ≡ a * 2 ^ 24 + b * 2 ^ 16 + c * 2 ^ 8 + d
four_parts a b c d ha hb hc hd =
    rw
      (
        bit_or-low 32 0 (a * 2 ^ 24) (omega arith) (omega arith),
        bit_or-low 24 (0 + a * 2 ^ 24) (b * 2 ^ 16) (omega arith) (omega arith),
        bit_or-low 16 (0 + a * 2 ^ 24 + b * 2 ^ 16) (c * 2 ^ 8) (omega arith) (omega arith),
        bit_or-low 8 (0 + a * 2 ^ 24 + b * 2 ^ 16 + c * 2 ^ 8) (d * 2 ^ 0) (omega arith)
            (omega arith),
      )
      (omega arith)

-- Every address of 32 bits is read back from the text that is written for it, with no shift that
-- C leaves undefined.
pub parse-format :
    (address : ℕ) → address < 2 ^ 32 → net_parse_ip (net_format_ip address) ≡ some address
unfolding net_parse_ip net_format_ip
parse-format address h =
    parse_dot address 2 0
    ∙ parse_dot address 1 _
    ∙ parse_dot address 0 _
    ∙ parse_end address _
    ∙ ap some (
        rw (stored address 3, stored address 2, stored address 1, stored address 0)
          (four_parts _ _ _ _ (omega arith) (omega arith) (omega arith) (omega arith)
            ∙ omega arith))
