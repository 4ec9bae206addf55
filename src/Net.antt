-- ===== src/Net.antt =====
-- kernel/net.c: byte order, the Internet checksum, addresses as text, and the name in a query.
pub mod ByteOrder
pub mod Checksum
pub mod IpText
pub mod DnsName
mod Tests
use piux_kernel.Prelude.{
  ℕ, zero, suc, ◌+◌, ◌-◌, ◌*◌, ◌/◌, ◌%◌, ◌^◌, Bool, true, false, ◌&&◌, ◌||◌, not, ltb, leb, ◌==◌,
  if◌then◌else◌, List, [], ◌∷◌, ◌++◌, Option, none, some, bit_and, bit_or, Buffer, update, CString,
}

-- `(uint16_t)((value << 8) | (value >> 8))`.
unfoldable pub net_htons : ℕ → ℕ
net_htons value = bit_or (value * 2 ^ 8) (value / 2 ^ 8) % 2 ^ 16

-- The four masked bytes of a word, each at its new place.
unfoldable pub net_htonl : ℕ → ℕ
net_htonl value =
    bit_or
      (bit_or (bit_or (bit_and value 0x0000_00ff * 2 ^ 24) (bit_and value 0x0000_ff00 * 2 ^ 8))
        (bit_and value 0x00ff_0000 / 2 ^ 8))
      (bit_and value 0xff00_0000 / 2 ^ 24)

-- The loop over the 16-bit words of the data, and the odd byte behind them.
unfoldable pub sum_words : ℕ → List ℕ → ℕ
sum_words sum [] = sum
sum_words sum (b ∷ []) = (sum + b * 2 ^ 8) % 2 ^ 32
sum_words sum (b0 ∷ b1 ∷ bytes) = sum_words ((sum + bit_or (b0 * 2 ^ 8) b1) % 2 ^ 32) bytes

-- `while (sum >> 16) sum = (sum & 0xFFFF) + (sum >> 16)`, with fuel.
unfoldable pub fold_sum : ℕ → ℕ → ℕ
fold_sum zero sum = sum
fold_sum (suc fuel) sum =
    let rest = fold_sum fuel (bit_and sum 0xffff + sum / 2 ^ 16) in
    if sum / 2 ^ 16 == 0 then sum else rest

-- Three rounds are enough for a word: see `Checksum.fold_sum_lem`.
abbrev pub fold_fuel : ℕ
fold_fuel = 4

-- `~sum & 0xFFFF` of a sum below 2 ^ 16.
unfoldable pub net_checksum : List ℕ → ℕ → ℕ
unfolding sum_words fold_sum
net_checksum bytes initial_sum = 0xffff - fold_sum fold_fuel (sum_words initial_sum bytes)

abbrev pub is_digit : ℕ → Bool
is_digit c = leb b'0' c && leb c b'9'

-- `result |= (part & 0xFF) << shift` at `shift = 8 * left - 8`; `none` for a negative shift,
-- which C does not define.
unfoldable pub store_part : ℕ → ℕ → ℕ → Option ℕ
store_part result part zero = none
store_part result part (suc left) = some (bit_or result (bit_and part 0xff * 2 ^ (8 * left)))

-- The loop of `net_parse_ip`. A dot stores the part and goes on, the end stores it and stops,
-- and any other character stops.
unfoldable pub parse_from : CString → ℕ → ℕ → ℕ → Option ℕ
parse_from [] result part left = store_part result part left
parse_from (c ∷ text) result part left =
    let digit = parse_from text result ((part * 10 + (c - b'0')) % 2 ^ 32) left in
    let dot : Option ℕ = elim (store_part result part left) [
      | none ↦ none
      | some result' ↦ parse_from text result' 0 (left - 1)
    ] in
    if is_digit c
    then digit
    else if c == b'.'
    then dot
    else if c == 0
    then store_part result part left
    else some result

unfoldable pub net_parse_ip : CString → Option ℕ
unfolding parse_from store_part
net_parse_ip text = parse_from text 0 0 4

-- One octet in decimal, with no zeros in front.
unfoldable pub format_octet : ℕ → CString
format_octet octet =
    (if leb 100 octet then (b'0' + octet / 100) ∷ [] else [])
    ++ ((if leb 10 octet then (b'0' + octet / 10 % 10) ∷ [] else []) ++ ((b'0' + octet % 10) ∷ []))

-- The loop over the shifts 24, 16, 8 and 0; `left` of them are left.
unfoldable pub format_from : ℕ → ℕ → CString
format_from address zero = []
format_from address (suc left) =
    format_octet (bit_and (address / 2 ^ (8 * left)) 0xff)
    ++ ((if ltb 0 left then b'.' ∷ [] else []) ++ format_from address left)

unfoldable pub net_format_ip : ℕ → CString
unfolding format_from format_octet
net_format_ip address = format_from address 4

-- The loop of `net_resolve_host`: `none` for a character that no name or address has, else
-- whether there was a letter.
unfoldable pub scan_host : CString → Bool → Option Bool
scan_host [] has_letters = some has_letters
scan_host (c ∷ text) has_letters =
    if is_digit c || c == b'.'
    then scan_host text has_letters
    else let letter = scan_host text true in
      if leb b'a' c && leb c b'z' || leb b'A' c && leb c b'Z' then letter else none

-- The variables of the loop of `net_dns_query` that encodes the name.
pub record Encoder : Type 0 where
  pub packet : Buffer
  pub offset : ℕ
  pub label_start : ℕ
  pub label_length : ℕ

-- At a dot or at the end: the length in front of the label; `none` is `return 0`.
unfoldable pub end_label : Encoder → Option Encoder
end_label e =
    if e.label_length == 0 || ltb 63 e.label_length || leb 256 (e.offset + e.label_length + 1)
    then none
    else let next = (e.offset + e.label_length + 1) % 2 ^ 16 in
      some (record {
        packet = update e.packet e.label_start (e.label_length % 256);
        offset = next;
        label_start = next;
        label_length = 0;
      })

-- At any other character.
unfoldable pub add_character : Encoder → ℕ → Encoder
add_character e c =
    let offset' = if e.label_length == 0 then e.offset + 1 else e.offset in
    record e {
      packet = update e.packet (offset' + e.label_length) c;
      offset = offset';
      label_length = e.label_length + 1;
    }

unfoldable pub encode_from : Encoder → CString → Option Encoder
encode_from e [] = end_label e
encode_from e (c ∷ name) =
    let dot : Option Encoder = elim (end_label e) [ none ↦ none | some e' ↦ encode_from e' name ] in
    let other = encode_from (add_character e c) name in
    if c == 0 then end_label e else if c == b'.' then dot else other

-- `packet[offset++] = 0` behind the name.
abbrev close_name : Option Encoder → Option Encoder
close_name none = none
close_name (some e) = some (record e { packet = update e.packet e.offset 0; offset = e.offset + 1 })

-- The name and its closing zero, in a packet buffer that may hold anything before.
unfoldable pub encode_name : Buffer → CString → Option Encoder
encode_name packet name =
    close_name (
      encode_from (record { packet = packet; offset = 12; label_start = 12; label_length = 0 })
        name)
