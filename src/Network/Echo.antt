-- ===== src/Network/Echo.antt =====
-- Echo requests and replies, kernel/icmp.c.
use piux_kernel.Prelude.{
  ℕ, zero, suc, ◌+◌, ◌-◌, ◌%◌, Bool, true, false, ◌&&◌, ltb, ◌==◌, if◌then◌else◌, List, [], ◌∷◌,
  ◌++◌, Buffer, load16, store16, list_at,
}
use piux_kernel.Net.{net_htons, net_checksum}
use piux_kernel.Network.{Host, Icmp}
use piux_kernel.Network.Packet.{ip_proto_icmp, ip_send}

abbrev pub icmp_type_echo_request : ℕ
icmp_type_echo_request = 8

abbrev pub icmp_type_echo_reply : ℕ
icmp_type_echo_reply = 0

abbrev pub icmp_echo_packet_size : ℕ
icmp_echo_packet_size = 64

-- `sizeof(icmp_header_t)`.
abbrev pub icmp_header_size : ℕ
icmp_header_size = 8

-- The packet with a checksum field; the identifier and the sequence number as they are stored.
unfoldable pub echo_packet : ℕ → ℕ → ℕ → ℕ → List ℕ → List ℕ
echo_packet type checksum identifier sequence payload =
    (type ∷ 0 ∷ store16 checksum ++ store16 identifier ++ store16 sequence) ++ payload

unfoldable pub echo_with_checksum : ℕ → ℕ → ℕ → List ℕ → List ℕ
echo_with_checksum type identifier sequence payload =
    echo_packet type (net_htons (net_checksum (echo_packet type 0 identifier sequence payload) 0))
      identifier sequence payload

-- `'a' + (index % 26)`.
unfoldable pub letters : ℕ → ℕ → List ℕ
letters zero index = []
letters (suc left) index = (b'a' + index % 26) ∷ letters left (index + 1)

-- The test of a reply against the request that is waiting.
abbrev pub is_reply : Buffer → Icmp → Bool
is_reply data_bytes i =
    i.reply_pending
    && net_htons (load16 data_bytes 4) == i.reply_identifier
    && net_htons (load16 data_bytes 6) == i.reply_sequence

abbrev pub echo_length : ℕ → ℕ
echo_length data_length =
    let copy_length = data_length - icmp_header_size in
    if ltb 66 copy_length then 66 else copy_length

module _ {T : Type 0} (poll : Host T → Host T) where
  unfoldable pub icmp_send_echo_request : ℕ → ℕ → ℕ → Host T → Bool × Host T
  icmp_send_echo_request destination_ip identifier sequence h =
      ip_send poll destination_ip ip_proto_icmp
        (echo_with_checksum icmp_type_echo_request (net_htons identifier) (net_htons sequence)
          (letters 56 0))
        (record h {
          icmp = record {
            reply_pending = true;
            reply_identifier = identifier;
            reply_sequence = sequence;
            reply_received = false;
          };
        })

  -- Whether the reply came, with the attempts left.
  unfoldable pub icmp_wait_echo_reply : ℕ → Host T → Bool × Host T
  icmp_wait_echo_reply zero h = (false, h)
  icmp_wait_echo_reply (suc left) h = elim ((poll h).icmp.reply_received) [
    | true ↦ (true, poll h)
    | false ↦ icmp_wait_echo_reply left (poll h)
  ]

  unfoldable pub send_echo_reply : Buffer → ℕ → ℕ → Host T → Host T
  send_echo_reply data_bytes data_length source_ip h =
      (ip_send poll source_ip ip_proto_icmp
        (echo_with_checksum icmp_type_echo_reply (load16 data_bytes 4) (load16 data_bytes 6)
          (list_at (echo_length data_length) data_bytes icmp_header_size))
        h).1

  unfoldable pub icmp_handle_packet : Buffer → ℕ → ℕ → Host T → Host T
  icmp_handle_packet data_bytes data_length source_ip h =
      let h' = record h { icmp = record h.icmp { reply_received = true } } in
      if ltb data_length icmp_header_size
      then h
      else if data_bytes 0 == icmp_type_echo_reply
      then (if is_reply data_bytes h.icmp then h' else h)
      else if data_bytes 0 == icmp_type_echo_request
      then send_echo_reply data_bytes data_length source_ip h
      else h
