-- ===== src/Network/Datagram.antt =====
-- Datagrams, kernel/udp.c.
use piux_kernel.Prelude.{
  ℕ, ◌+◌, ◌-◌, ◌%◌, ◌^◌, Bool, true, false, not, ltb, if◌then◌else◌, List, ◌++◌, length, Option,
  none, some, Buffer, copy_bytes, load16, store16,
}
use piux_kernel.Net.{net_htons}
use piux_kernel.Network.{Host, Udp}
use piux_kernel.Network.Packet.{ip_proto_udp, ip_send}

-- `sizeof(udp_header_t)`.
abbrev pub udp_header_size : ℕ
udp_header_size = 8

abbrev pub udp_recv_buffer_size : ℕ
udp_recv_buffer_size = 512

unfoldable pub udp_packet : ℕ → ℕ → List ℕ → List ℕ
udp_packet destination_port source_port bytes =
    (store16 (net_htons source_port)
      ++ store16 (net_htons destination_port)
      ++ store16 (net_htons ((udp_header_size + length bytes) % 2 ^ 16))
      ++ store16 0)
    ++ bytes

-- The length of the data that the header states, at most the size of the buffer.
abbrev pub stated_length : Buffer → ℕ
stated_length data_bytes =
    let payload_length = (net_htons (load16 data_bytes 4) + 2 ^ 16 - udp_header_size) % 2 ^ 16 in
    if ltb udp_recv_buffer_size payload_length then udp_recv_buffer_size else payload_length

unfoldable pub udp_handle_packet : Buffer → ℕ → ℕ → Udp → Udp
udp_handle_packet data_bytes data_length source_ip u =
    if ltb data_length udp_header_size then u else record {
      last_buffer =
          copy_bytes (stated_length data_bytes) u.last_buffer 0 data_bytes udp_header_size;
      last_length = stated_length data_bytes;
      last_source_ip = source_ip;
      last_source_port = net_htons (load16 data_bytes 0);
      last_valid = true;
    }

-- The number of bytes, the address and port of the sender and the buffer; `none` for -1.
unfoldable pub udp_last_received : Buffer → ℕ → Udp → Option (ℕ × ℕ × ℕ × Buffer) × Udp
udp_last_received buffer max_length u =
    let copy_length = if ltb max_length u.last_length then max_length else u.last_length in
    if not u.last_valid then (none, u) else (
      some (
        copy_length,
        u.last_source_ip,
        u.last_source_port,
        copy_bytes copy_length buffer 0 u.last_buffer 0,
      ),
      record u { last_valid = false },
    )

module _ {T : Type 0} (poll : Host T → Host T) where
  unfoldable pub udp_send : ℕ → ℕ → ℕ → List ℕ → Host T → Bool × Host T
  udp_send destination_ip destination_port source_port bytes h =
      if ltb 1016 (length bytes)
      then (false, h)
      else ip_send poll destination_ip ip_proto_udp (udp_packet destination_port source_port bytes)
          h
