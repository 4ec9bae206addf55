-- ===== src/Network/Poll.antt =====
-- Receiving: `ip_handle_packet` of kernel/ip.c and `net_poll` of kernel/eth.c. Every call of
-- `net_poll` inside another takes a frame from the card first, so the calls are at most as deep as
-- there are frames. What a handler is given stands in the one buffer of `net_poll`, which a call
-- inside may fill again; no handler reads it after such a call.
use piux_kernel.Prelude.{
  ℕ, zero, suc, ◌+◌, ◌-◌, ◌*◌, ◌%◌, ◌^◌, Bool, ◌&&◌, ◌||◌, ltb, leb, ◌==◌, if◌then◌else◌, List, [],
  ◌∷◌, length, Buffer, bit_and, copy_bytes, load16, load32, in_memory,
}
use piux_kernel.Net.{net_htons, net_htonl}
use piux_kernel.Network.{Host}
use piux_kernel.Network.Link.{eth_header_size, eth_max_frame, eth_type_arp, eth_type_ipv4}
use piux_kernel.Network.Address.{arp_handle_packet}
use piux_kernel.Network.Packet.{ip_header_size, ip_proto_icmp, ip_proto_tcp, ip_proto_udp, to_all}
use piux_kernel.Network.Datagram.{udp_handle_packet}
use piux_kernel.Network.Echo.{icmp_handle_packet}

-- The bytes from an offset on.
abbrev pub from_byte : ℕ → Buffer → Buffer
from_byte o b i = b (o + i)

abbrev pub ip_header_length : Buffer → ℕ
ip_header_length data_bytes = bit_and (data_bytes 0) 0x0f * 4

-- `(uint16_t)(total_length - header_length)`.
abbrev pub ip_payload_length : Buffer → ℕ
ip_payload_length data_bytes =
    (net_htons (load16 data_bytes 2) + 2 ^ 16 - ip_header_length data_bytes) % 2 ^ 16

-- The tests on the lengths and on the destination.
abbrev pub is_packet_for : ℕ → Buffer → ℕ → Bool
is_packet_for local_ip data_bytes data_length =
    leb ip_header_size data_length
    && leb ip_header_size (ip_header_length data_bytes)
    && leb (ip_header_length data_bytes) data_length
    && leb (net_htons (load16 data_bytes 2)) data_length
    && (net_htonl (load32 data_bytes 16) == local_ip || net_htonl (load32 data_bytes 16) == to_all)

abbrev pub received_length : List ℕ → ℕ
received_length frame = if ltb eth_max_frame (length frame) then eth_max_frame else length frame

-- `tcp` is what `tcp_handle_packet` does.
module _ {T : Type 0} (tcp : Buffer → ℕ → ℕ → Host T → Host T) where
  module _ (poll : Host T → Host T) where
    -- By protocol.
    unfoldable pub pass_on : ℕ → Buffer → ℕ → ℕ → Host T → Host T
    pass_on protocol payload payload_length source_ip h =
        if protocol == ip_proto_icmp
        then icmp_handle_packet poll payload payload_length source_ip h
        else if protocol == ip_proto_tcp
        then tcp payload payload_length source_ip h
        else if protocol == ip_proto_udp
        then record h { udp = udp_handle_packet payload payload_length source_ip h.udp }
        else h

    unfoldable pub ip_handle_packet : Buffer → ℕ → Host T → Host T
    ip_handle_packet data_bytes data_length h =
        if is_packet_for h.ip.local_ip data_bytes data_length
        then pass_on (data_bytes 9) (from_byte (ip_header_length data_bytes) data_bytes)
            (ip_payload_length data_bytes) (net_htonl (load32 data_bytes 12)) h
        else h

    -- By type, with the length of the frame.
    unfoldable pub handle_frame : ℕ → Host T → Host T
    handle_frame frame_length h =
        let ethertype = net_htons (load16 h.buffer 12) in
        let data_bytes = from_byte eth_header_size h.buffer in
        if leb frame_length eth_header_size
        then h
        else if ethertype == eth_type_arp
        then arp_handle_packet data_bytes (frame_length - eth_header_size) h
        else if ethertype == eth_type_ipv4
        then ip_handle_packet data_bytes (frame_length - eth_header_size) h
        else h

    -- What the card gives, if it is ready and a frame is there.
    abbrev pub take_frame : List (List ℕ) → Host T → Host T
    take_frame [] h = h
    take_frame (frame ∷ frames) h = handle_frame (received_length frame) (record h {
      incoming = frames;
      buffer = copy_bytes (received_length frame) h.buffer 0 (in_memory frame) 0;
    })

    unfoldable pub poll_once : Host T → Host T
    poll_once h = if h.ready then take_frame h.incoming h else h

  -- With the depth of the calls that is left.
  unfoldable pub net_poll : ℕ → Host T → Host T
  net_poll zero h = h
  net_poll (suc depth) h = poll_once (net_poll depth) h
