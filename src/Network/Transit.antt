-- ===== src/Network/Transit.antt =====
-- A packet that one host sends with `ip_send`, as another one receives it.
use piux_kernel.Prelude.{
  ℕ, suc, ◌+◌, ◌-◌, ◌%◌, ◌^◌, ◌<◌, ◌≤◌, ◌≡◌, ◌≢◌, ◌⊎◌, ◌∙◌, refl, ap, true, List, [], ◌∷◌, ◌++◌,
  length, some, Buffer, load16, load32, stored16, stored32, in_memory, get_or-behind, arith,
  le→ltb_not, ne→eq_not, ne→eq_not,
}
use piux_kernel.Net.{net_htons, net_htonl, net_checksum}
use piux_kernel.Net.ByteOrder.{swap_twice, htons_bound, htonl_bound}
use piux_kernel.Network.{Host, Ip}
use piux_kernel.Network.Link.{frame_of, eth_send, eth_type_ipv4}
use piux_kernel.Network.Packet.{ip_header, ip_packet, ip_send, to_all, next_hop, count_packet}
use piux_kernel.Network.Address.{arp_resolve}
use piux_kernel.Arp.{arp_cache_lookup}
use piux_kernel.Network.Poll.{
  net_poll, ip_handle_packet, pass_on, from_byte, ip_header_length, ip_payload_length,
  is_packet_for,
}
use piux_kernel.Network.Frames.{
  Holds, received, received-Holds, poll-received, handle_ip, length-frame, frame-payload,
  frame-type,
}

pub length-ip_packet :
    (destination_ip protocol : ℕ) (payload : List ℕ) (ip : Ip)
    → length (ip_packet destination_ip protocol payload ip) ≡ 20 + length payload
unfolding ip_packet ip_header
length-ip_packet destination_ip protocol payload ip = omega arith

module _ (destination_ip protocol : ℕ) (payload : List ℕ) (ip : Ip) (local : ip.local_ip < 2 ^ 32)
    (destination : destination_ip < 2 ^ 32) (short : length payload ≤ 1480) where
  abbrev packet : List ℕ
  packet = ip_packet destination_ip protocol payload ip

  module _ (b : Buffer) (holds : Holds b packet) where
    at_byte : (i : ℕ) → i < 20 → b i ≡ in_memory packet i
    at_byte i lt = holds i (omega (arith, length-ip_packet destination_ip protocol payload ip))

    version : ip_header_length b ≡ 20
    unfolding ip_packet ip_header
    version = rw (at_byte 0 (omega arith)) refl

    its_protocol : b 9 ≡ protocol
    unfolding ip_packet ip_header
    its_protocol = at_byte 9 (omega arith)

    total_length : net_htons (load16 b 2) ≡ 20 + length payload
    unfolding ip_packet ip_header
    total_length =
        rw (at_byte 2 (omega arith), at_byte 3 (omega arith))
          (ap net_htons (
              stored16 (net_htons ((20 + length payload) % 2 ^ 16))
                (htons_bound ((20 + length payload) % 2 ^ 16) (omega arith)))
            ∙ (swap_twice ((20 + length payload) % 2 ^ 16) 0 (omega arith) (omega arith)).0
            ∙ omega arith)

    source : net_htonl (load32 b 12) ≡ ip.local_ip
    unfolding ip_packet ip_header
    source =
        rw
          (
            at_byte 12 (omega arith),
            at_byte 13 (omega arith),
            at_byte 14 (omega arith),
            at_byte 15 (omega arith),
          )
          (ap net_htonl (stored32 (net_htonl ip.local_ip) (htonl_bound ip.local_ip local))
            ∙ (swap_twice 0 ip.local_ip (omega arith) local).1)

    goes_to : net_htonl (load32 b 16) ≡ destination_ip
    unfolding ip_packet ip_header
    goes_to =
        rw
          (
            at_byte 16 (omega arith),
            at_byte 17 (omega arith),
            at_byte 18 (omega arith),
            at_byte 19 (omega arith),
          )
          (ap net_htonl
              (stored32 (net_htonl destination_ip) (htonl_bound destination_ip destination))
            ∙ (swap_twice 0 destination_ip (omega arith) destination).1)

    pub payload-Holds : Holds (from_byte 20 b) payload
    unfolding ip_packet ip_header
    payload-Holds i lt =
        holds (20 + i) (omega (arith, length-ip_packet destination_ip protocol payload ip))
        ∙ get_or-behind
            (ip_header
              (net_htons (net_checksum (ip_header 0 destination_ip protocol (length payload) ip) 0))
              destination_ip protocol (length payload) ip)
            payload i

    accepted :
        (local_ip : ℕ)
        → (local_ip ≡ destination_ip) ⊎ (destination_ip ≡ to_all)
        → is_packet_for local_ip b (20 + length payload) ≡ true
    accepted local_ip for = rw (version, total_length, goes_to) (ground arith)

    carried_length : ip_payload_length b ≡ length payload
    carried_length = rw (version, total_length) (omega arith)

    pub handle_packet :
        {T : Type 0} (tcp : Buffer → ℕ → ℕ → Host T → Host T) (poll : Host T → Host T) (h : Host T)
        → (h.ip.local_ip ≡ destination_ip) ⊎ (destination_ip ≡ to_all)
        → ip_handle_packet tcp poll b (20 + length payload) h
          ≡ pass_on tcp poll protocol (from_byte 20 b) (length payload) ip.local_ip h
    unfolding ip_handle_packet
    handle_packet tcp poll h for =
        rw (accepted h.ip.local_ip for, its_protocol, carried_length, version, source) refl

card_takes :
    {T : Type 0} (mac packet : List ℕ) (h : Host T)
    → h.ready ≡ true
    → length packet ≤ 1500
    → eth_send mac eth_type_ipv4 packet (count_packet h) ≡ (
      true,
      record (count_packet h) { sent = h.sent ++ (frame_of mac eth_type_ipv4 packet h ∷ []) },
    )
unfolding eth_send frame_of
card_takes mac packet h ready small = rw (le→ltb_not 1500 (length packet) small, ready) refl

-- Sending to a host whose address is in the cache.
module _ {T : Type 0} (poll : Host T → Host T) (destination_ip protocol : ℕ) (payload mac : List ℕ)
    (h : Host T) where
  pub send_known :
      h.ready ≡ true
      → length payload ≤ 1480
      → destination_ip ≢ to_all
      → arp_cache_lookup (next_hop destination_ip h.ip) h.arp ≡ some mac
      → ip_send poll destination_ip protocol payload h ≡ (
        true,
        record (count_packet h) {
          sent =
              h.sent
              ++ (frame_of mac eth_type_ipv4 (ip_packet destination_ip protocol payload h.ip) h
                  ∷ []);
        },
      )
  unfolding ip_send arp_resolve
  send_known ready short not_all known =
      rw (le→ltb_not 1480 (length payload) short, ne→eq_not destination_ip to_all not_all, known)
        (card_takes mac (ip_packet destination_ip protocol payload h.ip) h ready
          (omega (arith, length-ip_packet destination_ip protocol payload h.ip)))

-- The frame that a host sends for a packet.
abbrev pub its_frame : {S : Type 0} → ℕ → ℕ → List ℕ → List ℕ → Host S → List ℕ
its_frame destination_ip protocol payload mac a =
    frame_of mac eth_type_ipv4 (ip_packet destination_ip protocol payload a.ip) a

-- Receiving the frame: the payload goes to the handler of its protocol.
module _ {S T : Type 0} (tcp : Buffer → ℕ → ℕ → Host T → Host T) (depth destination_ip protocol : ℕ)
    (payload mac : List ℕ) (frames : List (List ℕ)) (a : Host S) (h : Host T) where
  abbrev frame : List ℕ
  frame = its_frame destination_ip protocol payload mac a

  pub receive_packet :
      length mac ≡ 6
      → length a.mac ≡ 6
      → a.ip.local_ip < 2 ^ 32
      → destination_ip < 2 ^ 32
      → length payload ≤ 1480
      → h.ready ≡ true
      → h.incoming ≡ frame ∷ frames
      → (h.ip.local_ip ≡ destination_ip) ⊎ (destination_ip ≡ to_all)
      → (b : Buffer) × Holds b payload
        × (net_poll tcp (suc depth) h
            ≡ pass_on tcp
                (net_poll tcp depth)
                protocol
                b
                (length payload)
                a.ip.local_ip
                (received frame frames h))
  receive_packet six six' local destination short ready there for = (
    from_byte 20 packet,
    payload-Holds destination_ip protocol payload a.ip local destination short packet holds,
    poll-received tcp depth frame frames h ready there (omega (arith, frame_size))
        ∙ handle_ip tcp (length frame) (net_poll tcp depth) (received frame frames h)
            (omega (arith, frame_size)) ip_type
        ∙ ap (λ n. ip_handle_packet tcp (net_poll tcp depth) packet n (received frame frames h))
            size
        ∙ handle_packet destination_ip protocol payload a.ip local destination short packet holds
            tcp (net_poll tcp depth) (received frame frames h) for,
  )
    where
      packet : Buffer
      packet = from_byte 14 (received frame frames h).buffer

      frame_size : length frame ≡ 34 + length payload
      frame_size =
          length-frame mac eth_type_ipv4 (ip_packet destination_ip protocol payload a.ip) a six six'
          ∙ omega (arith, length-ip_packet destination_ip protocol payload a.ip)

      size : length frame - 14 ≡ 20 + length payload
      size = omega (arith, frame_size)

      holds : Holds packet (ip_packet destination_ip protocol payload a.ip)
      holds i lt =
          received-Holds frame frames h (14 + i)
            (omega (arith, frame_size, length-ip_packet destination_ip protocol payload a.ip))
          ∙ frame-payload mac eth_type_ipv4 (ip_packet destination_ip protocol payload a.ip) a six
              six' i

      ip_type : net_htons (load16 (received frame frames h).buffer 12) ≡ eth_type_ipv4
      ip_type =
          rw
            (
              received-Holds frame frames h 12 (omega (arith, frame_size)),
              received-Holds frame frames h (12 + 1) (omega (arith, frame_size)),
            )
            (frame-type mac eth_type_ipv4 (ip_packet destination_ip protocol payload a.ip) a six
              six' (omega arith))
