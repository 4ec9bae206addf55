-- ===== src/Network/Packet.antt =====
-- Sending a packet, kernel/ip.c.
use piux_kernel.Prelude.{
  ℕ, ◌+◌, ◌%◌, ◌^◌, Bool, false, ltb, ◌==◌, if◌then◌else◌, List, ◌∷◌, ◌++◌, length, Option, none,
  some, bit_and, bit_xor, store16, store32,
}
use piux_kernel.Net.{net_htons, net_htonl, net_checksum}
use piux_kernel.Network.{Host, Ip}
use piux_kernel.Network.Link.{eth_type_ipv4, broadcast, eth_send}
use piux_kernel.Network.Address.{arp_resolve}

-- `sizeof(ip_header_t)`.
abbrev pub ip_header_size : ℕ
ip_header_size = 20

abbrev pub ip_max_packet : ℕ
ip_max_packet = 1500

abbrev pub ip_proto_icmp : ℕ
ip_proto_icmp = 1

abbrev pub ip_proto_tcp : ℕ
ip_proto_tcp = 6

abbrev pub ip_proto_udp : ℕ
ip_proto_udp = 17

abbrev pub to_all : ℕ
to_all = 0xffff_ffff

-- The header with a checksum field.
unfoldable pub ip_header : ℕ → ℕ → ℕ → ℕ → Ip → List ℕ
ip_header checksum destination_ip protocol payload_length ip =
    (0x45 ∷ 0 ∷ store16 (net_htons ((ip_header_size + payload_length) % 2 ^ 16)))
    ++ store16 (net_htons ip.next_identification)
    ++ store16 0
    ++ (64 ∷ protocol ∷ store16 checksum)
    ++ store32 (net_htonl ip.local_ip)
    ++ store32 (net_htonl destination_ip)

unfoldable pub ip_packet : ℕ → ℕ → List ℕ → Ip → List ℕ
ip_packet destination_ip protocol payload ip =
    ip_header (net_htons (net_checksum (ip_header 0 destination_ip protocol (length payload) ip) 0))
      destination_ip protocol (length payload) ip
    ++ payload

abbrev pub next_hop : ℕ → Ip → ℕ
next_hop destination_ip ip =
    if bit_and (bit_xor destination_ip ip.local_ip) ip.local_netmask == 0
    then destination_ip
    else ip.local_gateway

module _ {T : Type 0} where
  abbrev pub ip_set_config : ℕ → ℕ → ℕ → Host T → Host T
  ip_set_config new_ip new_netmask new_gateway h = record h {
    ip = record h.ip {
      local_ip = new_ip;
      local_netmask = new_netmask;
      local_gateway = new_gateway;
    };
  }

  abbrev pub ip_set_dns : ℕ → Host T → Host T
  ip_set_dns dns_server h = record h { ip = record h.ip { local_dns = dns_server } }

  -- `next_identification++`.
  abbrev pub count_packet : Host T → Host T
  count_packet h = record h {
    ip = record h.ip { next_identification = (h.ip.next_identification + 1) % 2 ^ 16 };
  }

  abbrev pub send_to : List ℕ → Option (List ℕ) × Host T → Bool × Host T
  send_to packet (none, h) = (false, h)
  send_to packet (some mac, h) = eth_send mac eth_type_ipv4 packet h

  -- Whether the card took the frame; `poll` is the call of `net_poll` while an address is resolved.
  unfoldable pub ip_send : (Host T → Host T) → ℕ → ℕ → List ℕ → Host T → Bool × Host T
  ip_send poll destination_ip protocol payload h =
      let packet = ip_packet destination_ip protocol payload h.ip in
      if ltb 1480 (length payload)
      then (false, h)
      else if destination_ip == to_all
      then eth_send broadcast eth_type_ipv4 packet (count_packet h)
      else send_to packet (arp_resolve poll (next_hop destination_ip h.ip) (count_packet h))
