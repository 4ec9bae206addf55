-- ===== src/Network/Address.antt =====
-- The packets of kernel/arp.c and the wait for an answer.
use piux_kernel.Prelude.{
  ℕ, zero, suc, ◌&&◌, ltb, ◌==◌, if◌then◌else◌, List, [], ◌∷◌, ◌++◌, Option, none, some, Buffer,
  load16, load32, store16, store32, list_at,
}
use piux_kernel.Net.{net_htons, net_htonl}
use piux_kernel.Arp.{arp_cache_insert, arp_cache_lookup}
use piux_kernel.Network.{Host}
use piux_kernel.Network.Link.{eth_get_local_mac, eth_type_arp, broadcast, eth_send}

-- `sizeof(arp_packet_t)`.
abbrev pub arp_packet_size : ℕ
arp_packet_size = 28

abbrev pub arp_op_request : ℕ
arp_op_request = 1

abbrev pub arp_op_reply : ℕ
arp_op_reply = 2

abbrev pub arp_resolve_attempts : ℕ
arp_resolve_attempts = 200000

abbrev pub no_mac : List ℕ
no_mac = 0 ∷ 0 ∷ 0 ∷ 0 ∷ 0 ∷ 0 ∷ []

-- `arp_packet_t`, with the addresses as they are stored.
unfoldable pub arp_packet : ℕ → List ℕ → ℕ → List ℕ → ℕ → List ℕ
arp_packet operation sender_mac sender_ip target_mac target_ip =
    (store16 (net_htons 1)
      ++ store16 (net_htons 0x0800)
      ++ (6 ∷ 4 ∷ [])
      ++ store16 (net_htons operation))
    ++ (sender_mac ++ (store32 sender_ip ++ (target_mac ++ store32 target_ip)))

-- The hardware address of the sender of a packet.
abbrev pub sender_mac_of : Buffer → List ℕ
sender_mac_of data_bytes = list_at 6 data_bytes 8

module _ {T : Type 0} where
  unfoldable pub arp_send_request : ℕ → Host T → Host T
  arp_send_request target_ip h =
      (eth_send broadcast eth_type_arp
        (arp_packet arp_op_request (eth_get_local_mac h) (net_htonl h.ip.local_ip) no_mac
          (net_htonl target_ip))
        h).1

  unfoldable pub arp_send_reply : Buffer → Host T → Host T
  arp_send_reply request h =
      (eth_send (sender_mac_of request) eth_type_arp
        (arp_packet arp_op_reply (eth_get_local_mac h) (net_htonl h.ip.local_ip)
          (sender_mac_of request) (load32 request 14))
        h).1

  unfoldable pub arp_handle_packet : Buffer → ℕ → Host T → Host T
  arp_handle_packet data_bytes data_length h =
      let h' = record h {
        arp = arp_cache_insert (net_htonl (load32 data_bytes 14)) (sender_mac_of data_bytes) h.arp;
      } in
      if ltb data_length arp_packet_size
      then h
      else if net_htons (load16 data_bytes 6) == arp_op_request
          && net_htonl (load32 data_bytes 24) == h.ip.local_ip
      then arp_send_reply data_bytes h'
      else h'

  -- What a look-up gives, or the rest of the wait.
  abbrev pub found_or_wait :
      Host T → (Host T → Option (List ℕ) × Host T) → Option (List ℕ) → Option (List ℕ) × Host T
  found_or_wait h wait none = wait h
  found_or_wait h wait (some mac) = (some mac, h)

  module _ (poll : Host T → Host T) where
    -- The loop over the attempts, each of which is a call of `net_poll`.
    unfoldable pub await_reply : ℕ → ℕ → Host T → Option (List ℕ) × Host T
    await_reply zero ip_address h = (none, h)
    await_reply (suc left) ip_address h =
        found_or_wait (poll h) (await_reply left ip_address)
          (arp_cache_lookup ip_address (poll h).arp)

    unfoldable pub arp_resolve : ℕ → Host T → Option (List ℕ) × Host T
    arp_resolve ip_address h =
        found_or_wait h
          (λ h'. await_reply arp_resolve_attempts ip_address (arp_send_request ip_address h'))
          (arp_cache_lookup ip_address h.arp)
