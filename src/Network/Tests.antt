-- ===== src/Network/Tests.antt =====
-- Runs of the network with two hosts on one wire.
use piux_kernel.Prelude.{
  ℕ, suc, ◌+◌, ◌^◌, ◌<◌, ◌≡◌, inr, refl, true, false, List, [], ◌∷◌, some, Buffer, leb→le, load16,
  if◌then◌else◌, ◌==◌, arith,
}
use piux_kernel.Net.{net_htons}
use piux_kernel.Arp.{lookup_in}
use piux_kernel.Network.{Host}
use piux_kernel.Network.Packet.{ip_proto_udp, count_packet}
use piux_kernel.Network.Datagram.{udp_handle_packet, udp_last_received, udp_packet, udp_send}
use piux_kernel.Network.Echo.{icmp_send_echo_request}
use piux_kernel.Network.Poll.{net_poll}
use piux_kernel.Network.Frames.{Holds}
use piux_kernel.Network.Transit.{its_frame}
use piux_kernel.Network.Deliver.{send-receive, stated_over_read}
use piux_kernel.Network.Ping.{echo_frame, echo_answered}

abbrev mac_a : List ℕ
mac_a = 2 ∷ 0 ∷ 0 ∷ 0 ∷ 0 ∷ 1 ∷ []

abbrev mac_b : List ℕ
mac_b = 2 ∷ 0 ∷ 0 ∷ 0 ∷ 0 ∷ 2 ∷ []

-- 10.0.2.15 and 10.0.2.16.
abbrev ip_a : ℕ
ip_a = 0x0a00_020f

abbrev ip_b : ℕ
ip_b = 0x0a00_0210

-- A host whose cache has one address.
abbrev host : List ℕ → ℕ → List ℕ → ℕ → List (List ℕ) → Host (Unit {0})
host mac local_ip other_mac other_ip frames = record {
  ready = true;
  mac = mac;
  incoming = frames;
  sent = [];
  buffer = λ _. 0;
  arp = record {
    cache = record { ip_address = other_ip; mac = other_mac; used = true } ∷ [];
    next_cache_slot = 1;
  };
  ip = record {
    local_ip = local_ip;
    local_netmask = 0xffff_ff00;
    local_gateway = 0x0a00_0202;
    local_dns = 0x0a00_0203;
    next_identification = 1;
  };
  udp = record {
    last_buffer = λ _. 0;
    last_length = 0;
    last_source_ip = 0;
    last_source_port = 0;
    last_valid = false;
  };
  icmp = record {
    reply_pending = false;
    reply_identifier = 0;
    reply_sequence = 0;
    reply_received = false;
  };
  connection = tt;
}

abbrev host_a : Host (Unit {0})
host_a = host mac_a ip_a mac_b ip_b []

abbrev host_b : List (List ℕ) → Host (Unit {0})
host_b frames = host mac_b ip_b mac_a ip_a frames

-- No connection.
abbrev no_tcp : Buffer → ℕ → ℕ → Host (Unit {0}) → Host (Unit {0})
no_tcp data_bytes data_length source_ip h = h

abbrev still : Host (Unit {0}) → Host (Unit {0})
still h = h

abbrev text : List ℕ
text = b'h' ∷ b'i' ∷ []

abbrev datagram_frame : List ℕ
datagram_frame = its_frame ip_b ip_proto_udp (udp_packet 53 4000 text) mac_b host_a

send-receive_example :
    (udp_send still ip_b 53 4000 text host_a
      ≡ (true, record (count_packet host_a) { sent = datagram_frame ∷ [] }))
    × (out : Buffer) × ((udp_last_received
          (λ _. 0)
          16
          (net_poll no_tcp 1 (host_b (datagram_frame ∷ []))).udp).0
        ≡ some (2, ip_a, 4000, out))
    × Holds out text
unfolding lookup_in
send-receive_example =
    send-receive still no_tcp 0 ip_b 53 4000 text mac_b [] host_a (host_b (datagram_frame ∷ []))
      (λ _. 0) 16 refl refl refl refl (leb→le (suc ip_a) (2 ^ 32) refl)
      (leb→le (suc ip_b) 0xffff_ffff refl) (leb→le 4001 (2 ^ 16) refl) (omega arith) refl refl refl
      (omega arith)

abbrev asking : List ℕ
asking = echo_frame ip_b 8 7 1 mac_b host_a

abbrev answer : List ℕ
answer = echo_frame ip_a 0 7 1 mac_a (host_b (asking ∷ []))

echo_answered_example :
    let (ok, a') = icmp_send_echo_request still ip_b 7 1 host_a in
    let b' = net_poll no_tcp 1 (host_b (asking ∷ [])) in
    (ok ≡ true)
    × (a'.sent ≡ asking ∷ [])
    × (b'.sent ≡ answer ∷ [])
    × ((net_poll no_tcp 1 (record a' { incoming = answer ∷ [] })).icmp.reply_received ≡ true)
unfolding lookup_in
echo_answered_example =
    echo_answered still no_tcp no_tcp 0 0 ip_b 7 1 mac_b mac_a [] [] host_a (host_b (asking ∷ []))
      refl refl refl refl refl refl refl refl (leb→le (suc ip_a) 0xffff_ffff refl)
      (leb→le (suc ip_b) 0xffff_ffff refl) refl (leb→le 8 (2 ^ 16) refl) (leb→le 2 (2 ^ 16) refl)
      refl

-- A datagram that states 100 bytes, in a packet of 12.
abbrev overstated : Buffer
overstated i = if i == 5 then 100 else 0

states_100 : net_htons (load16 overstated 4) ≡ 100
unfolding net_htons
states_100 = refl

stated_over_read_example :
    let u' = udp_handle_packet overstated 12 ip_a host_a.udp in
    (12 < 8 + u'.last_length)
    × ((i : ℕ) → i < u'.last_length → u'.last_buffer i ≡ overstated (8 + i))
stated_over_read_example =
    stated_over_read overstated 12 ip_a host_a.udp (omega arith) (omega arith)
      (omega (arith, states_100)) (inr (omega (arith, states_100)))
