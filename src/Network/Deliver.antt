-- ===== src/Network/Deliver.antt =====
-- A datagram of kernel/udp.c from the host that sends it to the one that takes it.
use piux_kernel.Prelude.{
  ℕ, suc, ◌+◌, ◌-◌, ◌%◌, ◌^◌, ◌<◌, ◌≤◌, ◌≡◌, ◌⊎◌, inl, ◌∙◌, refl, ap, true, ltb, if◌then◌else◌,
  List, [], ◌∷◌, ◌++◌, length, some, Buffer, copy_bytes, copy_bytes_lem, within, load16, store16,
  stored16, in_memory, get_or-behind, arith, le→ltb_not,
}
use piux_kernel.Net.{net_htons}
use piux_kernel.Net.ByteOrder.{swap_twice, htons_bound}
use piux_kernel.Arp.{arp_cache_lookup}
use piux_kernel.Network.{Host, Udp}
use piux_kernel.Network.Packet.{ip_proto_udp, to_all, next_hop, count_packet}
use piux_kernel.Network.Datagram.{
  udp_packet, stated_length, udp_handle_packet, udp_last_received, udp_send,
}
use piux_kernel.Network.Poll.{net_poll, from_byte, pass_on}
use piux_kernel.Network.Frames.{Holds}
use piux_kernel.Network.Transit.{receive_packet, its_frame, send_known}

pub copied-Holds :
    (n : ℕ) (old b : Buffer) (bytes : List ℕ)
    → length bytes ≡ n
    → Holds b bytes
    → Holds (copy_bytes n old 0 b 0) bytes
copied-Holds n old b bytes e holds i lt =
    copy_bytes_lem n old 0 b 0 i ∙ rw (within_all, here) (holds i lt)
  where
    here : 0 + (i - 0) ≡ i
    here = omega arith

    within_all : within 0 n i ≡ true
    within_all = ground arith

module _ (destination_port source_port : ℕ) (bytes : List ℕ) (small : source_port < 2 ^ 16)
    (short : length bytes ≤ 512) (b : Buffer)
    (holds : Holds b (udp_packet destination_port source_port bytes)) where
  at_byte : (i : ℕ) → i < 8 → b i ≡ in_memory (udp_packet destination_port source_port bytes) i
  unfolding udp_packet
  at_byte i lt = holds i (omega arith)

  port : net_htons (load16 b 0) ≡ source_port
  unfolding udp_packet
  port =
      rw (at_byte 0 (omega arith), at_byte 1 (omega arith))
        (ap net_htons (stored16 (net_htons source_port) (htons_bound source_port small))
          ∙ (swap_twice source_port 0 small (omega arith)).0)

  field_length : net_htons (load16 b 4) ≡ 8 + length bytes
  unfolding udp_packet
  field_length =
      rw (at_byte 4 (omega arith), at_byte 5 (omega arith))
        (ap net_htons (
            stored16 (net_htons ((8 + length bytes) % 2 ^ 16))
              (htons_bound ((8 + length bytes) % 2 ^ 16) (omega arith)))
          ∙ (swap_twice ((8 + length bytes) % 2 ^ 16) 0 (omega arith) (omega arith)).0
          ∙ omega arith)

  stated : stated_length b ≡ length bytes
  stated = rw field_length (ground arith)

  bytes-Holds : Holds (from_byte 8 b) bytes
  unfolding udp_packet
  bytes-Holds i lt =
      holds (8 + i) (omega arith)
      ∙ get_or-behind
          (store16 (net_htons source_port)
            ++ store16 (net_htons destination_port)
            ++ store16 (net_htons ((8 + length bytes) % 2 ^ 16))
            ++ store16 0)
          bytes i

  -- What is kept of the datagram.
  pub handled :
      (source_ip : ℕ) (u : Udp)
      → udp_handle_packet b (8 + length bytes) source_ip u ≡ record {
        last_buffer = copy_bytes (length bytes) u.last_buffer 0 b 8;
        last_length = length bytes;
        last_source_ip = source_ip;
        last_source_port = source_port;
        last_valid = true;
      }
  unfolding udp_handle_packet
  handled source_ip u = rw (le→ltb_not (8 + length bytes) 8 (omega arith), stated, port) refl

  -- What a caller then takes, with room for it.
  pub taken :
      (source_ip max_length : ℕ) (buffer : Buffer) (u : Udp)
      → length bytes ≤ max_length
      → (out : Buffer) × ((udp_last_received buffer max_length
            (udp_handle_packet b (8 + length bytes) source_ip u)).0
          ≡ some (length bytes, source_ip, source_port, out))
        × Holds out bytes
  unfolding udp_last_received
  taken source_ip max_length buffer u room =
      let kept : Buffer = copy_bytes (length bytes) u.last_buffer 0 b 8 in
      (
        copy_bytes (length bytes) buffer 0 kept 0,
        rw (handled source_ip u, le→ltb_not max_length (length bytes) room) refl,
        copied-Holds (length bytes) buffer kept bytes refl (λ i lt.
            copy_bytes_lem (length bytes) u.last_buffer 0 b 8 i
            ∙ rw (within_all i lt, from_start i) (bytes-Holds i lt)),
      )
    where
      within_all : (i : ℕ) → i < length bytes → within 0 (length bytes) i ≡ true
      within_all i lt = ground arith

      from_start : (i : ℕ) → i - 0 ≡ i
      from_start i = omega arith

length-udp_packet :
    (destination_port source_port : ℕ) (bytes : List ℕ)
    → length (udp_packet destination_port source_port bytes) ≡ 8 + length bytes
unfolding udp_packet
length-udp_packet destination_port source_port bytes = omega arith

module _ {S T : Type 0} (poll : Host S → Host S) (tcp : Buffer → ℕ → ℕ → Host T → Host T)
    (depth destination_ip destination_port source_port : ℕ) (bytes mac : List ℕ)
    (frames : List (List ℕ)) (a : Host S) (b : Host T) where
  abbrev pub datagram : List ℕ
  datagram = udp_packet destination_port source_port bytes

  -- Two hosts, of which the first has the hardware address of the next hop in its cache, and the
  -- second has the destination address and next receives the frame that the first sends for up to
  -- 512 bytes in a datagram. Then `udp_send` puts exactly that frame on the wire, and after one
  -- `net_poll` of the second host `udp_last_received` gives it, in a buffer of at least that size,
  -- the number of bytes, the address and the port of the sender, and the bytes.
  pub send-receive :
      (buffer : Buffer) (max_length : ℕ)
      → a.ready ≡ true
      → length a.mac ≡ 6
      → length mac ≡ 6
      → arp_cache_lookup (next_hop destination_ip a.ip) a.arp ≡ some mac
      → a.ip.local_ip < 2 ^ 32
      → destination_ip < to_all
      → source_port < 2 ^ 16
      → length bytes ≤ 512
      → b.ready ≡ true
      → b.ip.local_ip ≡ destination_ip
      → b.incoming ≡ its_frame destination_ip ip_proto_udp datagram mac a ∷ frames
      → length bytes ≤ max_length
      → (udp_send poll destination_ip destination_port source_port bytes a ≡ (
        true,
        record (count_packet a) {
          sent = a.sent ++ (its_frame destination_ip ip_proto_udp datagram mac a ∷ []);
        },
      ))
        × (out : Buffer) × ((udp_last_received buffer max_length (net_poll tcp (suc depth) b).udp).0
            ≡ some (length bytes, a.ip.local_ip, source_port, out))
        × Holds out bytes
  unfolding udp_send pass_on
  send-receive buffer max_length ready six' six known local destination small short ready' here
        there room =
      let size = length-udp_packet destination_port source_port bytes in
      let (arrived, holds, polled) =
        receive_packet tcp depth destination_ip ip_proto_udp datagram mac frames a b six six' local
          (omega arith) (omega (arith, size)) ready' there (inl here) in
      let (out, got, same) =
        taken destination_port source_port bytes small short arrived holds a.ip.local_ip max_length
          buffer b.udp room in
      (
        rw (le→ltb_not 1016 (length bytes) (omega arith)) (
            send_known poll destination_ip ip_proto_udp datagram mac a ready (omega (arith, size))
              (omega arith) known),
        out,
        ap (λ h. (udp_last_received buffer max_length h.udp).0) polled ∙ rw size got,
        same,
      )

-- A datagram whose header states a length below 8, or more bytes than arrived, in a packet of fewer
-- than 520 bytes: more bytes are kept than arrived, and those behind the end are whatever stands in
-- memory behind the packet.
pub stated_over_read :
    (b : Buffer) (data_length source_ip : ℕ) (u : Udp)
    → 8 ≤ data_length
    → data_length < 520
    → net_htons (load16 b 4) < 2 ^ 16
    → (net_htons (load16 b 4) < 8) ⊎ (data_length < net_htons (load16 b 4))
    → let u' = udp_handle_packet b data_length source_ip u in
      (data_length < 8 + u'.last_length)
      × ((i : ℕ) → i < u'.last_length → u'.last_buffer i ≡ b (8 + i))
unfolding udp_handle_packet
stated_over_read b data_length source_ip u lo hi small stated = rw (le→ltb_not data_length 8 lo) (
  long_stated (net_htons (load16 b 4)) data_length hi small stated,
  λ i lt. kept (stated_length b) u.last_buffer b i lt,
)
  where
    long_stated :
        (n m : ℕ)
        → m < 520
        → n < 2 ^ 16
        → (n < 8) ⊎ (m < n)
        → let k = (n + 2 ^ 16 - 8) % 2 ^ 16 in m < 8 + (if ltb 512 k then 512 else k)
    long_stated n m hi small stated = ground arith

    kept : (n : ℕ) (old b : Buffer) (i : ℕ) → i < n → copy_bytes n old 0 b 8 i ≡ b (8 + i)
    kept n old b i lt = copy_bytes_lem n old 0 b 8 i ∙ ground arith
