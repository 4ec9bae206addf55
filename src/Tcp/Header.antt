-- ===== src/Tcp/Header.antt =====
-- What a segment that was sent says to the peer.
use piux_kernel.Prelude.{
  load16, load32, stored16, stored32, in_memory, get_or-behind, ℕ, ◌+◌, ◌-◌, ◌%◌, ◌^◌, ◌<◌, ◌≡◌,
  ◌∙◌, refl, ap, fun_ext, List, [], length, get_or, Buffer, arith,
}
use piux_kernel.Net.{net_htons, net_htonl, net_checksum}
use piux_kernel.Net.ByteOrder.{swap_twice, htons_bound, htonl_bound}
use piux_kernel.Tcp.Deliver.{Accepted, handle-Accepted}
use piux_kernel.Tcp.{
  State, Tcp, header_size, header_length_of, packet_of, pseudo_sum, segment, take_segment,
  tcp_handle_packet,
}

-- Every field fits its type.
pub record Fits (s : Tcp) : Type 0 where
  pub remote_ip : s.remote_ip < 2 ^ 32
  pub remote_port : s.remote_port < 2 ^ 16
  pub local_port : s.local_port < 2 ^ 16
  pub send_next : s.send_next < 2 ^ 32
  pub recv_next : s.recv_next < 2 ^ 32

module _ (checksum flags : ℕ) (bytes : List ℕ) (s : Tcp) (h : Fits s) where
  abbrev packet : Buffer
  packet = in_memory (packet_of checksum flags bytes s)

  source_port : net_htons (load16 packet 0) ≡ s.local_port
  unfolding packet_of
  source_port =
      ap net_htons (stored16 (net_htons s.local_port) (htons_bound s.local_port h.local_port))
      ∙ (swap_twice s.local_port 0 h.local_port (omega arith)).0

  destination_port : net_htons (load16 packet 2) ≡ s.remote_port
  unfolding packet_of
  destination_port =
      ap net_htons (stored16 (net_htons s.remote_port) (htons_bound s.remote_port h.remote_port))
      ∙ (swap_twice s.remote_port 0 h.remote_port (omega arith)).0

  sequence_number : net_htonl (load32 packet 4) ≡ s.send_next
  unfolding packet_of
  sequence_number =
      ap net_htonl (stored32 (net_htonl s.send_next) (htonl_bound s.send_next h.send_next))
      ∙ (swap_twice 0 s.send_next (omega arith) h.send_next).1

  ack_number : net_htonl (load32 packet 8) ≡ s.recv_next
  unfolding packet_of
  ack_number =
      ap net_htonl (stored32 (net_htonl s.recv_next) (htonl_bound s.recv_next h.recv_next))
      ∙ (swap_twice 0 s.recv_next (omega arith) h.recv_next).1

  header_length : (header_length_of packet ≡ header_size) × (packet 13 ≡ flags)
  unfolding packet_of
  header_length = (refl, refl)

  payload : (i : ℕ) → packet (20 + i) ≡ get_or bytes i 0
  unfolding packet_of
  payload i = get_or-behind (packet_of checksum flags [] s) bytes i

  length-packet : length (packet_of checksum flags bytes s) ≡ header_size + length bytes
  unfolding packet_of
  length-packet = omega arith

same_segment :
    (peer_ip : ℕ) (state : State) {f f' q q' n n' : ℕ} {p p' : Buffer} (t : Tcp)
    → f ≡ f'
    → q ≡ q'
    → ((i : ℕ) → p i ≡ p' i)
    → n ≡ n'
    → take_segment peer_ip state f q p n t ≡ take_segment peer_ip state f' q' p' n' t
same_segment peer_ip state {f' = f'} {q' = q'} {n = n} {p = p} t ef eq ep en =
    rw (ef, eq, ← en) (ap (λ r. take_segment peer_ip state f' q' r n t) (fun_ext ep))

behind_header : (n : ℕ) → header_size + n - header_size ≡ n
behind_header n = omega arith

module _ (checksum flags : ℕ) (bytes : List ℕ) (s : Tcp) (h : Fits s) (local_ip : ℕ) (t : Tcp)
    (ip : t.remote_ip ≡ local_ip) (remote : t.remote_port ≡ s.local_port)
    (local : t.local_port ≡ s.remote_port) where
  accepted :
      Accepted
        (in_memory (packet_of checksum flags bytes s))
        (header_size + length bytes)
        local_ip
        t
  accepted = ground (
    arith,
    source_port checksum flags bytes s h,
    destination_port checksum flags bytes s h,
    header_length checksum flags bytes s h,
    ip,
    remote,
    local,
  )

-- The segment that `tcp_send_segment` passes on with some flags and data, received by a peer whose
-- connection has the same addresses and ports the other way round, is taken as a segment with
-- those flags, the sender's next number and exactly the data.
pub segment_received :
    (local_ip peer_ip flags : ℕ) (bytes : List ℕ) (s t : Tcp)
    → Fits s
    → t.remote_ip ≡ local_ip
    → t.remote_port ≡ s.local_port
    → t.local_port ≡ s.remote_port
    → tcp_handle_packet peer_ip
        (in_memory (segment local_ip flags bytes s))
        (header_size + length bytes)
        local_ip
        t
      ≡ take_segment peer_ip t.state flags s.send_next (in_memory bytes) (length bytes) t
unfolding segment net_htonl take_segment packet_of
segment_received local_ip peer_ip flags bytes s t h ip remote local = by_checksum (
    net_htons (
      net_checksum (packet_of 0 flags bytes s)
        (pseudo_sum local_ip ((header_size + length bytes) % 2 ^ 16) s)))
  where
    by_checksum :
        (checksum : ℕ)
        → tcp_handle_packet peer_ip
            (in_memory (packet_of checksum flags bytes s))
            (header_size + length bytes)
            local_ip
            t
          ≡ take_segment peer_ip t.state flags s.send_next (in_memory bytes) (length bytes) t
    by_checksum checksum =
        handle-Accepted peer_ip (in_memory (packet_of checksum flags bytes s))
          (header_size + length bytes) local_ip t
          (accepted checksum flags bytes s h local_ip t ip remote local)
        ∙ same_segment peer_ip t.state t (header_length checksum flags bytes s h).1
            (sequence_number checksum flags bytes s h) (payload checksum flags bytes s h)
            (behind_header (length bytes))
