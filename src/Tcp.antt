-- ===== src/Tcp.antt =====
-- kernel/tcp.c: a client for one connection. Its static variables are a record, with the packets
-- passed to `ip_send` as a trace, newest first. The local address and what `net_poll` receives are
-- arguments; a poll inside `ip_send` is modelled where `tcp_close` sends only.
pub mod Header
pub mod Deliver
pub mod States
pub mod Connect
pub mod Inv
pub mod Sums
mod Tests
use piux_kernel.Prelude.{
  store16, store32, load16, load32, ℕ, zero, suc, ◌+◌, ◌-◌, ◌*◌, ◌/◌, ◌%◌, ◌^◌, Bool, true, false,
  ◌&&◌, ◌||◌, not, ltb, leb, ◌==◌, if◌then◌else◌, List, [], ◌∷◌, ◌++◌, length, bit_and, ℤ, pos,
  negsuc, minus_one, Buffer, copy_bytes,
}
use piux_kernel.Net.{net_htons, net_htonl, net_checksum}

-- `TCP_STATE_*`.
pub data State : Type 0 where
  closed syn_sent established closing : State

pub record Tcp : Type 0 where
  pub state : State
  pub remote_ip : ℕ
  pub remote_port : ℕ
  pub local_port : ℕ
  pub send_next : ℕ
  pub recv_next : ℕ
  pub peer_closed : Bool
  pub recv_buffer : Buffer
  pub recv_length : ℕ
  pub sent : List (ℕ × List ℕ)

-- A packet that `net_poll` hands to `tcp_handle_packet`.
pub record Arrival : Type 0 where
  pub data_bytes : Buffer
  pub data_length : ℕ
  pub source_ip : ℕ

-- `sizeof(tcp_header_t)`.
abbrev pub header_size : ℕ
header_size = 20

abbrev pub tcp_recv_buffer_size : ℕ
tcp_recv_buffer_size = 1460

abbrev pub tcp_max_segment : ℕ
tcp_max_segment = 1400

abbrev pub tcp_connect_attempts : ℕ
tcp_connect_attempts = 300000

abbrev pub is_established : State → Bool
is_established established = true
is_established _ = false

abbrev pub is_zero : ℤ → Bool
is_zero (pos n) = n == 0
is_zero (negsuc n) = false

abbrev pub is_closed : State → Bool
is_closed closed = true
is_closed _ = false

-- The header with a checksum field, and the data behind it.
unfoldable pub packet_of : ℕ → ℕ → List ℕ → Tcp → List ℕ
packet_of checksum flags bytes s =
    store16 (net_htons s.local_port)
    ++ store16 (net_htons s.remote_port)
    ++ store32 (net_htonl s.send_next)
    ++ store32 (net_htonl s.recv_next)
    ++ (0x50 ∷ flags ∷ [])
    ++ store16 (net_htons 4096)
    ++ store16 checksum
    ++ store16 0
    ++ bytes

-- The bytes received, the caller's buffer and the state.
unfoldable pub tcp_receive : Buffer → ℕ → Tcp → ℕ × Buffer × Tcp
tcp_receive buffer max_length s =
    let copy_length = if ltb max_length s.recv_length then max_length else s.recv_length in
    if s.recv_length == 0 then (0, buffer, s) else (
      copy_length,
      copy_bytes copy_length buffer 0 s.recv_buffer 0,
      record s { recv_length = 0 },
    )

abbrev pub tcp_is_closed : Tcp → Bool
tcp_is_closed s = s.peer_closed || is_closed s.state

-- Whether the ports and the address are those of the connection.
abbrev pub is_ours : Buffer → ℕ → Tcp → Bool
is_ours bytes source_ip s =
    source_ip == s.remote_ip
    && net_htons (load16 bytes 0) == s.remote_port
    && net_htons (load16 bytes 2) == s.local_port

abbrev pub header_length_of : Buffer → ℕ
header_length_of bytes = bit_and (bytes 12 / 2 ^ 4) 0x0f * 4

module _ (local_ip : ℕ) where
  unfoldable pub pseudo_sum : ℕ → Tcp → ℕ
  pseudo_sum segment_length s =
      (bit_and (local_ip / 2 ^ 16) 0xffff
        + bit_and local_ip 0xffff
        + bit_and (s.remote_ip / 2 ^ 16) 0xffff
        + bit_and s.remote_ip 0xffff
        + 6
        + segment_length)
      % 2 ^ 32

  unfoldable pub segment : ℕ → List ℕ → Tcp → List ℕ
  segment flags bytes s =
      packet_of
        (net_htons (
          net_checksum (packet_of 0 flags bytes s)
            (pseudo_sum ((header_size + length bytes) % 2 ^ 16) s)))
        flags bytes s

  -- With what `ip_send` returns.
  unfoldable pub tcp_send_segment : ℕ → List ℕ → ℤ → Tcp → ℤ × Tcp
  tcp_send_segment flags bytes result s =
      if ltb tcp_max_segment (length bytes)
      then (minus_one, s)
      else (result, record s { sent = (s.remote_ip, segment flags bytes s) ∷ s.sent })

  -- `tcp_send_segment(TCP_FLAG_ACK, 0, 0)`.
  unfoldable pub acknowledge : Tcp → Tcp
  acknowledge s = (tcp_send_segment 0x10 [] (pos 0) s).1

  unfoldable pub tcp_send : List ℕ → ℤ → Tcp → ℤ × Tcp
  tcp_send bytes result s =
      let (r, s') = tcp_send_segment 0x18 bytes result s in
      if is_established s.state
      then (if is_zero r
          then (r, record s' { send_next = (s'.send_next + length bytes) % 2 ^ 32 })
          else (r, s'))
      else (minus_one, s)

  -- In the state SYN_SENT.
  unfoldable pub take_syn : ℕ → ℕ → Tcp → Tcp
  take_syn flags sequence s =
      if bit_and flags 0x12 == 0x12
      then acknowledge (record s {
        recv_next = (sequence + 1) % 2 ^ 32;
        send_next = (s.send_next + 1) % 2 ^ 32;
        state = established;
      })
      else s

  unfoldable pub take_payload : ℕ → Buffer → ℕ → Tcp → Tcp
  take_payload sequence payload payload_length s =
      let copy_length =
        if ltb tcp_recv_buffer_size payload_length then tcp_recv_buffer_size else payload_length in
      if ltb 0 payload_length && sequence == s.recv_next
      then acknowledge (record s {
        recv_buffer = copy_bytes copy_length s.recv_buffer 0 payload 0;
        recv_length = copy_length;
        recv_next = (s.recv_next + payload_length) % 2 ^ 32;
      })
      else s

  unfoldable pub take_fin : ℕ → Tcp → Tcp
  take_fin flags s =
      let s' = acknowledge (record s { recv_next = (s.recv_next + 1) % 2 ^ 32 }) in
      if bit_and flags 1 == 0 then s else record s' { peer_closed = true; state = closed }

  -- In the states ESTABLISHED and CLOSING.
  unfoldable pub take_data : ℕ → ℕ → Buffer → ℕ → Tcp → Tcp
  take_data flags sequence payload payload_length s =
      if bit_and flags 4 == 0
      then take_fin flags (take_payload sequence payload payload_length s)
      else record s { state = closed; peer_closed = true }

  -- A segment of the connection.
  unfoldable pub take_segment : State → ℕ → ℕ → Buffer → ℕ → Tcp → Tcp
  take_segment syn_sent flags sequence payload n s = take_syn flags sequence s
  take_segment established flags sequence payload n s = take_data flags sequence payload n s
  take_segment closing flags sequence payload n s = take_data flags sequence payload n s
  take_segment closed flags sequence payload n s = s

  unfoldable pub tcp_handle_packet : Buffer → ℕ → ℕ → Tcp → Tcp
  tcp_handle_packet bytes len source_ip s =
      let header_length = header_length_of bytes in
      if ltb len header_size
      then s
      else if not (is_ours bytes source_ip s)
      then s
      else if ltb header_length header_size || ltb len header_length
      then s
      else take_segment s.state (bytes 13) (net_htonl (load32 bytes 4))
          (λ i. bytes (header_length + i)) (len - header_length) s

  -- `net_poll`, as far as it reaches this file: every packet received is handled.
  unfoldable pub net_poll : List Arrival → Tcp → Tcp
  net_poll [] s = s
  net_poll (a ∷ arrivals) s =
      net_poll arrivals (tcp_handle_packet a.data_bytes a.data_length a.source_ip s)

  -- With the packets that `ip_send` receives while it resolves the next hop: the segment is built
  -- before they are handled, and sent and counted after them.
  unfoldable pub tcp_close : List Arrival → Tcp → Tcp
  tcp_close arrivals s =
      let s' = net_poll arrivals s in
      if is_established s.state
      then record s' {
        sent = (s.remote_ip, segment 0x11 [] s) ∷ s'.sent;
        send_next = (s'.send_next + 1) % 2 ^ 32;
        state = closing;
      }
      else s

  -- With what each poll receives.
  unfoldable pub tcp_wait_activity : ℕ → (ℕ → List Arrival) → Tcp → ℤ × Tcp
  tcp_wait_activity zero polls s = (minus_one, s)
  tcp_wait_activity (suc max_attempts) polls s =
      let s' = net_poll (polls 0) s in
      elim (ltb 0 s'.recv_length || tcp_is_closed s') [
        | true ↦ (pos 0, s')
        | false ↦ tcp_wait_activity max_attempts (λ i. polls (suc i)) s'
      ]

  -- The loop of `tcp_connect`: each attempt is one poll.
  unfoldable pub await_established : ℕ → (ℕ → List Arrival) → Tcp → ℤ × Tcp
  await_established zero polls s = (minus_one, record s { state = closed })
  await_established (suc attempts) polls s =
      let s' = (tcp_wait_activity 1 polls s).1 in
      elim (is_established s'.state) [
        | true ↦ (pos 0, s')
        | false ↦ await_established attempts (λ i. polls (suc i)) s'
      ]

  -- Up to the loop.
  unfoldable pub begin_connect : ℕ → ℕ → Tcp → Tcp
  begin_connect ip port s =
      (tcp_send_segment 2 [] (pos 0) (record s {
        remote_ip = ip;
        remote_port = port;
        local_port = (s.local_port + 1) % 2 ^ 16;
        send_next = 0x1000;
        recv_next = 0;
        peer_closed = false;
        recv_length = 0;
        state = syn_sent;
      })).1

  unfoldable pub tcp_connect : ℕ → ℕ → (ℕ → List Arrival) → Tcp → ℤ × Tcp
  tcp_connect ip port polls s =
      await_established tcp_connect_attempts polls (begin_connect ip port s)
