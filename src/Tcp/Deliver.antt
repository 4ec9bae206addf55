-- ===== src/Tcp/Deliver.antt =====
-- What the segments received give to `tcp_receive`.
use piux_kernel.Prelude.{
  load32, ℕ, ◌+◌, ◌-◌, ◌%◌, ◌^◌, ◌<◌, ◌≤◌, ◌≡◌, ◌≢◌, ◌∙◌, refl, true, [], ◌∷◌, bit_and, Buffer,
  copy_bytes, copy_bytes_lem, arith, ap,
}
use piux_kernel.Net.{net_htonl}
use piux_kernel.Tcp.{
  State, closed, established, Tcp, header_size, tcp_recv_buffer_size, is_ours, header_length_of,
  tcp_send_segment, acknowledge, tcp_receive, take_payload, take_fin, take_data, take_segment,
  tcp_handle_packet, segment, packet_of, pseudo_sum,
}

-- A packet that is long enough and names the connection's addresses and ports.
pub record Accepted (bytes : Buffer) (len source_ip : ℕ) (s : Tcp) : Type 0 where
  pub long : header_size ≤ len
  pub ours : is_ours bytes source_ip s ≡ true
  pub header_lo : header_size ≤ header_length_of bytes
  pub header_hi : header_length_of bytes ≤ len

abbrev pub sequence_of : Buffer → ℕ
sequence_of bytes = net_htonl (load32 bytes 4)

abbrev pub payload_of : Buffer → Buffer
payload_of bytes i = bytes (header_length_of bytes + i)

-- A segment without FIN and RST that the connection takes in sequence.
pub record InSequence (bytes : Buffer) (len source_ip : ℕ) (s : Tcp) : Type 0 where
  pub accepted : Accepted bytes len source_ip s
  pub is_open : s.state ≡ established
  pub no_reset : bit_and (bytes 13) 4 ≡ 0
  pub no_fin : bit_and (bytes 13) 1 ≡ 0
  pub sequence : sequence_of bytes ≡ s.recv_next
  pub nonempty : 0 < len - header_length_of bytes
  pub fits : len - header_length_of bytes ≤ tcp_recv_buffer_size

module _ (local_ip : ℕ) where
  pub handle-Accepted :
      (bytes : Buffer) (len source_ip : ℕ) (s : Tcp)
      → Accepted bytes len source_ip s
      → tcp_handle_packet local_ip bytes len source_ip s
        ≡ take_segment local_ip s.state
            (bytes 13)
            (sequence_of bytes)
            (payload_of bytes)
            (len - header_length_of bytes)
            s
  unfolding tcp_handle_packet
  handle-Accepted bytes len source_ip s h = ground (arith, h.long, h.ours, h.header_lo, h.header_hi)

  -- `acknowledge` changes the trace only.
  pub acknowledge_lem :
      (s : Tcp)
      → acknowledge local_ip s
        ≡ record s { sent = (s.remote_ip, segment local_ip 0x10 [] s) ∷ s.sent }
  unfolding acknowledge tcp_send_segment
  acknowledge_lem s = refl

  -- The state behind the bytes of a segment in sequence.
  abbrev pub stored : Tcp → Buffer → ℕ → Tcp
  stored s payload n = record s {
    recv_buffer = copy_bytes n s.recv_buffer 0 payload 0;
    recv_length = n;
    recv_next = (s.recv_next + n) % 2 ^ 32;
  }

  take_stored :
      (flags sequence : ℕ) (payload : Buffer) (n : ℕ) (s : Tcp)
      → bit_and flags 4 ≡ 0
      → bit_and flags 1 ≡ 0
      → sequence ≡ s.recv_next
      → 0 < n
      → n ≤ tcp_recv_buffer_size
      → take_segment local_ip established flags sequence payload n s
        ≡ acknowledge local_ip (stored s payload n)
  unfolding take_segment take_data take_payload take_fin
  take_stored flags sequence payload n s rst fin seq lo hi = ground arith

  store_segment :
      (bytes : Buffer) (len source_ip : ℕ) (s : Tcp)
      → InSequence bytes len source_ip s
      → tcp_handle_packet local_ip bytes len source_ip s
        ≡ acknowledge local_ip (stored s (payload_of bytes) (len - header_length_of bytes))
  store_segment bytes len source_ip s h =
      handle-Accepted bytes len source_ip s h.accepted
      ∙ ap
          (λ state.
            take_segment local_ip state (bytes 13) (sequence_of bytes) (payload_of bytes)
              (len - header_length_of bytes) s)
          h.is_open
      ∙ (take_stored (bytes 13) (sequence_of bytes) (payload_of bytes)
          (len - header_length_of bytes) s h.no_reset h.no_fin h.sequence h.nonempty h.fits)

  copied : (n i : ℕ) (dst src : Buffer) → i < n → copy_bytes n dst 0 src 0 i ≡ src i
  copied n i dst src h = ground (arith, copy_bytes_lem n dst 0 src 0 i, same)
    where
      same : src (0 + (i - 0)) ≡ src i
      same = ap src (omega arith)

  receive_all :
      (s : Tcp) (buffer : Buffer) (max_length : ℕ)
      → 0 < s.recv_length
      → s.recv_length ≤ max_length
      → tcp_receive buffer max_length s ≡ (
        s.recv_length,
        copy_bytes s.recv_length buffer 0 s.recv_buffer 0,
        record s { recv_length = 0 },
      )
  unfolding tcp_receive
  receive_all s buffer max_length lo hi = ground arith

  receive_stored :
      (s : Tcp) (payload buffer : Buffer) (n max_length : ℕ)
      → 0 < n
      → n ≤ max_length
      → let (count, out, s') =
          tcp_receive buffer max_length (acknowledge local_ip (stored s payload n)) in
        (count ≡ n) × ((i : ℕ) → i < n → out i ≡ payload i) × (s'.recv_length ≡ 0)
  unfolding acknowledge tcp_send_segment
  receive_stored s payload buffer n max_length lo hi =
      rw (receive_all (acknowledge local_ip (stored s payload n)) buffer max_length lo hi) (
        refl,
        λ i h.
            copied n i buffer (copy_bytes n s.recv_buffer 0 payload 0) h
            ∙ copied n i s.recv_buffer payload h,
        refl,
      )

  sent_stored :
      (s : Tcp) (payload : Buffer) (n : ℕ)
      → (acknowledge local_ip (stored s payload n)).sent
        ≡ (
          s.remote_ip,
          segment local_ip 0x10 [] (record s { recv_next = (s.recv_next + n) % 2 ^ 32 }),
        )
          ∷ s.sent
  unfolding acknowledge tcp_send_segment segment packet_of pseudo_sum
  sent_stored s payload n = refl

  -- A segment that an established connection takes in sequence, without FIN and RST and of at most
  -- 1460 bytes of data: a caller with room for the data is given exactly the data, nothing is left
  -- for the next call, the next number expected is moved on by the length, and exactly one packet
  -- is sent in answer, a segment to the peer with the flag ACK and no data, which acknowledges the
  -- number that is expected next.
  pub deliver :
      (bytes : Buffer) (len source_ip : ℕ) (s : Tcp) (buffer : Buffer) (max_length : ℕ)
      → InSequence bytes len source_ip s
      → len - header_length_of bytes ≤ max_length
      → let n = len - header_length_of bytes in
        let s' = tcp_handle_packet local_ip bytes len source_ip s in
        let (count, out, s'') = tcp_receive buffer max_length s' in
        ((count ≡ n) × ((i : ℕ) → i < n → out i ≡ payload_of bytes i) × (s''.recv_length ≡ 0))
        × (s'.recv_next ≡ (s.recv_next + n) % 2 ^ 32)
        × (s'.state ≡ established)
        × (s'.sent
            ≡ (
              s.remote_ip,
              segment local_ip 0x10 [] (record s { recv_next = (s.recv_next + n) % 2 ^ 32 }),
            )
              ∷ s.sent)
  deliver bytes len source_ip s buffer max_length h room =
      rw (store_segment bytes len source_ip s h) (
        receive_stored s (payload_of bytes) buffer (len - header_length_of bytes) max_length
            h.nonempty room,
        ap (λ t. t.recv_next)
            (acknowledge_lem (stored s (payload_of bytes) (len - header_length_of bytes))),
        ap (λ t. t.state)
              (acknowledge_lem (stored s (payload_of bytes) (len - header_length_of bytes)))
            ∙ h.is_open,
        sent_stored s (payload_of bytes) (len - header_length_of bytes),
      )

  take_stale :
      (flags sequence : ℕ) (payload : Buffer) (n : ℕ) (s : Tcp)
      → bit_and flags 4 ≡ 0
      → bit_and flags 1 ≡ 0
      → sequence ≢ s.recv_next
      → take_segment local_ip established flags sequence payload n s ≡ s
  unfolding take_segment take_data take_payload take_fin
  take_stale flags sequence payload n s rst fin seq = ground arith

  -- A segment that is not the next in sequence, without FIN and RST, changes nothing in an
  -- established connection: it is neither kept nor acknowledged.
  pub out_of_sequence :
      (bytes : Buffer) (len source_ip : ℕ) (s : Tcp)
      → Accepted bytes len source_ip s
      → s.state ≡ established
      → bit_and (bytes 13) 4 ≡ 0
      → bit_and (bytes 13) 1 ≡ 0
      → sequence_of bytes ≢ s.recv_next
      → tcp_handle_packet local_ip bytes len source_ip s ≡ s
  out_of_sequence bytes len source_ip s h st rst fin seq =
      handle-Accepted bytes len source_ip s h
      ∙ ap
          (λ state.
            take_segment local_ip state (bytes 13) (sequence_of bytes) (payload_of bytes)
              (len - header_length_of bytes) s)
          st
      ∙ take_stale (bytes 13) (sequence_of bytes) (payload_of bytes) (len - header_length_of bytes)
          s rst fin seq

  -- Two segments in sequence without a call of `tcp_receive` between them: the next call is given
  -- the second one's data only, while the number expected next, which acknowledges what was
  -- received, is past the data of both.
  pub overwrite :
      (a b : Buffer) (len_a len_b source_a source_b : ℕ) (s : Tcp) (buffer : Buffer)
      (max_length : ℕ)
      → InSequence a len_a source_a s
      → InSequence b len_b source_b (tcp_handle_packet local_ip a len_a source_a s)
      → len_b - header_length_of b ≤ max_length
      → let s' =
          tcp_handle_packet local_ip b len_b source_b
            (tcp_handle_packet local_ip a len_a source_a s) in
        let (count, out, s'') = tcp_receive buffer max_length s' in
        ((count ≡ len_b - header_length_of b)
          × ((i : ℕ) → i < len_b - header_length_of b → out i ≡ payload_of b i)
          × (s''.recv_length ≡ 0))
        × (s'.recv_next
            ≡ ((s.recv_next + (len_a - header_length_of a)) % 2 ^ 32 + (len_b - header_length_of b))
              % 2 ^ 32)
  overwrite a b len_a len_b source_a source_b s buffer max_length ha hb room =
      let s' = tcp_handle_packet local_ip a len_a source_a s in
      let second = deliver b len_b source_b s' buffer max_length hb room in
      let first =
        deliver a len_a source_a s (λ _. 0) (len_a - header_length_of a) ha (omega arith) in
      (second.0, second.1 ∙ ap (λ n. (n + (len_b - header_length_of b)) % 2 ^ 32) first.1)

  take_early_fin :
      (flags sequence : ℕ) (payload : Buffer) (n : ℕ) (s : Tcp)
      → bit_and flags 4 ≡ 0
      → bit_and flags 1 ≡ 1
      → sequence ≢ s.recv_next
      → let s' = take_segment local_ip established flags sequence payload n s in
        (s'.state ≡ closed)
        × (s'.peer_closed ≡ true)
        × (s'.recv_next ≡ (s.recv_next + 1) % 2 ^ 32)
        × (s'.recv_length ≡ s.recv_length)
  unfolding take_segment take_data take_payload take_fin acknowledge tcp_send_segment
  take_early_fin flags sequence payload n s rst fin seq = ground arith

  -- A segment with FIN and without RST closes an established connection and moves the number
  -- expected next on by 1 also when its sequence number is not that one; its data is dropped.
  pub early_fin :
      (bytes : Buffer) (len source_ip : ℕ) (s : Tcp)
      → Accepted bytes len source_ip s
      → s.state ≡ established
      → bit_and (bytes 13) 4 ≡ 0
      → bit_and (bytes 13) 1 ≡ 1
      → sequence_of bytes ≢ s.recv_next
      → let s' = tcp_handle_packet local_ip bytes len source_ip s in
        (s'.state ≡ closed)
        × (s'.peer_closed ≡ true)
        × (s'.recv_next ≡ (s.recv_next + 1) % 2 ^ 32)
        × (s'.recv_length ≡ s.recv_length)
  early_fin bytes len source_ip s h st rst fin seq =
      rw (handle-Accepted bytes len source_ip s h, by_state s.state st)
        (take_early_fin (bytes 13) (sequence_of bytes) (payload_of bytes)
          (len - header_length_of bytes) s rst fin seq)
    where
      by_state :
          (state : State)
          → state ≡ established
          → take_segment local_ip state
              (bytes 13)
              (sequence_of bytes)
              (payload_of bytes)
              (len - header_length_of bytes)
              s
            ≡ take_segment local_ip established
                (bytes 13)
                (sequence_of bytes)
                (payload_of bytes)
                (len - header_length_of bytes)
                s
      by_state state e = rw e refl
