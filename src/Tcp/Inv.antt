-- ===== src/Tcp/Inv.antt =====
-- What every operation of kernel/tcp.c keeps of the state of the connection.
use piux_kernel.Prelude.{
  load32, ℕ, zero, suc, ◌+◌, ◌-◌, ◌^◌, ◌<◌, ◌≤◌, ◌≡◌, ◌≢◌, ◌⊎◌, ◌∙◌, sym, refl, false, ◌==◌, List,
  [], ◌∷◌, bit_and, ℤ, Buffer, arith, Bool-cases, inl, inr,
}
use piux_kernel.Tcp.Connect.{attempt_lem, next_done, next_more}
use piux_kernel.Net.{net_htonl}
use piux_kernel.Tcp.{
  header_length_of, State, closed, syn_sent, established, closing, Tcp, Arrival,
  tcp_recv_buffer_size, tcp_connect_attempts, is_established, tcp_send_segment, acknowledge,
  tcp_send, tcp_receive, tcp_close, take_syn, take_payload, take_fin, take_data, take_segment,
  tcp_handle_packet, net_poll, tcp_wait_activity, await_established, begin_connect, tcp_connect,
}

-- The bounds of the buffer and of the numbers, and that nothing was received from the peer while the
-- answer to the SYN is awaited.
pub record IsValid (s : Tcp) : Type 0 where
  pub received : s.recv_length ≤ tcp_recv_buffer_size
  pub ports : s.local_port < 2 ^ 16
  pub next_sent : s.send_next < 2 ^ 32
  pub next_received : s.recv_next < 2 ^ 32
  pub awaiting : (s.state ≢ syn_sent) ⊎ (s.recv_length ≡ 0) × (s.peer_closed ≡ false)

-- An operation of the file, with what the rest of the kernel gives it.
pub data Operation : Type 0 where
  connect : (ip port : ℕ) (polls : ℕ → List Arrival) → Operation
  send : (bytes : List ℕ) (result : ℤ) → Operation
  receive : (buffer : Buffer) (max_length : ℕ) → Operation
  close : (arrivals : List Arrival) → Operation
  poll : (arrivals : List Arrival) → Operation

module _ (local_ip : ℕ) where
  abbrev pub apply : Operation → Tcp → Tcp
  apply (connect ip port polls) s = (tcp_connect local_ip ip port polls s).1
  apply (send bytes result) s = (tcp_send local_ip bytes result s).1
  apply (receive buffer max_length) s = (tcp_receive buffer max_length s).2
  apply (close arrivals) s = tcp_close local_ip arrivals s
  apply (poll arrivals) s = net_poll local_ip arrivals s

  take_syn-IsValid : (flags seq : ℕ) (s : Tcp) → IsValid s → IsValid (take_syn local_ip flags seq s)
  unfolding take_syn acknowledge tcp_send_segment
  take_syn-IsValid flags seq s h =
      ground (arith, h.received, h.ports, h.next_sent, h.next_received, h.awaiting)

  take_payload-IsValid :
      (seq : ℕ) (payload : Buffer) (n : ℕ) (s : Tcp)
      → s.state ≢ syn_sent
      → IsValid s
      → IsValid (take_payload local_ip seq payload n s)
  unfolding take_payload acknowledge tcp_send_segment
  take_payload-IsValid seq payload n s past h =
      ground (arith, h.received, h.ports, h.next_sent, h.next_received, h.awaiting)

  take_fin-IsValid : (flags : ℕ) (s : Tcp) → IsValid s → IsValid (take_fin local_ip flags s)
  unfolding take_fin acknowledge tcp_send_segment
  take_fin-IsValid flags s h =
      ground (arith, h.received, h.ports, h.next_sent, h.next_received, h.awaiting)

  take_data-IsValid :
      (flags seq : ℕ) (payload : Buffer) (n : ℕ) (s : Tcp)
      → s.state ≢ syn_sent
      → IsValid s
      → IsValid (take_data local_ip flags seq payload n s)
  unfolding take_data
  take_data-IsValid flags seq payload n s past h = elim (Bool-cases (bit_and flags 4 == 0)) [
    | inl e ↦ rw e (
        take_fin-IsValid flags (take_payload local_ip seq payload n s)
          (take_payload-IsValid seq payload n s past h))
    | inr e ↦ rw e (ground (arith, h.received, h.ports, h.next_sent, h.next_received, h.awaiting))
  ]

  not_awaiting : (state : State) (s : Tcp) → s.state ≡ state → state ≢ syn_sent → s.state ≢ syn_sent
  not_awaiting state s e other q = other (sym e ∙ q)

  take_segment-IsValid :
      (state : State) (flags seq : ℕ) (payload : Buffer) (n : ℕ) (s : Tcp)
      → s.state ≡ state
      → IsValid s
      → IsValid (take_segment local_ip state flags seq payload n s)
  unfolding take_segment
  take_segment-IsValid closed flags seq payload n s e h = h
  take_segment-IsValid syn_sent flags seq payload n s e h = take_syn-IsValid flags seq s h
  take_segment-IsValid established flags seq payload n s e h =
      take_data-IsValid flags seq payload n s (not_awaiting established s e (λ q. ground arith)) h
  take_segment-IsValid closing flags seq payload n s e h =
      take_data-IsValid flags seq payload n s (not_awaiting closing s e (λ q. ground arith)) h

  handle-cases :
      (bytes : Buffer) (len source_ip : ℕ) (s : Tcp)
      → (tcp_handle_packet local_ip bytes len source_ip s ≡ s)
        ⊎ (tcp_handle_packet local_ip bytes len source_ip s
            ≡ take_segment local_ip s.state
                (bytes 13)
                (net_htonl (load32 bytes 4))
                (λ i. bytes (header_length_of bytes + i))
                (len - header_length_of bytes)
                s)
  unfolding tcp_handle_packet
  handle-cases bytes len source_ip s = ground arith

  net_poll-IsValid :
      (arrivals : List Arrival) (s : Tcp) → IsValid s → IsValid (net_poll local_ip arrivals s)
  unfolding net_poll
  net_poll-IsValid [] s h = h
  net_poll-IsValid (a ∷ arrivals) s h =
      net_poll-IsValid arrivals
        (tcp_handle_packet local_ip a.data_bytes a.data_length a.source_ip s)
        (elim (handle-cases a.data_bytes a.data_length a.source_ip s) [
          | inl e ↦ rw e h
          | inr e ↦ rw e (
              take_segment-IsValid s.state (a.data_bytes 13) (net_htonl (load32 a.data_bytes 4))
                (λ i. a.data_bytes (header_length_of a.data_bytes + i))
                (a.data_length - header_length_of a.data_bytes) s refl h)
        ])

  send_segment-IsValid :
      (flags : ℕ) (bytes : List ℕ) (result : ℤ) (s : Tcp)
      → IsValid s
      → IsValid (tcp_send_segment local_ip flags bytes result s).1
  unfolding tcp_send_segment
  send_segment-IsValid flags bytes result s h =
      ground (arith, h.received, h.ports, h.next_sent, h.next_received, h.awaiting)

  tcp_send-IsValid :
      (bytes : List ℕ) (result : ℤ) (s : Tcp)
      → IsValid s
      → IsValid (tcp_send local_ip bytes result s).1
  unfolding tcp_send tcp_send_segment
  tcp_send-IsValid bytes result s h =
      ground (arith, h.received, h.ports, h.next_sent, h.next_received, h.awaiting)

  tcp_close-IsValid :
      (arrivals : List Arrival) (s : Tcp) → IsValid s → IsValid (tcp_close local_ip arrivals s)
  unfolding tcp_close
  tcp_close-IsValid arrivals s h =
      let v = net_poll-IsValid arrivals s h in
      ground (
        arith, h.received, h.ports, h.next_sent, h.next_received, v.received, v.ports,
        v.next_received, v.awaiting,
      )

  tcp_receive-IsValid :
      (buffer : Buffer) (max_length : ℕ) (s : Tcp)
      → IsValid s
      → IsValid (tcp_receive buffer max_length s).2
  unfolding tcp_receive
  tcp_receive-IsValid buffer max_length s h =
      ground (arith, h.received, h.ports, h.next_sent, h.next_received, h.awaiting)

  begin_connect-IsValid : (ip port : ℕ) (s : Tcp) → IsValid (begin_connect local_ip ip port s)
  unfolding begin_connect tcp_send_segment
  begin_connect-IsValid ip port s = ground arith

  wait-IsValid :
      (polls : ℕ → List Arrival) (s : Tcp)
      → IsValid s
      → IsValid (tcp_wait_activity local_ip 1 polls s).1
  wait-IsValid polls s h = rw (attempt_lem local_ip polls s) (net_poll-IsValid (polls 0) s h)

  await-IsValid :
      (n : ℕ) (polls : ℕ → List Arrival) (s : Tcp)
      → IsValid s
      → IsValid (await_established local_ip n polls s).1
  unfolding await_established
  await-IsValid zero polls s h =
      ground (arith, h.received, h.ports, h.next_sent, h.next_received, h.awaiting)
  await-IsValid (suc n) polls s h =
      let s' = (tcp_wait_activity local_ip 1 polls s).1 in
      elim (Bool-cases (is_established s'.state)) [
        | inl e ↦ rw (next_done local_ip n polls s e) (wait-IsValid polls s h)
        | inr e ↦
            rw (next_more local_ip n polls s e)
              (await-IsValid n (λ i. polls (suc i)) s' (wait-IsValid polls s h))
      ]

  -- Every operation of the connection, with any packets and any results of `ip_send`, keeps the
  -- data received within its buffer of 1460 bytes and the port and both numbers within their types,
  -- and while the answer to the SYN is awaited, no data and no end of the connection has been taken
  -- from the peer.
  pub apply-IsValid : (o : Operation) (s : Tcp) → IsValid s → IsValid (apply o s)
  unfolding tcp_connect
  apply-IsValid (connect ip port polls) s h =
      await-IsValid tcp_connect_attempts polls (begin_connect local_ip ip port s)
        (begin_connect-IsValid ip port s)
  apply-IsValid (send bytes result) s h = tcp_send-IsValid bytes result s h
  apply-IsValid (receive buffer max_length) s h = tcp_receive-IsValid buffer max_length s h
  apply-IsValid (close arrivals) s h = tcp_close-IsValid arrivals s h
  apply-IsValid (poll arrivals) s h = net_poll-IsValid arrivals s h
