-- ===== src/Tcp/Connect.antt =====
-- What `tcp_connect` returns.
use piux_kernel.Prelude.{
  ℕ, zero, suc, ◌+◌, ◌-◌, ◌%◌, ◌^◌, ◌<◌, ◌≡◌, ◌∙◌, ◌⊎◌, refl, ap, true, false, ◌||◌, ltb, List, [],
  ◌∷◌, bit_and, ℤ, pos, minus_one, Buffer, arith, Bool-cases, inl, inr,
}
use piux_kernel.Tcp.{
  State, closed, syn_sent, established, closing, Tcp, Arrival, tcp_connect_attempts, is_established,
  tcp_send_segment, acknowledge, take_syn, take_segment, net_poll, tcp_wait_activity,
  await_established, begin_connect, tcp_connect, tcp_is_closed, header_length_of, segment,
  packet_of, pseudo_sum,
}
use piux_kernel.Tcp.Deliver.{Accepted, handle-Accepted, sequence_of, payload_of}

module _ (local_ip : ℕ) where
  -- One attempt is one poll.
  pub attempt_lem :
      (polls : ℕ → List Arrival) (s : Tcp)
      → (tcp_wait_activity local_ip 1 polls s).1 ≡ net_poll local_ip (polls 0) s
  unfolding tcp_wait_activity
  attempt_lem polls s =
      let s' = net_poll local_ip (polls 0) s in
      elim (Bool-cases (ltb 0 s'.recv_length || tcp_is_closed s')) [
        | inl e ↦ rw (e, tcp_wait_activity) refl
        | inr e ↦ rw (e, tcp_wait_activity) refl
      ]

  -- The state after one attempt.
  abbrev pub next : (ℕ → List Arrival) → Tcp → Tcp
  next polls s = (tcp_wait_activity local_ip 1 polls s).1

  pub next_done :
      (n : ℕ) (polls : ℕ → List Arrival) (s : Tcp)
      → is_established (next polls s).state ≡ true
      → await_established local_ip (suc n) polls s ≡ (pos 0, next polls s)
  unfolding await_established
  next_done n polls s h = rw (h, await_established) refl

  pub next_more :
      (n : ℕ) (polls : ℕ → List Arrival) (s : Tcp)
      → is_established (next polls s).state ≡ false
      → await_established local_ip (suc n) polls s
        ≡ await_established local_ip n (λ i. polls (suc i)) (next polls s)
  unfolding await_established
  next_more n polls s h = rw (h, await_established) refl

  await_done :
      (n : ℕ) (polls : ℕ → List Arrival) (s s' : Tcp)
      → net_poll local_ip (polls 0) s ≡ s'
      → is_established s'.state ≡ true
      → await_established local_ip (suc n) polls s ≡ (pos 0, s')
  await_done n polls s s' e st =
      let same : next polls s ≡ s' = attempt_lem polls s ∙ e in
      next_done n polls s (ap (λ t. is_established t.state) same ∙ st) ∙ ap (λ t. (pos 0, t)) same

  await_more :
      (n : ℕ) (polls : ℕ → List Arrival) (s s' : Tcp)
      → net_poll local_ip (polls 0) s ≡ s'
      → is_established s'.state ≡ false
      → await_established local_ip (suc n) polls s
        ≡ await_established local_ip n (λ i. polls (suc i)) s'
  await_more n polls s s' e st =
      let same : next polls s ≡ s' = attempt_lem polls s ∙ e in
      next_more n polls s (ap (λ t. is_established t.state) same ∙ st)
      ∙ ap (await_established local_ip n (λ i. polls (suc i))) same

  -- Whatever arrives, the result is 0 and the connection established, or it is -1 and the
  -- connection closed.
  abbrev pub Outcome : ℤ × Tcp → Type 0
  Outcome (r, s) = (r ≡ pos 0) × (s.state ≡ established) ⊎ (r ≡ minus_one) × (s.state ≡ closed)

  is_established_lem : (state : State) → is_established state ≡ true → state ≡ established
  is_established_lem established h = refl
  is_established_lem closed h = ground arith
  is_established_lem syn_sent h = ground arith
  is_established_lem closing h = ground arith

  await-Outcome :
      (n : ℕ) (polls : ℕ → List Arrival) (s : Tcp) → Outcome (await_established local_ip n polls s)
  unfolding await_established
  await-Outcome zero polls s = inr (refl, refl)
  await-Outcome (suc n) polls s = elim (Bool-cases (is_established (next polls s).state)) [
    | inl e ↦ rw (next_done n polls s e) (inl (refl, is_established_lem (next polls s).state e))
    | inr e ↦ rw (next_more n polls s e) (await-Outcome n (λ i. polls (suc i)) (next polls s))
  ]

  answer :
      (flags sequence : ℕ) (payload : Buffer) (n : ℕ) (s : Tcp)
      → bit_and flags 0x12 ≡ 0x12
      → take_segment local_ip syn_sent flags sequence payload n s
        ≡ acknowledge local_ip (record s {
          recv_next = (sequence + 1) % 2 ^ 32;
          send_next = (s.send_next + 1) % 2 ^ 32;
          state = established;
        })
  unfolding take_segment take_syn
  answer flags sequence payload n s h = ground arith

  -- The state when the answer to the SYN was taken.
  abbrev connected : ℕ → Tcp → Tcp
  connected sequence s = record s {
    recv_next = (sequence + 1) % 2 ^ 32;
    send_next = (s.send_next + 1) % 2 ^ 32;
    state = established;
  }

  answered :
      (a : Arrival) (s : Tcp)
      → s.state ≡ syn_sent
      → Accepted a.data_bytes a.data_length a.source_ip s
      → bit_and (a.data_bytes 13) 0x12 ≡ 0x12
      → net_poll local_ip (a ∷ []) s ≡ acknowledge local_ip (connected (sequence_of a.data_bytes) s)
  unfolding net_poll
  answered a s st h flags =
      handle-Accepted local_ip a.data_bytes a.data_length a.source_ip s h
      ∙ ap
          (λ state.
            take_segment local_ip state (a.data_bytes 13) (sequence_of a.data_bytes)
              (payload_of a.data_bytes) (a.data_length - header_length_of a.data_bytes) s)
          st
      ∙ answer (a.data_bytes 13) (sequence_of a.data_bytes) (payload_of a.data_bytes)
          (a.data_length - header_length_of a.data_bytes) s flags

  poll_nothing :
      (arrivals : List Arrival) (s : Tcp) → arrivals ≡ [] → net_poll local_ip arrivals s ≡ s
  unfolding net_poll
  poll_nothing arrivals s e = rw e refl

  acknowledge-state : (s : Tcp) → (acknowledge local_ip s).state ≡ s.state
  unfolding acknowledge tcp_send_segment
  acknowledge-state s = refl

  await_answer :
      (i n : ℕ) (polls : ℕ → List Arrival) (a : Arrival) (s : Tcp)
      → i < n
      → ((j : ℕ) → j < i → polls j ≡ [])
      → polls i ≡ a ∷ []
      → s.state ≡ syn_sent
      → Accepted a.data_bytes a.data_length a.source_ip s
      → bit_and (a.data_bytes 13) 0x12 ≡ 0x12
      → await_established local_ip n polls s
        ≡ (pos 0, acknowledge local_ip (connected (sequence_of a.data_bytes) s))
  await_answer i zero polls a s lt before e st h flags = absurd (omega arith)
  await_answer zero (suc n) polls a s lt before e st h flags =
      await_done n polls s (acknowledge local_ip (connected (sequence_of a.data_bytes) s))
        (ap (λ arrivals. net_poll local_ip arrivals s) e ∙ answered a s st h flags)
        (ap is_established (acknowledge-state (connected (sequence_of a.data_bytes) s)))
  await_answer (suc i) (suc n) polls a s lt before e st h flags =
      await_more n polls s s (poll_nothing (polls 0) s (before 0 (omega arith)))
        (ap is_established st)
      ∙ await_answer i n (λ j. polls (suc j)) a s (omega arith)
          (λ j lt'. before (suc j) (omega arith)) e st h flags

  -- The ports and numbers of a connection to `ip`.
  abbrev pub numbered : ℕ → ℕ → ℕ → ℕ → Tcp → Tcp
  numbered ip port sequence acknowledged s = record s {
    remote_ip = ip;
    remote_port = port;
    local_port = (s.local_port + 1) % 2 ^ 16;
    send_next = sequence;
    recv_next = acknowledged;
  }

  connected_fields :
      (ip port sequence : ℕ) (s : Tcp)
      → let t = acknowledge local_ip (connected sequence (begin_connect local_ip ip port s)) in
        (t.state ≡ established)
        × (t.recv_next ≡ (sequence + 1) % 2 ^ 32)
        × (t.send_next ≡ 0x1001)
        × (t.sent
            ≡ (ip, segment local_ip 0x10 [] (numbered ip port 0x1001 ((sequence + 1) % 2 ^ 32) s))
              ∷ (ip, segment local_ip 2 [] (numbered ip port 0x1000 0 s))
              ∷ s.sent)
  unfolding begin_connect acknowledge tcp_send_segment segment packet_of pseudo_sum
  connected_fields ip port sequence s = (refl, refl, refl, refl)

  begin_state : (ip port : ℕ) (s : Tcp) → (begin_connect local_ip ip port s).state ≡ syn_sent
  unfolding begin_connect tcp_send_segment
  begin_state ip port s = refl

  -- Nothing arrives at first, and then within the 300000 attempts a packet of the peer, for the
  -- port chosen, with SYN and ACK: the result is 0, the connection is established, both numbers
  -- count the two SYN, and exactly two segments without data were sent, both to the address given
  -- and from the next local port to the port given: first one with the flag SYN and the number
  -- 0x1000, then one with the flag ACK that acknowledges the number behind that of the peer's SYN.
  pub connect_answered :
      (ip port i : ℕ) (polls : ℕ → List Arrival) (a : Arrival) (s : Tcp)
      → i < tcp_connect_attempts
      → ((j : ℕ) → j < i → polls j ≡ [])
      → polls i ≡ a ∷ []
      → Accepted a.data_bytes a.data_length a.source_ip (begin_connect local_ip ip port s)
      → bit_and (a.data_bytes 13) 0x12 ≡ 0x12
      → let (r, s') = tcp_connect local_ip ip port polls s in
        let expected = (sequence_of a.data_bytes + 1) % 2 ^ 32 in
        (r ≡ pos 0)
        × (s'.state ≡ established)
        × (s'.recv_next ≡ expected)
        × (s'.send_next ≡ 0x1001)
        × (s'.sent
            ≡ (ip, segment local_ip 0x10 [] (numbered ip port 0x1001 expected s))
              ∷ (ip, segment local_ip 2 [] (numbered ip port 0x1000 0 s))
              ∷ s.sent)
  unfolding tcp_connect
  connect_answered ip port i polls a s lt before e h flags =
      let b = begin_connect local_ip ip port s in
      let fields = connected_fields ip port (sequence_of a.data_bytes) s in
      rw (await_answer i tcp_connect_attempts polls a b lt before e (begin_state ip port s) h flags)
        (refl, fields.0, fields.1, fields.2, fields.3)

  -- Whatever arrives, `tcp_connect` returns 0 with the connection established, or -1 with it
  -- closed.
  pub connect_result :
      (ip port : ℕ) (polls : ℕ → List Arrival) (s : Tcp)
      → let (r, s') = tcp_connect local_ip ip port polls s in
        ((r ≡ pos 0) × (s'.state ≡ established)) ⊎ ((r ≡ minus_one) × (s'.state ≡ closed))
  unfolding tcp_connect
  connect_result ip port polls s =
      await-Outcome tcp_connect_attempts polls (begin_connect local_ip ip port s)
