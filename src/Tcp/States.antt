-- ===== src/Tcp/States.antt =====
-- How received packets move the state of the connection.
use piux_kernel.Prelude.{
  load32, ℕ, ◌+◌, ◌-◌, ◌≡◌, ◌⊎◌, refl, Bool, true, false, List, [], ◌∷◌, Buffer, arith, inl, inr,
}
use piux_kernel.Net.{net_htonl}
use piux_kernel.Tcp.{
  header_length_of, State, closed, syn_sent, established, closing, Tcp, Arrival, tcp_send_segment,
  acknowledge, take_syn, take_payload, take_fin, take_data, take_segment, tcp_handle_packet,
  net_poll,
}

-- How the packets received may move the state.
abbrev pub moves : State → State → Bool
moves closed closed = true
moves closed _ = false
moves syn_sent closing = false
moves syn_sent _ = true
moves established established = true
moves established closed = true
moves established _ = false
moves closing closing = true
moves closing closed = true
moves closing _ = false

moves_refl : (a : State) → moves a a ≡ true
moves_refl closed = refl
moves_refl syn_sent = refl
moves_refl established = refl
moves_refl closing = refl

moves_trans : (a b c : State) → moves a b ≡ true → moves b c ≡ true → moves a c ≡ true
moves_trans closed closed c p q = q
moves_trans closed syn_sent c p q = ground arith
moves_trans closed established c p q = ground arith
moves_trans closed closing c p q = ground arith
moves_trans syn_sent closed closed p q = refl
moves_trans syn_sent closed syn_sent p q = refl
moves_trans syn_sent closed established p q = refl
moves_trans syn_sent closed closing p q = q
moves_trans syn_sent syn_sent c p q = q
moves_trans syn_sent established closed p q = refl
moves_trans syn_sent established syn_sent p q = refl
moves_trans syn_sent established established p q = refl
moves_trans syn_sent established closing p q = q
moves_trans syn_sent closing c p q = ground arith
moves_trans established closed closed p q = refl
moves_trans established closed syn_sent p q = q
moves_trans established closed established p q = refl
moves_trans established closed closing p q = q
moves_trans established syn_sent c p q = ground arith
moves_trans established established c p q = q
moves_trans established closing c p q = ground arith
moves_trans closing closed closed p q = refl
moves_trans closing closed syn_sent p q = q
moves_trans closing closed established p q = q
moves_trans closing closed closing p q = refl
moves_trans closing syn_sent c p q = ground arith
moves_trans closing established c p q = ground arith
moves_trans closing closing c p q = q

module _ (local_ip : ℕ) where
  take_payload_state :
      (seq : ℕ) (payload : Buffer) (n : ℕ) (s : Tcp)
      → (take_payload local_ip seq payload n s).state ≡ s.state
  unfolding take_payload acknowledge tcp_send_segment
  take_payload_state seq payload n s = ground arith

  take_fin_state :
      (flags : ℕ) (s : Tcp)
      → ((take_fin local_ip flags s).state ≡ s.state) ⊎ ((take_fin local_ip flags s).state ≡ closed)
  unfolding take_fin acknowledge tcp_send_segment
  take_fin_state flags s = ground arith

  take_data_state :
      (flags seq : ℕ) (payload : Buffer) (n : ℕ) (s : Tcp)
      → ((take_data local_ip flags seq payload n s).state ≡ s.state)
        ⊎ ((take_data local_ip flags seq payload n s).state ≡ closed)
  unfolding take_data
  take_data_state flags seq payload n s = ground (
    arith,
    take_payload_state seq payload n s,
    take_fin_state flags (take_payload local_ip seq payload n s),
  )

  take_syn_state :
      (flags seq : ℕ) (s : Tcp)
      → ((take_syn local_ip flags seq s).state ≡ s.state)
        ⊎ ((take_syn local_ip flags seq s).state ≡ established)
  unfolding take_syn acknowledge tcp_send_segment
  take_syn_state flags seq s = ground arith

  take_segment-moves :
      (state : State) (flags seq : ℕ) (payload : Buffer) (n : ℕ) (s : Tcp)
      → state ≡ s.state
      → moves state (take_segment local_ip state flags seq payload n s).state ≡ true
  unfolding take_segment
  take_segment-moves closed flags seq payload n s e = rw (← e) refl
  take_segment-moves syn_sent flags seq payload n s e = elim (take_syn_state flags seq s) [
    | inl p ↦ rw (p, ← e) refl
    | inr p ↦ rw p refl
  ]
  take_segment-moves established flags seq payload n s e =
      elim (take_data_state flags seq payload n s) [ inl p ↦ rw (p, ← e) refl | inr p ↦ rw p refl ]
  take_segment-moves closing flags seq payload n s e =
      elim (take_data_state flags seq payload n s) [ inl p ↦ rw (p, ← e) refl | inr p ↦ rw p refl ]

  handle-moves :
      (bytes : Buffer) (len source_ip : ℕ) (s : Tcp)
      → moves s.state (tcp_handle_packet local_ip bytes len source_ip s).state ≡ true
  unfolding tcp_handle_packet
  handle-moves bytes len source_ip s = ground (
    arith,
    moves_refl s.state,
    take_segment-moves s.state (bytes 13) (net_htonl (load32 bytes 4))
        (λ i. bytes (header_length_of bytes + i)) (len - header_length_of bytes) s refl,
  )

  -- Whatever packets arrive, a closed connection stays closed, an established one is kept or
  -- closed, one that is closing is never established again, and one that sent its SYN does not get
  -- to the state CLOSING.
  pub net_poll-moves :
      (arrivals : List Arrival) (s : Tcp)
      → moves s.state (net_poll local_ip arrivals s).state ≡ true
  unfolding net_poll
  net_poll-moves [] s = moves_refl s.state
  net_poll-moves (a ∷ arrivals) s =
      let s' = tcp_handle_packet local_ip a.data_bytes a.data_length a.source_ip s in
      moves_trans s.state s'.state (net_poll local_ip arrivals s').state
        (handle-moves a.data_bytes a.data_length a.source_ip s) (net_poll-moves arrivals s')
