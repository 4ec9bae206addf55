-- ===== src/Tcp/Tests.antt =====
-- Runs of kernel/tcp.c.
use piux_kernel.Prelude.{
  in_memory, ℕ, ◌+◌, ◌%◌, ◌^◌, ◌<◌, ◌≡◌, ◌⊎◌, refl, arith, List, [], ◌∷◌, ◌++◌, pos, minus_one,
  if◌then◌else◌, ◌==◌, length, true, false, Buffer,
}
use piux_kernel.Net.{net_htons, net_htonl, net_checksum}
use piux_kernel.Tcp.{
  closed, established, Tcp, Arrival, header_size, segment, take_segment, tcp_receive,
  tcp_handle_packet, tcp_connect, begin_connect, tcp_send_segment, net_poll, take_data,
  take_payload, take_fin, acknowledge,
}
use piux_kernel.Tcp.Header.{Fits, segment_received}
use piux_kernel.Tcp.Sums.{pseudo_header, segment_verifies}
use piux_kernel.Tcp.Deliver.{Accepted, InSequence, sequence_of, payload_of, deliver, overwrite}
use piux_kernel.Tcp.States.{moves, net_poll-moves}
use piux_kernel.Tcp.Inv.{IsValid, poll, apply, apply-IsValid}
use piux_kernel.Tcp.Connect.{numbered, connect_answered, connect_result}

-- A connection from port 1 to port 2 that expects the number 7.
abbrev open_at : ℕ → Tcp
open_at n = record {
  state = established;
  remote_ip = 9;
  remote_port = 2;
  local_port = 1;
  send_next = 0x1001;
  recv_next = n;
  peer_closed = false;
  recv_buffer = λ _. 0;
  recv_length = 0;
  sent = [];
}

abbrev text : List ℕ
text = b'o' ∷ b'k' ∷ b'.' ∷ []

open_at-Fits : Fits (open_at 7)
open_at-Fits = omega arith

open_at-IsValid : IsValid (open_at 7)
open_at-IsValid = ground arith

-- A segment from port 2 to port 1 with some flags and number and two bytes of data.
abbrev arriving : ℕ → ℕ → Buffer
arriving flags number = in_memory (
    0 ∷ 2 ∷ 0 ∷ 1 ∷ 0 ∷ 0 ∷ 0 ∷ number ∷ 0 ∷ 0 ∷ 0 ∷ 0 ∷ 0x50 ∷ flags ∷ 0 ∷ 0 ∷ 0 ∷ 0 ∷ 0 ∷ 0 ∷ b'h'
    ∷ b'i' ∷ [])

segment_verifies_example :
    net_checksum
      (pseudo_header 5 9 (header_size + length text) ++ segment 5 0x10 text (open_at 7))
      0
    ≡ 0
segment_verifies_example =
    segment_verifies 5 0x10 text (open_at 7) (omega arith) (omega arith) (omega arith) (omega arith)
      (omega arith)

-- The other end.
abbrev peer : Tcp
peer = record (open_at 0x1001) { remote_ip = 5; remote_port = 1; local_port = 2 }

segment_received_example :
    tcp_handle_packet 9
      (in_memory (segment 5 0x18 text (open_at 7)))
      (header_size + length text)
      5
      peer
    ≡ take_segment 9 peer.state 0x18 0x1001 (in_memory text) (length text) peer
segment_received_example =
    segment_received 5 9 0x18 text (open_at 7) peer open_at-Fits refl refl refl

arriving-Accepted : Accepted (arriving 0x10 7) 22 9 (open_at 7)
unfolding net_htons
arriving-Accepted = ground arith

arriving-InSequence : InSequence (arriving 0x10 7) 22 9 (open_at 7)
unfolding net_htonl
arriving-InSequence = record {
  accepted = arriving-Accepted;
  is_open = refl;
  no_reset = refl;
  no_fin = refl;
  sequence = refl;
  nonempty = omega arith;
  fits = omega arith;
}

deliver_example :
    let s' = tcp_handle_packet 5 (arriving 0x10 7) 22 9 (open_at 7) in
    let (count, out, s'') = tcp_receive (λ _. 0) 100 s' in
    ((count ≡ 2)
      × ((i : ℕ) → i < 2 → out i ≡ payload_of (arriving 0x10 7) i)
      × (s''.recv_length ≡ 0))
    × (s'.recv_next ≡ 9)
    × (s'.state ≡ established)
    × (s'.sent ≡ (9, segment 5 0x10 [] (record (open_at 7) { recv_next = 9 })) ∷ [])
deliver_example =
    deliver 5 (arriving 0x10 7) 22 9 (open_at 7) (λ _. 0) 100 arriving-InSequence (omega arith)

next-InSequence :
    InSequence (arriving 0x10 9) 22 9 (tcp_handle_packet 5 (arriving 0x10 7) 22 9 (open_at 7))
unfolding net_htonl net_htons tcp_handle_packet take_segment take_data take_payload take_fin
    acknowledge tcp_send_segment
next-InSequence = record {
  accepted = ground arith;
  is_open = refl;
  no_reset = refl;
  no_fin = refl;
  sequence = refl;
  nonempty = omega arith;
  fits = omega arith;
}

overwrite_example :
    let s' =
      tcp_handle_packet 5
        (arriving 0x10 9)
        22
        9
        (tcp_handle_packet 5 (arriving 0x10 7) 22 9 (open_at 7)) in
    let (count, out, s'') = tcp_receive (λ _. 0) 100 s' in
    ((count ≡ 2)
      × ((i : ℕ) → i < 2 → out i ≡ payload_of (arriving 0x10 9) i)
      × (s''.recv_length ≡ 0))
    × (s'.recv_next ≡ 11)
overwrite_example =
    overwrite 5 (arriving 0x10 7) (arriving 0x10 9) 22 22 9 9 (open_at 7) (λ _. 0) 100
      arriving-InSequence next-InSequence (omega arith)

net_poll-Moves_example :
    moves
      (open_at 7).state
      (net_poll 5
        (record { data_bytes = arriving 0x10 7; data_length = 22; source_ip = 9 } ∷ [])
        (open_at 7)).state
    ≡ true
net_poll-Moves_example =
    net_poll-moves 5 (record { data_bytes = arriving 0x10 7; data_length = 22; source_ip = 9 } ∷ [])
      (open_at 7)

apply-IsValid_example : IsValid (
    apply 5
      (poll (record { data_bytes = arriving 0x10 7; data_length = 22; source_ip = 9 } ∷ []))
      (open_at 7))
apply-IsValid_example =
    apply-IsValid 5
      (poll (record { data_bytes = arriving 0x10 7; data_length = 22; source_ip = 9 } ∷ []))
      (open_at 7) open_at-IsValid

connect_result_example :
    let (r, s') = tcp_connect 5 9 2 (λ _. []) (open_at 7) in
    ((r ≡ pos 0) × (s'.state ≡ established)) ⊎ ((r ≡ minus_one) × (s'.state ≡ closed))
connect_result_example = connect_result 5 9 2 (λ _. []) (open_at 7)

-- The answer to the SYN, from port 2 to port 2.
abbrev answer : Arrival
answer = record {
  data_bytes =
      in_memory (
        0 ∷ 2 ∷ 0 ∷ 2 ∷ 0 ∷ 0 ∷ 0 ∷ 7 ∷ 0 ∷ 0 ∷ 0x10 ∷ 1 ∷ 0x50 ∷ 0x12 ∷ 0 ∷ 0 ∷ 0 ∷ 0 ∷ 0 ∷ 0
        ∷ []);
  data_length = 20;
  source_ip = 9;
}

abbrev answer_polls : ℕ → List Arrival
answer_polls i = if i == 3 then answer ∷ [] else []

answer-Accepted :
    Accepted answer.data_bytes answer.data_length answer.source_ip (begin_connect 5 9 2 (open_at 7))
unfolding net_htons begin_connect tcp_send_segment
answer-Accepted = ground arith

connect_answered_example :
    let (r, s') = tcp_connect 5 9 2 answer_polls (open_at 7) in
    (r ≡ pos 0)
    × (s'.state ≡ established)
    × (s'.recv_next ≡ (sequence_of answer.data_bytes + 1) % 2 ^ 32)
    × (s'.send_next ≡ 0x1001)
    × (s'.sent
        ≡ (
          9,
          segment 5 0x10 []
              (numbered 5 9 2 0x1001 ((sequence_of answer.data_bytes + 1) % 2 ^ 32) (open_at 7)),
        )
          ∷ (9, segment 5 2 [] (numbered 5 9 2 0x1000 0 (open_at 7)))
          ∷ [])
connect_answered_example =
    connect_answered 5 9 2 3 answer_polls answer (open_at 7) (omega arith) (λ j h. ground arith)
      refl answer-Accepted refl
