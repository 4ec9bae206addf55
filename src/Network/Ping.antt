-- ===== src/Network/Ping.antt =====
-- An echo request of kernel/icmp.c, its reply, and the host that asked.
use piux_kernel.Prelude.{
  ℕ, zero, suc, ◌+◌, ◌-◌, ◌^◌, ◌<◌, ◌≤◌, ◌≡◌, inl, ◌∙◌, refl, sym, ap, subst, true, false, List, [],
  ◌∷◌, ◌++◌, length, some, Buffer, load16, store16, stored16, in_memory, get_or-behind, list_at,
  arith, ==_iff, le→ltb_not,
}
use piux_kernel.Net.{net_htons, net_checksum}
use piux_kernel.Net.ByteOrder.{swap_twice, htons_bound}
use piux_kernel.Arp.{arp_cache_lookup}
use piux_kernel.Network.{Host}
use piux_kernel.Network.Link.{frame_of}
use piux_kernel.Network.Packet.{ip_proto_icmp, to_all, next_hop, count_packet, ip_send}
use piux_kernel.Network.Echo.{
  icmp_type_echo_reply, icmp_type_echo_request, echo_packet, echo_with_checksum, letters,
  icmp_send_echo_request, send_echo_reply, icmp_handle_packet,
}
use piux_kernel.Network.Poll.{net_poll, pass_on}
use piux_kernel.Network.Frames.{Holds, received}
use piux_kernel.Network.Transit.{its_frame, receive_packet, send_known}

length-letters : (n i : ℕ) → length (letters n i) ≡ n
unfolding letters
length-letters zero i = refl
length-letters (suc n) i = ap suc (length-letters n (i + 1))

-- The bytes of a list that stands at an offset.
list_at-Holds :
    (bytes : List ℕ) (b : Buffer) (o : ℕ)
    → ((i : ℕ) → i < length bytes → b (o + i) ≡ in_memory bytes i)
    → list_at (length bytes) b o ≡ bytes
unfolding list_at
list_at-Holds [] b o h = refl
list_at-Holds (c ∷ bytes) b o h = rw (first, list_at-Holds bytes b (o + 1) rest) refl
  where
    here : o + 0 ≡ o
    here = omega arith

    first : b o ≡ c
    first = ap b (sym here) ∙ h 0 (omega arith)

    shift : (i : ℕ) → o + 1 + i ≡ o + suc i
    shift i = omega arith

    rest : (i : ℕ) → i < length bytes → b (o + 1 + i) ≡ in_memory bytes i
    rest i lt = ap b (shift i) ∙ h (suc i) (omega arith)

-- The fields of an echo packet in memory.
module _ (type checksum identifier sequence : ℕ) (payload : List ℕ) (b : Buffer)
    (holds : Holds b (echo_packet type checksum identifier sequence payload)) where
  at_byte :
      (i : ℕ) → i < 8 → b i ≡ in_memory (echo_packet type checksum identifier sequence payload) i
  unfolding echo_packet
  at_byte i lt = holds i (omega arith)

  its_type : b 0 ≡ type
  unfolding echo_packet
  its_type = at_byte 0 (omega arith)

  its_identifier : identifier < 2 ^ 16 → load16 b 4 ≡ identifier
  unfolding echo_packet
  its_identifier small =
      rw (at_byte 4 (omega arith), at_byte (4 + 1) (omega arith)) (stored16 identifier small)

  its_sequence : sequence < 2 ^ 16 → load16 b 6 ≡ sequence
  unfolding echo_packet
  its_sequence small =
      rw (at_byte 6 (omega arith), at_byte (6 + 1) (omega arith)) (stored16 sequence small)

  its_payload : list_at (length payload) b 8 ≡ payload
  unfolding echo_packet
  its_payload = list_at-Holds payload b 8 (λ i lt.
      holds (8 + i) (omega arith)
      ∙ get_or-behind (type ∷ 0 ∷ store16 checksum ++ store16 identifier ++ store16 sequence)
          payload i)

length-echo :
    (type identifier sequence : ℕ) (payload : List ℕ)
    → length (echo_with_checksum type identifier sequence payload) ≡ 8 + length payload
unfolding echo_with_checksum echo_packet
length-echo type identifier sequence payload = omega arith

module _ {T : Type 0} (poll : Host T → Host T) (identifier sequence source_ip : ℕ) (b : Buffer)
    (h : Host T) where
  -- A request is answered with its own identifier, sequence number and data.
  pub handle_request :
      (payload : List ℕ)
      → identifier < 2 ^ 16
      → sequence < 2 ^ 16
      → length payload ≤ 66
      → Holds b (echo_with_checksum icmp_type_echo_request identifier sequence payload)
      → icmp_handle_packet poll b (8 + length payload) source_ip h
        ≡ (ip_send poll source_ip ip_proto_icmp
            (echo_with_checksum icmp_type_echo_reply identifier sequence payload)
            h).1
  unfolding icmp_handle_packet send_echo_reply echo_with_checksum
  handle_request payload small small' short holds =
      let checksum =
        net_htons
          (net_checksum (echo_packet icmp_type_echo_request 0 identifier sequence payload) 0) in
      let size : 8 + length payload - 8 ≡ length payload = omega arith in
      rw
        (
          le→ltb_not (8 + length payload) 8 (omega arith),
          its_type icmp_type_echo_request checksum identifier sequence payload b holds,
          send_echo_reply,
          size,
          le→ltb_not 66 (length payload) short,
          its_payload icmp_type_echo_request checksum identifier sequence payload b holds,
          its_identifier icmp_type_echo_request checksum identifier sequence payload b holds small,
          its_sequence icmp_type_echo_request checksum identifier sequence payload b holds small',
        )
        refl

  -- A reply is taken if it has the numbers of the request.
  pub handle_reply :
      (payload : List ℕ)
      → identifier < 2 ^ 16
      → sequence < 2 ^ 16
      → h.icmp.reply_pending ≡ true
      → h.icmp.reply_identifier ≡ identifier
      → h.icmp.reply_sequence ≡ sequence
      → Holds b (
          echo_with_checksum icmp_type_echo_reply
            (net_htons identifier)
            (net_htons sequence)
            payload)
      → icmp_handle_packet poll b (8 + length payload) source_ip h
        ≡ record h { icmp = record h.icmp { reply_received = true } }
  unfolding icmp_handle_packet echo_with_checksum
  handle_reply payload small small' pending same same' holds =
      let identifier' = net_htons identifier in
      let sequence' = net_htons sequence in
      let checksum =
        net_htons
          (net_checksum (echo_packet icmp_type_echo_reply 0 identifier' sequence' payload) 0) in
      rw
        (
          le→ltb_not (8 + length payload) 8 (omega arith),
          its_identifier icmp_type_echo_reply checksum identifier' sequence' payload b holds
              (htons_bound identifier small),
          its_sequence icmp_type_echo_reply checksum identifier' sequence' payload b holds
              (htons_bound sequence small'),
          its_type icmp_type_echo_reply checksum identifier' sequence' payload b holds,
          (swap_twice identifier 0 small (omega arith)).0,
          (swap_twice sequence 0 small' (omega arith)).0,
          pending,
          same,
          same',
          (==_iff identifier identifier).1 refl,
          (==_iff sequence sequence).1 refl,
        )
        refl

-- The frame of a request or of a reply.
abbrev pub echo_frame : {S : Type 0} → ℕ → ℕ → ℕ → ℕ → List ℕ → Host S → List ℕ
echo_frame destination_ip type identifier sequence mac a =
    its_frame destination_ip ip_proto_icmp
      (echo_with_checksum type (net_htons identifier) (net_htons sequence) (letters 56 0)) mac a

module _ {S T : Type 0} (poll : Host S → Host S) (back : Buffer → ℕ → ℕ → Host S → Host S)
    (tcp : Buffer → ℕ → ℕ → Host T → Host T) (depth depth' destination_ip identifier sequence : ℕ)
    (mac mac' : List ℕ) (frames frames' : List (List ℕ)) (a : Host S) (b : Host T) where
  abbrev echo : ℕ → List ℕ
  echo type = echo_with_checksum type (net_htons identifier) (net_htons sequence) (letters 56 0)

  abbrev request_frame : List ℕ
  request_frame = echo_frame destination_ip icmp_type_echo_request identifier sequence mac a

  abbrev reply_frame : List ℕ
  reply_frame = echo_frame a.ip.local_ip icmp_type_echo_reply identifier sequence mac' b

  size : (type : ℕ) → length (echo type) ≡ 64
  size type =
      length-echo type (net_htons identifier) (net_htons sequence) (letters 56 0)
      ∙ ap (λ n. 8 + n) (length-letters 56 0)

  -- The first host when it has sent the request.
  abbrev asked : Host S
  asked = record (count_packet a) {
    icmp = record {
      reply_pending = true;
      reply_identifier = identifier;
      reply_sequence = sequence;
      reply_received = false;
    };
    sent = a.sent ++ (request_frame ∷ []);
  }

  request_sent :
      a.ready ≡ true
      → arp_cache_lookup (next_hop destination_ip a.ip) a.arp ≡ some mac
      → destination_ip < to_all
      → icmp_send_echo_request poll destination_ip identifier sequence a ≡ (true, asked)
  unfolding icmp_send_echo_request frame_of
  request_sent ready known small =
      send_known poll destination_ip ip_proto_icmp (echo icmp_type_echo_request) mac
        (record a {
          icmp = record {
            reply_pending = true;
            reply_identifier = identifier;
            reply_sequence = sequence;
            reply_received = false;
          };
        })
        ready (omega (arith, size icmp_type_echo_request)) (omega arith) known

  reply_sent :
      b.ready ≡ true
      → length a.mac ≡ 6
      → length mac ≡ 6
      → arp_cache_lookup (next_hop a.ip.local_ip b.ip) b.arp ≡ some mac'
      → a.ip.local_ip < to_all
      → destination_ip < to_all
      → b.ip.local_ip ≡ destination_ip
      → identifier < 2 ^ 16
      → sequence < 2 ^ 16
      → b.incoming ≡ request_frame ∷ frames
      → (net_poll tcp (suc depth) b).sent ≡ b.sent ++ (reply_frame ∷ [])
  unfolding pass_on frame_of
  reply_sent ready six six' known small small' here fits fits' there =
      let long = size icmp_type_echo_request in
      let (arrived, holds, polled) =
        receive_packet tcp depth destination_ip ip_proto_icmp (echo icmp_type_echo_request) mac
          frames a b six' six (omega arith) (omega arith) (omega (arith, long)) ready there
          (inl here) in
      let letters_size : 8 + length (letters 56 0) ≡ length (echo icmp_type_echo_request) =
        ap (λ n. 8 + n) (length-letters 56 0) ∙ sym long in
      ap (λ h. h.sent) polled
      ∙ ap
          (λ n.
            (icmp_handle_packet (net_poll tcp depth) arrived n a.ip.local_ip
              (received request_frame frames b)).sent)
          (sym letters_size)
      ∙ ap (λ h. h.sent)
          (handle_request (net_poll tcp depth) (net_htons identifier) (net_htons sequence)
            a.ip.local_ip arrived (received request_frame frames b) (letters 56 0)
            (htons_bound identifier fits) (htons_bound sequence fits')
            (omega (arith, length-letters 56 0)) holds)
      ∙ ap (λ r. r.1.sent)
          (send_known (net_poll tcp depth) a.ip.local_ip ip_proto_icmp (echo icmp_type_echo_reply)
            mac' (received request_frame frames b) ready (omega (arith, size icmp_type_echo_reply))
            (omega arith) known)

  reply_taken :
      a.ready ≡ true
      → length b.mac ≡ 6
      → length mac' ≡ 6
      → a.ip.local_ip < to_all
      → b.ip.local_ip < to_all
      → identifier < 2 ^ 16
      → sequence < 2 ^ 16
      → (net_poll back
          (suc depth')
          (record asked { incoming = reply_frame ∷ frames' })).icmp.reply_received
        ≡ true
  unfolding pass_on frame_of
  reply_taken ready six six' small small' fits fits' =
      let long = size icmp_type_echo_reply in
      let h = record asked { incoming = reply_frame ∷ frames' } in
      let (arrived, holds, polled) =
        receive_packet back depth' a.ip.local_ip ip_proto_icmp (echo icmp_type_echo_reply) mac'
          frames' b h six' six (omega arith) (omega arith) (omega (arith, long)) ready refl
          (inl refl) in
      let letters_size : 8 + length (letters 56 0) ≡ length (echo icmp_type_echo_reply) =
        ap (λ n. 8 + n) (length-letters 56 0) ∙ sym long in
      ap (λ h. h.icmp.reply_received) polled
      ∙ ap
          (λ n.
            (icmp_handle_packet (net_poll back depth') arrived n b.ip.local_ip
              (received reply_frame frames' h)).icmp.reply_received)
          (sym letters_size)
      ∙ ap (λ h. h.icmp.reply_received)
          (handle_reply (net_poll back depth') identifier sequence b.ip.local_ip arrived
            (received reply_frame frames' h) (letters 56 0) fits fits' refl refl refl holds)

  -- Two hosts, each with the hardware address of the next hop to the other in its cache, and the
  -- second with the destination address. The first sends one frame for an echo request; when the
  -- second receives it, one `net_poll` sends one frame back; and when the first, after its request,
  -- receives that, one `net_poll` marks the reply as received.
  pub echo_answered :
      a.ready ≡ true
      → b.ready ≡ true
      → length a.mac ≡ 6
      → length b.mac ≡ 6
      → length mac ≡ 6
      → length mac' ≡ 6
      → arp_cache_lookup (next_hop destination_ip a.ip) a.arp ≡ some mac
      → arp_cache_lookup (next_hop a.ip.local_ip b.ip) b.arp ≡ some mac'
      → a.ip.local_ip < to_all
      → destination_ip < to_all
      → b.ip.local_ip ≡ destination_ip
      → identifier < 2 ^ 16
      → sequence < 2 ^ 16
      → b.incoming ≡ request_frame ∷ frames
      → let (ok, a') = icmp_send_echo_request poll destination_ip identifier sequence a in
        let b' = net_poll tcp (suc depth) b in
        (ok ≡ true)
        × (a'.sent ≡ a.sent ++ (request_frame ∷ []))
        × (b'.sent ≡ b.sent ++ (reply_frame ∷ []))
        × ((net_poll back
              (suc depth')
              (record a' { incoming = reply_frame ∷ frames' })).icmp.reply_received
            ≡ true)
  echo_answered ready ready' six six' six2 six3 known known' small small' here fits fits' there =
      subst
        (λ p.
          (p.0 ≡ true)
          × (p.1.sent ≡ a.sent ++ (request_frame ∷ []))
          × ((net_poll tcp (suc depth) b).sent ≡ b.sent ++ (reply_frame ∷ []))
          × ((net_poll back (suc depth')
                (record p.1 { incoming = reply_frame ∷ frames' })).icmp.reply_received
              ≡ true))
        (sym (request_sent ready known small'))
        (
          refl,
          refl,
          reply_sent ready' six six2 known' small small' here fits fits' there,
          reply_taken ready six' six3 small (omega arith) fits fits',
        )
