-- ===== src/Network/Frames.antt =====
-- A frame that one host sends, as another one receives it.
use piux_kernel.Prelude.{
  ℕ, suc, ◌+◌, ◌-◌, ◌^◌, ◌<◌, ◌≤◌, ◌≡◌, ◌∙◌, refl, sym, ap, true, if◌then◌else◌, List, ◌∷◌, ◌++◌,
  length, length-append, get_or, Buffer, copy_bytes, copy_bytes_lem, within, load16, store16,
  stored16, in_memory, get_or-behind, arith, lt→leb_not,
}
use piux_kernel.Net.{net_htons}
use piux_kernel.Net.ByteOrder.{swap_twice, htons_bound}
use piux_kernel.Network.{Host}
use piux_kernel.Network.Link.{frame_of, eth_type_ipv4}
use piux_kernel.Network.Poll.{
  handle_frame, poll_once, net_poll, from_byte, received_length, take_frame, ip_handle_packet,
}

-- Bytes in memory that are those of a list, up to its end.
abbrev pub Holds : Buffer → List ℕ → Type 0
Holds b bytes = (i : ℕ) → i < length bytes → b i ≡ in_memory bytes i

module _ {T : Type 0} (destination : List ℕ) (ethertype : ℕ) (payload : List ℕ) (h : Host T)
    (six : length destination ≡ 6) (six' : length h.mac ≡ 6) where
  addresses : length (destination ++ h.mac) ≡ 12
  addresses = omega (arith, length-append destination h.mac)

  pub length-frame : length (frame_of destination ethertype payload h) ≡ 14 + length payload
  unfolding frame_of
  length-frame =
      length-append (destination ++ h.mac) (store16 (net_htons ethertype) ++ payload)
      ∙ omega (arith, addresses)

  -- What stands behind the addresses.
  behind_addresses :
      (i : ℕ)
      → in_memory (frame_of destination ethertype payload h) (12 + i)
        ≡ get_or (store16 (net_htons ethertype) ++ payload) i 0
  unfolding frame_of
  behind_addresses i =
      ap (λ n. get_or (frame_of destination ethertype payload h) (n + i) 0) (sym addresses)
      ∙ get_or-behind (destination ++ h.mac) (store16 (net_htons ethertype) ++ payload) i

  pub frame-payload :
      (i : ℕ) → in_memory (frame_of destination ethertype payload h) (14 + i) ≡ in_memory payload i
  frame-payload i =
      let place : 14 + i ≡ 12 + suc (suc i) = omega arith in
      ap (in_memory (frame_of destination ethertype payload h)) place
      ∙ behind_addresses (suc (suc i))

  pub frame-type :
      ethertype < 2 ^ 16
      → net_htons (load16 (in_memory (frame_of destination ethertype payload h)) 12) ≡ ethertype
  frame-type small =
      rw (behind_addresses 0, behind_addresses 1)
        (ap net_htons (stored16 (net_htons ethertype) (htons_bound ethertype small))
          ∙ (swap_twice ethertype 0 small (omega arith)).0)

module _ {T : Type 0} (frame : List ℕ) (frames : List (List ℕ)) (h : Host T) where
  -- The state when the frame is handled.
  abbrev pub received : Host T
  received = record h {
    incoming = frames;
    buffer = copy_bytes (length frame) h.buffer 0 (in_memory frame) 0;
  }

  pub received-Holds : Holds received.buffer frame
  received-Holds i lt =
      copy_bytes_lem (length frame) h.buffer 0 (in_memory frame) 0 i ∙ rw (within_all, here) refl
    where
      here : 0 + (i - 0) ≡ i
      here = omega arith

      within_all : within 0 (length frame) i ≡ true
      within_all = ground arith

-- A host that is ready receives a frame of another one.
module _ {T : Type 0} (tcp : Buffer → ℕ → ℕ → Host T → Host T) where
  pub poll-received :
      (depth : ℕ) (frame : List ℕ) (frames : List (List ℕ)) (h : Host T)
      → h.ready ≡ true
      → h.incoming ≡ frame ∷ frames
      → length frame ≤ 1514
      → net_poll tcp (suc depth) h
        ≡ handle_frame tcp (net_poll tcp depth) (length frame) (received frame frames h)
  unfolding net_poll poll_once
  poll-received depth frame frames h ready there short =
      let poll = net_poll tcp depth in
      ap (λ r. if r then take_frame tcp poll h.incoming h else h) ready
      ∙ ap (λ fs. take_frame tcp poll fs h) there
      ∙ ap
          (λ n.
            handle_frame tcp poll n (record h {
              incoming = frames;
              buffer = copy_bytes n h.buffer 0 (in_memory frame) 0;
            }))
          whole
    where
      whole : received_length frame ≡ length frame
      whole = ground arith

  pub handle_ip :
      (n : ℕ) (poll : Host T → Host T) (h : Host T)
      → 14 < n
      → net_htons (load16 h.buffer 12) ≡ eth_type_ipv4
      → handle_frame tcp poll n h ≡ ip_handle_packet tcp poll (from_byte 14 h.buffer) (n - 14) h
  unfolding handle_frame
  handle_ip n poll h long type = rw (lt→leb_not n 14 long, type) refl
