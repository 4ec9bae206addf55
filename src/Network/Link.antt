-- ===== src/Network/Link.antt =====
-- Sending a frame, kernel/eth.c.
use piux_kernel.Prelude.{
  ℕ, Bool, true, false, ltb, if◌then◌else◌, List, [], ◌∷◌, ◌++◌, length, store16,
}
use piux_kernel.Net.{net_htons}
use piux_kernel.Network.{Host}

-- `sizeof(eth_header_t)`.
abbrev pub eth_header_size : ℕ
eth_header_size = 14

abbrev pub eth_max_frame : ℕ
eth_max_frame = 1514

abbrev pub eth_type_arp : ℕ
eth_type_arp = 0x0806

abbrev pub eth_type_ipv4 : ℕ
eth_type_ipv4 = 0x0800

abbrev pub broadcast : List ℕ
broadcast = 0xff ∷ 0xff ∷ 0xff ∷ 0xff ∷ 0xff ∷ 0xff ∷ []

module _ {T : Type 0} where
  abbrev pub eth_get_local_mac : Host T → List ℕ
  eth_get_local_mac h = h.mac

  unfoldable pub frame_of : List ℕ → ℕ → List ℕ → Host T → List ℕ
  frame_of destination ethertype payload h =
      (destination ++ eth_get_local_mac h) ++ (store16 (net_htons ethertype) ++ payload)

  -- The card takes a frame if it is ready; `false` for -1.
  abbrev pub card_send : List ℕ → Host T → Bool × Host T
  card_send frame h =
      if h.ready then (true, record h { sent = h.sent ++ (frame ∷ []) }) else (false, h)

  unfoldable pub eth_send : List ℕ → ℕ → List ℕ → Host T → Bool × Host T
  eth_send destination ethertype payload h =
      if ltb 1500 (length payload)
      then (false, h)
      else card_send (frame_of destination ethertype payload h) h
