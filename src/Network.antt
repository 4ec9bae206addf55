-- ===== src/Network.antt =====
-- kernel/eth.c, ip.c, udp.c, icmp.c and the packets of kernel/arp.c: one host with its card.
pub mod Link
pub mod Address
pub mod Packet
pub mod Datagram
pub mod Echo
pub mod Poll
pub mod Frames
pub mod Transit
pub mod Deliver
pub mod Ping
mod Tests
use piux_kernel.Prelude.{ℕ, Bool, List, Buffer}
use piux_kernel.Arp.{Arp}

-- The static variables of kernel/ip.c.
pub record Ip : Type 0 where
  pub local_ip : ℕ
  pub local_netmask : ℕ
  pub local_gateway : ℕ
  pub local_dns : ℕ
  pub next_identification : ℕ

-- The static variables of kernel/udp.c.
pub record Udp : Type 0 where
  pub last_buffer : Buffer
  pub last_length : ℕ
  pub last_source_ip : ℕ
  pub last_source_port : ℕ
  pub last_valid : Bool

-- The static variables of kernel/icmp.c.
pub record Icmp : Type 0 where
  pub reply_pending : Bool
  pub reply_identifier : ℕ
  pub reply_sequence : ℕ
  pub reply_received : Bool

-- A host: the state of these files, the buffer of `net_poll`, and the card, which has its address,
-- the frames that are there to be received, and those that were sent. `connection` is the state of
-- kernel/tcp.c.
pub record Host (T : Type 0) : Type 0 where
  pub ready : Bool
  pub mac : List ℕ
  pub incoming : List (List ℕ)
  pub sent : List (List ℕ)
  pub buffer : Buffer
  pub arp : Arp
  pub ip : Ip
  pub udp : Udp
  pub icmp : Icmp
  pub connection : T
