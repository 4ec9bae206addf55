-- ===== src/Tcp/Sums.antt =====
-- The checksum of the segments that are sent.
use piux_kernel.Prelude.{
  ℕ, ◌+◌, ◌/◌, ◌%◌, ◌^◌, ◌<◌, ◌≤◌, ◌≡◌, ◌∙◌, refl, ap, List, [], ◌∷◌, ◌++◌, length, bit_and-mask,
  arith,
}
use piux_kernel.Net.{net_htons, net_htonl, net_checksum, sum_words}
use piux_kernel.Net.ByteOrder.{htons_bytes}
use piux_kernel.Net.Checksum.{IsBytes, words_total, sum_words-append, checksum_verifies}
use piux_kernel.Tcp.{
  Tcp, header_size, tcp_max_segment, store16, store32, packet_of, pseudo_sum, segment,
}

-- The header up to the checksum.
abbrev front : ℕ → Tcp → List ℕ
front flags s =
    store16 (net_htons s.local_port)
    ++ store16 (net_htons s.remote_port)
    ++ store32 (net_htonl s.send_next)
    ++ store32 (net_htonl s.recv_next)
    ++ (0x50 ∷ flags ∷ [])
    ++ store16 (net_htons 4096)

byte : (v : ℕ) → v % 2 ^ 8 < 256
byte v = omega arith

front-IsBytes : (flags : ℕ) (s : Tcp) → flags < 256 → IsBytes (front flags s)
front-IsBytes flags s h = omega arith

pseudo_le : (local_ip n : ℕ) (s : Tcp) → n < 2 ^ 16 → pseudo_sum local_ip n s ≤ 2 ^ 20
unfolding pseudo_sum
pseudo_le local_ip n s h = omega (
  arith,
  bit_and-mask 16 (local_ip / 2 ^ 16),
  bit_and-mask 16 local_ip,
  bit_and-mask 16 (s.remote_ip / 2 ^ 16),
  bit_and-mask 16 s.remote_ip,
)

checksum_le : (xs : List ℕ) (initial : ℕ) → net_checksum xs initial ≤ 0xffff
unfolding net_checksum
checksum_le xs initial = omega arith

-- A checksum in network order: its high byte is first.
stored :
    (c : ℕ) (rest : List ℕ)
    → c ≤ 0xffff
    → store16 (net_htons c) ++ rest ≡ (c / 256) ∷ (c % 256) ∷ rest
stored c rest h = rw (low, high) refl
  where
    low : net_htons c % 2 ^ 8 ≡ c / 256
    low = omega (arith, htons_bytes c)

    high : net_htons c / 2 ^ 8 % 2 ^ 8 ≡ c % 256
    high = omega (arith, htons_bytes c)

-- The sender's own sum and the segment.
segment_from :
    (local_ip flags : ℕ) (bytes : List ℕ) (s : Tcp)
    → flags < 256
    → IsBytes bytes
    → length bytes ≤ tcp_max_segment
    → net_checksum
        (segment local_ip flags bytes s)
        (pseudo_sum local_ip (header_size + length bytes) s)
      ≡ 0
unfolding segment packet_of
segment_from local_ip flags bytes s hf hb fits =
    let small : (header_size + length bytes) % 2 ^ 16 ≡ header_size + length bytes = omega arith in
    let initial = pseudo_sum local_ip (header_size + length bytes) s in
    let c = net_checksum (packet_of 0 flags bytes s) initial in
    rw small (
      ap (λ tail. net_checksum (front flags s ++ tail) initial)
        (stored c (0 ∷ 0 ∷ bytes) (checksum_le (packet_of 0 flags bytes s) initial))
      ∙ checksum_verifies (front flags s) (0 ∷ 0 ∷ bytes) initial (front-IsBytes flags s hf)
          (omega arith, (omega arith, hb)) tt (omega arith)
          (pseudo_le local_ip (header_size + length bytes) s (omega arith)))

-- The pseudo-header of RFC 793 in front of a segment of `n` bytes: the two addresses, a zero byte,
-- the number of the protocol, which is 6, and the length, each high byte first.
abbrev pub pseudo_header : ℕ → ℕ → ℕ → List ℕ
pseudo_header source_ip destination_ip n =
    (source_ip / 2 ^ 24)
    ∷ (source_ip / 2 ^ 16 % 256)
    ∷ (source_ip / 2 ^ 8 % 256)
    ∷ (source_ip % 256)
    ∷ (destination_ip / 2 ^ 24)
    ∷ (destination_ip / 2 ^ 16 % 256)
    ∷ (destination_ip / 2 ^ 8 % 256)
    ∷ (destination_ip % 256)
    ∷ 0
    ∷ 6
    ∷ (n / 256)
    ∷ (n % 256)
    ∷ []

pseudo_header-IsBytes :
    (a b n : ℕ) → a < 2 ^ 32 → b < 2 ^ 32 → n < 2 ^ 16 → IsBytes (pseudo_header a b n)
pseudo_header-IsBytes a b n ha hb hn = omega arith

pseudo_sum-words_total :
    (local_ip n : ℕ) (s : Tcp)
    → local_ip < 2 ^ 32
    → s.remote_ip < 2 ^ 32
    → n < 2 ^ 16
    → 0 + words_total (pseudo_header local_ip s.remote_ip n) ≡ pseudo_sum local_ip n s
unfolding pseudo_sum
pseudo_sum-words_total local_ip n s ha hb hn = omega (
  arith,
  bit_and-mask 16 (local_ip / 2 ^ 16),
  bit_and-mask 16 local_ip,
  bit_and-mask 16 (s.remote_ip / 2 ^ 16),
  bit_and-mask 16 s.remote_ip,
)

checksum_behind :
    (xs ys : List ℕ) (sum : ℕ)
    → sum_words 0 (xs ++ ys) ≡ sum_words sum ys
    → net_checksum (xs ++ ys) 0 ≡ net_checksum ys sum
unfolding net_checksum
checksum_behind xs ys sum e = rw e refl

-- The receiver's test holds of every segment with at most 1400 bytes of data between two addresses
-- of 32 bits: the checksum over the bytes of the pseudo-header, from the local address to that of
-- the peer with the protocol 6 and the length of the segment, and of the whole segment behind them
-- is 0.
pub segment_verifies :
    (local_ip flags : ℕ) (bytes : List ℕ) (s : Tcp)
    → flags < 256
    → IsBytes bytes
    → length bytes ≤ tcp_max_segment
    → local_ip < 2 ^ 32
    → s.remote_ip < 2 ^ 32
    → net_checksum
        (pseudo_header local_ip s.remote_ip (header_size + length bytes)
          ++ segment local_ip flags bytes s)
        0
      ≡ 0
segment_verifies local_ip flags bytes s hf hb fits here there =
    let n = header_size + length bytes in
    let front_sum =
      sum_words-append (pseudo_header local_ip s.remote_ip n) (segment local_ip flags bytes s) 0
        (pseudo_header-IsBytes local_ip s.remote_ip n here there (omega arith)) tt (omega arith) in
    checksum_behind (pseudo_header local_ip s.remote_ip n) (segment local_ip flags bytes s)
      (pseudo_sum local_ip n s)
      (front_sum
        ∙ ap (λ sum. sum_words sum (segment local_ip flags bytes s))
            (pseudo_sum-words_total local_ip n s here there (omega arith)))
    ∙ segment_from local_ip flags bytes s hf hb fits
