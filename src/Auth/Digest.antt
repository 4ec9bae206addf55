-- ===== src/Auth/Digest.antt =====
-- The digest of a password in kernel/auth.c: SHA-256 as text.
use piux_kernel.Prelude.{
  ℕ, zero, suc, ◌+◌, ◌-◌, ◌*◌, ◌/◌, ◌%◌, ◌^◌, leb, if◌then◌else◌, List, [], ◌∷◌, ◌++◌, length, take,
  drop, get_or, CString, bit_and, bit_or, bit_xor,
}

-- A word of 32 bits, rotated.
abbrev pub rotate_right : ℕ → ℕ → ℕ
rotate_right value amount = bit_or (value / 2 ^ amount) (value * 2 ^ (32 - amount) % 2 ^ 32)

abbrev pub read_word : ℕ → ℕ → ℕ → ℕ → ℕ
read_word b0 b1 b2 b3 = bit_or (bit_or (bit_or (b0 * 2 ^ 24) (b1 * 2 ^ 16)) (b2 * 2 ^ 8)) b3

abbrev pub write_word : ℕ → List ℕ
write_word value =
    value / 2 ^ 24 % 2 ^ 8 ∷ value / 2 ^ 16 % 2 ^ 8 ∷ value / 2 ^ 8 % 2 ^ 8 ∷ value % 2 ^ 8 ∷ []

abbrev pub constants : List ℕ
constants =
    0x428a2f98 ∷ 0x71374491 ∷ 0xb5c0fbcf ∷ 0xe9b5dba5 ∷ 0x3956c25b ∷ 0x59f111f1 ∷ 0x923f82a4
    ∷ 0xab1c5ed5 ∷ 0xd807aa98 ∷ 0x12835b01 ∷ 0x243185be ∷ 0x550c7dc3 ∷ 0x72be5d74 ∷ 0x80deb1fe
    ∷ 0x9bdc06a7 ∷ 0xc19bf174 ∷ 0xe49b69c1 ∷ 0xefbe4786 ∷ 0x0fc19dc6 ∷ 0x240ca1cc ∷ 0x2de92c6f
    ∷ 0x4a7484aa ∷ 0x5cb0a9dc ∷ 0x76f988da ∷ 0x983e5152 ∷ 0xa831c66d ∷ 0xb00327c8 ∷ 0xbf597fc7
    ∷ 0xc6e00bf3 ∷ 0xd5a79147 ∷ 0x06ca6351 ∷ 0x14292967 ∷ 0x27b70a85 ∷ 0x2e1b2138 ∷ 0x4d2c6dfc
    ∷ 0x53380d13 ∷ 0x650a7354 ∷ 0x766a0abb ∷ 0x81c2c92e ∷ 0x92722c85 ∷ 0xa2bfe8a1 ∷ 0xa81a664b
    ∷ 0xc24b8b70 ∷ 0xc76c51a3 ∷ 0xd192e819 ∷ 0xd6990624 ∷ 0xf40e3585 ∷ 0x106aa070 ∷ 0x19a4c116
    ∷ 0x1e376c08 ∷ 0x2748774c ∷ 0x34b0bcb5 ∷ 0x391c0cb3 ∷ 0x4ed8aa4a ∷ 0x5b9cca4f ∷ 0x682e6ff3
    ∷ 0x748f82ee ∷ 0x78a5636f ∷ 0x84c87814 ∷ 0x8cc70208 ∷ 0x90befffa ∷ 0xa4506ceb ∷ 0xbef9a3f7
    ∷ 0xc67178f2 ∷ []

-- `state`, in its order.
pub record Sha : Type 0 where
  pub a : ℕ
  pub b : ℕ
  pub c : ℕ
  pub d : ℕ
  pub e : ℕ
  pub f : ℕ
  pub g : ℕ
  pub h : ℕ

-- The words of a block, from its bytes.
unfoldable pub words_of : List ℕ → List ℕ
words_of (b0 ∷ b1 ∷ b2 ∷ b3 ∷ bytes) = read_word b0 b1 b2 b3 ∷ words_of bytes
words_of _ = []

abbrev pub next_word : ℕ → List ℕ → ℕ
next_word i words =
    let w15 = get_or words (i - 15) 0 in
    let w2 = get_or words (i - 2) 0 in
    let small_sigma0 = bit_xor (bit_xor (rotate_right w15 7) (rotate_right w15 18)) (w15 / 2 ^ 3) in
    let small_sigma1 = bit_xor (bit_xor (rotate_right w2 17) (rotate_right w2 19)) (w2 / 2 ^ 10) in
    (get_or words (i - 16) 0 + small_sigma0 + get_or words (i - 7) 0 + small_sigma1) % 2 ^ 32

-- The loop from 16 to 64, with the rounds left.
unfoldable pub schedule : ℕ → ℕ → List ℕ → List ℕ
schedule zero i words = words
schedule (suc left) i words = schedule left (i + 1) (words ++ (next_word i words ∷ []))

unfoldable pub sha_round : ℕ → ℕ → Sha → Sha
sha_round constant word s =
    let big_sigma0 =
      bit_xor (bit_xor (rotate_right s.a 2) (rotate_right s.a 13)) (rotate_right s.a 22) in
    let big_sigma1 =
      bit_xor (bit_xor (rotate_right s.e 6) (rotate_right s.e 11)) (rotate_right s.e 25) in
    let choose = bit_xor (bit_and s.e s.f) (bit_and (2 ^ 32 - 1 - s.e) s.g) in
    let majority = bit_xor (bit_xor (bit_and s.a s.b) (bit_and s.a s.c)) (bit_and s.b s.c) in
    let temporary1 = (s.h + big_sigma1 + choose + constant + word) % 2 ^ 32 in
    let temporary2 = (big_sigma0 + majority) % 2 ^ 32 in
    record {
      a = (temporary1 + temporary2) % 2 ^ 32;
      b = s.a;
      c = s.b;
      d = s.c;
      e = (s.d + temporary1) % 2 ^ 32;
      f = s.e;
      g = s.f;
      h = s.g;
    }

unfoldable pub sha_rounds : List ℕ → List ℕ → Sha → Sha
unfolding sha_round
sha_rounds (k ∷ ks) (w ∷ ws) s = sha_rounds ks ws (sha_round k w s)
sha_rounds _ _ s = s

abbrev pub add_state : Sha → Sha → Sha
add_state s t = record {
  a = (s.a + t.a) % 2 ^ 32;
  b = (s.b + t.b) % 2 ^ 32;
  c = (s.c + t.c) % 2 ^ 32;
  d = (s.d + t.d) % 2 ^ 32;
  e = (s.e + t.e) % 2 ^ 32;
  f = (s.f + t.f) % 2 ^ 32;
  g = (s.g + t.g) % 2 ^ 32;
  h = (s.h + t.h) % 2 ^ 32;
}

unfoldable pub sha256_transform : List ℕ → Sha → Sha
unfolding words_of schedule sha_rounds
sha256_transform block s = add_state s (sha_rounds constants (schedule 48 16 (words_of block)) s)

abbrev pub first_state : Sha
first_state = record {
  a = 0x6a09e667;
  b = 0xbb67ae85;
  c = 0x3c6ef372;
  d = 0xa54ff53a;
  e = 0x510e527f;
  f = 0x9b05688c;
  g = 0x1f83d9ab;
  h = 0x5be0cd19;
}

-- The blocks of 64 bytes that the input fills, with the rounds left: the state and the rest.
unfoldable pub full_blocks : ℕ → List ℕ → Sha → Sha × List ℕ
full_blocks zero input s = (s, input)
full_blocks (suc left) input s =
    let next = full_blocks left (drop 64 input) (sha256_transform (take 64 input) s) in
    if leb 64 (length input) then next else (s, input)

-- `n` bytes: those of the list, and zeros behind them.
unfoldable pub padded : ℕ → List ℕ → List ℕ
padded zero bytes = []
padded (suc n) [] = 0 ∷ padded n []
padded (suc n) (b ∷ bytes) = b ∷ padded n bytes

-- The length in bits, of 64 bits with the high byte first.
abbrev pub length_bytes : ℕ → List ℕ
length_bytes n = write_word (n * 8 / 2 ^ 32) ++ write_word (n * 8)

-- The end of the input: 0x80, zeros and the length, in one block or in two.
unfoldable pub last_blocks : ℕ → Sha × List ℕ → Sha
unfolding sha256_transform padded
last_blocks input_length (s, rest) =
    let closed = rest ++ (0x80 ∷ []) in
    if leb 56 (length rest)
    then sha256_transform (padded 56 [] ++ length_bytes input_length)
        (sha256_transform (padded 64 closed) s)
    else sha256_transform (padded 56 closed ++ length_bytes input_length) s

abbrev pub hex_digit : ℕ → ℕ
hex_digit n = if leb 10 n then b'a' + (n - 10) else b'0' + n

unfoldable pub hex_text : List ℕ → CString
hex_text [] = []
hex_text (b ∷ bytes) = hex_digit (b / 2 ^ 4) ∷ hex_digit (bit_and b 0x0f) ∷ hex_text bytes

abbrev pub digest_bytes : Sha → List ℕ
digest_bytes s =
    write_word s.a
    ++ write_word s.b
    ++ write_word s.c
    ++ write_word s.d
    ++ write_word s.e
    ++ write_word s.f
    ++ write_word s.g
    ++ write_word s.h

unfoldable pub sha256_state : CString → Sha
unfolding full_blocks last_blocks
sha256_state input = last_blocks (length input) (full_blocks (length input) input first_state)

unfoldable pub sha256 : CString → CString
unfolding sha256_state hex_text
sha256 input = hex_text (digest_bytes (sha256_state input))
