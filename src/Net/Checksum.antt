-- ===== src/Net/Checksum.antt =====
-- The Internet checksum of kernel/net.c.
use piux_kernel.Prelude.{
  ℕ, zero, suc, ◌+◌, ◌-◌, ◌*◌, ◌/◌, ◌%◌, ◌^◌, ◌<◌, ◌≤◌, ◌≡◌, ◌⊎◌, refl, ap, ◌∙◌, arith, bit_or,
  bit_or-fields, bit_and-mask, List, [], ◌∷◌, ◌++◌, length, length-append, if◌then◌else◌, ◌==◌,
  Bool-cases, inl, inr,
}
use piux_kernel.Net.{sum_words, fold_sum, fold_fuel, net_checksum}

-- Both are 0 or neither is.
abbrev pub BothZero : ℕ → ℕ → Type 0
BothZero s t = (s ≡ 0) × (t ≡ 0) ⊎ (0 < s) × (0 < t)

-- One round of the folding loop keeps the remainder by 65535, and is 0 only at 0.
fold_round : (s : ℕ) → let t = s % 2 ^ 16 + s / 2 ^ 16 in (t % 65535 ≡ s % 65535) × BothZero s t
fold_round s = (omega arith, omega arith)

-- What the loop gives, with the fuel for a sum of 32 bits: the remainder by 65535, written as 65535
-- and not 0 for a sum above 0.
pub record Folded (s t : ℕ) : Type 0 where
  pub small : t < 2 ^ 16
  pub same : t % 65535 ≡ s % 65535
  pub zero_same : BothZero s t

fold_done : (fuel s : ℕ) → s < 2 ^ 16 → fold_sum fuel s ≡ s
unfolding fold_sum
fold_done zero s h = refl
fold_done (suc fuel) s h = ground arith

fold_more :
    (fuel s : ℕ)
    → fold_sum (suc fuel) s
      ≡ (if s / 2 ^ 16 == 0 then s else fold_sum fuel (s % 2 ^ 16 + s / 2 ^ 16))
unfolding fold_sum
fold_more fuel s = rw (bit_and-mask 16 s)

fold_step :
    (fuel s : ℕ)
    → Folded (s % 2 ^ 16 + s / 2 ^ 16) (fold_sum fuel (s % 2 ^ 16 + s / 2 ^ 16))
    → Folded s (fold_sum (suc fuel) s)
fold_step fuel s f = elim (Bool-cases (s / 2 ^ 16 == 0)) [
  | inl done ↦
      rw (fold_more fuel s, done)
        (record { small = ground arith; same = refl; zero_same = omega arith })
  | inr more ↦
      rw (fold_more fuel s, more)
        (record {
          small = f.small;
          same = f.same ∙ (fold_round s).0;
          zero_same = omega (arith, f.zero_same, (fold_round s).1);
        })
]

fold_last : (fuel s : ℕ) → s < 2 ^ 16 → Folded s (fold_sum fuel s)
fold_last fuel s h =
    rw (fold_done fuel s h) (record { small = h; same = refl; zero_same = omega arith })

-- Three rounds are enough for a sum of 32 bits.
pub fold_sum_lem : (s : ℕ) → s < 2 ^ 32 → Folded s (fold_sum fold_fuel s)
fold_sum_lem s h = fold_step 3 s (fold_step 2 _ (fold_step 1 _ (fold_last 1 _ (omega arith))))

-- The sum of the 16-bit words of the data, big-endian, with no wrap-around.
abbrev pub words_total : List ℕ → ℕ
words_total [] = 0
words_total (b ∷ []) = b * 256
words_total (b0 ∷ b1 ∷ bytes) = b0 * 256 + b1 + words_total bytes

abbrev pub IsBytes : List ℕ → Type 0
IsBytes [] = Unit {0}
IsBytes (b ∷ bytes) = (b < 256) × IsBytes bytes

-- Data that ends at a word.
abbrev pub IsEven : List ℕ → Type 0
IsEven [] = Unit {0}
IsEven (b ∷ []) = ⊥
IsEven (b0 ∷ b1 ∷ bytes) = IsEven bytes

words_total-le : (bytes : List ℕ) → IsBytes bytes → words_total bytes ≤ 65535 * length bytes
words_total-le [] h = omega arith
words_total-le (b ∷ []) h = omega arith
words_total-le (b0 ∷ b1 ∷ bytes) h = omega (arith, words_total-le bytes h.1.1)

sum_words-total :
    (bytes : List ℕ) (sum : ℕ)
    → IsBytes bytes
    → sum + 65535 * length bytes < 2 ^ 32
    → sum_words sum bytes ≡ sum + words_total bytes
unfolding sum_words
sum_words-total [] sum h fits = omega arith
sum_words-total (b ∷ []) sum h fits = omega arith
sum_words-total (b0 ∷ b1 ∷ bytes) sum h fits =
    let e : (sum + bit_or (b0 * 2 ^ 8) b1) % 2 ^ 32 ≡ sum + (b0 * 256 + b1) =
      omega (arith, bit_or-fields 8 b0 b1 h.1.0) in
    rw e (sum_words-total bytes (sum + (b0 * 256 + b1)) h.1.1 (omega arith) ∙ omega arith)

-- The sum over the first words is the initial sum of the others.
pub sum_words-append :
    (xs ys : List ℕ) (sum : ℕ)
    → IsBytes xs
    → IsEven xs
    → sum + 65535 * length xs < 2 ^ 32
    → sum_words sum (xs ++ ys) ≡ sum_words (sum + words_total xs) ys
unfolding sum_words
sum_words-append [] ys sum h even fits = ap (λ n. sum_words n ys) (omega arith)
sum_words-append (b ∷ []) ys sum h even fits = elim even [ ]
sum_words-append (b0 ∷ b1 ∷ xs) ys sum h even fits =
    let e : (sum + bit_or (b0 * 2 ^ 8) b1) % 2 ^ 32 ≡ sum + (b0 * 256 + b1) =
      omega (arith, bit_or-fields 8 b0 b1 h.1.0) in
    rw e (
      sum_words-append xs ys (sum + (b0 * 256 + b1)) h.1.1 even (omega arith)
      ∙ ap (λ n. sum_words n ys) (omega arith))

words_total-append :
    (xs ys : List ℕ) → IsEven xs → words_total (xs ++ ys) ≡ words_total xs + words_total ys
words_total-append [] ys h = omega arith
words_total-append (b ∷ []) ys h = elim h [ ]
words_total-append (b0 ∷ b1 ∷ xs) ys h = omega (arith, words_total-append xs ys h)

IsBytes-append : (xs ys : List ℕ) → IsBytes xs → IsBytes ys → IsBytes (xs ++ ys)
IsBytes-append [] ys h k = k
IsBytes-append (b ∷ xs) ys h k = (h.0, IsBytes-append xs ys h.1 k)

-- The checksum is the complement of the folded sum.
checksum_lem :
    (bytes : List ℕ) (initial : ℕ)
    → IsBytes bytes
    → initial + 65535 * length bytes < 2 ^ 32
    → (f : ℕ) × (net_checksum bytes initial ≡ 65535 - f) × Folded (initial + words_total bytes) f
unfolding net_checksum
checksum_lem bytes initial h fits =
    let e = sum_words-total bytes initial h fits in
    (
      fold_sum fold_fuel (initial + words_total bytes),
      rw e refl,
      fold_sum_lem _ (omega (arith, words_total-le bytes h)),
    )

-- A message of at most 65000 bytes whose 16-bit checksum field holds 0, and a sum of at most
-- 2 ^ 20 over a pseudo-header: once the field holds the checksum, high byte first, the checksum of
-- the whole is 0, which is what a receiver tests.
pub checksum_verifies :
    (xs ys : List ℕ) (initial : ℕ)
    → IsBytes xs
    → IsBytes ys
    → IsEven xs
    → length xs + length ys ≤ 65000
    → initial ≤ 2 ^ 20
    → let c = net_checksum (xs ++ (0 ∷ 0 ∷ ys)) initial in
      net_checksum (xs ++ ((c / 256) ∷ (c % 256) ∷ ys)) initial ≡ 0
checksum_verifies xs ys initial hx hy even fits small =
    let c = net_checksum (xs ++ (0 ∷ 0 ∷ ys)) initial in
    let (f, is_c, folded) =
      checksum_lem (xs ++ (0 ∷ 0 ∷ ys)) initial
        (IsBytes-append xs (0 ∷ 0 ∷ ys) hx (omega arith, (omega arith, hy)))
        (omega (arith, length-append xs (0 ∷ 0 ∷ ys))) in
    let (g, is_last, folded') =
      checksum_lem (xs ++ ((c / 256) ∷ (c % 256) ∷ ys)) initial
        (IsBytes-append xs ((c / 256) ∷ (c % 256) ∷ ys) hx (omega arith, (omega arith, hy)))
        (omega (arith, length-append xs ((c / 256) ∷ (c % 256) ∷ ys))) in
    omega (
      arith,
      words_total-append xs (0 ∷ 0 ∷ ys) even,
      words_total-append xs ((c / 256) ∷ (c % 256) ∷ ys) even,
    )
