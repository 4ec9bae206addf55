-- ===== src/Ext2/Bits.antt =====
-- The bits of the bitmaps of kernel/ext2.c: which one is taken, and what setting and clearing does.
use piux_kernel.Prelude.{
  ℕ, zero, suc, ◌+◌, ◌-◌, ◌*◌, ◌/◌, ◌%◌, ◌^◌, ◌<◌, ◌≤◌, ◌≡◌, ◌≢◌, ◌⊎◌, ◌∙◌, inl, inr, refl, sym, ap,
  subst, Bool, true, false, ◌&&◌, not, ltb, ◌==◌, if◌then◌else◌, Option, none, some, bit_and,
  bit_or, Buffer, AreBytes, update, arith, Bool-cases, ==_iff, holds_to, look_up, le_cases,
}
use piux_kernel.Ext2.Bitmaps.{bit_is_set, set_bit, clear_bit, first_clear}

same : Bool → Bool → Bool
same a b = if a then b else not b

-- One bit of a byte.
abbrev in_byte : ℕ → ℕ → Bool
in_byte x i = not (bit_and x (2 ^ i) == 0)

-- Setting bit `i` of the byte `x`, and clearing it, seen at bit `j`.
abbrev byte_ok : ℕ → ℕ → ℕ → Bool
byte_ok i j x =
    same (in_byte (bit_or x (2 ^ i)) j) (if i == j then true else in_byte x j)
    && same (in_byte (bit_and x (255 - 2 ^ i)) j) (if i == j then false else in_byte x j)
    && ltb (bit_or x (2 ^ i)) 256
    && ltb (bit_and x (255 - 2 ^ i)) 256

abbrev bytes_ok : ℕ → Bool
bytes_ok n = byte_ok (n / 8 % 8) (n % 8) (n / 64)

table : holds_to bytes_ok 16384 ≡ true
unfolding holds_to same
table = refl

place : (x i j : ℕ) → x < 256 → i < 8 → j < 8 → byte_ok i j x ≡ true
place x i j hx hi hj =
    at (x * 64 + i * 8 + j) (omega arith) (omega arith) (omega arith)
      (look_up bytes_ok {bound = 16384} table (omega arith))
  where
    at : (n : ℕ) → n / 8 % 8 ≡ i → n % 8 ≡ j → n / 64 ≡ x → bytes_ok n ≡ true → byte_ok i j x ≡ true
    at n ei ej ex h =
        ap (λ m. byte_ok m j x) (sym ei)
        ∙ ap (λ m. byte_ok (n / 8 % 8) m x) (sym ej)
        ∙ ap (λ m. byte_ok (n / 8 % 8) (n % 8) m) (sym ex)
        ∙ h

same-eq : (a b : Bool) → same a b ≡ true → a ≡ b
unfolding same
same-eq a b h = ground arith

four_true :
    (a b c d : Bool) → (a && b && c && d) ≡ true → (a ≡ true) × (b ≡ true) × (c ≡ true) × (d ≡ true)
four_true a b c d h = ground arith

byte_set :
    (x i j : ℕ)
    → x < 256
    → i < 8
    → j < 8
    → (in_byte (bit_or x (2 ^ i)) j ≡ (if i == j then true else in_byte x j))
      × (in_byte (bit_and x (255 - 2 ^ i)) j ≡ (if i == j then false else in_byte x j))
      × (bit_or x (2 ^ i) < 256)
byte_set x i j hx hi hj =
    let (sets, clears, low, low') =
      four_true (same (in_byte (bit_or x (2 ^ i)) j) (if i == j then true else in_byte x j))
        (same (in_byte (bit_and x (255 - 2 ^ i)) j) (if i == j then false else in_byte x j))
        (ltb (bit_or x (2 ^ i)) 256) (ltb (bit_and x (255 - 2 ^ i)) 256) (place x i j hx hi hj) in
    (
      same-eq (in_byte (bit_or x (2 ^ i)) j) (if i == j then true else in_byte x j) sets,
      same-eq (in_byte (bit_and x (255 - 2 ^ i)) j) (if i == j then false else in_byte x j) clears,
      ground arith,
    )

same_byte : (a b : ℕ) → (a / 8 ≡ b / 8) ⊎ (a / 8 ≢ b / 8)
same_byte a b = ground arith

bits_eq : (a b : ℕ) → a / 8 ≡ b / 8 → (a == b) ≡ (a % 8 == b % 8)
bits_eq a b h = ground arith

bits_ne : (a b : ℕ) → a / 8 ≢ b / 8 → (a == b) ≡ false
bits_ne a b h = ground arith

self_test : (n : ℕ) → (n == n) ≡ true
self_test n = ground arith

update_ne : (b : Buffer) (i v j : ℕ) → i ≢ j → update b i v j ≡ b j
update_ne b i v j h = ground arith

set_bit_lem :
    (b : Buffer) (bit other : ℕ)
    → AreBytes b
    → bit_is_set (set_bit b bit) other ≡ (if bit == other then true else bit_is_set b other)
set_bit_lem b bit other h = elim (same_byte bit other) [
  | inl e ↦
      rw (bits_eq bit other e, ← e, self_test (bit / 8))
        ((byte_set (b (bit / 8)) (bit % 8) (other % 8) (h (bit / 8)) (omega arith) (omega arith)).0)
  | inr ne ↦
      rw
        (
          bits_ne bit other ne,
          update_ne b (bit / 8) (bit_or (b (bit / 8)) (2 ^ (bit % 8))) (other / 8) ne,
        )
        refl
]

clear_bit_lem :
    (b : Buffer) (bit other : ℕ)
    → AreBytes b
    → bit_is_set (clear_bit b bit) other ≡ (if bit == other then false else bit_is_set b other)
clear_bit_lem b bit other h = elim (same_byte bit other) [
  | inl e ↦
      rw (bits_eq bit other e, ← e, self_test (bit / 8))
        ((byte_set (b (bit / 8)) (bit % 8) (other % 8) (h (bit / 8)) (omega arith) (omega arith)).1)
  | inr ne ↦
      rw
        (
          bits_ne bit other ne,
          update_ne b (bit / 8) (bit_and (b (bit / 8)) (255 - 2 ^ (bit % 8))) (other / 8) ne,
        )
        refl
]

set_bit-AreBytes : (b : Buffer) (bit : ℕ) → AreBytes b → AreBytes (set_bit b bit)
set_bit-AreBytes b bit h i =
    ground
      (arith, h i, (byte_set (b (bit / 8)) (bit % 8) 0 (h (bit / 8)) (omega arith) (omega arith)).2)

-- The loop finds the lowest clear bit of the range, and no bit only if none is clear.
abbrev pub IsFirstClear : ℕ → ℕ → Buffer → Option ℕ → Type 0
IsFirstClear left bit b none = (j : ℕ) → bit ≤ j → j < bit + left → bit_is_set b j ≡ true
IsFirstClear left bit b (some n) =
    (bit ≤ n)
    × (n < bit + left)
    × (bit_is_set b n ≡ false)
    × ((j : ℕ) → bit ≤ j → j < n → bit_is_set b j ≡ true)

first_clear-IsFirstClear :
    (left bit : ℕ) (b : Buffer) → IsFirstClear left bit b (first_clear left bit b)
unfolding first_clear
first_clear-IsFirstClear zero bit b = λ j lo hi. absurd (omega arith)
first_clear-IsFirstClear (suc left) bit b = elim (Bool-cases (bit_is_set b bit)) [
  | inl e ↦
      rw e (extend (first_clear left (bit + 1) b) e (first_clear-IsFirstClear left (bit + 1) b))
  | inr e ↦ rw e (omega arith, omega arith, e, λ j lo hi. absurd (omega arith))
]
  where
    here :
        bit_is_set b bit ≡ true
        → (j : ℕ) → bit ≤ j
        → (bit + 1 ≤ j → bit_is_set b j ≡ true)
        → bit_is_set b j ≡ true
    here e j lo later = elim (le_cases bit j lo) [
      | inl same ↦ ap (bit_is_set b) (sym same) ∙ e
      | inr less ↦ later less
    ]

    extend :
        (found : Option ℕ)
        → bit_is_set b bit ≡ true
        → IsFirstClear left (bit + 1) b found
        → IsFirstClear (suc left) bit b found
    extend none e h = λ j lo hi. here e j lo (λ less. h j less (omega arith))
    extend (some k) e (lo, hi, clear, below) =
        (omega arith, omega arith, clear, λ j lo' hi'. here e j lo' (λ less. below j less hi'))

-- Of a bitmap of bytes, the allocation takes the lowest clear bit of its range; setting it sets
-- that bit alone, and clearing it again gives every bit back as it was.
pub bitmap_take :
    (left bit n : ℕ) (b : Buffer)
    → AreBytes b
    → first_clear left bit b ≡ some n
    → IsFirstClear left bit b (some n)
      × ((j : ℕ) → bit_is_set (set_bit b n) j ≡ (if n == j then true else bit_is_set b j))
      × ((j : ℕ) → bit_is_set (clear_bit (set_bit b n) n) j ≡ bit_is_set b j)
bitmap_take left bit n b h e =
    let found = subst (IsFirstClear left bit b) e (first_clear-IsFirstClear left bit b) in
    (
      found,
      λ j. set_bit_lem b n j h,
      λ j.
          clear_bit_lem (set_bit b n) n j (set_bit-AreBytes b n h)
          ∙ rw (set_bit_lem b n j h) (back j (found.2)),
    )
  where
    back :
        (j : ℕ)
        → bit_is_set b n ≡ false
        → (if n == j then false else (if n == j then true else bit_is_set b j)) ≡ bit_is_set b j
    back j clear = elim (Bool-cases (n == j)) [
      | inl e' ↦ rw e' (sym (ap (bit_is_set b) (sym ((==_iff n j).0 e')) ∙ clear))
      | inr e' ↦ rw e' refl
    ]
