-- ===== src/Prelude/Bits.antt =====
-- `|` of fields that do not overlap, and `&` with a mask of low bits, as arithmetic.
use Prim.Native.Nat.{
  ℕ, zero, suc, ◌+◌, ◌-◌, ◌*◌, ◌/◌, ◌%◌, ◌^◌, ◌≤◌, ◌<◌, min, max, bit_and, bit_or, digits, bitwise,
  bit_and-bitwise, bit_or-bitwise,
}
use native.Mathlib.Nat.{pow-suc, one-le-pow, div-div-eq-div-mul, div-add-mod}
use mathlib.Core.Path.{◌≡◌, refl, ap, ◌∙◌}
use native.Mathlib.Omega.{arith}

-- Both operations are one recursion over the binary digits of the first number, with as many
-- rounds as that number; any number of rounds that is not smaller gives the same.
module _ (rest : ℕ → ℕ) (join : ℕ → ℕ → ℕ) where
  more_rounds :
      (few extra x y : ℕ) → x ≤ few → digits rest join (few + extra) x y ≡ digits rest join few x y
  more_rounds few extra zero y h = at_zero (few + extra) few
    where
      at_zero : (r s : ℕ) → digits rest join r 0 y ≡ digits rest join s 0 y
      at_zero zero zero = refl
      at_zero zero (suc s) = refl
      at_zero (suc r) zero = refl
      at_zero (suc r) (suc s) = refl
  more_rounds zero extra (suc x) y h = elim h [ ]
  more_rounds (suc few) extra (suc x) y h =
      let one_more : suc few + extra ≡ suc (few + extra) = omega arith in
      rw one_more (rw (more_rounds few extra (suc x / 2) (y / 2) (omega arith)))

  -- The lowest digit of the result, and the digits above it.
  split_digit :
      (x y : ℕ)
      → bitwise rest join (suc x) y
        ≡ bitwise rest join (suc x / 2) (y / 2) * 2 + join (suc x % 2) (y % 2)
  split_digit x y =
      let half = suc x / 2 in
      let rounds : half + (x - half) ≡ x = omega arith in
      omega (arith, rw rounds at (more_rounds half (x - half) half (y / 2) (omega arith)))

or_split : (x y : ℕ) → bit_or x y ≡ bit_or (x / 2) (y / 2) * 2 + max (x % 2) (y % 2)
or_split (suc x) y = simp bit_or-bitwise (split_digit (λ d. d) max x y)
or_split zero y = simp bit_or-bitwise (omega arith)

and_split : (x y : ℕ) → bit_and x y ≡ bit_and (x / 2) (y / 2) * 2 + min (x % 2) (y % 2)
and_split (suc x) y = simp bit_and-bitwise (split_digit (λ d. 0) min x y)
and_split zero y = simp bit_and-bitwise (omega arith)

-- Against 0, for numbers below a bound.
with_zero : (bound x : ℕ) → x < bound → (bit_or x 0 ≡ x) × (bit_and x 0 ≡ 0)
with_zero zero x h = elim h [ ]
with_zero (suc bound) zero h = (refl, refl)
with_zero (suc bound) (suc x) h =
    let (above_or, above_and) = with_zero bound (suc x / 2) (omega arith) in
    (omega (arith, or_split (suc x) 0), omega (arith, and_split (suc x) 0))

double : (q k : ℕ) → q * 2 ^ suc k ≡ 2 * (q * 2 ^ k)
double q k = omega (arith, ap (λ (t : ℕ). q * t) (pow-suc 2 k))

-- `(q << k) | r`, for `r` of at most `k` bits.
pub bit_or-fields : (k q r : ℕ) → r < 2 ^ k → bit_or (q * 2 ^ k) r ≡ q * 2 ^ k + r
bit_or-fields zero q r h = ground (arith, (with_zero (suc q) q (omega arith)).0)
bit_or-fields (suc k) q r h =
    ground (arith, or_split (q * 2 ^ suc k) r, double q k, pow-suc 2 k, bit_or-fields k q (r / 2))

-- The same, for a number with its `k` low bits clear.
pub bit_or-low : (k x r : ℕ) → x % 2 ^ k ≡ 0 → r < 2 ^ k → bit_or x r ≡ x + r
bit_or-low k x r z h =
    let e : x ≡ x / 2 ^ k * 2 ^ k = omega (arith, div-add-mod x (2 ^ k)) in
    rw e (bit_or-fields k (x / 2 ^ k) r h)

and_low : (k q r : ℕ) → r < 2 ^ k → bit_and (q * 2 ^ k + r) (2 ^ k - 1) ≡ r
and_low zero q r h =
    omega (arith, (with_zero (suc (q * 2 ^ 0 + r)) (q * 2 ^ 0 + r) (omega arith)).1)
and_low (suc k) q r h = ground (
  arith,
  and_split (q * 2 ^ suc k + r) (2 ^ suc k - 1),
  double q k,
  pow-suc 2 k,
  one-le-pow k 2,
  and_low k q (r / 2),
)

-- `a & (2^k - 1)`.
pub bit_and-mask : (k a : ℕ) → bit_and a (2 ^ k - 1) ≡ a % 2 ^ k
bit_and-mask k a = ground (arith, one-le-pow k 2, and_low k (a / 2 ^ k) (a % 2 ^ k))

div_double : (a k : ℕ) → a / 2 / 2 ^ k ≡ a / 2 ^ suc k
div_double a k = div-div-eq-div-mul a 2 (2 ^ k) ∙ ap (λ t. a / t) (omega (arith, pow-suc 2 k))

half_double : (x : ℕ) → (2 * x / 2 ≡ x) × (2 * x % 2 ≡ 0)
half_double x = (omega arith, omega arith)

-- `a & (m << k)`.
pub bit_and-shift : (k a m : ℕ) → bit_and a (m * 2 ^ k) ≡ bit_and (a / 2 ^ k) m * 2 ^ k
bit_and-shift zero a m = ground arith
bit_and-shift (suc k) a m = ground (
  arith,
  and_split a (m * 2 ^ suc k),
  double m k,
  half_double (m * 2 ^ k),
  bit_and-shift k (a / 2) m,
  div_double a k,
  double (bit_and (a / 2 ^ suc k) m) k,
)
