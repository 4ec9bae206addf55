-- ===== src/Prelude/Fields.antt =====
-- Numbers in memory, with the low byte first.
use Prim.Native.Nat.{ℕ, zero, suc, ◌+◌, ◌*◌, ◌/◌, ◌%◌, ◌^◌, ◌<◌, ◌≤◌}
use mathlib.Core.Path.{◌≡◌, ap, ◌∙◌}
use mathlib.Core.Logic.{◌⊎◌}
use mathlib.Core.List.{List, [], ◌∷◌, ◌++◌}
use native.Mathlib.Omega.{arith}
use piux_kernel.Prelude.Lists.{get_or, length}
use piux_kernel.Prelude.Bytes.{Buffer, update}

abbrev pub load16 : Buffer → ℕ → ℕ
load16 b i = b i + b (i + 1) * 2 ^ 8

abbrev pub load32 : Buffer → ℕ → ℕ
load32 b i = b i + b (i + 1) * 2 ^ 8 + b (i + 2) * 2 ^ 16 + b (i + 3) * 2 ^ 24

abbrev pub put16 : Buffer → ℕ → ℕ → Buffer
put16 b i v = update (update b i (v % 2 ^ 8)) (i + 1) (v / 2 ^ 8 % 2 ^ 8)

abbrev pub put32 : Buffer → ℕ → ℕ → Buffer
put32 b i v =
    update
      (update (update (update b i (v % 2 ^ 8)) (i + 1) (v / 2 ^ 8 % 2 ^ 8)) (i + 2)
        (v / 2 ^ 16 % 2 ^ 8))
      (i + 3) (v / 2 ^ 24 % 2 ^ 8)

pub stored16 : (v : ℕ) → v < 2 ^ 16 → v % 2 ^ 8 + v / 2 ^ 8 % 2 ^ 8 * 2 ^ 8 ≡ v
stored16 v h = omega arith

pub stored32 :
    (v : ℕ)
    → v < 2 ^ 32
    → v % 2 ^ 8
        + v / 2 ^ 8 % 2 ^ 8 * 2 ^ 8
        + v / 2 ^ 16 % 2 ^ 8 * 2 ^ 16
        + v / 2 ^ 24 % 2 ^ 8 * 2 ^ 24
      ≡ v
stored32 v h = omega arith

pub load16-put16 : (b : Buffer) (i v : ℕ) → v < 2 ^ 16 → load16 (put16 b i v) i ≡ v
load16-put16 b i v h = ground (arith, stored16 v h)

pub load32-put32 : (b : Buffer) (i v : ℕ) → v < 2 ^ 32 → load32 (put32 b i v) i ≡ v
load32-put32 b i v h = ground (arith, stored32 v h)

-- A byte outside the field is kept.
pub put16_other : (b : Buffer) (i v j : ℕ) → (j < i) ⊎ (i + 2 ≤ j) → put16 b i v j ≡ b j
put16_other b i v j h = ground arith

pub put32_other : (b : Buffer) (i v j : ℕ) → (j < i) ⊎ (i + 4 ≤ j) → put32 b i v j ≡ b j
put32_other b i v j h = ground arith

-- A field of two or four bytes in a list.
abbrev pub store16 : ℕ → List ℕ
store16 v = v % 2 ^ 8 ∷ v / 2 ^ 8 % 2 ^ 8 ∷ []

abbrev pub store32 : ℕ → List ℕ
store32 v = v % 2 ^ 8 ∷ v / 2 ^ 8 % 2 ^ 8 ∷ v / 2 ^ 16 % 2 ^ 8 ∷ v / 2 ^ 24 % 2 ^ 8 ∷ []

-- A list in memory.
abbrev pub in_memory : List ℕ → Buffer
in_memory bytes i = get_or bytes i 0

pub get_or-behind : (xs ys : List ℕ) (i : ℕ) → get_or (xs ++ ys) (length xs + i) 0 ≡ get_or ys i 0
get_or-behind [] ys i = ap (λ j. get_or ys j 0) zero_plus
  where
    zero_plus : 0 + i ≡ i
    zero_plus = omega arith
get_or-behind (x ∷ xs) ys i = ap (λ j. get_or (x ∷ (xs ++ ys)) j 0) next ∙ get_or-behind xs ys i
  where
    next : length (x ∷ xs) + i ≡ suc (length xs + i)
    next = omega arith

-- The list of `n` bytes at an offset.
unfoldable pub list_at : ℕ → Buffer → ℕ → List ℕ
list_at zero b o = []
list_at (suc n) b o = b o ∷ list_at n b (o + 1)
