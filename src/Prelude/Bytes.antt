-- ===== src/Prelude/Bytes.antt =====
-- Memory as a function from addresses to bytes, the copy and fill loops over it, and C strings.
use Prim.Native.Nat.{ℕ, zero, suc, ◌+◌, ◌-◌, ◌<◌}
use Prim.Native.Char.{code}
use Prim.Native.String.{String}
use mathlib.Core.Path.{◌≡◌, ap}
use mathlib.Core.Bool.{Bool, ◌&&◌}
use mathlib.Core.List.{List, [], ◌∷◌}
use native.Mathlib.Omega.{arith}
use piux_kernel.Prelude.Tests.{◌==◌, if◌then◌else◌, ltb, leb}
use piux_kernel.Prelude.Lists.{get_or}

-- The bytes of a buffer, by index.
abbrev pub Buffer : Type 0
Buffer = ℕ → ℕ

-- Every element is a byte.
abbrev pub AreBytes : Buffer → Type 0
AreBytes b = (i : ℕ) → b i < 256

abbrev pub update : Buffer → ℕ → ℕ → Buffer
update m p v q = if p == q then v else m q

-- for (i = 0; i < n; i++) dst[d + i] = src[s + i];
unfoldable pub copy_bytes : ℕ → Buffer → ℕ → Buffer → ℕ → Buffer
copy_bytes zero dst d src s = dst
copy_bytes (suc n) dst d src s = copy_bytes n (update dst d (src s)) (d + 1) src (s + 1)

-- for (i = 0; i < n; i++) dst[d + i] = v;
unfoldable pub fill_bytes : ℕ → Buffer → ℕ → ℕ → Buffer
fill_bytes zero dst d v = dst
fill_bytes (suc n) dst d v = fill_bytes n (update dst d v) (d + 1) v

abbrev pub within : ℕ → ℕ → ℕ → Bool
within lo n k = leb lo k && ltb k (lo + n)

pub copy_bytes_lem :
    (n : ℕ) (dst : Buffer) (d : ℕ) (src : Buffer) (s k : ℕ)
    → copy_bytes n dst d src s k ≡ (if within d n k then src (s + (k - d)) else dst k)
unfolding copy_bytes
copy_bytes_lem zero dst d src s k = ground arith
copy_bytes_lem (suc n) dst d src s k =
    ground (arith, copy_bytes_lem n (update dst d (src s)) (d + 1) src (s + 1) k, next, first)
  where
    next : d < k → src (s + 1 + (k - (d + 1))) ≡ src (s + (k - d))
    next h = ap src (omega arith)

    first : d ≡ k → src (s + (k - d)) ≡ src s
    first h = ap src (omega arith)

pub fill_bytes_lem :
    (n : ℕ) (dst : Buffer) (d v k : ℕ)
    → fill_bytes n dst d v k ≡ (if within d n k then v else dst k)
unfolding fill_bytes
fill_bytes_lem zero dst d v k = ground arith
fill_bytes_lem (suc n) dst d v k = ground (arith, fill_bytes_lem n (update dst d v) (d + 1) v k)

-- A C string is the list of the bytes in front of its terminator: `text[i]` is `char_at text i`,
-- and the read at the end gives the terminator.
abbrev pub CString : Type 0
CString = List ℕ

abbrev pub char_at : CString → ℕ → ℕ
char_at text i = get_or text i 0

-- The bytes of a literal.
abbrev pub codes : String → CString
codes String.[] = []
codes (String.◌∷◌ c s) = code c ∷ codes s
