-- ===== src/Prelude/Steps.antt =====
-- Steps over a state that may fail; a step that fails may have changed the state before.
use mathlib.Core.Bool.{Bool, true, false}
use mathlib.Core.Option.{Option, none, some}

abbrev pub Fallible : Type 0 → Type 0 → Type 0
Fallible S A = S → Option A × S

abbrev pub after : {S A B : Type 0} → (A → Fallible S B) → Option A × S → Option B × S
after f (none, s) = (none, s)
after f (some a, s) = f a s

infixl 5 ◌>>=◌ ◌>>◌
abbrev pub ◌>>=◌ : {S A B : Type 0} → Fallible S A → (A → Fallible S B) → Fallible S B
◌>>=◌ m f s = after f (m s)

abbrev pub ◌>>◌ : {S B : Type 0} → Fallible S (Unit {0}) → Fallible S B → Fallible S B
◌>>◌ m k s = after (λ _. k) (m s)

abbrev pub pure : {S A : Type 0} → A → Fallible S A
pure a s = (some a, s)

abbrev pub fail : {S A : Type 0} → Fallible S A
fail s = (none, s)

abbrev pub get_state : {S : Type 0} → Fallible S S
get_state s = (some s, s)

abbrev pub put_state : {S : Type 0} → S → Fallible S (Unit {0})
put_state s' s = (some tt, s')

abbrev pub guard : {S : Type 0} → Bool → Fallible S (Unit {0})
guard true s = (some tt, s)
guard false s = (none, s)

-- The result as a value: the step goes on where `m` fails.
abbrev pub attempt : {S A : Type 0} → Fallible S A → Fallible S (Option A)
attempt m s = (some (m s).0, (m s).1)
