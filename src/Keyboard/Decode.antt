-- ===== src/Keyboard/Decode.antt =====
-- What scancodes are decoded to, and which modifiers are held.
use piux_kernel.Prelude.{
  ℕ, ◌+◌, ◌<◌, ◌≡◌, refl, Bool, true, false, ◌||◌, ◌==◌, if◌then◌else◌, List, [], ◌∷◌, arith,
}
use piux_kernel.Keyboard.{Keyboard, release_key, press_key, take_scancode}

-- The scancodes of a sequence, one after the other.
abbrev pub take_all : (ℕ → ℕ) → List ℕ → Keyboard → Keyboard
take_all beyond [] k = k
take_all beyond (c ∷ codes) k = take_all beyond codes (take_scancode beyond c k).1

-- Whether one of the keys with the codes `a` and `b` is held: the last of their presses and
-- releases counts, and a code behind the prefix 0xE0 is another key's.
abbrev pub held : ℕ → ℕ → Bool → Bool → List ℕ → Bool
held a b extended now [] = now
held a b extended now (c ∷ codes) =
    held a b (c == 0xe0)
      (if c == 0xe0 || extended
        then now
        else if c == a || c == b
        then true
        else if c == a + 0x80 || c == b + 0x80
        then false
        else now)
      codes

abbrev pub IsScancodes : List ℕ → Type 0
IsScancodes [] = Unit {0}
IsScancodes (c ∷ codes) = (c < 256) × IsScancodes codes

-- The modifiers that a state holds.
abbrev Modifiers : Keyboard → Bool → Bool → Bool → Bool → Type 0
Modifiers k extended shift ctrl alt =
    (k.extended_scancode ≡ extended)
    × (k.shift_pressed ≡ shift)
    × (k.ctrl_pressed ≡ ctrl)
    × (k.alt_pressed ≡ alt)

abbrev turn : ℕ → ℕ → ℕ → Bool → Bool → Bool
turn a b c extended now =
    if c == 0xe0 || extended
    then now
    else if c == a || c == b
    then true
    else if c == a + 0x80 || c == b + 0x80
    then false
    else now

module _ (beyond : ℕ → ℕ) (c : ℕ) (k : Keyboard) (h : c < 256) where
  turn_extended : (take_scancode beyond c k).1.extended_scancode ≡ (c == 0xe0)
  unfolding take_scancode press_key release_key
  turn_extended = ground arith

  turn_shift :
      (take_scancode beyond c k).1.shift_pressed
      ≡ turn 0x2a 0x36 c k.extended_scancode k.shift_pressed
  unfolding take_scancode press_key release_key
  turn_shift = ground arith

  turn_ctrl :
      (take_scancode beyond c k).1.ctrl_pressed
      ≡ turn 0x1d 0x1d c k.extended_scancode k.ctrl_pressed
  unfolding take_scancode press_key release_key
  turn_ctrl = ground arith

  turn_alt :
      (take_scancode beyond c k).1.alt_pressed ≡ turn 0x38 0x38 c k.extended_scancode k.alt_pressed
  unfolding take_scancode press_key release_key
  turn_alt = ground arith

-- After any sequence of bytes from the keyboard, the shift, control and alt flags say whether such
-- a key is held: whether the last press or release of one of them was a press, where the codes
-- behind a prefix 0xE0 do not count.
pub modifiers_held :
    (beyond : ℕ → ℕ) (codes : List ℕ) (k : Keyboard)
    → IsScancodes codes
    → let k' = take_all beyond codes k in
      (k'.shift_pressed ≡ held 0x2a 0x36 k.extended_scancode k.shift_pressed codes)
      × (k'.ctrl_pressed ≡ held 0x1d 0x1d k.extended_scancode k.ctrl_pressed codes)
      × (k'.alt_pressed ≡ held 0x38 0x38 k.extended_scancode k.alt_pressed codes)
modifiers_held beyond [] k h = (refl, refl, refl)
modifiers_held beyond (c ∷ codes) k h =
    rw
      (
        ← turn_shift beyond c k h.0,
        ← turn_ctrl beyond c k h.0,
        ← turn_alt beyond c k h.0,
        ← turn_extended beyond c k h.0,
      )
      (modifiers_held beyond codes (take_scancode beyond c k).1 h.1)
