-- ===== src/Keyboard/Tests.antt =====
-- Runs of kernel/keyboard.c.
use piux_kernel.Prelude.{ℕ, ◌≡◌, refl, arith, [], ◌∷◌, pos, some, false}
use piux_kernel.Keyboard.{
  us, Keyboard, take_scancode, keyboard_read_char, keyboard_try_read_char, press_key, release_key,
  character_key, plain_key,
}
use piux_kernel.Keyboard.Decode.{take_all, held, modifiers_held}
use piux_kernel.Keyboard.Characters.{IsKey, take_scancode-IsKey}

abbrev idle : Keyboard
idle = record {
  current_layout = us;
  shift_pressed = false;
  ctrl_pressed = false;
  alt_pressed = false;
  last_scancode = 0;
  extended_scancode = false;
}

abbrev memory : ℕ → ℕ
memory n = n

modifiers_held_example :
    let k' = take_all memory (0x2a ∷ 0x1e ∷ 0xe0 ∷ 0xaa ∷ 0x1d ∷ []) idle in
    (k'.shift_pressed ≡ held 0x2a 0x36 false false (0x2a ∷ 0x1e ∷ 0xe0 ∷ 0xaa ∷ 0x1d ∷ []))
    × (k'.ctrl_pressed ≡ held 0x1d 0x1d false false (0x2a ∷ 0x1e ∷ 0xe0 ∷ 0xaa ∷ 0x1d ∷ []))
    × (k'.alt_pressed ≡ held 0x38 0x38 false false (0x2a ∷ 0x1e ∷ 0xe0 ∷ 0xaa ∷ 0x1d ∷ []))
modifiers_held_example =
    modifiers_held memory (0x2a ∷ 0x1e ∷ 0xe0 ∷ 0xaa ∷ 0x1d ∷ []) idle (omega arith)

take_scancode-IsKey_example : IsKey (take_scancode memory 0x39 idle).0
take_scancode-IsKey_example = take_scancode-IsKey memory 0x39 idle (omega arith) (omega arith)

-- The `a` of the second try, after nothing and after the release of another key.
run_read :
    keyboard_read_char memory
      (record { status = 0; status_again = 0; scancode = 0 }
        ∷ record { status = 1; status_again = 1; scancode = 0x9e }
        ∷ record { status = 1; status_again = 1; scancode = 0x1e }
        ∷ [])
      idle
    ≡ some (pos b'a', record idle { last_scancode = 0x1e })
unfolding keyboard_read_char keyboard_try_read_char take_scancode release_key press_key
    character_key plain_key
run_read = refl
