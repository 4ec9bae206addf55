-- ===== src/Keyboard.antt =====
-- kernel/keyboard.c and kernel/keyboard.h: scancodes of set 1 are decoded to characters, with the
-- modifiers kept between calls. What the ports give is an argument, and so is what the memory
-- behind the tables holds, which two scancodes read.
pub mod Layouts
pub mod Config
pub mod Characters
pub mod Decode
mod Tests
use piux_kernel.Prelude.{
  ℕ, zero, suc, ◌+◌, ◌-◌, ◌%◌, Bool, true, false, ◌&&◌, ◌||◌, not, ltb, leb, ◌==◌, if◌then◌else◌,
  List, [], ◌∷◌, Option, none, some, bit_and, ℤ, pos, minus_one, is_negative, get_elem?, CString,
  char_at,
}
use Layouts.{scancode_ascii_us, scancode_ascii_shift_us, scancode_ascii_it, scancode_ascii_shift_it}

-- `keyboard_layout_t`.
pub data Layout : Type 0 where
  us it : Layout

-- The static variables.
pub record Keyboard : Type 0 where
  pub current_layout : Layout
  pub shift_pressed : Bool
  pub ctrl_pressed : Bool
  pub alt_pressed : Bool
  pub last_scancode : ℕ
  pub extended_scancode : Bool

-- What the two reads of port 0x64 and the read of port 0x60 give.
pub record Ports : Type 0 where
  pub status : ℕ
  pub status_again : ℕ
  pub scancode : ℕ

abbrev pub keyboard_lookup_table : Layout → Bool → List ℕ
keyboard_lookup_table it shift = if shift then scancode_ascii_shift_it else scancode_ascii_it
keyboard_lookup_table us shift = if shift then scancode_ascii_shift_us else scancode_ascii_us

-- Both values of the type are accepted.
abbrev pub keyboard_set_layout : Layout → Keyboard → Keyboard
keyboard_set_layout layout k = record k { current_layout = layout }

abbrev pub is_blank : ℕ → Bool
is_blank c = c == b' ' || c == b'\t' || c == b'\r' || c == b'\n'

-- `while (*cursor && *cursor != '=') cursor++`, then past the `=`; `none` at the end.
unfoldable pub after_equals : CString → Option CString
after_equals [] = none
after_equals (c ∷ text) =
    if c == 0 then none else if c == b'=' then some text else after_equals text

unfoldable pub skip_blanks : CString → CString
skip_blanks [] = []
skip_blanks (c ∷ text) = if is_blank c then skip_blanks text else c ∷ text

-- Two letters in either case, with the end, a line end or a blank behind them.
abbrev pub is_word : ℕ → ℕ → CString → Bool
is_word a b text =
    (char_at text 0 == a || char_at text 0 == a - 32)
    && (char_at text 1 == b || char_at text 1 == b - 32)
    && (char_at text 2 == 0 || is_blank (char_at text 2))

abbrev pub parse_word : CString → Option Layout
parse_word text =
    if is_word b'i' b't' text then some it else if is_word b'u' b's' text then some us else none

-- Behind the `=`, if there is one; `none` is -1.
abbrev pub parse_behind : Option CString → Option Layout
parse_behind none = none
parse_behind (some text) = parse_word (skip_blanks text)

unfoldable pub keyboard_parse_layout_value : CString → Option Layout
keyboard_parse_layout_value text = parse_behind (after_equals text)

-- With the result of `keyboard_parse_layout_value`.
abbrev pub take_setting : Option Layout → Keyboard → Keyboard
take_setting none k = k
take_setting (some layout) k = keyboard_set_layout layout k

-- With what the file system gives for `/.config/keyboard.conf`: nothing if it is not mounted, has
-- no such file or cannot read it, else at most 31 bytes.
unfoldable pub keyboard_load_layout_from_config : Option CString → Keyboard → Keyboard
keyboard_load_layout_from_config none k = k
keyboard_load_layout_from_config (some []) k = k
keyboard_load_layout_from_config (some (c ∷ text)) k =
    take_setting (keyboard_parse_layout_value (c ∷ text)) k

-- Behind the prefix 0xE0.
unfoldable pub extended_key : ℕ → ℤ
extended_key scancode =
    if leb 0x80 scancode
    then minus_one
    else if scancode == 0x48
    then pos 0x100
    else if scancode == 0x50
    then pos 0x101
    else if scancode == 0x4b
    then pos 0x102
    else if scancode == 0x4d
    then pos 0x103
    else if scancode == 0x53
    then pos 0x104
    else minus_one

-- A key is let go; `released` is its scancode without bit 7.
unfoldable pub release_key : ℕ → Keyboard → Keyboard
release_key released k =
    if released == 0x2a || released == 0x36
    then record k { shift_pressed = false }
    else if released == 0x1d
    then record k { ctrl_pressed = false }
    else if released == 0x38
    then record k { alt_pressed = false }
    else k

-- The control characters, `none` for a key that has none.
unfoldable pub control_key : ℕ → Option ℕ
control_key scancode =
    if scancode == 0x10
    then some 17
    else if scancode == 0x2e
    then some 3
    else if scancode == 0x1f
    then some 19
    else if scancode == 0x2d
    then some 24
    else if scancode == 0x1e
    then some 1
    else if scancode == 0x30
    then some 26
    else if scancode == 0x17
    then some 9
    else if scancode == 0x23
    then some 16
    else none

module _ (beyond : ℕ → ℕ) where
  -- `table[scancode]`; a read behind the table gives what the memory holds there.
  abbrev pub table_at : List ℕ → ℕ → ℕ
  table_at table scancode = elim (get_elem? table scancode) [ none ↦ beyond scancode | some c ↦ c ]

  -- The look-up at the end of `keyboard_try_read_char`.
  unfoldable pub plain_key : ℕ → Keyboard → ℤ
  plain_key scancode k =
      let ascii = table_at (keyboard_lookup_table k.current_layout k.shift_pressed) scancode in
      if ltb scancode 60 then (if ascii == 0 then minus_one else pos ascii) else minus_one

  -- A key that is no modifier is pressed.
  unfoldable pub character_key : ℕ → Keyboard → ℤ
  unfolding control_key plain_key
  character_key scancode k =
      if k.ctrl_pressed
      then elim (control_key scancode) [ none ↦ plain_key scancode k | some c ↦ pos c ]
      else plain_key scancode k

  unfoldable pub press_key : ℕ → Keyboard → ℤ × Keyboard
  press_key scancode k =
      if scancode == 0x2a || scancode == 0x36
      then (minus_one, record k { shift_pressed = true })
      else if scancode == 0x1d
      then (minus_one, record k { ctrl_pressed = true })
      else if scancode == 0x38
      then (minus_one, record k { alt_pressed = true })
      else (character_key scancode k, k)

  -- `keyboard_try_read_char` behind the read of the scancode.
  unfoldable pub take_scancode : ℕ → Keyboard → ℤ × Keyboard
  take_scancode scancode before =
      let k = record before { last_scancode = scancode } in
      if scancode == 0xe0
      then (minus_one, record k { extended_scancode = true })
      else if k.extended_scancode
      then (extended_key scancode, record k { extended_scancode = false })
      else if leb 0x80 scancode
      then (minus_one, release_key (scancode % 0x80) k)
      else press_key scancode k

  unfoldable pub keyboard_try_read_char : Ports → Keyboard → ℤ × Keyboard
  keyboard_try_read_char p k =
      if bit_and p.status 1 == 0 || not (bit_and p.status_again 0x20 == 0)
      then (minus_one, k)
      else take_scancode p.scancode k

  -- `keyboard_read_char`, with what the ports give at each try: the character and the state, or
  -- `none` if none of the tries gives one. Between tries the network is served.
  unfoldable pub keyboard_read_char : List Ports → Keyboard → Option (ℤ × Keyboard)
  keyboard_read_char [] k = none
  keyboard_read_char (p ∷ ports) k =
      let (c, k') = keyboard_try_read_char p k in
      let rest = keyboard_read_char ports k' in if is_negative c then rest else some (c, k')
