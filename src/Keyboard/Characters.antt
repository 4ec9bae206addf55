-- ===== src/Keyboard/Characters.antt =====
-- The characters that scancodes give, and the two that read behind the tables.
use piux_kernel.Prelude.{
  ℕ, zero, suc, ◌-◌, ◌<◌, ◌≤◌, ◌≡◌, ◌≢◌, ◌⊎◌, refl, ◌∙◌, Bool, true, false, ◌&&◌, ◌||◌, not, ltb,
  leb, ◌==◌, if◌then◌else◌, List, [], ◌∷◌, ℤ, pos, negsuc, minus_one, get_or, lt→ltb, arith,
  holds_to, look_up, Bool-cases, inl, inr, length,
}
use piux_kernel.Keyboard.{
  Layout, us, it, Keyboard, keyboard_lookup_table, extended_key, table_at, plain_key, character_key,
  press_key, take_scancode,
}

abbrev pub is_lower : ℕ → Bool
is_lower c = leb b'a' c && leb c b'z'

-- A test of every scancode of the tables of a layout.
abbrev letters_agree : Layout → ℕ → Bool
letters_agree layout scancode =
    let low = get_or (keyboard_lookup_table layout false) scancode 0 in
    let high = get_or (keyboard_lookup_table layout true) scancode 0 in
    (if is_lower low then high == low - 32 else not (leb b'A' high && leb high b'Z'))
    && (if low == 0 then high == 0 else not (high == 0))
    && ltb low 127
    && ltb high 127

us_letters : holds_to (letters_agree us) 58 ≡ true
unfolding holds_to
us_letters = refl

it_letters : holds_to (letters_agree it) 58 ≡ true
unfolding holds_to
it_letters = refl

letters : (layout : Layout) (scancode : ℕ) → scancode < 58 → letters_agree layout scancode ≡ true
letters us scancode h = look_up (letters_agree us) us_letters h
letters it scancode h = look_up (letters_agree it) it_letters h

in_table :
    (table : List ℕ) (beyond : ℕ → ℕ) (i : ℕ)
    → i < length table
    → table_at beyond table i ≡ get_or table i 0
in_table [] beyond i h = elim h [ ]
in_table (x ∷ table) beyond zero h = refl
in_table (x ∷ table) beyond (suc i) h = in_table table (λ n. beyond (suc n)) i (omega arith)

length-lookup_table :
    (layout : Layout) (shift : Bool) → length (keyboard_lookup_table layout shift) ≡ 58
length-lookup_table us true = refl
length-lookup_table us false = refl
length-lookup_table it true = refl
length-lookup_table it false = refl

-- The character of a scancode inside the tables.
abbrev character : Keyboard → ℕ → ℕ
character k scancode = get_or (keyboard_lookup_table k.current_layout k.shift_pressed) scancode 0

plain_key_lem :
    (beyond : ℕ → ℕ) (scancode : ℕ) (k : Keyboard)
    → scancode < 58
    → plain_key beyond scancode k
      ≡ (if character k scancode == 0 then minus_one else pos (character k scancode))
unfolding plain_key
plain_key_lem beyond scancode k h =
    rw
      (
        in_table (keyboard_lookup_table k.current_layout k.shift_pressed) beyond scancode
            (omega (arith, length-lookup_table k.current_layout k.shift_pressed)),
        lt→ltb scancode 60 (omega arith),
      )
      refl

character_bounds : (k : Keyboard) (scancode : ℕ) → scancode < 58 → character k scancode < 127
character_bounds k scancode h = by_shift k.shift_pressed (letters k.current_layout scancode h)
  where
    by_shift :
        (shift : Bool)
        → letters_agree k.current_layout scancode ≡ true
        → get_or (keyboard_lookup_table k.current_layout shift) scancode 0 < 127
    by_shift true e = ground arith
    by_shift false e = ground arith

-- What a call may return: -1, an ASCII character or control character, or the code of an arrow or
-- of the delete key.
abbrev pub IsKey : ℤ → Type 0
IsKey (pos n) = (0 < n) × (n < 127) ⊎ (0x100 ≤ n) × (n ≤ 0x104)
IsKey (negsuc n) = n ≡ 0

not_ltb : (a b : ℕ) → b ≤ a → ltb a b ≡ false
not_ltb a b h = ground arith

plain_key-IsKey :
    (beyond : ℕ → ℕ) (scancode : ℕ) (k : Keyboard)
    → (scancode < 58) ⊎ (60 ≤ scancode)
    → IsKey (plain_key beyond scancode k)
plain_key-IsKey beyond scancode k (inl h) =
    rw (plain_key_lem beyond scancode k h)
      (by_value (character k scancode) (character_bounds k scancode h))
  where
    by_value : (n : ℕ) → n < 127 → IsKey (if n == 0 then minus_one else pos n)
    by_value n lt = elim (Bool-cases (n == 0)) [
      | inl z ↦ rw z refl
      | inr nz ↦ rw nz (inl (ground arith, lt))
    ]
plain_key-IsKey beyond scancode k (inr h) = unfold plain_key in rw (not_ltb scancode 60 h) refl

abbrev is_modifier : ℕ → Bool
is_modifier s = s == 0x2a || s == 0x36 || s == 0x1d || s == 0x38

-- Without control and prefix a press below 0x80 gives the look-up, or nothing for a modifier.
take_press :
    (beyond : ℕ → ℕ) (s : ℕ) (k : Keyboard)
    → s < 0x80
    → k.ctrl_pressed ≡ false
    → k.extended_scancode ≡ false
    → (take_scancode beyond s k).0
      ≡ (if is_modifier s then minus_one else plain_key beyond s (record k { last_scancode = s }))
unfolding take_scancode press_key character_key
take_press beyond s k h ctrl ext = ground arith

-- Two states that differ in the shift flag only.
abbrev pub shifted : Bool → Keyboard → Keyboard
shifted b k = record k { shift_pressed = b }

-- With neither control held nor a prefix before, a scancode inside the tables that gives a
-- lower-case letter without shift gives the upper-case letter with it, in both layouts.
pub shift_letter :
    (beyond : ℕ → ℕ) (scancode c : ℕ) (k : Keyboard)
    → scancode < 58
    → k.ctrl_pressed ≡ false
    → k.extended_scancode ≡ false
    → is_lower c ≡ true
    → (take_scancode beyond scancode (shifted false k)).0 ≡ pos c
    → (take_scancode beyond scancode (shifted true k)).0 ≡ pos (c - 32)
shift_letter beyond scancode c k h ctrl ext low e = ground (
  arith,
  take_press beyond scancode (shifted false k),
  take_press beyond scancode (shifted true k),
  plain_key_lem beyond scancode (record k { shift_pressed = false; last_scancode = scancode }) h,
  plain_key_lem beyond scancode (record k { shift_pressed = true; last_scancode = scancode }) h,
  letters k.current_layout scancode h,
)

behind_table :
    (table : List ℕ) (beyond : ℕ → ℕ) (i : ℕ)
    → length table ≤ i
    → table_at beyond table i ≡ beyond i
behind_table [] beyond i h = refl
behind_table (x ∷ table) beyond zero h = absurd (omega arith)
behind_table (x ∷ table) beyond (suc i) h = behind_table table (λ n. beyond (suc n)) i (omega arith)

plain_key_behind :
    (beyond : ℕ → ℕ) (s : ℕ) (k : Keyboard)
    → 58 ≤ s
    → s < 60
    → plain_key beyond s k ≡ (if beyond s == 0 then minus_one else pos (beyond s))
unfolding plain_key
plain_key_behind beyond s k lo hi =
    rw
      (
        behind_table (keyboard_lookup_table k.current_layout k.shift_pressed) beyond s
            (omega (arith, length-lookup_table k.current_layout k.shift_pressed)),
        lt→ltb s 60 hi,
      )
      refl

-- The scancodes 58 (caps lock) and 59 (F1) pass the test `scancode < 60`, and the tables have 58
-- entries: with neither control held nor a prefix before, what the call returns is whatever the
-- memory behind the table holds.
pub over_read :
    (beyond : ℕ → ℕ) (scancode : ℕ) (k : Keyboard)
    → (scancode ≡ 58) ⊎ (scancode ≡ 59)
    → k.ctrl_pressed ≡ false
    → k.extended_scancode ≡ false
    → (take_scancode beyond scancode k).0
      ≡ (if beyond scancode == 0 then minus_one else pos (beyond scancode))
over_read beyond scancode k h ctrl ext =
    take_press beyond scancode k (omega arith) ctrl ext
    ∙ rw (none_of scancode h) (
        plain_key_behind beyond scancode (record k { last_scancode = scancode }) (omega arith)
          (omega arith))
  where
    none_of : (s : ℕ) → (s ≡ 58) ⊎ (s ≡ 59) → is_modifier s ≡ false
    none_of s p = ground arith

extended_key-IsKey : (s : ℕ) → IsKey (extended_key s)
unfolding extended_key
extended_key-IsKey s = ground arith

character_key-IsKey :
    (beyond : ℕ → ℕ) (s : ℕ) (k : Keyboard) → (s < 58) ⊎ (60 ≤ s) → IsKey (character_key beyond s k)
unfolding character_key
character_key-IsKey beyond s k h = ground (arith, plain_key-IsKey beyond s k h)

-- Every scancode but 58 and 59 gives -1, an ASCII character from 1 to 126, or the code of an arrow
-- or of the delete key, whatever is held and whatever the memory behind the tables holds.
pub take_scancode-IsKey :
    (beyond : ℕ → ℕ) (s : ℕ) (k : Keyboard) → s ≢ 58 → s ≢ 59 → IsKey (take_scancode beyond s k).0
unfolding take_scancode press_key
take_scancode-IsKey beyond s k p q =
    ground
      (arith, extended_key-IsKey s, character_key-IsKey beyond s (record k { last_scancode = s }))
