-- ===== src/Keyboard/Config.antt =====
-- What the file `/.config/keyboard.conf` sets.
use piux_kernel.Prelude.{
  ℕ, ◌≡◌, ◌≢◌, ◌⊎◌, refl, true, false, ◌||◌, ◌==◌, [], ◌∷◌, ◌++◌, some, CString, char_at, arith,
}
use piux_kernel.Keyboard.{
  Layout, us, it, Keyboard, is_blank, after_equals, skip_blanks, parse_word,
  keyboard_parse_layout_value, keyboard_load_layout_from_config,
}

-- No character is the `=` or ends the text.
abbrev pub IsName : CString → Type 0
IsName [] = Unit {0}
IsName (c ∷ text) = (c ≢ 0) × (c ≢ b'=') × IsName text

abbrev pub IsBlanks : CString → Type 0
IsBlanks [] = Unit {0}
IsBlanks (c ∷ text) = (is_blank c ≡ true) × IsBlanks text

-- The two letters of a layout's name, in either case.
abbrev pub Names : Layout → ℕ → ℕ → Type 0
Names it a b = ((a ≡ b'i') ⊎ (a ≡ b'I')) × ((b ≡ b't') ⊎ (b ≡ b'T'))
Names us a b = ((a ≡ b'u') ⊎ (a ≡ b'U')) × ((b ≡ b's') ⊎ (b ≡ b'S'))

-- The name of the layout ends before this text.
abbrev pub Ends : CString → Type 0
Ends [] = Unit {0}
Ends (c ∷ text) = (c ≡ 0) ⊎ (is_blank c ≡ true)

equals-name : (name rest : CString) → IsName name → after_equals (name ++ b'=' ∷ rest) ≡ some rest
unfolding after_equals
equals-name [] rest h = refl
equals-name (c ∷ name) rest h = ground (arith, equals-name name rest h.2)

skip-blanks :
    (blanks rest : CString) → IsBlanks blanks → skip_blanks (blanks ++ rest) ≡ skip_blanks rest
unfolding skip_blanks
skip-blanks [] rest h = refl
skip-blanks (c ∷ blanks) rest h = ground (arith, skip-blanks blanks rest h.1)

skip_letter : (a : ℕ) (rest : CString) → is_blank a ≡ false → skip_blanks (a ∷ rest) ≡ a ∷ rest
unfolding skip_blanks
skip_letter a rest h = rw h refl

Ends-test : (rest : CString) → Ends rest → (char_at rest 0 == 0 || is_blank (char_at rest 0)) ≡ true
Ends-test [] h = refl
Ends-test (c ∷ rest) h = ground arith

parse_name :
    (layout : Layout) (a b : ℕ) (rest : CString)
    → Names layout a b
    → Ends rest
    → parse_word (a ∷ b ∷ rest) ≡ some layout
parse_name it a b rest n e = ground (arith, Ends-test rest e)
parse_name us a b rest n e = ground (arith, Ends-test rest e)

not_blank : (layout : Layout) (a b : ℕ) → Names layout a b → is_blank a ≡ false
not_blank it a b n = ground arith
not_blank us a b n = ground arith

parse_setting :
    (layout : Layout) (name blanks : CString) (a b : ℕ) (rest : CString)
    → IsName name
    → IsBlanks blanks
    → Names layout a b
    → Ends rest
    → keyboard_parse_layout_value (name ++ b'=' ∷ (blanks ++ (a ∷ b ∷ rest))) ≡ some layout
unfolding keyboard_parse_layout_value
parse_setting layout name blanks a b rest hn hb hw he =
    rw
      (
        equals-name name (blanks ++ (a ∷ b ∷ rest)) hn,
        skip-blanks blanks (a ∷ b ∷ rest) hb,
        skip_letter a (b ∷ rest) (not_blank layout a b hw),
      )
      (parse_name layout a b rest hw he)

-- If the file holds a name without `=`, an `=`, any blanks, the two letters of a layout in either
-- case, and then ends or goes on with a blank, that layout is set and all else is kept.
pub config_setting :
    (layout : Layout) (name blanks : CString) (a b : ℕ) (rest : CString) (k : Keyboard)
    → IsName name
    → IsBlanks blanks
    → Names layout a b
    → Ends rest
    → keyboard_load_layout_from_config (some (name ++ b'=' ∷ (blanks ++ (a ∷ b ∷ rest)))) k
      ≡ record k { current_layout = layout }
unfolding keyboard_load_layout_from_config
config_setting layout [] blanks a b rest k hn hb hw he =
    rw (parse_setting layout [] blanks a b rest hn hb hw he) refl
config_setting layout (c ∷ name) blanks a b rest k hn hb hw he =
    rw (parse_setting layout (c ∷ name) blanks a b rest hn hb hw he) refl
