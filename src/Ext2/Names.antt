-- ===== src/Ext2/Names.antt =====
-- Names and paths of kernel/ext2.c.
use piux_kernel.Prelude.{
  ℕ, zero, suc, ◌+◌, Bool, true, false, ◌||◌, ltb, ◌==◌, if◌then◌else◌, [], ◌∷◌, Option, none, some,
  length, take, drop, Buffer, CString, char_at,
}
use piux_kernel.CStrings.{strlen_up_to}

-- `EXT2_MAX_NAME_LEN`.
abbrev pub max_name_len : ℕ
max_name_len = 255

-- The count stops at 256, which is too long for a name.
unfoldable pub name_length : CString → ℕ
unfolding strlen_up_to
name_length name = strlen_up_to (max_name_len + 1) name

abbrev pub behind_first : CString → CString
behind_first [] = []
behind_first (c ∷ text) = text

-- The bytes at an offset of a block against those of a text.
unfoldable pub same_bytes : ℕ → Buffer → ℕ → CString → Bool
same_bytes zero b o wanted = true
same_bytes (suc n) b o wanted =
    let rest = same_bytes n b (o + 1) (behind_first wanted) in
    if b o == char_at wanted 0 then rest else false

unfoldable pub name_equal : Buffer → ℕ → ℕ → CString → Bool
unfolding name_length same_bytes
name_equal b o len wanted = if name_length wanted == len then same_bytes len b o wanted else false

-- What `path_next_component` gives: a component with the path behind it, the end, or a component
-- that is too long.
pub data Component : Type 0 where
  component : CString → CString → Component
  end too_long : Component

unfoldable pub skip_slashes : CString → CString
skip_slashes [] = []
skip_slashes (c ∷ path) = if c == b'/' then skip_slashes path else c ∷ path

abbrev pub add_character : ℕ → Component → Component
add_character c (component name path) = component (c ∷ name) path
add_character c other = other

-- The characters up to a slash or the end, with the room left in `component`.
unfoldable pub take_component : ℕ → CString → Component
take_component room [] = component [] []
take_component zero (c ∷ path) = if c == 0 || c == b'/' then component [] (c ∷ path) else too_long
take_component (suc room) (c ∷ path) =
    let rest = take_component room path in
    if c == 0 || c == b'/' then component [] (c ∷ path) else add_character c rest

abbrev pub component_at : CString → Component
component_at [] = end
component_at (c ∷ path) = if c == 0 then end else take_component max_name_len (c ∷ path)

unfoldable pub path_next_component : CString → Component
path_next_component path = component_at (skip_slashes path)

-- The index of the last slash.
unfoldable pub last_slash : ℕ → Option ℕ → CString → Option ℕ
last_slash i last [] = last
last_slash i last (c ∷ path) = last_slash (i + 1) (if c == b'/' then some i else last) path

abbrev pub name_start : Option ℕ → ℕ
name_start none = 0
name_start (some i) = i + 1

abbrev pub parent_of : CString → Option ℕ → CString
parent_of path none = []
parent_of path (some zero) = b'/' ∷ []
parent_of path (some (suc i)) = take (suc i) path

-- The parent's path and the name; `none` is -1. The path has no terminator inside.
unfoldable pub split_parent_path : CString → Option (CString × CString)
unfolding last_slash
split_parent_path path =
    let last = last_slash 0 none path in
    let name = drop (name_start last) path in
    if length path == 0 || ltb 255 (length path)
    then none
    else if length name == 0 || ltb max_name_len (length name)
    then none
    else some (parent_of path last, name)
