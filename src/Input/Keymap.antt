-- ===== src/Input/Keymap.antt =====
-- The table `keymap` of kernel/src/dev/dev_input.c, with the key codes of AM (the list AM_KEYS).
use jyy_os.Prelude.{ℕ, if◌then◌else◌, ltb, ◌==◌, Option, none, some, List, [], ◌∷◌}

abbrev pub key_capslock : ℕ
key_capslock = 42

abbrev pub key_lctrl : ℕ
key_lctrl = 67

abbrev pub key_rctrl : ℕ
key_rctrl = 72

abbrev pub key_lalt : ℕ
key_lalt = 69

abbrev pub key_ralt : ℕ
key_ralt = 71

abbrev pub key_lshift : ℕ
key_lshift = 55

abbrev pub key_rshift : ℕ
key_rshift = 66

-- The two characters of an entry
abbrev pub plain : ℕ × ℕ → ℕ
plain (a, b) = a

abbrev pub shifted : ℕ × ℕ → ℕ
shifted (a, b) = b

-- A key code and its two characters, in the order of the source: the digits, the letters, the signs.
unfoldable pub keymap_entries : List (ℕ × ℕ × ℕ)
keymap_entries =
    (24, b'0', b')')
    ∷ (15, b'1', b'!')
    ∷ (16, b'2', b'@')
    ∷ (17, b'3', b'#')
    ∷ (18, b'4', b'$')
    ∷ (19, b'5', b'%')
    ∷ (20, b'6', b'^')
    ∷ (21, b'7', b'&')
    ∷ (22, b'8', b'*')
    ∷ (23, b'9', b'(')
    ∷ (43, b'a', b'A')
    ∷ (60, b'b', b'B')
    ∷ (58, b'c', b'C')
    ∷ (45, b'd', b'D')
    ∷ (31, b'e', b'E')
    ∷ (46, b'f', b'F')
    ∷ (47, b'g', b'G')
    ∷ (48, b'h', b'H')
    ∷ (36, b'i', b'I')
    ∷ (49, b'j', b'J')
    ∷ (50, b'k', b'K')
    ∷ (51, b'l', b'L')
    ∷ (62, b'm', b'M')
    ∷ (61, b'n', b'N')
    ∷ (37, b'o', b'O')
    ∷ (38, b'p', b'P')
    ∷ (29, b'q', b'Q')
    ∷ (32, b'r', b'R')
    ∷ (44, b's', b'S')
    ∷ (33, b't', b'T')
    ∷ (35, b'u', b'U')
    ∷ (59, b'v', b'V')
    ∷ (30, b'w', b'W')
    ∷ (57, b'x', b'X')
    ∷ (34, b'y', b'Y')
    ∷ (56, b'z', b'Z')
    ∷ (14, b'`', b'~')
    ∷ (25, b'-', b'_')
    ∷ (26, b'=', b'+')
    ∷ (39, b'[', b'{')
    ∷ (40, b']', b'}')
    ∷ (41, 92, b'|')
    ∷ (52, b';', b':')
    ∷ (53, 39, 34)
    ∷ (54, 10, 10)
    ∷ (63, b',', b'<')
    ∷ (64, b'.', b'>')
    ∷ (65, b'/', b'?')
    ∷ (70, b' ', b' ')
    ∷ (27, 8, 8)
    ∷ []

-- An entry that the table does not name holds two zeros.
unfoldable pub find_key : List (ℕ × ℕ × ℕ) → ℕ → ℕ × ℕ
find_key [] code = (0, 0)
find_key ((key, a, b) ∷ rest) code =
    let later = find_key rest code in if key == code then (a, b) else later

-- `keymap[code]`; `none` is an index outside the table.
unfoldable pub keymap : ℕ → Option (ℕ × ℕ)
keymap code = if ltb code 256 then some (find_key keymap_entries code) else none
