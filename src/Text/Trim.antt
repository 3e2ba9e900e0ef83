-- ===== src/Text/Trim.antt =====
-- `str::trim`, by the Unicode property White_Space on UTF-8 bytes, and `trim_end_matches`.
use mathlib.Core.List.{reverse}
use go_arti.Prelude.{
  ℕ, zero, suc, Bool, ◌&&◌, ◌||◌, ◌==◌, if◌then◌else◌, within, Text, length, drop, take, get_or,
  text_eq,
}

space1 : ℕ → Bool
space1 a = within 9 13 a || a == 32

space2 : ℕ → ℕ → Bool
space2 a b = a == 0xc2 && (b == 0x85 || b == 0xa0)

space3 : ℕ → ℕ → ℕ → Bool
space3 a b c =
    (a == 0xe1 && b == 0x9a && c == 0x80)
    || (a == 0xe2 && b == 0x80 && (within 0x80 0x8a c || within 0xa8 0xa9 c || c == 0xaf))
    || (a == 0xe2 && b == 0x81 && c == 0x9f)
    || (a == 0xe3 && b == 0x80 && c == 0x80)

-- 256 is no byte: it stands for the end of the text.
abbrev at : Text → ℕ → ℕ
at s i = get_or s i 256

-- The length in bytes of the white space character at the front, 0 if there is none.
leading_space : Text → ℕ
unfolding space1 space2 space3
leading_space s =
    if space1 (at s 0)
    then 1
    else if space2 (at s 0) (at s 1)
    then 2
    else if space3 (at s 0) (at s 1) (at s 2)
    then 3
    else 0

-- The same at the end of a text that is given reversed.
trailing_space : Text → ℕ
unfolding space1 space2 space3
trailing_space s =
    if space1 (at s 0)
    then 1
    else if space2 (at s 1) (at s 0)
    then 2
    else if space3 (at s 2) (at s 1) (at s 0)
    then 3
    else 0

strip : (Text → ℕ) → ℕ → Text → Text
strip width zero s = s
strip width (suc fuel) s =
    let rest = strip width fuel (drop (width s) s) in if width s == 0 then s else rest

-- Each round removes a byte at least, so the length is fuel enough.
unfoldable pub trim : Text → Text
unfolding strip leading_space trailing_space
trim s =
    let t = strip leading_space (length s) s in
    reverse (strip trailing_space (length t) (reverse t))

starts_with : Text → Text → Bool
starts_with prefix s = text_eq (take (length prefix) s) prefix

strip_prefixes : Text → ℕ → Text → Text
unfolding starts_with text_eq
strip_prefixes prefix zero s = s
strip_prefixes prefix (suc fuel) s =
    let rest = strip_prefixes prefix fuel (drop (length prefix) s) in
    if starts_with prefix s then rest else s

-- `s.trim_end_matches(suffix)`, for a suffix that is not empty: every repetition is removed.
unfoldable pub trim_end_matches : Text → Text → Text
unfolding strip_prefixes
trim_end_matches suffix s = reverse (strip_prefixes (reverse suffix) (length s) (reverse s))
