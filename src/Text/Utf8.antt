-- ===== src/Text/Utf8.antt =====
-- `String::from_utf8` and `CStr::to_str`: the well-formed byte sequences of the Unicode standard.
use go_arti.Prelude.{
  ℕ, ◌≡◌, refl, Bool, true, false, Option, none, some, [], ◌∷◌, ◌<◌, arith, ltb, ◌==◌,
  if◌then◌else◌, within, Bytes, Text, All,
}

-- What the next byte must be: the start of a character, or one of so many continuation bytes, the
-- first of them from a narrower range after E0, ED, F0 and F4.
pub data Utf8State : Type 0 where
  start tail1 tail2 tail3 after_e0 after_ed after_f0 after_f4 : Utf8State

abbrev expect : Bool → Utf8State → Option Utf8State
expect ok_byte s = if ok_byte then some s else none

first_byte : ℕ → Option Utf8State
first_byte b =
    if ltb b 0x80
    then some start
    else if within 0xc2 0xdf b
    then some tail1
    else if b == 0xe0
    then some after_e0
    else if b == 0xed
    then some after_ed
    else if within 0xe1 0xef b
    then some tail2
    else if b == 0xf0
    then some after_f0
    else if b == 0xf4
    then some after_f4
    else if within 0xf1 0xf3 b
    then some tail3
    else none

utf8_step : Utf8State → ℕ → Option Utf8State
unfolding first_byte
utf8_step start b = first_byte b
utf8_step tail1 b = expect (within 0x80 0xbf b) start
utf8_step tail2 b = expect (within 0x80 0xbf b) tail1
utf8_step tail3 b = expect (within 0x80 0xbf b) tail2
utf8_step after_e0 b = expect (within 0xa0 0xbf b) tail1
utf8_step after_ed b = expect (within 0x80 0x9f b) tail1
utf8_step after_f0 b = expect (within 0x90 0xbf b) tail2
utf8_step after_f4 b = expect (within 0x80 0x8f b) tail2

abbrev is_start : Utf8State → Bool
is_start start = true
is_start _ = false

valid_from : Utf8State → Bytes → Bool
valid_from s [] = is_start s
valid_from s (b ∷ bs) = elim (utf8_step s b) [ none ↦ false | some s' ↦ valid_from s' bs ]

unfoldable pub is_utf8 : Bytes → Bool
unfolding valid_from utf8_step
is_utf8 = valid_from start

unfoldable pub from_utf8 : Bytes → Option Text
unfolding is_utf8
from_utf8 b = if is_utf8 b then some b else none

valid_from-ascii : (b : Bytes) → All (λ c. c < 0x80) b → valid_from start b ≡ true
unfolding valid_from utf8_step
valid_from-ascii [] h = refl
valid_from-ascii (c ∷ cs) h = ground (arith, valid_from-ascii cs)

-- Every ASCII text is valid UTF-8.
from_utf8-ascii : (b : Bytes) → All (λ c. c < 0x80) b → from_utf8 b ≡ some b
unfolding from_utf8 is_utf8
from_utf8-ascii b h = rw (valid_from-ascii b h)
