-- ===== src/Onion/Slug.antt =====
-- `unique_service_slug` of rust/arti-ffi/src/onion.rs, over the eight random bytes that it draws.
use go_arti.Prelude.{
  ℕ, ◌*◌, ◌/◌, ◌%◌, ◌≤◌, ◌<◌, ◌≡◌, refl, ◌⊎◌, [], ◌∷◌, ◌++◌, arith, length, All, Bytes, Text,
}
use go_arti.Text.Number.{hex_digit, hex_byte}

-- Two lowercase hexadecimal digits for each byte.
unfoldable pub unique_service_slug : Bytes → Text
unique_service_slug [] = []
unique_service_slug (b ∷ bs) = hex_byte b ++ unique_service_slug bs

abbrev IsByte : ℕ → Type 0
IsByte b = b < 256

abbrev IsLowerHex : ℕ → Type 0
IsLowerHex c = ((b'0' ≤ c) × (c ≤ b'9')) ⊎ ((b'a' ≤ c) × (c ≤ b'f'))

hex_digit-IsLowerHex : (d : ℕ) → d < 16 → IsLowerHex (hex_digit d)
unfolding hex_digit
hex_digit-IsLowerHex d h = ground arith

hex_digit_injective : (d e : ℕ) → d < 16 → e < 16 → hex_digit d ≡ hex_digit e → d ≡ e
unfolding hex_digit
hex_digit_injective d e h k p = ground arith

-- The slug of eight bytes has sixteen characters, all of them valid in a nickname.
unique_service_slug-valid :
    (bs : Bytes)
    → All IsByte bs
    → (length (unique_service_slug bs) ≡ 2 * length bs) × All IsLowerHex (unique_service_slug bs)
unfolding unique_service_slug hex_byte
unique_service_slug-valid [] h = (refl, tt)
unique_service_slug-valid (b ∷ bs) h =
    let (len, hex) = unique_service_slug-valid bs h.1 in
    (
      omega arith,
      (
        hex_digit-IsLowerHex (b / 16) (omega arith),
        (hex_digit-IsLowerHex (b % 16) (omega arith), hex),
      ),
    )

-- Different bytes give different slugs.
unique_service_slug_injective :
    (as' bs : Bytes)
    → All IsByte as'
    → All IsByte bs
    → unique_service_slug as' ≡ unique_service_slug bs
    → as' ≡ bs
unfolding unique_service_slug hex_byte
unique_service_slug_injective [] [] h k e = refl
unique_service_slug_injective [] (b ∷ bs) h k e = cc
unique_service_slug_injective (a ∷ as') [] h k e = cc
unique_service_slug_injective (a ∷ as') (b ∷ bs) h k e = ground (
  arith,
  hex_digit_injective (a / 16) (b / 16),
  hex_digit_injective (a % 16) (b % 16),
  unique_service_slug_injective as' bs h.1 k.1,
)
