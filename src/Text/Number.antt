-- ===== src/Text/Number.antt =====
-- `u16::from_str`, and the decimal and hexadecimal forms that `format!` writes.
use go_arti.Prelude.{
  ℕ, zero, suc, ◌+◌, ◌-◌, ◌*◌, ◌/◌, ◌%◌, ◌≤◌, ◌<◌, ◌≡◌, inl, inr, Bool, Option, none, some, [], ◌∷◌,
  arith, ltb, leb, ◌==◌, if◌then◌else◌, within, Bool-cases, Text,
}

-- Digits, the last one first produced; the fuel is more than the number.
unfoldable pub decimal_loop : ℕ → ℕ → Text → Text
decimal_loop zero n acc = acc
decimal_loop (suc f) n acc =
    let rest = decimal_loop f (n / 10) ((48 + n % 10) ∷ acc) in
    if ltb n 10 then (48 + n) ∷ acc else rest

unfoldable pub decimal : ℕ → Text
unfolding decimal_loop
decimal n = decimal_loop (suc n) n []

unfoldable pub hex_digit : ℕ → ℕ
hex_digit d = if ltb d 10 then 48 + d else 87 + d

hex_loop : ℕ → ℕ → Text → Text
hex_loop zero n acc = acc
hex_loop (suc f) n acc =
    let rest = hex_loop f (n / 16) (hex_digit (n % 16) ∷ acc) in
    if ltb n 16 then hex_digit n ∷ acc else rest

-- `{:x}` of a u16, and `{:02x}` of a byte.
unfoldable pub hex_u16 : ℕ → Text
unfolding hex_loop hex_digit
hex_u16 n = hex_loop 4 n []

unfoldable pub hex_byte : ℕ → Text
unfolding hex_digit
hex_byte b = hex_digit (b / 16) ∷ hex_digit (b % 16) ∷ []

abbrev is_digit : ℕ → Bool
is_digit = within b'0' b'9'

unfoldable pub parse_digits : ℕ → Text → Option ℕ
parse_digits acc [] = some acc
parse_digits acc (c ∷ cs) =
    let v = acc * 10 + (c - 48) in
    let rest = parse_digits v cs in
    if is_digit c then (if leb v 65535 then rest else none) else none

-- After an optional plus sign; no digit at all is an error.
parse_nonempty : Text → Option ℕ
parse_nonempty [] = none
parse_nonempty (c ∷ cs) = parse_digits 0 (c ∷ cs)

unfoldable pub parse_u16 : Text → Option ℕ
unfolding parse_nonempty parse_digits
parse_u16 [] = none
parse_u16 (c ∷ cs) = if c == b'+' then parse_nonempty cs else parse_nonempty (c ∷ cs)

parse_digits_bound :
    (acc : ℕ) (s : Text) (v : ℕ) → acc ≤ 65535 → parse_digits acc s ≡ some v → v ≤ 65535
unfolding parse_digits
parse_digits_bound acc [] v h e = ground arith
parse_digits_bound acc (c ∷ cs) v h e =
    ground (arith, parse_digits_bound (acc * 10 + (c - 48)) cs v)

parse_nonempty_bound : (s : Text) (v : ℕ) → parse_nonempty s ≡ some v → v ≤ 65535
unfolding parse_nonempty
parse_nonempty_bound [] v e = cc
parse_nonempty_bound (c ∷ cs) v e = parse_digits_bound 0 (c ∷ cs) v (omega arith) e

pub parse_u16_bound : (s : Text) (v : ℕ) → parse_u16 s ≡ some v → v ≤ 65535
parse_u16_bound [] v e = unfold parse_u16 in ground arith
parse_u16_bound (c ∷ cs) v e =
    unfold parse_u16 in ground (arith, parse_nonempty_bound cs v, parse_nonempty_bound (c ∷ cs) v)

parse_digits-decimal_loop :
    (f n : ℕ) (acc : Text)
    → n < f
    → n ≤ 65535
    → parse_digits 0 (decimal_loop f n acc) ≡ parse_digits n acc
unfolding decimal_loop parse_digits
parse_digits-decimal_loop zero n acc h b = absurd (omega arith)
parse_digits-decimal_loop (suc f) n acc h b =
    ground (arith, parse_digits-decimal_loop f (n / 10) ((48 + n % 10) ∷ acc))

-- The first character is a digit.
decimal_loop-cons :
    (f n : ℕ) (acc : Text)
    → n < f
    → (c : ℕ) × (cs : Text) × (decimal_loop f n acc ≡ c ∷ cs) × (48 ≤ c) × (c ≤ 57)
unfolding decimal_loop
decimal_loop-cons zero n acc h = absurd (omega arith)
decimal_loop-cons (suc f) n acc h = elim (Bool-cases (ltb n 10)) [
  | inl e ↦ (48 + n, acc, rw e, omega arith, ground arith)
  | inr e ↦ rw e (decimal_loop-cons f (n / 10) ((48 + n % 10) ∷ acc) (ground arith))
]

-- A number that is written in decimal is read back.
pub parse_u16-decimal : (n : ℕ) → n ≤ 65535 → parse_u16 (decimal n) ≡ some n
unfolding parse_u16 decimal
parse_u16-decimal n h =
    ground (arith, decimal_loop-cons (suc n) n [], parse_digits-decimal_loop (suc n) n [])
