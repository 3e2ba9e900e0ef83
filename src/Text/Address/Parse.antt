-- ===== src/Text/Address/Parse.antt =====
-- `SocketAddr::from_str`: the standard library's recursive descent over the bytes of the text.
pub mod Decimal
use go_arti.Prelude.{
  ℕ, zero, suc, ◌+◌, ◌-◌, ◌*◌, ◌%◌, ◌≡◌, refl, Bool, true, false, not, ◌&&◌, ◌||◌, Option, none,
  some, List, [], ◌∷◌, ◌++◌, ltb, ◌==◌, if◌then◌else◌, within, length, Bytes, Text, codes,
}
use go_arti.Text.Address.{SocketAddr, v4, v6, at}

-- A parser gives its value and what is left; one that fails has consumed nothing.
abbrev Parser : Type 0 → Type 0
Parser A = Text → Option (A × Text)

infixl 5 ◌>>=◌ ◌>>◌
abbrev ◌>>=◌ : {A B : Type 0} → Parser A → (A → Parser B) → Parser B
◌>>=◌ p f s = elim (p s) [ none ↦ none | some (a, rest) ↦ f a rest ]

abbrev ◌>>◌ : {A B : Type 0} → Parser A → Parser B → Parser B
p >> q = p >>= λ _. q

abbrev pure : {A : Type 0} → A → Parser A
pure a s = some (a, s)

abbrev fails : {A : Type 0} → Parser A
fails s = none

abbrev optional : {A : Type 0} → Parser A → Parser (Option A)
optional p s = elim (p s) [ none ↦ some (none, s) | some (a, rest) ↦ some (some a, rest) ]

given_char : ℕ → Parser (Unit {0})
given_char c [] = none
given_char c (x ∷ xs) = if x == c then some (tt, xs) else none

separator : {A : Type 0} → ℕ → Bool → Parser A → Parser A
separator c first p = if first then p else (given_char c >> p)

digit_value : ℕ → ℕ
digit_value c =
    if within b'0' b'9' c
    then c - 48
    else if within b'a' b'z' c
    then c - 87
    else if within b'A' b'Z' c
    then c - 55
    else 36

-- The digits at the front: their value, how many they are, and the rest.
read_digits : ℕ → Text → ℕ → ℕ → ℕ × ℕ × Text
read_digits radix [] value count = (value, count, [])
read_digits radix (c ∷ cs) value count =
    let rest = read_digits radix cs (value * radix + digit_value c) (count + 1) in
    if ltb (digit_value c) radix then rest else (value, count, c ∷ cs)

starts_zero : Text → Bool
starts_zero [] = false
starts_zero (c ∷ cs) = c == b'0'

-- `max_digits` bounds how many digits there may be, `none` for no bound; `max_value` is the type's.
read_number : ℕ → Option ℕ → Bool → ℕ → Parser ℕ
unfolding read_digits digit_value starts_zero
read_number radix max_digits zero_prefix max_value s =
    let (value, count, rest) = read_digits radix s 0 0 in
    if count == 0
      || elim max_digits [ none ↦ false | some m ↦ ltb m count ]
      || ltb max_value value
      || (not zero_prefix && starts_zero s && ltb 1 count)
    then none
    else some (value, rest)

octet : Parser ℕ
octet = read_number 10 (some 3) false 255

read_ipv4 : Parser Bytes
unfolding read_number given_char octet
read_ipv4 = do
  a ← octet
  given_char b'.'
  b ← octet
  given_char b'.'
  c ← octet
  given_char b'.'
  d ← octet
  pure (a ∷ b ∷ c ∷ d ∷ [])

-- At most `left` more groups; true if they end in an embedded IPv4 address.
read_groups : ℕ → Bool → Text → List ℕ × Bool × Text
unfolding read_ipv4 separator
read_groups zero first s = ([], false, s)
read_groups (suc left) first s =
    let embedded : Option (Bytes × Text) =
      if left == 0 then none else separator b':' first read_ipv4 s in
    elim embedded [
      | some (ip, rest) ↦ ((at ip 0 * 256 + at ip 1) ∷ (at ip 2 * 256 + at ip 3) ∷ [], true, rest)
      | none ↦ elim (separator b':' first (read_number 16 (some 4) true 65535) s) [
        | none ↦ ([], false, s)
        | some (g, rest) ↦ let (gs, ip, end) = read_groups left false rest in (g ∷ gs, ip, end)
      ]
    ]

replicate_zero : ℕ → List ℕ
replicate_zero zero = []
replicate_zero (suc n) = 0 ∷ replicate_zero n

read_tail : List ℕ → Parser (List ℕ)
unfolding read_groups replicate_zero
read_tail head s =
    let (tail, _, rest) = read_groups (7 - length head) true s in
    some (head ++ replicate_zero (8 - length head - length tail) ++ tail, rest)

read_ipv6 : Parser (List ℕ)
unfolding read_tail given_char
read_ipv6 s =
    let (head, ip, rest) = read_groups 8 true s in
    if length head == 8
    then some (head, rest)
    else if ip
    then none
    else (do given_char b':'; given_char b':'; read_tail head) rest

read_port : Parser ℕ
read_port = do given_char b':'; read_number 10 none true 65535

read_scope : Parser ℕ
read_scope = do given_char b'%'; read_number 10 none true 4294967295

read_v4 : Parser SocketAddr
unfolding read_ipv4 read_port
read_v4 = do ip ← read_ipv4; port ← read_port; pure (v4 ip port)

or_zero : Option ℕ → ℕ
or_zero none = 0
or_zero (some n) = n

read_v6 : Parser SocketAddr
unfolding read_ipv6 read_port read_scope or_zero
read_v6 = do
  given_char b'['
  ip ← read_ipv6
  scope ← optional read_scope
  given_char b']'
  port ← read_port
  pure (v6 ip (or_zero scope) port)

-- Everything must be read.
at_end : Option (SocketAddr × Text) → Option SocketAddr
at_end (some (addr, [])) = some addr
at_end _ = none

unfoldable pub parse_socket_addr : Text → Option SocketAddr
unfolding read_v4 read_v6 at_end
parse_socket_addr s = elim (read_v4 s) [ some r ↦ at_end (some r) | none ↦ at_end (read_v6 s) ]

parse_loopback : parse_socket_addr (codes "127.0.0.1:8080") ≡ some (v4 (127 ∷ 0 ∷ 0 ∷ 1 ∷ []) 8080)
unfolding parse_socket_addr
parse_loopback = refl

parse_v6 :
    parse_socket_addr (codes "[::1%2]:80") ≡ some (v6 (0 ∷ 0 ∷ 0 ∷ 0 ∷ 0 ∷ 0 ∷ 0 ∷ 1 ∷ []) 2 80)
unfolding parse_socket_addr
parse_v6 = refl

parse_bad : parse_socket_addr (codes "localhost:80") ≡ none
unfolding parse_socket_addr
parse_bad = refl
