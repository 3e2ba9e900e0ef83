-- ===== src/Text/Address/Parse/Decimal.antt =====
-- A socket address whose port was written in decimal is read back.
use go_arti.Prelude.{
  ℕ, zero, suc, ◌+◌, ◌/◌, ◌%◌, ◌≤◌, ◌<◌, ◌≡◌, refl, ◌∙◌, inl, inr, some, [], ◌∷◌, ◌++◌, arith, ltb,
  Bool-cases, Text, codes,
}
use go_arti.Text.Number.{decimal, decimal_loop}
use go_arti.Text.Address.{v4}
use go_arti.Text.Address.Parse.{
  read_digits, digit_value, read_number, given_char, octet, read_ipv4, read_port, read_v4, at_end,
  parse_socket_addr,
}

read_digits-decimal_loop :
    (f n : ℕ) (acc : Text)
    → n < f
    → (k : ℕ) × (1 ≤ k) × (read_digits 10 (decimal_loop f n acc) 0 0 ≡ read_digits 10 acc n k)
unfolding decimal_loop read_digits digit_value
read_digits-decimal_loop zero n acc h = absurd (omega arith)
read_digits-decimal_loop (suc f) n acc h = elim (Bool-cases (ltb n 10)) [
  | inl e ↦ (1, omega arith, ground arith)
  | inr e ↦
      let (k, pos, rest) =
        read_digits-decimal_loop f (n / 10) ((48 + n % 10) ∷ acc) (ground arith) in
      (k + 1, omega arith, ground (arith, rest))
]

read_port-decimal : (p : ℕ) → p ≤ 65535 → read_port (b':' ∷ decimal p) ≡ some (p, [])
unfolding read_port read_number given_char decimal
read_port-decimal p h =
    let (k, pos, e) = read_digits-decimal_loop (suc p) p [] (omega arith) in
    let whole : read_digits 10 (decimal_loop (suc p) p []) 0 0 ≡ (p, k, []) =
      e ∙ unfold read_digits in refl in
    rw whole (ground arith)

read_ipv4-localhost :
    (s : Text) → read_ipv4 (codes "127.0.0.1" ++ b':' ∷ s) ≡ some (127 ∷ 0 ∷ 0 ∷ 1 ∷ [], b':' ∷ s)
unfolding read_ipv4 octet read_number given_char read_digits digit_value
read_ipv4-localhost s = refl

parse_socket_addr_v4 :
    (s ip rest : Text) (p : ℕ)
    → read_ipv4 s ≡ some (ip, rest)
    → read_port rest ≡ some (p, [])
    → parse_socket_addr s ≡ some (v4 ip p)
unfolding parse_socket_addr read_v4 at_end
parse_socket_addr_v4 s ip rest p h k = rw (parse_socket_addr, h) (rw k refl)

pub parse_socket_addr-localhost :
    (p : ℕ)
    → p ≤ 65535
    → parse_socket_addr (codes "127.0.0.1" ++ b':' ∷ decimal p) ≡ some (v4 (127 ∷ 0 ∷ 0 ∷ 1 ∷ []) p)
parse_socket_addr-localhost p h =
    parse_socket_addr_v4 (codes "127.0.0.1" ++ b':' ∷ decimal p) (127 ∷ 0 ∷ 0 ∷ 1 ∷ [])
      (b':' ∷ decimal p) p (read_ipv4-localhost (decimal p)) (read_port-decimal p h)
