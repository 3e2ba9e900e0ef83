-- ===== src/Socks/Protocol/Accepts.antt =====
-- Which messages the readers of rust/arti-ffi/src/socks.rs have taken off the input when they
-- succeed.
use mathlib.Core.Path.{subst}
use go_arti.Prelude.{
  ℕ, ◌+◌, ◌*◌, ◌<◌, ◌≡◌, refl, sym, ap, ◌∙◌, inl, inr, true, false, Option, none, some, [], ◌∷◌,
  ◌++◌, append-nil, arith, ◌==◌, ==_iff, Bool-cases, length, Bytes, Text,
}
use go_arti.Socks.Stream.Takes.{
  Takes, Takes-weaken, Takes-read_two, Takes-read_four, Takes-bind, Takes-pure, Takes-read,
  Takes-write, Takes-read_one, Takes-fail,
}
use go_arti.Socks.Stream.{bad_domain, bad_socks_version}
use go_arti.Text.Utf8.{from_utf8, is_utf8}
use go_arti.Socks.Protocol.Request.{
  Target, ipv4, ipv6, domain, IsTarget, show, encode_target, be_bytes, connect_request,
}
use go_arti.Socks.Protocol.{
  cmd_connect, atyp_ipv4, atyp_ipv6, atyp_domain, reply, domain_text, read_host, read_port,
  read_target, read_connect_request, ver5, negotiate_auth, auth_none, auth_userpass, contains,
  Credentials, read_credentials, choose_method, no_acceptable_method,
}
use go_arti.Socks.Protocol.Auth.{greeting, login_as}

-- A greeting that offers no authentication, or one that does not, offers a password, and is
-- followed by the login.
abbrev pub GreetingFor : Option Credentials → Bytes → Type 0
GreetingFor none front =
    (methods : Bytes) × (contains methods auth_none ≡ true) × (front ≡ greeting methods)
GreetingFor (some c) front =
    (methods : Bytes) × (ver : ℕ) × (contains methods auth_none ≡ false)
    × (contains methods auth_userpass ≡ true)
    × (front ≡ greeting methods ++ login_as ver c.0 c.1 [])

abbrev LoginFor : Option Credentials → Bytes → Type 0
LoginFor none front = ⊥
LoginFor (some c) front = (ver : ℕ) × (front ≡ login_as ver c.0 c.1 [])

read_credentials-Takes : Takes LoginFor read_credentials
unfolding read_credentials
read_credentials-Takes = Takes-read_one _ _ (λ ver _. Takes-read_one _ _ (λ ulen _.
    Takes-read _ ulen _ (λ user size _. Takes-read_one _ _ (λ plen _.
      Takes-read _ plen _
        (λ pass size' _. Takes-write _ _ _ (Takes-pure _ _ (ver, ground arith)))))))

after_login :
    (methods : Bytes)
    → contains methods auth_none ≡ false
    → contains methods auth_userpass ≡ true
    → (c : Option Credentials) (front : Bytes) → LoginFor c front
    → GreetingFor c (greeting methods ++ front)
after_login methods h k none front l = absurd l
after_login methods h k (some c) front (ver, e) =
    (methods, ver, h, k, ap (λ l. greeting methods ++ l) e)

choose_method-Takes :
    (methods : Bytes)
    → Takes (λ c rest. GreetingFor c (greeting methods ++ rest)) (choose_method methods)
unfolding choose_method
choose_method-Takes methods = elim (Bool-cases (contains methods auth_none)) [
  | inl e ↦
      rw (choose_method, e)
        (Takes-write _ _ _ (Takes-pure _ _ (methods, e, append-nil (greeting methods))))
  | inr e ↦ elim (Bool-cases (contains methods auth_userpass)) [
    | inl k ↦
        rw (choose_method, e, k)
          (Takes-write _ _ _
            (Takes-weaken _ _ read_credentials (after_login methods e k) read_credentials-Takes))
    | inr k ↦ rw (choose_method, e, k) (Takes-write _ _ _ (Takes-fail _ no_acceptable_method))
  ]
]

-- As the client of a greeting of the right version.
pub negotiate_auth-Takes : Takes GreetingFor negotiate_auth
unfolding negotiate_auth
negotiate_auth-Takes = Takes-read_two _ _ (λ v n _ _. elim (Bool-cases (v == ver5)) [
  | inl e ↦
      let is_greeting : (methods : Bytes)
          → length methods ≡ n
          → greeting methods ≡ v ∷ n ∷ methods =
        λ methods size. ground (arith, size) in
      rw e (
        Takes-read _ n _ (λ methods size _.
          subst (λ g. Takes (λ c rest. GreetingFor c (g ++ rest)) (choose_method methods))
            (is_greeting methods size) (choose_method-Takes methods)))
  | inr e ↦ rw e (Takes-fail _ bad_socks_version)
])

-- A request to connect to a target of which the result is the text and the port.
abbrev pub RequestFor : Option (Text × ℕ) → Bytes → Type 0
RequestFor none front = Unit {0}
RequestFor (some r) front =
    (rsv : ℕ) × (t : Target) × IsTarget t
    × (show t ≡ r.0)
    × (r.1 < 65536)
    × (front ≡ connect_request rsv t r.1 [])

abbrev AddressFor : ℕ → Option Text → Bytes → Type 0
AddressFor atyp none front = Unit {0}
AddressFor atyp (some host) front =
    (t : Target) × IsTarget t × (show t ≡ host) × (atyp ∷ front ≡ encode_target t)

domain_text-Takes :
    (n : ℕ) (b : Bytes)
    → length b ≡ n
    → n < 256
    → Takes (λ r rest. AddressFor atyp_domain r (n ∷ (b ++ rest))) (domain_text (from_utf8 b))
unfolding from_utf8 domain_text
domain_text-Takes n b size small = elim (Bool-cases (is_utf8 b)) [
  | inl e ↦
      rw (from_utf8, e)
        (Takes-pure _ _ (
          domain b,
          (omega (arith, size, small), rw (from_utf8, e) refl),
          refl,
          ground (arith, append-nil b, size),
        ))
  | inr e ↦ rw (from_utf8, e) (Takes-fail _ bad_domain)
]

read_host-Takes : (atyp : ℕ) → Takes (AddressFor atyp) (read_host atyp)
unfolding read_host reply
read_host-Takes atyp = elim (Bool-cases (atyp == atyp_ipv4)) [
  | inl e ↦
      rw (read_host, e)
        (Takes-read _ 4 _ (λ b size _.
          Takes-pure _ _ (ipv4 b, size, refl, ground (arith, append-nil b, ==_iff atyp atyp_ipv4))))
  | inr e ↦ elim (Bool-cases (atyp == atyp_ipv6)) [
    | inl e' ↦
        rw (read_host, e, e')
          (Takes-read _ 16 _ (λ b size _.
            Takes-pure _ _
              (ipv6 b, size, refl, ground (arith, append-nil b, ==_iff atyp atyp_ipv6))))
    | inr e' ↦ elim (Bool-cases (atyp == atyp_domain)) [
      | inl e'' ↦
          rw (read_host, e, e', e'')
            (Takes-read_one _ _ (λ n small. Takes-read _ n _ (λ b size _.
              subst
                (λ x.
                  Takes (λ r rest. AddressFor x r (n ∷ (b ++ rest))) (domain_text (from_utf8 b)))
                (sym ((==_iff atyp atyp_domain).0 e'')) (domain_text-Takes n b size small))))
      | inr e'' ↦ rw (read_host, e, e', e'') (Takes-write _ _ _ (Takes-pure _ _ tt))
    ]
  ]
]

bytes_of :
    (hi lo : ℕ) → hi < 256 → lo < 256 → ◌≡◌ {A = Bytes} (hi ∷ lo ∷ []) (be_bytes (hi * 256 + lo))
bytes_of hi lo h k = ground arith

read_port-Takes :
    (rsv atyp : ℕ) (host : Option Text) (front : Bytes)
    → AddressFor atyp host front
    → Takes
        (λ r rest. RequestFor r (ver5 ∷ cmd_connect ∷ rsv ∷ atyp ∷ (front ++ rest)))
        (read_port host)
unfolding read_port
read_port-Takes rsv atyp none front h = Takes-pure _ _ tt
read_port-Takes rsv atyp (some host) front (t, t_ok, shown, e) =
    Takes-read_two _ _ (λ hi lo hi_small lo_small. Takes-pure _ _ (
      rsv,
      t,
      t_ok,
      shown,
      omega (arith, hi_small, lo_small),
      ap (λ l. ver5 ∷ cmd_connect ∷ rsv ∷ (l ++ hi ∷ lo ∷ [])) e
          ∙ ap (λ p. ver5 ∷ cmd_connect ∷ rsv ∷ (encode_target t ++ p))
              (bytes_of hi lo hi_small lo_small),
    ))

read_target-Takes :
    (rsv atyp : ℕ)
    → Takes
        (λ r rest. RequestFor r (ver5 ∷ cmd_connect ∷ rsv ∷ atyp ∷ rest))
        (read_target (ver5 ∷ cmd_connect ∷ rsv ∷ atyp ∷ []))
unfolding read_target
read_target-Takes rsv atyp =
    Takes-bind _ (AddressFor atyp) (read_host atyp) read_port (read_host-Takes atyp)
      (λ host front h _. read_port-Takes rsv atyp host front h)

pub read_connect_request-Takes : Takes RequestFor read_connect_request
unfolding read_connect_request read_target reply
read_connect_request-Takes = Takes-read_four _ _ (λ v c rsv atyp. elim (Bool-cases (v == ver5)) [
  | inl e ↦ elim (Bool-cases (c == cmd_connect)) [
    | inl k ↦
        subst
          (λ x.
            Takes (λ r rest. RequestFor r (x ∷ c ∷ rsv ∷ atyp ∷ rest))
              (read_target (x ∷ c ∷ rsv ∷ atyp ∷ [])))
          (sym ((==_iff v ver5).0 e))
          (subst
            (λ x.
              Takes (λ r rest. RequestFor r (ver5 ∷ x ∷ rsv ∷ atyp ∷ rest))
                (read_target (ver5 ∷ x ∷ rsv ∷ atyp ∷ [])))
            (sym ((==_iff c cmd_connect).0 k)) (read_target-Takes rsv atyp))
    | inr k ↦ rw (e, k) (Takes-write _ _ _ (Takes-pure _ _ tt))
  ]
  | inr e ↦ rw e (Takes-fail _ bad_socks_version)
])
