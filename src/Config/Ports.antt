-- ===== src/Config/Ports.antt =====
-- The port that a text of the configuration means (rust/arti-ffi/src/config.rs).
use go_arti.Prelude.{
  ℕ, zero, suc, ◌<◌, ◌≡◌, refl, ap, ◌≢◌, ◌⊎◌, inl, inr, Option, none, some, [], arith, Bool-cases,
  Text, codes, text_eq, text_eq_sound, text_eq_iff,
}
use go_arti.Text.Number.{parse_u16}
use go_arti.Config.{SocksPort, auto, disabled, fixed, fixed_or, socks_port_of}

-- The port that a text means: the decimal numbers are ports, 0 asks for any, as `auto` does, and a
-- text that is none of these is no port.
abbrev pub PortOf : Text → SocksPort → Type 0
PortOf raw auto = (raw ≡ codes "auto") ⊎ (parse_u16 raw ≡ some 0)
PortOf raw disabled = (raw ≢ codes "auto") × (parse_u16 raw ≡ none)
PortOf raw (fixed p) = (0 < p) × (parse_u16 raw ≡ some p)

fixed_or-PortOf :
    (raw : Text) (o : Option ℕ) → parse_u16 raw ≡ o → raw ≢ codes "auto" → PortOf raw (fixed_or o)
unfolding fixed_or
fixed_or-PortOf raw none e n = (n, e)
fixed_or-PortOf raw (some zero) e n = inr e
fixed_or-PortOf raw (some (suc p)) e n = (omega arith, e)

-- The texts that mean no port are no numbers.
named_disabled : (raw : Text) → (raw ≡ []) ⊎ (raw ≡ codes "disabled") → PortOf raw disabled
unfolding parse_u16
named_disabled raw (inl e) = rw e ((λ h. cc), refl)
named_disabled raw (inr e) = rw e ((λ h. cc), refl)

pub socks_port_of-PortOf : (raw : Text) → PortOf raw (socks_port_of raw)
unfolding socks_port_of parse_u16
socks_port_of-PortOf raw = elim (Bool-cases (text_eq raw (codes "auto"))) [
  | inl a ↦ rw a (inl (text_eq_sound raw _ a))
  | inr na ↦ elim (Bool-cases (text_eq raw (codes "0"))) [
    | inl z ↦ rw (na, z) (inr (ap parse_u16 (text_eq_sound raw _ z)))
    | inr nz ↦ elim (Bool-cases (text_eq raw [])) [
      | inl e ↦ rw (na, nz, e) (named_disabled raw (inl (text_eq_sound raw _ e)))
      | inr ne ↦ elim (Bool-cases (text_eq raw (codes "disabled"))) [
        | inl d ↦ rw (na, nz, ne, d) (named_disabled raw (inr (text_eq_sound raw _ d)))
        | inr nd ↦
            rw (na, nz, ne, nd)
              (fixed_or-PortOf raw (parse_u16 raw) refl
                (λ h. cc (na, (text_eq_iff raw (codes "auto")).1 h)))
      ]
    ]
  ]
]

auto_no_number : (raw : Text) → raw ≡ codes "auto" → parse_u16 raw ≡ none
unfolding parse_u16
auto_no_number raw e = rw e refl

pub PortOf-unique : (raw : Text) (p q : SocksPort) → PortOf raw p → PortOf raw q → p ≡ q
PortOf-unique raw auto auto h k = refl
PortOf-unique raw auto disabled (inl e) (n, k) = absurd (n e)
PortOf-unique raw auto disabled (inr e) (n, k) = absurd (ground arith)
PortOf-unique raw auto (fixed q) (inl e) (l, k) = absurd (ground (arith, auto_no_number raw e))
PortOf-unique raw auto (fixed q) (inr e) (l, k) = absurd (ground arith)
PortOf-unique raw disabled auto (n, e) (inl k) = absurd (n k)
PortOf-unique raw disabled auto (n, e) (inr k) = absurd (ground arith)
PortOf-unique raw disabled disabled h k = refl
PortOf-unique raw disabled (fixed q) h k = absurd (ground arith)
PortOf-unique raw (fixed p) auto (l, e) (inl k) = absurd (ground (arith, auto_no_number raw k))
PortOf-unique raw (fixed p) auto (l, e) (inr k) = absurd (ground arith)
PortOf-unique raw (fixed p) disabled h k = absurd (ground arith)
PortOf-unique raw (fixed p) (fixed q) h k = ground arith
