-- ===== src/Socks/Protocol/AnyGreeting.antt =====
-- What `negotiate_auth` of rust/arti-ffi/src/socks.rs comes to on any input at all.

use go_arti.Prelude.{
  ℕ, zero, suc, ◌≤◌, ◌≡◌, refl, ap, ◌⊎◌, inl, inr, not, Option, none, some, [], ◌∷◌, arith, ◌==◌,
  if◌then◌else◌, Bool-cases, Result, ok, err, length, Bytes,
}
use go_arti.Socks.Stream.{
  IoError, ◌>>=◌, pure, bad_socks_version, no_acceptable_method, fail, read_exact,
}
use go_arti.Socks.Stream.Effects.{IsBytes, Does, now-Does, weaken-Does, read-Does, write-Does}
use go_arti.Socks.Protocol.{
  Credentials, ver5, at, auth_none, auth_userpass, auth_none_acceptable, contains, read_credentials,
  choose_method, negotiate_auth,
}

abbrev HadCredentials : Result IoError (Option Credentials) → Bytes → Type 0
HadCredentials (ok none) written = ⊥
HadCredentials (ok (some (user, pass))) written =
    (length user ≤ 255) × (length pass ≤ 255) × (written ≡ 0x01 ∷ 0x00 ∷ [])
HadCredentials (err e) written = written ≡ []

pub at-byte : (b : Bytes) (i : ℕ) → IsBytes b → at b i ≤ 255
at-byte [] i h = omega arith
at-byte (x ∷ xs) zero h = omega (arith, h.0)
at-byte (x ∷ xs) (suc i) h = at-byte xs i h.1

read_credentials-Does : Does 513 2 HadCredentials read_credentials
unfolding read_credentials
read_credentials-Does =
    read-Does Q 1 1 512 2 _ (omega arith)
      (λ ver _ _.
        read-Does Q 1 1 511 2 _ (omega arith)
          (λ ulen _ hu.
            read-Does Q (at ulen 0) 255 256 2 _ (at-byte ulen 0 hu)
              (λ user lu _.
                read-Does Q 1 1 255 2 _ (omega arith)
                  (λ plen _ hp.
                    read-Does Q (at plen 0) 255 0 2 _ (at-byte plen 0 hp)
                      (λ pass lp _. write-Does Q (0x01 ∷ 0x00 ∷ []) 0 0 (pure (some (user, pass))) (
                        now-Does _ (ok (some (user, pass))) (
                          omega (arith, at-byte ulen 0 hu),
                          omega (arith, at-byte plen 0 hp),
                          refl,
                        )))
                      f)
                  f)
              f)
          f)
      f
  where
    Q : Result IoError (Option Credentials) → Bytes → Type 0
    Q = HadCredentials

    f : (e : IoError) → HadCredentials (err e) []
    f e = refl

-- Credentials of at most 255 bytes each, after 05 02 and 01 00; none after 05 00; and an error
-- after nothing, 05 02 or 05 FF.
abbrev pub Negotiated : Result IoError (Option Credentials) → Bytes → Type 0
Negotiated (ok none) written = written ≡ ver5 ∷ auth_none ∷ []
Negotiated (ok (some (user, pass))) written =
    (length user ≤ 255) × (length pass ≤ 255) × (written ≡ ver5 ∷ auth_userpass ∷ 0x01 ∷ 0x00 ∷ [])
Negotiated (err e) written =
    (written ≡ [])
    ⊎ (written ≡ ver5 ∷ auth_userpass ∷ [])
    ⊎ (written ≡ ver5 ∷ auth_none_acceptable ∷ [])

choose_method-Does : (methods : Bytes) → Does 513 4 Negotiated (choose_method methods)
unfolding choose_method
choose_method-Does methods = elim (Bool-cases (contains methods auth_none)) [
  | inl e ↦
      rw (choose_method, e)
        (weaken-Does Negotiated Negotiated 0 2 513 4 _ (omega arith) (omega arith)
          (λ r written q. q)
          (write-Does Negotiated (ver5 ∷ auth_none ∷ []) 0 0 (pure none)
            (now-Does _ (ok none) refl)))
  | inr e ↦ elim (Bool-cases (contains methods auth_userpass)) [
    | inl e' ↦
        rw (choose_method, e, e')
          (write-Does Negotiated (ver5 ∷ auth_userpass ∷ []) 513 2 read_credentials (
            weaken-Does _ HadCredentials 513 2 513 2 read_credentials (omega arith) (omega arith)
              had-Negotiated read_credentials-Does))
    | inr e' ↦
        rw (choose_method, e, e')
          (weaken-Does Negotiated Negotiated 0 2 513 4 _ (omega arith) (omega arith)
            (λ r written q. q)
            (write-Does Negotiated (ver5 ∷ auth_none_acceptable ∷ []) 0 0
              (fail no_acceptable_method) (now-Does _ (err no_acceptable_method) (inr (inr refl)))))
  ]
]
  where
    had-Negotiated :
        (r : Result IoError (Option Credentials)) (written : Bytes)
        → HadCredentials r written
        → Negotiated r (ver5 ∷ auth_userpass ∷ written)
    had-Negotiated (ok none) written h = absurd h
    had-Negotiated (ok (some (user, pass))) written h =
        (h.0, h.1, ap (λ w. ver5 ∷ auth_userpass ∷ w) h.2)
    had-Negotiated (err e) written h = inr (inl (ap (λ w. ver5 ∷ auth_userpass ∷ w) h))

pub negotiate_auth-Does : Does 770 4 Negotiated negotiate_auth
unfolding negotiate_auth
negotiate_auth-Does =
    read-Does Negotiated 2 2 768 4 _ (omega arith) (λ hello _ bytes. greeted hello bytes)
      (λ e. inl refl)
  where
    greeted :
        (hello : Bytes)
        → IsBytes hello
        → Does 768 4 Negotiated (
            if not (at hello 0 == ver5)
            then fail bad_socks_version
            else (read_exact (at hello 1) >>= choose_method))
    greeted hello bytes = elim (Bool-cases (at hello 0 == ver5)) [
      | inl e ↦ rw e (
          read-Does Negotiated (at hello 1) 255 513 4 choose_method (at-byte hello 1 bytes)
            (λ methods _ _. choose_method-Does methods) (λ e'. inl refl))
      | inr e ↦ rw e (
          weaken-Does Negotiated Negotiated 0 0 768 4 _ (omega arith) (omega arith)
            (λ r written q. q) (now-Does Negotiated (err bad_socks_version) (inl refl)))
    ]
