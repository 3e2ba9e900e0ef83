-- ===== src/Socks/Protocol/Auth.antt =====
-- What the method negotiation of rust/arti-ffi/src/socks.rs does with each greeting.
use go_arti.Prelude.{
  ℕ, ◌-◌, ◌≤◌, ◌≡◌, ◌≢◌, true, false, none, some, [], ◌∷◌, ◌++◌, arith, ok, err, length, Bytes,
}
use go_arti.Socks.Stream.{stream, reads, write_all-fits, no_acceptable_method, bad_socks_version}
use go_arti.Socks.Protocol.{
  ver5, auth_none, auth_userpass, auth_none_acceptable, contains, read_credentials, choose_method,
  negotiate_auth,
}

-- RFC 1928: VER NMETHODS METHODS, and RFC 1929: VER ULEN UNAME PLEN PASSWD.
abbrev pub greeting : Bytes → Bytes
greeting methods = ver5 ∷ length methods ∷ methods

abbrev pub login_as : ℕ → Bytes → Bytes → Bytes → Bytes
login_as ver user pass rest = ver ∷ length user ∷ (user ++ (length pass ∷ (pass ++ rest)))

abbrev pub login : Bytes → Bytes → Bytes → Bytes
login = login_as 0x01

module _ (methods rest o : Bytes) (r : ℕ) where
  negotiate_auth-greeting :
      negotiate_auth (stream (greeting methods ++ rest) o r)
      ≡ choose_method methods (stream rest o r)
  unfolding negotiate_auth
  negotiate_auth-greeting = simp reads

  -- Without authentication among the methods it is chosen, whatever else is offered: the answer
  -- is the two bytes 05 00, no credentials result, and what follows the greeting is not read.
  pub negotiate_auth-none :
      contains methods auth_none ≡ true
      → 2 ≤ r
      → negotiate_auth (stream (greeting methods ++ rest) o r)
        ≡ (ok none, stream rest (o ++ ver5 ∷ auth_none ∷ []) (r - 2))
  unfolding choose_method
  negotiate_auth-none h room =
      rw (negotiate_auth-greeting, choose_method, h, write_all-fits _ rest o r room)

  -- A client that offers neither method is answered 05 FF, and the exchange ends in an error.
  negotiate_auth-refused :
      contains methods auth_none ≡ false
      → contains methods auth_userpass ≡ false
      → 2 ≤ r
      → negotiate_auth (stream (greeting methods ++ rest) o r)
        ≡ (err no_acceptable_method, stream rest (o ++ ver5 ∷ auth_none_acceptable ∷ []) (r - 2))
  unfolding choose_method
  negotiate_auth-refused h k room =
      rw (negotiate_auth-greeting, choose_method, h, k, write_all-fits _ rest o r room)

read_credentials-login :
    (ver : ℕ) (user pass rest o : Bytes) (r : ℕ)
    → 2 ≤ r
    → read_credentials (stream (login_as ver user pass rest) o r)
      ≡ (ok (some (user, pass)), stream rest (o ++ 0x01 ∷ 0x00 ∷ []) (r - 2))
unfolding read_credentials
read_credentials-login ver user pass rest o r room =
    simp (reads, write_all-fits (0x01 ∷ 0x00 ∷ []) rest o r room)

-- The version byte of the login is not looked at.
pub negotiate_auth-login_as :
    (ver : ℕ) (methods user pass rest o : Bytes) (r : ℕ)
    → contains methods auth_none ≡ false
    → contains methods auth_userpass ≡ true
    → 4 ≤ r
    → negotiate_auth (stream (greeting methods ++ login_as ver user pass rest) o r) ≡ (
      ok (some (user, pass)),
      stream rest ((o ++ ver5 ∷ auth_userpass ∷ []) ++ 0x01 ∷ 0x00 ∷ []) (r - 2 - 2),
    )
unfolding choose_method
negotiate_auth-login_as ver methods user pass rest o r h k room =
    let fits =
      write_all-fits (ver5 ∷ auth_userpass ∷ []) (login_as ver user pass rest) o r (omega arith) in
    rw
      (negotiate_auth-greeting methods (login_as ver user pass rest) o r, choose_method, h, k, fits)
      (read_credentials-login ver user pass rest (o ++ ver5 ∷ auth_userpass ∷ []) (r - 2)
        (omega arith))

-- A client that offers a password and not the absence of one, and then logs in, is answered 05 02
-- and 01 00; its user name and password come back byte for byte, and what follows is not read.
pub negotiate_auth-login :
    (methods user pass rest o : Bytes) (r : ℕ)
    → contains methods auth_none ≡ false
    → contains methods auth_userpass ≡ true
    → 4 ≤ r
    → negotiate_auth (stream (greeting methods ++ login user pass rest) o r) ≡ (
      ok (some (user, pass)),
      stream rest ((o ++ ver5 ∷ auth_userpass ∷ []) ++ 0x01 ∷ 0x00 ∷ []) (r - 2 - 2),
    )
negotiate_auth-login = negotiate_auth-login_as 0x01

-- A greeting of another version is an error before anything is written.
negotiate_auth-version :
    (v n : ℕ) (rest o : Bytes) (r : ℕ)
    → v ≢ ver5
    → negotiate_auth (stream (v ∷ n ∷ rest) o r) ≡ (err bad_socks_version, stream rest o r)
unfolding negotiate_auth
negotiate_auth-version v n rest o r h = simp reads (ground arith)
