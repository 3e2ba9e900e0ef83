-- ===== src/Socks/Protocol.antt =====
-- The messages of the exchange (rust/arti-ffi/src/socks.rs): `negotiate_auth`,
-- `read_connect_request` and `reply`.
pub mod Auth
pub mod Request
pub mod Accepts
pub mod AnyGreeting
pub mod AnyRequest
use go_arti.Prelude.{
  ℕ, ◌+◌, ◌*◌, Bool, false, not, ◌||◌, Option, none, some, [], ◌∷◌, ◌==◌, if◌then◌else◌, get_or,
  Bytes, Text,
}
use go_arti.Text.Utf8.{from_utf8}
use go_arti.Text.Address.{ipv4_to_string, ipv6_to_string}
use go_arti.Socks.Stream.{
  Stream, Io, ◌>>=◌, ◌>>◌, pure, fail, read_exact, write_all, bad_socks_version,
  no_acceptable_method, bad_domain,
}

abbrev pub ver5 : ℕ
ver5 = 0x05

abbrev pub auth_none : ℕ
auth_none = 0x00

abbrev pub auth_userpass : ℕ
auth_userpass = 0x02

abbrev pub auth_none_acceptable : ℕ
auth_none_acceptable = 0xff

abbrev pub cmd_connect : ℕ
cmd_connect = 0x01

abbrev pub atyp_ipv4 : ℕ
atyp_ipv4 = 0x01

abbrev pub atyp_domain : ℕ
atyp_domain = 0x03

abbrev pub atyp_ipv6 : ℕ
atyp_ipv6 = 0x04

-- The reply codes of `mod rep`.
abbrev pub rep_ok : ℕ
rep_ok = 0x00

abbrev pub rep_general_failure : ℕ
rep_general_failure = 0x01

abbrev pub rep_cmd_not_supported : ℕ
rep_cmd_not_supported = 0x07

abbrev pub rep_atyp_not_supported : ℕ
rep_atyp_not_supported = 0x08

-- User name and password.
abbrev pub Credentials : Type 0
Credentials = Bytes × Bytes

-- An index into a buffer of known size.
abbrev pub at : Bytes → ℕ → ℕ
at b i = get_or b i 0

unfoldable pub contains : Bytes → ℕ → Bool
contains [] x = false
contains (b ∷ bs) x = b == x || contains bs x

abbrev pub reply_bytes : ℕ → Bytes
reply_bytes c = ver5 ∷ c ∷ 0x00 ∷ atyp_ipv4 ∷ 0 ∷ 0 ∷ 0 ∷ 0 ∷ 0 ∷ 0 ∷ []

unfoldable pub reply : ℕ → Io Unit
reply c = write_all (reply_bytes c)

-- RFC 1929, after the method has been chosen: VER ULEN UNAME PLEN PASSWD.
unfoldable pub read_credentials : Io (Option Credentials)
read_credentials = do
  ver ← read_exact 1
  ulen ← read_exact 1
  user ← read_exact (at ulen 0)
  plen ← read_exact 1
  pass ← read_exact (at plen 0)
  write_all (0x01 ∷ 0x00 ∷ [])
  pure (some (user, pass))

unfoldable pub choose_method : Bytes → Io (Option Credentials)
unfolding contains
choose_method methods =
    if contains methods auth_none
    then (do write_all (ver5 ∷ auth_none ∷ []); pure none)
    else if not (contains methods auth_userpass)
    then (do write_all (ver5 ∷ auth_none_acceptable ∷ []); fail no_acceptable_method)
    else (do write_all (ver5 ∷ auth_userpass ∷ []); read_credentials)

unfoldable pub negotiate_auth : Io (Option Credentials)
negotiate_auth = do
  hello ← read_exact 2
  if not (at hello 0 == ver5)
      then fail bad_socks_version
      else do methods ← read_exact (at hello 1); choose_method methods

domain_text : Option Text → Io (Option Text)
domain_text none = fail bad_domain
domain_text (some host) = pure (some host)

-- The host, by the address type; `none` when the type was refused by a reply.
unfoldable pub read_host : ℕ → Io (Option Text)
unfolding domain_text
read_host atyp =
    if atyp == atyp_ipv4
    then (do b ← read_exact 4; pure (some (ipv4_to_string b)))
    else if atyp == atyp_ipv6
    then (do b ← read_exact 16; pure (some (ipv6_to_string b)))
    else if atyp == atyp_domain
    then (do len ← read_exact 1; b ← read_exact (at len 0); domain_text (from_utf8 b))
    else (do reply rep_atyp_not_supported; pure none)

unfoldable pub read_port : Option Text → Io (Option (Text × ℕ))
read_port none = pure none
read_port (some host) = do port ← read_exact 2; pure (some (host, at port 0 * 256 + at port 1))

unfoldable pub read_target : Bytes → Io (Option (Text × ℕ))
read_target head =
    if not (at head 0 == ver5)
    then fail bad_socks_version
    else if not (at head 1 == cmd_connect)
    then (do reply rep_cmd_not_supported; pure none)
    else (do host ← read_host (at head 3); read_port host)

unfoldable pub read_connect_request : Io (Option (Text × ℕ))
read_connect_request = do head ← read_exact 4; read_target head
