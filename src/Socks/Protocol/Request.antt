-- ===== src/Socks/Protocol/Request.antt =====
-- What the request reader of rust/arti-ffi/src/socks.rs does with each request.
use go_arti.Prelude.{
  ℕ, ◌-◌, ◌/◌, ◌%◌, ◌≤◌, ◌≡◌, ◌≢◌, ◌⊎◌, none, some, [], ◌∷◌, ◌++◌, arith, ◌==◌, if◌then◌else◌, ok,
  err, length, Bytes, Text,
}
use go_arti.Text.Utf8.{from_utf8}
use go_arti.Text.Address.{ipv4_to_string, ipv6_to_string}
use go_arti.Socks.Stream.{stream, read_exact, reads, write_all-fits}
use go_arti.Socks.Protocol.{
  ver5, cmd_connect, atyp_ipv4, atyp_domain, atyp_ipv6, read_host, read_port, read_target,
  read_connect_request, bad_socks_version, reply, reply_bytes, rep_atyp_not_supported,
  rep_cmd_not_supported,
}

-- What a client can ask to be connected to.
pub data Target : Type 0 where
  ipv4 : Bytes → Target
  ipv6 : Bytes → Target
  domain : Text → Target

-- Four octets, sixteen octets, or a text that a length byte can announce.
abbrev pub IsTarget : Target → Type 0
IsTarget (ipv4 b) = length b ≡ 4
IsTarget (ipv6 b) = length b ≡ 16
IsTarget (domain h) = (length h ≤ 255) × (from_utf8 h ≡ some h)

abbrev pub show : Target → Text
show (ipv4 b) = ipv4_to_string b
show (ipv6 b) = ipv6_to_string b
show (domain h) = h

abbrev pub encode_target : Target → Bytes
encode_target (ipv4 b) = atyp_ipv4 ∷ b
encode_target (ipv6 b) = atyp_ipv6 ∷ b
encode_target (domain h) = atyp_domain ∷ length h ∷ h

-- `u16::to_be_bytes`.
abbrev pub be_bytes : ℕ → Bytes
be_bytes p = p / 256 ∷ p % 256 ∷ []

abbrev pub connect_request : ℕ → Target → ℕ → Bytes → Bytes
connect_request rsv t p rest = ver5 ∷ cmd_connect ∷ rsv ∷ (encode_target t ++ (be_bytes p ++ rest))

read_sized :
    (n : ℕ) (b rest o : Bytes) (r : ℕ)
    → length b ≡ n
    → read_exact n (stream (b ++ rest) o r) ≡ (ok b, stream rest o r)
read_sized n b rest o r h = rw (← h) (simp reads)

read_port-be_bytes :
    (h : Text) (p : ℕ) (rest o : Bytes) (r : ℕ)
    → read_port (some h) (stream (be_bytes p ++ rest) o r) ≡ (ok (some (h, p)), stream rest o r)
unfolding read_port
read_port-be_bytes h p rest o r = simp reads (ground arith)

-- A CONNECT request for any of the three kinds of address is read back as its host, in the form
-- that the standard library writes, and its port; nothing is written, nothing more is read.
pub read_connect_request-encode :
    (rsv : ℕ) (t : Target) (p : ℕ) (rest o : Bytes) (r : ℕ)
    → IsTarget t
    → read_connect_request (stream (connect_request rsv t p rest) o r)
      ≡ (ok (some (show t, p)), stream rest o r)
unfolding read_connect_request read_target read_host
read_connect_request-encode rsv (ipv4 b) p rest o r h =
    simp (reads, read_sized 4 b (be_bytes p ++ rest) o r h, read_port-be_bytes)
read_connect_request-encode rsv (ipv6 b) p rest o r h =
    simp (reads, read_sized 16 b (be_bytes p ++ rest) o r h, read_port-be_bytes)
read_connect_request-encode rsv (domain d) p rest o r h = simp (reads, h.1, read_port-be_bytes)

-- A request for another command, or for an address of a kind that is not known, ends the exchange:
-- nothing more is read, the answer is the reply with code 07 or 08, and no target results.
read_connect_request-refused :
    (c rsv a : ℕ) (rest o : Bytes) (r : ℕ)
    → (c ≢ cmd_connect) ⊎ (a ≢ atyp_ipv4) × (a ≢ atyp_domain) × (a ≢ atyp_ipv6)
    → 10 ≤ r
    → read_connect_request (stream (ver5 ∷ c ∷ rsv ∷ a ∷ rest) o r) ≡ (
      ok none,
      stream rest
          (o
            ++ reply_bytes
                (if c == cmd_connect then rep_atyp_not_supported else rep_cmd_not_supported))
          (r - 10),
    )
unfolding read_connect_request read_target read_host reply read_port
read_connect_request-refused c rsv a rest o r h room = simp reads (
    ground (
      arith,
      write_all-fits (reply_bytes rep_cmd_not_supported) rest o r room,
      write_all-fits (reply_bytes rep_atyp_not_supported) rest o r room,
    ))

-- A request of another version is an error before anything is written.
read_connect_request-version :
    (v c rsv a : ℕ) (rest o : Bytes) (r : ℕ)
    → v ≢ ver5
    → read_connect_request (stream (v ∷ c ∷ rsv ∷ a ∷ rest) o r)
      ≡ (err bad_socks_version, stream rest o r)
unfolding read_connect_request read_target
read_connect_request-version v c rsv a rest o r h = simp reads (ground arith)
