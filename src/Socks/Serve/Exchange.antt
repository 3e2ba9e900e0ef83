-- ===== src/Socks/Serve/Exchange.antt =====
-- Whole exchanges of rust/arti-ffi/src/socks.rs, from the greeting to the relay.
use go_arti.Prelude.{
  ℕ, ◌-◌, ◌≤◌, ◌≡◌, true, false, Option, none, some, [], ◌∷◌, ◌++◌, arith, ok, Bytes,
}
use go_arti.Socks.Stream.{Stream, stream, write_all-fits}
use go_arti.Socks.Protocol.{
  ver5, auth_none, auth_userpass, contains, rep_ok, rep_general_failure, reply, reply_bytes,
}
use go_arti.Socks.Protocol.Auth.{greeting, login, negotiate_auth-login}
use go_arti.Socks.Protocol.Request.{
  Target, IsTarget, show, connect_request, read_connect_request-encode,
}
use go_arti.Socks.Serve.{Asked, handshake, answer, serve_one, Isolation, token_for}

pub handshake-login :
    (methods user pass : Bytes) (rsv : ℕ) (t : Target) (p : ℕ) (payload o : Bytes) (r : ℕ)
    → contains methods auth_none ≡ false
    → contains methods auth_userpass ≡ true
    → IsTarget t
    → 4 ≤ r
    → handshake (stream (greeting methods ++ login user pass (connect_request rsv t p payload)) o r)
      ≡ (
        ok (some (user, pass), some (show t, p)),
        stream payload ((o ++ ver5 ∷ auth_userpass ∷ []) ++ 0x01 ∷ 0x00 ∷ []) (r - 2 - 2),
      )
unfolding handshake
handshake-login methods user pass rsv t p payload o r h k v room = simp (
  negotiate_auth-login methods user pass (connect_request rsv t p payload) o r h k room,
  read_connect_request-encode rsv t p payload ((o ++ ver5 ∷ auth_userpass ∷ []) ++ 0x01 ∷ 0x00 ∷ [])
      (r - 2 - 2) v,
)

module _ {Token Remote : Type 0} (fresh : ℕ → Token)
    (connect_with_prefs : Asked Token → Option Remote)
    (copy_bidirectional : Remote → Stream → Stream) where
  -- The stream after the answer to a connection attempt.
  abbrev pub answered : Option Remote → Bytes → Bytes → ℕ → Stream
  answered none i o r = stream i (o ++ reply_bytes rep_general_failure) (r - 10)
  answered (some remote) i o r =
      copy_bidirectional remote (stream i (o ++ reply_bytes rep_ok) (r - 10))

  answer-answered :
      (remote : Option Remote) (i o : Bytes) (r : ℕ)
      → 10 ≤ r
      → answer fresh connect_with_prefs copy_bidirectional remote (stream i o r)
        ≡ (ok tt, answered remote i o r)
  unfolding answer reply
  answer-answered none i o r h = write_all-fits (reply_bytes rep_general_failure) i o r h
  answer-answered (some remote) i o r h = rw (write_all-fits (reply_bytes rep_ok) i o r h)

  -- A client that logs in and asks for a valid target: the attempt is made for that host and port
  -- under the token of its credentials, and the client is told its outcome after 05 02 and 01 00.
  pub serve_one-login :
      (table : Isolation Token) (methods user pass : Bytes) (rsv : ℕ) (t : Target) (p : ℕ)
      (payload : Bytes) (r : ℕ)
      → contains methods auth_none ≡ false
      → contains methods auth_userpass ≡ true
      → IsTarget t
      → 14 ≤ r
      → (let (token, table') = token_for fresh (user, pass) table in
          let asked : Asked Token = record { host = show t; port = p; isolation = some token } in
          serve_one fresh connect_with_prefs copy_bidirectional table
            (stream (greeting methods ++ login user pass (connect_request rsv t p payload)) [] r)
          ≡ record {
            result = ok tt;
            sock =
                answered
                  (connect_with_prefs asked)
                  payload
                  (ver5 ∷ auth_userpass ∷ 0x01 ∷ 0x00 ∷ [])
                  (r - 2 - 2);
            table = table';
            asked = some asked;
          })
  unfolding serve_one
  serve_one-login table methods user pass rsv t p payload r h k v room =
      rw (handshake-login methods user pass rsv t p payload [] r h k v (omega arith))
        (rw (answer-answered _ payload _ (r - 2 - 2) (omega arith)))
