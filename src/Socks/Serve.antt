-- ===== src/Socks/Serve.antt =====
-- One accepted connection, and the listener (rust/arti-ffi/src/socks.rs: `serve_one`, `spawn`).
-- The crates arti-client and tokio are parameters: what a connection attempt answers, which
-- tokens are made, and what the relay does with the two streams.
pub mod Exchange
pub mod Isolated
pub mod Any
pub mod Accepts
pub mod Asks
pub mod Tasks
use go_arti.Prelude.{ℕ, Option, none, some, List, [], ◌∷◌, Result, ok, err, Text}
use go_arti.Socks.Stream.{Stream, IoError, Io, ◌>>=◌, pure}
use go_arti.Socks.Protocol.{
  Credentials, negotiate_auth, read_connect_request, reply, rep_ok, rep_general_failure,
}
use go_arti.Socks.Isolation.{Isolation, token_for}

-- Both messages of the client; `none` where the request was answered by an error reply.
abbrev pub Handshake : Type 0
Handshake = Option Credentials × Option (Text × ℕ)

unfoldable pub handshake : Io Handshake
handshake = do creds ← negotiate_auth; target ← read_connect_request; pure (creds, target)

-- What `connect_with_prefs` is asked: host, port, and the isolation of the preferences.
pub record Asked (Token : Type 0) : Type 0 where
  pub host : Text
  pub port : ℕ
  pub isolation : Option Token

-- How a connection has ended: the result of its task, its stream, the shared table, and what was
-- asked of the client.
pub record Served (Token : Type 0) : Type 0 where
  pub result : Result IoError (Unit {0})
  pub sock : Stream
  pub table : Isolation Token
  pub asked : Option (Asked Token)

module _ {Token : Type 0} (fresh : ℕ → Token) where
  unfoldable pub isolation_of :
      Option Credentials → Isolation Token → Option Token × Isolation Token
  isolation_of none s = (none, s)
  isolation_of (some c) s = let (t, s') = token_for fresh c s in (some t, s')

-- The answer of the client is `none` for any error.
module _ {Token Remote : Type 0} (fresh : ℕ → Token)
    (connect_with_prefs : Asked Token → Option Remote)
    (copy_bidirectional : Remote → Stream → Stream) where
  -- After the reply the streams are relayed, and the relay's result is dropped.
  relayed : Remote → Result IoError (Unit {0}) × Stream → Result IoError (Unit {0}) × Stream
  relayed remote (ok _, s) = (ok tt, copy_bidirectional remote s)
  relayed remote (err e, s) = (err e, s)

  answer : Option Remote → Stream → Result IoError (Unit {0}) × Stream
  unfolding relayed
  answer none s = reply rep_general_failure s
  answer (some remote) s = relayed remote (reply rep_ok s)

  connected : Stream → Isolation Token → Asked Token → Served Token
  unfolding answer
  connected s table asked =
      let (r, s') = answer (connect_with_prefs asked) s in
      record { result = r; sock = s'; table = table; asked = some asked }

  after_handshake : Isolation Token → Result IoError Handshake × Stream → Served Token
  unfolding connected isolation_of
  after_handshake table (err e, s) = record {
    result = err e;
    sock = s;
    table = table;
    asked = none;
  }
  after_handshake table (ok (creds, none), s) = record {
    result = ok tt;
    sock = s;
    table = table;
    asked = none;
  }
  after_handshake table (ok (creds, some (host, port)), s) =
      let (token, table') = isolation_of fresh creds table in
      connected s table' (record { host = host; port = port; isolation = token })

  unfoldable pub serve_one : Isolation Token → Stream → Served Token
  unfolding after_handshake
  serve_one table sock = after_handshake table (handshake sock)

  -- The accept loop: each round accepts a connection or fails, and a failure is passed over.
  -- Each connection is a task of its own, and the tasks share the table alone; here they are
  -- served one after the other, whole. `Tasks` has them interleaved.
  unfoldable pub accept_loop :
      Isolation Token → List (Option Stream) → List (Served Token) × Isolation Token
  accept_loop table [] = ([], table)
  accept_loop table (none ∷ rest) = accept_loop table rest
  accept_loop table (some sock ∷ rest) =
      let served = serve_one table sock in
      let (others, end) = accept_loop served.table rest in (served ∷ others, end)

-- `spawn`: the address that the listener reports; `none` for an error of `bind` or `local_addr`.
unfoldable pub spawn :
    {Addr Listener : Type 0}
    → (Addr → Option Listener)
    → (Listener → Option Addr)
    → Addr
    → Option Addr
spawn bind local_addr addr = elim (bind addr) [ none ↦ none | some listener ↦ local_addr listener ]
