-- ===== src/Socks/Serve/Asks.antt =====
-- For which inputs a connection of rust/arti-ffi/src/socks.rs asks the client for a connection, and
-- for which one.

use go_arti.Prelude.{
  ℕ, ◌≤◌, ◌≡◌, refl, sym, ap, ◌∙◌, ◌↔◌, ◌⊎◌, inl, inr, Option, none, some, ◌++◌, arith,
  Option-cases, Result, ok, err, Bytes,
}
use go_arti.Socks.Stream.{Stream, stream, IoError}
use go_arti.Socks.Stream.Effects.{IsBytes}
use go_arti.Socks.Protocol.{Credentials}
use mathlib.Core.Path.{subst}
use go_arti.Prelude.Keys.{pair_key, lookup}
use go_arti.Socks.Isolation.{Isolation, token_for, known_or_new}
use go_arti.Socks.Serve.{
  Handshake, handshake, Asked, isolation_of, connected, after_handshake, serve_one,
}
use go_arti.Socks.Serve.Accepts.{ExchangeFor, accepts_exactly}

module _ {Token Remote : Type 0} (fresh : ℕ → Token)
    (connect_with_prefs : Asked Token → Option Remote)
    (copy_bidirectional : Remote → Stream → Stream) (table : Isolation Token) where
  -- The isolation for these credentials.
  abbrev pub TokenFor : Option Credentials → Option Token → Type 0
  TokenFor none o = o ≡ none
  TokenFor (some c) o =
      ((t : Token) × (lookup c table.tokens ≡ some t) × (o ≡ some t))
      ⊎ ((lookup c table.tokens ≡ none) × (o ≡ some (fresh table.minted)))

  isolation_of-TokenFor :
      (creds : Option Credentials) → TokenFor creds (isolation_of fresh creds table).0
  unfolding isolation_of token_for known_or_new
  isolation_of-TokenFor none = refl
  isolation_of-TokenFor (some c) = elim (Option-cases (lookup c table.tokens)) [
    | inl missing ↦ inr (missing, rw missing refl)
    | inr (t, found) ↦ inl (t, found, rw found refl)
  ]

  TokenFor-isolation_of :
      (creds : Option Credentials) (o : Option Token)
      → TokenFor creds o
      → o ≡ (isolation_of fresh creds table).0
  unfolding isolation_of token_for known_or_new
  TokenFor-isolation_of none o h = h
  TokenFor-isolation_of (some c) o (inl (t, found, e)) = e ∙ rw found refl
  TokenFor-isolation_of (some c) o (inr (missing, e)) = e ∙ rw missing refl

  abbrev after : Result IoError Handshake → Stream → Option (Asked Token)
  after read sock =
      (after_handshake fresh connect_with_prefs copy_bidirectional table (read, sock)).asked

  asked_after :
      (read : Result IoError Handshake) (sock : Stream) (a : Asked Token)
      → after read sock ≡ some a
      → (creds : Option Credentials) × (read ≡ ok (creds, some (a.host, a.port)))
        × TokenFor creds a.isolation
  unfolding after_handshake connected
  asked_after (err e) sock a h = absurd (ground arith)
  asked_after (ok (creds, none)) sock a h = absurd (ground arith)
  asked_after (ok (creds, some (host, port))) sock a h =
      let asks : Asked Token = record {
        host = host;
        port = port;
        isolation = (isolation_of fresh creds table).0;
      } in
      let e : asks ≡ a = ap (λ o. elim o [ none ↦ asks | some x ↦ x ]) h in
      (
        creds,
        ap (λ (x : Asked Token). ok (creds, some (x.host, x.port))) e,
        subst (TokenFor creds) (ap (λ x. x.isolation) e) (isolation_of-TokenFor creds),
      )

  after_read :
      (read : Result IoError Handshake) (sock : Stream) (creds : Option Credentials)
      (a : Asked Token)
      → read ≡ ok (creds, some (a.host, a.port))
      → TokenFor creds a.isolation
      → after read sock ≡ some a
  unfolding after_handshake connected
  after_read read sock creds a h k =
      ap (λ r. after r sock) h
      ∙ ap (λ t. some (record a { isolation = t }))
          (sym (TokenFor-isolation_of creds a.isolation k))

  -- A connection whose input is bytes, with room for the answers to the greeting asks the client
  -- for a connection exactly if its input begins with a greeting, with the login, if any, and a
  -- CONNECT request: for a target that is written as the host that is asked for, with the port that
  -- is asked for; and the isolation that is asked for is none if there was no login, and otherwise
  -- the token that the table has for these credentials, or the next new one if it has none.
  pub asks_exactly :
      (a : Asked Token) (input o : Bytes) (r : ℕ)
      → IsBytes input
      → 4 ≤ r
      → ((serve_one fresh connect_with_prefs copy_bidirectional table (stream input o r)).asked
          ≡ some a)
        ↔ ((creds : Option Credentials) × (front rest : Bytes) × (input ≡ front ++ rest)
            × ExchangeFor (creds, some (a.host, a.port)) front
            × TokenFor creds a.isolation)
  unfolding serve_one
  asks_exactly a input o r bytes room = (
    (λ h.
        let (creds, read, iso) =
          asked_after (handshake (stream input o r)).0 (handshake (stream input o r)).1 a h in
        let (front, whole, exchange) =
          (accepts_exactly creds a.host a.port input _ o r bytes room).0 (read, refl) in
        (creds, front, _, whole, exchange, iso)),
    (λ (creds, front, rest, whole, exchange, iso).
        let (read, _) =
          (accepts_exactly creds a.host a.port input rest o r bytes room).1
            (front, whole, exchange) in
        after_read (handshake (stream input o r)).0 (handshake (stream input o r)).1 creds a read
          iso),
  )
