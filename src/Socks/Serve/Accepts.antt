-- ===== src/Socks/Serve/Accepts.antt =====
-- Which inputs bring the exchange of rust/arti-ffi/src/socks.rs to a connection attempt.

use go_arti.Prelude.{
  ℕ, ◌≤◌, ◌≡◌, refl, ap, ◌∙◌, ◌↔◌, Option, none, some, [], ◌∷◌, ◌++◌, append-nil, append_assoc,
  arith, ok, Bytes, Text,
}
use go_arti.Socks.Stream.{stream}
use go_arti.Socks.Stream.Effects.{IsBytes}
use go_arti.Socks.Stream.Takes.{Takes, Takes-bind, Takes-pure}
use go_arti.Socks.Protocol.{ver5, Credentials, negotiate_auth, read_connect_request}
use go_arti.Socks.Protocol.Auth.{negotiate_auth-login_as, negotiate_auth-none}
use go_arti.Socks.Protocol.Request.{
  Target, encode_target, be_bytes, connect_request, read_connect_request-encode,
}
use go_arti.Socks.Protocol.Accepts.{
  GreetingFor, RequestFor, negotiate_auth-Takes, read_connect_request-Takes,
}
use go_arti.Socks.Serve.{Handshake, handshake}

-- A greeting with its login, if any, and then a request.
abbrev pub ExchangeFor : Handshake → Bytes → Type 0
ExchangeFor h front =
    (hello request : Bytes) × (front ≡ hello ++ request)
    × GreetingFor h.0 hello
    × RequestFor h.1 request

handshake-Takes : Takes ExchangeFor handshake
unfolding handshake
handshake-Takes = Takes-bind _ GreetingFor negotiate_auth _ negotiate_auth-Takes (λ creds hello g _.
    Takes-bind _ RequestFor read_connect_request _ read_connect_request-Takes (λ target request q _.
      Takes-pure _ _ (hello, request, ap (λ l. hello ++ l) (append-nil request), g, q)))

-- After the greeting, and with room for its answers.
module _ (rest o : Bytes) (r : ℕ) (room : 4 ≤ r) where
  greeted :
      (creds : Option Credentials) (hello : Bytes)
      → GreetingFor creds hello
      → (o' : Bytes) × (r' : ℕ) × (negotiate_auth (stream (hello ++ rest) o r)
          ≡ (ok creds, stream rest o' r'))
  greeted none hello (methods, h, e) = (
    _,
    _,
    ap (λ l. negotiate_auth (stream (l ++ rest) o r)) e
        ∙ negotiate_auth-none methods rest o r h (omega (arith, room)),
  )
  greeted (some c) hello (methods, ver, h, k, e) = (
    _,
    _,
    ap (λ l. negotiate_auth (stream l o r)) (ap (λ l. l ++ rest) e ∙ simp append_assoc)
        ∙ negotiate_auth-login_as ver methods c.0 c.1 rest o r h k room,
  )

connect_request-append :
    (rsv : ℕ) (t : Target) (p : ℕ) (rest : Bytes)
    → connect_request rsv t p [] ++ rest ≡ connect_request rsv t p rest
connect_request-append rsv t p rest =
    ap (λ l. ver5 ∷ 1 ∷ rsv ∷ l) (append_assoc (encode_target t) (be_bytes p) rest)

-- A request is read whatever comes after it.
requested :
    (host : Text) (port : ℕ) (request rest o : Bytes) (r : ℕ)
    → RequestFor (some (host, port)) request
    → read_connect_request (stream (request ++ rest) o r)
      ≡ (ok (some (host, port)), stream rest o r)
requested host port request rest o r (rsv, t, t_ok, shown, small, e) =
    ap (λ l. read_connect_request (stream (l ++ rest) o r)) e
    ∙ ap (λ l. read_connect_request (stream l o r)) (connect_request-append rsv t port rest)
    ∙ read_connect_request-encode rsv t port rest o r t_ok
    ∙ ap (λ h. (ok (some (h, port)), stream rest o r)) shown

-- A stream of bytes with room for the answers to the greeting brings the exchange to credentials, a
-- host and a port, and leaves `rest` unread, exactly if its input is three parts: a greeting for
-- these credentials with the login, if any; a CONNECT request for a target that is written as this
-- host, with this port; and `rest`.
pub accepts_exactly :
    (creds : Option Credentials) (host : Text) (port : ℕ) (input rest o : Bytes) (r : ℕ)
    → IsBytes input
    → 4 ≤ r
    → ((handshake (stream input o r)).0 ≡ ok (creds, some (host, port)))
        × ((handshake (stream input o r)).1.input ≡ rest)
      ↔ ((front : Bytes) × (input ≡ front ++ rest) × ExchangeFor (creds, some (host, port)) front)
unfolding handshake
accepts_exactly creds host port input rest o r bytes room = (sound, complete)
  where
    sound :
        ((handshake (stream input o r)).0 ≡ ok (creds, some (host, port)))
          × ((handshake (stream input o r)).1.input ≡ rest)
        → (front : Bytes) × (input ≡ front ++ rest) × ExchangeFor (creds, some (host, port)) front
    sound (h, e) =
        let (front, whole, _, _, q) = handshake-Takes (stream input o r) _ bytes h in
        (front, whole ∙ ap (λ l. front ++ l) e, q)

    complete :
        ((front : Bytes) × (input ≡ front ++ rest) × ExchangeFor (creds, some (host, port)) front)
        → ((handshake (stream input o r)).0 ≡ ok (creds, some (host, port)))
          × ((handshake (stream input o r)).1.input ≡ rest)
    complete (front, whole, (hello, request, e, g, q)) =
        let (o', r', h) = greeted (request ++ rest) o r room creds hello g in
        let at_input : input ≡ hello ++ (request ++ rest) =
          whole ∙ ap (λ l. l ++ rest) e ∙ append_assoc hello request rest in
        rw (at_input, h, requested host port request rest o' r' q) (refl, refl)
