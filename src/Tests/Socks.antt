-- ===== src/Tests/Socks.antt =====
-- The SOCKS exchange on concrete messages (rust/arti-ffi/src/socks.rs).
use go_arti.Prelude.{
  ℕ, ◌≤◌, ◌≡◌, refl, ap, Bool, true, ◌&&◌, Option, none, some, [], ◌∷◌, ◌++◌, arith, ltb, ok,
  length, Bytes, Text, codes,
}
use go_arti.Prelude.Keys.{lookup}
use go_arti.Text.Utf8.{from_utf8}
use go_arti.Socks.Stream.{Stream, stream}
use go_arti.Socks.Protocol.{contains}
use go_arti.Socks.Protocol.Auth.{greeting, login}
use go_arti.Socks.Protocol.Request.{domain, connect_request}
use go_arti.Socks.Isolation.{Isolation, token_for}
use go_arti.Socks.Serve.{isolation_of, Asked, Served, serve_one, handshake}
use go_arti.Socks.Serve.Isolated.{new_table as no_tokens}
use go_arti.Socks.Serve.Accepts.{ExchangeFor, accepts_exactly}
use go_arti.Socks.Stream.Effects.{IsBytes}
use go_arti.Socks.Serve.Asks.{asks_exactly}
use go_arti.Socks.Serve.Any.{Shook, handshake_lem}
use go_arti.Socks.Serve.Exchange.{serve_one-login, handshake-login}

abbrev pub user : Bytes
user = codes "hi"

abbrev pub pass : Bytes
pass = codes "abc"

abbrev pub host : Text
host = codes "example.com"

abbrev pub token : ℕ → ℕ
token n = n

abbrev new_table : Isolation ℕ
new_table = no_tokens

abbrev asked_example : Asked ℕ
asked_example = record { host = host; port = 443; isolation = some 0 }

abbrev pub connect : Asked ℕ → Option ℕ
connect asked = some asked.port

abbrev pub relay : ℕ → Stream → Stream
relay port s = record s { input = []; output = s.output ++ s.input }

serve_one-login_example :
    (serve_one token connect relay new_table (
      stream
        (greeting (0x02 ∷ [])
          ++ login user pass (connect_request 0 (domain host) 443 (codes "GET")))
        []
        64)).asked
    ≡ some asked_example
unfolding contains from_utf8 token_for lookup
serve_one-login_example =
    ap (λ (s : Served ℕ). s.asked)
      (serve_one-login token connect relay new_table (0x02 ∷ []) user pass 0 (domain host) 443
        (codes "GET") 64 refl refl (omega arith, refl) (omega arith))

-- A connection that logs in and asks for a page, and one that speaks something else.
abbrev pub logs_in : Stream
logs_in =
    stream
      (greeting (0x02 ∷ []) ++ login user pass (connect_request 0 (domain host) 443 (codes "GET")))
      [] 64

abbrev speaks_http : Stream
speaks_http = stream (codes "GET /") [] 64

pub login_asks : (handshake logs_in).0 ≡ ok (some (user, pass), some (host, 443))
unfolding contains from_utf8
login_asks =
    ap (λ p. p.0)
      (handshake-login (0x02 ∷ []) user pass 0 (domain host) 443 (codes "GET") [] 64 refl refl
        (omega arith, refl) (omega arith))

handshake_lem_example :
    let (r, s') = handshake speaks_http in
    (front written : Bytes) × (codes "GET /" ≡ front ++ s'.input)
    × (length front ≤ 1032)
    × (s'.output ≡ written)
    × (length written ≤ 14)
    × Shook r written
handshake_lem_example =
    handshake_lem speaks_http
      (omega arith, (omega arith, (omega arith, (omega arith, (omega arith, tt))))) (omega arith)

are_bytes : Bytes → Bool
are_bytes [] = true
are_bytes (b ∷ bs) = ltb b 256 && are_bytes bs

are_bytes-IsBytes : (b : Bytes) → are_bytes b ≡ true → IsBytes b
unfolding are_bytes
are_bytes-IsBytes [] h = tt
are_bytes-IsBytes (b ∷ bs) h = (ground (arith, h), are_bytes-IsBytes bs (ground (arith, h)))

-- A client that does not log in.
abbrev anonymous : Bytes
anonymous = greeting (0x00 ∷ []) ++ connect_request 0 (domain host) 443 []

anonymous-ExchangeFor : ExchangeFor (none, some (host, 443)) anonymous
unfolding contains from_utf8
anonymous-ExchangeFor = (
  greeting (0x00 ∷ []),
  connect_request 0 (domain host) 443 [],
  refl,
  (0x00 ∷ [], refl, refl),
  (0, domain host, (omega arith, refl), refl, omega arith, refl),
)

accepts_exactly_example :
    ((handshake (stream (anonymous ++ user) [] 64)).0 ≡ ok (none, some (host, 443)))
    × ((handshake (stream (anonymous ++ user) [] 64)).1.input ≡ user)
unfolding are_bytes
accepts_exactly_example =
    (accepts_exactly none host 443 (anonymous ++ user) user [] 64
        (are_bytes-IsBytes (anonymous ++ user) refl) (omega arith)).1
      (anonymous, refl, anonymous-ExchangeFor)

-- The same, and what it asks for.
asks_exactly_example :
    (serve_one token connect relay new_table (stream (anonymous ++ user) [] 64)).asked
    ≡ some (record { host = host; port = 443; isolation = none })
unfolding are_bytes isolation_of
asks_exactly_example =
    (asks_exactly token connect relay new_table
        (record { host = host; port = 443; isolation = none }) (anonymous ++ user) [] 64
        (are_bytes-IsBytes (anonymous ++ user) refl) (omega arith)).1
      (none, anonymous, user, refl, anonymous-ExchangeFor, refl)
