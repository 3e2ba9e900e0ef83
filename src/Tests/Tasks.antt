-- ===== src/Tests/Tasks.antt =====
-- Concurrent tasks of a listener (rust/arti-ffi/src/socks.rs).
use go_arti.Prelude.{
  ℕ, ◌≡◌, refl, ap, ◌↔◌, Option, some, List, [], ◌∷◌, ◌++◌, arith, Result, ok, get_elem?, total,
}
use go_arti.Text.Utf8.{from_utf8}
use go_arti.Socks.Stream.{Stream, stream, IoError}
use go_arti.Socks.Protocol.{contains, Credentials}
use go_arti.Socks.Protocol.Auth.{greeting, login}
use go_arti.Socks.Protocol.Request.{domain, connect_request}
use go_arti.Socks.Serve.{Asked, handshake}
use go_arti.Socks.Serve.Exchange.{handshake-login}
use go_arti.Socks.Serve.Tasks.{over, run}
use go_arti.Socks.Serve.Tasks.Places.{Placed, table_after}
use go_arti.Socks.Serve.Tasks.Finish.{run-served}
use go_arti.Socks.Serve.Tasks.Apart.{run-isolates, HasAsked}
use go_arti.Tests.Socks.{user, pass, host, token, connect, relay, logs_in, login_asks}

-- Another user.
abbrev logs_in_too : Stream
logs_in_too =
    stream (greeting (0x02 ∷ []) ++ login pass user (connect_request 0 (domain host) 80 [])) [] 64

login_asks_too : (handshake logs_in_too).0 ≡ ok (some (pass, user), some (host, 80))
unfolding contains from_utf8
login_asks_too =
    ap (λ p. p.0)
      (handshake-login (0x02 ∷ []) pass user 0 (domain host) 80 [] [] 64 refl refl
        (omega arith, refl) (omega arith))

abbrev both : List Stream
both = logs_in ∷ logs_in_too ∷ []

-- The second one goes on first after its handshake.
abbrev schedule : List ℕ
schedule = 0 ∷ 1 ∷ 1 ∷ 0 ∷ 1 ∷ 0 ∷ []

run-served_example :
    (result : Result IoError (Unit {0})) × (sock' : Stream) × (asked : Option (Asked ℕ))
    × (get_elem? (run token connect relay both schedule).tasks 0 ≡ some (over result sock' asked))
    × Placed token connect relay both
        (run token connect relay both schedule).passed
        0
        (result, sock', asked)
    × ((run token connect relay both schedule).table
        ≡ table_after token connect relay both (run token connect relay both schedule).passed)
unfolding get_elem? total
run-served_example = run-served token connect relay both schedule 0 logs_in refl (omega arith)

run-isolates_example :
    (t t' : ℕ) × HasAsked token connect relay both schedule 0 (host, 443) t
    × HasAsked token connect relay both schedule 1 (host, 80) t'
    × ((t' ≡ t) ↔ (◌≡◌ {A = Credentials} (pass, user) (user, pass)))
unfolding get_elem? total
run-isolates_example =
    run-isolates token connect relay both (λ m n e. e) schedule 0 1 logs_in logs_in_too (user, pass)
      (pass, user) (host, 443) (host, 80) (ground arith) refl refl login_asks login_asks_too
      (omega arith) (omega arith)
