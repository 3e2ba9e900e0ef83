-- ===== src/Socks/Serve/Any.antt =====
-- What the exchange of rust/arti-ffi/src/socks.rs comes to before the relay, on any input at all.
use mathlib.Core.Path.{ap₂}
use go_arti.Prelude.{
  ℕ, ◌^◌, ◌≤◌, ◌<◌, ◌≡◌, ◌⊎◌, inl, inr, Option, none, some, [], ◌∷◌, ◌++◌, append-nil, Result, ok,
  err, length, Bytes, Text,
}
use go_arti.Socks.Stream.{Stream, IoError, ◌>>=◌, pure}
use go_arti.Socks.Stream.Effects.{Does, now-Does, bind-Does, IsBytes}
use go_arti.Socks.Protocol.{
  Credentials, ver5, auth_none, auth_userpass, auth_none_acceptable, rep_cmd_not_supported,
  rep_atyp_not_supported, reply_bytes, negotiate_auth, read_connect_request,
}
use go_arti.Socks.Protocol.AnyGreeting.{Negotiated, negotiate_auth-Does}
use go_arti.Socks.Protocol.AnyRequest.{Requested, read_connect_request-Does}
use go_arti.Socks.Serve.{Handshake, handshake}

-- The whole answer to the greeting and a login.
abbrev pub method_answer : Option Credentials → Bytes
method_answer none = ver5 ∷ auth_none ∷ []
method_answer (some c) = ver5 ∷ auth_userpass ∷ 0x01 ∷ 0x00 ∷ []

-- The dialogues that are allowed, by what the exchange came to.
abbrev pub Shook : Result IoError Handshake → Bytes → Type 0
Shook (ok (creds, some (host, port))) written = (port < 2 ^ 16) × (written ≡ method_answer creds)
Shook (ok (creds, none)) written =
    (written ≡ method_answer creds ++ reply_bytes rep_cmd_not_supported)
    ⊎ (written ≡ method_answer creds ++ reply_bytes rep_atyp_not_supported)
Shook (err e) written =
    (written ≡ [])
    ⊎ (written ≡ ver5 ∷ auth_userpass ∷ [])
    ⊎ (written ≡ ver5 ∷ auth_none_acceptable ∷ [])
    ⊎ (creds : Option Credentials) × (written ≡ method_answer creds)

Negotiated-answer :
    (creds : Option Credentials) (u : Bytes) → Negotiated (ok creds) u → u ≡ method_answer creds
Negotiated-answer none u h = h
Negotiated-answer (some c) u h = h.2

Negotiated-err : (e : IoError) (u : Bytes) → Negotiated (err e) u → Shook (err e) u
Negotiated-err e u (inl h) = inl h
Negotiated-err e u (inr (inl h)) = inr (inl h)
Negotiated-err e u (inr (inr h)) = inr (inr (inl h))

Requested-Shook :
    (creds : Option Credentials) (u : Bytes) (target : Option (Text × ℕ)) (v : Bytes)
    → u ≡ method_answer creds
    → Requested (ok target) v
    → Shook (ok (creds, target)) (u ++ v)
Requested-Shook creds u none v e (inl h) = inl (ap₂ ◌++◌ e h)
Requested-Shook creds u none v e (inr h) = inr (ap₂ ◌++◌ e h)
Requested-Shook creds u (some (host, port)) v e h = (h.0, rw (h.1, append-nil) e)

handshake-Does : Does 1032 14 Shook handshake
unfolding handshake
handshake-Does =
    bind-Does Shook Negotiated 770 4 262 10 negotiate_auth
      (λ creds. read_connect_request >>= λ target. pure (creds, target)) negotiate_auth-Does asked
      Negotiated-err
  where
    asked :
        (creds : Option Credentials) (u : Bytes)
        → Negotiated (ok creds) u
        → Does 262 10
            (λ r v. Shook r (u ++ v))
            (read_connect_request >>= λ target. pure (creds, target))
    asked creds u h =
        bind-Does (λ r v. Shook r (u ++ v)) Requested 262 10 0 0 read_connect_request
          (λ target. pure (creds, target)) read_connect_request-Does
          (λ target v q.
            now-Does _ (ok (creds, target))
              (rw append-nil (Requested-Shook creds u target v (Negotiated-answer creds u h) q)))
          (λ e v q. inr (inr (inr (creds, rw (q, append-nil) (Negotiated-answer creds u h)))))

-- Whatever bytes the client sends, on a connection that takes 14 bytes: at most 1032 bytes are read
-- before the relay, off the front of what was sent, and at most 14 are written. A target results
-- only after the whole answer to the method negotiation, and then nothing else was written and
-- its port has 16 bits; a refused request is answered once, by the reply 07 or 08; and an error
-- has written no more than a part of the answer to the negotiation, or 05 FF.
pub handshake_lem :
    (s : Stream)
    → IsBytes s.input
    → 14 ≤ s.room
    → let (r, s') = handshake s in
      (front written : Bytes) × (s.input ≡ front ++ s'.input)
      × (length front ≤ 1032)
      × (s'.output ≡ s.output ++ written)
      × (length written ≤ 14)
      × Shook r written
handshake_lem s bytes room =
    let d = handshake-Does s bytes room in
    (d.front, d.written, d.taken_off, d.few, d.added, d.short, d.related)
