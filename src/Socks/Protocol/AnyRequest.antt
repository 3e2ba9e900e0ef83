-- ===== src/Socks/Protocol/AnyRequest.antt =====
-- What `read_connect_request` of rust/arti-ffi/src/socks.rs comes to on any input at all.
use go_arti.Text.Utf8.{from_utf8}
use go_arti.Prelude.{
  ℕ, ◌+◌, ◌*◌, ◌^◌, ◌≤◌, ◌<◌, ◌≡◌, refl, ◌⊎◌, inl, inr, Option, none, some, [], ◌++◌, append-nil,
  arith, ◌==◌, Bool-cases, Result, ok, err, Bytes, Text,
}
use go_arti.Socks.Stream.{IoError, Io, pure, bad_socks_version, bad_domain}
use go_arti.Socks.Stream.Effects.{Does, now-Does, weaken-Does, bind-Does, read-Does, write-Does}
use go_arti.Socks.Protocol.AnyGreeting.{at-byte}
use go_arti.Socks.Protocol.{
  ver5, at, cmd_connect, atyp_ipv4, atyp_ipv6, atyp_domain, rep_cmd_not_supported,
  rep_atyp_not_supported, reply, reply_bytes, read_host, read_port, read_target,
  read_connect_request, domain_text,
}

-- A target with a 16-bit port, of which nothing was written; none after a reply with code 07 or 08;
-- and an error after nothing.
abbrev pub Requested : Result IoError (Option (Text × ℕ)) → Bytes → Type 0
Requested (ok (some (host, port))) written = (port < 2 ^ 16) × (written ≡ [])
Requested (ok none) written =
    (written ≡ reply_bytes rep_cmd_not_supported) ⊎ (written ≡ reply_bytes rep_atyp_not_supported)
Requested (err e) written = written ≡ []

-- The same of the host alone.
abbrev HadHost : Result IoError (Option Text) → Bytes → Type 0
HadHost (ok (some host)) written = written ≡ []
HadHost (ok none) written = written ≡ reply_bytes rep_atyp_not_supported
HadHost (err e) written = written ≡ []

domain_text-Does : (o : Option Text) → Does 0 0 HadHost (domain_text o)
unfolding domain_text
domain_text-Does none = now-Does HadHost (err bad_domain) refl
domain_text-Does (some host) = now-Does HadHost (ok (some host)) refl

read_host-Does : (atyp : ℕ) → Does 256 10 HadHost (read_host atyp)
unfolding read_host reply
read_host-Does atyp = elim (Bool-cases (atyp == atyp_ipv4)) [
  | inl e ↦
      rw (read_host, e)
        (shorter 4 0 (omega arith) (omega arith) (
          read-Does HadHost 4 4 0 0 _ (omega arith) (λ b _ _. now-Does HadHost (ok (some _)) refl)
            f))
  | inr e ↦ elim (Bool-cases (atyp == atyp_ipv6)) [
    | inl e' ↦
        rw (read_host, e, e')
          (shorter 16 0 (omega arith) (omega arith) (
            read-Does HadHost 16 16 0 0 _ (omega arith)
              (λ b _ _. now-Does HadHost (ok (some _)) refl) f))
    | inr e' ↦ elim (Bool-cases (atyp == atyp_domain)) [
      | inl e'' ↦
          rw (read_host, e, e', e'')
            (shorter 256 0 (omega arith) (omega arith) (
              read-Does HadHost 1 1 255 0 _ (omega arith)
                (λ len _ h.
                  read-Does HadHost (at len 0) 255 0 0 _ (at-byte len 0 h)
                    (λ b _ _. domain_text-Does (from_utf8 b)) f)
                f))
      | inr e'' ↦
          rw (read_host, e, e', e'')
            (shorter 0 10 (omega arith) (omega arith) (
              write-Does HadHost (reply_bytes rep_atyp_not_supported) 0 0 (pure none)
                (now-Does _ (ok none) refl)))
    ]
  ]
]
  where
    f : (e : IoError) → HadHost (err e) []
    f e = refl

    shorter :
        {m : Io (Option Text)} (n w : ℕ)
        → n ≤ 256
        → w ≤ 10
        → Does n w HadHost m
        → Does 256 10 HadHost m
    shorter n w hn hw d = weaken-Does HadHost HadHost n w 256 10 _ hn hw (λ r written q. q) d

read_port-Does :
    (o : Option Text) (u : Bytes)
    → HadHost (ok o) u
    → Does 2 0 (λ r v. Requested r (u ++ v)) (read_port o)
unfolding read_port
read_port-Does none u h =
    weaken-Does _ (λ r v. Requested r (u ++ v)) 0 0 2 0 _ (omega arith) (omega arith)
      (λ r written q. q) (now-Does _ (ok none) (rw append-nil (inr h)))
read_port-Does (some host) u h =
    read-Does _ 2 2 0 0 _ (omega arith)
      (λ port _ b.
        now-Does _ (ok (some (host, at port 0 * 256 + at port 1)))
          (omega (arith, at-byte port 0 b, at-byte port 1 b), rw append-nil h))
      (λ e. rw append-nil h)

read_target-Does : (head : Bytes) → Does 258 10 Requested (read_target head)
unfolding read_target reply
read_target-Does head = elim (Bool-cases (at head 0 == ver5)) [
  | inr e ↦
      rw (read_target, e)
        (shorter 0 0 (omega arith) (omega arith) (now-Does Requested (err bad_socks_version) refl))
  | inl e ↦ elim (Bool-cases (at head 1 == cmd_connect)) [
    | inr e' ↦
        rw (read_target, e, e')
          (shorter 0 10 (omega arith) (omega arith) (
            write-Does Requested (reply_bytes rep_cmd_not_supported) 0 0 (pure none)
              (now-Does _ (ok none) (inl refl))))
    | inl e' ↦
        rw (read_target, e, e')
          (bind-Does Requested HadHost 256 10 2 0 (read_host (at head 3)) read_port
            (read_host-Does (at head 3)) read_port-Does (λ e u h. h))
  ]
]
  where
    shorter :
        {m : Io (Option (Text × ℕ))} (n w : ℕ)
        → n ≤ 258
        → w ≤ 10
        → Does n w Requested m
        → Does 258 10 Requested m
    shorter n w hn hw d = weaken-Does Requested Requested n w 258 10 _ hn hw (λ r written q. q) d

pub read_connect_request-Does : Does 262 10 Requested read_connect_request
unfolding read_connect_request
read_connect_request-Does =
    read-Does Requested 4 4 258 10 read_target (omega arith) (λ head _ _. read_target-Does head)
      (λ e. refl)
