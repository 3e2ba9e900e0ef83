-- ===== src/Client/Lifecycle/Binding.antt =====
-- Where a client's SOCKS listener is bound (rust/arti-ffi/src/client.rs: `socks_bind_addr`,
-- `start`), from the port as the configuration blob names it.
use go_arti.Socks.Serve.{spawn}
use go_arti.Errors.{already_started}
use go_arti.Prelude.{
  ℕ, ◌≤◌, ◌≡◌, refl, ap, ◌∙◌, true, false, Option, some, [], ◌∷◌, arith, ◌==◌, if◌then◌else◌, ok,
  err, codes,
}
use go_arti.Text.Number.{decimal}
use go_arti.Text.Trim.{trim}
use go_arti.Text.Address.{SocketAddr, v4}
use go_arti.Text.Address.Parse.Decimal.{parse_socket_addr-localhost}
use go_arti.Config.{SocksPort, auto, fixed, socks_port_of, Config}
use go_arti.Config.Laws.{socks_port_of-decimal}
use go_arti.Client.{
  Client, called, bind_socks, socks_bind_addr, bind_text, start, start_at, start_listener,
  start_network, with_network, listening, set_network_enabled, apply_enabled,
}

abbrev pub localhost : ℕ → SocketAddr
localhost = v4 (127 ∷ 0 ∷ 0 ∷ 1 ∷ [])

bind_text-localhost :
    (cfg : Config) (p : ℕ)
    → cfg.socks_bind_address ≡ codes "127.0.0.1"
    → p ≤ 65535
    → bind_text cfg p ≡ ok (some (localhost p))
unfolding bind_text trim
bind_text-localhost cfg p h b = rw (h, parse_socket_addr-localhost p b) refl

module _ {P : Type 0} where
  bound_to :
      (c : Client P) (p : ℕ) (port : SocksPort)
      → c.config.socks_bind_address ≡ codes "127.0.0.1"
      → p ≤ 65535
      → c.config.socks_port ≡ port
      → port ≡ (if p == 0 then auto else fixed p)
      → socks_bind_addr c ≡ ok (some (localhost p))
  unfolding socks_bind_addr
  bound_to c p port h b e k = ground (arith, bind_text-localhost c.config p h b)

  -- The port that a blob names in decimal, 0 included, is the port that the listener asks for.
  socks_bind_addr-localhost :
      (c : Client P) (p : ℕ)
      → c.config.socks_bind_address ≡ codes "127.0.0.1"
      → p ≤ 65535
      → c.config.socks_port ≡ socks_port_of (decimal p)
      → socks_bind_addr c ≡ ok (some (localhost p))
  socks_bind_addr-localhost c p h b e =
      bound_to c p (socks_port_of (decimal p)) h b e (socks_port_of-decimal p b)

spawn_bound :
    {Listener : Type 0} (bind : SocketAddr → Option Listener)
    (local_addr : Listener → Option SocketAddr) (addr : SocketAddr) (l : Listener) (a : SocketAddr)
    → bind addr ≡ some l
    → local_addr l ≡ some a
    → spawn bind local_addr addr ≡ some a
unfolding spawn
spawn_bound bind local_addr addr l a h k = rw (spawn, h) k

module _ {P Listener : Type 0} (bind : SocketAddr → Option Listener)
    (local_addr : Listener → Option SocketAddr) where
  start_network-ok :
      (c : Client P)
      → ((start_network c).0 ≡ ok tt) × ((start_network c).1.socks_addr ≡ c.socks_addr)
  unfolding start_network with_network set_network_enabled apply_enabled
  start_network-ok c = (ground arith, ground arith)

  -- The client while it binds.
  abbrev binding : Client P → SocketAddr → Client P
  binding c addr = called (record c { started = true }) (bind_socks addr ∷ [])

  start_bound :
      (c : Client P) (addr : SocketAddr) (a : SocketAddr)
      → c.started ≡ false
      → socks_bind_addr c ≡ ok (some addr)
      → spawn bind local_addr addr ≡ some a
      → start bind local_addr c ≡ start_network (record (binding c addr) { socks_addr = some a })
  unfolding start start_at start_listener listening
  start_bound c addr a fresh e k =
      ap
        (λ b.
          if b
          then (err already_started, c)
          else start_at bind local_addr (socks_bind_addr c) (record c { started = true }))
        fresh
      ∙ ap (λ r. start_at bind local_addr r (record c { started = true })) e
      ∙ ap (λ o. listening o (binding c addr)) k

  -- A client whose blob names the port in decimal, from 0 to 65535, beside the default address, and
  -- that has not been started: if the system binds that port of 127.0.0.1, where port 0 asks for
  -- any free one, and the listener reports an address, then `start` succeeds and the client
  -- reports that address.
  pub start_binds :
      (c : Client P) (p : ℕ) (l : Listener) (a : SocketAddr)
      → p ≤ 65535
      → c.config.socks_bind_address ≡ codes "127.0.0.1"
      → c.config.socks_port ≡ socks_port_of (decimal p)
      → c.started ≡ false
      → bind (localhost p) ≡ some l
      → local_addr l ≡ some a
      → let (r, c') = start bind local_addr c in (r ≡ ok tt) × (c'.socks_addr ≡ some a)
  start_binds c p l a b h e fresh bound reported =
      let s =
        start_bound c (localhost p) a fresh (socks_bind_addr-localhost c p h b e)
          (spawn_bound bind local_addr (localhost p) l a bound reported) in
      rw s (start_network-ok (record (binding c (localhost p)) { socks_addr = some a }))
