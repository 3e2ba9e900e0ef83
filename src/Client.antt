-- ===== src/Client.antt =====
-- The long-lived client (rust/arti-ffi/src/client.rs): its state, and the methods that change it.
-- Each method is a function of the state; the calls that it makes into tokio and the crate
-- arti-client are appended to `calls`, and their answers are parameters. The locks and atomics make
-- each access to a field one step; `Client.Network` takes `set_network_enabled` apart into its
-- steps.
pub mod Status
pub mod Watcher
pub mod Network
pub mod Services
pub mod Lifecycle
pub mod New
pub mod Calls
pub mod Wait
pub mod Feed
pub mod Workers
pub mod Unordered
use mathlib.Core.Option
use go_arti.Prelude.{
  ℕ, Bool, true, false, not, Option, none, some, List, [], ◌∷◌, ◌++◌, map, if◌then◌else◌, Result,
  ok, err, or_fail, Bytes, Text,
}
use go_arti.Prelude.Keys.{text_key, lookup, insert, remove}
use go_arti.Text.Number.{decimal}
use go_arti.Text.Trim.{trim}
use go_arti.Text.Address.{SocketAddr}
use go_arti.Text.Address.Parse.{parse_socket_addr}
use go_arti.Errors.{
  Error, already_started, invalid_bind_address, cannot_bind_socks, bootstrap_failed,
  no_such_service,
}
use go_arti.Channel.{Channel}
use go_arti.Events.{Event, next}
use go_arti.Config.{Config, disabled, auto, fixed}
use go_arti.Socks.Serve.{spawn}
use go_arti.Onion.{AddRequest, AddResponse, Crypto, Service}
use go_arti.Onion.Launch.{ServiceCrates, Effect, launch}
use go_arti.Onion.Launch

pub data DormantMode : Type 0 where
  normal soft : DormantMode

-- What the client asks of its runtime and of arti-client.
pub data Call : Type 0 where
  bind_socks : SocketAddr → Call
  spawn_bootstrap_watcher spawn_bootstrap block_on_bootstrap : Call
  set_dormant : DormantMode → Call
  service : Effect → Call
  -- A service that another one under its service ID has replaced is dropped, which stops it.
  drop_service : Text → Call
  notify_all : Call

pub record Client (Pattern : Type 0) : Type 0 where
  pub config : Config
  pub socks_addr : Option SocketAddr
  pub events : Channel Event
  pub services : List (Text × Service Pattern)
  pub net_enabled : Bool
  pub started : Bool
  pub exit : Bool
  pub calls : List Call

bind_text : Config → ℕ → Result Error (Option SocketAddr)
bind_text cfg port =
    let host = trim cfg.socks_bind_address in
    or_fail (Option.map some (parse_socket_addr (host ++ (b':' ∷ decimal port))))
      (invalid_bind_address host)

unfoldable pub same : Bool → Bool → Bool
same true b = b
same false b = not b

module _ {P : Type 0} where
  abbrev pub called : Client P → List Call → Client P
  called c calls = record c { calls = c.calls ++ calls }

  -- Which address the listener wants, if any.
  unfoldable pub socks_bind_addr : Client P → Result Error (Option SocketAddr)
  unfolding bind_text
  socks_bind_addr c = elim c.config.socks_port [
    | disabled ↦ ok none
    | auto ↦ bind_text c.config 0
    | fixed p ↦ bind_text c.config p
  ]

  -- `net_enabled.swap(enabled)`: the value before, and the state after.
  unfoldable pub swap_enabled : Bool → Client P → Bool × Client P
  swap_enabled enabled c = (c.net_enabled, record c { net_enabled = enabled })

  -- What follows the swap, by the value that it gave.
  unfoldable pub apply_enabled : Bool → Bool → Client P → Client P
  unfolding same
  apply_enabled enabled before c =
      if same before enabled
      then c
      else if enabled
      then called c (set_dormant normal ∷ spawn_bootstrap ∷ [])
      else called c (set_dormant soft ∷ [])

  unfoldable pub set_network_enabled : Bool → Client P → Client P
  unfolding swap_enabled apply_enabled
  set_network_enabled enabled c =
      let (before, c') = swap_enabled enabled c in apply_enabled enabled before c'

  unfoldable pub network_enabled : Client P → Bool
  network_enabled c = c.net_enabled

  with_network : Client P → Client P
  with_network c = if c.config.disable_network then c else set_network_enabled true c

  -- `start`, after the listener: the watcher, and the network unless it is disabled.
  start_network : Client P → Result Error (Unit {0}) × Client P
  unfolding with_network
  start_network c = (ok tt, with_network (called c (spawn_bootstrap_watcher ∷ [])))

  -- By the address that was bound.
  listening : Option SocketAddr → Client P → Result Error (Unit {0}) × Client P
  unfolding start_network
  listening none c = (err cannot_bind_socks, c)
  listening (some bound) c = start_network (record c { socks_addr = some bound })

  module _ {Listener : Type 0} (bind : SocketAddr → Option Listener)
      (local_addr : Listener → Option SocketAddr) where
    start_listener : SocketAddr → Client P → Result Error (Unit {0}) × Client P
    unfolding listening
    start_listener addr c = listening (spawn bind local_addr addr) (called c (bind_socks addr ∷ []))

    start_at : Result Error (Option SocketAddr) → Client P → Result Error (Unit {0}) × Client P
    unfolding start_listener
    start_at (err e) c = (err e, c)
    start_at (ok none) c = start_network c
    start_at (ok (some addr)) c = start_listener addr c

    -- The flag is set before anything that can fail.
    unfoldable pub start : Client P → Result Error (Unit {0}) × Client P
    unfolding start_at
    start c =
        if c.started
        then (err already_started, c)
        else start_at (socks_bind_addr c) (record c { started = true })

  -- `next_event`, at the moment it returns.
  unfoldable pub next_event : Client P → Option Event × Client P
  next_event c = let (ev, ch) = next c.events in (ev, record c { events = ch })

  stop_all : List (Text × Service P) → List Call
  stop_all [] = []
  stop_all ((id, svc) ∷ rest) = map service (Launch.shutdown svc) ++ stop_all rest

  -- The services are drained and stopped, and then the waiting threads are woken.
  unfoldable pub shutdown : Client P → Client P
  unfolding stop_all
  shutdown c =
      let c' = called c (stop_all c.services ++ notify_all ∷ []) in
      record c' { services = []; exit = true }

  delete : Text → Option (Service P) → Client P → Result Error (Unit {0}) × Client P
  delete id none c = (err (no_such_service id), c)
  delete id (some svc) c = (
    ok tt,
    called (record c { services = remove id c.services }) (map service (Launch.shutdown svc)),
  )

  unfoldable pub onion_del : Text → Client P → Result Error (Unit {0}) × Client P
  unfolding delete
  onion_del id c = delete id (lookup id c.services) c

module _ (C : Crypto) (S : ServiceCrates C) (bootstrap : List Call → Bool) where
  pub replaced : Option (Service S.Pattern) → List Call
  replaced none = []
  replaced (some old) = drop_service old.nickname ∷ []

  keep :
      Result Error (AddResponse × Service S.Pattern)
      → Client S.Pattern
      → Result Error AddResponse × Client S.Pattern
  unfolding replaced
  keep (err e) c = (err e, c)
  keep (ok (resp, svc)) c =
      let old = lookup resp.service_id c.services in
      (
        ok resp,
        called (record c { services = insert resp.service_id svc c.services }) (replaced old),
      )

  launched : ℕ → Bytes → AddRequest → Client S.Pattern → Result Error AddResponse × Client S.Pattern
  unfolding keep
  launched rng random req c =
      let (r, effects) = launch C S rng random req in keep r (called c (map service effects))

  -- The network is enabled and the bootstrap is awaited first; it succeeds or fails by what has
  -- been called so far.
  unfoldable pub onion_add :
      ℕ → Bytes → AddRequest → Client S.Pattern → Result Error AddResponse × Client S.Pattern
  unfolding launched
  onion_add rng random req c =
      let c' = called (set_network_enabled true c) (block_on_bootstrap ∷ []) in
      if bootstrap c'.calls then launched rng random req c' else (err bootstrap_failed, c')
