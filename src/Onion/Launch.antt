-- ===== src/Onion/Launch.antt =====
-- `launch` and `Service::shutdown` of rust/arti-ffi/src/onion.rs.
pub mod Laws
use go_arti.Prelude.{
  ℕ, Bool, true, false, Option, none, some, List, [], ◌∷◌, ◌++◌, map, ◌>>=◌, ◌>>◌, if◌then◌else◌,
  Result, ok, err, or_fail, Bytes, Text, codes,
}
use go_arti.Text.Address.{SocketAddr}
use go_arti.Text.Address.Parse.{parse_socket_addr}
use go_arti.Errors.{
  Error, no_ports, invalid_port_mapping, bad_nickname, invalid_service_config, invalid_target,
  invalid_virtual_port, launch_failed, service_disabled,
}
use go_arti.Onion.{
  PortMap, AddRequest, AddResponse, Crypto, ProxyRule, Service, Task, proxy_loop, status_watcher,
}
use go_arti.Onion.Keys.{keypair_for, service_id_of}
use go_arti.Onion.Slug.{unique_service_slug}

-- What `launch_onion_service_with_hsid` answers.
pub data LaunchAnswer : Type 0 where
  failed disabled : LaunchAnswer
  launched : ℕ → LaunchAnswer

-- The crates tor-hsservice, tor-hsrproxy and arti-client: which nicknames, port patterns, rule
-- lists and service configurations they accept, and what a launch answers.
pub record ServiceCrates (C : Crypto) : Type 1 where
  pub Pattern : Type 0
  pub nickname_ok : Text → Bool
  pub one_port : ℕ → Option Pattern
  pub proxy_config_ok : List (ProxyRule Pattern) → Bool
  pub service_config_ok : Text → Bool
  pub launch_with_hsid : Text → C.ExpandedKeypair → LaunchAnswer

-- The calls by which the service code acts on the outside.
pub data Effect : Type 0 where
  launch_service : Text → Effect
  spawn_task : Task → Effect
  shut_proxy : Text → Effect
  abort_task : Task → Effect

-- `proxy.shutdown()`, and then every task is aborted.
unfoldable pub shutdown : {Pattern : Type 0} → Service Pattern → List Effect
shutdown service = shut_proxy service.nickname ∷ map abort_task service.tasks

abbrev pub check : Bool → Error → Result Error (Unit {0})
check true e = ok tt
check false e = err e

has_ports : List PortMap → Bool
has_ports [] = false
has_ports (port ∷ ports) = true

unfoldable pub nickname_for : Bytes → Text
nickname_for random = codes "svc-" ++ unique_service_slug random

module _ (C : Crypto) (S : ServiceCrates C) where
  open S use {Pattern, nickname_ok, one_port, proxy_config_ok, service_config_ok, launch_with_hsid}

  unfoldable pub rule_for : PortMap → Result Error (ProxyRule Pattern)
  rule_for port = do
    target ← or_fail (parse_socket_addr port.target) (invalid_target port.target)
    pattern ← or_fail (one_port port.virtual_port) (invalid_virtual_port port.virtual_port)
    ok (record { pattern = pattern; forward_to = target })

  -- The loop over the ports, which the first invalid one ends.
  unfoldable pub rules_for : List PortMap → Result Error (List (ProxyRule Pattern))
  rules_for [] = ok []
  rules_for (port ∷ ports) = do rule ← rule_for port; rules ← rules_for ports; ok (rule ∷ rules)

  -- Everything that comes before the call that launches.
  pub record Prepared : Type 0 where
    pub keypair : C.ExpandedKeypair
    pub blob : Text
    pub service_id : Text
    pub nickname : Text
    pub rules : List (ProxyRule Pattern)

  unfoldable pub prepare : ℕ → Bytes → AddRequest → Result Error Prepared
  unfolding has_ports
  prepare rng random req = do
    check (has_ports req.ports) no_ports
    key ← keypair_for C rng req.key_type req.key_blob
    check (nickname_ok (nickname_for random)) bad_nickname
    rules ← rules_for req.ports
    check (proxy_config_ok rules) invalid_port_mapping
    check (service_config_ok (nickname_for random)) invalid_service_config
    ok (record {
      keypair = key.0;
      blob = key.1;
      service_id = service_id_of C key.0;
      nickname = nickname_for random;
      rules = rules;
    })

  abbrev pub Launched : Type 0
  Launched = Result Error (AddResponse × Service Pattern)

  started : Bool → Prepared → LaunchAnswer → Launched × List Effect
  started discard p failed = (err launch_failed, launch_service p.nickname ∷ [])
  started discard p disabled = (err service_disabled, launch_service p.nickname ∷ [])
  started discard p (launched running) =
      let proxy_task = proxy_loop p.nickname in
      let watcher_task = status_watcher p.service_id in
      (
        ok (
          record { service_id = p.service_id; secret_key = if discard then none else some p.blob },
          record {
            running = running;
            nickname = p.nickname;
            rules = p.rules;
            tasks = proxy_task ∷ watcher_task ∷ [];
          },
        ),
        launch_service p.nickname ∷ spawn_task proxy_task ∷ spawn_task watcher_task ∷ [],
      )

  launch_prepared : Bool → Result Error Prepared → Launched × List Effect
  unfolding started
  launch_prepared discard (err e) = (err e, [])
  launch_prepared discard (ok p) = started discard p (launch_with_hsid p.nickname p.keypair)

  -- With the state of the random number generator and the eight bytes of the slug.
  unfoldable pub launch : ℕ → Bytes → AddRequest → Launched × List Effect
  unfolding launch_prepared
  launch rng random req = launch_prepared req.discard_pk (prepare rng random req)
