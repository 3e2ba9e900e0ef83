-- ===== src/Onion/Launch/Laws.antt =====
-- What a launch of rust/arti-ffi/src/onion.rs has done when it succeeds and when it fails.
use go_arti.Prelude.{
  ℕ, ◌≡◌, refl, ◌≢◌, ◌↔◌, ◌⊎◌, inl, inr, Bool, true, false, none, some, List, [], ◌∷◌, map, arith,
  if◌then◌else◌, Result, ok, err, Bytes, Text,
}
use go_arti.Text.Address.Parse.{parse_socket_addr}
use go_arti.Errors.{Error, launch_failed, service_disabled}
use go_arti.Onion.{
  PortMap, AddRequest, AddResponse, Crypto, ProxyRule, Service, proxy_loop, status_watcher,
}
use go_arti.Onion.Keys.{keypair_for, service_id_of}
use go_arti.Onion.Launch.{
  ServiceCrates, LaunchAnswer, failed, disabled, launched, Effect, launch_service, spawn_task,
  check, rule_for, rules_for, Prepared, has_ports, nickname_for, prepare, started, launch_prepared,
  launch,
}

check_ok : (b : Bool) (e : Error) → check b e ≡ ok tt → b ≡ true
check_ok true e h = refl
check_ok false e h = cc

module _ (C : Crypto) (S : ServiceCrates C) where
  -- One rule for each mapping, in order: its pattern is the virtual port's, its target is parsed.
  abbrev pub Serves : List PortMap → List (ProxyRule S.Pattern) → Type 0
  Serves [] [] = Unit
  Serves [] (rule ∷ rules) = ⊥
  Serves (port ∷ ports) [] = ⊥
  Serves (port ∷ ports) (rule ∷ rules) =
      (parse_socket_addr port.target ≡ some rule.forward_to)
      × (S.one_port port.virtual_port ≡ some rule.pattern)
      × Serves ports rules

  rules_for_sound :
      (ports : List PortMap) (rules : List (ProxyRule S.Pattern))
      → rules_for C S ports ≡ ok rules
      → Serves ports rules
  unfolding rules_for rule_for
  rules_for_sound [] [] h = tt
  rules_for_sound [] (rule ∷ rules) h = cc
  rules_for_sound (port ∷ ports) [] h = absurd (ground arith)
  rules_for_sound (port ∷ ports) (rule ∷ rules) h =
      (ground arith, ground arith, rules_for_sound ports rules (ground arith))

  rules_for_complete :
      (ports : List PortMap) (rules : List (ProxyRule S.Pattern))
      → Serves ports rules
      → rules_for C S ports ≡ ok rules
  unfolding rules_for rule_for
  rules_for_complete [] [] h = refl
  rules_for_complete [] (rule ∷ rules) h = absurd h
  rules_for_complete (port ∷ ports) [] h = absurd h
  rules_for_complete (port ∷ ports) (rule ∷ rules) h =
      ground (arith, rules_for_complete ports rules h.2)

  -- The loop over the ports succeeds exactly with one rule for each mapping, in order, and so
  -- exactly when every target is an address and every virtual port a pattern.
  rules_for-Serves :
      (ports : List PortMap) (rules : List (ProxyRule S.Pattern))
      → (rules_for C S ports ≡ ok rules) ↔ Serves ports rules
  rules_for-Serves ports rules = (rules_for_sound ports rules, rules_for_complete ports rules)

  record PreparedFrom (rng : ℕ) (random : Bytes) (req : AddRequest) (p : Prepared C S)
      : Type 0 where
    has_port : has_ports req.ports ≡ true
    key : keypair_for C rng req.key_type req.key_blob ≡ ok (p.keypair, p.blob)
    id : p.service_id ≡ service_id_of C p.keypair
    name : p.nickname ≡ nickname_for random
    rules : rules_for C S req.ports ≡ ok p.rules

  prepare-PreparedFrom :
      (rng : ℕ) (random : Bytes) (req : AddRequest) (p : Prepared C S)
      → prepare C S rng random req ≡ ok p
      → PreparedFrom rng random req p
  unfolding prepare
  prepare-PreparedFrom rng random req p h = ground arith

  -- What a successful launch has done: the ports it serves, the response it gives, and its effects.
  pub record LaunchedFrom (rng : ℕ) (random : Bytes) (req : AddRequest) (resp : AddResponse)
      (svc : Service S.Pattern) (effects : List Effect) : Type 0 where
    pub keypair : C.ExpandedKeypair
    pub blob : Text
    pub key : keypair_for C rng req.key_type req.key_blob ≡ ok (keypair, blob)
    pub id : resp.service_id ≡ service_id_of C keypair
    pub secret : resp.secret_key ≡ (if req.discard_pk then none else some blob)
    pub has_port : req.ports ≢ []
    pub serves : Serves req.ports svc.rules
    pub name : svc.nickname ≡ nickname_for random
    pub tasks : svc.tasks ≡ proxy_loop svc.nickname ∷ status_watcher resp.service_id ∷ []
    pub done : effects ≡ launch_service svc.nickname ∷ map spawn_task svc.tasks

  has_ports-ne_nil : (ports : List PortMap) → has_ports ports ≡ true → ports ≢ []
  unfolding has_ports
  has_ports-ne_nil [] h e = cc
  has_ports-ne_nil (port ∷ ports) h e = cc

  started-LaunchedFrom :
      (rng : ℕ) (random : Bytes) (req : AddRequest) (p : Prepared C S) (a : LaunchAnswer)
      (resp : AddResponse) (svc : Service S.Pattern) (effects : List Effect)
      → PreparedFrom rng random req p
      → started C S req.discard_pk p a ≡ (ok (resp, svc), effects)
      → LaunchedFrom rng random req resp svc effects
  unfolding started
  started-LaunchedFrom rng random req p failed resp svc effects f e = absurd (ground arith)
  started-LaunchedFrom rng random req p disabled resp svc effects f e = absurd (ground arith)
  started-LaunchedFrom rng random req p (launched running) resp svc effects f e = record {
    keypair = p.keypair;
    blob = p.blob;
    key = f.key;
    id = ground arith;
    secret = ground arith;
    has_port = has_ports-ne_nil req.ports f.has_port;
    serves = rules_for_sound req.ports svc.rules (ground arith);
    name = ground arith;
    tasks = ground arith;
    done = ground arith;
  }

  launch_prepared-LaunchedFrom :
      (rng : ℕ) (random : Bytes) (req : AddRequest) (r : Result Error (Prepared C S))
      (resp : AddResponse) (svc : Service S.Pattern) (effects : List Effect)
      → prepare C S rng random req ≡ r
      → launch_prepared C S req.discard_pk r ≡ (ok (resp, svc), effects)
      → LaunchedFrom rng random req resp svc effects
  unfolding launch_prepared
  launch_prepared-LaunchedFrom rng random req (err x) resp svc effects f e = absurd (ground arith)
  launch_prepared-LaunchedFrom rng random req (ok p) resp svc effects f e =
      started-LaunchedFrom rng random req p _ resp svc effects
        (prepare-PreparedFrom rng random req p f) e

  -- A launch that succeeds serves every mapping of the request, of which there is at least one; its
  -- response has the service ID of the key that the request names and that key's text, unless the
  -- request discards it; and it has started the service and two tasks, in this order.
  pub launch-LaunchedFrom :
      (rng : ℕ) (random : Bytes) (req : AddRequest) (resp : AddResponse) (svc : Service S.Pattern)
      (effects : List Effect)
      → launch C S rng random req ≡ (ok (resp, svc), effects)
      → LaunchedFrom rng random req resp svc effects
  unfolding launch
  launch-LaunchedFrom rng random req resp svc effects =
      launch_prepared-LaunchedFrom rng random req (prepare C S rng random req) resp svc effects refl

  launch_prepared_failed :
      (discard : Bool) (r : Result Error (Prepared C S)) (e : Error)
      → (launch_prepared C S discard r).0 ≡ err e
      → ((launch_prepared C S discard r).1 ≡ [])
        ⊎ ((e ≡ launch_failed) ⊎ (e ≡ service_disabled))
          × ((n : Text) × ((launch_prepared C S discard r).1 ≡ launch_service n ∷ []))
  unfolding launch_prepared started
  launch_prepared_failed discard (err x) e h = inl refl
  launch_prepared_failed discard (ok p) e h = refused (S.launch_with_hsid p.nickname p.keypair) h
    where
      refused :
          (a : LaunchAnswer)
          → (started C S discard p a).0 ≡ err e
          → ((started C S discard p a).1 ≡ [])
            ⊎ ((e ≡ launch_failed) ⊎ (e ≡ service_disabled))
              × ((n : Text) × ((started C S discard p a).1 ≡ launch_service n ∷ []))
      refused failed q = inr (inl (ground arith), (p.nickname, refl))
      refused disabled q = inr (inr (ground arith), (p.nickname, refl))
      refused (launched running) q = absurd (ground arith)

  -- A launch that fails has spawned no task, and has asked for a service only where that call
  -- itself failed: every error of the request's own is found before anything is done.
  pub launch_failed_clean :
      (rng : ℕ) (random : Bytes) (req : AddRequest) (e : Error)
      → (launch C S rng random req).0 ≡ err e
      → ((launch C S rng random req).1 ≡ [])
        ⊎ ((e ≡ launch_failed) ⊎ (e ≡ service_disabled))
          × ((n : Text) × ((launch C S rng random req).1 ≡ launch_service n ∷ []))
  unfolding launch
  launch_failed_clean rng random req =
      launch_prepared_failed req.discard_pk (prepare C S rng random req)
