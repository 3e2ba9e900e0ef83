-- ===== src/Client/Calls.antt =====
-- Any sequence of method calls on a client of rust/arti-ffi/src/client.rs.
use go_arti.Prelude.{
  ℕ, ◌≡◌, refl, ◌∙◌, Bool, true, Option, none, some, List, [], ◌∷◌, ◌++◌, map, Result, ok, err,
  Bytes, Text,
}
use go_arti.Prelude.Keys.{text_key, lookup}
use go_arti.Text.Address.{SocketAddr}
use go_arti.Errors.{Error}
use go_arti.Onion.{AddRequest, AddResponse, Crypto, Service}
use go_arti.Config.{Config}
use go_arti.Client.New.{new_client}
use go_arti.Onion.Launch.{ServiceCrates, Effect, launch}
use go_arti.Onion.Launch
use go_arti.Client.{
  Call, DormantMode, Client, service, notify_all, called, start, shutdown, stop_all, delete,
  block_on_bootstrap, set_network_enabled, onion_add, onion_del, next_event, launched, keep,
  replaced,
}
use go_arti.Client.Network.{
  IsInStep, dormant_mode, dormant_mode-append, set_network_enabled-IsInStep,
}
use go_arti.Client.Lifecycle.{start-Keeps, if_cases}

-- Calls that do not touch the dormant mode.
abbrev IsQuiet : List Call → Type 0
IsQuiet calls = (before : Option DormantMode) → dormant_mode calls before ≡ before

services-IsQuiet : (effects : List Effect) → IsQuiet (map service effects)
unfolding dormant_mode
services-IsQuiet [] before = refl
services-IsQuiet (e ∷ effects) before = services-IsQuiet effects before

append-IsQuiet : (xs ys : List Call) → IsQuiet xs → IsQuiet ys → IsQuiet (xs ++ ys)
append-IsQuiet xs ys hx hy before =
    dormant_mode-append xs ys before ∙ hy (dormant_mode xs before) ∙ hx before

module _ {P : Type 0} where
  stop_all-IsQuiet : (services : List (Text × Service P)) → IsQuiet (stop_all services)
  unfolding stop_all dormant_mode
  stop_all-IsQuiet [] before = refl
  stop_all-IsQuiet ((id, svc) ∷ rest) before =
      append-IsQuiet (map service (Launch.shutdown svc)) (stop_all rest)
        (services-IsQuiet (Launch.shutdown svc)) (stop_all-IsQuiet rest) before

  called-IsInStep :
      (calls : List Call) (c : Client P) → IsQuiet calls → IsInStep c → IsInStep (called c calls)
  called-IsInStep calls c quiet h = record {
    in_step = rw (dormant_mode-append c.calls calls none, quiet) h.in_step;
  }

  delete-IsInStep :
      (id : Text) (svc : Option (Service P)) (c : Client P)
      → IsInStep c
      → IsInStep (delete id svc c).1
  unfolding delete
  delete-IsInStep id none c h = h
  delete-IsInStep id (some svc) c h =
      called-IsInStep (map service (Launch.shutdown svc)) _ (services-IsQuiet (Launch.shutdown svc))
        (record { in_step = h.in_step })

  shutdown-IsInStep : (c : Client P) → IsInStep c → IsInStep (shutdown c)
  unfolding shutdown dormant_mode
  shutdown-IsInStep c h =
      let calls = stop_all c.services ++ notify_all ∷ [] in
      let stopped : IsInStep (called c calls) =
        called-IsInStep calls c
          (append-IsQuiet (stop_all c.services) (notify_all ∷ []) (stop_all-IsQuiet c.services)
            (λ before. refl))
          h in
      record { in_step = stopped.in_step }

  module _ {Listener : Type 0} (bind : SocketAddr → Option Listener)
      (local_addr : Listener → Option SocketAddr) where
    start-IsInStep : (c : Client P) → IsInStep c → IsInStep (start bind local_addr c).1
    unfolding dormant_mode
    start-IsInStep c h =
        start-Keeps IsInStep set_network_enabled-IsInStep
          (λ a d k. called-IsInStep _ d (λ before. refl) k)
          (λ a d k. record { in_step = k.in_step }) (λ d k. called-IsInStep _ d (λ before. refl) k)
          bind local_addr (λ d k. record { in_step = k.in_step }) c h

module _ (C : Crypto) (S : ServiceCrates C) (bootstrap : List Call → Bool) where
  replaced-IsQuiet : (old : Option (Service S.Pattern)) → IsQuiet (replaced C S bootstrap old)
  unfolding replaced dormant_mode
  replaced-IsQuiet none before = refl
  replaced-IsQuiet (some old) before = refl

  keep-IsInStep :
      (r : Result Error (AddResponse × Service S.Pattern)) (c : Client S.Pattern)
      → IsInStep c
      → IsInStep (keep C S bootstrap r c).1
  unfolding keep
  keep-IsInStep (err e) c h = h
  keep-IsInStep (ok (resp, svc)) c h =
      called-IsInStep (replaced C S bootstrap (lookup resp.service_id c.services)) _
        (replaced-IsQuiet (lookup resp.service_id c.services)) (record { in_step = h.in_step })

  launched-IsInStep :
      (rng : ℕ) (random : Bytes) (req : AddRequest) (c : Client S.Pattern)
      → IsInStep c
      → IsInStep (launched C S bootstrap rng random req c).1
  unfolding launched
  launched-IsInStep rng random req c h =
      let (r, effects) = launch C S rng random req in
      keep-IsInStep r _ (called-IsInStep (map service effects) c (services-IsQuiet effects) h)

  onion_add-IsInStep :
      (rng : ℕ) (random : Bytes) (req : AddRequest) (c : Client S.Pattern)
      → IsInStep c
      → IsInStep (onion_add C S bootstrap rng random req c).1
  unfolding onion_add dormant_mode
  onion_add-IsInStep rng random req c h =
      let waited = called (set_network_enabled true c) (block_on_bootstrap ∷ []) in
      let in_step : IsInStep waited =
        called-IsInStep _ _ (λ before. refl) (set_network_enabled-IsInStep true c h) in
      if_cases (λ (r : Result Error AddResponse × Client S.Pattern). IsInStep r.1)
        (bootstrap waited.calls) (λ _. launched-IsInStep rng random req waited in_step)
        (λ _. in_step)

-- A call of the interface, with what it needs of the random number generator.
pub data ClientCall : Type 0 where
  starts polls shuts_down : ClientCall
  switches : Bool → ClientCall
  adds : (rng : ℕ) → (random : Bytes) → AddRequest → ClientCall
  deletes : Text → ClientCall

module _ (C : Crypto) (S : ServiceCrates C) (bootstrap : List Call → Bool) {Listener : Type 0}
    (bind : SocketAddr → Option Listener) (local_addr : Listener → Option SocketAddr) where
  unfoldable pub step : Client S.Pattern → ClientCall → Client S.Pattern
  step c starts = (start bind local_addr c).1
  step c polls = (next_event c).1
  step c shuts_down = shutdown c
  step c (switches enabled) = set_network_enabled enabled c
  step c (adds rng random req) = (onion_add C S bootstrap rng random req c).1
  step c (deletes id) = (onion_del id c).1

  unfoldable pub run_calls : Client S.Pattern → List ClientCall → Client S.Pattern
  unfolding step
  run_calls c [] = c
  run_calls c (call ∷ calls) = run_calls (step c call) calls

  step-IsInStep : (call : ClientCall) (c : Client S.Pattern) → IsInStep c → IsInStep (step c call)
  unfolding step next_event onion_del
  step-IsInStep starts c h = start-IsInStep bind local_addr c h
  step-IsInStep polls c h = record { in_step = h.in_step }
  step-IsInStep shuts_down c h = shutdown-IsInStep c h
  step-IsInStep (switches enabled) c h = set_network_enabled-IsInStep enabled c h
  step-IsInStep (adds rng random req) c h = onion_add-IsInStep C S bootstrap rng random req c h
  step-IsInStep (deletes id) c h = delete-IsInStep id (lookup id c.services) c h

  run_calls-from :
      (calls : List ClientCall) (c : Client S.Pattern) → IsInStep c → IsInStep (run_calls c calls)
  unfolding run_calls
  run_calls-from [] c h = h
  run_calls-from (call ∷ calls) c h = run_calls-from calls (step c call) (step-IsInStep call c h)

  new_client-IsInStep : (cfg : Config) → IsInStep {P = S.Pattern} (new_client cfg)
  unfolding new_client dormant_mode
  new_client-IsInStep cfg = record { in_step = λ e. cc }

  -- Whatever methods are called one after the other on a client that was just built, and whatever
  -- they come to, the network is marked as enabled exactly when the mode that arti-client was last
  -- put into is the normal one.
  pub run_calls-IsInStep :
      (cfg : Config) (calls : List ClientCall) → IsInStep (run_calls (new_client cfg) calls)
  run_calls-IsInStep cfg calls = run_calls-from calls (new_client cfg) (new_client-IsInStep cfg)
