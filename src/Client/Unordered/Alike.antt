-- ===== src/Client/Unordered/Alike.antt =====
-- Two clients of rust/arti-ffi/src/client.rs that differ in the order of their tables answer every
-- call alike.
use mathlib.Core.List.{map}
use mathlib.Core.Path.{subst}
use go_arti.Prelude.{
  ℕ, ◌≡◌, refl, Bool, true, false, Option, none, some, List, [], ◌∷◌, if◌then◌else◌, Result, ok,
  err, Bytes, Text,
}
use go_arti.Prelude.Keys.{text_key, lookup}
use go_arti.Text.Address.{SocketAddr}
use go_arti.Errors.{Error}
use go_arti.Onion.{AddRequest, Crypto, Service}
use go_arti.Onion.Launch.{ServiceCrates, launch}
use go_arti.Onion.Launch
use go_arti.Socks.Serve.{spawn}
use go_arti.Client.{
  Call, Client, service, called, set_network_enabled, apply_enabled, same, with_network,
  start_network, listening, start_listener, start_at, socks_bind_addr, start, replaced, keep,
  launched, onion_add, delete, onion_del, block_on_bootstrap, spawn_bootstrap_watcher, bind_socks,
  set_dormant, normal, soft, spawn_bootstrap, next_event, bootstrap_failed, swap_enabled,
}
use go_arti.Client.Unordered.{SameCalls, Same}
use go_arti.Client.Unordered.Rules.{
  SameCalls-refl, Same-elim, called-Same, beside-Same, inserted-Same, removed-Same,
}

-- The same answer, and clients that are alike again.
abbrev pub Agree : {P A : Type 0} → A × Client P → A × Client P → Type 0
Agree x y = (x.0 ≡ y.0) × Same x.1 y.1

if_both {ℓ κ} :
    {A B : Type ℓ} (R : A → B → Type κ) (b : Bool) {x y : A} {x' y' : B}
    → R x x'
    → R y y'
    → R (if b then x else y) (if b then x' else y')
if_both R true p q = p
if_both R false p q = q

module _ {P : Type 0} where
  on_called :
      (calls : List Call) (c c' : Client P) → Same c c' → Same (called c calls) (called c' calls)
  on_called calls c c' h = called-Same calls calls c c' (SameCalls-refl calls) h

  pub set_network_enabled-Same :
      (e : Bool) (c c' : Client P)
      → Same c c'
      → Same (set_network_enabled e c) (set_network_enabled e c')
  unfolding set_network_enabled swap_enabled apply_enabled
  set_network_enabled-Same e =
      Same-elim (λ c c'. Same (set_network_enabled e c) (set_network_enabled e c'))
        (λ c m calls h.
          let d = record c { net_enabled = e } in
          let switched = beside-Same c d m calls refl refl h in
          if_both Same (same c.net_enabled e) switched (
            if_both Same e (on_called (set_dormant normal ∷ spawn_bootstrap ∷ []) _ _ switched)
              (on_called (set_dormant soft ∷ []) _ _ switched)))

  start_network-Agree : (c c' : Client P) → Same c c' → Agree (start_network c) (start_network c')
  unfolding start_network with_network
  start_network-Agree =
      Same-elim (λ c c'. Agree (start_network c) (start_network c'))
        (λ c m calls h.
          let watched = on_called (spawn_bootstrap_watcher ∷ []) _ _ h in
          (
            refl,
            if_both Same c.config.disable_network watched
                (set_network_enabled-Same true _ _ watched),
          ))

  listening-Agree :
      (o : Option SocketAddr) (c c' : Client P) → Same c c' → Agree (listening o c) (listening o c')
  unfolding listening
  listening-Agree none = λ c c' h. (refl, h)
  listening-Agree (some bound) =
      Same-elim (λ c c'. Agree (listening (some bound) c) (listening (some bound) c'))
        (λ c m calls h.
          start_network-Agree _ _
            (beside-Same c (record c { socks_addr = some bound }) m calls refl refl h))

  module _ {Listener : Type 0} (bind : SocketAddr → Option Listener)
      (local_addr : Listener → Option SocketAddr) where
    start_at-Agree :
        (r : Result Error (Option SocketAddr)) (c c' : Client P)
        → Same c c'
        → Agree (start_at bind local_addr r c) (start_at bind local_addr r c')
    unfolding start_at start_listener
    start_at-Agree (err e) c c' h = (refl, h)
    start_at-Agree (ok none) c c' h = start_network-Agree c c' h
    start_at-Agree (ok (some addr)) c c' h =
        listening-Agree (spawn bind local_addr addr) _ _ (on_called (bind_socks addr ∷ []) c c' h)

    pub start-Agree :
        (c c' : Client P) → Same c c' → Agree (start bind local_addr c) (start bind local_addr c')
    unfolding start socks_bind_addr
    start-Agree =
        Same-elim (λ c c'. Agree (start bind local_addr c) (start bind local_addr c'))
          (λ c m calls h.
            if_both Agree c.started (refl, h)
              (start_at-Agree (socks_bind_addr c) _ _
                (beside-Same c (record c { started = true }) m calls refl refl h)))

  delete-Agree :
      (id : Text) (o : Option (Service P)) (c c' : Client P)
      → Same c c'
      → Agree (delete id o c) (delete id o c')
  unfolding delete
  delete-Agree id none c c' h = (refl, h)
  delete-Agree id (some svc) c c' h = (refl, on_called _ _ _ (removed-Same id c c' h))

  pub onion_del-Agree :
      (id : Text) (c c' : Client P) → Same c c' → Agree (onion_del id c) (onion_del id c')
  unfolding onion_del
  onion_del-Agree id c c' h =
      subst (λ o. Agree (onion_del id c) (delete id o c')) (h.found id)
        (delete-Agree id (lookup id c.services) c c' h)

  pub next_event-Agree : (c c' : Client P) → Same c c' → Agree (next_event c) (next_event c')
  unfolding next_event
  next_event-Agree =
      Same-elim (λ c c'. Agree (next_event c) (next_event c'))
        (λ c m calls h. (refl, beside-Same c (next_event c).1 m calls refl refl h))

-- What the bootstrap comes to does not hang on the order of the calls about onion services.
abbrev pub Heedless : (List Call → Bool) → Type 0
Heedless bootstrap = (xs ys : List Call) → SameCalls xs ys → bootstrap xs ≡ bootstrap ys

module _ (C : Crypto) (S : ServiceCrates C) (bootstrap : List Call → Bool) where
  keep-Agree :
      (r : Launch.Launched C S) (c c' : Client S.Pattern)
      → Same c c'
      → Agree (keep C S bootstrap r c) (keep C S bootstrap r c')
  unfolding keep
  keep-Agree (err e) c c' h = (refl, h)
  keep-Agree (ok (resp, svc)) c c' h =
      let id = resp.service_id in
      (
        refl,
        called-Same _ _ _ _
            (subst
              (λ o.
                SameCalls (replaced C S bootstrap (lookup id c.services))
                  (replaced C S bootstrap o))
              (h.found id) (SameCalls-refl _))
            (inserted-Same id svc c c' h),
      )

  launched-Agree :
      (rng : ℕ) (random : Bytes) (req : AddRequest) (c c' : Client S.Pattern)
      → Same c c'
      → Agree (launched C S bootstrap rng random req c) (launched C S bootstrap rng random req c')
  unfolding launched
  launched-Agree rng random req c c' h =
      let (r, effects) = launch C S rng random req in
      keep-Agree r _ _ (on_called (map service effects) c c' h)

  pub onion_add-Agree :
      Heedless bootstrap
      → (rng : ℕ) (random : Bytes) (req : AddRequest) (c c' : Client S.Pattern) → Same c c'
      → Agree (onion_add C S bootstrap rng random req c) (onion_add C S bootstrap rng random req c')
  unfolding onion_add
  onion_add-Agree heedless rng random req c c' h =
      let waits : Client S.Pattern → Client S.Pattern =
        λ d. called (set_network_enabled true d) (block_on_bootstrap ∷ []) in
      let waited = on_called (block_on_bootstrap ∷ []) _ _ (set_network_enabled-Same true c c' h) in
      subst
        (λ b. Agree (onion_add C S bootstrap rng random req c) (
          if b
          then launched C S bootstrap rng random req (waits c')
          else (err bootstrap_failed, waits c')))
        (heedless _ _ waited.made)
        (if_both Agree (bootstrap (waits c).calls) (launched-Agree rng random req _ _ waited)
          (refl, waited))
