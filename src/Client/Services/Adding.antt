-- ===== src/Client/Services/Adding.antt =====
-- What a successful `onion_add` of rust/arti-ffi/src/client.rs has done, and that `onion_del`
-- undoes it.
use mathlib.Core.Path.{subst}
use go_arti.Prelude.{
  ℕ, ◌≡◌, refl, sym, ap, ◌∙◌, inl, inr, Bool, true, false, Option, none, some, List, [], ◌∷◌, ◌++◌,
  map, arith, if◌then◌else◌, Bool-cases, Result, ok, err, Bytes, Text, text_eq, text_eq_refl,
}
use go_arti.Prelude.Keys.{insert, text_key, lookup, lookup-insert}
use go_arti.Onion.{Service}
use go_arti.Onion.Launch.{ServiceCrates, Effect, launch}
use go_arti.Client.{
  drop_service, service, replaced, Client, onion_del, Crypto, Call, keep, Error, AddResponse,
  set_network_enabled, AddRequest, onion_add, launched, called, block_on_bootstrap,
}
use go_arti.Client.Services.{onion_del-found}

nested_if {ℓ} :
    {A : Type ℓ} (b : Bool) (x y z : A)
    → (if b then x else (if b then y else z)) ≡ (if b then x else z)
nested_if true x y z = refl
nested_if false x y z = refl

module _ (C : Crypto) (S : ServiceCrates C) (bootstrap : List Call → Bool) where
  -- What a successful ADD_ONION has done.
  keep_ok :
      (r : Result Error (AddResponse × Service S.Pattern)) (c c' : Client S.Pattern)
      (resp : AddResponse)
      → keep C S bootstrap r c ≡ (ok resp, c')
      → (svc : Service S.Pattern) × (r ≡ ok (resp, svc))
        × (c'.services ≡ insert resp.service_id svc c.services)
        × (c'.net_enabled ≡ c.net_enabled)
        × (c'.calls ≡ c.calls ++ replaced C S bootstrap (lookup resp.service_id c.services))
  unfolding keep
  keep_ok (err e) c c' resp h = absurd (ground arith)
  keep_ok (ok (resp', svc)) c c' resp h =
      let same : resp' ≡ resp = ground arith in
      (
        svc,
        ground arith,
        ground arith,
        ground arith,
        sym (ap (λ p. p.1.calls) h)
            ∙ ap (λ r. c.calls ++ replaced C S bootstrap (lookup r.service_id c.services)) same,
      )

  -- The call for a service that has lost its place in the table.
  abbrev pub DropsOf : Option (Service S.Pattern) → List Call → Type 0
  DropsOf none calls = calls ≡ []
  DropsOf (some old) calls = calls ≡ drop_service old.nickname ∷ []

  replaced-DropsOf : (o : Option (Service S.Pattern)) → DropsOf o (replaced C S bootstrap o)
  unfolding replaced
  replaced-DropsOf none = refl
  replaced-DropsOf (some old) = refl

  -- A client after an ADD_ONION: a launch has answered the response and a service, the table has
  -- that service under the ID of the response and is the same otherwise, and the calls since the
  -- wait for the bootstrap are those of the launch, and that the service of this ID, if there was
  -- one, is dropped.
  pub record Added (rng : ℕ) (random : Bytes) (req : AddRequest) (resp : AddResponse)
      (c waited c' : Client S.Pattern) : Type 0 where
    pub svc : Service S.Pattern
    pub effects : List Effect
    pub launches : launch C S rng random req ≡ (ok (resp, svc), effects)
    pub stored :
        (j : Text)
        → lookup j c'.services
          ≡ (if text_eq resp.service_id j then some svc else lookup j c.services)
    pub enabled : c'.net_enabled ≡ true
    pub drops : List Call
    pub made : c'.calls ≡ (waited.calls ++ map service effects) ++ drops
    pub dropped : DropsOf (lookup resp.service_id c.services) drops

  set_network_enabled_keeps :
      (e : Bool) (c : Client S.Pattern)
      → ((set_network_enabled e c).services ≡ c.services)
        × ((set_network_enabled e c).net_enabled ≡ e)
  unfolding set_network_enabled
  set_network_enabled_keeps e c = (ground arith, ground arith)

  launched-Added :
      (rng : ℕ) (random : Bytes) (req : AddRequest) (resp : AddResponse) (c c' : Client S.Pattern)
      → c.net_enabled ≡ true
      → launched C S bootstrap rng random req c ≡ (ok resp, c')
      → Added rng random req resp c c c'
  unfolding launched
  launched-Added rng random req resp c c' n h =
      let (r, effects) = launch C S rng random req in
      let (svc, answered, stored, net, made) =
        keep_ok r (called c (map service effects)) c' resp h in
      record {
        svc = svc;
        effects = effects;
        launches = ap (λ a. (a, effects)) answered;
        drops = replaced C S bootstrap (lookup resp.service_id c.services);
        made = made;
        dropped = replaced-DropsOf (lookup resp.service_id c.services);
        stored = λ j. rw stored (lookup-insert resp.service_id j svc c.services);
        enabled = net ∙ n;
      }

  -- An ADD_ONION that succeeds has awaited a bootstrap that succeeded, and its response is that of
  -- a launch: the service of this launch is stored under the ID of the response, every other
  -- service is left alone, the network is enabled, and the calls since the wait are those of the
  -- launch, and after them that the service stored under this ID before, if any, is dropped.
  pub onion_add-Added :
      (rng : ℕ) (random : Bytes) (req : AddRequest) (resp : AddResponse) (c c' : Client S.Pattern)
      → onion_add C S bootstrap rng random req c ≡ (ok resp, c')
      → let waited = called (set_network_enabled true c) (block_on_bootstrap ∷ []) in
        Added rng random req resp c waited c' × (bootstrap waited.calls ≡ true)
  unfolding onion_add
  onion_add-Added rng random req resp c c' h = elim (Bool-cases (bootstrap waited.calls)) [
    | inr failed ↦ absurd (ground arith)
    | inl done ↦
        let added = launched-Added rng random req resp waited c' (kept.1) (ground arith) in
        (
          record {
            svc = added.svc;
            effects = added.effects;
            launches = added.launches;
            drops = added.drops;
            made = added.made;
            dropped =
                subst (λ m. DropsOf (lookup resp.service_id m) added.drops) kept.0 added.dropped;
            stored = λ j.
                added.stored j
                ∙ ap (λ m. if text_eq resp.service_id j then some added.svc else lookup j m) kept.0;
            enabled = added.enabled;
          },
          done,
        )
  ]
    where
      waited : Client S.Pattern
      waited = called (set_network_enabled true c) (block_on_bootstrap ∷ [])

      kept :
          ((set_network_enabled true c).services ≡ c.services)
          × ((set_network_enabled true c).net_enabled ≡ true)
      kept = set_network_enabled_keeps true c

  -- What was added can be deleted by the ID of the response, and exactly the added service is gone.
  pub onion_add-del :
      (rng : ℕ) (random : Bytes) (req : AddRequest) (resp : AddResponse) (c c' : Client S.Pattern)
      → onion_add C S bootstrap rng random req c ≡ (ok resp, c')
      → let (r, c'') = onion_del resp.service_id c' in
        (r ≡ ok tt)
        × ((j : Text)
            → lookup j c''.services
              ≡ (if text_eq resp.service_id j then none else lookup j c.services))
  onion_add-del rng random req resp c c' h =
      let (added, _) = onion_add-Added rng random req resp c c' h in
      let id = resp.service_id in
      let found = onion_del-found id c' added.svc (added.stored id ∙ rw (text_eq_refl id)) in
      (
        found.0,
        λ j.
            found.1 j
            ∙ ap (λ x. if text_eq id j then none else x) (added.stored j)
            ∙ nested_if (text_eq id j) none (some added.svc) (lookup j c.services),
      )
