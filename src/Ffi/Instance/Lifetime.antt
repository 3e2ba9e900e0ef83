-- ===== src/Ffi/Instance/Lifetime.antt =====
-- The life of one client through the C functions (rust/arti-ffi/src/ffi.rs), from the handle to its
-- end.
use go_arti.Ffi.Exports.Live.{client_new-live}
use go_arti.Prelude.{
  ℕ, ◌+◌, ◌≡◌, refl, ap, ◌∙◌, Bool, none, some, List, ◌∷◌, arith, ◌==◌, if◌then◌else◌, ==_refl, ok,
  Bytes, Text, codes,
}
use go_arti.Prelude.Keys.{number_key, lookup, insert, lookup-insert}
use go_arti.Onion.{Crypto}
use go_arti.Onion.Launch.{ServiceCrates}
use go_arti.Client.{Client, set_network_enabled, network_enabled, swap_enabled, shutdown}
use go_arti.Client.Network.{apply_enabled-net}
use go_arti.Ffi.{
  World, CInt, Pointer, nonneg, minus_one, no_slot, slot, required_str, guard-live, report,
  null_client,
}
use go_arti.Ffi.Exports.{
  Methods, Json, arti_client_new, arti_set_network_enabled, arti_network_enabled, arti_client_free,
  is_nonzero,
}
use go_arti.Ffi.Exports.Handles.{free_drops}
use go_arti.Ffi.Instance.{Outside, client_methods, texts}

module _ {C : Crypto} {S : ServiceCrates C} (o : Outside C S) (json : Json) where
  abbrev methods : Methods (Client S.Pattern)
  methods = client_methods o

  -- The memory in which the client behind a handle is this one.
  abbrev with_client : ℕ → Client S.Pattern → World (Client S.Pattern) → World (Client S.Pattern)
  with_client a c w = record w { clients = insert a c w.clients }

  made :
      (text : Text) (c : Client S.Pattern) → o.set_up text ≡ ok c → methods.new text ≡ some (ok c)
  unfolding client_methods texts
  made text c h = rw h refl

  set-live :
      (a : ℕ) (enabled : CInt) (c : Client S.Pattern) (w : World (Client S.Pattern))
      → lookup a w.clients ≡ some c
      → arti_set_network_enabled methods json (some a) enabled slot w
        ≡ (nonneg 0, with_client a (set_network_enabled (is_nonzero enabled) c) w)
  unfolding arti_set_network_enabled client_methods report
  set-live a enabled c w h =
      guard-live slot minus_one (null_client slot)
        (methods.set_network_enabled (is_nonzero enabled)) (report slot) a c
        (set_network_enabled (is_nonzero enabled) c) (ok tt) w h refl

  flag-live :
      (a : ℕ) (c : Client S.Pattern) (w : World (Client S.Pattern))
      → lookup a w.clients ≡ some c
      → arti_network_enabled methods json (some a) w
        ≡ (nonneg (if network_enabled c then 1 else 0), with_client a c w)
  unfolding arti_network_enabled client_methods
  flag-live a c w h =
      guard-live no_slot minus_one (λ w'. (minus_one, w')) methods.network_enabled
        (λ b w'. (nonneg (if b then 1 else 0), w')) a c c (network_enabled c) w h refl

  enabled_flag : (e : Bool) (c : Client S.Pattern) → network_enabled (set_network_enabled e c) ≡ e
  unfolding network_enabled set_network_enabled swap_enabled
  enabled_flag e c = apply_enabled-net e c.net_enabled (record c { net_enabled = e })

  here :
      (a : ℕ) (c : Client S.Pattern) (m : List (ℕ × Client S.Pattern))
      → lookup a (insert a c m) ≡ some c
  here a c m = lookup-insert a a c m ∙ rw (==_refl a)

  others :
      (a b : ℕ) (c c' : Client S.Pattern) (m : List (ℕ × Client S.Pattern))
      → (if a == b then none else lookup b (insert a c' (insert a c' (insert a c m))))
        ≡ (if a == b then none else lookup b m)
  others a b c c' m = ground (
    arith,
    lookup-insert a b c' (insert a c' (insert a c m)),
    lookup-insert a b c' (insert a c m),
    lookup-insert a b c m,
  )

  -- The handle, the two codes, and the memory at the end.
  abbrev pub Lived :
      CInt
      → Client S.Pattern
      → World (Client S.Pattern)
      → Pointer
      → CInt
      → CInt
      → World (Client S.Pattern)
      → Type 0
  Lived enabled c w p code flag w' =
      (p ≡ some w.next_address)
      × (code ≡ nonneg 0)
      × (flag ≡ nonneg (if is_nonzero enabled then 1 else 0))
      × (w'.dropped ≡ shutdown (set_network_enabled (is_nonzero enabled) c) ∷ w.dropped)
      × ((b : ℕ) → lookup b w'.clients ≡ (if w.next_address == b then none else lookup b w.clients))
      × (w'.strings ≡ w.strings)
      × (w'.error_slot ≡ w.error_slot)

  -- A client that is made from a blob, told to enable or to disable the network, asked whether it
  -- is enabled, and freed, all through the C functions: the handle is a new address, the call
  -- returns 0, the answer is 1 or 0 as was asked for, and in the end the client is shut down once
  -- and dropped, its handle is gone, and no other client, no string and no error has changed.
  pub client_lifetime :
      (config_json : Bytes) (text : Text) (c : Client S.Pattern) (enabled : CInt)
      (w : World (Client S.Pattern))
      → required_str (some config_json) (codes "config") ≡ ok text
      → o.set_up text ≡ ok c
      → let opened = arti_client_new methods json (some config_json) slot w in
        let told = arti_set_network_enabled methods json opened.0 enabled slot opened.1 in
        let asked = arti_network_enabled methods json opened.0 told.1 in
        Lived enabled c w opened.0 told.0 asked.0 (arti_client_free methods json opened.0 asked.1)
  unfolding client_methods
  client_lifetime config_json text c enabled w h k =
      let a = w.next_address in
      let c' = set_network_enabled (is_nonzero enabled) c in
      let w1 : World (Client S.Pattern) = record w {
        clients = insert a c w.clients;
        next_address = a + 1;
      } in
      let w2 = with_client a c' w1 in
      let w3 = with_client a c' w2 in
      let opened = client_new-live methods json slot w config_json text c h (made text c k) in
      let told = set-live a enabled c w1 (here a c w.clients) in
      let asked = flag-live a c' w2 (here a c' w1.clients) in
      let (dropped, clients, strings, error_slot, _) =
        free_drops methods json w3 a c' (here a c' w2.clients) in
      rw (opened, told, asked)
        (
          refl,
          refl,
          ap (λ e. nonneg (if e then 1 else 0)) (enabled_flag (is_nonzero enabled) c),
          dropped,
          λ b. clients b ∙ others a b c c' w.clients,
          strings,
          error_slot,
        )
