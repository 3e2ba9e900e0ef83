-- ===== src/Client/Lifecycle.antt =====
-- Starting a client of rust/arti-ffi/src/client.rs: what each of its steps keeps, and that it
-- happens once.
pub mod Binding
pub mod Racing
use go_arti.Prelude.{
  ℕ, zero, suc, ◌+◌, ◌-◌, ◌*◌, ◌/◌, ◌%◌, ◌^◌, ◌≤◌, ◌<◌, min, String, ◌≡◌, refl, sym, ap, ◌∙◌, ◌≢◌,
  ◌↔◌, ◌⊎◌, inl, inr, Bool, true, false, not, ◌&&◌, ◌||◌, Option, none, some, List, [], ◌∷◌, ◌++◌,
  map, append-nil, append_assoc, arith, ◌>>=◌, ◌>>◌, ltb, leb, ◌==◌, if◌then◌else◌, within, ltb→lt,
  lt→ltb, leb→le, le→leb, ==_iff, ==_refl, tests, Bool-cases, Option-cases, Result, ok, err,
  or_fail, Result-cases, through, length, take, drop, get_or, length-append, split_at?,
  split_at?-append, split_at?-short, All, Bytes, Text, codes, text_eq, text_eq_sound, text_eq_refl,
  text_eq_iff, modify, get_elem?, replicate, get_elem?-modify, get_elem?-modify-none, total,
  total-append, total-modify, le-total,
}
use go_arti.Text.Address.{SocketAddr}
use go_arti.Errors.{Error, already_started}
use go_arti.Socks.Serve.{spawn}
use go_arti.Client.{
  bind_socks, spawn_bootstrap_watcher, Client, called, set_network_enabled, apply_enabled, start,
  start_at, start_listener, start_network, with_network, socks_bind_addr, listening,
}

pub if_cases {ℓ κ} :
    {A : Type ℓ} (Q : A → Type κ) (b : Bool) {x y : A}
    → (b ≡ true → Q x)
    → (b ≡ false → Q y)
    → Q (if b then x else y)
if_cases Q true p q = p refl
if_cases Q false p q = q refl

if_true {ℓ} : {A : Type ℓ} (b : Bool) (x y : A) → b ≡ true → (if b then x else y) ≡ x
if_true true x y h = refl
if_true false x y h = cc

-- What a start keeps, whatever it comes to: the rules for each step that it can make.
module _ {P : Type 0} (Keeps : Client P → Type 0)
    (keeps_network : (e : Bool) (c : Client P) → Keeps c → Keeps (set_network_enabled e c))
    (keeps_bind : (a : SocketAddr) (c : Client P) → Keeps c → Keeps (called c (bind_socks a ∷ [])))
    (keeps_bound : (a : SocketAddr) (c : Client P)
      → Keeps c
      → Keeps (record c { socks_addr = some a }))
    (keeps_watcher : (c : Client P) → Keeps c → Keeps (called c (spawn_bootstrap_watcher ∷ [])))
    {Listener : Type 0} (bind : SocketAddr → Option Listener)
    (local_addr : Listener → Option SocketAddr) where
  start_network-Keeps : (c : Client P) → Keeps c → Keeps (start_network c).1
  unfolding start_network with_network
  start_network-Keeps c h =
      let d = called c (spawn_bootstrap_watcher ∷ []) in
      if_cases Keeps d.config.disable_network (λ _. keeps_watcher c h)
        (λ _. keeps_network true d (keeps_watcher c h))

  listening-Keeps :
      (bound : Option SocketAddr) (c : Client P) → Keeps c → Keeps (listening bound c).1
  unfolding listening
  listening-Keeps none c h = h
  listening-Keeps (some b) c h = start_network-Keeps _ (keeps_bound b c h)

  start_listener-Keeps :
      (a : SocketAddr) (c : Client P) → Keeps c → Keeps (start_listener bind local_addr a c).1
  unfolding start_listener
  start_listener-Keeps a c h = listening-Keeps (spawn bind local_addr a) _ (keeps_bind a c h)

  start_at-Keeps :
      (r : Result Error (Option SocketAddr)) (c : Client P)
      → Keeps c
      → Keeps (start_at bind local_addr r c).1
  unfolding start_at
  start_at-Keeps (err e) c h = h
  start_at-Keeps (ok none) c h = start_network-Keeps c h
  start_at-Keeps (ok (some a)) c h = start_listener-Keeps a c h

  pub start-Keeps :
      ((c : Client P) → Keeps c → Keeps (record c { started = true }))
      → (c : Client P) → Keeps c
      → Keeps (start bind local_addr c).1
  unfolding start
  start-Keeps keeps_started c h =
      if_cases (λ (r : Result Error (Unit {0}) × Client P). Keeps r.1) c.started (λ _. h)
        (λ _. start_at-Keeps (socks_bind_addr c) _ (keeps_started c h))

module _ {P Listener : Type 0} (bind : SocketAddr → Option Listener)
    (local_addr : Listener → Option SocketAddr) where
  set_network_enabled-started :
      (e : Bool) (c : Client P) → c.started ≡ true → (set_network_enabled e c).started ≡ true
  unfolding set_network_enabled apply_enabled
  set_network_enabled-started e c h = ground arith

  start-started : (c : Client P) → (start bind local_addr c).1.started ≡ true
  unfolding start
  start-started c =
      if_cases (λ (r : Result Error (Unit {0}) × Client P). r.1.started ≡ true) c.started (λ e. e)
        (λ _.
          start_at-Keeps (λ d. d.started ≡ true) set_network_enabled-started (λ a d h. h)
            (λ a d h. h) (λ d h. h) bind local_addr (socks_bind_addr c)
            (record c { started = true }) refl)

  start_refused :
      (d : Client P) → d.started ≡ true → start bind local_addr d ≡ (err already_started, d)
  unfolding start
  start_refused d h = if_true d.started _ _ h

  -- A client starts at most once: after a start, also after one that failed, every further start
  -- is refused and changes nothing.
  start_twice :
      (c : Client P)
      → let c' = (start bind local_addr c).1 in start bind local_addr c' ≡ (err already_started, c')
  start_twice c = start_refused (start bind local_addr c).1 (start-started c)
