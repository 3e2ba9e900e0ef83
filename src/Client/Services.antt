-- ===== src/Client/Services.antt =====
-- The onion services that the client of rust/arti-ffi/src/client.rs holds.
pub mod Adding
use mathlib.Core.Path.{subst}
use go_arti.Prelude.{
  ℕ, zero, suc, ◌+◌, ◌-◌, ◌*◌, ◌/◌, ◌%◌, ◌^◌, ◌≤◌, ◌<◌, min, String, ◌≡◌, refl, sym, ap, ◌∙◌, ◌≢◌,
  ◌↔◌, ◌⊎◌, inl, inr, Bool, true, false, not, ◌&&◌, ◌||◌, Option, none, some, List, [], ◌∷◌, ◌++◌,
  map, append-nil, append_assoc, arith, ◌>>=◌, ◌>>◌, ltb, leb, ◌==◌, if◌then◌else◌, within, ltb→lt,
  lt→ltb, leb→le, le→leb, ==_iff, ==_refl, tests, Bool-cases, Option-cases, Result, ok, err,
  or_fail, Result-cases, through, length, take, drop, get_or, length-append, split_at?,
  split_at?-append, split_at?-short, All, Bytes, Text, codes, text_eq, text_eq_sound, text_eq_refl,
  text_eq_iff, modify, get_elem?, replicate, get_elem?-modify, get_elem?-modify-none, each-modify,
  one_at, times, get_elem?-replicate, get_elem?-lt, modify_leaves_fewer, turns_leave_fewer,
  turn_leaves_fewer, total_none, total, total-append, total-modify, le-total,
}
use go_arti.Prelude.Keys.{insert, text_key, lookup, lookup-remove, lookup-insert}
use go_arti.Errors.{no_such_service}
use go_arti.Onion.{Service}
use go_arti.Onion.Launch.{ServiceCrates, Effect, launch}
use go_arti.Onion.Launch
use go_arti.Client.{
  drop_service, service, replaced, Client, delete, onion_del, Crypto, stop_all, shutdown, Call,
  notify_all, keep, Error, AddResponse, set_network_enabled, AddRequest, onion_add, launched,
  called, block_on_bootstrap,
}

module _ {P : Type 0} where
  -- DEL_ONION of a service that is there succeeds and takes that service away: afterwards it is
  -- missing, every other one is untouched, and it has been shut down.
  pub onion_del-found :
      (id : Text) (c : Client P) (svc : Service P)
      → lookup id c.services ≡ some svc
      → let (r, c') = onion_del id c in
        (r ≡ ok tt)
        × ((j : Text) → lookup j c'.services ≡ (if text_eq id j then none else lookup j c.services))
        × (c'.calls ≡ c.calls ++ map service (Launch.shutdown svc))
  unfolding onion_del
  onion_del-found id c svc h = rw (h, delete) (refl, λ j. lookup-remove id j c.services, refl)

  -- DEL_ONION of a service that is not there is an error and changes nothing.
  onion_del-missing :
      (id : Text) (c : Client P)
      → lookup id c.services ≡ none
      → onion_del id c ≡ (err (no_such_service id), c)
  unfolding onion_del
  onion_del-missing id c h = rw (h, delete)

  -- A service is deleted once: the second DEL_ONION of an ID always fails.
  onion_del_twice :
      (id : Text) (c : Client P) → (onion_del id (onion_del id c).1).0 ≡ err (no_such_service id)
  onion_del_twice id c = elim (Option-cases (lookup id c.services)) [
    | inl missing ↦ rw (onion_del-missing id c missing) (rw (onion_del-missing id c missing))
    | inr (svc, found) ↦
        let gone = (onion_del-found id c svc found).1 id in
        ap (λ r. r.0) (onion_del-missing id (onion_del id c).1 (gone ∙ rw (text_eq_refl id)))
  ]

  stop_all-found :
      (id : Text) (services : List (Text × Service P)) (svc : Service P)
      → lookup id services ≡ some svc
      → (before after : List Call) × (stop_all services
          ≡ before ++ map service (Launch.shutdown svc) ++ after)
  unfolding lookup stop_all
  stop_all-found id [] svc h = absurd (ground arith)
  stop_all-found id ((j, s) ∷ rest) svc h = elim (Bool-cases (text_eq j id)) [
    | inl e ↦ ([], stop_all rest, ground arith)
    | inr n ↦
        let (before, after, q) = stop_all-found id rest svc (ground arith) in
        (
          map service (Launch.shutdown s) ++ before,
          after,
          ap (λ calls. map service (Launch.shutdown s) ++ calls) q ∙ simp append_assoc,
        )
  ]

  -- A shutdown shuts down every service that the client holds, wakes the waiting threads after
  -- that, and leaves no service behind.
  shutdown_stops_all :
      (c : Client P) (id : Text) (svc : Service P)
      → lookup id c.services ≡ some svc
      → ((before after : List Call) × ((shutdown c).calls
            ≡ c.calls
              ++ ((before ++ map service (Launch.shutdown svc) ++ after) ++ notify_all ∷ [])))
        × ((j : Text) → lookup j (shutdown c).services ≡ none)
        × ((shutdown c).exit ≡ true)
  unfolding shutdown lookup
  shutdown_stops_all c id svc h =
      let (before, after, q) = stop_all-found id c.services svc h in
      ((before, after, ap (λ calls. c.calls ++ (calls ++ notify_all ∷ [])) q), λ j. refl, refl)
