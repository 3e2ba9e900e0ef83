-- ===== src/Client/Workers.antt =====
-- Threads that call `onion_add`, `onion_del` and `shutdown` of rust/arti-ffi/src/client.rs at once.
-- Each lock of the service table is one step, and so is each call of another crate; a service that
-- a thread has taken out of the table, or not put there yet, is in that thread's hands. The steps
-- within `set_network_enabled` are those of Client.Network.Threads, the steps that end a `shutdown`
-- those of Client.Wait: here each of the two is one step.
pub mod Totals
pub mod Ledger
pub mod Accounts
use go_arti.Prelude.{
  ℕ, Bool, true, Option, none, some, List, [], ◌∷◌, if◌then◌else◌, ok, err, Bytes, Text, modify,
  get_elem?,
}
use mathlib.Core.List.{map}
use go_arti.Prelude.Keys.{text_key, lookup, insert, remove}
use go_arti.Onion.{AddRequest, AddResponse, Crypto, Service}
use go_arti.Onion.Launch.{ServiceCrates, launch}
use go_arti.Onion.Launch
use go_arti.Client.{
  Call, Client, service, notify_all, block_on_bootstrap, called, set_network_enabled, replaced,
}

-- Where a thread is: in an `onion_add` before each of its steps, with a launched service in its
-- hands at the last one; in an `onion_del`; in a `shutdown`; or done.
pub data Worker (P : Type 0) : Type 0 where
  asks enabled ready : (rng : ℕ) → (random : Bytes) → (req : AddRequest) → Worker P
  holding : (resp : AddResponse) → (svc : Service P) → Worker P
  deleting : (id : Text) → Worker P
  deleted : (svc : Service P) → Worker P
  closing over : Worker P
  drained : (rest : List (Service P)) → Worker P

pub record Pool (P : Type 0) : Type 0 where
  pub client : Client P
  pub workers : List (Worker P)

module _ {P : Type 0} where
  abbrev pub values : List (Text × Service P) → List (Service P)
  values [] = []
  values ((id, svc) ∷ m) = svc ∷ values m

  -- `services.lock().remove(service_id)`
  pub take_out : Text → Option (Service P) → Client P → Worker P × Client P
  take_out id none c = (over, c)
  take_out id (some svc) c = (deleted svc, record c { services = remove id c.services })

  -- The loop over the drained services, and what follows it.
  pub stop_next : List (Service P) → Client P → Worker P × Client P
  stop_next [] c = (over, record (called c (notify_all ∷ [])) { exit = true })
  stop_next (svc ∷ rest) c = (drained rest, called c (map service (Launch.shutdown svc)))

module _ (C : Crypto) (S : ServiceCrates C) (bootstrap : List Call → Bool) where
  -- What a launch gives is in the thread's hands, if it gives anything.
  took_up : Launch.Launched C S → Client S.Pattern → Worker S.Pattern × Client S.Pattern
  took_up (err e) c = (over, c)
  took_up (ok (resp, svc)) c = (holding resp svc, c)

  unfoldable pub worker_step :
      Worker S.Pattern → Client S.Pattern → Worker S.Pattern × Client S.Pattern
  unfolding take_out stop_next took_up replaced
  worker_step (asks rng random req) c = (enabled rng random req, set_network_enabled true c)
  worker_step (enabled rng random req) c =
      let c' = called c (block_on_bootstrap ∷ []) in
      (if bootstrap c'.calls then ready rng random req else over, c')
  worker_step (ready rng random req) c =
      let (r, effects) = launch C S rng random req in took_up r (called c (map service effects))
  worker_step (holding resp svc) c =
      let old = lookup resp.service_id c.services in
      (
        over,
        called (record c { services = insert resp.service_id svc c.services })
            (replaced C S bootstrap old),
      )
  worker_step (deleting id) c = take_out id (lookup id c.services) c
  worker_step (deleted svc) c = (over, called c (map service (Launch.shutdown svc)))
  worker_step closing c = (drained (values c.services), record c { services = [] })
  worker_step (drained rest) c = stop_next rest c
  worker_step over c = (over, c)

  pub step_by : ℕ → Option (Worker S.Pattern) → Pool S.Pattern → Pool S.Pattern
  step_by i none s = s
  step_by i (some w) s =
      let (w', c') = worker_step w s.client in
      record { client = c'; workers = modify i (λ _. w') s.workers }

  -- The thread of number `i` moves.
  unfoldable pub step : Pool S.Pattern → ℕ → Pool S.Pattern
  unfolding step_by
  step s i = step_by i (get_elem? s.workers i) s

  unfoldable pub steps : Pool S.Pattern → List ℕ → Pool S.Pattern
  steps s [] = s
  steps s (i ∷ is) = steps (step s i) is

-- What a thread is called for.
pub data Job : Type 0 where
  adds : (rng : ℕ) → (random : Bytes) → (req : AddRequest) → Job
  deletes : (id : Text) → Job
  closes : Job

abbrev pub begin : {P : Type 0} → Job → Worker P
begin (adds rng random req) = asks rng random req
begin (deletes id) = deleting id
begin closes = closing
