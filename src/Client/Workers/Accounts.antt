-- ===== src/Client/Workers/Accounts.antt =====
-- Every onion service that the threads of rust/arti-ffi/src/client.rs ever launched is accounted
-- for.
use go_arti.Prelude.{
  ℕ, ◌+◌, ◌-◌, ◌≤◌, ◌≡◌, refl, sym, ap, ◌∙◌, inl, inr, Bool, true, false, Option, none, some, List,
  [], ◌∷◌, arith, if◌then◌else◌, ok, err, Bytes, Text, get_elem?, total, total-append, total-modify,
  le-total,
}
use mathlib.Core.List.{map}
use go_arti.Prelude.Keys.{text_key, lookup}
use go_arti.Config.{Config}
use go_arti.Onion.{AddRequest, Crypto, Service}
use go_arti.Onion.Launch.{
  ServiceCrates, Effect, launch, launch_service, spawn_task, shut_proxy, abort_task,
}
use go_arti.Onion.Launch.Laws.{launch-LaunchedFrom, launch_failed_clean}
use go_arti.Onion.Launch
use go_arti.Client.{Call, Client, service, block_on_bootstrap, called, replaced}
use go_arti.Client.New.{new_client}
use go_arti.Client.Workers.{
  Worker, asks, enabled, ready, holding, deleting, deleted, closing, over, drained, Pool, values,
  took_up, worker_step, step_by, step, steps, Job, adds, deletes, closes, begin,
}
use go_arti.Client.Workers.Ledger.{
  starts, ends, in_hands, named, called-Accounted, recount, set_network_enabled-Accounted,
  insert-Accounted, take_out-Accounted, stop_next-Accounted, drain-Accounted, shutdown_ends,
  Accounted,
}
use go_arti.Client.Workers.Totals.{of_option, IsTable}

module _ (n : Text) (C : Crypto) (S : ServiceCrates C) (bootstrap : List Call → Bool) where
  abbrev obtained : Launch.Launched C S → ℕ
  obtained (err e) = 0
  obtained (ok (resp, svc)) = named n svc

  launch-starts :
      (rng : ℕ) (random : Bytes) (req : AddRequest) (r : Launch.Launched C S)
      (effects : List Effect)
      → launch C S rng random req ≡ (r, effects)
      → (total (starts n) (map service effects) ≡ obtained r)
        × (total (ends n) (map service effects) ≡ 0)
  unfolding total
  launch-starts rng random req (ok (resp, svc)) effects h =
      let from = launch-LaunchedFrom C S rng random req resp svc effects h in
      rw (from.done, from.tasks) (omega arith, refl)
  launch-starts rng random req (err e) effects h =
      elim (launch_failed_clean C S rng random req e (ap (λ x. x.0) h)) [
        | inl nothing ↦ rw (sym (ap (λ x. x.1) h) ∙ nothing) (refl, refl)
        | inr (why, (m, one)) ↦ rw (sym (ap (λ x. x.1) h) ∙ one) (refl, refl)
      ]

  took_up-Accounted :
      (r : Launch.Launched C S) (effects : List Effect) (c : Client S.Pattern) (others : ℕ)
      → total (starts n) (map service effects) ≡ obtained r
      → total (ends n) (map service effects) ≡ 0
      → Accounted n c others
      → let (w, c') = took_up C S bootstrap r (called c (map service effects)) in
        Accounted n c' (in_hands n w + others)
  unfolding took_up
  took_up-Accounted (err e) effects c others st en h =
      called-Accounted n c (map service effects) others (0 + others) st (omega (arith, en)) h
  took_up-Accounted (ok (resp, svc)) effects c others st en h = record {
    table = h.table;
    balanced = omega (
      arith,
      total-append (starts n) c.calls (map service effects),
      total-append (ends n) c.calls (map service effects),
      st,
      en,
      h.balanced,
    );
  }

  replaced-ends :
      (o : Option (Service S.Pattern))
      → (total (starts n) (replaced C S bootstrap o) ≡ 0)
        × (total (ends n) (replaced C S bootstrap o) ≡ of_option (named n) o)
  unfolding replaced total
  replaced-ends none = (refl, refl)
  replaced-ends (some old) = (refl, omega arith)

  awaited :
      (b : Bool) (rng : ℕ) (random : Bytes) (req : AddRequest)
      → in_hands n {P = S.Pattern} (if b then ready rng random req else over) ≡ 0
  awaited true rng random req = refl
  awaited false rng random req = refl

  worker_step-Accounted :
      (w : Worker S.Pattern) (c : Client S.Pattern) (others : ℕ)
      → Accounted n c (in_hands n w + others)
      → let (w', c') = worker_step C S bootstrap w c in Accounted n c' (in_hands n w' + others)
  unfolding worker_step total
  worker_step-Accounted (asks rng random req) c others h =
      set_network_enabled-Accounted n true c (0 + others) h
  worker_step-Accounted (enabled rng random req) c others h =
      let c' = called c (block_on_bootstrap ∷ []) in
      recount n c' (0 + others) _
        (ap (λ x. x + others) (sym (awaited (bootstrap c'.calls) rng random req)))
        (called-Accounted n c (block_on_bootstrap ∷ []) (0 + others) (0 + others) refl (omega arith)
          h)
  worker_step-Accounted (ready rng random req) c others h =
      let (r, effects) = launch C S rng random req in
      let (st, en) = launch-starts rng random req r effects refl in
      took_up-Accounted r effects c others st en (recount n c (0 + others) others (omega arith) h)
  worker_step-Accounted (holding resp svc) c others h =
      let old = lookup resp.service_id c.services in
      let (st, en) = replaced-ends old in
      called-Accounted n _ (replaced C S bootstrap old) (of_option (named n) old + others)
        (0 + others) st (omega (arith, en)) (insert-Accounted n resp.service_id svc c others h)
  worker_step-Accounted (deleting id) c others h =
      take_out-Accounted n id (lookup id c.services) c others refl
        (recount n c (0 + others) others (omega arith) h)
  worker_step-Accounted (deleted svc) c others h =
      let (st, en) = shutdown_ends n svc in
      called-Accounted n c (map service (Launch.shutdown svc)) (named n svc + others) (0 + others)
        st (omega (arith, en)) h
  worker_step-Accounted closing c others h =
      drain-Accounted n c others (recount n c (0 + others) others (omega arith) h)
  worker_step-Accounted (drained rest) c others h = stop_next-Accounted n rest c others h
  worker_step-Accounted over c others h = h

  step_by-Accounted :
      (i : ℕ) (o : Option (Worker S.Pattern)) (s : Pool S.Pattern)
      → get_elem? s.workers i ≡ o
      → Accounted n s.client (total (in_hands n) s.workers)
      → let s' = step_by C S bootstrap i o s in
        Accounted n s'.client (total (in_hands n) s'.workers)
  unfolding step_by
  step_by-Accounted i none s g h = h
  step_by-Accounted i (some w) s g h =
      let (w', c') = worker_step C S bootstrap w s.client in
      let moved = total-modify (in_hands n) i s.workers w w' g in
      let mine : in_hands n w ≤ total (in_hands n) s.workers =
        le-total (in_hands n) i s.workers w g in
      let others = total (in_hands n) s.workers - in_hands n w in
      recount n c' (in_hands n w' + others) _ (omega (arith, moved, mine))
        (worker_step-Accounted w s.client others (recount n s.client _ _ (omega (arith, mine)) h))

  steps-Accounted :
      (is : List ℕ) (s : Pool S.Pattern)
      → Accounted n s.client (total (in_hands n) s.workers)
      → let s' = steps C S bootstrap s is in Accounted n s'.client (total (in_hands n) s'.workers)
  unfolding steps step
  steps-Accounted [] s h = h
  steps-Accounted (i ∷ is) s h =
      steps-Accounted is (step C S bootstrap s i)
        (step_by-Accounted i (get_elem? s.workers i) s refl h)

  begin_empty : (jobs : List Job) → total (in_hands n {P = S.Pattern}) (map begin jobs) ≡ 0
  unfolding total
  begin_empty [] = refl
  begin_empty (adds rng random req ∷ jobs) = omega (arith, begin_empty jobs)
  begin_empty (deletes id ∷ jobs) = omega (arith, begin_empty jobs)
  begin_empty (closes ∷ jobs) = omega (arith, begin_empty jobs)

  at_first-Accounted :
      (cfg : Config) (hands : ℕ) → hands ≡ 0 → Accounted n {P = S.Pattern} (new_client cfg) hands
  unfolding new_client total
  at_first-Accounted cfg hands h = record { table = tt; balanced = omega (arith, h) }

  -- Any number of threads in `onion_add`, `onion_del` and `shutdown` of a new client, at any
  -- moment of any interleaving, and for any nickname: as many services as were started under it
  -- are in the client's table, in the hands of the threads, and ended, that is shut down or dropped
  -- for another under their ID, taken together; and no ID stands twice in the table.
  pub services_accounted :
      (cfg : Config) (jobs : List Job) (is : List ℕ)
      → let s =
          steps C S bootstrap (record { client = new_client cfg; workers = map begin jobs }) is in
        (total (starts n) s.client.calls
          ≡ total (named n) (values s.client.services)
            + total (in_hands n) s.workers
            + total (ends n) s.client.calls)
        × IsTable s.client.services
  services_accounted cfg jobs is =
      let h =
        steps-Accounted is (record { client = new_client cfg; workers = map begin jobs })
          (at_first-Accounted cfg _ (begin_empty jobs)) in
      (h.balanced, h.table)
