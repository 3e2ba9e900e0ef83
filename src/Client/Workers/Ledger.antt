-- ===== src/Client/Workers/Ledger.antt =====
-- The account of the onion services under one nickname, over the calls of a client of
-- rust/arti-ffi/src/client.rs.
use go_arti.Prelude.{
  ℕ, ◌+◌, ◌≡◌, refl, ◌⊎◌, inl, inr, Bool, true, false, Option, none, some, List, [], ◌∷◌, arith,
  if◌then◌else◌, Text, text_eq, total, total-append,
}
use mathlib.Core.List.{map}
use go_arti.Prelude.Keys.{text_key, lookup, insert}
use go_arti.Onion.{Service, Task, proxy_loop}
use go_arti.Onion.Launch.{
  ServiceCrates, Effect, launch, launch_service, spawn_task, shut_proxy, abort_task,
}
use go_arti.Onion.Launch
use go_arti.Client.{
  Call, Client, service, drop_service, notify_all, called, set_network_enabled, swap_enabled,
  apply_enabled,
}
use go_arti.Client.Workers.{Worker, holding, deleted, drained, values, take_out, stop_next}
use go_arti.Client.Workers.Totals.{
  of_option, IsTable, insert-IsTable, remove-IsTable, total-insert, total-remove,
}

-- The services under one nickname.
module _ (n : Text) where
  abbrev one_if : Bool → ℕ
  one_if b = if b then 1 else 0

  abbrev pub named : {P : Type 0} → Service P → ℕ
  named svc = one_if (text_eq svc.nickname n)

  -- A call that starts the proxy loop of such a service.
  abbrev pub starts : Call → ℕ
  starts (service (spawn_task (proxy_loop m))) = one_if (text_eq m n)
  starts _ = 0

  -- A call that shuts its proxy down, and the drop of one that was replaced.
  abbrev pub ends : Call → ℕ
  ends (service (shut_proxy m)) = one_if (text_eq m n)
  ends (drop_service m) = one_if (text_eq m n)
  ends _ = 0

  abbrev pub in_hands : {P : Type 0} → Worker P → ℕ
  in_hands (holding resp svc) = named svc
  in_hands (deleted svc) = named svc
  in_hands (drained rest) = total named rest
  in_hands _ = 0

  aborts_nothing :
      (tasks : List Task)
      → (total starts (map service (map abort_task tasks)) ≡ 0)
        × (total ends (map service (map abort_task tasks)) ≡ 0)
  unfolding total
  aborts_nothing [] = (refl, refl)
  aborts_nothing (t ∷ tasks) = ground (arith, aborts_nothing tasks)

  -- A shutdown of a service ends it once.
  pub shutdown_ends :
      {P : Type 0} (svc : Service P)
      → (total starts (map service (Launch.shutdown svc)) ≡ 0)
        × (total ends (map service (Launch.shutdown svc)) ≡ named svc)
  unfolding total Launch.shutdown
  shutdown_ends svc = ground (arith, aborts_nothing svc.tasks)

  module _ {P : Type 0} where
    -- What was started is in the table, in a thread's hands or ended.
    pub record Accounted (c : Client P) (hands : ℕ) : Type 0 where
      pub table : IsTable c.services
      pub balanced :
          total starts c.calls ≡ total named (values c.services) + hands + total ends c.calls

    apply_enabled-calls :
        (e before : Bool) (d : Client P)
        → (apply_enabled e before d ≡ d)
          ⊎ ((calls : List Call) × (total starts calls ≡ 0)
              × (total ends calls ≡ 0)
              × (apply_enabled e before d ≡ called d calls))
    unfolding apply_enabled total
    apply_enabled-calls true true d = inl refl
    apply_enabled-calls true false d = inr (_, refl, refl, refl)
    apply_enabled-calls false true d = inr (_, refl, refl, refl)
    apply_enabled-calls false false d = inl refl

    -- Calls that start and end nothing, or end what was in a thread's hands.
    pub called-Accounted :
        (c : Client P) (calls : List Call) (hands rest : ℕ)
        → total starts calls ≡ 0
        → total ends calls + rest ≡ hands
        → Accounted c hands
        → Accounted (called c calls) rest
    called-Accounted c calls hands rest s e h = record {
      table = h.table;
      balanced =
          omega
            (arith, total-append starts c.calls calls, total-append ends c.calls calls, h.balanced);
    }

    pub recount : (c : Client P) (a b : ℕ) → a ≡ b → Accounted c a → Accounted c b
    recount c a b e h = rw e at h

    pub set_network_enabled-Accounted :
        (e : Bool) (c : Client P) (hands : ℕ)
        → Accounted c hands
        → Accounted (set_network_enabled e c) hands
    unfolding set_network_enabled swap_enabled
    set_network_enabled-Accounted e c hands h =
        applied c.net_enabled (record c { net_enabled = e })
          (record { table = h.table; balanced = h.balanced })
      where
        applied :
            (before : Bool) (d : Client P)
            → Accounted d hands
            → Accounted (apply_enabled e before d) hands
        applied before d k = elim (apply_enabled-calls e before d) [
          | inl same ↦ rw same k
          | inr (calls, st, en, same) ↦
              rw same (called-Accounted d calls hands hands st (omega (arith, en)) k)
        ]

    -- A service goes into the table, and takes the place of another.
    pub insert-Accounted :
        (id : Text) (svc : Service P) (c : Client P) (others : ℕ)
        → Accounted c (named svc + others)
        → Accounted
            (record c { services = insert id svc c.services })
            (of_option named (lookup id c.services) + others)
    insert-Accounted id svc c others h = record {
      table = insert-IsTable id svc c.services h.table;
      balanced = omega (arith, total-insert named id svc c.services, h.balanced);
    }

    pub take_out-Accounted :
        (id : Text) (o : Option (Service P)) (c : Client P) (others : ℕ)
        → lookup id c.services ≡ o
        → Accounted c others
        → let (w, c') = take_out id o c in Accounted c' (in_hands w + others)
    unfolding take_out
    take_out-Accounted id none c others e h = recount c others (0 + others) (omega arith) h
    take_out-Accounted id (some svc) c others e h = record {
      table = remove-IsTable id c.services h.table;
      balanced = ground (arith, total-remove named id c.services h.table, h.balanced);
    }

    pub stop_next-Accounted :
        (rest : List (Service P)) (c : Client P) (others : ℕ)
        → Accounted c (total named rest + others)
        → let (w, c') = stop_next rest c in Accounted c' (in_hands w + others)
    unfolding stop_next total
    stop_next-Accounted [] c others h =
        let k =
          called-Accounted c (notify_all ∷ []) (0 + others) (0 + others) refl (omega arith) h in
        record { table = k.table; balanced = k.balanced }
    stop_next-Accounted (svc ∷ rest) c others h =
        let (st, en) = shutdown_ends svc in
        called-Accounted c (map service (Launch.shutdown svc)) _ (total named rest + others) st
          (omega (arith, en)) h

    pub drain-Accounted :
        (c : Client P) (others : ℕ)
        → Accounted c others
        → Accounted (record c { services = [] }) (total named (values c.services) + others)
    unfolding total
    drain-Accounted c others h = record { table = tt; balanced = omega (arith, h.balanced) }
