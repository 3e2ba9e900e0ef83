-- ===== src/Client/Feed/Parts.antt =====
-- The events of one kind in the queue of rust/arti-ffi/src/events.rs, while threads send and the
-- host polls, on every schedule.
use mathlib.Core.List.{Sublistᴰ}
use mathlib.Core.List.Sublistᴰ.{slnil, cons, cons-cons, trans}
use mathlib.Core.Path.{subst}
use go_arti.Prelude.{
  ◌≡◌, refl, inl, inr, Bool, true, false, Option, none, some, List, [], ◌∷◌, ◌++◌, arith,
  if◌then◌else◌, Bool-cases, Text,
}
use go_arti.Channel.{Channel}
use go_arti.Events.{Event, status_client, hs_desc, send, next}
use go_arti.Events.History.{deliver, send_items, next_items, deliver-append, Sublistᴰ-insert}
use go_arti.Onion.Watcher.{State}
use go_arti.Client.Feed.{
  Feed, Move, bootstrap_round, service_round, service_send, host_polls, bootstrap_by, service_by,
  send_by, move, moves,
}

-- The events of a kind, in their order.
unfoldable pub part : (Event → Bool) → List Event → List Event
part p [] = []
part p (ev ∷ evs) = let rest = part p evs in if p ev then ev ∷ rest else rest

abbrev pub is_status : Event → Bool
is_status (status_client p t s) = true
is_status (hs_desc a id r) = false

abbrev pub is_desc : Event → Bool
is_desc (status_client p t s) = false
is_desc (hs_desc a id r) = true

Sublistᴰ-prefix : (xs ys : List Event) → Sublistᴰ xs (xs ++ ys)
Sublistᴰ-prefix [] [] = slnil
Sublistᴰ-prefix [] (y ∷ ys) = cons (Sublistᴰ-prefix [] ys)
Sublistᴰ-prefix (x ∷ xs) ys = cons-cons refl (Sublistᴰ-prefix xs ys)

pub Sublistᴰ-left : (xs ys : List Event) {l : List Event} → Sublistᴰ (xs ++ ys) l → Sublistᴰ xs l
Sublistᴰ-left xs ys s = trans (Sublistᴰ-prefix xs ys) s

module _ (p : Event → Bool) where
  pub part-append : (xs ys : List Event) → part p (xs ++ ys) ≡ part p xs ++ part p ys
  unfolding part
  part-append [] ys = refl
  part-append (x ∷ xs) ys = ground (arith, part-append xs ys)

  abbrev pub cons_if : Event → List Event → List Event
  cons_if ev ys = if p ev then ev ∷ ys else ys

  part_last :
      (ev : Event) (xs ys : List Event) → part p (xs ++ ev ∷ []) ++ ys ≡ part p xs ++ cons_if ev ys
  unfolding part
  part_last ev [] ys = ground arith
  part_last ev (x ∷ xs) ys = ground (arith, part_last ev xs ys)

  insert_if :
      (ev : Event) (b : Bool) (xs ys l : List Event)
      → Sublistᴰ l (xs ++ ys)
      → Sublistᴰ l (xs ++ (if b then ev ∷ ys else ys))
  insert_if ev true xs ys l s = Sublistᴰ-insert ev xs ys s
  insert_if ev false xs ys l s = s

  -- An event that was sent and comes next, or was dropped.
  pub part_sent :
      (ev : Event) (ch : Channel Event) (ys l : List Event)
      → Sublistᴰ l (part p (send ev ch).items ++ ys)
      → Sublistᴰ l (part p ch.items ++ cons_if ev ys)
  part_sent ev ch ys l s = elim (send_items ev ch) [
    | inl e ↦ rw (e, part_last ev ch.items ys) at s
    | inr e ↦ insert_if ev (p ev) (part p ch.items) ys l (rw e at s)
  ]

  deliver-part :
      (o : Option Event) (xs items ys : List Event)
      → Sublistᴰ (part p xs) (part p items ++ ys)
      → Sublistᴰ (part p (deliver o xs)) (part p (deliver o items) ++ ys)
  unfolding part
  deliver-part none xs items ys s = s
  deliver-part (some ev) xs items ys s = elim (Bool-cases (p ev)) [
    | inl e ↦ rw e (cons-cons refl s)
    | inr e ↦ rw e s
  ]

module _ (reachable : State → Bool) (id : Text) (p : Event → Bool) (rest : Feed → List Event) where
  -- The service's round under way has announcements of descriptors alone.
  abbrev pub Ok : Feed → Type 0
  Ok s = part is_status s.to_send ≡ []

  -- What waits or is still to come in one state was so in another.
  abbrev pub Comes : Feed → Feed → Type 0
  Comes s s' =
      (l : List Event)
      → Sublistᴰ l (part p s'.queue.items ++ rest s')
      → Sublistᴰ l (part p s.queue.items ++ rest s)

  -- Every step of a watcher sends what was to come, and what the queue holds does not change that.
  pub record Steps : Type 0 where
    pub boots : (s : Feed) → Ok s → Comes s (bootstrap_by reachable id s.statuses s)
    pub rounds :
        (s : Feed) → Ok s → Comes s (service_by reachable id s.to_send s.service_statuses s)
    pub sends : (s : Feed) → Ok s → Comes s (send_by reachable id s.to_send s)
    pub keeps : (s : Feed) (ch : Channel Event) → rest (record s { queue = ch }) ≡ rest s
    pub stays : (m : Move) (s : Feed) → Ok s → Ok (move reachable id m s).1

  pub moves_from :
      Steps
      → (ms : List Move) (s : Feed) → Ok s
      → Sublistᴰ
          (part p ((moves reachable id ms s).0 ++ (moves reachable id ms s).1.queue.items))
          (part p s.queue.items ++ rest s)
  unfolding moves move
  moves_from h [] s ok_s = Sublistᴰ-prefix (part p s.queue.items) (rest s)
  moves_from h (bootstrap_round ∷ ms) s ok_s =
      h.boots s ok_s _
        (moves_from h ms (bootstrap_by reachable id s.statuses s) (h.stays bootstrap_round s ok_s))
  moves_from h (service_round ∷ ms) s ok_s = h.rounds s ok_s _ (
      moves_from h ms (service_by reachable id s.to_send s.service_statuses s)
        (h.stays service_round s ok_s))
  moves_from h (service_send ∷ ms) s ok_s =
      h.sends s ok_s _
        (moves_from h ms (send_by reachable id s.to_send s) (h.stays service_send s ok_s))
  moves_from h (host_polls ∷ ms) s ok_s =
      let (o, ch) = next s.queue in
      let s' = record s { queue = ch } in
      let (got, end) = moves reachable id ms s' in
      rw (deliver-append o) (
        subst
          (λ items. Sublistᴰ (part p (deliver o (got ++ end.queue.items))) (part p items ++ rest s))
          (next_items s.queue)
          (deliver-part p o (got ++ end.queue.items) ch.items (rest s) (
            subst (λ r. Sublistᴰ (part p (got ++ end.queue.items)) (part p ch.items ++ r))
              (h.keeps s ch) (moves_from h ms s' ok_s))))
