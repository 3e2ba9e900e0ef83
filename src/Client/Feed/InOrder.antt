-- ===== src/Client/Feed/InOrder.antt =====
-- What a host gets of the two watchers' announcements (rust/arti-ffi/src/client.rs, onion.rs and
-- events.rs), on every schedule of the threads.
use mathlib.Core.List.Sublistᴰ.{slnil, cons, cons-cons}
use go_arti.Onion.Watcher.Counts.{count, announced_counts}
use mathlib.Core.List.{Sublistᴰ}
use go_arti.Prelude.{◌≤◌, ◌≡◌, refl, Bool, false, List, [], ◌∷◌, arith, Text, codes, text_eq}
use go_arti.Events.{Event, status_client, hs_desc, channel}
use go_arti.Client.Feed.Watchers.{status_steps, desc_steps, to_come}
use go_arti.Client.Feed.Parts.{
  part, is_status, is_desc, Sublistᴰ-left, part-append, Steps, moves_from,
}
use go_arti.Client.Status.{TorStatus}
use go_arti.Client.Watcher.{changes, initial}
use go_arti.Onion.Watcher.{State, Status, fresh_flags, announced}
use go_arti.Client.Feed.{Feed, Move, moves, at_first}

count-Sublistᴰ : (a : Text) {xs ys : List Event} → Sublistᴰ xs ys → count a xs ≤ count a ys
unfolding count
count-Sublistᴰ a slnil = omega arith
count-Sublistᴰ a (cons s) = ground (arith, count-Sublistᴰ a s)
count-Sublistᴰ a (cons-cons {b = y} {l₂ = ys} e s) = rw e (ground (arith, count-Sublistᴰ a s))

-- No bootstrap event has this action.
count-part :
    (a : Text) (evs : List Event) → text_eq [] a ≡ false → count a evs ≡ count a (part is_desc evs)
unfolding count part
count-part a [] h = refl
count-part a (status_client p t s ∷ evs) h = ground (arith, count-part a evs)
count-part a (hs_desc b i r ∷ evs) h = omega (arith, count-part a evs h)

module _ (reachable : State → Bool) (id : Text) where
  got_part :
      (p : Event → Bool) (rest : Feed → List Event) (s : Feed) (ms : List Move)
      → Steps reachable id p rest
      → part is_status s.to_send ≡ []
      → part p s.queue.items ≡ []
      → Sublistᴰ (part p (moves reachable id ms s).0) (rest s)
  got_part p rest s ms h ok_s none_waits =
      let (got, end) = moves reachable id ms s in
      Sublistᴰ-left (part p got) (part p end.queue.items)
        (rw (part-append p got, none_waits) at (moves_from reachable id p rest h ms s ok_s))

  -- The two watchers of a client with one service and a host that polls, on every schedule of
  -- their rounds, sends and polls, and whatever the full queue drops: the bootstrap events that
  -- the host gets are, in order, part of the changes of progress, and its descriptor events are,
  -- in order, part of what the service's statuses announce; of those it gets at most one UPLOAD
  -- and at most one UPLOADED.
  pub feed_in_order :
      (statuses : List TorStatus) (service_statuses : List Status) (ms : List Move)
      → let got = (moves reachable id ms (at_first statuses service_statuses)).0 in
        Sublistᴰ (part is_status got) (changes initial statuses)
        × Sublistᴰ (part is_desc got) (announced reachable id fresh_flags service_statuses)
        × (count (codes "UPLOAD") got ≤ 1)
        × (count (codes "UPLOADED") got ≤ 1)
  unfolding part channel text_eq
  feed_in_order statuses service_statuses ms =
      let s = at_first statuses service_statuses in
      let got = (moves reachable id ms s).0 in
      let descs =
        got_part is_desc (to_come reachable id) s ms (desc_steps reachable id) refl refl in
      let (uploads, uploadeds, failures) = announced_counts reachable id service_statuses in
      (
        got_part is_status (λ x. changes x.last x.statuses) s ms (status_steps reachable id) refl
            refl,
        descs,
        ground (
          arith,
          count-part (codes "UPLOAD") got refl,
          count-Sublistᴰ (codes "UPLOAD") descs,
          uploads,
        ),
        ground (
          arith,
          count-part (codes "UPLOADED") got refl,
          count-Sublistᴰ (codes "UPLOADED") descs,
          uploadeds,
        ),
      )
