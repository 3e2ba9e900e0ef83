-- ===== src/Client/Feed/Watchers.antt =====
-- What each step of the two watchers (rust/arti-ffi/src/client.rs and onion.rs) does to what is in
-- the queue and still to come.

use mathlib.Core.List.{Sublistᴰ}
use go_arti.Prelude.{
  ◌≡◌, refl, inl, inr, Bool, true, false, List, [], ◌∷◌, ◌++◌, arith, ◌==◌, if◌then◌else◌,
  Bool-cases, Text,
}
use go_arti.Channel.{Channel}
use go_arti.Events.{Event, status_client, hs_desc, send}
use go_arti.Client.Feed.Parts.{part, is_status, is_desc, part_sent, Steps}
use go_arti.Client.Status.{TorStatus, summarize}
use go_arti.Client.Watcher as Bootstrap
use go_arti.Client.Watcher.{changes, initial, event_of}
use go_arti.Onion.Watcher as Service
use go_arti.Onion.Watcher.{State, Status, Flags, fresh_flags, announced}
use go_arti.Client.Feed.{
  Feed, Move, bootstrap_round, service_round, service_send, host_polls, bootstrap_by, service_by,
  send_by, move,
}

module _ (reachable : State → Bool) (id : Text) where
  round-part :
      (f : Flags) (status : Status) → part is_status (Service.round reachable id f status).0 ≡ []
  unfolding part Service.round
  round-part f status = ground arith

  bootstrap_by-to_send :
      (statuses : List TorStatus) (s : Feed)
      → (bootstrap_by reachable id statuses s).to_send ≡ s.to_send
  unfolding bootstrap_by
  bootstrap_by-to_send [] s = refl
  bootstrap_by-to_send (status ∷ rest) s = refl

  service_by-Ok :
      (evs : List Event) (ss : List Status) (s : Feed)
      → part is_status s.to_send ≡ []
      → part is_status (service_by reachable id evs ss s).to_send ≡ []
  unfolding service_by
  service_by-Ok [] [] s h = h
  service_by-Ok [] (status ∷ rest) s h = round-part s.flags status
  service_by-Ok (ev ∷ evs) ss s h = h

  send_by-Ok :
      (evs : List Event) (s : Feed)
      → part is_status evs ≡ []
      → part is_status s.to_send ≡ []
      → part is_status (send_by reachable id evs s).to_send ≡ []
  unfolding send_by part
  send_by-Ok [] s h k = k
  send_by-Ok (ev ∷ evs) s h k = ground arith

  move-Ok :
      (m : Move) (s : Feed)
      → part is_status s.to_send ≡ []
      → part is_status (move reachable id m s).1.to_send ≡ []
  unfolding move
  move-Ok bootstrap_round s h = rw (bootstrap_by-to_send s.statuses s) h
  move-Ok service_round s h = service_by-Ok s.to_send s.service_statuses s h
  move-Ok service_send s h = send_by-Ok s.to_send s h h
  move-Ok host_polls s h = h

  -- A round of the bootstrap watcher, for the events of a kind.
  announces :
      (p : Event → Bool) (b : Bool) (ev : Event) (ch : Channel Event) (later l : List Event)
      → Sublistᴰ l (part p (if b then ch else send ev ch).items ++ later)
      → Sublistᴰ l (part p ch.items ++ (if b then later else if p ev then ev ∷ later else later))
  announces p true ev ch later l h = h
  announces p false ev ch later l h = part_sent p ev ch later l h

  status_boots :
      (statuses : List TorStatus) (s : Feed) (l : List Event)
      → let s' = bootstrap_by reachable id statuses (record s { statuses = statuses }) in
        Sublistᴰ l (part is_status s'.queue.items ++ changes s'.last s'.statuses)
        → Sublistᴰ l (part is_status s.queue.items ++ changes s.last statuses)
  unfolding bootstrap_by changes
  status_boots [] s l h = h
  status_boots (status ∷ rest) s l h =
      let snapshot = summarize status in
      announces is_status (snapshot.progress == s.last) (event_of snapshot) s.queue
        (changes snapshot.progress rest) l (rw (Bootstrap.round_lem s.last status s.queue) at h)

  desc_boots :
      (statuses : List TorStatus) (s : Feed) (ys l : List Event)
      → let s' = bootstrap_by reachable id statuses s in
        Sublistᴰ l (part is_desc s'.queue.items ++ ys)
        → Sublistᴰ l (part is_desc s.queue.items ++ ys)
  unfolding bootstrap_by
  desc_boots [] s ys l h = h
  desc_boots (status ∷ rest) s ys l h =
      let snapshot = summarize status in
      let k =
        announces is_desc (snapshot.progress == s.last) (event_of snapshot) s.queue ys l
          (rw (Bootstrap.round_lem s.last status s.queue) at h) in
      elim (Bool-cases (snapshot.progress == s.last)) [ inl e ↦ rw e at k | inr e ↦ rw e at k ]

  service_rounds :
      (p : Event → Bool) (evs : List Event) (ss : List Status) (s : Feed) (l : List Event)
      → let s' =
          service_by reachable id evs ss (record s { to_send = evs; service_statuses = ss }) in
        Sublistᴰ l (
          part p s'.queue.items
          ++ (s'.to_send ++ announced reachable id s'.flags s'.service_statuses))
        → Sublistᴰ l (part p s.queue.items ++ (evs ++ announced reachable id s.flags ss))
  unfolding service_by announced
  service_rounds p [] [] s l h = h
  service_rounds p [] (status ∷ rest) s l h = h
  service_rounds p (ev ∷ evs) ss s l h = h

  service_by-changes :
      (evs : List Event) (ss : List Status) (s : Feed) (l : List Event)
      → let s' = service_by reachable id evs ss s in
        Sublistᴰ l (part is_status s'.queue.items ++ changes s'.last s'.statuses)
        → Sublistᴰ l (part is_status s.queue.items ++ changes s.last s.statuses)
  unfolding service_by
  service_by-changes [] [] s l h = h
  service_by-changes [] (status ∷ rest) s l h = h
  service_by-changes (ev ∷ evs) ss s l h = h

  status_sends :
      (evs : List Event) (s : Feed) (l : List Event)
      → part is_status evs ≡ []
      → let s' = send_by reachable id evs s in
        Sublistᴰ l (part is_status s'.queue.items ++ changes s'.last s'.statuses)
        → Sublistᴰ l (part is_status s.queue.items ++ changes s.last s.statuses)
  unfolding send_by part
  status_sends [] s l k h = h
  status_sends (status_client p t x ∷ evs) s l k h = absurd (ground arith)
  status_sends (hs_desc a i r ∷ evs) s l k h =
      part_sent is_status (hs_desc a i r) s.queue (changes s.last s.statuses) l h

  desc_sends :
      (evs : List Event) (s : Feed) (ys l : List Event)
      → part is_status evs ≡ []
      → let s' = send_by reachable id evs (record s { to_send = evs }) in
        Sublistᴰ l (part is_desc s'.queue.items ++ (s'.to_send ++ ys))
        → Sublistᴰ l (part is_desc s.queue.items ++ (evs ++ ys))
  unfolding send_by part
  desc_sends [] s ys l k h = h
  desc_sends (status_client p t x ∷ evs) s ys l k h = absurd (ground arith)
  desc_sends (hs_desc a i r ∷ evs) s ys l k h =
      part_sent is_desc (hs_desc a i r) s.queue (evs ++ ys) l h

  pub status_steps : Steps reachable id is_status (λ s. changes s.last s.statuses)
  status_steps = record {
    boots = λ s ok_s l h. status_boots s.statuses s l h;
    rounds = λ s ok_s l h. service_by-changes s.to_send s.service_statuses s l h;
    sends = λ s ok_s l h. status_sends s.to_send s l ok_s h;
    keeps = λ s ch. refl;
    stays = move-Ok;
  }

  abbrev pub to_come : Feed → List Event
  to_come s = s.to_send ++ announced reachable id s.flags s.service_statuses

  bootstrap_by-to_come :
      (statuses : List TorStatus) (s : Feed)
      → to_come (bootstrap_by reachable id statuses s) ≡ to_come s
  unfolding bootstrap_by
  bootstrap_by-to_come [] s = refl
  bootstrap_by-to_come (status ∷ rest) s = refl

  send_by-announced :
      (evs : List Event) (s : Feed)
      → let s' = send_by reachable id evs s in
        announced reachable id s'.flags s'.service_statuses
        ≡ announced reachable id s.flags s.service_statuses
  unfolding send_by
  send_by-announced [] s = refl
  send_by-announced (ev ∷ evs) s = refl

  pub desc_steps : Steps reachable id is_desc to_come
  desc_steps = record {
    boots = λ s ok_s l h.
        desc_boots s.statuses s (to_come s) l (rw (bootstrap_by-to_come s.statuses s) at h);
    rounds = λ s ok_s l h. service_rounds is_desc s.to_send s.service_statuses s l h;
    sends = λ s ok_s l h.
        desc_sends s.to_send s (announced reachable id s.flags s.service_statuses) l ok_s
          (rw (send_by-announced s.to_send s) at h);
    keeps = λ s ch. refl;
    stays = move-Ok;
  }
