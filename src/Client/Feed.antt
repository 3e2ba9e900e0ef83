-- ===== src/Client/Feed.antt =====
-- The one event queue of a client and the threads on it: the bootstrap watcher
-- (rust/arti-ffi/src/client.rs), the status watcher of a service (rust/arti-ffi/src/onion.rs), and
-- the host, which takes events by `arti_next_event`.
pub mod Parts
pub mod Watchers
pub mod InOrder
use go_arti.Prelude.{ℕ, Bool, Option, none, List, [], ◌∷◌, Text}
use go_arti.Channel.{Channel}
use go_arti.Events.{Event, send, next, channel}
use go_arti.Events.History.{deliver}
use go_arti.Client.Status.{TorStatus}
use go_arti.Client.Watcher as Bootstrap
use go_arti.Client.Watcher.{initial}
use go_arti.Onion.Watcher as Service
use go_arti.Onion.Watcher.{State, Status, Flags, fresh_flags}

-- Where each watcher is: what it remembers, the statuses that are still to come, and the events of
-- the service's round under way that are not sent yet.
pub record Feed : Type 0 where
  pub last : ℕ
  pub statuses : List TorStatus
  pub flags : Flags
  pub to_send : List Event
  pub service_statuses : List Status
  pub queue : Channel Event

pub data Move : Type 0 where
  bootstrap_round service_round service_send host_polls : Move

module _ (is_fully_reachable : State → Bool) (service_id : Text) where
  pub bootstrap_by : List TorStatus → Feed → Feed
  bootstrap_by [] s = s
  bootstrap_by (status ∷ rest) s =
      let (last', queue') = Bootstrap.round s.last status s.queue in
      record s { last = last'; statuses = rest; queue = queue' }

  -- The next status is taken when all events of the last one are sent.
  pub service_by : List Event → List Status → Feed → Feed
  service_by [] (status ∷ rest) s =
      let (evs, flags') = Service.round is_fully_reachable service_id s.flags status in
      record s { flags = flags'; to_send = evs; service_statuses = rest }
  service_by _ _ s = s

  pub send_by : List Event → Feed → Feed
  send_by [] s = s
  send_by (ev ∷ evs) s = record s { to_send = evs; queue = send ev s.queue }

  -- What the host gets, if it is the host that moves.
  unfoldable pub move : Move → Feed → Option Event × Feed
  unfolding bootstrap_by service_by send_by
  move bootstrap_round s = (none, bootstrap_by s.statuses s)
  move service_round s = (none, service_by s.to_send s.service_statuses s)
  move service_send s = (none, send_by s.to_send s)
  move host_polls s = let (ev, queue') = next s.queue in (ev, record s { queue = queue' })

  -- All that the host gets, in its order, and where the watchers are at the end.
  unfoldable pub moves : List Move → Feed → List Event × Feed
  moves [] s = ([], s)
  moves (m ∷ ms) s =
      let (ev, s') = move m s in let (evs, end) = moves ms s' in (deliver ev evs, end)

-- A new client with its queue, and these statuses to come.
abbrev pub at_first : List TorStatus → List Status → Feed
at_first statuses service_statuses = record {
  last = initial;
  statuses = statuses;
  flags = fresh_flags;
  to_send = [];
  service_statuses = service_statuses;
  queue = channel;
}
