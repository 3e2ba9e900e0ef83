-- ===== src/Tests/Feed.antt =====
-- A client's event queue between its watchers and the host (rust/arti-ffi/src/client.rs, onion.rs).
use mathlib.Core.List.{Sublistᴰ}
use go_arti.Prelude.{◌≤◌, Bool, true, false, none, List, [], ◌∷◌, codes}
use go_arti.Client.Status.{TorStatus}
use go_arti.Client.Watcher.{changes, initial}
use go_arti.Onion.Watcher.{State, Status, working, broken, fresh_flags, announced}
use go_arti.Onion.Watcher.Counts.{count}
use go_arti.Client.Feed.{
  Move, bootstrap_round, service_round, service_send, host_polls, moves, at_first,
}
use go_arti.Client.Feed.Parts.{part, is_status, is_desc}
use go_arti.Client.Feed.InOrder.{feed_in_order}
use go_arti.Tests.Client.{half_way}

abbrev reachable : State → Bool
reachable (working n) = true
reachable _ = false

abbrev statuses : List TorStatus
statuses = half_way ∷ half_way ∷ []

abbrev service_statuses : List Status
service_statuses =
    record { state = working 0; current_problem = none }
    ∷ record { state = broken; current_problem = none }
    ∷ []

abbrev schedule : List Move
schedule =
    service_round ∷ service_send ∷ bootstrap_round ∷ host_polls ∷ service_send ∷ bootstrap_round
    ∷ host_polls ∷ service_round ∷ service_send ∷ host_polls ∷ host_polls ∷ []

feed_in_order_example :
    let got = (moves reachable (codes "id") schedule (at_first statuses service_statuses)).0 in
    Sublistᴰ (part is_status got) (changes initial statuses)
    × Sublistᴰ (part is_desc got) (announced reachable (codes "id") fresh_flags service_statuses)
    × (count (codes "UPLOAD") got ≤ 1)
    × (count (codes "UPLOADED") got ≤ 1)
feed_in_order_example = feed_in_order reachable (codes "id") statuses service_statuses schedule
