-- ===== src/Tests/Workers.antt =====
-- Threads in `onion_add`, `onion_del` and `shutdown` (rust/arti-ffi/src/client.rs), over the toy
-- crates of the onion tests.
use mathlib.Core.List.{map}
use go_arti.Prelude.{ℕ, ◌+◌, ◌≡◌, List, [], ◌∷◌, Text, total}
use go_arti.Client.New.{new_client as built}
use go_arti.Client.Workers.{Pool, steps, values, Job, adds, deletes, closes, begin}
use go_arti.Client.Workers.Totals.{IsTable}
use go_arti.Client.Workers.Ledger.{named, starts, ends, in_hands}
use go_arti.Client.Workers.Accounts.{services_accounted}
use go_arti.Onion.Launch.{nickname_for}
use go_arti.Onion.Keys.{service_id_of}
use go_arti.Tests.Onion.{toy, toy_services, request, random}
use go_arti.Tests.Client.{new_client, boots}

-- Two services under one ID: the second replaces the first, a deletion and a shutdown meet.
abbrev jobs : List Job
jobs = adds 4 random request ∷ adds 4 random request ∷ deletes (service_id_of toy 5) ∷ closes ∷ []

abbrev nickname : Text
nickname = nickname_for random

-- The threads up to a moment at which one service is in the hands of the third.
abbrev ends_up : Pool ℕ
ends_up =
    steps toy toy_services boots
      (record { client = built new_client.config; workers = map begin jobs })
      (0 ∷ 0 ∷ 1 ∷ 1 ∷ 0 ∷ 1 ∷ 0 ∷ 1 ∷ 2 ∷ 3 ∷ 3 ∷ [])

services_accounted_example :
    (total (starts nickname) ends_up.client.calls
      ≡ total (named nickname) (values ends_up.client.services)
        + total (in_hands nickname) ends_up.workers
        + total (ends nickname) ends_up.client.calls)
    × IsTable ends_up.client.services
services_accounted_example =
    services_accounted nickname toy toy_services boots new_client.config jobs
      (0 ∷ 0 ∷ 1 ∷ 1 ∷ 0 ∷ 1 ∷ 0 ∷ 1 ∷ 2 ∷ 3 ∷ 3 ∷ [])
