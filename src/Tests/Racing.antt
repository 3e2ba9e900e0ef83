-- ===== src/Tests/Racing.antt =====
-- Threads in `start` (rust/arti-ffi/src/client.rs).
use go_arti.Prelude.{
  ℕ, zero, suc, ◌≤◌, ◌<◌, ◌≡◌, refl, ◌≢◌, some, List, [], ◌∷◌, arith, err, get_elem?, times, total,
}
use go_arti.Errors.{already_started}
use go_arti.Client.{start}
use go_arti.Client.Lifecycle.Racing.{answered, steps}
use go_arti.Client.Lifecycle.Racing.Moves.{at_first}
use go_arti.Client.Lifecycle.Racing.Once.{starts_once}
use go_arti.Tests.Client.{new_client, taken, bound}

-- The second thread asks before the first goes on.
abbrev schedule : List ℕ
schedule = 0 ∷ 1 ∷ 0 ∷ 1 ∷ []

often : (i : ℕ) → i < 2 → 2 ≤ times i schedule
unfolding total
often zero h = omega arith
often (suc zero) h = omega arith
often (suc (suc i)) h = absurd (omega (arith, h))

starts_once_example :
    ((steps taken bound (at_first taken bound new_client 2) schedule).client
      ≡ (start taken bound new_client).1)
    × ((w : ℕ) × (w < 2)
        × (get_elem? (steps taken bound (at_first taken bound new_client 2) schedule).threads w
            ≡ some (answered (start taken bound new_client).0))
        × ((j : ℕ)
            → j < 2
            → j ≢ w
            → get_elem? (steps taken bound (at_first taken bound new_client 2) schedule).threads j
              ≡ some (answered (err already_started))))
starts_once_example = starts_once taken bound new_client refl 2 schedule (omega arith) often
