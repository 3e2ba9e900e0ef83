-- ===== src/Tests/Wait.antt =====
-- Threads in `wait` and `shutdown` (rust/arti-ffi/src/client.rs).
use go_arti.Client.Wait.Termination.{shut_moves, wait_terminates}
use go_arti.Prelude.{◌≡◌, refl, true, some, List, [], ◌∷◌, arith, modify, get_elem?}
use go_arti.Client.Wait.{
  returned, finished, wait_step, shut_step, Move, waits, wakes, shuts, move, moves, at_first,
}
use go_arti.Client.Wait.Progress.{any, has_begun, wait_needs_shutdown}
use go_arti.Client.Wait.Liveness.{lets_wait, shutdown_frees_waiters}

-- Two waiters and two threads in `shutdown`: the first waiter sleeps before the flag is set, the
-- second one sees it set, and one `shutdown` returns.
abbrev before : List Move
before = waits 0 ∷ shuts 1 ∷ waits 1 ∷ shuts 0 ∷ wakes 0 ∷ waits 0 ∷ shuts 1 ∷ []

shutdown_frees_waiters_example :
    get_elem? (moves (moves (at_first 2 2) before) (shuts 0 ∷ waits 0 ∷ [])).waiters 0
    ≡ some returned
unfolding any moves move modify get_elem? lets_wait shut_step wait_step
shutdown_frees_waiters_example =
    shutdown_frees_waiters 2 2 before (shuts 0 ∷ waits 0 ∷ []) 0 (omega arith) refl refl

wait_terminates_example :
    (get_elem? (moves (at_first 2 2) before).closers 1 ≡ some finished)
    × (get_elem? (moves (moves (at_first 2 2) before) (wakes 1 ∷ waits 0 ∷ [])).waiters 0
        ≡ some returned)
unfolding lets_wait shut_moves
wait_terminates_example =
    wait_terminates 2 2 before (wakes 1 ∷ waits 0 ∷ []) 0 1 (omega arith) (omega arith)
      (omega arith) refl

-- The flag is set and the waiter looks at it.
abbrev early : List Move
early = waits 0 ∷ wakes 0 ∷ shuts 0 ∷ waits 0 ∷ []

wait_needs_shutdown_example : any has_begun (moves (at_first 1 1) early).closers ≡ true
unfolding any moves move modify get_elem? wait_step shut_step
wait_needs_shutdown_example = wait_needs_shutdown 1 1 early refl
