-- ===== src/Client/Wait/Termination.antt =====
-- A `shutdown` of rust/arti-ffi/src/client.rs returns after its own two steps, so that a `wait`
-- returns on every schedule that lets both of them move.
use go_arti.Prelude.{
  ℕ, ◌+◌, ◌≤◌, ◌<◌, ◌≡◌, refl, true, Option, none, some, List, [], ◌∷◌, arith, ◌==◌, if◌then◌else◌,
  get_elem?, get_elem?-modify,
}
use go_arti.Client.Wait.{
  Closer, setting, notifying, finished, returned, Exit, shut_step, Move, waits, wakes, shuts,
  shut_by, move, moves, at_first,
}
use go_arti.Client.Wait.Progress.{is_finished, any-get_elem?}
use go_arti.Client.Wait.Liveness.{lets_wait, get_elem?-replicate, shutdown_frees_waiters}

-- How many steps a thread in `shutdown` still has to make.
abbrev left : Closer → ℕ
left setting = 2
left notifying = 1
left finished = 0

-- How often a schedule lets the closer of number `j` move.
unfoldable pub shut_moves : ℕ → List Move → ℕ
shut_moves j [] = 0
shut_moves j (waits i ∷ ms) = shut_moves j ms
shut_moves j (wakes i ∷ ms) = shut_moves j ms
shut_moves j (shuts i ∷ ms) = (if j == i then 1 else 0) + shut_moves j ms

abbrev shut_next : Closer → Closer
shut_next setting = notifying
shut_next _ = finished

shut_by_closers :
    (s : Exit) (i j : ℕ) (o : Option Closer) (c : Closer)
    → get_elem? s.closers i ≡ o
    → get_elem? s.closers j ≡ some c
    → get_elem? (shut_by i o s).closers j ≡ some (if j == i then shut_next c else c)
unfolding shut_by shut_step
shut_by_closers s i j none c g h = ground arith
shut_by_closers s i j (some setting) c g h =
    ground (arith, get_elem?-modify (λ _. notifying) s.closers j i c h)
shut_by_closers s i j (some notifying) c g h =
    ground (arith, get_elem?-modify (λ _. finished) s.closers j i c h)
shut_by_closers s i j (some finished) c g h =
    ground (arith, get_elem?-modify (λ _. finished) s.closers j i c h)

finishes :
    (ms : List Move) (s : Exit) (j : ℕ) (c : Closer)
    → get_elem? s.closers j ≡ some c
    → left c ≤ shut_moves j ms
    → get_elem? (moves s ms).closers j ≡ some finished
unfolding moves move shut_moves
finishes [] s j setting h n = absurd (omega arith)
finishes [] s j notifying h n = absurd (omega arith)
finishes [] s j finished h n = h
finishes (waits i ∷ ms) s j c h n = finishes ms (move s (waits i)) j c h n
finishes (wakes i ∷ ms) s j c h n = finishes ms (move s (wakes i)) j c h n
finishes (shuts i ∷ ms) s j c h n =
    finishes ms (move s (shuts i)) j (if j == i then shut_next c else c)
      (shut_by_closers s i j (get_elem? s.closers i) c refl h) (left_shut j i c ms n)
  where
    left_shut :
        (j i : ℕ) (c : Closer) (ms : List Move)
        → left c ≤ (if j == i then 1 else 0) + shut_moves j ms
        → left (if j == i then shut_next c else c) ≤ shut_moves j ms
    left_shut j i setting ms n = ground arith
    left_shut j i notifying ms n = ground arith
    left_shut j i finished ms n = ground arith

-- Of any number of threads in `wait` and in `shutdown`, on every schedule that lets one thread in
-- `shutdown` move twice and after that one in `wait` move once: the first has returned after its
-- two moves and the other at the end, however the others move, and however often a sleeper is woken
-- without a reason.
pub wait_terminates :
    (n k : ℕ) (before after : List Move) (i j : ℕ)
    → i < n
    → j < k
    → 2 ≤ shut_moves j before
    → lets_wait i after ≡ true
    → (get_elem? (moves (at_first n k) before).closers j ≡ some finished)
      × (get_elem? (moves (moves (at_first n k) before) after).waiters i ≡ some returned)
wait_terminates n k before after i j in_n in_k twice later =
    let h = finishes before (at_first n k) j setting (get_elem?-replicate k j setting in_k) twice in
    (
      h,
      shutdown_frees_waiters n k before after i in_n
          (any-get_elem? is_finished j (moves (at_first n k) before).closers finished h refl) later,
    )
