-- ===== src/Client/Wait.antt =====
-- `Client::wait` and the end of `Client::shutdown` in rust/arti-ffi/src/client.rs, on the mutex and
-- the condition variable `exit`, by any number of threads. A thread holds the mutex from its look
-- at the flag until `Condvar::wait` has put it to sleep and let go of the mutex at once, so each of
-- these is one step. A sleeping thread wakes by `notify_all`, or without a reason.
pub mod Progress
pub mod Liveness
pub mod Termination
use go_arti.Prelude.{
  ℕ, Bool, true, false, Option, none, some, List, [], ◌∷◌, if◌then◌else◌, modify, get_elem?,
  replicate,
}
use mathlib.Core.List.{map}

-- A thread in `wait`.
pub data Waiter : Type 0 where
  checking sleeping returned : Waiter

-- A thread in `shutdown`, whose services are stopped.
pub data Closer : Type 0 where
  setting notifying finished : Closer

pub record Exit : Type 0 where
  pub done : Bool
  pub waiters : List Waiter
  pub closers : List Closer

-- `while !*done { done = cvar.wait(done) }`
unfoldable pub wait_step : Bool → Waiter → Waiter
wait_step done checking = if done then returned else sleeping
wait_step done sleeping = sleeping
wait_step done returned = returned

abbrev pub wake : Waiter → Waiter
wake sleeping = checking
wake w = w

-- `*lock.lock() = true`, and then `cvar.notify_all()`.
unfoldable pub shut_step : Closer → Exit → Closer × Exit
shut_step setting s = (notifying, record s { done = true })
shut_step notifying s = (finished, record s { waiters = map wake s.waiters })
shut_step finished s = (finished, s)

-- Which thread moves, by its number; `wakes` is a wakeup without a reason.
pub data Move : Type 0 where
  waits wakes shuts : ℕ → Move

shut_by : ℕ → Option Closer → Exit → Exit
shut_by j none s = s
shut_by j (some c) s =
    let (c', s') = shut_step c s in record s' { closers = modify j (λ _. c') s'.closers }

unfoldable pub move : Exit → Move → Exit
unfolding shut_by
move s (waits i) = record s { waiters = modify i (wait_step s.done) s.waiters }
move s (wakes i) = record s { waiters = modify i wake s.waiters }
move s (shuts j) = shut_by j (get_elem? s.closers j) s

unfoldable pub moves : Exit → List Move → Exit
moves s [] = s
moves s (m ∷ ms) = moves (move s m) ms

-- The threads that call `wait` and `shutdown`, before any of them has done anything.
abbrev pub at_first : ℕ → ℕ → Exit
at_first n k = record {
  done = false;
  waiters = replicate n checking;
  closers = replicate k setting;
}
