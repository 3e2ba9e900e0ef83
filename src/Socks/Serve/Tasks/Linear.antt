-- ===== src/Socks/Serve/Tasks/Linear.antt =====
-- The concurrent tasks of a listener of rust/arti-ffi/src/socks.rs do what its connections do one
-- after the other, in the order in which the tasks make the step after their handshakes.
use mathlib.Core.Path.{subst}
use go_arti.Prelude.{
  ℕ, zero, suc, ◌≡◌, refl, sym, Option, none, some, List, [], ◌∷◌, map, arith, ==_iff, Result,
  modify, get_elem?, each-modify, total,
}
use go_arti.Socks.Stream.{Stream, IoError}
use go_arti.Socks.Isolation.{Isolation}
use go_arti.Socks.Serve.{Asked, accept_loop}
use go_arti.Socks.Serve.Isolated.{new_table}
use go_arti.Socks.Serve.Tasks.{
  Task, arrived, over, Tasks, passing, task_step, step_by, step, steps, run,
}
use go_arti.Socks.Serve.Tasks.Places.{
  table_after, Placed, AtPlace, others-AtPlace, task_step-AtPlace,
}

module _ {Token Remote : Type 0} (fresh : ℕ → Token)
    (connect_with_prefs : Asked Token → Option Remote)
    (copy_bidirectional : Remote → Stream → Stream) (socks : List Stream) where
  abbrev tbl : List ℕ → Isolation Token
  tbl = table_after fresh connect_with_prefs copy_bidirectional socks

  abbrev Stands : List ℕ → ℕ → Task Token → Type 0
  Stands = AtPlace fresh connect_with_prefs copy_bidirectional socks

  -- The table is what the connections make of it one after the other, and every task is at its
  -- place.
  record IsLinear (s : Tasks Token) : Type 0 where
    table_is : s.table ≡ tbl s.passed
    each : (i : ℕ) (w : Task Token) → get_elem? s.tasks i ≡ some w → Stands s.passed i w

  step_by-IsLinear :
      (i : ℕ) (o : Option (Task Token)) (s : Tasks Token)
      → get_elem? s.tasks i ≡ o
      → IsLinear s
      → IsLinear (step_by fresh connect_with_prefs copy_bidirectional i o s)
  unfolding step_by
  step_by-IsLinear i none s g h = h
  step_by-IsLinear i (some w) s g h = record { table_is = mine.0; each = theirs }
    where
      moved : Task Token × Isolation Token
      moved = task_step fresh connect_with_prefs copy_bidirectional w s.table

      mine : (moved.1 ≡ tbl (passing i w s.passed)) × Stands (passing i w s.passed) i moved.0
      mine =
          task_step-AtPlace fresh connect_with_prefs copy_bidirectional socks s.passed i w s.table
            h.table_is (h.each i w g)

      theirs :
          (j : ℕ) (u : Task Token)
          → get_elem? (modify i (λ _. moved.0) s.tasks) j ≡ some u
          → Stands (passing i w s.passed) j u
      theirs =
          each-modify (Stands (passing i w s.passed)) s.tasks i moved.0
            (λ j v other found.
              others-AtPlace fresh connect_with_prefs copy_bidirectional socks s.passed j i v w
                (ground (arith, other, ==_iff i j, ==_iff j i)) (h.each j v found))
            mine.1

  steps-IsLinear :
      (is : List ℕ) (s : Tasks Token)
      → IsLinear s
      → IsLinear (steps fresh connect_with_prefs copy_bidirectional s is)
  unfolding steps step
  steps-IsLinear [] s h = h
  steps-IsLinear (i ∷ is) s h =
      steps-IsLinear is (step fresh connect_with_prefs copy_bidirectional s i)
        (step_by-IsLinear i (get_elem? s.tasks i) s refl h)

  all_arrived :
      (ss : List Stream) (i : ℕ) (w : Task Token)
      → get_elem? (map arrived ss) i ≡ some w
      → (sock : Stream) × (w ≡ arrived sock) × (get_elem? ss i ≡ some sock)
  unfolding get_elem?
  all_arrived [] i w h = absurd (ground arith)
  all_arrived (s ∷ ss) zero w h = (s, ground arith, refl)
  all_arrived (s ∷ ss) (suc i) w h = all_arrived ss i w h

  at_first-IsLinear :
      IsLinear (record { table = new_table; tasks = map arrived socks; passed = [] })
  unfolding accept_loop total
  at_first-IsLinear = record {
    table_is = refl;
    each = λ i w h.
        let (sock, e, mine) = all_arrived socks i w h in subst (Stands [] i) (sym e) (mine, refl);
  }

  -- However the tasks of a listener's connections are scheduled: the table is the one that the
  -- connections leave behind when they are served one after the other in the order in which their
  -- tasks went on after their handshakes. A task that is over did so once, and its result, its
  -- stream and what it asked of the client are those of its connection, served after the
  -- connections whose tasks went on before it.
  pub run-linear :
      (is : List ℕ) (i : ℕ) (result : Result IoError (Unit {0})) (sock' : Stream)
      (asked : Option (Asked Token))
      → get_elem? (run fresh connect_with_prefs copy_bidirectional socks is).tasks i
        ≡ some (over result sock' asked)
      → ((run fresh connect_with_prefs copy_bidirectional socks is).table
          ≡ tbl (run fresh connect_with_prefs copy_bidirectional socks is).passed)
        × Placed fresh connect_with_prefs copy_bidirectional socks
            (run fresh connect_with_prefs copy_bidirectional socks is).passed
            i
            (result, sock', asked)
  run-linear is i result sock' asked h =
      let linear =
        steps-IsLinear is (record { table = new_table; tasks = map arrived socks; passed = [] })
          at_first-IsLinear in
      (linear.table_is, linear.each i _ h)
