-- ===== src/Socks/Serve/Tasks/Finish.antt =====
-- The concurrent tasks of a listener of rust/arti-ffi/src/socks.rs come to their ends.
use go_arti.Prelude.{
  ℕ, zero, suc, ◌-◌, ◌≤◌, ◌≡◌, refl, ap, ◌∙◌, Option, none, some, List, [], ◌∷◌, map, arith, Result,
  ok, err, get_elem?, times, turns_leave_fewer, turn_leaves_fewer,
}
use go_arti.Socks.Stream.{Stream, IoError}
use go_arti.Socks.Isolation.{Isolation}
use go_arti.Socks.Serve.{Handshake, Asked}
use go_arti.Socks.Serve.Isolated.{new_table}
use go_arti.Socks.Serve.Tasks.{
  Task, arrived, shaken, prepared, over, Tasks, prefs_of, task_step, step_by, step, steps, run,
}
use go_arti.Socks.Serve.Tasks.Places.{table_after, Placed}
use go_arti.Socks.Serve.Tasks.Linear.{run-linear}

-- How many steps a task has before it, at most.
abbrev left : {Token : Type 0} → Task Token → ℕ
left (arrived sock) = 3
left (shaken read sock) = 2
left (prepared asked sock) = 1
left (over result sock asked) = 0

module _ {Token Remote : Type 0} (fresh : ℕ → Token)
    (connect_with_prefs : Asked Token → Option Remote)
    (copy_bidirectional : Remote → Stream → Stream) where
  prefs_of-left :
      (read : Result IoError Handshake) (sock : Stream) (table : Isolation Token)
      → left (prefs_of fresh connect_with_prefs copy_bidirectional read sock table).0 ≤ 1
  unfolding prefs_of
  prefs_of-left (err e) sock table = omega arith
  prefs_of-left (ok (creds, none)) sock table = omega arith
  prefs_of-left (ok (creds, some (host, port))) sock table = omega arith

  task_step-left :
      (w : Task Token) (table : Isolation Token)
      → left (task_step fresh connect_with_prefs copy_bidirectional w table).0 ≤ left w - 1
  unfolding task_step
  task_step-left (arrived sock) table = omega arith
  task_step-left (shaken read sock) table = prefs_of-left read sock table
  task_step-left (prepared asked sock) table = omega arith
  task_step-left (over result sock asked) table = omega arith

  steps-left :
      (is : List ℕ) (i : ℕ) (s : Tasks Token) (w : Task Token)
      → get_elem? s.tasks i ≡ some w
      → (w' : Task Token) × (get_elem?
            (steps fresh connect_with_prefs copy_bidirectional s is).tasks
            i
          ≡ some w')
        × (left w' ≤ left w - times i is)
  unfolding steps step step_by
  steps-left =
      turns_leave_fewer (λ s. s.tasks) (step fresh connect_with_prefs copy_bidirectional)
        (steps fresh connect_with_prefs copy_bidirectional) left (λ s. refl) (λ s j is. refl)
        (turn_leaves_fewer (λ s. s.tasks) left
          (λ w s. (task_step fresh connect_with_prefs copy_bidirectional w s.table).0)
          (λ w s. task_step-left w s.table)
          (λ s j o. step_by fresh connect_with_prefs copy_bidirectional j o s) (λ s j. refl)
          (λ s j u. refl))

  is_over :
      (w : Task Token)
      → left w ≤ 0
      → (result : Result IoError (Unit {0})) × (sock : Stream) × (asked : Option (Asked Token)) × (w
          ≡ over result sock asked)
  is_over (arrived sock) h = absurd (omega (arith, h))
  is_over (shaken read sock) h = absurd (omega (arith, h))
  is_over (prepared asked sock) h = absurd (omega (arith, h))
  is_over (over result sock asked) h = (result, sock, asked, refl)

  all_arrived :
      (socks : List Stream) (i : ℕ) (sock : Stream)
      → get_elem? socks i ≡ some sock
      → ◌≡◌ {A = Option (Task Token)} (get_elem? (map arrived socks) i) (some (arrived sock))
  unfolding get_elem?
  all_arrived [] i sock h = absurd (ground arith)
  all_arrived (s ∷ socks) zero sock h = ground arith
  all_arrived (s ∷ socks) (suc i) sock h = all_arrived socks i sock h

  -- However the tasks of a listener's connections are scheduled: a task that has moved three times
  -- is over, and has gone on once after its handshake, whether that was read or not; its result,
  -- its stream and what it asked of the client are those of its connection, served after the
  -- connections whose tasks went on before it; and the table is the one that the connections leave
  -- behind when they are served one after the other in the order in which their tasks went on.
  pub run-served :
      (socks : List Stream) (is : List ℕ) (i : ℕ) (sock : Stream)
      → get_elem? socks i ≡ some sock
      → 3 ≤ times i is
      → (result : Result IoError (Unit {0})) × (sock' : Stream) × (asked : Option (Asked Token))
        × (get_elem? (run fresh connect_with_prefs copy_bidirectional socks is).tasks i
            ≡ some (over result sock' asked))
        × Placed fresh connect_with_prefs copy_bidirectional socks
            (run fresh connect_with_prefs copy_bidirectional socks is).passed
            i
            (result, sock', asked)
        × ((run fresh connect_with_prefs copy_bidirectional socks is).table
            ≡ table_after fresh connect_with_prefs copy_bidirectional socks
                (run fresh connect_with_prefs copy_bidirectional socks is).passed)
  run-served socks is i sock h moved =
      let (w, end, fewer) =
        steps-left is i (record { table = new_table; tasks = map arrived socks; passed = [] })
          (arrived sock) (all_arrived socks i sock h) in
      let (result, sock', asked, e) = is_over w (omega (arith, fewer, moved)) in
      let (table_is, placed) =
        run-linear fresh connect_with_prefs copy_bidirectional socks is i result sock' asked
          (end ∙ ap some e) in
      (result, sock', asked, end ∙ ap some e, placed, table_is)
