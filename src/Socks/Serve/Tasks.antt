-- ===== src/Socks/Serve/Tasks.antt =====
-- The connections of one listener as the concurrent tasks that they are
-- (rust/arti-ffi/src/socks.rs: `spawn`, `serve_one`). The table of isolation tokens is all that
-- they share: the handshake, what comes between it and the connection, and the connection with its
-- answer and its relay are one step each. The step in the middle uses the table, under its lock, if
-- the client has logged in and its request was accepted; otherwise it touches nothing shared.
pub mod Places
pub mod Linear
pub mod Apart
pub mod Finish
use go_arti.Prelude.{
  ℕ, zero, suc, ◌+◌, ◌-◌, ◌*◌, ◌/◌, ◌%◌, ◌^◌, ◌≤◌, ◌<◌, min, String, ◌≡◌, refl, sym, ap, ◌∙◌, ◌≢◌,
  ◌↔◌, ◌⊎◌, inl, inr, Bool, true, false, not, ◌&&◌, ◌||◌, Option, none, some, List, [], ◌∷◌, ◌++◌,
  map, append-nil, append_assoc, arith, ◌>>=◌, ◌>>◌, ltb, leb, ◌==◌, if◌then◌else◌, within, ltb→lt,
  lt→ltb, leb→le, le→leb, ==_iff, ==_refl, tests, Bool-cases, Option-cases, Result, ok, err,
  or_fail, Result-cases, through, length, take, drop, get_or, length-append, split_at?,
  split_at?-append, split_at?-short, All, Bytes, Text, codes, text_eq, text_eq_sound, text_eq_refl,
  text_eq_iff, modify, get_elem?, replicate, get_elem?-modify, get_elem?-modify-none, each-modify,
  one_at, times, get_elem?-replicate, get_elem?-lt, modify_leaves_fewer, turns_leave_fewer,
  turn_leaves_fewer, total_none, total, total-append, total-modify, le-total,
}
use go_arti.Socks.Stream.{Stream, IoError}
use go_arti.Socks.Isolation.{Isolation}
use go_arti.Socks.Serve.{Handshake, handshake, Asked, isolation_of, answer}
use go_arti.Socks.Serve.Isolated.{new_table}

-- Where a task is: accepted, with both messages of its client read, with its preferences made, or
-- at its end, with its result, its stream, and what was asked of the client.
pub data Task (Token : Type 0) : Type 0 where
  arrived : (sock : Stream) → Task Token
  shaken : (read : Result IoError Handshake) → (sock : Stream) → Task Token
  prepared : (asked : Asked Token) → (sock : Stream) → Task Token
  over :
      (result : Result IoError (Unit {0}))
      → (sock : Stream) → (asked : Option (Asked Token)) → Task Token

-- The tasks, the table, and the numbers of the tasks that have made the step after their
-- handshakes, in the order of those steps, whether or not the step used the table.
pub record Tasks (Token : Type 0) : Type 0 where
  pub table : Isolation Token
  pub tasks : List (Task Token)
  pub passed : List ℕ

abbrev pub passing : {Token : Type 0} → ℕ → Task Token → List ℕ → List ℕ
passing i (shaken read sock) passed = passed ++ i ∷ []
passing i _ passed = passed

module _ {Token Remote : Type 0} (fresh : ℕ → Token)
    (connect_with_prefs : Asked Token → Option Remote)
    (copy_bidirectional : Remote → Stream → Stream) where
  -- The preferences, for a request that was read.
  prefs_of : Result IoError Handshake → Stream → Isolation Token → Task Token × Isolation Token
  unfolding isolation_of
  prefs_of (err e) sock table = (over (err e) sock none, table)
  prefs_of (ok (creds, none)) sock table = (over (ok tt) sock none, table)
  prefs_of (ok (creds, some (host, port))) sock table =
      let (token, table') = isolation_of fresh creds table in
      (prepared (record { host = host; port = port; isolation = token }) sock, table')

  unfoldable pub task_step : Task Token → Isolation Token → Task Token × Isolation Token
  unfolding prefs_of answer
  task_step (arrived sock) table = let (read, sock') = handshake sock in (shaken read sock', table)
  task_step (shaken read sock) table = prefs_of read sock table
  task_step (prepared asked sock) table =
      let (result, sock') =
        answer fresh connect_with_prefs copy_bidirectional (connect_with_prefs asked) sock in
      (over result sock' (some asked), table)
  task_step (over result sock asked) table = (over result sock asked, table)

  pub step_by : ℕ → Option (Task Token) → Tasks Token → Tasks Token
  step_by i none s = s
  step_by i (some w) s =
      let (w', table) = task_step w s.table in
      record { table = table; tasks = modify i (λ _. w') s.tasks; passed = passing i w s.passed }

  -- The task of number `i` moves.
  unfoldable pub step : Tasks Token → ℕ → Tasks Token
  unfolding step_by
  step s i = step_by i (get_elem? s.tasks i) s

  unfoldable pub steps : Tasks Token → List ℕ → Tasks Token
  steps s [] = s
  steps s (i ∷ is) = steps (step s i) is

  -- The tasks of these connections, none of which has begun, on a new table.
  abbrev pub run : List Stream → List ℕ → Tasks Token
  run socks is = steps (record { table = new_table; tasks = map arrived socks; passed = [] }) is
