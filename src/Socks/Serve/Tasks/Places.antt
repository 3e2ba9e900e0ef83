-- ===== src/Socks/Serve/Tasks/Places.antt =====
-- Where the tasks of a listener of rust/arti-ffi/src/socks.rs stand beside its connections, taken
-- one after the other in the order in which the tasks make the step after their handshakes.

use mathlib.Core.Path.{ap₂}
use go_arti.Prelude.{
  ℕ, ◌≡◌, refl, sym, ap, ◌∙◌, false, Option, none, some, List, [], ◌∷◌, ◌++◌, map, append_assoc,
  arith, ◌==◌, ==_refl, Result, ok, err, get_elem?, one_at, times, total, total-append,
}
use go_arti.Socks.Stream.{Stream, IoError}
use go_arti.Socks.Isolation.{Isolation}
use go_arti.Socks.Serve.{
  Handshake, handshake, Asked, Served, answer, connected, after_handshake, serve_one, accept_loop,
}
use go_arti.Socks.Serve.Isolated.{new_table, accept_loop-append_table}
use go_arti.Socks.Serve.Tasks.{task_step, Task, arrived, shaken, prepared, over, passing, prefs_of}

-- How a task ends.
abbrev pub Ended : Type 0 → Type 0
Ended Token = Result IoError (Unit {0}) × Stream × Option (Asked Token)

abbrev pub ended : {Token : Type 0} → Served Token → Ended Token
ended served = (served.result, served.sock, served.asked)

-- The connections of these numbers.
abbrev pub in_order : List Stream → List ℕ → List (Option Stream)
in_order socks is = map (get_elem? socks) is

pub in_order-append :
    (socks : List Stream) (is js : List ℕ)
    → in_order socks (is ++ js) ≡ in_order socks is ++ in_order socks js
in_order-append socks [] js = refl
in_order-append socks (i ∷ is) js = ap (λ l. get_elem? socks i ∷ l) (in_order-append socks is js)

module _ {Token Remote : Type 0} (fresh : ℕ → Token)
    (connect_with_prefs : Asked Token → Option Remote)
    (copy_bidirectional : Remote → Stream → Stream) (socks : List Stream) where
  -- The table after these connections, one after the other.
  abbrev pub table_after : List ℕ → Isolation Token
  table_after is =
      (accept_loop fresh connect_with_prefs copy_bidirectional new_table (in_order socks is)).1

  abbrev pub serve : Isolation Token → Stream → Served Token
  serve = serve_one fresh connect_with_prefs copy_bidirectional

  table_after-append :
      (is : List ℕ) (i : ℕ) (sock : Stream)
      → get_elem? socks i ≡ some sock
      → table_after (is ++ i ∷ []) ≡ (serve (table_after is) sock).table
  unfolding accept_loop
  table_after-append is i sock e =
      ap (λ l. (accept_loop fresh connect_with_prefs copy_bidirectional new_table l).1)
        (in_order-append socks is (i ∷ []))
      ∙ accept_loop-append_table fresh connect_with_prefs copy_bidirectional new_table
          (in_order socks is) (in_order socks (i ∷ []))
      ∙ ap
          (λ o.
            (accept_loop fresh connect_with_prefs copy_bidirectional (table_after is) (o ∷ [])).1)
          e

  -- The task of a number made the step after its handshake once, and ends as its connection does
  -- after those whose tasks made theirs before.
  pub record Placed (passed : List ℕ) (i : ℕ) (end : Ended Token) : Type 0 where
    pub before : List ℕ
    pub after : List ℕ
    pub sock : Stream
    pub split : passed ≡ before ++ i ∷ after
    pub mine : get_elem? socks i ≡ some sock
    pub same : end ≡ ended (serve (table_after before) sock)
    pub once : times i passed ≡ 1

  pub end_of : Asked Token → Stream → Ended Token
  end_of asked sock =
      let (result, sock') =
        answer fresh connect_with_prefs copy_bidirectional (connect_with_prefs asked) sock in
      (result, sock', some asked)

  abbrev pub AtPlace : List ℕ → ℕ → Task Token → Type 0
  AtPlace passed i (arrived sock) = (get_elem? socks i ≡ some sock) × (times i passed ≡ 0)
  AtPlace passed i (shaken read sock') =
      (sock : Stream) × (get_elem? socks i ≡ some sock)
      × (handshake sock ≡ (read, sock'))
      × (times i passed ≡ 0)
  AtPlace passed i (prepared asked sock) = Placed passed i (end_of asked sock)
  AtPlace passed i (over result sock asked) = Placed passed i (result, sock, asked)

  passing-Placed :
      (passed : List ℕ) (i j : ℕ) (end : Ended Token)
      → (j == i) ≡ false
      → Placed passed i end
      → Placed (passed ++ j ∷ []) i end
  unfolding total
  passing-Placed passed i j end n h = record {
    before = h.before;
    after = h.after ++ j ∷ [];
    sock = h.sock;
    split = ap (λ l. l ++ j ∷ []) h.split ∙ append_assoc h.before (i ∷ h.after) (j ∷ []);
    mine = h.mine;
    same = h.same;
    once = ground (arith, total-append (one_at i) passed (j ∷ []), n, h.once);
  }

  times-passing :
      (passed : List ℕ) (i j : ℕ) → (j == i) ≡ false → times i (passed ++ j ∷ []) ≡ times i passed
  unfolding total
  times-passing passed i j n = ground (arith, total-append (one_at i) passed (j ∷ []), n)

  -- What another task does.
  passing-AtPlace :
      (passed : List ℕ) (i j : ℕ) (w : Task Token)
      → (j == i) ≡ false
      → AtPlace passed i w
      → AtPlace (passed ++ j ∷ []) i w
  passing-AtPlace passed i j (arrived sock) n h = (h.0, times-passing passed i j n ∙ h.1)
  passing-AtPlace passed i j (shaken read sock) n (s, mine, e, none_yet) =
      (s, mine, e, times-passing passed i j n ∙ none_yet)
  passing-AtPlace passed i j (prepared asked sock) n h = passing-Placed passed i j _ n h
  passing-AtPlace passed i j (over result sock asked) n h = passing-Placed passed i j _ n h

  pub others-AtPlace :
      (passed : List ℕ) (i j : ℕ) (w u : Task Token)
      → (j == i) ≡ false
      → AtPlace passed i w
      → AtPlace (passing j u passed) i w
  others-AtPlace passed i j w (arrived sock) n h = h
  others-AtPlace passed i j w (shaken read sock) n h = passing-AtPlace passed i j w n h
  others-AtPlace passed i j w (prepared asked sock) n h = h
  others-AtPlace passed i j w (over result sock asked) n h = h

  prefs_of-table :
      (read : Result IoError Handshake) (sock : Stream) (table : Isolation Token)
      → (prefs_of fresh connect_with_prefs copy_bidirectional read sock table).1
        ≡ (after_handshake fresh connect_with_prefs copy_bidirectional table (read, sock)).table
  unfolding prefs_of after_handshake connected
  prefs_of-table (err e) sock table = refl
  prefs_of-table (ok (creds, none)) sock table = refl
  prefs_of-table (ok (creds, some (host, port))) sock table = refl

  prefs_of-AtPlace :
      (passed : List ℕ) (i : ℕ) (read : Result IoError Handshake) (sock : Stream)
      (table : Isolation Token)
      → Placed passed i
          (ended (after_handshake fresh connect_with_prefs copy_bidirectional table (read, sock)))
      → AtPlace passed i (prefs_of fresh connect_with_prefs copy_bidirectional read sock table).0
  unfolding prefs_of after_handshake connected end_of
  prefs_of-AtPlace passed i (err e) sock table h = h
  prefs_of-AtPlace passed i (ok (creds, none)) sock table h = h
  prefs_of-AtPlace passed i (ok (creds, some (host, port))) sock table h = h

  once-passing : (passed : List ℕ) (i : ℕ) → times i passed ≡ 0 → times i (passed ++ i ∷ []) ≡ 1
  unfolding total
  once-passing passed i h = ground (arith, total-append (one_at i) passed (i ∷ []), ==_refl i, h)

  -- A task that moves.
  pub task_step-AtPlace :
      (passed : List ℕ) (i : ℕ) (w : Task Token) (table : Isolation Token)
      → table ≡ table_after passed
      → AtPlace passed i w
      → ((task_step fresh connect_with_prefs copy_bidirectional w table).1
          ≡ table_after (passing i w passed))
        × AtPlace
            (passing i w passed)
            i
            (task_step fresh connect_with_prefs copy_bidirectional w table).0
  unfolding task_step end_of serve_one
  task_step-AtPlace passed i (arrived sock) table e h = (e, (sock, h.0, refl, h.1))
  task_step-AtPlace passed i (shaken read sock') table e (sock, mine, shook, none_yet) =
      let served : after_handshake fresh connect_with_prefs copy_bidirectional table (read, sock')
          ≡ serve (table_after passed) sock =
        ap₂ (after_handshake fresh connect_with_prefs copy_bidirectional) e (sym shook) in
      (
        prefs_of-table read sock' table
            ∙ ap (λ d. d.table) served
            ∙ sym (table_after-append passed i sock mine),
        prefs_of-AtPlace (passed ++ i ∷ []) i read sock' table (record {
          before = passed;
          after = [];
          sock = sock;
          split = refl;
          mine = mine;
          same = ap ended served;
          once = once-passing passed i none_yet;
        }),
      )
  task_step-AtPlace passed i (prepared asked sock) table e h = (e, h)
  task_step-AtPlace passed i (over result sock asked) table e h = (e, h)
