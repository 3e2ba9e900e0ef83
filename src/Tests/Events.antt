-- ===== src/Tests/Events.antt =====
-- The event queue on short histories (rust/arti-ffi/src/events.rs).
use mathlib.Core.List.{Sublistᴰ}
use go_arti.Prelude.{ℕ, ◌≡◌, refl, true, List, [], ◌∷◌, ◌++◌, arith}
use go_arti.Channel.{Channel, try_send, recv_timeout}
use go_arti.Events.{send, next}
use go_arti.Events.History.{Op, sends, polls, run, send_all, run-in_order, send_all-take}

abbrev small : Channel ℕ
small = record { items = 7 ∷ []; capacity = 2; receiver_alive = true; sender_alive = true }

abbrev history : List (Op ℕ)
history = sends 8 ∷ sends 9 ∷ polls ∷ sends 10 ∷ polls ∷ []

-- 9 finds the queue full.
history-run : (run small history).0 ≡ 7 ∷ 8 ∷ []
unfolding run send next try_send recv_timeout
history-run = refl

run-in_order_example :
    Sublistᴰ ((run small history).0 ++ (run small history).1.items) (7 ∷ 8 ∷ 9 ∷ 10 ∷ [])
run-in_order_example = run-in_order small history

send_all-take_example : (send_all (8 ∷ 9 ∷ 10 ∷ []) small).items ≡ 7 ∷ 8 ∷ []
send_all-take_example = send_all-take (8 ∷ 9 ∷ 10 ∷ []) small refl (omega arith)
