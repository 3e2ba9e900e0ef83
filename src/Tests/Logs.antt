-- ===== src/Tests/Logs.antt =====
-- Log records on short histories (rust/arti-ffi/src/logs.rs), some from that file's own tests.
use go_arti.Text.Utf8.{from_utf8}
use go_arti.Prelude.Keys.{number_key, lookup}
use go_arti.Ffi.Buffers.Logging.{idle as unhooked, log_round_trip}
use go_arti.Ffi.Buffers.{arti_log_enable, arti_next_log}
use go_arti.Ffi.{World, nonneg, has_nul}
use mathlib.Core.List.{Sublistᴰ}
use go_arti.Prelude.{
  ◌≤◌, ◌≡◌, refl, Bool, true, false, Option, none, some, List, [], ◌∷◌, ◌++◌, length, Text, codes,
  text_eq,
}
use go_arti.Events.History
use go_arti.Logs.{
  TracingEvent, Op, Process, host, installs, emits, polls, join, to_record, queue_of,
  log_queue_depth,
}
use go_arti.Logs.Rendering.{part, last_message, others, to_record_renders}
use go_arti.Logs.History.{run_logs, seen, emit, run_logs_in_order}

abbrev looking : TracingEvent
looking = record {
  level = codes "INFO";
  target = codes "tor_dirmgr";
  fields =
      record { name = codes "attempt"; value = codes "1" }
      ∷ record { name = codes "message"; value = codes "Looking." }
      ∷ [];
}

renders_message_and_fields : (to_record looking).message ≡ codes "Looking. attempt=1"
unfolding to_record text_eq
renders_message_and_fields = refl

to_record_renders_example :
    (to_record looking).message
    ≡ join (part (last_message [] looking.fields) ++ others looking.fields)
to_record_renders_example = to_record_renders looking

-- A filter is the level that it lets through; directives without text are none.
abbrev try_new : Text → Option Text
try_new [] = none
try_new (b ∷ bs) = some (b ∷ bs)

abbrev enabled : Text → TracingEvent → Bool
enabled f ev = text_eq f ev.level

abbrev idle : Process Text
idle = record { queue = none; subscriber = none }

abbrev ops : List Op
ops = emits looking ∷ installs (codes "INFO") false ∷ emits looking ∷ polls ∷ []

run_logs_in_order_example :
    Sublistᴰ
      ((run_logs try_new enabled idle ops).0
        ++ (queue_of (run_logs try_new enabled idle ops).1).items)
      (History.sent (seen try_new enabled none ops))
    × (length (queue_of (run_logs try_new enabled idle ops).1).items ≤ log_queue_depth)
run_logs_in_order_example = run_logs_in_order try_new enabled idle ops refl

abbrev hosted : Process Text
hosted = record { queue = none; subscriber = some host }

-- No client, and no string.
abbrev memory : World Bool
memory = record { clients = []; dropped = []; strings = []; next_address = 1; error_slot = none }

log_round_trip_example :
    let collecting = arti_log_enable some (some (codes "info")) (unhooked true) in
    let first =
      arti_next_log
        (λ r. some r.message)
        (nonneg 5)
        (emit some (λ f ev. true) looking collecting.1)
        memory in
    (collecting.0 ≡ nonneg 0)
    × (first.0 ≡ some 1)
    × (lookup 1 first.1.strings ≡ some (codes "Looking. attempt=1"))
    × ((arti_next_log (λ r. some r.message) (nonneg 5) first.2 first.1).0 ≡ none)
unfolding from_utf8 to_record text_eq has_nul
log_round_trip_example =
    log_round_trip some (λ f ev. true) (λ r. some r.message) true (codes "info") (codes "info")
      (codes "info") looking (codes "Looking. attempt=1") (nonneg 5) (nonneg 5) memory refl refl
      refl refl refl
