-- ===== src/Logs/History.antt =====
-- The life of the process-wide log state of rust/arti-ffi/src/logs.rs: which subscriber it gets,
-- and what the polls deliver.
use mathlib.Core.List.{Sublistᴰ}
use mathlib.Core.Option
use mathlib.Core.Path.{ap₂}
use go_arti.Prelude.{
  ◌≤◌, ◌≡◌, refl, ap, ◌∙◌, Bool, false, Option, none, some, List, [], ◌∷◌, ◌++◌, arith,
  if◌then◌else◌, length, Text,
}
use go_arti.Channel.{Channel, sync_channel}
use go_arti.Events.{send}
use go_arti.Events
use go_arti.Events.History
use go_arti.Events.History.{run-in_order, run-IsBounded}
use go_arti.Logs.{
  Op, LogRecord, TracingEvent, Process, Subscriber, host, queue_layer, installs, emits, polls,
  queue_of, next, on_event, install, to_record, log_queue_depth,
}

module _ {Filter : Type 0} (try_new : Text → Option Filter)
    (enabled : Filter → TracingEvent → Bool) where
  -- Whether an event reaches the layer.
  unfoldable pub is_seen : Option (Subscriber Filter) → TracingEvent → Bool
  is_seen none ev = false
  is_seen (some host) ev = false
  is_seen (some (queue_layer f mirror_to_stderr)) ev = enabled f ev

  unfoldable pub emit : TracingEvent → Process Filter → Process Filter
  unfolding is_seen
  emit ev p = if is_seen p.subscriber ev then on_event ev p else p

  -- What the polls returned, in their order, and the state at the end.
  unfoldable pub run_logs : Process Filter → List Op → List LogRecord × Process Filter
  unfolding emit
  run_logs p [] = ([], p)
  run_logs p (installs directives mirror ∷ ops) =
      run_logs (install try_new directives mirror p).1 ops
  run_logs p (emits ev ∷ ops) = run_logs (emit ev p) ops
  run_logs p (polls ∷ ops) =
      let (r, p') = next p in let (rs, end) = run_logs p' ops in (History.deliver r rs, end)

  abbrev subscriber_after : Text → Bool → Option (Subscriber Filter) → Option (Subscriber Filter)
  subscriber_after directives mirror none =
      Option.map (λ f. queue_layer f mirror) (try_new directives)
  subscriber_after directives mirror (some sub) = some sub

  -- What the operations mean for the queue.
  unfoldable pub seen : Option (Subscriber Filter) → List Op → List (History.Op LogRecord)
  unfolding is_seen
  seen sub [] = []
  seen sub (installs directives mirror ∷ ops) = seen (subscriber_after directives mirror sub) ops
  seen sub (emits ev ∷ ops) =
      let rest = seen sub ops in
      if is_seen sub ev then History.sends (to_record ev) ∷ rest else rest
  seen sub (polls ∷ ops) = History.polls ∷ seen sub ops

  install_subscriber :
      (directives : Text) (mirror : Bool) (p : Process Filter)
      → (install try_new directives mirror p).1.subscriber
        ≡ subscriber_after directives mirror p.subscriber
  unfolding install
  install_subscriber directives mirror p = ground arith

  install_queue :
      (directives : Text) (mirror : Bool) (p : Process Filter)
      → queue_of (install try_new directives mirror p).1 ≡ queue_of p
  unfolding install queue_of
  install_queue directives mirror p = ground arith

  emit_queue :
      (ev : TracingEvent) (p : Process Filter)
      → queue_of (emit ev p)
        ≡ (if is_seen p.subscriber ev then send (to_record ev) (queue_of p) else queue_of p)
  unfolding emit queue_of on_event
  emit_queue ev p = ground arith

  emit_subscriber : (ev : TracingEvent) (p : Process Filter) → (emit ev p).subscriber ≡ p.subscriber
  unfolding emit on_event
  emit_subscriber ev p = ground arith

  next_queue :
      (p : Process Filter)
      → ((next p).0 ≡ (Events.next (queue_of p)).0)
        × (queue_of (next p).1 ≡ (Events.next (queue_of p)).1)
        × ((next p).1.subscriber ≡ p.subscriber)
  unfolding next queue_of
  next_queue p = (refl, refl, refl)

  abbrev Agrees : Process Filter → List Op → Option (Subscriber Filter) → Channel LogRecord → Type 0
  Agrees p ops sub ch =
      let (rs, end) = History.run ch (seen sub ops) in
      ((run_logs p ops).0 ≡ rs) × (queue_of (run_logs p ops).1 ≡ end)

  run_logs_from :
      (ops : List Op) (p : Process Filter) (sub : Option (Subscriber Filter))
      (ch : Channel LogRecord)
      → p.subscriber ≡ sub
      → queue_of p ≡ ch
      → Agrees p ops sub ch
  unfolding run_logs seen History.run
  run_logs_from [] p sub ch s q = (refl, q)
  run_logs_from (installs directives mirror ∷ ops) p sub ch s q =
      run_logs_from ops (install try_new directives mirror p).1 _ ch
        (install_subscriber directives mirror p ∙ ap (subscriber_after directives mirror) s)
        (install_queue directives mirror p ∙ q)
  run_logs_from (emits ev ∷ ops) p sub ch s q =
      let ch' = if is_seen sub ev then send (to_record ev) ch else ch in
      let rest : Agrees (emit ev p) ops sub ch' =
        run_logs_from ops (emit ev p) sub ch' (emit_subscriber ev p ∙ s)
          (ground (arith, emit_queue ev p)) in
      ground arith
  run_logs_from (polls ∷ ops) p sub ch s q =
      let (first, queue, keeps) = next_queue p in
      let rest : Agrees (next p).1 ops sub (Events.next ch).1 =
        run_logs_from ops (next p).1 sub _ (keeps ∙ s) (queue ∙ ap (λ x. (Events.next x).1) q) in
      (ap₂ History.deliver (first ∙ ap (λ x. (Events.next x).0) q) rest.0, rest.1)

  -- The records that polls return over any history of installations, events and polls, and the
  -- queue that is left, are those of the bounded queue alone, over the events that the installed
  -- filter lets through.
  run_logs-run :
      (p : Process Filter) (ops : List Op)
      → let (rs, ch) = History.run (queue_of p) (seen p.subscriber ops) in
        ((run_logs p ops).0 ≡ rs) × (queue_of (run_logs p ops).1 ≡ ch)
  run_logs-run p ops = run_logs_from ops p p.subscriber (queue_of p) refl refl

  -- From a process whose queue was never used, over any history of installations, events and
  -- polls: the records that polls return and then those that still wait are, in order, part of
  -- the rendered events that the installed filter let through, nothing invented, doubled or
  -- overtaken, and never more than 4096 wait.
  pub run_logs_in_order :
      (p : Process Filter) (ops : List Op)
      → p.queue ≡ none
      → Sublistᴰ
          ((run_logs p ops).0 ++ (queue_of (run_logs p ops).1).items)
          (History.sent (seen p.subscriber ops))
        × (length (queue_of (run_logs p ops).1).items ≤ log_queue_depth)
  unfolding queue_of sync_channel
  run_logs_in_order p ops h =
      let ch : Channel LogRecord = sync_channel log_queue_depth in
      let (rs, end) = run_logs_from ops p p.subscriber ch refl (ground arith) in
      (
        rw (rs, end) (run-in_order ch (seen p.subscriber ops)),
        rw end (run-IsBounded ch (seen p.subscriber ops) (omega arith)).0,
      )

  install_refused :
      (directives : Text) (mirror : Bool) (p : Process Filter) (sub : Subscriber Filter)
      → p.subscriber ≡ some sub
      → (install try_new directives mirror p).0 ≡ false
  unfolding install
  install_refused directives mirror p sub h = ground arith

  -- Once the process has a subscriber, it keeps it over any history, and every further
  -- installation answers false.
  install_once :
      (p : Process Filter) (ops : List Op) (sub : Subscriber Filter)
      → p.subscriber ≡ some sub
      → let end = (run_logs p ops).1 in
        (end.subscriber ≡ some sub)
        × ((directives : Text) (mirror : Bool) → (install try_new directives mirror end).0 ≡ false)
  unfolding run_logs
  install_once p [] sub h = (h, λ directives mirror. install_refused directives mirror p sub h)
  install_once p (installs directives mirror ∷ ops) sub h =
      install_once (install try_new directives mirror p).1 ops sub
        (install_subscriber directives mirror p ∙ ap (subscriber_after directives mirror) h)
  install_once p (emits ev ∷ ops) sub h =
      install_once (emit ev p) ops sub (emit_subscriber ev p ∙ h)
  install_once p (polls ∷ ops) sub h = install_once (next p).1 ops sub ((next_queue p).2 ∙ h)
