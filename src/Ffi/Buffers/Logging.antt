-- ===== src/Ffi/Buffers/Logging.antt =====
-- The log records of rust/arti-ffi/src/logs.rs through the C functions of rust/arti-ffi/src/ffi.rs.
use mathlib.Core.Option
use go_arti.Prelude.{
  ◌+◌, ◌≡◌, refl, ◌∙◌, Bool, true, false, Option, none, some, List, [], ◌∷◌, if◌then◌else◌, ==_refl,
  Bytes, Text,
}
use go_arti.Prelude.Keys.{number_key, insert, lookup-insert}
use go_arti.Text.Utf8.{from_utf8}
use go_arti.Channel.{sync_channel}
use go_arti.Events.{send, next}
use go_arti.Logs.{
  LogRecord, TracingEvent, Process, queue_layer, queue_of, to_record, on_event, install,
  log_queue_depth,
}
use go_arti.Logs
use go_arti.Logs.History.{emit, is_seen}
use go_arti.Ffi.{CInt, World, nonneg, required_str, has_nul, to_c_string, json_or_null, lookup}
use go_arti.Ffi.Buffers.{arti_log_enable, arti_next_log}

-- A process without a subscriber: nothing is in its queue, which is there if a poll has used it.
abbrev pub idle : {Filter : Type 0} → Bool → Process Filter
idle polled = record {
  queue = if polled then some (sync_channel log_queue_depth) else none;
  subscriber = none;
}

module _ {Filter : Type 0} where
  -- A process with the subscriber of this filter, and these records waiting.
  abbrev holding : Filter → List LogRecord → Process Filter
  holding f items = record {
    queue = some (record {
      items = items;
      capacity = log_queue_depth;
      receiver_alive = true;
      sender_alive = true;
    });
    subscriber = some (queue_layer f false);
  }

module _ {Filter : Type 0} (try_new : Text → Option Filter)
    (enabled : Filter → TracingEvent → Bool) where
  installs_first :
      (polled : Bool) (text : Text) (f : Filter)
      → try_new text ≡ some f
      → install try_new text false (idle polled) ≡ (true, holding f [])
  unfolding install queue_of sync_channel
  installs_first true text f k = rw (install, k) refl
  installs_first false text f k = rw (install, k) refl

  enables :
      (polled : Bool) (d : Bytes) (text : Text) (f : Filter)
      → from_utf8 d ≡ some text
      → try_new text ≡ some f
      → arti_log_enable try_new (some d) (idle polled) ≡ (nonneg 0, holding f [])
  unfolding arti_log_enable required_str
  enables polled d text f h k = rw (arti_log_enable, h) (rw (installs_first polled text f k) refl)

  emits_one :
      (f : Filter) (ev : TracingEvent)
      → enabled f ev ≡ true
      → emit try_new enabled ev (holding f []) ≡ holding f (to_record ev ∷ [])
  unfolding emit is_seen on_event queue_of send
  emits_one f ev h = rw h refl

module _ {C Filter : Type 0} (encode_record : LogRecord → Option Text) where
  takes_one :
      (f : Filter) (r : LogRecord) (s : Text) (t : CInt) (w : World C)
      → encode_record r ≡ some s
      → has_nul s ≡ false
      → arti_next_log encode_record t (holding f (r ∷ [])) w ≡ (
        some w.next_address,
        record w { strings = insert w.next_address s w.strings; next_address = w.next_address + 1 },
        holding f [],
      )
  unfolding arti_next_log Logs.next queue_of next json_or_null to_c_string Option.bind
  takes_one f r s t w h k = rw (h, k) refl

  takes_none :
      (f : Filter) (t : CInt) (w : World C)
      → (arti_next_log encode_record t (holding f []) w).0 ≡ none
  unfolding arti_next_log Logs.next queue_of next json_or_null Option.bind
  takes_none f t w = refl

module _ {C Filter : Type 0} (try_new : Text → Option Filter)
    (enabled : Filter → TracingEvent → Bool) (encode_record : LogRecord → Option Text) where
  -- Where a process has no subscriber and no record waiting, whether or not its records were polled
  -- before, collecting starts with code 0 for directives that are a filter. An event that the
  -- filter lets through then comes out of the next poll as a string that holds its rendered record,
  -- where that has a JSON form with no NUL; and the poll after that returns null.
  pub log_round_trip :
      (polled : Bool) (d : Bytes) (text : Text) (f : Filter) (ev : TracingEvent) (s : Text)
      (t t' : CInt) (w : World C)
      → from_utf8 d ≡ some text
      → try_new text ≡ some f
      → enabled f ev ≡ true
      → encode_record (to_record ev) ≡ some s
      → has_nul s ≡ false
      → let collecting = arti_log_enable try_new (some d) (idle polled) in
        let first = arti_next_log encode_record t (emit try_new enabled ev collecting.1) w in
        (collecting.0 ≡ nonneg 0)
        × (first.0 ≡ some w.next_address)
        × (lookup w.next_address first.1.strings ≡ some s)
        × ((arti_next_log encode_record t' first.2 first.1).0 ≡ none)
  log_round_trip polled d text f ev s t t' w utf8 parsed passes encoded plain =
      rw
        (
          enables try_new enabled polled d text f utf8 parsed,
          emits_one try_new enabled f ev passes,
          takes_one encode_record f (to_record ev) s t w encoded plain,
        )
        (
          refl,
          refl,
          lookup-insert w.next_address w.next_address s w.strings ∙ rw (==_refl w.next_address),
          takes_none encode_record f t' _,
        )
