-- ===== src/Logs.antt =====
-- The log records (rust/arti-ffi/src/logs.rs): the rendering of a record, the process-wide queue
-- and the installation of the subscriber. `EnvFilter` and the `tracing` registry are parameters:
-- which directives are a filter, and which events a filter lets through.
pub mod Rendering
pub mod History
use go_arti.Prelude.{
  ℕ, ◌+◌, Bool, true, false, Option, none, some, List, [], ◌∷◌, ◌++◌, if◌then◌else◌, Text, codes,
  text_eq,
}
use go_arti.Channel.{Channel, sync_channel}
use go_arti.Events.{send}
use go_arti.Events

pub record LogRecord : Type 0 where
  pub level : Text
  pub target : Text
  pub message : Text

abbrev pub log_queue_depth : ℕ
log_queue_depth = 4096

-- A field of an event with its value as text, which `Debug` or the string itself gives.
pub record Field : Type 0 where
  pub name : Text
  pub value : Text

pub record Message : Type 0 where
  pub message : Text
  pub fields : List Text

abbrev pub empty_message : Message
empty_message = record { message = []; fields = [] }

-- `[Text]::join(" ")`.
unfoldable pub join : List Text → Text
join [] = []
join (part ∷ []) = part
join (part ∷ next ∷ parts) = part ++ b' ' ∷ join (next ∷ parts)

unfoldable pub finish : Message → Text
unfolding join
finish m = elim m.fields [
  | [] ↦ m.message
  | field ∷ fields ↦ elim m.message [
    | [] ↦ join (field ∷ fields)
    | b ∷ bs ↦ (b ∷ bs) ++ b' ' ∷ join (field ∷ fields)
  ]
]

unfoldable pub push : Field → Message → Message
push field m =
    if text_eq field.name (codes "message")
    then record m { message = field.value }
    else record m { fields = m.fields ++ (field.name ++ b'=' ∷ field.value) ∷ [] }

-- `Event::record`, which visits the fields in order; both visits are `push`.
unfoldable pub record_fields : List Field → Message → Message
unfolding push
record_fields [] m = m
record_fields (field ∷ fields) m = record_fields fields (push field m)

pub record TracingEvent : Type 0 where
  pub level : Text
  pub target : Text
  pub fields : List Field

unfoldable pub to_record : TracingEvent → LogRecord
unfolding record_fields finish
to_record ev = record {
  level = ev.level;
  target = ev.target;
  message = finish (record_fields ev.fields empty_message);
}

-- The one subscriber of the process: another's, or the one that `install` made.
pub data Subscriber (Filter : Type 0) : Type 0 where
  host : Subscriber Filter
  queue_layer : (filter : Filter) → (mirror_to_stderr : Bool) → Subscriber Filter

-- What is static: the queue, once it was used, and the subscriber.
pub record Process (Filter : Type 0) : Type 0 where
  pub queue : Option (Channel LogRecord)
  pub subscriber : Option (Subscriber Filter)

module _ {Filter : Type 0} where
  -- `queue`: created on first use.
  unfoldable pub queue_of : Process Filter → Channel LogRecord
  queue_of p = elim p.queue [ none ↦ sync_channel log_queue_depth | some ch ↦ ch ]

  -- `next`, at the moment it returns.
  unfoldable pub next : Process Filter → Option LogRecord × Process Filter
  unfolding queue_of
  next p = let (r, ch) = Events.next (queue_of p) in (r, record p { queue = some ch })

  unfoldable pub on_event : TracingEvent → Process Filter → Process Filter
  unfolding queue_of to_record
  on_event ev p = record p { queue = some (send (to_record ev) (queue_of p)) }

  try_init : Subscriber Filter → Process Filter → Bool × Process Filter
  try_init sub p = elim p.subscriber [
    | none ↦ (true, record p { subscriber = some sub })
    | some other ↦ (false, p)
  ]

  module _ (try_new : Text → Option Filter) where
    unfoldable pub install : Text → Bool → Process Filter → Bool × Process Filter
    unfolding try_init queue_of
    install directives mirror_to_stderr p = elim (try_new directives) [
      | none ↦ (false, p)
      | some f ↦ try_init (queue_layer f mirror_to_stderr) (record p { queue = some (queue_of p) })
    ]

-- What the threads of the process do: install, emit an event, or ask for the next record.
pub data Op : Type 0 where
  installs : (directives : Text) → (mirror_to_stderr : Bool) → Op
  emits : TracingEvent → Op
  polls : Op
