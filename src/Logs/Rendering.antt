-- ===== src/Logs/Rendering.antt =====
-- How rust/arti-ffi/src/logs.rs renders an event: one line of its message and its other fields.
use go_arti.Prelude.{
  ◌≡◌, refl, sym, Bool, List, [], ◌∷◌, ◌++◌, append-nil, append_assoc, arith, if◌then◌else◌, Text,
  codes, text_eq,
}
use go_arti.Logs.{
  Field, Message, TracingEvent, empty_message, join, finish, push, record_fields, to_record,
}

abbrev is_message : Field → Bool
is_message field = text_eq field.name (codes "message")

-- The value of the last field `message`, or `before` without one.
unfoldable pub last_message : Text → List Field → Text
last_message before [] = before
last_message before (field ∷ fields) =
    last_message (if is_message field then field.value else before) fields

-- The other fields, as `key=value`.
unfoldable pub others : List Field → List Text
others [] = []
others (field ∷ fields) =
    let rest = others fields in
    if is_message field then rest else (field.name ++ b'=' ∷ field.value) ∷ rest

-- A part of the line, if it has any text.
abbrev pub part : Text → List Text
part [] = []
part (b ∷ bs) = (b ∷ bs) ∷ []

finish_lem : (m : Message) → finish m ≡ join (part m.message ++ m.fields)
unfolding finish join
finish_lem m = ground arith

record_fields_message :
    (fields : List Field) (m : Message)
    → (record_fields fields m).message ≡ last_message m.message fields
unfolding record_fields push last_message
record_fields_message [] m = refl
record_fields_message (field ∷ fields) m =
    ground (arith, record_fields_message fields (push field m))

record_fields_fields :
    (fields : List Field) (m : Message)
    → (record_fields fields m).fields ≡ m.fields ++ others fields
unfolding record_fields push others
record_fields_fields [] m = sym (append-nil m.fields)
record_fields_fields (field ∷ fields) m = ground (
  arith,
  record_fields_fields fields (push field m),
  append_assoc m.fields ((field.name ++ b'=' ∷ field.value) ∷ []) (others fields),
)

-- A record's message is one line: the value of the last field `message`, if it has any text, and
-- then every other field as `key=value`, in the order of the event, with single spaces between.
pub to_record_renders :
    (ev : TracingEvent)
    → (to_record ev).message ≡ join (part (last_message [] ev.fields) ++ others ev.fields)
unfolding to_record
to_record_renders ev = rw (
  finish_lem (record_fields ev.fields empty_message),
  record_fields_message ev.fields empty_message,
  record_fields_fields ev.fields empty_message,
)
