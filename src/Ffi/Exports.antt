-- ===== src/Ffi/Exports.antt =====
-- The exported functions of rust/arti-ffi/src/ffi.rs that use a client.
pub mod Contract
pub mod Answers
pub mod Ownership
pub mod Handles
pub mod Live
use go_arti.Prelude.{
  ℕ, zero, suc, ◌+◌, ◌-◌, ◌*◌, ◌/◌, ◌%◌, ◌^◌, ◌≤◌, ◌<◌, min, String, ◌≡◌, refl, sym, ap, ◌∙◌, ◌≢◌,
  ◌↔◌, ◌⊎◌, inl, inr, Bool, true, false, not, ◌&&◌, ◌||◌, Option, none, some, List, [], ◌∷◌, ◌++◌,
  map, append-nil, append_assoc, arith, ◌>>=◌, ◌>>◌, ltb, leb, ◌==◌, if◌then◌else◌, within, ltb→lt,
  lt→ltb, leb→le, le→leb, ==_iff, ==_refl, tests, Bool-cases, Option-cases, Result, ok, err,
  or_fail, Result-cases, through, length, take, drop, get_or, length-append, split_at?,
  split_at?-append, split_at?-short, All, Bytes, Text, codes, text_eq, text_eq_sound, text_eq_refl,
  text_eq_iff, modify, get_elem?, replicate, get_elem?-modify, get_elem?-modify-none, each-modify,
  one_at, times, get_elem?-replicate, get_elem?-lt, modify_leaves_fewer, turns_leave_fewer,
  turn_leaves_fewer, total_none, total, total-append, total-modify, le-total,
}
use mathlib.Core.Option
use go_arti.Prelude.Keys.{number_key}
use go_arti.Onion.{AddRequest, AddResponse}
use go_arti.Events.{Event}
use go_arti.Client.Status.{BootstrapStatus}
use go_arti.Ffi.{
  Pointer, CInt, ErrOut, World, nonneg, negsuc, no_slot, minus_one, required_str, into_raw, set_err,
  guard, on_client, null_client, report, json_or_null, as_ref, to_c_string, remove,
}

-- The methods of `Client` behind the interface. `none` is a panic, and an error is its message.
-- `socks_addr` gives the address as text.
pub record Methods (C : Type 0) : Type 0 where
  pub new : Text → Option (Result Text C)
  pub start : C → Option (Result Text (Unit {0})) × C
  pub wait : C → Option (Unit {0}) × C
  pub shutdown : C → Option (Unit {0}) × C
  pub bootstrap_status : C → Option BootstrapStatus × C
  pub set_network_enabled : Bool → C → Option (Result Text (Unit {0})) × C
  pub network_enabled : C → Option Bool × C
  pub socks_addr : C → Option (Option Text) × C
  pub onion_add : AddRequest → C → Option (Result Text AddResponse) × C
  pub onion_del : Text → C → Option (Result Text (Unit {0})) × C
  pub next_event : ℕ → C → Option (Option Event) × C

-- serde_json on the types that cross the interface; an error of parsing has its text.
pub record Json : Type 0 where
  pub parse_request : Text → Result Text AddRequest
  pub encode_response : AddResponse → Result Text Text
  pub encode_status : BootstrapStatus → Option Text
  pub encode_event : Event → Option Text

-- `timeout_ms.max(0)`
abbrev pub at_least_zero : CInt → ℕ
at_least_zero (nonneg n) = n
at_least_zero (negsuc n) = 0

abbrev pub is_nonzero : CInt → Bool
is_nonzero (nonneg n) = not (n == 0)
is_nonzero (negsuc n) = true

labelled : {A : Type 0} → Text → Result Text A → Result Text A
labelled label (ok a) = ok a
labelled label (err e) = err (label ++ e)

-- An argument that is refused is an error without a call.
pub call_with :
    {A B C : Type 0}
    → Result Text A
    → (A → C → Option (Result Text B) × C)
    → C
    → Option (Result Text B) × C
call_with (err e) call c = (some (err e), c)
call_with (ok a) call c = call a c

module _ {C : Type 0} (m : Methods C) (json : Json) where
  abbrev null_pointer : World C → Pointer × World C
  null_pointer w = (none, w)

  abbrev failed_code : World C → CInt × World C
  failed_code w = (minus_one, w)

  created : ErrOut → Option (Result Text C) → World C → Option Pointer × World C
  created err_out none w = (none, w)
  created err_out (some (err e)) w = (some none, set_err err_out e w)
  created err_out (some (ok c)) w = let (p, w') = into_raw c w in (some p, w')

  unfoldable pub arti_client_new : Option Bytes → ErrOut → World C → Pointer × World C
  unfolding created
  arti_client_new config_json err_out w =
      guard err_out none (elim (required_str config_json (codes "config")) [
        | err e ↦ (some none, set_err err_out e w)
        | ok text ↦ created err_out (m.new text) w
      ])

  unfoldable pub arti_client_start : Pointer → ErrOut → World C → CInt × World C
  arti_client_start client err_out w =
      guard err_out minus_one (on_client client (null_client err_out) m.start (report err_out) w)

  unfoldable pub arti_client_wait : Pointer → World C → CInt × World C
  arti_client_wait client w =
      guard no_slot minus_one (on_client client failed_code m.wait (λ _ w'. (nonneg 0, w')) w)

  unfoldable pub arti_client_shutdown : Pointer → World C → World C
  arti_client_shutdown client w =
      (guard no_slot tt (on_client client (λ w'. (tt, w')) m.shutdown (λ _ w'. (tt, w')) w)).1

  unfoldable pub arti_bootstrap_status : Pointer → World C → Pointer × World C
  arti_bootstrap_status client w = guard no_slot none (
      on_client client null_pointer m.bootstrap_status (λ s. json_or_null (json.encode_status s)) w)

  unfoldable pub arti_set_network_enabled : Pointer → CInt → ErrOut → World C → CInt × World C
  arti_set_network_enabled client enabled err_out w = guard err_out minus_one (
      on_client client (null_client err_out) (m.set_network_enabled (is_nonzero enabled))
        (report err_out) w)

  unfoldable pub arti_network_enabled : Pointer → World C → CInt × World C
  arti_network_enabled client w =
      guard no_slot minus_one (
        on_client client failed_code m.network_enabled (λ b w'. (nonneg (if b then 1 else 0), w'))
          w)

  unfoldable pub arti_socks_addr : Pointer → World C → Pointer × World C
  arti_socks_addr client w =
      guard no_slot none (on_client client null_pointer m.socks_addr json_or_null w)

  -- The response of a service that was added, or the message of what failed.
  added : ErrOut → Result Text AddResponse → World C → Pointer × World C
  unfolding labelled
  added err_out r w =
      elim (do resp ← r; labelled (codes "cannot encode response: ") (json.encode_response resp)) [
        | ok s ↦ to_c_string s w
        | err e ↦ (none, set_err err_out e w)
      ]

  unfoldable pub request_of : Option Bytes → Result Text AddRequest
  unfolding labelled
  request_of req_json = do
    text ← required_str req_json (codes "request")
    labelled (codes "invalid request: ") (json.parse_request text)

  -- The handle is checked before the request, and the request before the client is called.
  unfoldable pub arti_onion_add : Pointer → Option Bytes → ErrOut → World C → Pointer × World C
  unfolding added request_of call_with
  arti_onion_add client req_json err_out w = guard err_out none (
      on_client client (λ w'. (none, (null_client err_out w').1))
        (call_with (request_of req_json) m.onion_add) (added err_out) w)

  unfoldable pub arti_onion_del : Pointer → Option Bytes → ErrOut → World C → CInt × World C
  unfolding call_with
  arti_onion_del client service_id err_out w = guard err_out minus_one (
      on_client client (null_client err_out)
        (call_with (required_str service_id (codes "service id")) m.onion_del) (report err_out) w)

  unfoldable pub arti_next_event : Pointer → CInt → World C → Pointer × World C
  arti_next_event client timeout_ms w = guard no_slot none (
      on_client client null_pointer (m.next_event (at_least_zero timeout_ms))
        (λ ev. json_or_null (Option.bind ev json.encode_event)) w)

  -- The box is taken back, the client shut down and dropped; a panic is passed over.
  released : Pointer → Option C → World C → World C
  released (some a) (some c) w = record w {
    clients = remove a w.clients;
    dropped = (m.shutdown c).1 ∷ w.dropped;
  }
  released _ _ w = w

  unfoldable pub arti_client_free : Pointer → World C → World C
  unfolding released
  arti_client_free client w = released client (as_ref client w) w

unfoldable pub arti_string_free : {C : Type 0} → Pointer → World C → World C
arti_string_free none w = w
arti_string_free (some a) w = record w { strings = remove a w.strings }
