-- ===== src/Ffi/Exports/Ownership.antt =====
-- Who owns the strings that the functions of rust/arti-ffi/src/ffi.rs return: each is released by
-- one `arti_string_free`, and the library keeps none.
use mathlib.Core.Option
use go_arti.Prelude.{
  ℕ, ◌≤◌, ◌≡◌, refl, ap, ◌⊎◌, inl, inr, Option, none, some, arith, Result, ok, err, Result-cases,
  Bytes, Text,
}
use go_arti.Prelude.Keys.{number_key, lookup, insert, lookup-insert, lookup-remove}
use go_arti.Onion.{AddResponse}
use go_arti.Ffi.{
  Pointer, CInt, World, no_slot, slot, to_c_string, set_err, guard, null_client, on_client, Kept,
  guard-call, json_or_null,
}
use go_arti.Logs
use go_arti.Logs.{LogRecord, Process}
use go_arti.Ffi.Buffers.{arti_next_log}
use go_arti.Ffi.Exports.{
  Methods, Json, arti_onion_add, arti_bootstrap_status, arti_socks_addr, arti_next_event,
  arti_string_free, call_with, labelled, added, request_of, at_least_zero,
}

module _ {C : Type 0} where
  -- The allocator gives out no address that is in use.
  abbrev pub IsFresh : World C → Type 0
  IsFresh w = (j : ℕ) → w.next_address ≤ j → lookup j w.strings ≡ none

  -- Once what was returned is freed, the strings are those from before the call.
  abbrev pub Freed : World C → Pointer × World C → Type 0
  Freed w (p, w') = (j : ℕ) → lookup j (arti_string_free p w').strings ≡ lookup j w.strings

  to_c_string-Freed :
      (s : Text) (w w' : World C) → IsFresh w → Kept w w' → Freed w (to_c_string s w')
  unfolding to_c_string arti_string_free
  to_c_string-Freed s w w' fresh kept j = ground (
    arith,
    fresh j,
    lookup-insert w'.next_address j s w'.strings,
    lookup-remove w'.next_address j (insert w'.next_address s w'.strings),
  )

  none-Freed : (w w' : World C) → Kept w w' → Freed w (none, w')
  unfolding arti_string_free
  none-Freed w w' kept j = ap (lookup j) kept.1

  json_or_null-Freed :
      (o : Option Text) (w w' : World C) → IsFresh w → Kept w w' → Freed w (json_or_null o w')
  unfolding json_or_null
  json_or_null-Freed none w w' fresh kept = none-Freed w w' kept
  json_or_null-Freed (some s) w w' fresh kept = to_c_string-Freed s w w' fresh kept

  -- Once the string that was returned is freed, or, where null was returned, the message in the
  -- slot, the strings are those from before the call.
  abbrev pub EitherFreed : World C → Pointer × World C → Type 0
  EitherFreed w (p, w') = Freed w (p, w') ⊎ ((p ≡ none) × Freed w (w'.error_slot, w'))

  set_err-Freed :
      (msg : Text) (w w' : World C)
      → IsFresh w
      → Kept w w'
      → let e = set_err slot msg w' in Freed w (e.error_slot, e)
  unfolding set_err to_c_string arti_string_free
  set_err-Freed msg w w' fresh kept j = ground (
    arith,
    fresh j,
    lookup-insert w'.next_address j msg w'.strings,
    lookup-remove w'.next_address j (insert w'.next_address msg w'.strings),
  )

  -- A function that returns a string or null, and reports no error.
  guard-Freed :
      {B : Type 0} (call : C → Option B × C) (done : B → World C → Pointer × World C)
      (client : Pointer) (w : World C)
      → ((b : B) (w' : World C) → Kept w w' → Freed w (done b w'))
      → Freed w (guard no_slot none (on_client client (λ w'. (none, w')) call done w))
  unfolding set_err
  guard-Freed call done client w freed =
      guard-call no_slot none (Freed w) (λ w'. (none, w')) call done client w
        (none-Freed w w (refl, refl, refl)) (λ w' kept. none-Freed w w' kept)
        (λ c b w' e kept. freed b w' kept)

module _ {C : Type 0} (m : Methods C) (json : Json) where
  added-Freed :
      (r : Result Text AddResponse) (w w' : World C)
      → IsFresh w
      → Kept w w'
      → Freed w (added m json no_slot r w')
  unfolding added labelled set_err
  added-Freed (err e) w w' fresh kept = none-Freed w w' kept
  added-Freed (ok resp) w w' fresh kept = elim (Result-cases (json.encode_response resp)) [
    | inl (s, e) ↦ rw (added, e) (to_c_string-Freed s w w' fresh kept)
    | inr (msg, e) ↦ rw (added, e) (none-Freed w w' kept)
  ]

  added-EitherFreed :
      (r : Result Text AddResponse) (w w' : World C)
      → IsFresh w
      → Kept w w'
      → EitherFreed w (added m json slot r w')
  unfolding added labelled
  added-EitherFreed (err e) w w' fresh kept = inr (refl, set_err-Freed e w w' fresh kept)
  added-EitherFreed (ok resp) w w' fresh kept = elim (Result-cases (json.encode_response resp)) [
    | inl (s, e) ↦ rw (added, e) (inl (to_c_string-Freed s w w' fresh kept))
    | inr (msg, e) ↦ rw (added, e) (inr (refl, set_err-Freed _ w w' fresh kept))
  ]

  -- When no address in use is given out again: freeing what `arti_bootstrap_status`,
  -- `arti_socks_addr`, `arti_next_event`, `arti_next_log`, or `arti_onion_add` without an error
  -- slot has returned, a string or null, leaves exactly the strings from before the call. After
  -- `arti_onion_add` with a slot, freeing the string that was returned does, or null was returned,
  -- and freeing the message in the slot does.
  pub returned-Freed :
      (w : World C)
      → IsFresh w
      → {Filter : Type 0} (encode_record : LogRecord → Option Text) (p : Process Filter)
        (client : Pointer) (req_json : Option Bytes) (timeout_ms : CInt)
      → Freed w (arti_bootstrap_status m json client w)
        × Freed w (arti_socks_addr m json client w)
        × Freed w (arti_next_event m json client timeout_ms w)
        × Freed w (let r = arti_next_log encode_record timeout_ms p w in (r.0, r.1))
        × Freed w (arti_onion_add m json client req_json no_slot w)
        × EitherFreed w (arti_onion_add m json client req_json slot w)
  unfolding arti_next_log arti_bootstrap_status arti_socks_addr arti_next_event arti_onion_add
      null_client set_err
  returned-Freed w fresh encode_record p client req_json timeout_ms = (
    guard-Freed m.bootstrap_status (λ s. json_or_null (json.encode_status s)) client w
        (λ s w'. json_or_null-Freed (json.encode_status s) w w' fresh),
    guard-Freed m.socks_addr json_or_null client w (λ o w'. json_or_null-Freed o w w' fresh),
    guard-Freed (m.next_event (at_least_zero timeout_ms))
        (λ ev. json_or_null (Option.bind ev json.encode_event)) client w
        (λ ev w'. json_or_null-Freed (Option.bind ev json.encode_event) w w' fresh),
    json_or_null-Freed (Option.bind (Logs.next p).0 encode_record) w w fresh (refl, refl, refl),
    guard-Freed (call_with (request_of m json req_json) m.onion_add) (added m json no_slot) client w
        (λ r w'. added-Freed r w w' fresh),
    guard-call slot none (EitherFreed w) (λ w'. (none, (null_client slot w').1))
        (call_with (request_of m json req_json) m.onion_add) (added m json slot) client w
        (inr (refl, set_err-Freed _ w w fresh (refl, refl, refl)))
        (λ w' kept. inr (refl, set_err-Freed _ w w' fresh kept))
        (λ c r w' e kept. added-EitherFreed r w w' fresh kept),
  )
