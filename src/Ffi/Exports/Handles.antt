-- ===== src/Ffi/Exports/Handles.antt =====
-- Which clients the functions of rust/arti-ffi/src/ffi.rs touch.
use go_arti.Prelude.{
  ℕ, ◌≡◌, refl, ap, ◌∙◌, inl, inr, Option, none, some, List, ◌∷◌, arith, ◌>>=◌, ◌==◌, if◌then◌else◌,
  Option-cases, Result, ok, err, Result-cases, Bytes, Text, codes,
}
use mathlib.Core.Option
use mathlib.Core.Path.{subst}
use go_arti.Prelude.Keys.{number_key, lookup, lookup-insert, lookup-remove}
use go_arti.Onion.{AddRequest, AddResponse}
use go_arti.Ffi.{
  Pointer, CInt, ErrOut, World, nonneg, minus_one, no_slot, slot, required_str, to_c_string,
  set_err, guard, as_ref, store, on_client, returned, null_client, report, json_or_null,
}
use go_arti.Ffi.Exports.{
  Methods, Json, arti_client_start, arti_client_wait, arti_client_shutdown, arti_client_free,
  arti_set_network_enabled, arti_onion_del, arti_onion_add, arti_next_event, call_with, added,
  request_of, at_least_zero, is_nonzero, released, labelled,
}

module _ {C : Type 0} where
  -- The client behind the handle has become `f` of it, if there is one, and every other client is
  -- as it was.
  abbrev pub Touches : Pointer → (C → C) → World C → World C → Type 0
  Touches client f w w' =
      (b : ℕ)
      → lookup b w'.clients ≡ (elim client [
        | none ↦ lookup b w.clients
        | some a ↦ if a == b then Option.map f (lookup a w.clients) else lookup b w.clients
      ])

  abbrev Keeps : {A : Type 0} → (World C → A × World C) → Type 0
  Keeps act = (w : World C) → (act w).1.clients ≡ w.clients

  to_c_string-Keeps : (s : Text) → Keeps (to_c_string s)
  unfolding to_c_string
  to_c_string-Keeps s w = ground arith

  set_err_clients :
      (err_out : ErrOut) (msg : Text) (w : World C) → (set_err err_out msg w).clients ≡ w.clients
  unfolding set_err
  set_err_clients no_slot msg w = refl
  set_err_clients slot msg w = to_c_string-Keeps msg w

  null_client-Keeps : (err_out : ErrOut) → Keeps (null_client err_out)
  unfolding null_client
  null_client-Keeps err_out w = set_err_clients err_out _ w

  report-Keeps : (err_out : ErrOut) (r : Result Text (Unit {0})) → Keeps (report err_out r)
  unfolding report
  report-Keeps err_out (ok _) w = refl
  report-Keeps err_out (err e) w = set_err_clients err_out e w

  json_or_null-Keeps : (o : Option Text) → Keeps (json_or_null o)
  unfolding json_or_null
  json_or_null-Keeps none w = refl
  json_or_null-Keeps (some s) w = to_c_string-Keeps s w

  returned_clients :
      {A B : Type 0} (err_out : ErrOut) (fallback : A) (done : B → World C → A × World C)
      (r : Option B) (w : World C)
      → ((b : B) → Keeps (done b))
      → (guard err_out fallback (returned done r w)).1.clients ≡ w.clients
  unfolding guard returned
  returned_clients err_out fallback done none w keeps = set_err_clients err_out _ w
  returned_clients err_out fallback done (some b) w keeps = keeps b w

  same_client :
      (a b : ℕ) (f : C → C) (m : List (ℕ × C))
      → lookup a m ≡ none
      → lookup b m ≡ (if a == b then Option.map f (lookup a m) else lookup b m)
  same_client a b f m h = ground arith

  -- A function of the interface touches the client behind its handle by its method alone.
  guard-Touches :
      {A B : Type 0} (err_out : ErrOut) (fallback : A) (missing : World C → A × World C)
      (call : C → Option B × C) (done : B → World C → A × World C) (client : Pointer) (w : World C)
      → Keeps missing
      → ((b : B) → Keeps (done b))
      → Touches client
          (λ c. (call c).1)
          w
          (guard err_out fallback (on_client client missing call done w)).1
  unfolding guard on_client as_ref store
  guard-Touches err_out fallback missing call done none w keeps_missing keeps b =
      ap (lookup b) (keeps_missing w)
  guard-Touches err_out fallback missing call done (some a) w keeps_missing keeps b =
      elim (Option-cases (lookup a w.clients)) [
        | inl e ↦ rw (on_client, as_ref, e) (ground (arith, ap (lookup b) (keeps_missing w)))
        | inr (c, e) ↦
            rw (on_client, as_ref, e)
              (ap (lookup b) (
                  returned_clients err_out fallback done (call c).0 (store (some a) (call c).1 w)
                    keeps)
                ∙ lookup-insert a b (call c).1 w.clients)
      ]

module _ {C : Type 0} (m : Methods C) (json : Json) where
  added-Keeps :
      (err_out : ErrOut) (r : Result Text AddResponse) (w : World C)
      → (added m json err_out r w).1.clients ≡ w.clients
  unfolding added
  added-Keeps err_out r w =
      elim (Result-cases
        (r >>= λ resp. labelled (codes "cannot encode response: ") (json.encode_response resp))) [
          | inl (s, e) ↦ rw (added, e) (to_c_string-Keeps s w)
          | inr (msg, e) ↦ rw (added, e) (set_err_clients err_out msg w)
        ]

  -- What `arti_onion_add` and `arti_onion_del` do to the client, by their text argument.
  abbrev pub adds : Result Text AddRequest → C → C
  adds (err e) c = c
  adds (ok req) c = (m.onion_add req c).1

  abbrev pub deletes : Result Text Text → C → C
  deletes (err e) c = c
  deletes (ok id) c = (m.onion_del id c).1

  call_with-adds : (r : Result Text AddRequest) → (λ c. (call_with r m.onion_add c).1) ≡ adds r
  unfolding call_with
  call_with-adds (err e) = refl
  call_with-adds (ok req) = refl

  call_with-deletes : (r : Result Text Text) → (λ c. (call_with r m.onion_del c).1) ≡ deletes r
  unfolding call_with
  call_with-deletes (err e) = refl
  call_with-deletes (ok id) = refl

  module _ (client : Pointer) (err_out : ErrOut) (w : World C) where
    -- Each function on a handle that may change a client does to the one behind it exactly what its
    -- method does, whatever it returns and also where the method panics, and leaves every other
    -- client alone; where an argument is refused, or the handle is null, no client changes at all.
    pub calls_touch_one :
        (enabled timeout_ms : CInt) (req_json service_id : Option Bytes)
        → Touches client (λ c. (m.start c).1) w (arti_client_start m json client err_out w).1
          × Touches client (λ c. (m.wait c).1) w (arti_client_wait m json client w).1
          × Touches client (λ c. (m.shutdown c).1) w (arti_client_shutdown m json client w)
          × Touches client
              (λ c. (m.set_network_enabled (is_nonzero enabled) c).1)
              w
              (arti_set_network_enabled m json client enabled err_out w).1
          × Touches client
              (λ c. (m.next_event (at_least_zero timeout_ms) c).1)
              w
              (arti_next_event m json client timeout_ms w).1
          × Touches client
              (adds (request_of m json req_json))
              w
              (arti_onion_add m json client req_json err_out w).1
          × Touches client
              (deletes (required_str service_id (codes "service id")))
              w
              (arti_onion_del m json client service_id err_out w).1
    unfolding arti_client_start arti_client_wait arti_client_shutdown arti_set_network_enabled
        arti_next_event arti_onion_del arti_onion_add
    calls_touch_one enabled timeout_ms req_json service_id = (
      guard-Touches err_out minus_one (null_client err_out) m.start (report err_out) client w
          (null_client-Keeps err_out) (report-Keeps err_out),
      guard-Touches no_slot minus_one _ m.wait (λ _ w'. (nonneg 0, w')) client w (λ w'. refl)
          (λ v w'. refl),
      guard-Touches no_slot tt _ m.shutdown (λ _ w'. (tt, w')) client w (λ w'. refl) (λ v w'. refl),
      guard-Touches err_out minus_one (null_client err_out)
          (m.set_network_enabled (is_nonzero enabled)) (report err_out) client w
          (null_client-Keeps err_out) (report-Keeps err_out),
      guard-Touches no_slot none _ (m.next_event (at_least_zero timeout_ms)) _ client w (λ w'. refl)
          (λ ev. json_or_null-Keeps (Option.bind ev json.encode_event)),
      subst (λ f. Touches client f w (arti_onion_add m json client req_json err_out w).1)
          (call_with-adds (request_of m json req_json))
          (guard-Touches err_out none (λ w'. (none, (null_client err_out w').1))
            (call_with (request_of m json req_json) m.onion_add) (added m json err_out) client w
            (null_client-Keeps err_out) (added-Keeps err_out)),
      subst (λ f. Touches client f w (arti_onion_del m json client service_id err_out w).1)
          (call_with-deletes (required_str service_id (codes "service id")))
          (guard-Touches err_out minus_one (null_client err_out)
            (call_with (required_str service_id (codes "service id")) m.onion_del) (report err_out)
            client w (null_client-Keeps err_out) (report-Keeps err_out)),
    )

  -- A handle that is freed is gone, its client is shut down before it is dropped, and no other
  -- client changes; a null handle changes nothing.
  pub free_drops :
      (w : World C) (a : ℕ) (c : C)
      → lookup a w.clients ≡ some c
      → let w' = arti_client_free m json (some a) w in
        (w'.dropped ≡ (m.shutdown c).1 ∷ w.dropped)
        × ((b : ℕ) → lookup b w'.clients ≡ (if a == b then none else lookup b w.clients))
        × (w'.strings ≡ w.strings)
        × (w'.error_slot ≡ w.error_slot)
        × (arti_client_free m json none w ≡ w)
  unfolding arti_client_free released as_ref
  free_drops w a c h = rw (h, released) (refl, λ b. lookup-remove a b w.clients, refl, refl, refl)
