-- ===== src/Ffi/Exports/Answers.antt =====
-- What `arti_onion_add` of rust/arti-ffi/src/ffi.rs answers, and what it leaves in the error slot.
use mathlib.Core.Path.{subst}
use go_arti.Prelude.{
  ℕ, ◌≡◌, refl, sym, ap, ◌∙◌, ◌⊎◌, inl, inr, true, Option, none, some, ◌++◌, arith, Bool-cases,
  Result, ok, err, Result-cases, Bytes, Text, codes,
}
use go_arti.Prelude.Keys.{number_key, lookup, lookup-insert}
use go_arti.Ffi.{
  Pointer, World, slot, has_nul, to_c_string, set_err, null_client, Kept, guard-call_at, as_ref,
}
use go_arti.Ffi.Exports.{
  Methods, Json, call_with, labelled, AddRequest, AddResponse, arti_onion_add, added, request_of,
}
use go_arti.Ffi.Exports.Contract.{
  Owns, GaveNul, Argument, has_nul_after, required_str_cases, call_with_cases, set_err-Owns,
  set_err_cases,
}

module _ {C : Type 0} (m : Methods C) (json : Json) where
  -- The argument is this request.
  abbrev pub Requests : Option Bytes → AddRequest → Type 0
  Requests req_json req =
      (text : Text) × Argument req_json text × (json.parse_request text ≡ ok req)

  -- What serde_json says of an argument that is no request; the error of `onion_add`; or what
  -- serde_json says of a response that it cannot encode.
  abbrev pub AddFails : Option Bytes → C → Text → Type 0
  AddFails req_json c e =
      ((text : Text) × Argument req_json text × (json.parse_request text ≡ err e))
      ⊎ ((req : AddRequest) × Requests req_json req × ((m.onion_add req c).0 ≡ some (err e)))
      ⊎ ((req : AddRequest) × (resp : AddResponse) × Requests req_json req
          × ((m.onion_add req c).0 ≡ some (ok resp))
          × (json.encode_response resp ≡ err e))

  -- The response of `onion_add` in JSON.
  abbrev pub AddGives : Option Bytes → C → Text → Type 0
  AddGives req_json c s =
      (req : AddRequest) × (resp : AddResponse) × Requests req_json req
      × ((m.onion_add req c).0 ≡ some (ok resp))
      × (json.encode_response resp ≡ ok s)

  -- A string that the caller owns, which is the response, and an untouched slot; or null and an
  -- owned message in the slot; or null and null in the slot, for an error with a NUL; or null and
  -- an untouched slot, for a response with a NUL.
  abbrev pub Answered : World C → Pointer → Option Bytes → Pointer × World C → Type 0
  Answered w client req_json (p, w') =
      ((c : C) × (s : Text) × (a : ℕ) × (as_ref client w ≡ some c)
        × AddGives req_json c s
        × (p ≡ some a)
        × (lookup a w'.strings ≡ some s)
        × (w'.error_slot ≡ w.error_slot))
      ⊎ ((p ≡ none) × Owns w' w'.error_slot)
      ⊎ ((p ≡ none) × (w'.error_slot ≡ none) × GaveNul w client (AddFails req_json))
      ⊎ ((p ≡ none) × (w'.error_slot ≡ w.error_slot) × GaveNul w client (AddGives req_json))

  request_cases :
      (req_json : Option Bytes)
      → ((req : AddRequest) × (request_of m json req_json ≡ ok req) × Requests req_json req)
        ⊎ ((e : Text) × (request_of m json req_json ≡ err e)
            × (has_nul e ≡ true
                → (e' : Text) × (text : Text) × Argument req_json text
                  × (json.parse_request text ≡ err e')
                  × (has_nul e' ≡ true)))
  unfolding request_of labelled has_nul
  request_cases req_json = elim (required_str_cases req_json (codes "request") refl) [
    | inr (e, refused, no_nul) ↦ inr (e, rw refused refl, λ nul. absurd (ground arith))
    | inl (text, read, arg) ↦ elim (Result-cases (json.parse_request text)) [
      | inl (req, parsed) ↦ inl (req, rw (read, parsed) refl, (text, arg, parsed))
      | inr (e, bad) ↦ inr (
        codes "invalid request: " ++ e,
        rw (read, bad) refl,
        λ nul. (e, text, arg, bad, has_nul_after (codes "invalid request: ") e refl nul),
      )
    ]
  ]

  gives_text :
      (client : Pointer) (req_json : Option Bytes) (w w' : World C) (c : C) (s : Text)
      → as_ref client w ≡ some c
      → AddGives req_json c s
      → w'.error_slot ≡ w.error_slot
      → Answered w client req_json (to_c_string s w')
  unfolding to_c_string
  gives_text client req_json w w' c s here gives kept = elim (Bool-cases (has_nul s)) [
    | inl nul ↦ rw nul (inr (inr (inr (refl, kept, (c, s, here, gives, nul)))))
    | inr no_nul ↦ rw no_nul (
        inl (
          c,
          s,
          w'.next_address,
          here,
          gives,
          refl,
          ground (arith, lookup-insert w'.next_address w'.next_address s w'.strings),
          kept,
        ))
  ]

  -- A message that may be lost, if it is known whose text has the NUL then.
  fails_with :
      (client : Pointer) (req_json : Option Bytes) (w w' : World C) (msg : Text)
      → (has_nul msg ≡ true → GaveNul w client (AddFails req_json))
      → Answered w client req_json (none, set_err slot msg w')
  fails_with client req_json w w' msg blame = elim (set_err_cases msg w') [
    | inl owned ↦ inr (inl (refl, owned))
    | inr (lost, nul) ↦ inr (inr (inl (refl, lost, blame nul)))
  ]

  added-Answered :
      (client : Pointer) (req_json : Option Bytes) (w : World C) (c : C)
      (r : Result Text AddResponse) (w' : World C)
      → as_ref client w ≡ some c
      → (call_with (request_of m json req_json) m.onion_add c).0 ≡ some r
      → Kept w w'
      → Answered w client req_json (added m json slot r w')
  unfolding added labelled has_nul
  added-Answered client req_json w c (err e) w' here h kept =
      fails_with client req_json w w' e (λ nul. elim (request_cases req_json) [
        | inl (req, read, requests) ↦
            elim (call_with_cases (request_of m json req_json) m.onion_add c _ h) [
              | inl (e', refused, same) ↦ absurd (ground arith)
              | inr (req', read', failed) ↦
                  let same : req ≡ req' = ground arith in
                  (
                    c,
                    e,
                    here,
                    inr (inl (req', subst (Requests req_json) same requests, failed)),
                    nul,
                  )
            ]
        | inr (e', refused, whose) ↦
            elim (call_with_cases (request_of m json req_json) m.onion_add c _ h) [
              | inl (e'', refused', same) ↦
                  let same' : e ≡ e' = ground arith in
                  let (msg, text, arg, bad, nul') = whose (ap has_nul (sym same') ∙ nul) in
                  (c, msg, here, inl (text, arg, bad), nul')
              | inr (req', read', failed) ↦ absurd (ground arith)
            ]
      ])
  added-Answered client req_json w c (ok resp) w' here h kept =
      elim (call_with_cases (request_of m json req_json) m.onion_add c _ h) [
        | inl (e', refused, same) ↦ absurd (ground arith)
        | inr (req, read, made) ↦ elim (request_cases req_json) [
          | inr (e', refused, whose) ↦ absurd (ground arith)
          | inl (req', read', requests) ↦
              let same : req' ≡ req = ground arith in
              let asks = subst (Requests req_json) same requests in
              elim (Result-cases (json.encode_response resp)) [
                | inl (s, e) ↦
                    rw (added, e)
                      (gives_text client req_json w w' c s here (req, resp, asks, made, e) kept.0)
                | inr (msg, e) ↦
                    rw (added, e)
                      (fails_with client req_json w w' _ (λ nul. (
                        c,
                        msg,
                        here,
                        inr (inr (req, resp, asks, made, e)),
                        has_nul_after (codes "cannot encode response: ") msg refl nul,
                      )))
              ]
        ]
      ]

  -- `arti_onion_add`, given a slot, returns a string that the caller owns, which is the JSON of the
  -- response of the client behind the handle, and leaves the slot alone; or it returns null and
  -- leaves a message in the slot that the caller owns: also for a null handle, a bad request, and a
  -- panic. The two other cases are texts with a NUL: of an error of the client or of serde_json,
  -- then null is returned, and the slot is null; or of the JSON, then null is returned and the slot
  -- is left alone.
  pub onion_add_answers :
      (client : Pointer) (req_json : Option Bytes) (w : World C)
      → Answered w client req_json (arti_onion_add m json client req_json slot w)
  unfolding arti_onion_add null_client has_nul
  onion_add_answers client req_json w =
      guard-call_at slot none (Answered w client req_json) (λ w'. (none, (null_client slot w').1))
        (call_with (request_of m json req_json) m.onion_add) (added m json slot) client w
        (inr (inl (refl, set_err-Owns _ w refl)))
        (λ w' kept. inr (inl (refl, set_err-Owns _ w' refl))) (added-Answered client req_json w)
