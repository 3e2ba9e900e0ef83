-- ===== src/Ffi/Exports/Contract.antt =====
-- What rust/arti-ffi/src/ffi.rs promises to its callers: a failed call leaves its message in the
-- error slot. A message is a C string, so one that has a NUL is lost, and the slot is set to null.
use go_arti.Prelude.{
  ℕ, ◌≡◌, refl, ap, ◌∙◌, ◌⊎◌, inl, inr, true, false, Option, none, some, [], ◌∷◌, ◌++◌, arith,
  Bool-cases, Option-cases, Result, ok, err, Bytes, Text, codes,
}
use mathlib.Core.Path.{subst}
use go_arti.Text.Utf8.{from_utf8}
use go_arti.Prelude.Keys.{number_key, lookup, lookup-insert}
use go_arti.Ffi.{
  Pointer, CInt, World, nonneg, minus_one, slot, has_nul, to_c_string, set_err, guard, on_client,
  null_client, Kept, guard-call_at, report, required_str, as_ref,
}
use go_arti.Ffi.Exports.{
  Methods, Json, arti_client_start, arti_set_network_enabled, arti_onion_del, call_with, is_nonzero,
}

has_nul-append : (s t : Text) → has_nul s ≡ false → has_nul t ≡ false → has_nul (s ++ t) ≡ false
unfolding has_nul
has_nul-append [] t hs ht = ht
has_nul-append (b ∷ s) t hs ht = ground (arith, has_nul-append s t)

pub has_nul_after : (s t : Text) → has_nul s ≡ false → has_nul (s ++ t) ≡ true → has_nul t ≡ true
has_nul_after s t hs h = elim (Bool-cases (has_nul t)) [
  | inl e ↦ e
  | inr e ↦ absurd (ground (arith, has_nul-append s t hs e))
]

-- The argument is there, and is this text.
abbrev pub Argument : Option Bytes → Text → Type 0
Argument arg text = (bytes : Bytes) × (arg ≡ some bytes) × (from_utf8 bytes ≡ some text)

-- An argument that is refused has a message without a NUL.
pub required_str_cases :
    (arg : Option Bytes) (what : Text)
    → has_nul what ≡ false
    → ((text : Text) × (required_str arg what ≡ ok text) × Argument arg text)
      ⊎ ((e : Text) × (required_str arg what ≡ err e) × (has_nul e ≡ false))
unfolding required_str has_nul
required_str_cases none what h = inr (_, refl, has_nul-append what _ h refl)
required_str_cases (some bytes) what h = elim (Option-cases (from_utf8 bytes)) [
  | inl e ↦ inr (
    what ++ codes " must be valid UTF-8",
    rw e refl,
    has_nul-append what (codes " must be valid UTF-8") h refl,
  )
  | inr (text, e) ↦ inl (text, rw e refl, (bytes, refl, e))
]

-- The argument is refused, or the call is made.
pub call_with_cases :
    {A B C : Type 0} (a : Result Text A) (call : A → C → Option (Result Text B) × C) (c : C)
    (r : Result Text B)
    → (call_with a call c).0 ≡ some r
    → ((e : Text) × (a ≡ err e) × (r ≡ err e)) ⊎ ((x : A) × (a ≡ ok x) × ((call x c).0 ≡ some r))
unfolding call_with
call_with_cases (ok x) call c r h = inr (x, refl, h)
call_with_cases (err e) call c r h = inl (e, refl, ground arith)

module _ {C : Type 0} where
  -- A string that the caller owns.
  abbrev pub Owns : World C → Pointer → Type 0
  Owns w p = (a : ℕ) × (s : Text) × (p ≡ some a) × (lookup a w.strings ≡ some s)

  -- The client behind the handle has given a text of this kind, and it has a NUL.
  abbrev pub GaveNul : World C → Pointer → (C → Text → Type 0) → Type 0
  GaveNul w client Gives =
      (c : C) × (text : Text) × (as_ref client w ≡ some c) × Gives c text × (has_nul text ≡ true)

  -- 0 and an untouched slot, and the call on the client has ended well; or -1 and an owned message
  -- in the slot; or -1 and null in the slot, and the call has ended with an error that has a NUL.
  abbrev pub Reported :
      World C → Pointer → (C → Result Text (Unit {0}) → Type 0) → CInt × World C → Type 0
  Reported w client Ends (code, w') =
      ((c : C) × (as_ref client w ≡ some c)
        × Ends c (ok tt)
        × (code ≡ nonneg 0)
        × (w'.error_slot ≡ w.error_slot))
      ⊎ ((code ≡ minus_one) × Owns w' w'.error_slot)
      ⊎ ((code ≡ minus_one) × (w'.error_slot ≡ none) × GaveNul w client (λ c e. Ends c (err e)))

  pub set_err-Owns :
      (msg : Text) (w : World C)
      → has_nul msg ≡ false
      → let w' = set_err slot msg w in Owns w' w'.error_slot
  unfolding set_err to_c_string
  set_err-Owns msg w h = rw h (
    w.next_address,
    msg,
    refl,
    ground (arith, lookup-insert w.next_address w.next_address msg w.strings),
  )

  pub set_err_cases :
      (msg : Text) (w : World C)
      → let w' = set_err slot msg w in
        Owns w' w'.error_slot ⊎ ((w'.error_slot ≡ none) × (has_nul msg ≡ true))
  unfolding set_err to_c_string
  set_err_cases msg w = elim (Bool-cases (has_nul msg)) [
    | inl nul ↦ inr (rw nul refl, nul)
    | inr no_nul ↦ inl (set_err-Owns msg w no_nul)
  ]

  -- A function of the interface that calls a fallible method.
  call-Reported :
      (client : Pointer) (call : C → Option (Result Text (Unit {0})) × C) (w : World C)
      (Ends : C → Result Text (Unit {0}) → Type 0)
      → ((c : C) → (call c).0 ≡ some (ok tt) → Ends c (ok tt))
      → ((c : C) (e : Text) → (call c).0 ≡ some (err e) → has_nul e ≡ true → Ends c (err e))
      → Reported w client Ends
          (guard slot minus_one (on_client client (null_client slot) call (report slot) w))
  unfolding null_client has_nul report
  call-Reported client call w Ends ends fails =
      guard-call_at slot minus_one (Reported w client Ends) (null_client slot) call (report slot)
        client w (inr (inl (refl, set_err-Owns _ w refl)))
        (λ w' kept. inr (inl (refl, set_err-Owns _ w' refl))) done
    where
      done :
          (c : C) (r : Result Text (Unit {0})) (w' : World C)
          → as_ref client w ≡ some c
          → (call c).0 ≡ some r
          → Kept w w'
          → Reported w client Ends (report slot r w')
      done c (ok tt) w' here h kept = inl (c, here, ends c h, refl, kept.0)
      done c (err e) w' here h kept = elim (set_err_cases e w') [
        | inl owned ↦ inr (inl (refl, owned))
        | inr (lost, nul) ↦ inr (inr (refl, lost, (c, e, here, fails c e h nul, nul)))
      ]

module _ {C : Type 0} (m : Methods C) (json : Json) where
  -- `onion_del` of the service that the argument names ends so.
  abbrev pub DelEnds : Option Bytes → C → Result Text (Unit {0}) → Type 0
  DelEnds service_id c r = (id : Text) × Argument service_id id × ((m.onion_del id c).0 ≡ some r)

  -- The call ends so, unless its argument is refused, with a message without a NUL.
  del_ends :
      (service_id : Option Bytes) (c : C) (r : Result Text (Unit {0}))
      → (call_with (required_str service_id (codes "service id")) m.onion_del c).0 ≡ some r
      → DelEnds service_id c r ⊎ ((e : Text) × (r ≡ err e) × (has_nul e ≡ false))
  unfolding has_nul
  del_ends service_id c r h = elim (required_str_cases service_id (codes "service id") refl) [
    | inl (text, read, arg) ↦
        elim (call_with_cases (required_str service_id (codes "service id")) m.onion_del c r h) [
          | inl (e, refused, same) ↦ absurd (ground arith)
          | inr (id, read', ended) ↦
              let same : text ≡ id = ground arith in
              inl (id, subst (Argument service_id) same arg, ended)
        ]
    | inr (e, read, no_nul) ↦
        elim (call_with_cases (required_str service_id (codes "service id")) m.onion_del c r h) [
          | inl (e', refused, same) ↦
              let same' : e' ≡ e = ground arith in inr (e, same ∙ ap err same', no_nul)
          | inr (id, read', ended) ↦ absurd (ground arith)
        ]
  ]

  -- `arti_client_start`, `arti_set_network_enabled` and `arti_onion_del`, given a slot, return 0
  -- and leave the slot alone, and the method has succeeded on the client behind the handle; or they
  -- return -1 and leave a message in the slot that the caller owns: also for a null handle, an
  -- argument that is null or no UTF-8, and a panic. The one other case is that the method has
  -- failed on that client with an error whose text has a NUL: then -1 is returned, and the slot is
  -- null.
  pub status-Reported :
      (client : Pointer) (enabled : CInt) (service_id : Option Bytes) (w : World C)
      → Reported w client (λ c r. (m.start c).0 ≡ some r) (arti_client_start m json client slot w)
        × Reported w client
            (λ c r. (m.set_network_enabled (is_nonzero enabled) c).0 ≡ some r)
            (arti_set_network_enabled m json client enabled slot w)
        × Reported w client (DelEnds service_id) (arti_onion_del m json client service_id slot w)
  unfolding arti_client_start arti_set_network_enabled arti_onion_del
  status-Reported client enabled service_id w = (
    call-Reported client m.start w (λ c r. (m.start c).0 ≡ some r) (λ c h. h) (λ c e h nul. h),
    call-Reported client (m.set_network_enabled (is_nonzero enabled)) w
        (λ c r. (m.set_network_enabled (is_nonzero enabled) c).0 ≡ some r) (λ c h. h)
        (λ c e h nul. h),
    call-Reported client (call_with (required_str service_id (codes "service id")) m.onion_del) w
        (DelEnds service_id)
        (λ c h. elim (del_ends service_id c (ok tt) h) [
          | inl ends ↦ ends
          | inr (e, same, no_nul) ↦ absurd (ground arith)
        ])
        (λ c e h nul. elim (del_ends service_id c (err e) h) [
          | inl ends ↦ ends
          | inr (e', same, no_nul) ↦ absurd (ground arith)
        ]),
  )
