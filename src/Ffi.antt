-- ===== src/Ffi.antt =====
-- The C interface (rust/arti-ffi/src/ffi.rs): memory and the helpers that all exported functions
-- share. Addresses are numbers, and `none` is a null pointer. `World` has the clients and strings
-- that the library has handed out, and the caller's error slot.
pub mod Exports
pub mod Instance
pub mod Buffers
use go_arti.Prelude.{
  ℕ, zero, suc, ◌+◌, ◌-◌, ◌*◌, ◌/◌, ◌%◌, ◌^◌, ◌≤◌, ◌<◌, min, String, ◌≡◌, refl, sym, ap, ◌∙◌, ◌≢◌,
  ◌↔◌, ◌⊎◌, inl, inr, Bool, true, false, not, ◌&&◌, ◌||◌, Option, none, some, List, [], ◌∷◌, ◌++◌,
  map, append-nil, append_assoc, arith, ◌>>=◌, ◌>>◌, ltb, leb, ◌==◌, if◌then◌else◌, within, ltb→lt,
  lt→ltb, leb→le, le→leb, ==_iff, ==_refl, tests, Bool-cases, Option-cases, Result, ok, err,
  or_fail, Result-cases, through, length, take, drop, get_or, length-append, split_at?,
  split_at?-append, split_at?-short, All, Bytes, Text, codes, text_eq, text_eq_sound, text_eq_refl,
  text_eq_iff, modify, get_elem?, replicate, get_elem?-modify, get_elem?-modify-none, each-modify,
  one_at, times, get_elem?-replicate, get_elem?-lt, modify_leaves_fewer, turns_leave_fewer,
  turn_leaves_fewer, total_none, total, total-append, total-modify, le-total,
}
use go_arti.Prelude.Keys.{number_key, lookup, insert, remove}
use go_arti.Text.Utf8.{from_utf8}
use go_arti.Version.{arti_version_c}

abbrev pub Pointer : Type 0
Pointer = Option ℕ

-- What the pointer that it returns points to: static bytes, which are never freed.
abbrev pub arti_version : Bytes
arti_version = arti_version_c

-- A `c_int`.
pub data CInt : Type 0 where
  nonneg negsuc : ℕ → CInt

abbrev pub minus_one : CInt
minus_one = negsuc 0

-- The argument `err_out`: null, or a pointer to the caller's slot.
pub data ErrOut : Type 0 where
  no_slot slot : ErrOut

pub record World (C : Type 0) : Type 0 where
  pub clients : List (ℕ × C)
  -- Those that were released, as they were then.
  pub dropped : List C
  pub strings : List (ℕ × Text)
  -- The allocator's next address.
  pub next_address : ℕ
  pub error_slot : Pointer

unfoldable pub has_nul : Text → Bool
has_nul [] = false
has_nul (b ∷ bs) = b == 0 || has_nul bs

-- `required_str`: the argument is null or the bytes before the terminating NUL.
unfoldable pub required_str : Option Bytes → Text → Result Text Text
required_str none what = err (what ++ codes " must not be null")
required_str (some bytes) what = or_fail (from_utf8 bytes) (what ++ codes " must be valid UTF-8")

module _ {C : Type 0} where
  unfoldable pub to_c_string : Text → World C → Pointer × World C
  unfolding has_nul
  to_c_string s w = if has_nul s then (none, w) else (
    some w.next_address,
    record w { strings = insert w.next_address s w.strings; next_address = w.next_address + 1 },
  )

  -- `Box::into_raw(Box::new(c))`
  unfoldable pub into_raw : C → World C → Pointer × World C
  into_raw c w = (
    some w.next_address,
    record w { clients = insert w.next_address c w.clients; next_address = w.next_address + 1 },
  )

  unfoldable pub set_err : ErrOut → Text → World C → World C
  set_err no_slot msg w = w
  set_err slot msg w = let (p, w') = to_c_string msg w in record w' { error_slot = p }

  -- `guard`: the body's value, or `none` where it has panicked.
  unfoldable pub guard : {A : Type 0} → ErrOut → A → Option A × World C → A × World C
  unfolding set_err
  guard err_out fallback (some v, w) = (v, w)
  guard err_out fallback (none, w) =
      (fallback, set_err err_out (codes "internal error: arti panicked") w)

  -- The client behind a handle. A handle that was freed is outside of the interface's contract.
  unfoldable pub as_ref : Pointer → World C → Option C
  as_ref none w = none
  as_ref (some a) w = lookup a w.clients

  unfoldable pub store : Pointer → C → World C → World C
  store none c w = w
  store (some a) c w = record w { clients = insert a c w.clients }

  -- What is made of the value of a method that can panic.
  unfoldable pub returned :
      {A B : Type 0} → (B → World C → A × World C) → Option B → World C → Option A × World C
  returned done none w = (none, w)
  returned done (some v) w = let (a, w') = done v w in (some a, w')

  -- `client_or!`, then a method.
  unfoldable pub on_client :
      {A B : Type 0}
      → Pointer
      → (World C → A × World C)
      → (C → Option B × C)
      → (B → World C → A × World C)
      → World C
      → Option A × World C
  unfolding as_ref store returned
  on_client client missing call done w = elim (as_ref client w) [
    | none ↦ let (a, w') = missing w in (some a, w')
    | some c ↦ let (r, c') = call c in returned done r (store client c' w)
  ]

  unfoldable pub null_client : ErrOut → World C → CInt × World C
  null_client err_out w = (minus_one, set_err err_out (codes "client must not be null") w)

  -- `Ok(()) => 0`, and an error goes to the slot.
  unfoldable pub report : ErrOut → Result Text (Unit {0}) → World C → CInt × World C
  report err_out (ok _) w = (nonneg 0, w)
  report err_out (err e) w = (minus_one, set_err err_out e w)

  -- A JSON value that is absent or cannot be encoded is a null pointer.
  unfoldable pub json_or_null : Option Text → World C → Pointer × World C
  json_or_null none w = (none, w)
  json_or_null (some s) w = to_c_string s w

  -- What a call leaves alone before its result is handed out.
  abbrev pub Kept : World C → World C → Type 0
  Kept w w' =
      (w'.error_slot ≡ w.error_slot) × (w'.strings ≡ w.strings) × (w'.next_address ≡ w.next_address)

  store_keeps : (client : Pointer) (c : C) (w : World C) → Kept w (store client c w)
  unfolding store
  store_keeps client c w = ground arith

  returned-guard :
      {A B : Type 0} (err_out : ErrOut) (fallback : A) (Q : A × World C → Type 0)
      (done : B → World C → A × World C) (r : Option B) (w : World C)
      → Q (fallback, set_err err_out (codes "internal error: arti panicked") w)
      → ((b : B) → r ≡ some b → Q (done b w))
      → Q (guard err_out fallback (returned done r w))
  unfolding guard returned
  returned-guard err_out fallback Q done none w q_panic q_done = q_panic
  returned-guard err_out fallback Q done (some b) w q_panic q_done = q_done b refl

  -- What holds after a function of the interface: by the handle, and by the method's outcome on the
  -- client behind it.
  pub guard-call_at :
      {A B : Type 0} (err_out : ErrOut) (fallback : A) (Q : A × World C → Type 0)
      (missing : World C → A × World C) (call : C → Option B × C) (done : B → World C → A × World C)
      (client : Pointer) (w : World C)
      → Q (missing w)
      → ((w' : World C)
          → Kept w w'
          → Q (fallback, set_err err_out (codes "internal error: arti panicked") w'))
      → ((c : C) (b : B) (w' : World C)
          → as_ref client w ≡ some c
          → (call c).0 ≡ some b
          → Kept w w'
          → Q (done b w'))
      → Q (guard err_out fallback (on_client client missing call done w))
  unfolding guard on_client
  guard-call_at err_out fallback Q missing call done client w q_missing q_panic q_done =
      elim (Option-cases (as_ref client w)) [
        | inl e ↦ rw (on_client, e) q_missing
        | inr (c, e) ↦
            let w' = store client (call c).1 w in
            rw (on_client, e)
              (returned-guard err_out fallback Q done (call c).0 w'
                (q_panic w' (store_keeps client _ w))
                (λ b h. q_done c b w' e h (store_keeps client _ w)))
      ]

  -- The same for any client.
  pub guard-call :
      {A B : Type 0} (err_out : ErrOut) (fallback : A) (Q : A × World C → Type 0)
      (missing : World C → A × World C) (call : C → Option B × C) (done : B → World C → A × World C)
      (client : Pointer) (w : World C)
      → Q (missing w)
      → ((w' : World C)
          → Kept w w'
          → Q (fallback, set_err err_out (codes "internal error: arti panicked") w'))
      → ((c : C) (b : B) (w' : World C) → (call c).0 ≡ some b → Kept w w' → Q (done b w'))
      → Q (guard err_out fallback (on_client client missing call done w))
  guard-call err_out fallback Q missing call done client w q_missing q_panic q_done =
      guard-call_at err_out fallback Q missing call done client w q_missing q_panic
        (λ c b w' at_handle h kept. q_done c b w' h kept)

  -- A call on a live handle that does not panic.
  pub guard-live :
      {A B : Type 0} (err_out : ErrOut) (fallback : A) (missing : World C → A × World C)
      (call : C → Option B × C) (done : B → World C → A × World C) (a : ℕ) (c c' : C) (v : B)
      (w : World C)
      → lookup a w.clients ≡ some c
      → call c ≡ (some v, c')
      → guard err_out fallback (on_client (some a) missing call done w)
        ≡ done v (record w { clients = insert a c' w.clients })
  unfolding guard on_client as_ref store returned
  guard-live err_out fallback missing call done a c c' v w h k = rw (on_client, as_ref, h) (rw k)
