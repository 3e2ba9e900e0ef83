-- ===== src/Ffi/Buffers.antt =====
-- The exported functions of rust/arti-ffi/src/ffi.rs that fill a buffer of the caller, and the log
-- functions. A buffer is what the caller's memory at `out` holds; null is `none`.
-- Nothing in these functions' bodies panics here, so the guard gives the body's value.
pub mod Contract
pub mod Logging
use mathlib.Core.Option
use go_arti.Prelude.{
  ℕ, false, Option, none, some, [], ◌++◌, ◌==◌, if◌then◌else◌, ok, err, length, drop, Bytes, Text,
  codes,
}
use go_arti.Onion.{Crypto}
use go_arti.Onion.Keys.{public_key_of, sign_with_expanded}
use go_arti.Logs.{LogRecord, Process, install, next}
use go_arti.Ffi.{Pointer, CInt, World, nonneg, minus_one, required_str, json_or_null}

-- `copy_nonoverlapping(bytes, out, bytes.len())`
abbrev pub copy_to : Bytes → Bytes → Bytes
copy_to bytes out = bytes ++ drop (length bytes) out

-- The return code, and the buffer after the call.
filled : Option Bytes → Bytes → CInt × Option Bytes
filled none out = (minus_one, some out)
filled (some bytes) out = (nonneg 0, some (copy_to bytes out))

module _ (C : Crypto) where
  unfoldable pub arti_public_key : Option Bytes → Option Bytes → CInt × Option Bytes
  unfolding filled
  arti_public_key none out = (minus_one, out)
  arti_public_key (some secret) none = (minus_one, none)
  arti_public_key (some secret) (some out) = filled (public_key_of C secret) out

  -- A message of length 0 may have a null pointer.
  message_of : Option Bytes → ℕ → Option Bytes
  message_of message message_len = if message_len == 0 then some [] else message

  signed : Bytes → Option Bytes → Bytes → CInt × Option Bytes
  unfolding filled
  signed secret none out = (minus_one, some out)
  signed secret (some message) out = filled (sign_with_expanded C secret message) out

  unfoldable pub arti_sign : Option Bytes → Option Bytes → ℕ → Option Bytes → CInt × Option Bytes
  unfolding signed message_of
  arti_sign none message message_len out = (minus_one, out)
  arti_sign (some secret) message message_len none = (minus_one, none)
  arti_sign (some secret) message message_len (some out) =
      signed secret (message_of message message_len) out

module _ {Filter : Type 0} (try_new : Text → Option Filter) where
  unfoldable pub arti_log_enable : Option Bytes → Process Filter → CInt × Process Filter
  arti_log_enable directives p = elim (required_str directives (codes "log directives")) [
    | err e ↦ (minus_one, p)
    | ok text ↦
        let (installed, p') = install try_new text false p in
        (if installed then nonneg 0 else minus_one, p')
  ]

module _ {C Filter : Type 0} (encode_record : LogRecord → Option Text) where
  unfoldable pub arti_next_log :
      CInt → Process Filter → World C → Pointer × World C × Process Filter
  arti_next_log timeout_ms p w =
      let (r, p') = next p in
      let (s, w') = json_or_null (Option.bind r encode_record) w in (s, w', p')
