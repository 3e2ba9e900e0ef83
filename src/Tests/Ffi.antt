-- ===== src/Tests/Ffi.antt =====
-- The C interface on concrete memory (rust/arti-ffi/src/ffi.rs).
use go_arti.Tests.Onion.{toy, toy-IsCrypto, zeros}
use go_arti.Ffi
use go_arti.Version.{arti_version}
use go_arti.Ffi.Buffers.Contract.{Wrote, buffers_filled}
use go_arti.Ffi.Buffers.{arti_public_key, arti_sign, arti_next_log}
use go_arti.Logs.{Process}
use go_arti.Ffi.Exports.Handles.{Touches, adds, deletes, calls_touch_one}
use go_arti.Prelude.{
  ◌≡◌, refl, Bool, true, false, none, some, [], ◌∷◌, ◌++◌, arith, if◌then◌else◌, ok, err, Text,
  codes,
}
use go_arti.Prelude.Keys.{number_key, lookup}
use go_arti.Ffi.{World, nonneg, negsuc, no_slot, slot, has_nul, required_str}
use go_arti.Ffi.Exports.{
  Methods, Json, arti_client_start, arti_client_wait, arti_client_shutdown,
  arti_set_network_enabled, arti_onion_del, arti_onion_add, arti_bootstrap_status, arti_socks_addr,
  arti_next_event, request_of, is_nonzero, at_least_zero,
}
use go_arti.Ffi.Exports.Contract.{Reported, DelEnds, status-Reported}
use go_arti.Ffi.Exports.Answers.{Answered, onion_add_answers}
use go_arti.Ffi.Exports.Ownership.{IsFresh, Freed, EitherFreed, returned-Freed}

-- A client is whether it was started; adding a service panics.
abbrev methods : Methods Bool
methods = record {
  new = λ text. some (ok false);
  start = λ c. (some (if c then err (codes "client is already started") else ok tt), true);
  wait = λ c. (some tt, c);
  shutdown = λ c. (some tt, false);
  bootstrap_status = λ c. (
    some (record { progress = 0; tag = codes "starting"; summary = []; liveness = codes "down" }),
    c,
  );
  set_network_enabled = λ enabled c. (some (ok tt), c);
  network_enabled = λ c. (some c, c);
  socks_addr = λ c. (some (if c then some (codes "127.0.0.1:9050") else none), c);
  onion_add = λ req c. (none, c);
  onion_del = λ id c. (some (err (codes "no such service")), c);
  next_event = λ timeout c. (some none, c);
}

abbrev json : Json
json = record {
  parse_request = λ text. err (codes "expected value");
  encode_response = λ resp. err (codes "no encoder");
  encode_status = λ status. some status.tag;
  encode_event = λ ev. none;
}

abbrev memory : World Bool
memory = record {
  clients = (1, false) ∷ [];
  dropped = [];
  strings = (2, codes "old") ∷ [];
  next_address = 3;
  error_slot = none;
}

-- No log record waits.
abbrev quiet : Process Text
quiet = record { queue = none; subscriber = none }

memory-IsFresh : IsFresh memory
unfolding lookup
memory-IsFresh j h = ground arith

status-Reported_example :
    Reported memory
      (some 1)
      (λ c r. (methods.start c).0 ≡ some r)
      (arti_client_start methods json (some 1) slot memory)
    × Reported memory
        (some 1)
        (λ c r. (methods.set_network_enabled (is_nonzero (negsuc 4)) c).0 ≡ some r)
        (arti_set_network_enabled methods json (some 1) (negsuc 4) slot memory)
    × Reported memory
        (some 1)
        (DelEnds methods json (some (codes "abc")))
        (arti_onion_del methods json (some 1) (some (codes "abc")) slot memory)
status-Reported_example =
    status-Reported methods json (some 1) (negsuc 4) (some (codes "abc")) memory

onion_add_answers_example :
    Answered methods json memory
      (some 1)
      (some (codes "{}"))
      (arti_onion_add methods json (some 1) (some (codes "{}")) slot memory)
onion_add_answers_example = onion_add_answers methods json (some 1) (some (codes "{}")) memory

returned-Freed_example :
    Freed memory (arti_bootstrap_status methods json (some 1) memory)
    × Freed memory (arti_socks_addr methods json (some 1) memory)
    × Freed memory (arti_next_event methods json (some 1) (nonneg 5) memory)
    × Freed memory
        (let r = arti_next_log (λ r. some r.message) (nonneg 5) quiet memory in (r.0, r.1))
    × Freed memory (arti_onion_add methods json (some 1) none no_slot memory)
    × EitherFreed memory (arti_onion_add methods json (some 1) none slot memory)
returned-Freed_example =
    returned-Freed methods json memory memory-IsFresh (λ r. some r.message) quiet (some 1) none
      (nonneg 5)

calls_touch_one_example :
    Touches
      (some 1)
      (λ c. (methods.start c).1)
      memory
      (arti_client_start methods json (some 1) slot memory).1
    × Touches
        (some 1)
        (λ c. (methods.wait c).1)
        memory
        (arti_client_wait methods json (some 1) memory).1
    × Touches
        (some 1)
        (λ c. (methods.shutdown c).1)
        memory
        (arti_client_shutdown methods json (some 1) memory)
    × Touches
        (some 1)
        (λ c. (methods.set_network_enabled (is_nonzero (nonneg 1)) c).1)
        memory
        (arti_set_network_enabled methods json (some 1) (nonneg 1) slot memory).1
    × Touches
        (some 1)
        (λ c. (methods.next_event (at_least_zero (nonneg 1)) c).1)
        memory
        (arti_next_event methods json (some 1) (nonneg 1) memory).1
    × Touches
        (some 1)
        (adds methods json (request_of methods json none))
        memory
        (arti_onion_add methods json (some 1) none slot memory).1
    × Touches
        (some 1)
        (deletes methods json (required_str none (codes "service id")))
        memory
        (arti_onion_del methods json (some 1) none slot memory).1
calls_touch_one_example =
    calls_touch_one methods json (some 1) slot memory (nonneg 1) (nonneg 1) none none

-- A secret of 64 bytes in a buffer of 65.
buffers_filled_example :
    Wrote toy
      (λ k m. k ∷ zeros 31)
      (some (zeros 64))
      (some [])
      (some (zeros 33))
      (arti_public_key toy (some (zeros 64)) (some (zeros 33)))
    × Wrote toy
        (λ k m. k ∷ zeros 63)
        (some (zeros 64))
        (some (codes "m"))
        (some (zeros 65))
        (arti_sign toy (some (zeros 64)) (some (codes "m")) 1 (some (zeros 65)))
buffers_filled_example =
    buffers_filled toy toy-IsCrypto (some (zeros 64)) (some (codes "m")) 1 (some (zeros 33))
      (some (zeros 65)) (omega arith) (omega arith)

-- The version that callers see is the one that the library names, after `Arti ` and before a NUL.
version_text : Ffi.arti_version ≡ codes "Arti " ++ arti_version ++ 0 ∷ []
version_text = refl
