-- ===== src/Ffi/Instance.antt =====
-- The methods behind the C functions of rust/arti-ffi/src/ffi.rs are those of `Client` in
-- rust/arti-ffi/src/client.rs, which none of them makes panic.
pub mod RoundTrip
pub mod Lifetime
use go_arti.Prelude.{ℕ, Bool, Option, some, List, map, Result, ok, err, Bytes, Text}
use mathlib.Core.Option
use go_arti.Text.Address.{SocketAddr}
use go_arti.Errors.{Error}
use go_arti.Onion.{AddRequest, AddResponse, Crypto}
use go_arti.Onion.Launch.{ServiceCrates}
use go_arti.Client.{
  Client, Call, start, set_network_enabled, network_enabled, onion_add, onion_del, next_event,
  shutdown,
}
use go_arti.Client.Status.{TorStatus, summarize}
use go_arti.Ffi.Exports.{Methods}

-- What the methods take from outside: how a new client is set up, the crates, the bootstrap, random
-- numbers and the bootstrap status by what has been called so far, and the texts of messages and
-- addresses.
pub record Outside (C : Crypto) (S : ServiceCrates C) : Type 0 where
  pub set_up : Text → Result Error (Client S.Pattern)
  pub bootstrap : List Call → Bool
  pub entropy : List Call → ℕ × Bytes
  pub status : List Call → TorStatus
  pub bound : SocketAddr → Option SocketAddr
  pub error_text : Error → Text
  pub addr_text : SocketAddr → Text

module _ {C : Crypto} {S : ServiceCrates C} (o : Outside C S) where
  texts : {A : Type 0} → Result Error A → Result Text A
  texts (ok a) = ok a
  texts (err e) = err (o.error_text e)

  added_with :
      ℕ × Bytes → AddRequest → Client S.Pattern → Result Error AddResponse × Client S.Pattern
  added_with (rng, random) req c = onion_add C S o.bootstrap rng random req c

  -- `wait` and `next_event` stand for the moment at which they return.
  unfoldable pub client_methods : Methods (Client S.Pattern)
  unfolding texts added_with
  client_methods = record {
    new = λ text. some (texts (o.set_up text));
    start = λ c. let (r, c') = start o.bound some c in (some (texts r), c');
    wait = λ c. (some tt, c);
    shutdown = λ c. (some tt, shutdown c);
    bootstrap_status = λ c. (some (summarize (o.status c.calls)), c);
    set_network_enabled = λ enabled c. (some (ok tt), set_network_enabled enabled c);
    network_enabled = λ c. (some (network_enabled c), c);
    socks_addr = λ c. (some (Option.map o.addr_text c.socks_addr), c);
    onion_add = λ req c. let (r, c') = added_with (o.entropy c.calls) req c in (some (texts r), c');
    onion_del = λ id c. let (r, c') = onion_del id c in (some (texts r), c');
    next_event = λ timeout c. let (ev, c') = next_event c in (some ev, c');
  }
