-- ===== src/Lib.antt =====
-- A model of the Rust library of go-arti (rust/arti-ffi/src), which puts the Tor implementation
-- Arti behind a C interface, and theorems about it.
--
-- The library's parts and the modules that model them, with paths from the repository's root:
-- - Socks: rust/arti-ffi/src/socks.rs. `Socks.Stream` is the byte stream, `Socks.Protocol` the
--   messages (`negotiate_auth`, `read_connect_request`, `reply`), `Socks.Isolation` the table of
--   isolation tokens, `Socks.Serve` a whole connection (`serve_one`) and the accept loop, and
--   `Socks.Serve.Tasks` its connections as tasks that are interleaved;
--   `Socks.Stream.Effects` has rules for what an action reads and writes on any input, and
--   `Socks.Stream.Takes` for the bytes that it has read when it succeeds.
-- - Events: rust/arti-ffi/src/events.rs, over the bounded queue of `Channel`.
-- - Onion: rust/arti-ffi/src/onion.rs. `Onion.Keys` has `keypair_for` and the key functions,
--   `Onion.Launch` has `launch` and the shutdown of a service, `Onion.Slug` the nickname slug,
--   `Onion.Watcher` the loop that turns service statuses into events.
-- - Config: rust/arti-ffi/src/config.rs, over the fields that serde_json reads, with
--   `to_tor_client_config` in `Config.TorConfig`.
-- - Client: rust/arti-ffi/src/client.rs. The record `Client` is the struct; each method is a
--   function from a state to a result and a state. `Client.New` has `new` and its helpers, `Client.Status`
--   `summarize`, `Client.Watcher` the bootstrap watcher, `Client.Calls` any sequence of calls,
--   `Client.Wait` any number of threads in `wait` and in `shutdown`, `Client.Network.Threads` any
--   number of threads in `set_network_enabled`, `Client.Lifecycle.Racing` in `start`,
--   `Client.Workers` in `onion_add`, `onion_del` and `shutdown`, and `Client.Feed` the two watchers
--   and the host on the event queue; `Client.Unordered` has clients whose service tables
--   are in different orders.
-- - Logs: rust/arti-ffi/src/logs.rs, the rendering of a record and the process-wide queue and
--   subscriber.
-- - Ffi: rust/arti-ffi/src/ffi.rs. `Ffi` has the memory and the helpers, `Ffi.Exports` the
--   functions on a client, whose methods are an interface there, and `Ffi.Buffers` those that fill
--   a buffer, and the log functions; `Ffi.Instance` fills the interface with the methods of the
--   `Client` model.
-- - Version: the constants of rust/arti-ffi/src/lib.rs.
-- - Errors: the messages of all files, a constructor for each.
-- - Prelude and Text: shared helpers, and what the code uses of the standard library: HashMap, u16
--   parsing and printing, UTF-8, trimming, IP and socket addresses.
--
-- How the parts interact: a `Client` holds the configuration, the event queue and the onion
-- services. `start` binds the SOCKS listener, `onion_add` enables the network, awaits a bootstrap
-- and launches a service, whose watcher and the bootstrap watcher are the senders of the queue.
--
-- Texts are lists of UTF-8 bytes and numbers are natural numbers; ports and bytes are in range by
-- hypothesis where it matters. Calls into other crates are appended to a list in the order in
-- which they are made, and what they answer is a parameter, with the documented laws that a theorem
-- needs as named hypotheses. Threads are sequences of atomic steps. No loop needs more fuel than
-- the length of its text or the number it prints, which is the fuel that it is given.
--
-- Not modelled: the vendored crate rust/vendor/saturating-time, the Go code, and poisoned locks,
-- which no code under a lock can cause.
pub mod Channel
pub mod Client
pub mod Config
pub mod Errors
pub mod Events
pub mod Ffi
pub mod Logs
pub mod Onion
pub mod Prelude
pub mod Socks
pub mod Tests
pub mod Text
pub mod Version
