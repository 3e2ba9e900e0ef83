-- ===== src/Onion.antt =====
-- Onion services (rust/arti-ffi/src/onion.rs): the requests and responses, and what the service
-- code calls in other crates. The operations are in the modules below.
pub mod Keys
pub mod Slug
pub mod Launch
pub mod Watcher
use go_arti.Prelude.{ℕ, ◌≡◌, Bool, Option, some, List, length, Bytes, Text}
use go_arti.Text.Address.{SocketAddr}

-- One `Port=` mapping of an ADD_ONION request.
pub record PortMap : Type 0 where
  pub virtual_port : ℕ
  pub target : Text

pub record AddRequest : Type 0 where
  pub key_type : Text
  pub key_blob : Text
  pub ports : List PortMap
  pub discard_pk : Bool

pub record AddResponse : Type 0 where
  pub service_id : Text
  pub secret_key : Option Text

-- The crates tor-llcrypto, tor-hscrypto and base64: ed25519 keys in expanded form. `generate` and
-- `expand` stand for `Keypair::generate` on a state of the random number generator and
-- `ExpandedKeypair::from`; `public` and `sign` give bytes; `display_unredacted` shows the onion
-- address of a public key.
pub record Crypto : Type 1 where
  pub Keypair : Type 0
  pub ExpandedKeypair : Type 0
  pub generate : ℕ → Keypair
  pub expand : Keypair → ExpandedKeypair
  pub to_secret_key_bytes : ExpandedKeypair → Bytes
  pub from_secret_key_bytes : Bytes → Option ExpandedKeypair
  pub public : ExpandedKeypair → Bytes
  pub sign : ExpandedKeypair → Bytes → Bytes
  pub encode : Bytes → Text
  pub decode : Text → Option Bytes
  pub display_unredacted : Bytes → Text

-- What those crates document: base64 round trips, and a secret that was exported can be imported,
-- perhaps with another scalar, under the same public key.
pub record IsCrypto (C : Crypto) : Type 0 where
  pub decode-encode : (b : Bytes) → C.decode (C.encode b) ≡ some b
  pub length-secret : (k : C.ExpandedKeypair) → length (C.to_secret_key_bytes k) ≡ 64
  pub length-public : (k : C.ExpandedKeypair) → length (C.public k) ≡ 32
  pub length-sign : (k : C.ExpandedKeypair) (m : Bytes) → length (C.sign k m) ≡ 64
  pub reimport :
      (k : C.ExpandedKeypair)
      → (k' : C.ExpandedKeypair) × (C.from_secret_key_bytes (C.to_secret_key_bytes k) ≡ some k')
        × (C.public k' ≡ C.public k)

-- `ProxyRule`, with `ProxyAction::Forward(Encapsulation::Simple, TargetAddr::Inet(target))`.
pub record ProxyRule (Pattern : Type 0) : Type 0 where
  pub pattern : Pattern
  pub forward_to : SocketAddr

-- A launched service: the running service of the crate tor-hsservice by its number, the proxy by
-- the nickname it serves and its rules, and the background tasks.
pub data Task : Type 0 where
  proxy_loop : Text → Task
  status_watcher : Text → Task

pub record Service (Pattern : Type 0) : Type 0 where
  pub running : ℕ
  pub nickname : Text
  pub rules : List (ProxyRule Pattern)
  pub tasks : List Task
