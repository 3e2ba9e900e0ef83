-- ===== src/Tests/Onion.antt =====
-- Onion services over a toy of the crates that they call (rust/arti-ffi/src/onion.rs).
use go_arti.Onion.Watcher.Counts.{count, only, failures, any_status, announced_counts}
use go_arti.Onion.Watcher.{State, shutdown, broken, working, Status, fresh_flags, announced}
use go_arti.Errors.{no_ports, launch_failed, service_disabled}
use go_arti.Prelude.{
  ℕ, zero, suc, ◌+◌, ◌≡◌, refl, ◌⊎◌, Bool, true, false, Option, none, some, List, [], ◌∷◌, ◌==◌,
  if◌then◌else◌, ok, Bytes, Text, codes, text_eq,
}
use go_arti.Prelude.Keys.{text_key}
use go_arti.Text.Address.{v4}
use go_arti.Text.Address.Parse.{parse_socket_addr}
use go_arti.Text.Number.{hex_byte}
use go_arti.Onion.{PortMap, AddRequest, Crypto, IsCrypto, Service, Task, AddResponse}
use go_arti.Onion.Keys.{keypair_for, service_id_of, keypair_for-generated}
use go_arti.Onion.Slug.{unique_service_slug}
use go_arti.Onion.Launch.{
  ServiceCrates, launched, launch_service, rules_for, rule_for, prepare, launch, nickname_for,
}
use go_arti.Onion.Launch.Laws.{LaunchedFrom, launch-LaunchedFrom, launch_failed_clean}

abbrev pub zeros : ℕ → Bytes
zeros zero = []
zeros (suc n) = 0 ∷ zeros n

abbrev first_byte : Bytes → Option ℕ
first_byte [] = none
first_byte (b ∷ bs) = some b

-- A key is a number, its secret that number and 63 zeros, and base64 is the identity.
abbrev pub toy : Crypto
toy = record {
  Keypair = ℕ;
  ExpandedKeypair = ℕ;
  generate = λ n. n + 1;
  expand = λ n. n;
  to_secret_key_bytes = λ k. k ∷ zeros 63;
  from_secret_key_bytes = first_byte;
  public = λ k. k ∷ zeros 31;
  sign = λ k m. k ∷ zeros 63;
  encode = λ b. b;
  decode = some;
  display_unredacted = λ b. codes "abc.onion";
}

pub toy-IsCrypto : IsCrypto toy
toy-IsCrypto = record {
  decode-encode = λ b. refl;
  length-secret = λ k. refl;
  length-public = λ k. refl;
  length-sign = λ k m. refl;
  reimport = λ k. (k, refl, refl);
}

abbrev pub toy_services : ServiceCrates toy
toy_services = record {
  Pattern = ℕ;
  nickname_ok = λ n. true;
  one_port = λ p. if p == 0 then none else some p;
  proxy_config_ok = λ r. true;
  service_config_ok = λ n. true;
  launch_with_hsid = λ n k. launched k;
}

abbrev pub web : PortMap
web = record { virtual_port = 80; target = codes "127.0.0.1:8080" }

abbrev pub request : AddRequest
request = record {
  key_type = codes "NEW";
  key_blob = codes "BEST";
  ports = web ∷ [];
  discard_pk = false;
}

abbrev pub random : Bytes
random = 1 ∷ 35 ∷ 69 ∷ 103 ∷ 137 ∷ 171 ∷ 205 ∷ 239 ∷ []

slug_of_random : unique_service_slug random ≡ codes "0123456789abcdef"
unfolding unique_service_slug hex_byte
slug_of_random = refl

keypair_for-generated_example :
    (k' : ℕ) × (keypair_for toy 9 (codes "ED25519-V3") (5 ∷ zeros 63) ≡ ok (k', 5 ∷ zeros 63))
    × (service_id_of toy k' ≡ service_id_of toy 5)
    × (toy.public k' ≡ toy.public 5)
unfolding keypair_for text_eq
keypair_for-generated_example =
    keypair_for-generated toy toy-IsCrypto 4 9 (codes "BEST") (5 ∷ zeros 63) 5 refl

abbrev pub service_of_request : Service ℕ
service_of_request = record {
  running = 5;
  nickname = nickname_for random;
  rules = record { pattern = 80; forward_to = v4 (127 ∷ 0 ∷ 0 ∷ 1 ∷ []) 8080 } ∷ [];
  tasks = Task.proxy_loop (nickname_for random) ∷ Task.status_watcher (service_id_of toy 5) ∷ [];
}

launch_of_request :
    (launch toy toy_services 4 random request).0
    ≡ ok (
      record { service_id = service_id_of toy 5; secret_key = some (5 ∷ zeros 63) },
      service_of_request,
    )
unfolding launch prepare rules_for rule_for parse_socket_addr keypair_for text_eq
launch_of_request = refl

launch-LaunchedFrom_example :
    (resp : AddResponse) × (svc : Service ℕ) × LaunchedFrom toy toy_services 4 random request resp
      svc
      (launch toy toy_services 4 random request).1
unfolding launch prepare rules_for rule_for parse_socket_addr keypair_for text_eq
launch-LaunchedFrom_example = (
  record { service_id = service_id_of toy 5; secret_key = some (5 ∷ zeros 63) },
  service_of_request,
  launch-LaunchedFrom toy toy_services 4 random request _ service_of_request _ refl,
)

launch_failed_clean_example :
    ((launch toy toy_services 4 random (record request { ports = [] })).1 ≡ [])
    ⊎ ((no_ports ≡ launch_failed) ⊎ (no_ports ≡ service_disabled))
      × ((n : Text) × ((launch toy toy_services 4 random (record request { ports = [] })).1
            ≡ launch_service n ∷ []))
unfolding launch prepare
launch_failed_clean_example =
    launch_failed_clean toy toy_services 4 random (record request { ports = [] }) no_ports refl

abbrev reachable : State → Bool
reachable (working n) = n == 1
reachable _ = false

abbrev statuses : List Status
statuses =
    record { state = shutdown; current_problem = none }
    ∷ record { state = working 0; current_problem = none }
    ∷ record { state = broken; current_problem = some (codes "x") }
    ∷ record { state = working 1; current_problem = none }
    ∷ record { state = working 1; current_problem = none }
    ∷ []

announced_counts_example :
    let evs = announced reachable (codes "id") fresh_flags statuses in
    (count (codes "UPLOAD") evs ≡ 1)
    × (count (codes "UPLOADED") evs ≡ 1)
    × (only (codes "FAILED") evs ≡ failures reachable (codes "id") statuses)
unfolding any_status
announced_counts_example = announced_counts reachable (codes "id") statuses
