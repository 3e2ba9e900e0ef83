-- ===== src/Tests/Client.antt =====
-- A client's calls, over the toy crates of the onion tests (rust/arti-ffi/src/client.rs).
use go_arti.Client.Lifecycle.Binding.{start_binds}
use go_arti.Text.Number.{decimal}
use go_arti.Text.Trim.{trim}
use go_arti.Config.Laws.{socks_port_of-decimal}
use go_arti.Prelude.{
  ℕ, zero, suc, ◌≤◌, ◌<◌, ◌≡◌, refl, sym, Bool, true, false, Option, none, some, List, [], ◌∷◌,
  ◌++◌, arith, ok, err, Text, codes, text_eq, replicate, times, total,
}
use go_arti.Prelude.Keys.{text_key}
use go_arti.Text.Address.{SocketAddr, v4, v6}
use go_arti.Text.Address.Parse.{parse_socket_addr}
use go_arti.Errors.{invalid_bind_address}
use go_arti.Config.{default, fixed}
use go_arti.Onion.{AddResponse}
use go_arti.Onion.Keys.{keypair_for, service_id_of}
use go_arti.Onion.Launch.{launch, prepare, rules_for, rule_for}
use go_arti.Client.{
  called, block_on_bootstrap, soft, normal, set_dormant, spawn_bootstrap, Call, normal, Client,
  swap_enabled, apply_enabled, set_network_enabled, network_enabled, socks_bind_addr, start,
  onion_add,
}
use go_arti.Client.New.{new_client as built}
use go_arti.Client.Calls.{
  ClientCall, starts, switches, adds, deletes, shuts_down, run_calls, run_calls-IsInStep,
}
use go_arti.Client.Network.{IsInStep, dormant_mode, set_network_enabled_race}
use go_arti.Client.Services.Adding.{Added, onion_add-Added}
use go_arti.Client.Network.Threads.{asking, steps}
use go_arti.Client.Network.Threads.OneCall.{steps-once}
use go_arti.Client.Status.{TorStatus, summarize, summarize_agrees}
use go_arti.Tests.Onion.{toy, toy_services, request, random, zeros, service_of_request}

abbrev pub new_client : Client ℕ
new_client = record {
  config = record default { data_directory = codes "/tmp/x" };
  socks_addr = none;
  events = record { items = []; capacity = 256; receiver_alive = true; sender_alive = true };
  services = [];
  net_enabled = false;
  started = false;
  exit = false;
  calls = [];
}

set_network_enabled_race_example :
    let (before, c1) = swap_enabled true new_client in
    let c3 = apply_enabled true before (set_network_enabled false c1) in
    (network_enabled c3 ≡ false)
    × (dormant_mode c3.calls none ≡ some normal)
    × (c3.calls ≡ new_client.calls ++ set_dormant soft ∷ set_dormant normal ∷ spawn_bootstrap ∷ [])
set_network_enabled_race_example = set_network_enabled_race new_client refl

-- A port that is taken.
abbrev pub taken : SocketAddr → Option ℕ
taken a = none

abbrev pub bound : ℕ → Option SocketAddr
bound l = some (v4 (127 ∷ 0 ∷ 0 ∷ 1 ∷ []) 9050)

abbrev id : Text
id = codes "abc"

abbrev serving : Client ℕ
serving = record new_client { services = (id, service_of_request) ∷ [] }

abbrev pub boots : List Call → Bool
boots calls = true

abbrev pub answer : AddResponse
answer = record { service_id = service_id_of toy 5; secret_key = some (5 ∷ zeros 63) }

pub added_client : Client ℕ
added_client = (onion_add toy toy_services boots 4 random request new_client).1

pub added_answer :
    onion_add toy toy_services boots 4 random request new_client ≡ (ok answer, added_client)
unfolding onion_add launch prepare rules_for rule_for parse_socket_addr keypair_for text_eq
    added_client
added_answer = refl

onion_add-Added_example :
    Added toy toy_services boots 4 random request answer new_client
      (called (set_network_enabled true new_client) (block_on_bootstrap ∷ []))
      added_client
    × (true ≡ true)
onion_add-Added_example =
    onion_add-Added toy toy_services boots 4 random request answer new_client added_client
      added_answer

abbrev pub half_way : TorStatus
half_way = record {
  frac_num = 1;
  frac_den = 2;
  ready_for_traffic = false;
  blocked = none;
  text = codes "half";
}

summarize_agrees_example : (summarize half_way).progress ≤ 100
summarize_agrees_example = (summarize_agrees half_way).0

abbrev some_calls : List ClientCall
some_calls = starts ∷ adds 4 random request ∷ switches false ∷ deletes id ∷ shuts_down ∷ []

run_calls-IsInStep_example :
    IsInStep (run_calls toy toy_services boots taken bound (built new_client.config) some_calls)
run_calls-IsInStep_example =
    run_calls-IsInStep toy toy_services boots taken bound new_client.config some_calls

-- Three threads that enable the network, the second swap before the first is acted on.
abbrev turns : List ℕ
turns = 0 ∷ 1 ∷ 1 ∷ 0 ∷ 2 ∷ 2 ∷ []

twice_each : (i : ℕ) → i < 3 → 2 ≤ times i turns
unfolding total
twice_each zero h = omega arith
twice_each (suc zero) h = omega arith
twice_each (suc (suc zero)) h = omega arith
twice_each (suc (suc (suc i))) h = absurd (omega (arith, h))

steps-once_example :
    (steps true (record { client = new_client; threads = replicate 3 asking }) turns).client
    ≡ set_network_enabled true new_client
steps-once_example = steps-once true new_client 3 turns (omega arith) twice_each

-- A client that asks for port 9050, and a system that grants it.
abbrev asks_9050 : Client ℕ
asks_9050 = record new_client { config = record default { socks_port = fixed 9050 } }

abbrev granted : SocketAddr → Option ℕ
granted a = some 1

start_binds_example :
    ((start granted bound asks_9050).0 ≡ ok tt)
    × ((start granted bound asks_9050).1.socks_addr ≡ some (v4 (127 ∷ 0 ∷ 0 ∷ 1 ∷ []) 9050))
start_binds_example =
    start_binds granted bound asks_9050 9050 1 (v4 (127 ∷ 0 ∷ 0 ∷ 1 ∷ []) 9050) (omega arith) refl
      (sym (socks_port_of-decimal 9050 (omega arith))) refl refl refl

-- An IPv6 address wants brackets.
abbrev on_address : Text → Client ℕ
on_address a = record new_client { config = record default { socks_bind_address = a } }

bare_v6_refused :
    (socks_bind_addr (on_address (codes "::1")) ≡ err (invalid_bind_address (codes "::1")))
    × (socks_bind_addr (on_address (codes "[::1]"))
        ≡ ok (some (v6 (0 ∷ 0 ∷ 0 ∷ 0 ∷ 0 ∷ 0 ∷ 0 ∷ 1 ∷ []) 0 0)))
unfolding socks_bind_addr trim parse_socket_addr decimal
bare_v6_refused = (refl, refl)
