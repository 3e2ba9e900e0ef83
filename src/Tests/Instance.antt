-- ===== src/Tests/Instance.antt =====
-- The C functions over the client's own methods (rust/arti-ffi/src/ffi.rs,
-- rust/arti-ffi/src/client.rs).
use go_arti.Ffi.Instance.Lifetime.{Lived, client_lifetime}
use go_arti.Text.Trim.{trim_end_matches}
use go_arti.Prelude.{ℕ, refl, none, some, [], ◌∷◌, ok, err, codes}
use go_arti.Prelude.Keys.{lookup}
use go_arti.Text.Utf8.{from_utf8}
use go_arti.Errors.{no_ports}
use go_arti.Onion.Keys.{service_id_of}
use go_arti.Client.{Client}
use go_arti.Ffi.{World, slot, nonneg, has_nul, required_str}
use go_arti.Ffi.Exports.{
  Json, arti_client_new, arti_set_network_enabled, arti_network_enabled, arti_client_free,
  arti_onion_add, arti_onion_del, request_of,
}
use go_arti.Ffi.Instance.{Outside, client_methods}
use go_arti.Ffi.Instance.RoundTrip.{Ended, onion_add_del}
use go_arti.Tests.Onion.{toy, toy_services, request, random}
use go_arti.Tests.Client.{new_client, boots, answer, added_client, added_answer, half_way}

abbrev outside : Outside toy toy_services
outside = record {
  set_up = λ text. err no_ports;
  bootstrap = boots;
  entropy = λ calls. (4, random);
  status = λ calls. half_way;
  bound = λ a. none;
  error_text = λ e. codes "error";
  addr_text = λ a. codes "address";
}

abbrev json : Json
json = record {
  parse_request = λ text. ok request;
  encode_response = λ resp. ok resp.service_id;
  encode_status = λ status. none;
  encode_event = λ ev. none;
}

abbrev memory : World (Client ℕ)
memory = record {
  clients = (1, new_client) ∷ [];
  dropped = [];
  strings = [];
  next_address = 2;
  error_slot = none;
}

onion_add_del_example :
    let (p, w1) =
      arti_onion_add (client_methods outside) json (some 1) (some (codes "{}")) slot memory in
    Ended outside json memory 1 new_client
      (service_id_of toy 5)
      (service_id_of toy 5)
      p
      (arti_onion_del (client_methods outside) json (some 1) (some (service_id_of toy 5)) slot w1)
unfolding lookup from_utf8 has_nul service_id_of request_of required_str trim_end_matches
onion_add_del_example =
    onion_add_del outside json memory 1 new_client added_client (codes "{}") request answer
      (service_id_of toy 5) refl refl added_answer refl refl refl

-- A library whose configuration blobs all give the same new client.
abbrev makes : Outside toy toy_services
makes = record outside { set_up = λ text. ok new_client }

client_lifetime_example :
    let opened = arti_client_new (client_methods makes) json (some (codes "{}")) slot memory in
    let told =
      arti_set_network_enabled (client_methods makes) json opened.0 (nonneg 1) slot opened.1 in
    let asked = arti_network_enabled (client_methods makes) json opened.0 told.1 in
    Lived makes json
      (nonneg 1)
      new_client
      memory
      opened.0
      told.0
      asked.0
      (arti_client_free (client_methods makes) json opened.0 asked.1)
unfolding from_utf8 required_str
client_lifetime_example =
    client_lifetime makes json (codes "{}") (codes "{}") new_client (nonneg 1) memory refl refl
