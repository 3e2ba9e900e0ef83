-- ===== src/Tests/Unordered.antt =====
-- Clients whose tables are in different orders (rust/arti-ffi/src/client.rs), over the toy crates
-- of the onion tests.
use go_arti.Prelude.{
  ℕ, ◌≡◌, refl, Option, none, List, [], ◌∷◌, arith, Text, codes, text_eq, text_eq_iff,
}
use go_arti.Prelude.Keys.{text_key, lookup}
use go_arti.Text.Address.{SocketAddr}
use go_arti.Onion.{Service}
use go_arti.Client.{Client}
use go_arti.Client.Calls.{ClientCall, adds, deletes, shuts_down}
use go_arti.Client.Unordered.{Same}
use go_arti.Client.Unordered.Rules.{SameCalls-refl}
use go_arti.Client.Unordered.Alike.{Heedless}
use go_arti.Client.Unordered.Views.{answers, order_unobserved}
use go_arti.Tests.Onion.{toy, toy_services, request, random, service_of_request}
use go_arti.Tests.Client.{new_client, boots}

abbrev left : Text
left = codes "abc"

abbrev right : Text
right = codes "xyz"

abbrev other_service : Service ℕ
other_service = record service_of_request { nickname = right }

abbrev one_way : Client ℕ
one_way = record new_client { services = (left, service_of_request) ∷ (right, other_service) ∷ [] }

abbrev other_way : Client ℕ
other_way = record new_client {
  services = (right, other_service) ∷ (left, service_of_request) ∷ [];
}

abbrev no_port : SocketAddr → Option ℕ
no_port a = none

abbrev no_address : ℕ → Option SocketAddr
no_address l = none

boots-Heedless : Heedless boots
boots-Heedless xs ys h = refl

both_ways : Same one_way other_way
unfolding lookup text_eq
both_ways = record {
  rest = refl;
  table = (refl, (refl, tt));
  table' = (refl, (refl, tt));
  found = λ id. ground (arith, text_eq_iff left id, text_eq_iff right id);
  made = SameCalls-refl [];
}

abbrev three_calls : List ClientCall
three_calls = adds 4 random request ∷ deletes right ∷ shuts_down ∷ []

order_unobserved_example :
    answers toy toy_services boots no_port no_address one_way three_calls
    ≡ answers toy toy_services boots no_port no_address other_way three_calls
order_unobserved_example =
    (order_unobserved toy toy_services boots no_port no_address boots-Heedless three_calls one_way
      other_way both_ways).0
