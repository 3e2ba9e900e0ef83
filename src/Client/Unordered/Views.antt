-- ===== src/Client/Unordered/Views.antt =====
-- What the calls of the interface of rust/arti-ffi/src/client.rs see of the order of a client's
-- table.
use mathlib.Core.Path.{ap₂}
use go_arti.Prelude.{◌≡◌, refl, ap, Bool, Option, List, [], ◌∷◌, Result, ok}
use go_arti.Text.Address.{SocketAddr}
use go_arti.Errors.{Error}
use go_arti.Events.{Event}
use go_arti.Onion.{AddResponse, Crypto}
use go_arti.Onion.Launch.{ServiceCrates}
use go_arti.Client.{Call, Client, start, next_event, onion_add, onion_del}
use go_arti.Client.Calls.{
  ClientCall, starts, polls, shuts_down, switches, adds, deletes, step, run_calls,
}
use go_arti.Client.Unordered.{Same}
use go_arti.Client.Unordered.Rules.{shutdown-Same}
use go_arti.Client.Unordered.Alike.{
  Heedless, start-Agree, next_event-Agree, set_network_enabled-Same, onion_add-Agree,
  onion_del-Agree,
}

-- What a call gives back.
pub data Answer : Type 0 where
  finished : Result Error (Unit {0}) → Answer
  polled : Option Event → Answer
  added : Result Error AddResponse → Answer

module _ (C : Crypto) (S : ServiceCrates C) (bootstrap : List Call → Bool) {Listener : Type 0}
    (bind : SocketAddr → Option Listener) (local_addr : Listener → Option SocketAddr) where
  abbrev pub answer_to : Client S.Pattern → ClientCall → Answer
  answer_to c starts = finished (start bind local_addr c).0
  answer_to c polls = polled (next_event c).0
  answer_to c shuts_down = finished (ok tt)
  answer_to c (switches enabled) = finished (ok tt)
  answer_to c (adds rng random req) = added (onion_add C S bootstrap rng random req c).0
  answer_to c (deletes id) = finished (onion_del id c).0

  unfoldable pub answers : Client S.Pattern → List ClientCall → List Answer
  answers c [] = []
  answers c (call ∷ calls) =
      answer_to c call ∷ answers (step C S bootstrap bind local_addr c call) calls

  step-Same :
      Heedless bootstrap
      → (call : ClientCall) (c c' : Client S.Pattern) → Same c c'
      → (answer_to c call ≡ answer_to c' call)
        × Same
            (step C S bootstrap bind local_addr c call)
            (step C S bootstrap bind local_addr c' call)
  unfolding step
  step-Same heedless starts c c' h =
      let (r, later) = start-Agree bind local_addr c c' h in (ap finished r, later)
  step-Same heedless polls c c' h = let (r, later) = next_event-Agree c c' h in (ap polled r, later)
  step-Same heedless shuts_down c c' h = (refl, shutdown-Same c c' h)
  step-Same heedless (switches enabled) c c' h = (refl, set_network_enabled-Same enabled c c' h)
  step-Same heedless (adds rng random req) c c' h =
      let (r, later) = onion_add-Agree C S bootstrap heedless rng random req c c' h in
      (ap added r, later)
  step-Same heedless (deletes id) c c' h =
      let (r, later) = onion_del-Agree id c c' h in (ap finished r, later)

  -- Two clients whose service tables have each ID once and the same entries, in whatever order, and
  -- which are otherwise alike, answer any sequence of calls with the same answers, and are alike
  -- again afterwards: up to the order of their tables and of their calls about services. What a
  -- bootstrap comes to must not hang on the order of the latter.
  pub order_unobserved :
      Heedless bootstrap
      → (calls : List ClientCall) (c c' : Client S.Pattern) → Same c c'
      → (answers c calls ≡ answers c' calls)
        × Same
            (run_calls C S bootstrap bind local_addr c calls)
            (run_calls C S bootstrap bind local_addr c' calls)
  unfolding answers run_calls
  order_unobserved heedless [] c c' h = (refl, h)
  order_unobserved heedless (call ∷ calls) c c' h =
      let (now, next) = step-Same heedless call c c' h in
      let (rest, end) = order_unobserved heedless calls _ _ next in (ap₂ ◌∷◌ now rest, end)
