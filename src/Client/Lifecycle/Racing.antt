-- ===== src/Client/Lifecycle/Racing.antt =====
-- Threads that call `start` of rust/arti-ffi/src/client.rs at once: the swap of the flag is one
-- step, and what the thread that found it unset does is another.
pub mod Moves
pub mod Once
use go_arti.Prelude.{
  ℕ, zero, suc, ◌+◌, ◌-◌, ◌*◌, ◌/◌, ◌%◌, ◌^◌, ◌≤◌, ◌<◌, min, String, ◌≡◌, refl, sym, ap, ◌∙◌, ◌≢◌,
  ◌↔◌, ◌⊎◌, inl, inr, Bool, true, false, not, ◌&&◌, ◌||◌, Option, none, some, List, [], ◌∷◌, ◌++◌,
  map, append-nil, append_assoc, arith, ◌>>=◌, ◌>>◌, ltb, leb, ◌==◌, if◌then◌else◌, within, ltb→lt,
  lt→ltb, leb→le, le→leb, ==_iff, ==_refl, tests, Bool-cases, Option-cases, Result, ok, err,
  or_fail, Result-cases, through, length, take, drop, get_or, length-append, split_at?,
  split_at?-append, split_at?-short, All, Bytes, Text, codes, text_eq, text_eq_sound, text_eq_refl,
  text_eq_iff, modify, get_elem?, replicate, get_elem?-modify, get_elem?-modify-none, each-modify,
  one_at, times, modify_leaves_fewer, total, total-append, total-modify, le-total,
}
use go_arti.Text.Address.{SocketAddr}
use go_arti.Errors.{Error, already_started}
use go_arti.Client.{Client, start, start_at, socks_bind_addr}
use go_arti.Client.Lifecycle.{start-started}

-- A thread before the swap; one that found the flag unset; and one with its answer.
pub data Starter : Type 0 where
  asking passed : Starter
  answered : (r : Result Error (Unit {0})) → Starter

pub record Starters (P : Type 0) : Type 0 where
  pub client : Client P
  pub threads : List Starter

-- The swap gives the value that was there.
passes : Bool → Starter
passes true = answered (err already_started)
passes false = passed

module _ {P Listener : Type 0} (bind : SocketAddr → Option Listener)
    (local_addr : Listener → Option SocketAddr) where
  unfoldable pub start_step : Starter → Client P → Starter × Client P
  unfolding passes start_at
  start_step asking c = (passes c.started, record c { started = true })
  start_step passed c =
      let (r, c') = start_at bind local_addr (socks_bind_addr c) c in (answered r, c')
  start_step (answered r) c = (answered r, c)

  step_by : ℕ → Option Starter → Starters P → Starters P
  step_by i none s = s
  step_by i (some t) s =
      let (t', c') = start_step t s.client in
      record { client = c'; threads = modify i (λ _. t') s.threads }

  -- The thread of number `i` moves.
  unfoldable pub step : Starters P → ℕ → Starters P
  unfolding step_by
  step s i = step_by i (get_elem? s.threads i) s

  unfoldable pub steps : Starters P → List ℕ → Starters P
  steps s [] = s
  steps s (i ∷ is) = steps (step s i) is
