-- ===== src/Onion/Watcher.antt =====
-- `spawn_status_watcher` of rust/arti-ffi/src/onion.rs: the events that a service's status stream
-- is turned into. The method `is_fully_reachable` of the crate tor-hsservice is a parameter.
pub mod Counts
use go_arti.Prelude.{
  ℕ, Bool, true, false, not, ◌&&◌, ◌||◌, Option, none, some, List, [], ◌∷◌, ◌++◌, if◌then◌else◌,
  Text, codes,
}
use go_arti.Channel.{Channel}
use go_arti.Events.{Event, hs_desc, send}

-- `tor_hsservice::status::State`: the two states that the code names, and all the others.
pub data State : Type 0 where
  shutdown broken : State
  working : ℕ → State

-- A status with its current problem, in the form that `{p:?}` writes.
pub record Status : Type 0 where
  pub state : State
  pub current_problem : Option Text

pub record Flags : Type 0 where
  pub announced_upload : Bool
  pub announced_uploaded : Bool

abbrev pub fresh_flags : Flags
fresh_flags = record { announced_upload = false; announced_uploaded = false }

abbrev pub is_shutdown : State → Bool
is_shutdown shutdown = true
is_shutdown _ = false

abbrev pub is_broken : State → Bool
is_broken broken = true
is_broken _ = false

abbrev pub problem_text : Option Text → Text
problem_text none = codes "unknown"
problem_text (some p) = p

abbrev pub when : Bool → Event → List Event
when true ev = ev ∷ []
when false ev = []

module _ (is_fully_reachable : State → Bool) (service_id : Text) where
  abbrev pub upload : Event
  upload = hs_desc (codes "UPLOAD") service_id []

  abbrev pub uploaded : Event
  uploaded = hs_desc (codes "UPLOADED") service_id []

  abbrev pub failed : Option Text → Event
  failed p = hs_desc (codes "FAILED") service_id (problem_text p)

  -- One round of the loop: the announcements, in order, and the flags after it.
  unfoldable pub round : Flags → Status → List Event × Flags
  round f status = if is_shutdown status.state then ([], f) else (
    when (not f.announced_upload) upload
        ++ when (is_fully_reachable status.state && not f.announced_uploaded) uploaded
        ++ when (is_broken status.state) (failed status.current_problem),
    record {
      announced_upload = true;
      announced_uploaded = f.announced_uploaded || is_fully_reachable status.state;
    },
  )

  abbrev send_each : List Event → Channel Event → Channel Event
  send_each [] ch = ch
  send_each (ev ∷ evs) ch = send_each evs (send ev ch)

  -- The loop, until the status stream ends.
  unfoldable pub watch : Flags → List Status → Channel Event → Channel Event
  unfolding round
  watch f [] ch = ch
  watch f (status ∷ rest) ch = let (evs, f') = round f status in watch f' rest (send_each evs ch)

  -- All that is announced, whether or not the queue has room for it.
  unfoldable pub announced : Flags → List Status → List Event
  unfolding round
  announced f [] = []
  announced f (status ∷ rest) = let (evs, f') = round f status in evs ++ announced f' rest
