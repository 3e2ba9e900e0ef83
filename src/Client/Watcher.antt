-- ===== src/Client/Watcher.antt =====
-- `spawn_bootstrap_watcher` of rust/arti-ffi/src/client.rs: which statuses become events.
use go_arti.Prelude.{
  ℕ, ◌≡◌, refl, ap, ◌∙◌, Bool, true, false, not, List, [], ◌∷◌, arith, ◌==◌, if◌then◌else◌,
}
use go_arti.Channel.{Channel}
use go_arti.Events.{Event, status_client, send}
use go_arti.Events.History.{send_all}
use go_arti.Client.Status.{TorStatus, BootstrapStatus, summarize, summarize_agrees}

abbrev pub event_of : BootstrapStatus → Event
event_of s = status_client s.progress s.tag s.summary

-- One round: a snapshot is sent if its progress differs from the last one.
unfoldable pub round : ℕ → TorStatus → Channel Event → ℕ × Channel Event
round last status ch =
    let snapshot = summarize status in
    if not (snapshot.progress == last)
    then (snapshot.progress, send (event_of snapshot) ch)
    else (last, ch)

-- The loop, until the stream of statuses ends.
unfoldable pub watch : ℕ → List TorStatus → Channel Event → Channel Event
unfolding round
watch last [] ch = ch
watch last (status ∷ rest) ch = let (last', ch') = round last status ch in watch last' rest ch'

-- `u8::MAX`, which no progress is.
abbrev pub initial : ℕ
initial = 255

-- The changes of a sequence: each snapshot whose progress is not that of the one just before it.
unfoldable pub changes : ℕ → List TorStatus → List Event
changes before [] = []
changes before (status ∷ rest) =
    let s = summarize status in
    let later = changes s.progress rest in
    if s.progress == before then later else event_of s ∷ later

pub round_lem :
    (last : ℕ) (status : TorStatus) (ch : Channel Event)
    → let s = summarize status in
      round last status ch ≡ (s.progress, if s.progress == last then ch else send (event_of s) ch)
unfolding round
round_lem last status ch = ground arith

send_changes :
    (b : Bool) (ev : Event) (later : List Event) (ch : Channel Event)
    → send_all later (if b then ch else send ev ch) ≡ send_all (if b then later else ev ∷ later) ch
unfolding send_all
send_changes true ev later ch = refl
send_changes false ev later ch = refl

-- The loop sends exactly the changes of progress, in order, and nothing in between: a snapshot
-- that repeats the progress before it is passed over.
watch-changes :
    (last : ℕ) (statuses : List TorStatus) (ch : Channel Event)
    → watch last statuses ch ≡ send_all (changes last statuses) ch
unfolding watch changes
watch-changes last [] ch = unfold send_all in refl
watch-changes last (status ∷ rest) ch =
    let s = summarize status in
    ap (λ (r : ℕ × Channel Event). watch r.0 rest r.1) (round_lem last status ch)
    ∙ watch-changes s.progress rest (if s.progress == last then ch else send (event_of s) ch)
    ∙ send_changes (s.progress == last) (event_of s) (changes s.progress rest) ch

-- The first status is always sent, since no progress is the value that the loop starts from.
changes_first :
    (status : TorStatus) (rest : List TorStatus)
    → changes initial (status ∷ rest)
      ≡ event_of (summarize status) ∷ changes (summarize status).progress rest
unfolding changes
changes_first status rest = let bound = (summarize_agrees status).0 in ground arith
