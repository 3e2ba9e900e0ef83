-- ===== src/Onion/Watcher/Counts.antt =====
-- How often the watcher of rust/arti-ffi/src/onion.rs announces what.
use mathlib.Core.Path.{ap₂}
use go_arti.Prelude.{
  ℕ, ◌+◌, ◌≡◌, refl, sym, ap, ◌∙◌, ◌⊎◌, inl, inr, Bool, true, false, not, ◌&&◌, ◌||◌, List, [], ◌∷◌,
  ◌++◌, arith, if◌then◌else◌, Bool-cases, Text, codes, text_eq,
}
use go_arti.Channel.{Channel}
use go_arti.Events.{Event, hs_desc, status_client, send}
use go_arti.Events.History.{send_all}
use go_arti.Onion.Watcher.{
  State, Status, Flags, fresh_flags, is_shutdown, is_broken, upload, uploaded, failed, round, watch,
  announced, send_each, when,
}

abbrev pub action : Event → Text
action (hs_desc a s r) = a
action (status_client p t s) = []

-- How many events have an action.
unfoldable pub count : Text → List Event → ℕ
count a [] = 0
count a (ev ∷ evs) = (if text_eq (action ev) a then 1 else 0) + count a evs

-- The events with an action.
pub only : Text → List Event → List Event
only a [] = []
only a (ev ∷ evs) = let rest = only a evs in if text_eq (action ev) a then ev ∷ rest else rest

unfoldable pub any_status : (Status → Bool) → List Status → Bool
any_status p [] = false
any_status p (s ∷ rest) = p s || any_status p rest

abbrev one_if : Bool → ℕ
one_if b = if b then 1 else 0

count-append : (a : Text) (xs ys : List Event) → count a (xs ++ ys) ≡ count a xs + count a ys
unfolding count
count-append a [] ys = omega arith
count-append a (x ∷ xs) ys = omega (arith, count-append a xs ys)

only-append : (a : Text) (xs ys : List Event) → only a (xs ++ ys) ≡ only a xs ++ only a ys
unfolding only
only-append a [] ys = refl
only-append a (x ∷ xs) ys = ground (arith, only-append a xs ys)

module _ (reachable : State → Bool) (id : Text) where
  abbrev is_active : Status → Bool
  is_active s = not (is_shutdown s.state)

  abbrev is_reachable : Status → Bool
  is_reachable s = not (is_shutdown s.state) && reachable s.state

  -- The failure of each broken status, in order.
  pub failures : List Status → List Event
  failures [] = []
  failures (s ∷ rest) =
      let fs = failures rest in
      if is_broken s.state then failed reachable id s.current_problem ∷ fs else fs

  round_uploads :
      (f : Flags) (s : Status)
      → (count (codes "UPLOAD") (round reachable id f s).0
          ≡ one_if (not f.announced_upload && is_active s))
        × ((round reachable id f s).1.announced_upload ≡ (f.announced_upload || is_active s))
  unfolding round count text_eq
  round_uploads f s = (ground arith, ground arith)

  round_uploaded :
      (f : Flags) (s : Status)
      → (count (codes "UPLOADED") (round reachable id f s).0
          ≡ one_if (not f.announced_uploaded && is_reachable s))
        × ((round reachable id f s).1.announced_uploaded ≡ (f.announced_uploaded || is_reachable s))
  unfolding round count text_eq
  round_uploaded f s = (ground arith, ground arith)

  round-failures :
      (f : Flags) (s : Status)
      → only (codes "FAILED") (round reachable id f s).0 ≡ failures (s ∷ [])
  unfolding round only failures text_eq
  round-failures f s = ground arith

  count_uploads :
      (f : Flags) (ss : List Status)
      → count (codes "UPLOAD") (announced reachable id f ss)
        ≡ one_if (not f.announced_upload && any_status is_active ss)
  unfolding announced any_status
  count_uploads f [] = unfold count in ground arith
  count_uploads f (s ∷ rest) =
      let (evs, f') = round reachable id f s in
      ground (
        arith,
        count-append (codes "UPLOAD") evs (announced reachable id f' rest),
        round_uploads f s,
        count_uploads f' rest,
      )

  count_uploaded :
      (f : Flags) (ss : List Status)
      → count (codes "UPLOADED") (announced reachable id f ss)
        ≡ one_if (not f.announced_uploaded && any_status is_reachable ss)
  unfolding announced any_status
  count_uploaded f [] = unfold count in ground arith
  count_uploaded f (s ∷ rest) =
      let (evs, f') = round reachable id f s in
      ground (
        arith,
        count-append (codes "UPLOADED") evs (announced reachable id f' rest),
        round_uploaded f s,
        count_uploaded f' rest,
      )

  failures-cons :
      (s : Status) (rest : List Status) → failures (s ∷ rest) ≡ failures (s ∷ []) ++ failures rest
  unfolding failures
  failures-cons s rest = ground arith

  only_failed :
      (f : Flags) (ss : List Status)
      → only (codes "FAILED") (announced reachable id f ss) ≡ failures ss
  unfolding announced
  only_failed f [] = unfold only failures in refl
  only_failed f (s ∷ rest) =
      let (evs, f') = round reachable id f s in
      only-append (codes "FAILED") evs (announced reachable id f' rest)
      ∙ ap₂ ◌++◌ (round-failures f s) (only_failed f' rest)
      ∙ sym (failures-cons s rest)

  -- Whatever the statuses of a service, UPLOAD is announced once if any of them is not a shutdown,
  -- UPLOADED once if any is fully reachable, both at most once, and FAILED exactly for the broken
  -- ones, in order and with their problems.
  pub announced_counts :
      (ss : List Status)
      → let evs = announced reachable id fresh_flags ss in
        (count (codes "UPLOAD") evs ≡ one_if (any_status is_active ss))
        × (count (codes "UPLOADED") evs ≡ one_if (any_status is_reachable ss))
        × (only (codes "FAILED") evs ≡ failures ss)
  announced_counts ss =
      (count_uploads fresh_flags ss, count_uploaded fresh_flags ss, only_failed fresh_flags ss)

  abbrev others : Status → List Event
  others s =
      when (reachable s.state && true) (uploaded reachable id)
      ++ when (is_broken s.state) (failed reachable id s.current_problem)

  round_down :
      (f : Flags) (s : Status) → is_shutdown s.state ≡ true → round reachable id f s ≡ ([], f)
  unfolding round
  round_down f s h = rw h

  round_first :
      (s : Status)
      → is_shutdown s.state ≡ false
      → (round reachable id fresh_flags s).0 ≡ upload reachable id ∷ others s
  unfolding round
  round_first s h = rw h

  -- Nothing is announced, or UPLOAD comes before every other announcement.
  announced_first :
      (ss : List Status)
      → (announced reachable id fresh_flags ss ≡ [])
        ⊎ ((evs : List Event) × (announced reachable id fresh_flags ss ≡ upload reachable id ∷ evs))
  unfolding announced
  announced_first [] = inl refl
  announced_first (s ∷ rest) = elim (Bool-cases (is_shutdown s.state)) [
    | inl down ↦ rw (round_down fresh_flags s down) (announced_first rest)
    | inr up ↦
        let after = announced reachable id (round reachable id fresh_flags s).1 rest in
        inr (others s ++ after, ap (λ evs. evs ++ after) (round_first s up))
  ]

  send_each-send_all :
      (evs : List Event) (ch : Channel Event) → send_each reachable id evs ch ≡ send_all evs ch
  unfolding send_all
  send_each-send_all [] ch = refl
  send_each-send_all (ev ∷ evs) ch = send_each-send_all evs (send ev ch)

  send_all-append :
      (xs ys : List Event) (ch : Channel Event)
      → send_all (xs ++ ys) ch ≡ send_all ys (send_all xs ch)
  unfolding send_all
  send_all-append [] ys ch = refl
  send_all-append (x ∷ xs) ys ch = send_all-append xs ys (send x ch)

  -- The loop sends exactly the announcements, one after the other, and does nothing else.
  watch-announced :
      (f : Flags) (ss : List Status) (ch : Channel Event)
      → watch reachable id f ss ch ≡ send_all (announced reachable id f ss) ch
  unfolding watch announced
  watch-announced f [] ch = unfold send_all in refl
  watch-announced f (s ∷ rest) ch =
      let (evs, f') = round reachable id f s in
      watch-announced f' rest (send_each reachable id evs ch)
      ∙ ap (send_all (announced reachable id f' rest)) (send_each-send_all evs ch)
      ∙ sym (send_all-append evs (announced reachable id f' rest) ch)
