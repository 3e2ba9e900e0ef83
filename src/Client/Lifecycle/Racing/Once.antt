-- ===== src/Client/Lifecycle/Racing/Once.antt =====
-- However many threads call `start` of rust/arti-ffi/src/client.rs at once, one of them starts the
-- client.
use mathlib.Core.Path.{ap₂}
use go_arti.Prelude.{
  ℕ, ◌≤◌, ◌<◌, ◌≡◌, refl, ap, ◌∙◌, ◌≢◌, ◌⊎◌, inl, inr, true, false, Option, none, some, List, [],
  ◌∷◌, arith, ◌==◌, ==_iff, ==_refl, Bool-cases, Result, err, get_elem?, get_elem?-modify,
  each-modify, times,
}
use go_arti.Text.Address.{SocketAddr}
use go_arti.Errors.{already_started}
use go_arti.Client.{Client, start, start_at, socks_bind_addr, Error}
use go_arti.Client.Lifecycle.{start-started}
use go_arti.Client.Lifecycle.Racing.Moves.{at_first, only_asking, moved_twice, is_thread}
use go_arti.Client.Lifecycle.Racing.{
  Starter, asking, passed, answered, Starters, passes, start_step, step_by, steps, step,
}

module _ {P Listener : Type 0} (bind : SocketAddr → Option Listener)
    (local_addr : Listener → Option SocketAddr) (c : Client P) (fresh : c.started ≡ false) where
  abbrev moved : Starter → Client P → Starter × Client P
  moved = start_step bind local_addr

  abbrev moved_by : ℕ → Option Starter → Starters P → Starters P
  moved_by = step_by bind local_addr

  abbrev Loser : Starter → Type 0
  Loser t = (t ≡ asking) ⊎ (t ≡ answered (err already_started))

  abbrev Losers : ℕ → List Starter → Type 0
  Losers w ts = (j : ℕ) (t : Starter) → j ≢ w → get_elem? ts j ≡ some t → Loser t

  -- One thread was first and is at `x`, and the client is `d`.
  record Won (w : ℕ) (x : Starter) (d : Client P) (s : Starters P) : Type 0 where
    client_is : s.client ≡ d
    started : d.started ≡ true
    winner : get_elem? s.threads w ≡ some x
    losers : Losers w s.threads

  -- No thread has moved; one was first, and has to go on; or it has its answer.
  data Phase (s : Starters P) : Type 0 where
    untouched :
        s.client ≡ c
        → ((j : ℕ) (t : Starter) → get_elem? s.threads j ≡ some t → t ≡ asking)
        → Phase s
    claimed : (w : ℕ) → Won w passed (record c { started = true }) s → Phase s
    done :
        (w : ℕ)
        → Won w (answered (start bind local_addr c).0) (start bind local_addr c).1 s
        → Phase s

  -- What the first one goes on with.
  start_at-start :
      start_at bind local_addr (socks_bind_addr c) (record c { started = true })
      ≡ start bind local_addr c
  unfolding start
  start_at-start = rw fresh

  Loser-step :
      (t : Starter) (d : Client P)
      → d.started ≡ true
      → Loser t
      → ((moved t d).1 ≡ d) × Loser (moved t d).0
  unfolding start_step
  Loser-step t d h (inl e) = rw (e, start_step) (rw (← h), inr (ap passes h))
  Loser-step t d h (inr e) = rw (e, start_step) (refl, inr refl)

  -- Another thread than the first one moves.
  Loser-Won :
      (w : ℕ) (x : Starter) (d : Client P) (s : Starters P) (i : ℕ) (t : Starter)
      → Won w x d s
      → (i == w) ≡ false
      → get_elem? s.threads i ≡ some t
      → Won w x d (moved_by i (some t) s)
  unfolding step_by
  Loser-Won w x d s i t h n g =
      let lost = h.losers i t (λ e. ground (arith, e, n, ==_iff i w)) g in
      let (same, loser) =
        Loser-step t s.client (ap (λ e. e.started) h.client_is ∙ h.started) lost in
      record {
        client_is = same ∙ h.client_is;
        started = h.started;
        winner =
            get_elem?-modify (λ _. (moved t s.client).0) s.threads w i x h.winner
            ∙ ground (arith, n, ==_iff i w, ==_iff w i);
        losers = λ j u m e.
            each-modify (λ k v. k ≢ w → Loser v) s.threads i (moved t s.client).0
              (λ k v _ found k_w. h.losers k v k_w found) (λ _. loser) j u e m;
      }

  -- The first one moves.
  Winner-Won :
      (w i : ℕ) (x x' t : Starter) (d d' : Client P) (s : Starters P)
      → moved x d ≡ (x', d')
      → d'.started ≡ true
      → Won w x d s
      → (i == w) ≡ true
      → get_elem? s.threads i ≡ some t
      → Won w x' d' (moved_by i (some t) s)
  unfolding step_by
  Winner-Won w i x x' t d d' s goes flag h same g =
      let i_w : i ≡ w = (==_iff i w).0 same in
      let t_x : t ≡ x = ground (arith, g, h.winner, i_w) in
      let went : moved t s.client ≡ (x', d') = ap₂ moved t_x h.client_is ∙ goes in
      record {
        client_is = ap (λ m. m.1) went;
        started = flag;
        winner =
            get_elem?-modify (λ _. (moved t s.client).0) s.threads w i x h.winner
            ∙ ground (arith, i_w, ==_refl w, ap (λ m. m.0) went);
        losers = λ j u n found.
            each-modify (λ k v. k ≢ w → Loser v) s.threads i (moved t s.client).0
              (λ k v _ there k_w. h.losers k v k_w there) (λ i_not_w. absurd (i_not_w i_w)) j u
              found n;
      }

  step_by-Phase :
      (i : ℕ) (o : Option Starter) (s : Starters P)
      → get_elem? s.threads i ≡ o
      → Phase s
      → Phase (moved_by i o s)
  unfolding step_by start_step passes socks_bind_addr
  step_by-Phase i none s g h = h
  step_by-Phase i (some t) s g (untouched e all) =
      let goes : moved t s.client ≡ (passed, record c { started = true }) =
        ap₂ moved (all i t g) e ∙ ap (λ b. (passes b, record c { started = true })) fresh in
      claimed i (record {
        client_is = ap (λ m. m.1) goes;
        started = refl;
        winner =
            get_elem?-modify (λ _. (moved t s.client).0) s.threads i i t g
            ∙ ground (arith, ==_refl i, ap (λ m. m.0) goes);
        losers = λ j u n found.
            each-modify (λ k v. k ≢ i → Loser v) s.threads i (moved t s.client).0
              (λ k v _ there _. inl (all k v there)) (λ n. absurd (n refl)) j u found n;
      })
  step_by-Phase i (some t) s g (claimed w h) = elim (Bool-cases (i == w)) [
    | inl same ↦ done w (
        Winner-Won w i passed _ t _ _ s (ap (λ m. (answered m.0, m.1)) start_at-start)
          (start-started bind local_addr c) h same g)
    | inr other ↦ claimed w (Loser-Won w passed _ s i t h other g)
  ]
  step_by-Phase i (some t) s g (done w h) = elim (Bool-cases (i == w)) [
    | inl same ↦ done w (Winner-Won w i _ _ t _ _ s refl h.started h same g)
    | inr other ↦ done w (Loser-Won w _ _ s i t h other g)
  ]

  steps-Phase : (is : List ℕ) (s : Starters P) → Phase s → Phase (steps bind local_addr s is)
  unfolding steps step
  steps-Phase [] s h = h
  steps-Phase (i ∷ is) s h =
      steps-Phase is (step bind local_addr s i) (step_by-Phase i (get_elem? s.threads i) s refl h)

  -- One or more threads that call `start` of a client that was not started, on any schedule that
  -- lets each of them move twice: the client is then what one call alone makes of it; one thread
  -- has the answer of that call, and every other one is told that the client is already started.
  pub starts_once :
      (n : ℕ) (is : List ℕ)
      → 0 < n
      → ((i : ℕ) → i < n → 2 ≤ times i is)
      → ((steps bind local_addr (at_first bind local_addr c n) is).client
          ≡ (start bind local_addr c).1)
        × ((w : ℕ) × (w < n)
            × (get_elem? (steps bind local_addr (at_first bind local_addr c n) is).threads w
                ≡ some (answered (start bind local_addr c).0))
            × ((j : ℕ)
                → j < n
                → j ≢ w
                → get_elem? (steps bind local_addr (at_first bind local_addr c n) is).threads j
                  ≡ some (answered (err already_started))))
  starts_once n is some_thread often = decided (
      steps-Phase is (at_first bind local_addr c n)
        (untouched refl (λ j t h. (only_asking n j t h).0)))
    where
      over : Starters P
      over = steps bind local_addr (at_first bind local_addr c n) is

      finished :
          (i : ℕ)
          → i < n
          → (r : Result Error (Unit {0})) × (get_elem? over.threads i ≡ some (answered r))
      finished i h = moved_twice bind local_addr c n is i h (often i h)

      loser :
          (r : Result Error (Unit {0}))
          → Loser (answered r)
          → answered r ≡ answered (err already_started)
      loser r (inl e) = absurd (ground arith)
      loser r (inr e) = e

      decided :
          Phase over
          → (over.client ≡ (start bind local_addr c).1)
            × ((w : ℕ) × (w < n)
                × (get_elem? over.threads w ≡ some (answered (start bind local_addr c).0))
                × ((j : ℕ)
                    → j < n
                    → j ≢ w
                    → get_elem? over.threads j ≡ some (answered (err already_started))))
      decided (untouched e all) =
          let (r, end) = finished 0 some_thread in absurd (ground (arith, all 0 (answered r) end))
      decided (claimed w h) =
          let (r, end) = finished w (is_thread bind local_addr c n is w passed h.winner) in
          absurd (ground (arith, h.winner, end))
      decided (done w h) = (
        h.client_is,
        (
          w,
          is_thread bind local_addr c n is w _ h.winner,
          h.winner,
          λ j l n_w.
              let (r, end) = finished j l in
              end ∙ ap some (loser r (h.losers j (answered r) n_w end)),
        ),
      )
