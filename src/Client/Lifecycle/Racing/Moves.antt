-- ===== src/Client/Lifecycle/Racing/Moves.antt =====
-- How far the threads in `start` of rust/arti-ffi/src/client.rs come.
use go_arti.Prelude.{
  ℕ, zero, suc, ◌-◌, ◌≤◌, ◌<◌, ◌≡◌, refl, ap, ◌∙◌, inl, inr, Option, none, some, List, [], ◌∷◌,
  arith, Bool-cases, Option-cases, Result, get_elem?, replicate, get_elem?-modify-none, times,
  get_elem?-replicate, turns_leave_fewer, turn_leaves_fewer,
}
use go_arti.Text.Address.{SocketAddr}
use go_arti.Errors.{Error}
use go_arti.Client.{Client}
use go_arti.Client.Lifecycle.Racing.{
  Starter, asking, passed, answered, Starters, passes, start_step, step_by, steps, step,
}

-- How many steps a thread has before it.
abbrev left : Starter → ℕ
left asking = 2
left passed = 1
left (answered r) = 0

pub only_asking :
    (n i : ℕ) (t : Starter) → get_elem? (replicate n asking) i ≡ some t → (t ≡ asking) × (i < n)
unfolding get_elem?
only_asking zero i t h = absurd (ground arith)
only_asking (suc n) zero t h = (ground arith, omega arith)
only_asking (suc n) (suc i) t h = let (e, l) = only_asking n i t h in (e, omega (arith, l))

module _ {P Listener : Type 0} (bind : SocketAddr → Option Listener)
    (local_addr : Listener → Option SocketAddr) where
  start_step-left :
      (t : Starter) (d : Client P) → left (start_step bind local_addr t d).0 ≤ left t - 1
  unfolding start_step passes
  start_step-left asking d = elim (Bool-cases d.started) [
    | inl e ↦ rw e (omega arith)
    | inr e ↦ rw e (omega arith)
  ]
  start_step-left passed d = omega arith
  start_step-left (answered r) d = omega arith

  steps-left :
      (is : List ℕ) (i : ℕ) (s : Starters P) (t : Starter)
      → get_elem? s.threads i ≡ some t
      → (t' : Starter) × (get_elem? (steps bind local_addr s is).threads i ≡ some t')
        × (left t' ≤ left t - times i is)
  unfolding steps step step_by
  steps-left =
      turns_leave_fewer (λ s. s.threads) (step bind local_addr) (steps bind local_addr) left
        (λ s. refl) (λ s j is. refl)
        (turn_leaves_fewer (λ s. s.threads) left (λ t s. (start_step bind local_addr t s.client).0)
          (λ t s. start_step-left t s.client) (λ s j o. step_by bind local_addr j o s) (λ s j. refl)
          (λ s j u. refl))

  step_by-missing :
      (j : ℕ) (o : Option Starter) (i : ℕ) (s : Starters P)
      → get_elem? s.threads i ≡ none
      → get_elem? (step_by bind local_addr j o s).threads i ≡ none
  unfolding step_by
  step_by-missing j none i s h = h
  step_by-missing j (some u) i s h = get_elem?-modify-none _ s.threads i j h

  steps-missing :
      (is : List ℕ) (i : ℕ) (s : Starters P)
      → get_elem? s.threads i ≡ none
      → get_elem? (steps bind local_addr s is).threads i ≡ none
  unfolding steps step
  steps-missing [] i s h = h
  steps-missing (j ∷ is) i s h =
      steps-missing is i (step bind local_addr s j)
        (step_by-missing j (get_elem? s.threads j) i s h)

  -- The threads, none of which has moved.
  abbrev pub at_first : Client P → ℕ → Starters P
  at_first c n = record { client = c; threads = replicate n asking }

  -- A thread that moved twice has its answer.
  pub moved_twice :
      (c : Client P) (n : ℕ) (is : List ℕ) (i : ℕ)
      → i < n
      → 2 ≤ times i is
      → (r : Result Error (Unit {0})) × (get_elem?
            (steps bind local_addr (at_first c n) is).threads
            i
          ≡ some (answered r))
  moved_twice c n is i h often =
      let (t, end, fewer) =
        steps-left is i (at_first c n) asking (get_elem?-replicate n i asking h) in
      let (r, e) = ended t (omega (arith, fewer, often)) in (r, end ∙ ap some e)
    where
      ended : (t : Starter) → left t ≤ 0 → (r : Result Error (Unit {0})) × (t ≡ answered r)
      ended asking l = absurd (omega (arith, l))
      ended passed l = absurd (omega (arith, l))
      ended (answered r) l = (r, refl)

  -- There are no more threads at the end.
  pub is_thread :
      (c : Client P) (n : ℕ) (is : List ℕ) (i : ℕ) (t : Starter)
      → get_elem? (steps bind local_addr (at_first c n) is).threads i ≡ some t
      → i < n
  is_thread c n is i t h = elim (Option-cases (get_elem? (replicate n asking) i)) [
    | inl missing ↦ absurd (ground (arith, steps-missing is i (at_first c n) missing, h))
    | inr (u, found) ↦ (only_asking n i u found).1
  ]
