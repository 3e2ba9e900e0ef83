-- ===== src/Client/Network/Threads/OneCall.antt =====
-- Threads that all enable the network, or all disable it (rust/arti-ffi/src/client.rs), do together
-- what one of them does alone.
use mathlib.Core.Path.{subst}
use go_arti.Prelude.{
  ℕ, zero, suc, ◌+◌, ◌≤◌, ◌<◌, ◌≡◌, refl, sym, ap, ◌∙◌, inl, inr, Bool, true, false, not, Option,
  none, some, List, [], ◌∷◌, arith, Bool-cases, length, modify, get_elem?, replicate, times,
  get_elem?-replicate, get_elem?-lt, total_none, total,
}
use go_arti.Client.{Client, swap_enabled, apply_enabled, set_network_enabled, same}
use go_arti.Client.Network.{apply_enabled-net, set_network_enabled_idle}
use go_arti.Client.Network.Threads.{
  steps-over, Thread, asking, over, swapped, Threads, step, steps, has_moved, is_open, is_pending,
  count, step_by, thread_step, count-modify, one-le-count, length-modify,
}

abbrev pending : Bool → List Thread → ℕ
pending e ts = count (is_pending e) ts

pending-le-moved : (e : Bool) (ts : List Thread) → count (is_pending e) ts ≤ count has_moved ts
unfolding total
pending-le-moved e [] = omega arith
pending-le-moved e (asking ∷ ts) = omega (arith, pending-le-moved e ts)
pending-le-moved e (over ∷ ts) = omega (arith, pending-le-moved e ts)
pending-le-moved e (swapped b ∷ ts) = ground (arith, pending-le-moved e ts)

pending-le-open : (e : Bool) (ts : List Thread) → count (is_pending e) ts ≤ count is_open ts
unfolding total
pending-le-open e [] = omega arith
pending-le-open e (asking ∷ ts) = omega (arith, pending-le-open e ts)
pending-le-open e (over ∷ ts) = omega (arith, pending-le-open e ts)
pending-le-open e (swapped b ∷ ts) = ground (arith, pending-le-open e ts)

length-le-count : (ts : List Thread) → length ts ≤ count has_moved ts + count is_open ts
unfolding total
length-le-count [] = omega arith
length-le-count (asking ∷ ts) = omega (arith, length-le-count ts)
length-le-count (over ∷ ts) = omega (arith, length-le-count ts)
length-le-count (swapped b ∷ ts) = omega (arith, length-le-count ts)

same_refl : (e : Bool) → same e e ≡ true
unfolding same
same_refl true = refl
same_refl false = refl

same_differ : (e a b : Bool) → same a e ≡ false → same b e ≡ false → a ≡ b
unfolding same
same_differ e a b h k = ground arith

module _ {P : Type 0} (enabled : Bool) (c : Client P) where
  abbrev flagged : Client P
  flagged = record c { net_enabled = enabled }

  -- Before the first swap; while the thread that changed the flag has not acted on it; and after.
  data Phase (s : Threads P) : Type 0 where
    untouched : s.client ≡ c → count has_moved s.threads ≡ 0 → Phase s
    between :
        s.client ≡ flagged
        → same c.net_enabled enabled ≡ false
        → count (is_pending enabled) s.threads ≡ 1
        → Phase s
    settled :
        s.client ≡ set_network_enabled enabled c
        → count (is_pending enabled) s.threads ≡ 0
        → Phase s

  settled_enabled : (set_network_enabled enabled c).net_enabled ≡ enabled
  unfolding set_network_enabled swap_enabled
  settled_enabled = apply_enabled-net enabled c.net_enabled flagged

  flag_again : (d : Client P) → d.net_enabled ≡ enabled → record d { net_enabled = enabled } ≡ d
  flag_again d h = rw (← h)

  apply_same :
      (before : Bool) (d : Client P)
      → same before enabled ≡ true
      → apply_enabled enabled before d ≡ d
  unfolding apply_enabled
  apply_same before d h = rw h

  same_eq : (a b : Bool) → same a b ≡ true → a ≡ b
  unfolding same
  same_eq a b h = ground arith

  abbrev at : Client P → List Thread → Threads P
  at d ts = record { client = d; threads = ts }

  module _ (i : ℕ) (ts : List Thread) where
    -- The first swap.
    first_swap :
        get_elem? ts i ≡ some asking
        → count has_moved ts ≡ 0
        → Phase (step_by enabled i (some asking) (at c ts))
    unfolding step_by thread_step swap_enabled
    first_swap g n =
        let moved = count-modify (is_pending enabled) i ts asking (swapped c.net_enabled) g in
        elim (Bool-cases (same c.net_enabled enabled)) [
          | inl k ↦
              settled
                (flag_again c (same_eq c.net_enabled enabled k)
                  ∙ sym (set_network_enabled_idle enabled c (same_eq c.net_enabled enabled k)))
                (ground (arith, pending-le-moved enabled ts))
          | inr k ↦ between refl k (ground (arith, pending-le-moved enabled ts))
        ]

    -- Nothing is pending after the step, or as much as before.
    keeps_pending :
        (t u : Thread)
        → get_elem? ts i ≡ some t
        → is_pending enabled u ≡ is_pending enabled t
        → count (is_pending enabled) (modify i (λ _. u) ts) ≡ count (is_pending enabled) ts
    keeps_pending t u g e = ground (arith, count-modify (is_pending enabled) i ts t u g)

    untouched-step :
        (o : Option Thread)
        → get_elem? ts i ≡ o
        → count has_moved ts ≡ 0
        → Phase (step_by enabled i o (at c ts))
    untouched-step none g n = unfold step_by in untouched refl n
    untouched-step (some asking) g n = first_swap g n
    untouched-step (some over) g n = absurd (omega (arith, one-le-count has_moved i ts over g))
    untouched-step (some (swapped b)) g n =
        absurd (omega (arith, one-le-count has_moved i ts (swapped b) g))

    between-step :
        (o : Option Thread)
        → get_elem? ts i ≡ o
        → same c.net_enabled enabled ≡ false
        → count (is_pending enabled) ts ≡ 1
        → Phase (step_by enabled i o (at flagged ts))
    unfolding step_by thread_step swap_enabled set_network_enabled
    between-step none g k n = between refl k n
    between-step (some asking) g k n =
        between refl k (keeps_pending asking (swapped enabled) g (ap not (same_refl enabled)) ∙ n)
    between-step (some over) g k n = between refl k (keeps_pending over over g refl ∙ n)
    between-step (some (swapped b)) g k n = elim (Bool-cases (same b enabled)) [
      | inl q ↦
          between (apply_same b flagged q) k (keeps_pending (swapped b) over g (sym (ap not q)) ∙ n)
      | inr q ↦
          settled
            (ap (λ x. apply_enabled enabled x flagged) (same_differ enabled b c.net_enabled q k))
            (ground (arith, count-modify (is_pending enabled) i ts (swapped b) over g))
    ]

    settled-step :
        (o : Option Thread)
        → get_elem? ts i ≡ o
        → count (is_pending enabled) ts ≡ 0
        → Phase (step_by enabled i o (at (set_network_enabled enabled c) ts))
    unfolding step_by thread_step swap_enabled
    settled-step none g n = settled refl n
    settled-step (some asking) g n =
        settled (flag_again (set_network_enabled enabled c) settled_enabled) (
          keeps_pending asking (swapped (set_network_enabled enabled c).net_enabled) g
            (ap (λ x. not (same x enabled)) settled_enabled ∙ ap not (same_refl enabled))
          ∙ n)
    settled-step (some over) g n = settled refl (keeps_pending over over g refl ∙ n)
    settled-step (some (swapped b)) g n = elim (Bool-cases (same b enabled)) [
      | inl q ↦
          settled (apply_same b (set_network_enabled enabled c) q)
            (keeps_pending (swapped b) over g (sym (ap not q)) ∙ n)
      | inr q ↦ absurd (ground (arith, one-le-count (is_pending enabled) i ts (swapped b) g))
    ]

  at_path : (s : Threads P) (d : Client P) → s.client ≡ d → at d s.threads ≡ s
  at_path s d e = ap (λ x. at x s.threads) (sym e)

  step-Phase : (i : ℕ) (s : Threads P) → Phase s → Phase (step enabled s i)
  unfolding step
  step-Phase i s (untouched e n) =
      subst (λ x. Phase (step enabled x i)) (at_path s c e)
        (untouched-step i s.threads (get_elem? s.threads i) refl n)
  step-Phase i s (between e k n) =
      subst (λ x. Phase (step enabled x i)) (at_path s flagged e)
        (between-step i s.threads (get_elem? s.threads i) refl k n)
  step-Phase i s (settled e n) =
      subst (λ x. Phase (step enabled x i)) (at_path s (set_network_enabled enabled c) e)
        (settled-step i s.threads (get_elem? s.threads i) refl n)

  steps-Phase : (s : Threads P) (is : List ℕ) → Phase s → Phase (steps enabled s is)
  unfolding steps
  steps-Phase s [] h = h
  steps-Phase s (i ∷ is) h = steps-Phase (step enabled s i) is (step-Phase i s h)

  step_by-length :
      (i : ℕ) (o : Option Thread) (s : Threads P)
      → length (step_by enabled i o s).threads ≡ length s.threads
  unfolding step_by
  step_by-length i none s = refl
  step_by-length i (some t) s = length-modify i _ s.threads

  steps-length :
      (s : Threads P) (is : List ℕ) → length (steps enabled s is).threads ≡ length s.threads
  unfolding steps step
  steps-length s [] = refl
  steps-length s (i ∷ is) =
      steps-length (step enabled s i) is ∙ step_by-length i (get_elem? s.threads i) s

  moved-replicate : (n : ℕ) → count has_moved (replicate n asking) ≡ 0
  unfolding total
  moved-replicate zero = refl
  moved-replicate (suc n) = omega (arith, moved-replicate n)

  length-replicate : (n : ℕ) → length (replicate n asking) ≡ n
  length-replicate zero = refl
  length-replicate (suc n) = ap suc (length-replicate n)

  -- Every thread had its turns, so none has any before it.
  none_open :
      (n : ℕ) (is : List ℕ)
      → ((i : ℕ) → i < n → 2 ≤ times i is)
      → count is_open (steps enabled (at c (replicate n asking)) is).threads ≡ 0
  none_open n is often =
      let start = at c (replicate n asking) in
      let end = steps enabled start is in
      let size : length end.threads ≡ n = steps-length start is ∙ length-replicate n in
      total_none _ end.threads (λ i t h.
        let i_n : i < n = subst (λ k. i < k) size (get_elem?-lt end.threads i t h) in
        let is_over =
          steps-over enabled is i start asking (get_elem?-replicate n i asking i_n) (often i i_n) in
        ground (arith, is_over, h))

  -- One or more threads that make this call at once, on any schedule that lets each of them move
  -- twice: the client is then what one call alone would have made of it, so the mode is set, and a
  -- bootstrap started, once or not at all.
  pub steps-once :
      (n : ℕ) (is : List ℕ)
      → 0 < n
      → ((i : ℕ) → i < n → 2 ≤ times i is)
      → (steps enabled (at c (replicate n asking)) is).client ≡ set_network_enabled enabled c
  steps-once n is pos often =
      let start = at c (replicate n asking) in
      let end = steps enabled start is in
      let size : length end.threads ≡ n = steps-length start is ∙ length-replicate n in
      let over_all = none_open n is often in
      elim (steps-Phase start is (untouched refl (moved-replicate n))) [
        | untouched e m ↦ absurd (omega (arith, length-le-count end.threads, size, m, over_all))
        | between e k m ↦ absurd (omega (arith, pending-le-open enabled end.threads, m, over_all))
        | settled e m ↦ e
      ]
