-- ===== src/Client/Network/Threads.antt =====
-- Threads that make the same call of `set_network_enabled` (rust/arti-ffi/src/client.rs) at once,
-- in any interleaving of its steps: the swap of the flag, and what follows it.
pub mod OneCall
use go_arti.Prelude.{
  ℕ, zero, suc, ◌+◌, ◌-◌, ◌*◌, ◌/◌, ◌%◌, ◌^◌, ◌≤◌, ◌<◌, min, String, ◌≡◌, refl, sym, ap, ◌∙◌, ◌≢◌,
  ◌↔◌, ◌⊎◌, inl, inr, Bool, true, false, not, ◌&&◌, ◌||◌, Option, none, some, List, [], ◌∷◌, ◌++◌,
  map, append-nil, append_assoc, arith, ◌>>=◌, ◌>>◌, ltb, leb, ◌==◌, if◌then◌else◌, within, ltb→lt,
  lt→ltb, leb→le, le→leb, ==_iff, ==_refl, tests, Bool-cases, Option-cases, Result, ok, err,
  or_fail, Result-cases, through, length, take, drop, get_or, length-append, split_at?,
  split_at?-append, split_at?-short, All, Bytes, Text, codes, text_eq, text_eq_sound, text_eq_refl,
  text_eq_iff, modify, get_elem?, replicate, get_elem?-modify, get_elem?-modify-none, each-modify,
  one_at, times, get_elem?-replicate, get_elem?-lt, modify_leaves_fewer, turns_leave_fewer,
  turn_leaves_fewer, total_none, total, total-append, total-modify, le-total,
}
use go_arti.Client.{Client, swap_enabled, apply_enabled, same}

pub data Thread : Type 0 where
  asking over : Thread
  swapped : (before : Bool) → Thread

pub record Threads (P : Type 0) : Type 0 where
  pub client : Client P
  pub threads : List Thread

module _ {P : Type 0} (enabled : Bool) where
  unfoldable pub thread_step : Thread → Client P → Thread × Client P
  thread_step asking c = let (before, c') = swap_enabled enabled c in (swapped before, c')
  thread_step (swapped before) c = (over, apply_enabled enabled before c)
  thread_step over c = (over, c)

  step_by : ℕ → Option Thread → Threads P → Threads P
  step_by i none s = s
  step_by i (some t) s =
      let (t', c') = thread_step t s.client in
      record { client = c'; threads = modify i (λ _. t') s.threads }

  -- The thread of number `i` moves.
  unfoldable pub step : Threads P → ℕ → Threads P
  unfolding step_by
  step s i = step_by i (get_elem? s.threads i) s

  unfoldable pub steps : Threads P → List ℕ → Threads P
  steps s [] = s
  steps s (i ∷ is) = steps (step s i) is

abbrev pub has_moved : Thread → Bool
has_moved asking = false
has_moved _ = true

abbrev pub is_open : Thread → Bool
is_open over = false
is_open _ = true

-- A thread that has changed the flag, and has not acted on it.
abbrev pub is_pending : Bool → Thread → Bool
is_pending enabled (swapped before) = not (same before enabled)
is_pending enabled _ = false

abbrev pub one : Bool → ℕ
one true = 1
one false = 0

abbrev pub count : (Thread → Bool) → List Thread → ℕ
count p ts = total (λ t. one (p t)) ts

module _ (p : Thread → Bool) where
  count-modify :
      (i : ℕ) (ts : List Thread) (t u : Thread)
      → get_elem? ts i ≡ some t
      → count p (modify i (λ _. u) ts) + one (p t) ≡ count p ts + one (p u)
  count-modify i ts t u h = total-modify (λ v. one (p v)) i ts t u h

  one-le-count :
      (i : ℕ) (ts : List Thread) (t : Thread) → get_elem? ts i ≡ some t → one (p t) ≤ count p ts
  one-le-count i ts t h = le-total (λ v. one (p v)) i ts t h

length-modify : (i : ℕ) (u : Thread) (ts : List Thread) → length (modify i (λ _. u) ts) ≡ length ts
unfolding modify
length-modify i u [] = refl
length-modify zero u (x ∷ ts) = refl
length-modify (suc i) u (x ∷ ts) = ap suc (length-modify i u ts)

-- How many steps a thread has before it.
abbrev left : Thread → ℕ
left asking = 2
left (swapped before) = 1
left over = 0

module _ {P : Type 0} (enabled : Bool) where
  thread_step-left : (t : Thread) (c : Client P) → left (thread_step enabled t c).0 ≤ left t - 1
  unfolding thread_step
  thread_step-left asking c = omega arith
  thread_step-left (swapped before) c = omega arith
  thread_step-left over c = omega arith

  -- A thread that had two turns is over.
  steps-over :
      (is : List ℕ) (i : ℕ) (s : Threads P) (t : Thread)
      → get_elem? s.threads i ≡ some t
      → 2 ≤ times i is
      → get_elem? (steps enabled s is).threads i ≡ some over
  unfolding steps step step_by
  steps-over is i s t h often =
      let (t', end, fewer) =
        turns_leave_fewer (λ s. s.threads) (step enabled) (steps enabled) left (λ s. refl)
          (λ s j is. refl)
          (turn_leaves_fewer (λ s. s.threads) left (λ t s. (thread_step enabled t s.client).0)
            (λ t s. thread_step-left t s.client) (λ s j o. step_by enabled j o s) (λ s j. refl)
            (λ s j u. refl))
          is i s t h in
      end ∙ ap some (ended t' (omega (arith, fewer, often, at_most t)))
    where
      at_most : (u : Thread) → left u ≤ 2
      at_most asking = omega arith
      at_most (swapped b) = omega arith
      at_most over = omega arith

      ended : (u : Thread) → left u ≤ 0 → u ≡ over
      ended asking l = absurd (omega (arith, l))
      ended (swapped b) l = absurd (omega (arith, l))
      ended over l = refl
