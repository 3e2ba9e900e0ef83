-- ===== src/Client/Wait/Progress.antt =====
-- What the threads in `wait` and `shutdown` of rust/arti-ffi/src/client.rs come to, however they
-- are scheduled.
use mathlib.Core.Bool.{false≢true}
use mathlib.Core.List.{map}
use go_arti.Client.Wait.{
  Waiter, checking, sleeping, returned, Closer, setting, notifying, finished, Exit, wait_step, wake,
  shut_step, Move, waits, wakes, shuts, shut_by, move, moves, at_first,
}
use go_arti.Prelude.{
  ℕ, zero, suc, ◌≡◌, refl, sym, ◌∙◌, ◌⊎◌, inl, inr, Bool, true, false, ◌||◌, Option, none, some,
  List, [], ◌∷◌, arith, modify, get_elem?, replicate,
}

unfoldable pub any : {A : Type 0} → (A → Bool) → List A → Bool
any p [] = false
any p (x ∷ xs) = p x || any p xs

abbrev pub is_returned : Waiter → Bool
is_returned returned = true
is_returned _ = false

abbrev pub is_asleep : Waiter → Bool
is_asleep sleeping = true
is_asleep _ = false

abbrev pub has_begun : Closer → Bool
has_begun setting = false
has_begun _ = true

abbrev pub is_finished : Closer → Bool
is_finished finished = true
is_finished _ = false

-- No wakeup is lost: once a shutdown has returned, nobody sleeps.
pub record Inv (s : Exit) : Type 0 where
  pub returned_done : any is_returned s.waiters ≡ true → s.done ≡ true
  pub done_begun : s.done ≡ any has_begun s.closers
  pub awake : any is_finished s.closers ≡ true → any is_asleep s.waiters ≡ false

wait_returned :
    (done : Bool) (i : ℕ) (ws : List Waiter)
    → any is_returned (modify i (wait_step done) ws) ≡ true
    → (done ≡ true) ⊎ (any is_returned ws ≡ true)
unfolding any modify wait_step
wait_returned done i [] h = absurd (ground arith)
wait_returned done zero (w ∷ ws) h = ground arith
wait_returned done (suc i) (w ∷ ws) h = ground (arith, wait_returned done i ws)

wait_awake :
    (i : ℕ) (ws : List Waiter)
    → any is_asleep ws ≡ false
    → any is_asleep (modify i (wait_step true) ws) ≡ false
unfolding any modify wait_step
wait_awake i [] h = refl
wait_awake zero (w ∷ ws) h = ground arith
wait_awake (suc i) (w ∷ ws) h = ground (arith, wait_awake i ws)

wakes_awake :
    (i : ℕ) (ws : List Waiter) → any is_asleep ws ≡ false → any is_asleep (modify i wake ws) ≡ false
unfolding any modify
wakes_awake i [] h = refl
wakes_awake zero (w ∷ ws) h = ground arith
wakes_awake (suc i) (w ∷ ws) h = ground (arith, wakes_awake i ws)

wakes_returned :
    (i : ℕ) (ws : List Waiter) → any is_returned (modify i wake ws) ≡ any is_returned ws
unfolding any modify
wakes_returned i [] = refl
wakes_returned zero (w ∷ ws) = ground arith
wakes_returned (suc i) (w ∷ ws) = ground (arith, wakes_returned i ws)

notify_awake : (ws : List Waiter) → any is_asleep (map wake ws) ≡ false
unfolding any
notify_awake [] = refl
notify_awake (w ∷ ws) = ground (arith, notify_awake ws)

notify_returned : (ws : List Waiter) → any is_returned (map wake ws) ≡ any is_returned ws
unfolding any
notify_returned [] = refl
notify_returned (w ∷ ws) = ground (arith, notify_returned ws)

module _ {A : Type 0} (p : A → Bool) where
  pub any-modify :
      (j : ℕ) (xs : List A) (x y : A)
      → get_elem? xs j ≡ some x
      → p x ≡ p y
      → any p (modify j (λ _. y) xs) ≡ any p xs
  unfolding any modify get_elem?
  any-modify j [] x y g e = refl
  any-modify zero (z ∷ xs) x y g e = ground arith
  any-modify (suc j) (z ∷ xs) x y g e = ground (arith, any-modify j xs x y)

  pub any-modify-true :
      (j : ℕ) (xs : List A) (x y : A)
      → get_elem? xs j ≡ some x
      → p y ≡ true
      → any p (modify j (λ _. y) xs) ≡ true
  unfolding any modify get_elem?
  any-modify-true j [] x y g e = absurd (ground arith)
  any-modify-true zero (z ∷ xs) x y g e = ground arith
  any-modify-true (suc j) (z ∷ xs) x y g e = ground (arith, any-modify-true j xs x y)

  pub any-get_elem? :
      (j : ℕ) (xs : List A) (x : A) → get_elem? xs j ≡ some x → p x ≡ true → any p xs ≡ true
  unfolding any get_elem?
  any-get_elem? j [] x g e = absurd (ground arith)
  any-get_elem? zero (z ∷ xs) x g e = ground arith
  any-get_elem? (suc j) (z ∷ xs) x g e = ground (arith, any-get_elem? j xs x)

pub finished_begun : (cs : List Closer) → any is_finished cs ≡ true → any has_begun cs ≡ true
unfolding any
finished_begun [] h = h
finished_begun (c ∷ cs) h = ground (arith, finished_begun cs)

waits-Inv : (s : Exit) (i : ℕ) → Inv s → Inv (move s (waits i))
unfolding move
waits-Inv s i h = record {
  returned_done = λ r. elim (wait_returned s.done i s.waiters r) [
    | inl d ↦ d
    | inr before ↦ h.returned_done before
  ];
  done_begun = h.done_begun;
  awake = λ f.
      let d : s.done ≡ true = h.done_begun ∙ finished_begun s.closers f in
      rw d (wait_awake i s.waiters (h.awake f));
}

wakes-Inv : (s : Exit) (i : ℕ) → Inv s → Inv (move s (wakes i))
unfolding move
wakes-Inv s i h = record {
  returned_done = λ r. h.returned_done (sym (wakes_returned i s.waiters) ∙ r);
  done_begun = h.done_begun;
  awake = λ f. wakes_awake i s.waiters (h.awake f);
}

shut_by-Inv :
    (s : Exit) (j : ℕ) (o : Option Closer) → get_elem? s.closers j ≡ o → Inv s → Inv (shut_by j o s)
unfolding shut_by shut_step
shut_by-Inv s j none g h = h
shut_by-Inv s j (some setting) g h = record {
  returned_done = λ r. refl;
  done_begun = sym (any-modify-true has_begun j s.closers setting notifying g refl);
  awake = λ f. h.awake (sym (any-modify is_finished j s.closers setting notifying g refl) ∙ f);
}
shut_by-Inv s j (some notifying) g h = record {
  returned_done = λ r. h.returned_done (sym (notify_returned s.waiters) ∙ r);
  done_begun = h.done_begun ∙ sym (any-modify has_begun j s.closers notifying finished g refl);
  awake = λ f. notify_awake s.waiters;
}
shut_by-Inv s j (some finished) g h = record {
  returned_done = h.returned_done;
  done_begun = h.done_begun ∙ sym (any-modify has_begun j s.closers finished finished g refl);
  awake = λ f. h.awake (sym (any-modify is_finished j s.closers finished finished g refl) ∙ f);
}

pub move-Inv : (s : Exit) (m : Move) → Inv s → Inv (move s m)
move-Inv s (waits i) h = waits-Inv s i h
move-Inv s (wakes i) h = wakes-Inv s i h
move-Inv s (shuts j) h = unfold move in shut_by-Inv s j (get_elem? s.closers j) refl h

pub moves-Inv : (s : Exit) (ms : List Move) → Inv s → Inv (moves s ms)
unfolding moves
moves-Inv s [] h = h
moves-Inv s (m ∷ ms) h = moves-Inv (move s m) ms (move-Inv s m h)

any-replicate :
    {A : Type 0} (p : A → Bool) (n : ℕ) (x : A) → p x ≡ false → any p (replicate n x) ≡ false
unfolding any
any-replicate p zero x h = refl
any-replicate p (suc n) x h = rw h (any-replicate p n x h)

pub at_first-Inv : (n k : ℕ) → Inv (at_first n k)
at_first-Inv n k = record {
  returned_done = λ r. absurd (false≢true (sym (any-replicate is_returned n checking refl) ∙ r));
  done_begun = sym (any-replicate has_begun k setting refl);
  awake = λ f. any-replicate is_asleep n checking refl;
}

-- However the threads are scheduled, `wait` returns on one of them only after a `shutdown` has set
-- the flag on another.
pub wait_needs_shutdown :
    (n k : ℕ) (ms : List Move)
    → any is_returned (moves (at_first n k) ms).waiters ≡ true
    → any has_begun (moves (at_first n k) ms).closers ≡ true
wait_needs_shutdown n k ms r =
    let h = moves-Inv (at_first n k) ms (at_first-Inv n k) in sym h.done_begun ∙ h.returned_done r
