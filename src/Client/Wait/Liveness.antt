-- ===== src/Client/Wait/Liveness.antt =====
-- A `wait` of rust/arti-ffi/src/client.rs returns once a `shutdown` has returned.
use go_arti.Prelude.{
  ℕ, zero, suc, ◌<◌, ◌≡◌, refl, sym, ap, ◌∙◌, inl, inr, Bool, true, false, ◌||◌, Option, none, some,
  List, [], ◌∷◌, arith, ◌==◌, if◌then◌else◌, Bool-cases, get_elem?, replicate, get_elem?-modify,
}
use mathlib.Core.Bool.{false≢true}
use mathlib.Core.List.{map}
use go_arti.Client.Wait.{
  Waiter, checking, sleeping, returned, Closer, setting, notifying, finished, Exit, wait_step, wake,
  shut_step, Move, waits, wakes, shuts, shut_by, move, moves, at_first,
}
use go_arti.Client.Wait.Progress.{
  any, is_asleep, is_finished, Inv, moves-Inv, move-Inv, at_first-Inv, any-modify, any-modify-true,
  any-get_elem?, finished_begun,
}

-- What a move does to the waiter of number `i`.
effect : Exit → Move → ℕ → Waiter → Waiter
unfolding get_elem?
effect s (waits j) i w = if i == j then wait_step s.done w else w
effect s (wakes j) i w = if i == j then wake w else w
effect s (shuts j) i w = elim (get_elem? s.closers j) [
  | none ↦ w
  | some c ↦ elim c [ setting ↦ w | notifying ↦ wake w | finished ↦ w ]
]

module _ {A : Type 0} where
  get_elem?-map :
      (f : A → A) (xs : List A) (i : ℕ) (x : A)
      → get_elem? xs i ≡ some x
      → get_elem? (map f xs) i ≡ some (f x)
  unfolding get_elem?
  get_elem?-map f [] i x h = absurd (ground arith)
  get_elem?-map f (y ∷ xs) zero x h = ground arith
  get_elem?-map f (y ∷ xs) (suc i) x h = get_elem?-map f xs i x h

shuts-effect :
    (s : Exit) (j i : ℕ) (o : Option Closer) (w : Waiter)
    → get_elem? s.closers j ≡ o
    → get_elem? s.waiters i ≡ some w
    → get_elem? (shut_by j o s).waiters i ≡ some (effect s (shuts j) i w)
unfolding shut_by shut_step effect
shuts-effect s j i none w g h = rw (effect, g) h
shuts-effect s j i (some setting) w g h = rw (effect, g) h
shuts-effect s j i (some notifying) w g h = rw (effect, g) (get_elem?-map wake s.waiters i w h)
shuts-effect s j i (some finished) w g h = rw (effect, g) h

move-effect :
    (s : Exit) (m : Move) (i : ℕ) (w : Waiter)
    → get_elem? s.waiters i ≡ some w
    → get_elem? (move s m).waiters i ≡ some (effect s m i w)
unfolding move effect
move-effect s (waits j) i w h = get_elem?-modify (wait_step s.done) s.waiters i j w h
move-effect s (wakes j) i w h = get_elem?-modify wake s.waiters i j w h
move-effect s (shuts j) i w h = shuts-effect s j i (get_elem? s.closers j) w refl h

effect-returned : (s : Exit) (m : Move) (i : ℕ) → effect s m i returned ≡ returned
unfolding effect wait_step
effect-returned s m i = ground arith

shut_by_finished :
    (s : Exit) (j : ℕ) (o : Option Closer)
    → get_elem? s.closers j ≡ o
    → any is_finished s.closers ≡ true
    → any is_finished (shut_by j o s).closers ≡ true
unfolding shut_by shut_step
shut_by_finished s j none g h = h
shut_by_finished s j (some setting) g h =
    any-modify is_finished j s.closers setting notifying g refl ∙ h
shut_by_finished s j (some notifying) g h =
    any-modify-true is_finished j s.closers notifying finished g refl
shut_by_finished s j (some finished) g h =
    any-modify-true is_finished j s.closers finished finished g refl

move_finished :
    (s : Exit) (m : Move)
    → any is_finished s.closers ≡ true
    → any is_finished (move s m).closers ≡ true
unfolding move
move_finished s (waits j) h = h
move_finished s (wakes j) h = h
move_finished s (shuts j) h = shut_by_finished s j (get_elem? s.closers j) refl h

stays_returned :
    (s : Exit) (ms : List Move) (i : ℕ)
    → get_elem? s.waiters i ≡ some returned
    → get_elem? (moves s ms).waiters i ≡ some returned
unfolding moves
stays_returned s [] i h = h
stays_returned s (m ∷ ms) i h =
    stays_returned (move s m) ms i (move-effect s m i returned h ∙ ap some (effect-returned s m i))

-- Whether a schedule lets the waiter of number `i` move.
unfoldable pub lets_wait : ℕ → List Move → Bool
lets_wait i [] = false
lets_wait i (waits j ∷ ms) = i == j || lets_wait i ms
lets_wait i (wakes j ∷ ms) = lets_wait i ms
lets_wait i (shuts j ∷ ms) = lets_wait i ms

-- Once a shutdown has returned, a waiter that is let move returns.
wait_step-returned :
    (s : Exit) (i : ℕ) (w : Waiter)
    → Inv s
    → any is_finished s.closers ≡ true
    → get_elem? s.waiters i ≡ some w
    → wait_step s.done w ≡ returned
unfolding wait_step
wait_step-returned s i checking inv f h = rw (inv.done_begun ∙ finished_begun s.closers f)
wait_step-returned s i sleeping inv f h =
    absurd (false≢true (sym (inv.awake f) ∙ any-get_elem? is_asleep i s.waiters sleeping h refl))
wait_step-returned s i returned inv f h = refl

returns_from :
    (ms : List Move) (s : Exit) (i : ℕ) (w : Waiter)
    → Inv s
    → any is_finished s.closers ≡ true
    → get_elem? s.waiters i ≡ some w
    → lets_wait i ms ≡ true
    → get_elem? (moves s ms).waiters i ≡ some returned
unfolding moves lets_wait effect
returns_from [] s i w inv f h l = absurd (false≢true l)
returns_from (waits j ∷ ms) s i w inv f h l = elim (Bool-cases (i == j)) [
  | inl e ↦
      stays_returned (move s (waits j)) ms i (
        move-effect s (waits j) i w h ∙ ap some (rw (effect, e) (wait_step-returned s i w inv f h)))
  | inr e ↦
      returns_from ms (move s (waits j)) i _ (move-Inv s (waits j) inv)
        (move_finished s (waits j) f) (move-effect s (waits j) i w h) (rw e at l)
]
returns_from (wakes j ∷ ms) s i w inv f h l =
    returns_from ms (move s (wakes j)) i _ (move-Inv s (wakes j) inv) (move_finished s (wakes j) f)
      (move-effect s (wakes j) i w h) l
returns_from (shuts j ∷ ms) s i w inv f h l =
    returns_from ms (move s (shuts j)) i _ (move-Inv s (shuts j) inv) (move_finished s (shuts j) f)
      (move-effect s (shuts j) i w h) l

stays_present :
    (ms : List Move) (s : Exit) (i : ℕ) (w : Waiter)
    → get_elem? s.waiters i ≡ some w
    → (w' : Waiter) × (get_elem? (moves s ms).waiters i ≡ some w')
unfolding moves
stays_present [] s i w h = (w, h)
stays_present (m ∷ ms) s i w h = stays_present ms (move s m) i _ (move-effect s m i w h)

pub get_elem?-replicate :
    {A : Type 0} (n i : ℕ) (x : A) → i < n → get_elem? (replicate n x) i ≡ some x
unfolding get_elem?
get_elem?-replicate zero i x h = absurd (omega arith)
get_elem?-replicate (suc n) zero x h = refl
get_elem?-replicate (suc n) (suc i) x h = get_elem?-replicate n i x (omega arith)

-- No wakeup is lost: of any number of threads in `wait` and `shutdown`, however they were scheduled
-- until one `shutdown` returned, each `wait` returns as soon as it is scheduled again, whatever
-- moves come before and after that, and needs no further notification.
pub shutdown_frees_waiters :
    (n k : ℕ) (before after : List Move) (i : ℕ)
    → i < n
    → any is_finished (moves (at_first n k) before).closers ≡ true
    → lets_wait i after ≡ true
    → get_elem? (moves (moves (at_first n k) before) after).waiters i ≡ some returned
shutdown_frees_waiters n k before after i lt f l =
    let s = moves (at_first n k) before in
    let (w, h) =
      stays_present before (at_first n k) i checking (get_elem?-replicate n i checking lt) in
    returns_from after s i w (moves-Inv (at_first n k) before (at_first-Inv n k)) f h l
