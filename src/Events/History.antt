-- ===== src/Events/History.antt =====
-- What the queues of rust/arti-ffi/src/events.rs and logs.rs deliver, over any interleaving of
-- senders and one receiver.
use mathlib.Core.List.{Sublistᴰ}
use mathlib.Core.List.Sublistᴰ.{cons, cons-cons, refl as sublist_refl}
use mathlib.Core.Path.{subst}
use go_arti.Prelude.{
  ℕ, zero, suc, ◌≤◌, ◌<◌, ◌≡◌, refl, sym, ap, ◌∙◌, ◌⊎◌, inl, inr, true, Option, none, some, List,
  [], ◌∷◌, ◌++◌, append-nil, append_assoc, arith, ltb, ltb→lt, lt→ltb, tests, Bool-cases, length,
  take, length-append,
}
use go_arti.Channel.{Channel, sync_channel}
use go_arti.Events.{send, next}

pub data Op {ℓ} (A : Type ℓ) : Type ℓ where
  sends : A → Op A
  polls : Op A

module _ {ℓ} {A : Type ℓ} where
  abbrev pub deliver : Option A → List A → List A
  deliver none ds = ds
  deliver (some a) ds = a ∷ ds

  -- What the polls returned, in their order, and the queue at the end.
  unfoldable pub run : Channel A → List (Op A) → List A × Channel A
  run ch [] = ([], ch)
  run ch (sends a ∷ ops) = run (send a ch) ops
  run ch (polls ∷ ops) =
      let (o, ch') = next ch in let (ds, end) = run ch' ops in (deliver o ds, end)

  abbrev pub sent : List (Op A) → List A
  sent [] = []
  sent (sends a ∷ ops) = a ∷ sent ops
  sent (polls ∷ ops) = sent ops

  pub Sublistᴰ-insert :
      (a : A) (xs ys : List A) {l : List A} → Sublistᴰ l (xs ++ ys) → Sublistᴰ l (xs ++ a ∷ ys)
  Sublistᴰ-insert a [] ys s = cons s
  Sublistᴰ-insert a (x ∷ xs) ys (cons s) = cons (Sublistᴰ-insert a xs ys s)
  Sublistᴰ-insert a (x ∷ xs) ys (cons-cons e s) = cons-cons e (Sublistᴰ-insert a xs ys s)

  pub send_items :
      (a : A) (ch : Channel A)
      → ((send a ch).items ≡ ch.items ++ a ∷ []) ⊎ ((send a ch).items ≡ ch.items)
  unfolding send
  send_items a ch = ground arith

  sent_after :
      (a : A) (ch : Channel A) (l ys : List A)
      → Sublistᴰ l ((send a ch).items ++ ys)
      → Sublistᴰ l (ch.items ++ a ∷ ys)
  sent_after a ch l ys s = elim (send_items a ch) [
    | inl e ↦ rw (e, append_assoc ch.items (a ∷ []) ys) at s
    | inr e ↦ Sublistᴰ-insert a ch.items ys (rw e at s)
  ]

  pub next_items : (ch : Channel A) → deliver (next ch).0 (next ch).1.items ≡ ch.items
  unfolding next
  next_items ch = ground arith

  pub deliver-append : (o : Option A) (ds ys : List A) → deliver o ds ++ ys ≡ deliver o (ds ++ ys)
  deliver-append none ds ys = refl
  deliver-append (some a) ds ys = refl

  deliver-Sublistᴰ :
      (o : Option A) (ds items ys : List A)
      → Sublistᴰ ds (items ++ ys)
      → Sublistᴰ (deliver o ds) (deliver o items ++ ys)
  deliver-Sublistᴰ none ds items ys s = s
  deliver-Sublistᴰ (some a) ds items ys s = cons-cons refl s

  -- Over any history of sends and polls, what the polls returned and then what still waits is,
  -- in order, part of what waited at first and then was sent: nothing is invented, doubled or
  -- overtaken.
  pub run-in_order :
      (ch : Channel A) (ops : List (Op A))
      → Sublistᴰ ((run ch ops).0 ++ (run ch ops).1.items) (ch.items ++ sent ops)
  unfolding run
  run-in_order ch [] = rw append-nil (sublist_refl ch.items)
  run-in_order ch (sends a ∷ ops) = sent_after a ch _ (sent ops) (run-in_order (send a ch) ops)
  run-in_order ch (polls ∷ ops) =
      let (o, ch') = next ch in
      let (ds, end) = run ch' ops in
      rw (deliver-append o) (
        subst (λ items. Sublistᴰ (deliver o (ds ++ end.items)) (items ++ sent ops)) (next_items ch)
          (deliver-Sublistᴰ o (ds ++ end.items) ch'.items (sent ops) (run-in_order ch' ops)))

  -- A burst, and polling the queue dry.
  unfoldable pub send_all : List A → Channel A → Channel A
  send_all [] ch = ch
  send_all (a ∷ as') ch = send_all as' (send a ch)

  unfoldable pub drain : ℕ → Channel A → List A
  drain zero ch = []
  drain (suc n) ch = let (o, ch') = next ch in deliver o (drain n ch')

  -- The queue keeps its capacity and its ends.
  send-IsBounded :
      (a : A) (ch : Channel A)
      → length ch.items ≤ ch.capacity
      → (length (send a ch).items ≤ (send a ch).capacity) × ((send a ch).capacity ≡ ch.capacity)
  unfolding send
  send-IsBounded a ch h = ground (arith, length-append ch.items (a ∷ []))

  -- Over any history the queue stays within its capacity, which never changes.
  pub run-IsBounded :
      (ch : Channel A) (ops : List (Op A))
      → length ch.items ≤ ch.capacity
      → (length (run ch ops).1.items ≤ ch.capacity) × ((run ch ops).1.capacity ≡ ch.capacity)
  unfolding run next
  run-IsBounded ch [] h = (h, refl)
  run-IsBounded ch (sends a ∷ ops) h =
      ground (arith, send-IsBounded a ch, run-IsBounded (send a ch) ops)
  run-IsBounded ch (polls ∷ ops) h = ground (arith, run-IsBounded (next ch).1 ops)

  take-append : (n : ℕ) (xs ys : List A) → length xs ≡ n → take n (xs ++ ys) ≡ xs
  take-append zero [] ys h = refl
  take-append zero (x ∷ xs) ys h = absurd (omega arith)
  take-append (suc n) [] ys h = absurd (omega arith)
  take-append (suc n) (x ∷ xs) ys h = ap (◌∷◌ x) (take-append n xs ys (omega arith))

  take_within : (n : ℕ) (xs : List A) → length xs ≤ n → take n xs ≡ xs
  take_within zero [] h = refl
  take_within zero (x ∷ xs) h = absurd (omega arith)
  take_within (suc n) [] h = refl
  take_within (suc n) (x ∷ xs) h = ap (◌∷◌ x) (take_within n xs (omega arith))

  take-insert :
      (n : ℕ) (xs ys : List A) (a : A) → n ≤ length xs → take n (xs ++ a ∷ ys) ≡ take n (xs ++ ys)
  take-insert zero xs ys a h = refl
  take-insert (suc n) [] ys a h = absurd (omega arith)
  take-insert (suc n) (x ∷ xs) ys a h = ap (◌∷◌ x) (take-insert n xs ys a (omega arith))

  send_fits :
      (a : A) (ch : Channel A)
      → ch.receiver_alive ≡ true
      → length ch.items < ch.capacity
      → send a ch ≡ record ch { items = ch.items ++ a ∷ [] }
  unfolding send
  send_fits a ch alive h = rw (alive, lt→ltb _ _ h)

  send_full :
      (a : A) (ch : Channel A)
      → ch.receiver_alive ≡ true
      → ch.capacity ≤ length ch.items
      → send a ch ≡ ch
  unfolding send
  send_full a ch alive h = ground arith

  -- While nobody polls, a burst fills the queue with its earliest events, and the rest is dropped.
  pub send_all-take :
      (as' : List A) (ch : Channel A)
      → ch.receiver_alive ≡ true
      → length ch.items ≤ ch.capacity
      → (send_all as' ch).items ≡ take ch.capacity (ch.items ++ as')
  unfolding send_all
  send_all-take [] ch alive h = rw append-nil (sym (take_within ch.capacity ch.items h))
  send_all-take (a ∷ as') ch alive h = elim (Bool-cases (ltb (length ch.items) ch.capacity)) [
    | inl fits ↦
        ap (λ c. (send_all as' c).items) (send_fits a ch alive (ltb→lt _ _ fits))
        ∙ send_all-take as' (record ch { items = ch.items ++ a ∷ [] }) alive
            (omega (tests, length-append ch.items (a ∷ [])))
        ∙ ap (take ch.capacity) (append_assoc ch.items (a ∷ []) as')
    | inr over ↦
        let more : ch.capacity ≤ length ch.items = ground arith in
        ap (λ c. (send_all as' c).items) (send_full a ch alive more)
        ∙ send_all-take as' ch alive h
        ∙ sym (take-insert ch.capacity ch.items as' a more)
  ]

  next_cons :
      (a : A) (rest : List A) (ch : Channel A)
      → ch.items ≡ a ∷ rest
      → next ch ≡ (some a, record ch { items = rest })
  unfolding next
  next_cons a rest ch e = ground arith

  drain-items :
      (items : List A) (ch : Channel A) → ch.items ≡ items → drain (length items) ch ≡ items
  unfolding drain
  drain-items [] ch e = refl
  drain-items (a ∷ rest) ch e =
      ap (λ (r : Option A × Channel A). deliver r.0 (drain (length rest) r.1))
        (next_cons a rest ch e)
      ∙ ap (◌∷◌ a) (drain-items rest (record ch { items = rest }) refl)

  -- A burst that a new queue has room for is polled out whole and in order.
  drain-send_all :
      (as' : List A) (n : ℕ)
      → length as' ≤ n
      → drain (length as') (send_all as' (sync_channel n)) ≡ as'
  unfolding sync_channel
  drain-send_all as' n h =
      drain-items as' (send_all as' (sync_channel n))
        (send_all-take as' (sync_channel n) refl (omega arith) ∙ take_within n as' h)
