-- ===== src/Prelude/Indexed.antt =====
-- Lists by position, and sums over a list.
use Prim.Native.Nat.{ℕ, zero, suc, ◌+◌, ◌-◌, ◌≤◌, ◌<◌}
use mathlib.Core.Path.{◌≡◌, refl, sym, ap, ◌∙◌, subst}
use mathlib.Core.Logic.{inl, inr}
use mathlib.Core.Bool.{false}
use mathlib.Core.List.{List, [], ◌∷◌, ◌++◌}
use mathlib.Core.Option.{Option, none, some}
use native.Mathlib.Omega.{arith}
use go_arti.Prelude.Lists.{length}
use go_arti.Prelude.Tests.{==_iff, Bool-cases, Option-cases, ◌==◌, if◌then◌else◌}

unfoldable pub modify : {A : Type 0} → ℕ → (A → A) → List A → List A
modify i f [] = []
modify zero f (x ∷ xs) = f x ∷ xs
modify (suc i) f (x ∷ xs) = x ∷ modify i f xs

unfoldable pub get_elem? : {A : Type 0} → List A → ℕ → Option A
get_elem? [] i = none
get_elem? (x ∷ xs) zero = some x
get_elem? (x ∷ xs) (suc i) = get_elem? xs i

abbrev pub replicate : {A : Type 0} → ℕ → A → List A
replicate zero x = []
replicate (suc n) x = x ∷ replicate n x

module _ {A : Type 0} where
  pub get_elem?-modify :
      (f : A → A) (xs : List A) (i j : ℕ) (x : A)
      → get_elem? xs i ≡ some x
      → get_elem? (modify j f xs) i ≡ some (if i == j then f x else x)
  unfolding get_elem? modify
  get_elem?-modify f [] i j x h = absurd (ground arith)
  get_elem?-modify f (y ∷ xs) zero zero x h = ground arith
  get_elem?-modify f (y ∷ xs) zero (suc j) x h = ground arith
  get_elem?-modify f (y ∷ xs) (suc i) zero x h = ground arith
  get_elem?-modify f (y ∷ xs) (suc i) (suc j) x h = ground (arith, get_elem?-modify f xs i j x)

  pub get_elem?-modify-none :
      (f : A → A) (xs : List A) (i j : ℕ)
      → get_elem? xs i ≡ none
      → get_elem? (modify j f xs) i ≡ none
  unfolding get_elem? modify
  get_elem?-modify-none f [] i j h = refl
  get_elem?-modify-none f (y ∷ xs) zero zero h = absurd (ground arith)
  get_elem?-modify-none f (y ∷ xs) zero (suc j) h = absurd (ground arith)
  get_elem?-modify-none f (y ∷ xs) (suc i) zero h = h
  get_elem?-modify-none f (y ∷ xs) (suc i) (suc j) h = get_elem?-modify-none f xs i j h

  -- What holds of each item after one was replaced.
  pub each-modify :
      (Q : ℕ → A → Type 0) (xs : List A) (i : ℕ) (x' : A)
      → ((j : ℕ) (x : A) → (j == i) ≡ false → get_elem? xs j ≡ some x → Q j x)
      → Q i x'
      → (j : ℕ) (x : A) → get_elem? (modify i (λ _. x') xs) j ≡ some x
      → Q j x
  each-modify Q xs i x' others mine j x e = elim (Option-cases (get_elem? xs j)) [
    | inl missing ↦ absurd (ground (arith, get_elem?-modify-none (λ _. x') xs j i missing))
    | inr (y, found) ↦
        let now : (if j == i then x' else y) ≡ x =
          ground (arith, get_elem?-modify (λ _. x') xs j i y found) in
        elim (Bool-cases (j == i)) [
          | inl same ↦
              subst (λ k. Q k x) (sym ((==_iff j i).0 same))
                (subst (Q i) (ground (arith, now, same)) mine)
          | inr other ↦ subst (Q j) (ground (arith, now, other)) (others j y other found)
        ]
  ]

pub get_elem?-replicate :
    {A : Type 0} (n i : ℕ) (x : A) → i < n → get_elem? (replicate n x) i ≡ some x
unfolding get_elem?
get_elem?-replicate zero i x h = absurd (omega (arith, h))
get_elem?-replicate (suc n) zero x h = refl
get_elem?-replicate (suc n) (suc i) x h = get_elem?-replicate n i x (omega (arith, h))

pub get_elem?-lt :
    {A : Type 0} (xs : List A) (i : ℕ) (x : A) → get_elem? xs i ≡ some x → i < length xs
unfolding get_elem?
get_elem?-lt [] i x h = absurd (ground arith)
get_elem?-lt (y ∷ ys) zero x h = omega arith
get_elem?-lt (y ∷ ys) (suc i) x h = omega (arith, get_elem?-lt ys i x h)

unfoldable pub total : {A : Type 0} → (A → ℕ) → List A → ℕ
total f [] = 0
total f (x ∷ xs) = f x + total f xs

module _ {A : Type 0} (f : A → ℕ) where
  pub total-append : (xs ys : List A) → total f (xs ++ ys) ≡ total f xs + total f ys
  unfolding total
  total-append [] ys = omega arith
  total-append (x ∷ xs) ys = omega (arith, total-append xs ys)

  pub total-modify :
      (i : ℕ) (xs : List A) (x y : A)
      → get_elem? xs i ≡ some x
      → total f (modify i (λ _. y) xs) + f x ≡ total f xs + f y
  unfolding total modify get_elem?
  total-modify i [] x y h = absurd (ground arith)
  total-modify zero (z ∷ xs) x y h = ground arith
  total-modify (suc i) (z ∷ xs) x y h = ground (arith, total-modify i xs x y)

  pub le-total : (i : ℕ) (xs : List A) (x : A) → get_elem? xs i ≡ some x → f x ≤ total f xs
  unfolding total get_elem?
  le-total i [] x h = absurd (ground arith)
  le-total zero (y ∷ xs) x h = ground arith
  le-total (suc i) (y ∷ xs) x h = ground (arith, le-total i xs x)

-- How often a number stands in a list.
abbrev pub one_at : ℕ → ℕ → ℕ
one_at i j = if j == i then 1 else 0

abbrev pub times : ℕ → List ℕ → ℕ
times i is = total (one_at i) is

-- A measure that goes down where an item is replaced.
pub modify_leaves_fewer :
    {A : Type 0} (f : A → ℕ) (xs : List A) (j i : ℕ) (u x' w : A)
    → get_elem? xs j ≡ some u
    → get_elem? xs i ≡ some w
    → f x' ≤ f u - 1
    → (w' : A) × (get_elem? (modify j (λ _. x') xs) i ≡ some w') × (f w' ≤ f w - one_at i j)
modify_leaves_fewer f xs j i u x' w g h fewer =
    let now = get_elem?-modify (λ _. x') xs i j w h in
    elim (Bool-cases (j == i)) [
      | inl e ↦
          let mine : u ≡ w = ground (arith, g, h, (==_iff j i).0 e) in
          (x', now ∙ ground (arith, e, ==_iff j i, ==_iff i j), ground (arith, fewer, ap f mine, e))
      | inr e ↦ (w, now ∙ ground (arith, e, ==_iff j i, ==_iff i j), ground (arith, e))
    ]

-- Threads that move by turns: `threads` of a state, `step` by one thread, `steps` by a schedule. A
-- measure that a thread's own steps bring down is down by as many as it had turns.
pub turns_leave_fewer :
    {A S : Type 0} (threads : S → List A) (step : S → ℕ → S) (steps : S → List ℕ → S) (f : A → ℕ)
    → ((s : S) → steps s [] ≡ s)
    → ((s : S) (j : ℕ) (is : List ℕ) → steps s (j ∷ is) ≡ steps (step s j) is)
    → ((s : S) (j i : ℕ) (w : A)
        → get_elem? (threads s) i ≡ some w
        → (w' : A) × (get_elem? (threads (step s j)) i ≡ some w') × (f w' ≤ f w - one_at i j))
    → (is : List ℕ) (i : ℕ) (s : S) (w : A) → get_elem? (threads s) i ≡ some w
    → (w' : A) × (get_elem? (threads (steps s is)) i ≡ some w') × (f w' ≤ f w - times i is)
unfolding total
turns_leave_fewer threads step steps f stop go each [] i s w h =
    (w, ap (λ x. get_elem? (threads x) i) (stop s) ∙ h, omega arith)
turns_leave_fewer threads step steps f stop go each (j ∷ is) i s w h =
    let (u, now, fewer) = each s j i w h in
    let (w', end, fewer') =
      turns_leave_fewer threads step steps f stop go each is i (step s j) u now in
    (w', ap (λ x. get_elem? (threads x) i) (go s j is) ∙ end, omega (arith, fewer, fewer'))

-- A turn of a thread that is there or not.
pub turn_leaves_fewer :
    {A S : Type 0} (threads : S → List A) (f : A → ℕ) (turn : A → S → A)
    → ((w : A) (s : S) → f (turn w s) ≤ f w - 1)
    → (moved : S → ℕ → Option A → S) → ((s : S) (j : ℕ) → moved s j none ≡ s)
    → ((s : S) (j : ℕ) (u : A)
        → threads (moved s j (some u)) ≡ modify j (λ _. turn u s) (threads s))
    → (s : S) (j i : ℕ) (w : A) → get_elem? (threads s) i ≡ some w
    → (w' : A) × (get_elem? (threads (moved s j (get_elem? (threads s) j))) i ≡ some w')
      × (f w' ≤ f w - one_at i j)
turn_leaves_fewer threads f turn fewer moved idle turns s j i w h =
    elim (Option-cases (get_elem? (threads s) j)) [
      | inl missing ↦ (
        w,
        ap (λ o. get_elem? (threads (moved s j o)) i) missing
            ∙ ap (λ x. get_elem? (threads x) i) (idle s j)
            ∙ h,
        elim (Bool-cases (j == i)) [
          | inl e ↦ absurd (ground (arith, missing, h, (==_iff j i).0 e))
          | inr e ↦ ground (arith, e)
        ],
      )
      | inr (u, found) ↦
          let (w', now, less) =
            modify_leaves_fewer f (threads s) j i u (turn u s) w found h (fewer u s) in
          (
            w',
            ap (λ o. get_elem? (threads (moved s j o)) i) found
                ∙ ap (λ l. get_elem? l i) (turns s j u)
                ∙ now,
            less,
          )
    ]

pub total_none :
    {A : Type 0} (f : A → ℕ) (xs : List A)
    → ((i : ℕ) (x : A) → get_elem? xs i ≡ some x → f x ≡ 0)
    → total f xs ≡ 0
unfolding total get_elem?
total_none f [] h = refl
total_none f (x ∷ xs) h = omega (arith, h 0 x refl, total_none f xs (λ i y e. h (suc i) y e))
