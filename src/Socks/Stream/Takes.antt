-- ===== src/Socks/Stream/Takes.antt =====
-- Rules for which bytes an action on the stream of rust/arti-ffi/src/socks.rs has taken off the
-- input when it succeeds.
use mathlib.Core.Path.{subst}
use go_arti.Prelude.{
  ℕ, ◌<◌, ◌≡◌, refl, sym, ap, ◌∙◌, ◌≢◌, inl, inr, [], ◌∷◌, ◌++◌, append_assoc, arith, leb,
  Bool-cases, Option-cases, Result, ok, err, Result-cases, length, split_at?, Bytes,
}
use go_arti.Socks.Stream.{
  continue, Stream, IoError, Io, ◌>>=◌, ◌>>◌, pure, fail, read_exact, write_all, taken,
}
use go_arti.Socks.Stream.Effects.{IsBytes, All-append-left, All-append-right, split_at?-eq}

-- These bytes were taken off the front of the input, and they and the result are related by `Q`.
abbrev pub Took : {A : Type 0} → (A → Bytes → Type 0) → Stream → A → Stream → Type 0
Took Q s a s' =
    (front : Bytes) × (s.input ≡ front ++ s'.input) × IsBytes front × IsBytes s'.input × Q a front

abbrev pub Takes : {A : Type 0} → (A → Bytes → Type 0) → Io A → Type 0
Takes {A} Q m = (s : Stream) (a : A) → IsBytes s.input → (m s).0 ≡ ok a → Took Q s a (m s).1

err_ne_ok : {A : Type 0} {e : IoError} {a : A} → err e ≢ ok a
err_ne_ok h = absurd (ground arith)

ok-inj : {A : Type 0} {a b : A} → ◌≡◌ {A = Result IoError A} (ok a) (ok b) → a ≡ b
ok-inj h = ground arith

read_exact-Takes : (n : ℕ) → Takes (λ b front. (b ≡ front) × (length b ≡ n)) (read_exact n)
unfolding read_exact taken
read_exact-Takes n s b bytes h = elim (Option-cases (split_at? n s.input)) [
  | inl e ↦ absurd (err_ne_ok (sym (ap (λ o. (taken s o).0) e) ∙ h))
  | inr ((front, rest), e) ↦
      let (whole, size) = split_at?-eq n s.input front rest e in
      let same : front ≡ b = ok-inj (sym (ap (λ o. (taken s o).0) e) ∙ h) in
      rw (read_exact, taken, e)
        (
          front,
          whole,
          All-append-left front rest (rw whole at bytes),
          All-append-right front rest (rw whole at bytes),
          (sym same, ap length (sym same) ∙ size),
        )
]

All-append : (xs ys : Bytes) → IsBytes xs → IsBytes ys → IsBytes (xs ++ ys)
All-append [] ys h k = k
All-append (x ∷ xs) ys h k = (h.0, All-append xs ys h.1 k)

write_all-Takes : (b : Bytes) → Takes (λ _ front. front ≡ []) (write_all b)
unfolding write_all
write_all-Takes b s a bytes h = elim (Bool-cases (leb (length b) s.room)) [
  | inl e ↦ rw (write_all, e) ([], refl, tt, bytes, refl)
  | inr e ↦ rw (write_all, e) ([], refl, tt, bytes, refl)
]

module _ {A : Type 0} (Q : A → Bytes → Type 0) where
  pub Takes-pure : (a : A) → Q a [] → Takes Q (pure a)
  Takes-pure a q s a' bytes h = ([], refl, tt, bytes, subst (λ x. Q x []) (ok-inj h) q)

  pub Takes-fail : (e : IoError) → Takes Q (fail e)
  Takes-fail e s a bytes h = absurd (ground arith)

  pub Takes-bind :
      {B : Type 0} (P : B → Bytes → Type 0) (m : Io B) (f : B → Io A)
      → Takes P m
      → ((b : B) (front : Bytes)
          → P b front
          → IsBytes front
          → Takes (λ a rest. Q a (front ++ rest)) (f b))
      → Takes Q (m >>= f)
  Takes-bind P m f first later s a bytes h = elim (Result-cases (m s).0) [
    | inl (b, e) ↦
        let (front, whole, front_bytes, rest_bytes, p) = first s b bytes e in
        let on = ap (λ r. continue r f (m s).1) e in
        let (front', whole', front_bytes', rest_bytes', q) =
          later b front p front_bytes (m s).1 a rest_bytes (sym (ap (λ x. x.0) on) ∙ h) in
        subst (λ s'. Took Q s a s') (sym (ap (λ x. x.1) on))
          (
            front ++ front',
            whole
                ∙ ap (λ l. front ++ l) whole'
                ∙ sym (append_assoc front front' (f b (m s).1).1.input),
            All-append front front' front_bytes front_bytes',
            rest_bytes',
            q,
          )
    | inr (x, e) ↦ absurd (err_ne_ok (sym (ap (λ r. (continue r f (m s).1).0) e) ∙ h))
  ]

  pub Takes-read :
      (n : ℕ) (f : Bytes → Io A)
      → ((b : Bytes) → length b ≡ n → IsBytes b → Takes (λ a rest. Q a (b ++ rest)) (f b))
      → Takes Q (read_exact n >>= f)
  Takes-read n f later =
      Takes-bind (λ b front. (b ≡ front) × (length b ≡ n)) (read_exact n) f (read_exact-Takes n)
        (λ b front p front_bytes.
          subst (λ x. Takes (λ a rest. Q a (x ++ rest)) (f b)) p.0
            (later b p.1 (subst IsBytes (sym p.0) front_bytes)))

  pub Takes-write : (b : Bytes) (m : Io A) → Takes Q m → Takes Q (write_all b >> m)
  Takes-write b m later =
      Takes-bind (λ _ front. front ≡ []) (write_all b) (λ _. m) (write_all-Takes b)
        (λ _ front e _. subst (λ x. Takes (λ a rest. Q a (x ++ rest)) m) (sym e) later)

-- The sizes of the fixed buffers.
module _ {A : Type 0} (Q : A → Bytes → Type 0) (f : Bytes → Io A) where
  pub Takes-read_one :
      ((x : ℕ) → x < 256 → Takes (λ a rest. Q a (x ∷ rest)) (f (x ∷ [])))
      → Takes Q (read_exact 1 >>= f)
  Takes-read_one later = Takes-read Q 1 f of_bytes
    where
      of_bytes : (b : Bytes) → length b ≡ 1 → IsBytes b → Takes (λ a rest. Q a (b ++ rest)) (f b)
      of_bytes [] n h = absurd (omega (arith, n))
      of_bytes (x ∷ []) n h = later x h.0
      of_bytes (x ∷ y ∷ zs) n h = absurd (omega (arith, n))

  pub Takes-read_two :
      ((x y : ℕ) → x < 256 → y < 256 → Takes (λ a rest. Q a (x ∷ y ∷ rest)) (f (x ∷ y ∷ [])))
      → Takes Q (read_exact 2 >>= f)
  Takes-read_two later = Takes-read Q 2 f of_bytes
    where
      of_bytes : (b : Bytes) → length b ≡ 2 → IsBytes b → Takes (λ a rest. Q a (b ++ rest)) (f b)
      of_bytes [] n h = absurd (omega (arith, n))
      of_bytes (x ∷ []) n h = absurd (omega (arith, n))
      of_bytes (x ∷ y ∷ []) n h = later x y h.0 h.1.0
      of_bytes (x ∷ y ∷ z ∷ zs) n h = absurd (omega (arith, n))

  pub Takes-read_four :
      ((x y z w : ℕ) → Takes (λ a rest. Q a (x ∷ y ∷ z ∷ w ∷ rest)) (f (x ∷ y ∷ z ∷ w ∷ [])))
      → Takes Q (read_exact 4 >>= f)
  Takes-read_four later = Takes-read Q 4 f of_bytes
    where
      of_bytes : (b : Bytes) → length b ≡ 4 → IsBytes b → Takes (λ a rest. Q a (b ++ rest)) (f b)
      of_bytes [] n h = absurd (omega (arith, n))
      of_bytes (x ∷ []) n h = absurd (omega (arith, n))
      of_bytes (x ∷ y ∷ []) n h = absurd (omega (arith, n))
      of_bytes (x ∷ y ∷ z ∷ []) n h = absurd (omega (arith, n))
      of_bytes (x ∷ y ∷ z ∷ w ∷ []) n h = later x y z w
      of_bytes (x ∷ y ∷ z ∷ w ∷ v ∷ vs) n h = absurd (omega (arith, n))

pub Takes-weaken :
    {A : Type 0} (P Q : A → Bytes → Type 0) (m : Io A)
    → ((a : A) (front : Bytes) → P a front → Q a front)
    → Takes P m
    → Takes Q m
Takes-weaken P Q m imply m-takes s a bytes h =
    let (front, whole, front_bytes, rest_bytes, p) = m-takes s a bytes h in
    (front, whole, front_bytes, rest_bytes, imply a front p)
