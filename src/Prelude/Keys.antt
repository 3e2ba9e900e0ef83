-- ===== src/Prelude/Keys.antt =====
-- The standard library's HashMap, as an association list. Its iteration order is unspecified, so
-- no statement of the development rests on the order of the entries.
use Prim.Native.Nat.{ℕ}
use mathlib.Core.Path.{◌≡◌, refl}
use mathlib.Core.Logic.{◌↔◌}
use mathlib.Core.Bool.{Bool, true, ◌&&◌}
use mathlib.Core.List.{List, [], ◌∷◌}
use mathlib.Core.Option.{Option, none, some}
use native.Mathlib.Omega.{arith}
use go_arti.Prelude.Tests.{if◌then◌else◌, ◌==◌, ==_iff}
use go_arti.Prelude.Lists.{Text, text_eq, text_eq_iff}

pub record Eq {ℓ} (A : Type ℓ) : Type ℓ where
  pub beq : A → A → Bool
  pub beq_iff : (a b : A) → (beq a b ≡ true) ↔ (a ≡ b)

instance abbrev pub text_key : Eq Text
text_key = record { beq = text_eq; beq_iff = text_eq_iff }

pub pair_eq_iff : (a b : Text × Text) → ((text_eq a.0 b.0 && text_eq a.1 b.1) ≡ true) ↔ (a ≡ b)
pair_eq_iff (a, c) (b, d) = (
  λ h. ground (arith, text_eq_iff a b, text_eq_iff c d),
  λ h. ground (arith, text_eq_iff a b, text_eq_iff c d),
)

instance abbrev pub number_key : Eq ℕ
number_key = record { beq = ◌==◌; beq_iff = ==_iff }

instance abbrev pub pair_key : Eq (Text × Text)
pair_key = record { beq = λ a b. text_eq a.0 b.0 && text_eq a.1 b.1; beq_iff = pair_eq_iff }

module _ {ℓ} {K V : Type ℓ} ⦃e : Eq K⦄ where
  unfoldable pub lookup : K → List (K × V) → Option V
  lookup k [] = none
  lookup k ((j, v) ∷ m) = if e.beq j k then some v else lookup k m

  -- A key that is there keeps its place and its first spelling, and gets the new value.
  unfoldable pub insert : K → V → List (K × V) → List (K × V)
  insert k v [] = (k, v) ∷ []
  insert k v ((j, w) ∷ m) = if e.beq j k then (j, v) ∷ m else (j, w) ∷ insert k v m

  unfoldable pub remove : K → List (K × V) → List (K × V)
  remove k [] = []
  remove k ((j, w) ∷ m) = let rest = remove k m in if e.beq j k then rest else (j, w) ∷ rest

  pub lookup-insert :
      (k j : K) (v : V) (m : List (K × V))
      → lookup j (insert k v m) ≡ (if e.beq k j then some v else lookup j m)
  unfolding lookup insert
  lookup-insert k j v [] = refl
  lookup-insert k j v ((i, w) ∷ m) =
      ground (arith, e.beq_iff k j, e.beq_iff i k, e.beq_iff i j, lookup-insert k j v m)

  pub lookup-remove :
      (k j : K) (m : List (K × V))
      → lookup j (remove k m) ≡ (if e.beq k j then none else lookup j m)
  unfolding lookup remove
  lookup-remove k j [] = ground arith
  lookup-remove k j ((i, w) ∷ m) =
      ground (arith, e.beq_iff k j, e.beq_iff i k, e.beq_iff i j, lookup-remove k j m)

pub beq_refl {ℓ} : {K : Type ℓ} ⦃e : Eq K⦄ (k : K) → e.beq k k ≡ true
beq_refl ⦃e⦄ k = (e.beq_iff k k).1 refl

pub ruleset map_laws = (lookup-insert, lookup-remove, beq_refl)
