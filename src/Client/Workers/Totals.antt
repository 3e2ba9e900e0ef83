-- ===== src/Client/Workers/Totals.antt =====
-- Sums over the lists of a client: its calls, the table of its services, and its threads.
use go_arti.Prelude.{
  ℕ, ◌+◌, ◌≡◌, refl, sym, ap, ◌∙◌, inl, inr, Option, none, some, List, [], ◌∷◌, arith, Bool-cases,
  Text, text_eq, text_eq_iff, total,
}
use go_arti.Prelude.Keys.{text_key, lookup, insert, remove, lookup-insert, lookup-remove}
use go_arti.Client.Workers.{values}
use go_arti.Onion.{Service}

module _ {A : Type 0} (f : A → ℕ) where
  abbrev pub of_option : Option A → ℕ
  of_option none = 0
  of_option (some x) = f x

module _ {P : Type 0} where
  -- No key stands twice in the table.
  abbrev pub IsTable : List (Text × Service P) → Type 0
  IsTable [] = Unit
  IsTable ((id, svc) ∷ m) = (lookup id m ≡ none) × IsTable m

  pub insert-IsTable :
      (k : Text) (v : Service P) (m : List (Text × Service P)) → IsTable m → IsTable (insert k v m)
  unfolding insert
  insert-IsTable k v [] h = (unfold lookup in refl, tt)
  insert-IsTable k v ((j, w) ∷ m) h = elim (Bool-cases (text_eq j k)) [
    | inl e ↦ rw e h
    | inr e ↦ rw e (
      ground (arith, lookup-insert k j v m, text_eq_iff k j, text_eq_iff j k),
      insert-IsTable k v m h.1,
    )
  ]

  pub remove-IsTable : (k : Text) (m : List (Text × Service P)) → IsTable m → IsTable (remove k m)
  unfolding remove
  remove-IsTable k [] h = tt
  remove-IsTable k ((j, w) ∷ m) h = elim (Bool-cases (text_eq j k)) [
    | inl e ↦ rw e (remove-IsTable k m h.1)
    | inr e ↦ rw e (ground (arith, lookup-remove k j m), remove-IsTable k m h.1)
  ]

  module _ (f : Service P → ℕ) where
    pub total-insert :
        (k : Text) (v : Service P) (m : List (Text × Service P))
        → total f (values (insert k v m)) + of_option f (lookup k m) ≡ total f (values m) + f v
    unfolding total insert lookup
    total-insert k v [] = omega arith
    total-insert k v ((j, w) ∷ m) = ground (arith, total-insert k v m)

    remove_missing : (k : Text) (m : List (Text × Service P)) → lookup k m ≡ none → remove k m ≡ m
    unfolding remove lookup
    remove_missing k [] h = refl
    remove_missing k ((j, w) ∷ m) h = ground (arith, remove_missing k m)

    pub total-remove :
        (k : Text) (m : List (Text × Service P))
        → IsTable m
        → total f (values (remove k m)) + of_option f (lookup k m) ≡ total f (values m)
    unfolding total remove lookup
    total-remove k [] h = omega arith
    total-remove k ((j, w) ∷ m) h = elim (Bool-cases (text_eq j k)) [
      | inl e ↦ ground (
        arith,
        text_eq_iff j k,
        total-remove k m h.1,
        remove_missing k m (ap (λ x. lookup x m) (sym ((text_eq_iff j k).0 e)) ∙ h.0),
      )
      | inr e ↦ ground (arith, total-remove k m h.1)
    ]
