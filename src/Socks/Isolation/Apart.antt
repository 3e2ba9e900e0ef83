-- ===== src/Socks/Isolation/Apart.antt =====
-- The tokens of `Isolation` in rust/arti-ffi/src/socks.rs separate the credentials.
use go_arti.Prelude.{
  ℕ, ◌+◌, ◌<◌, ◌≡◌, refl, sym, ap, ◌∙◌, ◌↔◌, ◌⊎◌, inl, inr, Option, none, some, List, [], ◌∷◌,
  arith,
}
use go_arti.Prelude.Keys.{pair_key, lookup, lookup-insert, insert}
use go_arti.Socks.Protocol.{Credentials}
use go_arti.Socks.Isolation.{Isolation, token_for, after_others, known_or_new}

module _ {Token : Type 0} (fresh : ℕ → Token) where
  -- Every token in the table has been made, and no two keys share one.
  pub record IsIsolating (s : Isolation Token) : Type 0 where
    pub made :
        (c : Credentials) (t : Token)
        → lookup c s.tokens ≡ some t
        → (n : ℕ) × (n < s.minted) × (t ≡ fresh n)
    pub apart :
        (c d : Credentials) (t : Token)
        → lookup c s.tokens ≡ some t
        → lookup d s.tokens ≡ some t
        → c ≡ d

  lookup-token_for :
      (c : Credentials) (s : Isolation Token)
      → lookup c (token_for fresh c s).1.tokens ≡ some (token_for fresh c s).0
  unfolding token_for
  lookup-token_for c s =
      ground (arith, lookup-insert c c (fresh s.minted) s.tokens, pair_key.beq_iff c c)

  lookup-token_for_keep :
      (c d : Credentials) (s : Isolation Token) (t : Token)
      → lookup d s.tokens ≡ some t
      → lookup d (token_for fresh c s).1.tokens ≡ some t
  unfolding token_for
  lookup-token_for_keep c d s t h =
      ground (arith, lookup-insert c d (fresh s.minted) s.tokens, pair_key.beq_iff c d)

  lookup-after_others :
      (cs : List Credentials) (d : Credentials) (s : Isolation Token) (t : Token)
      → lookup d s.tokens ≡ some t
      → lookup d (after_others fresh cs s).tokens ≡ some t
  unfolding after_others
  lookup-after_others [] d s t h = h
  lookup-after_others (c ∷ cs) d s t h =
      lookup-after_others cs d (token_for fresh c s).1 t (lookup-token_for_keep c d s t h)

module _ {Token : Type 0} (fresh : ℕ → Token)
    (distinct : (m n : ℕ) → fresh m ≡ fresh n → m ≡ n) where
  known-IsIsolating :
      (c : Credentials) (s : Isolation Token) (o : Option Token)
      → lookup c s.tokens ≡ o
      → IsIsolating fresh s
      → IsIsolating fresh (known_or_new fresh c o s).1
  unfolding known_or_new
  known-IsIsolating c s (some t) e h = h
  known-IsIsolating c s none e h = record {
    made = λ d t p. inserted_made d t (known d t p);
    apart = λ a b t p q. inserted_apart a b t (known a t p) (known b t q);
  }
    where
      Known : Credentials → Token → Type 0
      Known d t = ((d ≡ c) × (t ≡ fresh s.minted)) ⊎ (lookup d s.tokens ≡ some t)

      known :
          (d : Credentials) (t : Token)
          → lookup d (insert c (fresh s.minted) s.tokens) ≡ some t
          → Known d t
      known d t p =
          ground (arith, lookup-insert c d (fresh s.minted) s.tokens, pair_key.beq_iff c d)

      inserted_made :
          (d : Credentials) (t : Token) → Known d t → (n : ℕ) × (n < s.minted + 1) × (t ≡ fresh n)
      inserted_made d t (inl k) = (s.minted, omega arith, k.1)
      inserted_made d t (inr k) = let (n, lt, e') = h.made d t k in (n, omega arith, e')

      -- A token of the table is older than the new one.
      older : (d : Credentials) (t : Token) → lookup d s.tokens ≡ some t → t ≡ fresh s.minted → ⊥
      older d t k e' =
          let (n, lt, e'') = h.made d t k in
          let same : n ≡ s.minted = distinct n s.minted (sym e'' ∙ e') in omega arith

      inserted_apart : (a b : Credentials) (t : Token) → Known a t → Known b t → a ≡ b
      inserted_apart a b t (inl k) (inl l) = k.0 ∙ sym l.0
      inserted_apart a b t (inl k) (inr l) = absurd (older b t l k.1)
      inserted_apart a b t (inr k) (inl l) = absurd (older a t k l.1)
      inserted_apart a b t (inr k) (inr l) = h.apart a b t k l

  -- Looking a token up, or making one, keeps the table isolating.
  token_for-IsIsolating :
      (c : Credentials) (s : Isolation Token)
      → IsIsolating fresh s
      → IsIsolating fresh (token_for fresh c s).1
  unfolding token_for
  token_for-IsIsolating c s h = known-IsIsolating c s (lookup c s.tokens) refl h

  pub after_others-IsIsolating :
      (cs : List Credentials) (s : Isolation Token)
      → IsIsolating fresh s
      → IsIsolating fresh (after_others fresh cs s)
  unfolding after_others
  after_others-IsIsolating [] s h = h
  after_others-IsIsolating (c ∷ cs) s h =
      after_others-IsIsolating cs (token_for fresh c s).1 (token_for-IsIsolating c s h)

  -- From any isolating table, two connections get one token exactly when they gave the same
  -- user name and password, whatever connections asked in between.
  pub token_for-separates :
      (c d : Credentials) (cs : List Credentials) (s : Isolation Token)
      → IsIsolating fresh s
      → (let (t, s1) = token_for fresh c s in
          ((token_for fresh d (after_others fresh cs s1)).0 ≡ t) ↔ (d ≡ c))
  token_for-separates c d cs s h = (
    λ e. final.apart d c (token_for fresh c s).0 (lookup-token_for fresh d s2 ∙ ap some e) kept,
    λ e.
        cc
          (lookup-token_for fresh d s2, ap (λ x. lookup x (token_for fresh d s2).1.tokens) e, kept),
  )
    where
      s2 : Isolation Token
      s2 = after_others fresh cs (token_for fresh c s).1

      final : IsIsolating fresh (token_for fresh d s2).1
      final =
          token_for-IsIsolating d s2
            (after_others-IsIsolating cs (token_for fresh c s).1 (token_for-IsIsolating c s h))

      kept : lookup c (token_for fresh d s2).1.tokens ≡ some (token_for fresh c s).0
      kept = lookup-token_for_keep fresh d c s2 (token_for fresh c s).0 (
          lookup-after_others fresh cs c (token_for fresh c s).1 (token_for fresh c s).0
            (lookup-token_for fresh c s))

-- The table of a new listener is isolating.
pub IsIsolating-empty :
    {Token : Type 0} (fresh : ℕ → Token) → IsIsolating fresh (record { tokens = []; minted = 0 })
unfolding lookup
IsIsolating-empty fresh = record { made = λ c t e. cc; apart = λ c d t e e'. cc }
