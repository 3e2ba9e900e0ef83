-- ===== src/Socks/Serve/Isolated/Pairs.antt =====
-- Two connections among all that one listener serves (rust/arti-ffi/src/socks.rs: `spawn`).
use go_arti.Prelude.{
  ℕ, suc, ◌≡◌, refl, ap, ◌∙◌, ◌↔◌, Option, none, some, List, [], ◌∷◌, ◌++◌, ok, length, Text,
}
use go_arti.Socks.Stream.{Stream}
use go_arti.Socks.Protocol.{Credentials}
use go_arti.Socks.Isolation.{Isolation, token_for}
use go_arti.Socks.Serve.{Asked, Served, handshake, accept_loop}
use go_arti.Socks.Serve.Isolated.{new_table, serve, accept, serve_one-asked, tokens_apart}

-- How many connections were accepted.
accepted : List (Option Stream) → ℕ
accepted [] = 0
accepted (none ∷ rest) = accepted rest
accepted (some sock ∷ rest) = suc (accepted rest)

module _ {Token Remote : Type 0} (fresh : ℕ → Token)
    (connect_with_prefs : Asked Token → Option Remote)
    (copy_bidirectional : Remote → Stream → Stream) where
  abbrev serving : Isolation Token → Stream → Served Token
  serving = serve fresh connect_with_prefs copy_bidirectional

  abbrev accepting : Isolation Token → List (Option Stream) → List (Served Token) × Isolation Token
  accepting = accept fresh connect_with_prefs copy_bidirectional

  accept_loop-append :
      (table : Isolation Token) (xs ys : List (Option Stream))
      → (accepting table (xs ++ ys)).0
        ≡ (accepting table xs).0 ++ (accepting (accepting table xs).1 ys).0
  unfolding accept_loop
  accept_loop-append table [] ys = refl
  accept_loop-append table (none ∷ xs) ys = accept_loop-append table xs ys
  accept_loop-append table (some sock ∷ xs) ys =
      ap (◌∷◌ (serving table sock)) (accept_loop-append (serving table sock).table xs ys)

  length-accept_loop :
      (table : Isolation Token) (socks : List (Option Stream))
      → length (accepting table socks).0 ≡ accepted socks
  unfolding accept_loop accepted
  length-accept_loop table [] = refl
  length-accept_loop table (none ∷ rest) = length-accept_loop table rest
  length-accept_loop table (some sock ∷ rest) =
      ap suc (length-accept_loop (serving table sock).table rest)

  -- Among the connections served, one of number `m`, and one `n` after it, were connected to these
  -- targets, and under the same token exactly if the credentials are the same.
  abbrev Isolated :
      ℕ → ℕ → Credentials → Credentials → Text × ℕ → Text × ℕ → List (Served Token) → Type 0
  Isolated m n c d target target' served =
      (front middle back : List (Served Token)) × (x y : Served Token) × (t t' : Token) × (served
        ≡ front ++ x ∷ (middle ++ y ∷ back))
      × (length front ≡ m)
      × (length middle ≡ n)
      × (x.asked ≡ some (record { host = target.0; port = target.1; isolation = some t }))
      × (y.asked ≡ some (record { host = target'.0; port = target'.1; isolation = some t' }))
      × ((t' ≡ t) ↔ (d ≡ c))

  -- Of all the connections that one listener serves, whatever else it accepts before, between and
  -- after them and however those end, when no two tokens that the crate makes are equal: two that
  -- log in and ask for a target are connected to their targets, under the same isolation token
  -- exactly when they gave the same user name and password.
  accept_loop-isolates :
      ((m n : ℕ) → fresh m ≡ fresh n → m ≡ n)
      → (before between after : List (Option Stream)) (a b : Stream) (c d : Credentials)
        (target target' : Text × ℕ)
      → (handshake a).0 ≡ ok (some c, some target)
      → (handshake b).0 ≡ ok (some d, some target')
      → Isolated
          (accepted before)
          (accepted between)
          c
          d
          target
          target'
          (accepting new_table (before ++ some a ∷ (between ++ some b ∷ after))).0
  unfolding accept_loop
  accept_loop-isolates distinct before between after a b c d target target' ha hb =
      let (xs, t0) = accepting new_table before in
      let x = serving t0 a in
      let (ys, t2) = accepting x.table between in
      let y = serving t2 b in
      let asked = serve_one-asked fresh connect_with_prefs copy_bidirectional t0 a c target ha in
      (
        xs,
        ys,
        (accepting y.table after).0,
        x,
        y,
        (token_for fresh c t0).0,
        (token_for fresh d t2).0,
        accept_loop-append new_table before (some a ∷ (between ++ some b ∷ after))
            ∙ ap (λ l. xs ++ x ∷ l) (accept_loop-append x.table between (some b ∷ after)),
        length-accept_loop new_table before,
        length-accept_loop x.table between,
        asked.0,
        (serve_one-asked fresh connect_with_prefs copy_bidirectional t2 b d target' hb).0,
        tokens_apart fresh connect_with_prefs copy_bidirectional distinct before between a c d
            target ha,
      )
