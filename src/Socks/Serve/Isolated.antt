-- ===== src/Socks/Serve/Isolated.antt =====
-- The isolation of the connections of one listener (rust/arti-ffi/src/socks.rs: `spawn`).
pub mod Pairs
use go_arti.Prelude.{
  ℕ, ◌+◌, ◌-◌, ◌≡◌, refl, sym, ap, ◌∙◌, ◌↔◌, Option, none, some, List, [], ◌∷◌, ◌++◌, Result, ok,
  err, Text,
}
use mathlib.Core.Path.{subst}
use go_arti.Socks.Stream.{Stream}
use go_arti.Socks.Protocol.{Credentials}
use go_arti.Socks.Isolation.{Isolation, token_for, after_others}
use go_arti.Socks.Isolation.Apart.{
  IsIsolating, IsIsolating-empty, token_for-separates, after_others-IsIsolating,
}
use go_arti.Socks.Serve.{
  Asked, Served, Handshake, IoError, handshake, isolation_of, after_handshake, connected, serve_one,
  accept_loop,
}

-- The credentials with which a connection asks for a token, if it does.
abbrev requests_of : Result IoError Handshake → List Credentials
requests_of (ok (some c, some target)) = c ∷ []
requests_of _ = []

requested : List (Option Stream) → List Credentials
requested [] = []
requested (none ∷ rest) = requested rest
requested (some sock ∷ rest) = requests_of (handshake sock).0 ++ requested rest

module _ {Token : Type 0} (fresh : ℕ → Token) where
  after_others-append :
      (cs ds : List Credentials) (s : Isolation Token)
      → after_others fresh (cs ++ ds) s ≡ after_others fresh ds (after_others fresh cs s)
  unfolding after_others
  after_others-append [] ds s = refl
  after_others-append (c ∷ cs) ds s = after_others-append cs ds (token_for fresh c s).1

-- The table of a new listener.
abbrev pub new_table : {Token : Type 0} → Isolation Token
new_table = record { tokens = []; minted = 0 }

module _ {Token Remote : Type 0} (fresh : ℕ → Token)
    (connect_with_prefs : Asked Token → Option Remote)
    (copy_bidirectional : Remote → Stream → Stream) where
  abbrev pub serve : Isolation Token → Stream → Served Token
  serve = serve_one fresh connect_with_prefs copy_bidirectional

  abbrev pub accept : Isolation Token → List (Option Stream) → List (Served Token) × Isolation Token
  accept = accept_loop fresh connect_with_prefs copy_bidirectional

  after_handshake_table :
      (table : Isolation Token) (r : Result IoError Handshake) (s : Stream)
      → (after_handshake fresh connect_with_prefs copy_bidirectional table (r, s)).table
        ≡ after_others fresh (requests_of r) table
  unfolding after_handshake isolation_of after_others
  after_handshake_table table (err e) s = refl
  after_handshake_table table (ok (none, none)) s = refl
  after_handshake_table table (ok (some c, none)) s = refl
  after_handshake_table table (ok (none, some (host, port))) s = refl
  after_handshake_table table (ok (some c, some (host, port))) s = refl

  -- The table after a listener's connections is what their requests alone make of it.
  accept_table :
      (table : Isolation Token) (socks : List (Option Stream))
      → (accept table socks).1 ≡ after_others fresh (requested socks) table
  unfolding accept_loop serve_one requested after_others
  accept_table table [] = refl
  accept_table table (none ∷ rest) = accept_table table rest
  accept_table table (some sock ∷ rest) =
      accept_table (serve table sock).table rest
      ∙ ap (after_others fresh (requested rest))
          (after_handshake_table table (handshake sock).0 (handshake sock).1)
      ∙ sym (after_others-append fresh (requests_of (handshake sock).0) (requested rest) table)

  pub accept_loop-append_table :
      (table : Isolation Token) (xs ys : List (Option Stream))
      → (accept table (xs ++ ys)).1 ≡ (accept (accept table xs).1 ys).1
  unfolding accept_loop
  accept_loop-append_table table [] ys = refl
  accept_loop-append_table table (none ∷ xs) ys = accept_loop-append_table table xs ys
  accept_loop-append_table table (some sock ∷ xs) ys =
      accept_loop-append_table (serve table sock).table xs ys

  abbrev pub Asks : Isolation Token → Credentials → Text × ℕ → Served Token → Type 0
  Asks table c target served =
      (served.asked
        ≡ some (record {
          host = target.0;
          port = target.1;
          isolation = some (token_for fresh c table).0;
        }))
      × (served.table ≡ (token_for fresh c table).1)

  after_handshake-asked :
      (table : Isolation Token) (r : Result IoError Handshake) (s : Stream) (c : Credentials)
      (target : Text × ℕ)
      → r ≡ ok (some c, some target)
      → Asks table c target
          (after_handshake fresh connect_with_prefs copy_bidirectional table (r, s))
  unfolding after_handshake isolation_of connected
  after_handshake-asked table r s c target h = rw h (refl, refl)

  -- What a connection that logged in asks for.
  pub serve_one-asked :
      (table : Isolation Token) (sock : Stream) (c : Credentials) (target : Text × ℕ)
      → (handshake sock).0 ≡ ok (some c, some target)
      → Asks table c target (serve table sock)
  unfolding serve_one
  serve_one-asked table sock c target h =
      after_handshake-asked table (handshake sock).0 (handshake sock).1 c target h

  accept-IsIsolating :
      ((m n : ℕ) → fresh m ≡ fresh n → m ≡ n)
      → (socks : List (Option Stream)) → IsIsolating fresh (accept new_table socks).1
  accept-IsIsolating distinct socks =
      subst (IsIsolating fresh) (sym (accept_table new_table socks)) (
        after_others-IsIsolating fresh distinct (requested socks) new_table
          (IsIsolating-empty fresh))

  -- The tokens of two connections of which one is served after the other.
  pub tokens_apart :
      ((m n : ℕ) → fresh m ≡ fresh n → m ≡ n)
      → (before between : List (Option Stream)) (a : Stream) (c d : Credentials) (target : Text × ℕ)
      → (handshake a).0 ≡ ok (some c, some target)
      → ((token_for fresh d (accept (serve (accept new_table before).1 a).table between).1).0
          ≡ (token_for fresh c (accept new_table before).1).0)
        ↔ (d ≡ c)
  tokens_apart distinct before between a c d target ha =
      let t0 = (accept new_table before).1 in
      let x = serve t0 a in
      let table_between : after_others fresh (requested between) (token_for fresh c t0).1
          ≡ (accept x.table between).1 =
        ap (after_others fresh (requested between)) (sym (serve_one-asked t0 a c target ha).1)
        ∙ sym (accept_table x.table between) in
      subst (λ t. ((token_for fresh d t).0 ≡ (token_for fresh c t0).0) ↔ (d ≡ c)) table_between
        (token_for-separates fresh distinct c d (requested between) t0
          (accept-IsIsolating distinct before))
