-- ===== src/Socks/Serve/Tasks/Apart.antt =====
-- The isolation of the concurrent tasks of a listener (rust/arti-ffi/src/socks.rs: `spawn`,
-- `serve_one`).

use mathlib.Core.Path.{subst}
use go_arti.Prelude.{
  ℕ, ◌≤◌, ◌≡◌, sym, ap, ◌∙◌, ◌≢◌, ◌↔◌, ◌⊎◌, inl, inr, Option, some, List, [], ◌∷◌, ◌++◌, arith,
  Result, ok, Text, get_elem?, times,
}
use go_arti.Socks.Stream.{Stream, IoError}
use go_arti.Socks.Protocol.{Credentials}
use go_arti.Socks.Isolation.{Isolation, token_for}
use go_arti.Socks.Serve.{Asked, handshake, serve_one, accept_loop}
use go_arti.Socks.Serve.Isolated.{
  new_table, tokens_apart, serve_one-asked, accept_loop-append_table,
}
use go_arti.Socks.Serve.Tasks.{over, run}
use go_arti.Socks.Serve.Tasks.Places.{in_order, in_order-append, Placed, table_after}
use go_arti.Socks.Serve.Tasks.Finish.{run-served}

-- Of two entries of a list, one is before the other.
one_before :
    (b b' l l' : List ℕ) (i j : ℕ)
    → i ≢ j
    → b ++ i ∷ l ≡ b' ++ j ∷ l'
    → ((between : List ℕ) × (b' ≡ b ++ i ∷ between))
      ⊎ ((between : List ℕ) × (b ≡ b' ++ j ∷ between))
one_before [] [] l l' i j n e = absurd (ground arith)
one_before [] (x ∷ b') l l' i j n e = inl (b', ground arith)
one_before (x ∷ b) [] l l' i j n e = inr (b, ground arith)
one_before (x ∷ b) (y ∷ b') l l' i j n e = elim (one_before b b' l l' i j n (ground arith)) [
  | inl (between, e') ↦ inl (between, ground (arith, e'))
  | inr (between, e') ↦ inr (between, ground (arith, e'))
]

module _ {Token Remote : Type 0} (fresh : ℕ → Token)
    (connect_with_prefs : Asked Token → Option Remote)
    (copy_bidirectional : Remote → Stream → Stream) (socks : List Stream) where
  abbrev tbl : List ℕ → Isolation Token
  tbl = table_after fresh connect_with_prefs copy_bidirectional socks

  -- What the task of a connection that passing in has asked of the client, by its place.
  Placed-asked :
      (passed : List ℕ) (i : ℕ) (result : Result IoError (Unit {0})) (sock' : Stream)
      (asked : Option (Asked Token)) (x : Stream) (c : Credentials) (target : Text × ℕ)
      → get_elem? socks i ≡ some x
      → (handshake x).0 ≡ ok (some c, some target)
      → (h : Placed fresh connect_with_prefs copy_bidirectional socks passed i
          (result, sock', asked))
      → asked
        ≡ some (record {
          host = target.0;
          port = target.1;
          isolation = some (token_for fresh c (tbl h.before)).0;
        })
  Placed-asked passed i result sock' asked x c target mine shook h =
      let same : h.sock ≡ x = ground (arith, mine, h.mine) in
      let asks =
        serve_one-asked fresh connect_with_prefs copy_bidirectional (tbl h.before) h.sock c target
          (ap (λ s. (handshake s).0) same ∙ shook) in
      ap (λ d. d.2) h.same ∙ asks.0

  tbl-later :
      (b between : List ℕ) (i : ℕ) (x : Stream)
      → get_elem? socks i ≡ some x
      → tbl (b ++ i ∷ between)
        ≡ (accept_loop fresh connect_with_prefs copy_bidirectional
            (serve_one fresh connect_with_prefs copy_bidirectional (tbl b) x).table
            (in_order socks between)).1
  unfolding accept_loop
  tbl-later b between i x e =
      ap (λ l. (accept_loop fresh connect_with_prefs copy_bidirectional new_table l).1)
        (in_order-append socks b (i ∷ between))
      ∙ accept_loop-append_table fresh connect_with_prefs copy_bidirectional new_table
          (in_order socks b) (in_order socks (i ∷ between))
      ∙ ap
          (λ o.
            (accept_loop fresh connect_with_prefs copy_bidirectional (tbl b)
              (o ∷ in_order socks between)).1)
          e

  -- Of two tasks, the one that was later past its handshake.
  later-isolates :
      ((m n : ℕ) → fresh m ≡ fresh n → m ≡ n)
      → (b b' between : List ℕ) (i : ℕ) (x : Stream) (c d : Credentials) (target : Text × ℕ)
      → get_elem? socks i ≡ some x
      → (handshake x).0 ≡ ok (some c, some target)
      → b' ≡ b ++ i ∷ between
      → ((token_for fresh d (tbl b')).0 ≡ (token_for fresh c (tbl b)).0) ↔ (d ≡ c)
  later-isolates distinct b b' between i x c d target mine shook e =
      subst (λ t. ((token_for fresh d t).0 ≡ (token_for fresh c (tbl b)).0) ↔ (d ≡ c))
        (sym (ap tbl e ∙ tbl-later b between i x mine))
        (tokens_apart fresh connect_with_prefs copy_bidirectional distinct (in_order socks b)
          (in_order socks between) x c d target shook)

  -- A task is over and has asked the client for a target under a token.
  abbrev pub HasAsked : List ℕ → ℕ → Text × ℕ → Token → Type 0
  HasAsked is i target token =
      (result : Result IoError (Unit {0})) × (sock : Stream) × (get_elem?
          (run fresh connect_with_prefs copy_bidirectional socks is).tasks i
        ≡ some (
            over result sock
              (some (record { host = target.0; port = target.1; isolation = some token }))))

  -- However the tasks of a listener's connections are scheduled, when no two tokens that the crate
  -- makes are equal: two tasks that have moved three times, of connections that passing in and
  -- asked for a target, are over and have asked the client for their targets, under the same
  -- isolation token exactly if the user name and the password were the same.
  pub run-isolates :
      ((m n : ℕ) → fresh m ≡ fresh n → m ≡ n)
      → (is : List ℕ) (i j : ℕ) (x y : Stream) (c d : Credentials) (target target' : Text × ℕ)
      → i ≢ j
      → get_elem? socks i ≡ some x
      → get_elem? socks j ≡ some y
      → (handshake x).0 ≡ ok (some c, some target)
      → (handshake y).0 ≡ ok (some d, some target')
      → 3 ≤ times i is
      → 3 ≤ times j is
      → (t t' : Token) × HasAsked is i target t × HasAsked is j target' t' × ((t' ≡ t) ↔ (d ≡ c))
  run-isolates distinct is i j x y c d target target' n hx hy shook shook' often often' =
      let (r, s, a, over_i, p, _) =
        run-served fresh connect_with_prefs copy_bidirectional socks is i x hx often in
      let (r', s', b, over_j, q, _) =
        run-served fresh connect_with_prefs copy_bidirectional socks is j y hy often' in
      let k = Placed-asked _ i r s a x c target hx shook p in
      let k' = Placed-asked _ j r' s' b y d target' hy shook' q in
      (
        (token_for fresh c (tbl p.before)).0,
        (token_for fresh d (tbl q.before)).0,
        (r, s, over_i ∙ ap (λ o. some (over r s o)) k),
        (r', s', over_j ∙ ap (λ o. some (over r' s' o)) k'),
        elim (one_before p.before q.before p.after q.after i j n (sym p.split ∙ q.split)) [
          | inl (between, e) ↦
              later-isolates distinct p.before q.before between i x c d target hx shook e
          | inr (between, e) ↦
              let (there, back) =
                later-isolates distinct q.before p.before between j y d c target' hy shook' e in
              (λ h. sym (there (sym h)), λ h. sym (back (sym h)))
        ],
      )
