-- ===== src/Socks/Isolation.antt =====
-- `Isolation` of rust/arti-ffi/src/socks.rs: the tokens that keep credentials apart. `fresh n` is
-- the n-th token that `IsolationToken::new` of the crate arti-client makes in this process.
pub mod Apart
use go_arti.Prelude.{ℕ, ◌+◌, Option, none, some, List, [], ◌∷◌}
use go_arti.Prelude.Keys.{pair_key, lookup, insert, lookup-insert}
use go_arti.Socks.Protocol.{Credentials}

pub record Isolation (Token : Type 0) : Type 0 where
  pub tokens : List (Credentials × Token)
  pub minted : ℕ

module _ {Token : Type 0} (fresh : ℕ → Token) where
  unfoldable pub known_or_new :
      Credentials → Option Token → Isolation Token → Token × Isolation Token
  known_or_new c (some t) s = (t, s)
  known_or_new c none s = (
    fresh s.minted,
    record s { tokens = insert c (fresh s.minted) s.tokens; minted = s.minted + 1 },
  )

  -- `map.entry((user, pass)).or_insert_with(IsolationToken::new)`, under the lock.
  unfoldable pub token_for : Credentials → Isolation Token → Token × Isolation Token
  unfolding known_or_new
  token_for c s = known_or_new c (lookup c s.tokens) s

  -- The requests of other connections that come in between.
  unfoldable pub after_others : List Credentials → Isolation Token → Isolation Token
  after_others [] s = s
  after_others (c ∷ cs) s = after_others cs (token_for c s).1
