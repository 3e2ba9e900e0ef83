-- ===== src/Client/New/Steps.antt =====
-- The steps of `Client::new` of rust/arti-ffi/src/client.rs that ask something of the system: the
-- private directories and the purge, and how a step ends the ones after it. What the file system
-- answers is a parameter.
use go_arti.Prelude.{
  ℕ, ◌≡◌, inl, inr, Bool, true, false, ◌&&◌, List, [], ◌∷◌, ◌++◌, arith, if◌then◌else◌, Bool-cases,
  Result, ok, err, Text, codes,
}
use go_arti.Errors.{Error}
use go_arti.Config.{Config, state_dir, cache_dir}
use go_arti.Config.TorConfig.{TorConfig}

-- What a new client asks of the system, in order. The mode is that of the directories that a call
-- creates.
pub data SetupCall (Bridge : Type 0) : Type 0 where
  create_dir : (recursive : Bool) → (mode : ℕ) → (path : Text) → SetupCall Bridge
  purge_instances : (kind : Text) → (path : Text) → SetupCall Bridge
  build_runtime : SetupCall Bridge
  create_unbootstrapped : TorConfig Bridge → SetupCall Bridge

-- `DirBuilder::create`
pub data DirAnswer : Type 0 where
  created already_exists other_error : DirAnswer

unfoldable pub is_ready : DirAnswer → Bool
is_ready created = true
is_ready already_exists = true
is_ready other_error = false

abbrev pub Setup : Type 0 → Type 0 → Type 0
Setup Bridge A = Result Error A × List (SetupCall Bridge)

module _ {Bridge : Type 0} where
  -- The next step of a setup, unless one before it has failed.
  abbrev pub and_then : {A B : Type 0} → Setup Bridge A → (A → Setup Bridge B) → Setup Bridge B
  and_then (err e, calls) next = (err e, calls)
  and_then (ok a, calls) next = let (r, more) = next a in (r, calls ++ more)

  abbrev pub asked : Bool → Error → SetupCall Bridge → Setup Bridge (Unit {0})
  asked answer e call = (if answer then ok tt else err e, call ∷ [])

  unfoldable pub create_private_dir : (Text → DirAnswer) → Text → Error → Setup Bridge (Unit {0})
  unfolding is_ready
  create_private_dir create path e = asked (is_ready (create path)) e (create_dir true 0o700 path)

  -- Best effort: nothing of it is an error. There are two early returns, where `Mistrust` cannot be
  -- built with this prefix ignored, and where the state directory cannot be opened under it.
  unfoldable pub purge_stale_onion_state :
      (mistrust opens : Text → Bool) → Text → Setup Bridge (Unit {0})
  purge_stale_onion_state mistrust opens path =
      if mistrust path
      then (if opens path then (ok tt, purge_instances (codes "hss") path ∷ []) else (ok tt, []))
      else (ok tt, [])

  -- The calls behind a client: with the purge, where it has not been given up.
  abbrev pub full_setup : Bool → Config → TorConfig Bridge → List (SetupCall Bridge)
  full_setup purges config tor_config =
      create_dir true 0o700 (state_dir config)
        ∷ (if purges then purge_instances (codes "hss") (state_dir config) ∷ [] else [])
      ++ create_dir true 0o700 (cache_dir config)
        ∷ build_runtime
        ∷ create_unbootstrapped tor_config
        ∷ []

  pub purge-ok :
      {A : Type 0} (mistrust opens : Text → Bool) (path : Text) (next : Unit {0} → Setup Bridge A)
      (a : A) (calls : List (SetupCall Bridge))
      → and_then (purge_stale_onion_state mistrust opens path) next ≡ (ok a, calls)
      → (more : List (SetupCall Bridge)) × (next tt ≡ (ok a, more))
        × (calls
            ≡ (if mistrust path && opens path then purge_instances (codes "hss") path ∷ [] else [])
              ++ more)
  unfolding purge_stale_onion_state
  purge-ok mistrust opens path next a calls h = elim (Bool-cases (mistrust path)) [
    | inl m ↦ elim (Bool-cases (opens path)) [
      | inl o ↦ ((next tt).1, ground arith, ground arith)
      | inr o ↦ ((next tt).1, ground arith, ground arith)
    ]
    | inr m ↦ ((next tt).1, ground arith, ground arith)
  ]

  pub asked-ok :
      {A : Type 0} (answer : Bool) (e : Error) (call : SetupCall Bridge)
      (next : Unit {0} → Setup Bridge A) (a : A) (calls : List (SetupCall Bridge))
      → and_then (asked answer e call) next ≡ (ok a, calls)
      → (more : List (SetupCall Bridge)) × (next tt ≡ (ok a, more)) × (calls ≡ call ∷ more)
  asked-ok true e call next a calls h = ((next tt).1, ground arith, ground arith)
  asked-ok false e call next a calls h = cc
