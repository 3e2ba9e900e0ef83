-- ===== src/Config/TorConfig/Laws.antt =====
-- What `Config::to_tor_client_config` of rust/arti-ffi/src/config.rs comes to.
use mathlib.Core.List.{map}
use go_arti.Prelude.{
  ◌≡◌, refl, ap, ◌≢◌, ◌⊎◌, inl, inr, Bool, true, false, not, ◌&&◌, Option, none, some, List, [],
  ◌∷◌, ◌++◌, arith, ◌>>=◌, if◌then◌else◌, Bool-cases, Option-cases, Result, ok, err, Text,
}
use go_arti.Errors.{Error, invalid_config, invalid_bridge}
use go_arti.Config.{Config, state_dir, cache_dir}
use go_arti.Config.TorConfig.{
  TorConfig, ephemeral, parse_bridges, from_directories, is_empty, with_bridges, build,
  to_tor_client_config,
}

module _ {Bridge : Type 0} (parse_bridge : Text → Option Bridge)
    (builds : TorConfig Bridge → Bool) where
  -- The first line that is no bridge.
  abbrev pub IsFirstBad : List Text → Text → Type 0
  IsFirstBad lines line =
      (front back : List Text) × (good : List Bridge) × (lines ≡ front ++ line ∷ back)
      × (map parse_bridge front ≡ map some good)
      × (parse_bridge line ≡ none)

  abbrev pub Bridged : Config → TorConfig Bridge → Type 0
  Bridged cfg builder =
      ((cfg.use_bridges ≡ true)
        × (cfg.bridges ≢ [])
        × (builder.bridges_enabled ≡ some true)
        × ((bridges : List Bridge) × (builder.bridges ≡ some bridges)
            × (map parse_bridge cfg.bridges ≡ map some bridges)))
      ⊎ ((cfg.use_bridges ≡ false) ⊎ (cfg.bridges ≡ []))
        × (builder.bridges_enabled ≡ none)
        × (builder.bridges ≡ none)

  abbrev pub Configured : Config → TorConfig Bridge → Type 0
  Configured cfg builder =
      (builder.state_directory ≡ state_dir cfg)
      × (builder.cache_directory ≡ cache_dir cfg)
      × (builder.ignore_prefix ≡ some cfg.data_directory)
      × (builder.keystore ≡ some ephemeral)
      × Bridged cfg builder

  abbrev pub Parsed : List Text → Result Error (List Bridge) → Type 0
  Parsed lines (ok bridges) = map parse_bridge lines ≡ map some bridges
  Parsed lines (err e) = (line : Text) × (e ≡ invalid_bridge line) × IsFirstBad lines line

  Parsed-cons :
      (line : Text) (lines : List Text) (bridge : Bridge) (r : Result Error (List Bridge))
      → parse_bridge line ≡ some bridge
      → Parsed lines r
      → Parsed (line ∷ lines) (r >>= λ rest. ok (bridge ∷ rest))
  Parsed-cons line lines bridge (ok bridges) h p = ground arith
  Parsed-cons line lines bridge (err e) h (bad, q, (front, back, good, at, before, bad_line)) =
      (bad, q, (line ∷ front, back, bridge ∷ good, ground arith, ground arith, bad_line))

  parse_bridges-Parsed :
      (lines : List Text) → Parsed lines (parse_bridges parse_bridge builds lines)
  unfolding parse_bridges
  parse_bridges-Parsed [] = refl
  parse_bridges-Parsed (line ∷ lines) = elim (Option-cases (parse_bridge line)) [
    | inl e ↦ rw e (line, refl, ([], lines, [], refl, refl, e))
    | inr (bridge, e) ↦ rw e (
        Parsed-cons line lines bridge (parse_bridges parse_bridge builds lines) e
          (parse_bridges-Parsed lines))
  ]

  -- What the builder holds before it builds, or the error on the way there.
  abbrev pub Prepared : Config → Result Error (TorConfig Bridge) → Type 0
  Prepared cfg (ok builder) = Configured cfg builder
  Prepared cfg (err e) =
      (cfg.use_bridges ≡ true)
      × ((line : Text) × (e ≡ invalid_bridge line) × IsFirstBad cfg.bridges line)

  bridges-Prepared :
      (cfg : Config) (r : Result Error (List Bridge))
      → cfg.use_bridges ≡ true
      → cfg.bridges ≢ []
      → Parsed cfg.bridges r
      → Prepared cfg (
          r >>= λ bridges. ok (record (from_directories parse_bridge builds cfg) {
            bridges = some bridges;
            bridges_enabled = some true;
          }))
  unfolding from_directories
  bridges-Prepared cfg (ok bridges) u n p =
      (refl, refl, refl, refl, inl (u, n, refl, (bridges, refl, p)))
  bridges-Prepared cfg (err e) u n p = (u, p)

  is_empty-nil : (lines : List Text) → is_empty parse_bridge builds lines ≡ true → lines ≡ []
  unfolding is_empty
  is_empty-nil [] e = refl
  is_empty-nil (line ∷ lines) e = absurd (ground arith)

  is_empty-full : (lines : List Text) → is_empty parse_bridge builds lines ≡ false → lines ≢ []
  unfolding is_empty
  is_empty-full lines e h = absurd (ground arith)

  -- The two cases of the test for bridges.
  in_use-Prepared :
      (cfg : Config) (used empty : Bool)
      → cfg.use_bridges ≡ used
      → is_empty parse_bridge builds cfg.bridges ≡ empty
      → Prepared cfg (
          if used && not empty
          then (do
            bridges ← parse_bridges parse_bridge builds cfg.bridges
            ok (record (from_directories parse_bridge builds cfg) {
              bridges = some bridges;
              bridges_enabled = some true;
            }))
          else ok (from_directories parse_bridge builds cfg))
  unfolding from_directories
  in_use-Prepared cfg false empty u e = (refl, refl, refl, refl, inr (inl u, refl, refl))
  in_use-Prepared cfg true true u e =
      (refl, refl, refl, refl, inr (inr (is_empty-nil cfg.bridges e), refl, refl))
  in_use-Prepared cfg true false u e =
      bridges-Prepared cfg (parse_bridges parse_bridge builds cfg.bridges) u
        (is_empty-full cfg.bridges e) (parse_bridges-Parsed cfg.bridges)

  with_bridges-Prepared : (cfg : Config) → Prepared cfg (with_bridges parse_bridge builds cfg)
  unfolding with_bridges
  with_bridges-Prepared cfg =
      in_use-Prepared cfg cfg.use_bridges (is_empty parse_bridge builds cfg.bridges) refl refl

  build_outcome :
      (cfg : Config) (r : Result Error (TorConfig Bridge))
      → Prepared cfg r
      → let r' = r >>= build parse_bridge builds in
        ((cfg.use_bridges ≡ true)
          × ((line : Text) × (r' ≡ err (invalid_bridge line)) × IsFirstBad cfg.bridges line))
        ⊎ ((builder : TorConfig Bridge) × Configured cfg builder
            × ((r' ≡ err invalid_config) × (builds builder ≡ false)
                ⊎ (r' ≡ ok builder) × (builds builder ≡ true)))
  unfolding build
  build_outcome cfg (err e) (u, (line, q, bad)) = inl (u, (line, ap err q, bad))
  build_outcome cfg (ok builder) h = elim (Bool-cases (builds builder)) [
    | inl e ↦ inr (builder, h, inr (ground arith, e))
    | inr e ↦ inr (builder, h, inl (ground arith, e))
  ]

  -- Exactly one of three things happens: the bridges are in use and the first line that is no
  -- bridge is named by the error; or the builder refuses its settings; or the result is what the
  -- builder holds: the client's own state and cache directories, the data directory exempt from the
  -- permission checks, no keystore on disk, and bridges, all the lines in their order, exactly
  -- when they are in use and there is a line.
  pub to_tor_client_config_lem :
      (cfg : Config)
      → let r = to_tor_client_config parse_bridge builds cfg in
        ((cfg.use_bridges ≡ true)
          × ((line : Text) × (r ≡ err (invalid_bridge line)) × IsFirstBad cfg.bridges line))
        ⊎ ((builder : TorConfig Bridge) × Configured cfg builder
            × ((r ≡ err invalid_config) × (builds builder ≡ false)
                ⊎ (r ≡ ok builder) × (builds builder ≡ true)))
  unfolding to_tor_client_config
  to_tor_client_config_lem cfg =
      build_outcome cfg (with_bridges parse_bridge builds cfg) (with_bridges-Prepared cfg)
