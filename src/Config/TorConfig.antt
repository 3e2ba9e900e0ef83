-- ===== src/Config/TorConfig.antt =====
-- `Config::to_tor_client_config` of rust/arti-ffi/src/config.rs: what is set on the builder of the
-- crate arti-client. The crate's parser of bridge lines and the builder's own checks are
-- parameters.
pub mod Laws
use go_arti.Prelude.{
  Bool, true, false, not, ◌&&◌, Option, none, some, List, [], ◌∷◌, ◌>>=◌, if◌then◌else◌, Result, ok,
  err, or_fail, Text,
}
use go_arti.Errors.{Error, invalid_config, invalid_bridge}
use go_arti.Config.{Config, state_dir, cache_dir}

pub data KeystoreKind : Type 0 where
  native ephemeral : KeystoreKind

-- The settings that the code makes; `none` where a setting is left at the crate's default.
pub record TorConfig (Bridge : Type 0) : Type 0 where
  pub state_directory : Text
  pub cache_directory : Text
  pub ignore_prefix : Option Text
  pub keystore : Option KeystoreKind
  pub bridges : Option (List Bridge)
  pub bridges_enabled : Option Bool

module _ {Bridge : Type 0} (parse_bridge : Text → Option Bridge)
    (builds : TorConfig Bridge → Bool) where
  unfoldable pub parse_bridges : List Text → Result Error (List Bridge)
  parse_bridges [] = ok []
  parse_bridges (line ∷ lines) = do
    bridge ← or_fail (parse_bridge line) (invalid_bridge line)
    rest ← parse_bridges lines
    ok (bridge ∷ rest)

  from_directories : Config → TorConfig Bridge
  from_directories cfg = record {
    state_directory = state_dir cfg;
    cache_directory = cache_dir cfg;
    ignore_prefix = some cfg.data_directory;
    keystore = some ephemeral;
    bridges = none;
    bridges_enabled = none;
  }

  is_empty : List Text → Bool
  is_empty [] = true
  is_empty (line ∷ lines) = false

  with_bridges : Config → Result Error (TorConfig Bridge)
  unfolding from_directories is_empty
  with_bridges cfg =
      if cfg.use_bridges && not (is_empty cfg.bridges)
      then (do
        bridges ← parse_bridges cfg.bridges
        ok (record (from_directories cfg) { bridges = some bridges; bridges_enabled = some true }))
      else ok (from_directories cfg)

  build : TorConfig Bridge → Result Error (TorConfig Bridge)
  build builder = if builds builder then ok builder else err invalid_config

  unfoldable pub to_tor_client_config : Config → Result Error (TorConfig Bridge)
  unfolding with_bridges build
  to_tor_client_config cfg = do builder ← with_bridges cfg; build builder
