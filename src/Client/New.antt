-- ===== src/Client/New.antt =====
-- `Client::new` of rust/arti-ffi/src/client.rs, and the process-wide installations that it makes.
-- What the file system, the runtime and arti-client answer are parameters.
pub mod Steps
pub use go_arti.Client.New.Steps.{
  SetupCall, create_dir, purge_instances, build_runtime, create_unbootstrapped, DirAnswer, created,
  already_exists, other_error, is_ready, Setup, and_then, asked, create_private_dir,
  purge_stale_onion_state, full_setup, purge-ok, asked-ok,
}
use go_arti.Prelude.{
  ℕ, zero, suc, ◌+◌, ◌-◌, ◌*◌, ◌/◌, ◌%◌, ◌^◌, ◌≤◌, ◌<◌, min, String, ◌≢◌, ◌↔◌, ◌⊎◌, Bool, true,
  false, not, ◌&&◌, ◌||◌, Option, none, some, [], ◌∷◌, ◌++◌, map, append-nil, append_assoc, ◌>>=◌,
  ◌>>◌, ltb, leb, ◌==◌, if◌then◌else◌, within, ltb→lt, lt→ltb, leb→le, le→leb, ==_iff, ==_refl,
  tests, Option-cases, Result, ok, err, or_fail, length, take, drop, get_or, length-append,
  split_at?, split_at?-append, split_at?-short, All, Bytes, Text, codes, text_eq, text_eq_sound,
  text_eq_refl, text_eq_iff, modify, get_elem?, replicate, get_elem?-modify, get_elem?-modify-none,
  each-modify, one_at, times, get_elem?-replicate, get_elem?-lt, modify_leaves_fewer,
  turns_leave_fewer, turn_leaves_fewer, total_none, total, total-append, total-modify, le-total,
}
use go_arti.Errors.{
  Error, cannot_create_state_dir, cannot_create_cache_dir, cannot_start_runtime,
  cannot_obtain_runtime, cannot_create_client,
}
use go_arti.Events.{channel}
use go_arti.Config.{Config, Blob, from_json, state_dir, cache_dir}
use go_arti.Config.TorConfig.{TorConfig, to_tor_client_config}
use go_arti.Logs.{Process, install}
use go_arti.Client.{Client}
use go_arti.Text.Trim.{trim}

-- What is static: whether each `Once` has run, and the log state.
pub record Statics (Filter : Type 0) : Type 0 where
  pub log_once : Bool
  pub crypto_once : Bool
  pub logs : Process Filter

module _ {Filter : Type 0} (try_new : Text → Option Filter) where
  is_blank : Text → Bool
  is_blank directives = elim (trim directives) [ [] ↦ true | b ∷ bs ↦ false ]

  log_from_env : Option Text → Process Filter → Process Filter
  unfolding is_blank
  log_from_env none logs = logs
  log_from_env (some directives) logs =
      if is_blank directives then logs else (install try_new directives true logs).1

  -- With the value of LIBTOR_LOG.
  unfoldable pub install_log_subscriber : Option Text → Statics Filter → Statics Filter
  unfolding log_from_env
  install_log_subscriber env s =
      if s.log_once then s else record s { log_once = true; logs = log_from_env env s.logs }

-- Whether rustls had a provider already is ignored.
unfoldable pub install_crypto_provider : {Filter : Type 0} → Statics Filter → Statics Filter
install_crypto_provider s = record s { crypto_once = true }

-- The client as it is built; nothing has been asked of its runtime or of arti-client.
unfoldable pub new_client : {P : Type 0} → Config → Client P
unfolding channel
new_client cfg = record {
  config = cfg;
  socks_addr = none;
  events = channel;
  services = [];
  net_enabled = false;
  started = false;
  exit = false;
  calls = [];
}

module _ {Bridge : Type 0} (parse_json : Text → Option Blob) (parse_bridge : Text → Option Bridge)
    (builds : TorConfig Bridge → Bool) (create : Text → DirAnswer) (mistrust opens : Text → Bool)
    (runtime_builds runtime_obtained : Bool) (creates : TorConfig Bridge → Bool) where
  configured : Text → Result Error (Config × TorConfig Bridge)
  configured config_json = do
    config ← from_json parse_json config_json
    tor_config ← to_tor_client_config parse_bridge builds config
    ok (config, tor_config)

  -- Whether the purge comes to its call.
  abbrev pub purges : Config → Bool
  purges config = mistrust (state_dir config) && opens (state_dir config)

  module _ {P : Type 0} where
    with_arti : Config → TorConfig Bridge → Setup Bridge (Client P)
    with_arti config tor_config =
        if runtime_obtained
        then (and_then
            (asked (creates tor_config) cannot_create_client (create_unbootstrapped tor_config))
            (λ _. (ok (new_client config), [])))
        else (err cannot_obtain_runtime, [])

    with_runtime : Config → TorConfig Bridge → Setup Bridge (Client P)
    unfolding with_arti
    with_runtime config tor_config =
        and_then (asked runtime_builds cannot_start_runtime build_runtime)
          (λ _. with_arti config tor_config)

    with_cache : Config → TorConfig Bridge → Setup Bridge (Client P)
    unfolding with_runtime create_private_dir
    with_cache config tor_config =
        and_then (create_private_dir create (cache_dir config) cannot_create_cache_dir)
          (λ _. with_runtime config tor_config)

    with_state : Config → TorConfig Bridge → Setup Bridge (Client P)
    unfolding with_cache purge_stale_onion_state
    with_state config tor_config =
        and_then (purge_stale_onion_state mistrust opens (state_dir config))
          (λ _. with_cache config tor_config)

    unfoldable pub set_up : Config × TorConfig Bridge → Setup Bridge (Client P)
    unfolding create_private_dir with_state
    set_up (config, tor_config) =
        and_then (create_private_dir create (state_dir config) cannot_create_state_dir)
          (λ _. with_state config tor_config)

    -- The installations come first, whatever becomes of the rest.
    unfoldable pub new :
        {Filter : Type 0}
        → (Text → Option Filter)
        → Option Text
        → Text
        → Statics Filter
        → Setup Bridge (Client P) × Statics Filter
    unfolding configured
    new try_new env config_json s = (
      and_then (configured config_json, []) set_up,
      install_log_subscriber try_new env (install_crypto_provider s),
    )
