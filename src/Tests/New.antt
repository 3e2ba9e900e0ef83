-- ===== src/Tests/New.antt =====
-- A client that is built on concrete answers (rust/arti-ffi/src/client.rs, `Client::new`).
use go_arti.Prelude.{Bool, true, false, Option, none, some, if◌then◌else◌, Text, codes, text_eq}
use go_arti.Config.{Config, Blob, object, default, string}
use go_arti.Config.TorConfig.{TorConfig}
use go_arti.Client.New.{DirAnswer, Statics, created, already_exists}

abbrev parsed : Text → Option Blob
parsed raw = some (
    object
      (λ k. if text_eq (codes "data_directory") k then some (string (codes "/tmp/x")) else none))

-- The state directory exists; below it cannot be opened for the purge.
abbrev disk : Text → DirAnswer
disk path = if text_eq path (codes "/tmp/x/arti-state") then already_exists else created

abbrev statics : Statics Text
statics = record {
  log_once = false;
  crypto_once = false;
  logs = record { queue = none; subscriber = none };
}

abbrev config : Config
config = record default { data_directory = codes "/tmp/x" }

abbrev accepts : TorConfig Text → Bool
accepts builder = true
