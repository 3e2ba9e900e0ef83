-- ===== src/Tests/Config.antt =====
-- Configuration blobs (rust/arti-ffi/src/config.rs).
use go_arti.Config.TorConfig.Laws.{IsFirstBad, Configured, to_tor_client_config_lem}
use go_arti.Config.TorConfig.{TorConfig, to_tor_client_config}
use go_arti.Prelude.{
  ◌≡◌, refl, ◌≢◌, ◌⊎◌, Bool, true, false, Option, none, some, [], ◌∷◌, if◌then◌else◌, ok, err, Text,
  codes, text_eq, get_elem?,
}
use go_arti.Text.Number.{parse_u16}
use go_arti.Errors.{invalid_config, invalid_bridge}
use go_arti.Config.{
  Blob, object, array, null, from_blob, from_array, from_fields, socks_port_value, Config, Object,
  Value, string, default, fixed, auto, disabled, socks_port_of, from_object, from_json,
  string_value, state_dir, cache_dir,
}
use go_arti.Config.Fields.{BlobOf}
use go_arti.Config.Laws.{from_json-ok, state_dir-ne-cache_dir}

socks_port_forms :
    (socks_port_of (codes "auto") ≡ auto)
    × (socks_port_of (codes "9050") ≡ fixed 9050)
    × (socks_port_of (codes "disabled") ≡ disabled)
    × (socks_port_of (codes "65536") ≡ disabled)
unfolding socks_port_of text_eq parse_u16
socks_port_forms = (refl, refl, refl, refl)

abbrev one_field : Text → Value → Object
one_field name v k = if text_eq name k then some v else none

abbrev directory : Object
directory = one_field (codes "data_directory") (string (codes "/tmp/x"))

-- An object for the empty text, and for any other one an array with the directory and a null port.
abbrev parsed : Text → Option Blob
parsed [] = some (object directory)
parsed (c ∷ cs) = some (array (string (codes "/tmp/x") ∷ null ∷ []))

from_json-ok_example :
    (blob : Blob) × (parsed [] ≡ some blob)
    × BlobOf blob (record default { data_directory = codes "/tmp/x" })
    × ((record default { data_directory = codes "/tmp/x" }).data_directory ≢ [])
unfolding from_json from_blob from_object from_fields string_value text_eq
from_json-ok_example =
    (from_json-ok parsed [] (record default { data_directory = codes "/tmp/x" })).0 refl

-- A field that has another type is refused by its place as well.
from_array_refused : from_json parsed (codes "a") ≡ err invalid_config
unfolding from_json from_blob from_array from_fields string_value socks_port_value get_elem?
from_array_refused = refl

state_dir-ne-cache_dir_example : state_dir default ≢ cache_dir default
state_dir-ne-cache_dir_example = state_dir-ne-cache_dir default

-- Every line is a bridge but the empty one.
abbrev bridge : Text → Option Text
bridge line = if text_eq line [] then none else some line

abbrev builds : TorConfig Text → Bool
builds builder = true

abbrev with_bad_line : Config
with_bad_line = record default { use_bridges = true; bridges = codes "b" ∷ [] ∷ [] }

to_tor_client_config_lem_example :
    let r = to_tor_client_config bridge builds with_bad_line in
    ((true ≡ true)
      × ((line : Text) × (r ≡ err (invalid_bridge line))
          × IsFirstBad bridge builds with_bad_line.bridges line))
    ⊎ ((builder : TorConfig Text) × Configured bridge builds with_bad_line builder
        × ((r ≡ err invalid_config) × (true ≡ false) ⊎ (r ≡ ok builder) × (true ≡ true)))
to_tor_client_config_lem_example = to_tor_client_config_lem bridge builds with_bad_line
