-- ===== src/Config.antt =====
-- The configuration blob (rust/arti-ffi/src/config.rs). The JSON parser of serde_json is a
-- parameter: a text gives an object's fields by their names, an array's elements in order, or
-- fails. What the derived deserialiser makes of either, and what the file itself says of each
-- field, is modelled.
pub mod Ports
pub mod Fields
pub mod Laws
pub mod TorConfig
use go_arti.Prelude.{
  ℕ, zero, suc, ◌+◌, ◌-◌, ◌*◌, ◌/◌, ◌%◌, ◌^◌, ◌≤◌, ◌<◌, min, String, ◌≡◌, refl, sym, ap, ◌∙◌, ◌≢◌,
  ◌↔◌, ◌⊎◌, inl, inr, Bool, true, false, not, ◌&&◌, ◌||◌, Option, none, some, List, [], ◌∷◌, ◌++◌,
  map, append-nil, append_assoc, arith, ◌>>=◌, ◌>>◌, ltb, leb, ◌==◌, if◌then◌else◌, within, ltb→lt,
  lt→ltb, leb→le, le→leb, ==_iff, ==_refl, tests, Bool-cases, Option-cases, Result, ok, err,
  or_fail, Result-cases, through, length, take, drop, get_or, length-append, split_at?,
  split_at?-append, split_at?-short, All, Bytes, Text, codes, text_eq, text_eq_sound, text_eq_refl,
  text_eq_iff, modify, get_elem?, replicate, get_elem?-modify, get_elem?-modify-none, each-modify,
  one_at, times, get_elem?-replicate, get_elem?-lt, modify_leaves_fewer, turns_leave_fewer,
  turn_leaves_fewer, total_none, total, total-append, total-modify, le-total,
}
use go_arti.Text.Number.{parse_u16}
use go_arti.Errors.{Error, invalid_config, data_directory_required}

pub data SocksPort : Type 0 where
  disabled auto : SocksPort
  fixed : ℕ → SocksPort

fixed_or : Option ℕ → SocksPort
fixed_or none = disabled
fixed_or (some zero) = auto
fixed_or (some (suc p)) = fixed (suc p)

-- The match of `SocksPort::deserialize` on the string that it has read.
unfoldable pub socks_port_of : Text → SocksPort
unfolding fixed_or
socks_port_of raw =
    if text_eq raw (codes "auto") || text_eq raw (codes "0")
    then auto
    else if text_eq raw [] || text_eq raw (codes "disabled")
    then disabled
    else fixed_or (parse_u16 raw)

-- A JSON value, as far as the fields tell them apart: `strings` is an array of strings alone, and
-- `other` is any other value.
pub data Value : Type 0 where
  null other : Value
  bool : Bool → Value
  number : ℕ → Value
  string : Text → Value
  strings : List Text → Value

-- The fields that an object has, by their names.
abbrev pub Object : Type 0
Object = Text → Option Value

-- A JSON text that a struct is read from; any other JSON is refused.
pub data Blob : Type 0 where
  object : Object → Blob
  array : List Value → Blob

pub record Config : Type 0 where
  pub data_directory : Text
  pub socks_port : SocksPort
  pub socks_bind_address : Text
  pub disable_network : Bool
  pub use_bridges : Bool
  pub bridges : List Text

-- `Config::default`.
abbrev pub default : Config
default = record {
  data_directory = [];
  socks_port = auto;
  socks_bind_address = codes "127.0.0.1";
  disable_network = false;
  use_bridges = false;
  bridges = [];
}

unfoldable pub string_value : Value → Option Text
string_value (string t) = some t
string_value _ = none

unfoldable pub bool_value : Value → Option Bool
bool_value (bool b) = some b
bool_value _ = none

strings_value : Value → Option (List Text)
strings_value (strings ts) = some ts
strings_value _ = none

-- `SocksPort::deserialize` reads a string first.
unfoldable pub socks_port_value : Value → Option SocksPort
unfolding string_value
socks_port_value v = elim (string_value v) [ none ↦ none | some raw ↦ some (socks_port_of raw) ]

-- `null_as_default` over a list of strings.
unfoldable pub null_as_default : Value → Option (List Text)
unfolding strings_value
null_as_default null = some []
null_as_default v = strings_value v

-- `#[serde(default)]`: a field that is missing has its default.
field_or : {A : Type 0} → (Value → Option A) → A → Option Value → Result Error A
field_or read def none = ok def
field_or read def (some v) = or_fail (read v) invalid_config

-- What the deserialiser makes of the six fields.
unfoldable pub from_fields : (d p a n u b : Option Value) → Result Error Config
unfolding field_or
from_fields d p a n u b = do
  data_directory ← field_or string_value default.data_directory d
  socks_port ← field_or socks_port_value default.socks_port p
  bind ← field_or string_value default.socks_bind_address a
  disable_network ← field_or bool_value default.disable_network n
  use_bridges ← field_or bool_value default.use_bridges u
  bridges ← field_or null_as_default default.bridges b
  ok (record {
    data_directory = data_directory;
    socks_port = socks_port;
    socks_bind_address = bind;
    disable_network = disable_network;
    use_bridges = use_bridges;
    bridges = bridges;
  })

-- A field of another name is passed over.
unfoldable pub from_object : Object → Result Error Config
from_object o =
    from_fields (o (codes "data_directory")) (o (codes "socks_port"))
      (o (codes "socks_bind_address")) (o (codes "disable_network")) (o (codes "use_bridges"))
      (o (codes "bridges"))

-- The elements are the fields, in the order in which the struct declares them. The missing ones
-- have their defaults, and more than six are an error.
unfoldable pub from_array : List Value → Result Error Config
from_array vs =
    if leb (length vs) 6
    then (from_fields (get_elem? vs 0) (get_elem? vs 1) (get_elem? vs 2) (get_elem? vs 3)
        (get_elem? vs 4) (get_elem? vs 5))
    else err invalid_config

-- The derived `Config::deserialize`.
unfoldable pub from_blob : Blob → Result Error Config
from_blob (object o) = from_object o
from_blob (array vs) = from_array vs

with_directory : Config → Result Error Config
with_directory cfg = if text_eq cfg.data_directory [] then err data_directory_required else ok cfg

-- `Config::from_json`, over what the JSON parser makes of the text.
unfoldable pub from_json : (Text → Option Blob) → Text → Result Error Config
unfolding with_directory
from_json parse_json raw = do
  blob ← or_fail (parse_json raw) invalid_config
  cfg ← from_blob blob
  with_directory cfg

ends_in_slash : Text → Bool
ends_in_slash [] = false
ends_in_slash (c ∷ []) = c == b'/'
ends_in_slash (c ∷ d ∷ ds) = ends_in_slash (d ∷ ds)

-- `PathBuf::join` with a relative name, where the separator is a slash.
join : Text → Text → Text
unfolding ends_in_slash
join dir name =
    if text_eq dir [] then name else if ends_in_slash dir then dir ++ name else dir ++ (b'/' ∷ name)

unfoldable pub state_dir : Config → Text
unfolding join
state_dir cfg = join cfg.data_directory (codes "arti-state")

unfoldable pub cache_dir : Config → Text
unfolding join
cache_dir cfg = join cfg.data_directory (codes "arti-cache")
