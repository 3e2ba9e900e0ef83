-- ===== src/Errors.antt =====
-- The error messages of rust/arti-ffi/src, one constructor for each `format!` or literal that an
-- `Err` carries. A constructor has the program's own values of its message; the text of another
-- crate's error, which some messages quote after them, is left out.
use go_arti.Prelude.{ℕ, Text}

pub data Error : Type 0 where
  -- client.rs
  already_started : Error
  invalid_bind_address : Text → Error
  cannot_bind_socks cannot_create_state_dir cannot_create_cache_dir : Error
  cannot_start_runtime cannot_obtain_runtime cannot_create_client bootstrap_failed : Error
  no_such_service : Text → Error
  -- config.rs
  invalid_config data_directory_required : Error
  invalid_bridge : Text → Error
  -- onion.rs
  unsupported_algorithm unsupported_key_type : Text → Error
  malformed_key key_length invalid_secret : Error
  no_ports invalid_port_mapping bad_nickname invalid_service_config : Error
  invalid_target : Text → Error
  invalid_virtual_port : ℕ → Error
  launch_failed service_disabled : Error
  -- ffi.rs
  null_client invalid_request cannot_encode_response arti_panicked : Error
  null_argument not_utf8 : Text → Error
