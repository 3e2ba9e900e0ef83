-- ===== src/Version.antt =====
-- The version constants of rust/arti-ffi/src/lib.rs.
use go_arti.Prelude.{◌++◌, [], ◌∷◌, Bytes, Text, codes}

abbrev pub arti_version : Text
arti_version = codes "0.45"

abbrev pub arti_version_c : Bytes
arti_version_c = codes "Arti 0.45" ++ 0 ∷ []
