-- ===== src/Config/Laws.antt =====
-- What rust/arti-ffi/src/config.rs accepts, and what it makes of it.
use mathlib.Core.Bool.{false≢true}
use mathlib.Core.List.{append_cancel_left}
use go_arti.Prelude.{
  ℕ, zero, suc, ◌≤◌, ◌<◌, ◌≡◌, refl, sym, ap, ◌∙◌, ◌≢◌, ◌↔◌, inl, inr, false, Option, none, some,
  [], ◌∷◌, arith, ◌>>=◌, ◌==◌, if◌then◌else◌, Bool-cases, Result, ok, err, or_fail, through, Text,
  codes, text_eq, text_eq_sound, text_eq_iff,
}
use go_arti.Text.Number.{decimal, parse_u16, parse_u16-decimal, parse_u16_bound}
use go_arti.Errors.{Error, invalid_config}
use go_arti.Config.Fields.{BlobOf, from_blob-BlobOf}
use go_arti.Config.{
  Blob, from_blob, from_fields, auto, fixed, fixed_or, socks_port_of, null, number, Object, Config,
  null_as_default, field_or, from_object, with_directory, from_json, join, ends_in_slash, state_dir,
  cache_dir, socks_port_value,
}

fixed_or-bound : (o : Option ℕ) (p : ℕ) → fixed_or o ≡ fixed p → (0 < p) × (o ≡ some p)
unfolding fixed_or
fixed_or-bound none p e = absurd (ground arith)
fixed_or-bound (some zero) p e = absurd (ground arith)
fixed_or-bound (some (suc n)) p e = ground arith

-- A fixed port is never 0 and always a u16, whatever the text.
socks_port_of_bounds : (raw : Text) (p : ℕ) → socks_port_of raw ≡ fixed p → (0 < p) × (p ≤ 65535)
unfolding socks_port_of
socks_port_of_bounds raw p e =
    ground (arith, fixed_or-bound (parse_u16 raw) p, parse_u16_bound raw p)

not_named : (n : ℕ) (t : Text) → n ≤ 65535 → parse_u16 t ≢ some n → text_eq (decimal n) t ≡ false
not_named n t b h = elim (Bool-cases (text_eq (decimal n) t)) [
  | inl e ↦ absurd (h (ap parse_u16 (sym (text_eq_sound (decimal n) t e)) ∙ parse_u16-decimal n b))
  | inr e ↦ e
]

-- Every port that is written in decimal is the port that is bound, and 0 asks for a free one.
pub socks_port_of-decimal :
    (p : ℕ) → p ≤ 65535 → socks_port_of (decimal p) ≡ (if p == 0 then auto else fixed p)
unfolding socks_port_of parse_u16 text_eq decimal
socks_port_of-decimal zero h = refl
socks_port_of-decimal (suc p) h =
    named (suc p) h (not_named (suc p) (codes "auto") h (λ e. cc))
      (not_named (suc p) (codes "0") h (λ e. ground arith)) (not_named (suc p) [] h (λ e. cc))
      (not_named (suc p) (codes "disabled") h (λ e. cc))
    ∙ ground arith
  where
    named :
        (n : ℕ)
        → n ≤ 65535
        → text_eq (decimal n) (codes "auto") ≡ false
        → text_eq (decimal n) (codes "0") ≡ false
        → text_eq (decimal n) [] ≡ false
        → text_eq (decimal n) (codes "disabled") ≡ false
        → socks_port_of (decimal n) ≡ fixed_or (some n)
    named n b a z e d = rw (a, z, e, d, parse_u16-decimal n b)

-- A JSON `null` for the bridges is the same as no such field.
from_object-null_bridges :
    (o o' : Object)
    → o (codes "bridges") ≡ some null
    → o' (codes "bridges") ≡ none
    → ((k : Text) → k ≢ codes "bridges" → o k ≡ o' k)
    → from_object o ≡ from_object o'
unfolding from_object from_fields null_as_default
from_object-null_bridges o o' h k same = rw (
  h,
  k,
  same (codes "data_directory") (λ e. cc),
  same (codes "socks_port") (λ e. cc),
  same (codes "socks_bind_address") (λ e. cc),
  same (codes "disable_network") (λ e. cc),
  same (codes "use_bridges") (λ e. cc),
)

-- A port that is given as a JSON number, and not as a string, is refused with the whole blob.
from_object-number_port :
    (o : Object) (n : ℕ)
    → o (codes "socks_port") ≡ some (number n)
    → from_object o ≡ err invalid_config
unfolding from_object from_fields socks_port_value field_or
from_object-number_port o n h = ground arith

with_directory_ok :
    (c cfg : Config) → (with_directory c ≡ ok cfg) ↔ ((c ≡ cfg) × (cfg.data_directory ≢ []))
unfolding with_directory
with_directory_ok c cfg = elim (Bool-cases (text_eq c.data_directory [])) [
  | inl e ↦ (
    λ h. absurd (ground arith),
    λ (p, n). absurd (n (ap (λ (x : Config). x.data_directory) (sym p) ∙ text_eq_sound _ [] e)),
  )
  | inr f ↦ rw f (
    λ h. (ground arith, λ n. cc (f, (text_eq_iff c.data_directory []).1 (directory h ∙ n))),
    λ (p, n). ap ok p,
  )
]
  where
    directory :
        ◌≡◌ {A = Result Error Config} (ok c) (ok cfg) → c.data_directory ≡ cfg.data_directory
    directory h = cc

-- A text is accepted exactly when it is a JSON object with the fields by their names, or a JSON
-- array of at most six elements with the fields in their order, where each field is missing and has
-- its default or has its type and gives its value: strings, Booleans, for the bridges strings or a
-- null, and for the port a string, which means that port; and when the data directory is not empty.
pub from_json-ok :
    (parse_json : Text → Option Blob) (raw : Text) (cfg : Config)
    → (from_json parse_json raw ≡ ok cfg)
      ↔ ((blob : Blob) × (parse_json raw ≡ some blob) × BlobOf blob cfg × (cfg.data_directory ≢ []))
unfolding from_json
from_json-ok parse_json raw cfg = (
  accepted (parse_json raw) refl,
  λ (blob, p, f, n).
      rw (p, (from_blob-BlobOf blob cfg).1 f) ((with_directory_ok cfg cfg).1 (refl, n)),
)
  where
    accepted :
        (parsed : Option Blob)
        → parse_json raw ≡ parsed
        → (or_fail parsed invalid_config >>= λ blob. from_blob blob >>= with_directory) ≡ ok cfg
        → (blob : Blob) × (parse_json raw ≡ some blob) × BlobOf blob cfg × (cfg.data_directory ≢ [])
    accepted none p e = cc
    accepted (some blob) p e =
        let (c, w, f) = through (from_blob blob) e in
        let (same, n) = (with_directory_ok c cfg).0 w in
        (blob, p, (from_blob-BlobOf blob cfg).0 (f ∙ ap ok same), n)

join_injective : (dir a b : Text) → join dir a ≡ join dir b → a ≡ b
unfolding join
join_injective dir a b e = elim (Bool-cases (text_eq dir [])) [
  | inl t ↦ ground arith
  | inr f ↦ elim (Bool-cases (ends_in_slash dir)) [
    | inl slash ↦ append_cancel_left dir a b (ground arith)
    | inr plain ↦ ground (arith, append_cancel_left dir (b'/' ∷ a) (b'/' ∷ b))
  ]
]

-- State and cache never share a directory.
pub state_dir-ne-cache_dir : (cfg : Config) → state_dir cfg ≢ cache_dir cfg
unfolding state_dir cache_dir text_eq
state_dir-ne-cache_dir cfg e = false≢true (
    (text_eq_iff (codes "arti-state") (codes "arti-cache")).1
      (join_injective cfg.data_directory _ _ e))
