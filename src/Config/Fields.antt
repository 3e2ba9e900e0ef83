-- ===== src/Config/Fields.antt =====
-- The fields of a configuration blob (rust/arti-ffi/src/config.rs), said of them: each has a value
-- of its type or is missing.
use mathlib.Core.Path.{subst}
use go_arti.Prelude.{
  ◌≤◌, ◌≡◌, refl, sym, ap, ◌∙◌, ◌↔◌, ◌⊎◌, inl, inr, Bool, false, Option, none, some, List, [],
  arith, leb, leb→le, le→leb, Bool-cases, Result, ok, or_fail, through, length, Text, codes,
  get_elem?,
}
use go_arti.Config.Ports.{PortOf, socks_port_of-PortOf, PortOf-unique}
use go_arti.Errors.{invalid_config}
use go_arti.Config.{
  SocksPort, auto, socks_port_of, Value, null, other, bool, number, string, strings, Blob, object,
  array, Config, string_value, bool_value, strings_value, socks_port_value, null_as_default,
  field_or, from_blob, from_fields, from_object, Error, default, from_array,
}

-- A field that is missing and has its default, or is there with a value that stands for it.
abbrev pub FieldOf : {A : Type 0} → (Value → A → Type 0) → A → Option Value → A → Type 0
FieldOf Is def o a = ((o ≡ none) × (a ≡ def)) ⊎ ((v : Value) × (o ≡ some v) × Is v a)

abbrev pub IsString : Value → Text → Type 0
IsString v t = v ≡ string t

abbrev pub IsBool : Value → Bool → Type 0
IsBool v b = v ≡ bool b

-- An array of strings; a null is an empty one.
abbrev pub IsStrings : Value → List Text → Type 0
IsStrings v ts = (v ≡ strings ts) ⊎ ((v ≡ null) × (ts ≡ []))

-- A string that means the port.
abbrev pub IsPort : Value → SocksPort → Type 0
IsPort v p = (raw : Text) × (v ≡ string raw) × PortOf raw p

-- Each field of the configuration has a value of its type or is missing.
pub record Reads (d p a n u b : Option Value) (cfg : Config) : Type 0 where
  pub directory : FieldOf IsString [] d cfg.data_directory
  pub port : FieldOf IsPort auto p cfg.socks_port
  pub bind : FieldOf IsString (codes "127.0.0.1") a cfg.socks_bind_address
  pub disable : FieldOf IsBool false n cfg.disable_network
  pub bridged : FieldOf IsBool false u cfg.use_bridges
  pub lines : FieldOf IsStrings [] b cfg.bridges

-- An object has the fields by their names, an array by their places, and no more than these.
abbrev pub BlobOf : Blob → Config → Type 0
BlobOf (object o) cfg =
    Reads (o (codes "data_directory")) (o (codes "socks_port")) (o (codes "socks_bind_address"))
      (o (codes "disable_network")) (o (codes "use_bridges")) (o (codes "bridges")) cfg
BlobOf (array vs) cfg =
    (length vs ≤ 6)
    × Reads (get_elem? vs 0) (get_elem? vs 1) (get_elem? vs 2) (get_elem? vs 3) (get_elem? vs 4)
        (get_elem? vs 5) cfg

string_value-IsString : (v : Value) (t : Text) → (string_value v ≡ some t) ↔ IsString v t
unfolding string_value
string_value-IsString (string s) t = (λ h. ground arith, λ h. ground arith)
string_value-IsString null t = (λ h. absurd (ground arith), λ h. absurd (ground arith))
string_value-IsString other t = (λ h. absurd (ground arith), λ h. absurd (ground arith))
string_value-IsString (bool b) t = (λ h. absurd (ground arith), λ h. absurd (ground arith))
string_value-IsString (number n) t = (λ h. absurd (ground arith), λ h. absurd (ground arith))
string_value-IsString (strings ts) t = (λ h. absurd (ground arith), λ h. absurd (ground arith))

bool_value-IsBool : (v : Value) (b : Bool) → (bool_value v ≡ some b) ↔ IsBool v b
unfolding bool_value
bool_value-IsBool (bool c) b = (λ h. ground arith, λ h. ground arith)
bool_value-IsBool null b = (λ h. absurd (ground arith), λ h. absurd (ground arith))
bool_value-IsBool other b = (λ h. absurd (ground arith), λ h. absurd (ground arith))
bool_value-IsBool (string s) b = (λ h. absurd (ground arith), λ h. absurd (ground arith))
bool_value-IsBool (number n) b = (λ h. absurd (ground arith), λ h. absurd (ground arith))
bool_value-IsBool (strings ts) b = (λ h. absurd (ground arith), λ h. absurd (ground arith))

null_as_default-IsStrings :
    (v : Value) (ts : List Text) → (null_as_default v ≡ some ts) ↔ IsStrings v ts
unfolding null_as_default strings_value
null_as_default-IsStrings (strings us) ts = (λ h. inl (ground arith), λ h. ground arith)
null_as_default-IsStrings null ts = (λ h. inr (refl, ground arith), λ h. ground arith)
null_as_default-IsStrings other ts = (λ h. absurd (ground arith), λ h. absurd (ground arith))
null_as_default-IsStrings (string s) ts = (λ h. absurd (ground arith), λ h. absurd (ground arith))
null_as_default-IsStrings (number n) ts = (λ h. absurd (ground arith), λ h. absurd (ground arith))
null_as_default-IsStrings (bool b) ts = (λ h. absurd (ground arith), λ h. absurd (ground arith))

socks_port_value-IsPort : (v : Value) (p : SocksPort) → (socks_port_value v ≡ some p) ↔ IsPort v p
unfolding socks_port_value string_value
socks_port_value-IsPort (string raw) p = (
  λ h.
      let same : socks_port_of raw ≡ p = ground arith in
      (raw, refl, subst (PortOf raw) same (socks_port_of-PortOf raw)),
  λ (s, e, h).
      let same : raw ≡ s = ground arith in
      ap some (
        PortOf-unique s (socks_port_of raw) p
          (subst (λ x. PortOf x (socks_port_of raw)) same (socks_port_of-PortOf raw)) h),
)
socks_port_value-IsPort null p = (λ h. absurd (ground arith), λ (s, e, h). absurd (ground arith))
socks_port_value-IsPort other p = (λ h. absurd (ground arith), λ (s, e, h). absurd (ground arith))
socks_port_value-IsPort (bool b) p =
    (λ h. absurd (ground arith), λ (s, e, h). absurd (ground arith))
socks_port_value-IsPort (number n) p =
    (λ h. absurd (ground arith), λ (s, e, h). absurd (ground arith))
socks_port_value-IsPort (strings ts) p =
    (λ h. absurd (ground arith), λ (s, e, h). absurd (ground arith))

or_fail_ok : {A : Type 0} {a : A} (o : Option A) → or_fail o invalid_config ≡ ok a → o ≡ some a
or_fail_ok none h = absurd (ground arith)
or_fail_ok (some x) h = ground arith

field_or-FieldOf :
    {A : Type 0} (read : Value → Option A) (Is : Value → A → Type 0)
    → ((v : Value) (a : A) → (read v ≡ some a) ↔ Is v a)
    → (def : A) (o : Option Value) (a : A) → (field_or read def o ≡ ok a) ↔ FieldOf Is def o a
unfolding field_or
field_or-FieldOf read Is reads def none a = (
  λ h. inl (refl, ground arith),
  λ h. elim h [ inl (e, k) ↦ ap ok (sym k) | inr (v, e, k) ↦ absurd (ground arith) ],
)
field_or-FieldOf read Is reads def (some v) a = (
  λ h. inr (v, refl, (reads v a).0 (or_fail_ok (read v) h)),
  λ h. elim h [
    | inl (e, k) ↦ absurd (ground arith)
    | inr (u, e, k) ↦
        let same : v ≡ u = ground arith in
        ap (λ x. or_fail (read x) invalid_config) same
        ∙ ap (λ x. or_fail x invalid_config) ((reads u a).1 k)
  ],
)

from_fields-Reads :
    (d p a n u b : Option Value) (cfg : Config)
    → (from_fields d p a n u b ≡ ok cfg) ↔ Reads d p a n u b cfg
unfolding from_fields
from_fields-Reads d p a n u b cfg = (
  λ h.
      let (x1, h1, e1) = through (field_or string_value default.data_directory d) h in
      let (x2, h2, e2) = through (field_or socks_port_value default.socks_port p) h1 in
      let (x3, h3, e3) = through (field_or string_value default.socks_bind_address a) h2 in
      let (x4, h4, e4) = through (field_or bool_value default.disable_network n) h3 in
      let (x5, h5, e5) = through (field_or bool_value default.use_bridges u) h4 in
      let (x6, h6, e6) = through (field_or null_as_default default.bridges b) h5 in
      subst (Reads d p a n u b) (ok_injective h6) (record {
        directory = (strs [] d x1).0 e1;
        port = (ports p x2).0 e2;
        bind = (strs (codes "127.0.0.1") a x3).0 e3;
        disable = (bools n x4).0 e4;
        bridged = (bools u x5).0 e5;
        lines = (lists b x6).0 e6;
      }),
  λ h.
      rw
        (
          (strs [] d cfg.data_directory).1 h.directory,
          (ports p cfg.socks_port).1 h.port,
          (strs (codes "127.0.0.1") a cfg.socks_bind_address).1 h.bind,
          (bools n cfg.disable_network).1 h.disable,
          (bools u cfg.use_bridges).1 h.bridged,
          (lists b cfg.bridges).1 h.lines,
        )
        refl,
)
  where
    strs :
        (def : Text) (o : Option Value) (t : Text)
        → (field_or string_value def o ≡ ok t) ↔ FieldOf IsString def o t
    strs = field_or-FieldOf string_value IsString string_value-IsString

    ports :
        (o : Option Value) (q : SocksPort)
        → (field_or socks_port_value auto o ≡ ok q) ↔ FieldOf IsPort auto o q
    ports = field_or-FieldOf socks_port_value IsPort socks_port_value-IsPort auto

    bools :
        (o : Option Value) (c : Bool)
        → (field_or bool_value false o ≡ ok c) ↔ FieldOf IsBool false o c
    bools = field_or-FieldOf bool_value IsBool bool_value-IsBool false

    lists :
        (o : Option Value) (ts : List Text)
        → (field_or null_as_default [] o ≡ ok ts) ↔ FieldOf IsStrings [] o ts
    lists = field_or-FieldOf null_as_default IsStrings null_as_default-IsStrings []

    ok_injective : {A : Type 0} {x y : A} → ◌≡◌ {A = Result Error A} (ok x) (ok y) → x ≡ y
    ok_injective h = ground arith

pub from_blob-BlobOf : (blob : Blob) (cfg : Config) → (from_blob blob ≡ ok cfg) ↔ BlobOf blob cfg
unfolding from_blob from_object from_array
from_blob-BlobOf (object o) cfg = from_fields-Reads _ _ _ _ _ _ cfg
from_blob-BlobOf (array vs) cfg = elim (Bool-cases (leb (length vs) 6)) [
  | inl few ↦
      let fits : length vs ≤ 6 = leb→le (length vs) 6 few in
      let (there, back) =
        from_fields-Reads (get_elem? vs 0) (get_elem? vs 1) (get_elem? vs 2) (get_elem? vs 3)
          (get_elem? vs 4) (get_elem? vs 5) cfg in
      rw few ((λ h. (fits, there h)), (λ h. back h.1))
  | inr many ↦
      rw many ((λ h. absurd (ground arith)), (λ h. absurd (ground (arith, le→leb (length vs) 6))))
]
