-- ===== src/Onion/Keys.antt =====
-- Keys of rust/arti-ffi/src/onion.rs: `keypair_for`, `service_id_of`, `public_key_of` and
-- `sign_with_expanded`.
use mathlib.Core.Option
use go_arti.Prelude.{
  ℕ, ◌≡◌, refl, ap, ◌∙◌, ◌≢◌, ◌↔◌, ◌||◌, Option, none, some, arith, ◌>>=◌, ◌==◌, if◌then◌else◌,
  Result, ok, err, or_fail, length, Bytes, Text, codes, text_eq, text_eq_refl, text_eq_iff,
}
use go_arti.Text.Trim.{trim_end_matches}
use go_arti.Errors.{
  Error, unsupported_algorithm, unsupported_key_type, malformed_key, key_length, invalid_secret,
}
use go_arti.Onion.{Crypto, IsCrypto}

-- `raw.try_into()` to an array of `n` bytes.
abbrev pub to_array : ℕ → Bytes → Option Bytes
to_array n b = if length b == n then some b else none

module _ (C : Crypto) where
  -- The `HsIdKeypair` of an expanded key is that key.
  generated : ℕ → C.ExpandedKeypair × Text
  generated rng =
      let expanded = C.expand (C.generate rng) in
      (expanded, C.encode (C.to_secret_key_bytes expanded))

  imported : Text → Result Error (C.ExpandedKeypair × Text)
  imported key_blob = do
    raw ← or_fail (C.decode key_blob) malformed_key
    bytes ← or_fail (to_array 64 raw) key_length
    expanded ← or_fail (C.from_secret_key_bytes bytes) invalid_secret
    ok (expanded, key_blob)

  unfoldable pub keypair_for : ℕ → Text → Text → Result Error (C.ExpandedKeypair × Text)
  unfolding generated imported
  keypair_for rng key_type key_blob =
      if text_eq key_type (codes "NEW")
      then (if text_eq key_blob (codes "BEST") || text_eq key_blob (codes "ED25519-V3")
          then ok (generated rng)
          else err (unsupported_algorithm key_blob))
      else if text_eq key_type (codes "ED25519-V3")
      then imported key_blob
      else err (unsupported_key_type key_type)

  unfoldable pub service_id_of : C.ExpandedKeypair → Text
  service_id_of keypair =
      trim_end_matches (codes ".onion") (C.display_unredacted (C.public keypair))

  unfoldable pub public_key_of : Bytes → Option Bytes
  public_key_of secret = elim (to_array 64 secret) [
    | none ↦ none
    | some bytes ↦ Option.map C.public (C.from_secret_key_bytes bytes)
  ]

  unfoldable pub sign_with_expanded : Bytes → Bytes → Option Bytes
  sign_with_expanded secret message = elim (to_array 64 secret) [
    | none ↦ none
    | some bytes ↦ Option.map (λ k. C.sign k message) (C.from_secret_key_bytes bytes)
  ]

  imported_ok :
      (blob : Text) (b : Bytes) (k : C.ExpandedKeypair)
      → C.decode blob ≡ some b
      → length b ≡ 64
      → C.from_secret_key_bytes b ≡ some k
      → imported blob ≡ ok (k, blob)
  unfolding imported
  imported_ok blob b k d n f = ground arith

  imported_bytes :
      (blob : Text) (k : C.ExpandedKeypair) (blob' : Text) (raw : Option Bytes)
      → C.decode blob ≡ raw
      → imported blob ≡ ok (k, blob')
      → (b : Bytes) × (C.decode blob ≡ some b)
        × (length b ≡ 64)
        × (C.from_secret_key_bytes b ≡ some k)
        × (blob' ≡ blob)
  unfolding imported
  imported_bytes blob k blob' none d e = absurd (ground arith)
  imported_bytes blob k blob' (some b) d e = (b, d, ground arith, ground arith, ground arith)

  generated_parts :
      (rng : ℕ) (key_blob blob : Text) (k : C.ExpandedKeypair)
      → keypair_for rng (codes "NEW") key_blob ≡ ok (k, blob)
      → blob ≡ C.encode (C.to_secret_key_bytes k)
  unfolding keypair_for text_eq
  generated_parts rng key_blob blob k e = ground arith

  -- A key that was generated for a controller and is handed back in the `ED25519-V3` form is
  -- accepted, echoed byte for byte, and has the service ID and public key that it had.
  pub keypair_for-generated :
      IsCrypto C
      → (rng rng' : ℕ) (key_blob blob : Text) (k : C.ExpandedKeypair)
      → keypair_for rng (codes "NEW") key_blob ≡ ok (k, blob)
      → (k' : C.ExpandedKeypair) × (keypair_for rng' (codes "ED25519-V3") blob ≡ ok (k', blob))
        × (service_id_of k' ≡ service_id_of k)
        × (C.public k' ≡ C.public k)
  unfolding keypair_for service_id_of text_eq
  keypair_for-generated L rng rng' key_blob blob k e =
      let (k', back, same) = L.reimport k in
      let secret = C.to_secret_key_bytes k in
      (
        k',
        imported_ok blob secret k'
            (ap C.decode (generated_parts rng key_blob blob k e) ∙ L.decode-encode secret)
            (L.length-secret k) back,
        ap (λ p. trim_end_matches (codes ".onion") (C.display_unredacted p)) same,
        same,
      )

  -- An import succeeds exactly on a base64 text of 64 bytes that are an ed25519 secret, and the
  -- caller's own text comes back.
  keypair_for-import :
      (rng : ℕ) (blob blob' : Text) (k : C.ExpandedKeypair)
      → (keypair_for rng (codes "ED25519-V3") blob ≡ ok (k, blob')) ↔ (
          (b : Bytes) × (C.decode blob ≡ some b)
          × (length b ≡ 64)
          × (C.from_secret_key_bytes b ≡ some k)
          × (blob' ≡ blob))
  unfolding keypair_for text_eq
  keypair_for-import rng blob blob' k = (
    imported_bytes blob k blob' (C.decode blob) refl,
    λ (b, d, n, f, e). rw e (imported_ok blob b k d n f),
  )

  -- Every other kind of key is refused by name, and a new key for every other algorithm.
  keypair_for-refused :
      (rng : ℕ) (key_type key_blob : Text)
      → (key_type ≢ codes "NEW"
          → key_type ≢ codes "ED25519-V3"
          → keypair_for rng key_type key_blob ≡ err (unsupported_key_type key_type))
        × (key_blob ≢ codes "BEST"
            → key_blob ≢ codes "ED25519-V3"
            → keypair_for rng (codes "NEW") key_blob ≡ err (unsupported_algorithm key_blob))
  unfolding keypair_for
  keypair_for-refused rng key_type key_blob = (
    λ p q.
        ground
          (arith, text_eq_iff key_type (codes "NEW"), text_eq_iff key_type (codes "ED25519-V3")),
    λ p q. ground (
      arith,
      text_eq_refl (codes "NEW"),
      text_eq_iff key_blob (codes "BEST"),
      text_eq_iff key_blob (codes "ED25519-V3"),
    ),
  )

  -- The public key and the signature exist for exactly the secrets of 64 bytes that import, and
  -- they are those of the imported key.
  public_key_of-sign :
      (secret message : Bytes) (k : C.ExpandedKeypair)
      → length secret ≡ 64
      → C.from_secret_key_bytes secret ≡ some k
      → (public_key_of secret ≡ some (C.public k))
        × (sign_with_expanded secret message ≡ some (C.sign k message))
  unfolding public_key_of sign_with_expanded
  public_key_of-sign secret message k n f = ground arith
