-- ===== src/Ffi/Buffers/Contract.antt =====
-- What the functions of rust/arti-ffi/src/ffi.rs that fill a caller's buffer do with it.
use mathlib.Core.Option
use go_arti.Prelude.{
  ℕ, zero, suc, ◌+◌, ◌≤◌, ◌≡◌, refl, ap, ◌≢◌, ◌⊎◌, inl, inr, Option, none, some, [], ◌∷◌, ◌++◌,
  arith, ◌==◌, if◌then◌else◌, Bool-cases, Option-cases, length, take, drop, length-append, Bytes,
}
use go_arti.Onion.{Crypto, IsCrypto}
use go_arti.Onion.Keys.{public_key_of, sign_with_expanded, to_array}
use go_arti.Ffi.{CInt, nonneg, minus_one}
use go_arti.Ffi.Buffers.{arti_public_key, arti_sign, message_of, signed, filled}

module _ (C : Crypto) where
  -- A secret from which a key is imported.
  abbrev pub Imports : Bytes → C.ExpandedKeypair → Type 0
  Imports secret k = (length secret ≡ 64) × (C.from_secret_key_bytes secret ≡ some k)

  -- The call failed, and the buffer is as it was.
  abbrev pub Failed : Option Bytes → CInt × Option Bytes → Type 0
  Failed out result = result ≡ (minus_one, out)

  -- The first bytes of the buffer are these, and the others are as they were.
  abbrev pub Filled : Bytes → Bytes → CInt × Option Bytes → Type 0
  Filled bytes out (code, out') =
      (code ≡ nonneg 0)
      × ((after : Bytes) × (out' ≡ some after)
          × (length after ≡ length out)
          × (take (length bytes) after ≡ bytes)
          × (drop (length bytes) after ≡ drop (length bytes) out))

  abbrev pub Refused : Option Bytes → Type 0
  Refused secret =
      (secret ≡ none)
      ⊎ (s : Bytes) × (secret ≡ some s) × ((length s ≢ 64) ⊎ (C.from_secret_key_bytes s ≡ none))

  -- The call failed because of one of its arguments, or it wrote what `make` gives for the key.
  abbrev pub Wrote :
      (C.ExpandedKeypair → Bytes → Bytes)
      → Option Bytes
      → Option Bytes
      → Option Bytes
      → CInt × Option Bytes
      → Type 0
  Wrote make secret message out result =
      Failed out result × (Refused secret ⊎ (message ≡ none) ⊎ (out ≡ none))
      ⊎ (s m o : Bytes) × (k : C.ExpandedKeypair) × (secret ≡ some s)
        × (message ≡ some m)
        × (out ≡ some o)
        × Imports s k
        × Filled (make k m) o result

  abbrev pub Fits : ℕ → Option Bytes → Type 0
  Fits n none = Unit
  Fits n (some out) = n ≤ length out

  take-append : (xs ys : Bytes) → take (length xs) (xs ++ ys) ≡ xs
  take-append [] ys = refl
  take-append (x ∷ xs) ys = ap (λ l. x ∷ l) (take-append xs ys)

  drop-append : (xs ys : Bytes) → drop (length xs) (xs ++ ys) ≡ ys
  drop-append [] ys = refl
  drop-append (x ∷ xs) ys = drop-append xs ys

  length-drop : (n : ℕ) (xs : Bytes) → n ≤ length xs → length (drop n xs) + n ≡ length xs
  length-drop zero xs h = omega arith
  length-drop (suc n) [] h = absurd (omega arith)
  length-drop (suc n) (x ∷ xs) h = omega (arith, length-drop n xs (omega arith))

  filled-some :
      (bytes out : Bytes) → length bytes ≤ length out → Filled bytes out (filled (some bytes) out)
  unfolding filled
  filled-some bytes out h = (
    refl,
    (
      bytes ++ drop (length bytes) out,
      refl,
      omega
          (arith, length-append bytes (drop (length bytes) out), length-drop (length bytes) out h),
      take-append bytes (drop (length bytes) out),
      drop-append bytes (drop (length bytes) out),
    ),
  )

  -- A function of the key that is imported from the secret, as `public_key_of` and
  -- `sign_with_expanded` are.
  made :
      (make : C.ExpandedKeypair → Bytes) (secret : Bytes) (r : Option Bytes)
      → r ≡ (elim (to_array 64 secret) [
        | none ↦ none
        | some bytes ↦ Option.map make (C.from_secret_key_bytes bytes)
      ])
      → ((r ≡ none) × ((length secret ≢ 64) ⊎ (C.from_secret_key_bytes secret ≡ none)))
        ⊎ (k : C.ExpandedKeypair) × Imports secret k × (r ≡ some (make k))
  made make secret r h = elim (Bool-cases (length secret == 64)) [
    | inr e ↦ inl (ground arith, inl (ground arith))
    | inl e ↦ elim (Option-cases (C.from_secret_key_bytes secret)) [
      | inl f ↦ inl (ground arith, inr f)
      | inr (k, f) ↦ inr (k, (ground arith, f), ground arith)
    ]
  ]

  written :
      (make : C.ExpandedKeypair → Bytes → Bytes) (n : ℕ)
      (sized : (k : C.ExpandedKeypair) (m : Bytes) → length (make k m) ≡ n)
      (secret message out : Bytes) (r : Option Bytes)
      → n ≤ length out
      → ((r ≡ none) × ((length secret ≢ 64) ⊎ (C.from_secret_key_bytes secret ≡ none)))
        ⊎ (k : C.ExpandedKeypair) × Imports secret k × (r ≡ some (make k message))
      → Wrote make (some secret) (some message) (some out) (filled r out)
  unfolding filled
  written make n sized secret message out r room (inl (e, why)) =
      inl (rw (e, filled) refl, inl (inr (secret, refl, why)))
  written make n sized secret message out r room (inr (k, imports, e)) = inr (
    secret,
    message,
    out,
    k,
    refl,
    refl,
    refl,
    imports,
    rw e (filled-some (make k message) out (ground (arith, sized k message))),
  )

  arti_public_key_lem :
      IsCrypto C
      → (secret out : Option Bytes) → Fits 32 out
      → Wrote (λ k m. C.public k) secret (some []) out (arti_public_key C secret out)
  unfolding arti_public_key public_key_of
  arti_public_key_lem L none out room = inl (refl, inl (inl refl))
  arti_public_key_lem L (some secret) none room = inl (refl, inr (inr refl))
  arti_public_key_lem L (some secret) (some out) room =
      written (λ k m. C.public k) 32 (λ k m. L.length-public k) secret [] out _ room
        (made C.public secret _ refl)

  signed_lem :
      IsCrypto C
      → (secret : Bytes) (message : Option Bytes) (out : Bytes) → 64 ≤ length out
      → Wrote C.sign (some secret) message (some out) (signed C secret message out)
  unfolding signed sign_with_expanded
  signed_lem L secret none out room = inl (refl, inr (inl refl))
  signed_lem L secret (some message) out room =
      written C.sign 64 L.length-sign secret message out _ room
        (made (λ k. C.sign k message) secret _ refl)

  arti_sign_lem :
      IsCrypto C
      → (secret message : Option Bytes) (message_len : ℕ) (out : Option Bytes) → Fits 64 out
      → Wrote C.sign secret
          (message_of C message message_len)
          out
          (arti_sign C secret message message_len out)
  unfolding arti_sign
  arti_sign_lem L none message message_len out room = inl (refl, inl (inl refl))
  arti_sign_lem L (some secret) message message_len none room = inl (refl, inr (inr refl))
  arti_sign_lem L (some secret) message message_len (some out) room =
      signed_lem L secret (message_of C message message_len) out room

  -- The two functions that fill a buffer, with room for 32 and for 64 bytes if it is not null: each
  -- one returns -1 and leaves the buffer alone, because the secret is null, has not 64 bytes or is
  -- no key, the buffer is null, or the message is null and not of length 0; or it returns 0 and
  -- the buffer starts with the public key, or the signature of the message (the empty one where its
  -- length is 0), while its length and all that comes after are as they were.
  pub buffers_filled :
      IsCrypto C
      → (secret message : Option Bytes) (message_len : ℕ) (out out' : Option Bytes) → Fits 32 out
      → Fits 64 out'
      → Wrote (λ k m. C.public k) secret (some []) out (arti_public_key C secret out)
        × Wrote C.sign secret
            (if message_len == 0 then some [] else message)
            out'
            (arti_sign C secret message message_len out')
  unfolding message_of
  buffers_filled L secret message message_len out out' room room' =
      (arti_public_key_lem L secret out room, arti_sign_lem L secret message message_len out' room')
