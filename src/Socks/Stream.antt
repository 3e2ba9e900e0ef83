-- ===== src/Socks/Stream.antt =====
-- The byte stream under the SOCKS exchange: tokio's `read_exact` and `write_all` as actions that
-- may fail. What was read or written before a failure stays read or written.
pub mod Effects
pub mod Takes
use go_arti.Prelude.{
  ℕ, ◌-◌, ◌≤◌, ◌<◌, ◌≡◌, refl, Option, none, some, [], ◌∷◌, ◌++◌, leb, if◌then◌else◌, le→leb,
  Result, ok, err, length, take, split_at?, split_at?-append, split_at?-short, Bytes,
}

-- What a connection shows: the bytes that the client sends before it closes its side, those
-- written to it, and how many more the connection takes before it breaks.
pub record Stream : Type 0 where
  pub input : Bytes
  pub output : Bytes
  pub room : ℕ

pub data IoError : Type 0 where
  unexpected_eof broken_pipe : IoError
  bad_socks_version no_acceptable_method bad_domain : IoError

abbrev pub Io : Type 0 → Type 0
Io A = Stream → Result IoError A × Stream

abbrev continue : {A B : Type 0} → Result IoError A → (A → Io B) → Io B
continue (ok a) f s = f a s
continue (err e) f s = (err e, s)

infixl 5 ◌>>=◌ ◌>>◌
abbrev pub ◌>>=◌ : {A B : Type 0} → Io A → (A → Io B) → Io B
◌>>=◌ m f s = let (r, s') = m s in continue r f s'

abbrev pub ◌>>◌ : {A B : Type 0} → Io A → Io B → Io B
m >> k = m >>= λ _. k

abbrev pub pure : {A : Type 0} → A → Io A
pure a s = (ok a, s)

abbrev pub fail : {A : Type 0} → IoError → Io A
fail e s = (err e, s)

taken : Stream → Option (Bytes × Bytes) → Result IoError Bytes × Stream
taken s none = (err unexpected_eof, record s { input = [] })
taken s (some (front, rest)) = (ok front, record s { input = rest })

-- `sock.read_exact(&mut [0; n])`; on an early end of the stream everything has been consumed.
pub read_exact : ℕ → Io Bytes
unfolding taken
read_exact n s = taken s (split_at? n s.input)

pub write_all : Bytes → Io Unit
write_all b s =
    if leb (length b) s.room
    then (ok tt, record s { output = s.output ++ b; room = s.room - length b })
    else (err broken_pipe, record s { output = s.output ++ take s.room b; room = 0 })

abbrev pub stream : Bytes → Bytes → ℕ → Stream
stream i o r = record { input = i; output = o; room = r }

-- Reading what is there takes it off the input, and nothing else changes.
pub read_exact-append :
    (xs rest o : Bytes) (r : ℕ)
    → read_exact (length xs) (stream (xs ++ rest) o r) ≡ (ok xs, stream rest o r)
unfolding read_exact
read_exact-append xs rest o r = rw (split_at?-append xs rest)

pub read_exact-short :
    (n : ℕ) (i o : Bytes) (r : ℕ)
    → length i < n
    → read_exact n (stream i o r) ≡ (err unexpected_eof, stream [] o r)
unfolding read_exact
read_exact-short n i o r h = rw (split_at?-short n i h)

pub write_all-fits :
    (b i o : Bytes) (r : ℕ)
    → length b ≤ r
    → write_all b (stream i o r) ≡ (ok tt, stream i (o ++ b) (r - length b))
unfolding write_all
write_all-fits b i o r h = rw (le→leb _ _ h)

-- The sizes of the fixed buffers, with the bytes written out.
module _ (rest o : Bytes) (r : ℕ) where
  pub read_exact_one :
      (a : ℕ) → read_exact 1 (stream (a ∷ rest) o r) ≡ (ok (a ∷ []), stream rest o r)
  unfolding read_exact split_at?
  read_exact_one a = refl

  pub read_exact_two :
      (a b : ℕ) → read_exact 2 (stream (a ∷ b ∷ rest) o r) ≡ (ok (a ∷ b ∷ []), stream rest o r)
  unfolding read_exact split_at?
  read_exact_two a b = refl

  pub read_exact_four :
      (a b c d : ℕ)
      → read_exact 4 (stream (a ∷ b ∷ c ∷ d ∷ rest) o r)
        ≡ (ok (a ∷ b ∷ c ∷ d ∷ []), stream rest o r)
  unfolding read_exact split_at?
  read_exact_four a b c d = refl

pub ruleset reads = (read_exact_one, read_exact_two, read_exact_four, read_exact-append)
