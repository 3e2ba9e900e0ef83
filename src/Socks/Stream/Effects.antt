-- ===== src/Socks/Stream/Effects.antt =====
-- Rules for what an action on the stream of rust/arti-ffi/src/socks.rs reads and writes, whatever
-- the client sends.
use go_arti.Prelude.{
  ℕ, zero, suc, ◌+◌, ◌≤◌, ◌<◌, ◌≡◌, refl, sym, ap, ◌∙◌, inl, inr, none, some, [], ◌∷◌, ◌++◌,
  append-nil, append_assoc, arith, le→leb, Option-cases, Result, ok, err, length, length-append,
  split_at?, All, Bytes,
}
use mathlib.Core.Path.{subst}
use go_arti.Socks.Stream.{
  continue, Stream, IoError, Io, ◌>>=◌, ◌>>◌, read_exact, write_all, taken, unexpected_eof,
}

abbrev pub IsBytes : Bytes → Type 0
IsBytes = All (λ b. b < 256)

pub All-append-left : (xs ys : Bytes) → IsBytes (xs ++ ys) → IsBytes xs
All-append-left [] ys h = tt
All-append-left (x ∷ xs) ys h = (h.0, All-append-left xs ys h.1)

pub All-append-right : (xs ys : Bytes) → IsBytes (xs ++ ys) → IsBytes ys
All-append-right [] ys h = h
All-append-right (x ∷ xs) ys h = All-append-right xs ys h.1

-- From a stream to a result and a stream: at most `n` bytes were taken off the front of the input,
-- at most `w` were added to the output, and these and the result are related by `Q`.
pub record Did {A : Type 0} (n w : ℕ) (Q : Result IoError A → Bytes → Type 0) (s : Stream)
    (r : Result IoError A) (s' : Stream) : Type 0 where
  pub front : Bytes
  pub written : Bytes
  pub taken_off : s.input ≡ front ++ s'.input
  pub few : length front ≤ n
  pub added : s'.output ≡ s.output ++ written
  pub short : length written ≤ w
  pub room_left : s'.room + length written ≡ s.room
  pub related : Q r written

-- An action does so on every input of bytes, when the stream has room for what it writes.
abbrev pub Does : {A : Type 0} → ℕ → ℕ → (Result IoError A → Bytes → Type 0) → Io A → Type 0
Does n w Q m = (s : Stream) → IsBytes s.input → w ≤ s.room → Did n w Q s (m s).0 (m s).1

abbrev pub ReadBytes : ℕ → Result IoError Bytes → Bytes → Type 0
ReadBytes n (ok b) written = (written ≡ []) × (length b ≡ n) × IsBytes b
ReadBytes n (err e) written = (written ≡ []) × (e ≡ unexpected_eof)

pub split_at?-eq :
    (n : ℕ) (xs front rest : Bytes)
    → split_at? n xs ≡ some (front, rest)
    → (xs ≡ front ++ rest) × (length front ≡ n)
unfolding split_at?
split_at?-eq zero xs front rest h = ground arith
split_at?-eq (suc n) [] front rest h = absurd (ground arith)
split_at?-eq (suc n) (x ∷ xs) front rest h = elim (Option-cases (split_at? n xs)) [
  | inl e ↦ absurd (ground arith)
  | inr ((f, r), e) ↦ ground (arith, split_at?-eq n xs f r e)
]

split_at?-none : (n : ℕ) (xs : Bytes) → split_at? n xs ≡ none → length xs < n
unfolding split_at?
split_at?-none zero xs h = absurd (ground arith)
split_at?-none (suc n) [] h = omega arith
split_at?-none (suc n) (x ∷ xs) h = ground (arith, split_at?-none n xs)

read_exact-Does : (n : ℕ) → Does n 0 (ReadBytes n) (read_exact n)
unfolding read_exact taken
read_exact-Does n s bytes room = elim (Option-cases (split_at? n s.input)) [
  | inl e ↦
      rw (read_exact, taken, e)
        (record {
          front = s.input;
          written = [];
          taken_off = sym (append-nil s.input);
          few = omega (arith, split_at?-none n s.input e);
          added = sym (append-nil s.output);
          short = omega arith;
          room_left = omega arith;
          related = (refl, refl);
        })
  | inr ((front, rest), e) ↦
      let (whole, size) = split_at?-eq n s.input front rest e in
      rw (read_exact, taken, e)
        (record {
          front = front;
          written = [];
          taken_off = whole;
          few = omega arith;
          added = sym (append-nil s.output);
          short = omega arith;
          room_left = omega arith;
          related = (refl, size, All-append-left front rest (rw whole at bytes));
        })
]

write_all-Does :
    (b : Bytes) → Does 0 (length b) (λ r written. (r ≡ ok tt) × (written ≡ b)) (write_all b)
unfolding write_all
write_all-Does b s bytes room =
    rw (write_all, le→leb (length b) s.room room)
      (record {
        front = [];
        written = b;
        taken_off = refl;
        few = omega arith;
        added = refl;
        short = omega arith;
        room_left = omega arith;
        related = (refl, refl);
      })

module _ {A : Type 0} (Q : Result IoError A → Bytes → Type 0) where
  -- What needs neither input nor room.
  pub now-Does : (r : Result IoError A) → Q r [] → Does 0 0 Q (λ s. (r, s))
  now-Does r q s bytes room = record {
    front = [];
    written = [];
    taken_off = refl;
    few = omega arith;
    added = sym (append-nil s.output);
    short = omega arith;
    room_left = omega arith;
    related = q;
  }

  pub weaken-Does :
      (P : Result IoError A → Bytes → Type 0) (n w n' w' : ℕ) (m : Io A)
      → n ≤ n'
      → w ≤ w'
      → ((r : Result IoError A) (written : Bytes) → P r written → Q r written)
      → Does n w P m
      → Does n' w' Q m
  weaken-Does P n w n' w' m hn hw weaker d s bytes room =
      let did = d s bytes (omega arith) in
      record {
        front = did.front;
        written = did.written;
        taken_off = did.taken_off;
        few = omega arith;
        added = did.added;
        short = omega arith;
        room_left = did.room_left;
        related = weaker _ _ did.related;
      }

  module _ {B : Type 0} (P : Result IoError B → Bytes → Type 0) (n w n' w' : ℕ) where
    then-Did :
        (f : B → Io A) (s s' : Stream) (r : Result IoError B)
        → IsBytes s.input
        → w + w' ≤ s.room
        → Did n w P s r s'
        → ((b : B) (u : Bytes) → P (ok b) u → Does n' w' (λ r v. Q r (u ++ v)) (f b))
        → ((e : IoError) (u : Bytes) → P (err e) u → Q (err e) u)
        → Did (n + n') (w + w') Q s (continue r f s').0 (continue r f s').1
    then-Did f s s' (err e) bytes room did next failed = record {
      front = did.front;
      written = did.written;
      taken_off = did.taken_off;
      few = omega (arith, did.few);
      added = did.added;
      short = omega (arith, did.short);
      room_left = did.room_left;
      related = failed e did.written did.related;
    }
    then-Did f s s' (ok b) bytes room did next failed =
        let rest =
          next b did.written did.related s'
            (All-append-right did.front s'.input (subst IsBytes did.taken_off bytes))
            (omega (arith, did.short, did.room_left)) in
        record {
          front = did.front ++ rest.front;
          written = did.written ++ rest.written;
          taken_off =
              did.taken_off
              ∙ ap (◌++◌ did.front) rest.taken_off
              ∙ sym (append_assoc did.front rest.front (f b s').1.input);
          few = omega (arith, length-append {0} did.front rest.front, did.few, rest.few);
          added =
              rest.added
              ∙ ap (λ o. o ++ rest.written) did.added
              ∙ append_assoc s.output did.written rest.written;
          short = omega (arith, length-append {0} did.written rest.written, did.short, rest.short);
          room_left =
              omega
                (arith, length-append {0} did.written rest.written, did.room_left, rest.room_left);
          related = rest.related;
        }

    -- One action after another; an error of the first is the error of both.
    pub bind-Does :
        (m : Io B) (f : B → Io A)
        → Does n w P m
        → ((b : B) (u : Bytes) → P (ok b) u → Does n' w' (λ r v. Q r (u ++ v)) (f b))
        → ((e : IoError) (u : Bytes) → P (err e) u → Q (err e) u)
        → Does (n + n') (w + w') Q (m >>= f)
    bind-Does m f d next failed s bytes room =
        then-Did f s (m s).1 (m s).0 bytes room (d s bytes (omega arith)) next failed

  -- A read, and what follows it: it writes nothing.
  pub read-Does :
      (n k n' w' : ℕ) (f : Bytes → Io A)
      → n ≤ k
      → ((b : Bytes) → length b ≡ n → IsBytes b → Does n' w' Q (f b))
      → ((e : IoError) → Q (err e) [])
      → Does (k + n') w' Q (read_exact n >>= f)
  read-Does n k n' w' f h next failed =
      weaken-Does Q (n + n') (0 + w') (k + n') w' (read_exact n >>= f) (omega arith) (omega arith)
        (λ r written q. q)
        (bind-Does (ReadBytes n) n 0 n' w' (read_exact n) f (read_exact-Does n)
          (λ b u p. rw p.0 (next b p.1 p.2)) (λ e u p. rw p.0 (failed e)))

  -- A write, and what follows it.
  pub write-Does :
      (b : Bytes) (n' w' : ℕ) (m : Io A)
      → Does n' w' (λ r v. Q r (b ++ v)) m
      → Does n' (length b + w') Q (write_all b >> m)
  write-Does b n' w' m next =
      weaken-Does Q (0 + n') (length b + w') n' (length b + w') (write_all b >> m) (omega arith)
        (omega arith) (λ r written q. q)
        (bind-Does (λ r written. (r ≡ ok tt) × (written ≡ b)) 0 (length b) n' w' (write_all b)
          (λ _. m) (write_all-Does b) (λ t u p. rw p.1 next) (λ e u p. absurd (ground arith)))
