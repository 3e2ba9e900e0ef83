-- ===== src/Channel.antt =====
-- `std::sync::mpsc::sync_channel`, the bounded queue under rust/arti-ffi/src/events.rs and logs.rs.
-- A call of `recv_timeout` stands for the moment at which it returns: a wait that an arrival ends
-- is the arrival's `try_send` followed by the receive, so interleavings are sequences of these
-- steps.
use go_arti.Prelude.{
  ℕ, ◌⊎◌, inl, inr, Bool, true, not, Option, none, some, List, [], ◌∷◌, ◌++◌, ltb, if◌then◌else◌,
  length,
}

pub record Channel {ℓ} (A : Type ℓ) : Type ℓ where
  pub items : List A
  pub capacity : ℕ
  pub receiver_alive : Bool
  pub sender_alive : Bool

pub data SendError : Type 0 where
  full disconnected : SendError

pub data RecvError : Type 0 where
  timeout disconnected : RecvError

module _ {ℓ} {A : Type ℓ} where
  unfoldable pub sync_channel : ℕ → Channel A
  sync_channel n = record { items = []; capacity = n; receiver_alive = true; sender_alive = true }

  unfoldable pub try_send : A → Channel A → Option SendError × Channel A
  try_send a ch =
      if not ch.receiver_alive
      then (some SendError.disconnected, ch)
      else if ltb (length ch.items) ch.capacity
      then (none, record ch { items = ch.items ++ a ∷ [] })
      else (some full, ch)

  received : Channel A → List A → (A ⊎ RecvError) × Channel A
  received ch [] = (inr (if ch.sender_alive then timeout else RecvError.disconnected), ch)
  received ch (a ∷ rest) = (inl a, record ch { items = rest })

  unfoldable pub recv_timeout : Channel A → (A ⊎ RecvError) × Channel A
  unfolding received
  recv_timeout ch = received ch ch.items
