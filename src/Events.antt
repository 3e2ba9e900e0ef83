-- ===== src/Events.antt =====
-- The event queue (rust/arti-ffi/src/events.rs): `Event`, `Sender`, `Queue` and `channel`.
pub mod History
use go_arti.Prelude.{ℕ, ◌⊎◌, inl, inr, Option, none, some, Text}
use go_arti.Channel.{
  Channel, SendError, RecvError, full, timeout, sync_channel, try_send, recv_timeout,
}

-- `progress` is a u8.
pub data Event : Type 0 where
  status_client : ℕ → Text → Text → Event
  hs_desc : Text → Text → Text → Event

-- Whatever `try_send` answers is dropped. The channel is generic, as the log queue uses it too.
module _ {ℓ} {A : Type ℓ} where
  ignore_error : Option SendError × Channel A → Channel A
  ignore_error (none, ch) = ch
  ignore_error (some full, ch) = ch
  ignore_error (some SendError.disconnected, ch) = ch

  unfoldable pub send : A → Channel A → Channel A
  unfolding ignore_error try_send
  send ev ch = ignore_error (try_send ev ch)

  or_none : (A ⊎ RecvError) × Channel A → Option A × Channel A
  or_none (inl a, ch) = (some a, ch)
  or_none (inr timeout, ch) = (none, ch)
  or_none (inr RecvError.disconnected, ch) = (none, ch)

  -- `Queue::next`, at the moment it returns.
  unfoldable pub next : Channel A → Option A × Channel A
  unfolding or_none recv_timeout
  next ch = or_none (recv_timeout ch)

-- `channel()`: room for a burst of 256 events between two polls.
unfoldable pub channel : Channel Event
unfolding sync_channel
channel = sync_channel 256
