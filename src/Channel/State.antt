-- ===== src/Channel/State.antt =====
-- The two endpoints of a channel, and where their threads are in the endpoints' functions.
use cpp_jam.Common.{Bool, true, false, List, Option, none, some}

-- The sender's thread, between two places where another thread can act. `storing` to `signalling`
-- is in `set`, `unregistering` and `drop_signalling` in the destructor, both under the sender's
-- mutex; `gone` is behind the destructor.
pub data SenderAt {ℓ} (T : Type ℓ) : Type ℓ where
  idle : SenderAt T
  storing : T → SenderAt T
  signalling : SenderAt T
  unregistering : SenderAt T
  drop_signalling : SenderAt T
  gone : SenderAt T

-- The receiver's thread: `waiting` and `woken` are in `wait`, `dropping` and `drop_locked` in the
-- destructor, the latter under the receiver's mutex.
pub data ReceiverAt : Type 0 where
  idle : ReceiverAt
  waiting : ReceiverAt
  woken : ReceiverAt
  dropping : ReceiverAt
  drop_locked : ReceiverAt
  gone : ReceiverAt

-- `sender_opp` and `receiver_opp` say whether the contexts' `opp_` is set, `data_` is that of the
-- receiver, `signalled` is its event. `sent` holds the values that were stored, the last one first,
-- and `returned` the results of `wait`, the last one first.
pub record State {ℓ} (T : Type ℓ) : Type ℓ where
  pub sender : SenderAt T
  pub receiver : ReceiverAt
  pub sender_opp : Bool
  pub receiver_opp : Bool
  pub data_ : Option T
  pub signalled : Bool
  pub sent : List T
  pub returned : List (Option T)

-- Whether the sender's mutex is taken, and the receiver's.
abbrev pub sender_locks {ℓ} : {T : Type ℓ} → SenderAt T → Bool
sender_locks SenderAt.idle = false
sender_locks (SenderAt.storing t) = true
sender_locks SenderAt.signalling = true
sender_locks SenderAt.unregistering = true
sender_locks SenderAt.drop_signalling = true
sender_locks SenderAt.gone = false

abbrev pub receiver_locks : ReceiverAt → Bool
receiver_locks ReceiverAt.drop_locked = true
receiver_locks _ = false

-- `std::move(context.data_)`: an optional that held a value goes on holding what the move left.
abbrev pub moved_data {ℓ} : {T : Type ℓ} → (T → T) → Option T → Option T
moved_data moved none = none
moved_data moved (some t) = some (moved t)
