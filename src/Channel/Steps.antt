-- ===== src/Channel/Steps.antt =====
-- The steps of a sender's and a receiver's thread on one channel, in every order. A step runs from
-- one place where another thread can act to the next.
use cpp_jam.Common.{◌≡◌, Bool, true, false, [], ◌∷◌, none, some}
use cpp_jam.Channel.State.{SenderAt, ReceiverAt, State, sender_locks, receiver_locks, moved_data}

-- `set` and the destructor look at `opp_` under the sender's mutex.
abbrev pub begin_set {ℓ} : {T : Type ℓ} → Bool → T → SenderAt T
begin_set true t = SenderAt.storing t
begin_set false t = SenderAt.idle

abbrev pub begin_drop {ℓ} : {T : Type ℓ} → Bool → SenderAt T
begin_drop true = SenderAt.unregistering
begin_drop false = SenderAt.gone

-- The receiver's destructor looks at `opp_` under the receiver's mutex.
abbrev pub look_opp : Bool → ReceiverAt
look_opp true = ReceiverAt.drop_locked
look_opp false = ReceiverAt.gone

-- `moved` is what moving out of a value leaves of it.
pub data SenderStep {ℓ} {T : Type ℓ} : State T → State T → Type ℓ where
  -- `set(t)`.
  set_begin :
      (s : State T) (t : T)
      → s.sender ≡ SenderAt.idle
      → SenderStep s (record s { sender = begin_set s.sender_opp t })
  set_store :
      (s : State T) (t : T)
      → s.sender ≡ SenderAt.storing t
      → receiver_locks s.receiver ≡ false
      → SenderStep s (record s { sender = SenderAt.signalling; data_ = some t; sent = t ∷ s.sent })
  set_signal :
      (s : State T)
      → s.sender ≡ SenderAt.signalling
      → SenderStep s (record s { sender = SenderAt.idle; signalled = true })
  -- `~Endpoint()` of the sender.
  drop_begin :
      (s : State T)
      → s.sender ≡ SenderAt.idle
      → SenderStep s (record s { sender = begin_drop s.sender_opp })
  drop_unregister :
      (s : State T)
      → s.sender ≡ SenderAt.unregistering
      → receiver_locks s.receiver ≡ false
      → SenderStep s (record s { sender = SenderAt.drop_signalling; receiver_opp = false })
  drop_signal :
      (s : State T)
      → s.sender ≡ SenderAt.drop_signalling
      → SenderStep s (record s { sender = SenderAt.gone; signalled = true; sender_opp = false })

pub data ReceiverStep {ℓ} {T : Type ℓ} (moved : T → T) : State T → State T → Type ℓ where
  -- `wait()`.
  wait_begin :
      (s : State T)
      → s.receiver ≡ ReceiverAt.idle
      → ReceiverStep moved s (record s { receiver = ReceiverAt.waiting })
  wake :
      (s : State T)
      → s.receiver ≡ ReceiverAt.waiting
      → s.signalled ≡ true
      → ReceiverStep moved s (record s { receiver = ReceiverAt.woken; signalled = false })
  take :
      (s : State T)
      → s.receiver ≡ ReceiverAt.woken
      → ReceiverStep moved s (record s {
        receiver = ReceiverAt.idle;
        data_ = moved_data moved s.data_;
        returned = s.data_ ∷ s.returned;
      })
  -- `~Endpoint()` of the receiver, and the rounds of its loop.
  drop_begin :
      (s : State T)
      → s.receiver ≡ ReceiverAt.idle
      → ReceiverStep moved s (record s { receiver = ReceiverAt.dropping })
  drop_look :
      (s : State T)
      → s.receiver ≡ ReceiverAt.dropping
      → ReceiverStep moved s (record s { receiver = look_opp s.receiver_opp })
  drop_retry :
      (s : State T)
      → s.receiver ≡ ReceiverAt.drop_locked
      → sender_locks s.sender ≡ true
      → ReceiverStep moved s (record s { receiver = ReceiverAt.dropping })
  drop_unlink :
      (s : State T)
      → s.receiver ≡ ReceiverAt.drop_locked
      → sender_locks s.sender ≡ false
      → ReceiverStep moved s
          (record s { receiver = ReceiverAt.gone; sender_opp = false; receiver_opp = false })

pub data Step {ℓ} {T : Type ℓ} (moved : T → T) : State T → State T → Type ℓ where
  by_sender : {s s' : State T} → SenderStep s s' → Step moved s s'
  by_receiver : {s s' : State T} → ReceiverStep moved s s' → Step moved s s'

-- What `create_channel` gives.
abbrev pub created {ℓ} : {T : Type ℓ} → State T
created = record {
  sender = SenderAt.idle;
  receiver = ReceiverAt.idle;
  sender_opp = true;
  receiver_opp = true;
  data_ = none;
  signalled = false;
  sent = [];
  returned = [];
}

pub data Reach {ℓ} {T : Type ℓ} (moved : T → T) : State T → Type ℓ where
  here : Reach moved created
  more : {s s' : State T} → Reach moved s → Step moved s s' → Reach moved s'
