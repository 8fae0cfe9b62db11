-- ===== src/Channel/Tests.antt =====
-- Runs of a channel of numbers, and the theorems at these runs.
use cpp_jam.Common.{ℕ, ◌≡◌, ◌≢◌, refl, true, false, [], ◌∷◌, some, inr, ◌⊎◌}
use cpp_jam.Channel.State.{SenderAt, ReceiverAt, State}
use cpp_jam.Channel.Steps.{
  SenderStep, ReceiverStep, Step, by_sender, by_receiver, created, Reach, here, more,
}
use cpp_jam.Channel.Alive.{endpoints_alive}
use cpp_jam.Channel.Waits.{Alone, wait_returns, no_deadlock}

-- What a move leaves of a number.
abbrev same : ℕ → ℕ
same t = t

-- The value 5 is being stored.
abbrev storing : State ℕ
storing = record created { sender = SenderAt.storing 5 }

reach_storing : Reach same storing
reach_storing = more here (by_sender (SenderStep.set_begin created 5 refl))

-- The value 5 is there, and the receiver waits.
abbrev waiting : State ℕ
waiting = record created {
  receiver = ReceiverAt.waiting;
  data_ = some 5;
  signalled = true;
  sent = 5 ∷ [];
}

reach_waiting : Reach same waiting
reach_waiting =
    more
      (more (more reach_storing (by_sender (SenderStep.set_store _ 5 refl refl)))
        (by_sender (SenderStep.set_signal _ refl)))
      (by_receiver (ReceiverStep.wait_begin _ refl))

-- The sender's destructor has unregistered when the receiver is destroyed: the event that it signals next is gone.
abbrev late : State ℕ
late = record created {
  sender = SenderAt.drop_signalling;
  receiver = ReceiverAt.gone;
  receiver_opp = false;
}

signal_after_destruction : Reach same late
signal_after_destruction =
    more
      (more
        (more (more here (by_sender (SenderStep.drop_begin created refl)))
          (by_sender (SenderStep.drop_unregister _ refl refl)))
        (by_receiver (ReceiverStep.drop_begin _ refl)))
      (by_receiver (ReceiverStep.drop_look _ refl))

endpoints_alive_example :
    ((t : ℕ) → storing.sender ≡ SenderAt.storing t → storing.receiver ≢ ReceiverAt.gone)
    × (storing.sender ≡ SenderAt.signalling → storing.receiver ≢ ReceiverAt.gone)
    × (storing.sender ≡ SenderAt.unregistering → storing.receiver ≢ ReceiverAt.gone)
    × (storing.receiver ≡ ReceiverAt.drop_locked → storing.sender ≢ SenderAt.gone)
endpoints_alive_example = endpoints_alive same storing reach_storing

not_empty : waiting.sent ≢ []
not_empty h = cc

wait_returns_example :
    (s' : State ℕ) × Alone same waiting s'
    × (s'.receiver ≡ ReceiverAt.idle)
    × (s'.returned ≡ some 5 ∷ [])
wait_returns_example = wait_returns same waiting reach_waiting refl refl (inr (refl, not_empty))

no_deadlock_example :
    ((s' : State ℕ) × Step same waiting s')
    ⊎ ((waiting.sender ≡ SenderAt.gone)
        × ((waiting.receiver ≡ ReceiverAt.gone)
            ⊎ ((waiting.receiver ≡ ReceiverAt.waiting) × (waiting.returned ≢ []))))
no_deadlock_example = no_deadlock same waiting reach_waiting
