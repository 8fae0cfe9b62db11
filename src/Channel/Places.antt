-- ===== src/Channel/Places.antt =====
-- The links at every pair of places of the two threads, and what each step does to them.
use cpp_jam.Common.{◌≡◌, refl, Bool, true, false, Option, none, some}
use cpp_jam.Channel.State.{SenderAt, ReceiverAt, sender_locks, receiver_locks}
use cpp_jam.Channel.Steps.{begin_set, begin_drop, look_opp}

-- The `opp_` of the sender and of the receiver while the receiver is not behind its destructor.
abbrev alive_links {ℓ} : {T : Type ℓ} → SenderAt T → Bool × Bool
alive_links SenderAt.drop_signalling = (true, false)
alive_links SenderAt.gone = (false, false)
alive_links _ = (true, true)

-- Both at every pair of places that the threads can reach together.
abbrev pub links {ℓ} : {T : Type ℓ} → SenderAt T → ReceiverAt → Option (Bool × Bool)
links SenderAt.idle ReceiverAt.gone = some (false, false)
links SenderAt.gone ReceiverAt.gone = some (false, false)
links SenderAt.drop_signalling ReceiverAt.gone = some (true, false)
links _ ReceiverAt.gone = none
links SenderAt.drop_signalling ReceiverAt.drop_locked = none
links SenderAt.gone ReceiverAt.drop_locked = none
links s _ = some (alive_links s)

module _ {ℓ} (T : Type ℓ) where
  abbrev place : SenderAt T → ReceiverAt → Option (Bool × Bool)
  place = links

  pub at_set_begin :
      (t : T) (r : ReceiverAt) (so ro : Bool)
      → place SenderAt.idle r ≡ some (so, ro)
      → place (begin_set so t) r ≡ some (so, ro)
  at_set_begin t r false ro h = h
  at_set_begin t ReceiverAt.gone true ro h = absurd (cc)
  at_set_begin t ReceiverAt.idle true ro h = h
  at_set_begin t ReceiverAt.waiting true ro h = h
  at_set_begin t ReceiverAt.woken true ro h = h
  at_set_begin t ReceiverAt.dropping true ro h = h
  at_set_begin t ReceiverAt.drop_locked true ro h = h

  pub at_drop_begin :
      (r : ReceiverAt) (so ro : Bool)
      → place SenderAt.idle r ≡ some (so, ro)
      → place (begin_drop so) r ≡ some (so, ro)
  at_drop_begin ReceiverAt.gone true ro h = absurd (cc)
  at_drop_begin ReceiverAt.gone false ro h = h
  at_drop_begin ReceiverAt.idle true ro h = h
  at_drop_begin ReceiverAt.idle false ro h = absurd (cc)
  at_drop_begin ReceiverAt.waiting true ro h = h
  at_drop_begin ReceiverAt.waiting false ro h = absurd (cc)
  at_drop_begin ReceiverAt.woken true ro h = h
  at_drop_begin ReceiverAt.woken false ro h = absurd (cc)
  at_drop_begin ReceiverAt.dropping true ro h = h
  at_drop_begin ReceiverAt.dropping false ro h = absurd (cc)
  at_drop_begin ReceiverAt.drop_locked true ro h = h
  at_drop_begin ReceiverAt.drop_locked false ro h = absurd (cc)

  pub at_set_store :
      (t : T) (r : ReceiverAt) → place (SenderAt.storing t) r ≡ place SenderAt.signalling r
  at_set_store t ReceiverAt.gone = refl
  at_set_store t ReceiverAt.idle = refl
  at_set_store t ReceiverAt.waiting = refl
  at_set_store t ReceiverAt.woken = refl
  at_set_store t ReceiverAt.dropping = refl
  at_set_store t ReceiverAt.drop_locked = refl

  pub at_set_signal :
      (r : ReceiverAt) (o : Bool × Bool)
      → place SenderAt.signalling r ≡ some o
      → place SenderAt.idle r ≡ some o
  at_set_signal ReceiverAt.gone o h = absurd (cc)
  at_set_signal ReceiverAt.idle o h = h
  at_set_signal ReceiverAt.waiting o h = h
  at_set_signal ReceiverAt.woken o h = h
  at_set_signal ReceiverAt.dropping o h = h
  at_set_signal ReceiverAt.drop_locked o h = h

  pub at_drop_unregister :
      (r : ReceiverAt) (so ro : Bool)
      → place SenderAt.unregistering r ≡ some (so, ro)
      → receiver_locks r ≡ false
      → place SenderAt.drop_signalling r ≡ some (so, false)
  at_drop_unregister ReceiverAt.gone so ro h free = absurd (cc)
  at_drop_unregister ReceiverAt.idle so ro h free = cc
  at_drop_unregister ReceiverAt.waiting so ro h free = cc
  at_drop_unregister ReceiverAt.woken so ro h free = cc
  at_drop_unregister ReceiverAt.dropping so ro h free = cc
  at_drop_unregister ReceiverAt.drop_locked so ro h free = absurd (cc)

  pub at_drop_signal :
      (r : ReceiverAt) (so ro : Bool)
      → place SenderAt.drop_signalling r ≡ some (so, ro)
      → place SenderAt.gone r ≡ some (false, ro)
  at_drop_signal ReceiverAt.gone so ro h = cc
  at_drop_signal ReceiverAt.idle so ro h = cc
  at_drop_signal ReceiverAt.waiting so ro h = cc
  at_drop_signal ReceiverAt.woken so ro h = cc
  at_drop_signal ReceiverAt.dropping so ro h = cc
  at_drop_signal ReceiverAt.drop_locked so ro h = absurd (cc)

  -- The places of a receiver that is in no destructor's lock are alike.
  pub at_moves :
      (s : SenderAt T)
      → (place s ReceiverAt.idle ≡ place s ReceiverAt.waiting)
        × (place s ReceiverAt.idle ≡ place s ReceiverAt.woken)
        × (place s ReceiverAt.idle ≡ place s ReceiverAt.dropping)
  at_moves SenderAt.idle = (refl, refl, refl)
  at_moves (SenderAt.storing t) = (refl, refl, refl)
  at_moves SenderAt.signalling = (refl, refl, refl)
  at_moves SenderAt.unregistering = (refl, refl, refl)
  at_moves SenderAt.drop_signalling = (refl, refl, refl)
  at_moves SenderAt.gone = (refl, refl, refl)

  pub at_drop_look :
      (s : SenderAt T) (so ro : Bool)
      → place s ReceiverAt.dropping ≡ some (so, ro)
      → place s (look_opp ro) ≡ some (so, ro)
  at_drop_look SenderAt.idle so true h = h
  at_drop_look SenderAt.idle so false h = absurd (cc)
  at_drop_look (SenderAt.storing t) so true h = h
  at_drop_look (SenderAt.storing t) so false h = absurd (cc)
  at_drop_look SenderAt.signalling so true h = h
  at_drop_look SenderAt.signalling so false h = absurd (cc)
  at_drop_look SenderAt.unregistering so true h = h
  at_drop_look SenderAt.unregistering so false h = absurd (cc)
  at_drop_look SenderAt.drop_signalling so true h = absurd (cc)
  at_drop_look SenderAt.drop_signalling so false h = h
  at_drop_look SenderAt.gone so true h = absurd (cc)
  at_drop_look SenderAt.gone so false h = h

  pub at_drop_retry :
      (s : SenderAt T) (o : Bool × Bool)
      → place s ReceiverAt.drop_locked ≡ some o
      → place s ReceiverAt.dropping ≡ some o
  at_drop_retry SenderAt.idle o h = h
  at_drop_retry (SenderAt.storing t) o h = h
  at_drop_retry SenderAt.signalling o h = h
  at_drop_retry SenderAt.unregistering o h = h
  at_drop_retry SenderAt.drop_signalling o h = absurd (cc)
  at_drop_retry SenderAt.gone o h = absurd (cc)

  pub at_drop_unlink :
      (s : SenderAt T) (o : Bool × Bool)
      → place s ReceiverAt.drop_locked ≡ some o
      → sender_locks s ≡ false
      → place s ReceiverAt.gone ≡ some (false, false)
  at_drop_unlink SenderAt.idle o h free = refl
  at_drop_unlink (SenderAt.storing t) o h free = absurd (cc)
  at_drop_unlink SenderAt.signalling o h free = absurd (cc)
  at_drop_unlink SenderAt.unregistering o h free = absurd (cc)
  at_drop_unlink SenderAt.drop_signalling o h free = absurd (cc)
  at_drop_unlink SenderAt.gone o h free = absurd (cc)
