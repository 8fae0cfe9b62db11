-- ===== src/Channel/Promises.antt =====
-- What a receiver that has not got anything yet can count on.
use mathlib.Core.Path.{subst}
use cpp_jam.Common.{
  ◌≡◌, ◌≢◌, refl, ap, Bool, true, false, List, [], ◌∷◌, Option, none, some, inl, inr, ◌⊎◌,
}
use cpp_jam.Channel.State.{SenderAt, ReceiverAt, State}
use cpp_jam.Channel.Steps.{
  SenderStep, ReceiverStep, by_sender, by_receiver, begin_set, begin_drop, look_opp, Reach, here,
  more,
}
use cpp_jam.Channel.Places.{links}
use cpp_jam.Channel.Links.{IsLinked, from_sender, Reach-IsLinked}

-- The value stored last.
abbrev pub last_sent {ℓ} : {T : Type ℓ} → List T → Option T
last_sent [] = none
last_sent (t ∷ ts) = some t

-- Before its first `wait` returns, `data_` holds the value that was stored last.
abbrev pub HoldsLast {ℓ} : {T : Type ℓ} → State T → Type ℓ
HoldsLast s = s.returned ≡ [] → s.data_ ≡ last_sent s.sent

-- The receiver has not yet taken a signal.
abbrev pub is_fresh : ReceiverAt → Bool
is_fresh ReceiverAt.idle = true
is_fresh ReceiverAt.waiting = true
is_fresh _ = false

abbrev pub is_empty {ℓ} : {T : Type ℓ} → List T → Bool
is_empty [] = true
is_empty (t ∷ ts) = false

-- The sender is on its way to signal, or it has had no reason to: it has stored nothing and has
-- not begun to unregister.
abbrev pub owes {ℓ} : {T : Type ℓ} → SenderAt T → Bool → Bool
owes SenderAt.signalling nothing = true
owes SenderAt.drop_signalling nothing = true
owes SenderAt.unregistering nothing = true
owes SenderAt.gone nothing = false
owes _ nothing = nothing

-- A receiver that never took a signal has one waiting, or one is owed to it.
abbrev pub IsPromised {ℓ} : {T : Type ℓ} → State T → Type ℓ
IsPromised {T} s =
    is_fresh s.receiver ≡ true
    → s.returned ≡ []
    → (s.signalled ≡ true) ⊎ (owes s.sender (is_empty s.sent) ≡ true)

module _ {ℓ} (T : Type ℓ) where
  -- A sender that is idle is linked with a receiver that is fresh.
  fresh_linked :
      (r : ReceiverAt) (so ro : Bool)
      → is_fresh r ≡ true
      → links {T = T} SenderAt.idle r ≡ some (so, ro)
      → so ≡ true
  fresh_linked ReceiverAt.idle so ro fresh h = cc
  fresh_linked ReceiverAt.waiting so ro fresh h = cc
  fresh_linked ReceiverAt.woken so ro fresh h = absurd (cc)
  fresh_linked ReceiverAt.dropping so ro fresh h = absurd (cc)
  fresh_linked ReceiverAt.drop_locked so ro fresh h = absurd (cc)
  fresh_linked ReceiverAt.gone so ro fresh h = absurd (cc)

  owes-begin_drop : (so : Bool) (b : Bool) → so ≡ true → owes {T = T} (begin_drop so) b ≡ true
  owes-begin_drop true b h = refl
  owes-begin_drop false b h = absurd (cc)

not_fresh : (b : Bool) → is_fresh (look_opp b) ≢ true
not_fresh true h = cc
not_fresh false h = cc

module _ {ℓ} {T : Type ℓ} where
  sender-HoldsLast : {s s' : State T} → SenderStep s s' → HoldsLast s → HoldsLast s'
  sender-HoldsLast (SenderStep.set_begin s t at_) h = h
  sender-HoldsLast (SenderStep.set_store s t at_ free) h = λ first. refl
  sender-HoldsLast (SenderStep.set_signal s at_) h = h
  sender-HoldsLast (SenderStep.drop_begin s at_) h = h
  sender-HoldsLast (SenderStep.drop_unregister s at_ free) h = h
  sender-HoldsLast (SenderStep.drop_signal s at_) h = h

  receiver-HoldsLast :
      {moved : T → T} {s s' : State T} → ReceiverStep moved s s' → HoldsLast s → HoldsLast s'
  receiver-HoldsLast (ReceiverStep.wait_begin s at_) h = h
  receiver-HoldsLast (ReceiverStep.wake s at_ signalled) h = h
  receiver-HoldsLast (ReceiverStep.take s at_) h = λ first. absurd (cc)
  receiver-HoldsLast (ReceiverStep.drop_begin s at_) h = h
  receiver-HoldsLast (ReceiverStep.drop_look s at_) h = h
  receiver-HoldsLast (ReceiverStep.drop_retry s at_ taken) h = h
  receiver-HoldsLast (ReceiverStep.drop_unlink s at_ free) h = h

  pub Reach-HoldsLast : {moved : T → T} {s : State T} → Reach moved s → HoldsLast s
  Reach-HoldsLast here = λ first. refl
  Reach-HoldsLast (more before (by_sender step)) = sender-HoldsLast step (Reach-HoldsLast before)
  Reach-HoldsLast (more before (by_receiver step)) =
      receiver-HoldsLast step (Reach-HoldsLast before)

  -- What a step of the sender that leaves the signal and the values alone owes afterwards.
  still_owed :
      (s : State T) (at_ at' : SenderAt T)
      → s.sender ≡ at_
      → (owes at_ (is_empty s.sent) ≡ true → owes at' (is_empty s.sent) ≡ true)
      → IsPromised s
      → is_fresh s.receiver ≡ true
      → s.returned ≡ []
      → (s.signalled ≡ true) ⊎ (owes at' (is_empty s.sent) ≡ true)
  still_owed s at_ at' e still h fresh first = elim (h fresh first) [
    | inl signalled ↦ inl signalled
    | inr owed ↦ inr (still (subst (λ x. owes x (is_empty s.sent) ≡ true) e owed))
  ]

  owes-begin_set :
      (so : Bool) (t : T) (b : Bool)
      → owes {T = T} SenderAt.idle b ≡ true
      → owes (begin_set so t) b ≡ true
  owes-begin_set true t b h = h
  owes-begin_set false t b h = h

  sender-IsPromised : {s s' : State T} → SenderStep s s' → IsLinked s → IsPromised s → IsPromised s'
  sender-IsPromised (SenderStep.set_begin s t at_) linked h =
      still_owed s SenderAt.idle (begin_set s.sender_opp t) at_
        (owes-begin_set s.sender_opp t (is_empty s.sent)) h
  sender-IsPromised (SenderStep.set_store s t at_ free) linked h = λ fresh first. inr refl
  sender-IsPromised (SenderStep.set_signal s at_) linked h = λ fresh first. inl refl
  sender-IsPromised (SenderStep.drop_begin s at_) linked h = λ fresh first. inr (
      owes-begin_drop T s.sender_opp (is_empty s.sent)
        (fresh_linked T s.receiver s.sender_opp s.receiver_opp fresh (from_sender s at_ linked)))
  sender-IsPromised (SenderStep.drop_unregister s at_ free) linked h = λ fresh first. inr refl
  sender-IsPromised (SenderStep.drop_signal s at_) linked h = λ fresh first. inl refl

  receiver-IsPromised :
      {moved : T → T} {s s' : State T} → ReceiverStep moved s s' → IsPromised s → IsPromised s'
  receiver-IsPromised (ReceiverStep.wait_begin s at_) h = λ fresh first. h (ap is_fresh at_) first
  receiver-IsPromised (ReceiverStep.wake s at_ signalled) h = λ fresh first. absurd (cc)
  receiver-IsPromised (ReceiverStep.take s at_) h = λ fresh first. absurd (cc)
  receiver-IsPromised (ReceiverStep.drop_begin s at_) h = λ fresh first. absurd (cc)
  receiver-IsPromised (ReceiverStep.drop_look s at_) h =
      λ fresh first. absurd (not_fresh s.receiver_opp fresh)
  receiver-IsPromised (ReceiverStep.drop_retry s at_ taken) h = λ fresh first. absurd (cc)
  receiver-IsPromised (ReceiverStep.drop_unlink s at_ free) h = λ fresh first. absurd (cc)

  pub Reach-IsPromised : {moved : T → T} {s : State T} → Reach moved s → IsPromised s
  Reach-IsPromised here = λ fresh first. inr refl
  Reach-IsPromised (more before (by_sender step)) =
      sender-IsPromised step (Reach-IsLinked before) (Reach-IsPromised before)
  Reach-IsPromised (more before (by_receiver step)) =
      receiver-IsPromised step (Reach-IsPromised before)
