-- ===== src/Channel/Links.antt =====
-- Which endpoint knows which in every state that a channel reaches.
use mathlib.Core.Path.{subst}
use cpp_jam.Common.{◌≡◌, refl, sym, ◌∙◌, some}
use cpp_jam.Channel.State.{SenderAt, ReceiverAt, State}
use cpp_jam.Channel.Steps.{
  SenderStep, ReceiverStep, Step, by_sender, by_receiver, Reach, here, more,
}
use cpp_jam.Channel.Places.{
  links, at_set_begin, at_drop_begin, at_set_store, at_set_signal, at_drop_unregister,
  at_drop_signal, at_moves, at_drop_look, at_drop_retry, at_drop_unlink,
}

abbrev pub IsLinked {ℓ} : {T : Type ℓ} → State T → Type 0
IsLinked s = links s.sender s.receiver ≡ some (s.sender_opp, s.receiver_opp)

module _ {ℓ} {T : Type ℓ} where
  pub from_sender :
      (s : State T) {at_ : SenderAt T}
      → s.sender ≡ at_
      → IsLinked s
      → links at_ s.receiver ≡ some (s.sender_opp, s.receiver_opp)
  from_sender s e h = subst (λ x. links x s.receiver ≡ some (s.sender_opp, s.receiver_opp)) e h

  pub from_receiver :
      (s : State T) {at_ : ReceiverAt}
      → s.receiver ≡ at_
      → IsLinked s
      → links s.sender at_ ≡ some (s.sender_opp, s.receiver_opp)
  from_receiver s e h = subst (λ x. links s.sender x ≡ some (s.sender_opp, s.receiver_opp)) e h

  sender-IsLinked : {s s' : State T} → SenderStep s s' → IsLinked s → IsLinked s'
  sender-IsLinked (SenderStep.set_begin s t at_) h =
      at_set_begin T t s.receiver s.sender_opp s.receiver_opp (from_sender s at_ h)
  sender-IsLinked (SenderStep.set_store s t at_ free) h =
      sym (at_set_store T t s.receiver) ∙ from_sender s at_ h
  sender-IsLinked (SenderStep.set_signal s at_) h =
      at_set_signal T s.receiver (s.sender_opp, s.receiver_opp) (from_sender s at_ h)
  sender-IsLinked (SenderStep.drop_begin s at_) h =
      at_drop_begin T s.receiver s.sender_opp s.receiver_opp (from_sender s at_ h)
  sender-IsLinked (SenderStep.drop_unregister s at_ free) h =
      at_drop_unregister T s.receiver s.sender_opp s.receiver_opp (from_sender s at_ h) free
  sender-IsLinked (SenderStep.drop_signal s at_) h =
      at_drop_signal T s.receiver s.sender_opp s.receiver_opp (from_sender s at_ h)

  receiver-IsLinked :
      {moved : T → T} {s s' : State T} → ReceiverStep moved s s' → IsLinked s → IsLinked s'
  receiver-IsLinked (ReceiverStep.wait_begin s at_) h =
      sym (at_moves T s.sender).0 ∙ from_receiver s at_ h
  receiver-IsLinked (ReceiverStep.wake s at_ signalled) h =
      sym (at_moves T s.sender).1 ∙ (at_moves T s.sender).0 ∙ from_receiver s at_ h
  receiver-IsLinked (ReceiverStep.take s at_) h = (at_moves T s.sender).1 ∙ from_receiver s at_ h
  receiver-IsLinked (ReceiverStep.drop_begin s at_) h =
      sym (at_moves T s.sender).2 ∙ from_receiver s at_ h
  receiver-IsLinked (ReceiverStep.drop_look s at_) h =
      at_drop_look T s.sender s.sender_opp s.receiver_opp (from_receiver s at_ h)
  receiver-IsLinked (ReceiverStep.drop_retry s at_ taken) h =
      at_drop_retry T s.sender (s.sender_opp, s.receiver_opp) (from_receiver s at_ h)
  receiver-IsLinked (ReceiverStep.drop_unlink s at_ free) h =
      at_drop_unlink T s.sender (s.sender_opp, s.receiver_opp) (from_receiver s at_ h) free

  step-IsLinked : {moved : T → T} {s s' : State T} → Step moved s s' → IsLinked s → IsLinked s'
  step-IsLinked (by_sender step) h = sender-IsLinked step h
  step-IsLinked (by_receiver step) h = receiver-IsLinked step h

  pub Reach-IsLinked : {moved : T → T} {s : State T} → Reach moved s → IsLinked s
  Reach-IsLinked here = refl
  Reach-IsLinked (more before step) = step-IsLinked step (Reach-IsLinked before)
