-- ===== src/Channel/Alive.antt =====
-- Who is still there when the other reaches for it.
use mathlib.Core.Path.{subst}
use cpp_jam.Common.{◌≡◌, ◌≢◌, some}
use cpp_jam.Channel.State.{SenderAt, ReceiverAt, State}
use cpp_jam.Channel.Steps.{Reach}
use cpp_jam.Channel.Places.{links}
use cpp_jam.Channel.Links.{from_sender, Reach-IsLinked}

-- However the threads' steps interleave, the receiver is not destroyed while the sender is in `set` behind its look at `opp_`, or in its
-- destructor before it has unregistered; and the sender is not destroyed while the receiver's destructor has found it and holds the lock.
pub endpoints_alive {ℓ} :
    {T : Type ℓ} (moved : T → T) (s : State T)
    → Reach moved s
    → ((t : T) → s.sender ≡ SenderAt.storing t → s.receiver ≢ ReceiverAt.gone)
      × (s.sender ≡ SenderAt.signalling → s.receiver ≢ ReceiverAt.gone)
      × (s.sender ≡ SenderAt.unregistering → s.receiver ≢ ReceiverAt.gone)
      × (s.receiver ≡ ReceiverAt.drop_locked → s.sender ≢ SenderAt.gone)
endpoints_alive {T} moved s reached = (
  λ t here there. impossible (SenderAt.storing t) here there (λ h. cc),
  λ here there. impossible SenderAt.signalling here there (λ h. cc),
  λ here there. impossible SenderAt.unregistering here there (λ h. cc),
  λ there here.
      let both : links {T = T} SenderAt.gone ReceiverAt.drop_locked
          ≡ some (s.sender_opp, s.receiver_opp) =
        subst (λ x. links {T = T} SenderAt.gone x ≡ some (s.sender_opp, s.receiver_opp)) there
          (from_sender s here (Reach-IsLinked reached)) in
      absurd (cc),
)
  where
    impossible :
        (at_ : SenderAt T)
        → s.sender ≡ at_
        → s.receiver ≡ ReceiverAt.gone
        → (links at_ ReceiverAt.gone ≢ some (s.sender_opp, s.receiver_opp))
        → ⊥
    impossible at_ here there h = h (
        subst (λ x. links at_ x ≡ some (s.sender_opp, s.receiver_opp)) there
          (from_sender s here (Reach-IsLinked reached)))
