-- ===== src/Channel/Waits.antt =====
-- When `wait` returns, and when the two threads can go no further.
use mathlib.Core.Path.{subst}
use cpp_jam.Common.{
  ◌≡◌, ◌≢◌, refl, sym, ◌∙◌, ap, true, false, List, [], ◌∷◌, Bool-cases, inl, inr, ◌⊎◌,
}
use cpp_jam.Channel.State.{SenderAt, ReceiverAt, State, sender_locks, receiver_locks}
use cpp_jam.Channel.Steps.{SenderStep, ReceiverStep, Step, by_sender, by_receiver, Reach}
use cpp_jam.Channel.Promises.{
  last_sent, is_empty, is_fresh, owes, Reach-HoldsLast, Reach-IsPromised,
}

-- Steps of the receiver alone.
pub data Alone {ℓ} {T : Type ℓ} (moved : T → T) : State T → State T → Type ℓ where
  done : {s : State T} → Alone moved s s
  then_ : {s s1 s2 : State T} → ReceiverStep moved s s1 → Alone moved s1 s2 → Alone moved s s2

-- A receiver that waits for the first time returns by its own steps once the sender is destroyed, or has stored a value and its `set` is over, whatever
-- the threads did before. It returns the value that was stored last, and nothing if none was.
pub wait_returns {ℓ} :
    {T : Type ℓ} (moved : T → T) (s : State T)
    → Reach moved s
    → s.receiver ≡ ReceiverAt.waiting
    → s.returned ≡ []
    → (s.sender ≡ SenderAt.gone) ⊎ ((s.sender ≡ SenderAt.idle) × (s.sent ≢ []))
    → (s' : State T) × Alone moved s s'
      × (s'.receiver ≡ ReceiverAt.idle)
      × (s'.returned ≡ last_sent s.sent ∷ [])
wait_returns {T} moved s reached waiting first over = (
  _,
  then_ (ReceiverStep.wake s waiting signalled) (then_ (ReceiverStep.take _ refl) done),
  refl,
  rw (first, Reach-HoldsLast reached first) refl,
)
  where
    not_owed : (xs : List T) → xs ≢ [] → is_empty xs ≢ true
    not_owed [] h e = h refl
    not_owed (x ∷ xs) h e = cc

    signalled : s.signalled ≡ true
    signalled = elim (Reach-IsPromised reached (ap is_fresh waiting) first) [
      | inl already ↦ already
      | inr owed ↦ elim over [
        | inl gone ↦
            let h : false ≡ true = subst (λ x. owes x (is_empty s.sent) ≡ true) gone owed in
            absurd (cc)
        | inr (idle, stored) ↦
            absurd (not_owed s.sent stored (subst (λ x. owes x (is_empty s.sent) ≡ true) idle owed))
      ]
    ]

-- The sender can go on unless the receiver's destructor is in its way.
sender_moves {ℓ} :
    {T : Type ℓ} (s : State T)
    → (s.sender ≡ SenderAt.gone)
      ⊎ ((s.receiver ≡ ReceiverAt.drop_locked) × (sender_locks s.sender ≡ true))
      ⊎ ((s' : State T) × SenderStep s s')
sender_moves {T} s = by_place s.sender refl (receiver_cases s.receiver)
  where
    receiver_cases : (r : ReceiverAt) → (receiver_locks r ≡ false) ⊎ (r ≡ ReceiverAt.drop_locked)
    receiver_cases ReceiverAt.idle = inl refl
    receiver_cases ReceiverAt.waiting = inl refl
    receiver_cases ReceiverAt.woken = inl refl
    receiver_cases ReceiverAt.dropping = inl refl
    receiver_cases ReceiverAt.drop_locked = inr refl
    receiver_cases ReceiverAt.gone = inl refl

    by_place :
        (at_ : SenderAt T)
        → s.sender ≡ at_
        → (receiver_locks s.receiver ≡ false) ⊎ (s.receiver ≡ ReceiverAt.drop_locked)
        → (s.sender ≡ SenderAt.gone)
          ⊎ ((s.receiver ≡ ReceiverAt.drop_locked) × (sender_locks s.sender ≡ true))
          ⊎ ((s' : State T) × SenderStep s s')
    by_place SenderAt.idle e r = inr (inr (_, SenderStep.drop_begin s e))
    by_place (SenderAt.storing t) e (inl free) = inr (inr (_, SenderStep.set_store s t e free))
    by_place (SenderAt.storing t) e (inr taken) = inr (inl (taken, ap sender_locks e))
    by_place SenderAt.signalling e r = inr (inr (_, SenderStep.set_signal s e))
    by_place SenderAt.unregistering e (inl free) =
        inr (inr (_, SenderStep.drop_unregister s e free))
    by_place SenderAt.unregistering e (inr taken) = inr (inl (taken, ap sender_locks e))
    by_place SenderAt.drop_signalling e r = inr (inr (_, SenderStep.drop_signal s e))
    by_place SenderAt.gone e r = inl e

-- The receiver can go on unless it is destroyed or waits.
receiver_moves {ℓ} :
    {T : Type ℓ} (moved : T → T) (s : State T)
    → (s.receiver ≡ ReceiverAt.gone)
      ⊎ ((s.receiver ≡ ReceiverAt.waiting) × (s.signalled ≡ false))
      ⊎ ((s' : State T) × ReceiverStep moved s s')
receiver_moves {T} moved s =
    by_place s.receiver refl (Bool-cases s.signalled) (Bool-cases (sender_locks s.sender))
  where
    by_place :
        (at_ : ReceiverAt)
        → s.receiver ≡ at_
        → (s.signalled ≡ true) ⊎ (s.signalled ≡ false)
        → (sender_locks s.sender ≡ true) ⊎ (sender_locks s.sender ≡ false)
        → (s.receiver ≡ ReceiverAt.gone)
          ⊎ ((s.receiver ≡ ReceiverAt.waiting) × (s.signalled ≡ false))
          ⊎ ((s' : State T) × ReceiverStep moved s s')
    by_place ReceiverAt.idle e g l = inr (inr (_, ReceiverStep.wait_begin s e))
    by_place ReceiverAt.waiting e (inl set) l = inr (inr (_, ReceiverStep.wake s e set))
    by_place ReceiverAt.waiting e (inr unset) l = inr (inl (e, unset))
    by_place ReceiverAt.woken e g l = inr (inr (_, ReceiverStep.take s e))
    by_place ReceiverAt.dropping e g l = inr (inr (_, ReceiverStep.drop_look s e))
    by_place ReceiverAt.drop_locked e g (inl taken) =
        inr (inr (_, ReceiverStep.drop_retry s e taken))
    by_place ReceiverAt.drop_locked e g (inr free) =
        inr (inr (_, ReceiverStep.drop_unlink s e free))
    by_place ReceiverAt.gone e g l = inl e

-- There is no deadlock: in every reachable state a thread has a step, unless both endpoints are destroyed, or the sender is and the receiver waits
-- once more although a `wait` of it has returned already.
pub no_deadlock {ℓ} :
    {T : Type ℓ} (moved : T → T) (s : State T)
    → Reach moved s
    → ((s' : State T) × Step moved s s')
      ⊎ ((s.sender ≡ SenderAt.gone)
          × ((s.receiver ≡ ReceiverAt.gone)
              ⊎ ((s.receiver ≡ ReceiverAt.waiting) × (s.returned ≢ []))))
no_deadlock {T} moved s reached = elim (receiver_moves moved s) [
  | inl r_gone ↦ elim (sender_moves s) [
    | inl gone ↦ inr (gone, inl r_gone)
    | inr (inl (locked, taken)) ↦
        let h : ReceiverAt.drop_locked ≡ ReceiverAt.gone = sym locked ∙ r_gone in absurd (cc)
    | inr (inr (s', step)) ↦ inl (s', by_sender step)
  ]
  | inr (inl (waiting, unset)) ↦ elim (sender_moves s) [
    | inl gone ↦ inr (gone, inr (waiting, λ first. unanswered waiting unset gone first))
    | inr (inl (locked, taken)) ↦
        let h : ReceiverAt.drop_locked ≡ ReceiverAt.waiting = sym locked ∙ waiting in absurd (cc)
    | inr (inr (s', step)) ↦ inl (s', by_sender step)
  ]
  | inr (inr (s', step)) ↦ inl (s', by_receiver step)
]
  where
    unanswered :
        s.receiver ≡ ReceiverAt.waiting
        → s.signalled ≡ false
        → s.sender ≡ SenderAt.gone
        → s.returned ≡ []
        → ⊥
    unanswered waiting unset gone first =
        elim (Reach-IsPromised reached (ap is_fresh waiting) first) [
          | inl set ↦ let h : true ≡ false = sym set ∙ unset in absurd (cc)
          | inr owed ↦
              let h : false ≡ true = subst (λ x. owes x (is_empty s.sent) ≡ true) gone owed in
              absurd (cc)
        ]
