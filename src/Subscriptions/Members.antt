-- ===== src/Subscriptions/Members.antt =====
-- A call of a member function of a subscriber is defined, and keeps what links the subscribers with
-- the engine.
use cpp_jam.Common.{ℕ, ◌≡◌, refl, List, Option, none, some, Option-cases, inl, inr}
use cpp_jam.Subscriptions.Engine.{Engine, Task}
use cpp_jam.Subscriptions.Subscriber
use cpp_jam.Subscriptions.Subscriber.{Subscriber, Answer, subscriptions_of}
use cpp_jam.Subscriptions.World.{World, accept, on_live, after_subscribe}
use cpp_jam.Subscriptions.Linked.{IsLinked}
use cpp_jam.Subscriptions.Unsubscribed.{IsTidy}
use cpp_jam.Subscriptions.Calls.{IsAnswered}
use cpp_jam.Subscriptions.Subscribed.{subscribe-IsSubscribed}
use cpp_jam.Subscriptions.WithoutEngine.{IsLocal}
use cpp_jam.Subscriptions.Consistent.{IsConsistent, world, kept-IsConsistent, local-IsConsistent}

-- The call is defined and leaves a consistent world.
abbrev pub IsDefined : Option World → Type 0
IsDefined result = (w' : World) × (result ≡ some w') × IsConsistent w'

module _ (live : ℕ → Option Subscriber) (objects : ℕ) (queued : List Task) where
  abbrev here : Option Engine → World
  here = world live objects queued

  -- A member function is called on a live subscriber or not at all.
  pub on_live-IsDefined :
      (self : ℕ) (engine : Option Engine) (f : Subscriber → Option World)
      → IsConsistent (here engine)
      → ((s : Subscriber) → live self ≡ some s → IsDefined (f s))
      → IsDefined (on_live (here engine) (live self) f)
  unfolding on_live
  on_live-IsDefined self engine f consistent each = elim (Option-cases (live self)) [
    | inl dead ↦ (here engine, rw dead refl, consistent)
    | inr (s, there) ↦ rw there (each s there)
  ]

  answered-IsDefined :
      (self : ℕ) (s : Subscriber) (e : Engine) (result : Option Answer)
      → IsConsistent (here (some e))
      → live self ≡ some s
      → IsAnswered self e result
      → IsDefined (accept self (here (some e)) result)
  unfolding accept
  answered-IsDefined self s e result consistent there answered = (
    _,
    rw answered.done refl,
    kept-IsConsistent live objects queued self s answered.s' e answered.e' there consistent
        answered.kept,
  )

  local-IsDefined :
      (self : ℕ) (s : Subscriber) (result : Option Answer)
      → IsConsistent (here none)
      → live self ≡ some s
      → IsLocal result
      → IsDefined (accept self (here none) result)
  unfolding accept
  local-IsDefined self s result consistent there local = (
    _,
    rw local.done refl,
    local-IsConsistent live objects queued self s local.s' there consistent local.tidy,
  )

  -- The three forms of `unsubscribe`, with an engine and without.
  pub unsubscribe-IsDefined :
      (self : ℕ) (engine : Option Engine) (f : Subscriber → Option Engine → Option Answer)
      → IsConsistent (here engine)
      → ((s : Subscriber) (e : Engine)
          → IsTidy s
          → IsLinked self s e
          → IsAnswered self e (f s (some e)))
      → ((s : Subscriber) → IsTidy s → IsLocal (f s none))
      → IsDefined (on_live (here engine) (live self) λ s. accept self (here engine) (f s engine))
  unsubscribe-IsDefined self none f consistent with_ without =
      on_live-IsDefined self none _ consistent λ s there.
        local-IsDefined self s (f s none) consistent there
          (without s (consistent.tidy self s there))
  unsubscribe-IsDefined self (some e) f consistent with_ without =
      on_live-IsDefined self (some e) _ consistent λ s there.
        answered-IsDefined self s e (f s (some e)) consistent there
          (with_ s e (consistent.tidy self s there) (consistent.linked self s there))

  pub subscribe-IsDefined :
      (self id key tid : ℕ) (engine : Option Engine)
      → IsConsistent (here engine)
      → IsDefined (
          on_live (here engine) (live self) λ s.
            some
              (after_subscribe self (here engine) (Subscriber.subscribe self id key tid s engine)))
  unfolding after_subscribe Subscriber.subscribe
  subscribe-IsDefined self id key tid none consistent =
      on_live-IsDefined self none _ consistent λ s there. (
        _,
        refl,
        local-IsConsistent live objects queued self s s there consistent
            (consistent.tidy self s there),
      )
  subscribe-IsDefined self id key tid (some e) consistent =
      on_live-IsDefined self (some e) _ consistent λ s there.
        let subscribed =
          subscribe-IsSubscribed objects self id key tid s e consistent.sound
            (consistent.tidy self s there) (consistent.linked self s there) in
        (
          _,
          rw subscribed.done refl,
          kept-IsConsistent live objects queued self s subscribed.s' e subscribed.e' there
              consistent subscribed.kept,
        )
