-- ===== src/Subscriptions/Silent.antt =====
-- A set that has been unsubscribed gets no further tasks.
use mathlib.Core.Path.{subst}
use cpp_jam.Common.{
  ℕ, ◌+◌, ◌≡◌, refl, sym, ap, ◌∙◌, true, false, List, [], ◌∷◌, ◌++◌, Option, none, some, arith,
  Option-cases, inl, inr, ==_refl,
}
use cpp_jam.Common.Maps.{find, find-remove}
use cpp_jam.Subscriptions.Engine
use cpp_jam.Subscriptions.Engine.{Engine, Task}
use cpp_jam.Subscriptions.Subscriber.{Subscriber, Answer, subscriptions_of}
use cpp_jam.Subscriptions.Subscriber
use cpp_jam.Subscriptions.World.{
  World, Call, unsubscribe_set, notify_delayed, update, is_expired, accept, on_live, notify_engine,
  run, run_all, start,
}
use cpp_jam.Subscriptions.Linked.{held, IsLinked, IsSound}
use cpp_jam.Subscriptions.Calls.{without_set}
use cpp_jam.Subscriptions.Consistent.{IsConsistent, WithEngine}
use cpp_jam.Subscriptions.Defined.{reached-IsConsistent, run-IsDefined}
use cpp_jam.Subscriptions.Delivered.{count_for, count-silent}

count-append :
    (self id : ℕ) (ts us : List Task)
    → count_for self id (ts ++ us) ≡ count_for self id ts + count_for self id us
count-append self id [] us = omega arith
count-append self id (t ∷ ts) us = omega (arith, count-append self id ts us)

-- After `unsubscribe(id)` the subscriber holds nothing in the set.
unsubscribed-held :
    (id key : ℕ) (s : Subscriber) (engine : Option Engine) (a : Answer)
    → Subscriber.unsubscribe_set id s engine ≡ some a
    → held id key a.subscriber ≡ none
unfolding Subscriber.unsubscribe_set held subscriptions_of find
unsubscribed-held id key s engine a done = elim (Option-cases (find id s.subscriptions_sets)) [
  | inl absent ↦
      let done' : some (record { was_subscribed = false; subscriber = s; engine = engine })
          ≡ some a =
        rw (Subscriber.unsubscribe_set, absent) at done in
      let same : s ≡ a.subscriber = by_answer _ a done' in
      subst (λ x. held id key x ≡ none) same (rw absent refl)
  | inr (subs, present) ↦
      let done' : Subscriber.answer true (without_set id s)
            (Subscriber.unsubscribe_each subs engine)
          ≡ some a =
        rw (Subscriber.unsubscribe_set, present) at done in
      let same : without_set id s ≡ a.subscriber =
        by_each (Subscriber.unsubscribe_each subs engine) done' in
      subst (λ x. held id key x ≡ none) same
        (rw (find-remove id id s.subscriptions_sets, ==_refl id) refl)
]
  where
    by_answer : (b a : Answer) → some b ≡ some a → b.subscriber ≡ a.subscriber
    by_answer b a h = let e : b ≡ a = cc in ap (λ x. x.subscriber) e

    by_each :
        (result : Option (Option Engine))
        → Subscriber.answer true (without_set id s) result ≡ some a
        → without_set id s ≡ a.subscriber
    by_each none h = cc
    by_each (some engine') h = by_answer _ a h

-- One more notification of a consistent world in which the subscriber holds nothing in the set.
notify-silent :
    (self id timeout key objects : ℕ) (live : ℕ → Option Subscriber) (queued : List Task)
    (engine : Option Engine) (s : Subscriber)
    → live self ≡ some s
    → held id key s ≡ none
    → WithEngine (IsSound objects) engine
    → WithEngine (IsLinked self s) engine
    → count_for self id
        (notify_engine timeout key
          (record { engine = engine; live = live; objects = objects; queued = queued })
          engine).queued
      ≡ count_for self id queued
unfolding notify_engine
notify-silent self id timeout key objects live queued none s alive silent sound linked = refl
notify-silent self id timeout key objects live queued (some e) s alive silent sound linked =
    let result = Engine.notify_delayed (λ o. is_expired (live o)) timeout key e in
    omega (
      arith,
      count-append self id queued result.0,
      count-silent self id timeout key objects (λ o. is_expired (live o)) s e sound linked
          (ap is_expired alive) silent,
    )

-- What a defined answer makes of the world.
after_accept :
    (self : ℕ) (w w1 : World) (result : Option Answer)
    → accept self w result ≡ some w1
    → (a : Answer) × (result ≡ some a) × (w1.live self ≡ some a.subscriber) × (w1.queued ≡ w.queued)
unfolding accept
after_accept self w w1 none h = cc
after_accept self w w1 (some a) h =
    let same : record w { engine = a.engine; live = update self (some a.subscriber) w.live } ≡ w1 =
      cc in
    (
      a,
      refl,
      subst (λ x. x.live self ≡ some a.subscriber) same (rw (==_refl self) refl),
      ap (λ x. x.queued) (sym same),
    )

after_unsubscribe :
    (self id : ℕ) (w w1 : World) (s : Subscriber)
    → w.live self ≡ some s
    → run (unsubscribe_set self id) w ≡ some w1
    → (a : Answer) × (Subscriber.unsubscribe_set id s w.engine ≡ some a)
      × (w1.live self ≡ some a.subscriber)
      × (w1.queued ≡ w.queued)
unfolding run on_live
after_unsubscribe self id w w1 s alive done =
    after_accept self w w1 (Subscriber.unsubscribe_set id s w.engine) (
      subst
        (λ o. on_live w o (λ s. accept self w (Subscriber.unsubscribe_set id s w.engine)) ≡ some w1)
        alive done)

-- Whatever calls were made, once a live subscriber has called `unsubscribe(id)` a notification of any event queues no
-- further task for that set of it.
pub unsubscribed_silent :
    (cs : List Call) (w w1 w2 : World) (s : Subscriber) (self id timeout key : ℕ)
    → run_all cs (some start) ≡ some w
    → w.live self ≡ some s
    → run (unsubscribe_set self id) w ≡ some w1
    → run (notify_delayed timeout key) w1 ≡ some w2
    → count_for self id w2.queued ≡ count_for self id w.queued
unfolding run
unsubscribed_silent cs w w1 w2 s self id timeout key reached alive done notified =
    let consistent = reached-IsConsistent cs w reached in
    let (w1', done', consistent') =
      run-IsDefined w.live w.objects w.queued (unsubscribe_set self id) w.engine consistent in
    let same : w1' ≡ w1 = cc in
    let consistent1 = subst IsConsistent same consistent' in
    let (a, answered, alive1, queued1) = after_unsubscribe self id w w1 s alive done in
    let same2 : notify_engine timeout key w1 w1.engine ≡ w2 = cc in
    ap (λ x. count_for self id x.queued) (sym same2)
    ∙ notify-silent self id timeout key w1.objects w1.live w1.queued w1.engine a.subscriber alive1
        (unsubscribed-held id key s w.engine a answered) consistent1.sound
        (consistent1.linked self a.subscriber alive1)
    ∙ ap (count_for self id) queued1
