-- ===== src/Subscriptions/Defined.antt =====
-- No call is undefined: an iterator that a live subscriber holds points to its node in the engine.
use mathlib.Core.Path.{subst}
use cpp_jam.Common.{ℕ, suc, ◌≡◌, refl, ap, List, [], ◌∷◌, Option, none, some, arith, inl, inr}
use cpp_jam.Common.Maps.{find}
use cpp_jam.Subscriptions.Engine
use cpp_jam.Subscriptions.Engine.{Engine, Task, nodes_of}
use cpp_jam.Subscriptions.Subscriber
use cpp_jam.Subscriptions.Subscriber.{Subscriber, Answer, subscriptions_of}
use cpp_jam.Subscriptions.World.{
  World, Call, create, destroy, subscribe, unsubscribe_key, unsubscribe_set, unsubscribe_all,
  notify_delayed, dispose, drop_engine, update, is_expired, notify_engine, dispose_engine, run,
  run_all, start,
}
use cpp_jam.Subscriptions.Nodes.{node_at}
use cpp_jam.Subscriptions.Linked.{held, IsLinked, IsSound}
use cpp_jam.Subscriptions.Unsubscribed.{IsTidy}
use cpp_jam.Subscriptions.Calls.{key-IsAnswered, set-IsAnswered, all-IsAnswered}
use cpp_jam.Subscriptions.WithoutEngine.{key-IsLocal, set-IsLocal, all-IsLocal}
use cpp_jam.Subscriptions.Notified.{notify-IsSound, notify-IsLinked}
use cpp_jam.Subscriptions.Members.{IsDefined, unsubscribe-IsDefined, subscribe-IsDefined}
use cpp_jam.Subscriptions.Consistent.{WithEngine, IsConsistent, update-cases, world}

module _ (live : ℕ → Option Subscriber) (objects : ℕ) (queued : List Task) where
  abbrev here : Option Engine → World
  here = world live objects queued

  -- A new subscriber holds nothing, and no node has its number.
  created-IsLinked : (e : Engine) → IsSound objects e → IsLinked objects Subscriber.create e
  unfolding Subscriber.create held subscriptions_of find
  created-IsLinked e sound = record {
    there = λ id key it h. cc;
    back = λ key it node there mine.
        let (low, known) = sound.fresh key it node there in absurd (omega (arith, mine, known));
  }

  created-IsSound : (e : Engine) → IsSound objects e → IsSound (suc objects) e
  created-IsSound e sound = record {
    fresh = λ key it node there.
        let (low, known) = sound.fresh key it node there in (low, omega (arith, known));
    maps = sound.maps;
  }

  create-IsTidy : IsTidy Subscriber.create
  unfolding Subscriber.create subscriptions_of find
  create-IsTidy = record { sets = tt; subs = λ id. tt }

  with_created :
      (engine : Option Engine)
      → IsConsistent (here engine)
      → WithEngine (IsSound (suc objects)) engine
        × WithEngine (IsLinked objects Subscriber.create) engine
  with_created none consistent = (tt, tt)
  with_created (some e) consistent =
      (created-IsSound e consistent.sound, created-IsLinked e consistent.sound)

  create-IsDefined :
      (engine : Option Engine) → IsConsistent (here engine) → IsDefined (run create (here engine))
  unfolding run
  create-IsDefined engine consistent =
      let (sound, linked) = with_created engine consistent in
      (
        _,
        refl,
        record {
          known = λ o s h. elim (update-cases objects (some Subscriber.create) live o s h) [
            | inl (same, v) ↦ omega (arith, same)
            | inr (other, before) ↦ omega (arith, consistent.known o s before)
          ];
          tidy = λ o s h. elim (update-cases objects (some Subscriber.create) live o s h) [
            | inl (same, v) ↦ let e : Subscriber.create ≡ s = cc in subst IsTidy e create-IsTidy
            | inr (other, before) ↦ consistent.tidy o s before
          ];
          sound = sound;
          linked = λ o s h. elim (update-cases objects (some Subscriber.create) live o s h) [
            | inl (same, v) ↦
                let e : Subscriber.create ≡ s = cc in
                subst (λ x. WithEngine (IsLinked x s) engine) same
                  (subst (λ x. WithEngine (IsLinked objects x) engine) e linked)
            | inr (other, before) ↦ consistent.linked o s before
          ];
        },
      )

  destroy-IsDefined :
      (self : ℕ) (engine : Option Engine)
      → IsConsistent (here engine)
      → IsDefined (run (destroy self) (here engine))
  unfolding run
  destroy-IsDefined self engine consistent = (
    _,
    refl,
    record {
      known = λ o s h. consistent.known o s (before o s h);
      tidy = λ o s h. consistent.tidy o s (before o s h);
      sound = consistent.sound;
      linked = λ o s h. consistent.linked o s (before o s h);
    },
  )
    where
      before : (o : ℕ) (s : Subscriber) → update self none live o ≡ some s → live o ≡ some s
      before o s h = elim (update-cases self none live o s h) [
        | inl (same, v) ↦ absurd (cc)
        | inr (other, there) ↦ there
      ]

  notify-IsDefined :
      (timeout key : ℕ) (engine : Option Engine)
      → IsConsistent (here engine)
      → IsDefined (run (notify_delayed timeout key) (here engine))
  unfolding run notify_engine
  notify-IsDefined timeout key none consistent = (_, refl, consistent)
  notify-IsDefined timeout key (some e) consistent = (
    _,
    refl,
    record {
      known = consistent.known;
      tidy = consistent.tidy;
      sound = notify-IsSound (λ o. is_expired (live o)) timeout key objects e consistent.sound;
      linked = λ o s h.
          notify-IsLinked (λ o. is_expired (live o)) timeout key objects e o s consistent.sound
            (ap is_expired h) (consistent.linked o s h);
    },
  )

  -- The dispatcher plays no part in what links subscribers and engine.
  dispose-IsDefined :
      (engine : Option Engine) → IsConsistent (here engine) → IsDefined (run dispose (here engine))
  unfolding run dispose_engine Engine.dispose node_at nodes_of
  dispose-IsDefined none consistent = (_, refl, consistent)
  dispose-IsDefined (some e) consistent = (
    _,
    refl,
    record {
      known = consistent.known;
      tidy = consistent.tidy;
      sound = record { fresh = consistent.sound.fresh; maps = consistent.sound.maps };
      linked = λ o s h.
          let linked = consistent.linked o s h in
          record { there = linked.there; back = linked.back };
    },
  )

  pub run-IsDefined :
      (c : Call) (engine : Option Engine)
      → IsConsistent (here engine)
      → IsDefined (run c (here engine))
  unfolding run
  run-IsDefined create engine consistent = create-IsDefined engine consistent
  run-IsDefined (destroy self) engine consistent = destroy-IsDefined self engine consistent
  run-IsDefined (subscribe self id key tid) engine consistent =
      subscribe-IsDefined live objects queued self id key tid engine consistent
  run-IsDefined (unsubscribe_key self id key) engine consistent =
      unsubscribe-IsDefined live objects queued self engine (Subscriber.unsubscribe_key id key)
        consistent (key-IsAnswered self id key) (key-IsLocal id key)
  run-IsDefined (unsubscribe_set self id) engine consistent =
      unsubscribe-IsDefined live objects queued self engine (Subscriber.unsubscribe_set id)
        consistent (set-IsAnswered self id) (set-IsLocal id)
  run-IsDefined (unsubscribe_all self) engine consistent =
      unsubscribe-IsDefined live objects queued self engine Subscriber.unsubscribe_all consistent
        (all-IsAnswered self) (λ s tidy. all-IsLocal s)
  run-IsDefined (notify_delayed timeout key) engine consistent =
      notify-IsDefined timeout key engine consistent
  run-IsDefined dispose engine consistent = dispose-IsDefined engine consistent
  run-IsDefined drop_engine engine consistent = (
    _,
    refl,
    record { known = consistent.known; tidy = consistent.tidy; sound = tt; linked = λ o s h. tt },
  )

start-IsConsistent : IsConsistent start
unfolding start node_at nodes_of find
start-IsConsistent = record {
  known = λ o s h. cc;
  tidy = λ o s h. cc;
  sound = record { fresh = λ key it node h. cc; maps = λ key. tt };
  linked = λ o s h. cc;
}

run_from :
    (cs : List Call) (w : World)
    → IsConsistent w
    → (w' : World) × (run_all cs (some w) ≡ some w') × IsConsistent w'
unfolding run_all
run_from [] w consistent = (w, refl, consistent)
run_from (c ∷ cs) w consistent =
    let (w1, done, consistent1) = run-IsDefined w.live w.objects w.queued c w.engine consistent in
    let (w2, rest, consistent2) = run_from cs w1 consistent1 in
    (w2, rw (run_all, done) rest, consistent2)

-- Whatever calls are made, none is undefined: no iterator is erased that does not point into the list of its event. Afterwards every live
-- subscriber holds an iterator for an event in a set exactly if the engine, while it is there, has a node for that, and it is the iterator's node.
pub run_all-IsConsistent :
    (cs : List Call) → (w : World) × (run_all cs (some start) ≡ some w) × IsConsistent w
run_all-IsConsistent cs = run_from cs start start-IsConsistent

pub reached-IsConsistent :
    (cs : List Call) (w : World) → run_all cs (some start) ≡ some w → IsConsistent w
reached-IsConsistent cs w reached =
    let (w', done, consistent) = run_all-IsConsistent cs in
    let same : w' ≡ w = cc in subst IsConsistent same consistent
