-- ===== src/Subscriptions/Tests.antt =====
-- Runs of an engine with two subscribers, and the theorems at these runs.
use cpp_jam.Common.{◌≡◌, refl, List, [], ◌∷◌, Option, none, some, false}
use cpp_jam.Common.Maps.{find, assign, remove}
use cpp_jam.Subscriptions.Engine
use cpp_jam.Subscriptions.Engine.{Engine}
use cpp_jam.Subscriptions.Subscriber
use cpp_jam.Subscriptions.Subscriber.{Subscriber}
use cpp_jam.Subscriptions.World.{
  World, Call, create, destroy, subscribe, unsubscribe_set, notify_delayed, run, run_all, start,
  is_expired, on_live, after_subscribe, accept, notify_engine,
}
use cpp_jam.Subscriptions.Linked.{held}
use cpp_jam.Subscriptions.Consistent.{IsConsistent}
use cpp_jam.Subscriptions.Delivered.{count_for, notified_once}
use cpp_jam.Subscriptions.Silent.{unsubscribed_silent}
use cpp_jam.Subscriptions.Defined.{run_all-IsConsistent}

-- Two subscribers listen to event 7, the first in two sets, the second is destroyed.
abbrev calls : List Call
calls =
    create
    ∷ create
    ∷ subscribe 0 1 7 100
    ∷ subscribe 1 1 7 100
    ∷ subscribe 0 2 7 101
    ∷ subscribe 0 2 8 101
    ∷ subscribe 0 1 7 102
    ∷ destroy 1
    ∷ []

abbrev outcome : Option World → World
outcome none = start
outcome (some w) = w

abbrev after : World
after = outcome (run_all calls (some start))

abbrev engine_of : Option Engine → Engine
engine_of none = record { subscribers_map = []; has_dispatcher = false; next_node = 0 }
engine_of (some e) = e

abbrev subscriber_of : Option Subscriber → Subscriber
subscriber_of none = Subscriber.create
subscriber_of (some s) = s

run_all-IsConsistent_example : (w : World) × (run_all calls (some start) ≡ some w) × IsConsistent w
run_all-IsConsistent_example = run_all-IsConsistent calls

-- Event 7 reaches the first subscriber once in its set 2.
notified_once_example :
    count_for 0 2
      (Engine.notify_delayed (λ o. is_expired (after.live o)) 5 7 (engine_of after.engine)).0
    ≡ 1
unfolding run_all run start on_live after_subscribe Subscriber.create Subscriber.subscribe
    Subscriber.subscriptions_of Engine.subscribe Engine.nodes_of find assign held
notified_once_example =
    notified_once calls after (engine_of after.engine) (subscriber_of (after.live 0)) 0 2 5 7 refl
      refl refl refl

abbrev unsubscribed : World
unsubscribed = outcome (run (unsubscribe_set 0 1) after)

abbrev notified : World
notified = outcome (run (notify_delayed 5 7) unsubscribed)

unsubscribed_silent_example : count_for 0 1 notified.queued ≡ count_for 0 1 after.queued
unfolding run_all run start on_live after_subscribe accept notify_engine Subscriber.create
    Subscriber.subscribe Subscriber.subscriptions_of Subscriber.unsubscribe_set
    Subscriber.unsubscribe_each Subscriber.unsubscribe_if_there Engine.subscribe Engine.nodes_of
    Engine.unsubscribe Engine.erase_node Engine.erase_from Engine.is_empty Engine.notify_delayed
    Engine.notify_found Engine.notify_nodes find assign remove
unsubscribed_silent_example =
    unsubscribed_silent calls after unsubscribed notified (subscriber_of (after.live 0)) 0 1 5 7
      refl refl refl refl

-- The other set of the subscriber gets its task.
only_set_2 : (count_for 0 2 notified.queued ≡ 1) × (count_for 0 1 notified.queued ≡ 0)
unfolding run_all run start on_live after_subscribe accept notify_engine Subscriber.create
    Subscriber.subscribe Subscriber.subscriptions_of Subscriber.unsubscribe_set
    Subscriber.unsubscribe_each Subscriber.unsubscribe_if_there Engine.subscribe Engine.nodes_of
    Engine.unsubscribe Engine.erase_node Engine.erase_from Engine.is_empty Engine.notify_delayed
    Engine.notify_found Engine.notify_nodes find assign remove
only_set_2 = (refl, refl)
