-- ===== src/Subscriptions/World.antt =====
-- An engine and its subscribers, and the calls that reach them, one after another: each call holds
-- the mutexes that it needs. A subscriber object is destroyed when its last owner drops it; its
-- destructor unsubscribes from nothing. No two objects get the same number.
use cpp_jam.Common.{
  ℕ, suc, Bool, true, false, List, [], ◌∷◌, ◌++◌, Option, none, some, if◌then◌else◌, ◌==◌,
}
use cpp_jam.Subscriptions.Engine
use cpp_jam.Subscriptions.Engine.{Engine, Task}
use cpp_jam.Subscriptions.Subscriber
use cpp_jam.Subscriptions.Subscriber.{Subscriber, Answer}

-- `engine` is none once the engine is destroyed, `live` gives the subscribers that are not, and
-- `queued` are the tasks that the dispatcher got, the last one last.
pub record World : Type 0 where
  pub engine : Option Engine
  pub live : ℕ → Option Subscriber
  pub objects : ℕ
  pub queued : List Task

pub data Call : Type 0 where
  create : Call
  destroy : (self : ℕ) → Call
  subscribe : (self id key tid : ℕ) → Call
  unsubscribe_key : (self id key : ℕ) → Call
  unsubscribe_set : (self id : ℕ) → Call
  unsubscribe_all : (self : ℕ) → Call
  notify_delayed : (timeout key : ℕ) → Call
  dispose : Call
  drop_engine : Call

abbrev pub update : ℕ → Option Subscriber → (ℕ → Option Subscriber) → ℕ → Option Subscriber
update self s live o = if self == o then s else live o

-- `weak_ptr::expired`.
abbrev pub is_expired : Option Subscriber → Bool
is_expired none = true
is_expired (some s) = false

unfoldable pub accept : ℕ → World → Option Answer → Option World
accept self w none = none
accept self w (some a) =
    some (record w { engine = a.engine; live = update self (some a.subscriber) w.live })

unfoldable pub after_subscribe : ℕ → World → Subscriber × Option Engine → World
after_subscribe self w result = record w {
  engine = result.1;
  live = update self (some result.0) w.live;
}

unfoldable pub notify_engine : ℕ → ℕ → World → Option Engine → World
notify_engine timeout key w none = w
notify_engine timeout key w (some e) =
    let result = Engine.notify_delayed (λ o. is_expired (w.live o)) timeout key e in
    record w { engine = some result.1; queued = w.queued ++ result.0 }

unfoldable pub dispose_engine : World → Option Engine → World
dispose_engine w none = w
dispose_engine w (some e) = record w { engine = some (Engine.dispose e) }

-- A member function of a live subscriber. A destroyed one is not called.
unfoldable pub on_live : World → Option Subscriber → (Subscriber → Option World) → Option World
on_live w none f = some w
on_live w (some s) f = f s

-- None stands for undefined behaviour.
unfoldable pub run : Call → World → Option World
run create w =
    some (record w {
      live = update w.objects (some Subscriber.create) w.live;
      objects = suc w.objects;
    })
run (destroy self) w = some (record w { live = update self none w.live })
run (subscribe self id key tid) w =
    on_live w (w.live self)
      λ s. some (after_subscribe self w (Subscriber.subscribe self id key tid s w.engine))
run (unsubscribe_key self id key) w =
    on_live w (w.live self) λ s. accept self w (Subscriber.unsubscribe_key id key s w.engine)
run (unsubscribe_set self id) w =
    on_live w (w.live self) λ s. accept self w (Subscriber.unsubscribe_set id s w.engine)
run (unsubscribe_all self) w =
    on_live w (w.live self) λ s. accept self w (Subscriber.unsubscribe_all s w.engine)
run (notify_delayed timeout key) w = some (notify_engine timeout key w w.engine)
run dispose w = some (dispose_engine w w.engine)
run drop_engine w = some (record w { engine = none })

unfoldable pub run_all : List Call → Option World → Option World
run_all cs none = none
run_all [] (some w) = some w
run_all (c ∷ cs) (some w) = run_all cs (run c w)

unfoldable pub start : World
start = record {
  engine = some (record { subscribers_map = []; has_dispatcher = true; next_node = 0 });
  live = λ o. none;
  objects = 0;
  queued = [];
}

-- A call of the callback: the subscriber, the set and the event.
abbrev pub Notification : Type 0
Notification = ℕ × ℕ × ℕ

unfoldable pub call_back : Task → Option Subscriber → Option Notification
call_back task none = none
call_back task (some s) =
    if Subscriber.on_notify s then some (task.subscriber, task.set_id, task.key) else none

-- The closure of a task: it calls the subscriber back if that is alive and has a callback.
unfoldable pub run_task : Task → World → Option Notification
run_task task w = call_back task (w.live task.subscriber)
