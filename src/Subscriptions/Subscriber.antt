-- ===== src/Subscriptions/Subscriber.antt =====
-- `SubscriberImpl`: a subscriber's own record of its subscriptions. `engine` is what
-- `engine_.lock()` gives, none once the engine is gone. An operation that would erase an iterator
-- that does not stand in the engine's list is undefined: its result is none.
use cpp_jam.Common.{ℕ, suc, ◌%◌, ◌^◌, Bool, true, false, List, [], ◌∷◌, Option, none, some}
use cpp_jam.Common.Maps.{find, assign, remove}
use cpp_jam.Subscriptions.Engine
use cpp_jam.Subscriptions.Engine.{Engine, Task}

-- `SubscriptionsContainer`: event key to iterator.
abbrev pub Subscriptions : Type 0
Subscriptions = List (ℕ × ℕ)

pub record Subscriber : Type 0 where
  pub next_id : ℕ
  pub subscriptions_sets : List (ℕ × Subscriptions)
  pub has_callback : Bool

unfoldable pub create : Subscriber
create = record { next_id = 0; subscriptions_sets = []; has_callback = false }

unfoldable pub set_callback : Bool → Subscriber → Subscriber
set_callback callback s = record s { has_callback = callback }

-- The id is a 32-bit number, which wraps.
unfoldable pub generate_subscription_set_id : Subscriber → ℕ × Subscriber
generate_subscription_set_id s =
    let next = suc s.next_id % 2 ^ 32 in (next, record s { next_id = next })

abbrev found : Option Subscriptions → Subscriptions
found none = []
found (some subs) = subs

-- `subscriptions_sets_[id]`, empty for a new id.
unfoldable pub subscriptions_of : ℕ → Subscriber → Subscriptions
subscriptions_of id s = found (find id s.subscriptions_sets)

abbrev pub set_subscriptions : ℕ → Subscriptions → Subscriber → Subscriber
set_subscriptions id subs s = record s { subscriptions_sets = assign id subs s.subscriptions_sets }

-- `self` is the number of the subscriber object.
unfoldable pub subscribe : ℕ → ℕ → ℕ → ℕ → Subscriber → Option Engine → Subscriber × Option Engine
subscribe self id key tid s none = (s, none)
subscribe self id key tid s (some e) = elim (find key (subscriptions_of id s)) [
  | some it ↦ (s, some e)
  | none ↦
      let subscribed = Engine.subscribe tid id key self e in
      (set_subscriptions id (assign key subscribed.0 (subscriptions_of id s)) s, some subscribed.1)
]

-- `if (auto engine = engine_.lock()) engine->unsubscribe(key, it);`. The outer none is undefined
-- behaviour, the inner one the engine that is gone.
unfoldable pub unsubscribe_if_there : ℕ → ℕ → Option Engine → Option (Option Engine)
unsubscribe_if_there key it none = some none
unsubscribe_if_there key it (some e) = elim (Engine.unsubscribe key it e) [
  | none ↦ none
  | some e' ↦ some (some e')
]

-- The answer, the subscriber and the engine after a call that is defined.
pub record Answer : Type 0 where
  pub was_subscribed : Bool
  pub subscriber : Subscriber
  pub engine : Option Engine

abbrev pub answer : Bool → Subscriber → Option (Option Engine) → Option Answer
answer b s none = none
answer b s (some engine) = some (record { was_subscribed = b; subscriber = s; engine = engine })

-- `unsubscribe(id, key)`.
unfoldable pub unsubscribe_key : ℕ → ℕ → Subscriber → Option Engine → Option Answer
unsubscribe_key id key s engine = elim (find id s.subscriptions_sets) [
  | none ↦ answer false s (some engine)
  | some subs ↦ elim (find key subs) [
    | none ↦ answer false s (some engine)
    | some it ↦
        answer true (set_subscriptions id (remove key subs) s) (unsubscribe_if_there key it engine)
  ]
]

-- The loop over a set.
unfoldable pub unsubscribe_each : Subscriptions → Option Engine → Option (Option Engine)
unsubscribe_each [] engine = some engine
unsubscribe_each (p ∷ ps) engine = elim (unsubscribe_if_there p.0 p.1 engine) [
  | none ↦ none
  | some engine' ↦ unsubscribe_each ps engine'
]

-- `unsubscribe(id)`.
unfoldable pub unsubscribe_set : ℕ → Subscriber → Option Engine → Option Answer
unsubscribe_set id s engine = elim (find id s.subscriptions_sets) [
  | none ↦ answer false s (some engine)
  | some subs ↦
      answer true (record s { subscriptions_sets = remove id s.subscriptions_sets })
        (unsubscribe_each subs engine)
]

-- The loop over the sets.
unfoldable pub unsubscribe_sets : List (ℕ × Subscriptions) → Option Engine → Option (Option Engine)
unsubscribe_sets [] engine = some engine
unsubscribe_sets (p ∷ ps) engine = elim (unsubscribe_each p.1 engine) [
  | none ↦ none
  | some engine' ↦ unsubscribe_sets ps engine'
]

-- `unsubscribe()`.
unfoldable pub unsubscribe_all : Subscriber → Option Engine → Option Answer
unsubscribe_all s engine =
    answer true (record s { subscriptions_sets = [] })
      (unsubscribe_sets s.subscriptions_sets engine)

-- Whether the callback is called.
unfoldable pub on_notify : Subscriber → Bool
on_notify s = s.has_callback
