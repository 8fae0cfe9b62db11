-- ===== src/Subscriptions/WithoutEngine.antt =====
-- The operations of `SubscriberImpl` once the engine is gone: only the own record changes.
use mathlib.Core.Path.{subst}
use cpp_jam.Common.{
  ℕ, ◌≡◌, refl, Bool, true, false, List, [], ◌∷◌, Option, none, some, Option-cases, inl, inr,
}
use cpp_jam.Common.Maps.{find, remove, IsMap, remove-IsMap}
use cpp_jam.Subscriptions.Subscriber.{
  Subscriptions, Subscriber, Answer, set_subscriptions, subscriptions_of, unsubscribe_if_there,
  unsubscribe_each, unsubscribe_sets, unsubscribe_key, unsubscribe_set, unsubscribe_all,
}
use cpp_jam.Subscriptions.Unsubscribed.{IsTidy}
use cpp_jam.Subscriptions.Calls.{set_subscriptions-IsTidy, without_set-IsTidy}

-- The call is defined, and the subscriber's record stays in order.
pub record IsLocal (result : Option Answer) : Type 0 where
  pub was_subscribed : Bool
  pub s' : Subscriber
  pub done :
      result ≡ some (record { was_subscribed = was_subscribed; subscriber = s'; engine = none })
  pub tidy : IsTidy s'

each-none : (subs : Subscriptions) → unsubscribe_each subs none ≡ some none
unfolding unsubscribe_each unsubscribe_if_there
each-none [] = refl
each-none (p ∷ ps) = each-none ps

sets-none : (sets : List (ℕ × Subscriptions)) → unsubscribe_sets sets none ≡ some none
unfolding unsubscribe_sets
sets-none [] = refl
sets-none (p ∷ ps) = rw (unsubscribe_sets, each-none p.1) (sets-none ps)

pub key-IsLocal : (id key : ℕ) (s : Subscriber) → IsTidy s → IsLocal (unsubscribe_key id key s none)
unfolding unsubscribe_key unsubscribe_if_there subscriptions_of
key-IsLocal id key s tidy = elim (Option-cases (find id s.subscriptions_sets)) [
  | inl absent ↦ record {
    was_subscribed = false;
    s' = s;
    done = rw (unsubscribe_key, absent) refl;
    tidy = tidy;
  }
  | inr (subs, present) ↦ elim (Option-cases (find key subs)) [
    | inl absent ↦ record {
      was_subscribed = false;
      s' = s;
      done = rw (unsubscribe_key, present, absent) refl;
      tidy = tidy;
    }
    | inr (it, holds) ↦
        let all : subscriptions_of id s ≡ subs = rw present refl in
        record {
          was_subscribed = true;
          s' = set_subscriptions id (remove key subs) s;
          done = rw (unsubscribe_key, present, holds) refl;
          tidy =
              set_subscriptions-IsTidy id (remove key subs) s
                (remove-IsMap key subs (subst IsMap all (tidy.subs id))) tidy;
        }
  ]
]

pub set-IsLocal : (id : ℕ) (s : Subscriber) → IsTidy s → IsLocal (unsubscribe_set id s none)
unfolding unsubscribe_set
set-IsLocal id s tidy = elim (Option-cases (find id s.subscriptions_sets)) [
  | inl absent ↦ record {
    was_subscribed = false;
    s' = s;
    done = rw (unsubscribe_set, absent) refl;
    tidy = tidy;
  }
  | inr (subs, present) ↦ record {
    was_subscribed = true;
    s' = record s { subscriptions_sets = remove id s.subscriptions_sets };
    done = rw (unsubscribe_set, present, each-none subs) refl;
    tidy = without_set-IsTidy id s tidy;
  }
]

pub all-IsLocal : (s : Subscriber) → IsLocal (unsubscribe_all s none)
unfolding unsubscribe_all subscriptions_of find
all-IsLocal s = record {
  was_subscribed = true;
  s' = record s { subscriptions_sets = [] };
  done = rw (sets-none s.subscriptions_sets) refl;
  tidy = record { sets = tt; subs = λ id. tt };
}
