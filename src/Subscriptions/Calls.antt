-- ===== src/Subscriptions/Calls.antt =====
-- Each operation of `SubscriberImpl`, on a subscriber that is linked with the engine.
use mathlib.Core.Path.{subst}
use cpp_jam.Common.{
  ℕ, ◌≡◌, ◌≢◌, refl, sym, Bool, true, false, ◌&&◌, Option, none, some, if◌then◌else◌, ◌==◌, arith,
  Bool-cases, Option-cases, inl, inr, ==_iff,
}
use cpp_jam.Common.Maps.{find, remove, IsMap, find-assign, find-remove, assign-IsMap, remove-IsMap}
use cpp_jam.Subscriptions.Engine
use cpp_jam.Subscriptions.Engine.{Engine, Node, nodes_of}
use cpp_jam.Subscriptions.Subscriber.{
  Subscriptions, Subscriber, Answer, set_subscriptions, subscriptions_of, unsubscribe_if_there,
  unsubscribe_key, unsubscribe_set, unsubscribe_all,
}
use cpp_jam.Subscriptions.Erased.{unsubscribe-IsErased}
use cpp_jam.Subscriptions.Linked.{held, IsLinked}
use cpp_jam.Subscriptions.Unsubscribed.{IsTidy, IsKept, gone-IsKept, set-IsKept, sets-IsKept}

pub unchanged-IsKept :
    (self : ℕ) (s : Subscriber) (e : Engine) → IsTidy s → IsLinked self s e → IsKept self s e e
unchanged-IsKept self s e tidy linked = record {
  linked = linked;
  tidy = tidy;
  others = λ o s2 other linked2. linked2;
  sound = λ objects known sound. sound;
}

-- The call is defined, and its answer is linked with the engine that it leaves.
pub record IsAnswered (self : ℕ) (e : Engine) (result : Option Answer) : Type 0 where
  pub was_subscribed : Bool
  pub s' : Subscriber
  pub e' : Engine
  pub done :
      result ≡ some (record { was_subscribed = was_subscribed; subscriber = s'; engine = some e' })
  pub kept : IsKept self s' e e'

pub held-set_subscriptions :
    (id : ℕ) (subs : Subscriptions) (s : Subscriber) (id' key : ℕ)
    → held id' key (set_subscriptions id subs s)
      ≡ (if id == id' then find key subs else held id' key s)
unfolding held subscriptions_of
held-set_subscriptions id subs s id' key = elim (Bool-cases (id == id')) [
  | inl same ↦ rw (find-assign id id' subs s.subscriptions_sets, same) refl
  | inr other ↦ rw (find-assign id id' subs s.subscriptions_sets, other) refl
]

pub set_subscriptions-IsTidy :
    (id : ℕ) (subs : Subscriptions) (s : Subscriber)
    → IsMap subs
    → IsTidy s
    → IsTidy (set_subscriptions id subs s)
unfolding subscriptions_of
set_subscriptions-IsTidy id subs s m tidy = record {
  sets = assign-IsMap id subs s.subscriptions_sets tidy.sets;
  subs = λ id'. elim (Bool-cases (id == id')) [
    | inl same ↦ rw (find-assign id id' subs s.subscriptions_sets, same) m
    | inr other ↦ rw (find-assign id id' subs s.subscriptions_sets, other) (tidy.subs id')
  ];
}

pub all-IsAnswered :
    (self : ℕ) (s : Subscriber) (e : Engine)
    → IsTidy s
    → IsLinked self s e
    → IsAnswered self e (unsubscribe_all s (some e))
unfolding unsubscribe_all
all-IsAnswered self s e tidy linked =
    let (e', done, kept) = sets-IsKept self s.subscriptions_sets e s tidy linked in
    record { was_subscribed = true; s' = _; e' = e'; done = rw done refl; kept = kept }

abbrev pub without_set : ℕ → Subscriber → Subscriber
without_set id s = record s { subscriptions_sets = remove id s.subscriptions_sets }

held-without_set :
    (id : ℕ) (s : Subscriber) (id' key : ℕ)
    → held id' key (without_set id s) ≡ (if id == id' then none else held id' key s)
unfolding subscriptions_of held find
held-without_set id s id' key = elim (Bool-cases (id == id')) [
  | inl same ↦ rw (find-remove id id' s.subscriptions_sets, same) refl
  | inr other ↦ rw (find-remove id id' s.subscriptions_sets, other) refl
]

pub without_set-IsTidy : (id : ℕ) (s : Subscriber) → IsTidy s → IsTidy (without_set id s)
unfolding subscriptions_of
without_set-IsTidy id s tidy = record {
  sets = remove-IsMap id s.subscriptions_sets tidy.sets;
  subs = λ id'. elim (Bool-cases (id == id')) [
    | inl same ↦ rw (find-remove id id' s.subscriptions_sets, same) tt
    | inr other ↦ rw (find-remove id id' s.subscriptions_sets, other) (tidy.subs id')
  ];
}

pub set-IsAnswered :
    (self id : ℕ) (s : Subscriber) (e : Engine)
    → IsTidy s
    → IsLinked self s e
    → IsAnswered self e (unsubscribe_set id s (some e))
unfolding subscriptions_of unsubscribe_set
set-IsAnswered self id s e tidy linked = elim (Option-cases (find id s.subscriptions_sets)) [
  | inl absent ↦ record {
    was_subscribed = false;
    s' = s;
    e' = e;
    done = rw (unsubscribe_set, absent) refl;
    kept = unchanged-IsKept self s e tidy linked;
  }
  | inr (subs, present) ↦
      let (e', done, kept) =
        set-IsKept self id subs e s (without_set id s) (rw present refl) (held-without_set id s)
          tidy (without_set-IsTidy id s tidy) linked in
      record {
        was_subscribed = true;
        s' = _;
        e' = e';
        done = rw (unsubscribe_set, present, done) refl;
        kept = kept;
      }
]

pub &&_split : (a b : Bool) → (a && b) ≡ true → (a ≡ true) × (b ≡ true)
&&_split true b h = (refl, h)
&&_split false b h = cc

-- One subscription goes.
one-IsKept :
    (self id key it : ℕ) (subs : Subscriptions) (s : Subscriber) (e : Engine)
    → find id s.subscriptions_sets ≡ some subs
    → find key subs ≡ some it
    → IsTidy s
    → IsLinked self s e
    → (e' : Engine) × (Engine.unsubscribe key it e ≡ some e')
      × IsKept self (set_subscriptions id (remove key subs) s) e e'
unfolding held subscriptions_of
one-IsKept self id key it subs s e present holds tidy linked =
    let mine : held id key s ≡ some it = rw (present, holds) refl in
    let (tid, there) = linked.there id key it mine in
    let (e', done, erased) = unsubscribe-IsErased key it _ e there in
    let all : subscriptions_of id s ≡ subs = rw present refl in
    (
      e',
      done,
      gone-IsKept self id (λ k j. key == k && it == j) e e' s
          (set_subscriptions id (remove key subs) s) erased own out less keep
          (set_subscriptions-IsTidy id (remove key subs) s
            (remove-IsMap key subs (subst IsMap all (tidy.subs id))) tidy)
          linked,
    )
  where
    of_set : (k : ℕ) → held id k s ≡ find k subs
    of_set k = rw present refl

    after :
        (id' k : ℕ)
        → held id' k (set_subscriptions id (remove key subs) s)
          ≡ (if id == id' then (if key == k then none else find k subs) else held id' k s)
    after id' k =
        rw (held-set_subscriptions id (remove key subs) s id' k, find-remove key k subs) refl

    own : (k j : ℕ) → (key == k && it == j) ≡ true → held id k s ≡ some j
    own k j g =
        let (a, b) = &&_split (key == k) (it == j) g in
        rw (of_set k, sym ((==_iff key k).0 a), sym ((==_iff it j).0 b)) holds

    out :
        (k j : ℕ)
        → (key == k && it == j) ≡ true
        → held id k (set_subscriptions id (remove key subs) s) ≢ some j
    out k j g h = ground (arith, after id k)

    less :
        (id' k j : ℕ)
        → held id' k (set_subscriptions id (remove key subs) s) ≡ some j
        → held id' k s ≡ some j
    less id' k j h = ground (arith, after id' k, of_set k)

    keep :
        (id' k j : ℕ)
        → held id' k s ≡ some j
        → (key == k && it == j) ≡ false
        → held id' k (set_subscriptions id (remove key subs) s) ≡ some j
    keep id' k j h g = ground (arith, after id' k, of_set k)

pub key-IsAnswered :
    (self id key : ℕ) (s : Subscriber) (e : Engine)
    → IsTidy s
    → IsLinked self s e
    → IsAnswered self e (unsubscribe_key id key s (some e))
unfolding unsubscribe_key unsubscribe_if_there
key-IsAnswered self id key s e tidy linked = elim (Option-cases (find id s.subscriptions_sets)) [
  | inl absent ↦ same false (rw (unsubscribe_key, absent) refl)
  | inr (subs, present) ↦ elim (Option-cases (find key subs)) [
    | inl absent ↦ same false (rw (unsubscribe_key, present, absent) refl)
    | inr (it, holds) ↦
        let (e', done, kept) = one-IsKept self id key it subs s e present holds tidy linked in
        record {
          was_subscribed = true;
          s' = _;
          e' = e';
          done = rw (unsubscribe_key, present, holds, unsubscribe_if_there, done) refl;
          kept = kept;
        }
  ]
]
  where
    same :
        (b : Bool)
        → unsubscribe_key id key s (some e)
          ≡ some (record { was_subscribed = b; subscriber = s; engine = some e })
        → IsAnswered self e (unsubscribe_key id key s (some e))
    same b done = record {
      was_subscribed = b;
      s' = s;
      e' = e;
      done = done;
      kept = unchanged-IsKept self s e tidy linked;
    }
