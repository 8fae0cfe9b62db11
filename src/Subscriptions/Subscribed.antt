-- ===== src/Subscriptions/Subscribed.antt =====
-- `SubscriberImpl::subscribe`, on a subscriber that is linked with the engine.
use cpp_jam.Common.{
  ℕ, ◌<◌, ◌≡◌, ◌≢◌, refl, sym, ap, ◌∙◌, true, false, ◌&&◌, Option, none, some, if◌then◌else◌, ◌==◌,
  arith, Bool-cases, Option-cases, inl, inr, ◌⊎◌, ==_iff,
}
use cpp_jam.Common.Maps.{find, assign, IsMap, find-assign, assign-IsMap}
use cpp_jam.Subscriptions.Engine
use cpp_jam.Subscriptions.Engine.{Engine, Node, nodes_of}
use cpp_jam.Subscriptions.Subscriber.{Subscriber, subscribe, set_subscriptions, subscriptions_of}
use cpp_jam.Subscriptions.Nodes.{node_at, nodes-subscribe, find-append, append-IsMap}
use cpp_jam.Subscriptions.Linked.{held, IsLinked, IsSound}
use cpp_jam.Subscriptions.Unsubscribed.{IsTidy, IsKept}
use cpp_jam.Subscriptions.Calls.{
  held-set_subscriptions, set_subscriptions-IsTidy, unchanged-IsKept, &&_split,
}

-- The number of the new node is that of no other.
unused : (objects key : ℕ) (e : Engine) → IsSound objects e → node_at key e.next_node e ≡ none
unused objects key e sound = elim (Option-cases (node_at key e.next_node e)) [
  | inl absent ↦ absent
  | inr (node, there) ↦ absurd (omega (arith, (sound.fresh key e.next_node node there).0))
]

abbrev new_node : ℕ → ℕ → ℕ → Node
new_node tid id self = record { tid = tid; set_id = id; subscriber = self }

module _ (objects self id key tid : ℕ) (e : Engine) (sound : IsSound objects e) where
  abbrev after : Engine
  after = (Engine.subscribe tid id key self e).1

  node_at-subscribe :
      (k j : ℕ)
      → node_at k j after
        ≡ (if key == k && e.next_node == j then some (new_node tid id self) else node_at k j e)
  unfolding node_at
  node_at-subscribe k j = elim (Bool-cases (key == k)) [
    | inl same ↦
        rw
          (
            nodes-subscribe tid id key self e k,
            same,
            find-append e.next_node j (new_node tid id self) (nodes_of key e)
                (unused objects key e sound),
            (==_iff key k).0 same,
          )
          refl
    | inr other ↦ rw (nodes-subscribe tid id key self e k, other) refl
  ]

  maps-subscribe : (k : ℕ) → IsMap (nodes_of k after)
  unfolding node_at
  maps-subscribe k = elim (Bool-cases (key == k)) [
    | inl same ↦
        rw (nodes-subscribe tid id key self e k, same)
          (append-IsMap e.next_node (new_node tid id self) (nodes_of key e)
            (unused objects key e sound) (sound.maps key))
    | inr other ↦ rw (nodes-subscribe tid id key self e k, other) (sound.maps k)
  ]

  -- A node is the new one, or it was there before.
  new_or_old :
      (k j : ℕ) (node : Node)
      → node_at k j after ≡ some node
      → ((key ≡ k) × (e.next_node ≡ j) × (node ≡ new_node tid id self))
        ⊎ (node_at k j e ≡ some node)
  new_or_old k j node there = elim (Bool-cases (key == k && e.next_node == j)) [
    | inl new ↦
        let (a, b) = &&_split (key == k) (e.next_node == j) new in
        let same : some node ≡ some (new_node tid id self) =
          sym there ∙ (rw (node_at-subscribe k j, new) refl) in
        inl ((==_iff key k).0 a, (==_iff e.next_node j).0 b, cc)
    | inr old ↦ inr (sym (rw (node_at-subscribe k j, old) refl) ∙ there)
  ]

  -- An iterator that pointed to a node still points to it.
  kept : (k j : ℕ) (node : Node) → node_at k j e ≡ some node → node_at k j after ≡ some node
  kept k j node there =
      let low = (sound.fresh k j node there).0 in
      let other : (e.next_node == j) ≡ false = ground (arith, low) in
      rw (node_at-subscribe k j, other) (ground (arith, there))

  fresh_next : (j : ℕ) → e.next_node ≡ j → j < after.next_node
  unfolding Engine.subscribe
  fresh_next j h = omega arith

  fresh_old : (j : ℕ) → j < e.next_node → j < after.next_node
  unfolding Engine.subscribe
  fresh_old j h = omega arith

  subscribe-IsSound : self < objects → IsSound objects after
  subscribe-IsSound known = record {
    fresh = λ k j node there. elim (new_or_old k j node there) [
      | inl (same, it, new) ↦ (fresh_next j it, rw new known)
      | inr old ↦ (fresh_old j (sound.fresh k j node old).0, (sound.fresh k j node old).1)
    ];
    maps = maps-subscribe;
  }

  -- The subscriptions of others stay linked.
  others : (o : ℕ) (s : Subscriber) → o ≢ self → IsLinked o s e → IsLinked o s after
  others o s other linked = record {
    there = λ id' k it h. let (t, node) = linked.there id' k it h in (t, kept k it _ node);
    back = λ k it node there mine. elim (new_or_old k it node there) [
      | inl (same, it', new) ↦ absurd (other (sym mine ∙ ap (λ n. n.subscriber) new))
      | inr old ↦ linked.back k it node old mine
    ];
  }

  module _ (s : Subscriber) (absent : held id key s ≡ none) (linked : IsLinked self s e) where
    abbrev after_subscribe : Subscriber
    after_subscribe = set_subscriptions id (assign key e.next_node (subscriptions_of id s)) s

    held-subscribe :
        (id' k : ℕ)
        → held id' k after_subscribe
          ≡ (if id == id' && key == k then some e.next_node else held id' k s)
    unfolding held
    held-subscribe id' k = elim (Bool-cases (id == id')) [
      | inl same ↦
          rw
            (
              held-set_subscriptions id (assign key e.next_node (subscriptions_of id s)) s id' k,
              find-assign key k e.next_node (subscriptions_of id s),
              same,
              (==_iff id id').0 same,
            )
            refl
      | inr other ↦
          rw
            (
              held-set_subscriptions id (assign key e.next_node (subscriptions_of id s)) s id' k,
              other,
            )
            refl
    ]

    there_after :
        (id' k it : ℕ)
        → held id' k after_subscribe ≡ some it
        → (t : ℕ) × (node_at k it after ≡ some (new_node t id' self))
    there_after id' k it h = elim (Bool-cases (id == id' && key == k)) [
      | inl new ↦
          let (a, b) = &&_split (id == id') (key == k) new in
          let it' : some e.next_node ≡ some it = sym (rw (held-subscribe id' k, new) refl) ∙ h in
          let next : e.next_node ≡ it = cc in
          let both : (key == k && e.next_node == it) ≡ true =
            rw (b, (==_iff e.next_node it).1 next) refl in
          (tid, rw (node_at-subscribe k it, both, (==_iff id id').0 a) refl)
      | inr old ↦
          let (t, node) = linked.there id' k it (sym (rw (held-subscribe id' k, old) refl) ∙ h) in
          (t, kept k it _ node)
    ]

    held_old : (id' k it : ℕ) → held id' k s ≡ some it → held id' k after_subscribe ≡ some it
    held_old id' k it h = elim (Bool-cases (id == id' && key == k)) [
      | inl new ↦
          let (a, b) = &&_split (id == id') (key == k) new in
          let h' : held id key s ≡ some it = rw ((==_iff id id').0 a, (==_iff key k).0 b) h in
          absurd (cc)
      | inr old ↦ rw (held-subscribe id' k, old) h
    ]

    subscribe-IsLinked : IsLinked self after_subscribe after
    subscribe-IsLinked = record {
      there = there_after;
      back = λ k it node there mine. elim (new_or_old k it node there) [
        | inl (same, it', new) ↦ rw (new, sym same, sym it') held_new
        | inr old ↦ held_old node.set_id k it (linked.back k it node old mine)
      ];
    }
      where
        held_new : held id key after_subscribe ≡ some e.next_node
        held_new = rw (held-subscribe id key, (==_iff id id).1 refl, (==_iff key key).1 refl) refl

-- After `subscribe`, which is always defined, subscriber and engine are linked again.
pub record IsSubscribed (self : ℕ) (e : Engine) (result : Subscriber × Option Engine) : Type 0 where
  pub s' : Subscriber
  pub e' : Engine
  pub done : result ≡ (s', some e')
  pub kept : IsKept self s' e e'

pub subscribe-IsSubscribed :
    (objects self id key tid : ℕ) (s : Subscriber) (e : Engine)
    → IsSound objects e
    → IsTidy s
    → IsLinked self s e
    → IsSubscribed self e (subscribe self id key tid s (some e))
unfolding subscribe held Engine.subscribe
subscribe-IsSubscribed objects self id key tid s e sound tidy linked =
    elim (Option-cases (find key (subscriptions_of id s))) [
      | inl absent ↦ record {
        s' = _;
        e' = _;
        done = rw (subscribe, absent) refl;
        kept = record {
          linked = subscribe-IsLinked objects self id key tid e sound s absent linked;
          tidy = set_subscriptions-IsTidy id _ s (assign-IsMap key _ _ (tidy.subs id)) tidy;
          others = others objects self id key tid e sound;
          sound = λ n known sound'. subscribe-IsSound n self id key tid e sound' known;
        };
      }
      | inr (it, present) ↦ record {
        s' = s;
        e' = e;
        done = rw (subscribe, present) refl;
        kept = unchanged-IsKept self s e tidy linked;
      }
    ]
