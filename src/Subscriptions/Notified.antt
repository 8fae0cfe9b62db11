-- ===== src/Subscriptions/Notified.antt =====
-- `notifyDelayed`: which tasks it queues, and which nodes stay.
use mathlib.Core.Path.{subst}
use cpp_jam.Common.{
  ◌∙◌, ℕ, ◌<◌, ◌≡◌, refl, sym, Bool, true, false, List, [], ◌∷◌, Option, none, some, if◌then◌else◌,
  ◌==◌, Bool-cases, if_true, inl, inr, ◌⊎◌, ==_iff,
}
use cpp_jam.Common.Maps.{find, IsMap, find-assign}
use cpp_jam.Subscriptions.Engine.{
  Engine, Node, Nodes, Task, nodes_of, set_nodes, task_for, notify_nodes, notify_found,
  notify_delayed, found,
}
use cpp_jam.Subscriptions.Subscriber.{Subscriber}
use cpp_jam.Subscriptions.Nodes.{node_at}
use cpp_jam.Subscriptions.Linked.{IsLinked, IsSound}

pub nodes-set_nodes :
    (key : ℕ) (nodes : Nodes) (e : Engine) (k : ℕ)
    → nodes_of k (set_nodes key nodes e) ≡ (if key == k then nodes else nodes_of k e)
unfolding nodes_of
nodes-set_nodes key nodes e k = elim (Bool-cases (key == k)) [
  | inl same ↦ rw (find-assign key k nodes e.subscribers_map, same) refl
  | inr other ↦ rw (find-assign key k nodes e.subscribers_map, other) refl
]

pick_first :
    (b : Bool) (x y : List Task × Nodes) → (if b then x else y).0 ≡ (if b then x.0 else y.0)
pick_first true x y = refl
pick_first false x y = refl

pick_second :
    (b : Bool) (x y : List Task × Nodes) → (if b then x else y).1 ≡ (if b then x.1 else y.1)
pick_second true x y = refl
pick_second false x y = refl

module _ (expired : ℕ → Bool) (timeout key : ℕ) where
  abbrev pub left : Nodes → Nodes
  left nodes = (notify_nodes expired timeout key nodes).1

  left_cons :
      (n : ℕ × Node) (ns : Nodes)
      → left (n ∷ ns) ≡ (if expired n.1.subscriber then left ns else n ∷ left ns)
  unfolding notify_nodes
  left_cons n ns = pick_second (expired n.1.subscriber) _ _

  abbrev pub tasks : Nodes → List Task
  tasks nodes = (notify_nodes expired timeout key nodes).0

  pub tasks_cons :
      (n : ℕ × Node) (ns : Nodes)
      → tasks (n ∷ ns)
        ≡ (if expired n.1.subscriber then tasks ns else task_for timeout key n.1 ∷ tasks ns)
  unfolding notify_nodes
  tasks_cons n ns = pick_first (expired n.1.subscriber) _ _

  absent-left : (it : ℕ) (nodes : Nodes) → find it nodes ≡ none → find it (left nodes) ≡ none
  unfolding notify_nodes find
  absent-left it [] h = refl
  absent-left it (n ∷ ns) h = elim (Bool-cases (n.0 == it)) [
    | inl same ↦ let h' : some n.1 ≡ none = rw same at h in absurd (cc)
    | inr other ↦
        let h' : find it ns ≡ none = rw other at h in
        elim (Bool-cases (expired n.1.subscriber)) [
          | inl dead ↦ rw (left_cons n ns, dead) (absent-left it ns h')
          | inr alive ↦ rw (left_cons n ns, alive, other) (absent-left it ns h')
        ]
  ]

  pub left-IsMap : (nodes : Nodes) → IsMap nodes → IsMap (left nodes)
  unfolding notify_nodes find
  left-IsMap [] m = tt
  left-IsMap (n ∷ ns) m = elim (Bool-cases (expired n.1.subscriber)) [
    | inl dead ↦ rw (left_cons n ns, dead) (left-IsMap ns m.1)
    | inr alive ↦ rw (left_cons n ns, alive) (absent-left n.0 ns m.0, left-IsMap ns m.1)
  ]

  -- The node of a subscriber that lives stays.
  pub alive-left :
      (it : ℕ) (node : Node) (nodes : Nodes)
      → find it nodes ≡ some node
      → expired node.subscriber ≡ false
      → find it (left nodes) ≡ some node
  unfolding notify_nodes find
  alive-left it node [] h alive = cc
  alive-left it node (n ∷ ns) h alive = elim (Bool-cases (n.0 == it)) [
    | inl same ↦
        let h' : some n.1 ≡ some node = rw same at h in
        let e : n.1 ≡ node = cc in
        rw (left_cons n ns, subst (λ x. expired x.subscriber ≡ false) (sym e) alive, same) h'
    | inr other ↦
        let h' : find it ns ≡ some node = rw other at h in
        elim (Bool-cases (expired n.1.subscriber)) [
          | inl dead ↦ rw (left_cons n ns, dead) (alive-left it node ns h' alive)
          | inr alive' ↦ rw (left_cons n ns, alive', other) (alive-left it node ns h' alive)
        ]
  ]

  -- A node that is left was there.
  pub left_there :
      (it : ℕ) (node : Node) (nodes : Nodes)
      → IsMap nodes
      → find it (left nodes) ≡ some node
      → find it nodes ≡ some node
  unfolding notify_nodes find
  left_there it node [] m h = h
  left_there it node (n ∷ ns) m h = elim (Bool-cases (expired n.1.subscriber)) [
    | inl dead ↦
        let h' : find it (left ns) ≡ some node = rw (left_cons n ns, dead) at h in
        let there = left_there it node ns m.1 h' in
        elim (Bool-cases (n.0 == it)) [
          | inl same ↦
              let absent : find it ns ≡ none =
                subst (λ x. find x ns ≡ none) ((==_iff n.0 it).0 same) m.0 in
              absurd (cc)
          | inr other ↦ rw other there
        ]
    | inr alive ↦
        let h' : (if n.0 == it then some n.1 else find it (left ns)) ≡ some node =
          rw (left_cons n ns, alive) at h in
        elim (Bool-cases (n.0 == it)) [
          | inl same ↦ let h'' : some n.1 ≡ some node = rw same at h' in rw same h''
          | inr other ↦
              let h'' : find it (left ns) ≡ some node = rw other at h' in
              rw other (left_there it node ns m.1 h'')
        ]
  ]

module _ (expired : ℕ → Bool) (timeout key : ℕ) (e : Engine) where
  engine_after :
      ((notify_delayed expired timeout key e).1 ≡ e)
      ⊎ ((notify_delayed expired timeout key e).1
          ≡ set_nodes key (left expired timeout key (nodes_of key e)) e)
  unfolding notify_delayed nodes_of notify_found
  engine_after = by_cases e.has_dispatcher (find key e.subscribers_map)
    where
      by_cases :
          (b : Bool) (o : Option Nodes)
          → ((if b then notify_found expired timeout key e o else ([], e)).1 ≡ e)
            ⊎ ((if b then notify_found expired timeout key e o else ([], e)).1
                ≡ set_nodes key (left expired timeout key (found o)) e)
      by_cases true none = inl refl
      by_cases true (some nodes) = inr refl
      by_cases false o = inl refl

  -- The tasks are those for the live nodes of the key, if there is a dispatcher.
  pub tasks_after :
      (notify_delayed expired timeout key e).0
      ≡ (if e.has_dispatcher then tasks expired timeout key (nodes_of key e) else [])
  unfolding notify_delayed nodes_of notify_nodes notify_found
  tasks_after = by_cases e.has_dispatcher (find key e.subscribers_map)
    where
      by_cases :
          (b : Bool) (o : Option Nodes)
          → (if b then notify_found expired timeout key e o else ([], e)).0
            ≡ (if b then tasks expired timeout key (found o) else [])
      by_cases true none = refl
      by_cases true (some nodes) = refl
      by_cases false o = refl

  pub tasks_dispatched :
      e.has_dispatcher ≡ true
      → (notify_delayed expired timeout key e).0 ≡ tasks expired timeout key (nodes_of key e)
  tasks_dispatched there = tasks_after ∙ if_true e.has_dispatcher _ _ there

-- The nodes of live subscribers stay, and no node is new.
record IsNotified (expired : ℕ → Bool) (e e' : Engine) : Type 0 where
  stays :
      (k it : ℕ) (node : Node)
      → node_at k it e ≡ some node
      → expired node.subscriber ≡ false
      → node_at k it e' ≡ some node
  before : (k it : ℕ) (node : Node) → node_at k it e' ≡ some node → node_at k it e ≡ some node
  maps : (k : ℕ) → IsMap (nodes_of k e')
  next : e'.next_node ≡ e.next_node

left-IsNotified :
    (expired : ℕ → Bool) (timeout key : ℕ) (e : Engine)
    → ((k : ℕ) → IsMap (nodes_of k e))
    → IsNotified expired e (set_nodes key (left expired timeout key (nodes_of key e)) e)
unfolding node_at
left-IsNotified expired timeout key e maps = record {
  stays = λ k it node there alive. elim (Bool-cases (key == k)) [
    | inl same ↦
        rw (after k, same)
          (alive-left expired timeout key it node (nodes_of key e)
            (rw ((==_iff key k).0 same) there) alive)
    | inr other ↦ rw (after k, other) there
  ];
  before = λ k it node there. elim (Bool-cases (key == k)) [
    | inl same ↦
        let there' : find it (left expired timeout key (nodes_of key e)) ≡ some node =
          rw (after k, same) at there in
        rw (sym ((==_iff key k).0 same))
          (left_there expired timeout key it node (nodes_of key e) (maps key) there')
    | inr other ↦
        let there' : find it (nodes_of k e) ≡ some node = rw (after k, other) at there in there'
  ];
  maps = λ k. elim (Bool-cases (key == k)) [
    | inl same ↦ rw (after k, same) (left-IsMap expired timeout key (nodes_of key e) (maps key))
    | inr other ↦ rw (after k, other) (maps k)
  ];
  next = refl;
}
  where
    after :
        (k : ℕ)
        → nodes_of k (set_nodes key (left expired timeout key (nodes_of key e)) e)
          ≡ (if key == k then left expired timeout key (nodes_of key e) else nodes_of k e)
    after = nodes-set_nodes key (left expired timeout key (nodes_of key e)) e

notify-IsNotified :
    (expired : ℕ → Bool) (timeout key : ℕ) (e : Engine)
    → ((k : ℕ) → IsMap (nodes_of k e))
    → IsNotified expired e (notify_delayed expired timeout key e).1
notify-IsNotified expired timeout key e maps = elim (engine_after expired timeout key e) [
  | inl same ↦ subst (IsNotified expired e) (sym same) (record {
    stays = λ k it node there alive. there;
    before = λ k it node there. there;
    maps = maps;
    next = refl;
  })
  | inr after ↦
      subst (IsNotified expired e) (sym after) (left-IsNotified expired timeout key e maps)
]

-- A notification keeps the engine sound and every live subscriber linked.
pub notify-IsSound :
    (expired : ℕ → Bool) (timeout key objects : ℕ) (e : Engine)
    → IsSound objects e
    → IsSound objects (notify_delayed expired timeout key e).1
notify-IsSound expired timeout key objects e sound =
    let notified = notify-IsNotified expired timeout key e sound.maps in
    record {
      fresh = λ k it node there.
          let (low, known) = sound.fresh k it node (notified.before k it node there) in
          (subst (λ x. it < x) (sym notified.next) low, known);
      maps = notified.maps;
    }

pub notify-IsLinked :
    (expired : ℕ → Bool) (timeout key objects : ℕ) (e : Engine) (o : ℕ) (s : Subscriber)
    → IsSound objects e
    → expired o ≡ false
    → IsLinked o s e
    → IsLinked o s (notify_delayed expired timeout key e).1
notify-IsLinked expired timeout key objects e o s sound alive linked =
    let notified = notify-IsNotified expired timeout key e sound.maps in
    record {
      there = λ id k it h.
          let (t, node) = linked.there id k it h in (t, notified.stays k it _ node alive);
      back = λ k it node there mine. linked.back k it node (notified.before k it node there) mine;
    }
