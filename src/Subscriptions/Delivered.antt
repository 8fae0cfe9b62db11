-- ===== src/Subscriptions/Delivered.antt =====
-- How many tasks a notification queues for a subscription.
use mathlib.Core.Path.{subst}
use cpp_jam.Common.{
  ℕ, ◌+◌, ◌≡◌, refl, sym, ap, ◌∙◌, Bool, true, false, ◌&&◌, List, [], ◌∷◌, Option, none, some,
  if◌then◌else◌, ◌==◌, arith, Bool-cases, Option-cases, inl, inr, ==_iff,
}
use cpp_jam.Common.Maps.{find, IsMap, find_head, find_tail, absent_other}
use cpp_jam.Subscriptions.Engine.{Engine, Node, Nodes, Task, nodes_of, notify_nodes, notify_delayed}
use cpp_jam.Subscriptions.Subscriber.{Subscriber}
use cpp_jam.Subscriptions.Nodes.{node_at}
use cpp_jam.Subscriptions.Linked.{held, IsLinked, IsSound}
use cpp_jam.Subscriptions.Calls.{&&_split}
use cpp_jam.Subscriptions.World.{World, Call, is_expired, run_all, start}
use cpp_jam.Subscriptions.Consistent.{WithEngine}
use cpp_jam.Subscriptions.Defined.{reached-IsConsistent}
use cpp_jam.Subscriptions.Notified.{tasks, tasks_cons, tasks_after, tasks_dispatched}

abbrev pub one_if : Bool → ℕ
one_if true = 1
one_if false = 0

abbrev pub is_some {ℓ} : {A : Type ℓ} → Option A → Bool
is_some none = false
is_some (some a) = true

-- The tasks for the subscriber `self` and its set `id`.
abbrev pub count_for : ℕ → ℕ → List Task → ℕ
count_for self id [] = 0
count_for self id (t ∷ ts) = one_if (t.subscriber == self && t.set_id == id) + count_for self id ts

module _ (self id : ℕ) where
  abbrev is_mine : Node → Bool
  is_mine n = n.subscriber == self && n.set_id == id

  abbrev count_nodes : Nodes → ℕ
  count_nodes [] = 0
  count_nodes (n ∷ ns) = one_if (is_mine n.1) + count_nodes ns

  -- A subscriber that is alive gets a task for each of its nodes.
  count-tasks :
      (expired : ℕ → Bool) (timeout key : ℕ) (nodes : Nodes)
      → expired self ≡ false
      → count_for self id (tasks expired timeout key nodes) ≡ count_nodes nodes
  unfolding notify_nodes
  count-tasks expired timeout key [] alive = refl
  count-tasks expired timeout key (n ∷ ns) alive = elim (Bool-cases (expired n.1.subscriber)) [
    | inl dead ↦
        rw (tasks_cons expired timeout key n ns, dead, count-tasks expired timeout key ns alive)
          (dead_counts n.1 (count_nodes ns) dead)
    | inr live ↦
        rw (tasks_cons expired timeout key n ns, live, count-tasks expired timeout key ns alive)
          refl
  ]
    where
      dead_counts :
          (n : Node) (rest : ℕ) → expired n.subscriber ≡ true → rest ≡ one_if (is_mine n) + rest
      dead_counts n rest dead = elim (Bool-cases (n.subscriber == self)) [
        | inl same ↦
            let dead' : expired self ≡ true =
              subst (λ x. expired x ≡ true) ((==_iff n.subscriber self).0 same) dead in
            absurd (cc)
        | inr other ↦ rw other (omega arith)
      ]

  none_match :
      (nodes : Nodes)
      → IsMap nodes
      → ((j : ℕ) (n : Node) → find j nodes ≡ some n → is_mine n ≡ false)
      → count_nodes nodes ≡ 0
  none_match [] m h = refl
  none_match (n ∷ ns) m h =
      rw
        (
          h n.0 n.1 (find_head n ns),
          none_match ns m.1 (λ j node there. h j node (find_tail n j node ns m.0 there)),
        )
        (omega arith)

  one_match :
      (nodes : Nodes) (it : ℕ) (node : Node)
      → IsMap nodes
      → find it nodes ≡ some node
      → is_mine node ≡ true
      → ((j : ℕ) (n : Node) → find j nodes ≡ some n → is_mine n ≡ true → j ≡ it)
      → count_nodes nodes ≡ 1
  unfolding find
  one_match [] it node m there mine only = cc
  one_match (n ∷ ns) it node m there mine only = elim (Bool-cases (n.0 == it)) [
    | inl same ↦
        let e : some n.1 ≡ some node = rw same at there in
        let first : is_mine n.1 ≡ true = subst (λ x. is_mine x ≡ true) (some_inj (sym e)) mine in
        rw (first, none_match ns m.1 (others same)) refl
    | inr other ↦
        let there' : find it ns ≡ some node = rw other at there in
        rw
          (
            head_other other,
            one_match ns it node m.1 there' mine (λ j n' h. only j n' (find_tail n j n' ns m.0 h)),
          )
          (omega arith)
  ]
    where
      some_inj : {x y : Node} → some x ≡ some y → x ≡ y
      some_inj h = cc

      others : (n.0 == it) ≡ true → (j : ℕ) (n' : Node) → find j ns ≡ some n' → is_mine n' ≡ false
      others same j n' h = elim (Bool-cases (is_mine n')) [
        | inl also ↦
            let j_it = only j n' (find_tail n j n' ns m.0 h) also in
            let differ = absent_other n.0 j n' ns m.0 h in absurd (ground arith)
        | inr not_ ↦ not_
      ]

      head_other : (n.0 == it) ≡ false → is_mine n.1 ≡ false
      head_other other = elim (Bool-cases (is_mine n.1)) [
        | inl also ↦ let n_it = only n.0 n.1 (find_head n ns) also in absurd (ground arith)
        | inr not_ ↦ not_
      ]

  -- The number of nodes for a subscription is one if the subscriber holds an iterator, else zero.
  count-held :
      (objects key : ℕ) (s : Subscriber) (e : Engine)
      → IsSound objects e
      → IsLinked self s e
      → count_nodes (nodes_of key e) ≡ one_if (is_some (held id key s))
  unfolding node_at
  count-held objects key s e sound linked = elim (Option-cases (held id key s)) [
    | inl absent ↦ rw absent (none_match (nodes_of key e) (sound.maps key) (never absent))
    | inr (it, holds) ↦
        let (tid, there) = linked.there id key it holds in
        rw holds (
          one_match (nodes_of key e) it _ (sound.maps key) there (mine tid)
            (λ j n h m. same_it it holds j n h m))
  ]
    where
      mine : (tid : ℕ) → is_mine (record { tid = tid; set_id = id; subscriber = self }) ≡ true
      mine tid = rw ((==_iff self self).1 refl, (==_iff id id).1 refl) refl

      holds_it :
          (j : ℕ) (n : Node)
          → find j (nodes_of key e) ≡ some n
          → is_mine n ≡ true
          → held id key s ≡ some j
      holds_it j n h m =
          let (a, b) = &&_split (n.subscriber == self) (n.set_id == id) m in
          subst (λ x. held x key s ≡ some j) ((==_iff n.set_id id).0 b)
            (linked.back key j n h ((==_iff n.subscriber self).0 a))

      never :
          held id key s ≡ none
          → (j : ℕ) (n : Node) → find j (nodes_of key e) ≡ some n
          → is_mine n ≡ false
      never absent j n h = elim (Bool-cases (is_mine n)) [
        | inl m ↦ let holds = holds_it j n h m in absurd (cc)
        | inr not_ ↦ not_
      ]

      same_it :
          (it : ℕ)
          → held id key s ≡ some it
          → (j : ℕ) (n : Node) → find j (nodes_of key e) ≡ some n
          → is_mine n ≡ true
          → j ≡ it
      same_it it holds j n h m = let holds' = holds_it j n h m in cc

-- Without an iterator for the event there is no task.
pub count-silent :
    (self id timeout key objects : ℕ) (expired : ℕ → Bool) (s : Subscriber) (e : Engine)
    → IsSound objects e
    → IsLinked self s e
    → expired self ≡ false
    → held id key s ≡ none
    → count_for self id (notify_delayed expired timeout key e).0 ≡ 0
count-silent self id timeout key objects expired s e sound linked alive silent =
    subst (λ ts. count_for self id ts ≡ 0) (sym (tasks_after expired timeout key e))
      (either e.has_dispatcher)
  where
    either :
        (b : Bool)
        → count_for self id (if b then tasks expired timeout key (nodes_of key e) else []) ≡ 0
    either true =
        count-tasks self id expired timeout key (nodes_of key e) alive
        ∙ count-held self id objects key s e sound linked
        ∙ ap (λ o. one_if (is_some o)) silent
    either false = refl

-- Whatever calls were made, a notification of an event queues exactly one task for each live subscriber and each of its sets that holds the
-- event, and none for a set that does not, as long as there is a dispatcher.
pub notified_once :
    (cs : List Call) (w : World) (e : Engine) (s : Subscriber) (self id timeout key : ℕ)
    → run_all cs (some start) ≡ some w
    → w.engine ≡ some e
    → e.has_dispatcher ≡ true
    → w.live self ≡ some s
    → count_for self id (notify_delayed (λ o. is_expired (w.live o)) timeout key e).0
      ≡ one_if (is_some (held id key s))
notified_once cs w e s self id timeout key reached there dispatching alive =
    let consistent = reached-IsConsistent cs w reached in
    rw
      (
        tasks_dispatched (λ o. is_expired (w.live o)) timeout key e dispatching,
        count-tasks self id (λ o. is_expired (w.live o)) timeout key (nodes_of key e)
            (ap is_expired alive),
      )
      (count-held self id w.objects key s e
        (subst (WithEngine (IsSound w.objects)) there consistent.sound)
        (subst (WithEngine (IsLinked self s)) there (consistent.linked self s alive)))
