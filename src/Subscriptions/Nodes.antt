-- ===== src/Subscriptions/Nodes.antt =====
-- The node that an iterator points to, before and after an operation of the engine.
use cpp_jam.Common.{
  ℕ, ◌≡◌, refl, [], ◌∷◌, ◌++◌, Option, none, some, if◌then◌else◌, ◌==◌, arith, Bool-cases,
  Option-cases, inl, inr,
}
use cpp_jam.Common.Maps.{find, remove, IsMap, find-assign, find-remove}
use cpp_jam.Subscriptions.Engine
use cpp_jam.Subscriptions.Engine.{Engine, Node, Nodes, nodes_of}

-- The node with the number `it` in the list of `key`.
unfoldable pub node_at : ℕ → ℕ → Engine → Option Node
node_at key it e = find it (nodes_of key e)

nodes-erase_from :
    (key : ℕ) (nodes : Nodes) (e : Engine)
    → (e' : Engine) × (Engine.erase_from key (some nodes) e ≡ some e')
      × ((k : ℕ) → nodes_of k e' ≡ (if key == k then nodes else nodes_of k e))
      × (e'.next_node ≡ e.next_node)
unfolding Engine.erase_from Engine.is_empty nodes_of
nodes-erase_from key [] e = (
  _,
  refl,
  λ k. elim (Bool-cases (key == k)) [
    | inl same ↦ rw (find-remove key k e.subscribers_map, same) refl
    | inr other ↦ rw (find-remove key k e.subscribers_map, other) refl
  ],
  refl,
)
nodes-erase_from key (n ∷ ns) e = (
  _,
  refl,
  λ k. elim (Bool-cases (key == k)) [
    | inl same ↦ rw (find-assign key k (n ∷ ns) e.subscribers_map, same) refl
    | inr other ↦ rw (find-assign key k (n ∷ ns) e.subscribers_map, other) refl
  ],
  refl,
)

-- `unsubscribe` of an iterator that points to a node takes that node out.
pub nodes-unsubscribe :
    (key it : ℕ) (node : Node) (e : Engine)
    → node_at key it e ≡ some node
    → (e' : Engine) × (Engine.unsubscribe key it e ≡ some e')
      × ((k : ℕ) → nodes_of k e' ≡ (if key == k then remove it (nodes_of key e) else nodes_of k e))
      × (e'.next_node ≡ e.next_node)
unfolding Engine.unsubscribe Engine.erase_node node_at nodes_of find
nodes-unsubscribe key it node e h = elim (Option-cases (find key e.subscribers_map)) [
  | inl absent ↦ let h' : find it [] ≡ some node = rw absent at h in absurd (cc)
  | inr (nodes, present) ↦
      let h' : find it nodes ≡ some node = rw present at h in
      let (e', erased, after, next) = nodes-erase_from key (remove it nodes) e in
      (
        e',
        rw (Engine.unsubscribe, present, Engine.erase_node, h') erased,
        λ k. rw present (after k),
        next,
      )
]

-- `subscribe` puts its node at the end of the list of the key.
pub nodes-subscribe :
    (tid id key ptr : ℕ) (e : Engine) (k : ℕ)
    → nodes_of k (Engine.subscribe tid id key ptr e).1 ≡ (
        if key == k
        then nodes_of key e
          ++ (e.next_node, record { tid = tid; set_id = id; subscriber = ptr }) ∷ []
        else nodes_of k e)
unfolding Engine.subscribe nodes_of
nodes-subscribe tid id key ptr e k = elim (Bool-cases (key == k)) [
  | inl same ↦ rw (find-assign key k _ e.subscribers_map, same) refl
  | inr other ↦ rw (find-assign key k _ e.subscribers_map, other) refl
]

-- A node at the end, under a new number.
pub find-append :
    (it j : ℕ) (node : Node) (ns : Nodes)
    → find it ns ≡ none
    → find j (ns ++ (it, node) ∷ []) ≡ (if it == j then some node else find j ns)
unfolding find
find-append it j node [] h = refl
find-append it j node (n ∷ ns) h = elim (Bool-cases (n.0 == it)) [
  | inl same ↦ let h' : some n.1 ≡ none = rw same at h in absurd (cc)
  | inr other ↦
      let h' : find it ns ≡ none = rw other at h in
      ground (arith, other, find-append it j node ns h')
]

pub append-IsMap :
    (it : ℕ) (node : Node) (ns : Nodes)
    → find it ns ≡ none
    → IsMap ns
    → IsMap (ns ++ (it, node) ∷ [])
unfolding find
append-IsMap it node [] h m = (refl, tt)
append-IsMap it node (n ∷ ns) h m = elim (Bool-cases (n.0 == it)) [
  | inl same ↦ let h' : some n.1 ≡ none = rw same at h in absurd (cc)
  | inr other ↦
      let h' : find it ns ≡ none = rw other at h in
      (ground (arith, other, find-append it n.0 node ns h', m.0), append-IsMap it node ns h' m.1)
]
