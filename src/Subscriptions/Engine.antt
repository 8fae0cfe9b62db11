-- ===== src/Subscriptions/Engine.antt =====
-- `SubscriptionEngine`: for each event key the list of its subscribers, and the notifications.
-- Event keys, threads, subscription sets and subscriber objects are numbers. A node of the
-- `std::list` has a number too, which is what an iterator is: no two nodes get the same one.
use cpp_jam.Common.{
  ℕ, suc, ◌+◌, Bool, true, false, List, [], ◌∷◌, ◌++◌, Option, none, some, if◌then◌else◌, length,
}
use cpp_jam.Common.Maps.{find, assign, remove}

-- The tuple in a node. `subscriber` is the object that the weak pointer points to.
pub record Node : Type 0 where
  pub tid : ℕ
  pub set_id : ℕ
  pub subscriber : ℕ

abbrev pub Nodes : Type 0
Nodes = List (ℕ × Node)

pub record Engine : Type 0 where
  pub subscribers_map : List (ℕ × Nodes)
  pub has_dispatcher : Bool
  pub next_node : ℕ

-- What `addDelayed` gets: the thread, the delay, and what the closure keeps.
pub record Task : Type 0 where
  pub tid : ℕ
  pub timeout : ℕ
  pub subscriber : ℕ
  pub set_id : ℕ
  pub key : ℕ

unfoldable pub dispose : Engine → Engine
dispose e = record e { has_dispatcher = false }

abbrev pub found : Option Nodes → Nodes
found none = []
found (some nodes) = nodes

-- `subscribers_map_[key]`, empty for a new key.
unfoldable pub nodes_of : ℕ → Engine → Nodes
nodes_of key e = found (find key e.subscribers_map)

-- `emplace` at the end: the iterator to the new node, and the engine.
unfoldable pub subscribe : ℕ → ℕ → ℕ → ℕ → Engine → ℕ × Engine
subscribe tid set_id key ptr e =
    let node : Node = record { tid = tid; set_id = set_id; subscriber = ptr } in
    (
      e.next_node,
      record e {
        subscribers_map = assign key (nodes_of key e ++ (e.next_node, node) ∷ []) e.subscribers_map;
        next_node = suc e.next_node;
      },
    )

unfoldable pub is_empty : Nodes → Bool
is_empty [] = true
is_empty (n ∷ ns) = false

abbrev pub set_nodes : ℕ → Nodes → Engine → Engine
set_nodes key nodes e = record e { subscribers_map = assign key nodes e.subscribers_map }

-- `erase(it_remove)`. An iterator that does not stand in the list is undefined behaviour: none.
unfoldable pub erase_node : ℕ → Nodes → Option Nodes
erase_node it nodes = elim (find it nodes) [ none ↦ none | some node ↦ some (remove it nodes) ]

unfoldable pub erase_from : ℕ → Option Nodes → Engine → Option Engine
erase_from key none e = none
erase_from key (some nodes) e = some (
    if is_empty nodes
    then record e { subscribers_map = remove key e.subscribers_map }
    else set_nodes key nodes e)

unfoldable pub unsubscribe : ℕ → ℕ → Engine → Option Engine
unsubscribe key it e = elim (find key e.subscribers_map) [
  | none ↦ some e
  | some nodes ↦ erase_from key (erase_node it nodes) e
]

unfoldable pub size_of : ℕ → Engine → ℕ
size_of key e = elim (find key e.subscribers_map) [ none ↦ 0 | some nodes ↦ length nodes ]

unfoldable pub sum_sizes : List (ℕ × Nodes) → ℕ
sum_sizes [] = 0
sum_sizes (p ∷ ps) = length p.1 + sum_sizes ps

unfoldable pub size : Engine → ℕ
size e = sum_sizes e.subscribers_map

-- The task for a node, with copies of what the closure needs.
abbrev pub task_for : ℕ → ℕ → Node → Task
task_for timeout key node = record {
  tid = node.tid;
  timeout = timeout;
  subscriber = node.subscriber;
  set_id = node.set_id;
  key = key;
}

-- The loop over the list: a node whose subscriber has expired is erased, any other queues a task.
unfoldable pub notify_nodes : (ℕ → Bool) → ℕ → ℕ → Nodes → List Task × Nodes
notify_nodes expired timeout key [] = ([], [])
notify_nodes expired timeout key (n ∷ ns) =
    let rest = notify_nodes expired timeout key ns in
    if expired n.1.subscriber then rest else (task_for timeout key n.1 ∷ rest.0, n ∷ rest.1)

unfoldable pub notify_found : (ℕ → Bool) → ℕ → ℕ → Engine → Option Nodes → List Task × Engine
notify_found expired timeout key e none = ([], e)
notify_found expired timeout key e (some nodes) =
    let result = notify_nodes expired timeout key nodes in (result.0, set_nodes key result.1 e)

-- The tasks for the dispatcher in their order, and the engine. The list of a key may stay empty.
unfoldable pub notify_delayed : (ℕ → Bool) → ℕ → ℕ → Engine → List Task × Engine
notify_delayed expired timeout key e =
    if e.has_dispatcher
    then notify_found expired timeout key e (find key e.subscribers_map)
    else ([], e)

unfoldable pub notify : (ℕ → Bool) → ℕ → Engine → List Task × Engine
notify expired key e = notify_delayed expired 0 key e
