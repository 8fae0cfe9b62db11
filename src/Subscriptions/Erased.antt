-- ===== src/Subscriptions/Erased.antt =====
-- What the loops of `unsubscribe` take out of the engine.
use mathlib.Core.Path.{subst}
use cpp_jam.Common.{
  ℕ, ◌≡◌, refl, Bool, true, false, ◌&&◌, [], ◌∷◌, Option, none, some, if◌then◌else◌, ◌==◌,
  Bool-cases, Option-cases, inl, inr, ==_iff,
}
use cpp_jam.Common.Maps.{find, remove, IsMap, find-remove, remove-IsMap, absent_other}
use cpp_jam.Subscriptions.Engine
use cpp_jam.Subscriptions.Engine.{Engine, Node, nodes_of}
use cpp_jam.Subscriptions.Subscriber.{Subscriptions, unsubscribe_if_there, unsubscribe_each}
use cpp_jam.Subscriptions.Nodes.{node_at, nodes-unsubscribe}

-- From `e` to `e'` the nodes that `gone` names were taken out, and no other.
pub record IsErased (gone : ℕ → ℕ → Bool) (e e' : Engine) : Type 0 where
  pub at_ : (k j : ℕ) → node_at k j e' ≡ (if gone k j then none else node_at k j e)
  pub next : e'.next_node ≡ e.next_node
  pub maps : ((k : ℕ) → IsMap (nodes_of k e)) → (k : ℕ) → IsMap (nodes_of k e')

-- Whether a set holds the iterator `it` under the key `k`.
abbrev is_it : Option ℕ → ℕ → Bool
is_it none j = false
is_it (some it) j = it == j

unfoldable pub in_set : Subscriptions → ℕ → ℕ → Bool
in_set subs k j = is_it (find k subs) j

pub in_set_iff : (subs : Subscriptions) (k j : ℕ) → in_set subs k j ≡ true → find k subs ≡ some j
unfolding in_set
in_set_iff subs k j h = elim (Option-cases (find k subs)) [
  | inl absent ↦ let h' : false ≡ true = rw absent at h in absurd (cc)
  | inr (it, present) ↦
      let h' : (it == j) ≡ true = rw present at h in rw (present, (==_iff it j).0 h') refl
]

pub in_set_of : (subs : Subscriptions) (k j : ℕ) → find k subs ≡ some j → in_set subs k j ≡ true
unfolding in_set
in_set_of subs k j h = rw h ((==_iff j j).1 refl)

pub unsubscribe-IsErased :
    (key it : ℕ) (node : Node) (e : Engine)
    → node_at key it e ≡ some node
    → (e' : Engine) × (Engine.unsubscribe key it e ≡ some e')
      × IsErased (λ k j. key == k && it == j) e e'
unfolding node_at
unsubscribe-IsErased key it node e h =
    let (e', done, nodes, next) = nodes-unsubscribe key it node e h in
    (
      e',
      done,
      record {
        at_ = λ k j. at_lem k j e' (nodes k);
        next = next;
        maps = λ m k. maps_lem k e' (nodes k) m;
      },
    )
  where
    at_lem :
        (k j : ℕ) (e' : Engine)
        → nodes_of k e' ≡ (if key == k then remove it (nodes_of key e) else nodes_of k e)
        → find j (nodes_of k e') ≡ (if key == k && it == j then none else find j (nodes_of k e))
    at_lem k j e' after = elim (Bool-cases (key == k)) [
      | inl same ↦ rw (after, same, find-remove it j (nodes_of key e), (==_iff key k).0 same) refl
      | inr other ↦ rw (after, other) refl
    ]

    maps_lem :
        (k : ℕ) (e' : Engine)
        → nodes_of k e' ≡ (if key == k then remove it (nodes_of key e) else nodes_of k e)
        → ((k : ℕ) → IsMap (nodes_of k e))
        → IsMap (nodes_of k e')
    maps_lem k e' after m = elim (Bool-cases (key == k)) [
      | inl same ↦ rw (after, same) (remove-IsMap it (nodes_of key e) (m key))
      | inr other ↦ rw (after, other) (m k)
    ]

-- The iterators of a set all point to nodes.
abbrev pub HasNodes : Subscriptions → Engine → Type 0
HasNodes subs e = (k it : ℕ) → find k subs ≡ some it → (node : Node) × (node_at k it e ≡ some node)

-- The loop over a set whose iterators all point to nodes is defined and takes these nodes out.
pub each-IsErased :
    (subs : Subscriptions) (e : Engine)
    → IsMap subs
    → HasNodes subs e
    → (e' : Engine) × (unsubscribe_each subs (some e) ≡ some (some e'))
      × IsErased (in_set subs) e e'
unfolding unsubscribe_each unsubscribe_if_there in_set find
each-IsErased [] e m h = (e, refl, record { at_ = λ k j. refl; next = refl; maps = λ m. m })
each-IsErased (p ∷ ps) e m h =
    let (node, there) = h p.0 p.1 (rw ((==_iff p.0 p.0).1 refl) refl) in
    let (e1, done1, erased1) = unsubscribe-IsErased p.0 p.1 node e there in
    let (e2, done2, erased2) =
      each-IsErased ps e1 m.1
        (λ k it held. kept k it held (differs k it held) e1 (erased1.at_ k it)) in
    (
      e2,
      rw (unsubscribe_each, unsubscribe_if_there, done1) done2,
      record {
        at_ = λ k j. both k j e1 e2 (erased1.at_ k j) (erased2.at_ k j);
        next = rw (erased2.next, erased1.next) refl;
        maps = λ maps. erased2.maps (erased1.maps maps);
      },
    )
  where
    differs : (k it : ℕ) → find k ps ≡ some it → (p.0 == k) ≡ false
    differs k it held = absent_other p.0 k it ps m.0 held

    kept :
        (k it : ℕ)
        → find k ps ≡ some it
        → (p.0 == k) ≡ false
        → (e1 : Engine) → node_at k it e1 ≡ (if p.0 == k && p.1 == it then none else node_at k it e)
        → (node : Node) × (node_at k it e1 ≡ some node)
    kept k it held other e1 after =
        let (node, there) = h k it (rw other held) in (node, rw (after, other) there)

    both :
        (k j : ℕ) (e1 e2 : Engine)
        → node_at k j e1 ≡ (if p.0 == k && p.1 == j then none else node_at k j e)
        → node_at k j e2 ≡ (if is_it (find k ps) j then none else node_at k j e1)
        → node_at k j e2
          ≡ (if is_it (if p.0 == k then some p.1 else find k ps) j then none else node_at k j e)
    both k j e1 e2 first then_ = elim (Bool-cases (p.0 == k)) [
      | inl same ↦
          let absent : find k ps ≡ none =
            subst (λ x. find x ps ≡ none) ((==_iff p.0 k).0 same) m.0 in
          rw (then_, absent, first, same) refl
      | inr other ↦ rw (then_, first, other) refl
    ]
