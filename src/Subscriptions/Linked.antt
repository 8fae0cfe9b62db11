-- ===== src/Subscriptions/Linked.antt =====
-- How a subscriber's iterators and the engine's nodes belong together, and what `unsubscribe`
-- does to that.
use cpp_jam.Common.{
  ℕ, ◌<◌, ◌≡◌, ◌≢◌, refl, sym, ◌∙◌, Bool, true, false, Option, none, some, if◌then◌else◌,
  Bool-cases, inl, inr,
}
use cpp_jam.Common.Maps.{find, IsMap}
use cpp_jam.Subscriptions.Engine.{Engine, Node, nodes_of}
use cpp_jam.Subscriptions.Subscriber.{Subscriber, subscriptions_of}
use cpp_jam.Subscriptions.Nodes.{node_at}
use cpp_jam.Subscriptions.Erased.{IsErased}

-- The iterator that a subscriber holds for an event in a set.
unfoldable pub held : ℕ → ℕ → Subscriber → Option ℕ
held id key s = find key (subscriptions_of id s)

-- The subscriber `self` holds an iterator for an event in a set exactly if the engine has a node
-- for that, and the iterator points to it.
pub record IsLinked (self : ℕ) (s : Subscriber) (e : Engine) : Type 0 where
  pub there :
      (id key it : ℕ)
      → held id key s ≡ some it
      → (tid : ℕ) × (node_at key it e ≡ some (record { tid = tid; set_id = id; subscriber = self }))
  pub back :
      (key it : ℕ) (node : Node)
      → node_at key it e ≡ some node
      → node.subscriber ≡ self
      → held node.set_id key s ≡ some it

-- Of the engine: nodes have different numbers, below the next one, and belong to objects that
-- have been created.
pub record IsSound (objects : ℕ) (e : Engine) : Type 0 where
  pub fresh :
      (key it : ℕ) (node : Node)
      → node_at key it e ≡ some node
      → (it < e.next_node) × (node.subscriber < objects)
  pub maps : (key : ℕ) → IsMap (nodes_of key e)

-- A node that is still there was there before.
still :
    (gone : Bool) (before after : Option Node) (node : Node)
    → after ≡ (if gone then none else before)
    → after ≡ some node
    → (gone ≡ false) × (before ≡ some node)
still true before after node h there = let no_ : none ≡ some node = sym h ∙ there in absurd (cc)
still false before after node h there = (refl, sym h ∙ there)

pub erased-IsSound :
    (objects : ℕ) (gone : ℕ → ℕ → Bool) (e e' : Engine)
    → IsErased gone e e'
    → IsSound objects e
    → IsSound objects e'
erased-IsSound objects gone e e' erased sound = record {
  fresh = λ key it node there.
      let before =
        still (gone key it) (node_at key it e) (node_at key it e') node (erased.at_ key it) there in
      let (low, known) = sound.fresh key it node before.1 in (rw erased.next low, known);
  maps = erased.maps sound.maps;
}

-- A subscriber stays linked when it drops exactly the iterators whose nodes are taken out.
pub erased-IsLinked :
    (self : ℕ) (gone : ℕ → ℕ → Bool) (e e' : Engine) (s s' : Subscriber)
    → IsErased gone e e'
    → ((id key it : ℕ)
        → held id key s' ≡ some it
        → (held id key s ≡ some it) × (gone key it ≡ false))
    → ((id key it : ℕ) → held id key s ≡ some it → gone key it ≡ false → held id key s' ≡ some it)
    → IsLinked self s e
    → IsLinked self s' e'
erased-IsLinked self gone e e' s s' erased keeps only linked = record {
  there = λ id key it h.
      let (before, stays) = keeps id key it h in
      let (tid, node) = linked.there id key it before in (tid, rw (erased.at_ key it, stays) node);
  back = λ key it node there mine.
      let (stays, before) =
        still (gone key it) (node_at key it e) (node_at key it e') node (erased.at_ key it) there in
      only node.set_id key it (linked.back key it node before mine) stays;
}

-- Another subscriber does not notice.
pub erased-IsLinked_other :
    (self : ℕ) (gone : ℕ → ℕ → Bool) (e e' : Engine) (s : Subscriber)
    → IsErased gone e e'
    → ((key it : ℕ) (node : Node)
        → gone key it ≡ true
        → node_at key it e ≡ some node
        → node.subscriber ≢ self)
    → IsLinked self s e
    → IsLinked self s e'
erased-IsLinked_other self gone e e' s erased others linked =
    erased-IsLinked self gone e e' s s erased (λ id key it h. (h, stays id key it h))
      (λ id key it h g. h) linked
  where
    stays : (id key it : ℕ) → held id key s ≡ some it → gone key it ≡ false
    stays id key it h = elim (Bool-cases (gone key it)) [
      | inl out ↦
          let (tid, node) = linked.there id key it h in absurd (others key it _ out node refl)
      | inr in_ ↦ in_
    ]
