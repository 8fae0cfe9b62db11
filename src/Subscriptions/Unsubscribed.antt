-- ===== src/Subscriptions/Unsubscribed.antt =====
-- The three forms of `unsubscribe` on a subscriber that is linked with the engine.
use mathlib.Core.Path.{subst}
use cpp_jam.Common.{
  ℕ, ◌<◌, ◌≡◌, ◌≢◌, refl, sym, ap, ◌∙◌, Bool, true, false, List, [], ◌∷◌, Option, none, some,
  if◌then◌else◌, ◌==◌, arith, Bool-cases, inl, inr, ==_iff,
}
use cpp_jam.Common.Maps.{find, IsMap}
use cpp_jam.Subscriptions.Engine.{Engine, Node}
use cpp_jam.Subscriptions.Subscriber.{
  Subscriptions, Subscriber, subscriptions_of, unsubscribe_each, unsubscribe_sets,
}
use cpp_jam.Subscriptions.Erased.{IsErased, in_set, in_set_iff, in_set_of, each-IsErased}
use cpp_jam.Subscriptions.Linked.{
  held, IsLinked, IsSound, erased-IsSound, erased-IsLinked, erased-IsLinked_other,
}

-- No set stands twice in a subscriber, and no event twice in a set.
pub record IsTidy (s : Subscriber) : Type 0 where
  pub sets : IsMap s.subscriptions_sets
  pub subs : (id : ℕ) → IsMap (subscriptions_of id s)

-- What a call of the subscriber `self` that turns `e` into `e'` and leaves `s'` keeps.
pub record IsKept (self : ℕ) (s' : Subscriber) (e e' : Engine) : Type 0 where
  pub linked : IsLinked self s' e'
  pub tidy : IsTidy s'
  pub others : (o : ℕ) (s2 : Subscriber) → o ≢ self → IsLinked o s2 e → IsLinked o s2 e'
  pub sound : (objects : ℕ) → self < objects → IsSound objects e → IsSound objects e'

-- A node is in one set.
one_set :
    (self id id' key it : ℕ) (s : Subscriber) (e : Engine)
    → IsLinked self s e
    → held id key s ≡ some it
    → held id' key s ≡ some it
    → id ≡ id'
one_set self id id' key it s e linked h h' =
    let (tid, node) = linked.there id key it h in
    let (tid', node') = linked.there id' key it h' in
    let same : some (record { tid = tid; set_id = id; subscriber = self })
        ≡ some (record { tid = tid'; set_id = id'; subscriber = self }) =
      sym node ∙ node' in
    ap set_of same
  where
    set_of : Option Node → ℕ
    set_of none = 0
    set_of (some node) = node.set_id

-- Nodes of one set are taken out, and the subscriber drops their iterators.
pub gone-IsKept :
    (self id : ℕ) (gone : ℕ → ℕ → Bool) (e e' : Engine) (s s' : Subscriber)
    → IsErased gone e e'
    → ((key it : ℕ) → gone key it ≡ true → held id key s ≡ some it)
    → ((key it : ℕ) → gone key it ≡ true → held id key s' ≢ some it)
    → ((id' key it : ℕ) → held id' key s' ≡ some it → held id' key s ≡ some it)
    → ((id' key it : ℕ)
        → held id' key s ≡ some it
        → gone key it ≡ false
        → held id' key s' ≡ some it)
    → IsTidy s'
    → IsLinked self s e
    → IsKept self s' e e'
gone-IsKept self id gone e e' s s' erased own out less keep tidy linked = record {
  linked =
      erased-IsLinked self gone e e' s s' erased
        (λ id' key it h. (less id' key it h, stays id' key it h)) keep linked;
  tidy = tidy;
  others = λ o s2 other linked2.
      erased-IsLinked_other o gone e e' s2 erased
        (λ key it node g there.
          let (tid, mine) = linked.there id key it (own key it g) in
          let same : some node ≡ some (record { tid = tid; set_id = id; subscriber = self }) =
            sym there ∙ mine in
          λ e. other (sym e ∙ ap (owner self) same))
        linked2;
  sound = λ objects known sound. erased-IsSound objects gone e e' erased sound;
}
  where
    owner : ℕ → Option Node → ℕ
    owner d none = d
    owner d (some node) = node.subscriber

    stays : (id' key it : ℕ) → held id' key s' ≡ some it → gone key it ≡ false
    stays id' key it h = elim (Bool-cases (gone key it)) [
      | inl g ↦
          let same = one_set self id id' key it s e linked (own key it g) (less id' key it h) in
          absurd (out key it g (subst (λ x. held x key s' ≡ some it) (sym same) h))
      | inr stay ↦ stay
    ]

-- A whole set goes: the engine takes out its nodes, and the subscriber loses the set.
pub set-IsKept :
    (self id : ℕ) (subs : Subscriptions) (e : Engine) (s s' : Subscriber)
    → subscriptions_of id s ≡ subs
    → ((id' key : ℕ) → held id' key s' ≡ (if id == id' then none else held id' key s))
    → IsTidy s
    → IsTidy s'
    → IsLinked self s e
    → (e' : Engine) × (unsubscribe_each subs (some e) ≡ some (some e')) × IsKept self s' e e'
unfolding held
set-IsKept self id subs e s s' all dropped tidy tidy' linked =
    let (e', done, erased) =
      each-IsErased subs e (subst IsMap all (tidy.subs id))
        (λ k it h. let (tid, node) = linked.there id k it (rw all h) in (_, node)) in
    (
      e',
      done,
      gone-IsKept self id (in_set subs) e e' s s' erased
          (λ key it g. rw all (in_set_iff subs key it g))
          (λ key it g h. nothing key it (sym (dropped id key) ∙ h)) less keep tidy' linked,
    )
  where
    nothing : (key it : ℕ) → (if id == id then none else held id key s) ≢ some it
    nothing key it h = ground arith

    less : (id' key it : ℕ) → held id' key s' ≡ some it → held id' key s ≡ some it
    less id' key it h = elim (Bool-cases (id == id')) [
      | inl same ↦
          let h' : none ≡ some it =
            sym (
              subst (λ b. held id' key s' ≡ (if b then none else held id' key s)) same
                (dropped id' key))
            ∙ h in
          absurd (cc)
      | inr other ↦
          sym (
            subst (λ b. held id' key s' ≡ (if b then none else held id' key s)) other
              (dropped id' key))
          ∙ h
    ]

    keep :
        (id' key it : ℕ)
        → held id' key s ≡ some it
        → in_set subs key it ≡ false
        → held id' key s' ≡ some it
    keep id' key it h stays = elim (Bool-cases (id == id')) [
      | inl same ↦
          let mine : find key (subscriptions_of id s) ≡ some it =
            subst (λ x. held x key s ≡ some it) (sym ((==_iff id id').0 same)) h in
          let here = in_set_of subs key it (subst (λ x. find key x ≡ some it) all mine) in
          absurd (cc)
      | inr other ↦
          subst (λ b. held id' key s' ≡ (if b then none else held id' key s)) other
            (dropped id' key)
          ∙ h
    ]

-- One erasure after another.
then_IsKept :
    (self : ℕ) (s1 s2 : Subscriber) (e e1 e2 : Engine)
    → IsKept self s1 e e1
    → IsKept self s2 e1 e2
    → IsKept self s2 e e2
then_IsKept self s1 s2 e e1 e2 first then_ = record {
  linked = then_.linked;
  tidy = then_.tidy;
  others = λ o s3 other linked. then_.others o s3 other (first.others o s3 other linked);
  sound = λ objects known sound. then_.sound objects known (first.sound objects known sound);
}

abbrev with_sets : List (ℕ × Subscriptions) → Subscriber → Subscriber
with_sets sets s = record s { subscriptions_sets = sets }

-- The first of the sets falls away.
module _ (p : ℕ × Subscriptions) (ps : List (ℕ × Subscriptions)) (s : Subscriber) where
  tail_dropped :
      (id key : ℕ)
      → find p.0 ps ≡ none
      → held id key (with_sets ps s)
        ≡ (if p.0 == id then none else held id key (with_sets (p ∷ ps) s))
  unfolding held subscriptions_of find
  tail_dropped id key absent = elim (Bool-cases (p.0 == id)) [
    | inl same ↦ rw (same, subst (λ x. find x ps ≡ none) ((==_iff p.0 id).0 same) absent) refl
    | inr other ↦ rw other refl
  ]

  tail-IsTidy : IsTidy (with_sets (p ∷ ps) s) → IsTidy (with_sets ps s)
  unfolding subscriptions_of find
  tail-IsTidy tidy = record {
    sets = tidy.sets.1;
    subs = λ id. elim (Bool-cases (p.0 == id)) [
      | inl same ↦ rw (subst (λ x. find x ps ≡ none) ((==_iff p.0 id).0 same) tidy.sets.0) tt
      | inr other ↦
          let before : IsMap (subscriptions_of id (with_sets (p ∷ ps) s)) = tidy.subs id in
          let after : IsMap (subscriptions_of id (with_sets ps s)) = rw other at before in after
    ];
  }

  head_set : subscriptions_of p.0 (with_sets (p ∷ ps) s) ≡ p.1
  unfolding subscriptions_of find
  head_set = rw ((==_iff p.0 p.0).1 refl) refl

-- `unsubscribe()`, set by set.
pub sets-IsKept :
    (self : ℕ) (sets : List (ℕ × Subscriptions)) (e : Engine) (s : Subscriber)
    → IsTidy (with_sets sets s)
    → IsLinked self (with_sets sets s) e
    → (e' : Engine) × (unsubscribe_sets sets (some e) ≡ some (some e'))
      × IsKept self (with_sets [] s) e e'
unfolding unsubscribe_sets
sets-IsKept self [] e s tidy linked = (
  e,
  refl,
  record {
    linked = linked;
    tidy = tidy;
    others = λ o s2 other linked2. linked2;
    sound = λ objects known sound. sound;
  },
)
sets-IsKept self (p ∷ ps) e s tidy linked =
    let tidy' = tail-IsTidy p ps s tidy in
    let (e1, done1, kept1) =
      set-IsKept self p.0 p.1 e (with_sets (p ∷ ps) s) (with_sets ps s) (head_set p ps s)
        (λ id key. tail_dropped p ps s id key tidy.sets.0) tidy tidy' linked in
    let (e2, done2, kept2) = sets-IsKept self ps e1 s tidy' kept1.linked in
    (
      e2,
      rw (unsubscribe_sets, done1) done2,
      then_IsKept self (with_sets ps s) (with_sets [] s) e e1 e2 kept1 kept2,
    )
