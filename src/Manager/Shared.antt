-- ===== src/Manager/Shared.antt =====
-- Calls of `getEngine` from several threads.
use mathlib.Core.Path.{subst}
use cpp_jam.Common.{
  ℕ, suc, ◌<◌, ◌≡◌, refl, sym, ◌∙◌, ap, List, [], ◌∷◌, Option, none, some, ◌==◌, ==_iff, arith, All,
  All-get_elem?, get_elem?, ◌↔◌, ◌⊎◌, Bool-cases, if_true, if_false, inl, inr,
}
use cpp_jam.Common.Maps.{find, assign, find-assign}
use cpp_jam.Manager.Engines.{
  Manager, Request, World, Event, begins, finishes, disposes, engine_id, create_missing, look_again,
  dispose, after_look, begin, finish, step, run, initial,
}

-- Different hashes have different engines, and no engine is a later object.
record IsSound (m : Manager) : Type 0 where
  single : (i j o : ℕ) → find i m.engines ≡ some o → find j m.engines ≡ some o → i ≡ j
  old : (i o : ℕ) → find i m.engines ≡ some o → o < m.next_object

-- Each engine that was returned is still the one of its hash.
abbrev IsCurrent : (ℕ → ℕ) → List (ℕ × ℕ) → Request × ℕ → Type 0
IsCurrent hash engines p = find (engine_id hash p.0) engines ≡ some p.1

record IsShared (hash : ℕ → ℕ) (w : World) : Type 0 where
  sound : IsSound w.manager
  current : All (IsCurrent hash w.manager.engines) w.returned

module _ (id : ℕ) (m : Manager) (absent : find id m.engines ≡ none) where
  abbrev created : Manager
  created = record m {
    engines = assign id m.next_object m.engines;
    next_object = suc m.next_object;
  }

  find_new : find id created.engines ≡ some m.next_object
  find_new =
      find-assign id id m.next_object m.engines ∙ if_true (id == id) _ _ ((==_iff id id).1 refl)

  find_old : (i o : ℕ) → find i m.engines ≡ some o → find i created.engines ≡ some o
  find_old i o there = find-assign id i m.next_object m.engines ∙ elim (Bool-cases (id == i)) [
    | inl same ↦
        let e : id ≡ i = (==_iff id i).0 same in
        let clash : none ≡ some o = sym absent ∙ ap (λ x. find x m.engines) e ∙ there in absurd (cc)
    | inr other ↦ if_false (id == i) _ _ other ∙ there
  ]

  -- What is found is the new engine or was there before.
  find_created :
      (i o : ℕ)
      → find i created.engines ≡ some o
      → (id ≡ i) × (m.next_object ≡ o) ⊎ (find i m.engines ≡ some o)
  find_created i o there =
      let h = sym (find-assign id i m.next_object m.engines) ∙ there in
      elim (Bool-cases (id == i)) [
        | inl same ↦
            let e : some m.next_object ≡ some o = sym (if_true (id == i) _ _ same) ∙ h in
            inl ((==_iff id i).0 same, cc)
        | inr other ↦ inr (sym (if_false (id == i) _ _ other) ∙ h)
      ]

  created-IsSound : IsSound m → IsSound created
  created-IsSound sound = record {
    single = λ i j o a b. elim (find_created i o a) [
      | inl (i_new, o_new) ↦ elim (find_created j o b) [
        | inl (j_new, o_new') ↦ sym i_new ∙ j_new
        | inr j_old ↦ absurd (let lt = sound.old j o j_old in omega (arith, lt, o_new))
      ]
      | inr i_old ↦ elim (find_created j o b) [
        | inl (j_new, o_new) ↦ absurd (let lt = sound.old i o i_old in omega (arith, lt, o_new))
        | inr j_old ↦ sound.single i j o i_old j_old
      ]
    ];
    old = λ i o a. elim (find_created i o a) [
      | inl (i_new, o_new) ↦ omega (arith, o_new)
      | inr i_old ↦ let lt = sound.old i o i_old in omega (arith, lt)
    ];
  }

-- `look_again` gives the engine of the hash, and every engine that was there stays.
look_again-IsSound :
    (id : ℕ) (m : Manager)
    → IsSound m
    → IsSound (look_again id m).1
      × (find id (look_again id m).1.engines ≡ some (look_again id m).0)
      × ((i o : ℕ) → find i m.engines ≡ some o → find i (look_again id m).1.engines ≡ some o)
unfolding look_again create_missing
look_again-IsSound id m sound = by_find (find id m.engines) refl
  where
    by_find :
        (r : Option ℕ)
        → find id m.engines ≡ r
        → IsSound (create_missing id m r).1
          × (find id (create_missing id m r).1.engines ≡ some (create_missing id m r).0)
          × ((i o : ℕ)
              → find i m.engines ≡ some o
              → find i (create_missing id m r).1.engines ≡ some o)
    by_find (some it) e = (sound, e, λ i o there. there)
    by_find none e = (created-IsSound id m e sound, find_new id m e, find_old id m e)

still :
    (hash : ℕ → ℕ) (engines engines' : List (ℕ × ℕ))
    → ((i o : ℕ) → find i engines ≡ some o → find i engines' ≡ some o)
    → (ps : List (Request × ℕ)) → All (IsCurrent hash engines) ps
    → All (IsCurrent hash engines') ps
still hash engines engines' stays [] all = tt
still hash engines engines' stays (p ∷ ps) all =
    (stays (engine_id hash p.0) p.1 all.0, still hash engines engines' stays ps all.1)

module _ (hash : ℕ → ℕ) (arrange : List ℕ → List ℕ) (w : World) (shared : IsShared hash w) where
  begin-IsShared :
      (tid : ℕ) (r : Request) (o : Option Request) → IsShared hash (begin hash tid r w o)
  unfolding begin after_look
  begin-IsShared tid r (some r') = shared
  begin-IsShared tid r none = by_find (find (engine_id hash r) w.manager.engines) refl
    where
      by_find :
          (f : Option ℕ)
          → find (engine_id hash r) w.manager.engines ≡ f
          → IsShared hash (after_look tid r w f)
      by_find (some it) e = record { sound = shared.sound; current = (e, shared.current) }
      by_find none e = record { sound = shared.sound; current = shared.current }

  finish-IsShared : (tid : ℕ) (o : Option Request) → IsShared hash (finish hash tid w o)
  unfolding finish
  finish-IsShared tid none = shared
  finish-IsShared tid (some r) =
      let (sound, here, stays) = look_again-IsSound (engine_id hash r) w.manager shared.sound in
      record {
        sound = sound;
        current = (here, still hash w.manager.engines _ stays w.returned shared.current);
      }

  dispose-IsShared : IsShared hash (record w { manager = dispose arrange w.manager })
  unfolding dispose
  dispose-IsShared = elim (Bool-cases w.manager.disposed) [
    | inl again ↦
        subst (λ m. IsShared hash (record w { manager = m }))
          (sym (if_true w.manager.disposed _ _ again)) shared
    | inr first ↦
        subst (λ m. IsShared hash (record w { manager = m }))
          (sym (if_false w.manager.disposed _ _ first))
          (record {
            sound = record { single = shared.sound.single; old = shared.sound.old };
            current = shared.current;
          })
  ]

  step-IsShared : (e : Event) → IsShared hash (step hash arrange e w)
  unfolding step
  step-IsShared (begins tid r) = begin-IsShared tid r (w.waiting tid)
  step-IsShared (finishes tid) = finish-IsShared tid (w.waiting tid)
  step-IsShared disposes = dispose-IsShared

run-IsShared :
    (hash : ℕ → ℕ) (arrange : List ℕ → List ℕ) (es : List Event) (w : World)
    → IsShared hash w
    → IsShared hash (run hash arrange es w)
unfolding run
run-IsShared hash arrange [] w shared = shared
run-IsShared hash arrange (e ∷ es) w shared =
    run-IsShared hash arrange es (step hash arrange e w) (step-IsShared hash arrange w shared e)

initial-IsShared : (hash : ℕ → ℕ) → IsShared hash initial
unfolding find
initial-IsShared hash = record {
  sound = record { single = λ i j o a b. absurd (cc); old = λ i o a. absurd (cc) };
  current = tt;
}

-- However the calls of `getEngine` from several threads and of `dispose` come between each other, two calls return the same engine just if the hashes of their
-- argument types are equal, whatever the types of their keys.
pub get_engine_iff :
    (hash : ℕ → ℕ) (arrange : List ℕ → List ℕ) (es : List Event) (n n' : ℕ) (r r' : Request)
    (o o' : ℕ)
    → get_elem? (run hash arrange es initial).returned n ≡ some (r, o)
    → get_elem? (run hash arrange es initial).returned n' ≡ some (r', o')
    → (o ≡ o') ↔ (hash r.args ≡ hash r'.args)
unfolding engine_id
get_engine_iff hash arrange es n n' r r' o o' at at' =
    let w = run hash arrange es initial in
    let shared = run-IsShared hash arrange es initial (initial-IsShared hash) in
    let here : find (hash r.args) w.manager.engines ≡ some o =
      All-get_elem? (IsCurrent hash w.manager.engines) w.returned n (r, o) shared.current at in
    let there : find (hash r'.args) w.manager.engines ≡ some o' =
      All-get_elem? (IsCurrent hash w.manager.engines) w.returned n' (r', o') shared.current at' in
    (
      λ e. shared.sound.single (hash r.args) (hash r'.args) o here (there ∙ ap some (sym e)),
      λ e.
          let same : some o ≡ some o' = sym here ∙ ap (λ x. find x w.manager.engines) e ∙ there in
          cc,
    )
