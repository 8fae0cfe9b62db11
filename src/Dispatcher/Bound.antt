-- ===== src/Dispatcher/Bound.antt =====
-- Schedulers bound to thread ids of their own.
use mathlib.Core.Path.{subst}
use cpp_jam.Common.{
  ℕ, suc, ◌+◌, ◌%◌, ◌^◌, ◌≤◌, ◌<◌, ◌≡◌, refl, sym, ◌∙◌, ap, Bool, true, false, ◌&&◌, none, some,
  if◌then◌else◌, ◌==◌, arith, Bool-cases, Option-cases, inl, inr, ◌⊎◌, ==_iff, ==_refl, length,
  get_elem?, get_elem?_ge,
}
use cpp_jam.Common.Maps.{find, find-assign, find-remove}
use cpp_jam.Dispatcher.Tasks.{Dispatcher, execute_in_pool, upload_to_handler, bind, unbind}
use cpp_jam.Scheduler.Queue.{State}
use cpp_jam.Dispatcher.Placed.{
  IsPlaced, GoesTo, handler, context, pooled, temporary, upload-IsPlaced,
}

-- The ids in use are those behind the handlers and below the next one, and there is room for one more.
pub record HasRoom (d : Dispatcher) : Type 0 where
  pub room : suc (length d.handlers + d.next_tid_offset) < 2 ^ 32
  pub used :
      (tid r : ℕ)
      → find tid d.contexts ≡ some r
      → (length d.handlers ≤ tid) × (tid < length d.handlers + d.next_tid_offset)

abbrev pub next_tid : Dispatcher → ℕ
next_tid d = length d.handlers + d.next_tid_offset

pub next_tid-free : (d : Dispatcher) → HasRoom d → find (next_tid d) d.contexts ≡ none
next_tid-free d room = elim (Option-cases (find (next_tid d) d.contexts)) [
  | inl free ↦ free
  | inr (r, taken) ↦ absurd (omega (arith, (room.used (next_tid d) r taken).1))
]

module _ (r : ℕ) (d : Dispatcher) where
  abbrev after : Dispatcher
  after = (bind (some r) d).1

  pub bind_tid : HasRoom d → (bind (some r) d).0 ≡ some (next_tid d)
  unfolding bind
  bind_tid room = ap some (omega (arith, room.room))

  pub bind_find :
      HasRoom d
      → (o : ℕ) → find o after.contexts ≡ (if next_tid d == o then some r else find o d.contexts)
  unfolding bind
  bind_find room o =
      rw (find-assign ((length d.handlers + d.next_tid_offset) % 2 ^ 32) o r d.contexts, no_wrap)
        refl
    where
      no_wrap : (length d.handlers + d.next_tid_offset) % 2 ^ 32 ≡ next_tid d
      no_wrap = omega (arith, room.room)

  no_handler : get_elem? after.handlers (next_tid d) ≡ none
  unfolding bind
  no_handler = get_elem?_ge d.handlers (next_tid d) (omega arith)

  bound_context : HasRoom d → find (next_tid d) after.contexts ≡ some r
  bound_context room = bind_find room (next_tid d) ∙ rw (==_refl (next_tid d)) refl

  bound-GoesTo :
      {repeats again : Bool} {r' : ℕ} {s : State}
      → HasRoom d
      → GoesTo (next_tid d) repeats after r' s again
      → (r' ≡ r) × (s ≡ after.schedulers r) × (again ≡ repeats)
  bound-GoesTo {r' = r'} room (handler h) =
      let e : none ≡ some r' = sym no_handler ∙ h in absurd (cc)
  bound-GoesTo {r' = r'} room (context h found) =
      let e : some r ≡ some r' = sym (bound_context room) ∙ found in
      let same : r' ≡ r = cc in (same, ap after.schedulers same, refl)
  bound-GoesTo room (pooled xs ys h absent split busy free) =
      let e : some r ≡ none = sym (bound_context room) ∙ absent in absurd (cc)
  bound-GoesTo room (temporary h absent busy) =
      let e : some r ≡ none = sym (bound_context room) ∙ absent in absurd (cc)

  -- The id of a bound scheduler is not that of the pool.
  not_pool : HasRoom d → (repeats : Bool) → (next_tid d == execute_in_pool && repeats) ≡ false
  not_pool room repeats = ground (arith, room.room)

-- A task for the id of a scheduler that has just been bound.
pub bound-IsPlaced :
    (r timeout task : ℕ) (repeats : Bool) (d : Dispatcher)
    → HasRoom d
    → d.is_disposed ≡ false
    → (d' : Dispatcher) × (upload_to_handler (next_tid d) timeout task repeats (bind (some r) d).1
        ≡ some d')
      × IsPlaced r ((bind (some r) d).1.schedulers r) repeats timeout task (bind (some r) d).1 d'
unfolding bind
bound-IsPlaced r timeout task repeats d room live =
    let (d', done, r', s, again, goes, placed) =
      upload-IsPlaced (next_tid d) timeout task repeats (bind (some r) d).1
        (not_pool r d room repeats) live in
    let (same, state, as_given) = bound-GoesTo r d room goes in
    (
      d',
      done,
      subst (λ x. IsPlaced r x repeats timeout task (bind (some r) d).1 d') state
          (subst (λ x. IsPlaced x s repeats timeout task (bind (some r) d).1 d') same
            (subst (λ x. IsPlaced r' s x timeout task (bind (some r) d).1 d') as_given placed)),
    )

-- With room for one more id.
pub unbind_bound :
    (r tid o : ℕ) (d : Dispatcher)
    → HasRoom d
    → (bind (some r) d).0 ≡ some tid
    → ((unbind tid (bind (some r) d).1).0 ≡ true)
      × (find o (unbind tid (bind (some r) d).1).1.contexts ≡ find o d.contexts)
unfolding unbind
unbind_bound r tid o d room bound =
    let e : some tid ≡ some (next_tid d) = sym bound ∙ bind_tid r d room in
    let same : tid ≡ next_tid d = cc in
    (
      rw (same, bound_context r d room) refl,
      rw (same, find-remove (next_tid d) o (bind (some r) d).1.contexts, bind_find r d room o)
          (by_key (Bool-cases (next_tid d == o))),
    )
  where
    by_key :
        ((next_tid d == o) ≡ true) ⊎ ((next_tid d == o) ≡ false)
        → (if next_tid d == o then none else if next_tid d == o then some r else find o d.contexts)
          ≡ find o d.contexts
    by_key (inl here) = rw here (
        sym (
          subst (λ x. find x d.contexts ≡ none) ((==_iff (next_tid d) o).0 here)
            (next_tid-free d room)))
    by_key (inr other) = rw other refl
