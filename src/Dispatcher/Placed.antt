-- ===== src/Dispatcher/Placed.antt =====
-- Where a task goes.
use mathlib.Core.Path.{subst, fun_ext}
use cpp_jam.Common.{
  ℕ, ◌≡◌, refl, sym, ◌∙◌, ap, Bool, true, false, List, [], ◌∷◌, ◌++◌, Option, none, some,
  if◌then◌else◌, ◌==◌, ◌&&◌, All, Bool-cases, if_true, if_false, inl, inr, ◌⊎◌, ==_iff, get_elem?,
}
use cpp_jam.Common.Maps.{find}
use cpp_jam.Scheduler.Queue
use cpp_jam.Scheduler.Queue.{TimedTask, State}
use cpp_jam.Scheduler.Steps.{initial}
use cpp_jam.Dispatcher.Tasks.{
  Dispatcher, update, give, give_to, offer_to, offer, add_temporary, in_pool, to_context,
  to_handler, upload_if_live, execute_in_pool, upload_to_handler,
}

-- The scheduler object `r`, which was in the state `s`, gets the task, and no other object changes.
pub IsPlaced : ℕ → State → Bool → ℕ → ℕ → Dispatcher → Dispatcher → Type 0
IsPlaced r s repeats timeout task d d' =
    (o : ℕ)
    → d'.schedulers o ≡ (
        if r == o
        then Queue.add
            (record { created = s.now; timeout = timeout; repeats = repeats; number = task }) s
        else d.schedulers o)

-- A pool's object takes a task as its own exactly if it is not busy.
abbrev is_busy : Dispatcher → ℕ → Bool
is_busy d r = (d.schedulers r).is_busy

-- What the loop over the pool does: the first free object takes the task, or none is free.
pub Offered : List ℕ → ℕ → ℕ → Dispatcher → Option ℕ × Dispatcher → Type 0
Offered pool timeout task d result =
    ((xs : List ℕ) × (r : ℕ) × (ys : List ℕ) × (pool ≡ xs ++ (r ∷ ys))
      × All (λ x. is_busy d x ≡ true) xs
      × (is_busy d r ≡ false)
      × (result.0 ≡ none)
      × IsPlaced r (d.schedulers r) false timeout task d result.1)
    ⊎ (All (λ x. is_busy d x ≡ true) pool
        × (result.0 ≡ some task)
        × ((o : ℕ) → result.1.schedulers o ≡ d.schedulers o)
        × (result.1.next_object ≡ d.next_object)
        × (result.1.now ≡ d.now))

give-IsPlaced :
    (r : ℕ) (repeats : Bool) (timeout task : ℕ) (d : Dispatcher)
    → IsPlaced r (d.schedulers r) repeats timeout task d (give_to r repeats timeout task d)
unfolding IsPlaced give_to give
give-IsPlaced r true timeout task d o = refl
give-IsPlaced r false timeout task d o = refl

-- A busy scheduler gives the task back, a free one adds it.
upload_busy :
    (timeout task : ℕ) (s : State)
    → s.is_busy ≡ true
    → Queue.upload_if_free timeout task s ≡ (some task, s)
unfolding Queue.upload_if_free
upload_busy timeout task s busy = if_true s.is_busy _ _ busy

upload_free :
    (timeout task : ℕ) (s : State)
    → s.is_busy ≡ false
    → Queue.upload_if_free timeout task s ≡ (
      none,
      Queue.add (record { created = s.now; timeout = timeout; repeats = false; number = task }) s,
    )
unfolding Queue.upload_if_free
upload_free timeout task s free = if_false s.is_busy _ _ free

update_same :
    (r : ℕ) (schedulers : ℕ → State) (o : ℕ) → update r (schedulers r) schedulers o ≡ schedulers o
update_same r schedulers o = elim (Bool-cases (r == o)) [
  | inl same ↦ rw (same, (==_iff r o).0 same) refl
  | inr other ↦ rw other refl
]

-- One round of the loop, with a free object and with a busy one.
module _ (r : ℕ) (rs : List ℕ) (timeout task : ℕ) (d : Dispatcher) where
  abbrev round : Option ℕ × State → Option ℕ × Dispatcher
  round result = elim result.0 [
    | none ↦ (none, record d { schedulers = update r result.1 d.schedulers })
    | some task' ↦ offer rs timeout task' (record d { schedulers = update r result.1 d.schedulers })
  ]

  offer_free :
      is_busy d r ≡ false → offer (r ∷ rs) timeout task d ≡ (none, give_to r false timeout task d)
  unfolding offer offer_to give_to give
  offer_free free = ap round (upload_free timeout task (d.schedulers r) free)

  offer_busy : is_busy d r ≡ true → offer (r ∷ rs) timeout task d ≡ offer rs timeout task d
  unfolding offer offer_to
  offer_busy busy =
      ap round (upload_busy timeout task (d.schedulers r) busy)
      ∙ ap (λ f. offer rs timeout task (record d { schedulers = f }))
          (fun_ext (update_same r d.schedulers))

-- The loop over the pool.
pub offer-Offered :
    (pool : List ℕ) (timeout task : ℕ) (d : Dispatcher)
    → Offered pool timeout task d (offer pool timeout task d)
unfolding Offered offer
offer-Offered [] timeout task d = inr (tt, refl, λ o. refl, refl, refl)
offer-Offered (r ∷ rs) timeout task d = elim (Bool-cases (is_busy d r)) [
  | inr free ↦
      subst (Offered (r ∷ rs) timeout task d) (sym (offer_free r rs timeout task d free))
        (inl ([], r, rs, refl, tt, free, refl, give-IsPlaced r false timeout task d))
  | inl busy ↦
      subst (Offered (r ∷ rs) timeout task d) (sym (offer_busy r rs timeout task d busy))
        (one_more busy (offer-Offered rs timeout task d))
]
  where
    one_more :
        is_busy d r ≡ true
        → Offered rs timeout task d (offer rs timeout task d)
        → Offered (r ∷ rs) timeout task d (offer rs timeout task d)
    one_more busy (inl (xs, r', ys, split, all_busy, free, taken, placed)) =
        inl (r ∷ xs, r', ys, ap (◌∷◌ r) split, (busy, all_busy), free, taken, placed)
    one_more busy (inr (all_busy, back, same, next, clock)) =
        inr ((busy, all_busy), back, same, next, clock)

-- The object that a task of the thread `tid` goes to, its state, and whether the task repeats there: the handler, else the bound
-- one, else the first of the pool that is free, else a new one with an empty queue.
pub data GoesTo (tid : ℕ) (repeats : Bool) (d : Dispatcher) : ℕ → State → Bool → Type 0 where
  handler :
      {r : ℕ} → get_elem? d.handlers tid ≡ some r → GoesTo tid repeats d r (d.schedulers r) repeats
  context :
      {r : ℕ}
      → get_elem? d.handlers tid ≡ none
      → find tid d.contexts ≡ some r
      → GoesTo tid repeats d r (d.schedulers r) repeats
  pooled :
      {r : ℕ} (xs ys : List ℕ)
      → get_elem? d.handlers tid ≡ none
      → find tid d.contexts ≡ none
      → d.pool ≡ xs ++ (r ∷ ys)
      → All (λ x. is_busy d x ≡ true) xs
      → is_busy d r ≡ false
      → GoesTo tid repeats d r (d.schedulers r) false
  temporary :
      get_elem? d.handlers tid ≡ none
      → find tid d.contexts ≡ none
      → All (λ x. is_busy d x ≡ true) d.pool
      → GoesTo tid repeats d d.next_object (initial d.now) false

-- What an object has, the temporary one included.
temporary-IsPlaced :
    (timeout task : ℕ) (d d' : Dispatcher)
    → ((o : ℕ) → d'.schedulers o ≡ d.schedulers o)
    → d'.next_object ≡ d.next_object
    → d'.now ≡ d.now
    → IsPlaced d.next_object (initial d.now) false timeout task d (add_temporary timeout task d')
unfolding IsPlaced add_temporary give
temporary-IsPlaced timeout task d d' same next clock o = elim (Bool-cases (d.next_object == o)) [
  | inl new ↦ rw (next, new, clock) refl
  | inr old ↦ rw (next, old) (same o)
]

module _ (tid timeout task : ℕ) (repeats : Bool) (d : Dispatcher) where
  abbrev Placed : Dispatcher → Type 0
  Placed d' =
      (r : ℕ) × (s : State) × (again : Bool) × GoesTo tid repeats d r s again
      × IsPlaced r s again timeout task d d'

  pool-Placed :
      get_elem? d.handlers tid ≡ none
      → find tid d.contexts ≡ none
      → (result : Option ℕ × Dispatcher) → Offered d.pool timeout task d result
      → Placed (in_pool timeout result)
  unfolding Offered in_pool
  pool-Placed no_handler no_context (none, d') (inl (xs, r, ys, split, busy, free, taken, placed)) =
      (r, d.schedulers r, false, pooled xs ys no_handler no_context split busy free, placed)
  pool-Placed no_handler no_context (none, d') (inr (busy, back, same, next, clock)) = absurd (cc)
  pool-Placed no_handler no_context (some t, d')
        (inl (xs, r, ys, split, busy, free, taken, placed)) =
      absurd (cc)
  pool-Placed no_handler no_context (some t, d') (inr (busy, back, same, next, clock)) =
      let same_task : t ≡ task = cc in
      (
        d.next_object,
        initial d.now,
        false,
        temporary no_handler no_context busy,
        subst
            (λ x.
              IsPlaced d.next_object (initial d.now) false timeout task d
                (add_temporary timeout x d'))
            (sym same_task) (temporary-IsPlaced timeout task d d' same next clock),
      )

  context-Placed :
      (o : Option ℕ)
      → get_elem? d.handlers tid ≡ none
      → find tid d.contexts ≡ o
      → Placed (to_context repeats timeout task d o)
  unfolding to_context
  context-Placed (some r) no_handler found =
      (r, d.schedulers r, repeats, context no_handler found, give-IsPlaced r repeats timeout task d)
  context-Placed none no_handler absent =
      pool-Placed no_handler absent (offer d.pool timeout task d)
        (offer-Offered d.pool timeout task d)

  handler-Placed :
      (o : Option ℕ)
      → get_elem? d.handlers tid ≡ o
      → Placed (to_handler tid repeats timeout task d o)
  unfolding to_handler
  handler-Placed (some r) found =
      (r, d.schedulers r, repeats, handler found, give-IsPlaced r repeats timeout task d)
  handler-Placed none absent = context-Placed (find tid d.contexts) absent refl

-- Unless the dispatcher is disposed, and unless the task is for the pool by its id and has a predicate, which the code asserts not to be: it goes to exactly one scheduler,
-- which queues it with its delay, and no other changes: the handler's or the bound one's for its thread id, else the first of the pool that is
-- free, else a new one's, whose queue was empty. In the pool and on a new one it does not repeat.
pub upload-IsPlaced :
    (tid timeout task : ℕ) (repeats : Bool) (d : Dispatcher)
    → (tid == execute_in_pool && repeats) ≡ false
    → d.is_disposed ≡ false
    → (d' : Dispatcher) × (upload_to_handler tid timeout task repeats d ≡ some d')
      × (r : ℕ) × (s : State) × (again : Bool) × GoesTo tid repeats d r s again
      × IsPlaced r s again timeout task d d'
unfolding upload_to_handler upload_if_live
upload-IsPlaced tid timeout task repeats d asserted live =
    let (r, s, again, goes, placed) =
      handler-Placed tid timeout task repeats d (get_elem? d.handlers tid) refl in
    (
      to_handler tid repeats timeout task d (get_elem? d.handlers tid),
      if_false (tid == execute_in_pool && repeats) _ _ asserted
          ∙ ap some (if_false d.is_disposed _ _ live),
      r,
      s,
      again,
      goes,
      placed,
    )
