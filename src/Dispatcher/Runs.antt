-- ===== src/Dispatcher/Runs.antt =====
-- Calls of `bind` and `unbind` one after another.
use cpp_jam.Common.{
  ℕ, suc, ◌+◌, ◌%◌, ◌^◌, ◌≤◌, ◌<◌, ◌≡◌, refl, sym, ◌∙◌, ap, Bool, true, false, List, [], ◌∷◌, All,
  ◌≢◌, if_true, if_false, none, some, ◌==◌, arith, Bool-cases, inl, inr, ==_iff, length,
}
use cpp_jam.Common.Maps.{find, find-remove}
use cpp_jam.Dispatcher.Tasks.{
  Dispatcher, upload_to_handler, bind, unbind, Call, binds, unbinds, run,
}
use cpp_jam.Dispatcher.Placed.{IsPlaced}
use cpp_jam.Dispatcher.Bound.{
  HasRoom, next_tid, next_tid-free, bind_tid, bind_find, bound-IsPlaced, unbind_bound,
}

-- The ids in use are those behind the handlers and below the next one.
abbrev pub IsUsed : Dispatcher → Type 0
IsUsed d =
    (tid r : ℕ) → find tid d.contexts ≡ some r → (length d.handlers ≤ tid) × (tid < next_tid d)

-- What calls leave, that gave the ids `ids`.
record IsRun (d : Dispatcher) (calls : ℕ) (ids : List ℕ) (d' : Dispatcher) : Type 0 where
  used : IsUsed d'
  handlers : d'.handlers ≡ d.handlers
  grown : d.next_tid_offset ≤ d'.next_tid_offset
  within : d'.next_tid_offset ≤ d.next_tid_offset + calls
  given : All (λ id. id < next_tid d') ids
  live : d'.is_disposed ≡ d.is_disposed

bind-IsUsed :
    (r : ℕ) (d : Dispatcher)
    → HasRoom d
    → IsUsed (bind (some r) d).1 × ((bind (some r) d).1.next_tid_offset ≡ suc d.next_tid_offset)
unfolding bind
bind-IsUsed r d room =
    let grown : suc d.next_tid_offset % 2 ^ 32 ≡ suc d.next_tid_offset = omega (arith, room.room) in
    (
      λ tid r' found. elim (Bool-cases (next_tid d == tid)) [
        | inl new ↦
            let e = (==_iff (next_tid d) tid).0 new in (omega arith, omega (arith, e, grown))
        | inr other ↦
            let (low, high) = room.used tid r' (
              sym (if_false (next_tid d == tid) _ _ other)
              ∙ sym (bind_find r d room tid)
              ∙ found) in
            (low, omega (arith, high, grown))
      ],
      grown,
    )

unbind-IsUsed : (tid : ℕ) (d : Dispatcher) → IsUsed d → IsUsed (unbind tid d).1
unfolding unbind
unbind-IsUsed tid d used tid' r found = elim (Bool-cases (tid == tid')) [
  | inl gone ↦
      let e : none ≡ some r =
        sym (if_true (tid == tid') _ _ gone) ∙ sym (find-remove tid tid' d.contexts) ∙ found in
      absurd (cc)
  | inr other ↦
      used tid' r
        (sym (if_false (tid == tid') _ _ other) ∙ sym (find-remove tid tid' d.contexts) ∙ found)
]

run-IsRun :
    (cs : List Call) (d : Dispatcher)
    → IsUsed d
    → suc (next_tid d + length cs) < 2 ^ 32
    → IsRun d (length cs) (run cs d).0 (run cs d).1
unfolding run bind unbind
run-IsRun [] d used room = record {
  used = used;
  handlers = refl;
  grown = omega arith;
  within = omega arith;
  given = tt;
  live = refl;
}
run-IsRun (binds none ∷ cs) d used room =
    let rest = run-IsRun cs d used (omega arith) in
    record {
      used = rest.used;
      handlers = rest.handlers;
      grown = rest.grown;
      within = omega (arith, rest.within);
      given = rest.given;
      live = rest.live;
    }
run-IsRun (binds (some r) ∷ cs) d used room =
    let has_room : HasRoom d = record { room = omega arith; used = used } in
    let (used', offset) = bind-IsUsed r d has_room in
    let rest = run-IsRun cs (bind (some r) d).1 used' (omega (arith, offset)) in
    let lengths = ap (λ hs. length hs) rest.handlers in
    let given_id : (length d.handlers + d.next_tid_offset) % 2 ^ 32 ≡ next_tid d = omega arith in
    record {
      used = rest.used;
      handlers = rest.handlers;
      grown = omega (arith, rest.grown, offset);
      within = omega (arith, rest.within, offset);
      given = (omega (arith, given_id, rest.grown, offset, lengths), rest.given);
      live = rest.live;
    }
run-IsRun (unbinds tid ∷ cs) d used room =
    let rest = run-IsRun cs (unbind tid d).1 (unbind-IsUsed tid d used) (omega arith) in
    record {
      used = rest.used;
      handlers = rest.handlers;
      grown = rest.grown;
      within = omega (arith, rest.within);
      given = rest.given;
      live = rest.live;
    }

-- The dispatcher after calls from its start has room, as long as there are not more calls than ids.
run-HasRoom :
    (cs : List Call) (d : Dispatcher)
    → d.contexts ≡ []
    → suc (next_tid d + length cs) < 2 ^ 32
    → IsRun d (length cs) (run cs d).0 (run cs d).1 × HasRoom (run cs d).1
unfolding find
run-HasRoom cs d new room =
    let used : IsUsed d =
      λ tid r found. let e : none ≡ some r = sym (ap (find tid) new) ∙ found in absurd (cc) in
    let after_ = run-IsRun cs d used room in
    let lengths = ap (λ hs. length hs) after_.handlers in
    (after_, record { room = omega (arith, after_.within, lengths); used = after_.used })

-- After any calls of `bind` and `unbind` on a dispatcher that nothing was bound to, while there are ids left: a scheduler that is bound gets an id that no handler and no bound scheduler has, and that no earlier
-- call gave. A task for this id goes to the scheduler and to no other, and repeats if it has a predicate.
pub bind-IsPlaced :
    (cs : List Call) (r timeout task : ℕ) (repeats : Bool) (d : Dispatcher)
    → d.contexts ≡ []
    → d.is_disposed ≡ false
    → suc (length d.handlers + d.next_tid_offset + length cs) < 2 ^ 32
    → (tid : ℕ) × (d' : Dispatcher) × ((bind (some r) (run cs d).1).0 ≡ some tid)
      × (length d.handlers ≤ tid)
      × (find tid (run cs d).1.contexts ≡ none)
      × All (λ id. id ≢ tid) (run cs d).0
      × (upload_to_handler tid timeout task repeats (bind (some r) (run cs d).1).1 ≡ some d')
      × IsPlaced r
          ((run cs d).1.schedulers r)
          repeats
          timeout
          task
          (bind (some r) (run cs d).1).1
          d'
unfolding bind
bind-IsPlaced cs r timeout task repeats d new live room =
    let (after_, has_room) = run-HasRoom cs d new room in
    let e = (run cs d).1 in
    let lengths = ap (λ hs. length hs) after_.handlers in
    let (d', done, placed) =
      bound-IsPlaced r timeout task repeats e has_room (after_.live ∙ live) in
    (
      next_tid e,
      d',
      bind_tid r e has_room,
      omega (arith, lengths),
      next_tid-free e has_room,
      below (next_tid e) (run cs d).0 after_.given,
      done,
      placed,
    )
  where
    below : (n : ℕ) (ids : List ℕ) → All (λ id. id < n) ids → All (λ id. id ≢ n) ids
    below n [] h = tt
    below n (id ∷ ids) h = ((λ same. omega (arith, h.0, same)), below n ids h.1)

-- After any calls of `bind` and `unbind` on a dispatcher that nothing was bound to, while there are ids left: to bind a scheduler and to unbind its id is true and leaves all ids bound
-- as they were before.
pub unbind-bind :
    (cs : List Call) (r tid : ℕ) (d : Dispatcher)
    → d.contexts ≡ []
    → suc (length d.handlers + d.next_tid_offset + length cs) < 2 ^ 32
    → (bind (some r) (run cs d).1).0 ≡ some tid
    → ((unbind tid (bind (some r) (run cs d).1).1).0 ≡ true)
      × ((o : ℕ)
          → find o (unbind tid (bind (some r) (run cs d).1).1).1.contexts
            ≡ find o (run cs d).1.contexts)
unbind-bind cs r tid d new room bound =
    let has_room = (run-HasRoom cs d new room).1 in
    (
      (unbind_bound r tid 0 (run cs d).1 has_room bound).0,
      λ o. (unbind_bound r tid o (run cs d).1 has_room bound).1,
    )
