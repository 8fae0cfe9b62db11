-- ===== src/Watchdog/Events.antt =====
-- Runs of a watchdog, and what they leave of a thread that is watched.
use mathlib.Core.Path.{subst}
use cpp_jam.Common.{
  ℕ, ◌+◌, ◌-◌, ◌<◌, ◌≤◌, ◌≡◌, refl, sym, ◌∙◌, ap, Bool, true, false, not, List, [], ◌∷◌, Option,
  none, some, if◌then◌else◌, ◌==◌, ltb, arith, Bool-cases, if_true, if_false, Option-cases, inl,
  inr, ==_iff,
}
use cpp_jam.Common.Maps.{find, find-assign, absent_other}
use cpp_jam.Watchdog.Threads.{
  Thread, Watchdog, is_left, check_thread, keep, check_threads, with_threads, check, ping,
  copy_ping, drop_ping, add_found, add,
}
use cpp_jam.Watchdog.Alarms.{check_iff, find-HasSilent}

-- What the threads and the watchdog's own loop do, one after another.
pub data Event : Type 0 where
  pinged : (o : ℕ) → Event
  copied : (o : ℕ) → Event
  dropped : (o : ℕ) → Event
  joined : (tid now : ℕ) → Event
  checked : (now : ℕ) → Event

unfoldable pub step : ℕ → Event → Watchdog → Option Watchdog
step timeout (pinged o) w = some (ping o w)
step timeout (copied o) w = some (copy_ping o w)
step timeout (dropped o) w = some (drop_ping o w)
step timeout (joined tid now) w = some (add tid now w).1
step timeout (checked now) w = check timeout now w

-- None once a check has aborted.
unfoldable pub run : ℕ → List Event → Option Watchdog → Option Watchdog
run timeout [] r = r
run timeout (e ∷ es) none = none
run timeout (e ∷ es) (some w) = run timeout es (step timeout e w)

-- The event is not a sign of life on the counter `o`, and does not destroy a `Ping` of it.
abbrev pub is_quiet : ℕ → Event → Bool
is_quiet o (pinged o') = not (o' == o)
is_quiet o (dropped o') = not (o' == o)
is_quiet o _ = true

-- The thread `tid` has the counter `o` and a `Ping`, and the last change of the counter that a check saw was at `since` at the latest.
pub record IsWatched (tid o since : ℕ) (w : Watchdog) : Type 0 where
  pub thread : Thread
  pub there : find tid w.threads ≡ some thread
  pub shared : thread.count ≡ o
  pub seen : thread.last_count ≡ w.counts o
  pub before : thread.last_time ≤ since
  pub owned : 0 < w.pings o
  pub old : o < w.next_object

-- A check that does not abort leaves such a thread as it is.
check_thread_seen :
    (timeout now : ℕ) (t t' : Thread) (count : ℕ)
    → t.last_count ≡ count
    → check_thread timeout now count t ≡ some t'
    → t' ≡ t
unfolding check_thread
check_thread_seen timeout now t t' count seen done = by_lag (ltb timeout (now - t.last_time)) (
    sym (if_false (not (t.last_count == count)) _ _ (ap not ((==_iff t.last_count count).1 seen)))
    ∙ done)
  where
    by_lag : (b : Bool) → (if b then none else some t) ≡ some t' → t' ≡ t
    by_lag true h = absurd (cc)
    by_lag false h = cc

keep-eq-some :
    (tid : ℕ) (a : Option Thread) (b : Option (List (ℕ × Thread))) (qs : List (ℕ × Thread))
    → keep tid a b ≡ some qs
    → (t : Thread) × (ts : List (ℕ × Thread)) × (a ≡ some t) × (b ≡ some ts) × (qs ≡ (tid, t) ∷ ts)
unfolding keep
keep-eq-some tid none b qs h = absurd (cc)
keep-eq-some tid (some t) none qs h = absurd (cc)
keep-eq-some tid (some t) (some ts) qs h = (t, ts, refl, refl, cc)

module _ (timeout now : ℕ) (w : Watchdog) (tid : ℕ) (t : Thread) where
  find-check_threads :
      (ps qs : List (ℕ × Thread))
      → find tid ps ≡ some t
      → t.last_count ≡ w.counts t.count
      → 0 < w.pings t.count
      → check_threads timeout now w ps ≡ some qs
      → find tid qs ≡ some t
  unfolding check_threads find
  find-check_threads [] qs there seen owned done = absurd (cc)
  find-check_threads (p ∷ ps) qs there seen owned done = elim (Bool-cases (is_left w p.1)) [
    | inl left ↦
        let done' : check_threads timeout now w ps ≡ some qs =
          sym (if_true (is_left w p.1) _ _ left) ∙ done in
        elim (Bool-cases (p.0 == tid)) [
          | inl same ↦
              let found : some p.1 ≡ some t = sym (if_true (p.0 == tid) _ _ same) ∙ there in
              let e : p.1 ≡ t = cc in
              let left' : is_left w t ≡ true = subst (λ x. is_left w x ≡ true) e left in
              absurd (ground (arith, left', owned))
          | inr other ↦
              find-check_threads ps qs (sym (if_false (p.0 == tid) _ _ other) ∙ there) seen owned
                done'
        ]
    | inr kept ↦
        let (t', ts, a, b, e) =
          keep-eq-some p.0 _ _ qs (sym (if_false (is_left w p.1) _ _ kept) ∙ done) in
        subst (λ x. find tid x ≡ some t) (sym e)
          (elim (Bool-cases (p.0 == tid)) [
            | inl same ↦
                let found : some p.1 ≡ some t = sym (if_true (p.0 == tid) _ _ same) ∙ there in
                let here : p.1 ≡ t = cc in
                let same_t : t' ≡ p.1 =
                  check_thread_seen timeout now p.1 t' (w.counts p.1.count)
                    (subst (λ (x : Thread). x.last_count ≡ w.counts x.count) (sym here) seen) a in
                if_true (p.0 == tid) _ _ same ∙ ap some (same_t ∙ here)
            | inr other ↦
                if_false (p.0 == tid) _ _ other
                ∙ find-check_threads ps ts (sym (if_false (p.0 == tid) _ _ other) ∙ there) seen
                    owned b
          ])
  ]

not_same : (a b : ℕ) → not (a == b) ≡ true → (a == b) ≡ false
not_same a b h = ground (arith, h)

module _ {tid o since : ℕ} (w : Watchdog) (watched : IsWatched tid o since w) where
  ping-IsWatched : (o' : ℕ) → (o' == o) ≡ false → IsWatched tid o since (ping o' w)
  unfolding ping
  ping-IsWatched o' other = record {
    thread = watched.thread;
    there = watched.there;
    shared = watched.shared;
    seen = watched.seen ∙ sym (if_false (o' == o) _ _ other);
    before = watched.before;
    owned = watched.owned;
    old = watched.old;
  }

  copy-IsWatched : (o' : ℕ) → IsWatched tid o since (copy_ping o' w)
  unfolding copy_ping
  copy-IsWatched o' = record {
    thread = watched.thread;
    there = watched.there;
    shared = watched.shared;
    seen = watched.seen;
    before = watched.before;
    owned = elim (Bool-cases (o' == o)) [
      | inl same ↦ rw same (omega arith)
      | inr other ↦ rw other (watched.owned)
    ];
    old = watched.old;
  }

  drop-IsWatched : (o' : ℕ) → (o' == o) ≡ false → IsWatched tid o since (drop_ping o' w)
  unfolding drop_ping
  drop-IsWatched o' other = record {
    thread = watched.thread;
    there = watched.there;
    shared = watched.shared;
    seen = watched.seen;
    before = watched.before;
    owned = rw other watched.owned;
    old = watched.old;
  }

  new-IsWatched :
      (tid' now : ℕ)
      → find tid' w.threads ≡ none
      → IsWatched tid o since (add_found tid' now w none).1
  unfolding add_found
  new-IsWatched tid' now absent = record {
    thread = watched.thread;
    there =
        find-assign tid' tid _ w.threads
        ∙ if_false (tid' == tid) _ _
            (absent_other tid' tid watched.thread w.threads absent watched.there)
        ∙ watched.there;
    shared = watched.shared;
    seen = watched.seen ∙ sym (if_false (w.next_object == o) _ _ fresh);
    before = watched.before;
    owned = rw fresh watched.owned;
    old = omega (arith, watched.old);
  }
    where
      fresh : (w.next_object == o) ≡ false
      fresh = let old = watched.old in ground (arith, old)

  add-IsWatched : (tid' now : ℕ) → IsWatched tid o since (add tid' now w).1
  unfolding add add_found
  add-IsWatched tid' now = elim (Option-cases (find tid' w.threads)) [
    | inl absent ↦
        subst (λ x. IsWatched tid o since (add_found tid' now w x).1) (sym absent)
          (new-IsWatched tid' now absent)
    | inr (t, found) ↦
        subst (λ x. IsWatched tid o since (add_found tid' now w x).1) (sym found)
          (copy-IsWatched t.count)
  ]

  check-IsWatched :
      (timeout now : ℕ) (w' : Watchdog) → check timeout now w ≡ some w' → IsWatched tid o since w'
  unfolding check with_threads
  check-IsWatched timeout now w' done = by_threads (check_threads timeout now w w.threads) refl done
    where
      seen_self : watched.thread.last_count ≡ w.counts watched.thread.count
      seen_self = watched.seen ∙ ap w.counts (sym watched.shared)

      owned_self : 0 < w.pings watched.thread.count
      owned_self = subst (λ x. 0 < w.pings x) (sym watched.shared) watched.owned

      by_threads :
          (r : Option (List (ℕ × Thread)))
          → check_threads timeout now w w.threads ≡ r
          → with_threads w r ≡ some w'
          → IsWatched tid o since w'
      by_threads none e h = absurd (cc)
      by_threads (some qs) e h =
          let same : record w { threads = qs } ≡ w' = cc in
          subst (IsWatched tid o since) same (record {
            thread = watched.thread;
            there =
                find-check_threads timeout now w tid watched.thread w.threads qs watched.there
                  seen_self owned_self e;
            shared = watched.shared;
            seen = watched.seen;
            before = watched.before;
            owned = watched.owned;
            old = watched.old;
          })

  -- A quiet event leaves the thread watched, unless a check aborts.
  pub step-IsWatched :
      (timeout : ℕ) (e : Event) (w' : Watchdog)
      → is_quiet o e ≡ true
      → step timeout e w ≡ some w'
      → IsWatched tid o since w'
  unfolding step
  step-IsWatched timeout (pinged o') w' quiet done =
      let same : ping o' w ≡ w' = cc in
      subst (IsWatched tid o since) same (ping-IsWatched o' (not_same o' o quiet))
  step-IsWatched timeout (copied o') w' quiet done =
      let same : copy_ping o' w ≡ w' = cc in subst (IsWatched tid o since) same (copy-IsWatched o')
  step-IsWatched timeout (dropped o') w' quiet done =
      let same : drop_ping o' w ≡ w' = cc in
      subst (IsWatched tid o since) same (drop-IsWatched o' (not_same o' o quiet))
  step-IsWatched timeout (joined tid' now) w' quiet done =
      let same : (add tid' now w).1 ≡ w' = cc in
      subst (IsWatched tid o since) same (add-IsWatched tid' now)
  step-IsWatched timeout (checked now) w' quiet done = check-IsWatched timeout now w' done

  pub late_check : (timeout now : ℕ) → since + timeout < now → check timeout now w ≡ none
  late_check timeout now late = (check_iff timeout now w).1 (
      find-HasSilent timeout now w tid watched.thread w.threads watched.there
        (subst (λ x. 0 < w.pings x) (sym watched.shared) watched.owned)
        (watched.seen ∙ ap w.counts (sym watched.shared)) (omega (arith, watched.before)))
