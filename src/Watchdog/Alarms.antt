-- ===== src/Watchdog/Alarms.antt =====
-- When a check aborts the program.
use mathlib.Core.Path.{subst}
use cpp_jam.Common.{
  zero, ℕ, suc, ◌-◌, ◌<◌, ◌≡◌, refl, sym, ◌∙◌, List, [], ◌∷◌, Option, none, some, ◌==◌, get_elem?,
  arith, if_true, if_false, Bool-cases, inl, inr, ◌⊎◌, ◌↔◌,
}
use cpp_jam.Common.Maps.{find}
use cpp_jam.Watchdog.Threads.{
  Thread, Watchdog, is_left, check_thread, keep, check_threads, with_threads, check,
}

-- A thread that has a `Ping` and has shown nothing for longer than the timeout: its counter is what it was at the last
-- check that saw a change, and that was too long ago.
pub IsSilent : ℕ → ℕ → Watchdog → Thread → Type 0
IsSilent timeout now w t =
    (0 < w.pings t.count) × (t.last_count ≡ w.counts t.count) × (timeout < now - t.last_time)

check_thread_iff :
    (timeout now count : ℕ) (t : Thread)
    → (check_thread timeout now count t ≡ none)
      ↔ ((t.last_count ≡ count) × (timeout < now - t.last_time))
unfolding check_thread
check_thread_iff timeout now count t = ground arith

-- Somewhere in a list there is an entry whose thread is silent.
pub HasSilent : ℕ → ℕ → Watchdog → List (ℕ × Thread) → Type 0
HasSilent timeout now w ps =
    (i : ℕ) × (p : ℕ × Thread) × (get_elem? ps i ≡ some p) × IsSilent timeout now w p.1

module _ (timeout now : ℕ) (w : Watchdog) where
  HasSilent-later :
      (p : ℕ × Thread) (ps : List (ℕ × Thread))
      → HasSilent timeout now w ps
      → HasSilent timeout now w (p ∷ ps)
  unfolding HasSilent
  HasSilent-later p ps (i, q, there, silent) = (suc i, q, there, silent)

  HasSilent-split :
      (p : ℕ × Thread) (ps : List (ℕ × Thread))
      → HasSilent timeout now w (p ∷ ps)
      → IsSilent timeout now w p.1 ⊎ HasSilent timeout now w ps
  unfolding HasSilent
  HasSilent-split p ps (zero, q, there, silent) =
      let e : p ≡ q = cc in
      inl (subst (λ (x : ℕ × Thread). IsSilent timeout now w x.1) (sym e) silent)
  HasSilent-split p ps (suc i, q, there, silent) = inr (i, q, there, silent)

  pub find-HasSilent :
      (tid : ℕ) (t : Thread) (ps : List (ℕ × Thread))
      → find tid ps ≡ some t
      → 0 < w.pings t.count
      → t.last_count ≡ w.counts t.count
      → timeout < now - t.last_time
      → HasSilent timeout now w ps
  unfolding find HasSilent IsSilent
  find-HasSilent tid t [] there owned seen long = absurd (cc)
  find-HasSilent tid t (p ∷ ps) there owned seen long = elim (Bool-cases (p.0 == tid)) [
    | inl same ↦
        let found : some p.1 ≡ some t = sym (if_true (p.0 == tid) _ _ same) ∙ there in
        let e : p.1 ≡ t = cc in
        (0, p, refl, subst (IsSilent timeout now w) (sym e) (owned, seen, long))
    | inr other ↦
        HasSilent-later p ps
          (find-HasSilent tid t ps (sym (if_false (p.0 == tid) _ _ other) ∙ there) owned seen long)
  ]

  keep_iff :
      (tid : ℕ) (t : Option Thread) (rest : Option (List (ℕ × Thread)))
      → (keep tid t rest ≡ none) ↔ ((t ≡ none) ⊎ (rest ≡ none))
  unfolding keep
  keep_iff tid none rest = (λ h. inl refl, λ h. refl)
  keep_iff tid (some t) none = (λ h. inr refl, λ h. refl)
  keep_iff tid (some t) (some ts) = (λ h. absurd (cc), λ h. elim h [ inl e ↦ cc | inr e ↦ cc ])

  check_threads_iff :
      (ps : List (ℕ × Thread))
      → (check_threads timeout now w ps ≡ none) ↔ HasSilent timeout now w ps
  unfolding check_threads IsSilent HasSilent
  check_threads_iff [] = (λ h. absurd (cc), λ (i, p, there, silent). absurd (cc))
  check_threads_iff (p ∷ ps) = elim (Bool-cases (is_left w p.1)) [
    | inl left ↦ rw left (
      λ h. HasSilent-later p ps ((check_threads_iff ps).0 h),
      λ h. elim (HasSilent-split p ps h) [
        | inl silent ↦ absurd (ground (arith, left, silent.0))
        | inr later ↦ (check_threads_iff ps).1 later
      ],
    )
    | inr owned ↦ rw owned (
      λ h. elim ((keep_iff p.0 _ _).0 h) [
        | inl alarm ↦
            let (same, long) = (check_thread_iff timeout now (w.counts p.1.count) p.1).0 alarm in
            (0, p, refl, (ground (arith, owned), same, long))
        | inr later ↦ HasSilent-later p ps ((check_threads_iff ps).0 later)
      ],
      λ h. (keep_iff p.0 _ _).1 (elim (HasSilent-split p ps h) [
        | inl silent ↦
            inl ((check_thread_iff timeout now (w.counts p.1.count) p.1).1 (silent.1, silent.2))
        | inr later ↦ inr ((check_threads_iff ps).1 later)
      ]),
    )
  ]

with_threads_iff :
    (w : Watchdog) (o : Option (List (ℕ × Thread))) → (with_threads w o ≡ none) ↔ (o ≡ none)
unfolding with_threads
with_threads_iff w none = (λ h. refl, λ h. refl)
with_threads_iff w (some ts) = (λ h. absurd (cc), λ h. absurd (cc))

-- A check aborts exactly if there is an entry whose thread still has a `Ping` and is silent for longer than the timeout. A thread without a `Ping` causes no alarm.
pub check_iff :
    (timeout now : ℕ) (w : Watchdog)
    → (check timeout now w ≡ none) ↔ HasSilent timeout now w w.threads
unfolding check
check_iff timeout now w = (
  λ h. (check_threads_iff timeout now w w.threads).0 ((with_threads_iff w _).0 h),
  λ h. (with_threads_iff w _).1 ((check_threads_iff timeout now w w.threads).1 h),
)
