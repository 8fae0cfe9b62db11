-- ===== src/Safrole/Lowest.antt =====
-- What the loop over the tickets makes: safrole.hpp, the accumulator as the lowest tickets of a union.
use mathlib.Core.Path.{subst}
use cpp_jam.Common.{
  ℕ, zero, suc, ◌≤◌, ◌<◌, ◌≡◌, refl, sym, ap, ◌∙◌, false, List, [], ◌∷◌, map, Option, none, some,
  ok, >>=-eq-ok, or_fail-eq-ok, or_fail, ltb, ◌==◌, length, take, length-take, arith, Bool-cases,
  inl, inr,
}
use cpp_jam.Common.Sets
use cpp_jam.Common.Sets.{IsAscending, Follows}
use cpp_jam.Safrole.Types.{Env, Config, TicketBody, TicketEnvelope, bad_ticket_proof}
use cpp_jam.Safrole.Accumulate.{
  insert, insert_all, contains, drop_last, trim, is_before, ticket_id, check_ticket, accumulate,
}

pub length-insert-le : (t : TicketBody) (s : List TicketBody) → length (insert t s) ≤ suc (length s)
unfolding insert
length-insert-le t [] = omega arith
length-insert-le t (u ∷ us) = ground (arith, length-insert-le t us)

length-drop_last : (t : TicketBody) (s : List TicketBody) → length (drop_last (t ∷ s)) ≡ length s
unfolding drop_last
length-drop_last t [] = refl
length-drop_last t (u ∷ us) = ap suc (length-drop_last u us)

take_all : (n : ℕ) (s : List TicketBody) → length s ≤ n → take n s ≡ s
take_all zero [] h = refl
take_all zero (t ∷ s) h = absurd (omega arith)
take_all (suc n) [] h = refl
take_all (suc n) (t ∷ s) h = ap (◌∷◌ t) (take_all n s (omega arith))

drop_last-take : (n : ℕ) (s : List TicketBody) → length s ≡ suc n → drop_last s ≡ take n s
unfolding drop_last
drop_last-take zero [] h = refl
drop_last-take zero (t ∷ []) h = refl
drop_last-take zero (t ∷ u ∷ s) h = absurd (omega arith)
drop_last-take (suc n) [] h = refl
drop_last-take (suc n) (t ∷ []) h = absurd (omega arith)
drop_last-take (suc n) (t ∷ u ∷ s) h = ap (◌∷◌ t) (drop_last-take n (u ∷ s) (omega arith))

-- With one ticket too many at most, trimming keeps the first ones.
trim-take : (n : ℕ) (s : List TicketBody) → length s ≤ suc n → trim n s ≡ take n s
trim-take n s h = elim (Bool-cases (ltb n (length s))) [
  | inl e ↦ rw e (drop_last-take n s (ground arith))
  | inr e ↦ rw e (sym (take_all n s (ground arith)))
]

take-cons-take :
    (n : ℕ) (t : TicketBody) (s : List TicketBody) → take n (t ∷ take n s) ≡ take n (t ∷ s)
take-cons-take zero t s = refl
take-cons-take (suc n) t s = ap (◌∷◌ t) (take_take n s)
  where
    take_take : (k : ℕ) (r : List TicketBody) → take k (take (suc k) r) ≡ take k r
    take_take zero r = refl
    take_take (suc k) [] = refl
    take_take (suc k) (u ∷ r) = ap (◌∷◌ u) (take_take k r)

take-take : (n : ℕ) (s : List TicketBody) → take n (take n s) ≡ take n s
take-take zero s = refl
take-take (suc n) [] = refl
take-take (suc n) (t ∷ s) = ap (◌∷◌ t) (take-take n s)

-- To insert and keep the first `n`, the first `n` are all that matter.
take-insert-take :
    (n : ℕ) (t : TicketBody) (s : List TicketBody)
    → take n (insert t (take n s)) ≡ take n (insert t s)
unfolding insert
take-insert-take zero t s = refl
take-insert-take (suc n) t [] = refl
take-insert-take (suc n) t (u ∷ us) = elim (Bool-cases (ltb t.id u.id)) [
  | inl e ↦ rw e (ap (◌∷◌ t) (take-cons-take n u us))
  | inr e ↦ elim (Bool-cases (t.id == u.id)) [
    | inl f ↦ rw (e, f) (ap (◌∷◌ u) (take-take n us))
    | inr f ↦ rw (e, f) (ap (◌∷◌ u) (take-insert-take n t us))
  ]
]

trim-insert-take :
    (n : ℕ) (t : TicketBody) (s : List TicketBody)
    → trim n (insert t (take n s)) ≡ take n (insert t s)
trim-insert-take n t s =
    trim-take n (insert t (take n s))
      (omega (arith, length-insert-le t (take n s), length-take n s))
    ∙ take-insert-take n t s

-- The identifiers of the list do not fall, from the last ticket on.
abbrev pub IsOrdered : Option TicketBody → List TicketBody → Type 0
IsOrdered p [] = Unit {0}
IsOrdered p (t ∷ ts) = (is_before t p ≡ false) × IsOrdered (some t) ts

module _ (env : Env) (config : Config) (gamma_z entropy : ℕ) where
  -- Each envelope's proof is valid for its ticket, and its attempt is below N.
  abbrev pub AreTickets : List TicketEnvelope → List TicketBody → Type 0
  AreTickets [] [] = Unit {0}
  AreTickets [] (t ∷ ts) = ⊥
  AreTickets (e ∷ es) [] = ⊥
  AreTickets (e ∷ es) (t ∷ ts) =
      (ticket_id env config gamma_z entropy e ≡ some t.id)
      × (t.attempt ≡ e.attempt)
      × (e.attempt < config.tickets_per_validator)
      × AreTickets es ts

  check_ticket_sound :
      (prev : Option TicketBody) (acc : List TicketBody) (e : TicketEnvelope) (t : TicketBody)
      → check_ticket env config gamma_z entropy prev acc e ≡ ok t
      → (ticket_id env config gamma_z entropy e ≡ some t.id)
        × (t.attempt ≡ e.attempt)
        × (e.attempt < config.tickets_per_validator)
        × (is_before t prev ≡ false)
        × (contains acc t ≡ false)
  unfolding check_ticket
  check_ticket_sound prev acc e t h =
      let (id, found, rest) =
        >>=-eq-ok (or_fail (ticket_id env config gamma_z entropy e) bad_ticket_proof) _ h in
      let made : record { id = id; attempt = e.attempt } ≡ t = ground arith in
      (
        or_fail-eq-ok (ticket_id env config gamma_z entropy e) bad_ticket_proof found
            ∙ ap (λ x. some x.id) made,
        ap (λ x. x.attempt) (sym made),
        ground arith,
        subst (λ x. is_before x prev ≡ false) made (ground arith),
        subst (λ x. contains acc x ≡ false) made (ground arith),
      )

  accumulate_from :
      (prev : Option TicketBody) (s acc acc' : List TicketBody) (es : List TicketEnvelope)
      → acc ≡ take config.epoch_length s
      → accumulate env config gamma_z entropy prev acc es ≡ ok acc'
      → (ts : List TicketBody) × AreTickets es ts
        × IsOrdered prev ts
        × (acc' ≡ take config.epoch_length (insert_all ts s))
  unfolding accumulate insert_all
  accumulate_from prev s acc acc' [] e h = ([], tt, tt, ground arith)
  accumulate_from prev s acc acc' (v ∷ es) e h =
      let (t, checked, next) = >>=-eq-ok (check_ticket env config gamma_z entropy prev acc v) _ h in
      let (valid, same, small, ordered, new) = check_ticket_sound prev acc v t checked in
      let (ts, tickets, rest, made) =
        accumulate_from (some t) (insert t s) (trim config.epoch_length (insert t acc)) acc' es
          (ap (λ x. trim config.epoch_length (insert t x)) e
            ∙ trim-insert-take config.epoch_length t s)
          next in
      (t ∷ ts, (valid, same, small, tickets), (ordered, rest), made)

  -- The loop gives the first E of what insertion makes of the old accumulator and the new tickets, although it
  -- cuts back after each insertion.
  pub accumulate-take :
      (acc acc' : List TicketBody) (es : List TicketEnvelope)
      → length acc ≤ config.epoch_length
      → accumulate env config gamma_z entropy none acc es ≡ ok acc'
      → (ts : List TicketBody) × AreTickets es ts
        × IsOrdered none ts
        × (acc' ≡ take config.epoch_length (insert_all ts acc))
  accumulate-take acc acc' es h e =
      accumulate_from none acc acc acc' es (sym (take_all config.epoch_length acc h)) e

pub ids-insert :
    (t : TicketBody) (s : List TicketBody)
    → map (λ u. u.id) (insert t s) ≡ Sets.insert t.id (map (λ u. u.id) s)
unfolding insert Sets.insert
ids-insert t [] = refl
ids-insert t (u ∷ us) = ground (arith, ids-insert t us)

pub insert_all-IsAscending :
    (ts s : List TicketBody)
    → IsAscending none (map (λ u. u.id) s)
    → IsAscending none (map (λ u. u.id) (insert_all ts s))
unfolding insert_all
insert_all-IsAscending [] s h = h
insert_all-IsAscending (t ∷ ts) s h = insert_all-IsAscending ts (insert t s) (
    subst (IsAscending none) (sym (ids-insert t s))
      (Sets.insert-IsAscending t.id (map (λ u. u.id) s) h))

pub take-IsAscending :
    (n : ℕ) (p : Option ℕ) (s : List TicketBody)
    → IsAscending p (map (λ u. u.id) s)
    → IsAscending p (map (λ u. u.id) (take n s))
take-IsAscending zero p s h = tt
take-IsAscending (suc n) p [] h = tt
take-IsAscending (suc n) p (t ∷ s) h = (h.0, take-IsAscending n (some t.id) s h.1)

-- The loop keeps the accumulator within the limit and in strictly ascending order of identifiers.
pub accumulate-IsAscending :
    (env : Env) (config : Config) (gamma_z entropy : ℕ) (acc acc' : List TicketBody)
    (es : List TicketEnvelope)
    → length acc ≤ config.epoch_length
    → IsAscending none (map (λ u. u.id) acc)
    → accumulate env config gamma_z entropy none acc es ≡ ok acc'
    → (length acc' ≤ config.epoch_length) × IsAscending none (map (λ u. u.id) acc')
accumulate-IsAscending env config gamma_z entropy acc acc' es h a e =
    let (ts, tickets, ordered, made) = accumulate-take env config gamma_z entropy acc acc' es h e in
    (
      omega (arith, ap (λ s. length s) made, length-take config.epoch_length (insert_all ts acc)),
      subst (λ s. IsAscending none (map (λ u. u.id) s)) (sym made)
          (take-IsAscending config.epoch_length none (insert_all ts acc)
            (insert_all-IsAscending ts acc a)),
    )
