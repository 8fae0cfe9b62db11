-- ===== src/Safrole/Union.antt =====
-- The accumulator of safrole.hpp as the lowest tickets of a union, described without its insertion.
use mathlib.Core.Path.{subst}
use cpp_jam.Common.{
  ℕ, zero, suc, ◌≤◌, ◌<◌, ◌≡◌, refl, sym, ap, ◌∙◌, Bool, true, false, ◌||◌, List, [], ◌∷◌, map,
  Option, none, some, ok, ltb, ◌==◌, ==_iff, length, take, length-take, arith, Bool-cases, inl, inr,
  ◌⊎◌, All,
}
use cpp_jam.Common.Sets
use cpp_jam.Common.Sets.{IsAscending}
use cpp_jam.Safrole.Types.{Env, Config, TicketBody, TicketEnvelope}
use cpp_jam.Safrole.Accumulate.{insert, insert_all, accumulate}
use cpp_jam.Safrole.Lowest.{
  AreTickets, IsOrdered, accumulate-take, ids-insert, insert_all-IsAscending, take-IsAscending,
}

abbrev pub ids : List TicketBody → List ℕ
ids ts = map (λ u. u.id) ts

-- `kept` is made of the `limit` lowest tickets of `old` and `new`: its identifiers ascend strictly, it holds nothing but their tickets,
-- so that what is true of all of them is true of all of it, and an identifier of theirs that it does not
-- hold is above all that it holds, which are then as many as the limit.
pub record IsLowest (limit : ℕ) (old new kept : List TicketBody) : Type 1 where
  pub ascending : IsAscending none (ids kept)
  pub bounded : length kept ≤ limit
  pub among : (P : TicketBody → Type 0) → All P old → All P new → All P kept
  pub lowest :
      (x : ℕ)
      → (Sets.contains (ids old) x || Sets.contains (ids new) x) ≡ true
      → (Sets.contains (ids kept) x ≡ true) ⊎ ((length kept ≡ limit) × All (λ u. u.id < x) kept)

insert_all-ids : (ts s : List TicketBody) → ids (insert_all ts s) ≡ Sets.insert_all (ids ts) (ids s)
unfolding insert_all Sets.insert_all
insert_all-ids [] s = refl
insert_all-ids (t ∷ ts) s =
    insert_all-ids ts (insert t s) ∙ ap (Sets.insert_all (ids ts)) (ids-insert t s)

insert_among :
    (P : TicketBody → Type 0) (t : TicketBody) (s : List TicketBody)
    → P t
    → All P s
    → All P (insert t s)
unfolding insert
insert_among P t [] h hs = (h, tt)
insert_among P t (u ∷ us) h hs = elim (Bool-cases (ltb t.id u.id)) [
  | inl e ↦ rw e (h, hs)
  | inr e ↦ elim (Bool-cases (t.id == u.id)) [
    | inl f ↦ rw (e, f) hs
    | inr f ↦ rw (e, f) (hs.0, insert_among P t us h hs.1)
  ]
]

insert_all_among :
    (P : TicketBody → Type 0) (ts s : List TicketBody)
    → All P ts
    → All P s
    → All P (insert_all ts s)
unfolding insert_all
insert_all_among P [] s h hs = hs
insert_all_among P (t ∷ ts) s h hs =
    insert_all_among P ts (insert t s) h.1 (insert_among P t s h.0 hs)

take_among : (P : TicketBody → Type 0) (n : ℕ) (s : List TicketBody) → All P s → All P (take n s)
take_among P zero s h = tt
take_among P (suc n) [] h = tt
take_among P (suc n) (t ∷ s) h = (h.0, take_among P n s h.1)

above :
    (p x : ℕ) (s : List TicketBody)
    → IsAscending (some p) (ids s)
    → Sets.contains (ids s) x ≡ true
    → p < x
unfolding Sets.contains
above p x [] a h = absurd (cc)
above p x (t ∷ s) a h = elim (Bool-cases (t.id == x)) [
  | inl same ↦ let e = (==_iff t.id x).0 same in omega (arith, a.0)
  | inr other ↦
      let later : Sets.contains (ids s) x ≡ true = rw other at h in
      omega (arith, above t.id x s a.1 later, a.0)
]

-- What is not among the first `n` is above them.
contains-take :
    (n x : ℕ) (p : Option ℕ) (s : List TicketBody)
    → IsAscending p (ids s)
    → Sets.contains (ids s) x ≡ true
    → (Sets.contains (ids (take n s)) x ≡ true)
      ⊎ ((length (take n s) ≡ n) × All (λ u. u.id < x) (take n s))
unfolding Sets.contains
contains-take zero x p s a h = inr (refl, tt)
contains-take (suc n) x p [] a h = absurd (cc)
contains-take (suc n) x p (t ∷ s) a h = elim (Bool-cases (t.id == x)) [
  | inl same ↦ inl (rw same refl)
  | inr other ↦
      let later : Sets.contains (ids s) x ≡ true = rw other at h in
      elim (contains-take n x (some t.id) s a.1 later) [
        | inl there ↦ inl (rw (other, there) refl)
        | inr (full, lower) ↦ inr (ap suc full, (above t.id x s a.1 later, lower))
      ]
]

pub take-IsLowest :
    (n : ℕ) (ts s : List TicketBody)
    → IsAscending none (ids s)
    → IsLowest n s ts (take n (insert_all ts s))
take-IsLowest n ts s a =
    let sorted = insert_all-IsAscending ts s a in
    record {
      ascending = take-IsAscending n none (insert_all ts s) sorted;
      bounded = omega (arith, length-take n (insert_all ts s));
      among = λ P old new. take_among P n (insert_all ts s) (insert_all_among P ts s new old);
      lowest = λ x h. contains-take n x none (insert_all ts s) sorted (
          ap (λ l. Sets.contains l x) (insert_all-ids ts s)
          ∙ Sets.contains-insert_all (ids ts) (ids s) x
          ∙ or_swap (Sets.contains (ids s) x) (Sets.contains (ids ts) x) h);
    }
  where
    or_swap : (a b : Bool) → (a || b) ≡ true → (b || a) ≡ true
    or_swap true true h = refl
    or_swap true false h = refl
    or_swap false true h = refl
    or_swap false false h = h

-- From an accumulator within the limit E and in strictly ascending order of identifiers, the loop passes only with valid proofs of attempts below
-- N, in an order of identifiers that does not fall. The new accumulator is then made of the E lowest tickets
-- of the old one and the new tickets.
pub accumulate-IsLowest :
    (env : Env) (config : Config) (gamma_z entropy : ℕ) (acc acc' : List TicketBody)
    (es : List TicketEnvelope)
    → length acc ≤ config.epoch_length
    → IsAscending none (ids acc)
    → accumulate env config gamma_z entropy none acc es ≡ ok acc'
    → (ts : List TicketBody) × AreTickets env config gamma_z entropy es ts
      × IsOrdered none ts
      × IsLowest config.epoch_length acc ts acc'
accumulate-IsLowest env config gamma_z entropy acc acc' es h a e =
    let (ts, valid, ordered, made) = accumulate-take env config gamma_z entropy acc acc' es h e in
    (
      ts,
      valid,
      ordered,
      subst (IsLowest config.epoch_length acc ts) (sym made)
          (take-IsLowest config.epoch_length ts acc a),
    )
