-- ===== src/Subscriptions/Consistent.antt =====
-- What holds of an engine and its subscribers between two calls, and that the calls keep it.
use mathlib.Core.Path.{subst}
use cpp_jam.Common.{
  ℕ, ◌<◌, ◌≡◌, ◌≢◌, sym, List, Option, none, some, ◌==◌, arith, Bool-cases, inl, inr, ◌⊎◌, ==_iff,
}
use cpp_jam.Subscriptions.Engine.{Engine, Task}
use cpp_jam.Subscriptions.Subscriber.{Subscriber}
use cpp_jam.Subscriptions.World.{World, update}
use cpp_jam.Subscriptions.Linked.{IsLinked, IsSound}
use cpp_jam.Subscriptions.Unsubscribed.{IsTidy, IsKept}

-- What holds of an engine while it is there.
abbrev pub WithEngine : (Engine → Type 0) → Option Engine → Type 0
WithEngine P none = Unit {0}
WithEngine P (some e) = P e

pub record IsConsistent (w : World) : Type 0 where
  pub known : (o : ℕ) (s : Subscriber) → w.live o ≡ some s → o < w.objects
  pub tidy : (o : ℕ) (s : Subscriber) → w.live o ≡ some s → IsTidy s
  pub sound : WithEngine (IsSound w.objects) w.engine
  pub linked : (o : ℕ) (s : Subscriber) → w.live o ≡ some s → WithEngine (IsLinked o s) w.engine

pub update-cases :
    (self : ℕ) (v : Option Subscriber) (live : ℕ → Option Subscriber) (o : ℕ) (s : Subscriber)
    → update self v live o ≡ some s
    → ((self ≡ o) × (v ≡ some s)) ⊎ ((o ≢ self) × (live o ≡ some s))
update-cases self v live o s h = elim (Bool-cases (self == o)) [
  | inl same ↦ let h' : v ≡ some s = rw same at h in inl ((==_iff self o).0 same, h')
  | inr other ↦ let h' : live o ≡ some s = rw other at h in inr (ground (arith, other), h')
]

module _ (live : ℕ → Option Subscriber) (objects : ℕ) (queued : List Task) where
  abbrev pub world : Option Engine → World
  world engine = record { engine = engine; live = live; objects = objects; queued = queued }

  -- A call of a live subscriber that is linked with the engine.
  pub kept-IsConsistent :
      (self : ℕ) (s s' : Subscriber) (e e' : Engine)
      → live self ≡ some s
      → IsConsistent (world (some e))
      → IsKept self s' e e'
      → IsConsistent (record {
        engine = some e';
        live = update self (some s') live;
        objects = objects;
        queued = queued;
      })
  kept-IsConsistent self s s' e e' there consistent kept = record {
    known = λ o s2 h. elim (update-cases self (some s') live o s2 h) [
      | inl (same, v) ↦ rw (sym same) (consistent.known self s there)
      | inr (other, before) ↦ consistent.known o s2 before
    ];
    tidy = λ o s2 h. elim (update-cases self (some s') live o s2 h) [
      | inl (same, v) ↦ let e : s' ≡ s2 = cc in subst IsTidy e kept.tidy
      | inr (other, before) ↦ consistent.tidy o s2 before
    ];
    sound = kept.sound objects (consistent.known self s there) consistent.sound;
    linked = λ o s2 h. elim (update-cases self (some s') live o s2 h) [
      | inl (same, v) ↦
          let eq : s' ≡ s2 = cc in
          subst (λ x. IsLinked x s2 e') same (subst (λ x. IsLinked self x e') eq kept.linked)
      | inr (other, before) ↦ kept.others o s2 other (consistent.linked o s2 before)
    ];
  }

  -- A call of a live subscriber without the engine.
  pub local-IsConsistent :
      (self : ℕ) (s s' : Subscriber)
      → live self ≡ some s
      → IsConsistent (world none)
      → IsTidy s'
      → IsConsistent (record {
        engine = none;
        live = update self (some s') live;
        objects = objects;
        queued = queued;
      })
  local-IsConsistent self s s' there consistent tidy = record {
    known = λ o s2 h. elim (update-cases self (some s') live o s2 h) [
      | inl (same, v) ↦ rw (sym same) (consistent.known self s there)
      | inr (other, before) ↦ consistent.known o s2 before
    ];
    tidy = λ o s2 h. elim (update-cases self (some s') live o s2 h) [
      | inl (same, v) ↦ let e : s' ≡ s2 = cc in subst IsTidy e tidy
      | inr (other, before) ↦ consistent.tidy o s2 before
    ];
    sound = tt;
    linked = λ o s2 h. tt;
  }
