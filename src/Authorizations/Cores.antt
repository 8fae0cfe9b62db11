-- ===== src/Authorizations/Cores.antt =====
-- What the loops of `transition` of authorizations.hpp do to one core.
use cpp_jam.Common.{
  ℕ, zero, suc, ◌+◌, ◌-◌, ◌≤◌, ◌<◌, ◌≡◌, ◌≢◌, refl, sym, ap, ◌∙◌, Bool, true, false, List, [], ◌∷◌,
  ◌++◌, some, ok, >>=-eq-ok, or_fail, ltb, ◌==◌, if◌then◌else◌, length, get_elem?, set, drop,
  replicate, All, arith, Bool-cases, inl, inr, get_elem?-set_ne, length-append,
}
use mathlib.Core.List.{append_assoc}
use native.Mathlib.Nat.{add-zero}
use cpp_jam.Common.Sets.{contains}
use cpp_jam.Authorizations.Transition.{
  Config, State, Cores, out_of_range, erase, draw, use_auth, use_auths, drop_oldest, drop_all, fill,
  fill_all,
}

-- The last `n` elements, or all if there are fewer.
abbrev pub last_n : ℕ → List ℕ → List ℕ
last_n n xs = drop (length xs - n) xs

abbrev pub start : Config → State → Cores
start config state = record {
  pools = state.auth_pools;
  deleted = replicate config.cores_count false;
}

pub get_elem?-drop_all :
    (config : Config) (i : ℕ) (ds : List Bool) (pools : List (List ℕ)) (d : Bool) (pool : List ℕ)
    → get_elem? ds i ≡ some d
    → get_elem? pools i ≡ some pool
    → get_elem? (drop_all config ds pools) i ≡ some (drop_oldest config d pool)
unfolding drop_all
get_elem?-drop_all config i [] pools d pool e h = cc
get_elem?-drop_all config i (b ∷ ds) [] d pool e h = cc
get_elem?-drop_all config zero (b ∷ ds) (p ∷ pools) d pool e h =
    let eb : b ≡ d = cc in let ep : p ≡ pool = cc in λ j. some (drop_oldest config (eb j) (ep j))
get_elem?-drop_all config (suc i) (b ∷ ds) (p ∷ pools) d pool e h =
    get_elem?-drop_all config i ds pools d pool e h

pub get_elem?-replicate : (i n : ℕ) → i < n → get_elem? (replicate n false) i ≡ some false
get_elem?-replicate i zero h = elim h [ ]
get_elem?-replicate zero (suc n) h = refl
get_elem?-replicate (suc i) (suc n) h = get_elem?-replicate i n (omega arith)

module _ (config : Config) (state : State) (slot : ℕ) where
  pub get_elem?-fill_all :
      (first i : ℕ) (pools pools' : List (List ℕ)) (pool pool' : List ℕ)
      → fill_all config state slot first pools ≡ ok pools'
      → get_elem? pools i ≡ some pool
      → fill config state slot (first + i) pool ≡ ok pool'
      → get_elem? pools' i ≡ some pool'
  unfolding fill_all
  get_elem?-fill_all first i [] pools' pool pool' h e f = cc
  get_elem?-fill_all first zero (p ∷ pools) pools' pool pool' h e f =
      let (p', filled, next) = >>=-eq-ok (fill config state slot first p) _ h in
      let (ps, rest, last) = >>=-eq-ok (fill_all config state slot (suc first) pools) _ next in
      let made : pools' ≡ p' ∷ ps = cc in
      let same : p ≡ pool = cc in
      let f' : fill config state slot first p ≡ ok pool' =
        (λ j. fill config state slot (sym (add-zero first) j) (same j)) ∙ f in
      let done : ok p' ≡ ok pool' = sym filled ∙ f' in rw made (cc)
  get_elem?-fill_all first (suc i) (p ∷ pools) pools' pool pool' h e f =
      let (p', filled, next) = >>=-eq-ok (fill config state slot first p) _ h in
      let (ps, rest, last) = >>=-eq-ok (fill_all config state slot (suc first) pools) _ next in
      let made : pools' ≡ p' ∷ ps = cc in
      rw made (
        get_elem?-fill_all (suc first) i pools ps pool pool' rest e
          (ap (λ n. fill config state slot n pool) (omega arith) ∙ f))

  use_auth_other :
      (core k a : ℕ) (c c' : Cores)
      → k ≢ core
      → use_auth config state slot (k, a) c ≡ ok c'
      → (get_elem? c'.pools core ≡ get_elem? c.pools core)
        × (get_elem? c'.deleted core ≡ get_elem? c.deleted core)
  unfolding use_auth
  use_auth_other core k a c c' h e =
      let (pool, found, rest) = >>=-eq-ok (or_fail (get_elem? c.pools k) out_of_range) _ e in
      elim (Bool-cases (contains pool a)) [
        | inl t ↦
            let (q, drawn, last) = >>=-eq-ok (draw config state slot k) _ (rw t at rest) in
            let made : c' ≡ record {
              pools = set c.pools k (erase a pool ++ q ∷ []);
              deleted = set c.deleted k true;
            } =
              cc in
            (
              ap (λ x. get_elem? x.pools core) made
                  ∙ get_elem?-set_ne c.pools k core (erase a pool ++ q ∷ []) h,
              ap (λ x. get_elem? x.deleted core) made ∙ get_elem?-set_ne c.deleted k core true h,
            )
        | inr t ↦
            let made : c' ≡ c = let r = rw t at rest in cc in
            (ap (λ x. get_elem? x.pools core) made, ap (λ x. get_elem? x.deleted core) made)
      ]

  pub use_auths_other :
      (core : ℕ) (auths : List (ℕ × ℕ)) (c c' : Cores)
      → All (λ x. x.0 ≢ core) auths
      → use_auths config state slot auths c ≡ ok c'
      → (get_elem? c'.pools core ≡ get_elem? c.pools core)
        × (get_elem? c'.deleted core ≡ get_elem? c.deleted core)
  unfolding use_auths
  use_auths_other core [] c c' h e = (ground arith, ground arith)
  use_auths_other core ((k, a) ∷ auths) c c' h e =
      let (c₁, used, rest) = >>=-eq-ok (use_auth config state slot (k, a) c) _ e in
      let first = use_auth_other core k a c c₁ h.0 used in
      let later = use_auths_other core auths c₁ c' h.1 rest in
      (later.0 ∙ first.0, later.1 ∙ first.1)

  pub fill_drop :
      (core q : ℕ) (pool : List ℕ)
      → draw config state slot core ≡ ok q
      → 0 < config.auth_pool_max_size
      → length pool ≤ config.auth_pool_max_size
      → fill config state slot core (drop_oldest config false pool)
        ≡ ok (last_n config.auth_pool_max_size (pool ++ q ∷ []))
  unfolding fill
  fill_drop core q [] d pos fits =
      let none_out : 1 - config.auth_pool_max_size ≡ 0 = omega arith in rw none_out (ground arith)
  fill_drop core q (x ∷ xs) d pos fits =
      elim (Bool-cases (suc (length xs) == config.auth_pool_max_size)) [
        | inl e ↦
            let one_out : suc (length (xs ++ q ∷ [])) - config.auth_pool_max_size ≡ 1 =
              ground (arith, length-append xs (q ∷ [])) in
            let room : ltb (length xs) config.auth_pool_max_size ≡ true = ground arith in
            rw (one_out, e, room, d)
        | inr e ↦
            let none_out : suc (length (xs ++ q ∷ [])) - config.auth_pool_max_size ≡ 0 =
              ground (arith, length-append xs (q ∷ [])) in
            let room : ltb (suc (length xs)) config.auth_pool_max_size ≡ true = ground arith in
            rw (none_out, e, room, d)
      ]

  pub use_one :
      (core a q : ℕ) (pool : List ℕ) (auths : List (ℕ × ℕ))
      → auths ≡ (core, a) ∷ []
      → get_elem? state.auth_pools core ≡ some pool
      → contains pool a ≡ true
      → draw config state slot core ≡ ok q
      → use_auths config state slot auths (start config state)
        ≡ ok (record {
          pools = set state.auth_pools core (erase a pool ++ q ∷ []);
          deleted = set (replicate config.cores_count false) core true;
        })
  unfolding use_auths use_auth
  use_one core a q pool auths one found has drawn =
      ap (λ x. use_auths config state slot x (start config state)) one ∙ rw (found, has, drawn)

  pub fill_again :
      (core a q : ℕ) (pool : List ℕ)
      → draw config state slot core ≡ ok q
      → fill config state slot core (drop_oldest config true (erase a pool ++ q ∷ []))
        ≡ ok (
            if ltb (length (erase a pool) + 1) config.auth_pool_max_size
            then erase a pool ++ q ∷ q ∷ []
            else erase a pool ++ q ∷ [])
  unfolding fill
  fill_again core a q pool drawn =
      rw (length-append (erase a pool) (q ∷ []))
        (elim (Bool-cases (ltb (length (erase a pool) + 1) config.auth_pool_max_size)) [
          | inl e ↦ rw (e, drawn, append_assoc)
          | inr e ↦ rw e
        ])
