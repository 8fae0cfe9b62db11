-- ===== src/Authorizations/Pools.antt =====
-- The pool of a core after `transition` of authorizations.hpp.
use cpp_jam.Common.{
  ℕ, ◌+◌, ◌<◌, ◌≡◌, ◌≢◌, sym, ap, ◌∙◌, Bool, true, false, List, [], ◌∷◌, ◌++◌, some, ok, >>=-eq-ok,
  ltb, if◌then◌else◌, length, get_elem?, set, replicate, All, All-get_elem?, arith, get_elem?_ge,
  get_elem?-set_self, length-replicate,
}
use native.Mathlib.Nat.{zero-add}
use cpp_jam.Common.Sets.{contains}
use cpp_jam.Authorizations.Transition.{
  Config, State, Input, Cores, load_pools, erase, draw, use_auths, drop_oldest, drop_all, fill,
  fill_all, transition,
}
use cpp_jam.Authorizations.Bounds.{IsValid, FitsPool, load_pools_ok}
use cpp_jam.Authorizations.Cores.{
  get_elem?-fill_all, start, last_n, get_elem?-drop_all, get_elem?-replicate, use_auths_other,
  fill_drop, use_one, fill_again,
}

module _ (config : Config) (state : State) (input : Input) (state' : State) (core q : ℕ)
    (pool : List ℕ) where
  -- The new pool of a core comes from the loop variables after the used authorizers.
  pool_after :
      (c : Cores) (d : Bool) (used_pool pool' : List ℕ)
      → IsValid config state
      → transition config state input ≡ ok state'
      → use_auths config state input.slot input.auths (start config state) ≡ ok c
      → get_elem? c.deleted core ≡ some d
      → get_elem? c.pools core ≡ some used_pool
      → fill config state input.slot core (drop_oldest config d used_pool) ≡ ok pool'
      → get_elem? state'.auth_pools core ≡ some pool'
  unfolding transition
  pool_after c d used_pool pool' valid h used deleted found filled =
      let loaded : load_pools config config.cores_count state.auth_pools ≡ ok state.auth_pools =
        ap (λ n. load_pools config n state.auth_pools) (sym valid.pools)
        ∙ load_pools_ok config state.auth_pools valid.bounded in
      let (pools', all_filled, last) =
        >>=-eq-ok (fill_all config state input.slot 0 (drop_all config c.deleted c.pools)) _
          (rw (loaded, used, transition) at h) in
      let made : state'.auth_pools ≡ pools' = cc in
      rw made (
        get_elem?-fill_all config state input.slot 0 core (drop_all config c.deleted c.pools) pools'
          (drop_oldest config d used_pool) pool' all_filled
          (get_elem?-drop_all config core c.deleted c.pools d used_pool deleted found)
          (ap (λ n. fill config state input.slot n (drop_oldest config d used_pool)) (zero-add core)
            ∙ filled))

  -- In a core none of whose authorizers is used, the queue's authorizer for the slot goes behind the
  -- pool, and of the result the last ones stay that fit.
  pub transition_unused :
      IsValid config state
      → 0 < config.auth_pool_max_size
      → transition config state input ≡ ok state'
      → All (λ x. x.0 ≢ core) input.auths
      → get_elem? state.auth_pools core ≡ some pool
      → draw config state input.slot core ≡ ok q
      → get_elem? state'.auth_pools core ≡ some (last_n config.auth_pool_max_size (pool ++ q ∷ []))
  unfolding transition
  transition_unused valid pos h other found drawn =
      let (c, used, next) =
        >>=-eq-ok (use_auths config state input.slot input.auths (start config state)) _ (
          rw
            (
              ap (λ n. load_pools config n state.auth_pools) (sym valid.pools)
                  ∙ load_pools_ok config state.auth_pools valid.bounded,
              transition,
            )
            at h) in
      let in_range : core < length state.auth_pools =
        ground (arith, get_elem?_ge state.auth_pools core) in
      let kept =
        use_auths_other config state input.slot core input.auths (start config state) c other
          used in
      pool_after c false pool (last_n config.auth_pool_max_size (pool ++ q ∷ [])) valid h used
        (kept.1
          ∙ get_elem?-replicate core config.cores_count (omega (arith, valid.pools, in_range)))
        (kept.0 ∙ found)
        (fill_drop config state input.slot core q pool drawn pos
          (All-get_elem? (FitsPool config) state.auth_pools core pool valid.bounded found))

  -- Where one authorizer is used, all its copies leave the core's pool and the queue's authorizer for
  -- the slot goes behind. If there is still room then, the same authorizer goes behind once more.
  pub transition_used :
      (a : ℕ)
      → IsValid config state
      → transition config state input ≡ ok state'
      → input.auths ≡ (core, a) ∷ []
      → get_elem? state.auth_pools core ≡ some pool
      → contains pool a ≡ true
      → draw config state input.slot core ≡ ok q
      → get_elem? state'.auth_pools core
        ≡ some (
            if ltb (length (erase a pool) + 1) config.auth_pool_max_size
            then erase a pool ++ q ∷ q ∷ []
            else erase a pool ++ q ∷ [])
  transition_used a valid h one found has drawn =
      let inside : core < length state.auth_pools =
        ground (arith, get_elem?_ge state.auth_pools core) in
      let c : Cores = record {
        pools = set state.auth_pools core (erase a pool ++ q ∷ []);
        deleted = set (replicate config.cores_count false) core true;
      } in
      pool_after c true (erase a pool ++ q ∷ []) _ valid h
        (use_one config state input.slot core a q pool input.auths one found has drawn)
        (get_elem?-set_self (replicate config.cores_count false) core true
          (omega (arith, length-replicate config.cores_count false, inside)))
        (get_elem?-set_self state.auth_pools core (erase a pool ++ q ∷ []) inside)
        (fill_again config state input.slot core a q pool drawn)
