-- ===== src/Authorizations/Transition.antt =====
-- `transition` of authorizations.hpp. An access out of range, which the source leaves undefined, and
-- a failed assertion are faults of the model.
use cpp_jam.Common.{
  ℕ, zero, suc, ◌%◌, Bool, true, false, not, ◌&&◌, List, [], ◌∷◌, ◌++◌, Result, ok, err, ◌>>=◌,
  ◌>>◌, fail_if, or_fail, ltb, ◌==◌, if◌then◌else◌, length, get_elem?, set, drop, replicate,
}
use cpp_jam.Common.Sets.{contains}

pub data Fault : Type 0 where
  out_of_range assertion_failed : Fault

pub record Config : Type 0 where
  pub cores_count : ℕ
  pub auth_pool_max_size : ℕ
  pub auth_queue_size : ℕ

pub record State : Type 0 where
  pub auth_pools : List (List ℕ)
  pub auth_queues : List (List ℕ)

pub record Input : Type 0 where
  pub slot : ℕ
  pub auths : List (ℕ × ℕ)

-- The pools of the first `n` cores, each within its bound.
unfoldable pub load_pools : Config → ℕ → List (List ℕ) → Result Fault (List (List ℕ))
load_pools config zero pools = ok []
load_pools config (suc n) [] = err out_of_range
load_pools config (suc n) (pool ∷ pools) = do
  fail_if (ltb config.auth_pool_max_size (length pool)) assertion_failed
  rest ← load_pools config n pools
  ok (pool ∷ rest)

-- `std::erase`: every equal element goes.
unfoldable pub erase : ℕ → List ℕ → List ℕ
erase a [] = []
erase a (x ∷ xs) = if x == a then erase a xs else x ∷ erase a xs

-- The authorizer that the core's queue has for the slot.
unfoldable pub draw : Config → State → ℕ → ℕ → Result Fault ℕ
draw config state slot core = do
  queue ← or_fail (get_elem? state.auth_queues core) out_of_range
  fail_if (not (length queue == config.auth_queue_size)) assertion_failed
  or_fail (get_elem? queue (slot % config.auth_queue_size)) out_of_range

-- The loop variables: the pools, and which cores have lost an authorizer.
pub record Cores : Type 0 where
  pub pools : List (List ℕ)
  pub deleted : List Bool

-- One used authorizer: it leaves its core's pool, and the queue's authorizer takes its place.
unfoldable pub use_auth : Config → State → ℕ → ℕ × ℕ → Cores → Result Fault Cores
use_auth config state slot (core, authorizer) c = do
  pool ← or_fail (get_elem? c.pools core) out_of_range
  if contains pool authorizer
      then (do
        queueing ← draw config state slot core
        ok (record {
          pools = set c.pools core (erase authorizer pool ++ queueing ∷ []);
          deleted = set c.deleted core true;
        }))
      else ok c

unfoldable pub use_auths : Config → State → ℕ → List (ℕ × ℕ) → Cores → Result Fault Cores
use_auths config state slot [] c = ok c
use_auths config state slot (a ∷ as_) c = do
  c' ← use_auth config state slot a c
  use_auths config state slot as_ c'

-- A full pool that has lost nothing drops its oldest authorizer.
abbrev pub drop_oldest : Config → Bool → List ℕ → List ℕ
drop_oldest config deleted pool =
    if not deleted && length pool == config.auth_pool_max_size then drop 1 pool else pool

unfoldable pub drop_all : Config → List Bool → List (List ℕ) → List (List ℕ)
drop_all config (d ∷ ds) (pool ∷ pools) = drop_oldest config d pool ∷ drop_all config ds pools
drop_all config _ _ = []

-- A pool with room draws from its queue.
unfoldable pub fill : Config → State → ℕ → ℕ → List ℕ → Result Fault (List ℕ)
fill config state slot core pool =
    if ltb (length pool) config.auth_pool_max_size
    then (do queueing ← draw config state slot core; ok (pool ++ queueing ∷ []))
    else ok pool

unfoldable pub fill_all : Config → State → ℕ → ℕ → List (List ℕ) → Result Fault (List (List ℕ))
fill_all config state slot core [] = ok []
fill_all config state slot core (pool ∷ pools) = do
  pool' ← fill config state slot core pool
  pools' ← fill_all config state slot (suc core) pools
  ok (pool' ∷ pools')

unfoldable pub transition : Config → State → Input → Result Fault State
transition config state input = do
  pools ← load_pools config config.cores_count state.auth_pools
  c ←
      use_auths config state input.slot input.auths
        (record { pools = pools; deleted = replicate config.cores_count false })
  pools' ← fill_all config state input.slot 0 (drop_all config c.deleted c.pools)
  ok (record { auth_pools = pools'; auth_queues = state.auth_queues })
