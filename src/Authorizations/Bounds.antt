-- ===== src/Authorizations/Bounds.antt =====
-- On a well-formed state the transition has no fault, and keeps the state well-formed.
use cpp_jam.Common.{
  ℕ, zero, suc, ◌+◌, ◌%◌, ◌≤◌, ◌<◌, ◌≡◌, refl, sym, ap, ◌∙◌, Bool, true, false, List, [], ◌∷◌, ◌++◌,
  ok, ltb, length, set, replicate, All, All-get_elem?, arith, Bool-cases, ltb→lt, inl, inr,
  get_elem?_lt, length-set, length-append, length-replicate, length-drop,
}
use cpp_jam.Common.Sets.{contains}
use cpp_jam.Authorizations.Transition.{
  Config, State, Input, Cores, load_pools, erase, draw, use_auth, use_auths, drop_oldest, drop_all,
  fill, fill_all, transition,
}

abbrev pub FitsPool : Config → List ℕ → Type 0
FitsPool config pool = length pool ≤ config.auth_pool_max_size

-- A pool within its bound and a full queue for each core, and a queue that is not empty.
pub record IsValid (config : Config) (state : State) : Type 0 where
  pub pools : length state.auth_pools ≡ config.cores_count
  pub bounded : All (FitsPool config) state.auth_pools
  pub queues : length state.auth_queues ≡ config.cores_count
  pub full : All (λ q. length q ≡ config.auth_queue_size) state.auth_queues
  pub turns : 0 < config.auth_queue_size

-- The loop variables speak of all cores, with pools within their bounds.
pub record AreCores (config : Config) (c : Cores) : Type 0 where
  pub pools : length c.pools ≡ config.cores_count
  pub deleted : length c.deleted ≡ config.cores_count
  pub bounded : All (FitsPool config) c.pools

pub load_pools_ok :
    (config : Config) (pools : List (List ℕ))
    → All (FitsPool config) pools
    → load_pools config (length pools) pools ≡ ok pools
unfolding load_pools
load_pools_ok config [] h = refl
load_pools_ok config (pool ∷ pools) h = ground (arith, load_pools_ok config pools h.1)

length-erase_lt : (a : ℕ) (xs : List ℕ) → contains xs a ≡ true → length (erase a xs) < length xs
unfolding contains erase
length-erase_lt a [] h = cc
length-erase_lt a (x ∷ xs) h = ground (arith, length-erase_lt a xs, length-erase-le a xs)
  where
    length-erase-le : (b : ℕ) (ys : List ℕ) → length (erase b ys) ≤ length ys
    length-erase-le b [] = omega arith
    length-erase-le b (y ∷ ys) = ground (arith, length-erase-le b ys)

All-set {ℓ κ} :
    {A : Type ℓ} (P : A → Type κ) (xs : List A) (i : ℕ) (v : A)
    → P v
    → All P xs
    → All P (set xs i v)
All-set P [] i v h k = k
All-set P (x ∷ xs) zero v h k = (h, k.1)
All-set P (x ∷ xs) (suc i) v h k = (k.0, All-set P xs i v h k.1)

module _ (config : Config) (state : State) (slot : ℕ) (valid : IsValid config state) where
  draw_ok : (core : ℕ) → core < config.cores_count → (q : ℕ) × (draw config state slot core ≡ ok q)
  unfolding draw
  draw_ok core h =
      let (queue, found) = get_elem?_lt state.auth_queues core (omega (arith, valid.queues)) in
      let size =
        All-get_elem? (λ q. length q ≡ config.auth_queue_size) state.auth_queues core queue
          valid.full found in
      let (q, at) =
        get_elem?_lt queue (slot % config.auth_queue_size) (omega (arith, size, valid.turns)) in
      (q, ground arith)

  use_auth_ok :
      (core a : ℕ) (c : Cores)
      → core < config.cores_count
      → AreCores config c
      → (c' : Cores) × (use_auth config state slot (core, a) c ≡ ok c') × AreCores config c'
  unfolding use_auth
  use_auth_ok core a c h k =
      let (pool, found) = get_elem?_lt c.pools core (omega (arith, k.pools)) in
      let fits = All-get_elem? (FitsPool config) c.pools core pool k.bounded found in
      let (q, drawn) = draw_ok core h in
      elim (Bool-cases (contains pool a)) [
        | inl e ↦ (
          record {
            pools = set c.pools core (erase a pool ++ q ∷ []);
            deleted = set c.deleted core true;
          },
          rw (found, e, drawn) refl,
          record {
            pools = length-set c.pools core (erase a pool ++ q ∷ []) ∙ k.pools;
            deleted = length-set c.deleted core true ∙ k.deleted;
            bounded =
                All-set (FitsPool config) c.pools core (erase a pool ++ q ∷ [])
                  (omega
                    (arith, length-append (erase a pool) (q ∷ []), length-erase_lt a pool e, fits))
                  k.bounded;
          },
        )
        | inr e ↦ (c, rw (found, e) refl, k)
      ]

  use_auths_ok :
      (auths : List (ℕ × ℕ)) (c : Cores)
      → All (λ x. x.0 < config.cores_count) auths
      → AreCores config c
      → (c' : Cores) × (use_auths config state slot auths c ≡ ok c') × AreCores config c'
  unfolding use_auths
  use_auths_ok [] c h k = (c, refl, k)
  use_auths_ok ((core, a) ∷ auths) c h k =
      let (c₁, used, k₁) = use_auth_ok core a c h.0 k in
      let (c₂, rest, k₂) = use_auths_ok auths c₁ h.1 k₁ in (c₂, rw used rest, k₂)

  drop_all-bounded :
      (ds : List Bool) (pools : List (List ℕ))
      → length ds ≡ length pools
      → All (FitsPool config) pools
      → (length (drop_all config ds pools) ≡ length pools)
        × All (FitsPool config) (drop_all config ds pools)
  unfolding drop_all
  drop_all-bounded [] [] e h = (refl, tt)
  drop_all-bounded [] (pool ∷ pools) e h = absurd (omega arith)
  drop_all-bounded (d ∷ ds) [] e h = absurd (omega arith)
  drop_all-bounded (d ∷ ds) (pool ∷ pools) e h =
      let rest = drop_all-bounded ds pools (omega arith) h.1 in
      (ap suc rest.0, (drop_fits d pool h.0, rest.1))
    where
      drop_fits :
          (b : Bool) (xs : List ℕ) → FitsPool config xs → FitsPool config (drop_oldest config b xs)
      drop_fits b xs f = ground (arith, length-drop 1 xs)

  fill_ok :
      (core : ℕ) (pool : List ℕ)
      → core < config.cores_count
      → FitsPool config pool
      → (pool' : List ℕ) × (fill config state slot core pool ≡ ok pool') × FitsPool config pool'
  unfolding fill
  fill_ok core pool h f =
      let (q, drawn) = draw_ok core h in
      elim (Bool-cases (ltb (length pool) config.auth_pool_max_size)) [
        | inl e ↦ (
          pool ++ q ∷ [],
          rw (e, drawn) refl,
          omega (
            arith,
            ltb→lt (length pool) config.auth_pool_max_size e,
            length-append pool (q ∷ []),
          ),
        )
        | inr e ↦ (pool, rw e refl, f)
      ]

  fill_all_ok :
      (core : ℕ) (pools : List (List ℕ))
      → core + length pools ≡ config.cores_count
      → All (FitsPool config) pools
      → (pools' : List (List ℕ)) × (fill_all config state slot core pools ≡ ok pools')
        × (length pools' ≡ length pools)
        × All (FitsPool config) pools'
  unfolding fill_all
  fill_all_ok core [] e h = ([], refl, refl, tt)
  fill_all_ok core (pool ∷ pools) e h =
      let (pool', filled, fits) = fill_ok core pool (omega arith) h.0 in
      let (pools', rest, size, bounded) = fill_all_ok (suc core) pools (omega arith) h.1 in
      (pool' ∷ pools', rw (filled, rest) refl, ap suc size, (fits, bounded))

-- On a valid state, with authorizers of existing cores only, the transition reaches its end with no
-- access out of range and no failed assertion. The new state is valid, with no pool over its bound,
-- and has the same queues.
pub transition_ok :
    (config : Config) (state : State) (input : Input)
    → IsValid config state
    → All (λ x. x.0 < config.cores_count) input.auths
    → (state' : State) × (transition config state input ≡ ok state')
      × IsValid config state'
      × (state'.auth_queues ≡ state.auth_queues)
unfolding transition
transition_ok config state input valid h =
    let start : Cores = record {
      pools = state.auth_pools;
      deleted = replicate config.cores_count false;
    } in
    let loaded : load_pools config config.cores_count state.auth_pools ≡ ok state.auth_pools =
      ap (λ n. load_pools config n state.auth_pools) (sym valid.pools)
      ∙ load_pools_ok config state.auth_pools valid.bounded in
    let (c, used, k) = use_auths_ok config state input.slot valid input.auths start h (record {
      pools = valid.pools;
      deleted = length-replicate config.cores_count false;
      bounded = valid.bounded;
    }) in
    let dropped =
      drop_all-bounded config state input.slot valid c.deleted c.pools
        (omega (arith, k.pools, k.deleted)) k.bounded in
    let (pools', filled, size, bounded) =
      fill_all_ok config state input.slot valid 0 (drop_all config c.deleted c.pools)
        (omega (arith, dropped.0, k.pools)) dropped.1 in
    (
      record { auth_pools = pools'; auth_queues = state.auth_queues },
      rw (loaded, used, filled) refl,
      record {
        pools = omega (arith, size, dropped.0, k.pools);
        bounded = bounded;
        queues = valid.queues;
        full = valid.full;
        turns = valid.turns;
      },
      refl,
    )
