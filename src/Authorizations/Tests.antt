-- ===== src/Authorizations/Tests.antt =====
-- The theorems on the authorizer pools at two cores.
use cpp_jam.Common.{
  ◌+◌, ◌≡◌, refl, [], ◌∷◌, ◌++◌, some, ok, length, get_elem?, arith, ltb, if◌then◌else◌,
}
use cpp_jam.Common.Sets.{contains}
use cpp_jam.Authorizations.Transition.{
  Config, State, Input, transition, load_pools, erase, draw, use_auth, use_auths, drop_all, fill,
  fill_all,
}
use cpp_jam.Authorizations.Bounds.{IsValid, transition_ok}
use cpp_jam.Authorizations.Pools.{transition_used}

program : Unit {0}
unfolding transition load_pools erase draw use_auth use_auths drop_all fill fill_all contains
program = tt

abbrev config : Config
config = record { cores_count = 2; auth_pool_max_size = 3; auth_queue_size = 2 }

abbrev state : State
state = record {
  auth_pools = (1 ∷ 2 ∷ 3 ∷ []) ∷ (4 ∷ 5 ∷ []) ∷ [];
  auth_queues = (6 ∷ 7 ∷ []) ∷ (8 ∷ 9 ∷ []) ∷ [];
}

abbrev input : Input
input = record { slot = 5; auths = (1, 4) ∷ [] }

abbrev after : State
after = record state { auth_pools = (2 ∷ 3 ∷ 7 ∷ []) ∷ (5 ∷ 9 ∷ 9 ∷ []) ∷ [] }

runs : transition config state input ≡ ok after
unfolding program
runs = refl

state-IsValid : IsValid config state
state-IsValid = record {
  pools = refl;
  bounded = omega arith;
  queues = refl;
  full = (refl, (refl, tt));
  turns = omega arith;
}

transition_ok_example :
    (state' : State) × (transition config state input ≡ ok state')
    × IsValid config state'
    × (state'.auth_queues ≡ state.auth_queues)
transition_ok_example = transition_ok config state input state-IsValid (omega arith)

draws : (draw config state 5 0 ≡ ok 7) × (draw config state 5 1 ≡ ok 9)
unfolding program
draws = (refl, refl)

-- The queue's authorizer is drawn twice for core 1 in one block.
transition_used_example :
    get_elem? after.auth_pools 1
    ≡ some (
        if ltb (length (erase 4 (4 ∷ 5 ∷ [])) + 1) 3
        then erase 4 (4 ∷ 5 ∷ []) ++ 9 ∷ 9 ∷ []
        else erase 4 (4 ∷ 5 ∷ []) ++ 9 ∷ [])
unfolding program
transition_used_example =
    transition_used config state input after 1 9 (4 ∷ 5 ∷ []) 4 state-IsValid runs refl refl refl
      draws.1
