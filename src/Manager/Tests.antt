-- ===== src/Manager/Tests.antt =====
-- Two threads that look for the same engine at once, and one with another type of keys.
use cpp_jam.Common.{ℕ, ◌≡◌, refl, [], ◌∷◌, List, some, get_elem?, ◌↔◌}
use cpp_jam.Common.Maps.{find, assign}
use cpp_jam.Manager.Engines.{
  Request, Event, begins, finishes, disposes, engine_id, create_missing, look_again, dispose,
  after_look, begin, finish, step, run, initial,
}
use cpp_jam.Manager.Shared.{get_engine_iff}

abbrev hash : ℕ → ℕ
hash n = n

abbrev same_order : List ℕ → List ℕ
same_order ns = ns

abbrev of_key : ℕ → Request
of_key k = record { event_key = k; args = 7 }

abbrev events : List Event
events =
    begins 0 (of_key 1)
    ∷ begins 1 (of_key 1)
    ∷ finishes 1
    ∷ finishes 0
    ∷ disposes
    ∷ begins 2 (of_key 2)
    ∷ []

returned_first : get_elem? (run hash same_order events initial).returned 0 ≡ some (of_key 2, 0)
unfolding run step begin after_look finish look_again create_missing dispose engine_id find assign
returned_first = refl

returned_last : get_elem? (run hash same_order events initial).returned 2 ≡ some (of_key 1, 0)
unfolding run step begin after_look finish look_again create_missing dispose engine_id find assign
returned_last = refl

get_engine_iff_example : (◌≡◌ {A = ℕ} 0 0) ↔ (hash 7 ≡ hash 7)
get_engine_iff_example =
    get_engine_iff hash same_order events 0 2 (of_key 2) (of_key 1) 0 0 returned_first returned_last
