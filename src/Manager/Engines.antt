-- ===== src/Manager/Engines.antt =====
-- `SubscriptionManager`. Engines are objects with a number, and so are the types of keys and the
-- lists of argument types.
use cpp_jam.Common.{
  ℕ, suc, Bool, true, false, List, [], ◌∷◌, Option, none, some, if◌then◌else◌, ◌==◌, map,
}
use cpp_jam.Common.Maps.{find, assign}

-- `disposals` are the calls of `dispose`, of engines and, as none, of the dispatcher, the last one first.
pub record Manager : Type 0 where
  pub engines : List (ℕ × ℕ)
  pub next_object : ℕ
  pub disposed : Bool
  pub disposals : List (Option ℕ)

-- The template's arguments.
pub record Request : Type 0 where
  pub event_key : ℕ
  pub args : ℕ

-- `hash` is that of the text that names the function and its template arguments.
unfoldable pub engine_id : (ℕ → ℕ) → Request → ℕ
engine_id hash r = hash r.args

unfoldable pub create_missing : ℕ → Manager → Option ℕ → ℕ × Manager
create_missing id m (some it) = (it, m)
create_missing id m none = (
  m.next_object,
  record m { engines = assign id m.next_object m.engines; next_object = suc m.next_object },
)

-- What `getEngine` does under the lock that is not shared.
unfoldable pub look_again : ℕ → Manager → ℕ × Manager
look_again id m = create_missing id m (find id m.engines)

-- The engine whose `notifyDelayed` is called, if there is one.
unfoldable pub engine_to_notify : (ℕ → ℕ) → Request → Manager → Option ℕ
engine_to_notify hash r m = find (engine_id hash r) m.engines

-- The engines are walked in an order that the code does not fix: `arrange` gives it.
unfoldable pub dispose : (List ℕ → List ℕ) → Manager → Manager
dispose arrange m = if m.disposed then m else record m {
  disposed = true;
  disposals = none ∷ map some (arrange (map (λ p. p.1) m.engines));
}

-- Threads with their calls of `getEngine`: a request that was not found under the shared lock waits
-- for the other one. `returned` are the engines that were returned, the last one first.
pub record World : Type 0 where
  pub manager : Manager
  pub waiting : ℕ → Option Request
  pub returned : List (Request × ℕ)

abbrev pub update : ℕ → Option Request → (ℕ → Option Request) → ℕ → Option Request
update tid v f x = if tid == x then v else f x

unfoldable pub after_look : ℕ → Request → World → Option ℕ → World
after_look tid r w (some it) = record w { returned = (r, it) ∷ w.returned }
after_look tid r w none = record w { waiting = update tid (some r) w.waiting }

-- The thread `tid` begins a call, unless it is in one.
unfoldable pub begin : (ℕ → ℕ) → ℕ → Request → World → Option Request → World
begin hash tid r w (some r') = w
begin hash tid r w none = after_look tid r w (find (engine_id hash r) w.manager.engines)

unfoldable pub finish : (ℕ → ℕ) → ℕ → World → Option Request → World
finish hash tid w none = w
finish hash tid w (some r) =
    let result = look_again (engine_id hash r) w.manager in
    record w {
      manager = result.1;
      waiting = update tid none w.waiting;
      returned = (r, result.0) ∷ w.returned;
    }

pub data Event : Type 0 where
  begins : (tid : ℕ) → Request → Event
  finishes : (tid : ℕ) → Event
  disposes : Event

module _ (hash : ℕ → ℕ) (arrange : List ℕ → List ℕ) where
  unfoldable pub step : Event → World → World
  step (begins tid r) w = begin hash tid r w (w.waiting tid)
  step (finishes tid) w = finish hash tid w (w.waiting tid)
  step disposes w = record w { manager = dispose arrange w.manager }

  unfoldable pub run : List Event → World → World
  run [] w = w
  run (e ∷ es) w = run es (step e w)

abbrev pub initial : World
initial = record {
  manager = record { engines = []; next_object = 0; disposed = false; disposals = [] };
  waiting = λ tid. none;
  returned = [];
}
