-- ===== src/Watchdog/Runs.antt =====
-- A thread that stops is reported.
use cpp_jam.Common.{ℕ, ◌+◌, ◌<◌, ◌≡◌, refl, ap, true, List, [], ◌∷◌, ◌++◌, Option, none, some, All}
use cpp_jam.Watchdog.Threads.{Watchdog}
use cpp_jam.Watchdog.Events.{
  Event, checked, step, run, is_quiet, IsWatched, step-IsWatched, late_check,
}

run_aborted : (timeout : ℕ) (es : List Event) → run timeout es none ≡ none
unfolding run
run_aborted timeout [] = refl
run_aborted timeout (e ∷ es) = refl

-- A thread that stops to show that it goes on is reported: whatever other threads do and whatever checks come in between, a check that comes later than
-- the timeout after the thread's last sign of life was seen aborts, if none has before.
pub silence_is_reported :
    (timeout tid o since now : ℕ) (es : List Event) (w : Watchdog)
    → IsWatched tid o since w
    → All (λ e. is_quiet o e ≡ true) es
    → since + timeout < now
    → run timeout (es ++ checked now ∷ []) (some w) ≡ none
unfolding run step
silence_is_reported timeout tid o since now [] w watched quiet late =
    ap (run timeout []) (late_check w watched timeout now late)
silence_is_reported timeout tid o since now (e ∷ es) w watched quiet late =
    by_step (step timeout e w) refl
      (λ w' watched'. silence_is_reported timeout tid o since now es w' watched' quiet.1 late)
  where
    by_step :
        (r : Option Watchdog)
        → step timeout e w ≡ r
        → ((w' : Watchdog)
            → IsWatched tid o since w'
            → run timeout (es ++ checked now ∷ []) (some w') ≡ none)
        → run timeout (es ++ checked now ∷ []) r ≡ none
    by_step none h rest = run_aborted timeout (es ++ checked now ∷ [])
    by_step (some w') h rest = rest w' (step-IsWatched w watched timeout e w' quiet.0 h)
