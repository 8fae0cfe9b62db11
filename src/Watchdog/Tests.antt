-- ===== src/Watchdog/Tests.antt =====
-- A watchdog with two threads, and the theorems at it.
use cpp_jam.Common.{◌≡◌, ◌↔◌, refl, false, [], ◌∷◌, ◌++◌, none, some, ◌==◌, if◌then◌else◌, arith}
use cpp_jam.Common.Maps.{find}
use cpp_jam.Watchdog.Threads.{Watchdog, check, check_threads, check_thread, keep, with_threads}
use cpp_jam.Watchdog.Alarms.{HasSilent, check_iff}
use cpp_jam.Watchdog.Events.{pinged, joined, checked, run, IsWatched}
use cpp_jam.Watchdog.Runs.{silence_is_reported}

-- Thread 7 has the counter 0 with two pings, seen at 50; thread 8 has the counter 1 and no `Ping`.
abbrev watchdog : Watchdog
watchdog = record {
  threads =
      (7, record { last_time = 50; last_count = 2; count = 0 })
      ∷ (8, record { last_time = 1; last_count = 0; count = 1 })
      ∷ [];
  counts = λ o. if o == 0 then 2 else 0;
  pings = λ o. if o == 0 then 1 else 0;
  next_object = 2;
  stopped = false;
}

watchdog-IsWatched : IsWatched 7 0 50 watchdog
unfolding find
watchdog-IsWatched = record {
  thread = _;
  there = refl;
  shared = refl;
  seen = refl;
  before = omega arith;
  owned = omega arith;
  old = omega arith;
}

check_iff_example : (check 10 61 watchdog ≡ none) ↔ HasSilent 10 61 watchdog watchdog.threads
check_iff_example = check_iff 10 61 watchdog

-- Not yet at 60: the thread that has no `Ping` is taken out.
in_time :
    check 10 60 watchdog
    ≡ some (record watchdog {
      threads = (7, record { last_time = 50; last_count = 2; count = 0 }) ∷ [];
    })
unfolding check check_threads check_thread keep with_threads
in_time = refl

-- Another thread joins and shows that it goes on.
silence_is_reported_example :
    run 10 ((joined 9 52 ∷ pinged 2 ∷ checked 55 ∷ []) ++ checked 61 ∷ []) (some watchdog) ≡ none
silence_is_reported_example =
    silence_is_reported 10 7 0 50 61 (joined 9 52 ∷ pinged 2 ∷ checked 55 ∷ []) watchdog
      watchdog-IsWatched (refl, (refl, (refl, tt))) (omega arith)
