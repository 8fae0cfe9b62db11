-- ===== src/Watchdog/Threads.antt =====
-- `Watchdog`. Times are counts of the clock's ticks. A counter is an object with a number, shared by the
-- watchdog's entry and the `Ping`s of the thread.
use cpp_jam.Common.{
  ℕ, suc, ◌-◌, ◌%◌, ◌^◌, Bool, true, List, [], ◌∷◌, Option, none, some, if◌then◌else◌, ◌==◌, ltb,
  not,
}
use cpp_jam.Common.Maps.{find, assign}

pub record Thread : Type 0 where
  pub last_time : ℕ
  pub last_count : ℕ
  pub count : ℕ

-- `counts` gives the counters' values, of 32 bits, and `pings` how many `Ping`s share a counter.
pub record Watchdog : Type 0 where
  pub threads : List (ℕ × Thread)
  pub counts : ℕ → ℕ
  pub pings : ℕ → ℕ
  pub next_object : ℕ
  pub stopped : Bool

abbrev pub update : ℕ → ℕ → (ℕ → ℕ) → ℕ → ℕ
update o v f x = if o == x then v else f x

-- `Ping::operator()`.
unfoldable pub ping : ℕ → Watchdog → Watchdog
ping o w = record w { counts = update o (suc (w.counts o) % 2 ^ 32) w.counts }

-- A `Ping` is copied, or destroyed.
unfoldable pub copy_ping : ℕ → Watchdog → Watchdog
copy_ping o w = record w { pings = update o (suc (w.pings o)) w.pings }

unfoldable pub drop_ping : ℕ → Watchdog → Watchdog
drop_ping o w = record w { pings = update o (w.pings o - 1) w.pings }

unfoldable pub add_found : ℕ → ℕ → Watchdog → Option Thread → ℕ × Watchdog
add_found tid now w (some t) = (t.count, copy_ping t.count w)
add_found tid now w none =
    let o = w.next_object in
    (
      o,
      record w {
        threads = assign tid (record { last_time = now; last_count = 0; count = o }) w.threads;
        counts = update o 0 w.counts;
        pings = update o 1 w.pings;
        next_object = suc o;
      },
    )

-- `add()` in the thread `tid`: the counter of the `Ping`, and the watchdog.
unfoldable pub add : ℕ → ℕ → Watchdog → ℕ × Watchdog
add tid now w = add_found tid now w (find tid w.threads)

-- `use_count() == 1`: only the watchdog has the counter.
abbrev pub is_left : Watchdog → Thread → Bool
is_left w t = w.pings t.count == 0

-- One thread that is not left: it goes on, or `abort` is called, which is none.
unfoldable pub check_thread : ℕ → ℕ → ℕ → Thread → Option Thread
check_thread timeout now count t =
    if not (t.last_count == count)
    then some (record t { last_count = count; last_time = now })
    else if ltb timeout (now - t.last_time)
    then none
    else some t

unfoldable pub keep : ℕ → Option Thread → Option (List (ℕ × Thread)) → Option (List (ℕ × Thread))
keep tid none rest = none
keep tid (some t) none = none
keep tid (some t) (some ts) = some ((tid, t) ∷ ts)

-- The loop over the threads.
unfoldable pub check_threads : ℕ → ℕ → Watchdog → List (ℕ × Thread) → Option (List (ℕ × Thread))
check_threads timeout now w [] = some []
check_threads timeout now w (p ∷ ps) =
    let rest = check_threads timeout now w ps in
    if is_left w p.1
    then rest
    else keep p.0 (check_thread timeout now (w.counts p.1.count) p.1) rest

unfoldable pub with_threads : Watchdog → Option (List (ℕ × Thread)) → Option Watchdog
with_threads w none = none
with_threads w (some ts) = some (record w { threads = ts })

unfoldable pub check : ℕ → ℕ → Watchdog → Option Watchdog
check timeout now w = with_threads w (check_threads timeout now w w.threads)

unfoldable pub stop : Watchdog → Watchdog
stop w = record w { stopped = true }
