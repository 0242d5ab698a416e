-- ===== src/Clock/Remaining.antt =====
-- The time that is left.
use distributed_server_clien.Prelude.Int.{pos}
use distributed_server_clien.Prelude.{ℕ, ◌+◌, ◌-◌, ◌*◌, ◌/◌, ◌%◌, ◌<◌, ◌≡◌, ◌≢◌, false, arith}
use distributed_server_clien.Clock.{is_timeout, get_elapsed_time_timeval}

-- Before the timeout and not at a full second, in whole microseconds, the timeval is a proper one
-- and is exactly what is left of the timeout.
pub get_elapsed_time_timeval_remaining :
    (elapsed total : ℕ)
    → is_timeout elapsed total ≡ false
    → (elapsed / 1000) % 1000000 ≢ 0
    → (sec : ℕ) × ((get_elapsed_time_timeval elapsed total).tv_sec ≡ pos sec)
      × ((get_elapsed_time_timeval elapsed total).tv_usec < 1000000)
      × (sec * 1000000 + (get_elapsed_time_timeval elapsed total).tv_usec + elapsed / 1000
          ≡ total * 1000000)
unfolding is_timeout get_elapsed_time_timeval
get_elapsed_time_timeval_remaining elapsed total h k =
    (total - (elapsed / 1000 + 999999) / 1000000, ground arith, ground arith, ground arith)

-- Before the timeout and at a full second, in whole microseconds, the timeval has a million
-- microseconds, and its seconds alone are already what is left of the timeout.
pub get_elapsed_time_timeval_full_second :
    (elapsed total : ℕ)
    → is_timeout elapsed total ≡ false
    → (elapsed / 1000) % 1000000 ≡ 0
    → (sec : ℕ) × ((get_elapsed_time_timeval elapsed total).tv_sec ≡ pos sec)
      × ((get_elapsed_time_timeval elapsed total).tv_usec ≡ 1000000)
      × (sec * 1000000 + elapsed / 1000 ≡ total * 1000000)
unfolding is_timeout get_elapsed_time_timeval
get_elapsed_time_timeval_full_second elapsed total h k =
    (total - (elapsed / 1000 + 999999) / 1000000, ground arith, ground arith, ground arith)
