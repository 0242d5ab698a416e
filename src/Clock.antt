-- ===== src/Clock.antt =====
-- The clock of utilities/helper.h: `is_timeout` and `get_elapsed_time_timeval`. A reading is the
-- number of nanoseconds since the start, as steady_clock counts them; the doubles of the code are
-- exact for the timeouts of a uint16_t, so that they stand for the numbers themselves.
pub mod Remaining
use distributed_server_clien.Prelude.Int.{ℤ, sub_ℕ}
use distributed_server_clien.Prelude.{ℕ, ◌+◌, ◌-◌, ◌*◌, ◌/◌, ◌%◌, Bool, leb}

-- `elapsed_time.count() / 1000 >= timeout`.
unfoldable pub is_timeout : ℕ → ℕ → Bool
is_timeout elapsed timeout = leb (timeout * 1000000000) elapsed

pub record Timeval : Type 0 where
  pub tv_sec : ℤ
  pub tv_usec : ℕ

-- The quotient is rounded up, by `ceil`.
unfoldable pub get_elapsed_time_timeval : ℕ → ℕ → Timeval
get_elapsed_time_timeval elapsed total_time =
    let microseconds_passed = elapsed / 1000 in
    record {
      tv_sec = sub_ℕ total_time ((microseconds_passed + 999999) / 1000000);
      tv_usec = 1000000 - microseconds_passed % 1000000;
    }
