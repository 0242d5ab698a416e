-- ===== src/Client/Waiting.antt =====
-- The loop around every wait for a reply (client/client.cpp): `while (!is_timeout(...))`, then
-- `set_timeout(get_elapsed_time_timeval(...))`, which may throw, and a receive.
pub mod Ends
use distributed_server_clien.Prelude.Bytes.{Bytes}
use distributed_server_clien.Prelude.{
  ℕ, zero, suc, ◌+◌, ◌*◌, Bool, List, [], ◌∷◌, Option, none, some, if◌then◌else◌,
}
use distributed_server_clien.Clock.{is_timeout, Timeval, get_elapsed_time_timeval}
use distributed_server_clien.Client.Replies.{Round}

-- What surrounds a wait: the readings of the clock, two for each turn, what setsockopt says to a
-- timeout, and what the receive of each turn brings.
pub record Wait : Type 0 where
  pub timeout : ℕ
  pub clock : ℕ → ℕ
  pub setsockopt : Timeval → Bool
  pub received : ℕ → Round

-- One turn, up to the end of its `try`.
unfoldable pub turn : Wait → ℕ → Round
turn w k =
    if w.setsockopt (get_elapsed_time_timeval (w.clock (2 * k + 1)) w.timeout)
    then w.received k
    else record { datagram = none; source_ip = [] }

abbrev pub add_round : Round → Option (List Round) → Option (List Round)
add_round r none = none
add_round r (some rs) = some (r ∷ rs)

-- The rounds from the k-th turn on; `none` means that the fuel ran out.
unfoldable pub wait_loop : ℕ → Wait → ℕ → Option (List Round)
wait_loop zero w k = none
wait_loop (suc fuel) w k =
    let more = wait_loop fuel w (k + 1) in
    if is_timeout (w.clock (2 * k)) w.timeout then some [] else add_round (turn w k) more
