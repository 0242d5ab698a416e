-- ===== src/Tests/Sockets.antt =====
-- The theorems on sockets, the clock, the waiting loop and the options at concrete inputs.
use distributed_server_clien.Prelude.Int.{pos, negsuc}
use distributed_server_clien.Prelude.{
  ℕ, zero, suc, ◌==◌, ◌++◌, if◌then◌else◌, ◌≡◌, ◌≤◌, ◌<◌, ◌+◌, ◌*◌, ◌/◌, refl, true, false, List,
  [], ◌∷◌, Option, none, some, arith,
}
use distributed_server_clien.Tests.Data.{folder, new_name, new_name-NoNul}
use distributed_server_clien.Clock.{get_elapsed_time_timeval, is_timeout}
use distributed_server_clien.Clock.Remaining.{get_elapsed_time_timeval_full_second}
use distributed_server_clien.Socket.Inet.{InetSocket}
use distributed_server_clien.Socket.Tcp.{accept_scope}
use distributed_server_clien.Socket.Tcp.Ownership.{accept_scope_closes}
use distributed_server_clien.Options.{
  configured, ServerOptions, ServerConfiguration, ClientOptions, ClientConfiguration,
  parse_server_arguments, notify_server, port_out_of_range, server_timeout_out_of_range,
  parse_client_arguments,
}
use distributed_server_clien.Options.Bounds.{
  parse_server_arguments_bounds, parse_client_arguments_negative,
}
use distributed_server_clien.Protocol.{file_get_response}
use distributed_server_clien.Protocol.Message.{fill_command}
use distributed_server_clien.Words.{htobe64}
use distributed_server_clien.Socket.Udp.{recvfrom_complex}
use distributed_server_clien.Client.Replies.{Round, fetch_reply, receive_fetch_file_response}
use distributed_server_clien.Client.Replies.Acceptance.{fetch_reply-valid}
use distributed_server_clien.Client.Waiting.{Wait, turn, wait_loop}
use distributed_server_clien.Client.Waiting.Ends.{wait_loop_ends, wait_loop_fetch}

-- A socket with the members that an object may start with.
abbrev stale : InetSocket
stale = record { sock = 5; port = 0; closed = false }

accept_scope_closes_example :
    ((accept_scope false (some 7) (some 4000) stale stale (5 ∷ 3 ∷ [])).table ≡ 5 ∷ 3 ∷ [])
    × ((accept_scope false (some 7) (some 4000) stale stale (5 ∷ 3 ∷ [])).thrown ≡ none)
accept_scope_closes_example = accept_scope_closes false 7 4000 stale stale (5 ∷ 3 ∷ [])

get_elapsed_time_timeval_full_second_example :
    (sec : ℕ) × ((get_elapsed_time_timeval 2000000000 5).tv_sec ≡ pos sec)
    × ((get_elapsed_time_timeval 2000000000 5).tv_usec ≡ 1000000)
    × (sec * 1000000 + 2000000000 / 1000 ≡ 5 * 1000000)
unfolding is_timeout
get_elapsed_time_timeval_full_second_example =
    get_elapsed_time_timeval_full_second 2000000000 5 refl refl

-- The client waits one second, the clock is read every 200 milliseconds, and the reply comes in the
-- second turn.
abbrev answer : Round
answer = record {
  datagram = some (fill_command file_get_response ++ (htobe64 7 ++ (htobe64 4000 ++ new_name)));
  source_ip = [];
}

abbrev silence : Round
silence = record { datagram = none; source_ip = [] }

abbrev wait : Wait
wait = record {
  timeout = 1;
  clock = λ k. 200000000 * k;
  setsockopt = λ t. true;
  received = λ k. if k == 0 then silence else answer;
}

wait_ticks : (j : ℕ) → wait.clock j < wait.clock (j + 1)
wait_ticks j = omega arith

wait_loop_ends_example : (rounds : List Round) × (wait_loop 1000000001 wait 0 ≡ some rounds)
wait_loop_ends_example = wait_loop_ends wait wait_ticks 1000000000 0 (omega arith)

abbrev server_options : Option ServerOptions
server_options = some (record {
  help = false;
  mcast_addr = some folder;
  cmd_port = some (pos 10001);
  max_space = none;
  shared_folder = some folder;
  timeout = none;
})

abbrev server_configuration : ServerConfiguration
server_configuration = record {
  mcast_addr = folder;
  cmd_port = 10001;
  max_space = 52428800;
  shared_folder = folder;
  timeout = 5;
}

parse_server_arguments_bounds_example :
    (1 ≤ 10001)
    × (10001 ≤ 65535)
    × (1 ≤ server_configuration.timeout)
    × (server_configuration.timeout ≤ 300)
unfolding parse_server_arguments notify_server port_out_of_range server_timeout_out_of_range
parse_server_arguments_bounds_example =
    parse_server_arguments_bounds server_options server_configuration refl

abbrev client_options : ClientOptions
client_options = record {
  help = false;
  mcast_addr = some folder;
  cmd_port = some (pos 10001);
  out_folder = some folder;
  timeout = some (negsuc 0);
}

abbrev client_configuration : ClientConfiguration
client_configuration = record {
  mcast_addr = folder;
  cmd_port = 10001;
  out_folder = folder;
  timeout = 65535;
}

parse_client_arguments_negative_example :
    (c : ClientConfiguration) × (parse_client_arguments (some client_options) ≡ configured c)
    × (c.timeout ≡ 65535)
    × (300 ≤ c.timeout)
parse_client_arguments_negative_example =
    parse_client_arguments_negative client_options _ _ _ 0 refl refl refl refl refl (omega arith)
      (omega arith) (omega arith)

in_time : (i : ℕ) → i ≤ 1 → is_timeout (wait.clock (2 * (0 + i))) 1 ≡ false
unfolding is_timeout
in_time i le = ground arith

first_silent : (i : ℕ) → i < 1 → fetch_reply 7 new_name (turn wait (0 + i)).datagram ≡ none
unfolding turn fetch_reply recvfrom_complex
first_silent zero lt = refl
first_silent (suc i) lt = absurd (omega (arith, lt))

then_answer : fetch_reply 7 new_name (turn wait 1).datagram ≡ some 4000
unfolding turn
then_answer =
    fetch_reply-valid 7 (omega arith) new_name new_name-NoNul 4000 (omega arith) (omega arith)
      (omega arith)

wait_loop_fetch_example :
    (rounds : List Round) × (wait_loop 1000000001 wait 0 ≡ some rounds)
    × (receive_fetch_file_response 7 new_name rounds ≡ 4000)
wait_loop_fetch_example =
    wait_loop_fetch wait wait_ticks 7 new_name 4000 1 1000000000 0 (omega arith) in_time
      first_silent then_answer
