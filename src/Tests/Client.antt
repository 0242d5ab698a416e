-- ===== src/Tests/Client.antt =====
-- The theorems on the client at concrete inputs.
use distributed_server_clien.Prelude.Bytes.{Bytes, str_eq, codes}
use distributed_server_clien.Prelude.{
  ◌≡◌, refl, [], ◌∷◌, ◌++◌, Option, none, some, arith, if◌then◌else◌,
}
use distributed_server_clien.Tests.Data.{old_name, new_name, new_name-NoNul}
use distributed_server_clien.Words.{htobe64}
use distributed_server_clien.Protocol.{files_list_response}
use distributed_server_clien.Protocol.Message.{fill_command}
use distributed_server_clien.Server.FileSet.{has}
use distributed_server_clien.Client.Replies.{Round}
use distributed_server_clien.Protocol.{file_get_response}
use distributed_server_clien.Client.Replies.Acceptance.{search_reply-valid}
use distributed_server_clien.Client.Search.{receive_search_respond, receive_search_respond_last}
use distributed_server_clien.Client.Upload.{silent_discover_receive}
use distributed_server_clien.Client.Upload.Address.{last_source, silent_discover_receive-address}
use distributed_server_clien.Client.Commands.{
  read_user_command, dispatch, is_param_required, no_parameter_allowed, run_round,
}
use distributed_server_clien.Client.Commands.Rounds.{run_round-fetch}

abbrev first_ip : Bytes
first_ip = b'1' ∷ []

abbrev second_ip : Bytes
second_ip = b'2' ∷ []

-- A reply to search number 7.
abbrev listing : Round
listing = record {
  datagram = some (fill_command files_list_response ++ (htobe64 7 ++ new_name));
  source_ip = second_ip;
}

-- A datagram that is no reply.
abbrev noise : Round
noise = record { datagram = some (1 ∷ 2 ∷ []); source_ip = first_ip }

receive_search_respond_last_example :
    receive_search_respond (λ t. t ∷ []) 7 (λ f. none) (noise ∷ listing ∷ []) new_name ≡ (
      if has new_name (new_name ∷ [])
      then some second_ip
      else receive_search_respond (λ t. t ∷ []) 7 (λ f. none) (noise ∷ []) new_name)
receive_search_respond_last_example =
    receive_search_respond_last (λ t. t ∷ []) 7 (λ f. none) (noise ∷ []) listing new_name new_name
      (search_reply-valid 7 (omega arith) new_name new_name-NoNul (omega arith))

silent_discover_receive-address_example :
    (silent_discover_receive 7
      (record { servers = []; address = [] })
      (listing ∷ noise ∷ [])).address
    ≡ last_source [] (listing ∷ noise ∷ [])
silent_discover_receive-address_example =
    silent_discover_receive-address 7 (record { servers = []; address = [] }) (listing ∷ noise ∷ [])

abbrev results : Bytes → Option Bytes
results f = some first_ip

run_round-fetch_example : results old_name ≡ some first_ip
unfolding run_round read_user_command dispatch is_param_required no_parameter_allowed str_eq
run_round-fetch_example =
    run_round-fetch (λ t. t) results (codes "fetch" ∷ old_name ∷ []) old_name first_ip refl

-- A round that ends in a timeout.
abbrev silence : Round
silence = record { datagram = none; source_ip = first_ip }

abbrev fetch_answer : Round
fetch_answer = record {
  datagram = some (fill_command file_get_response ++ (htobe64 7 ++ (htobe64 4000 ++ new_name)));
  source_ip = second_ip;
}
