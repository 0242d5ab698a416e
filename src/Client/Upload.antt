-- ===== src/Client/Upload.antt =====
-- The upload procedure of the client (client/client.cpp): `silent_discover_receive`,
-- `at_least_on_server_has_space`, `can_upload_file` and `upload`. A ServerData keeps the pointer that
-- `inet_ntoa` returned. That is one static buffer, which each call writes again, so the address is
-- read from the state of that buffer, not from the ServerData; `unpack_sockaddr` calls `inet_ntoa`
-- for every datagram that is received.
pub mod Address
use distributed_server_clien.Prelude.Bytes.{Bytes}
use distributed_server_clien.Prelude.{
  ℕ, ◌+◌, Bool, true, false, not, ◌||◌, List, [], ◌∷◌, ◌++◌, Option, none, some, leb, if◌then◌else◌,
}
use distributed_server_clien.Words.{be64toh}
use distributed_server_clien.Client.Requests.{send_upload}
use distributed_server_clien.Client.Replies.{
  Round, discover_reply, upload_reply, receive_upload_file_response,
}

pub record ServerData : Type 0 where
  pub available_space : ℕ

-- The servers found so far, and what lies in the buffer of `inet_ntoa`.
pub record Found : Type 0 where
  pub servers : List ServerData
  pub address : Bytes

-- One turn of the loop of `silent_discover_receive`.
unfoldable pub discover_round : ℕ → Found → Round → Found
discover_round expected_seq found r = elim r.datagram [
  | none ↦ found
  | some datagram ↦ elim (discover_reply expected_seq (some datagram)) [
    | none ↦ record found { address = r.source_ip }
    | some (text, space) ↦ record {
      servers = found.servers ++ record { available_space = space } ∷ [];
      address = r.source_ip;
    }
  ]
]

unfoldable pub silent_discover_receive : ℕ → Found → List Round → Found
silent_discover_receive expected_seq found [] = found
silent_discover_receive expected_seq found (r ∷ rs) =
    silent_discover_receive expected_seq (discover_round expected_seq found r) rs

unfoldable pub at_least_on_server_has_space : List ServerData → ℕ → Bool
at_least_on_server_has_space [] space_required = false
at_least_on_server_has_space (s ∷ ss) space_required = leb space_required s.available_space

-- The buffer of `inet_ntoa` behind `receive_upload_file_response`: only the handler of
-- `invalid_message` unpacks the address.
unfoldable pub address_after : ℕ → Bytes → Bytes → List Round → Bytes
address_after expected_seq filename address [] = address
address_after expected_seq filename address (r ∷ rs) =
    let after_timeout = address_after expected_seq filename address rs in
    let after_invalid = address_after expected_seq filename r.source_ip rs in
    elim r.datagram [
      | none ↦ after_timeout
      | some datagram ↦ elim (upload_reply expected_seq filename (some datagram)) [
        | none ↦ after_invalid
        | some answer ↦ address
      ]
    ]

-- What surrounds one call of `can_upload_file`: the number of the message, whether `inet_aton` takes
-- an address, what ::sendto returns, and the rounds that follow on a datagram sent to an address.
pub record Attempt : Type 0 where
  pub message_seq : ℕ
  pub inet_aton : Bytes → Bool
  pub sendto : Option ℕ
  pub rounds : Bytes → Bytes → List Round

pub record Answer : Type 0 where
  pub port : ℕ
  pub is_approval : Bool
  pub address : Bytes

unfoldable pub can_upload_file : Attempt → Bytes → Bytes → ℕ → Answer
can_upload_file a address filename file_size =
    elim (send_upload (a.inet_aton address) a.sendto a.message_seq filename file_size) [
      | none ↦ record { port = 0; is_approval = false; address = address }
      | some datagram ↦
          let rounds = a.rounds address datagram in
          let (port, is_approval) = receive_upload_file_response a.message_seq filename rounds in
          record {
            port = port;
            is_approval = is_approval;
            address = address_after a.message_seq filename address rounds;
          }
    ]

-- The loop over the servers, the k-th attempt being the next one: where to upload to, if one server
-- approves. A ServerData says nothing of where the request goes.
unfoldable pub offer : (ℕ → Attempt) → ℕ → Bytes → List ServerData → Bytes → ℕ → Option (Bytes × ℕ)
offer attempts k address [] filename file_size = none
offer attempts k address (s ∷ ss) filename file_size =
    let a = can_upload_file (attempts k) address filename file_size in
    let rest = offer attempts (k + 1) a.address ss filename file_size in
    if a.is_approval then some (a.address, a.port) else rest

pub data Upload : Type 0 where
  file_not_exist file_too_big no_socket : Upload
  upload_to : (server_ip : Bytes) (server_port : ℕ) → Upload

abbrev pub offered : Option (Bytes × ℕ) → Upload
offered none = file_too_big
offered (some (server_ip, server_port)) = upload_to server_ip server_port

-- `upload`: whether the path exists and is a regular file, what the discovery found, and whether the
-- socket is made.
unfoldable pub upload : Bool → Bool → Found → Bool → (ℕ → Attempt) → Bytes → ℕ → Upload
upload exists is_regular_file found socket attempts filename file_size =
    if not exists || not is_regular_file
    then file_not_exist
    else if at_least_on_server_has_space found.servers file_size
    then (if socket
        then offered (offer attempts 0 found.address found.servers filename file_size)
        else no_socket)
    else file_too_big
