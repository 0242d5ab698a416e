-- ===== src/Client/Replies.antt =====
-- The loops of client/client.cpp that wait for replies. A round is what one turn of the loop gets
-- from the socket, `none` if it throws socket_failure, which a timeout of the socket does too; the
-- list ends where `is_timeout` ends the loop. So each loop is a recursion on its rounds.
pub mod Acceptance
pub mod Loops
use distributed_server_clien.Prelude.Bytes.{Bytes, c_str}
use distributed_server_clien.Prelude.{
  ℕ, Bool, true, false, List, [], ◌∷◌, ◌++◌, Option, none, some, leb, if◌then◌else◌,
}
use distributed_server_clien.Words.{u16, be64toh}
use distributed_server_clien.Protocol.Texts.{is_expected_command}
use distributed_server_clien.Protocol.Message.{ComplexMessage, as_simple}
use distributed_server_clien.Protocol.Validation.{
  Checked, valid, invalid, validate_complex, validate_simple,
}
use distributed_server_clien.Protocol.{
  discover_response, files_list_response, file_get_response, file_add_acceptance, file_add_refusal,
}
use distributed_server_clien.Socket.Udp.{recvfrom_complex, recvfrom_simple}

pub record Round : Type 0 where
  pub datagram : Option Bytes
  pub source_ip : Bytes

-- One turn of `receive_fetch_file_response`: the port if it returns.
unfoldable pub fetch_reply : ℕ → Bytes → Option Bytes → Option ℕ
fetch_reply expected_seq filename datagram = elim (recvfrom_complex datagram) [
  | none ↦ none
  | some (m, n) ↦ elim (validate_complex m expected_seq file_get_response n filename) [
    | valid ↦ some (u16 (be64toh m.param))
    | invalid reason ↦ none
  ]
]

unfoldable pub receive_fetch_file_response : ℕ → Bytes → List Round → ℕ
receive_fetch_file_response expected_seq filename [] = 0
receive_fetch_file_response expected_seq filename (r ∷ rs) =
    let rest = receive_fetch_file_response expected_seq filename rs in
    elim (fetch_reply expected_seq filename r.datagram) [ none ↦ rest | some port ↦ port ]

-- One turn of `receive_upload_file_response`. The acceptance is not held against the name of the
-- file; the port of a refusal is what lies there in the ComplexMessage.
unfoldable pub judge_upload : ComplexMessage → ℕ → ℕ → Bytes → Option (ℕ × Bool)
judge_upload m n expected_seq filename =
    if is_expected_command m.command file_add_acceptance
    then elim (validate_complex m expected_seq file_add_acceptance n []) [
      | valid ↦ some (u16 (be64toh m.param), true)
      | invalid reason ↦ none
    ]
    else elim (validate_simple (as_simple m) expected_seq file_add_refusal n filename) [
      | valid ↦ some (u16 (be64toh m.param), false)
      | invalid reason ↦ none
    ]

unfoldable pub upload_reply : ℕ → Bytes → Option Bytes → Option (ℕ × Bool)
upload_reply expected_seq filename datagram = elim (recvfrom_complex datagram) [
  | none ↦ none
  | some (m, n) ↦ judge_upload m n expected_seq filename
]

unfoldable pub receive_upload_file_response : ℕ → Bytes → List Round → ℕ × Bool
receive_upload_file_response expected_seq filename [] = (0, false)
receive_upload_file_response expected_seq filename (r ∷ rs) =
    let rest = receive_upload_file_response expected_seq filename rs in
    elim (upload_reply expected_seq filename r.datagram) [ none ↦ rest | some answer ↦ answer ]

-- What `receive_discover_response` prints of a reply: the text and the space.
unfoldable pub discover_reply : ℕ → Option Bytes → Option (Bytes × ℕ)
discover_reply expected_seq datagram = elim (recvfrom_complex datagram) [
  | none ↦ none
  | some (m, n) ↦ elim (validate_complex m expected_seq discover_response n []) [
    | valid ↦ some (c_str m.text, be64toh m.param)
    | invalid reason ↦ none
  ]
]

pub record Discovery : Type 0 where
  pub server_ip : Bytes
  pub multicast_address : Bytes
  pub space : ℕ

unfoldable pub receive_discover_response : ℕ → List Round → List Discovery
receive_discover_response expected_seq [] = []
receive_discover_response expected_seq (r ∷ rs) =
    let rest = receive_discover_response expected_seq rs in
    elim (discover_reply expected_seq r.datagram) [
      | none ↦ rest
      | some (text, space) ↦
          record { server_ip = r.source_ip; multicast_address = text; space = space } ∷ rest
    ]

-- One turn of `receive_search_respond`: the text of a valid reply.
unfoldable pub search_reply : ℕ → Option Bytes → Option Bytes
search_reply expected_seq datagram = elim (recvfrom_simple datagram) [
  | none ↦ none
  | some (m, n) ↦ elim (validate_simple m expected_seq files_list_response n []) [
    | valid ↦ some (c_str m.text)
    | invalid reason ↦ none
  ]
]
