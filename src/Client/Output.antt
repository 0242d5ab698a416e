-- ===== src/Client/Output.antt =====
-- What the loops of `Client::receive_search_respond` and `Client::receive_discover_response`
-- (client/client.cpp) write. A round has no port, and a test of a message has no text here, so the
-- port of a round's sender and the text of its error are parameters.
use distributed_server_clien.Prelude.Bytes.{Bytes}
use distributed_server_clien.Prelude.{ℕ, List, [], ◌∷◌, ◌++◌, none, some}
use distributed_server_clien.Client.Replies.{Round, search_reply, discover_reply}
use distributed_server_clien.Logger.{Line, display_files_list, server_discovery, package_skipping}

module _ (format : Bytes → List Bytes → Bytes) (to_text : ℕ → Bytes) (source_port : Round → ℕ)
    (reason : Round → Bytes) where
  -- The lines for a message that is not valid.
  abbrev pub skipping : Round → List Line
  skipping r = package_skipping format to_text r.source_ip (source_port r) (reason r)

  unfoldable pub search_round_output : (Bytes → List Bytes) → ℕ → Round → List Line
  search_round_output split expected_seq r = elim r.datagram [
    | none ↦ []
    | some datagram ↦ elim (search_reply expected_seq (some datagram)) [
      | none ↦ skipping r
      | some text ↦ display_files_list format to_text (split text) r.source_ip
    ]
  ]

  unfoldable pub search_output : (Bytes → List Bytes) → ℕ → List Round → List Line
  search_output split expected_seq [] = []
  search_output split expected_seq (r ∷ rs) =
      search_round_output split expected_seq r ++ search_output split expected_seq rs

  unfoldable pub discover_round_output : ℕ → Round → List Line
  discover_round_output expected_seq r = elim r.datagram [
    | none ↦ []
    | some datagram ↦ elim (discover_reply expected_seq (some datagram)) [
      | none ↦ skipping r
      | some (text, space) ↦ server_discovery format to_text r.source_ip text space
    ]
  ]

  unfoldable pub discover_output : ℕ → List Round → List Line
  discover_output expected_seq [] = []
  discover_output expected_seq (r ∷ rs) =
      discover_round_output expected_seq r ++ discover_output expected_seq rs
