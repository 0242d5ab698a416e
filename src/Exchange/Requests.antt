-- ===== src/Exchange/Requests.antt =====
-- The requests of client/client.cpp as `Server::run` of server/server.cpp reads them.
use distributed_server_clien.Prelude.Bytes.{Bytes, NoNul}
use distributed_server_clien.Prelude.{
  ℕ, ◌+◌, ◌≤◌, ◌<◌, ◌^◌, ◌≡◌, ap, ◌∙◌, true, Option, some, [], arith, length,
}
use distributed_server_clien.Wire.{send_simple_lem, send_complex_lem}
use distributed_server_clien.Protocol.{
  discover_request, files_list_request, file_get_request, file_remove_request, file_add_request,
}
use distributed_server_clien.Client.Requests.{
  send_discover, send_search, send_fetch, send_remove, send_upload,
}
use distributed_server_clien.Socket.Udp.{send_simple_to, send_complex_to}
use distributed_server_clien.Server.Request.Decoding.{
  receive_discover, receive_files_list, receive_fetch, receive_remove, receive_upload,
}
use distributed_server_clien.Server.Request.{
  Request, upload, discover, files_list, fetch, remove, request, receive_request,
}

module _ (seq : ℕ) (small : seq < 2 ^ 64) where
  -- The server decodes the message that `discover` and `silent_discover` send, for a number of 64
  -- bits, as a discovery with that number.
  receive_request-send_discover :
      receive_request (send_discover true (some 18) seq) ≡ some (request (discover seq))
  unfolding send_discover send_simple_to
  receive_request-send_discover =
      ap receive_request (send_simple_lem seq discover_request [] (omega arith) tt (omega arith))
      ∙ receive_discover seq small

  module _ (name : Bytes) (plain : NoNul name) where
    -- The server decodes the message that `search` sends, for a number of 64 bits and a pattern
    -- without NUL of at most 65489 bytes, the empty one included, as a request for the list of
    -- files with that number and pattern.
    receive_request-send_search :
        length name ≤ 65489
        → receive_request (send_search true (some (18 + length name)) seq name)
          ≡ some (request (files_list seq name))
    unfolding send_search send_simple_to
    receive_request-send_search room =
        ap receive_request (send_simple_lem seq files_list_request name (omega arith) plain room)
        ∙ receive_files_list seq small name plain room

    module _ (named : 0 < length name) where
      -- The server decodes the message that `fetch` sends, for a number of 64 bits and a name
      -- without NUL that is not empty and has at most 65489 bytes, as a fetch request with that
      -- number and name.
      receive_request-send_fetch :
          length name ≤ 65489
          → receive_request (send_fetch true (some (18 + length name)) seq name)
            ≡ some (request (fetch seq name))
      unfolding send_fetch send_simple_to
      receive_request-send_fetch room =
          ap receive_request (send_simple_lem seq file_get_request name (omega arith) plain room)
          ∙ receive_fetch seq small name plain room named

      -- The server decodes the message that the client's `remove` sends, for a number of 64 bits
      -- and a name without NUL that is not empty and has at most 65489 bytes, as a removal of that
      -- name.
      receive_request-send_remove :
          length name ≤ 65489
          → receive_request (send_remove true (some (18 + length name)) seq name)
            ≡ some (request (remove name))
      unfolding send_remove send_simple_to
      receive_request-send_remove room =
          ap receive_request (send_simple_lem seq file_remove_request name (omega arith) plain room)
          ∙ receive_remove seq small name plain room named

    -- The server decodes the message that `can_upload_file` sends, for a number and a size of 64
    -- bits and a name without NUL of at most 65481 bytes, as an upload request with that number,
    -- name and size.
    receive_request-send_upload :
        (size : ℕ)
        → size < 2 ^ 64
        → length name ≤ 65481
        → receive_request (send_upload true (some (26 + length name)) seq name size)
          ≡ some (request (upload seq name size))
    unfolding send_upload send_complex_to
    receive_request-send_upload size h room =
        ap receive_request
          (send_complex_lem seq file_add_request name (omega arith) plain size room)
        ∙ receive_upload seq small name plain (omega arith) size h room

-- The message that the client sends to ask for `r`, with `seq` where the request of the server
-- keeps no number.
abbrev pub datagram_of : ℕ → Request → Option Bytes
datagram_of seq (upload message_seq f size) =
    send_upload true (some (26 + length f)) message_seq f size
datagram_of seq (discover message_seq) = send_discover true (some 18) message_seq
datagram_of seq (files_list message_seq pattern) =
    send_search true (some (18 + length pattern)) message_seq pattern
datagram_of seq (fetch message_seq f) = send_fetch true (some (18 + length f)) message_seq f
datagram_of seq (remove f) = send_remove true (some (18 + length f)) seq f

abbrev pub IsSendable : Request → Type 0
IsSendable (upload seq f size) = (seq < 2 ^ 64) × NoNul f × (size < 2 ^ 64) × (length f ≤ 65481)
IsSendable (discover seq) = seq < 2 ^ 64
IsSendable (files_list seq pattern) = (seq < 2 ^ 64) × NoNul pattern × (length pattern ≤ 65489)
IsSendable (fetch seq f) = (seq < 2 ^ 64) × NoNul f × (0 < length f) × (length f ≤ 65489)
IsSendable (remove f) = NoNul f × (0 < length f) × (length f ≤ 65489)

-- The server decodes the message that the client sends for each of its five commands as the request
-- for that command, with the number, the name or pattern and the size that were sent. The
-- conditions are numbers and a size of 64 bits, and a name or pattern without NUL of at most 65489
-- bytes, or 65481 for an upload; the name of a fetch or a removal is not empty.
pub receive_request-datagram_of :
    (seq : ℕ) (r : Request)
    → seq < 2 ^ 64
    → IsSendable r
    → receive_request (datagram_of seq r) ≡ some (request r)
receive_request-datagram_of seq (upload message_seq f size) h (small, plain, size_small, room) =
    receive_request-send_upload message_seq small f plain size size_small room
receive_request-datagram_of seq (discover message_seq) h small =
    receive_request-send_discover message_seq small
receive_request-datagram_of seq (files_list message_seq pattern) h (small, plain, room) =
    receive_request-send_search message_seq small pattern plain room
receive_request-datagram_of seq (fetch message_seq f) h (small, plain, named, room) =
    receive_request-send_fetch message_seq small f plain named room
receive_request-datagram_of seq (remove f) h (plain, named, room) =
    receive_request-send_remove seq h f plain named room
