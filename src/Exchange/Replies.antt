-- ===== src/Exchange/Replies.antt =====
-- The replies of server/server.cpp as the loops of client/client.cpp read them.
pub mod Refusal
pub mod Listing
use distributed_server_clien.Prelude.Bytes.{Bytes, NoNul}
use distributed_server_clien.Prelude.{
  ℕ, ◌+◌, ◌-◌, ◌≤◌, ◌<◌, ◌^◌, ◌≡◌, ap, ◌∙◌, true, Option, some, ◌++◌, arith, length,
}
use distributed_server_clien.Words.{htobe64}
use distributed_server_clien.Wire.{send_complex_lem}
use distributed_server_clien.Protocol.{discover_response, file_get_response}
use distributed_server_clien.Protocol.Message.{complex_message, fill_command}
use distributed_server_clien.Socket.Udp.{send_complex}
use distributed_server_clien.Client.Replies.Acceptance.{discover_reply-valid, fetch_reply-valid}
use distributed_server_clien.Client.Replies.{discover_reply, fetch_reply}
use distributed_server_clien.Server.FileSystem.{FileSystem}
use distributed_server_clien.Server.Storage.{Storage, get_available_space}
use distributed_server_clien.Server.Discover.{handle_discover_request}
use distributed_server_clien.Server.Upload.{Node}
use distributed_server_clien.Server.Download.Chunks.{handle_file_request-send_file_via_tcp}
use distributed_server_clien.Server.Download.{DownloadNet, handle_file_request}

send_complex_reply :
    (seq : ℕ) (command text : Bytes) (param : ℕ) (sent : Option ℕ)
    → length command ≤ 10
    → NoNul text
    → length text ≤ 65481
    → sent ≡ some (26 + length text)
    → send_complex sent (complex_message (htobe64 seq) command text (htobe64 param)) (length text)
      ≡ some (fill_command command ++ (htobe64 seq ++ (htobe64 param ++ text)))
send_complex_reply seq command text param sent fits plain room e =
    ap
      (λ (n : Option ℕ).
        send_complex n (complex_message (htobe64 seq) command text (htobe64 param)) (length text))
      e
    ∙ send_complex_lem seq command text fits plain param room

get_available_space_small :
    (s : Storage) → s.max_available_space < 2 ^ 64 → get_available_space s < 2 ^ 64
unfolding get_available_space
get_available_space_small s m = ground arith

-- From the reply of a server to a discovery, if it is sent, the client reads under the number of
-- its request the multicast address and the available space of the server. The conditions are a
-- number and a `max_available_space` of 64 bits, and an address without NUL of at most 65481 bytes.
pub discover_reply-handle_discover_request :
    (sendto : ℕ → Option ℕ) (address : Bytes) (s : Storage) (seq : ℕ)
    → seq < 2 ^ 64
    → NoNul address
    → length address ≤ 65481
    → s.max_available_space < 2 ^ 64
    → sendto (26 + length address) ≡ some (26 + length address)
    → discover_reply seq (handle_discover_request sendto address s seq)
      ≡ some (address, get_available_space s)
unfolding handle_discover_request
discover_reply-handle_discover_request sendto address s seq small plain room m sent =
    ap (discover_reply seq) (
      send_complex_reply seq discover_response address (get_available_space s)
        (sendto (26 + length address)) (omega arith) plain room sent)
    ∙ discover_reply-valid seq small address plain (get_available_space s)
        (get_available_space_small s m) room

-- From the reply of a server to a fetch, if the listening socket is set up and the reply is sent,
-- the client reads under the number and the name of its request the port, for a number of 64 bits,
-- a name without NUL of at most 65481 bytes, and a port of 16 bits that is not 0.
pub fetch_reply-handle_file_request :
    (fs : FileSystem) (net : DownloadNet) (node : Node fs.Disk) (seq : ℕ) (f : Bytes)
    → seq < 2 ^ 64
    → NoNul f
    → length f ≤ 65481
    → 0 < net.port
    → net.port < 2 ^ 16
    → net.listening ≡ true
    → net.sendto (26 + length f) ≡ some (26 + length f)
    → fetch_reply seq f (handle_file_request fs net node seq f).0 ≡ some net.port
fetch_reply-handle_file_request fs net node seq f small plain room pos port up sent =
    ap (λ r. fetch_reply seq f r.0)
      (handle_file_request-send_file_via_tcp fs net node seq f
        (fill_command file_get_response ++ (htobe64 seq ++ (htobe64 net.port ++ f))) up
        (send_complex_reply seq file_get_response f net.port (net.sendto (26 + length f))
          (omega arith) plain room sent))
    ∙ fetch_reply-valid seq small f plain net.port pos port room
