-- ===== src/Server/Discover.antt =====
-- `handle_discover_request` (server/server.cpp).
use distributed_server_clien.Prelude.Bytes.{Bytes}
use distributed_server_clien.Prelude.{ℕ, ◌+◌, Option, length}
use distributed_server_clien.Words.{htobe64}
use distributed_server_clien.Protocol.{discover_response, complex_message_no_data_size}
use distributed_server_clien.Protocol.Message.{complex_message}
use distributed_server_clien.Socket.Udp.{send_complex}
use distributed_server_clien.Server.Storage.{Storage, get_available_space}

-- The datagram that `try_send_message` sends; `none` is a failure that is logged.
unfoldable pub handle_discover_request : (ℕ → Option ℕ) → Bytes → Storage → ℕ → Option Bytes
handle_discover_request sendto multicast_address s message_seq =
    send_complex (sendto (complex_message_no_data_size + length multicast_address))
      (complex_message (htobe64 message_seq) discover_response multicast_address
        (htobe64 (get_available_space s)))
      (length multicast_address)
