-- ===== src/Client/Requests.antt =====
-- The messages that the client sends (client/client.cpp). Whether `inet_aton` takes the address and
-- what ::sendto returns are arguments; `none` is the exception socket_failure. The number of a
-- message comes from a random generator, and is an argument.
use distributed_server_clien.Prelude.Bytes.{Bytes}
use distributed_server_clien.Prelude.{ℕ, Bool, Option, [], length}
use distributed_server_clien.Words.{htobe64}
use distributed_server_clien.Protocol.{
  discover_request, files_list_request, file_get_request, file_remove_request, file_add_request,
}
use distributed_server_clien.Protocol.Message.{simple_message, complex_message}
use distributed_server_clien.Socket.Udp.{send_simple_to, send_complex_to}

-- The message of `discover` and of `silent_discover`.
unfoldable pub send_discover : Bool → Option ℕ → ℕ → Option Bytes
send_discover inet_aton sendto message_seq =
    send_simple_to inet_aton sendto (simple_message (htobe64 message_seq) discover_request []) 0

unfoldable pub send_search : Bool → Option ℕ → ℕ → Bytes → Option Bytes
send_search inet_aton sendto message_seq pattern =
    send_simple_to inet_aton sendto
      (simple_message (htobe64 message_seq) files_list_request pattern) (length pattern)

unfoldable pub send_fetch : Bool → Option ℕ → ℕ → Bytes → Option Bytes
send_fetch inet_aton sendto message_seq filename =
    send_simple_to inet_aton sendto (simple_message (htobe64 message_seq) file_get_request filename)
      (length filename)

unfoldable pub send_remove : Bool → Option ℕ → ℕ → Bytes → Option Bytes
send_remove inet_aton sendto message_seq filename =
    send_simple_to inet_aton sendto
      (simple_message (htobe64 message_seq) file_remove_request filename) (length filename)

-- The message of `can_upload_file`.
unfoldable pub send_upload : Bool → Option ℕ → ℕ → Bytes → ℕ → Option Bytes
send_upload inet_aton sendto message_seq filename file_size =
    send_complex_to inet_aton sendto
      (complex_message (htobe64 message_seq) file_add_request filename (htobe64 file_size))
      (length filename)
