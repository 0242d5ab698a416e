-- ===== src/Socket/Udp.antt =====
-- socket/udp_socket.cpp: `send` and `recvfrom_*`. What ::sendto returns and what ::recvfrom hands
-- over are arguments, `none` for a negative return; `none` as a result is the exception
-- socket_failure. The bytes that a send hands to the kernel are the first `message_length` bytes at
-- the message.
pub mod Setup
use distributed_server_clien.Prelude.Bytes.{Bytes}
use distributed_server_clien.Prelude.{
  ℕ, ◌+◌, Bool, Option, none, some, ◌==◌, if◌then◌else◌, length, take, take_d,
}
use distributed_server_clien.Words.{u16}
use distributed_server_clien.Protocol.{
  sizeof_message, simple_message_no_data_size, complex_message_no_data_size,
}
use distributed_server_clien.Protocol.Message.{
  ComplexMessage, SimpleMessage, simple_image, complex_image, simple_overlay, complex_overlay,
}

-- `sendto(sock, &message, message_length, ...) != message_length`.
unfoldable pub send_to : Option ℕ → Bytes → ℕ → Option Bytes
send_to none image message_length = none
send_to (some n) image message_length =
    if n == message_length then some (take_d message_length image 0) else none

-- The two overloads to a socket address. `data_length` is converted to uint16_t, and the length of
-- the datagram once more.
unfoldable pub send_simple : Option ℕ → SimpleMessage → ℕ → Option Bytes
send_simple sendto message data_length =
    send_to sendto (simple_image message) (u16 (simple_message_no_data_size + u16 data_length))

unfoldable pub send_complex : Option ℕ → ComplexMessage → ℕ → Option Bytes
send_complex sendto message data_length =
    send_to sendto (complex_image message) (u16 (complex_message_no_data_size + u16 data_length))

-- The two overloads to a textual address, which `inet_aton` may refuse.
unfoldable pub send_simple_to : Bool → Option ℕ → SimpleMessage → ℕ → Option Bytes
send_simple_to inet_aton sendto message data_length =
    if inet_aton then send_simple sendto message data_length else none

unfoldable pub send_complex_to : Bool → Option ℕ → ComplexMessage → ℕ → Option Bytes
send_complex_to inet_aton sendto message data_length =
    if inet_aton then send_complex sendto message data_length else none

-- `recvfrom` into a fresh struct: what does not fit is cut off, what is not written stays NUL.
unfoldable pub recvfrom_complex : Option Bytes → Option (ComplexMessage × ℕ)
recvfrom_complex none = none
recvfrom_complex (some datagram) =
    let got = take sizeof_message datagram in some (complex_overlay got, length got)

unfoldable pub recvfrom_simple : Option Bytes → Option (SimpleMessage × ℕ)
recvfrom_simple none = none
recvfrom_simple (some datagram) =
    let got = take sizeof_message datagram in some (simple_overlay got, length got)
