-- ===== src/Server/Download.antt =====
-- `send_file_via_tcp` and `handle_file_request` (server/server.cpp).
pub mod Chunks
use distributed_server_clien.Prelude.Bytes.{Bytes}
use distributed_server_clien.Prelude.{
  ℕ, zero, suc, ◌+◌, Bool, true, false, not, ◌||◌, List, [], ◌∷◌, ◌++◌, Option, none, some, ◌==◌,
  if◌then◌else◌, length, take, drop,
}
use distributed_server_clien.Words.{htobe64}
use distributed_server_clien.Protocol.{
  file_get_response, max_buffer_size, complex_message_no_data_size,
}
use distributed_server_clien.Protocol.Message.{complex_message}
use distributed_server_clien.Socket.Udp.{send_complex}
use distributed_server_clien.Server.FileSystem.{FileSystem}
use distributed_server_clien.Server.Upload.{Node}

-- The buffers written to the socket, and whether the loop ran to its end.
pub record Sent : Type 0 where
  pub chunks : List Bytes
  pub complete : Bool

abbrev pub add_chunk : Bytes → Option Sent → Option Sent
add_chunk c none = none
add_chunk c (some s) = some (record s { chunks = c ∷ s.chunks })

-- `while (file_stream) { read; gcount; write }` over the bytes that are left of the file. A read
-- that gets less than the buffer holds ends the stream, one that fills it does not. `write k` says
-- whether the k-th `sock.write` succeeds. On fuel: `none` means that it ran out.
unfoldable pub send_loop : ℕ → (ℕ → Bool) → ℕ → Bytes → Option Sent
send_loop zero write k rest = none
send_loop (suc fuel) write k rest =
    let chunk = take max_buffer_size rest in
    let more = send_loop fuel write (k + 1) (drop max_buffer_size rest) in
    if not (write k)
    then some (record { chunks = []; complete = false })
    else if length chunk == max_buffer_size
    then add_chunk chunk more
    else some (record { chunks = chunk ∷ []; complete = true })

-- What the sockets do during one download.
pub record DownloadNet : Type 0 where
  pub listening : Bool
  pub port : ℕ
  pub sendto : ℕ → Option ℕ
  pub select : Option ℕ
  pub accept : Bool
  pub write : ℕ → Bool

-- The branch of a client that waits; nothing goes out if the file does not open. The loop makes
-- one round for each full buffer and one more, so the length of the file is fuel enough.
unfoldable pub send_file : (ℕ → Bool) → Option Bytes → Option Sent
send_file write none = some (record { chunks = []; complete = false })
send_file write (some bytes) = send_loop (suc (length bytes)) write 0 bytes

module _ (fs : FileSystem) where
  open fs use {Disk, content}

  unfoldable pub send_file_via_tcp : DownloadNet → Node Disk → Bytes → Option Sent
  send_file_via_tcp net node filename = elim net.select [
    | none ↦ some (record { chunks = []; complete = false })
    | some res ↦
        if res == 0 || not net.accept
        then some (record { chunks = []; complete = false })
        else send_file net.write (content node.disk (node.shared_folder ++ filename))
  ]

  -- The datagram with the port, `none` if it was not sent, and the transfer behind it.
  unfoldable pub handle_file_request :
      DownloadNet → Node Disk → ℕ → Bytes → Option Bytes × Option Sent
  handle_file_request net node message_seq filename =
      if not net.listening
      then (none, some (record { chunks = []; complete = false }))
      else elim (send_complex (net.sendto (complex_message_no_data_size + length filename))
          (complex_message (htobe64 message_seq) file_get_response filename (htobe64 net.port))
          (length filename)) [
            | none ↦ (none, some (record { chunks = []; complete = false }))
            | some datagram ↦ (some datagram, send_file_via_tcp net node filename)
          ]
