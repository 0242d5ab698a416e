-- ===== src/Client/Procedures.antt =====
-- The commands of the client from their first call to their last (client/client.cpp): `fetch`,
-- `discover`, `silent_discover`, `upload` and `remove`.
use distributed_server_clien.Prelude.Bytes.{Bytes}
use distributed_server_clien.Prelude.{
  ℕ, Bool, not, List, [], ◌∷◌, Option, none, some, ◌==◌, if◌then◌else◌,
}
use distributed_server_clien.Client.Requests.{send_discover, send_fetch, send_remove}
use distributed_server_clien.Client.Replies.{
  Round, receive_fetch_file_response, Discovery, receive_discover_response,
}
use distributed_server_clien.Client.Transfer.{
  FetchResult, fetch_failure, fetch_file_via_tcp, UploadResult, upload_file_via_tcp,
}
use distributed_server_clien.Client.Upload.{
  Found, silent_discover_receive, Attempt, Upload, file_not_exist, file_too_big, no_socket,
  upload_to,
}
use distributed_server_clien.Client.Upload
use distributed_server_clien.Server.FileSystem.{FileSystem}

-- What the sockets do around one fetch: the number of the message, whether the socket is made and
-- `inet_aton` takes the address, what ::sendto returns, the rounds that follow on the datagram that
-- was sent, and whether a port takes the connection and what is read from it.
pub record FetchNet : Type 0 where
  pub message_seq : ℕ
  pub socket : Bool
  pub inet_aton : Bool
  pub sendto : Option ℕ
  pub rounds : Bytes → List Round
  pub connected : ℕ → Bool
  pub reads : ℕ → List (Option Bytes)

module _ (fs : FileSystem) where
  open fs use {Disk}

  -- `fetch` behind the reply; the port 0 stands for a timeout.
  unfoldable pub fetch_from_port : FetchNet → Bytes → Bytes → Disk → ℕ → Disk × List FetchResult
  fetch_from_port net out_folder filename d tcp_port =
      if tcp_port == 0
      then (d, fetch_failure ∷ [])
      else fetch_file_via_tcp fs (net.connected tcp_port) (net.reads tcp_port) out_folder filename d

  -- `fetch`: the disk of the client and what is reported.
  unfoldable pub fetch : FetchNet → Bytes → Bytes → Disk → Disk × List FetchResult
  fetch net out_folder filename d =
      if not net.socket
      then (d, fetch_failure ∷ [])
      else elim (send_fetch net.inet_aton net.sendto net.message_seq filename) [
        | none ↦ (d, fetch_failure ∷ [])
        | some datagram ↦
            fetch_from_port net out_folder filename d
              (receive_fetch_file_response net.message_seq filename (net.rounds datagram))
      ]

-- What the sockets do around one message to the multicast group.
pub record GroupNet : Type 0 where
  pub message_seq : ℕ
  pub socket : Bool
  pub inet_aton : Bool
  pub sendto : Option ℕ
  pub rounds : Bytes → List Round

-- `discover`, on the socket of the client: what is printed.
unfoldable pub discover : GroupNet → List Discovery
discover net = elim (send_discover net.inet_aton net.sendto net.message_seq) [
  | none ↦ []
  | some datagram ↦ receive_discover_response net.message_seq (net.rounds datagram)
]

-- `silent_discover`, on a socket of its own; `before` is what the buffer of `inet_ntoa` holds.
unfoldable pub silent_discover : GroupNet → Bytes → Found
silent_discover net before =
    let nothing_found : Found = record { servers = []; address = before } in
    if not net.socket
    then nothing_found
    else elim (send_discover net.inet_aton net.sendto net.message_seq) [
      | none ↦ nothing_found
      | some datagram ↦ silent_discover_receive net.message_seq nothing_found (net.rounds datagram)
    ]

-- `remove`: the message, if it is sent.
unfoldable pub remove : GroupNet → Bytes → Option Bytes
remove net filename =
    if not net.socket then none else send_remove net.inet_aton net.sendto net.message_seq filename

-- What surrounds an upload: what the file system says of the path, the discovery, whether the socket
-- is made, the calls of `can_upload_file`, and the transfer to a port: whether it takes the
-- connection, and the writes.
pub record UploadCalls : Type 0 where
  pub exists : Bool
  pub is_regular_file : Bool
  pub file_size : ℕ
  pub group : GroupNet
  pub socket : Bool
  pub attempts : ℕ → Attempt
  pub connected : Bytes → ℕ → Bool
  pub write : ℕ → Bool
  pub file : Option Bytes

-- What an upload comes to.
pub data UploadOutcome : Type 0 where
  not_started : Upload → UploadOutcome
  transferred :
      (server_ip : Bytes) (server_port : ℕ) → List Bytes → Option UploadResult → UploadOutcome

abbrev pub transfer_to : UploadCalls → Upload → UploadOutcome
transfer_to calls file_not_exist = not_started file_not_exist
transfer_to calls file_too_big = not_started file_too_big
transfer_to calls no_socket = not_started no_socket
transfer_to calls (upload_to server_ip server_port) =
    let (chunks, result) =
      upload_file_via_tcp (calls.connected server_ip server_port) calls.write calls.file
        calls.file_size in
    transferred server_ip server_port chunks result

-- `upload`, with the discovery before it and the transfer behind it.
unfoldable pub upload_file : UploadCalls → Bytes → Bytes → UploadOutcome
upload_file calls before filename = transfer_to calls (
    Upload.upload calls.exists calls.is_regular_file (silent_discover calls.group before)
      calls.socket calls.attempts filename calls.file_size)
