-- ===== src/Exchange/Session/Crash.antt =====
-- An upload request for the name of a directory of the shared folder, such as `..`.
use distributed_server_clien.Prelude.Bytes.{Bytes, NoNul, contains}
use distributed_server_clien.Prelude.{
  ℕ, ◌+◌, ◌≤◌, ◌<◌, ◌^◌, ◌≡◌, ◌∙◌, refl, ap, true, false, not, ◌&&◌, List, [], ◌∷◌, ◌++◌, Option,
  none, some, ◌==◌, length, arith, Bool-cases, Option-cases, inl, inr,
}
use distributed_server_clien.Words.{htobe64}
use distributed_server_clien.Protocol.{file_add_request}
use distributed_server_clien.Protocol.Message.{fill_command}
use distributed_server_clien.Protocol.Validation.{is_empty}
use distributed_server_clien.Client.Requests.{send_upload}
use distributed_server_clien.Server.FileSystem.{FileSystem}
use distributed_server_clien.Server.FileSet.{has}
use distributed_server_clien.Server.Request.{request, receive_request}
use distributed_server_clien.Server.Request
use distributed_server_clien.Server.Request.Decoding.{receive_upload}
use distributed_server_clien.Server.Upload.{
  Node, UploadNet, receive_file, transfer, remove_partial, upload_file_via_tcp, with_reply,
  handle_upload_request,
}
use distributed_server_clien.Server.Upload.Atomic.{with_file}
use distributed_server_clien.Server.Upload.Complete.{
  acceptance, granted_lem, handle_upload_request-accept_upload, accept_upload-upload_file_via_tcp,
}
use distributed_server_clien.Server.Run.{ServerNet, serve, serve_received, run_round, run}
use distributed_server_clien.Server.Run.Returns.{run-none}
use distributed_server_clien.Exchange.Session.Discovery.{send_upload_lem}

module _ (fs : FileSystem) where
  open fs use {Disk, exists, remove, open_out}

  -- A path that does not open, whatever the sockets do.
  transfer_shut :
      (net : UploadNet) (path : Bytes) (size : ℕ) (d : Disk)
      → open_out d path ≡ none
      → transfer fs net path size d ≡ record { failed = true; to_upload = size; disk = d }
  unfolding transfer receive_file
  transfer_shut net path size d shut = elim (Option-cases net.select) [
    | inl broken ↦ rw (broken, transfer) refl
    | inr (res, selected) ↦ elim (Bool-cases (res == 0)) [
      | inl late ↦ rw (selected, transfer, late) refl
      | inr waits ↦ rw (selected, transfer, waits, shut, receive_file) refl
    ]
  ]

  upload_file_via_tcp_throws :
      (net : UploadNet) (node : Node Disk) (f : Bytes) (size : ℕ)
      → open_out node.disk (node.shared_folder ++ f) ≡ none
      → exists node.disk (node.shared_folder ++ f) ≡ true
      → remove node.disk (node.shared_folder ++ f) ≡ none
      → upload_file_via_tcp fs net node f size ≡ none
  unfolding upload_file_via_tcp remove_partial
  upload_file_via_tcp_throws net node f size shut there fixed =
      rw
        (
          transfer_shut net (node.shared_folder ++ f) size node.disk shut,
          upload_file_via_tcp,
          there,
          fixed,
        )
        refl

  run_stopped :
      (server : ServerNet) (node : Node Disk) (seq size : ℕ) (f datagram : Bytes)
      (rounds : List (ServerNet × Option Bytes))
      → receive_request (some datagram) ≡ some (request (Request.upload seq f size))
      → handle_upload_request fs server.upload_net node seq f size ≡ none
      → run fs ((server, some datagram) ∷ rounds) (some node) ≡ none
  unfolding run run_round serve_received serve
  run_stopped server node seq size f datagram rounds decoded thrown =
      rw (decoded, run, run_round, thrown) (run-none fs rounds)

  -- The message by which a client asks for an upload under the proper name of a directory, such as
  -- `..`, ends the server: whatever rounds follow and whether or not a client connects, `run` comes
  -- to no node. What the file system does with a directory is the condition: the output stream does
  -- not open, the path exists and `remove` refuses it. The others are that the name is not in
  -- storage, has no NUL and at most 65481 bytes, that number, size and `max_available_space` have
  -- 64 bits and the size has room, that the message is sent, that the server has its listening
  -- socket, and that it sends the acceptance.
  pub run-send_upload_directory :
      (server : ServerNet) (node : Node Disk) (seq size : ℕ) (f : Bytes)
      (rounds : List (ServerNet × Option Bytes))
      → seq < 2 ^ 64
      → size < 2 ^ 64
      → NoNul f
      → length f ≤ 65481
      → (not (is_empty f) && not (contains (b'/' ∷ []) f)) ≡ true
      → has f node.storage.files_in_storage ≡ false
      → node.storage.used_space + size ≤ node.storage.max_available_space
      → node.storage.max_available_space < 2 ^ 64
      → server.upload_net.listening ≡ true
      → server.upload_net.sendto 26 ≡ some 26
      → open_out node.disk (node.shared_folder ++ f) ≡ none
      → exists node.disk (node.shared_folder ++ f) ≡ true
      → remove node.disk (node.shared_folder ++ f) ≡ none
      → (datagram : Bytes) × (send_upload true (some (26 + length f)) seq f size ≡ some datagram)
        × (run fs ((server, some datagram) ∷ rounds) (some node) ≡ none)
  run-send_upload_directory server node seq size f rounds small small' plain room proper new fits
        word up sent shut there fixed =
      let net = server.upload_net in
      let added : Node Disk = record node { storage = with_file node.storage f size } in
      let handled =
        handle_upload_request-accept_upload fs net node seq f size proper new
          (granted_lem node.storage size word fits)
        ∙ accept_upload-upload_file_via_tcp fs net added seq f size up sent
        ∙ ap (with_reply (some (acceptance seq net.port)))
            (upload_file_via_tcp_throws net added f size shut there fixed) in
      (
        fill_command file_add_request ++ (htobe64 seq ++ (htobe64 size ++ f)),
        send_upload_lem seq size f plain room,
        run_stopped server node seq size f _ rounds
            (receive_upload seq small f plain (omega arith) size small' room) handled,
      )
