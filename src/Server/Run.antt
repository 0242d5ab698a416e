-- ===== src/Server/Run.antt =====
-- The loop of `Server::run` (server/server.cpp), one datagram after the other, each handler run to
-- its end before the next datagram is taken.
pub mod Sorted
pub mod Returns
use distributed_server_clien.Prelude.Bytes.{Bytes}
use distributed_server_clien.Prelude.{ℕ, List, [], ◌∷◌, Option, none, some, if◌then◌else◌}
use distributed_server_clien.Server.FileSystem.{FileSystem}
use distributed_server_clien.Server.Storage.{is_in_storage}
use distributed_server_clien.Server.Request.{
  Request, upload, discover, files_list, fetch, remove, Received, skipped, ignored, request,
  receive_request,
}
use distributed_server_clien.Server.Upload.{Node, UploadNet, handle_upload_request}
use distributed_server_clien.Server.Download.{DownloadNet, handle_file_request}
use distributed_server_clien.Server.Remove.{handle_remove_request}
use distributed_server_clien.Server.FilesList.{handle_files_list_request}
use distributed_server_clien.Server.Discover.{handle_discover_request}

-- What the sockets do while one request is handled.
pub record ServerNet : Type 0 where
  pub multicast_address : Bytes
  pub sendto : ℕ → Option ℕ
  pub upload_net : UploadNet
  pub download_net : DownloadNet

abbrev pub with_datagrams :
    {Disk : Type 0} → Option (Node Disk × Option Bytes) → Option (Node Disk × List (Option Bytes))
with_datagrams none = none
with_datagrams (some (node, datagram)) = some (node, datagram ∷ [])

module _ (fs : FileSystem) where
  open fs use {Disk}

  -- The handler of a request: the node behind it and the datagrams that it tried to send, each
  -- `none` if that failed; `none` is an exception that ends the program.
  unfoldable pub serve : ServerNet → Node Disk → Request → Option (Node Disk × List (Option Bytes))
  serve net node (upload message_seq filename file_size) =
      with_datagrams (handle_upload_request fs net.upload_net node message_seq filename file_size)
  serve net node (discover message_seq) =
      some (
        node,
        handle_discover_request net.sendto net.multicast_address node.storage message_seq ∷ [],
      )
  serve net node (files_list message_seq pattern) =
      some (
        node,
        handle_files_list_request net.sendto message_seq pattern node.storage.files_in_storage,
      )
  serve net node (fetch message_seq filename) =
      if is_in_storage node.storage filename
      then some (node, (handle_file_request fs net.download_net node message_seq filename).0 ∷ [])
      else some (node, [])
  serve net node (remove filename) = some (handle_remove_request fs node filename, [])

  unfoldable pub serve_received :
      ServerNet → Node Disk → Option Received → Option (Node Disk × List (Option Bytes))
  serve_received net node none = some (node, [])
  serve_received net node (some (skipped reason)) = some (node, [])
  serve_received net node (some ignored) = some (node, [])
  serve_received net node (some (request r)) = serve net node r

  -- One round of the loop.
  unfoldable pub run_round :
      ServerNet → Node Disk → Option Bytes → Option (Node Disk × List (Option Bytes))
  run_round net node datagram = serve_received net node (receive_request datagram)

  -- The node after some rounds; `none` if an exception ended the program.
  unfoldable pub run : List (ServerNet × Option Bytes) → Option (Node Disk) → Option (Node Disk)
  run rounds none = none
  run [] (some node) = some node
  run ((net, datagram) ∷ rounds) (some node) =
      run rounds
        (elim (run_round net node datagram) [ none ↦ none | some (node', sent) ↦ some node' ])
