-- ===== src/Server/Upload.antt =====
-- `handle_upload_request` and `upload_file_via_tcp` (server/server.cpp), run to the end with no
-- other handler in between. What the network does is an argument.
pub mod Transfer
pub mod Atomic
pub mod Complete
pub mod Unwritten
pub mod Outcome
pub mod Refused
pub mod Returns
use distributed_server_clien.Prelude.Bytes.{Bytes, contains}
use distributed_server_clien.Prelude.{
  ℕ, ◌+◌, ◌-◌, Bool, true, false, not, ◌&&◌, ◌||◌, List, [], ◌∷◌, ◌++◌, Option, none, some, ◌==◌,
  if◌then◌else◌, length, take, min,
}
use distributed_server_clien.Words.{htobe64}
use distributed_server_clien.Protocol.{
  file_add_refusal, file_add_acceptance, max_buffer_size, simple_message_no_data_size,
  complex_message_no_data_size,
}
use distributed_server_clien.Protocol.Message.{simple_message, complex_message}
use distributed_server_clien.Protocol.Validation.{is_empty}
use distributed_server_clien.Socket.Udp.{send_simple, send_complex}
use distributed_server_clien.Server.FileSystem.{FileSystem}
use distributed_server_clien.Server.Storage.{
  Storage, add_file_to_storage, remove_file_from_storage, check_and_reserve_space, free_space,
}

-- A server with its shared folder.
pub record Node (Disk : Type 0) : Type 0 where
  pub storage : Storage
  pub shared_folder : Bytes
  pub disk : Disk

-- What the sockets do during one upload: whether the listening socket is set up, the port that it
-- got, what ::sendto returns for each length, what ::select returns (`none` for an error), whether
-- `accept` succeeds, and what each `sock.read` finds (`none` for socket_failure); behind the list
-- the peer has closed the connection.
pub record UploadNet : Type 0 where
  pub listening : Bool
  pub port : ℕ
  pub sendto : ℕ → Option ℕ
  pub select : Option ℕ
  pub accept : Bool
  pub reads : List (Option Bytes)

-- `failed` and `to_upload` behind the loop, and the disk.
pub record Transferred (Disk : Type 0) : Type 0 where
  pub failed : Bool
  pub to_upload : ℕ
  pub disk : Disk

-- Giving up a reservation: `free_space` and `remove_file_from_storage`.
unfoldable pub give_up : Storage → Bytes → ℕ → Storage
give_up s filename file_size = (remove_file_from_storage (free_space s file_size) filename).0

-- A handler's node together with the datagram that was sent before.
abbrev pub with_reply :
    {Disk : Type 0} → Option Bytes → Option (Node Disk) → Option (Node Disk × Option Bytes)
with_reply reply none = none
with_reply reply (some node) = some (node, reply)

module _ (fs : FileSystem) where
  open fs use {Disk, exists, remove, open_out, write}

  -- `while ((read_len = sock.read(buffer, min(sizeof(buffer), to_upload))) > 0)`. A read hands over
  -- at most what it is asked for, so `to_upload -= read_len` does not wrap.
  unfoldable pub receive_loop : Bytes → ℕ → Disk → List (Option Bytes) → Transferred Disk
  receive_loop path to_upload d [] = record { failed = false; to_upload = to_upload; disk = d }
  receive_loop path to_upload d (none ∷ reads) = record {
    failed = true;
    to_upload = to_upload;
    disk = d;
  }
  receive_loop path to_upload d (some bs ∷ reads) =
      let got = take (min max_buffer_size to_upload) bs in
      let rest = receive_loop path (to_upload - length got) (write d path got) reads in
      if is_empty got then record { failed = false; to_upload = to_upload; disk = d } else rest

  -- The branch of a client that waits. A failure of `accept` is noted, and the code goes on.
  unfoldable pub receive_file : Bool → List (Option Bytes) → Bytes → ℕ → Disk → Transferred Disk
  receive_file accept reads path file_size d = elim (open_out d path) [
    | none ↦ record { failed = true; to_upload = file_size; disk = d }
    | some d' ↦
        let r = receive_loop path file_size d' reads in record r { failed = r.failed || not accept }
  ]

  -- `upload_file_via_tcp` up to the last test. An error of `select` leaves `select_res` at 0.
  unfoldable pub transfer : UploadNet → Bytes → ℕ → Disk → Transferred Disk
  transfer net path file_size d = elim net.select [
    | none ↦ record { failed = true; to_upload = file_size; disk = d }
    | some res ↦
        if res == 0
        then record { failed = true; to_upload = file_size; disk = d }
        else receive_file net.accept net.reads path file_size d
  ]

  -- `if (fs::exists(file_path)) fs::remove(file_path)`; nothing catches what `remove` throws.
  unfoldable pub remove_partial : Disk → Bytes → Option Disk
  remove_partial d path = if exists d path then remove d path else some d

  -- `upload_file_via_tcp`; `none` is an exception that ends the program.
  unfoldable pub upload_file_via_tcp : UploadNet → Node Disk → Bytes → ℕ → Option (Node Disk)
  upload_file_via_tcp net node filename file_size =
      let path = node.shared_folder ++ filename in
      let r = transfer net path file_size node.disk in
      if r.failed || not (r.to_upload == 0)
      then elim (remove_partial r.disk path) [
        | none ↦ none
        | some d ↦
            some (record node { storage = give_up node.storage filename file_size; disk = d })
      ]
      else some (record node { disk = r.disk })

  -- The refusal: its datagram, `none` if it could not be sent.
  unfoldable pub refuse : UploadNet → Node Disk → ℕ → Bytes → Option (Node Disk × Option Bytes)
  refuse net node message_seq filename = some (
    node,
    send_simple (net.sendto (simple_message_no_data_size + length filename))
        (simple_message (htobe64 message_seq) file_add_refusal filename) (length filename),
  )

  -- The branch of an accepted request. The datagram is sent with no data behind its header.
  unfoldable pub accept_upload :
      UploadNet → Node Disk → ℕ → Bytes → ℕ → Option (Node Disk × Option Bytes)
  accept_upload net node message_seq filename file_size =
      let back = some (record node { storage = give_up node.storage filename file_size }, none) in
      if not net.listening
      then back
      else elim (send_complex (net.sendto complex_message_no_data_size)
          (complex_message (htobe64 message_seq) file_add_acceptance filename (htobe64 net.port))
          0) [
            | none ↦ back
            | some datagram ↦
                with_reply (some datagram) (upload_file_via_tcp net node filename file_size)
          ]

  -- `handle_upload_request`: the node behind it and the datagram sent; `none` is an exception that
  -- ends the program.
  unfoldable pub handle_upload_request :
      UploadNet → Node Disk → ℕ → Bytes → ℕ → Option (Node Disk × Option Bytes)
  handle_upload_request net node message_seq filename file_size =
      if not (is_empty filename) && not (contains (b'/' ∷ []) filename)
      then (let (reserved, has_space) = check_and_reserve_space node.storage file_size in
          let (added, is_new) = add_file_to_storage reserved filename in
          if not has_space
          then refuse net node message_seq filename
          else if not is_new
          then refuse net (record node { storage = free_space added file_size }) message_seq
              filename
          else accept_upload net (record node { storage = added }) message_seq filename file_size)
      else refuse net node message_seq filename
