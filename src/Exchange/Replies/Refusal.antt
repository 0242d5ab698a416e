-- ===== src/Exchange/Replies/Refusal.antt =====
-- A refused upload, from the handler of server/server.cpp to the loop of client/client.cpp.
use distributed_server_clien.Prelude.Bytes.{Bytes, NoNul}
use distributed_server_clien.Prelude.{
  ℕ, ◌+◌, ◌≤◌, ◌<◌, ◌^◌, ◌≡◌, ◌⊎◌, ap, ◌∙◌, true, false, Option, some, ◌++◌, arith, length,
}
use distributed_server_clien.Words.{htobe64}
use distributed_server_clien.Wire.{send_simple_lem}
use distributed_server_clien.Protocol.{file_add_refusal}
use distributed_server_clien.Protocol.Message.{simple_message, fill_command}
use distributed_server_clien.Socket.Udp.{send_simple}
use distributed_server_clien.Client.Replies.Acceptance.{upload_reply_refusal}
use distributed_server_clien.Client.Replies.{upload_reply}
use distributed_server_clien.Server.FileSystem.{FileSystem}
use distributed_server_clien.Server.FileSet.{has}
use distributed_server_clien.Server.FileSet.Order.{IsSorted}
use distributed_server_clien.Server.Storage.{check_and_reserve_space}
use distributed_server_clien.Server.Upload.Refused.{is_proper, handle_upload_request-refuse}
use distributed_server_clien.Server.Upload.{Node, UploadNet, refuse, handle_upload_request}

module _ (fs : FileSystem) (net : UploadNet) (seq : ℕ) (f : Bytes) where
  open fs use {Disk}

  refuse_lem :
      (node : Node Disk)
      → NoNul f
      → length f ≤ 65489
      → net.sendto (18 + length f) ≡ some (18 + length f)
      → refuse fs net node seq f
        ≡ some (node, some (fill_command file_add_refusal ++ (htobe64 seq ++ f)))
  unfolding refuse
  refuse_lem node plain room sent =
      ap (λ (reply : Option Bytes). some (node, reply))
        (ap
            (λ (n : Option ℕ).
              send_simple n (simple_message (htobe64 seq) file_add_refusal f) (length f))
            sent
          ∙ send_simple_lem seq file_add_refusal f (omega arith) plain room)

  -- If the name of an upload request is improper, or in storage, or its size has no room, the
  -- handler leaves the whole node as it was and answers, if the send succeeds, with a datagram that
  -- the client, under the number and the name of its request, reads as a refusal. The conditions
  -- are a number of 64 bits, a name without NUL of at most 65489 bytes, a sorted set of names, and
  -- a `max_available_space` of 64 bits.
  pub handle_upload_request_refuses :
      (node : Node Disk) (size : ℕ)
      → seq < 2 ^ 64
      → NoNul f
      → length f ≤ 65489
      → net.sendto (18 + length f) ≡ some (18 + length f)
      → IsSorted node.storage.files_in_storage
      → node.storage.max_available_space < 2 ^ 64
      → (is_proper f ≡ false)
        ⊎ ((has f node.storage.files_in_storage ≡ true)
            ⊎ ((check_and_reserve_space node.storage size).1 ≡ false))
      → (reply : Bytes) × (port : ℕ) × (handle_upload_request fs net node seq f size
          ≡ some (node, some reply))
        × (upload_reply seq f (some reply) ≡ some (port, false))
  handle_upload_request_refuses node size small plain room sent sorted m why =
      let (port, read) = upload_reply_refusal seq small f plain room in
      (
        fill_command file_add_refusal ++ (htobe64 seq ++ f),
        port,
        handle_upload_request-refuse fs net seq f node size sorted m why
            ∙ refuse_lem node plain room sent,
        read,
      )
