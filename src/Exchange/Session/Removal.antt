-- ===== src/Exchange/Session/Removal.antt =====
-- `Client::remove` against a server that has the file, and a `Client::fetch` that comes too late.
use distributed_server_clien.Prelude.Bytes.{Bytes, NoNul, str_eq_refl}
use distributed_server_clien.Prelude.{
  ℕ, ◌+◌, ◌≤◌, ◌<◌, ◌^◌, ◌≡◌, ◌∙◌, refl, ap, true, false, [], ◌∷◌, ◌++◌, none, some, arith, length,
}
use distributed_server_clien.Words.{htobe64}
use distributed_server_clien.Wire.{send_simple_lem}
use distributed_server_clien.Protocol.{file_get_request, file_remove_request}
use distributed_server_clien.Protocol.Message.{fill_command}
use distributed_server_clien.Socket.Udp.{send_simple_to}
use distributed_server_clien.Client.Requests.{send_fetch, send_remove}
use distributed_server_clien.Client.Replies.{receive_fetch_file_response}
use distributed_server_clien.Client.Replies.Loops.{NoFetchReply, receive_fetch_file_response_none}
use distributed_server_clien.Client.Transfer.{fetch_failure}
use distributed_server_clien.Client.Procedures.{FetchNet, fetch_from_port, fetch, GroupNet, remove}
use distributed_server_clien.Server.FileSystem.{FileSystem, IsReliable}
use distributed_server_clien.Server.FileSet.{has}
use distributed_server_clien.Server.FileSet.Order.{IsSorted, has-erase}
use distributed_server_clien.Server.Storage.{
  Storage, is_in_storage, remove_file_from_storage, free_space,
}
use distributed_server_clien.Server.Request.{request, receive_request}
use distributed_server_clien.Server.Request
use distributed_server_clien.Server.Request.Decoding.{receive_fetch, receive_remove}
use distributed_server_clien.Server.Upload.{Node}
use distributed_server_clien.Server.Remove.{handle_remove_request}
use distributed_server_clien.Server.Remove.Restore.{handle_remove_request_removes}
use distributed_server_clien.Server.Consistency.Handlers.{erased_lem}
use distributed_server_clien.Server.Run.{ServerNet, serve, serve_received, run_round}
use distributed_server_clien.Exchange.Session.Fetch.{send_fetch_lem}

send_remove_lem :
    (seq : ℕ) (f : Bytes)
    → NoNul f
    → length f ≤ 65481
    → send_remove true (some (18 + length f)) seq f
      ≡ some (fill_command file_remove_request ++ (htobe64 seq ++ f))
unfolding send_remove send_simple_to
send_remove_lem seq f plain room =
    send_simple_lem seq file_remove_request f (omega arith) plain (omega arith)

remove_lem :
    (net : GroupNet) (f : Bytes)
    → NoNul f
    → length f ≤ 65481
    → net.socket ≡ true
    → net.inet_aton ≡ true
    → net.sendto ≡ some (18 + length f)
    → remove net f ≡ some (fill_command file_remove_request ++ (htobe64 net.message_seq ++ f))
unfolding remove
remove_lem net f plain room made known asked =
    rw (made, known, asked) (send_remove_lem net.message_seq f plain room)

removed_answered :
    (fs : FileSystem) (server : ServerNet) (node : Node fs.Disk) (f datagram : Bytes)
    → receive_request (some datagram) ≡ some (request (Request.remove f))
    → run_round fs server node (some datagram) ≡ some (handle_remove_request fs node f, [])
unfolding run_round serve_received serve
removed_answered fs server node f datagram decoded = rw (decoded, run_round)

fetch_unanswered :
    (fs : FileSystem) (server : ServerNet) (node : Node fs.Disk) (seq : ℕ) (f datagram : Bytes)
    → receive_request (some datagram) ≡ some (request (Request.fetch seq f))
    → is_in_storage node.storage f ≡ false
    → run_round fs server node (some datagram) ≡ some (node, [])
unfolding run_round serve_received serve
fetch_unanswered fs server node seq f datagram decoded gone = rw (decoded, run_round, gone)

not_in_storage :
    (s : Storage) (f : Bytes) (size : ℕ)
    → IsSorted s.files_in_storage
    → is_in_storage (free_space (remove_file_from_storage s f).0 size) f ≡ false
unfolding is_in_storage free_space remove_file_from_storage
not_in_storage s f size sorted =
    ground (arith, has-erase f f s.files_in_storage sorted, str_eq_refl f)

fetch_failed :
    (fs : FileSystem) (net : FetchNet) (out_folder f datagram : Bytes) (d : fs.Disk)
    → net.socket ≡ true
    → send_fetch net.inet_aton net.sendto net.message_seq f ≡ some datagram
    → receive_fetch_file_response net.message_seq f (net.rounds datagram) ≡ 0
    → fetch fs net out_folder f d ≡ (d, fetch_failure ∷ [])
unfolding fetch fetch_from_port
fetch_failed fs net out_folder f datagram d created sent read = rw (created, sent, fetch, read) refl

module _ (fs : FileSystem) (laws : IsReliable fs) where
  open fs use {Disk, content}

  module _ (server server' : ServerNet) (node : Node Disk) (f bytes out_folder : Bytes)
      (gone d : Disk) (plain : NoNul f) (named : 0 < length f) (room : length f ≤ 65481) where
    -- The node behind the removal does not answer a fetch.
    fetch_failed-gone :
        (net : FetchNet) (node' : Node Disk)
        → is_in_storage node'.storage f ≡ false
        → net.message_seq < 2 ^ 64
        → net.socket ≡ true
        → net.inet_aton ≡ true
        → net.sendto ≡ some (18 + length f)
        → ((datagram : Bytes)
            → run_round fs server' node' (some datagram) ≡ some (node', [])
            → NoFetchReply net.message_seq f (net.rounds datagram))
        → fetch fs net out_folder f d ≡ (d, fetch_failure ∷ [])
    fetch_failed-gone net node' absent word created known asked silent =
        let seq = net.message_seq in
        let datagram = fill_command file_get_request ++ (htobe64 seq ++ f) in
        let unanswered =
          fetch_unanswered fs server' node' seq f datagram
            (receive_fetch seq word f plain (omega arith) named) absent in
        fetch_failed fs net out_folder f datagram d created
          (rw (known, asked) (send_fetch_lem seq f plain room))
          (receive_fetch_file_response_none seq f (net.rounds datagram)
            (silent datagram unanswered))

    -- If a server has a file in its sorted storage and on its disk, the round in which it takes the
    -- message that `remove` sends sends nothing and takes the file from the disk, and a `fetch` of
    -- that name that asks the server afterwards reports a failure and leaves the disk of the client
    -- as it was. The conditions are a reliable file system where that removal succeeds, a name that
    -- is not empty, without NUL and of at most 65481 bytes, message numbers of 64 bits, that the
    -- two messages are sent, and that the client of the fetch receives no valid reply if the server
    -- sends none.
    pub fetch-remove :
        (group : GroupNet) (net : FetchNet)
        → IsSorted node.storage.files_in_storage
        → has f node.storage.files_in_storage ≡ true
        → content node.disk (node.shared_folder ++ f) ≡ some bytes
        → fs.remove node.disk (node.shared_folder ++ f) ≡ some gone
        → group.message_seq < 2 ^ 64
        → group.socket ≡ true
        → group.inet_aton ≡ true
        → group.sendto ≡ some (18 + length f)
        → net.message_seq < 2 ^ 64
        → net.socket ≡ true
        → net.inet_aton ≡ true
        → net.sendto ≡ some (18 + length f)
        → ((datagram : Bytes)
            → run_round fs server' (handle_remove_request fs node f) (some datagram)
              ≡ some (handle_remove_request fs node f, [])
            → NoFetchReply net.message_seq f (net.rounds datagram))
        → (asking : Bytes) × (remove group f ≡ some asking)
          × (run_round fs server node (some asking) ≡ some (handle_remove_request fs node f, []))
          × (content (handle_remove_request fs node f).disk (node.shared_folder ++ f) ≡ none)
          × (fetch fs net out_folder f d ≡ (d, fetch_failure ∷ []))
    fetch-remove group net sorted there stored removes word made known asked word' created known'
          asked' silent =
        let path = node.shared_folder ++ f in
        let seq = group.message_seq in
        let datagram = fill_command file_remove_request ++ (htobe64 seq ++ f) in
        let handled =
          handle_remove_request_removes fs laws node f bytes gone (erased_lem node.storage f there)
            stored removes in
        (
          datagram,
          remove_lem group f plain room made known asked,
          removed_answered fs server node f datagram
              (receive_remove seq word f plain (omega arith) named),
          ap (λ (n : Node Disk). content n.disk path) handled
              ∙ laws.lawful.content-remove node.disk gone path path removes
              ∙ rw (str_eq_refl path) refl,
          fetch_failed-gone net (handle_remove_request fs node f)
              (ap (λ (n : Node Disk). is_in_storage n.storage f) handled
                ∙ not_in_storage node.storage f (length bytes) sorted)
              word' created known' asked' silent,
        )
