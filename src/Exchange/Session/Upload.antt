-- ===== src/Exchange/Session/Upload.antt =====
-- `Client::upload`, from the discovery to the end of the transfer, against one server.
use distributed_server_clien.Prelude.Bytes.{Bytes, NoNul, contains}
use distributed_server_clien.Prelude.{
  ℕ, ◌+◌, ◌≤◌, ◌<◌, ◌^◌, ◌≡◌, ◌∙◌, ap, true, false, List, [], ◌∷◌, ◌++◌, Option, some, map, arith,
  length, ◌==◌, ==_refl, not, ◌&&◌,
}
use distributed_server_clien.Words.{htobe64}
use distributed_server_clien.Protocol.{discover_request, file_add_request}
use distributed_server_clien.Protocol.Message.{fill_command}
use distributed_server_clien.Protocol.Validation.{is_empty}
use distributed_server_clien.Client.Requests.{send_discover, send_upload}
use distributed_server_clien.Client.Replies.{Round}
use distributed_server_clien.Client.Replies.Acceptance.{upload_reply_acceptance}
use distributed_server_clien.Client.Transfer.{upload_file_via_tcp, upload_success}
use distributed_server_clien.Client.Transfer.Whole.{upload_file_via_tcp-join_chunks}
use distributed_server_clien.Client.Upload.{Found, upload_to, upload}
use distributed_server_clien.Client.Procedures.{
  UploadCalls, silent_discover, transferred, transfer_to, upload_file,
}
use distributed_server_clien.Server.FileSystem.{FileSystem, IsReliable}
use distributed_server_clien.Server.FileSet.{has}
use distributed_server_clien.Server.Storage.{Storage, get_available_space}
use distributed_server_clien.Server.Request.{request, receive_request}
use distributed_server_clien.Server.Request
use distributed_server_clien.Server.Request.Decoding.{receive_discover, receive_upload}
use distributed_server_clien.Server.Discover.{handle_discover_request}
use distributed_server_clien.Server.Upload.{Node, handle_upload_request}
use distributed_server_clien.Server.Upload.Transfer.{AreChunks, join_chunks}
use distributed_server_clien.Server.Upload.Atomic.{with_file}
use distributed_server_clien.Server.Upload.Complete.{acceptance, handle_upload_request_stores}
use distributed_server_clien.Server.Run.{ServerNet, serve, serve_received, run_round, run}
use distributed_server_clien.Exchange.Replies.{discover_reply-handle_discover_request}
use distributed_server_clien.Exchange.Session.Discovery.{
  AllSilent, send_discover_lem, send_upload_lem, silent_discover_one, can_upload_file_accepted,
  upload_accepted,
}

module _ (fs : FileSystem) where
  open fs use {Disk, open_out}

  -- No call fails around an upload of `bytes`; each datagram that the server answers the client with
  -- arrives, from `server_ip` and with only timeouts around it; and TCP hands over the bytes that
  -- the client writes, in pieces of any size.
  pub record CarriesUpload (server : ServerNet) (node : Node Disk) (calls : UploadCalls)
      (f bytes : Bytes) : Type 0 where
    pub server_ip : Bytes
    pub silence : List Round
    pub quiet : AllSilent silence
    -- The file of the client.
    pub exists : calls.exists ≡ true
    pub regular : calls.is_regular_file ≡ true
    pub opens : calls.file ≡ some bytes
    pub sized : calls.file_size ≡ length bytes
    -- The discovery.
    pub group_word : calls.group.message_seq < 2 ^ 64
    pub group_made : calls.group.socket ≡ true
    pub group_known : calls.group.inet_aton ≡ true
    pub group_asked : calls.group.sendto ≡ some 18
    pub address_plain : NoNul server.multicast_address
    pub address_room : length server.multicast_address ≤ 65481
    pub discover_answered :
        server.sendto (26 + length server.multicast_address)
        ≡ some (26 + length server.multicast_address)
    pub discover_delivered :
        (datagram : Bytes) (reply : Option Bytes)
        → run_round fs server node (some datagram) ≡ some (node, reply ∷ [])
        → calls.group.rounds datagram
          ≡ silence ++ record { datagram = reply; source_ip = server_ip } ∷ silence
    -- The request.
    pub made : calls.socket ≡ true
    pub word : (calls.attempts 0).message_seq < 2 ^ 64
    pub known : (calls.attempts 0).inet_aton server_ip ≡ true
    pub asked : (calls.attempts 0).sendto ≡ some (26 + length f)
    pub listens : server.upload_net.listening ≡ true
    pub port_word : server.upload_net.port < 2 ^ 16
    pub answered : server.upload_net.sendto 26 ≡ some 26
    pub delivered :
        (datagram : Bytes) (node' : Node Disk) (reply : Option Bytes)
        → run_round fs server node (some datagram) ≡ some (node', reply ∷ [])
        → (calls.attempts 0).rounds server_ip datagram
          ≡ silence ++ record { datagram = reply; source_ip = server_ip } ∷ silence
    -- The transfer.
    pub connected : calls.connected server_ip server.upload_net.port ≡ true
    pub written : (j : ℕ) → calls.write j ≡ true
    pub ready : ℕ
    pub selected : server.upload_net.select ≡ some ready
    pub in_time : (ready == 0) ≡ false
    pub accepted : server.upload_net.accept ≡ true
    pub opened : Disk
    pub creates : open_out node.disk (node.shared_folder ++ f) ≡ some opened
    pub chunks : List Bytes
    pub pieces : AreChunks chunks
    pub reads : server.upload_net.reads ≡ map some chunks
    pub received :
        join_chunks chunks
        ≡ join_chunks (upload_file_via_tcp true calls.write (some bytes) (length bytes)).0

pub discover_answered :
    (fs : FileSystem) (server : ServerNet) (node : Node fs.Disk) (seq : ℕ) (datagram : Bytes)
    → receive_request (some datagram) ≡ some (request (Request.discover seq))
    → run_round fs server node (some datagram)
      ≡ some (
        node,
        handle_discover_request server.sendto server.multicast_address node.storage seq ∷ [],
      )
unfolding run_round serve_received serve
discover_answered fs server node seq datagram decoded = rw (decoded, run_round)

pub upload_answered :
    (fs : FileSystem) (server : ServerNet) (node node' : Node fs.Disk) (seq size : ℕ)
    (f datagram : Bytes) (reply : Option Bytes)
    → receive_request (some datagram) ≡ some (request (Request.upload seq f size))
    → handle_upload_request fs server.upload_net node seq f size ≡ some (node', reply)
    → run_round fs server node (some datagram) ≡ some (node', reply ∷ [])
unfolding run_round serve_received serve
upload_answered fs server node node' seq size f datagram reply decoded handled =
    rw (decoded, run_round, handled)

pub run_two :
    (fs : FileSystem) (server : ServerNet) (node node' : Node fs.Disk) (first second : Bytes)
    (sent sent' : List (Option Bytes))
    → run_round fs server node (some first) ≡ some (node, sent)
    → run_round fs server node (some second) ≡ some (node', sent')
    → run fs ((server, some first) ∷ (server, some second) ∷ []) (some node) ≡ some node'
unfolding run
run_two fs server node node' first second sent sent' e e' = rw (e, run, e')

available_space_of_fits :
    (s : Storage) (size : ℕ)
    → s.used_space + size ≤ s.max_available_space
    → size ≤ get_available_space s
unfolding get_available_space
available_space_of_fits s size h = ground arith

upload_file-upload_to :
    (calls : UploadCalls) (before server_ip f bytes : Bytes) (port : ℕ) (found : Found)
    → silent_discover calls.group before ≡ found
    → upload calls.exists calls.is_regular_file found calls.socket calls.attempts f calls.file_size
      ≡ upload_to server_ip port
    → upload_file calls before f ≡ transfer_to calls (upload_to server_ip port)
unfolding upload_file
upload_file-upload_to calls before server_ip f bytes port found discovered chosen =
    rw discovered (ap (transfer_to calls) chosen)

module _ (fs : FileSystem) (laws : IsReliable fs) (server : ServerNet) (node : Node fs.Disk)
    (calls : UploadCalls) (f bytes : Bytes) where
  open fs use {Disk, content}

  module _ (small : length bytes < 2 ^ 64) (plain : NoNul f) (room : length f ≤ 65481)
      (fits : node.storage.used_space + length bytes ≤ node.storage.max_available_space)
      (word : node.storage.max_available_space < 2 ^ 64)
      (c : CarriesUpload fs server node calls f bytes) where
    -- The discovery finds the server.
    discovered :
        (before : Bytes)
        → (datagram : Bytes) × (send_discover calls.group.inet_aton calls.group.sendto
              calls.group.message_seq
            ≡ some datagram)
          × (run_round fs server node (some datagram)
              ≡ some (
                node,
                handle_discover_request server.sendto server.multicast_address node.storage
                      calls.group.message_seq
                    ∷ [],
              ))
          × (silent_discover calls.group before ≡ record {
            servers = record { available_space = get_available_space node.storage } ∷ [];
            address = c.server_ip;
          })
    discovered before =
        let seq = calls.group.message_seq in
        let datagram = fill_command discover_request ++ (htobe64 seq ++ []) in
        let reply =
          handle_discover_request server.sendto server.multicast_address node.storage seq in
        let sent : send_discover calls.group.inet_aton calls.group.sendto seq ≡ some datagram =
          rw (c.group_known, c.group_asked) (send_discover_lem seq) in
        let answered =
          discover_answered fs server node seq datagram (receive_discover seq c.group_word) in
        (
          datagram,
          sent,
          answered,
          silent_discover_one calls.group before c.server_ip server.multicast_address datagram
              (get_available_space node.storage) reply c.silence c.silence c.group_made sent
              (c.discover_delivered datagram reply answered) c.quiet c.quiet
              (discover_reply-handle_discover_request server.sendto server.multicast_address
                node.storage seq c.group_word c.address_plain c.address_room word
                c.discover_answered),
        )

    -- What the client wrote is the file.
    whole :
        (join_chunks c.chunks ≡ bytes)
        × ((upload_file_via_tcp true calls.write (some bytes) (length bytes)).1
            ≡ some upload_success)
    whole =
        let (sent_all, reported) =
          upload_file_via_tcp-join_chunks calls.write bytes (length bytes) small small c.written in
        (c.received ∙ sent_all, reported ∙ rw (==_refl (length bytes)))

    -- A client uploads a file to a server under a new and proper name: the discovery and the
    -- request that it sends, taken by the server one after the other, leave the server with the
    -- name and the size added to its storage and with a file of exactly the client's bytes under
    -- that name, and the client comes to a transfer to the address and the port of that server,
    -- with a success. The conditions are a reliable file system, a size and a `max_available_space`
    -- of 64 bits and room for the file, a name without NUL of at most 65481 bytes, that no call
    -- fails around the upload, that the replies of the server arrive with only timeouts around
    -- them, and that TCP hands over what is written in pieces of any size.
    pub upload_file-run :
        (before : Bytes)
        → (not (is_empty f) && not (contains (b'/' ∷ []) f)) ≡ true
        → has f node.storage.files_in_storage ≡ false
        → (asking : Bytes) × (announcing : Bytes) × (d' : Disk) × (send_discover
              calls.group.inet_aton calls.group.sendto calls.group.message_seq
            ≡ some asking)
          × (send_upload
                ((calls.attempts 0).inet_aton c.server_ip)
                (calls.attempts 0).sendto
                (calls.attempts 0).message_seq
                f
                (length bytes)
              ≡ some announcing)
          × (run fs ((server, some asking) ∷ (server, some announcing) ∷ []) (some node)
              ≡ some (record node { storage = with_file node.storage f (length bytes); disk = d' }))
          × (content d' (node.shared_folder ++ f) ≡ some bytes)
          × (upload_file calls before f
              ≡ transferred c.server_ip server.upload_net.port
                  (upload_file_via_tcp true calls.write (some bytes) (length bytes)).0
                  (some upload_success))
    upload_file-run before proper new =
        let a = calls.attempts 0 in
        let seq = a.message_seq in
        let port = server.upload_net.port in
        let announcing =
          fill_command file_add_request ++ (htobe64 seq ++ (htobe64 (length bytes) ++ f)) in
        let sent : send_upload (a.inet_aton c.server_ip) a.sendto seq f (length bytes)
            ≡ some announcing =
          rw (c.known, c.asked) (send_upload_lem seq (length bytes) f plain room) in
        let (asking, sent_first, found_by, found) = discovered before in
        let (same, success) = whole in
        let (d', handled, stored) =
          handle_upload_request_stores fs laws server.upload_net node seq f c.chunks c.ready
            c.opened proper new (rw same fits) word c.listens c.answered c.selected c.in_time
            c.accepted c.reads c.pieces c.creates in
        let served =
          upload_answered fs server node _ seq (length bytes) f announcing
            (some (acceptance seq port))
            (receive_upload seq c.word f plain (omega arith) (length bytes) small room)
            (rw same at handled) in
        let approved =
          can_upload_file_accepted a c.server_ip f announcing (acceptance seq port) c.server_ip
            (length bytes) port c.silence c.silence sent
            (c.delivered announcing _ (some (acceptance seq port)) served) c.quiet
            (upload_reply_acceptance seq port f c.word c.port_word) in
        let chosen =
          upload_accepted calls.attempts c.server_ip f (length bytes)
            (get_available_space node.storage) port
            (available_space_of_fits node.storage (length bytes) fits) approved in
        (
          asking,
          announcing,
          d',
          sent_first,
          sent,
          run_two fs server node _ asking announcing _ _ found_by served,
          stored ∙ ap some same,
          upload_file-upload_to calls before c.server_ip f bytes port _ found
                (rw (c.exists, c.regular, c.made, c.sized) chosen)
              ∙ rw (c.connected, c.opens, c.sized, success),
        )
