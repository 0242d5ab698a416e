-- ===== src/Exchange/Session/Fetch.antt =====
-- `Client::fetch` against a server that has the file.
use distributed_server_clien.Prelude.Bytes.{Bytes, NoNul}
use distributed_server_clien.Prelude.{
  ℕ, ◌+◌, ◌≤◌, ◌<◌, ◌^◌, ◌≡◌, ◌∙◌, ap, true, false, List, [], ◌∷◌, ◌++◌, Option, some, map, arith,
  length, ◌==◌,
}
use distributed_server_clien.Words.{htobe64}
use distributed_server_clien.Wire.{send_simple_lem}
use distributed_server_clien.Protocol.{file_get_request}
use distributed_server_clien.Protocol.Message.{fill_command}
use distributed_server_clien.Socket.Udp.{send_simple_to}
use distributed_server_clien.Client.Requests.{send_fetch}
use distributed_server_clien.Client.Replies.{Round, receive_fetch_file_response}
use distributed_server_clien.Client.Replies.Loops.{NoFetchReply, receive_fetch_file_response_first}
use distributed_server_clien.Client.Transfer.{fetch_success, fetch_file_via_tcp}
use distributed_server_clien.Client.Procedures.{FetchNet, fetch_from_port, fetch}
use distributed_server_clien.Server.FileSystem.{FileSystem, IsReliable}
use distributed_server_clien.Server.Storage.{is_in_storage}
use distributed_server_clien.Server.Request.{request, receive_request}
use distributed_server_clien.Server.Request
use distributed_server_clien.Server.Request.Decoding.{receive_fetch}
use distributed_server_clien.Server.Upload.{Node}
use distributed_server_clien.Server.Upload.Transfer.{AreChunks, join_chunks}
use distributed_server_clien.Server.Download.{Sent, handle_file_request}
use distributed_server_clien.Server.Download.Chunks.{handle_file_request-join_chunks}
use distributed_server_clien.Server.Run.{ServerNet, serve, serve_received, run_round}
use distributed_server_clien.Exchange.Replies.{fetch_reply-handle_file_request}
use distributed_server_clien.Exchange.Transfers.{fetch_file_via_tcp-handle_file_request}

module _ (fs : FileSystem) where
  open fs use {Disk, content, open_out}

  -- No call fails around a fetch; the datagram that the server answers the client with arrives, with
  -- any rounds before it that hold no valid reply, and any behind it; and TCP hands over the bytes
  -- that the server writes, in pieces of any size.
  pub record CarriesFetch (server : ServerNet) (node : Node Disk) (net : FetchNet) (f : Bytes)
      : Type 0 where
    pub word : net.message_seq < 2 ^ 64
    pub created : net.socket ≡ true
    pub known : net.inet_aton ≡ true
    pub asked : net.sendto ≡ some (18 + length f)
    pub listens : server.download_net.listening ≡ true
    pub port_pos : 0 < server.download_net.port
    pub port_word : server.download_net.port < 2 ^ 16
    pub answered : server.download_net.sendto (26 + length f) ≡ some (26 + length f)
    pub ready : ℕ
    pub selected : server.download_net.select ≡ some ready
    pub in_time : (ready == 0) ≡ false
    pub accepted : server.download_net.accept ≡ true
    pub written : (j : ℕ) → server.download_net.write j ≡ true
    pub noise : List Round
    pub source_ip : Bytes
    pub more : List Round
    pub quiet : NoFetchReply net.message_seq f noise
    pub delivered :
        (datagram : Bytes) (reply : Option Bytes)
        → run_round fs server node (some datagram) ≡ some (node, reply ∷ [])
        → net.rounds datagram ≡ noise ++ record { datagram = reply; source_ip = source_ip } ∷ more
    pub connected : net.connected server.download_net.port ≡ true
    pub chunks : List Bytes
    pub pieces : AreChunks chunks
    pub reads : net.reads server.download_net.port ≡ map some chunks
    pub received :
        (s : Sent)
        → (handle_file_request fs server.download_net node net.message_seq f).1 ≡ some s
        → join_chunks chunks ≡ join_chunks s.chunks

pub send_fetch_lem :
    (seq : ℕ) (f : Bytes)
    → NoNul f
    → length f ≤ 65481
    → send_fetch true (some (18 + length f)) seq f
      ≡ some (fill_command file_get_request ++ (htobe64 seq ++ f))
unfolding send_fetch send_simple_to
send_fetch_lem seq f plain room =
    send_simple_lem seq file_get_request f (omega arith) plain (omega arith)

fetch_answered :
    (fs : FileSystem) (server : ServerNet) (node : Node fs.Disk) (seq : ℕ) (f datagram : Bytes)
    → receive_request (some datagram) ≡ some (request (Request.fetch seq f))
    → is_in_storage node.storage f ≡ true
    → run_round fs server node (some datagram)
      ≡ some (node, (handle_file_request fs server.download_net node seq f).0 ∷ [])
unfolding run_round serve_received serve
fetch_answered fs server node seq f datagram decoded there = rw (decoded, run_round, there)

fetch-fetch_file_via_tcp :
    (fs : FileSystem) (net : FetchNet) (out_folder f datagram : Bytes) (d : fs.Disk) (port : ℕ)
    → net.socket ≡ true
    → send_fetch net.inet_aton net.sendto net.message_seq f ≡ some datagram
    → receive_fetch_file_response net.message_seq f (net.rounds datagram) ≡ port
    → 0 < port
    → fetch fs net out_folder f d
      ≡ fetch_file_via_tcp fs (net.connected port) (net.reads port) out_folder f d
unfolding fetch fetch_from_port
fetch-fetch_file_via_tcp fs net out_folder f datagram d port created sent read pos =
    rw (created, sent, fetch, read) (ground arith)

module _ (fs : FileSystem) (laws : IsReliable fs) where
  open fs use {Disk, content, open_out}

  -- If a server has a file in its storage and on its disk, `fetch` with the round in which the
  -- server answers reports a success and nothing else, and the local file has exactly the bytes of
  -- the server's file. The conditions are a reliable file system, a name that is not empty, without
  -- NUL and of at most 65481 bytes, that no call fails around the fetch and the local file opens,
  -- that the reply of the server arrives with any rounds without a valid reply before it and any
  -- behind it, and that TCP hands over what is written in pieces of any size.
  pub fetch-run_round :
      (server : ServerNet) (node : Node Disk) (net : FetchNet) (f bytes out_folder : Bytes)
      (d d' : Disk)
      → NoNul f
      → 0 < length f
      → length f ≤ 65481
      → is_in_storage node.storage f ≡ true
      → content node.disk (node.shared_folder ++ f) ≡ some bytes
      → open_out d (out_folder ++ f) ≡ some d'
      → CarriesFetch fs server node net f
      → ((fetch fs net out_folder f d).1 ≡ fetch_success ∷ [])
        × (content (fetch fs net out_folder f d).0 (out_folder ++ f) ≡ some bytes)
  fetch-run_round server node net f bytes out_folder d d' plain named room there stored opened c =
      let seq = net.message_seq in
      let down = server.download_net in
      let datagram = fill_command file_get_request ++ (htobe64 seq ++ f) in
      let sent : send_fetch net.inet_aton net.sendto seq f ≡ some datagram =
        rw (c.known, c.asked) (send_fetch_lem seq f plain room) in
      let round = c.delivered datagram (handle_file_request fs down node seq f).0 (
        fetch_answered fs server node seq f datagram
          (receive_fetch seq c.word f plain (omega arith) named) there) in
      let answer =
        receive_fetch_file_response_first seq f c.noise c.more
          (record {
            datagram = (handle_file_request fs down node seq f).0;
            source_ip = c.source_ip;
          })
          down.port c.quiet
          (fetch_reply-handle_file_request fs down node seq f c.word plain room c.port_pos
            c.port_word c.listens c.answered) in
      let run =
        fetch-fetch_file_via_tcp fs net out_folder f datagram d down.port c.created sent
          (ap (receive_fetch_file_response seq f) round ∙ answer) c.port_pos
        ∙ rw (c.connected, c.reads) in
      let (s, handled, complete, whole, small) =
        handle_file_request-join_chunks fs down node seq f bytes c.ready plain room stored c.listens
          c.answered c.selected c.in_time c.accepted c.written in
      let served = ap (λ (r : Option Bytes × Option Sent). r.1) handled in
      let (success, got) =
        fetch_file_via_tcp-handle_file_request fs laws down node seq f bytes c.ready s c.chunks
          out_folder d d' plain room stored c.listens c.answered c.selected c.in_time c.accepted
          c.written served (c.received s served) c.pieces opened in
      (rw run success, rw run got)
