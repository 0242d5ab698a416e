-- ===== src/Server/Buffer/Late.antt =====
-- Threads that begin when the loop of `Server::run` has already taken the next datagram.
use distributed_server_clien.Prelude.Bytes.{Bytes, NoNul, c_str}
use distributed_server_clien.Prelude.{
  ℕ, ◌+◌, ◌≤◌, ◌≡◌, ◌∙◌, refl, ap, true, false, List, [], ◌∷◌, ◌++◌, Option, none, some, length,
  take, ◌==◌,
}
use mathlib.Core.Path.{subst}
use mathlib.Core.Option.{some-injective}
use distributed_server_clien.Socket.Udp.{recvfrom_complex}
use distributed_server_clien.Protocol.{sizeof_message}
use distributed_server_clien.Protocol.Message.{complex_overlay}
use distributed_server_clien.Server.FileSystem.{FileSystem, IsReliable, Removable}
use distributed_server_clien.Server.Storage.{Storage, is_in_storage}
use distributed_server_clien.Server.Request.{
  Request, upload, fetch, Received, request, decode_request, receive_request,
}
use distributed_server_clien.Server.Upload.{Node, handle_upload_request}
use distributed_server_clien.Server.Upload.Returns.{handle_upload_request-Returns}
use distributed_server_clien.Server.Upload.Transfer.{join_chunks}
use distributed_server_clien.Server.Download.{Sent, handle_file_request}
use distributed_server_clien.Server.Download.Chunks.{handle_file_request-join_chunks}
use distributed_server_clien.Server.Run.{ServerNet}
use distributed_server_clien.Server.Buffer.{
  Buffer, Thread, upload_thread, fetch_thread, simple_text, Action, skip, spawn, act, choose_thread,
  take_message, Answer, begin_thread, System, acted, pick, Turn, receive, begin, take_turn, joined,
  play,
}
use distributed_server_clien.Server.Buffer.Turns.{joined-nil, Reads, decode_request-Reads}

-- What lies in the variables of the loop once a datagram has been taken.
abbrev pub taken : Bytes → Bytes → Buffer
taken datagram source_address = record {
  message = complex_overlay (take sizeof_message datagram);
  source_address = source_address;
}

take_message-request :
    (s : Storage) (b : Buffer) (datagram source_address : Bytes) (r : Request)
    → receive_request (some datagram) ≡ some (request r)
    → (take_message s b (some (datagram, source_address))
        ≡ (taken datagram source_address, choose_thread s source_address r))
      × Reads (taken datagram source_address).message (request r)
unfolding take_message receive_request recvfrom_complex act
take_message-request s b datagram source_address r decoded =
    let got = take sizeof_message datagram in
    let m = complex_overlay got in
    let same : decode_request m (length got) ≡ request r = some-injective _ _ decoded in
    (
      ap (λ (x : Received). (taken datagram source_address, act s source_address x)) same,
      subst (Reads m) same (decode_request-Reads m (length got)),
    )

module _ (fs : FileSystem) where
  open fs use {Disk, content}

  -- The turns behind a message that has been taken.
  abbrev then_turns :
      ServerNet
      → Node Disk
      → List Thread
      → List Turn
      → Buffer × Action
      → Option (System fs × List Answer)
  then_turns net node threads turns (b, action) = elim (acted fs net node b threads action) [
    | none ↦ none
    | some (s, answers) ↦ joined fs answers (play fs turns s)
  ]

  play-spawn :
      (net : ServerNet) (node : Node Disk) (b b' : Buffer) (threads : List Thread)
      (datagram : Option (Bytes × Bytes)) (t : Thread) (turns : List Turn)
      → take_message node.storage b datagram ≡ (b', spawn t)
      → play fs
          (receive net datagram ∷ turns)
          (record { node = node; buffer = b; threads = threads })
        ≡ play fs turns (record { node = node; buffer = b'; threads = threads ++ t ∷ [] })
  unfolding play take_turn
  play-spawn net node b b' threads datagram t turns taken_as =
      ap (then_turns net node threads turns) taken_as ∙ joined-nil fs _

  play-skip :
      (net : ServerNet) (node : Node Disk) (b b' : Buffer) (threads : List Thread)
      (datagram : Option (Bytes × Bytes)) (turns : List Turn)
      → take_message node.storage b datagram ≡ (b', skip)
      → play fs
          (receive net datagram ∷ turns)
          (record { node = node; buffer = b; threads = threads })
        ≡ play fs turns (record { node = node; buffer = b'; threads = threads })
  unfolding play take_turn
  play-skip net node b b' threads datagram turns taken_as =
      ap (then_turns net node threads turns) taken_as ∙ joined-nil fs _

  play-begin_fetch :
      (net : ServerNet) (node : Node Disk) (b : Buffer) (address f : Bytes) (seq : ℕ)
      (reply : Option Bytes) (file : Option Sent)
      → f ≡ simple_text b
      → handle_file_request fs net.download_net node seq f ≡ (reply, file)
      → play fs
          (begin net 0 ∷ [])
          (record { node = node; buffer = b; threads = fetch_thread address seq ∷ [] })
        ≡ some (
          record { node = node; buffer = b; threads = [] },
          record { destination_address = address; datagrams = reply ∷ []; file = file } ∷ [],
        )
  unfolding play take_turn pick begin_thread
  play-begin_fetch net node b address f seq reply file text handled =
      rw (rw text at handled, play) refl

  play-begin_upload :
      (net : ServerNet) (node node' : Node Disk) (b : Buffer) (f : Bytes) (seq size : ℕ)
      (threads : List Thread) (reply : Option Bytes)
      → f ≡ c_str b.message.text
      → handle_upload_request fs net.upload_net node seq f size ≡ some (node', reply)
      → play fs
          (begin net 0 ∷ [])
          (record { node = node; buffer = b; threads = upload_thread seq size ∷ threads })
        ≡ some (
          record { node = node'; buffer = b; threads = threads },
          record { destination_address = b.source_address; datagrams = reply ∷ []; file = none }
              ∷ [],
        )
  unfolding play take_turn pick begin_thread
  play-begin_upload net node node' b f seq size threads reply text handled =
      rw (rw text at handled, play) refl

  module _ (laws : IsReliable fs) (net : ServerNet) (node : Node Disk) (b : Buffer)
      (first second first_address second_address : Bytes) (f g : Bytes) (seq seq' : ℕ) where
    -- On a reliable file system: if the thread of a fetch, of a name in storage, begins when the
    -- loop has already taken a second fetch, of a name that is not in storage, then nothing is sent
    -- for the second one, and the first client is sent the whole file that stands under the second
    -- name in the shared folder. The second name has no NUL and at most 65481 bytes, and no call
    -- fails.
    pub late_fetch :
        receive_request (some first) ≡ some (request (fetch seq f))
        → is_in_storage node.storage f ≡ true
        → receive_request (some second) ≡ some (request (fetch seq' g))
        → is_in_storage node.storage g ≡ false
        → (bytes : Bytes) (ready : ℕ) → NoNul g
        → length g ≤ 65481
        → content node.disk (node.shared_folder ++ g) ≡ some bytes
        → net.download_net.listening ≡ true
        → net.download_net.sendto (26 + length g) ≡ some (26 + length g)
        → net.download_net.select ≡ some ready
        → (ready == 0) ≡ false
        → net.download_net.accept ≡ true
        → ((j : ℕ) → net.download_net.write j ≡ true)
        → (reply : Option Bytes) × (sent : Sent) × (play fs
              (receive net (some (first, first_address))
                ∷ receive net (some (second, second_address))
                ∷ begin net 0
                ∷ [])
              (record { node = node; buffer = b; threads = [] })
            ≡ some (
              record { node = node; buffer = taken second second_address; threads = [] },
              record {
                destination_address = first_address;
                datagrams = reply ∷ [];
                file = some sent;
              }
                  ∷ [],
            ))
          × (join_chunks sent.chunks ≡ bytes)
    unfolding choose_thread
    late_fetch asked there asked' gone bytes ready plain room stored up sendto selected in_time
          accepted written =
        let down = net.download_net in
        let b1 = taken first first_address in
        let b2 = taken second second_address in
        let (spawned, text) = take_message-request node.storage b first first_address _ asked in
        let (skipped, text') =
          take_message-request node.storage b1 second second_address _ asked' in
        let (sent, handled, complete, whole, small) =
          handle_file_request-join_chunks fs down node seq g bytes ready plain room stored up sendto
            selected in_time accepted written in
        (
          _,
          sent,
          play-spawn net node b b1 [] _ (fetch_thread first_address seq) _ (spawned ∙ rw there refl)
              ∙ play-skip net node b1 b2 _ _ _ (skipped ∙ rw gone refl)
              ∙ play-begin_fetch net node b2 first_address g seq _ (some sent) text' handled,
          whole,
        )

    -- On a reliable file system: if the thread of an upload begins when the loop has already taken
    -- a second upload, under whose name no directory stands, its handler runs with its own number
    -- and size under the name of the second one, and what it sends goes to the second client.
    pub late_upload :
        Removable fs node.shared_folder g
        → (size size' : ℕ) → receive_request (some first) ≡ some (request (upload seq f size))
        → receive_request (some second) ≡ some (request (upload seq' g size'))
        → (node' : Node Disk) × (reply : Option Bytes) × (handle_upload_request fs net.upload_net
              node seq g size
            ≡ some (node', reply))
          × (play fs
                (receive net (some (first, first_address))
                  ∷ receive net (some (second, second_address))
                  ∷ begin net 0
                  ∷ [])
                (record { node = node; buffer = b; threads = [] })
              ≡ some (
                record {
                  node = node';
                  buffer = taken second second_address;
                  threads = upload_thread seq' size' ∷ [];
                },
                record { destination_address = second_address; datagrams = reply ∷ []; file = none }
                    ∷ [],
              ))
    unfolding choose_thread
    late_upload removes size size' asked asked' =
        let b1 = taken first first_address in
        let b2 = taken second second_address in
        let (spawned, text) = take_message-request node.storage b first first_address _ asked in
        let (spawned', text') =
          take_message-request node.storage b1 second second_address _ asked' in
        let ((node', reply), handled, folder) =
          handle_upload_request-Returns fs net.upload_net node seq g size removes in
        (
          node',
          reply,
          handled,
          play-spawn net node b b1 [] _ (upload_thread seq size) _ spawned
              ∙ play-spawn net node b1 b2 (upload_thread seq size ∷ []) _ (upload_thread seq' size')
                  _ spawned'
              ∙ play-begin_upload net node node' b2 g seq size (upload_thread seq' size' ∷ []) reply
                  text' handled,
        )
