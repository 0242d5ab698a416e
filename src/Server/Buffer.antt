-- ===== src/Server/Buffer.antt =====
-- The variables of `Server::run` (server/server.cpp) that its threads share with it. `handler` of
-- utilities/helper.h copies its arguments into the thread, and a copy of `message_complex.data` is a
-- pointer to that array, as the copy of `std::ref(source_address)` is a reference; both are read when
-- the thread begins, into the parameters of its handler. The loop may have taken other datagrams by
-- then. A handler is run here at once when its thread begins.
pub mod Turns
pub mod Prompt
pub mod Late
pub mod Books
use distributed_server_clien.Prelude.Bytes.{Bytes, c_str}
use distributed_server_clien.Prelude.{
  ℕ, zero, suc, List, [], ◌∷◌, ◌++◌, Option, none, some, if◌then◌else◌,
}
use distributed_server_clien.Socket.Udp.{recvfrom_complex}
use distributed_server_clien.Protocol.Message.{ComplexMessage, SimpleMessage, as_simple}
use distributed_server_clien.Server.FileSystem.{FileSystem}
use distributed_server_clien.Server.Storage.{Storage, is_in_storage}
use distributed_server_clien.Server.Request.{
  Request, upload, discover, files_list, fetch, remove, Received, skipped, ignored, request,
  decode_request,
}
use distributed_server_clien.Server.FilesList.{handle_files_list_request}
use distributed_server_clien.Server.Upload.{Node, handle_upload_request}
use distributed_server_clien.Server.Download.{Sent, handle_file_request}
use distributed_server_clien.Server.Run.{ServerNet, serve}

-- `message_complex` and `source_address`.
pub record Buffer : Type 0 where
  pub message : ComplexMessage
  pub source_address : Bytes

-- What a thread that has not begun holds by value.
pub data Thread : Type 0 where
  upload_thread : (message_seq file_size : ℕ) → Thread
  files_list_thread : (destination_address : Bytes) (message_seq : ℕ) → Thread
  fetch_thread : (destination_address : Bytes) (message_seq : ℕ) → Thread

-- What the loop does with a message: nothing, a handler that it calls itself, or a thread.
pub data Action : Type 0 where
  skip : Action
  call : Request → Action
  spawn : Thread → Action

unfoldable pub choose_thread : Storage → Bytes → Request → Action
choose_thread s source_address (upload message_seq filename file_size) =
    spawn (upload_thread message_seq file_size)
choose_thread s source_address (discover message_seq) = call (discover message_seq)
choose_thread s source_address (files_list message_seq pattern) =
    spawn (files_list_thread source_address message_seq)
choose_thread s source_address (fetch message_seq filename) =
    if is_in_storage s filename then spawn (fetch_thread source_address message_seq) else skip
choose_thread s source_address (remove filename) = call (remove filename)

unfoldable pub act : Storage → Bytes → Received → Action
act s source_address (skipped reason) = skip
act s source_address ignored = skip
act s source_address (request r) = choose_thread s source_address r

-- A turn of the loop up to the handler, with a datagram and the address that it comes from. A failure
-- of the socket leaves the variables as they are.
unfoldable pub take_message : Storage → Buffer → Option (Bytes × Bytes) → Buffer × Action
take_message s b none = (b, skip)
take_message s b (some (datagram, source_address)) = elim (recvfrom_complex (some datagram)) [
  | none ↦ (b, skip)
  | some (message, message_length) ↦ (
    record { message = message; source_address = source_address },
    act s source_address (decode_request message message_length),
  )
]

-- What a handler sends: where to, its datagrams, and what went over TCP.
pub record Answer : Type 0 where
  pub destination_address : Bytes
  pub datagrams : List (Option Bytes)
  pub file : Option Sent

-- The node behind some handlers and what they sent; `none` is an exception that ends the program.
abbrev pub Outcome : Type 0 → Type 0
Outcome Disk = Option (Node Disk × List Answer)

abbrev pub call_outcome :
    {Disk : Type 0} → Bytes → Option (Node Disk × List (Option Bytes)) → Outcome Disk
call_outcome address none = none
call_outcome address (some (node, datagrams)) =
    some (node, record { destination_address = address; datagrams = datagrams; file = none } ∷ [])

abbrev pub upload_outcome :
    {Disk : Type 0} → Bytes → Option (Node Disk × Option Bytes) → Outcome Disk
upload_outcome address none = none
upload_outcome address (some (node, datagram)) =
    some
      (node, record { destination_address = address; datagrams = datagram ∷ []; file = none } ∷ [])

-- The text that a pointer to the data of a SimpleMessage leads to.
abbrev pub simple_text : Buffer → Bytes
simple_text b = c_str (as_simple b.message).text

-- The thread at a place of the list, and the others.
unfoldable pub pick : ℕ → List Thread → Option (Thread × List Thread)
pick k [] = none
pick zero (t ∷ ts) = some (t, ts)
pick (suc k) (t ∷ ts) = elim (pick k ts) [ none ↦ none | some (u, us) ↦ some (u, t ∷ us) ]

-- The loop takes a datagram, or a thread begins.
pub data Turn : Type 0 where
  receive : ServerNet → Option (Bytes × Bytes) → Turn
  begin : ServerNet → ℕ → Turn

module _ (fs : FileSystem) where
  open fs use {Disk}

  -- A thread begins: it reads the shared variables and runs its handler.
  unfoldable pub begin_thread : ServerNet → Node Disk → Buffer → Thread → Outcome Disk
  begin_thread net node b (upload_thread message_seq file_size) =
      upload_outcome b.source_address
        (handle_upload_request fs net.upload_net node message_seq (c_str b.message.text) file_size)
  begin_thread net node b (files_list_thread destination_address message_seq) =
      let datagrams =
        handle_files_list_request net.sendto message_seq (simple_text b)
          node.storage.files_in_storage in
      some (
        node,
        record { destination_address = destination_address; datagrams = datagrams; file = none }
            ∷ [],
      )
  begin_thread net node b (fetch_thread destination_address message_seq) =
      let (datagram, file) =
        handle_file_request fs net.download_net node message_seq (simple_text b) in
      some (
        node,
        record { destination_address = destination_address; datagrams = datagram ∷ []; file = file }
            ∷ [],
      )

  -- The node, the variables of the loop, and the threads that have not begun.
  pub record System : Type 0 where
    pub node : Node Disk
    pub buffer : Buffer
    pub threads : List Thread

  abbrev pub in_system : Buffer → List Thread → Outcome Disk → Option (System × List Answer)
  in_system b ts outcome = elim outcome [
    | none ↦ none
    | some (node, answers) ↦ some (record { node = node; buffer = b; threads = ts }, answers)
  ]

  abbrev pub acted :
      ServerNet → Node Disk → Buffer → List Thread → Action → Option (System × List Answer)
  acted net node b ts skip = some (record { node = node; buffer = b; threads = ts }, [])
  acted net node b ts (call r) =
      in_system b ts (call_outcome b.source_address (serve fs net node r))
  acted net node b ts (spawn t) =
      some (record { node = node; buffer = b; threads = ts ++ t ∷ [] }, [])

  unfoldable pub take_turn : Turn → System → Option (System × List Answer)
  take_turn (receive net datagram) s =
      let (b, action) = take_message s.node.storage s.buffer datagram in
      acted net s.node b s.threads action
  take_turn (begin net k) s = elim (pick k s.threads) [
    | none ↦ some (s, [])
    | some (t, ts) ↦ in_system s.buffer ts (begin_thread net s.node s.buffer t)
  ]

  abbrev pub joined : List Answer → Option (System × List Answer) → Option (System × List Answer)
  joined answers none = none
  joined answers (some (s, more)) = some (s, answers ++ more)

  -- Any order of turns.
  unfoldable pub play : List Turn → System → Option (System × List Answer)
  play [] s = some (s, [])
  play (t ∷ ts) s = elim (take_turn t s) [
    | none ↦ none
    | some (s', answers) ↦ joined answers (play ts s')
  ]
