-- ===== src/Tests/Buffer.antt =====
-- The theorems on the variables that the threads of the server share at concrete inputs.
use distributed_server_clien.Prelude.Bytes.{Bytes, str_eq}
use distributed_server_clien.Prelude.{
  ◌≡◌, refl, List, [], ◌∷◌, ◌++◌, Option, none, some, arith, replicate,
}
use distributed_server_clien.Tests.Data.{
  old_name, old_name-NoNul, new_name, new_name-NoNul, folder, storage, disk, node,
}
use distributed_server_clien.Tests.Start.{net, in_memory-Removable}
use distributed_server_clien.Words.{htobe64}
use distributed_server_clien.Protocol.{file_get_request, file_add_request, file_remove_request}
use distributed_server_clien.Protocol.Message.{fill_command}
use distributed_server_clien.Server.FileSystem.InMemory.{
  Files, in_memory, in_memory-IsReliable, update,
}
use distributed_server_clien.Server.FileSet.{has}
use distributed_server_clien.Server.Storage.{is_in_storage}
use distributed_server_clien.Server.Request.Decoding.{receive_fetch, receive_upload}
use distributed_server_clien.Server.Upload.{Node, handle_upload_request}
use distributed_server_clien.Server.Upload.Transfer.{join_chunks}
use distributed_server_clien.Server.Download.{Sent}
use distributed_server_clien.Server.Run.{ServerNet, run}
use distributed_server_clien.Server.Buffer.{Buffer, upload_thread, Turn, receive, begin, play}
use distributed_server_clien.Server.Buffer.Turns.{seen}
use distributed_server_clien.Server.Buffer.Prompt.{prompt, replies, node_of, received, play-run}
use distributed_server_clien.Server.Buffer.Late.{taken, late_fetch, late_upload}

-- The variables in front of the first datagram.
abbrev buffer : Buffer
buffer = record {
  message = record { command = []; message_seq = replicate 8 0; param = replicate 8 0; text = [] };
  source_address = [];
}

abbrev one : Bytes
one = b'1' ∷ []

abbrev two : Bytes
two = b'2' ∷ []

-- The datagrams of two clients: each asks for a file, or offers one.
abbrev get_old : Bytes
get_old = fill_command file_get_request ++ (htobe64 7 ++ old_name)

abbrev get_new : Bytes
get_new = fill_command file_get_request ++ (htobe64 8 ++ new_name)

abbrev add_old : Bytes
add_old = fill_command file_add_request ++ (htobe64 7 ++ (htobe64 5 ++ old_name))

abbrev add_new : Bytes
add_new = fill_command file_add_request ++ (htobe64 8 ++ (htobe64 3 ++ new_name))

abbrev removal : Bytes
removal = fill_command file_remove_request ++ (htobe64 7 ++ old_name)

abbrev rounds : List (ServerNet × Option (Bytes × Bytes))
rounds = (net, some (get_old, one)) ∷ (net, none) ∷ (net, some (removal, two)) ∷ []

play-run_example :
    (seen in_memory
        (play in_memory (prompt rounds) (record { node = node; buffer = buffer; threads = [] }))
      ≡ replies in_memory rounds node)
    × (node_of in_memory (replies in_memory rounds node)
        ≡ run in_memory (received in_memory rounds) (some node))
play-run_example = play-run in_memory rounds node buffer

abbrev turns : List Turn
turns =
    receive net (some (add_new, one))
    ∷ receive net (some (add_old, two))
    ∷ begin net 1
    ∷ receive net (some (removal, two))
    ∷ begin net 0
    ∷ []

-- A file in the shared folder that is not in storage.
abbrev hidden : Node Files
hidden = record {
  storage = storage;
  shared_folder = folder;
  disk = update disk (folder ++ new_name) (some (9 ∷ []));
}

late_fetch_example :
    (reply : Option Bytes) × (sent : Sent) × (play in_memory
        (receive net (some (get_old, one)) ∷ receive net (some (get_new, two)) ∷ begin net 0 ∷ [])
        (record { node = hidden; buffer = buffer; threads = [] })
      ≡ some (
        record { node = hidden; buffer = taken get_new two; threads = [] },
        record { destination_address = one; datagrams = reply ∷ []; file = some sent } ∷ [],
      ))
    × (join_chunks sent.chunks ≡ 9 ∷ [])
unfolding is_in_storage has str_eq
late_fetch_example =
    late_fetch in_memory in_memory-IsReliable net hidden buffer get_old get_new one two old_name
      new_name 7 8
      (receive_fetch 7 (omega arith) old_name old_name-NoNul (omega arith) (omega arith)) refl
      (receive_fetch 8 (omega arith) new_name new_name-NoNul (omega arith) (omega arith)) refl
      (9 ∷ []) 1 new_name-NoNul (omega arith) refl refl refl refl refl refl (λ j. refl)

late_upload_example :
    (node' : Node Files) × (reply : Option Bytes) × (handle_upload_request in_memory net.upload_net
        node 7 new_name 5
      ≡ some (node', reply))
    × (play in_memory
          (receive net (some (add_old, one)) ∷ receive net (some (add_new, two)) ∷ begin net 0 ∷ [])
          (record { node = node; buffer = buffer; threads = [] })
        ≡ some (
          record { node = node'; buffer = taken add_new two; threads = upload_thread 8 3 ∷ [] },
          record { destination_address = two; datagrams = reply ∷ []; file = none } ∷ [],
        ))
late_upload_example =
    late_upload in_memory in_memory-IsReliable net node buffer add_old add_new one two old_name
      new_name 7 8 (in_memory-Removable folder new_name) 5 3
      (receive_upload 7 (omega arith) old_name old_name-NoNul (omega arith) 5 (omega arith)
        (omega arith))
      (receive_upload 8 (omega arith) new_name new_name-NoNul (omega arith) 3 (omega arith)
        (omega arith))
