-- ===== src/Tests/Crash.antt =====
-- Uploads that go wrong at concrete inputs: one for the name of a directory, and one to a first
-- server with little room.
use distributed_server_clien.Prelude.Bytes.{Bytes, contains, starts_with, str_eq}
use distributed_server_clien.Prelude.{
  ℕ, ◌≡◌, refl, true, [], ◌∷◌, ◌++◌, none, some, arith, if◌then◌else◌,
}
use distributed_server_clien.Tests.Data.{folder, disk, storage, node, new_name, chunks, upload_net}
use distributed_server_clien.Tests.Start.{net}
use distributed_server_clien.Tests.Session.{server_ip, timeout, uploading}
use distributed_server_clien.Words.{htobe64}
use distributed_server_clien.Protocol.{discover_response}
use distributed_server_clien.Protocol.Message.{fill_command}
use distributed_server_clien.Protocol.Validation.{is_empty}
use distributed_server_clien.Socket.Udp.{recvfrom_complex}
use distributed_server_clien.Client.Requests.{send_upload}
use distributed_server_clien.Client.Replies.{Round, discover_reply}
use distributed_server_clien.Client.Replies.Acceptance.{discover_reply-valid}
use distributed_server_clien.Client.Upload.{file_too_big}
use distributed_server_clien.Client.Upload.Address.{spaces, upload_file-silent_discover}
use distributed_server_clien.Client.Procedures.{
  UploadCalls, silent_discover, not_started, upload_file,
}
use distributed_server_clien.Server.FileSystem.{FileSystem, IsLawful, present}
use distributed_server_clien.Server.FileSystem.InMemory.{
  Files, in_memory, in_memory-IsReliable, update,
}
use distributed_server_clien.Server.FileSet.{has}
use distributed_server_clien.Server.Run.{run}
use distributed_server_clien.Server.Upload.{handle_upload_request}
use distributed_server_clien.Server.Upload.Atomic.{with_file}
use distributed_server_clien.Server.Upload.Complete.{acceptance}
use distributed_server_clien.Server.Upload.Unwritten.{handle_upload_request-write}
use distributed_server_clien.Exchange.Session.Discovery.{send_discover_lem}
use distributed_server_clien.Exchange.Session.Crash.{run-send_upload_directory}

abbrev parent : Bytes
parent = b'.' ∷ b'.' ∷ []

-- The file system in memory with one directory, which no stream opens and `remove` refuses.
abbrev with_parent : FileSystem
with_parent = record in_memory {
  exists = λ d p. if str_eq p (folder ++ parent) then true else present (d p);
  remove = λ d p. if str_eq p (folder ++ parent) then none else some (update d p none);
  open_out = λ d p. if str_eq p (folder ++ parent) then none else some (update d p (some []));
}

run-send_upload_directory_example :
    (datagram : Bytes) × (send_upload true (some 28) 7 parent 5 ≡ some datagram)
    × (run with_parent ((net, some datagram) ∷ []) (some node) ≡ none)
unfolding str_eq has is_empty contains starts_with
run-send_upload_directory_example =
    run-send_upload_directory with_parent net node 7 5 parent [] (omega arith) (omega arith)
      (omega arith, (omega arith, tt)) (omega arith) refl refl (omega arith) (omega arith) refl refl
      refl refl refl

-- The file system in memory on a disk that is full: no write arrives.
abbrev full : FileSystem
full = record in_memory { write = λ d p bs. d }

full-IsLawful : IsLawful full
full-IsLawful = record {
  exists_file = in_memory-IsReliable.lawful.exists_file;
  content-remove = in_memory-IsReliable.lawful.content-remove;
  content-open_out = in_memory-IsReliable.lawful.content-open_out;
  content-write_other = λ d p q new h. refl;
}

handle_upload_request-write_example :
    (d' : Files) × (handle_upload_request full upload_net node 7 new_name 3
      ≡ some (
        record node { storage = with_file storage new_name 3; disk = d' },
        some (acceptance 7 4000),
      ))
    × (d' (folder ++ new_name) ≡ some [])
unfolding str_eq has is_empty contains
handle_upload_request-write_example =
    handle_upload_request-write full full-IsLawful upload_net node 7 new_name chunks 1
      (update disk (folder ++ new_name) (some [])) (λ d bs h. h) refl refl (omega arith)
      (omega arith) refl refl refl refl refl refl
      (omega arith, omega arith, (omega arith, omega arith, tt)) refl

-- A reply to the discovery from a server with this much room.
abbrev offers : ℕ → Round
offers space = record {
  datagram = some (fill_command discover_response ++ (htobe64 8 ++ (htobe64 space ++ server_ip)));
  source_ip = server_ip;
}

abbrev crowded : UploadCalls
crowded = record uploading {
  group = record {
    message_seq = 8;
    socket = true;
    inet_aton = true;
    sendto = some 18;
    rounds = λ datagram. timeout ∷ offers 2 ∷ offers 500 ∷ [];
  };
}

upload_file-silent_discover_example :
    ((silent_discover crowded.group []).servers
      ≡ record { available_space = 2 } ∷ spaces 8 (offers 500 ∷ []))
    × (upload_file crowded [] new_name ≡ not_started file_too_big)
unfolding recvfrom_complex discover_reply
upload_file-silent_discover_example =
    upload_file-silent_discover crowded [] new_name _ server_ip 2 (timeout ∷ []) (offers 500 ∷ [])
      (offers 2) refl refl refl (send_discover_lem 8) refl refl
      (discover_reply-valid 8 (omega arith) server_ip (omega arith, tt) 2 (omega arith)
        (omega arith))
      (omega arith)
