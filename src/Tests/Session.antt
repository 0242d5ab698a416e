-- ===== src/Tests/Session.antt =====
-- The theorems on whole commands at concrete inputs: a server with one file, an upload of another,
-- and a fetch of it.
use distributed_server_clien.Prelude.Bytes.{Bytes, contains, starts_with, str_eq, str_lt}
use distributed_server_clien.Prelude.{
  ◌≡◌, ◌∙◌, refl, sym, ap, take, true, List, [], ◌∷◌, ◌++◌, Option, none, some, arith,
}
use distributed_server_clien.Tests.Data.{
  old_name, old_name-NoNul, old_content, chunks, new_name, new_name-NoNul, folder, storage, disk,
  node, upload_net, download_net,
}
use distributed_server_clien.Tests.Start.{net}
use distributed_server_clien.Words.{htobe64}
use distributed_server_clien.Protocol.{discover_request, file_add_request}
use distributed_server_clien.Protocol.Message.{fill_command, complex_image, complex_message}
use distributed_server_clien.Protocol.Validation.{is_empty}
use distributed_server_clien.Exchange.Session.Discovery.{send_discover_lem, send_upload_lem}
use distributed_server_clien.Client.Requests.{send_discover, send_upload}
use distributed_server_clien.Client.Replies.{Round, fetch_reply}
use distributed_server_clien.Client.Transfer.{
  fetch_success, fetch_failure, upload_success, client_send_loop, upload_file_via_tcp,
}
use distributed_server_clien.Client.Procedures.{
  FetchNet, fetch, GroupNet, remove, UploadCalls, transferred, upload_file,
}
use distributed_server_clien.Server.FileSystem.InMemory.{
  Files, in_memory, in_memory-IsReliable, update,
}
use distributed_server_clien.Server.FileSet.{has, insert}
use distributed_server_clien.Server.Storage.{
  is_in_storage, check_and_reserve_space, get_available_space, add_file_to_storage,
}
use distributed_server_clien.Server.Upload.{
  Node, handle_upload_request, accept_upload, transfer, receive_file, receive_loop,
}
use distributed_server_clien.Server.Upload
use distributed_server_clien.Server.Upload.Complete.{acceptance}
use distributed_server_clien.Server.Request.Decoding.{receive_discover, receive_upload}
use distributed_server_clien.Server.Upload.Atomic.{with_file}
use distributed_server_clien.Server.Upload.Transfer.{join_chunks}
use distributed_server_clien.Server.Download.{
  Sent, send_loop, send_file, send_file_via_tcp, handle_file_request,
}
use distributed_server_clien.Socket.Udp.{send_to, send_complex, recvfrom_complex}
use distributed_server_clien.Server.Run.{run_round, run}
use distributed_server_clien.Server.Remove.{handle_remove_request}
use distributed_server_clien.Exchange.Session.Removal.{fetch-remove}
use distributed_server_clien.Exchange.Session.Fetch.{CarriesFetch, fetch-run_round}
use distributed_server_clien.Exchange.Session.Upload.{
  CarriesUpload, discover_answered, upload_answered, run_two, upload_file-run,
}
use distributed_server_clien.Exchange.Session.RoundTrip.{fetch-upload_file}

abbrev pub server_ip : Bytes
server_ip = b'1' ∷ []

abbrev pub timeout : Round
timeout = record { datagram = none; source_ip = [] }

-- What arrives at the client: the one reply of the server between two timeouts.
abbrev arriving : Option (Node Files × List (Option Bytes)) → List Round
arriving none = []
arriving (some (node', [])) = []
arriving (some (node', reply ∷ replies)) =
    timeout ∷ record { datagram = reply; source_ip = server_ip } ∷ timeout ∷ []

abbrev fetch_net : Node Files → FetchNet
fetch_net n = record {
  message_seq = 9;
  socket = true;
  inet_aton = true;
  sendto = some 20;
  rounds = λ datagram. arriving (run_round in_memory net n (some datagram));
  connected = λ port. true;
  reads = λ port. some (5 ∷ 6 ∷ []) ∷ some (7 ∷ []) ∷ [];
}

abbrev server_sends : Option Bytes × Option Sent → Bytes
server_sends (reply, none) = []
server_sends (reply, some s) = join_chunks s.chunks

-- What the server is behind the upload of a file with the bytes 5, 6 and 7.
abbrev uploaded : Node Files
uploaded =
    let path = folder ++ new_name in
    record {
      storage = with_file storage new_name 3;
      shared_folder = folder;
      disk =
          update (update (update disk path (some [])) path (some (5 ∷ 6 ∷ []))) path
            (some (5 ∷ 6 ∷ 7 ∷ []));
    }

uploaded_listed : is_in_storage uploaded.storage new_name ≡ true
unfolding is_in_storage has insert str_eq str_lt
uploaded_listed = refl

uploaded_sent :
    server_sends (handle_file_request in_memory download_net uploaded 9 new_name) ≡ 5 ∷ 6 ∷ 7 ∷ []
unfolding str_eq handle_file_request send_complex send_to send_file_via_tcp send_file send_loop take
uploaded_sent = refl

fetch_CarriesFetch : CarriesFetch in_memory net uploaded (fetch_net uploaded) new_name
unfolding fetch_reply recvfrom_complex
fetch_CarriesFetch = record {
  word = omega arith;
  created = refl;
  known = refl;
  asked = refl;
  listens = refl;
  port_pos = omega arith;
  port_word = omega arith;
  answered = refl;
  ready = 1;
  selected = refl;
  in_time = refl;
  accepted = refl;
  written = λ j. refl;
  noise = timeout ∷ [];
  source_ip = server_ip;
  more = timeout ∷ [];
  quiet = (refl, tt);
  delivered = λ datagram reply h. ap arriving h;
  connected = refl;
  chunks = chunks;
  pieces = (omega arith, omega arith, (omega arith, omega arith, tt));
  reads = refl;
  received = λ s h. sym uploaded_sent ∙ ap (λ (o : Option Sent). server_sends (none, o)) h;
}

fetch-run_round_example :
    ((fetch in_memory (fetch_net uploaded) [] new_name disk).1 ≡ fetch_success ∷ [])
    × ((fetch in_memory (fetch_net uploaded) [] new_name disk).0 new_name ≡ some (5 ∷ 6 ∷ 7 ∷ []))
unfolding str_eq
fetch-run_round_example =
    fetch-run_round in_memory in_memory-IsReliable net uploaded (fetch_net uploaded) new_name
      (5 ∷ 6 ∷ 7 ∷ []) [] disk (update disk new_name (some [])) new_name-NoNul (omega arith)
      (omega arith) uploaded_listed refl refl fetch_CarriesFetch

abbrev answers : Bytes → List Round
answers datagram = arriving (run_round in_memory net node (some datagram))

abbrev pub uploading : UploadCalls
uploading = record {
  exists = true;
  is_regular_file = true;
  file_size = 3;
  group = record {
    message_seq = 8;
    socket = true;
    inet_aton = true;
    sendto = some 18;
    rounds = answers;
  };
  socket = true;
  attempts = λ k. record {
    message_seq = 11;
    inet_aton = λ address. true;
    sendto = some 28;
    rounds = λ address. answers;
  };
  connected = λ address port. true;
  write = λ k. true;
  file = some (5 ∷ 6 ∷ 7 ∷ []);
}

client_sends :
    join_chunks (upload_file_via_tcp true (λ k. true) (some (5 ∷ 6 ∷ 7 ∷ [])) 3).0 ≡ 5 ∷ 6 ∷ 7 ∷ []
unfolding upload_file_via_tcp client_send_loop take
client_sends = refl

uploading_CarriesUpload : CarriesUpload in_memory net node uploading new_name (5 ∷ 6 ∷ 7 ∷ [])
uploading_CarriesUpload = record {
  server_ip = server_ip;
  silence = timeout ∷ [];
  quiet = (refl, tt);
  exists = refl;
  regular = refl;
  opens = refl;
  sized = refl;
  group_word = omega arith;
  group_made = refl;
  group_known = refl;
  group_asked = refl;
  address_plain = (omega arith, tt);
  address_room = omega arith;
  discover_answered = refl;
  discover_delivered = λ datagram reply h. ap arriving h;
  made = refl;
  word = omega arith;
  known = refl;
  asked = refl;
  listens = refl;
  port_word = omega arith;
  answered = refl;
  delivered = λ datagram n reply h. ap arriving h;
  connected = refl;
  written = λ j. refl;
  ready = 1;
  selected = refl;
  in_time = refl;
  accepted = refl;
  opened = update disk (folder ++ new_name) (some []);
  creates = refl;
  chunks = chunks;
  pieces = (omega arith, omega arith, (omega arith, omega arith, tt));
  reads = refl;
  received = sym client_sends;
}

upload_file-run_example :
    (asking : Bytes) × (announcing : Bytes) × (d' : Files) × (send_discover true (some 18) 8
      ≡ some asking)
    × (send_upload true (some 28) 11 new_name 3 ≡ some announcing)
    × (run in_memory ((net, some asking) ∷ (net, some announcing) ∷ []) (some node)
        ≡ some (record node { storage = with_file storage new_name 3; disk = d' }))
    × (d' (folder ++ new_name) ≡ some (5 ∷ 6 ∷ 7 ∷ []))
    × (upload_file uploading [] new_name
        ≡ transferred server_ip 4000
            (upload_file_via_tcp true (λ k. true) (some (5 ∷ 6 ∷ 7 ∷ [])) 3).0
            (some upload_success))
unfolding is_empty contains starts_with str_eq has uploading_CarriesUpload
upload_file-run_example =
    upload_file-run in_memory in_memory-IsReliable net node uploading new_name (5 ∷ 6 ∷ 7 ∷ [])
      (omega arith) new_name-NoNul (omega arith) (omega arith) (omega arith) uploading_CarriesUpload
      [] refl refl

abbrev asking : Bytes
asking = fill_command discover_request ++ (htobe64 8 ++ [])

abbrev announcing : Bytes
announcing = fill_command file_add_request ++ (htobe64 11 ++ (htobe64 3 ++ new_name))

node_uploads :
    handle_upload_request in_memory upload_net node 11 new_name 3
    ≡ some (uploaded, some (acceptance 11 4000))
unfolding handle_upload_request check_and_reserve_space get_available_space add_file_to_storage
    accept_upload send_complex send_to Upload.upload_file_via_tcp transfer receive_file receive_loop
    has insert str_eq str_lt is_empty contains starts_with take fill_command complex_image
    complex_message htobe64
node_uploads = refl

node_run :
    run in_memory ((net, some asking) ∷ (net, some announcing) ∷ []) (some node) ≡ some uploaded
node_run =
    run_two in_memory net node uploaded asking announcing _ _
      (discover_answered in_memory net node 8 asking (receive_discover 8 (omega arith)))
      (upload_answered in_memory net node uploaded 11 3 new_name announcing _
        (receive_upload 11 (omega arith) new_name new_name-NoNul (omega arith) 3 (omega arith)
          (omega arith))
        node_uploads)

fetch-upload_file_example :
    ((fetch in_memory (fetch_net uploaded) [] new_name disk).1 ≡ fetch_success ∷ [])
    × ((fetch in_memory (fetch_net uploaded) [] new_name disk).0 new_name ≡ some (5 ∷ 6 ∷ 7 ∷ []))
unfolding is_empty contains starts_with str_eq has
fetch-upload_file_example =
    fetch-upload_file in_memory in_memory-IsReliable net node uploading new_name (5 ∷ 6 ∷ 7 ∷ [])
      (omega arith) new_name-NoNul (omega arith) (omega arith) (omega arith) refl refl
      uploading_CarriesUpload asking announcing uploaded (send_discover_lem 8)
      (send_upload_lem 11 3 new_name new_name-NoNul (omega arith)) node_run net (fetch_net uploaded)
      [] disk (update disk new_name (some [])) refl fetch_CarriesFetch

-- The node behind a removal of its file, and a fetch that comes too late.
abbrev removed : Node Files
removed = handle_remove_request in_memory node old_name

abbrev group : GroupNet
group = record {
  message_seq = 12;
  socket = true;
  inet_aton = true;
  sendto = some 20;
  rounds = λ datagram. [];
}

fetch-remove_example :
    (asking : Bytes) × (remove group old_name ≡ some asking)
    × (run_round in_memory net node (some asking) ≡ some (removed, []))
    × (removed.disk (folder ++ old_name) ≡ none)
    × (fetch in_memory (fetch_net removed) [] old_name disk ≡ (disk, fetch_failure ∷ []))
unfolding has str_eq
fetch-remove_example =
    fetch-remove in_memory in_memory-IsReliable net net node old_name old_content []
      (update disk (folder ++ old_name) none) disk old_name-NoNul (omega arith) (omega arith) group
      (fetch_net removed) (tt, tt) refl refl refl (omega arith) refl refl refl (omega arith) refl
      refl refl (λ datagram h. rw (ap arriving h) tt)
