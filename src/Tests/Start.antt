-- ===== src/Tests/Start.antt =====
-- The theorems on the start of the server and on its loop at concrete inputs.
use distributed_server_clien.Prelude.Bytes.{Bytes, str_eq}
use distributed_server_clien.Prelude.Int.{pos}
use distributed_server_clien.Prelude.{
  ◌≡◌, refl, true, false, List, [], ◌∷◌, ◌++◌, Option, none, some, arith, length, inr, inl, ◌≤◌,
}
use distributed_server_clien.Tests.Data.{old_name, new_name, disk, node, upload_net, download_net}
use distributed_server_clien.Protocol.{file_remove_request}
use distributed_server_clien.Protocol.Message.{fill_command}
use distributed_server_clien.Words.{htobe64}
use distributed_server_clien.Options.{
  ServerOptions, ServerConfiguration, configured, parse_server_arguments, notify_server, with_slash,
  port_out_of_range, server_timeout_out_of_range,
}
use distributed_server_clien.Server.FileSystem.InMemory.{Files, in_memory, update}
use distributed_server_clien.Socket.Inet.{set_option}
use distributed_server_clien.Socket.Udp.Setup.{create_socket, join_multicast_group, bind}
use distributed_server_clien.Server.FileSet.{has, insert}
use distributed_server_clien.Server.Storage.{Entry, add_entries, generate_files_in_storage}
use distributed_server_clien.Server.Storage.Start.{regular_size}
use distributed_server_clien.Server.FileSystem.{Removable}
use distributed_server_clien.Server.Request.{Request}
use distributed_server_clien.Server.Run.{ServerNet}
use distributed_server_clien.Server.Consistency.{IsConsistent}
use distributed_server_clien.Server.Consistency.Start.{Lists}
use distributed_server_clien.Server.Init.{
  SocketCalls, init_sockets, init_recv_socket, init_send_socket, World, construct, create_folder,
  fill_storage, init, runs, main,
}
use distributed_server_clien.Server.Init.Agrees.{main-IsConsistent}

abbrev pub net : ServerNet
net = record {
  multicast_address = b'1' ∷ [];
  sendto = λ k. some k;
  upload_net = upload_net;
  download_net = download_net;
}

-- A datagram that is no request, and a request to remove a file.
abbrev rounds : List (ServerNet × Option Bytes)
rounds =
    (net, some (1 ∷ 2 ∷ []))
    ∷ (net, some (fill_command file_remove_request ++ (htobe64 7 ++ old_name)))
    ∷ []

pub node-IsConsistent : IsConsistent in_memory 100 node
unfolding str_eq
node-IsConsistent = record {
  sorted = (tt, tt);
  files = (refl, tt);
  counted = refl;
  bounded = omega arith;
  room = omega arith;
  word = omega arith;
}

pub in_memory-Removable : (shared_folder f : Bytes) → Removable in_memory shared_folder f
in_memory-Removable shared_folder f good d h = (update d (shared_folder ++ f) none, refl)

abbrev calls : SocketCalls
calls = record {
  bad_fd = 4294967295;
  recv_socket = some 3;
  recv_named = some 0;
  multicast_aton = true;
  add_membership = true;
  recv_reuse = true;
  recv_bound = true;
  send_socket = some 4;
  send_named = some 0;
  send_reuse = true;
}

-- A folder with one file, if it is there, and one folder.
abbrev listing : Option Bytes → List Entry
listing none = record { name = new_name; is_regular_file = false; file_size = 4096 } ∷ []
listing (some bytes) =
    record { name = old_name; is_regular_file = true; file_size = length bytes }
    ∷ record { name = new_name; is_regular_file = false; file_size = 4096 }
    ∷ []

abbrev world : World Files
world = record {
  disk = disk;
  create_directories = λ d f. some d;
  exists = λ d f. true;
  is_directory = λ d f. true;
  entries = λ d f. listing (d (f ++ old_name));
  calls = calls;
}

abbrev options : Option ServerOptions
options = some (record {
  help = false;
  mcast_addr = some (b'2' ∷ []);
  cmd_port = some (pos 10001);
  max_space = some 100;
  shared_folder = some (b'd' ∷ []);
  timeout = none;
})

listing-Lists : (c : Bytes → Option Bytes) (o : Option Bytes) → c old_name ≡ o → Lists c (listing o)
unfolding has str_eq
listing-Lists c none e = (refl, inl refl, tt)
listing-Lists c (some bytes) e = (refl, inr (bytes, e, refl), (refl, inl refl, tt))

disk_size : (p : Bytes) → regular_size (listing (disk p)) ≤ 100
disk_size p = ground arith

options_room :
    (c : ServerConfiguration) → parse_server_arguments options ≡ configured c → c.max_space ≤ 100
unfolding parse_server_arguments notify_server port_out_of_range server_timeout_out_of_range
options_room c h = ground arith

made_disk : (d : Files) (f : Bytes) → create_folder world f ≡ some d → d ≡ disk
unfolding create_folder
made_disk d f made = ground arith

main_runs : main options 0 world ≡ runs node
unfolding main parse_server_arguments notify_server port_out_of_range server_timeout_out_of_range
    with_slash construct init create_folder fill_storage generate_files_in_storage add_entries
    init_sockets init_recv_socket init_send_socket create_socket join_multicast_group set_option
    bind insert str_eq
main_runs = refl

main-IsConsistent_example : IsConsistent in_memory 100 node
main-IsConsistent_example =
    main-IsConsistent in_memory 100 (omega arith) world
      (λ d f made.
        listing-Lists (λ n. d ((f ++ b'/' ∷ []) ++ n)) (d ((f ++ b'/' ∷ []) ++ old_name)) refl)
      (λ d f made. rw (made_disk d f made) (disk_size (f ++ old_name))) options 0 node refl
      options_room main_runs
