-- ===== src/Server/Init.antt =====
-- The start of a server: the constructor, `init`, `init_sockets` (server/server.cpp) and `main`
-- (server/netstore_server.cpp) up to `run`.
pub mod Agrees
use distributed_server_clien.Prelude.Bytes.{Bytes, codes, str_eq}
use distributed_server_clien.Prelude.{
  ℕ, Bool, true, false, not, ◌||◌, List, [], ◌∷◌, Option, none, some, if◌then◌else◌,
}
use distributed_server_clien.Options.{
  with_slash, ServerOptions, ServerConfiguration, Parsed, exits, configured, parse_server_arguments,
}
use distributed_server_clien.Socket.Inet.{InetSocket, Table, Done, set_option}
use distributed_server_clien.Socket.Udp.Setup.{
  udp_socket, create_socket, join_multicast_group, bind,
}
use distributed_server_clien.Server.Storage.{
  Storage, Entry, Started, no_folder, not_a_directory, started, generate_files_in_storage,
}
use distributed_server_clien.Server.Upload.{Node}

-- What the system calls say while the sockets are set up.
pub record SocketCalls : Type 0 where
  pub bad_fd : ℕ
  pub recv_socket : Option ℕ
  pub recv_named : Option ℕ
  pub multicast_aton : Bool
  pub add_membership : Bool
  pub recv_reuse : Bool
  pub recv_bound : Bool
  pub send_socket : Option ℕ
  pub send_named : Option ℕ
  pub send_reuse : Bool

-- The next call, unless one has thrown.
abbrev pub next : Done → (InetSocket → Table → Done) → Done
next d f = elim d.thrown [ some e ↦ d | none ↦ f d.socket d.table ]

unfoldable pub init_recv_socket : SocketCalls → Table → Done
init_recv_socket c t =
    next
      (next
        (next (create_socket c.bad_fd c.recv_socket c.recv_named udp_socket t)
          (join_multicast_group c.multicast_aton c.add_membership))
        (set_option c.recv_reuse))
      (bind c.recv_bound)

unfoldable pub init_send_socket : SocketCalls → Table → Done
init_send_socket c t =
    next (create_socket c.bad_fd c.send_socket c.send_named udp_socket t) (set_option c.send_reuse)

-- `init_sockets`: whether both sockets are set up.
unfoldable pub init_sockets : SocketCalls → Table → Bool
init_sockets c t =
    let r = init_recv_socket c t in
    elim r.thrown [
      | some e ↦ false
      | none ↦ elim (init_send_socket c r.table).thrown [ some e ↦ false | none ↦ true ]
    ]

-- The disk at the start, as boost::filesystem shows it; `none` is the exception filesystem_error.
pub record World (Disk : Type 0) : Type 0 where
  pub disk : Disk
  pub create_directories : Disk → Bytes → Option Disk
  pub exists : Disk → Bytes → Bool
  pub is_directory : Disk → Bytes → Bool
  pub entries : Disk → Bytes → List Entry
  pub calls : SocketCalls

-- The constructor.
unfoldable pub construct : {Disk : Type 0} → ℕ → ServerConfiguration → Disk → Node Disk
construct before c disk = record {
  storage = record { used_space = 0; max_available_space = c.max_space; files_in_storage = [] };
  shared_folder = with_slash before c.shared_folder;
  disk = disk;
}

unfoldable pub create_folder : {Disk : Type 0} → World Disk → Bytes → Option Disk
create_folder w folder =
    if str_eq folder (codes "./") || str_eq folder (codes "../")
    then some w.disk
    else w.create_directories w.disk folder

abbrev pub started_node : {Disk : Type 0} → World Disk → Node Disk → Started → Option (Node Disk)
started_node w node no_folder = none
started_node w node not_a_directory = none
started_node w node (started s) =
    if init_sockets w.calls [] then some (record node { storage = s }) else none

-- `init` from `generate_files_in_storage` on.
unfoldable pub fill_storage : {Disk : Type 0} → World Disk → Node Disk → Option (Node Disk)
fill_storage w node = started_node w node (
    generate_files_in_storage (w.exists node.disk node.shared_folder)
      (w.is_directory node.disk node.shared_folder) (w.entries node.disk node.shared_folder)
      node.storage)

-- `init`: the node that `run` starts with; `none` is an exception.
unfoldable pub init : {Disk : Type 0} → World Disk → Node Disk → Option (Node Disk)
init w node = elim (create_folder w node.shared_folder) [
  | none ↦ none
  | some disk ↦ fill_storage w (record node { disk = disk })
]

-- What `main` comes to.
pub data Boot (Disk : Type 0) : Type 0 where
  boot_exits : ℕ → Boot Disk
  runs : Node Disk → Boot Disk

abbrev pub boot_of : {Disk : Type 0} → Option (Node Disk) → Boot Disk
boot_of none = boot_exits 1
boot_of (some node) = runs node

unfoldable pub main : {Disk : Type 0} → Option ServerOptions → ℕ → World Disk → Boot Disk
main given before w = elim (parse_server_arguments given) [
  | exits code ↦ boot_exits code
  | configured c ↦ boot_of (init w (construct before c w.disk))
]
