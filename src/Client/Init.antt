-- ===== src/Client/Init.antt =====
-- The start of the client: the constructor and `init` (client/client.cpp), and `main`
-- (client/netstore_client.cpp) up to `run`.
use distributed_server_clien.Prelude.Bytes.{Bytes, codes, str_eq}
use distributed_server_clien.Prelude.{
  inl, inr, ◌≤◌, ℕ, ◌≡◌, Bool, false, ◌||◌, [], ◌∷◌, Option, none, some, arith, if◌then◌else◌,
}
use distributed_server_clien.Options.{
  with_slash, ClientOptions, ClientConfiguration, exits, configured, parse_client_arguments,
}
use distributed_server_clien.Options.Bounds.{Parsed-cases, parse_client_arguments_bounds}
use distributed_server_clien.Socket.Inet.{InetSocket, Table}
use distributed_server_clien.Socket.Udp.Setup.{udp_socket, create_multicast_socket}

-- The disk at the start, `none` being the exception filesystem_error, and what the system calls say
-- while the socket is set up.
pub record ClientWorld (Disk : Type 0) : Type 0 where
  pub disk : Disk
  pub create_directories : Disk → Bytes → Option Disk
  pub bad_fd : ℕ
  pub socket : Option ℕ
  pub broadcast : Bool
  pub ttl : Bool

-- What the client is when `run` starts.
pub record ClientState (Disk : Type 0) : Type 0 where
  pub configuration : ClientConfiguration
  pub disk : Disk
  pub multicast_sock : InetSocket
  pub table : Table

-- The constructor.
unfoldable pub construct : ℕ → ClientConfiguration → ClientConfiguration
construct before c = record c { out_folder = with_slash before c.out_folder }

unfoldable pub create_folder : {Disk : Type 0} → ClientWorld Disk → Bytes → Option Disk
create_folder w folder =
    if str_eq folder (codes "./") || str_eq folder (codes "../")
    then some w.disk
    else w.create_directories w.disk folder

-- `init`; `none` is an exception.
unfoldable pub init :
    {Disk : Type 0} → ClientWorld Disk → ClientConfiguration → Option (ClientState Disk)
init w c = elim (create_folder w c.out_folder) [
  | none ↦ none
  | some disk ↦
      let made = create_multicast_socket w.bad_fd w.socket w.broadcast w.ttl udp_socket [] in
      elim made.thrown [
        | some e ↦ none
        | none ↦ some (record {
          configuration = c;
          disk = disk;
          multicast_sock = made.socket;
          table = made.table;
        })
      ]
]

-- What `main` comes to; no handler is around `init`, so that an exception terminates the program.
pub data ClientBoot (Disk : Type 0) : Type 0 where
  client_exits : ℕ → ClientBoot Disk
  terminates : ClientBoot Disk
  client_runs : ClientState Disk → ClientBoot Disk

abbrev client_boot_of : {Disk : Type 0} → Option (ClientState Disk) → ClientBoot Disk
client_boot_of none = terminates
client_boot_of (some s) = client_runs s

unfoldable pub main :
    {Disk : Type 0} → Option ClientOptions → ℕ → ClientWorld Disk → ClientBoot Disk
main given before w = elim (parse_client_arguments given) [
  | exits code ↦ client_exits code
  | configured c ↦ client_boot_of (init w (construct before c))
]

-- The multicast socket of a client that runs is open, and nothing else is.
init-open :
    {Disk : Type 0} (w : ClientWorld Disk) (c : ClientConfiguration) (s : ClientState Disk)
    → init w c ≡ some s
    → (s.configuration ≡ c)
      × (s.multicast_sock.closed ≡ false)
      × (s.table ≡ s.multicast_sock.sock ∷ [])
unfolding init create_multicast_socket
init-open w c s h = ground arith

client_boot_of-runs :
    {Disk : Type 0} (o : Option (ClientState Disk)) (s : ClientState Disk)
    → client_boot_of o ≡ client_runs s
    → o ≡ some s
client_boot_of-runs none s h = absurd (cc h)
client_boot_of-runs (some s') s h = cc h

-- If `main` comes to `run`, the port is in range, the multicast socket is open, and it is the only
-- descriptor.
main-open :
    {Disk : Type 0} (given : Option ClientOptions) (before : ℕ) (w : ClientWorld Disk)
    (s : ClientState Disk)
    → main given before w ≡ client_runs s
    → (1 ≤ s.configuration.cmd_port)
      × (s.configuration.cmd_port ≤ 65535)
      × (s.multicast_sock.closed ≡ false)
      × (s.table ≡ s.multicast_sock.sock ∷ [])
unfolding main construct
main-open given before w s h = elim (Parsed-cases (parse_client_arguments given)) [
  | inl (code, e) ↦ absurd (cc (rw (e, main) at h))
  | inr (c, e) ↦
      let (same, open_socket, only) =
        init-open w (construct before c) s
          (client_boot_of-runs (init w (construct before c)) s (rw (e, main) at h)) in
      let (low, high) = parse_client_arguments_bounds given c e in
      (rw same low, rw same high, open_socket, only)
]
