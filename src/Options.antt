-- ===== src/Options.antt =====
-- The options of both programs (server/netstore_server.cpp, client/netstore_client.cpp) and what the
-- constructors make of them. What boost::program_options reads from the command line is a
-- parameter: `none` if it throws. An option that is not given is `none`; a number that does not fit
-- its type is among the exceptions.
pub mod Bounds
use distributed_server_clien.Prelude.Bytes.{Bytes}
use distributed_server_clien.Prelude.Int.{ℤ, pos, negsuc}
use distributed_server_clien.Prelude.{
  ℕ, ◌-◌, ◌%◌, ◌^◌, Bool, true, false, ◌||◌, [], ◌∷◌, ◌++◌, Option, none, some, ltb, leb, ◌==◌,
  if◌then◌else◌,
}

abbrev pub server_default_timeout : ℕ
server_default_timeout = 5

abbrev pub server_max_timeout : ℕ
server_max_timeout = 300

abbrev pub default_max_disc_space : ℕ
default_max_disc_space = 52428800

abbrev pub client_default_timeout : ℕ
client_default_timeout = 5

abbrev pub client_max_timeout : ℕ
client_max_timeout = 300

-- The conversion of an int64_t or an int32_t to uint16_t.
abbrev pub to_u16 : ℤ → ℕ
to_u16 (pos n) = n % 2 ^ 16
to_u16 (negsuc n) = 2 ^ 16 - 1 - n % 2 ^ 16

-- The notifier of CMD_PORT, in both programs.
unfoldable pub port_out_of_range : ℤ → Bool
port_out_of_range (pos n) = leb n 0 || ltb 65535 n
port_out_of_range (negsuc n) = true

-- The notifiers of TIMEOUT.
unfoldable pub server_timeout_out_of_range : ℤ → Bool
server_timeout_out_of_range (pos n) = ltb server_max_timeout n || leb n 0
server_timeout_out_of_range (negsuc n) = true

unfoldable pub client_timeout_out_of_range : ℤ → Bool
client_timeout_out_of_range (pos n) = ltb client_max_timeout n
client_timeout_out_of_range (negsuc n) = false

abbrev pub or_default {ℓ} : {A : Type ℓ} → Option A → A → A
or_default none d = d
or_default (some a) d = a

pub record ServerOptions : Type 0 where
  pub help : Bool
  pub mcast_addr : Option Bytes
  pub cmd_port : Option ℤ
  pub max_space : Option ℕ
  pub shared_folder : Option Bytes
  pub timeout : Option ℤ

pub record ServerConfiguration : Type 0 where
  pub mcast_addr : Bytes
  pub cmd_port : ℕ
  pub max_space : ℕ
  pub shared_folder : Bytes
  pub timeout : ℕ

-- The end of the program with an exit code, or a configuration.
pub data Parsed (C : Type 0) : Type 0 where
  exits : ℕ → Parsed C
  configured : C → Parsed C

-- `po::notify` of the server: the required options, then the notifiers.
unfoldable pub notify_server : ServerOptions → Parsed ServerConfiguration
notify_server o = elim o.mcast_addr [
  | none ↦ exits 1
  | some mcast_addr ↦ elim o.cmd_port [
    | none ↦ exits 1
    | some port ↦ elim o.shared_folder [
      | none ↦ exits 1
      | some shared_folder ↦
          let timeout = or_default o.timeout (pos server_default_timeout) in
          if port_out_of_range port || server_timeout_out_of_range timeout
          then exits 1
          else configured (record {
            mcast_addr = mcast_addr;
            cmd_port = to_u16 port;
            max_space = or_default o.max_space default_max_disc_space;
            shared_folder = shared_folder;
            timeout = to_u16 timeout;
          })
    ]
  ]
]

-- `parse_program_arguments` of the server.
unfoldable pub parse_server_arguments : Option ServerOptions → Parsed ServerConfiguration
parse_server_arguments none = exits 1
parse_server_arguments (some o) = if o.help then exits 0 else notify_server o

pub record ClientOptions : Type 0 where
  pub help : Bool
  pub mcast_addr : Option Bytes
  pub cmd_port : Option ℤ
  pub out_folder : Option Bytes
  pub timeout : Option ℤ

pub record ClientConfiguration : Type 0 where
  pub mcast_addr : Bytes
  pub cmd_port : ℕ
  pub out_folder : Bytes
  pub timeout : ℕ

-- `po::notify` of the client.
unfoldable pub notify_client : ClientOptions → Parsed ClientConfiguration
notify_client o = elim o.mcast_addr [
  | none ↦ exits 1
  | some mcast_addr ↦ elim o.cmd_port [
    | none ↦ exits 1
    | some port ↦ elim o.out_folder [
      | none ↦ exits 1
      | some out_folder ↦
          let timeout = or_default o.timeout (pos client_default_timeout) in
          if port_out_of_range port || client_timeout_out_of_range timeout
          then exits 1
          else configured (record {
            mcast_addr = mcast_addr;
            cmd_port = to_u16 port;
            out_folder = out_folder;
            timeout = to_u16 timeout;
          })
    ]
  ]
]

-- `parse_program_arguments` of the client.
unfoldable pub parse_client_arguments : Option ClientOptions → Parsed ClientConfiguration
parse_client_arguments none = exits 1
parse_client_arguments (some o) = if o.help then exits 0 else notify_client o

-- The folder in both constructors. `before` is the byte in front of the string's first one, which
-- `*folder.rend()` reads in place of the last one.
unfoldable pub with_slash : ℕ → Bytes → Bytes
with_slash before folder = if before == b'/' then folder else folder ++ b'/' ∷ []
