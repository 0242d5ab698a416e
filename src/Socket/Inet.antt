-- ===== src/Socket/Inet.antt =====
-- socket/inet_socket.{h,cpp}: a socket owns a descriptor unless it is closed. The table holds the
-- descriptors that are open. What a system call returns is an argument, `none` or `false` for an
-- error. A member that no constructor sets has any value, so the object that a method starts from
-- is an argument too.
use distributed_server_clien.Prelude.{
  ℕ, Bool, true, not, List, [], ◌∷◌, Option, none, some, ◌==◌, if◌then◌else◌,
}

pub record InetSocket : Type 0 where
  pub sock : ℕ
  pub port : ℕ
  pub closed : Bool

pub data SocketFailure : Type 0 where
  at_socket at_getsockname at_bind at_setsockopt at_listen at_inet_aton at_connect : SocketFailure
  at_select at_accept at_write at_read : SocketFailure

abbrev pub Table : Type 0
Table = List ℕ

-- `::close`: the descriptor is open no longer, and an error is logged.
unfoldable pub close : ℕ → Table → Table
close fd [] = []
close fd (d ∷ ds) = if fd == d then ds else d ∷ close fd ds

-- What a method leaves behind: the object, the table, and what it threw.
pub record Done : Type 0 where
  pub socket : InetSocket
  pub table : Table
  pub thrown : Option SocketFailure

abbrev pub done : InetSocket → Table → Done
done s t = record { socket = s; table = t; thrown = none }

abbrev pub throws : InetSocket → Table → SocketFailure → Done
throws s t e = record { socket = s; table = t; thrown = some e }

-- The destructor.
unfoldable pub destroy : InetSocket → Table → Table
destroy s t = if not s.closed then close s.sock t else t

unfoldable pub fake_close : InetSocket → InetSocket
fake_close s = record s { closed = true }

-- `bind()`: to a free port, which getsockname then tells.
unfoldable pub bind : Bool → Option ℕ → InetSocket → Table → Done
bind bound getsockname s t = if not bound then throws s t at_bind else elim getsockname [
  | none ↦ throws s t at_getsockname
  | some port ↦ done (record s { port = port }) t
]

-- `set_timeout` and `set_reuse_address`.
unfoldable pub set_option : Bool → InetSocket → Table → Done
set_option setsockopt s t = if setsockopt then done s t else throws s t at_setsockopt
