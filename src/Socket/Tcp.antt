-- ===== src/Socket/Tcp.antt =====
-- socket/tcp_socket.cpp: set-up, connection, and the moves that hand a descriptor on.
pub mod Ownership
use distributed_server_clien.Prelude.Bytes.{Bytes}
use distributed_server_clien.Prelude.Int.{ℤ, pos, negsuc}
use distributed_server_clien.Prelude.{
  zero, suc, ℕ, Bool, true, false, not, List, [], ◌∷◌, Option, none, some, ◌==◌, if◌then◌else◌,
  length,
}
use distributed_server_clien.Socket.Inet.{
  InetSocket, SocketFailure, at_socket, at_getsockname, at_listen, at_inet_aton, at_connect,
  at_select, at_accept, at_write, at_read, Table, Done, done, throws, destroy, fake_close, bind,
}

-- `create_socket`. If `socket` fails, the code stores its -1 in `sock`; `bad_fd` stands for it.
unfoldable pub create_socket : ℕ → Option ℕ → Option ℕ → InetSocket → Table → Done
create_socket bad_fd socket getsockname s t = elim socket [
  | none ↦ throws (record s { sock = bad_fd }) t at_socket
  | some fd ↦ elim getsockname [
    | none ↦ throws (record s { sock = fd }) (fd ∷ t) at_getsockname
    | some port ↦ done (record { sock = fd; port = port; closed = false }) (fd ∷ t)
  ]
]

unfoldable pub wrap_socket : ℕ → Option ℕ → InetSocket → Table → Done
wrap_socket fd getsockname s t = elim getsockname [
  | none ↦ throws s t at_getsockname
  | some port ↦ done (record { sock = fd; port = port; closed = false }) t
]

-- The move constructor: the new object, and the one moved from.
unfoldable pub move_construct : InetSocket → InetSocket × InetSocket
move_construct rhs = (rhs, fake_close rhs)

-- `operator=(tcp_socket&&)` between two objects: the descriptor that `lhs` had is not closed.
unfoldable pub move_assign : InetSocket → InetSocket → InetSocket × InetSocket
move_assign lhs rhs =
    (record { sock = rhs.sock; port = rhs.port; closed = rhs.closed }, fake_close rhs)

unfoldable pub connect : Bool → Bool → InetSocket → Table → Done
connect inet_aton connected s t =
    if not inet_aton
    then throws s t at_inet_aton
    else if not connected
    then throws s t at_connect
    else done s t

unfoldable pub listen : Bool → InetSocket → Table → Done
listen listening s t = if listening then done s t else throws s t at_listen

-- `select`: the number of descriptors that are ready; `none` is the exception for -1.
unfoldable pub select : ℤ → Option ℤ
select (pos n) = some (pos n)
select (negsuc zero) = none
select (negsuc (suc n)) = some (negsuc (suc n))

-- `accept`, with the descriptor of the connection and the members that the new object starts with:
-- the object that is returned. `return new_socket;` makes it by the move constructor, and destroys
-- `new_socket`, unless the compiler has elided the move. If wrap_socket throws, the new object is
-- destroyed.
unfoldable pub accept : Bool → Option ℕ → Option ℕ → InetSocket → Table → Done
accept elided fd getsockname fresh t = elim fd [
  | none ↦ throws fresh t at_accept
  | some fd ↦
      let wrapped = wrap_socket fd getsockname fresh (fd ∷ t) in
      elim wrapped.thrown [
        | none ↦
            let (returned, new_socket) = move_construct wrapped.socket in
            if elided then wrapped else done returned (destroy new_socket wrapped.table)
        | some e ↦ throws wrapped.socket (destroy wrapped.socket wrapped.table) e
      ]
]

-- `write`: whether all of the buffer went out, or else it throws.
unfoldable pub write : ℤ → Bytes → Bool
write (pos n) buffer = n == length buffer
write (negsuc n) buffer = false

-- `read`: the number of bytes read; `none` is the exception for a negative number.
unfoldable pub read : ℤ → Option ℕ
read (pos n) = some n
read (negsuc n) = none

-- The scope of `tcp_socket sock; sock = tcp_sock.accept();` around a body that only uses the
-- descriptor, in the handlers of server/server.cpp: the table at the end, and what was thrown. If
-- `accept` throws, `sock` has the members it started with.
unfoldable pub accept_scope : Bool → Option ℕ → Option ℕ → InetSocket → InetSocket → Table → Done
accept_scope elided fd getsockname sock fresh t =
    let a = accept elided fd getsockname fresh t in
    elim a.thrown [
      | some e ↦ throws sock (destroy sock a.table) e
      | none ↦
          let (assigned, temporary) = move_assign sock a.socket in
          done assigned (destroy assigned (destroy temporary a.table))
    ]

-- The scope of a listening socket in the handlers of server/server.cpp: `create_socket`, `bind`,
-- `listen`, and a body that only uses the descriptor. `named` and `bound_to` are what getsockname
-- says in `create_socket` and in `bind`.
unfoldable pub listening_scope :
    ℕ → Option ℕ → Option ℕ → Bool → Option ℕ → Bool → InetSocket → Table → Done
listening_scope bad_fd socket named bound bound_to listening fresh t =
    let c = create_socket bad_fd socket named fresh t in
    let b = bind bound bound_to c.socket c.table in
    let l = listen listening b.socket b.table in
    elim c.thrown [
      | some e ↦ throws c.socket (destroy c.socket c.table) e
      | none ↦ elim b.thrown [
        | some e ↦ throws b.socket (destroy b.socket b.table) e
        | none ↦ record l { table = destroy l.socket l.table }
      ]
    ]
