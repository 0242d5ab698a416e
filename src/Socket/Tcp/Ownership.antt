-- ===== src/Socket/Tcp/Ownership.antt =====
-- Which descriptors are closed.
use distributed_server_clien.Prelude.{
  ℕ, ◌≡◌, refl, Bool, true, false, ◌∷◌, Option, none, some, arith,
}
use distributed_server_clien.Socket.Inet.{
  InetSocket, at_getsockname, at_accept, Table, close, destroy, fake_close, bind,
}
use distributed_server_clien.Socket.Tcp.{
  wrap_socket, move_construct, move_assign, accept, accept_scope, create_socket, listen,
  listening_scope,
}

-- If `accept` succeeds, the moves between the three objects that name the new descriptor (the local
-- one of `accept`, the one that it returns, made by the move constructor unless the compiler elides
-- it, and the one that is assigned to) have it closed once by the end of the scope, nothing is
-- thrown, and every other descriptor is as it was, whatever the members of the objects hold at the
-- start.
pub accept_scope_closes :
    (elided : Bool) (fd port : ℕ) (sock fresh : InetSocket) (t : Table)
    → ((accept_scope elided (some fd) (some port) sock fresh t).table ≡ t)
      × ((accept_scope elided (some fd) (some port) sock fresh t).thrown ≡ none)
unfolding accept_scope accept wrap_socket move_construct move_assign destroy fake_close close
accept_scope_closes elided fd port sock fresh t = ground arith

-- If `accept` fails, the socket that it was to be assigned to closes, by the end of its scope,
-- whatever descriptor its uninitialized member names, unless its other uninitialized member says
-- that it is closed.
pub accept_scope_failed :
    (elided : Bool) (getsockname : Option ℕ) (sock fresh : InetSocket) (t : Table)
    → sock.closed ≡ false
    → ((accept_scope elided none getsockname sock fresh t).table ≡ close sock.sock t)
      × ((accept_scope elided none getsockname sock fresh t).thrown ≡ some at_accept)
unfolding accept_scope accept destroy
accept_scope_failed elided getsockname sock fresh t h = ground arith

-- A connection whose getsockname fails stays open, if the new object happens to be closed.
pub accept_leaks :
    (elided : Bool) (fd : ℕ) (fresh : InetSocket) (t : Table)
    → fresh.closed ≡ true
    → ((accept elided (some fd) none fresh t).table ≡ fd ∷ t)
      × ((accept elided (some fd) none fresh t).thrown ≡ some at_getsockname)
unfolding accept wrap_socket destroy
accept_leaks elided fd fresh t h = ground arith

-- If the socket is created and getsockname succeeds there, then whatever `bind` and `listen` do,
-- the descriptor is closed by the end of the scope and every other descriptor is as it was.
pub listening_scope_closes :
    (bad_fd fd named : ℕ) (bound : Bool) (bound_to : Option ℕ) (listening : Bool)
    (fresh : InetSocket) (t : Table)
    → (listening_scope bad_fd (some fd) (some named) bound bound_to listening fresh t).table ≡ t
unfolding listening_scope create_socket bind listen destroy close
listening_scope_closes bad_fd fd named bound bound_to listening fresh t = ground arith

-- It has the port that getsockname told after `bind`, unless something was thrown.
pub listening_scope_port :
    (bad_fd fd named port : ℕ) (fresh : InetSocket) (t : Table)
    → ((listening_scope bad_fd (some fd) (some named) true (some port) true fresh t).socket.port
        ≡ port)
      × ((listening_scope bad_fd (some fd) (some named) true (some port) true fresh t).thrown
          ≡ none)
unfolding listening_scope create_socket bind listen
listening_scope_port bad_fd fd named port fresh t = (refl, refl)
