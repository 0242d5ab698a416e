-- ===== src/Socket/Udp/Setup.antt =====
-- socket/udp_socket.cpp: construction and set-up. The constructor value-initializes the base, so a
-- new udp_socket has zero members and counts as open.
use distributed_server_clien.Prelude.{
  ℕ, ◌≡◌, refl, Bool, true, false, not, [], ◌∷◌, Option, none, some, arith, ◌==◌, if◌then◌else◌,
}
use distributed_server_clien.Socket.Inet.{
  InetSocket, at_socket, at_getsockname, at_setsockopt, at_inet_aton, at_bind, Table, Done, done,
  throws, close, destroy,
}

abbrev pub udp_socket : InetSocket
udp_socket = record { sock = 0; port = 0; closed = false }

-- `create_socket`; `bad_fd` stands for the -1 that is stored if `socket` fails.
unfoldable pub create_socket : ℕ → Option ℕ → Option ℕ → InetSocket → Table → Done
create_socket bad_fd socket getsockname s t = elim socket [
  | none ↦ throws (record s { sock = bad_fd }) t at_socket
  | some fd ↦ elim getsockname [
    | none ↦ throws (record s { sock = fd; closed = false }) (fd ∷ t) at_getsockname
    | some port ↦ done (record { sock = fd; port = port; closed = false }) (fd ∷ t)
  ]
]

-- `create_multicast_socket`: two options are set, `closed` is left as it is.
unfoldable pub create_multicast_socket : ℕ → Option ℕ → Bool → Bool → InetSocket → Table → Done
create_multicast_socket bad_fd socket broadcast ttl s t = elim socket [
  | none ↦ throws (record s { sock = bad_fd }) t at_socket
  | some fd ↦
      let s' = record s { sock = fd } in
      if not broadcast
      then throws s' (fd ∷ t) at_setsockopt
      else if not ttl
      then throws s' (fd ∷ t) at_setsockopt
      else done s' (fd ∷ t)
]

-- `join_multicast_group`, and `leave_multicast_group` with the other option.
unfoldable pub join_multicast_group : Bool → Bool → InetSocket → Table → Done
join_multicast_group inet_aton setsockopt s t =
    if not inet_aton
    then throws s t at_inet_aton
    else if not setsockopt
    then throws s t at_setsockopt
    else done s t

-- `bind` to a port: the object does not keep it.
unfoldable pub bind : Bool → InetSocket → Table → Done
bind bound s t = if bound then done s t else throws s t at_bind

-- A multicast socket of a function, from its construction to its destruction around a send.
unfoldable pub multicast_scope : ℕ → Option ℕ → Bool → Bool → Table → Done
multicast_scope bad_fd socket broadcast ttl t =
    let c = create_multicast_socket bad_fd socket broadcast ttl udp_socket t in
    record c { table = destroy c.socket c.table }

-- `fd` is in the table.
abbrev pub is_open : ℕ → Table → Bool
is_open fd [] = false
is_open fd (d ∷ ds) = if fd == d then true else is_open fd ds

close_of_not-is_open : (fd : ℕ) (t : Table) → is_open fd t ≡ false → close fd t ≡ t
unfolding close
close_of_not-is_open fd [] h = refl
close_of_not-is_open fd (d ∷ ds) h = ground (arith, close_of_not-is_open fd ds)

-- Whichever call fails while a multicast socket is set up, the function leaves the open descriptors
-- as they were, if the -1 of a failed socket call is none of them.
pub multicast_scope_closes :
    (bad_fd : ℕ) (socket : Option ℕ) (broadcast ttl : Bool) (t : Table)
    → is_open bad_fd t ≡ false
    → (multicast_scope bad_fd socket broadcast ttl t).table ≡ t
unfolding multicast_scope create_multicast_socket destroy close
multicast_scope_closes bad_fd none broadcast ttl t h = close_of_not-is_open bad_fd t h
multicast_scope_closes bad_fd (some fd) broadcast ttl t h = ground arith
