-- ===== src/Server/Buffer/Prompt.antt =====
-- Threads that begin before the loop of `Server::run` takes its next datagram.
use distributed_server_clien.Prelude.Bytes.{Bytes}
use distributed_server_clien.Prelude.{
  ◌≡◌, ◌∙◌, refl, sym, ap, List, [], ◌∷◌, Option, none, some, length, take,
}
use distributed_server_clien.Socket.Udp.{recvfrom_complex}
use distributed_server_clien.Protocol.{sizeof_message}
use distributed_server_clien.Protocol.Message.{complex_overlay}
use distributed_server_clien.Server.FileSystem.{FileSystem}
use distributed_server_clien.Server.Request.{decode_request, receive_request}
use distributed_server_clien.Server.Upload.{Node}
use distributed_server_clien.Server.Run.{ServerNet, serve_received, run_round, run}
use distributed_server_clien.Server.Run.Returns.{run-none}
use distributed_server_clien.Server.Buffer.{
  Buffer, take_message, Turn, receive, begin, take_turn, play,
}
use distributed_server_clien.Server.Buffer.Turns.{
  addressed, with_mail, seen, decode_request-Reads, go_on, go_on_skip, act-serve_received,
}

-- Each round is a datagram, and a turn for the thread that it may have started.
abbrev pub prompt : List (ServerNet × Option (Bytes × Bytes)) → List Turn
prompt [] = []
prompt ((net, datagram) ∷ rounds) = receive net datagram ∷ begin net 0 ∷ prompt rounds

abbrev pub bytes_of : Option (Bytes × Bytes) → Option Bytes
bytes_of none = none
bytes_of (some (datagram, source_address)) = some datagram

-- The datagrams of a round go back to where its datagram came from.
abbrev pub back : Option (Bytes × Bytes) → List (Option Bytes) → List (Bytes × Option Bytes)
back none sent = []
back (some (datagram, source_address)) sent = addressed source_address sent

module _ (fs : FileSystem) where
  open fs use {Disk}

  -- The rounds of `Server::run` with each handler run to its end, and the datagrams.
  abbrev pub replies :
      List (ServerNet × Option (Bytes × Bytes))
      → Node Disk
      → Option (Node Disk × List (Bytes × Option Bytes))
  replies [] node = some (node, [])
  replies ((net, datagram) ∷ rounds) node = elim (run_round fs net node (bytes_of datagram)) [
    | none ↦ none
    | some (node', sent) ↦ with_mail (back datagram sent) (replies rounds node')
  ]

  go_on-replies :
      (rounds : List (ServerNet × Option (Bytes × Bytes))) (datagram : Bytes) (b : Buffer)
      (o : Option (Node Disk × List (Option Bytes)))
      → ((node : Node Disk)
          → seen fs (play fs (prompt rounds) (record { node = node; buffer = b; threads = [] }))
            ≡ replies rounds node)
      → go_on fs (prompt rounds) b o ≡ elim o [
        | none ↦ none
        | some (node', sent) ↦
            with_mail (back (some (datagram, b.source_address)) sent) (replies rounds node')
      ]
  go_on-replies rounds datagram b none later = refl
  go_on-replies rounds datagram b (some (node, sent)) later =
      ap (with_mail (addressed b.source_address sent)) (later node)

  play-replies :
      (rounds : List (ServerNet × Option (Bytes × Bytes))) (node : Node Disk) (b : Buffer)
      → seen fs (play fs (prompt rounds) (record { node = node; buffer = b; threads = [] }))
        ≡ replies rounds node
  unfolding play take_turn take_message recvfrom_complex run_round receive_request serve_received
  play-replies [] node b = refl
  play-replies ((net, none) ∷ rounds) node b =
      go_on_skip fs (prompt rounds) b net node ∙ ap (with_mail []) (play-replies rounds node b)
  play-replies ((net, some (datagram, source_address)) ∷ rounds) node b =
      let got = take sizeof_message datagram in
      let m = complex_overlay got in
      let b' : Buffer = record { message = m; source_address = source_address } in
      act-serve_received fs (prompt rounds) b' net node (decode_request m (length got))
        (decode_request-Reads m (length got))
      ∙ go_on-replies rounds datagram b'
          (serve_received fs net node (some (decode_request m (length got))))
          (λ node'. play-replies rounds node' b')

  -- The node of an outcome.
  abbrev pub node_of : Option (Node Disk × List (Bytes × Option Bytes)) → Option (Node Disk)
  node_of none = none
  node_of (some (node, mail)) = some node

  abbrev pub received : List (ServerNet × Option (Bytes × Bytes)) → List (ServerNet × Option Bytes)
  received [] = []
  received ((net, datagram) ∷ rounds) = (net, bytes_of datagram) ∷ received rounds

  node_of-with_mail :
      (mail : List (Bytes × Option Bytes)) (o : Option (Node Disk × List (Bytes × Option Bytes)))
      → node_of (with_mail mail o) ≡ node_of o
  node_of-with_mail mail none = refl
  node_of-with_mail mail (some (node, more)) = refl

  replies-run_round :
      (rounds : List (ServerNet × Option (Bytes × Bytes))) (datagram : Option (Bytes × Bytes))
      (o : Option (Node Disk × List (Option Bytes)))
      → ((node : Node Disk) → node_of (replies rounds node) ≡ run fs (received rounds) (some node))
      → node_of (elim o [
        | none ↦ none
        | some (node', sent) ↦ with_mail (back datagram sent) (replies rounds node')
      ])
        ≡ run fs (received rounds) (elim o [ none ↦ none | some (node', sent) ↦ some node' ])
  replies-run_round rounds datagram none later = sym (run-none fs (received rounds))
  replies-run_round rounds datagram (some (node, sent)) later =
      node_of-with_mail (back datagram sent) (replies rounds node) ∙ later node

  replies-run :
      (rounds : List (ServerNet × Option (Bytes × Bytes))) (node : Node Disk)
      → node_of (replies rounds node) ≡ run fs (received rounds) (some node)
  unfolding run
  replies-run [] node = refl
  replies-run ((net, datagram) ∷ rounds) node =
      replies-run_round rounds datagram (run_round fs net node (bytes_of datagram))
        (replies-run rounds)

  -- If each thread begins before the loop of the server takes its next datagram, then whatever
  -- datagrams come from whatever addresses, the node behind the turns and the datagrams that are
  -- sent are those of the rounds in which the handler of the decoded request runs to its end, each
  -- datagram goes back to where the datagram of its round came from, and the node is that of
  -- `Server.Run.run`.
  pub play-run :
      (rounds : List (ServerNet × Option (Bytes × Bytes))) (node : Node Disk) (b : Buffer)
      → (seen fs (play fs (prompt rounds) (record { node = node; buffer = b; threads = [] }))
          ≡ replies rounds node)
        × (node_of (replies rounds node) ≡ run fs (received rounds) (some node))
  play-run rounds node b = (play-replies rounds node b, replies-run rounds node)
