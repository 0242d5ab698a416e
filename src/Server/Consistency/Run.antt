-- ===== src/Server/Consistency/Run.antt =====
-- The loop of `Server::run` refines a store.
use distributed_server_clien.Prelude.Bytes.{Bytes}
use distributed_server_clien.Prelude.{
  ℕ, List, [], ◌∷◌, ◌++◌, Option, none, some, Bool-cases, inl, inr,
}
use distributed_server_clien.Server.FileSystem.{FileSystem, IsReliable}
use distributed_server_clien.Server.Storage.{is_in_storage}
use distributed_server_clien.Server.Request.{
  Request, upload, discover, files_list, fetch, remove, Received, skipped, ignored, request,
  receive_request,
}
use distributed_server_clien.Server.Upload.{Node, handle_upload_request}
use distributed_server_clien.Server.Run.{
  ServerNet, with_datagrams, serve, serve_received, run_round, run,
}
use distributed_server_clien.Server.Run.Returns.{run-none, requests_of, requests}
use distributed_server_clien.Server.Store.{
  Store, discovered, listed, fetched, StoreSteps, nothing, ◌then◌,
}
use distributed_server_clien.Server.Consistency.{IsConsistent}
use distributed_server_clien.Server.Consistency.Handlers.{
  store, ServesUpload, handle_upload_request-Serves, handle_remove_request-Serves,
}

module _ (fs : FileSystem) (laws : IsReliable fs) (limit : ℕ) where
  open fs use {Disk}

  -- After some requests a node is consistent, and its store has changed as these requests allow.
  abbrev pub Refines : Node Disk → List Request → Option (Node Disk) → Type 0
  Refines node rs none = Unit {0}
  Refines node rs (some node') =
      IsConsistent fs limit node'
      × StoreSteps (store fs laws limit node) rs (store fs laws limit node')

  abbrev pub RoundRefines :
      Node Disk → List Request → Option (Node Disk × List (Option Bytes)) → Type 0
  RoundRefines node rs none = Unit {0}
  RoundRefines node rs (some (node', sent)) =
      IsConsistent fs limit node'
      × StoreSteps (store fs laws limit node) rs (store fs laws limit node')

  upload-RoundRefines :
      (node : Node Disk) (r : Request) (o : Option (Node Disk × Option Bytes))
      → ServesUpload fs laws limit node r o
      → RoundRefines node (r ∷ []) (with_datagrams o)
  upload-RoundRefines node r none h = tt
  upload-RoundRefines node r (some (node', reply)) (ok, step) = (ok, step then nothing)

  pub serve-RoundRefines :
      (net : ServerNet) (node : Node Disk) (r : Request)
      → IsConsistent fs limit node
      → RoundRefines node (r ∷ []) (serve fs net node r)
  unfolding serve
  serve-RoundRefines net node (upload seq f size) ok =
      upload-RoundRefines node (upload seq f size)
        (handle_upload_request fs net.upload_net node seq f size)
        (handle_upload_request-Serves fs laws limit node f ok net.upload_net seq size)
  serve-RoundRefines net node (discover seq) ok = (ok, discovered then nothing)
  serve-RoundRefines net node (files_list seq pattern) ok = (ok, listed then nothing)
  serve-RoundRefines net node (fetch seq f) ok = elim (Bool-cases (is_in_storage node.storage f)) [
    | inl there ↦ rw there (ok, fetched then nothing)
    | inr gone ↦ rw gone (ok, fetched then nothing)
  ]
  serve-RoundRefines net node (remove f) ok =
      let (ok', step) = handle_remove_request-Serves fs laws limit node f ok in
      (ok', step then nothing)

  serve_received-RoundRefines :
      (net : ServerNet) (node : Node Disk) (o : Option Received)
      → IsConsistent fs limit node
      → RoundRefines node (requests_of o) (serve_received fs net node o)
  unfolding serve_received
  serve_received-RoundRefines net node none ok = (ok, nothing)
  serve_received-RoundRefines net node (some (skipped reason)) ok = (ok, nothing)
  serve_received-RoundRefines net node (some ignored) ok = (ok, nothing)
  serve_received-RoundRefines net node (some (request r)) ok = serve-RoundRefines net node r ok

  StoreSteps-append :
      {s s' s'' : Store} {rs rs' : List Request}
      → StoreSteps s rs s'
      → StoreSteps s' rs' s''
      → StoreSteps s (rs ++ rs') s''
  StoreSteps-append nothing then_more = then_more
  StoreSteps-append (step then steps) then_more = step then StoreSteps-append steps then_more

  Refines-after :
      (node node' : Node Disk) (rs rs' : List Request) (o : Option (Node Disk))
      → StoreSteps (store fs laws limit node) rs (store fs laws limit node')
      → Refines node' rs' o
      → Refines node (rs ++ rs') o
  Refines-after node node' rs rs' none steps r = tt
  Refines-after node node' rs rs' (some node'') steps (ok, more) =
      (ok, StoreSteps-append steps more)

  after_round :
      (rounds : List (ServerNet × Option Bytes)) (node : Node Disk) (rs : List Request)
      (o : Option (Node Disk × List (Option Bytes)))
      → ((node' : Node Disk)
          → IsConsistent fs limit node'
          → Refines node' (requests rounds) (run fs rounds (some node')))
      → RoundRefines node rs o
      → Refines node
          (rs ++ requests rounds)
          (run fs rounds (elim o [ none ↦ none | some (node', sent) ↦ some node' ]))
  after_round rounds node rs none later h = rw (run-none fs rounds) tt
  after_round rounds node rs (some (node', sent)) later (ok, steps) =
      Refines-after node node' rs (requests rounds) (run fs rounds (some node')) steps
        (later node' ok)

  pub run-Refines :
      (rounds : List (ServerNet × Option Bytes)) (node : Node Disk)
      → IsConsistent fs limit node
      → Refines node (requests rounds) (run fs rounds (some node))
  unfolding run run_round
  run-Refines [] node ok = (ok, nothing)
  run-Refines ((net, datagram) ∷ rounds) node ok =
      after_round rounds node (requests_of (receive_request datagram))
        (serve_received fs net node (receive_request datagram)) (run-Refines rounds)
        (serve_received-RoundRefines net node (receive_request datagram) ok)
