-- ===== src/Server/Run/Returns.antt =====
-- The loop of `Server::run` goes on.
use distributed_server_clien.Prelude.Bytes.{Bytes}
use distributed_server_clien.Prelude.{
  ◌≡◌, ◌∙◌, ap, refl, sym, arith, List, [], ◌∷◌, ◌++◌, Option, none, some, Bool-cases, inl, inr,
}
use distributed_server_clien.Server.FileSystem.{FileSystem, Removable}
use distributed_server_clien.Server.Storage.{Storage, is_in_storage, remove_file_from_storage}
use distributed_server_clien.Server.Remove.{remove_from_disk, handle_remove_request}
use mathlib.Core.Path.{subst}
use distributed_server_clien.Server.Request.{
  Request, upload, discover, files_list, fetch, remove, Received, skipped, ignored, request,
  receive_request,
}
use distributed_server_clien.Server.Upload.{Node}
use distributed_server_clien.Server.Upload.Returns.{handle_upload_request-Returns}
use distributed_server_clien.Server.Run.{
  ServerNet, with_datagrams, serve, serve_received, run_round, run,
}

pub run-none :
    (fs : FileSystem) (rounds : List (ServerNet × Option Bytes)) → run fs rounds none ≡ none
unfolding run
run-none fs [] = refl
run-none fs (r ∷ rounds) = refl

-- No directory stands under the proper names of the uploads that are requested.
abbrev pub AllRemovable : FileSystem → Bytes → List Request → Type 0
AllRemovable fs folder [] = Unit {0}
AllRemovable fs folder (upload seq f size ∷ rs) = Removable fs folder f × AllRemovable fs folder rs
AllRemovable fs folder (discover seq ∷ rs) = AllRemovable fs folder rs
AllRemovable fs folder (files_list seq pattern ∷ rs) = AllRemovable fs folder rs
AllRemovable fs folder (fetch seq f ∷ rs) = AllRemovable fs folder rs
AllRemovable fs folder (remove f ∷ rs) = AllRemovable fs folder rs

-- The request that a round handles, if it handles one.
abbrev pub requests_of : Option Received → List Request
requests_of none = []
requests_of (some (skipped reason)) = []
requests_of (some ignored) = []
requests_of (some (request r)) = r ∷ []

-- The requests that the rounds of a run handle.
abbrev pub requests : List (ServerNet × Option Bytes) → List Request
requests [] = []
requests ((net, datagram) ∷ rounds) = requests_of (receive_request datagram) ++ requests rounds

AllRemovable-append :
    (fs : FileSystem) (folder : Bytes) (rs rs' : List Request)
    → AllRemovable fs folder (rs ++ rs')
    → AllRemovable fs folder rs × AllRemovable fs folder rs'
AllRemovable-append fs folder [] rs' h = (tt, h)
AllRemovable-append fs folder (upload seq f size ∷ rs) rs' (r, h) =
    let (h1, h2) = AllRemovable-append fs folder rs rs' h in ((r, h1), h2)
AllRemovable-append fs folder (discover seq ∷ rs) rs' h = AllRemovable-append fs folder rs rs' h
AllRemovable-append fs folder (files_list seq p ∷ rs) rs' h = AllRemovable-append fs folder rs rs' h
AllRemovable-append fs folder (fetch seq f ∷ rs) rs' h = AllRemovable-append fs folder rs rs' h
AllRemovable-append fs folder (remove f ∷ rs) rs' h = AllRemovable-append fs folder rs rs' h

remove_from_disk_folder :
    (fs : FileSystem) (node : Node fs.Disk) (s : Storage) (path : Bytes)
    → (remove_from_disk fs node s path).shared_folder ≡ node.shared_folder
unfolding remove_from_disk
remove_from_disk_folder fs node s path = ground arith

handle_remove_request_folder :
    (fs : FileSystem) (node : Node fs.Disk) (f : Bytes)
    → (handle_remove_request fs node f).shared_folder ≡ node.shared_folder
unfolding handle_remove_request
handle_remove_request_folder fs node f = ground (
  arith,
  remove_from_disk_folder fs node (remove_file_from_storage node.storage f).0
      (node.shared_folder ++ f),
)

module _ (fs : FileSystem) where
  open fs use {Disk}

  -- A round that comes to its end, with the folder as it was.
  abbrev pub Serving : Bytes → Option (Node Disk × List (Option Bytes)) → Type 0
  Serving folder o =
      (served : Node Disk × List (Option Bytes)) × (o ≡ some served)
      × (served.0.shared_folder ≡ folder)

  pub serve_returns :
      (net : ServerNet) (node : Node Disk) (r : Request)
      → AllRemovable fs node.shared_folder (r ∷ [])
      → Serving node.shared_folder (serve fs net node r)
  unfolding serve
  serve_returns net node (upload seq f size) (removable, rest) =
      let ((node', reply), run, folder) =
        handle_upload_request-Returns fs net.upload_net node seq f size removable in
      ((node', reply ∷ []), ap with_datagrams run, folder)
  serve_returns net node (discover seq) h = (_, refl, refl)
  serve_returns net node (files_list seq pattern) h = (_, refl, refl)
  serve_returns net node (fetch seq f) h = elim (Bool-cases (is_in_storage node.storage f)) [
    | inl there ↦ rw there (_, refl, refl)
    | inr gone ↦ rw gone (_, refl, refl)
  ]
  serve_returns net node (remove f) h = (_, refl, handle_remove_request_folder fs node f)

  serve_received_returns :
      (net : ServerNet) (node : Node Disk) (o : Option Received)
      → AllRemovable fs node.shared_folder (requests_of o)
      → Serving node.shared_folder (serve_received fs net node o)
  unfolding serve_received
  serve_received_returns net node none h = (_, refl, refl)
  serve_received_returns net node (some (skipped reason)) h = (_, refl, refl)
  serve_received_returns net node (some ignored) h = (_, refl, refl)
  serve_received_returns net node (some (request r)) h = serve_returns net node r h

  pub run_returns :
      (rounds : List (ServerNet × Option Bytes)) (node : Node Disk)
      → AllRemovable fs node.shared_folder (requests rounds)
      → (node' : Node Disk) × (run fs rounds (some node) ≡ some node')
  unfolding run run_round
  run_returns [] node h = (node, refl)
  run_returns ((net, datagram) ∷ rounds) node h =
      let (now, later) =
        AllRemovable-append fs node.shared_folder (requests_of (receive_request datagram))
          (requests rounds) h in
      let ((node', sent), served, folder) =
        serve_received_returns net node (receive_request datagram) now in
      let (last, more) =
        run_returns rounds node'
          (subst (λ (p : Bytes). AllRemovable fs p (requests rounds)) (sym folder) later) in
      (
        last,
        ap
              (λ (o : Option (Node Disk × List (Option Bytes))).
                run fs rounds (elim o [ none ↦ none | some (node'', datagrams) ↦ some node'' ]))
              served
            ∙ more,
      )
