-- ===== src/Server/Run/Sorted.antt =====
-- The set of names stays a set, and the limit stays the limit, whatever datagrams arrive.
use distributed_server_clien.Prelude.Bytes.{Bytes}
use distributed_server_clien.Prelude.{
  ℕ, ◌^◌, ◌<◌, inl, inr, List, [], ◌∷◌, Option, none, some, Bool-cases, Option-cases, ltb,
}
use distributed_server_clien.Server.FileSystem.{FileSystem, IsReliable}
use distributed_server_clien.Server.FileSet.Order.{IsSorted, insert-IsSorted, erase-IsSorted}
use distributed_server_clien.Server.Storage.{
  Storage, is_in_storage, remove_file_from_storage, free_space,
}
use distributed_server_clien.Server.Request.{
  Request, upload, discover, files_list, fetch, remove, Received, skipped, ignored, request,
  receive_request,
}
use distributed_server_clien.Server.Upload.{Node, handle_upload_request}
use distributed_server_clien.Server.Upload.Atomic.{with_file}
use distributed_server_clien.Server.Upload.Outcome.{Booked, handle_upload_request-Booked}
use distributed_server_clien.Server.Remove.{remove_from_disk, handle_remove_request}
use distributed_server_clien.Server.Run.{
  ServerNet, with_datagrams, serve, serve_received, run_round, run,
}

-- What holds of a storage at any time.
pub record IsValid (s : Storage) : Type 0 where
  pub sorted : IsSorted s.files_in_storage
  pub word : s.max_available_space < 2 ^ 64

with_file-IsValid : (s : Storage) (f : Bytes) (size : ℕ) → IsValid s → IsValid (with_file s f size)
with_file-IsValid s f size v = record {
  sorted = insert-IsSorted f s.files_in_storage v.sorted;
  word = v.word;
}

remove_file_from_storage-IsValid :
    (s : Storage) (f : Bytes) → IsValid s → IsValid (remove_file_from_storage s f).0
unfolding remove_file_from_storage
remove_file_from_storage-IsValid s f v = record {
  sorted = erase-IsSorted f s.files_in_storage v.sorted;
  word = v.word;
}

free_space-IsValid : (s : Storage) (size : ℕ) → IsValid s → IsValid (free_space s size)
unfolding free_space
free_space-IsValid s size v = record { sorted = v.sorted; word = v.word }

module _ (fs : FileSystem) (laws : IsReliable fs) where
  open fs use {Disk, file_size}

  -- A node that is there has a valid storage.
  abbrev pub AllValid : Option (Node Disk) → Type 0
  AllValid none = Unit {0}
  AllValid (some node) = IsValid node.storage

  abbrev Served : Option (Node Disk × List (Option Bytes)) → Type 0
  Served none = Unit {0}
  Served (some (node, sent)) = IsValid node.storage

  remove_from_disk-IsValid :
      (node : Node Disk) (s : Storage) (path : Bytes)
      → IsValid s
      → IsValid (remove_from_disk fs node s path).storage
  unfolding remove_from_disk
  remove_from_disk-IsValid node s path v = elim (Option-cases (file_size node.disk path)) [
    | inl e ↦ rw (e, remove_from_disk) v
    | inr (size, e) ↦ elim (Option-cases (fs.remove node.disk path)) [
      | inl r ↦ rw (e, remove_from_disk, r) (free_space-IsValid s size v)
      | inr (d, r) ↦ rw (e, remove_from_disk, r) (free_space-IsValid s size v)
    ]
  ]

  handle_remove_request-IsValid :
      (node : Node Disk) (f : Bytes)
      → IsValid node.storage
      → IsValid (handle_remove_request fs node f).storage
  unfolding handle_remove_request
  handle_remove_request-IsValid node f v =
      let v' = remove_file_from_storage-IsValid node.storage f v in
      elim (Bool-cases (ltb 0 (remove_file_from_storage node.storage f).1)) [
        | inl some_erased ↦
            rw some_erased
              (remove_from_disk-IsValid node (remove_file_from_storage node.storage f).0 _ v')
        | inr none_erased ↦ rw none_erased v'
      ]

  Served-with_datagrams :
      (node : Node Disk) (f : Bytes) (size : ℕ) (r : Option (Node Disk × Option Bytes))
      → IsValid node.storage
      → Booked fs laws node f size r
      → Served (with_datagrams r)
  Served-with_datagrams node f size none v b = tt
  Served-with_datagrams node f size (some (node', reply)) v (inl same) = rw same v
  Served-with_datagrams node f size (some (node', reply)) v (inr st) =
      rw st.storage (with_file-IsValid node.storage f size v)

  serve-IsValid :
      (net : ServerNet) (node : Node Disk) (r : Request)
      → IsValid node.storage
      → Served (serve fs net node r)
  unfolding serve
  serve-IsValid net node (upload seq f size) v =
      Served-with_datagrams node f size (handle_upload_request fs net.upload_net node seq f size) v
        (handle_upload_request-Booked fs laws net.upload_net node seq f size v.sorted v.word)
  serve-IsValid net node (discover seq) v = v
  serve-IsValid net node (files_list seq pattern) v = v
  serve-IsValid net node (fetch seq f) v = elim (Bool-cases (is_in_storage node.storage f)) [
    | inl there ↦ rw there v
    | inr gone ↦ rw gone v
  ]
  serve-IsValid net node (remove f) v = handle_remove_request-IsValid node f v

  serve_received-IsValid :
      (net : ServerNet) (node : Node Disk) (r : Option Received)
      → IsValid node.storage
      → Served (serve_received fs net node r)
  unfolding serve_received
  serve_received-IsValid net node none v = v
  serve_received-IsValid net node (some (skipped reason)) v = v
  serve_received-IsValid net node (some ignored) v = v
  serve_received-IsValid net node (some (request r)) v = serve-IsValid net node r v

  forget :
      (o : Option (Node Disk × List (Option Bytes)))
      → Served o
      → AllValid (elim o [ none ↦ none | some (node', sent) ↦ some node' ])
  forget none v = tt
  forget (some (node', sent)) v = v

  -- Whatever datagrams arrive, whatever the sockets do at each and whichever calls of a reliable file
  -- system fail, if a server starts with a sorted set of names and a `max_available_space` of 64
  -- bits, then so it is after any number of rounds of `run`, unless an exception has ended the
  -- program.
  pub run-AllValid :
      (rounds : List (ServerNet × Option Bytes)) (start : Option (Node Disk))
      → AllValid start
      → AllValid (run fs rounds start)
  unfolding run run_round
  run-AllValid [] none v = tt
  run-AllValid [] (some node) v = v
  run-AllValid ((net, datagram) ∷ rounds) none v = tt
  run-AllValid ((net, datagram) ∷ rounds) (some node) v =
      run-AllValid rounds
        (elim (run_round fs net node datagram) [ none ↦ none | some (node', sent) ↦ some node' ])
        (forget (run_round fs net node datagram)
          (serve_received-IsValid net node (receive_request datagram) v))
