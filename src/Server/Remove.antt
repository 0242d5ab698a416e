-- ===== src/Server/Remove.antt =====
-- `handle_remove_request` (server/server.cpp), run to the end with no other handler in between.
pub mod Restore
pub mod Interleaving
pub mod Lost
use distributed_server_clien.Prelude.Bytes.{Bytes}
use distributed_server_clien.Prelude.{ℕ, ◌++◌, none, some, ltb, if◌then◌else◌}
use distributed_server_clien.Server.FileSystem.{FileSystem}
use distributed_server_clien.Server.Storage.{Storage, remove_file_from_storage, free_space}
use distributed_server_clien.Server.Upload.{Node}

module _ (fs : FileSystem) where
  open fs use {Disk, file_size, remove}

  -- The `try` block. An error of `file_size` or of `remove` is logged, and what was done before it
  -- stays.
  unfoldable pub remove_from_disk : Node Disk → Storage → Bytes → Node Disk
  remove_from_disk node s path = elim (file_size node.disk path) [
    | none ↦ record node { storage = s }
    | some size ↦ elim (remove node.disk path) [
      | none ↦ record node { storage = free_space s size }
      | some d ↦ record node { storage = free_space s size; disk = d }
    ]
  ]

  unfoldable pub handle_remove_request : Node Disk → Bytes → Node Disk
  handle_remove_request node filename =
      let (s, erased) = remove_file_from_storage node.storage filename in
      if ltb 0 erased
      then remove_from_disk node s (node.shared_folder ++ filename)
      else record node { storage = s }
