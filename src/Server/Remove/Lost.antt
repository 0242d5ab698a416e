-- ===== src/Server/Remove/Lost.antt =====
-- A removal that another thread's upload of the same name comes into the middle of.
use distributed_server_clien.Prelude.Bytes.{Bytes, contains, str_eq_refl}
use distributed_server_clien.Prelude.{
  ℕ, ◌+◌, ◌^◌, ◌≤◌, ◌<◌, ◌≡◌, ◌∙◌, refl, true, false, List, [], ◌∷◌, ◌++◌, none, some, map, arith,
  length, not, ◌&&◌, ◌==◌,
}
use distributed_server_clien.Protocol.Validation.{is_empty}
use distributed_server_clien.Server.FileSystem.{FileSystem, IsReliable, Removable}
use distributed_server_clien.Server.FileSet.{has, has-insert}
use distributed_server_clien.Server.FileSet.Order.{IsSorted, has-erase}
use distributed_server_clien.Server.Storage.{
  Storage, is_in_storage, remove_file_from_storage, free_space,
}
use distributed_server_clien.Server.Upload.{Node, UploadNet, handle_upload_request}
use distributed_server_clien.Server.Upload.Atomic.{with_file}
use distributed_server_clien.Server.Upload.Transfer.{AreChunks, join_chunks}
use distributed_server_clien.Server.Upload.Complete.{acceptance, handle_upload_request_stores}
use distributed_server_clien.Server.Remove.{remove_from_disk}
use distributed_server_clien.Server.Remove.Restore.{remove_from_disk_lem}

erased_new :
    (s : Storage) (f : Bytes)
    → IsSorted s.files_in_storage
    → has f (remove_file_from_storage s f).0.files_in_storage ≡ false
unfolding remove_file_from_storage
erased_new s f sorted = ground (arith, has-erase f f s.files_in_storage sorted, str_eq_refl f)

kept_space :
    (s : Storage) (f : Bytes)
    → ((remove_file_from_storage s f).0.used_space ≡ s.used_space)
      × ((remove_file_from_storage s f).0.max_available_space ≡ s.max_available_space)
unfolding remove_file_from_storage
kept_space s f = (refl, refl)

listed_free :
    (s : Storage) (f : Bytes) (size : ℕ)
    → s.used_space + size < 2 ^ 64
    → (is_in_storage (free_space (with_file s f size) size) f ≡ true)
      × ((free_space (with_file s f size) size).used_space ≡ s.used_space)
unfolding is_in_storage free_space
listed_free s f size small =
    (ground (arith, has-insert f f s.files_in_storage, str_eq_refl f), ground arith)

module _ (fs : FileSystem) (laws : IsReliable fs) where
  open fs use {Disk, content, open_out}

  -- If an upload under the name of a file that is being removed runs to its end after
  -- `handle_remove_request` has taken the name out of the sorted storage and before it touches the
  -- disk, the client is sent the acceptance and its file is stored whole, but then the rest of the
  -- removal deletes that file: the name stays in storage with no file, and the counter is what it
  -- was before, old file included. The conditions are a reliable file system with no directory
  -- under that name, a proper name, that both files have room together under a
  -- `max_available_space` of 64 bits, that no call of the upload fails, and that the reads, none
  -- empty and none larger than the buffer, make up as many bytes as were announced.
  pub remove_from_disk-handle_upload_request :
      (net : UploadNet) (node : Node Disk) (seq : ℕ) (f : Bytes) (chunks : List Bytes) (ready : ℕ)
      (d : Disk)
      → Removable fs node.shared_folder f
      → (not (is_empty f) && not (contains (b'/' ∷ []) f)) ≡ true
      → IsSorted node.storage.files_in_storage
      → node.storage.used_space + length (join_chunks chunks) ≤ node.storage.max_available_space
      → node.storage.max_available_space < 2 ^ 64
      → net.listening ≡ true
      → net.sendto 26 ≡ some 26
      → net.select ≡ some ready
      → (ready == 0) ≡ false
      → net.accept ≡ true
      → net.reads ≡ map some chunks
      → AreChunks chunks
      → open_out node.disk (node.shared_folder ++ f) ≡ some d
      → (node' : Node Disk) × (last : Node Disk) × (handle_upload_request fs net
            (record node { storage = (remove_file_from_storage node.storage f).0 })
            seq
            f
            (length (join_chunks chunks))
          ≡ some (node', some (acceptance seq net.port)))
        × (content node'.disk (node.shared_folder ++ f) ≡ some (join_chunks chunks))
        × (remove_from_disk fs node' node'.storage (node.shared_folder ++ f) ≡ last)
        × (is_in_storage last.storage f ≡ true)
        × (content last.disk (node.shared_folder ++ f) ≡ none)
        × (last.storage.used_space ≡ node.storage.used_space)
  remove_from_disk-handle_upload_request net node seq f chunks ready d removes proper sorted fits
        word up sent selected in_time accepted reads pieces opened =
      let size = length (join_chunks chunks) in
      let s = (remove_file_from_storage node.storage f).0 in
      let path = node.shared_folder ++ f in
      let erased : Node Disk = record node { storage = s } in
      let (used, limit) = kept_space node.storage f in
      let (d', handled, stored) =
        handle_upload_request_stores fs laws net erased seq f chunks ready d proper
          (erased_new node.storage f sorted) (omega (arith, fits, used, limit))
          (omega (arith, word, limit)) up sent selected in_time accepted reads pieces opened in
      let node' : Node Disk = record erased { storage = with_file s f size; disk = d' } in
      let (gone, removed) =
        removes proper d' (laws.lawful.exists_file d' path (join_chunks chunks) stored) in
      let (listed, counted) = listed_free s f size (omega (arith, fits, used, word)) in
      (
        node',
        record node' { storage = free_space node'.storage size; disk = gone },
        handled,
        stored,
        remove_from_disk_lem fs laws node' node'.storage path size gone
            (laws.measured d' path (join_chunks chunks) stored) removed,
        listed,
        laws.lawful.content-remove d' gone path path removed ∙ rw (str_eq_refl path) refl,
        counted ∙ used,
      )
