-- ===== src/Server/Remove/Restore.antt =====
-- Removing what an upload stored.
use distributed_server_clien.Prelude.Bytes.{Bytes, str_eq_refl}
use distributed_server_clien.Prelude.{
  ℕ, ◌+◌, ◌^◌, ◌<◌, ◌≡◌, ◌∙◌, ◌++◌, ap, false, some, none, arith, length,
}
use distributed_server_clien.Server.FileSystem.{FileSystem, IsReliable}
use distributed_server_clien.Server.FileSet.{has, erase-insert, has-insert, erase_of_not-has}
use distributed_server_clien.Server.Storage.{Storage, remove_file_from_storage, free_space}
use distributed_server_clien.Server.Upload.Atomic.{with_file, path_of, Stored}
use distributed_server_clien.Server.Upload.{Node}
use distributed_server_clien.Server.Remove.{remove_from_disk, handle_remove_request}

module _ (fs : FileSystem) (laws : IsReliable fs) where
  open fs use {Disk, content, file_size, remove}

  -- A name that is not in storage: the request changes nothing.
  pub handle_remove_request_unknown :
      (node : Node Disk) (f : Bytes)
      → has f node.storage.files_in_storage ≡ false
      → handle_remove_request fs node f ≡ node
  unfolding handle_remove_request remove_file_from_storage
  handle_remove_request_unknown node f h =
      ground (arith, erase_of_not-has f node.storage.files_in_storage h)

  -- The storage operations of an upload and of the removal of the file cancel.
  removed-with_file :
      (s : Storage) (f : Bytes) (size : ℕ)
      → has f s.files_in_storage ≡ false
      → s.used_space + size < 2 ^ 64
      → free_space (remove_file_from_storage (with_file s f size) f).0 size ≡ s
  unfolding free_space remove_file_from_storage
  removed-with_file s f size new fits = ground (arith, erase-insert f s.files_in_storage new)

  has-with_file :
      (s : Storage) (f : Bytes) (size : ℕ) → (remove_file_from_storage (with_file s f size) f).1 ≡ 1
  unfolding remove_file_from_storage
  has-with_file s f size = rw (has-insert f f s.files_in_storage, str_eq_refl f)

  pub remove_from_disk_lem :
      (node : Node Disk) (s : Storage) (path : Bytes) (size : ℕ) (d : Disk)
      → file_size node.disk path ≡ some size
      → remove node.disk path ≡ some d
      → remove_from_disk fs node s path ≡ record node { storage = free_space s size; disk = d }
  unfolding remove_from_disk
  remove_from_disk_lem node s path size d h r = rw (h, remove_from_disk, r)

  pub handle_remove_request_known :
      (node : Node Disk) (f : Bytes)
      → (remove_file_from_storage node.storage f).1 ≡ 1
      → handle_remove_request fs node f
        ≡ remove_from_disk fs node
            (remove_file_from_storage node.storage f).0
            (path_of fs laws node f)
  unfolding handle_remove_request
  handle_remove_request_known node f h = rw h

  -- A file that is in storage and on the disk.
  pub handle_remove_request_removes :
      (node : Node Disk) (f bytes : Bytes) (d : Disk)
      → (remove_file_from_storage node.storage f).1 ≡ 1
      → content node.disk (path_of fs laws node f) ≡ some bytes
      → remove node.disk (path_of fs laws node f) ≡ some d
      → handle_remove_request fs node f ≡ record node {
        storage = free_space (remove_file_from_storage node.storage f).0 (length bytes);
        disk = d;
      }
  handle_remove_request_removes node f bytes d known stored r =
      let path = path_of fs laws node f in
      handle_remove_request_known node f known
      ∙ remove_from_disk_lem node (remove_file_from_storage node.storage f).0 path (length bytes) d
          (laws.measured node.disk path bytes stored) r

  -- On a reliable file system and under a `max_available_space` of 64 bits, a removal of a file
  -- that an upload has stored, in the same shared folder and with a `remove` that succeeds, gives
  -- back the names and the space counter from before the upload, and the file is gone from the
  -- disk.
  pub handle_remove_request-Stored :
      (node node' : Node Disk) (f : Bytes) (size : ℕ) (d : Disk)
      → node.storage.max_available_space < 2 ^ 64
      → node'.shared_folder ≡ node.shared_folder
      → Stored fs laws node f size node'
      → remove node'.disk (path_of fs laws node f) ≡ some d
      → ((handle_remove_request fs node' f).storage ≡ node.storage)
        × (content (handle_remove_request fs node' f).disk (path_of fs laws node f) ≡ none)
  handle_remove_request-Stored node node' f size d m folder st r =
      let path = path_of fs laws node f in
      let (got, stored, counted) = st.whole in
      let known = rw (← st.storage) at (has-with_file node.storage f size) in
      let sized = laws.measured node'.disk path got stored ∙ ap some counted in
      let removed =
        handle_remove_request_known node' f known
        ∙ ap
            (λ (folder' : Bytes).
              remove_from_disk fs node' (remove_file_from_storage node'.storage f).0 (folder' ++ f))
            folder
        ∙ remove_from_disk_lem node' (remove_file_from_storage node'.storage f).0 path size d sized
            r in
      (
        rw (removed, st.storage)
            (removed-with_file node.storage f size st.is_new (omega (arith, st.fits))),
        rw (removed, laws.lawful.content-remove node'.disk d path path r, str_eq_refl path),
      )
