-- ===== src/Server/Upload/Unwritten.antt =====
-- An upload whose writes do not arrive: `upload_file_via_tcp` never asks its stream.
use distributed_server_clien.Prelude.Bytes.{Bytes, contains, str_eq_refl}
use distributed_server_clien.Prelude.{
  ℕ, ◌+◌, ◌-◌, ◌^◌, ◌≤◌, ◌<◌, ◌≡◌, ◌∙◌, refl, ap, true, false, not, ◌&&◌, List, [], ◌∷◌, ◌++◌, some,
  map, min, arith, length, ◌==◌, length-append,
}
use distributed_server_clien.Prelude.{take_of_length-le}
use distributed_server_clien.Protocol.{max_buffer_size}
use distributed_server_clien.Protocol.Validation.{is_empty}
use distributed_server_clien.Server.FileSystem.{FileSystem, IsLawful}
use distributed_server_clien.Server.FileSet.{has}
use distributed_server_clien.Server.Upload.{
  Node, UploadNet, receive_loop, transfer, with_reply, handle_upload_request,
}
use distributed_server_clien.Server.Upload.Atomic.{with_file}
use distributed_server_clien.Server.Upload.Transfer.{AreChunks, join_chunks, is_empty_of_pos}
use distributed_server_clien.Server.Upload.Complete.{
  acceptance, granted_lem, handle_upload_request-accept_upload, accept_upload-upload_file_via_tcp,
  receive_file-open_out, transfer-receive_file, upload_file_via_tcp-transfer,
}

module _ (fs : FileSystem) (laws : IsLawful fs) where
  open fs use {Disk, content, open_out, write}

  receive_loop-unwritten :
      (path : Bytes) (cs : List Bytes) (n : ℕ) (d : Disk)
      → ((d : Disk) (bs : Bytes)
          → content d path ≡ some []
          → content (write d path bs) path ≡ some [])
      → AreChunks cs
      → n ≡ length (join_chunks cs)
      → content d path ≡ some []
      → ((receive_loop fs path n d (map some cs)).failed ≡ false)
        × ((receive_loop fs path n d (map some cs)).to_upload ≡ 0)
        × (content (receive_loop fs path n d (map some cs)).disk path ≡ some [])
  unfolding receive_loop
  receive_loop-unwritten path [] n d full h e k = (refl, e, k)
  receive_loop-unwritten path (c ∷ cs) n d full (pos, small, h) e k =
      let size = length-append {0} c (join_chunks cs) in
      let all = take_of_length-le (min max_buffer_size n) c (omega (arith, size)) in
      let rest =
        receive_loop-unwritten path cs (n - length c) (write d path c) full h (omega (arith, size))
          (full d c k) in
      rw (all, is_empty_of_pos c pos) rest

  -- On a lawful file system where no write to the new file arrives, as on a full disk, an upload
  -- with a proper name that is new and a size that fits a `max_available_space` of 64 bits, for
  -- which all else succeeds and the reads, none empty and none larger than the buffer, make up as
  -- many bytes as were announced, is answered by the acceptance and stays on the books with its
  -- name and its announced size, while its file is empty.
  pub handle_upload_request-write :
      (net : UploadNet) (node : Node Disk) (seq : ℕ) (f : Bytes) (chunks : List Bytes) (ready : ℕ)
      (d : Disk)
      → ((d : Disk) (bs : Bytes)
          → content d (node.shared_folder ++ f) ≡ some []
          → content (write d (node.shared_folder ++ f) bs) (node.shared_folder ++ f) ≡ some [])
      → (not (is_empty f) && not (contains (b'/' ∷ []) f)) ≡ true
      → has f node.storage.files_in_storage ≡ false
      → node.storage.used_space + length (join_chunks chunks) ≤ node.storage.max_available_space
      → node.storage.max_available_space < 2 ^ 64
      → net.listening ≡ true
      → net.sendto 26 ≡ some 26
      → net.select ≡ some ready
      → (ready == 0) ≡ false
      → net.accept ≡ true
      → net.reads ≡ map some chunks
      → AreChunks chunks
      → open_out node.disk (node.shared_folder ++ f) ≡ some d
      → (d' : Disk) × (handle_upload_request fs net node seq f (length (join_chunks chunks))
          ≡ some (
            record node {
              storage = with_file node.storage f (length (join_chunks chunks));
              disk = d';
            },
            some (acceptance seq net.port),
          ))
        × (content d' (node.shared_folder ++ f) ≡ some [])
  handle_upload_request-write net node seq f chunks ready d full proper new fits word up sent
        selected in_time accepted reads pieces opened =
      let path = node.shared_folder ++ f in
      let size = length (join_chunks chunks) in
      let added : Node Disk = record node { storage = with_file node.storage f size } in
      let (ok, done, empty) =
        receive_loop-unwritten path chunks size d full pieces refl
          (laws.content-open_out node.disk d path path opened ∙ rw (str_eq_refl path) refl) in
      let run =
        transfer-receive_file fs net path size ready node.disk selected in_time
        ∙ receive_file-open_out fs net.accept net.reads path size node.disk d accepted opened
        ∙ ap (receive_loop fs path size d) reads in
      (
        (transfer fs net path size node.disk).disk,
        handle_upload_request-accept_upload fs net node seq f size proper new
              (granted_lem node.storage size word fits)
            ∙ accept_upload-upload_file_via_tcp fs net added seq f size up sent
            ∙ ap (with_reply (some (acceptance seq net.port)))
                (upload_file_via_tcp-transfer fs net added f size (rw run ok) (rw run done)),
        rw run empty,
      )
