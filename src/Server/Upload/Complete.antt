-- ===== src/Server/Upload/Complete.antt =====
-- An upload that nothing disturbs succeeds.
use distributed_server_clien.Prelude.Bytes.{Bytes, contains}
use distributed_server_clien.Prelude.{
  ℕ, ◌+◌, ◌^◌, ◌≤◌, ◌<◌, ◌≡◌, refl, ap, ◌∙◌, Bool, true, false, not, ◌&&◌, List, [], ◌∷◌, ◌++◌,
  Option, some, arith, map, ◌==◌, Bool-cases, inl, inr, length,
}
use distributed_server_clien.Words.{htobe64}
use distributed_server_clien.Wire.{send_complex_header}
use distributed_server_clien.Protocol.{file_add_acceptance}
use distributed_server_clien.Protocol.Message.{complex_message, fill_command}
use distributed_server_clien.Protocol.Validation.{is_empty}
use distributed_server_clien.Socket.Udp.{send_complex}
use distributed_server_clien.Server.FileSystem.{FileSystem, IsReliable}
use distributed_server_clien.Server.FileSet.{has}
use distributed_server_clien.Server.Storage.{Storage, add_file_to_storage, check_and_reserve_space}
use distributed_server_clien.Server.Upload.Transfer.{
  AreChunks, join_chunks, receive_loop-join_chunks, content-open_out_self,
}
use distributed_server_clien.Server.Upload.Atomic.{with_file, path_of}
use distributed_server_clien.Server.Upload.{
  Node, UploadNet, receive_loop, receive_file, transfer, upload_file_via_tcp, with_reply,
  accept_upload, handle_upload_request,
}

-- The datagram that tells the client the port to connect to.
abbrev pub acceptance : ℕ → ℕ → Bytes
acceptance seq port = fill_command file_add_acceptance ++ (htobe64 seq ++ (htobe64 port ++ []))

pub granted_lem :
    (s : Storage) (size : ℕ)
    → s.max_available_space < 2 ^ 64
    → s.used_space + size ≤ s.max_available_space
    → check_and_reserve_space s size ≡ (record s { used_space = s.used_space + size }, true)
unfolding check_and_reserve_space
granted_lem s size m h = ground arith

module _ (fs : FileSystem) where
  open fs use {Disk, open_out}

  pub handle_upload_request-accept_upload :
      (net : UploadNet) (node : Node Disk) (seq : ℕ) (f : Bytes) (size : ℕ)
      → (not (is_empty f) && not (contains (b'/' ∷ []) f)) ≡ true
      → has f node.storage.files_in_storage ≡ false
      → check_and_reserve_space node.storage size
        ≡ (record node.storage { used_space = node.storage.used_space + size }, true)
      → handle_upload_request fs net node seq f size
        ≡ accept_upload fs net (record node { storage = with_file node.storage f size }) seq f size
  unfolding handle_upload_request add_file_to_storage
  handle_upload_request-accept_upload net node seq f size good new granted = rw (good, granted, new)

  pub accept_upload-upload_file_via_tcp :
      (net : UploadNet) (node : Node Disk) (seq : ℕ) (f : Bytes) (size : ℕ)
      → net.listening ≡ true
      → net.sendto 26 ≡ some 26
      → accept_upload fs net node seq f size
        ≡ with_reply (some (acceptance seq net.port)) (upload_file_via_tcp fs net node f size)
  unfolding accept_upload
  accept_upload-upload_file_via_tcp net node seq f size up sent =
      let header =
        ap
          (λ (n : Option ℕ).
            send_complex n (complex_message (htobe64 seq) file_add_acceptance f (htobe64 net.port))
              0)
          sent
        ∙ send_complex_header seq file_add_acceptance [] (omega arith) tt f net.port in
      elim (Bool-cases net.listening) [
        | inl e ↦ rw (header, e, accept_upload)
        | inr e ↦ absurd (cc (up, e))
      ]

  pub receive_file-open_out :
      (accept : Bool) (reads : List (Option Bytes)) (path : Bytes) (n : ℕ) (d d' : Disk)
      → accept ≡ true
      → open_out d path ≡ some d'
      → receive_file fs accept reads path n d ≡ receive_loop fs path n d' reads
  unfolding receive_file
  receive_file-open_out accept reads path n d d' a h =
      let loop = receive_loop fs path n d' reads in rw (h, receive_file, a) (ground arith)

  pub transfer-receive_file :
      (net : UploadNet) (path : Bytes) (n res : ℕ) (d : Disk)
      → net.select ≡ some res
      → (res == 0) ≡ false
      → transfer fs net path n d ≡ receive_file fs net.accept net.reads path n d
  unfolding transfer
  transfer-receive_file net path n res d s nz = rw (s, transfer, nz)

  pub upload_file_via_tcp-transfer :
      (net : UploadNet) (node : Node Disk) (f : Bytes) (n : ℕ)
      → (transfer fs net (node.shared_folder ++ f) n node.disk).failed ≡ false
      → (transfer fs net (node.shared_folder ++ f) n node.disk).to_upload ≡ 0
      → upload_file_via_tcp fs net node f n
        ≡ some (record node { disk = (transfer fs net (node.shared_folder ++ f) n node.disk).disk })
  unfolding upload_file_via_tcp
  upload_file_via_tcp-transfer net node f n ok done = rw (ok, done)

module _ (fs : FileSystem) (laws : IsReliable fs) where
  open fs use {Disk, content, open_out}

  upload_file_via_tcp_whole :
      (net : UploadNet) (node : Node Disk) (f : Bytes) (chunks : List Bytes) (res : ℕ) (d : Disk)
      → net.select ≡ some res
      → (res == 0) ≡ false
      → net.accept ≡ true
      → net.reads ≡ map some chunks
      → AreChunks chunks
      → open_out node.disk (path_of fs laws node f) ≡ some d
      → (d' : Disk) × (upload_file_via_tcp fs net node f (length (join_chunks chunks))
          ≡ some (record node { disk = d' }))
        × (content d' (path_of fs laws node f) ≡ some (join_chunks chunks))
  upload_file_via_tcp_whole net node f chunks res d s nz a r c o =
      let path = path_of fs laws node f in
      let size = length (join_chunks chunks) in
      let (ok, done, stored) =
        receive_loop-join_chunks fs laws path chunks size d [] c refl
          (content-open_out_self fs laws path node.disk d o) in
      let run =
        transfer-receive_file fs net path size res node.disk s nz
        ∙ receive_file-open_out fs net.accept net.reads path size node.disk d a o
        ∙ ap (receive_loop fs path size d) r in
      (
        (transfer fs net path size node.disk).disk,
        upload_file_via_tcp-transfer fs net node f size (rw run ok) (rw run done),
        rw run stored,
      )

  -- The node that it leaves.
  pub handle_upload_request_stores :
      (net : UploadNet) (node : Node Disk) (seq : ℕ) (f : Bytes) (chunks : List Bytes) (res : ℕ)
      (d : Disk)
      → (not (is_empty f) && not (contains (b'/' ∷ []) f)) ≡ true
      → has f node.storage.files_in_storage ≡ false
      → node.storage.used_space + length (join_chunks chunks) ≤ node.storage.max_available_space
      → node.storage.max_available_space < 2 ^ 64
      → net.listening ≡ true
      → net.sendto 26 ≡ some 26
      → net.select ≡ some res
      → (res == 0) ≡ false
      → net.accept ≡ true
      → net.reads ≡ map some chunks
      → AreChunks chunks
      → open_out node.disk (path_of fs laws node f) ≡ some d
      → (d' : Disk) × (handle_upload_request fs net node seq f (length (join_chunks chunks))
          ≡ some (
            record node {
              storage = with_file node.storage f (length (join_chunks chunks));
              disk = d';
            },
            some (acceptance seq net.port),
          ))
        × (content d' (path_of fs laws node f) ≡ some (join_chunks chunks))
  handle_upload_request_stores net node seq f chunks res d good new fits m up sent s nz a r c o =
      let size = length (join_chunks chunks) in
      let (d', uploaded, stored) =
        upload_file_via_tcp_whole net (record node { storage = with_file node.storage f size }) f
          chunks res d s nz a r c o in
      (
        d',
        handle_upload_request-accept_upload fs net node seq f size good new
              (granted_lem node.storage size m fits)
            ∙ accept_upload-upload_file_via_tcp fs net
                (record node { storage = with_file node.storage f size }) seq f size up sent
            ∙ ap (with_reply (some (acceptance seq net.port))) uploaded,
        stored,
      )

  -- On a reliable file system, an upload request with a proper name that is new and a size that fits,
  -- for which the listening socket is set up, the acceptance is sent, the client connects within
  -- the timeout, the file opens, and the reads, none empty and none larger than the buffer, make up
  -- as many bytes as were announced, is answered by the acceptance with the port and leaves the
  -- name and the size on the books and exactly those bytes in the file.
  pub handle_upload_request_succeeds :
      (net : UploadNet) (node : Node Disk) (seq : ℕ) (f : Bytes) (chunks : List Bytes) (res : ℕ)
      (d : Disk)
      → (not (is_empty f) && not (contains (b'/' ∷ []) f)) ≡ true
      → has f node.storage.files_in_storage ≡ false
      → node.storage.used_space + length (join_chunks chunks) ≤ node.storage.max_available_space
      → node.storage.max_available_space < 2 ^ 64
      → net.listening ≡ true
      → net.sendto 26 ≡ some 26
      → net.select ≡ some res
      → (res == 0) ≡ false
      → net.accept ≡ true
      → net.reads ≡ map some chunks
      → AreChunks chunks
      → open_out node.disk (path_of fs laws node f) ≡ some d
      → (node' : Node Disk) × (handle_upload_request fs net node seq f (length (join_chunks chunks))
          ≡ some (node', some (acceptance seq net.port)))
        × (node'.storage ≡ with_file node.storage f (length (join_chunks chunks)))
        × (content node'.disk (path_of fs laws node f) ≡ some (join_chunks chunks))
  handle_upload_request_succeeds net node seq f chunks res d good new fits m up sent s nz a r c o =
      let (d', run, stored) =
        handle_upload_request_stores net node seq f chunks res d good new fits m up sent s nz a r c
          o in
      (_, run, refl, stored)
