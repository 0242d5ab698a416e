-- ===== src/Exchange/Transfers.antt =====
-- A file from one program to the other. TCP may hand over the bytes in other pieces than they were
-- written in.
use distributed_server_clien.Prelude.Bytes.{Bytes, NoNul, contains}
use distributed_server_clien.Prelude.{
  ℕ, ◌+◌, ◌^◌, ◌≤◌, ◌<◌, ◌≡◌, ◌∙◌, ap, sym, Bool, true, false, not, ◌&&◌, List, [], ◌∷◌, ◌++◌, some,
  map, ◌==◌, ==_refl, length,
}
use distributed_server_clien.Protocol.Validation.{is_empty}
use distributed_server_clien.Server.FileSystem.{FileSystem, IsReliable}
use distributed_server_clien.Server.FileSet.{has}
use distributed_server_clien.Server.Upload.Transfer.{AreChunks, join_chunks}
use distributed_server_clien.Server.Upload.Atomic.{path_of}
use distributed_server_clien.Server.Upload.Complete.{acceptance, handle_upload_request_succeeds}
use distributed_server_clien.Server.Upload.{Node, UploadNet, handle_upload_request}
use distributed_server_clien.Server.Download.Chunks.{handle_file_request-join_chunks}
use distributed_server_clien.Server.Download.{DownloadNet, Sent, handle_file_request}
use distributed_server_clien.Client.Transfer.Whole.{
  upload_file_via_tcp-join_chunks, fetch_file_via_tcp-join_chunks,
}
use distributed_server_clien.Client.Transfer.{
  upload_file_via_tcp, upload_success, fetch_success, fetch_file_via_tcp,
}

module _ (fs : FileSystem) (laws : IsReliable fs) where
  open fs use {Disk, content, open_out}

  -- On a reliable file system, an upload of a file of less than `2 ^ 64` bytes, announced with its
  -- size, under a proper name that is new and with a size that fits a `max_available_space` of 64
  -- bits, for which the listening socket is set up, the acceptance is sent, the client connects
  -- within the timeout, the file of the server opens, no write of the client fails, and the reads
  -- of the server, none empty and none larger than the buffer, make up what the client wrote,
  -- leaves exactly the bytes of that file on the disk of the server, is answered by the acceptance,
  -- and is reported as a success by the client.
  pub handle_upload_request-upload_file_via_tcp :
      (net : UploadNet) (node : Node Disk) (seq : ℕ) (f bytes : Bytes) (write : ℕ → Bool)
      (chunks : List Bytes) (res : ℕ) (d : Disk)
      → length bytes < 2 ^ 64
      → ((j : ℕ) → write j ≡ true)
      → join_chunks chunks
        ≡ join_chunks (upload_file_via_tcp true write (some bytes) (length bytes)).0
      → (not (is_empty f) && not (contains (b'/' ∷ []) f)) ≡ true
      → has f node.storage.files_in_storage ≡ false
      → node.storage.used_space + length bytes ≤ node.storage.max_available_space
      → node.storage.max_available_space < 2 ^ 64
      → net.listening ≡ true
      → net.sendto 26 ≡ some 26
      → net.select ≡ some res
      → (res == 0) ≡ false
      → net.accept ≡ true
      → net.reads ≡ map some chunks
      → AreChunks chunks
      → open_out node.disk (path_of fs laws node f) ≡ some d
      → (node' : Node Disk) × (handle_upload_request fs net node seq f (length bytes)
          ≡ some (node', some (acceptance seq net.port)))
        × (content node'.disk (path_of fs laws node f) ≡ some bytes)
        × ((upload_file_via_tcp true write (some bytes) (length bytes)).1 ≡ some upload_success)
  handle_upload_request-upload_file_via_tcp net node seq f bytes write chunks res d small w same
        good new fits m up sent s nz a r c o =
      let (sent_all, reported) =
        upload_file_via_tcp-join_chunks write bytes (length bytes) small small w in
      let whole : join_chunks chunks ≡ bytes = same ∙ sent_all in
      let (node', run, booked, stored) =
        handle_upload_request_succeeds fs laws net node seq f chunks res d good new (rw whole fits)
          m up sent s nz a r c o in
      (
        node',
        ap (λ (bs : Bytes). handle_upload_request fs net node seq f (length bs)) (sym whole) ∙ run,
        stored ∙ ap some whole,
        reported ∙ rw (==_refl (length bytes)),
      )

  -- On a reliable file system, after a download of a file that is on the disk of the server, under a
  -- name without NUL of at most 65481 bytes, for which the listening socket is set up, the reply is
  -- sent, the client connects within the timeout and takes every write, the file of the client
  -- opens, and the reads of the client, none empty and none larger than the buffer, make up what
  -- the server wrote, the file of the client holds exactly the bytes of the file of the server, and
  -- a success is reported only.
  pub fetch_file_via_tcp-handle_file_request :
      (net : DownloadNet) (node : Node Disk) (seq : ℕ) (f bytes : Bytes) (res : ℕ) (s : Sent)
      (chunks : List Bytes) (out_folder : Bytes) (d d' : Disk)
      → NoNul f
      → length f ≤ 65481
      → content node.disk (node.shared_folder ++ f) ≡ some bytes
      → net.listening ≡ true
      → net.sendto (26 + length f) ≡ some (26 + length f)
      → net.select ≡ some res
      → (res == 0) ≡ false
      → net.accept ≡ true
      → ((j : ℕ) → net.write j ≡ true)
      → (handle_file_request fs net node seq f).1 ≡ some s
      → join_chunks chunks ≡ join_chunks s.chunks
      → AreChunks chunks
      → open_out d (out_folder ++ f) ≡ some d'
      → ((fetch_file_via_tcp fs true (map some chunks) out_folder f d).1 ≡ fetch_success ∷ [])
        × (content (fetch_file_via_tcp fs true (map some chunks) out_folder f d).0 (out_folder ++ f)
            ≡ some bytes)
  fetch_file_via_tcp-handle_file_request net node seq f bytes res s chunks out_folder d d' plain
        room stored up sent sel nz acc w run same c o =
      let (s', handled, done, whole, small) =
        handle_file_request-join_chunks fs net node seq f bytes res plain room stored up sent sel nz
          acc w in
      let one : s' ≡ s = cc (handled, run) in
      let (ok, got) = fetch_file_via_tcp-join_chunks fs laws d d' chunks out_folder f c o in
      (ok, got ∙ ap some (same ∙ ap (λ (t : Sent). join_chunks t.chunks) (sym one) ∙ whole))
