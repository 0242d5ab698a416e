-- ===== src/Exchange/Session/RoundTrip.antt =====
-- One client uploads a file, and another one fetches it.
use mathlib.Core.Path.{subst}
use mathlib.Core.Option.{some-injective}
use distributed_server_clien.Prelude.Bytes.{Bytes, NoNul, contains, str_eq_refl}
use distributed_server_clien.Prelude.{
  ℕ, ◌+◌, ◌≤◌, ◌<◌, ◌^◌, ◌≡◌, ◌∙◌, sym, ap, true, false, [], ◌∷◌, ◌++◌, some, arith, length, not,
  ◌&&◌,
}
use distributed_server_clien.Protocol.Validation.{is_empty}
use distributed_server_clien.Client.Requests.{send_discover, send_upload}
use distributed_server_clien.Client.Transfer.{fetch_success}
use distributed_server_clien.Client.Procedures.{UploadCalls, FetchNet, fetch}
use distributed_server_clien.Server.FileSystem.{FileSystem, IsReliable}
use distributed_server_clien.Server.FileSet.{has, has-insert}
use distributed_server_clien.Server.Storage.{Storage, is_in_storage}
use distributed_server_clien.Server.Upload.{Node}
use distributed_server_clien.Server.Upload.Atomic.{with_file}
use distributed_server_clien.Server.Run.{ServerNet, run}
use distributed_server_clien.Exchange.Session.Fetch.{CarriesFetch, fetch-run_round}
use distributed_server_clien.Exchange.Session.Upload.{CarriesUpload, upload_file-run}

is_in_storage-with_file :
    (s : Storage) (f : Bytes) (size : ℕ) → is_in_storage (with_file s f size) f ≡ true
unfolding is_in_storage
is_in_storage-with_file s f size = ground (arith, has-insert f f s.files_in_storage, str_eq_refl f)

length_pos : (f : Bytes) → not (is_empty f) ≡ true → 0 < length f
unfolding is_empty
length_pos [] h = ground arith
length_pos (b ∷ bs) h = omega arith

proper_pos : (f : Bytes) → (not (is_empty f) && not (contains (b'/' ∷ []) f)) ≡ true → 0 < length f
proper_pos f h = length_pos f (ground arith)

module _ (fs : FileSystem) (laws : IsReliable fs) where
  open fs use {Disk, content, open_out}

  -- A client uploads a file to a server under a new and proper name, and then a client fetches that
  -- name: the fetch reports a success and nothing else, and its local file has exactly the bytes
  -- that were uploaded. The server takes one round for the discovery and one for the request of the
  -- upload, and answers the fetch with the node that these leave. The conditions are a reliable
  -- file system, a size and a `max_available_space` of 64 bits and room for the file, a name
  -- without NUL of at most 65481 bytes, that no call fails around the upload and the fetch, that
  -- the replies of the server arrive with only timeouts around them, or in the fetch any rounds
  -- without a valid reply before it and any behind it, that TCP hands over what is written in
  -- pieces of any size, and that the local file opens.
  pub fetch-upload_file :
      (server : ServerNet) (node : Node Disk) (calls : UploadCalls) (f bytes : Bytes)
      → length bytes < 2 ^ 64
      → NoNul f
      → length f ≤ 65481
      → node.storage.used_space + length bytes ≤ node.storage.max_available_space
      → node.storage.max_available_space < 2 ^ 64
      → (not (is_empty f) && not (contains (b'/' ∷ []) f)) ≡ true
      → has f node.storage.files_in_storage ≡ false
      → (c : CarriesUpload fs server node calls f bytes)
      → (asking announcing : Bytes) (node' : Node Disk)
      → send_discover calls.group.inet_aton calls.group.sendto calls.group.message_seq ≡ some asking
      → send_upload
          ((calls.attempts 0).inet_aton c.server_ip)
          (calls.attempts 0).sendto
          (calls.attempts 0).message_seq
          f
          (length bytes)
        ≡ some announcing
      → run fs ((server, some asking) ∷ (server, some announcing) ∷ []) (some node) ≡ some node'
      → (server' : ServerNet) (net : FetchNet) (out_folder : Bytes) (d d' : Disk)
      → open_out d (out_folder ++ f) ≡ some d'
      → CarriesFetch fs server' node' net f
      → ((fetch fs net out_folder f d).1 ≡ fetch_success ∷ [])
        × (content (fetch fs net out_folder f d).0 (out_folder ++ f) ≡ some bytes)
  fetch-upload_file server node calls f bytes small plain room fits word proper new c asking
        announcing node' asked announced ran server' net out_folder d d' opened carries =
      let (asking', announcing', disk, asked', announced', ran', stored, outcome) =
        upload_file-run fs laws server node calls f bytes small plain room fits word c [] proper
          new in
      let uploaded : Node Disk = record node {
        storage = with_file node.storage f (length bytes);
        disk = disk;
      } in
      let same : node' ≡ uploaded = some-injective node' uploaded (
        sym ran
        ∙ ap (λ (a : Bytes). run fs ((server, some a) ∷ (server, some announcing) ∷ []) (some node))
            (some-injective asking asking' (sym asked ∙ asked'))
        ∙ ap (λ (a : Bytes). run fs ((server, some asking') ∷ (server, some a) ∷ []) (some node))
            (some-injective announcing announcing' (sym announced ∙ announced'))
        ∙ ran') in
      fetch-run_round fs laws server' uploaded net f bytes out_folder d d' plain
        (proper_pos f proper) room (is_in_storage-with_file node.storage f (length bytes)) stored
        opened (subst (λ (n : Node Disk). CarriesFetch fs server' n net f) same carries)
