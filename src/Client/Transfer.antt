-- ===== src/Client/Transfer.antt =====
-- The two TCP transfers of the client (client/client.cpp): `upload_file_via_tcp` and
-- `fetch_file_via_tcp`.
pub mod Whole
use distributed_server_clien.Prelude.Bytes.{Bytes}
use distributed_server_clien.Prelude.{
  ℕ, zero, suc, ◌+◌, Bool, true, false, not, List, [], ◌∷◌, ◌++◌, Option, none, some, ◌==◌,
  if◌then◌else◌, length, take, drop,
}
use distributed_server_clien.Words.{sub64}
use distributed_server_clien.Protocol.{max_buffer_size}
use distributed_server_clien.Protocol.Validation.{is_empty}
use distributed_server_clien.Server.FileSystem.{FileSystem}

-- The buffers written, whether a write failed, and `to_upload`, a uint64_t.
pub record ClientSent : Type 0 where
  pub chunks : List Bytes
  pub failed : Bool
  pub to_upload : ℕ

abbrev pub add_sent : Bytes → Option ClientSent → Option ClientSent
add_sent c none = none
add_sent c (some s) = some (record s { chunks = c ∷ s.chunks })

-- `while (file_stream) { read; gcount; to_upload -= length; write }` over the bytes that are left of
-- the file. `write k` says whether the k-th write succeeds; `none` means that the fuel ran out.
unfoldable pub client_send_loop : ℕ → (ℕ → Bool) → ℕ → ℕ → Bytes → Option ClientSent
client_send_loop zero write k to_upload rest = none
client_send_loop (suc fuel) write k to_upload rest =
    let chunk = take max_buffer_size rest in
    let left = sub64 to_upload (length chunk) in
    let more = client_send_loop fuel write (k + 1) left (drop max_buffer_size rest) in
    if not (write k)
    then some (record { chunks = []; failed = true; to_upload = left })
    else if length chunk == max_buffer_size
    then add_sent chunk more
    else some (record { chunks = chunk ∷ []; failed = false; to_upload = left })

pub data UploadResult : Type 0 where
  connection_failed opening_failed transfer_failed partial_upload upload_success : UploadResult

abbrev pub judge_sent : ClientSent → UploadResult
judge_sent s =
    if s.failed
    then transfer_failed
    else if s.to_upload == 0
    then upload_success
    else partial_upload

abbrev pub chunks_sent : Option ClientSent → List Bytes × Option UploadResult
chunks_sent none = ([], none)
chunks_sent (some s) = (s.chunks, some (judge_sent s))

-- Whether the connection is made, the bytes of the file if it opens, and its size as `upload` took
-- it before.
unfoldable pub upload_file_via_tcp :
    Bool → (ℕ → Bool) → Option Bytes → ℕ → List Bytes × Option UploadResult
upload_file_via_tcp connected write file file_size =
    if not connected then ([], some connection_failed) else elim file [
      | none ↦ ([], some opening_failed)
      | some bytes ↦ chunks_sent (client_send_loop (suc (length bytes)) write 0 file_size bytes)
    ]

pub data FetchResult : Type 0 where
  fetch_failure : FetchResult
  fetch_success : FetchResult

module _ (fs : FileSystem) where
  open fs use {Disk, open_out, write}

  -- `while ((read_len = sock.read(buffer, sizeof(buffer))) > 0)`; `none` is socket_failure.
  unfoldable pub fetch_loop : Bytes → Disk → List (Option Bytes) → Disk × FetchResult
  fetch_loop path d [] = (d, fetch_success)
  fetch_loop path d (none ∷ reads) = (d, fetch_failure)
  fetch_loop path d (some bs ∷ reads) =
      let got = take max_buffer_size bs in
      let rest = fetch_loop path (write d path got) reads in
      if is_empty got then (d, fetch_success) else rest

  -- A file that does not open is reported as a failure, and then as a success.
  unfoldable pub fetch_file_via_tcp :
      Bool → List (Option Bytes) → Bytes → Bytes → Disk → Disk × List FetchResult
  fetch_file_via_tcp connected reads out_folder filename d =
      let path = out_folder ++ filename in
      if not connected then (d, fetch_failure ∷ []) else elim (open_out d path) [
        | none ↦ (d, fetch_failure ∷ fetch_success ∷ [])
        | some d' ↦ let (d'', result) = fetch_loop path d' reads in (d'', result ∷ [])
      ]
