-- ===== src/Client/Transfer/Whole.antt =====
-- What the transfers of the client carry over.
use distributed_server_clien.Prelude.Bytes.{Bytes}
use distributed_server_clien.Prelude.{
  ℕ, zero, suc, ◌+◌, ◌-◌, ◌*◌, ◌%◌, ◌^◌, ◌<◌, ◌≡◌, refl, ap, ◌∙◌, Bool, true, false, List, [], ◌∷◌,
  ◌++◌, some, inl, inr, append-nil, append_assoc, arith, map, ◌==◌, if◌then◌else◌, Bool-cases,
  length, take, drop, length-take, length-drop, take-append-drop, take_of_length-le,
}
use distributed_server_clien.Protocol.{max_buffer_size}
use distributed_server_clien.Server.FileSystem.{FileSystem, IsReliable}
use distributed_server_clien.Server.Upload.Transfer.{
  join_chunks, AreChunks, is_empty_of_pos, content-write_self, content-open_out_self,
}
use distributed_server_clien.Client.Transfer.{
  ClientSent, client_send_loop, judge_sent, upload_file_via_tcp, upload_success, partial_upload,
  fetch_success, fetch_loop, fetch_file_via_tcp,
}

-- The buffers make up the file, and `to_upload` is what is missing of the announced size.
client_send_loop-join_chunks :
    (fuel : ℕ) (write : ℕ → Bool) (k to_upload : ℕ) (rest : Bytes)
    → length rest < fuel * max_buffer_size
    → to_upload < 2 ^ 64
    → length rest < 2 ^ 64
    → ((j : ℕ) → write j ≡ true)
    → (s : ClientSent) × (client_send_loop fuel write k to_upload rest ≡ some s)
      × (s.failed ≡ false)
      × (s.to_upload ≡ (to_upload + 2 ^ 64 - length rest) % 2 ^ 64)
      × (join_chunks s.chunks ≡ rest)
unfolding client_send_loop
client_send_loop-join_chunks zero write k to_upload rest h b c w = absurd (omega arith)
client_send_loop-join_chunks (suc fuel) write k to_upload rest h b c w =
    let chunk = take max_buffer_size rest in
    let small = length-take {0} max_buffer_size rest in
    let tail = length-drop {0} max_buffer_size rest in
    let left = (to_upload + 2 ^ 64 - length chunk) % 2 ^ 64 in
    elim (Bool-cases (length chunk == max_buffer_size)) [
      | inl full ↦
          let (s, run, done, counted, whole) =
            client_send_loop-join_chunks fuel write (k + 1) left (drop max_buffer_size rest)
              (ground (arith, tail, small)) (omega arith) (omega (arith, tail)) w in
          (
            record s { chunks = chunk ∷ s.chunks },
            rw (w k, full, run),
            done,
            counted ∙ ground (arith, tail, small),
            ap (◌++◌ chunk) whole ∙ take-append-drop max_buffer_size rest,
          )
      | inr last ↦
          let all = take_of_length-le max_buffer_size rest (ground (arith, small)) in
          (
            record { chunks = chunk ∷ []; failed = false; to_upload = left },
            rw (w k, last),
            refl,
            rw all,
            append-nil chunk ∙ all,
          )
    ]

judge_sent_lem :
    (s : ClientSent) (size n : ℕ)
    → s.failed ≡ false
    → s.to_upload ≡ (size + 2 ^ 64 - n) % 2 ^ 64
    → size < 2 ^ 64
    → n < 2 ^ 64
    → judge_sent s ≡ (if n == size then upload_success else partial_upload)
judge_sent_lem s size n done left small big = ground arith

-- If the connection is made, the file opens and no write fails, the client's `upload_file_via_tcp`
-- sends the whole file, and it reports a success exactly if the file has the announced size, and a
-- partial upload otherwise, for sizes of 64 bits.
pub upload_file_via_tcp-join_chunks :
    (write : ℕ → Bool) (bytes : Bytes) (size : ℕ)
    → size < 2 ^ 64
    → length bytes < 2 ^ 64
    → ((j : ℕ) → write j ≡ true)
    → (join_chunks (upload_file_via_tcp true write (some bytes) size).0 ≡ bytes)
      × ((upload_file_via_tcp true write (some bytes) size).1
          ≡ some (if length bytes == size then upload_success else partial_upload))
unfolding upload_file_via_tcp
upload_file_via_tcp-join_chunks write bytes size small big w =
    let (s, run, done, counted, whole) =
      client_send_loop-join_chunks (suc (length bytes)) write 0 size bytes (omega arith) small big
        w in
    (rw run whole, rw run (ap some (judge_sent_lem s size (length bytes) done counted small big)))

module _ (fs : FileSystem) (laws : IsReliable fs) where
  open fs use {Disk, content, open_out}

  fetch_loop-join_chunks :
      (path : Bytes) (cs : List Bytes) (d : Disk) (old : Bytes)
      → AreChunks cs
      → content d path ≡ some old
      → ((fetch_loop fs path d (map some cs)).1 ≡ fetch_success)
        × (content (fetch_loop fs path d (map some cs)).0 path ≡ some (old ++ join_chunks cs))
  unfolding fetch_loop
  fetch_loop-join_chunks path [] d old h k = (refl, rw append-nil k)
  fetch_loop-join_chunks path (c ∷ cs) d old (pos, small, h) k =
      let rest =
        fetch_loop-join_chunks path cs (fs.write d path c) (old ++ c) h
          (content-write_self fs laws path d old c k) in
      rw (take_of_length-le max_buffer_size c small, is_empty_of_pos c pos)
        (rest.0, rest.1 ∙ ap some (append_assoc old c (join_chunks cs)))

  -- On a reliable file system, if the connection is made, the file opens, and the reads, none empty
  -- and none larger than the buffer, go on to the end of the connection, `fetch_file_via_tcp`
  -- reports a success only and the file holds exactly the bytes that were read.
  pub fetch_file_via_tcp-join_chunks :
      (d d' : Disk) (cs : List Bytes) (out_folder f : Bytes)
      → AreChunks cs
      → open_out d (out_folder ++ f) ≡ some d'
      → ((fetch_file_via_tcp fs true (map some cs) out_folder f d).1 ≡ fetch_success ∷ [])
        × (content (fetch_file_via_tcp fs true (map some cs) out_folder f d).0 (out_folder ++ f)
            ≡ some (join_chunks cs))
  unfolding fetch_file_via_tcp
  fetch_file_via_tcp-join_chunks d d' cs out_folder f h o =
      let path = out_folder ++ f in
      let loop =
        fetch_loop-join_chunks path cs d' [] h (content-open_out_self fs laws path d d' o) in
      rw (o, fetch_file_via_tcp) (ap (λ r. r ∷ []) loop.0, loop.1)
