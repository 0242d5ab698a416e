-- ===== src/Server/Download/Chunks.antt =====
-- The buffers of a download are the file.
use distributed_server_clien.Prelude.Bytes.{Bytes, NoNul}
use distributed_server_clien.Prelude.{
  ℕ, zero, suc, ◌+◌, ◌*◌, ◌≤◌, ◌<◌, ◌≡◌, refl, ap, ◌∙◌, Bool, true, false, List, [], ◌∷◌, ◌++◌,
  Option, some, inl, inr, append-nil, append_assoc, ◌⊎◌, arith, ◌==◌, Bool-cases, length, take,
  drop, length-take, length-drop, take-append-drop, take_of_length-le,
}
use distributed_server_clien.Words.{htobe64}
use distributed_server_clien.Wire.{send_complex_lem}
use distributed_server_clien.Protocol.{max_buffer_size, file_get_response}
use distributed_server_clien.Protocol.Message.{fill_command, complex_message}
use distributed_server_clien.Socket.Udp.{send_complex}
use distributed_server_clien.Server.FileSystem.{FileSystem}
use distributed_server_clien.Server.Upload.{Node}
use distributed_server_clien.Server.Upload.Transfer.{join_chunks}
use distributed_server_clien.Server.Download.{
  Sent, send_loop, DownloadNet, send_file, send_file_via_tcp, handle_file_request,
}

-- No buffer is larger than the array it was read into.
abbrev pub AllSmall : List Bytes → Type 0
AllSmall [] = Unit {0}
AllSmall (c ∷ cs) = (length c ≤ max_buffer_size) × AllSmall cs

-- With enough fuel and a client that takes every buffer, the loop ends by itself, and the buffers
-- that it wrote make up the file.
pub send_loop-join_chunks :
    (fuel : ℕ) (write : ℕ → Bool) (k : ℕ) (rest : Bytes)
    → length rest < fuel * max_buffer_size
    → ((j : ℕ) → write j ≡ true)
    → (s : Sent) × (send_loop fuel write k rest ≡ some s)
      × (s.complete ≡ true)
      × (join_chunks s.chunks ≡ rest)
      × AllSmall s.chunks
unfolding send_loop
send_loop-join_chunks zero write k rest h w = absurd (omega arith)
send_loop-join_chunks (suc fuel) write k rest h w =
    let chunk = take max_buffer_size rest in
    let small = length-take {0} max_buffer_size rest in
    elim (Bool-cases (length chunk == max_buffer_size)) [
      | inl full ↦
          let (s, run, done, whole, all) =
            send_loop-join_chunks fuel write (k + 1) (drop max_buffer_size rest)
              (ground (arith, length-drop {0} max_buffer_size rest, small)) w in
          (
            record s { chunks = chunk ∷ s.chunks },
            rw (w k, full, run),
            done,
            ap (◌++◌ chunk) whole ∙ take-append-drop max_buffer_size rest,
            (omega (arith, small), all),
          )
      | inr last ↦ (
        record { chunks = chunk ∷ []; complete = true },
        rw (w k, last),
        refl,
        append-nil chunk ∙ take_of_length-le max_buffer_size rest (ground (arith, small)),
        (omega (arith, small), tt),
      )
    ]

-- Whichever writes fail, the loop of `send_file_via_tcp` ends within as many rounds as the fuel, if
-- the buffers of that many rounds hold more than the rest of the file; what was written is a prefix
-- of that rest, and nothing is left of it unless a write failed.
pub send_loop_prefix :
    (fuel : ℕ) (write : ℕ → Bool) (k : ℕ) (rest : Bytes)
    → length rest < fuel * max_buffer_size
    → (s : Sent) × (left : Bytes) × (send_loop fuel write k rest ≡ some s)
      × (join_chunks s.chunks ++ left ≡ rest)
      × ((s.complete ≡ false) ⊎ (left ≡ []))
unfolding send_loop
send_loop_prefix zero write k rest h = absurd (omega arith)
send_loop_prefix (suc fuel) write k rest h =
    let chunk = take max_buffer_size rest in
    let small = length-take {0} max_buffer_size rest in
    elim (Bool-cases (write k)) [
      | inr fails ↦ (record { chunks = []; complete = false }, rest, rw fails, refl, inl refl)
      | inl goes ↦ elim (Bool-cases (length chunk == max_buffer_size)) [
        | inl full ↦
            let (s, left, run, split, all) =
              send_loop_prefix fuel write (k + 1) (drop max_buffer_size rest)
                (ground (arith, length-drop {0} max_buffer_size rest, small)) in
            (
              record s { chunks = chunk ∷ s.chunks },
              left,
              rw (goes, full, run),
              append_assoc chunk (join_chunks s.chunks) left
                  ∙ ap (◌++◌ chunk) split
                  ∙ take-append-drop max_buffer_size rest,
              all,
            )
        | inr last ↦ (
          record { chunks = chunk ∷ []; complete = true },
          [],
          rw (goes, last),
          append-nil (chunk ++ [])
              ∙ append-nil chunk
              ∙ take_of_length-le max_buffer_size rest (ground (arith, small)),
          inr refl,
        )
      ]
    ]

module _ (fs : FileSystem) where
  open fs use {Disk, content}

  send_file_via_tcp-send_file :
      (net : DownloadNet) (node : Node Disk) (f : Bytes) (res : ℕ)
      → net.select ≡ some res
      → (res == 0) ≡ false
      → net.accept ≡ true
      → send_file_via_tcp fs net node f
        ≡ send_file net.write (content node.disk (node.shared_folder ++ f))
  unfolding send_file_via_tcp
  send_file_via_tcp-send_file net node f res sel nz acc = rw (sel, send_file_via_tcp, nz, acc)

  pub handle_file_request-send_file_via_tcp :
      (net : DownloadNet) (node : Node Disk) (seq : ℕ) (f reply : Bytes)
      → net.listening ≡ true
      → send_complex
          (net.sendto (26 + length f))
          (complex_message (htobe64 seq) file_get_response f (htobe64 net.port))
          (length f)
        ≡ some reply
      → handle_file_request fs net node seq f ≡ (some reply, send_file_via_tcp fs net node f)
  unfolding handle_file_request
  handle_file_request-send_file_via_tcp net node seq f reply up sent =
      elim (Bool-cases net.listening) [
        | inl e ↦ rw (sent, e, handle_file_request)
        | inr e ↦ absurd (cc (up, e))
      ]

  send_file-some :
      (write : ℕ → Bool) (c : Option Bytes) (bytes : Bytes)
      → c ≡ some bytes
      → send_file write c ≡ send_loop (suc (length bytes)) write 0 bytes
  unfolding send_file
  send_file-some write c bytes e = rw e

  -- A download of a file that is on the disk, under a name without NUL that fits in a message, for
  -- which the listening socket is set up, the reply is sent, and the client connects within the
  -- timeout and takes every write, sends the port under the number of the request and then, to the
  -- end, buffers of at most the buffer's size that make up exactly the bytes of the file.
  pub handle_file_request-join_chunks :
      (net : DownloadNet) (node : Node Disk) (seq : ℕ) (f bytes : Bytes) (res : ℕ)
      → NoNul f
      → length f ≤ 65481
      → content node.disk (node.shared_folder ++ f) ≡ some bytes
      → net.listening ≡ true
      → net.sendto (26 + length f) ≡ some (26 + length f)
      → net.select ≡ some res
      → (res == 0) ≡ false
      → net.accept ≡ true
      → ((j : ℕ) → net.write j ≡ true)
      → (s : Sent) × (handle_file_request fs net node seq f ≡ (
        some (fill_command file_get_response ++ (htobe64 seq ++ (htobe64 net.port ++ f))),
        some s,
      ))
        × (s.complete ≡ true)
        × (join_chunks s.chunks ≡ bytes)
        × AllSmall s.chunks
  handle_file_request-join_chunks net node seq f bytes res plain room stored up sent sel nz acc w =
      let (s, run, done, whole, small) =
        send_loop-join_chunks (suc (length bytes)) net.write 0 bytes (omega arith) w in
      let reply =
        ap
          (λ (n : Option ℕ).
            send_complex n (complex_message (htobe64 seq) file_get_response f (htobe64 net.port))
              (length f))
          sent
        ∙ send_complex_lem seq file_get_response f (omega arith) plain net.port room in
      let file =
        send_file_via_tcp-send_file net node f res sel nz acc
        ∙ send_file-some net.write (content node.disk (node.shared_folder ++ f)) bytes stored
        ∙ run in
      (
        s,
        handle_file_request-send_file_via_tcp net node seq f
              (fill_command file_get_response ++ (htobe64 seq ++ (htobe64 net.port ++ f))) up reply
            ∙ rw file,
        done,
        whole,
        small,
      )
