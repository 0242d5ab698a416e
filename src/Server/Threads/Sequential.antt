-- ===== src/Server/Threads/Sequential.antt =====
-- `handle_upload_request` as one function is one order of the steps of a thread.
use distributed_server_clien.Prelude.Bytes.{Bytes, contains}
use distributed_server_clien.Prelude.{
  ℕ, ◌-◌, ◌≡◌, refl, Bool, true, false, not, ◌&&◌, ◌||◌, List, [], ◌∷◌, ◌++◌, Option, some, none,
  ◌==◌, if◌then◌else◌, length, take, min, arith, Bool-cases, Option-cases, inl, inr,
}
use distributed_server_clien.Protocol.{
  max_buffer_size, file_add_acceptance, complex_message_no_data_size,
}
use distributed_server_clien.Protocol.Validation.{is_empty}
use distributed_server_clien.Server.FileSystem.{FileSystem}
use distributed_server_clien.Server.Storage.{
  Storage, add_file_to_storage, check_and_reserve_space, free_space,
}
use distributed_server_clien.Words.{htobe64}
use distributed_server_clien.Protocol.Message.{complex_message}
use distributed_server_clien.Socket.Udp.{send_complex}
use distributed_server_clien.Server.Upload.{
  with_reply, Node, UploadNet, Transferred, give_up, receive_loop, receive_file, transfer,
  remove_partial, upload_file_via_tcp, refuse, accept_upload, handle_upload_request,
}
use distributed_server_clien.Server.Threads.{
  Phase, arrived, listed, receiving, cleared, over, Handler, after_loop, Move, reserve, no_space,
  add, add_old, give_back, not_announced, not_opened, open_file, receive, read_failed, stop,
  remove_file, free, remove_name, System, start, go, Steps, nothing, ◌then◌,
}

or_false : (b : Bool) → (b || false) ≡ b
or_false true = refl
or_false false = refl

module _ (fs : FileSystem) (folder f : Bytes) (size : ℕ) (hs : List Handler) where
  open fs use {Disk, open_out, write}

  -- The system in which the first handler is at a phase.
  abbrev at_phase : Storage → Disk → Phase → System fs
  at_phase s d p = record {
    node = record { storage = s; shared_folder = folder; disk = d };
    handlers = record { filename = f; file_size = size; phase = p } ∷ hs;
  }

  Steps-append : {a b c : System fs} → Steps fs a b → Steps fs b c → Steps fs a c
  Steps-append nothing more = more
  Steps-append (step then steps) more = step then Steps-append steps more

  by-Move :
      (s s' : Storage) (d d' : Disk) (p p' : Phase)
      → Move fs (folder ++ f) f size s d p s' d' p'
      → Steps fs (at_phase s d p) (at_phase s' d' p')
  by-Move s s' d d' p p' move =
      go (record { storage = s; shared_folder = folder; disk = d }) hs f size p p' s' d' move
      then nothing

  -- Where a handler is behind the loop.
  abbrev behind : Bool → Transferred Disk → Phase
  behind bad r = after_loop r.to_upload (r.failed || bad)

  receive_loop-Steps :
      (s : Storage) (bad : Bool) (reads : List (Option Bytes)) (n : ℕ) (d : Disk)
      → Steps fs (at_phase s d (receiving n bad)) (
          at_phase s
            (receive_loop fs (folder ++ f) n d reads).disk
            (behind bad (receive_loop fs (folder ++ f) n d reads)))
  unfolding receive_loop
  receive_loop-Steps s bad [] n d = by-Move s s d d _ _ (stop n bad)
  receive_loop-Steps s bad (none ∷ reads) n d = by-Move s s d d _ _ (read_failed n bad)
  receive_loop-Steps s bad (some bs ∷ reads) n d =
      let got = take (min max_buffer_size n) bs in
      elim (Bool-cases (is_empty got)) [
        | inl closed ↦ rw closed (by-Move s s d d _ _ (stop n bad))
        | inr more ↦ rw more (
            Steps-append (by-Move s s d (write d (folder ++ f) got) _ _ (receive n bad bs more))
              (receive_loop-Steps s bad reads (n - length got) (write d (folder ++ f) got)))
      ]

  receive_file-Steps :
      (s : Storage) (accept : Bool) (reads : List (Option Bytes)) (d : Disk)
      → Steps fs (at_phase s d listed) (
          at_phase s
            (receive_file fs accept reads (folder ++ f) size d).disk
            (behind false (receive_file fs accept reads (folder ++ f) size d)))
  unfolding receive_file
  receive_file-Steps s accept reads d = elim (Option-cases (open_out d (folder ++ f))) [
    | inl shut ↦ rw (shut, receive_file) (by-Move s s d d _ _ not_opened)
    | inr (d', opened) ↦
        let r = receive_loop fs (folder ++ f) size d' reads in
        rw (opened, receive_file)
          (rw (or_false (r.failed || not accept)) (
            Steps-append (by-Move s s d d' _ _ (open_file (not accept) d' opened))
              (receive_loop-Steps s (not accept) reads size d')))
  ]

  transfer-Steps :
      (s : Storage) (net : UploadNet) (d : Disk)
      → Steps fs (at_phase s d listed) (
          at_phase s
            (transfer fs net (folder ++ f) size d).disk
            (behind false (transfer fs net (folder ++ f) size d)))
  unfolding transfer
  transfer-Steps s net d = elim (Option-cases net.select) [
    | inl broken ↦ rw (broken, transfer) (by-Move s s d d _ _ not_opened)
    | inr (res, selected) ↦ elim (Bool-cases (res == 0)) [
      | inl late ↦ rw (selected, transfer, late) (by-Move s s d d _ _ not_opened)
      | inr waits ↦ rw (selected, transfer, waits) (receive_file-Steps s net.accept net.reads d)
    ]
  ]

  give_up-Steps :
      (s : Storage) (d : Disk)
      → Steps fs (at_phase s d cleared) (at_phase (give_up s f size) d over)
  unfolding give_up
  give_up-Steps s d =
      Steps-append (by-Move s (free_space s size) d d _ _ free)
        (by-Move (free_space s size) _ d d _ _ remove_name)

  -- The system that a node makes behind its handler.
  abbrev ended : Node Disk → System fs
  ended node = record {
    node = node;
    handlers = record { filename = f; file_size = size; phase = over } ∷ hs;
  }

  -- The steps lead to where the handler ends, if no exception ends the program.
  abbrev Reaches : System fs → Option (Node Disk) → Type 0
  Reaches a none = Unit {0}
  Reaches a (some node') = Steps fs a (ended node')

  abbrev pub RepliesFrom : System fs → Option (Node Disk × Option Bytes) → Type 0
  RepliesFrom a none = Unit {0}
  RepliesFrom a (some (node', reply)) = Steps fs a (ended node')

  with_reply-RepliesFrom :
      (a : System fs) (reply : Option Bytes) (o : Option (Node Disk))
      → Reaches a o
      → RepliesFrom a (with_reply reply o)
  with_reply-RepliesFrom a reply none r = tt
  with_reply-RepliesFrom a reply (some node') r = r

  RepliesFrom-after :
      (a b : System fs) (o : Option (Node Disk × Option Bytes))
      → Steps fs a b
      → RepliesFrom b o
      → RepliesFrom a o
  RepliesFrom-after a b none steps r = tt
  RepliesFrom-after a b (some (node', reply)) steps r = Steps-append steps r

  upload_file_via_tcp-Reaches :
      (s : Storage) (net : UploadNet) (d : Disk)
      → Reaches (at_phase s d listed) (
          upload_file_via_tcp fs net
            (record { storage = s; shared_folder = folder; disk = d })
            f
            size)
  unfolding upload_file_via_tcp
  upload_file_via_tcp-Reaches s net d =
      let r = transfer fs net (folder ++ f) size d in
      let steps = rw (or_false r.failed) at (transfer-Steps s net d) in
      elim (Bool-cases (r.failed || not (r.to_upload == 0))) [
        | inl bad ↦ elim (Option-cases (remove_partial fs r.disk (folder ++ f))) [
          | inl stuck ↦ rw (bad, stuck, upload_file_via_tcp) tt
          | inr (d', gone) ↦
              rw (bad, gone, upload_file_via_tcp)
                (Steps-append (rw bad at steps) (
                  Steps-append (by-Move s s r.disk d' _ _ (remove_file d' gone))
                    (give_up-Steps s d')))
        ]
        | inr good ↦ rw (good, upload_file_via_tcp) (rw good at steps)
      ]

  accept_upload-RepliesFrom :
      (s : Storage) (net : UploadNet) (d : Disk) (seq : ℕ)
      → RepliesFrom (at_phase s d listed) (
          accept_upload fs net
            (record { storage = s; shared_folder = folder; disk = d })
            seq
            f
            size)
  unfolding accept_upload
  accept_upload-RepliesFrom s net d seq =
      let back = Steps-append (by-Move s s d d _ _ not_announced) (give_up-Steps s d) in
      let message = complex_message (htobe64 seq) file_add_acceptance f (htobe64 net.port) in
      elim (Bool-cases net.listening) [
        | inr down ↦ rw (down, accept_upload) back
        | inl up ↦
            elim (Option-cases (send_complex (net.sendto complex_message_no_data_size) message 0)) [
              | inl unsent ↦ rw (up, unsent, accept_upload) back
              | inr (datagram, sent) ↦
                  rw (up, sent, accept_upload)
                    (with_reply-RepliesFrom (at_phase s d listed) (some datagram) _
                      (upload_file_via_tcp-Reaches s net d))
            ]
      ]

  refuse-RepliesFrom :
      (a : System fs) (net : UploadNet) (node : Node Disk) (seq : ℕ)
      → Steps fs a (ended node)
      → RepliesFrom a (refuse fs net node seq f)
  unfolding refuse
  refuse-RepliesFrom a net node seq steps = steps

  -- What the mutex of the space guards, when there is not enough.
  no_space-Steps :
      (s : Storage) (d : Disk)
      → (check_and_reserve_space s size).1 ≡ false
      → Steps fs (at_phase s d arrived) (at_phase s d over)
  unfolding check_and_reserve_space
  no_space-Steps s d full =
      let same : (check_and_reserve_space s size).0 ≡ s = ground arith in
      rw same at (by-Move s _ d d _ _ (no_space full))

  -- The steps of a handler behind `arrived`.
  arrived-RepliesFrom :
      (s : Storage) (d : Disk) (net : UploadNet) (seq : ℕ)
      → (not (is_empty f) && not (contains (b'/' ∷ []) f)) ≡ true
      → RepliesFrom (at_phase s d arrived) (
          handle_upload_request fs net
            (record { storage = s; shared_folder = folder; disk = d })
            seq
            f
            size)
  unfolding handle_upload_request
  arrived-RepliesFrom s d net seq proper =
      let s' = (check_and_reserve_space s size).0 in
      let s'' = (add_file_to_storage s' f).0 in
      elim (Bool-cases (check_and_reserve_space s size).1) [
        | inr full ↦
            rw (proper, handle_upload_request, full)
              (refuse-RepliesFrom (at_phase s d arrived) net _ seq (no_space-Steps s d full))
        | inl room ↦ elim (Bool-cases (add_file_to_storage s' f).1) [
          | inr old ↦
              rw (proper, handle_upload_request, room, old)
                (refuse-RepliesFrom (at_phase s d arrived) net _ seq (
                  Steps-append (by-Move s s' d d _ _ (reserve room)) (
                    Steps-append (by-Move s' s'' d d _ _ (add_old old))
                      (by-Move s'' (free_space s'' size) d d _ _ give_back))))
          | inl new ↦
              rw (proper, handle_upload_request, room, new)
                (RepliesFrom-after (at_phase s d arrived) (at_phase s'' d listed) _
                  (Steps-append (by-Move s s' d d _ _ (reserve room))
                    (by-Move s' s'' d d _ _ (add new)))
                  (accept_upload-RepliesFrom s'' net d seq))
        ]
      ]

  -- For a proper name, whatever the sockets and the file system do and whatever other threads there
  -- are: if `handle_upload_request`, run with no other handler in between, comes to its end, the
  -- steps of its thread lead to the same node, and the thread is over.
  pub handle_upload_request-RepliesFrom :
      (s : Storage) (d : Disk) (net : UploadNet) (seq : ℕ)
      → (not (is_empty f) && not (contains (b'/' ∷ []) f)) ≡ true
      → RepliesFrom
          (record {
            node = record { storage = s; shared_folder = folder; disk = d };
            handlers = hs;
          })
          (handle_upload_request fs net
            (record { storage = s; shared_folder = folder; disk = d })
            seq
            f
            size)
  handle_upload_request-RepliesFrom s d net seq proper =
      RepliesFrom-after _ (at_phase s d arrived) _
        (start (record { storage = s; shared_folder = folder; disk = d }) hs f size proper
          then nothing)
        (arrived-RepliesFrom s d net seq proper)
