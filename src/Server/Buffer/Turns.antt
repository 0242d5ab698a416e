-- ===== src/Server/Buffer/Turns.antt =====
-- What a message leads to if its thread begins in the next turn (`Server::run` of server/server.cpp).
use distributed_server_clien.Prelude.Bytes.{Bytes, c_str}
use distributed_server_clien.Prelude.{
  ℕ, ◌≡◌, ◌∙◌, refl, sym, ap, List, [], ◌∷◌, ◌++◌, append-nil, append_assoc, Option, none, some,
  arith, Bool-cases, inl, inr,
}
use distributed_server_clien.Protocol.Message.{ComplexMessage, as_simple}
use distributed_server_clien.Server.FileSystem.{FileSystem}
use distributed_server_clien.Server.Storage.{is_in_storage}
use distributed_server_clien.Server.Request.{
  upload, discover, files_list, fetch, remove, Received, skipped, ignored, request, choose_simple,
  choose_handler, decode_request,
}
use distributed_server_clien.Server.FilesList.{handle_files_list_request}
use distributed_server_clien.Server.Upload.{Node, handle_upload_request}
use distributed_server_clien.Server.Remove.{handle_remove_request}
use distributed_server_clien.Server.Download.{Sent, handle_file_request}
use distributed_server_clien.Server.Run.{ServerNet, with_datagrams, serve, serve_received}
use distributed_server_clien.Server.Buffer.{
  Buffer, upload_thread, files_list_thread, fetch_thread, simple_text, skip, in_system,
  choose_thread, act, Answer, call_outcome, upload_outcome, begin_thread, System, acted, pick, Turn,
  begin, take_turn, joined, play,
}

-- The datagrams that are sent, each with its destination.
abbrev pub addressed : Bytes → List (Option Bytes) → List (Bytes × Option Bytes)
addressed address [] = []
addressed address (d ∷ ds) = (address, d) ∷ addressed address ds

abbrev pub mails : List Answer → List (Bytes × Option Bytes)
mails [] = []
mails (a ∷ answers) = addressed a.destination_address a.datagrams ++ mails answers

-- Where the handlers read the texts of a request.
abbrev pub Reads : ComplexMessage → Received → Type 0
Reads m (skipped reason) = Unit {0}
Reads m ignored = Unit {0}
Reads m (request (upload seq f size)) = f ≡ c_str m.text
Reads m (request (discover seq)) = Unit {0}
Reads m (request (files_list seq pattern)) = pattern ≡ c_str (as_simple m).text
Reads m (request (fetch seq f)) = f ≡ c_str (as_simple m).text
Reads m (request (remove f)) = Unit {0}

choose_simple-Reads : (m : ComplexMessage) → Reads m (choose_simple (as_simple m))
unfolding choose_simple
choose_simple-Reads m = ground arith

choose_handler-Reads : (m : ComplexMessage) → Reads m (choose_handler m)
unfolding choose_handler
choose_handler-Reads m = ground (arith, choose_simple-Reads m)

pub decode_request-Reads : (m : ComplexMessage) (n : ℕ) → Reads m (decode_request m n)
unfolding decode_request
decode_request-Reads m n = ground (arith, choose_handler-Reads m)

mails-append : (as' bs : List Answer) → mails (as' ++ bs) ≡ mails as' ++ mails bs
mails-append [] bs = refl
mails-append (a ∷ as') bs =
    ap (λ (m : List (Bytes × Option Bytes)). addressed a.destination_address a.datagrams ++ m)
      (mails-append as' bs)
    ∙ sym (append_assoc (addressed a.destination_address a.datagrams) (mails as') (mails bs))

module _ {Disk : Type 0} where
  -- Some datagrams go in front.
  abbrev pub with_mail :
      List (Bytes × Option Bytes)
      → Option (Node Disk × List (Bytes × Option Bytes))
      → Option (Node Disk × List (Bytes × Option Bytes))
  with_mail mail none = none
  with_mail mail (some (node, more)) = some (node, mail ++ more)

module _ (fs : FileSystem) where
  open fs use {Disk}

  -- What is seen of a system and its answers: the node and the datagrams.
  abbrev pub seen :
      Option (System fs × List Answer) → Option (Node Disk × List (Bytes × Option Bytes))
  seen none = none
  seen (some (s, answers)) = some (s.node, mails answers)

  seen-joined :
      (answers : List Answer) (o : Option (System fs × List Answer))
      → seen (joined fs answers o) ≡ with_mail (mails answers) (seen o)
  seen-joined answers none = refl
  seen-joined answers (some (s, more)) =
      ap (λ (m : List (Bytes × Option Bytes)). some (s.node, m)) (mails-append answers more)

  pub joined-nil : (o : Option (System fs × List Answer)) → joined fs [] o ≡ o
  joined-nil none = refl
  joined-nil (some (s, answers)) = refl

  joined-nil-seen : (o : Option (System fs × List Answer)) → seen (joined fs [] o) ≡ seen o
  joined-nil-seen o = ap seen (joined-nil o)

  with_mail-nil : (o : Option (Node Disk × List (Bytes × Option Bytes))) → with_mail [] o ≡ o
  with_mail-nil none = refl
  with_mail-nil (some (node, more)) = refl

  module _ (rounds : List Turn) (b : Buffer) where
    -- The turns behind a handler.
    abbrev pub go_on :
        Option (Node Disk × List (Option Bytes)) → Option (Node Disk × List (Bytes × Option Bytes))
    go_on none = none
    go_on (some (node, sent)) =
        with_mail (addressed b.source_address sent)
          (seen (play fs rounds (record { node = node; buffer = b; threads = [] })))

    go_on_answer :
        (node : Node Disk) (datagrams : List (Option Bytes)) (file : Option Sent)
        → seen (
            joined fs
              (record { destination_address = b.source_address; datagrams = datagrams; file = file }
                ∷ [])
              (play fs rounds (record { node = node; buffer = b; threads = [] })))
          ≡ go_on (some (node, datagrams))
    go_on_answer node datagrams file =
        let after = play fs rounds (record { node = node; buffer = b; threads = [] }) in
        seen-joined
          (record { destination_address = b.source_address; datagrams = datagrams; file = file }
            ∷ [])
          after
        ∙ ap (λ (m : List (Bytes × Option Bytes)). with_mail m (seen after))
            (append-nil (addressed b.source_address datagrams))

    abbrev pub then_turns :
        List Turn → Option (System fs × List Answer) → Option (System fs × List Answer)
    then_turns ts o = elim o [ none ↦ none | some (s, answers) ↦ joined fs answers (play fs ts s) ]

    go_on_upload :
        (o : Option (Node Disk × Option Bytes))
        → seen (then_turns rounds (in_system fs b [] (upload_outcome b.source_address o)))
          ≡ go_on (with_datagrams o)
    go_on_upload none = refl
    go_on_upload (some (node, datagram)) = go_on_answer node (datagram ∷ []) none

    -- No thread is there to begin.
    begin-nothing :
        (net : ServerNet) (node : Node Disk)
        → play fs (begin net 0 ∷ rounds) (record { node = node; buffer = b; threads = [] })
          ≡ play fs rounds (record { node = node; buffer = b; threads = [] })
    unfolding play take_turn pick
    begin-nothing net node = joined-nil _

    begin-upload :
        (net : ServerNet) (node : Node Disk) (seq size : ℕ)
        → seen (
            play fs
              (begin net 0 ∷ rounds)
              (record { node = node; buffer = b; threads = upload_thread seq size ∷ [] }))
          ≡ go_on (
              with_datagrams
                (handle_upload_request fs net.upload_net node seq (c_str b.message.text) size))
    unfolding play take_turn pick begin_thread
    begin-upload net node seq size =
        go_on_upload (handle_upload_request fs net.upload_net node seq (c_str b.message.text) size)

    begin-files_list :
        (net : ServerNet) (node : Node Disk) (seq : ℕ)
        → seen (
            play fs (begin net 0 ∷ rounds) (record {
              node = node;
              buffer = b;
              threads = files_list_thread b.source_address seq ∷ [];
            }))
          ≡ go_on (
              some (
                node,
                handle_files_list_request net.sendto seq
                    (simple_text b)
                    node.storage.files_in_storage,
              ))
    unfolding play take_turn pick begin_thread
    begin-files_list net node seq = go_on_answer node _ none

    begin-fetch :
        (net : ServerNet) (node : Node Disk) (seq : ℕ)
        → seen (
            play fs (begin net 0 ∷ rounds) (record {
              node = node;
              buffer = b;
              threads = fetch_thread b.source_address seq ∷ [];
            }))
          ≡ go_on (
              some
                (node, (handle_file_request fs net.download_net node seq (simple_text b)).0 ∷ []))
    unfolding play take_turn pick begin_thread
    begin-fetch net node seq = go_on_answer node _ _

    go_on_call :
        (net : ServerNet) (o : Option (Node Disk × List (Option Bytes)))
        → seen (
            then_turns (begin net 0 ∷ rounds) (in_system fs b [] (call_outcome b.source_address o)))
          ≡ go_on o
    go_on_call net none = refl
    go_on_call net (some (node, sent)) = rw (begin-nothing net node) (go_on_answer node sent none)

    pub go_on_skip :
        (net : ServerNet) (node : Node Disk)
        → seen (then_turns (begin net 0 ∷ rounds) (acted fs net node b [] skip))
          ≡ go_on (some (node, []))
    go_on_skip net node =
        rw (begin-nothing net node)
          (seen-joined [] (play fs rounds (record { node = node; buffer = b; threads = [] })))

    -- A message that has been taken, and the turn of the thread that it may have started.
    pub act-serve_received :
        (net : ServerNet) (node : Node Disk) (r : Received)
        → Reads b.message r
        → seen (
            then_turns
              (begin net 0 ∷ rounds)
              (acted fs net node b [] (act node.storage b.source_address r)))
          ≡ go_on (serve_received fs net node (some r))
    unfolding act choose_thread serve_received serve
    act-serve_received net node (skipped reason) h = go_on_skip net node
    act-serve_received net node ignored h = go_on_skip net node
    act-serve_received net node (request (upload seq f size)) h =
        rw h (joined-nil-seen _ ∙ begin-upload net node seq size)
    act-serve_received net node (request (discover seq)) h = go_on_call net (some (node, _ ∷ []))
    act-serve_received net node (request (files_list seq pattern)) h =
        rw h (joined-nil-seen _ ∙ begin-files_list net node seq)
    act-serve_received net node (request (fetch seq f)) h =
        elim (Bool-cases (is_in_storage node.storage f)) [
          | inl there ↦ rw there (rw h (joined-nil-seen _ ∙ begin-fetch net node seq))
          | inr gone ↦ rw gone (go_on_skip net node)
        ]
    act-serve_received net node (request (remove f)) h =
        go_on_call net (some (handle_remove_request fs node f, []))
