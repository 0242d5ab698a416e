-- ===== src/Exchange/Session/Discovery.antt =====
-- `Client::silent_discover` and the first offer of `Client::upload` against one server.
use distributed_server_clien.Prelude.Bytes.{Bytes, NoNul}
use distributed_server_clien.Prelude.{
  ℕ, ◌+◌, ◌≤◌, ◌≡◌, ◌∙◌, refl, ap, true, List, [], ◌∷◌, ◌++◌, Option, none, some, arith, length,
}
use distributed_server_clien.Words.{htobe64}
use distributed_server_clien.Wire.{send_simple_lem, send_complex_lem}
use distributed_server_clien.Protocol.{discover_request, file_add_request}
use distributed_server_clien.Protocol.Message.{fill_command}
use distributed_server_clien.Socket.Udp.{send_simple_to, send_complex_to, recvfrom_complex}
use distributed_server_clien.Client.Requests.{send_discover, send_upload}
use distributed_server_clien.Client.Replies.{Round, discover_reply, upload_reply}
use distributed_server_clien.Client.Replies.Loops.{
  NoUploadReply, receive_upload_file_response_first,
}
use distributed_server_clien.Client.Upload.{
  Found, discover_round, silent_discover_receive, address_after, Attempt, can_upload_file, offer,
  at_least_on_server_has_space, upload_to, upload,
}
use distributed_server_clien.Client.Procedures.{GroupNet, silent_discover}

-- Every round ends in a timeout.
abbrev pub AllSilent : List Round → Type 0
AllSilent [] = Unit {0}
AllSilent (r ∷ rs) = (r.datagram ≡ none) × AllSilent rs

pub send_discover_lem :
    (seq : ℕ)
    → send_discover true (some 18) seq ≡ some (fill_command discover_request ++ (htobe64 seq ++ []))
unfolding send_discover send_simple_to
send_discover_lem seq = send_simple_lem seq discover_request [] (omega arith) tt (omega arith)

pub send_upload_lem :
    (seq size : ℕ) (f : Bytes)
    → NoNul f
    → length f ≤ 65481
    → send_upload true (some (26 + length f)) seq f size
      ≡ some (fill_command file_add_request ++ (htobe64 seq ++ (htobe64 size ++ f)))
unfolding send_upload send_complex_to
send_upload_lem seq size f plain room =
    send_complex_lem seq file_add_request f (omega arith) plain size room

silent_discover_receive-silence :
    (seq : ℕ) (found : Found) (silence rs : List Round)
    → AllSilent silence
    → silent_discover_receive seq found (silence ++ rs) ≡ silent_discover_receive seq found rs
unfolding silent_discover_receive discover_round
silent_discover_receive-silence seq found [] rs h = refl
silent_discover_receive-silence seq found (r ∷ silence) rs (quiet, h) =
    rw (quiet, discover_round) (silent_discover_receive-silence seq found silence rs h)

silent_discover_receive_silence :
    (seq : ℕ) (found : Found) (silence : List Round)
    → AllSilent silence
    → silent_discover_receive seq found silence ≡ found
unfolding silent_discover_receive discover_round
silent_discover_receive_silence seq found [] h = refl
silent_discover_receive_silence seq found (r ∷ silence) (quiet, h) =
    rw (quiet, discover_round) (silent_discover_receive_silence seq found silence h)

discover_round-reply :
    (seq space : ℕ) (found : Found) (reply : Option Bytes) (source_ip text : Bytes)
    → discover_reply seq reply ≡ some (text, space)
    → discover_round seq found (record { datagram = reply; source_ip = source_ip }) ≡ record {
      servers = found.servers ++ record { available_space = space } ∷ [];
      address = source_ip;
    }
unfolding discover_round discover_reply recvfrom_complex
discover_round-reply seq space found none source_ip text h = absurd (cc h)
discover_round-reply seq space found (some datagram) source_ip text h = rw (h, discover_round)

-- One server answers, and all else is silence.
pub silent_discover_one :
    (net : GroupNet) (before source_ip text datagram : Bytes) (space : ℕ) (reply : Option Bytes)
    (silence more : List Round)
    → net.socket ≡ true
    → send_discover net.inet_aton net.sendto net.message_seq ≡ some datagram
    → net.rounds datagram ≡ silence ++ record { datagram = reply; source_ip = source_ip } ∷ more
    → AllSilent silence
    → AllSilent more
    → discover_reply net.message_seq reply ≡ some (text, space)
    → silent_discover net before
      ≡ record { servers = record { available_space = space } ∷ []; address = source_ip }
unfolding silent_discover silent_discover_receive
silent_discover_one net before source_ip text datagram space reply silence more made sent rounds
      quiet quiet' read =
    let start : Found = record { servers = []; address = before } in
    rw (made, sent, silent_discover, rounds)
      (silent_discover_receive-silence net.message_seq start silence _ quiet
        ∙ ap (λ found. silent_discover_receive net.message_seq found more)
            (discover_round-reply net.message_seq space start reply source_ip text read)
        ∙ silent_discover_receive_silence net.message_seq _ more quiet')

NoUploadReply-of_silence :
    (seq : ℕ) (f : Bytes) (silence : List Round) → AllSilent silence → NoUploadReply seq f silence
unfolding upload_reply recvfrom_complex
NoUploadReply-of_silence seq f [] h = tt
NoUploadReply-of_silence seq f (r ∷ silence) (quiet, h) =
    (rw quiet refl, NoUploadReply-of_silence seq f silence h)

address_after-silence :
    (seq port : ℕ) (f address : Bytes) (silence more : List Round) (r : Round) (datagram : Bytes)
    → AllSilent silence
    → r.datagram ≡ some datagram
    → upload_reply seq f (some datagram) ≡ some (port, true)
    → address_after seq f address (silence ++ r ∷ more) ≡ address
unfolding address_after
address_after-silence seq port f address [] more r datagram h here read =
    rw (here, read, address_after)
address_after-silence seq port f address (s ∷ silence) more r datagram (quiet, h) here read =
    rw (quiet, address_after)
      (address_after-silence seq port f address silence more r datagram h here read)

pub can_upload_file_accepted :
    (a : Attempt) (address f datagram reply source_ip : Bytes) (size port : ℕ)
    (silence more : List Round)
    → send_upload (a.inet_aton address) a.sendto a.message_seq f size ≡ some datagram
    → a.rounds address datagram
      ≡ silence ++ record { datagram = some reply; source_ip = source_ip } ∷ more
    → AllSilent silence
    → upload_reply a.message_seq f (some reply) ≡ some (port, true)
    → can_upload_file a address f size
      ≡ record { port = port; is_approval = true; address = address }
unfolding can_upload_file
can_upload_file_accepted a address f datagram reply source_ip size port silence more sent rounds
      quiet read =
    let round : Round = record { datagram = some reply; source_ip = source_ip } in
    let answer =
      receive_upload_file_response_first a.message_seq f silence more round port true
        (NoUploadReply-of_silence a.message_seq f silence quiet) read in
    let stays =
      address_after-silence a.message_seq port f address silence more round reply quiet refl read in
    rw (sent, can_upload_file, rounds, answer, stays)

-- The first server is asked, has room and accepts.
pub upload_accepted :
    (attempts : ℕ → Attempt) (address f : Bytes) (size space port : ℕ)
    → size ≤ space
    → can_upload_file (attempts 0) address f size
      ≡ record { port = port; is_approval = true; address = address }
    → upload true true
        (record { servers = record { available_space = space } ∷ []; address = address })
        true
        attempts
        f
        size
      ≡ upload_to address port
unfolding upload at_least_on_server_has_space offer
upload_accepted attempts address f size space port room accepted = rw accepted (ground arith)
