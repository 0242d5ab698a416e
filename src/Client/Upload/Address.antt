-- ===== src/Client/Upload/Address.antt =====
-- Which server an upload turns to.
use distributed_server_clien.Prelude.Bytes.{Bytes}
use distributed_server_clien.Prelude.{
  ℕ, ◌<◌, ◌≡◌, refl, ap, ◌∙◌, Bool, true, List, [], ◌∷◌, ◌++◌, append_assoc, append-nil, sym,
  Option, none, some, arith, Option-cases, inl, inr,
}
use distributed_server_clien.Client.Replies.{Round, discover_reply}
use distributed_server_clien.Socket.Udp.{recvfrom_complex}
use distributed_server_clien.Client.Requests.{send_discover}
use distributed_server_clien.Client.Procedures.{
  GroupNet, UploadCalls, silent_discover, not_started, transfer_to, upload_file,
}
use distributed_server_clien.Client.Upload.{
  ServerData, Found, discover_round, silent_discover_receive, at_least_on_server_has_space, Attempt,
  file_too_big, upload,
}

-- The source of the last datagram among the rounds.
abbrev pub last_source : Bytes → List Round → Bytes
last_source address [] = address
last_source address (r ∷ rs) =
    let timeout = last_source address rs in
    let received = last_source r.source_ip rs in
    elim r.datagram [ none ↦ timeout | some datagram ↦ received ]

-- The space that each valid reply shows, in the order of the replies.
abbrev pub one_space : Option (Bytes × ℕ) → List ServerData
one_space none = []
one_space (some (text, space)) = record { available_space = space } ∷ []

abbrev pub spaces : ℕ → List Round → List ServerData
spaces seq [] = []
spaces seq (r ∷ rs) = one_space (discover_reply seq r.datagram) ++ spaces seq rs

discover_round_timeout :
    (seq : ℕ) (found : Found) (r : Round) → r.datagram ≡ none → discover_round seq found r ≡ found
unfolding discover_round
discover_round_timeout seq found r e = rw (e, discover_round)

discover_round-address :
    (seq : ℕ) (found : Found) (r : Round) (d : Bytes)
    → r.datagram ≡ some d
    → (discover_round seq found r).address ≡ r.source_ip
unfolding discover_round
discover_round-address seq found r d e = elim (Option-cases (discover_reply seq (some d))) [
  | inl none_left ↦ rw (e, discover_round, none_left)
  | inr (answer, read) ↦ rw (e, discover_round, read)
]

-- Whatever servers answer a discovery, the one address that the upload goes on with is the source
-- of the last datagram that was received, be it a valid reply or not.
pub silent_discover_receive-address :
    (seq : ℕ) (found : Found) (rounds : List Round)
    → (silent_discover_receive seq found rounds).address ≡ last_source found.address rounds
unfolding silent_discover_receive
silent_discover_receive-address seq found [] = refl
silent_discover_receive-address seq found (r ∷ rs) = elim (Option-cases r.datagram) [
  | inl e ↦
      silent_discover_receive-address seq (discover_round seq found r) rs
      ∙ rw (discover_round_timeout seq found r e, e)
  | inr (d, e) ↦
      silent_discover_receive-address seq (discover_round seq found r) rs
      ∙ rw (discover_round-address seq found r d e, e)
]

discover_reply-none : (seq : ℕ) → discover_reply seq none ≡ none
unfolding discover_reply recvfrom_complex
discover_reply-none seq = refl

discover_round-servers :
    (seq : ℕ) (found : Found) (r : Round)
    → (discover_round seq found r).servers
      ≡ found.servers ++ one_space (discover_reply seq r.datagram)
unfolding discover_round
discover_round-servers seq found r = elim (Option-cases r.datagram) [
  | inl e ↦
      rw (discover_round_timeout seq found r e, e, ap one_space (discover_reply-none seq))
        (sym (append-nil found.servers))
  | inr (d, e) ↦ elim (Option-cases (discover_reply seq (some d))) [
    | inl none_left ↦ rw (e, discover_round, none_left) (sym (append-nil found.servers))
    | inr (answer, read) ↦ rw (e, discover_round, read)
  ]
]

-- A discovery finds one server for each valid reply, with the space that the reply shows, in the
-- order of the replies, behind those found before.
pub silent_discover_receive-spaces :
    (seq : ℕ) (found : Found) (rounds : List Round)
    → (silent_discover_receive seq found rounds).servers ≡ found.servers ++ spaces seq rounds
unfolding silent_discover_receive
silent_discover_receive-spaces seq found [] = sym (append-nil found.servers)
silent_discover_receive-spaces seq found (r ∷ rs) =
    silent_discover_receive-spaces seq (discover_round seq found r) rs
    ∙ ap (λ (ss : List ServerData). ss ++ spaces seq rs) (discover_round-servers seq found r)
    ∙ append_assoc found.servers (one_space (discover_reply seq r.datagram)) (spaces seq rs)

spaces-append :
    (seq : ℕ) (rs ss : List Round) → spaces seq (rs ++ ss) ≡ spaces seq rs ++ spaces seq ss
spaces-append seq [] ss = refl
spaces-append seq (r ∷ rs) ss =
    ap (λ (found : List ServerData). one_space (discover_reply seq r.datagram) ++ found)
      (spaces-append seq rs ss)
    ∙ sym (append_assoc (one_space (discover_reply seq r.datagram)) (spaces seq rs) (spaces seq ss))

silent_discover-spaces :
    (net : GroupNet) (before datagram : Bytes)
    → net.socket ≡ true
    → send_discover net.inet_aton net.sendto net.message_seq ≡ some datagram
    → (silent_discover net before).servers ≡ spaces net.message_seq (net.rounds datagram)
unfolding silent_discover
silent_discover-spaces net before datagram made sent =
    rw (made, sent, silent_discover)
      (silent_discover_receive-spaces net.message_seq (record { servers = []; address = before })
        (net.rounds datagram))

upload_first :
    (found : Found) (s : ServerData) (ss : List ServerData) (socket : Bool) (attempts : ℕ → Attempt)
    (f : Bytes) (size : ℕ)
    → found.servers ≡ s ∷ ss
    → s.available_space < size
    → upload true true found socket attempts f size ≡ file_too_big
unfolding upload at_least_on_server_has_space
upload_first found s ss socket attempts f size e small = rw e (ground arith)

-- If the first valid reply to the discovery of an upload of an existing regular file comes from a
-- server with less space than the file needs, and the socket and the send succeed, then whatever
-- replies come behind it, the servers found are that one and after it those of the later valid
-- replies, in their order and with their spaces, and yet the upload is not started, as too big for
-- any of them.
pub upload_file-silent_discover :
    (calls : UploadCalls) (before f datagram text : Bytes) (space : ℕ) (noise more : List Round)
    (r : Round)
    → calls.exists ≡ true
    → calls.is_regular_file ≡ true
    → calls.group.socket ≡ true
    → send_discover calls.group.inet_aton calls.group.sendto calls.group.message_seq ≡ some datagram
    → calls.group.rounds datagram ≡ noise ++ r ∷ more
    → spaces calls.group.message_seq noise ≡ []
    → discover_reply calls.group.message_seq r.datagram ≡ some (text, space)
    → space < calls.file_size
    → ((silent_discover calls.group before).servers
        ≡ record { available_space = space } ∷ spaces calls.group.message_seq more)
      × (upload_file calls before f ≡ not_started file_too_big)
unfolding upload_file
upload_file-silent_discover calls before f datagram text space noise more r exists regular made sent
      rounds none_before read small =
    let seq = calls.group.message_seq in
    let first : ServerData = record { available_space = space } in
    let found =
      silent_discover-spaces calls.group before datagram made sent
      ∙ ap (spaces seq) rounds
      ∙ spaces-append seq noise (r ∷ more)
      ∙ ap (λ (ss : List ServerData). ss ++ spaces seq (r ∷ more)) none_before
      ∙ ap (λ (reply : Option (Bytes × ℕ)). one_space reply ++ spaces seq more) read in
    (
      found,
      rw (exists, regular)
          (ap (transfer_to calls) (
            upload_first (silent_discover calls.group before) first (spaces seq more) calls.socket
              calls.attempts f calls.file_size found small)),
    )
