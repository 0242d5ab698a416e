-- ===== src/Exchange/Session/Search.antt =====
-- `Client::search` against one server.
use distributed_server_clien.Prelude.Bytes.{Bytes, NoNul, contains, str_eq_iff}
use distributed_server_clien.Prelude.{
  ℕ, ◌+◌, ◌≤◌, ◌<◌, ◌^◌, ◌≡◌, ◌∙◌, refl, ap, true, false, List, [], ◌∷◌, ◌++◌, Option, none, some,
  map, arith, length, ◌&&◌, if◌then◌else◌,
}
use distributed_server_clien.Words.{htobe64}
use distributed_server_clien.Wire.{send_simple_lem}
use distributed_server_clien.Protocol.{files_list_request}
use distributed_server_clien.Protocol.Message.{fill_command}
use distributed_server_clien.Socket.Udp.{send_simple_to, recvfrom_simple}
use distributed_server_clien.Client.Requests.{send_search}
use distributed_server_clien.Client.Replies.{Round, search_reply}
use distributed_server_clien.Client.Search.{
  SearchResults, update_search_results_lem, search_round, receive_search_respond, search,
}
use distributed_server_clien.Server.FileSystem.{FileSystem}
use distributed_server_clien.Server.FileSet.{has}
use distributed_server_clien.Server.Request.{request, receive_request}
use distributed_server_clien.Server.Request
use distributed_server_clien.Server.Request.Decoding.{receive_files_list}
use distributed_server_clien.Server.Upload.{Node}
use distributed_server_clien.Server.FilesList.{handle_files_list_request}
use distributed_server_clien.Server.FilesList.Replies.{matching, one_reply, join_lines, NoneEmpty}
use distributed_server_clien.Server.Run.{ServerNet, serve, serve_received, run_round}
use distributed_server_clien.Exchange.Replies.Listing.{
  AllNoNul, search_reply-handle_files_list_request,
}
use distributed_server_clien.Exchange.Session.Discovery.{AllSilent}

-- No name holds a newline.
abbrev pub AllOneLine : List Bytes → Type 0
AllOneLine [] = Unit {0}
AllOneLine (f ∷ fs) = (contains (b'\n' ∷ []) f ≡ false) × AllOneLine fs

-- The datagrams of a server that arrive at the client.
abbrev pub arrivals : Bytes → List (Option Bytes) → List Round
arrivals source_ip [] = []
arrivals source_ip (reply ∷ replies) =
    record { datagram = reply; source_ip = source_ip } ∷ arrivals source_ip replies

pub send_search_lem :
    (seq : ℕ) (pattern : Bytes)
    → NoNul pattern
    → length pattern ≤ 65481
    → send_search true (some (18 + length pattern)) seq pattern
      ≡ some (fill_command files_list_request ++ (htobe64 seq ++ pattern))
unfolding send_search send_simple_to
send_search_lem seq pattern plain room =
    send_simple_lem seq files_list_request pattern (omega arith) plain (omega arith)

pub search_answered :
    (fs : FileSystem) (server : ServerNet) (node : Node fs.Disk) (seq : ℕ)
    (pattern datagram : Bytes)
    → receive_request (some datagram) ≡ some (request (Request.files_list seq pattern))
    → run_round fs server node (some datagram)
      ≡ some
          (node, handle_files_list_request server.sendto seq pattern node.storage.files_in_storage)
unfolding run_round serve_received serve
search_answered fs server node seq pattern datagram decoded = rw (decoded, run_round)

has-matching :
    (p f : Bytes) (files : List Bytes) → has f (matching p files) ≡ (contains p f && has f files)
unfolding has
has-matching p f [] = ground arith
has-matching p f (g ∷ files) = ground (arith, has-matching p f files, str_eq_iff f g)

pub matching-AllOneLine :
    (p : Bytes) (files : List Bytes) → AllOneLine files → AllOneLine (matching p files)
matching-AllOneLine p [] h = tt
matching-AllOneLine p (f ∷ files) h = ground (arith, matching-AllOneLine p files h.1)

module _ (split : Bytes → List Bytes) (seq : ℕ) where
  -- boost::split by newlines gives the lines back that a newline was put between.
  abbrev pub SplitsLines : Type 0
  SplitsLines =
      (f : Bytes) (fs : List Bytes) → AllOneLine (f ∷ fs) → split (join_lines (f ∷ fs)) ≡ f ∷ fs

  all_silent :
      (results : SearchResults) (silence : List Round)
      → AllSilent silence
      → receive_search_respond split seq results silence ≡ results
  unfolding receive_search_respond search_round search_reply recvfrom_simple
  all_silent results [] h = refl
  all_silent results (r ∷ silence) (quiet, h) =
      rw (quiet, search_round) (all_silent results silence h)

  silent_rounds :
      (results : SearchResults) (silence rs : List Round)
      → AllSilent silence
      → receive_search_respond split seq results (silence ++ rs)
        ≡ receive_search_respond split seq results rs
  unfolding receive_search_respond search_round search_reply recvfrom_simple
  silent_rounds results [] rs h = refl
  silent_rounds results (r ∷ silence) rs (quiet, h) =
      rw (quiet, search_round) (silent_rounds results silence rs h)

  one_answer :
      (results : SearchResults) (reply : Option Bytes) (source_ip text f : Bytes)
      (more : List Round)
      → AllSilent more
      → search_reply seq reply ≡ some text
      → receive_search_respond split seq results
          (record { datagram = reply; source_ip = source_ip } ∷ more)
          f
        ≡ (if has f (split text) then some source_ip else results f)
  unfolding receive_search_respond search_round
  one_answer results reply source_ip text f more quiet read =
      ap (λ (t : SearchResults). t f)
        (all_silent
          (search_round split seq results (record { datagram = reply; source_ip = source_ip })) more
          quiet)
      ∙ rw (read, search_round) (update_search_results_lem results (split text) source_ip f)

  answers_lem :
      (results : SearchResults) (replies : List (Option Bytes)) (names : List Bytes)
      (source_ip f : Bytes) (more : List Round)
      → SplitsLines
      → AllOneLine names
      → AllSilent more
      → map (search_reply seq) replies ≡ map some (one_reply names)
      → receive_search_respond split seq results (arrivals source_ip replies ++ more) f
        ≡ (if has f names then some source_ip else results f)
  unfolding has
  answers_lem results [] [] source_ip f more splits lines quiet e =
      ap (λ (t : SearchResults). t f) (all_silent results more quiet)
  answers_lem results [] (g ∷ names) source_ip f more splits lines quiet e = absurd (cc e)
  answers_lem results (r ∷ replies) [] source_ip f more splits lines quiet e = absurd (cc e)
  answers_lem results (r ∷ []) (g ∷ names) source_ip f more splits lines quiet e =
      one_answer results r source_ip (join_lines (g ∷ names)) f more quiet (cc e)
      ∙ rw (splits g names lines) refl
  answers_lem results (r ∷ r' ∷ replies) (g ∷ names) source_ip f more splits lines quiet e =
      absurd (cc e)

module _ (fs : FileSystem) (server : ServerNet) (node : Node fs.Disk) where
  -- A search against one server: behind it, `last_search_results` has the address of that server
  -- for exactly the names in its storage that contain the pattern, and no other entry. The
  -- conditions are a message number of 64 bits, a pattern without NUL of at most 65481 bytes, that
  -- the names hold no NUL and no newline, that none is empty and those that contain the pattern
  -- have room in one reply, that every send of the server succeeds, that its replies arrive with
  -- only timeouts around them, and that boost::split gives back the lines of a text.
  pub search-run_round :
      (split : Bytes → List Bytes) (seq : ℕ) (pattern f source_ip : Bytes)
      (rounds : Bytes → List Round) (silence more : List Round)
      → SplitsLines split seq
      → seq < 2 ^ 64
      → NoNul pattern
      → length pattern ≤ 65481
      → ((k : ℕ) → server.sendto k ≡ some k)
      → AllNoNul node.storage.files_in_storage
      → NoneEmpty node.storage.files_in_storage
      → AllOneLine node.storage.files_in_storage
      → length (join_lines (matching pattern node.storage.files_in_storage)) < 65489
      → AllSilent silence
      → AllSilent more
      → ((datagram : Bytes) (replies : List (Option Bytes))
          → run_round fs server node (some datagram) ≡ some (node, replies)
          → rounds datagram ≡ silence ++ (arrivals source_ip replies ++ more))
      → (asking : Bytes) × (send_search true (some (18 + length pattern)) seq pattern ≡ some asking)
        × (search split seq (some asking) (rounds asking) f ≡ (
            if contains pattern f && has f node.storage.files_in_storage
            then some source_ip
            else none))
  unfolding search
  search-run_round split seq pattern f source_ip rounds silence more splits word plain room sends
        named filled lines fits quiet quiet' delivered =
      let files = node.storage.files_in_storage in
      let asking = fill_command files_list_request ++ (htobe64 seq ++ pattern) in
      let replies = handle_files_list_request server.sendto seq pattern files in
      let round = delivered asking replies (
        search_answered fs server node seq pattern asking
          (receive_files_list seq word pattern plain (omega arith))) in
      (
        asking,
        send_search_lem seq pattern plain room,
        ap (λ (rs : List Round). receive_search_respond split seq (λ g. none) rs f) round
            ∙ ap (λ (t : SearchResults). t f)
                (silent_rounds split seq (λ g. none) silence (arrivals source_ip replies ++ more)
                  quiet)
            ∙ answers_lem split seq (λ g. none) replies (matching pattern files) source_ip f more
                splits (matching-AllOneLine pattern files lines) quiet'
                (search_reply-handle_files_list_request server.sendto sends seq word pattern files
                  named filled fits)
            ∙ rw (has-matching pattern f files) refl,
      )
