-- ===== src/Exchange/Session/Output.antt =====
-- What a search and a discovery write at the client, against one server.
use distributed_server_clien.Prelude.Bytes.{Bytes, NoNul}
use distributed_server_clien.Prelude.{
  ℕ, ◌+◌, ◌≤◌, ◌<◌, ◌^◌, ◌≡◌, ◌∙◌, refl, ap, true, List, [], ◌∷◌, ◌++◌, append-nil, Option, none,
  some, map, length, arith,
}
use distributed_server_clien.Words.{htobe64}
use distributed_server_clien.Protocol.{files_list_request}
use distributed_server_clien.Protocol.Message.{fill_command}
use distributed_server_clien.Client.Requests.{send_search}
use distributed_server_clien.Client.Replies.{Round, search_reply}
use distributed_server_clien.Client.Output.{search_round_output, search_output}
use distributed_server_clien.Logger.{Line, display_files_list}
use distributed_server_clien.Socket.Udp.{recvfrom_simple}
use distributed_server_clien.Server.FileSystem.{FileSystem}
use distributed_server_clien.Server.Request.Decoding.{receive_files_list}
use distributed_server_clien.Server.Upload.{Node}
use distributed_server_clien.Server.FilesList.{handle_files_list_request}
use distributed_server_clien.Server.FilesList.Replies.{matching, one_reply, join_lines, NoneEmpty}
use distributed_server_clien.Server.Run.{ServerNet, run_round}
use distributed_server_clien.Exchange.Replies.Listing.{
  AllNoNul, search_reply-handle_files_list_request,
}
use distributed_server_clien.Exchange.Session.Discovery.{AllSilent}
use distributed_server_clien.Exchange.Session.Search.{
  AllOneLine, arrivals, SplitsLines, send_search_lem, search_answered, matching-AllOneLine,
}

module _ (format : Bytes → List Bytes → Bytes) (to_text : ℕ → Bytes) (source_port : Round → ℕ)
    (reason : Round → Bytes) (split : Bytes → List Bytes) (seq : ℕ) where
  -- What the rounds of a search write.
  abbrev output : List Round → List Line
  output = search_output format to_text source_port reason split seq

  output_silence :
      (silence rs : List Round) → AllSilent silence → output (silence ++ rs) ≡ output rs
  unfolding search_output search_round_output
  output_silence [] rs h = refl
  output_silence (r ∷ silence) rs (quiet, h) =
      rw (quiet, search_round_output) (output_silence silence rs h)

  all_silent : (silence : List Round) → AllSilent silence → output silence ≡ []
  unfolding search_output search_round_output
  all_silent [] h = refl
  all_silent (r ∷ silence) (quiet, h) = rw (quiet, search_round_output) (all_silent silence h)

  search_round_output-some :
      (reply : Option Bytes) (source_ip text : Bytes)
      → search_reply seq reply ≡ some text
      → search_round_output format to_text source_port reason split seq
          (record { datagram = reply; source_ip = source_ip })
        ≡ display_files_list format to_text (split text) source_ip
  unfolding search_round_output search_reply recvfrom_simple
  search_round_output-some none source_ip text read = absurd (cc read)
  search_round_output-some (some datagram) source_ip text read = rw (read, search_round_output) refl

  output_answers :
      (replies : List (Option Bytes)) (names : List Bytes) (source_ip : Bytes) (more : List Round)
      → SplitsLines split seq
      → AllOneLine names
      → AllSilent more
      → map (search_reply seq) replies ≡ map some (one_reply names)
      → output (arrivals source_ip replies ++ more)
        ≡ display_files_list format to_text names source_ip
  unfolding search_output display_files_list
  output_answers [] [] source_ip more splits lines quiet e = all_silent more quiet
  output_answers [] (g ∷ names) source_ip more splits lines quiet e = absurd (cc e)
  output_answers (r ∷ replies) [] source_ip more splits lines quiet e = absurd (cc e)
  output_answers (r ∷ []) (g ∷ names) source_ip more splits lines quiet e =
      ap
        (λ (more_lines : List Line).
          search_round_output format to_text source_port reason split seq
            (record { datagram = r; source_ip = source_ip })
          ++ more_lines)
        (all_silent more quiet)
      ∙ append-nil _
      ∙ search_round_output-some r source_ip (join_lines (g ∷ names)) (cc e)
      ∙ ap (λ (files : List Bytes). display_files_list format to_text files source_ip)
          (splits g names lines)
  output_answers (r ∷ r' ∷ replies) (g ∷ names) source_ip more splits lines quiet e = absurd (cc e)

  module _ (fs : FileSystem) (server : ServerNet) (node : Node fs.Disk) where
    -- A search against one server writes one line on the standard output for each name in the
    -- storage of the server that contains the pattern, in their order and each with the address of
    -- the server, and nothing else. The conditions are a message number of 64 bits, a pattern
    -- without NUL of at most 65481 bytes, that the names hold no NUL and no newline, that none is
    -- empty and those that contain the pattern have room in one reply, that every send of the
    -- server succeeds, that its replies arrive with only timeouts around them, and that
    -- boost::split gives back the lines of a text.
    pub search_output-run_round :
        (pattern source_ip : Bytes) (rounds : Bytes → List Round) (silence more : List Round)
        → SplitsLines split seq
        → seq < 2 ^ 64
        → NoNul pattern
        → length pattern ≤ 65481
        → ((k : ℕ) → server.sendto k ≡ some k)
        → AllNoNul node.storage.files_in_storage
        → NoneEmpty node.storage.files_in_storage
        → AllOneLine node.storage.files_in_storage
        → length (join_lines (matching pattern node.storage.files_in_storage)) < 65489
        → AllSilent silence
        → AllSilent more
        → ((datagram : Bytes) (replies : List (Option Bytes))
            → run_round fs server node (some datagram) ≡ some (node, replies)
            → rounds datagram ≡ silence ++ (arrivals source_ip replies ++ more))
        → (asking : Bytes) × (send_search true (some (18 + length pattern)) seq pattern
            ≡ some asking)
          × (search_output format to_text source_port reason split seq (rounds asking)
              ≡ display_files_list format to_text
                  (matching pattern node.storage.files_in_storage)
                  source_ip)
    search_output-run_round pattern source_ip rounds silence more splits word plain room sends named
          filled lines fits quiet quiet' delivered =
        let files = node.storage.files_in_storage in
        let asking = fill_command files_list_request ++ (htobe64 seq ++ pattern) in
        let replies = handle_files_list_request server.sendto seq pattern files in
        let round = delivered asking replies (
          search_answered fs server node seq pattern asking
            (receive_files_list seq word pattern plain (omega arith))) in
        (
          asking,
          send_search_lem seq pattern plain room,
          ap output round
              ∙ output_silence silence (arrivals source_ip replies ++ more) quiet
              ∙ output_answers replies (matching pattern files) source_ip more splits
                  (matching-AllOneLine pattern files lines) quiet'
                  (search_reply-handle_files_list_request server.sendto sends seq word pattern files
                    named filled fits),
        )
