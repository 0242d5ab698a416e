-- ===== src/Exchange/Replies/Listing.antt =====
-- The replies to a search, from the handler of server/server.cpp to the loop of client/client.cpp.
use distributed_server_clien.Prelude.Bytes.{Bytes, NoNul}
use distributed_server_clien.Prelude.{
  ℕ, ◌+◌, ◌≤◌, ◌<◌, ◌^◌, ◌≡◌, refl, sym, ap, ◌∙◌, List, [], ◌∷◌, ◌++◌, Option, some, arith, length,
  map,
}
use distributed_server_clien.Words.{htobe64}
use distributed_server_clien.Wire.{send_simple_lem, strncpy_lem}
use distributed_server_clien.Protocol.{files_list_response}
use distributed_server_clien.Protocol.Message.{simple_message, fill_command}
use distributed_server_clien.Socket.Udp.{send_simple}
use distributed_server_clien.Client.Replies.Acceptance.{search_reply-valid}
use distributed_server_clien.Client.Replies.{search_reply}
use distributed_server_clien.Server.FilesList.Replies.{
  matching, join_lines, tail_text, one_reply, NoneEmpty, reply_texts-matching,
}
use distributed_server_clien.Server.FilesList.{send_listing, handle_files_list_request}

abbrev pub AllNoNul : List Bytes → Type 0
AllNoNul [] = Unit {0}
AllNoNul (f ∷ fs) = NoNul f × AllNoNul fs

NoNul-append : (a b : Bytes) → NoNul a → NoNul b → NoNul (a ++ b)
NoNul-append [] b h k = k
NoNul-append (x ∷ a) b h k = ground (arith, NoNul-append a b h.1 k)

matching-AllNoNul : (p : Bytes) (fs : List Bytes) → AllNoNul fs → AllNoNul (matching p fs)
matching-AllNoNul p [] h = tt
matching-AllNoNul p (f ∷ fs) h = ground (arith, matching-AllNoNul p fs h.1)

tail_text-NoNul : (fs : List Bytes) → AllNoNul fs → NoNul (tail_text fs)
tail_text-NoNul [] h = tt
tail_text-NoNul (f ∷ fs) h =
    (omega arith, NoNul-append f (tail_text fs) h.0 (tail_text-NoNul fs h.1))

join_lines-NoNul : (fs : List Bytes) → AllNoNul fs → NoNul (join_lines fs)
join_lines-NoNul [] h = tt
join_lines-NoNul (f ∷ fs) h = NoNul-append f (tail_text fs) h.0 (tail_text-NoNul fs h.1)

module _ (sendto : ℕ → Option ℕ) (sends : (k : ℕ) → sendto k ≡ some k) (seq : ℕ)
    (small : seq < 2 ^ 64) where
  search_reply-send_listing :
      (t : Bytes)
      → NoNul t
      → length t ≤ 65489
      → search_reply seq (send_listing sendto seq t) ≡ some t
  unfolding send_listing simple_message
  search_reply-send_listing t plain room =
      let sent =
        ap
          (λ (n : Option ℕ).
            send_simple n (simple_message (htobe64 seq) files_list_response t) (length t))
          (sends (18 + length t))
        ∙ send_simple_lem seq files_list_response t (omega arith) plain room in
      let text =
        ap
          (λ (s : Bytes).
            send_simple (sendto (18 + length t))
              (record {
                command = fill_command files_list_response;
                message_seq = htobe64 seq;
                text = s;
              })
              (length t))
          (strncpy_lem 65489 t plain room) in
      ap (search_reply seq) (sym text ∙ sent) ∙ search_reply-valid seq small t plain room

  replies_lem :
      (fs : List Bytes)
      → AllNoNul fs
      → length (join_lines fs) ≤ 65489
      → map (search_reply seq) (map (send_listing sendto seq) (one_reply fs))
        ≡ map some (one_reply fs)
  replies_lem [] h room = refl
  replies_lem (f ∷ fs) h room =
      ap (λ (r : Option Bytes). r ∷ [])
        (search_reply-send_listing (join_lines (f ∷ fs)) (join_lines-NoNul (f ∷ fs) h) room)

  -- If every send succeeds, the names in storage hold no NUL and are not empty, and those that
  -- contain the pattern have room in one reply, then the client, under the number of its request,
  -- reads from the replies exactly one text with those names, a newline between them, or gets no
  -- reply if there are none.
  pub search_reply-handle_files_list_request :
      (pattern : Bytes) (files : List Bytes)
      → AllNoNul files
      → NoneEmpty files
      → length (join_lines (matching pattern files)) < 65489
      → map (search_reply seq) (handle_files_list_request sendto seq pattern files)
        ≡ map some (one_reply (matching pattern files))
  unfolding handle_files_list_request
  search_reply-handle_files_list_request pattern files plain named room =
      ap (λ (ts : List Bytes). map (search_reply seq) (map (send_listing sendto seq) ts))
        (reply_texts-matching pattern files named room)
      ∙ replies_lem (matching pattern files) (matching-AllNoNul pattern files plain) (omega arith)
