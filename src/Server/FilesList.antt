-- ===== src/Server/FilesList.antt =====
-- `handle_files_list_request` and `fill_message_with_filename` (server/server.cpp). The part of
-- `message.data` in front of `curr_data_len` is the text; behind it the array holds NUL. The names
-- in storage hold no NUL, so `strcpy` copies the whole name.
pub mod Replies
use distributed_server_clien.Prelude.Bytes.{Bytes, contains}
use distributed_server_clien.Prelude.{
  ℕ, ◌+◌, Bool, List, [], ◌∷◌, ◌++◌, Option, ltb, if◌then◌else◌, length, map,
}
use distributed_server_clien.Words.{htobe64}
use distributed_server_clien.Protocol.{
  files_list_response, max_simple_data_size, simple_message_no_data_size,
}
use distributed_server_clien.Protocol.Message.{SimpleMessage, fill_command}
use distributed_server_clien.Socket.Udp.{send_simple}

unfoldable pub fill_message_with_filename : Bytes → Bytes → Bytes
fill_message_with_filename text filename =
    (if ltb 0 (length text) then text ++ b'\n' ∷ [] else text) ++ filename

-- The text under construction, and the texts sent so far.
pub record Listing : Type 0 where
  pub text : Bytes
  pub sent : List Bytes

-- The body of the loop over `files_in_storage`.
unfoldable pub list_step : Bytes → Listing → Bytes → Listing
unfolding fill_message_with_filename
list_step pattern l filename =
    if contains pattern filename
    then (if ltb (length l.text + length filename) max_simple_data_size
        then record l { text = fill_message_with_filename l.text filename }
        else record { text = []; sent = l.sent ++ l.text ∷ [] })
    else l

unfoldable pub list_loop : Bytes → Listing → List Bytes → Listing
list_loop pattern l [] = l
list_loop pattern l (f ∷ fs) = list_loop pattern (list_step pattern l f) fs

-- The texts of the replies, the last one only if it is not empty.
unfoldable pub reply_texts : Bytes → List Bytes → List Bytes
reply_texts pattern files =
    let l = list_loop pattern (record { text = []; sent = [] }) files in
    if ltb 0 (length l.text) then l.sent ++ l.text ∷ [] else l.sent

-- `try_send_message` of one reply; `none` is a failure that is logged.
unfoldable pub send_listing : (ℕ → Option ℕ) → ℕ → Bytes → Option Bytes
send_listing sendto message_seq text =
    send_simple (sendto (simple_message_no_data_size + length text))
      (record {
        command = fill_command files_list_response;
        message_seq = htobe64 message_seq;
        text = text;
      })
      (length text)

unfoldable pub handle_files_list_request :
    (ℕ → Option ℕ) → ℕ → Bytes → List Bytes → List (Option Bytes)
handle_files_list_request sendto message_seq pattern files =
    map (send_listing sendto message_seq) (reply_texts pattern files)
