-- ===== src/Client/Replies/Loops.antt =====
-- The loops that wait for a reply skip what is none.
use distributed_server_clien.Prelude.Bytes.{Bytes}
use distributed_server_clien.Prelude.{ℕ, refl, ◌≡◌, Bool, List, [], ◌∷◌, ◌++◌, none, some}
use distributed_server_clien.Client.Replies.{
  Round, fetch_reply, receive_fetch_file_response, upload_reply, receive_upload_file_response,
}

-- No round has a valid reply.
abbrev pub NoFetchReply : ℕ → Bytes → List Round → Type 0
NoFetchReply seq f [] = Unit {0}
NoFetchReply seq f (r ∷ rs) = (fetch_reply seq f r.datagram ≡ none) × NoFetchReply seq f rs

abbrev pub NoUploadReply : ℕ → Bytes → List Round → Type 0
NoUploadReply seq f [] = Unit {0}
NoUploadReply seq f (r ∷ rs) = (upload_reply seq f r.datagram ≡ none) × NoUploadReply seq f rs

-- Whatever rounds without a valid reply come before, timeouts and other datagrams,
-- `receive_fetch_file_response` returns the port of the first valid reply, and what comes behind it
-- does not matter.
pub receive_fetch_file_response_first :
    (seq : ℕ) (f : Bytes) (noise more : List Round) (r : Round) (port : ℕ)
    → NoFetchReply seq f noise
    → fetch_reply seq f r.datagram ≡ some port
    → receive_fetch_file_response seq f (noise ++ r ∷ more) ≡ port
unfolding receive_fetch_file_response
receive_fetch_file_response_first seq f [] more r port h e = rw (e, receive_fetch_file_response)
receive_fetch_file_response_first seq f (n ∷ noise) more r port h e =
    rw (h.0, receive_fetch_file_response)
      (receive_fetch_file_response_first seq f noise more r port h.1 e)

-- No valid reply comes.
pub receive_fetch_file_response_none :
    (seq : ℕ) (f : Bytes) (noise : List Round)
    → NoFetchReply seq f noise
    → receive_fetch_file_response seq f noise ≡ 0
unfolding receive_fetch_file_response
receive_fetch_file_response_none seq f [] h = refl
receive_fetch_file_response_none seq f (r ∷ noise) h =
    rw (h.0, receive_fetch_file_response) (receive_fetch_file_response_none seq f noise h.1)

-- Whatever rounds without a valid reply come before, timeouts and other datagrams,
-- `receive_upload_file_response` returns the answer of the first valid reply, and what comes behind
-- it does not matter.
pub receive_upload_file_response_first :
    (seq : ℕ) (f : Bytes) (noise more : List Round) (r : Round) (port : ℕ) (approved : Bool)
    → NoUploadReply seq f noise
    → upload_reply seq f r.datagram ≡ some (port, approved)
    → receive_upload_file_response seq f (noise ++ r ∷ more) ≡ (port, approved)
unfolding receive_upload_file_response
receive_upload_file_response_first seq f [] more r port approved h e =
    rw (e, receive_upload_file_response)
receive_upload_file_response_first seq f (n ∷ noise) more r port approved h e =
    rw (h.0, receive_upload_file_response)
      (receive_upload_file_response_first seq f noise more r port approved h.1 e)
