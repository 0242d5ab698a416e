-- ===== src/Tests/Exchange.antt =====
-- The theorems on the exchanges at concrete inputs.
use distributed_server_clien.Prelude.Bytes.{Bytes, str_eq, contains, starts_with}
use distributed_server_clien.Prelude.{ℕ, ◌≡◌, refl, inr, inl, false, [], ◌∷◌, some, arith, map}
use distributed_server_clien.Tests.Data.{
  old_name, new_name, old_name-NoNul, new_name-NoNul, node, upload_net,
}
use distributed_server_clien.Server.FileSystem.InMemory.{in_memory}
use distributed_server_clien.Server.FileSet.{has}
use distributed_server_clien.Server.Request.{upload, request, receive_request}
use distributed_server_clien.Server.Upload.{handle_upload_request}
use distributed_server_clien.Server.Download.{}
use distributed_server_clien.Server.FilesList.{handle_files_list_request}
use distributed_server_clien.Server.FilesList.Replies.{matching, one_reply}
use distributed_server_clien.Client.Replies.{search_reply, upload_reply}
use distributed_server_clien.Exchange.Requests.{datagram_of, receive_request-datagram_of}
use distributed_server_clien.Exchange.Replies.{}
use distributed_server_clien.Exchange.Transfers.{}
use distributed_server_clien.Client.Transfer.{}
use distributed_server_clien.Exchange.Replies.Refusal.{handle_upload_request_refuses}
use distributed_server_clien.Exchange.Replies.Listing.{search_reply-handle_files_list_request}

handle_upload_request_refuses_example :
    (reply : Bytes) × (port : ℕ) × (handle_upload_request in_memory upload_net node 7 old_name 5
      ≡ some (node, some reply))
    × (upload_reply 7 old_name (some reply) ≡ some (port, false))
unfolding has str_eq
handle_upload_request_refuses_example =
    handle_upload_request_refuses in_memory upload_net 7 old_name node 5 (omega arith)
      old_name-NoNul (omega arith) refl (tt, tt) (omega arith) (inr (inl refl))

search_reply-handle_files_list_request_example :
    map
      (search_reply 7)
      (handle_files_list_request (λ k. some k) 7 (b'c' ∷ []) (old_name ∷ new_name ∷ []))
    ≡ map some (one_reply (matching (b'c' ∷ []) (old_name ∷ new_name ∷ [])))
unfolding contains starts_with
search_reply-handle_files_list_request_example =
    search_reply-handle_files_list_request (λ k. some k) (λ k. refl) 7 (omega arith) (b'c' ∷ [])
      (old_name ∷ new_name ∷ []) (old_name-NoNul, (new_name-NoNul, tt))
      (omega arith, (omega arith, tt)) (omega arith)

receive_request-datagram_of_example :
    receive_request (datagram_of 7 (upload 7 old_name 300)) ≡ some (request (upload 7 old_name 300))
receive_request-datagram_of_example =
    receive_request-datagram_of 7 (upload 7 old_name 300) (omega arith)
      (omega arith, old_name-NoNul, omega arith, omega arith)
