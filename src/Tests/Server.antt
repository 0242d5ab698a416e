-- ===== src/Tests/Server.antt =====
-- The theorems on the server at concrete inputs.
use distributed_server_clien.Prelude.Bytes.{Bytes, str_eq, contains, starts_with}
use distributed_server_clien.Prelude.{
  ℕ, ◌+◌, ◌-◌, ◌^◌, ◌≤◌, ◌≡◌, ◌↔◌, ◌⊎◌, refl, true, false, [], ◌∷◌, ◌++◌, none, some, arith,
  if◌then◌else◌, ap, get_or, replicate, length-replicate,
}
use distributed_server_clien.Tests.Data.{
  old_name, new_name, folder, old_content, storage, disk, node, upload_net, chunks,
}
use distributed_server_clien.Server.FileSystem.InMemory.{
  Files, in_memory, in_memory-IsReliable, update,
}
use distributed_server_clien.Server.FileSet.{has}
use distributed_server_clien.Server.Storage.{
  remove_file_from_storage, is_in_storage, get_available_space, check_and_reserve_space, free_space,
}
use distributed_server_clien.Server.Storage.Space.{check_and_reserve_space-get_available_space}
use distributed_server_clien.Server.Storage.Accounting.{
  nothing, ◌then◌, reserve, release, Accounted, Steps-Accounted,
}
use distributed_server_clien.Server.FilesList.{reply_texts}
use distributed_server_clien.Server.FilesList.Replies.{
  reply_texts_drops, AllFit, reply_texts-AllFit,
}
use distributed_server_clien.Server.Upload.{Node, handle_upload_request, give_up}
use distributed_server_clien.Server.Upload.Transfer.{join_chunks}
use distributed_server_clien.Server.Upload.Atomic.{with_file}
use distributed_server_clien.Server.Upload.Outcome.{
  Booked, Kept, handle_upload_request-Booked, handle_upload_request-Kept,
}
use distributed_server_clien.Server.Remove.{handle_remove_request}
use distributed_server_clien.Server.Remove.Restore.{handle_remove_request-Stored}
use distributed_server_clien.Server.Remove.Interleaving.{removed_partial, give_up-removed_partial}
use distributed_server_clien.Protocol.Validation.{is_empty}
use distributed_server_clien.Server.Remove.{remove_from_disk}
use distributed_server_clien.Tests.Start.{in_memory-Removable}
use distributed_server_clien.Server.Remove.Lost.{remove_from_disk-handle_upload_request}
use distributed_server_clien.Server.Upload.Complete.{acceptance}
use distributed_server_clien.Server.Download.{Sent, send_loop}
use distributed_server_clien.Server.Download.Chunks.{send_loop_prefix}

contains_nil : (s : Bytes) → contains [] s ≡ true
unfolding contains starts_with
contains_nil [] = refl
contains_nil (b ∷ bs) = refl

handle_upload_request-Booked_example :
    Booked in_memory in_memory-IsReliable node new_name 3
      (handle_upload_request in_memory upload_net node 7 new_name 3)
handle_upload_request-Booked_example =
    handle_upload_request-Booked in_memory in_memory-IsReliable upload_net node 7 new_name 3
      (tt, tt) (omega arith)

handle_upload_request-Kept_example :
    Kept in_memory in_memory-IsReliable node
      (folder ++ old_name)
      (handle_upload_request in_memory upload_net node 7 new_name 3)
handle_upload_request-Kept_example =
    handle_upload_request-Kept in_memory in_memory-IsReliable upload_net node 7 new_name 3 (tt, tt)
      (omega arith) (folder ++ old_name) (λ e. omega (arith, ap (λ xs. get_or xs 2 0) e))

Steps-Accounted_example :
    Accounted
      (record { storage = free_space (check_and_reserve_space storage 5).0 3; reserved = 5 ∷ [] })
unfolding check_and_reserve_space
Steps-Accounted_example =
    Steps-Accounted
      (reserve storage (3 ∷ []) 5 refl
        then release (check_and_reserve_space storage 5).0 (5 ∷ []) [] 3
        then nothing)
      (record { counted = omega arith; bounded = omega arith; word = omega arith })

abbrev stored_node : Node Files
stored_node = record {
  storage = with_file storage new_name 3;
  shared_folder = folder;
  disk = update disk (folder ++ new_name) (some (5 ∷ 6 ∷ 7 ∷ []));
}

handle_remove_request-Stored_example :
    ((handle_remove_request in_memory stored_node new_name).storage ≡ storage)
    × ((handle_remove_request in_memory stored_node new_name).disk (folder ++ new_name) ≡ none)
unfolding has str_eq
handle_remove_request-Stored_example =
    handle_remove_request-Stored in_memory in_memory-IsReliable node stored_node new_name 3
      (update stored_node.disk (folder ++ new_name) none) (omega arith) refl
      (record {
        is_new = refl;
        fits = omega arith;
        storage = refl;
        whole = (5 ∷ 6 ∷ 7 ∷ [], refl, refl);
      })
      refl

give_up-removed_partial_example :
    ((give_up (removed_partial (with_file storage new_name 50) new_name 40) new_name 50).used_space
      ≡ 2 ^ 64 + 3 - 40)
    × (get_available_space
          (give_up (removed_partial (with_file storage new_name 50) new_name 40) new_name 50)
        ≡ 0)
give_up-removed_partial_example =
    give_up-removed_partial storage new_name 50 40 (omega arith) (omega arith) (omega arith)
      (omega arith)

remove_from_disk-handle_upload_request_example :
    (node' : Node Files) × (last : Node Files) × (handle_upload_request in_memory upload_net
        (record node { storage = (remove_file_from_storage storage old_name).0 })
        7
        old_name
        3
      ≡ some (node', some (acceptance 7 4000)))
    × (node'.disk (folder ++ old_name) ≡ some (5 ∷ 6 ∷ 7 ∷ []))
    × (remove_from_disk in_memory node' node'.storage (folder ++ old_name) ≡ last)
    × (is_in_storage last.storage old_name ≡ true)
    × (last.disk (folder ++ old_name) ≡ none)
    × (last.storage.used_space ≡ 3)
unfolding is_empty contains starts_with
remove_from_disk-handle_upload_request_example =
    remove_from_disk-handle_upload_request in_memory in_memory-IsReliable upload_net node 7 old_name
      chunks 1 (update disk (folder ++ old_name) (some [])) (in_memory-Removable folder old_name)
      refl (tt, tt) (omega arith) (omega arith) refl refl refl refl refl refl
      (omega arith, omega arith, (omega arith, omega arith, tt)) refl

send_loop_prefix_example :
    (s : Sent) × (left : Bytes) × (send_loop 1 (λ k. false) 0 old_content ≡ some s)
    × (join_chunks s.chunks ++ left ≡ old_content)
    × ((s.complete ≡ false) ⊎ (left ≡ []))
send_loop_prefix_example = send_loop_prefix 1 (λ k. false) 0 old_content (omega arith)

reply_texts-AllFit_example : AllFit (reply_texts [] (old_name ∷ new_name ∷ []))
reply_texts-AllFit_example = reply_texts-AllFit [] (old_name ∷ new_name ∷ [])

-- A name that no reply to a search can hold together with another one.
abbrev long_name : Bytes
long_name = replicate 65488 b'a'

reply_texts_drops_example : reply_texts [] (long_name ∷ old_name ∷ []) ≡ long_name ∷ []
reply_texts_drops_example =
    reply_texts_drops [] long_name old_name (contains_nil long_name) (contains_nil old_name)
      (omega (arith, length-replicate {0} {A = ℕ} 65488 b'a'))
      (omega (arith, length-replicate {0} {A = ℕ} 65488 b'a'))
      (omega (arith, length-replicate {0} {A = ℕ} 65488 b'a'))

check_and_reserve_space-get_available_space_example :
    (((check_and_reserve_space storage 5).1 ≡ true) ↔ (5 ≤ get_available_space storage))
    × (get_available_space (check_and_reserve_space storage 5).0
          + (if (check_and_reserve_space storage 5).1 then 5 else 0)
        ≡ get_available_space storage)
check_and_reserve_space-get_available_space_example =
    check_and_reserve_space-get_available_space storage 5 (omega arith) (omega arith)
