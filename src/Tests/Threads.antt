-- ===== src/Tests/Threads.antt =====
-- The theorems on the threads of the server at concrete inputs.
use distributed_server_clien.Prelude.Bytes.{str_eq, str_lt, contains, starts_with}
use distributed_server_clien.Prelude.{refl, false, [], ◌∷◌, ◌++◌, some, take}
use distributed_server_clien.Tests.Data.{
  old_name, new_name, folder, storage, disk, node, upload_net,
}
use distributed_server_clien.Tests.Start.{node-IsConsistent}
use distributed_server_clien.Protocol.Validation.{is_empty}
use distributed_server_clien.Server.FileSet.{has, insert}
use distributed_server_clien.Server.FileSystem.InMemory.{
  Files, in_memory, in_memory-IsReliable, update,
}
use distributed_server_clien.Server.Storage.{add_file_to_storage, check_and_reserve_space}
use distributed_server_clien.Server.Remove.{handle_remove_request}
use distributed_server_clien.Server.Upload.{Node, handle_upload_request}
use distributed_server_clien.Server.Consistency.{IsConsistent}
use distributed_server_clien.Server.Threads.{
  request_removal, reserved, listed, over, Handler, reserve, no_space, add, open_file, receive,
  stop, System, start, go, Steps, nothing, ◌then◌,
}
use distributed_server_clien.Server.Threads.Handlers.{Sound}
use distributed_server_clien.Server.Threads.Sound.{Steps-IsConsistent}
use distributed_server_clien.Server.Threads.Sequential.{
  RepliesFrom, handle_upload_request-RepliesFrom,
}

abbrev small : Handler
small = record { filename = new_name; file_size = 2; phase = listed }

abbrev big : Handler
big = record { filename = old_name; file_size = 50; phase = reserved }

-- Two uploads: the first one reserves its space, then the second one runs up to its name.
abbrev two_uploads : System in_memory
two_uploads = record {
  node = record {
    storage = record {
      used_space = 55;
      max_available_space = 100;
      files_in_storage = old_name ∷ new_name ∷ [];
    };
    shared_folder = folder;
    disk = disk;
  };
  handlers = small ∷ big ∷ [];
}

-- One upload to its end, one that is too big, and then a removal.
abbrev uploaded_node : Node Files
uploaded_node = record {
  storage = record {
    used_space = 5;
    max_available_space = 100;
    files_in_storage = old_name ∷ new_name ∷ [];
  };
  shared_folder = folder;
  disk =
      in_memory.write (update disk (folder ++ new_name) (some [])) (folder ++ new_name)
        (5 ∷ 6 ∷ []);
}

abbrev after_uploads : System in_memory
after_uploads = record {
  node = handle_remove_request in_memory uploaded_node old_name;
  handlers =
      record { filename = old_name; file_size = 1000; phase = over }
      ∷ record { filename = new_name; file_size = 2; phase = over }
      ∷ [];
}

uploads_end : Steps in_memory (record { node = node; handlers = [] }) after_uploads
unfolding contains starts_with is_empty check_and_reserve_space add_file_to_storage has insert
    str_eq str_lt take
uploads_end =
    start node [] new_name 2 refl
    then go _ _ _ _ _ _ _ _ (reserve refl)
    then go _ _ _ _ _ _ _ _ (add refl)
    then go _ _ _ _ _ _ _ _ (open_file false _ refl)
    then go _ _ _ _ _ _ _ _ (receive 2 false (5 ∷ 6 ∷ []) refl)
    then go _ _ _ _ _ _ _ _ (stop 0 false)
    then start _ _ old_name 1000 refl
    then go _ _ _ _ _ _ _ _ (no_space refl)
    then request_removal uploaded_node _ old_name refl
    then nothing

Steps-IsConsistent_example : IsConsistent in_memory 100 after_uploads.node
Steps-IsConsistent_example =
    Steps-IsConsistent in_memory in_memory-IsReliable 100 node after_uploads uploads_end
      node-IsConsistent (refl, (refl, tt))

handle_upload_request-RepliesFrom_example :
    RepliesFrom in_memory folder new_name 3 []
      (record { node = node; handlers = [] })
      (handle_upload_request in_memory upload_net node 7 new_name 3)
unfolding contains starts_with is_empty
handle_upload_request-RepliesFrom_example =
    handle_upload_request-RepliesFrom in_memory folder new_name 3 [] storage disk upload_net 7 refl
