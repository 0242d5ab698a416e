-- ===== src/Tests/Data.antt =====
-- The data of the tests: a server with one file, and a network on which all goes well.
use distributed_server_clien.Prelude.Bytes.{Bytes, NoNul}
use distributed_server_clien.Prelude.{List, [], ◌∷◌, none, some, true, arith}
use distributed_server_clien.Server.FileSystem.InMemory.{Files, update}
use distributed_server_clien.Server.Storage.{Storage}
use distributed_server_clien.Server.Upload.{Node, UploadNet}
use distributed_server_clien.Server.Download.{DownloadNet}

abbrev pub old_name : Bytes
old_name = b'a' ∷ b'b' ∷ []

abbrev pub new_name : Bytes
new_name = b'b' ∷ b'c' ∷ []

pub old_name-NoNul : NoNul old_name
old_name-NoNul = (omega arith, (omega arith, tt))

pub new_name-NoNul : NoNul new_name
new_name-NoNul = (omega arith, (omega arith, tt))

abbrev pub folder : Bytes
folder = b'd' ∷ b'/' ∷ []

abbrev pub old_content : Bytes
old_content = 1 ∷ 2 ∷ 3 ∷ []

abbrev pub storage : Storage
storage = record { used_space = 3; max_available_space = 100; files_in_storage = old_name ∷ [] }

abbrev pub disk : Files
disk = update (λ p. none) (b'd' ∷ b'/' ∷ b'a' ∷ b'b' ∷ []) (some old_content)

abbrev pub node : Node Files
node = record { storage = storage; shared_folder = folder; disk = disk }

abbrev pub chunks : List Bytes
chunks = (5 ∷ 6 ∷ []) ∷ (7 ∷ []) ∷ []

abbrev pub upload_net : UploadNet
upload_net = record {
  listening = true;
  port = 4000;
  sendto = λ k. some k;
  select = some 1;
  accept = true;
  reads = some (5 ∷ 6 ∷ []) ∷ some (7 ∷ []) ∷ [];
}

abbrev pub download_net : DownloadNet
download_net = record {
  listening = true;
  port = 4000;
  sendto = λ k. some k;
  select = some 1;
  accept = true;
  write = λ k. true;
}
