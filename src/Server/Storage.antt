-- ===== src/Server/Storage.antt =====
-- The storage of a server node: the set of names and the space counter of class Server. Each
-- operation runs under its mutex, so it is one step. The counter is a uint64_t.
pub mod Space
pub mod Accounting
pub mod Start
use distributed_server_clien.Prelude.Bytes.{Bytes}
use distributed_server_clien.Prelude.{
  ℕ, ◌+◌, ◌-◌, Bool, true, false, not, ◌||◌, List, [], ◌∷◌, ltb, if◌then◌else◌,
}
use distributed_server_clien.Words.{u64, sub64}
use distributed_server_clien.Server.FileSet.{has, insert, erase}

pub record Storage : Type 0 where
  pub used_space : ℕ
  pub max_available_space : ℕ
  pub files_in_storage : List Bytes

unfoldable pub add_file_to_storage : Storage → Bytes → Storage × Bool
add_file_to_storage s filename = (
  record s { files_in_storage = insert filename s.files_in_storage },
  not (has filename s.files_in_storage),
)

-- The number is that of the elements erased.
unfoldable pub remove_file_from_storage : Storage → Bytes → Storage × ℕ
remove_file_from_storage s filename = (
  record s { files_in_storage = erase filename s.files_in_storage },
  if has filename s.files_in_storage then 1 else 0,
)

unfoldable pub is_in_storage : Storage → Bytes → Bool
is_in_storage s filename = has filename s.files_in_storage

unfoldable pub get_available_space : Storage → ℕ
get_available_space s =
    if ltb s.max_available_space s.used_space then 0 else s.max_available_space - s.used_space

unfoldable pub check_and_reserve_space : Storage → ℕ → Storage × Bool
check_and_reserve_space s size =
    if ltb s.max_available_space size || ltb (s.max_available_space - size) s.used_space
    then (s, false)
    else (record s { used_space = u64 (s.used_space + size) }, true)

unfoldable pub free_space : Storage → ℕ → Storage
free_space s size = record s { used_space = sub64 s.used_space size }

-- What `generate_files_in_storage` sees of the shared folder, by boost::filesystem.
pub record Entry : Type 0 where
  pub name : Bytes
  pub is_regular_file : Bool
  pub file_size : ℕ

-- The loop of `generate_files_in_storage`.
unfoldable pub add_entries : Storage → List Entry → Storage
add_entries s [] = s
add_entries s (e ∷ es) =
    add_entries
      (if e.is_regular_file
        then record s {
          files_in_storage = insert e.name s.files_in_storage;
          used_space = u64 (s.used_space + e.file_size);
        }
        else s)
      es

pub data Started : Type 0 where
  no_folder not_a_directory : Started
  started : Storage → Started

unfoldable pub generate_files_in_storage : Bool → Bool → List Entry → Storage → Started
unfolding add_entries
generate_files_in_storage exists is_directory entries s =
    if not exists
    then no_folder
    else if not is_directory
    then not_a_directory
    else started (add_entries s entries)
