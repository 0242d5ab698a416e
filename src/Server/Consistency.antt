-- ===== src/Server/Consistency.antt =====
-- The books of the server and its disk agree: class Server of server/server.h between two requests.
pub mod Sizes
pub mod Books
pub mod Handlers
pub mod Run
pub mod Start
use distributed_server_clien.Prelude.Bytes.{Bytes}
use distributed_server_clien.Prelude.{
  ℕ, ◌+◌, ◌^◌, ◌≤◌, ◌<◌, ◌≡◌, List, [], ◌∷◌, Option, none, some, ◌++◌, true, length,
}
use distributed_server_clien.Server.FileSystem.{FileSystem, present}
use distributed_server_clien.Server.FileSet.Order.{IsSorted}
use distributed_server_clien.Server.Storage.{Storage}
use distributed_server_clien.Server.Upload.{Node}

-- The files under the names, as a function of the name.
abbrev pub Contents : Type 0
Contents = Bytes → Option Bytes

abbrev pub byte_count : Option Bytes → ℕ
byte_count none = 0
byte_count (some bs) = length bs

abbrev pub total : Contents → List Bytes → ℕ
total c [] = 0
total c (f ∷ fs) = byte_count (c f) + total c fs

abbrev pub AllPresent : Contents → List Bytes → Type 0
AllPresent c [] = Unit {0}
AllPresent c (f ∷ fs) = (present (c f) ≡ true) × AllPresent c fs

-- Every name in storage is a file, and the counter is the size of these files, which is at most
-- `limit`; that is `max_available_space`, or what the server found at its start if that was more.
pub record Agree (limit : ℕ) (s : Storage) (c : Contents) : Type 0 where
  pub sorted : IsSorted s.files_in_storage
  pub files : AllPresent c s.files_in_storage
  pub counted : s.used_space ≡ total c s.files_in_storage
  pub bounded : s.used_space ≤ limit
  pub room : s.max_available_space ≤ limit
  pub word : limit < 2 ^ 64

module _ (fs : FileSystem) where
  open fs use {Disk, content}

  -- What the shared folder holds under each name.
  abbrev pub contents : Node Disk → Contents
  contents node f = content node.disk (node.shared_folder ++ f)

  abbrev pub IsConsistent : ℕ → Node Disk → Type 0
  IsConsistent limit node = Agree limit node.storage (contents node)
